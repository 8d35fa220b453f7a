-- ===== src/Transport/Ws/Hub/Sets.antt =====
-- Sets of clients as lists without repetition, and the map of the sets.
use auctioneer.Base.{
  ℕ, ◌≡◌, ◌∙◌, ◌≢◌, refl, ◌==◌, Bool, true, false, ◌||◌, Option, none, some, List, [], ◌∷◌, arith,
  if◌then◌else◌, ltb, length, Bool-cases, inl, inr,
}
use auctioneer.Text.{Bytes, bytes_eq}
use auctioneer.Text.Map
use auctioneer.Text.Map.{Map, get-delete, get-put}
use auctioneer.Transport.Ws.Hub.{Client, member, add, remove, remove_all, store_set}

abbrev pub HasNoRepeat : List ℕ → Type 0
HasNoRepeat [] = Unit
HasNoRepeat (c ∷ cs) = (member c cs ≡ false) × HasNoRepeat cs

pub add-HasNoRepeat : (c : ℕ) (cs : List ℕ) → HasNoRepeat cs → HasNoRepeat (add c cs)
unfolding add
add-HasNoRepeat c cs h = elim (Bool-cases (member c cs)) [
  | inl old ↦ rw old h
  | inr new ↦ rw new (new, h)
]

pub add-ne-nil : (c : ℕ) (cs : List ℕ) → add c cs ≢ []
unfolding add
add-ne-nil c [] e = cc
add-ne-nil c (d ∷ cs) e = ground arith

pub member-add : (c d : ℕ) (cs : List ℕ) → member d (add c cs) ≡ (c == d || member d cs)
unfolding add
member-add c d cs = elim (Bool-cases (member c cs)) [
  | inl old ↦ rw old (ground (arith, old_member c d cs old))
  | inr new ↦ rw new
]
  where
    old_member : (c d : ℕ) (cs : List ℕ) → member c cs ≡ true → c ≡ d → member d cs ≡ true
    old_member c d cs m e = rw (← e) m

pub member-remove :
    (c d : ℕ) (cs : List ℕ) → member d (remove c cs) ≡ (if c == d then false else member d cs)
unfolding remove
member-remove c d [] = ground arith
member-remove c d (x ∷ cs) = ground (arith, member-remove c d cs)

pub remove-HasNoRepeat : (c : ℕ) (cs : List ℕ) → HasNoRepeat cs → HasNoRepeat (remove c cs)
unfolding remove
remove-HasNoRepeat c [] h = tt
remove-HasNoRepeat c (x ∷ cs) (n, h) =
    ground (arith, remove-HasNoRepeat c cs h, member-remove c x cs)

remove_absent : (c : ℕ) (cs : List ℕ) → member c cs ≡ false → remove c cs ≡ cs
unfolding remove
remove_absent c [] h = refl
remove_absent c (x ∷ cs) h = ground (arith, remove_absent c cs)

pub remove_all-HasNoRepeat : (ds cs : List ℕ) → HasNoRepeat cs → HasNoRepeat (remove_all ds cs)
unfolding remove_all
remove_all-HasNoRepeat [] cs h = h
remove_all-HasNoRepeat (d ∷ ds) cs h =
    remove_all-HasNoRepeat ds (remove d cs) (remove-HasNoRepeat d cs h)

-- What `store_set` keeps of a set: nothing of an empty one.
abbrev pub as_set : List ℕ → Option (List ℕ)
as_set [] = none
as_set (c ∷ cs) = some (c ∷ cs)

pub get-store_set :
    (k j : Bytes) (cs : List ℕ) (m : Map (List ℕ))
    → Map.get j (store_set k cs m) ≡ (if bytes_eq k j then as_set cs else Map.get j m)
unfolding store_set
get-store_set k j [] m = get-delete k j m
get-store_set k j (c ∷ cs) m = get-put k j (c ∷ cs) m

abbrev pub has_room : Client → Bool
has_room c = ltb (length c.send) c.capacity

-- The clients of a list whose channel is full, and those that have room.
unfoldable pub full_ones : (ℕ → Client) → List ℕ → List ℕ
full_ones heap [] = []
full_ones heap (c ∷ cs) =
    let rest = full_ones heap cs in if has_room (heap c) then rest else c ∷ rest

unfoldable pub with_room : (ℕ → Client) → List ℕ → List ℕ
with_room heap [] = []
with_room heap (c ∷ cs) =
    let rest = with_room heap cs in if has_room (heap c) then c ∷ rest else rest

member-full_ones :
    (heap : ℕ → Client) (c : ℕ) (cs : List ℕ)
    → member c cs ≡ false
    → member c (full_ones heap cs) ≡ false
unfolding full_ones
member-full_ones heap c [] h = refl
member-full_ones heap c (d ∷ cs) h = ground (arith, member-full_ones heap c cs)

remove_all-cons :
    (ds : List ℕ) (c : ℕ) (cs : List ℕ)
    → member c ds ≡ false
    → remove_all ds (c ∷ cs) ≡ c ∷ remove_all ds cs
unfolding remove_all remove
remove_all-cons [] c cs h = refl
remove_all-cons (d ∷ ds) c cs h = ground (arith, remove_all-cons ds c (remove d cs))

-- Without the full ones there are left those with room.
pub remove_all-full_ones :
    (heap : ℕ → Client) (cs : List ℕ)
    → HasNoRepeat cs
    → remove_all (full_ones heap cs) cs ≡ with_room heap cs
unfolding full_ones with_room
remove_all-full_ones heap [] h = unfold remove_all in refl
remove_all-full_ones heap (c ∷ cs) (n, h) = elim (Bool-cases (has_room (heap c))) [
  | inl room ↦ rw (
    room,
    remove_all-cons (full_ones heap cs) c cs (member-full_ones heap c cs n),
    remove_all-full_ones heap cs h,
  )
  | inr full ↦ rw full (dropped_first c cs n ∙ remove_all-full_ones heap cs h)
]
  where
    dropped_first :
        (c : ℕ) (cs : List ℕ)
        → member c cs ≡ false
        → remove_all (c ∷ full_ones heap cs) (c ∷ cs) ≡ remove_all (full_ones heap cs) cs
    dropped_first c cs n = unfold remove_all remove in ground (arith, remove_absent c cs n)
