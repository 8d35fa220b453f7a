-- ===== src/Engine/Events/Streams.antt =====
-- What the engine relies on in XREAD: for each stream that is asked for, the entries behind the
-- given id, at most COUNT of them, in the order of the request; streams with none are left out, and
-- where all have none the reply is nil. `behind` says which entries have a greater id.
use auctioneer.Base.{
  ℕ, zero, suc, ◌≡◌, ◌≢◌, ◌∙◌, refl, sym, ap, append_assoc, append-nil, List, [], ◌∷◌, ◌++◌, map,
  if◌then◌else◌, ℤ, pos, negsuc, length, length-append, ◌+◌, ◌-◌, arith,
}
use auctioneer.Text.{Bytes, codes, bytes_eq, ne→bytes_eq}
use auctioneer.Engine.Redis.{Fields}
use auctioneer.Engine.Events.{Request, Answer, failed, nothing, streams}

abbrev pub Entry : Type 0
Entry = Bytes × Fields

-- The streams of each client.
abbrev pub World : Type 0
World = ℕ → Bytes → List Entry

abbrev pub take {ℓ} : {A : Type ℓ} → ℕ → List A → List A
take zero xs = []
take (suc n) [] = []
take (suc n) (x ∷ xs) = x ∷ take n xs

abbrev pub drop {ℓ} : {A : Type ℓ} → ℕ → List A → List A
drop zero xs = xs
drop (suc n) [] = []
drop (suc n) (x ∷ xs) = drop n xs

-- COUNT; go-redis leaves out one that is not positive.
unfoldable pub limited {ℓ} : {A : Type ℓ} → ℤ → List A → List A
limited (pos zero) xs = xs
limited (pos (suc n)) xs = take (suc n) xs
limited (negsuc n) xs = xs

abbrev pub concat {ℓ} : {A : Type ℓ} → List (List A) → List A
concat [] = []
concat (xs ∷ xss) = xs ++ concat xss

module _ (behind : Bytes → List Entry → List Entry) where
  -- Ids grow along a stream, and all are above 0-0.
  pub record HasIds (w : World) : Type 0 where
    pub from_start : (i : ℕ) (k : Bytes) → behind (codes "0-0") (w i k) ≡ w i k
    pub from_entry :
        (i : ℕ) (k : Bytes) (before after : List Entry) (id : Bytes) (fields : Fields)
        → w i k ≡ before ++ (id, fields) ∷ after
        → (id ≢ []) × (behind id (w i k) ≡ after)

  -- The entries that a request is to be answered with: keys and ids in pairs.
  unfoldable pub asked : World → ℕ → ℤ → List (Bytes × Bytes) → List Entry
  unfolding limited
  asked w i count [] = []
  asked w i count ((k, id) ∷ reads) = limited count (behind id (w i k)) ++ asked w i count reads

  -- An error is possible at any time.
  abbrev pub IsHonest : Answer → List Entry → Type 0
  IsHonest (failed e) entries = Unit
  IsHonest nothing entries = entries ≡ []
  IsHonest (streams ss) entries = concat ss ≡ entries

  -- STREAMS key ... id ...
  pub record Answers (w : World) (xread : Request → Answer) : Type 0 where
    pub answer :
        (r : Request) (reads : List (Bytes × Bytes))
        → r.streams ≡ map (λ x. x.0) reads ++ map (λ x. x.1) reads
        → IsHonest (xread r) (asked w r.client r.count reads)

-- The id of the last entry, or `o` where there is none.
unfoldable pub id_behind : Bytes → List Entry → Bytes
id_behind o [] = o
id_behind o ((id, fields) ∷ entries) = id_behind id entries

pub id_behind-append :
    (o : Bytes) (xs ys : List Entry) → id_behind o (xs ++ ys) ≡ id_behind (id_behind o xs) ys
unfolding id_behind
id_behind-append o [] ys = refl
id_behind-append o ((id, fields) ∷ xs) ys = id_behind-append id xs ys

-- Entries that are there end with one that has the id.
last_entry :
    (o : Bytes) (e : Entry) (rest : List Entry)
    → (front : List Entry) × (fields : Fields) × (e ∷ rest
        ≡ front ++ (id_behind o (e ∷ rest), fields) ∷ [])
unfolding id_behind
last_entry o (id, fields) [] = ([], fields, refl)
last_entry o (id, fields) (e ∷ rest) =
    let (front, last_fields, same) = last_entry id e rest in
    ((id, fields) ∷ front, last_fields, ap (λ es. (id, fields) ∷ es) same)

-- Reading on behind what was read gives the rest; an empty offset stands for the start.
pub behind-id_behind :
    (behind : Bytes → List Entry → List Entry) (w : World) (i : ℕ) (k : Bytes)
    (before after : List Entry)
    → HasIds behind w
    → w i k ≡ before ++ after
    → behind
        (if bytes_eq (id_behind (codes "0-0") before) []
          then codes "0-0"
          else id_behind (codes "0-0") before)
        (w i k)
      ≡ after
unfolding id_behind bytes_eq
behind-id_behind behind w i k [] after ids e = ids.from_start i k ∙ e
behind-id_behind behind w i k (x ∷ before) after ids e =
    let (front, fields, same) = last_entry (codes "0-0") x before in
    let (named, rest) =
      ids.from_entry i k front after _ fields
        (e ∙ ap (λ es. es ++ after) same ∙ append_assoc front _ after) in
    rw (ne→bytes_eq _ _ named) rest

take-drop {ℓ} : {A : Type ℓ} (n : ℕ) (xs : List A) → take n xs ++ drop n xs ≡ xs
take-drop zero xs = refl
take-drop (suc n) [] = refl
take-drop (suc n) (x ∷ xs) = ap (λ ys. x ∷ ys) (take-drop n xs)

pub limited-prefix {ℓ} :
    {A : Type ℓ} (count : ℤ) (xs : List A) → (rest : List A) × (xs ≡ limited count xs ++ rest)
unfolding limited
limited-prefix (pos zero) xs = ([], sym (append-nil xs))
limited-prefix (pos (suc n)) xs = (drop (suc n) xs, sym (take-drop (suc n) xs))
limited-prefix (negsuc n) xs = ([], sym (append-nil xs))

length-take {ℓ} :
    {A : Type ℓ} (n : ℕ) (xs : List A) → length (take n xs) + (length xs - n) ≡ length xs
length-take zero xs = omega arith
length-take (suc n) [] = omega arith
length-take (suc n) (x ∷ xs) = omega (arith, length-take n xs)

-- What a limit leaves over.
pub length-limited {ℓ} :
    {A : Type ℓ} (n : ℕ) (xs rest : List A)
    → xs ≡ limited (pos (suc n)) xs ++ rest
    → length rest ≡ length xs - suc n
unfolding limited
length-limited n xs rest e =
    omega (arith, ap length e, length-append (take (suc n) xs) rest, length-take (suc n) xs)
