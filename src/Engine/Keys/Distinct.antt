-- ===== src/Engine/Keys/Distinct.antt =====
-- The keys of two auctions, and the three keys of one, are all different.
use auctioneer.Base.{ℕ, ◌≡◌, refl, ap, false, Bool-cases, inl, inr, [], ◌∷◌, ◌++◌, arith, ◌∙◌, sym}
use mathlib.Core.List.{append_cancel_left, append_cancel_right}
use auctioneer.Text.{Bytes, codes, bytes_eq, bytes_eq_iff, bytes_eq_refl, ne→bytes_eq}
use auctioneer.Engine.Keys.{state_key, idem_key, events_key}

-- The last byte of a text behind `b`.
last : ℕ → Bytes → ℕ
last b [] = b
last b (c ∷ s) = last c s

last-append : (b c : ℕ) (s t : Bytes) → last b (s ++ c ∷ t) ≡ last c t
unfolding last
last-append b c [] t = refl
last-append b c (d ∷ s) t = last-append d c s t

last-state_key : (id : Bytes) → last 0 (state_key id) ≡ b'e'
unfolding state_key last
last-state_key id = last-append b'{' b'}' id (codes ":state")

last-idem_key : (id : Bytes) → last 0 (idem_key id) ≡ b'm'
unfolding idem_key last
last-idem_key id = last-append b'{' b'}' id (codes ":idem")

last-events_key : (id : Bytes) → last 0 (events_key id) ≡ b's'
unfolding events_key last
last-events_key id = last-append b'{' b'}' id (codes ":events")

-- A state key is no idempotency key, of whatever auctions.
pub idem_key-ne-state_key : (a b : Bytes) → bytes_eq (idem_key a) (state_key b) ≡ false
idem_key-ne-state_key a b =
    ne→bytes_eq _ _ λ e. omega (arith, ap (last 0) e, last-idem_key a, last-state_key b)

pub state_key-ne-idem_key : (a b : Bytes) → bytes_eq (state_key a) (idem_key b) ≡ false
state_key-ne-idem_key a b =
    ne→bytes_eq _ _ λ e. omega (arith, ap (last 0) e, last-state_key a, last-idem_key b)

pub idem_key-ne-events_key : (a b : Bytes) → bytes_eq (idem_key a) (events_key b) ≡ false
idem_key-ne-events_key a b =
    ne→bytes_eq _ _ λ e. omega (arith, ap (last 0) e, last-idem_key a, last-events_key b)

wrapped_injective : (a b t : Bytes) → codes "auc:{" ++ (a ++ t) ≡ codes "auc:{" ++ (b ++ t) → a ≡ b
wrapped_injective a b t e =
    append_cancel_right a b t (append_cancel_left (codes "auc:{") (a ++ t) (b ++ t) e)

wrapped_eq :
    (a b t : Bytes)
    → bytes_eq (codes "auc:{" ++ (a ++ t)) (codes "auc:{" ++ (b ++ t)) ≡ bytes_eq a b
wrapped_eq a b t = elim (Bool-cases (bytes_eq a b)) [
  | inl e ↦ rw ((bytes_eq_iff a b).0 e) (bytes_eq_refl _ ∙ sym (bytes_eq_refl b))
  | inr n ↦ rw n (ne→bytes_eq _ _ λ e. cc (n, (bytes_eq_iff a b).1 (wrapped_injective a b t e)))
]

-- Keys of one kind are equal exactly when their auctions are.
pub state_key-eq : (a b : Bytes) → bytes_eq (state_key a) (state_key b) ≡ bytes_eq a b
unfolding state_key
state_key-eq a b = wrapped_eq a b (codes "}:state")

pub idem_key-eq : (a b : Bytes) → bytes_eq (idem_key a) (idem_key b) ≡ bytes_eq a b
unfolding idem_key
idem_key-eq a b = wrapped_eq a b (codes "}:idem")

pub events_key-eq : (a b : Bytes) → bytes_eq (events_key a) (events_key b) ≡ bytes_eq a b
unfolding events_key
events_key-eq a b = wrapped_eq a b (codes "}:events")
