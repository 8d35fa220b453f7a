-- ===== src/Text/Space/Trimmed.antt =====
-- Trimming a second time changes nothing.
use auctioneer.Base.{
  ℕ, zero, suc, ◌+◌, ◌≤◌, ◌≡◌, ◌≢◌, ◌∙◌, refl, sym, ap, Bool, true, false, Option, none, some, List,
  [], ◌∷◌, ◌++◌, map, ◌==◌, ==_iff, length, length-append, append_assoc, arith, Option-cases,
  Bool-cases, inl, inr, All,
}
use mathlib.Core.List
use mathlib.Core.List.{reverse-append, reverse-reverse}
use auctioneer.Text.{Bytes}
use auctioneer.Text.Space.{spaces, behind_prefix, behind_any, trim_prefixes, trim_space}

behind_prefix-split : (p s rest : Bytes) → behind_prefix p s ≡ some rest → s ≡ p ++ rest
unfolding behind_prefix
behind_prefix-split [] s rest e = cc e
behind_prefix-split (c ∷ p) [] rest e = absurd (cc e)
behind_prefix-split (c ∷ p) (d ∷ s) rest e = elim (Bool-cases (c == d)) [
  | inl same ↦
      (let tail = behind_prefix-split p s rest (rw (behind_prefix, same) at e) in
        ap (λ x. x ∷ s) (sym ((==_iff c d).0 same)) ∙ ap (λ t. c ∷ t) tail)
  | inr other ↦ absurd (cc (rw (behind_prefix, other) at e))
]

-- A prefix of a longer text.
behind_prefix-append :
    (p s rest more : Bytes)
    → behind_prefix p s ≡ some rest
    → behind_prefix p (s ++ more) ≡ some (rest ++ more)
unfolding behind_prefix
behind_prefix-append [] s rest more e =
    ap (λ o. elim o [ none ↦ none | some x ↦ some (x ++ more) ]) e
behind_prefix-append (c ∷ p) [] rest more e = absurd (cc e)
behind_prefix-append (c ∷ p) (d ∷ s) rest more e = elim (Bool-cases (c == d)) [
  | inl same ↦
      rw (behind_prefix, same) (behind_prefix-append p s rest more (rw (behind_prefix, same) at e))
  | inr other ↦ absurd (cc (rw (behind_prefix, other) at e))
]

behind_any-split :
    (ps : List Bytes) (s rest : Bytes)
    → All (λ p. p ≢ []) ps
    → behind_any ps s ≡ some rest
    → (p : Bytes) × (p ≢ []) × (s ≡ p ++ rest)
unfolding behind_any
behind_any-split [] s rest h e = absurd (cc e)
behind_any-split (p ∷ ps) s rest (hp, hs) e = elim (Option-cases (behind_prefix p s)) [
  | inl miss ↦ behind_any-split ps s rest hs (rw (behind_any, miss) at e)
  | inr (r, hit) ↦ (
    p,
    hp,
    behind_prefix-split p s r hit ∙ ap (λ t. p ++ t) (of_some (rw (behind_any, hit) at e)),
  )
]
  where
    of_some : {x y : Bytes} → some x ≡ some y → x ≡ y
    of_some f = cc f

-- What a text starts with, a longer text starts with.
behind_any-none :
    (ps : List Bytes) (s more : Bytes) → behind_any ps (s ++ more) ≡ none → behind_any ps s ≡ none
unfolding behind_any
behind_any-none [] s more e = refl
behind_any-none (p ∷ ps) s more e = elim (Option-cases (behind_prefix p s)) [
  | inr (r, hit) ↦ absurd (cc (rw (behind_any, behind_prefix-append p s r more hit) at e))
  | inl miss ↦
      rw (behind_any, miss) (behind_any-none ps s more (later (behind_prefix p (s ++ more)) refl))
]
  where
    later : (o : Option Bytes) → behind_prefix p (s ++ more) ≡ o → behind_any ps (s ++ more) ≡ none
    later none q = rw (behind_any, q) at e
    later (some r) q = absurd (cc (rw (behind_any, q) at e))

behind_prefix-nil : (p : Bytes) → p ≢ [] → behind_prefix p [] ≡ none
unfolding behind_prefix
behind_prefix-nil [] h = absurd (h refl)
behind_prefix-nil (c ∷ p) h = refl

behind_any-nil : (ps : List Bytes) → All (λ p. p ≢ []) ps → behind_any ps [] ≡ none
unfolding behind_any
behind_any-nil [] h = refl
behind_any-nil (p ∷ ps) (hp, hs) = rw (behind_any, behind_prefix-nil p hp) (behind_any-nil ps hs)

length_pos : (p : Bytes) → p ≢ [] → 1 ≤ length p
length_pos [] h = absurd (h refl)
length_pos (c ∷ p) h = omega arith

-- What is left has none of the prefixes, and is an end of the text.
trim_prefixes-none :
    (f : ℕ) (ps : List Bytes) (s : Bytes)
    → All (λ p. p ≢ []) ps
    → length s ≤ f
    → behind_any ps (trim_prefixes f ps s) ≡ none
unfolding trim_prefixes
trim_prefixes-none zero ps [] h few = behind_any-nil ps h
trim_prefixes-none zero ps (c ∷ s) h few = absurd (omega arith)
trim_prefixes-none (suc f) ps s h few = elim (Option-cases (behind_any ps s)) [
  | inl miss ↦ rw (trim_prefixes, miss) miss
  | inr (rest, hit) ↦
      (let (p, ne, split) = behind_any-split ps s rest h hit in
        rw (trim_prefixes, hit)
          (trim_prefixes-none f ps rest h
            (omega (arith, ap length split, length-append p rest, length_pos p ne))))
]

trim_prefixes-end :
    (f : ℕ) (ps : List Bytes) (s : Bytes)
    → All (λ p. p ≢ []) ps
    → (p : Bytes) × (s ≡ p ++ trim_prefixes f ps s)
unfolding trim_prefixes
trim_prefixes-end zero ps s h = ([], refl)
trim_prefixes-end (suc f) ps s h = elim (Option-cases (behind_any ps s)) [
  | inl miss ↦ ([], rw (trim_prefixes, miss) refl)
  | inr (rest, hit) ↦
      (let (p, ne, split) = behind_any-split ps s rest h hit in
        let (q, later) = trim_prefixes-end f ps rest h in
        (
          p ++ q,
          rw (trim_prefixes, hit)
              (split ∙ ap (λ t. p ++ t) later ∙ sym (append_assoc p q (trim_prefixes f ps rest))),
        ))
]

trim_prefixes-same :
    (f : ℕ) (ps : List Bytes) (s : Bytes) → behind_any ps s ≡ none → trim_prefixes f ps s ≡ s
unfolding trim_prefixes
trim_prefixes-same zero ps s e = refl
trim_prefixes-same (suc f) ps s e = rw (trim_prefixes, e) refl

length-reverse_aux : (xs r : Bytes) → length (List.reverse_aux xs r) ≡ length xs + length r
length-reverse_aux [] r = omega arith
length-reverse_aux (x ∷ xs) r = omega (arith, length-reverse_aux xs (x ∷ r))

none_empty : List Bytes → Bool
none_empty [] = true
none_empty ([] ∷ ps) = false
none_empty ((c ∷ p) ∷ ps) = none_empty ps

none_empty_lem : (ps : List Bytes) → none_empty ps ≡ true → All (λ p. p ≢ []) ps
unfolding none_empty
none_empty_lem [] e = tt
none_empty_lem ([] ∷ ps) e = absurd (cc e)
none_empty_lem ((c ∷ p) ∷ ps) e = (λ q. cc q, none_empty_lem ps e)

spaces_some : All (λ p. p ≢ []) spaces
unfolding none_empty
spaces_some = none_empty_lem spaces refl

reversed_some : All (λ p. p ≢ []) (map List.reverse spaces)
unfolding none_empty
reversed_some = none_empty_lem (map List.reverse spaces) refl

-- Trimming a second time changes nothing.
pub trim_space_again : (s : Bytes) → trim_space (trim_space s) ≡ trim_space s
unfolding trim_space
trim_space_again s =
    let t = trim_prefixes (length s) spaces s in
    let left = trim_prefixes-none (length s) spaces s spaces_some (omega arith) in
    let back = List.reverse t in
    let r = trim_prefixes (length t) (map List.reverse spaces) back in
    let right : behind_any (map List.reverse spaces) r ≡ none =
      trim_prefixes-none (length t) (map List.reverse spaces) back reversed_some
        (omega (arith, length-reverse_aux t [])) in
    let (p, split) = trim_prefixes-end (length t) (map List.reverse spaces) back reversed_some in
    let whole : t ≡ List.reverse r ++ List.reverse p =
      sym (reverse-reverse t) ∙ ap List.reverse split ∙ reverse-append p r in
    let starts : behind_any spaces (List.reverse r) ≡ none =
      behind_any-none spaces (List.reverse r) (List.reverse p)
        (ap (behind_any spaces) (sym whole) ∙ left) in
    rw (trim_prefixes-same (length (List.reverse r)) spaces (List.reverse r) starts) (
      rw (reverse-reverse r) (
        ap List.reverse
          (trim_prefixes-same (length (List.reverse r)) (map List.reverse spaces) r right)))
