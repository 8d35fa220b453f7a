-- ===== src/Text/Split.antt =====
-- `strings.SplitN` at one byte, and what it does to texts that were joined by that byte.
use auctioneer.Base.{
  ℕ, zero, suc, ◌≡◌, refl, true, false, List, [], ◌∷◌, ◌++◌, append_assoc, append-nil, arith, ◌==◌,
  Lacks,
}

-- `cur` is the part that is being read; `cuts` is how many separators may still be used.
split_from : ℕ → ℕ → List ℕ → List ℕ → List (List ℕ)
split_from sep cuts [] cur = cur ∷ []
split_from sep zero (c ∷ s) cur = (cur ++ c ∷ s) ∷ []
split_from sep (suc cuts) (c ∷ s) cur = elim (c == sep) [
  | true ↦ cur ∷ split_from sep cuts s []
  | false ↦ split_from sep (suc cuts) s (cur ++ c ∷ [])
]

-- strings.SplitN(s, sep, n + 1)
unfoldable pub split_n : ℕ → ℕ → List ℕ → List (List ℕ)
unfolding split_from
split_n sep n s = split_from sep n s []

-- The parts of `s` and `rest`, joined by the separator, are the part `s` and the parts of `rest`.
split_from-join :
    (sep cuts : ℕ) (s rest cur : List ℕ)
    → Lacks sep s
    → split_from sep (suc cuts) (s ++ sep ∷ rest) cur ≡ (cur ++ s) ∷ split_from sep cuts rest []
unfolding split_from
split_from-join sep cuts [] rest cur h = rw append-nil (ground arith)
split_from-join sep cuts (c ∷ s) rest cur (hc, hs) =
    ground (arith, split_from-join sep cuts s rest (cur ++ c ∷ []) hs, append_assoc cur (c ∷ []) s)

split_from_last : (sep : ℕ) (s : List ℕ) → split_from sep 0 s [] ≡ s ∷ []
unfolding split_from
split_from_last sep [] = refl
split_from_last sep (c ∷ s) = refl

pub split_n-join :
    (sep cuts : ℕ) (s rest : List ℕ)
    → Lacks sep s
    → split_n sep (suc cuts) (s ++ sep ∷ rest) ≡ s ∷ split_n sep cuts rest
unfolding split_n
split_n-join sep cuts s rest h = split_from-join sep cuts s rest [] h

pub split_n_last : (sep : ℕ) (s : List ℕ) → split_n sep 0 s ≡ s ∷ []
unfolding split_n
split_n_last = split_from_last

-- A text without the separator is one part.
split_from_whole :
    (sep cuts : ℕ) (s cur : List ℕ) → Lacks sep s → split_from sep cuts s cur ≡ (cur ++ s) ∷ []
unfolding split_from
split_from_whole sep cuts [] cur h = rw (append-nil cur) refl
split_from_whole sep zero (c ∷ s) cur h = refl
split_from_whole sep (suc cuts) (c ∷ s) cur (hc, hs) =
    ground
      (arith, split_from_whole sep (suc cuts) s (cur ++ c ∷ []) hs, append_assoc cur (c ∷ []) s)

pub split_n_whole : (sep cuts : ℕ) (s : List ℕ) → Lacks sep s → split_n sep cuts s ≡ s ∷ []
unfolding split_n
split_n_whole sep cuts s h = split_from_whole sep cuts s [] h
