-- ===== src/Config/Addresses.antt =====
-- Addresses with commas between them: what splitAddrs makes of them.
use auctioneer.Base.{
  ℕ, zero, suc, ◌≤◌, ◌≡◌, ◌≢◌, refl, ap, ◌∙◌, List, [], ◌∷◌, ◌++◌, All, Lacks, arith, length,
  length-append,
}
use auctioneer.Text.{Bytes, ne→bytes_eq}
use auctioneer.Text.Space.{trim_space, split}
use auctioneer.Text.Split.{split_n, split_n-join, split_n_whole}
use auctioneer.Config.{split_addrs, non_empty}

-- Texts with commas between them.
abbrev pub joined : List Bytes → Bytes
joined [] = []
joined (a ∷ []) = a
joined (a ∷ b ∷ rest) = a ++ b',' ∷ joined (b ∷ rest)

-- A text that stays as it is as one of several addresses.
pub record IsAddress (a : Bytes) : Type 0 where
  pub not_empty : a ≢ []
  pub one_part : Lacks b',' a
  pub trimmed : trim_space a ≡ a

split_n-joined :
    (addrs : List Bytes) (cuts : ℕ)
    → addrs ≢ []
    → All IsAddress addrs
    → length addrs ≤ suc cuts
    → split_n b',' cuts (joined addrs) ≡ addrs
split_n-joined [] cuts ne h few = absurd (ne refl)
split_n-joined (a ∷ []) cuts ne (h, _) few = split_n_whole b',' cuts a h.one_part
split_n-joined (a ∷ b ∷ rest) zero ne (h, hs) few = absurd (omega arith)
split_n-joined (a ∷ b ∷ rest) (suc cuts) ne (h, hs) few =
    split_n-join b',' cuts a (joined (b ∷ rest)) h.one_part
    ∙ ap (λ parts. a ∷ parts) (split_n-joined (b ∷ rest) cuts (λ e. cc) hs (omega arith))

length-joined : (addrs : List Bytes) → addrs ≢ [] → length addrs ≤ suc (length (joined addrs))
length-joined [] ne = absurd (ne refl)
length-joined (a ∷ []) ne = omega arith
length-joined (a ∷ b ∷ rest) ne =
    omega (arith, length-append a (b',' ∷ joined (b ∷ rest)), length-joined (b ∷ rest) (λ e. cc))

non_empty_same : (addrs : List Bytes) → All IsAddress addrs → non_empty addrs ≡ addrs
unfolding non_empty
non_empty_same [] h = refl
non_empty_same (a ∷ addrs) (h, hs) =
    rw (non_empty, h.trimmed, ne→bytes_eq a [] h.not_empty, non_empty_same addrs hs) refl

pub split_addrs-joined :
    (addrs : List Bytes) → addrs ≢ [] → All IsAddress addrs → split_addrs (joined addrs) ≡ addrs
unfolding split_addrs split
split_addrs-joined addrs ne h =
    ap non_empty (split_n-joined addrs (length (joined addrs)) ne h (length-joined addrs ne))
    ∙ non_empty_same addrs h
