-- ===== src/Bench/LoadTest/BidIds.antt =====
-- bench/loadtest/main.go: the bid ids of the requests.
use auctioneer.Base.{
  ℕ, ◌≤◌, ==_refl, ◌≡◌, ◌≢◌, ◌∙◌, sym, ap, List, [], ◌∷◌, ◌++◌, map, arith, All, Lacks,
}
use mathlib.Core.List.{append_cancel_left}
use auctioneer.Text.{Bytes, codes}
use auctioneer.Text.Decimal.{digits, digits-IsDigit, IsDigit, value, value-digits}
use auctioneer.Transport.Grpc.{PlaceBidMessage}
use auctioneer.Bench.LoadTest.{request}
use auctioneer.Bench.LoadTest.Counts.{Placed, times}

-- No text of the list occurs twice.
abbrev pub AllDiffer : List Bytes → Type 0
AllDiffer [] = Unit
AllDiffer (x ∷ xs) = All (λ y. x ≢ y) xs × AllDiffer xs

digits-Lacks : (s : List ℕ) → All IsDigit s → Lacks b'-' s
digits-Lacks [] _ = tt
digits-Lacks (c ∷ s) (h, hs) = ((λ e. omega arith), digits-Lacks s hs)

-- What stands behind the first `c`.
behind_first :
    (c : ℕ) (s s' t t' : List ℕ) → Lacks c s → Lacks c s' → s ++ c ∷ t ≡ s' ++ c ∷ t' → t ≡ t'
behind_first c [] [] t t' _ _ e = cc
behind_first c [] (x ∷ s') t t' _ (other, _) e = absurd (other (cc))
behind_first c (x ∷ s) [] t t' (other, _) _ e = absurd (other (cc))
behind_first c (x ∷ s) (y ∷ s') t t' (_, h) (_, h') e = behind_first c s s' t t' h h' (cc)

digits_injective : (m n : ℕ) → digits m ≡ digits n → m ≡ n
digits_injective m n e = sym (value-digits m) ∙ ap (value 0) e ∙ value-digits n

bid_id_injective :
    (a : Bytes) (v w m n : ℕ) → (request a v m).bid_id ≡ (request a w n).bid_id → m ≡ n
unfolding request
bid_id_injective a v w m n e = digits_injective m n (
    behind_first b'-' (digits v) (digits w) (digits m) (digits n)
      (digits-Lacks _ (digits-IsDigit v)) (digits-Lacks _ (digits-IsDigit w))
      (append_cancel_left (codes "load-") _ _ e))

later-Differ :
    (a : Bytes) (w m : ℕ) (ns : List ℕ) (bs : List PlaceBidMessage)
    → times m ns ≡ 0
    → Placed a ns bs
    → All (λ y. (request a w m).bid_id ≢ y) (map PlaceBidMessage.bid_id bs)
unfolding times
later-Differ a w m [] [] lacks _ = tt
later-Differ a w m [] (b ∷ bs) lacks h = absurd h
later-Differ a w m (n ∷ ns) [] lacks h = absurd h
later-Differ a w m (n ∷ ns) (b ∷ bs) lacks ((v, same), others) = (
  (λ e.
      let number = bid_id_injective a w v m n (e ∙ ap PlaceBidMessage.bid_id same) in
      ground (arith, number, lacks)),
  later-Differ a w m ns bs (omega (arith, lacks)) others,
)

-- Bids of numbers of which none is there twice have different ids.
pub Placed-AllDiffer :
    (a : Bytes) (ns : List ℕ) (bs : List PlaceBidMessage)
    → ((m : ℕ) → times m ns ≤ 1)
    → Placed a ns bs
    → AllDiffer (map PlaceBidMessage.bid_id bs)
unfolding times
Placed-AllDiffer a [] [] few _ = tt
Placed-AllDiffer a [] (b ∷ bs) few h = absurd h
Placed-AllDiffer a (n ∷ ns) [] few h = absurd h
Placed-AllDiffer a (n ∷ ns) (b ∷ bs) few ((w, same), others) = (
  rw same (later-Differ a w n ns bs (ground (arith, few n, ==_refl n)) others),
  Placed-AllDiffer a ns bs (λ m. omega (arith, few m)) others,
)
