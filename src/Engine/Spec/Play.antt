-- ===== src/Engine/Spec/Play.antt =====
-- Bids on an auction of the specification, one after the other.
use auctioneer.Base.{
  suc, ◌≡◌, ◌∙◌, refl, sym, Bool-cases, true, List, [], ◌∷◌, arith, All, ◌⊎◌, inl, inr, ℤ, leb_ℤ,
  ◌≤ℤ◌, ◌<ℤ◌, if◌then◌else◌,
}
use mathlib.Core.Path.{subst}
use auctioneer.Text.{Bytes}
use auctioneer.Engine.Spec.{Auction, place}

pub record Offer : Type 0 where
  pub user : Bytes
  pub amount : ℤ
  pub now : ℤ

abbrev pub place_offer : Auction → Offer → Auction
place_offer a o = place a o.user o.amount o.now

unfoldable pub play : Auction → List Offer → Auction
play a [] = a
play a (o ∷ os) = play (place_offer a o) os

-- An open auction before its end takes an offer exactly if it is higher than the price.
place-running :
    (a : Auction) (o : Offer)
    → a.is_open ≡ true
    → o.now <ℤ a.end_at
    → place_offer a o ≡ (
        if leb_ℤ o.amount a.price
        then a
        else record a { price = o.amount; winner = o.user; version = suc a.version })
unfolding place
place-running a o is_open running = ground arith

-- Some offer of the list is for that price, from that user.
abbrev pub Offered : ℤ → Bytes → List Offer → Type 0
Offered price user [] = ⊥
Offered price user (o ∷ os) = ((price ≡ o.amount) × (user ≡ o.user)) ⊎ Offered price user os

-- The price of `b` is at least that of `a` and every amount offered; it is one of them, and the
-- winner is who offered it.
pub record IsHighest (a : Auction) (os : List Offer) (b : Auction) : Type 0 where
  pub above_opening : a.price ≤ℤ b.price
  pub above_all : All (λ o. o.amount ≤ℤ b.price) os
  pub attained : ((b.price ≡ a.price) × (b.winner ≡ a.winner)) ⊎ Offered b.price b.winner os

-- One offer before the end.
place_running :
    (a : Auction) (o : Offer)
    → a.is_open ≡ true
    → o.now <ℤ a.end_at
    → let b : Auction = place_offer a o in
      (b.is_open ≡ true)
      × (b.end_at ≡ a.end_at)
      × (a.price ≤ℤ b.price)
      × (o.amount ≤ℤ b.price)
      × (((b.price ≡ a.price) × (b.winner ≡ a.winner))
          ⊎ ((b.price ≡ o.amount) × (b.winner ≡ o.user)))
unfolding place
place_running a o is_open running = elim (Bool-cases (leb_ℤ o.amount a.price)) [
  | inl low ↦ ground arith
  | inr high ↦ ground arith
]

-- What an offer gave and what the later ones made of it.
carry :
    (a b f : Auction) (o : Offer) (os : List Offer)
    → ((b.price ≡ a.price) × (b.winner ≡ a.winner)) ⊎ ((b.price ≡ o.amount) × (b.winner ≡ o.user))
    → ((f.price ≡ b.price) × (f.winner ≡ b.winner)) ⊎ Offered f.price f.winner os
    → ((f.price ≡ a.price) × (f.winner ≡ a.winner)) ⊎ Offered f.price f.winner (o ∷ os)
carry a b f o os x (inr y) = inr (inr y)
carry a b f o os (inl (p, w)) (inl (q, v)) = inl (q ∙ p, v ∙ w)
carry a b f o os (inr (p, w)) (inl (q, v)) = inr (inl (q ∙ p, v ∙ w))

-- The offers before the end of an open auction leave it open at the highest price.
pub play-IsHighest :
    (a : Auction) (os : List Offer)
    → a.is_open ≡ true
    → All (λ o. o.now <ℤ a.end_at) os
    → IsHighest a os (play a os) × ((play a os).is_open ≡ true)
unfolding play
play-IsHighest a [] is_open _ =
    (record { above_opening = omega arith; above_all = tt; attained = inl (refl, refl) }, is_open)
play-IsHighest a (o ∷ os) is_open (first, later) =
    let (b_open, same_end, up, over, from) = place_running a o is_open first in
    let (h, still_open) =
      play-IsHighest (place_offer a o) os b_open
        (subst (λ e. All (λ x. x.now <ℤ e) os) (sym same_end) later) in
    (
      record {
        above_opening = omega (arith, up, h.above_opening);
        above_all = (omega (arith, over, h.above_opening), h.above_all);
        attained = carry a (place_offer a o) (play (place_offer a o) os) o os from h.attained;
      },
      still_open,
    )
