-- ===== src/Engine/Service/Checks.antt =====
-- Which requests reach the store.
use auctioneer.Base.{
  ◌≡◌, ◌≢◌, refl, Bool-cases, inl, inr, ◌⊎◌, Option, none, some, [], arith, ℤ, pos, ◌<ℤ◌, ◌≤ℤ◌,
  leb_ℤ, ◌+ℤ◌,
}
use auctioneer.Text.{bytes_eq, bytes_eq_iff, bytes_eq→ne}
use auctioneer.Engine.Types.{
  PlaceBidRequest, CreateAuctionRequest, Error, invalid_auction_id, invalid_bid_id, invalid_user_id,
  invalid_amount, err,
}
use auctioneer.Engine.Service.{Store, Service, create_auction, place_bid, end_or_default}

pub record IsValid (req : PlaceBidRequest) : Type 0 where
  pub auction_id : req.auction_id ≢ []
  pub bid_id : req.bid_id ≢ []
  pub user_id : req.user_id ≢ []
  pub amount : pos 0 <ℤ req.amount_cents

-- What is wrong with a request, the first thing in the order of the fields.
pub data Fault (req : PlaceBidRequest) : Error → Type 0 where
  no_auction : req.auction_id ≡ [] → Fault req invalid_auction_id
  no_bid : req.auction_id ≢ [] → req.bid_id ≡ [] → Fault req invalid_bid_id
  no_user : req.auction_id ≢ [] → req.bid_id ≢ [] → req.user_id ≡ [] → Fault req invalid_user_id
  bad_amount :
      req.auction_id ≢ []
      → req.bid_id ≢ []
      → req.user_id ≢ []
      → req.amount_cents ≤ℤ pos 0
      → Fault req invalid_amount

module _ {E S : Type 0} (store : Store E S) (e : E) (s : S) where
  -- A bid with all its ids and a positive amount is handed to the store as it is; any other is
  -- answered with the error of its first fault, and the store is not called.
  pub place_bid-checks :
      (req : PlaceBidRequest)
      → (IsValid req × (place_bid store e req s ≡ store.place_bid e req s))
        ⊎ ((fault : Error) × Fault req fault × (place_bid store e req s ≡ (err fault, s)))
  unfolding place_bid
  place_bid-checks req = elim (Bool-cases (bytes_eq req.auction_id [])) [
    | inl a ↦ inr (invalid_auction_id, no_auction ((bytes_eq_iff _ _).0 a), rw a)
    | inr a ↦ elim (Bool-cases (bytes_eq req.bid_id [])) [
      | inl b ↦ inr (invalid_bid_id, no_bid (bytes_eq→ne _ _ a) ((bytes_eq_iff _ _).0 b), rw (a, b))
      | inr b ↦ elim (Bool-cases (bytes_eq req.user_id [])) [
        | inl u ↦ inr (
          invalid_user_id,
          no_user (bytes_eq→ne _ _ a) (bytes_eq→ne _ _ b) ((bytes_eq_iff _ _).0 u),
          rw (a, b, u),
        )
        | inr u ↦ elim (Bool-cases (leb_ℤ req.amount_cents (pos 0))) [
          | inl n ↦ inr (
            invalid_amount,
            bad_amount (bytes_eq→ne _ _ a) (bytes_eq→ne _ _ b) (bytes_eq→ne _ _ u) (ground arith),
            rw (a, b, u, n),
          )
          | inr n ↦ inl (
            record {
              auction_id = bytes_eq→ne _ _ a;
              bid_id = bytes_eq→ne _ _ b;
              user_id = bytes_eq→ne _ _ u;
              amount = ground arith;
            },
            rw (a, b, u, n),
          )
        ]
      ]
    ]
  ]

  -- CreateAuction refuses an empty id without calling the store; else the store gets the request with
  -- an end: the given one, or the default duration from now where none was given.
  pub create_auction-checks :
      (svc : Service) (now : ℤ) (req : CreateAuctionRequest)
      → ((req.auction_id ≡ [])
          × (create_auction store svc now e req s ≡ (some invalid_auction_id, s)))
        ⊎ ((req.auction_id ≢ [])
            × (t : ℤ) × ((req.end_at ≡ some t)
                ⊎ ((req.end_at ≡ none) × (t ≡ now +ℤ svc.default_duration)))
            × (create_auction store svc now e req s
                ≡ store.create_auction e (record req { end_at = some t }) s))
  unfolding create_auction end_or_default
  create_auction-checks svc now req = elim (Bool-cases (bytes_eq req.auction_id [])) [
    | inl a ↦ inl ((bytes_eq_iff _ _).0 a, rw a)
    | inr a ↦
        (let (t, given, same) = chosen req.end_at in
          inr (bytes_eq→ne _ _ a, t, given, rw (a, same)))
  ]
    where
      chosen :
          (end_at : Option ℤ)
          → (t : ℤ) × ((end_at ≡ some t) ⊎ ((end_at ≡ none) × (t ≡ now +ℤ svc.default_duration)))
            × (end_or_default end_at svc now ≡ some t)
      chosen none = (now +ℤ svc.default_duration, inr (refl, refl), refl)
      chosen (some t) = (t, inl refl, refl)
