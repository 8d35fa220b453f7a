-- ===== src/Engine/Script/Refinement.antt =====
-- The script implements the specification: on an auction that the hash holds, a new bid is answered,
-- remembered, applied and announced as the specification says.
use auctioneer.Base.{
  ◌≡◌, ◌∙◌, refl, sym, ap, true, false, none, some, List, [], ◌∷◌, ◌++◌, append-nil, arith, ℤ, pos,
  leb_ℤ, ◌<ℤ◌, ◌<◌, ◌^◌, abs, suc, Lacks,
}
use mathlib.Core.Bool.{true≢false}
use auctioneer.Text.{Bytes, codes, bytes_eq, bytes_eq_refl}
use auctioneer.Text.Decimal.{print_int}
use auctioneer.Lua.Numbers.{IsExact, tostring-exact}
use auctioneer.Engine.Types.{PlaceBidRequest, PlaceBidResult}
use auctioneer.Engine.Redis.{Redis, Fields}
use auctioneer.Engine.Keys.{state_key, idem_key, events_key}
use auctioneer.Engine.Spec
use auctioneer.Engine.Spec.{
  Auction, IsPlain, Verdict, accepted, bid_too_low, auction_ended, auction_closed, settle, reason,
  is_accepted,
}
use auctioneer.Engine.Codec.{decode_cached_result}
use auctioneer.Engine.Codec.RoundTrip.{decode_cached_result-encode}
use auctioneer.Engine.Script
use auctioneer.Engine.Script.{script_args, run}
use auctioneer.Engine.Script.Represents.{
  Holds, cached, hget-cached_self, Holds-cached, stream-cached,
}
use auctioneer.Engine.Script.Branches.{
  refusal, raised, announced, acceptance, judged, judged-closed, judged-ended, judged-too_low,
  judged-accepted, run-judged,
}

-- The result that PlaceBid returns for a verdict, `a` being the auction behind the bid.
abbrev pub answer : Verdict → Auction → Bytes → ℤ → PlaceBidResult
answer v a event_id now = record {
  accepted = is_accepted v;
  duplicate = false;
  reason = reason v;
  current_price = a.price;
  winner_user_id = a.winner;
  version = pos a.version;
  event_id = event_id;
  server_unix_milli = now;
}

-- The stream entry of an accepted bid.
abbrev pub event : PlaceBidRequest → Auction → ℤ → Fields
event req a now =
    (codes "auction_id", req.auction_id)
    ∷ (codes "bid_id", req.bid_id)
    ∷ (codes "user_id", req.user_id)
    ∷ (codes "amount", print_int req.amount_cents)
    ∷ (codes "version", print_int (pos a.version))
    ∷ (codes "server_ts", print_int now)
    ∷ []

abbrev pub events_of : Verdict → Bytes → Fields → List (Bytes × Fields)
events_of accepted event_id fs = (event_id, fs) ∷ []
events_of bid_too_low event_id fs = []
events_of auction_ended event_id fs = []
events_of auction_closed event_id fs = []

-- The id is the one that Redis picks for an entry behind the stream.
abbrev pub Picked : (R : Redis) → R.Db → Bytes → Bytes → Type 0
Picked R db k event_id = (d : R.Db) × (R.stream d k ≡ R.stream db k) × (event_id ≡ R.xadd_id d k)

-- What a run of the script for `req` has done, on an auction `a` and with the verdict `v`.
pub record Settled (R : Redis) (req : PlaceBidRequest) (now : ℤ) (db : R.Db) (a : Auction)
    (v : Verdict) (out : Script.Outcome R) : Type 0 where
  pub encoded : Bytes
  pub event_id : Bytes
  pub replied : out.0 ≡ some (codes "OK", encoded)
  pub remembered : R.hget out.1 (idem_key req.auction_id) req.bid_id ≡ some encoded
  pub decoded :
      decode_cached_result encoded ≡ answer v (settle a req.user_id req.amount_cents v) event_id now
  pub state : Holds R out.1 req.auction_id (settle a req.user_id req.amount_cents v)
  pub events :
      R.stream out.1 (events_key req.auction_id)
      ≡ R.stream db (events_key req.auction_id)
        ++ events_of v event_id (event req (settle a req.user_id req.amount_cents v) now)
  pub picked : v ≡ accepted → Picked R db (events_key req.auction_id) event_id
  pub no_event : is_accepted v ≡ false → event_id ≡ []

module _ (R : Redis) (req : PlaceBidRequest) (now ttl : ℤ) (db : R.Db) (a : Auction)
    (holds : Holds R db req.auction_id a) (plain : IsPlain a) (now_fits : IsExact now)
    (ttl_pos : pos 0 <ℤ ttl) where
  -- Every refusal, `db'` being the database behind what the branch writes to the auction.
  settled_refusal :
      (v : Verdict) (db' : R.Db)
      → is_accepted v ≡ false
      → Lacks b'|' a.winner
      → Holds R db' req.auction_id (settle a req.user_id req.amount_cents v)
      → R.stream db' (events_key req.auction_id) ≡ R.stream db (events_key req.auction_id)
      → Settled R req now db a v (
        some (codes "OK", refusal R req now ttl a (reason v)),
        cached R db' req.auction_id req.bid_id (refusal R req now ttl a (reason v)) ttl,
      )
  unfolding settle bytes_eq
  settled_refusal accepted db' e _ _ _ = absurd (true≢false e)
  settled_refusal v db' e w h same = record {
    encoded = refusal R req now ttl a (reason v);
    event_id = [];
    replied = refl;
    remembered =
        hget-cached_self R db' req.auction_id req.bid_id (refusal R req now ttl a (reason v)) ttl
          ttl_pos;
    decoded =
        decode_cached_result-encode (codes "0") (reason v) a.winner [] a.price (pos a.version) now
          (omega arith) (omega arith) w tt plain.price (omega (arith, plain.version)) now_fits;
    state = Holds-cached R req.auction_id req.bid_id (refusal R req now ttl a (reason v)) ttl h;
    events =
        stream-cached R db' req.auction_id req.bid_id (refusal R req now ttl a (reason v)) ttl
          req.auction_id
        ∙ same
        ∙ sym (append-nil (R.stream db (events_key req.auction_id)));
    picked = λ q. absurd (true≢false (sym (ap is_accepted q) ∙ e));
    no_event = λ _. refl;
  }

  Holds-closed :
      Holds R
        (R.hset db (state_key req.auction_id) ((codes "status", codes "closed") ∷ []))
        req.auction_id
        (record a { is_open = false })
  unfolding bytes_eq
  Holds-closed = record {
    status = rw (R.hget-hset, bytes_eq_refl (state_key req.auction_id));
    end_at = rw (R.hget-hset, bytes_eq_refl (state_key req.auction_id)) holds.end_at;
    price = rw (R.hget-hset, bytes_eq_refl (state_key req.auction_id)) holds.price;
    winner = rw (R.hget-hset, bytes_eq_refl (state_key req.auction_id)) holds.winner;
    version = rw (R.hget-hset, bytes_eq_refl (state_key req.auction_id)) holds.version;
  }

  Holds-announced :
      a.is_open ≡ true
      → IsExact req.amount_cents
      → Holds R
          (announced R req now ttl db a)
          req.auction_id
          (settle a req.user_id req.amount_cents accepted)
  unfolding settle bytes_eq
  Holds-announced is_open amount_fits = record {
    status = rw (R.hget-xadd, R.hget-hset, bytes_eq_refl (state_key req.auction_id)) holds.status;
    end_at = rw (R.hget-xadd, R.hget-hset, bytes_eq_refl (state_key req.auction_id)) holds.end_at;
    price = rw (
      R.hget-xadd,
      R.hget-hset,
      bytes_eq_refl (state_key req.auction_id),
      tostring-exact req.amount_cents amount_fits,
    );
    winner = rw (R.hget-xadd, R.hget-hset, bytes_eq_refl (state_key req.auction_id));
    version = rw (
      R.hget-xadd,
      R.hget-hset,
      bytes_eq_refl (state_key req.auction_id),
      tostring-exact (pos (suc a.version)) (omega (arith, plain.version)),
    );
  }

  settled_acceptance :
      a.is_open ≡ true
      → IsExact req.amount_cents
      → Lacks b'|' req.user_id
      → Settled R req now db a accepted (
        some (codes "OK", acceptance R req now ttl db a),
        cached R
            (announced R req now ttl db a)
            req.auction_id
            req.bid_id
            (acceptance R req now ttl db a)
            ttl,
      )
  unfolding settle bytes_eq
  settled_acceptance is_open amount_fits user_plain = record {
    encoded = acceptance R req now ttl db a;
    event_id = R.xadd_id (raised R req now ttl db a) (events_key req.auction_id);
    replied = refl;
    remembered =
        hget-cached_self R (announced R req now ttl db a) req.auction_id req.bid_id
          (acceptance R req now ttl db a) ttl ttl_pos;
    decoded =
        decode_cached_result-encode (codes "1") (codes "accepted") req.user_id
          (R.xadd_id (raised R req now ttl db a) (events_key req.auction_id)) req.amount_cents
          (pos (suc a.version)) now (omega arith) (omega arith) user_plain
          (R.xadd_id-Lacks (raised R req now ttl db a) (events_key req.auction_id)) amount_fits
          (omega (arith, plain.version)) now_fits;
    state =
        Holds-cached R req.auction_id req.bid_id (acceptance R req now ttl db a) ttl
          (Holds-announced is_open amount_fits);
    events = rw (
      stream-cached R (announced R req now ttl db a) req.auction_id req.bid_id
          (acceptance R req now ttl db a) ttl req.auction_id,
      R.stream-xadd,
      bytes_eq_refl (events_key req.auction_id),
      R.stream-hset,
      tostring-exact req.amount_cents amount_fits,
      tostring-exact (pos (suc a.version)) (omega (arith, plain.version)),
      tostring-exact now now_fits,
    );
    picked = λ q. (raised R req now ttl db a, R.stream-hset db _ _ _, refl);
    no_event = λ q. absurd (true≢false q);
  }

  -- What the verdicts say of the auction.
  judge-accepted :
      Spec.judge a req.amount_cents now ≡ accepted
      → (a.is_open ≡ true) × (leb_ℤ a.end_at now ≡ false) × (leb_ℤ req.amount_cents a.price ≡ false)
  unfolding Spec.judge
  judge-accepted e = ground arith

  judge-too_low :
      Spec.judge a req.amount_cents now ≡ bid_too_low
      → (a.is_open ≡ true) × (leb_ℤ a.end_at now ≡ false) × (leb_ℤ req.amount_cents a.price ≡ true)
  unfolding Spec.judge
  judge-too_low e = ground arith

  judge-ended :
      Spec.judge a req.amount_cents now ≡ auction_ended
      → (a.is_open ≡ true) × (leb_ℤ a.end_at now ≡ true)
  unfolding Spec.judge
  judge-ended e = ground arith

  judge-closed : Spec.judge a req.amount_cents now ≡ auction_closed → a.is_open ≡ false
  unfolding Spec.judge
  judge-closed e = ground arith

  module _ (ttl_fits : abs ttl < 2 ^ 53) (amount_fits : IsExact req.amount_cents)
      (winner_plain : Lacks b'|' a.winner) (user_plain : Lacks b'|' req.user_id) where
    judged-Settled :
        (v : Verdict)
        → Spec.judge a req.amount_cents now ≡ v
        → Settled R req now db a v (judged R req now ttl db a)
    judged-Settled accepted e =
        let (is_open, running, high) = judge-accepted e in
        rw
          (judged-accepted R req now ttl db a ttl_fits is_open running high
            (omega (arith, plain.version)))
          (settled_acceptance is_open amount_fits user_plain)
    judged-Settled bid_too_low e =
        let (is_open, running, low) = judge-too_low e in
        rw (judged-too_low R req now ttl db a ttl_fits is_open running low)
          (settled_refusal bid_too_low db refl winner_plain (unfold settle in holds) refl)
    judged-Settled auction_ended e =
        let (is_open, past) = judge-ended e in
        rw (judged-ended R req now ttl db a ttl_fits is_open past) (
          settled_refusal auction_ended _ refl winner_plain (unfold settle in Holds-closed)
            (R.stream-hset db _ _ _))
    judged-Settled auction_closed e =
        rw (judged-closed R req now ttl db a ttl_fits (judge-closed e))
          (settled_refusal auction_closed db refl winner_plain (unfold settle in holds) refl)

    -- The script refines the specification: a bid with a new id is answered with the
    -- specification's verdict and with the auction that follows it, the answer is remembered under
    -- the bid's id, the hash holds that auction, and the stream has one more event exactly if the
    -- bid was accepted. Numbers have at most 14 digits, and the names of the bidder and of the
    -- winner so far hold no bar.
    pub run-Settled :
        R.hget db (idem_key req.auction_id) req.bid_id ≡ none
        → Settled R req now db a
            (Spec.judge a req.amount_cents now)
            (run R (script_args req now ttl) db)
    run-Settled new =
        rw (run-judged R req now ttl db a ttl_fits holds plain (omega arith) (omega arith) new)
          (judged-Settled (Spec.judge a req.amount_cents now) refl)
