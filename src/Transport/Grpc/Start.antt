-- ===== src/Transport/Grpc/Start.antt =====
-- NewServer of internal/transport/grpc/server.go. `listens` says whether net.Listen succeeds; a channel
-- of negative size panics; the limit of streams is an uint32.
use auctioneer.Base.{ℕ, ◌%◌, ◌^◌, ◌≡◌, refl, Bool, true, false, ℤ, pos, negsuc, arith}
use auctioneer.Transport.Grpc.{Api, Metrics}
use auctioneer.Transport.Grpc.Calls.{Server, IsConsistent}

pub data Started : Type 0 where
  listen_failed panicked : Started
  listening : Api → ℕ → Started

unfoldable pub new_server : Bool → ℤ → Metrics → Started
new_server false max_in_flight metrics = listen_failed
new_server true (negsuc n) metrics = panicked
new_server true (pos n) metrics =
    listening (record { max_in_flight = n; inflight = 0; metrics = metrics }) (n % 2 ^ 32)

-- The server in front of its first call.
abbrev pub first_server : Api → Server
first_server api = record {
  api = api;
  begun = 0;
  entered = 0;
  served = 0;
  refused = 0;
  closing = 0;
  observed = 0;
  turned_away = 0;
}

pub new_server-IsConsistent :
    (n : ℕ) (metrics : Metrics)
    → metrics.in_flight ≡ pos 0
    → metrics.overloaded ≡ 0
    → (api : Api) × (new_server true (pos n) metrics ≡ listening api (n % 2 ^ 32))
      × (api.max_in_flight ≡ n)
      × IsConsistent (first_server api)
unfolding new_server
new_server-IsConsistent n metrics gauge turned = (
  _,
  refl,
  refl,
  record { tokens = refl; bounded = omega arith; gauge = gauge; counted = omega (arith, turned) },
)
