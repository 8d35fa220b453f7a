-- ===== src/Process/Serving.antt =====
-- cmd/server/main.go from the start of the servers to the end: two goroutines that serve, the channel
-- errCh, and `main`, which waits for a signal or an error and then stops the servers. Their steps and
-- those of the calls of PlaceBid come in any order; a step that has to wait gives `none`. Of the
-- libraries: GracefulStop starts no further call, and returns when no call is inside; Serve,
-- ListenAndServe and Shutdown may return at any time.
pub mod Shutdown
pub mod Ends
mod Tests
use auctioneer.Base.{
  ℕ, ◌==◌, ◌&&◌, not, Bool, true, false, Option, none, some, List, [], ◌∷◌, ◌++◌, if◌then◌else◌,
  ltb, length, ℤ,
}
use auctioneer.Text.{Bytes, codes}
use auctioneer.Engine.Router.{RedisRouter, shard}
use auctioneer.Transport.Grpc.Calls
use auctioneer.Transport.Grpc.Calls.{Server, Event, begins, left}

-- A goroutine: its server serves, its server's error is to be sent to errCh, or it is over.
pub data Goroutine : Type 0 where
  serving sending over : Goroutine

-- `main`: in its select, behind it, in GracefulStop, in Shutdown, or at its end.
pub data Phase : Type 0 where
  selects selected stops_grpc stops_http ended : Phase

-- Which server an error is from.
pub data Origin : Type 0 where
  from_grpc from_http : Origin

pub record Main : Type 0 where
  pub calls : Server
  pub grpc : Goroutine
  pub http : Goroutine
  pub err_ch : List Origin
  pub phase : Phase

abbrev pub err_ch_capacity : ℕ
err_ch_capacity = 2

-- `main` in front of its select.
unfoldable pub serving_main : Server → Main
serving_main calls = record {
  calls = calls;
  grpc = serving;
  http = serving;
  err_ch = [];
  phase = selects;
}

abbrev pub is_serving : Goroutine → Bool
is_serving serving = true
is_serving sending = false
is_serving over = false

abbrev pub is_sending : Goroutine → Bool
is_sending serving = false
is_sending sending = true
is_sending over = false

-- errCh <- err
unfoldable pub send_err : Origin → Main → Option Main
send_err o m =
    if ltb (length m.err_ch) err_ch_capacity
    then some (record m { err_ch = m.err_ch ++ o ∷ [] })
    else none

unfoldable pub serve_returns : Origin → Main → Option Main
serve_returns from_grpc m = if is_serving m.grpc then some (record m { grpc = sending }) else none
serve_returns from_http m = if is_serving m.http then some (record m { http = sending }) else none

unfoldable pub sends_err : Origin → Main → Option Main
unfolding send_err
sends_err from_grpc m =
    if is_sending m.grpc then send_err from_grpc (record m { grpc = over }) else none
sends_err from_http m =
    if is_sending m.http then send_err from_http (record m { http = over }) else none

-- The select, by a signal or by an error.
unfoldable pub on_signal : Phase → Main → Option Main
on_signal selects m = some (record m { phase = selected })
on_signal _ m = none

unfoldable pub take_err : Phase → List Origin → Main → Option Main
take_err selects (o ∷ os) m = some (record m { err_ch = os; phase = selected })
take_err _ _ m = none

-- The call of GracefulStop.
unfoldable pub graceful_stop_called : Phase → Main → Option Main
graceful_stop_called selected m = some (record m { phase = stops_grpc })
graceful_stop_called _ m = none

-- No call is inside when none has a step left.
unfoldable pub graceful_stop_returns : Phase → Main → Option Main
graceful_stop_returns stops_grpc m =
    if left m.calls == 0 then some (record m { phase = stops_http }) else none
graceful_stop_returns _ m = none

unfoldable pub shutdown_returns : Phase → Main → Option Main
shutdown_returns stops_http m = some (record m { phase = ended })
shutdown_returns _ m = none

-- gRPC starts calls as long as GracefulStop was not called; those that it has started go on.
abbrev pub lets_in : Phase → Bool
lets_in selects = true
lets_in selected = true
lets_in stops_grpc = false
lets_in stops_http = false
lets_in ended = false

abbrev pub is_begin : Event → Bool
is_begin begins = true
is_begin _ = false

unfoldable pub call_step : Event → Main → Option Main
call_step e m =
    if is_begin e && not (lets_in m.phase)
    then none
    else some (record m { calls = Calls.step e m.calls })

pub data Step : Type 0 where
  calls : Event → Step
  returns sends : Origin → Step
  signalled takes_err stops grpc_stopped http_stopped : Step

unfoldable pub step : Step → Main → Option Main
unfolding serve_returns sends_err on_signal take_err graceful_stop_called graceful_stop_returns
    shutdown_returns call_step
step (calls e) m = call_step e m
step (returns o) m = serve_returns o m
step (sends o) m = sends_err o m
step signalled m = on_signal m.phase m
step takes_err m = take_err m.phase m.err_ch m
step stops m = graceful_stop_called m.phase m
step grpc_stopped m = graceful_stop_returns m.phase m
step http_stopped m = shutdown_returns m.phase m

unfoldable pub steps : List Step → Main → Option Main
unfolding step
steps [] m = some m
steps (x ∷ xs) m = elim (step x m) [ none ↦ none | some m' ↦ steps xs m' ]

-- What an endpoint answers: the status and the body.
abbrev pub Answer : Type 0
Answer = ℕ × Bytes

unfoldable pub healthz : Answer
healthz = (200, codes "{\"status\":\"ok\"}")

-- `pings i` says whether the client `i` answers a PING in time.
unfoldable pub readyz : ℕ → (ℕ → Bool) → Answer
readyz client_count pings =
    if pings (shard client_count (codes "health"))
    then (200, codes "{\"status\":\"ready\"}")
    else (503, codes "{\"status\":\"redis_unavailable\"}")
