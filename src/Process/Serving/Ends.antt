-- ===== src/Process/Serving/Ends.antt =====
-- cmd/server/main.go: runs of the servers and of `main`, up to its end.
use auctioneer.Base.{
  ℕ, zero, suc, ◌+◌, ◌<◌, ◌≤◌, ◌≡◌, ◌≢◌, ◌∙◌, refl, ap, true, false, some, List, [], ◌∷◌, arith,
  lt→ltb, length, Option-cases, inl, inr, pos,
}
use mathlib.Core.Path.{subst}
use auctioneer.Text.Map.{is_some}
use auctioneer.Transport.Grpc.Calls
use auctioneer.Transport.Grpc.Calls.{
  Server, Event, begins, arrives, acquires, counts, releases, observes, leaves, IsConsistent,
  gauged, left, next, next-left,
}
use auctioneer.Process.Serving.{
  Goroutine, Phase, selects, selected, stops_grpc, stops_http, ended, Origin, from_grpc, from_http,
  Main, err_ch_capacity, serving_main, is_sending, send_err, sends_err, graceful_stop_called,
  graceful_stop_returns, is_begin, shutdown_returns, call_step, Step, calls, returns, sends,
  signalled, takes_err, stops, grpc_stopped, http_stopped, step, steps,
}
use auctioneer.Process.Serving.Shutdown.{
  IsValid, pending-sending, grpc_is_stopped, of_some, returns-IsValid, sends-IsValid,
  signal-IsValid, stop-IsValid, take_err-IsValid, graceful_stop-IsValid, shutdown-IsValid,
  call-IsValid,
}

step-IsValid : (x : Step) (m m' : Main) → IsValid m → step x m ≡ some m' → IsValid m'
unfolding step
step-IsValid (calls c) m m' v e = call-IsValid c m m' v e
step-IsValid (returns o) m m' v e = returns-IsValid o m m' v e
step-IsValid (sends o) m m' v e = sends-IsValid o m m' v e
step-IsValid signalled m m' v e = signal-IsValid m.phase m m' v e
step-IsValid takes_err m m' v e = take_err-IsValid m.phase m.err_ch m m' refl v e
step-IsValid stops m m' v e = stop-IsValid m.phase m m' v e
step-IsValid grpc_stopped m m' v e = graceful_stop-IsValid m.phase m m' v e
step-IsValid http_stopped m m' v e = shutdown-IsValid m.phase m m' refl v e

steps-IsValid : (xs : List Step) (m m' : Main) → IsValid m → steps xs m ≡ some m' → IsValid m'
unfolding steps
steps-IsValid [] m m' v e = subst IsValid (of_some e) v
steps-IsValid (x ∷ xs) m m' v e = elim (Option-cases (step x m)) [
  | inl stuck ↦ absurd (cc (rw (steps, stuck) at e))
  | inr (u, goes) ↦ steps-IsValid xs u m' (step-IsValid x m u v goes) (rw (steps, goes) at e)
]

-- A step and what follows it.
goes_on :
    (x : Step) (xs : List Step) (m u m' : Main)
    → step x m ≡ some u
    → steps xs u ≡ some m'
    → steps (x ∷ xs) m ≡ some m'
unfolding steps
goes_on x xs m u m' goes e = rw (steps, goes) e

-- `main` comes to its end, if the calls that are inside go on.
abbrev pub Drains : Main → Type 0
Drains m =
    (xs : List Step) × (m' : Main) × (length xs ≤ left m.calls + 3)
    × (steps xs m ≡ some m')
    × (m'.phase ≡ ended)

-- Only gRPC starts a call.
next-is_begin : (s : Server) → is_begin (next s) ≡ false
unfolding next
next-is_begin s = ground arith

drains_grpc :
    (k : ℕ) (m : Main)
    → left m.calls ≡ k
    → m.phase ≡ stops_grpc
    → (xs : List Step) × (m' : Main) × (length xs ≡ k + 2)
      × (steps xs m ≡ some m')
      × (m'.phase ≡ ended)
unfolding steps step call_step graceful_stop_returns shutdown_returns
drains_grpc zero m idle p = (
  grpc_stopped ∷ http_stopped ∷ [],
  record m { phase = ended },
  refl,
  goes_on grpc_stopped (http_stopped ∷ []) m (record m { phase = stops_http }) _ (rw (p, idle) refl)
      refl,
  refl,
)
drains_grpc (suc k) m busy p =
    let u : Main = record m { calls = Calls.step (next m.calls) m.calls } in
    let (xs, m', size, goes, over_now) = drains_grpc k u (next-left k m.calls busy) p in
    (
      calls (next m.calls) ∷ xs,
      m',
      omega (arith, size),
      goes_on (calls (next m.calls)) xs m u m' (rw (next-is_begin m.calls) refl) goes,
      over_now,
    )

drains : (p : Phase) (m : Main) → m.phase ≡ p → p ≢ selects → Drains m
unfolding steps step graceful_stop_called shutdown_returns
drains selects m q ne = absurd (ne refl)
drains selected m q ne =
    let u : Main = record m { phase = stops_grpc } in
    let (xs, m', size, goes, over_now) = drains_grpc (left m.calls) u refl refl in
    (stops ∷ xs, m', omega (arith, size), goes_on stops xs m u m' (rw q refl) goes, over_now)
drains stops_grpc m q ne =
    let (xs, m', size, goes, over_now) = drains_grpc (left m.calls) m refl q in
    (xs, m', omega (arith, size), goes, over_now)
drains stops_http m q ne = (
  http_stopped ∷ [],
  record m { phase = ended },
  omega arith,
  goes_on http_stopped [] m (record m { phase = ended }) _ (rw q refl) refl,
  refl,
)
drains ended m q ne = ([], m, omega arith, refl, q)

abbrev pub goroutine : Origin → Main → Goroutine
goroutine from_grpc m = m.grpc
goroutine from_http m = m.http

can_send :
    (o : Origin) (m : Main)
    → IsValid m
    → is_sending (goroutine o m) ≡ true
    → is_some (step (sends o) m) ≡ true
unfolding step sends_err send_err
can_send from_grpc m v e =
    let space : length m.err_ch < err_ch_capacity =
      omega (arith, v.room, pending-sending m.grpc e) in
    rw (e, lt→ltb _ _ space) refl
can_send from_http m v e =
    let space : length m.err_ch < err_ch_capacity =
      omega (arith, v.room, pending-sending m.http e) in
    rw (e, lt→ltb _ _ space) refl

at_rest :
    (s : Server)
    → IsConsistent s
    → left s ≡ 0
    → (left s ≡ 0)
      × (s.api.inflight ≡ 0)
      × (s.api.metrics.in_flight ≡ pos 0)
      × (s.api.metrics.overloaded ≡ s.turned_away)
at_rest s h idle =
    let all_out : gauged s ≡ 0 = omega (arith, idle) in
    (idle, h.tokens ∙ omega (arith, idle), h.gauge ∙ ap pos all_out, omega (arith, h.counted, idle))

module _ (server : Server) (xs : List Step) (m : Main) (fresh : IsConsistent server)
    (reached : steps xs (serving_main server) ≡ some m) where
  valid : IsValid m
  unfolding serving_main
  valid =
      steps-IsValid xs _ m
        (record { consistent = fresh; room = omega arith; quiet = λ q. absurd (cc) }) reached

  -- In every state that the servers and `main` reach, in whatever order they and the steps of the
  -- calls come, from a gRPC server with consistent counters on: a goroutine whose server has returned
  -- can send its error, so it is never left behind; once `main` has left its select, there is a run
  -- to its end, of at most three steps and those that the calls inside have left (five for a call that
  -- was just started); and at its end no call is left, every token is back, the gauge of calls shows
  -- none, and the counter of the overload shows every call that was turned away.
  pub main-ends :
      ((o : Origin) → is_sending (goroutine o m) ≡ true → is_some (step (sends o) m) ≡ true)
      × (m.phase ≢ selects → Drains m)
      × (m.phase ≡ ended
          → (left m.calls ≡ 0)
            × (m.calls.api.inflight ≡ 0)
            × (m.calls.api.metrics.in_flight ≡ pos 0)
            × (m.calls.api.metrics.overloaded ≡ m.calls.turned_away))
  main-ends = (
    (λ o e. can_send o m valid e),
    (λ gone. drains m.phase m refl gone),
    (λ p. at_rest m.calls valid.consistent (valid.quiet (ap grpc_is_stopped p))),
  )
