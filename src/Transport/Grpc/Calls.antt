-- ===== src/Transport/Grpc/Calls.antt =====
-- Calls of PlaceBid that overlap: the semaphore bounds the calls that are served at a time.
use auctioneer.Base.{
  ℕ, suc, ◌+◌, ◌-◌, ◌*◌, ◌≤◌, ◌<◌, ◌≡◌, ◌≢◌, refl, true, List, [], ◌∷◌, arith, ltb, if◌then◌else◌,
  pos, ◌+ℤ◌,
}
use auctioneer.Transport.Grpc.{
  Api, enter, leave, inc_in_flight, acquire, count_overloaded, release, observe, dec_in_flight,
}

-- The steps of calls: gRPC starts a goroutine for a call; the call counts itself in the gauge; it
-- comes through its select; without a token, it counts that; with one, it is answered and gives the
-- token back; then it observes its latency; and it takes itself out of the gauge.
pub data Event : Type 0 where
  begins arrives acquires counts releases observes leaves : Event

-- The server, with the number of calls at each of these places: before the gauge, before the select,
-- with a token, turned away and not yet counted, before the latency, and before the gauge again; and how
-- many calls were turned away in all.
pub record Server : Type 0 where
  pub api : Api
  pub begun : ℕ
  pub entered : ℕ
  pub served : ℕ
  pub refused : ℕ
  pub closing : ℕ
  pub observed : ℕ
  pub turned_away : ℕ

on_acquire : Server → Server
on_acquire s =
    let (a, admitted) = acquire s.api in
    let s' = record s { api = a; entered = s.entered - 1 } in
    if admitted
    then record s' { served = suc s.served }
    else record s' { refused = suc s.refused; turned_away = suc s.turned_away }

-- No call goes on from where none is.
unfoldable pub step : Event → Server → Server
unfolding on_acquire
step begins s = record s { begun = suc s.begun }
step arrives s =
    if ltb 0 s.begun
    then record s { api = inc_in_flight s.api; begun = s.begun - 1; entered = suc s.entered }
    else s
step acquires s = if ltb 0 s.entered then on_acquire s else s
step counts s =
    if ltb 0 s.refused
    then record s { api = count_overloaded s.api; refused = s.refused - 1; closing = suc s.closing }
    else s
step releases s =
    if ltb 0 s.served
    then record s { api = release s.api; served = s.served - 1; closing = suc s.closing }
    else s
step observes s =
    if ltb 0 s.closing
    then record s { api = observe s.api; closing = s.closing - 1; observed = suc s.observed }
    else s
step leaves s =
    if ltb 0 s.observed
    then record s { api = dec_in_flight s.api; observed = s.observed - 1 }
    else s

unfoldable pub steps : List Event → Server → Server
steps [] s = s
steps (e ∷ es) s = steps es (step e s)

-- The calls that the gauge counts.
abbrev pub gauged : Server → ℕ
gauged s = s.entered + (s.served + (s.refused + (s.closing + s.observed)))

-- The tokens are those of the calls that are served, which are at most the capacity; the gauge shows
-- every call that is counted in and not yet out; and every call that was turned away is counted, or
-- is about to be.
pub record IsConsistent (s : Server) : Type 0 where
  pub tokens : s.api.inflight ≡ s.served
  pub bounded : s.served ≤ s.api.max_in_flight
  pub gauge : s.api.metrics.in_flight ≡ pos (gauged s)
  pub counted : s.api.metrics.overloaded + s.refused ≡ s.turned_away

pub step-IsConsistent : (e : Event) (s : Server) → IsConsistent s → IsConsistent (step e s)
unfolding step on_acquire ◌+ℤ◌
step-IsConsistent begins s h = ground arith
step-IsConsistent arrives s h = ground arith
step-IsConsistent acquires s h = ground arith
step-IsConsistent counts s h = ground arith
step-IsConsistent releases s h = ground arith
step-IsConsistent observes s h = ground arith
step-IsConsistent leaves s h = ground arith

-- However the steps of the calls follow on each other, from a consistent server on: the tokens are
-- those of the calls that are served, which are never more than the capacity; the gauge shows the
-- calls between its Inc and its Dec, those at the select, turned away and on their way out included; and the
-- counter of the overload and the calls that are about to raise it are the calls turned away.
pub steps-IsConsistent : (es : List Event) (s : Server) → IsConsistent s → IsConsistent (steps es s)
unfolding steps
steps-IsConsistent [] s h = h
steps-IsConsistent (e ∷ es) s h = steps-IsConsistent es (step e s) (step-IsConsistent e s h)

-- A call at the select is turned away exactly when the capacity is used up by calls that are served.
pub acquires-refused :
    (s : Server)
    → IsConsistent s
    → 0 < s.entered
    → ((step acquires s).turned_away ≡ suc s.turned_away → s.served ≡ s.api.max_in_flight)
      × (s.served ≡ s.api.max_in_flight → (step acquires s).turned_away ≡ suc s.turned_away)
unfolding step on_acquire
acquires-refused s h some_call = ((λ e. ground arith), (λ e. ground arith))

-- A call that no other comes between does with the counters what the handler does.
pub steps-alone :
    (s : Server)
    → s.begun ≡ 0
    → s.entered ≡ 0
    → (enter s.api).1 ≡ true
    → (steps (begins ∷ arrives ∷ acquires ∷ releases ∷ observes ∷ leaves ∷ []) s).api
      ≡ leave (enter s.api).0
unfolding steps step on_acquire enter leave
steps-alone s none_begun none_entered free = ground arith

-- How many steps the calls inside have left.
abbrev pub left : Server → ℕ
left s =
    5 * s.begun + (4 * s.entered + (3 * s.served + (3 * s.refused + (2 * s.closing + s.observed))))

-- A step that some call inside can make.
unfoldable pub next : Server → Event
next s =
    if ltb 0 s.begun
    then arrives
    else if ltb 0 s.entered
    then acquires
    else if ltb 0 s.served
    then releases
    else if ltb 0 s.refused
    then counts
    else if ltb 0 s.closing
    then observes
    else leaves

pub step-left : (e : Event) (s : Server) → e ≢ begins → left (step e s) ≤ left s
unfolding step on_acquire
step-left begins s ne = absurd (ne refl)
step-left arrives s ne = ground arith
step-left acquires s ne = ground arith
step-left counts s ne = ground arith
step-left releases s ne = ground arith
step-left observes s ne = ground arith
step-left leaves s ne = ground arith

pub next-left : (k : ℕ) (s : Server) → left s ≡ suc k → left (step (next s) s) ≡ k
unfolding step on_acquire next
next-left k s h = ground arith
