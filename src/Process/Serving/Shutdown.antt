-- ===== src/Process/Serving/Shutdown.antt =====
-- cmd/server/main.go: what holds while `main` serves and stops, and that it comes to its end.
use auctioneer.Base.{
  ℕ, ◌+◌, ◌&&◌, not, ◌≤◌, ◌≡◌, refl, ap, Bool, true, false, Option, none, some, List, [], ◌∷◌,
  if◌then◌else◌, arith, ltb, length, length-append, ==_iff,
}
use mathlib.Core.Path.{subst}
use auctioneer.Transport.Grpc.Calls
use auctioneer.Transport.Grpc.Calls.{
  Server, Event, begins, arrives, acquires, counts, releases, observes, leaves, IsConsistent,
  step-IsConsistent, left, step-left,
}
use auctioneer.Process.Serving.{
  Goroutine, serving, sending, over, Phase, selects, selected, stops_grpc, stops_http, ended,
  Origin, from_grpc, from_http, Main, err_ch_capacity, is_serving, is_sending, send_err,
  serve_returns, sends_err, on_signal, take_err, graceful_stop_called, graceful_stop_returns,
  shutdown_returns, is_begin, lets_in, call_step,
}

-- What a goroutine can still send.
abbrev pub pending : Goroutine → ℕ
pending serving = 1
pending sending = 1
pending over = 0

abbrev pub grpc_is_stopped : Phase → Bool
grpc_is_stopped selects = false
grpc_is_stopped selected = false
grpc_is_stopped stops_grpc = false
grpc_is_stopped stops_http = true
grpc_is_stopped ended = true

pub record IsValid (m : Main) : Type 0 where
  pub consistent : IsConsistent m.calls
  pub room : length m.err_ch + (pending m.grpc + pending m.http) ≤ err_ch_capacity
  pub quiet : grpc_is_stopped m.phase ≡ true → left m.calls ≡ 0

pub of_some : {m m' : Main} → some m ≡ some m' → m ≡ m'
of_some e = cc

only_if :
    (b : Bool) (o : Option Main) (m : Main)
    → (if b then o else none) ≡ some m
    → (b ≡ true) × (o ≡ some m)
only_if true o m e = (refl, e)
only_if false o m e = absurd (cc)

pending-serving : (g : Goroutine) → is_serving g ≡ true → pending g ≡ 1
pending-serving serving e = refl
pending-serving sending e = refl
pending-serving over e = absurd (cc)

pub pending-sending : (g : Goroutine) → is_sending g ≡ true → pending g ≡ 1
pending-sending serving e = refl
pending-sending sending e = refl
pending-sending over e = absurd (cc)

pub returns-IsValid :
    (o : Origin) (m m' : Main) → IsValid m → serve_returns o m ≡ some m' → IsValid m'
unfolding serve_returns
returns-IsValid from_grpc m m' v e =
    let (up, same) = only_if (is_serving m.grpc) _ m' e in
    subst IsValid (of_some same) (record {
      consistent = v.consistent;
      room = omega (arith, v.room, pending-serving m.grpc up);
      quiet = v.quiet;
    })
returns-IsValid from_http m m' v e =
    let (up, same) = only_if (is_serving m.http) _ m' e in
    subst IsValid (of_some same) (record {
      consistent = v.consistent;
      room = omega (arith, v.room, pending-serving m.http up);
      quiet = v.quiet;
    })

pub sends-IsValid : (o : Origin) (m m' : Main) → IsValid m → sends_err o m ≡ some m' → IsValid m'
unfolding sends_err send_err
sends-IsValid from_grpc m m' v e =
    let (up, next) = only_if (is_sending m.grpc) _ m' e in
    let (_, same) = only_if (ltb (length m.err_ch) err_ch_capacity) _ m' next in
    subst IsValid (of_some same) (record {
      consistent = v.consistent;
      room =
          omega (arith, v.room, pending-sending m.grpc up, length-append m.err_ch (from_grpc ∷ []));
      quiet = v.quiet;
    })
sends-IsValid from_http m m' v e =
    let (up, next) = only_if (is_sending m.http) _ m' e in
    let (_, same) = only_if (ltb (length m.err_ch) err_ch_capacity) _ m' next in
    subst IsValid (of_some same) (record {
      consistent = v.consistent;
      room =
          omega (arith, v.room, pending-sending m.http up, length-append m.err_ch (from_http ∷ []));
      quiet = v.quiet;
    })

pub signal-IsValid : (p : Phase) (m m' : Main) → IsValid m → on_signal p m ≡ some m' → IsValid m'
unfolding on_signal
signal-IsValid selects m m' v e =
    subst IsValid (of_some e)
      (record { consistent = v.consistent; room = v.room; quiet = λ q. absurd (cc) })
signal-IsValid selected m m' v e = absurd (cc)
signal-IsValid stops_grpc m m' v e = absurd (cc)
signal-IsValid stops_http m m' v e = absurd (cc)
signal-IsValid ended m m' v e = absurd (cc)

pub take_err-IsValid :
    (p : Phase) (os : List Origin) (m m' : Main)
    → m.err_ch ≡ os
    → IsValid m
    → take_err p os m ≡ some m'
    → IsValid m'
unfolding take_err
take_err-IsValid selects [] m m' q v e = absurd (cc)
take_err-IsValid selects (o ∷ os) m m' q v e = subst IsValid (of_some e) (record {
  consistent = v.consistent;
  room = omega (arith, v.room, ap length q);
  quiet = λ q. absurd (cc);
})
take_err-IsValid selected os m m' q v e = absurd (cc)
take_err-IsValid stops_grpc os m m' q v e = absurd (cc)
take_err-IsValid stops_http os m m' q v e = absurd (cc)
take_err-IsValid ended os m m' q v e = absurd (cc)

pub stop-IsValid :
    (p : Phase) (m m' : Main) → IsValid m → graceful_stop_called p m ≡ some m' → IsValid m'
unfolding graceful_stop_called
stop-IsValid selected m m' v e =
    subst IsValid (of_some e)
      (record { consistent = v.consistent; room = v.room; quiet = λ q. absurd (cc) })
stop-IsValid selects m m' v e = absurd (cc)
stop-IsValid stops_grpc m m' v e = absurd (cc)
stop-IsValid stops_http m m' v e = absurd (cc)
stop-IsValid ended m m' v e = absurd (cc)

pub graceful_stop-IsValid :
    (p : Phase) (m m' : Main) → IsValid m → graceful_stop_returns p m ≡ some m' → IsValid m'
unfolding graceful_stop_returns
graceful_stop-IsValid selects m m' v e = absurd (cc)
graceful_stop-IsValid selected m m' v e = absurd (cc)
graceful_stop-IsValid stops_grpc m m' v e =
    let (idle, same) = only_if _ _ _ e in
    subst IsValid (of_some same) (record {
      consistent = v.consistent;
      room = v.room;
      quiet = λ q. (==_iff (left m.calls) 0).0 idle;
    })
graceful_stop-IsValid stops_http m m' v e = absurd (cc)
graceful_stop-IsValid ended m m' v e = absurd (cc)

pub shutdown-IsValid :
    (p : Phase) (m m' : Main)
    → m.phase ≡ p
    → IsValid m
    → shutdown_returns p m ≡ some m'
    → IsValid m'
unfolding shutdown_returns
shutdown-IsValid selects m m' q v e = absurd (cc)
shutdown-IsValid selected m m' q v e = absurd (cc)
shutdown-IsValid stops_grpc m m' q v e = absurd (cc)
shutdown-IsValid stops_http m m' q v e = subst IsValid (of_some e) (record {
  consistent = v.consistent;
  room = v.room;
  quiet = λ _. v.quiet (ap grpc_is_stopped q);
})
shutdown-IsValid ended m m' q v e = absurd (cc)

-- What a call's step leaves: no more than there was, unless gRPC starts the call.
keeps_quiet :
    (c : Event) (p : Phase) (s : Server)
    → is_begin c && not (lets_in p) ≡ false
    → grpc_is_stopped p ≡ true
    → left s ≡ 0
    → left (Calls.step c s) ≡ 0
keeps_quiet begins selects s may stopped none_left = absurd (cc)
keeps_quiet begins selected s may stopped none_left = absurd (cc)
keeps_quiet begins stops_grpc s may stopped none_left = absurd (cc)
keeps_quiet begins stops_http s may stopped none_left = absurd (cc)
keeps_quiet begins ended s may stopped none_left = absurd (cc)
keeps_quiet arrives p s may stopped none_left =
    omega (arith, step-left arrives s (λ e. cc), none_left)
keeps_quiet acquires p s may stopped none_left =
    omega (arith, step-left acquires s (λ e. cc), none_left)
keeps_quiet counts p s may stopped none_left =
    omega (arith, step-left counts s (λ e. cc), none_left)
keeps_quiet releases p s may stopped none_left =
    omega (arith, step-left releases s (λ e. cc), none_left)
keeps_quiet observes p s may stopped none_left =
    omega (arith, step-left observes s (λ e. cc), none_left)
keeps_quiet leaves p s may stopped none_left =
    omega (arith, step-left leaves s (λ e. cc), none_left)

only_unless :
    (b : Bool) (o : Option Main) (m : Main)
    → (if b then none else o) ≡ some m
    → (b ≡ false) × (o ≡ some m)
only_unless true o m e = absurd (cc)
only_unless false o m e = (refl, e)

pub call-IsValid : (c : Event) (m m' : Main) → IsValid m → call_step c m ≡ some m' → IsValid m'
unfolding call_step
call-IsValid c m m' v e =
    let (may, same) = only_unless (is_begin c && not (lets_in m.phase)) _ m' e in
    subst IsValid (of_some same) (record {
      consistent = step-IsConsistent c m.calls v.consistent;
      room = v.room;
      quiet = λ s. keeps_quiet c m.phase m.calls may s (v.quiet s);
    })
