-- ===== src/Transport/Ws/Hub/Channels.antt =====
-- The hub's channels: sends of `Register`, `Unregister` and `Broadcast` by other goroutines, and the
-- receives of `Run`, in any order.
use auctioneer.Base.{
  ℕ, ◌≡◌, refl, Bool, true, false, Option, none, some, List, [], ◌∷◌, ◌++◌, if◌then◌else◌, ltb,
  length, arith, length-append, ◌+◌, ◌≤◌, ap, inl, inr, Option-cases, ltb→lt,
}
use mathlib.Core.Path.{subst}
use auctioneer.Transport.Ws.Hub.{
  Hub, Subscription, TargetedMessage, unregister_capacity, on_register, on_unregister, on_broadcast,
}
use auctioneer.Transport.Ws.Hub.Closing.{closers, le-or-lt}
use auctioneer.Transport.Ws.Hub.Broadcast.{slow, on_broadcast-stuck}
use auctioneer.Transport.Ws.Hub.Invariant.{
  IsValid, on_register-IsValid, on_unregister-IsValid, on_broadcast-IsValid,
}

abbrev register_capacity : ℕ
register_capacity = 1024

abbrev broadcast_capacity : ℕ
broadcast_capacity = 4096

-- A send on a full channel has to wait, and does not happen now: `none`.
unfoldable pub send_register : Subscription → Hub → Option Hub
send_register sub h =
    if ltb (length h.register) register_capacity
    then some (record h { register = h.register ++ sub ∷ [] })
    else none

unfoldable pub send_unregister : Subscription → Hub → Option Hub
send_unregister sub h =
    if ltb (length h.unregister) unregister_capacity
    then some (record h { unregister = h.unregister ++ sub ∷ [] })
    else none

-- The message is given as it is encoded.
unfoldable pub send_broadcast : TargetedMessage → Hub → Option Hub
send_broadcast msg h =
    if ltb (length h.broadcast) broadcast_capacity
    then some (record h { broadcast = h.broadcast ++ msg ∷ [] })
    else none

-- A receive of `Run` with the case behind it; from an empty channel there is none.
unfoldable pub receive {ℓ} : {A : Type ℓ} → List A → (A → List A → Option Hub) → Option Hub
receive [] on_case = none
receive (x ∷ rest) on_case = on_case x rest

unfoldable pub receive_register : Hub → Option Hub
unfolding receive
receive_register h =
    receive h.register (λ sub rest. some (on_register sub (record h { register = rest })))

unfoldable pub receive_unregister : Hub → Option Hub
unfolding receive
receive_unregister h =
    receive h.unregister (λ sub rest. some (on_unregister sub (record h { unregister = rest })))

unfoldable pub receive_broadcast : Hub → Option Hub
unfolding receive
receive_broadcast h =
    receive h.broadcast (λ msg rest. on_broadcast msg (record h { broadcast = rest }))

pub data Event : Type 0 where
  registers unregisters : Subscription → Event
  broadcasts : TargetedMessage → Event
  runs_register runs_unregister runs_broadcast : Event

unfoldable pub step : Event → Hub → Option Hub
unfolding send_register send_unregister send_broadcast receive_register receive_unregister
    receive_broadcast
step (registers sub) h = send_register sub h
step (unregisters sub) h = send_unregister sub h
step (broadcasts msg) h = send_broadcast msg h
step runs_register h = receive_register h
step runs_unregister h = receive_unregister h
step runs_broadcast h = receive_broadcast h

unfoldable pub steps : List Event → Hub → Option Hub
steps [] h = some h
steps (e ∷ es) h = elim (step e h) [ none ↦ none | some h' ↦ steps es h' ]

-- A broadcast that has a result leaves a valid hub: it found room for the clients that it closed.
pub on_broadcast-some-IsValid :
    (msg : TargetedMessage) (h h' : Hub) → IsValid h → on_broadcast msg h ≡ some h' → IsValid h'
on_broadcast-some-IsValid msg h h' v e =
    elim (le-or-lt (length h.unregister + closers h.heap (slow msg h)) unregister_capacity) [
      | inl room ↦
          (let (next, done, valid) = on_broadcast-IsValid msg h v room in
            subst IsValid (cc e) valid)
      | inr full ↦
          absurd (cc (on_broadcast-stuck msg h (v.no_repeat msg.auction_id) v.waiting full, e))
    ]

-- What a send leaves, where it happens.
pub sent_if :
    (room : Bool) (sent h' : Hub)
    → (if room then some sent else none) ≡ some h'
    → (room ≡ true) × (sent ≡ h')
sent_if true sent h' e = (refl, cc)
sent_if false sent h' e = absurd (cc)

pub IsValid-requeued :
    (h : Hub) (registered unregistered : List Subscription) (messages : List TargetedMessage)
    → length unregistered ≤ unregister_capacity
    → IsValid h
    → IsValid (record h { register = registered; unregister = unregistered; broadcast = messages })
IsValid-requeued h registered unregistered messages fits v = record {
  tidy = v.tidy;
  no_repeat = v.no_repeat;
  waiting = fits;
  fits = v.fits;
}

-- What a receive that happens takes from the channel.
pub received {ℓ} :
    {A : Type ℓ} (q : List A) (on_case : A → List A → Option Hub) (h' : Hub)
    → receive q on_case ≡ some h'
    → (x : A) × (rest : List A) × (q ≡ x ∷ rest) × (on_case x rest ≡ some h')
unfolding receive
received [] on_case h' e = absurd (cc)
received (x ∷ rest) on_case h' e = (x, rest, refl, e)

pub step-IsValid : (e : Event) (h h' : Hub) → IsValid h → step e h ≡ some h' → IsValid h'
unfolding step send_register send_unregister send_broadcast receive_register receive_unregister
    receive_broadcast
step-IsValid (registers sub) h h' v e =
    subst IsValid (sent_if (ltb (length h.register) register_capacity) _ h' e).1
      (IsValid-requeued h _ h.unregister h.broadcast v.waiting v)
step-IsValid (unregisters sub) h h' v e =
    let (room, same) = sent_if (ltb (length h.unregister) unregister_capacity) _ h' e in
    subst IsValid same (
      IsValid-requeued h h.register _ h.broadcast
        (omega (
          arith,
          ltb→lt (length h.unregister) unregister_capacity room,
          length-append h.unregister (sub ∷ []),
        ))
        v)
step-IsValid (broadcasts msg) h h' v e =
    subst IsValid (sent_if (ltb (length h.broadcast) broadcast_capacity) _ h' e).1
      (IsValid-requeued h h.register h.unregister _ v.waiting v)
step-IsValid runs_register h h' v e =
    let (sub, rest, front, got) = received h.register _ h' e in
    subst IsValid (cc)
      (on_register-IsValid sub _ (IsValid-requeued h rest h.unregister h.broadcast v.waiting v))
step-IsValid runs_unregister h h' v e =
    let (sub, rest, front, got) = received h.unregister _ h' e in
    subst IsValid (cc) (
      on_unregister-IsValid sub _ (
        IsValid-requeued h h.register rest h.broadcast (omega (arith, v.waiting, ap length front))
          v))
step-IsValid runs_broadcast h h' v e =
    let (msg, rest, front, got) = received h.broadcast _ h' e in
    on_broadcast-some-IsValid msg _ h' (IsValid-requeued h h.register h.unregister rest v.waiting v)
      got

-- In whatever order the goroutines send and `Run` receives, a valid hub stays valid as long as no
-- step has to wait: no empty set, no client twice in a set, and neither `unregister` nor the channel
-- of a client above its capacity.
pub steps-IsValid : (es : List Event) (h h' : Hub) → IsValid h → steps es h ≡ some h' → IsValid h'
unfolding steps
steps-IsValid [] h h' v e = subst IsValid (cc e) v
steps-IsValid (x ∷ es) h h' v e = elim (Option-cases (step x h)) [
  | inl stuck ↦ absurd (cc (continued stuck, e))
  | inr (next, done) ↦
      steps-IsValid es next h' (step-IsValid x h next v done) (cc (continued done, e))
]
  where
    continued :
        {r : Option Hub}
        → step x h ≡ r
        → steps (x ∷ es) h ≡ (elim r [ none ↦ none | some next ↦ steps es next ])
    continued f = rw (steps, f) refl
