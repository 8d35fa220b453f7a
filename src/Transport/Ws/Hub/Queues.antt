-- ===== src/Transport/Ws/Hub/Queues.antt =====
-- What a step of the hub adds to the queue of a client.
use auctioneer.Base.{
  ℕ, ◌+◌, ◌≤◌, ◌≡◌, ◌∙◌, refl, sym, ap, Bool, true, false, ◌&&◌, some, List, [], ◌∷◌, ◌++◌,
  append-nil, arith, if◌then◌else◌, ltb, length, inl, inr, Option-cases,
}
use mathlib.Core.Path.{subst}
use auctioneer.Text.{Bytes}
use auctioneer.Text.Map
use auctioneer.Transport.Ws.Hub.{
  Hub, Subscription, TargetedMessage, member, subscribers, on_register, on_unregister, on_broadcast,
  unregister_capacity,
}
use auctioneer.Transport.Ws.Hub.Sets.{has_room}
use auctioneer.Transport.Ws.Hub.Closing.{Closed, closers, le-or-lt}
use auctioneer.Transport.Ws.Hub.Broadcast.{Broadcasted, slow, on_broadcast_lem, on_broadcast-stuck}
use auctioneer.Transport.Ws.Hub.Invariant.{IsValid}
use auctioneer.Transport.Ws.Hub.Channels.{
  Event, registers, unregisters, broadcasts, runs_register, runs_unregister, runs_broadcast, step,
  received, sent_if, send_register, send_unregister, send_broadcast, receive_register,
  receive_unregister, receive_broadcast, IsValid-requeued,
}

-- A client gets the payload of a broadcast if it is subscribed and has room.
unfoldable pub given_by : List TargetedMessage → Hub → ℕ → List Bytes
given_by [] h d = []
given_by (msg ∷ rest) h d =
    if member d (subscribers msg.auction_id h) && has_room (h.heap d) then msg.payload ∷ [] else []

unfoldable pub given : Event → Hub → ℕ → List Bytes
unfolding given_by
given (registers sub) h d = []
given (unregisters sub) h d = []
given (broadcasts msg) h d = []
given runs_register h d = []
given runs_unregister h d = []
given runs_broadcast h d = given_by h.broadcast h d

pub on_broadcast-some :
    (msg : TargetedMessage) (h h' : Hub)
    → IsValid h
    → on_broadcast msg h ≡ some h'
    → Broadcasted msg h h'
on_broadcast-some msg h h' v e =
    elim (le-or-lt (length h.unregister + closers h.heap (slow msg h)) unregister_capacity) [
      | inl room ↦
          (let (next, done, facts) =
              on_broadcast_lem msg h (v.no_repeat msg.auction_id) v.tidy room in
            subst (λ g. Broadcasted msg h g) (cc e) facts)
      | inr full ↦
          absurd (cc (on_broadcast-stuck msg h (v.no_repeat msg.auction_id) v.waiting full, e))
    ]

heap-on_unregister : (sub : Subscription) (h : Hub) → (on_unregister sub h).heap ≡ h.heap
unfolding on_unregister
heap-on_unregister sub h = elim (Option-cases (Map.get sub.auction_id h.clients)) [
  | inl unknown ↦ rw (on_unregister, unknown) refl
  | inr (set, known) ↦ rw (on_unregister, known) refl
]

if_append {ℓ} :
    {A : Type ℓ} (test : Bool) (xs ys : List A)
    → (if test then xs ++ ys else xs) ≡ xs ++ (if test then ys else [])
if_append true xs ys = refl
if_append false xs ys = sym (append-nil xs)

-- Closing a client keeps the hub valid.
pub close-IsValid :
    (h h' : Hub) (n : ℕ)
    → IsValid h
    → Closed h h' n
    → length h.unregister + n ≤ unregister_capacity
    → IsValid h'
close-IsValid h h' n v k room = record {
  tidy = λ a. rw k.clients (v.tidy a);
  no_repeat = λ a. rw k.clients (v.no_repeat a);
  waiting = omega (arith, k.queued, room);
  fits = λ c. rw ((k.same c).send, (k.same c).capacity) (v.fits c);
}

pub step-queue :
    (e : Event) (h h' : Hub) (d : ℕ)
    → IsValid h
    → step e h ≡ some h'
    → (h'.heap d).send ≡ (h.heap d).send ++ given e h d
unfolding step given send_register send_unregister send_broadcast receive_register
    receive_unregister receive_broadcast on_register
step-queue (registers sub) h h' d v e =
    sym (append-nil _ ∙ ap (λ g. (g.heap d).send) (sent_if (ltb (length h.register) 1024) _ h' e).1)
step-queue (unregisters sub) h h' d v e = sym (
    append-nil _
    ∙ ap (λ g. (g.heap d).send) (sent_if (ltb (length h.unregister) unregister_capacity) _ h' e).1)
step-queue (broadcasts msg) h h' d v e =
    sym
      (append-nil _ ∙ ap (λ g. (g.heap d).send) (sent_if (ltb (length h.broadcast) 4096) _ h' e).1)
step-queue runs_register h h' d v e =
    let (sub, rest, front, got) = received h.register _ h' e in
    let same : on_register sub (record h { register = rest }) ≡ h' = cc in
    sym (append-nil _ ∙ ap (λ g. (g.heap d).send) same)
step-queue runs_unregister h h' d v e =
    let (sub, rest, front, got) = received h.unregister _ h' e in
    let same : on_unregister sub (record h { unregister = rest }) ≡ h' = cc in
    sym (
      append-nil _
      ∙ sym (ap (λ g. (g d).send) (heap-on_unregister sub (record h { unregister = rest })))
      ∙ ap (λ g. (g.heap d).send) same)
step-queue runs_broadcast h h' d v e =
    let (msg, rest, front, got) = received h.broadcast _ h' e in
    let facts =
      on_broadcast-some msg _ h' (IsValid-requeued h h.register h.unregister rest v.waiting v)
        got in
    facts.queues d
    ∙ if_append _ (h.heap d).send (msg.payload ∷ [])
    ∙ ap (λ q. (h.heap d).send ++ given_by q h d) (sym front)
