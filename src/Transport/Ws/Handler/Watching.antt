-- ===== src/Transport/Ws/Handler/Watching.antt =====
-- handler.go with hub.go: a client of one auction, from the sends of `Broadcast` to the connection.
use auctioneer.Base.{
  ℕ, ◌<◌, ◌≡◌, ◌∙◌, refl, sym, ap, Bool, true, false, some, List, [], ◌∷◌, ◌++◌, append_assoc,
  arith, ltb, length, inl, inr, Option-cases, Bool-cases, All,
}
use mathlib.Core.Path.{subst}
use auctioneer.Text.{Bytes, bytes_eq}
use auctioneer.Transport.Ws.Hub.{TargetedMessage, member, subscribers, close}
use auctioneer.Transport.Ws.Hub.Closing.{close-some}
use auctioneer.Transport.Ws.Hub.Invariant.{IsValid}
use auctioneer.Transport.Ws.Hub.Channels.{step, send_register}
use auctioneer.Transport.Ws.Hub.Queues.{given}
use auctioneer.Transport.Ws.Hub.Members.{IsOther}
use auctioneer.Transport.Ws.Hub.Untouched.{close-Untouched}
use auctioneer.Transport.Ws.Hub.Watching.{
  Watches, Watched, payloads_for, payloads_for-append, same-Watched, step-Watched, sent_by,
  RegistersOthers, snoc-Others,
}
use auctioneer.Transport.Ws.Handler.{
  Server, looping, Action, connects, fails_to_read, closes_reader, closes_writer, writes_next,
  pings_client, hub_does, closed, serve_http, read_fails, read_closes, writes, write_next, pings,
  write_closes, act, run, without_reply,
}
use auctioneer.Transport.Ws.Handler.Kept.{looping_next, closing_next, of_some}
use auctioneer.Transport.Ws.Handler.Order.{handed, handed_by, served, act-Kept, run-stream}

-- What an action sends to the hub's channel `broadcast`.
abbrev pub sent_of : Action → List TargetedMessage
sent_of (hub_does e) = sent_by e
sent_of _ = []

unfoldable pub sends : List Action → List TargetedMessage
sends [] = []
sends (x ∷ xs) = sent_of x ++ sends xs

-- Nobody calls `Register` for the client again. (A connection registers a new client.)
abbrev pub ForOthers : ℕ → Action → Type 0
ForOthers c (hub_does e) = RegistersOthers c e
ForOthers c _ = Unit

-- A step that leaves the hub's sets and messages alone.
closed-Watched :
    (a : Bytes) (c d : ℕ) (s s' : Server)
    → IsValid s.hub
    → Watches a c s.hub
    → closed d s ≡ some s'
    → Watched a c s.hub s'.hub [] []
closed-Watched a c d s s' v w e = elim (Option-cases (close d s.hub)) [
  | inl stuck ↦ absurd (cc (rw (closed, stuck) at e))
  | inr (hub, got) ↦
      (let (k, room) = close-some d s.hub hub v.waiting got in
        let (r, b) = close-Untouched d s.hub hub got in
        subst (λ g. Watched a c s.hub g.hub [] []) (of_some (rw (closed, got) at e))
          (same-Watched a c s.hub hub w k.clients b (subst (All (IsOther c)) (sym r) w.registered)))
]

serve-Watched :
    (a : Bytes) (c : ℕ) (auction_id : Bytes) (upgrades : Bool) (s s' : Server)
    → Watches a c s.hub
    → c < s.next
    → without_reply (serve_http auction_id upgrades s) ≡ some s'
    → Watched a c s.hub s'.hub [] []
unfolding serve_http send_register served
serve-Watched a c auction_id upgrades s s' w old e = elim (Bool-cases (bytes_eq auction_id [])) [
  | inl empty ↦ subst (λ g. Watched a c s.hub g.hub [] []) (of_some (rw empty at e)) unchanged
  | inr named ↦ elim (Bool-cases upgrades) [
    | inr fails ↦
        subst (λ g. Watched a c s.hub g.hub [] []) (of_some (rw (named, fails) at e)) unchanged
    | inl succeeds ↦ elim (Bool-cases (ltb (length s.hub.register) 1024)) [
      | inl room ↦
          (let same : served auction_id s ≡ s' = of_some (rw (named, succeeds, room) at e) in
            subst (λ g. Watched a c s.hub g.hub [] []) same
              (same-Watched a c s.hub _ w refl refl (
                snoc-Others c s.hub.register (record { auction_id = auction_id; client = s.next })
                  w.registered (ground arith))))
      | inr full ↦ absurd (cc (rw (named, succeeds, full) at e))
    ]
  ]
]
  where
    unchanged : Watched a c s.hub s.hub [] []
    unchanged = same-Watched a c s.hub s.hub w refl refl w.registered

write_next-Watched :
    (a : Bytes) (c d : ℕ) (written : Bool) (q : List Bytes) (s s' : Server)
    → Watches a c s.hub
    → write_next d written q s ≡ some s'
    → Watched a c s.hub s'.hub [] []
unfolding write_next
write_next-Watched a c d written [] s s' w e = absurd (cc)
write_next-Watched a c d true (msg ∷ rest) s s' w e =
    subst (λ g. Watched a c s.hub g.hub [] []) (of_some e)
      (same-Watched a c s.hub _ w refl refl w.registered)
write_next-Watched a c d false (msg ∷ rest) s s' w e =
    subst (λ g. Watched a c s.hub g.hub [] []) (of_some e)
      (same-Watched a c s.hub _ w refl refl w.registered)

act-Watched :
    (x : Action) (a : Bytes) (c : ℕ) (s s' : Server)
    → IsValid s.hub
    → Watches a c s.hub
    → c < s.next
    → ForOthers c x
    → act x s ≡ some s'
    → Watched a c s.hub s'.hub (handed x s c) (sent_of x)
unfolding act handed read_fails read_closes writes pings write_closes
act-Watched (connects auction_id upgrades) a c s s' v w old other e =
    serve-Watched a c auction_id upgrades s s' w old e
act-Watched (fails_to_read d) a c s s' v w old other e =
    subst (λ g. Watched a c s.hub g.hub [] []) (of_some (looping_next (s.reading d) _ s' e))
      (same-Watched a c s.hub _ w refl refl w.registered)
act-Watched (closes_reader d) a c s s' v w old other e =
    closed-Watched a c d _ s' v w (closing_next (s.reading d) _ s' e)
act-Watched (closes_writer d) a c s s' v w old other e =
    closed-Watched a c d _ s' v w (closing_next (s.writing d) _ s' e)
act-Watched (writes_next d written) a c s s' v w old other e =
    write_next-Watched a c d written (s.hub.heap d).send s s' w (looping_next (s.writing d) _ s' e)
act-Watched (pings_client d true) a c s s' v w old other e =
    subst (λ g. Watched a c s.hub g.hub [] []) (of_some (looping_next (s.writing d) _ s' e))
      (same-Watched a c s.hub _ w refl refl w.registered)
act-Watched (pings_client d false) a c s s' v w old other e =
    subst (λ g. Watched a c s.hub g.hub [] []) (of_some (looping_next (s.writing d) _ s' e))
      (same-Watched a c s.hub _ w refl refl w.registered)
act-Watched (hub_does ev) a c s s' v w old other e = elim (Option-cases (step ev s.hub)) [
  | inl stuck ↦ absurd (cc (rw (act, stuck) at e))
  | inr (hub, got) ↦
      subst (λ g. Watched a c s.hub g.hub (given ev s.hub c) (sent_by ev))
        (of_some (rw (act, got) at e)) (step-Watched ev a c s.hub hub v w other got)
]

run-Watched :
    (xs : List Action) (a : Bytes) (c : ℕ) (s s' : Server)
    → IsValid s.hub
    → Watches a c s.hub
    → c < s.next
    → All (ForOthers c) xs
    → run xs s ≡ some s'
    → Watched a c s.hub s'.hub (handed_by xs s c) (sends xs)
unfolding run handed_by sends
run-Watched [] a c s s' v w old others e =
    subst (λ g. Watched a c s.hub g.hub [] []) (of_some e)
      (same-Watched a c s.hub s.hub w refl refl w.registered)
run-Watched (x ∷ xs) a c s s' v w old (first, others) e = elim (Option-cases (act x s)) [
  | inl stuck ↦ absurd (cc (rw (run, stuck) at e))
  | inr (t, got) ↦
      (let k = act-Kept x c s t v old got in
        let now = act-Watched x a c s t v w old first got in
        let later =
          run-Watched xs a c t s' k.valid now.watches (omega (arith, k.grows)) others
            (rw (run, got) at e) in
        rw (handed_by, got)
          (record {
            watches = later.watches;
            was_there = λ m. now.was_there (later.was_there m);
            balance = λ m.
                append_assoc (handed x s c) _ _
                ∙ ap (λ q. handed x s c ++ q) (later.balance m)
                ∙ sym (append_assoc (handed x s c) _ _)
                ∙ ap (λ q. q ++ payloads_for a (sends xs)) (now.balance (later.was_there m))
                ∙ append_assoc (payloads_for a s.hub.broadcast) _ _
                ∙ ap (λ q. payloads_for a s.hub.broadcast ++ q)
                    (sym (payloads_for-append a (sent_of x) (sends xs)));
          }))
]

-- Whatever the clients, their goroutines and the hub do, in any order: a client that is still
-- subscribed to its auction at the end, and whose writer still loops, has got every message that was
-- broadcast to that auction, once and in order: what is on its connection, then what waits in its
-- channel, then what waits for the hub are what these were before, and then all that was sent. (From
-- a valid hub, for a client that is there, is in no other auction's set and is not registered again.)
pub run-reaches :
    (xs : List Action) (a : Bytes) (c : ℕ) (s s' : Server)
    → IsValid s.hub
    → Watches a c s.hub
    → c < s.next
    → All (ForOthers c) xs
    → run xs s ≡ some s'
    → s'.writing c ≡ looping
    → member c (subscribers a s'.hub) ≡ true
    → (s'.wire c ++ (s'.hub.heap c).send) ++ payloads_for a s'.hub.broadcast
      ≡ ((s.wire c ++ (s.hub.heap c).send) ++ payloads_for a s.hub.broadcast)
        ++ payloads_for a (sends xs)
run-reaches xs a c s s' v w old others e loops m =
    let before = s.wire c ++ (s.hub.heap c).send in
    ap (λ q. q ++ payloads_for a s'.hub.broadcast) (run-stream xs c s s' v old e loops)
    ∙ append_assoc before (handed_by xs s c) _
    ∙ ap (λ q. before ++ q) ((run-Watched xs a c s s' v w old others e).balance m)
    ∙ sym (append_assoc before _ _)
