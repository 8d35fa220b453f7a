-- ===== src/Transport/Ws/Handler/Order.antt =====
-- handler.go: what the hub hands to a client, and what its writer makes of it.
use auctioneer.Base.{
  ℕ, suc, ◌<◌, ◌≡◌, ◌∙◌, refl, sym, ap, Bool, true, false, Option, none, some, List, [], ◌∷◌, ◌++◌,
  append-nil, append_assoc, arith, ltb, length, inl, inr, Option-cases, Bool-cases, ◌==◌,
}
use mathlib.Core.Path.{subst}
use auctioneer.Text.{Bytes, bytes_eq}
use auctioneer.Transport.Ws.Hub.{Hub, update}
use auctioneer.Transport.Ws.Hub.Invariant.{IsValid}
use auctioneer.Transport.Ws.Hub.Channels.{Event, step, step-IsValid, send_register}
use auctioneer.Transport.Ws.Hub.Queues.{given, step-queue}
use auctioneer.Transport.Ws.Handler.{
  Server, looping, closing, done, Action, connects, fails_to_read, closes_reader, closes_writer,
  writes_next, pings_client, hub_does, at, new_client, serve_http, read_fails, read_closes, writes,
  pings, write_closes, act, run, without_reply,
}
use auctioneer.Transport.Ws.Handler.Kept.{
  Kept, closed-Kept, closing-ne-looping, done-ne-looping, same-Kept, stops-Kept, Kept-trans,
  write_next-Kept, looping_next, closing_next, of_some,
}

-- What an action hands to client `c`.
unfoldable pub handed : Action → Server → ℕ → List Bytes
handed (hub_does e) s c = given e s.hub c
handed _ s c = []

-- The server with a new client that is being registered.
unfoldable pub served : Bytes → Server → Server
served auction_id s = record s {
  hub = record s.hub {
    register = s.hub.register ++ record { auction_id = auction_id; client = s.next } ∷ [];
    heap = update s.next (new_client s.hub.queue_depth auction_id) s.hub.heap;
  };
  next = suc s.next;
  reading = at s.next looping s.reading;
  writing = at s.next looping s.writing;
  wire = at s.next [] s.wire;
}

served-Kept :
    (c : ℕ) (auction_id : Bytes) (s : Server)
    → IsValid s.hub
    → c < s.next
    → Kept s (served auction_id s) c []
unfolding served new_client update
served-Kept c auction_id s v old = record {
  valid = record {
    tidy = v.tidy;
    no_repeat = v.no_repeat;
    waiting = v.waiting;
    fits = λ d. elim (Bool-cases (d == s.next)) [
      | inl new ↦ rw new (omega arith)
      | inr there ↦ rw there (v.fits d)
    ];
  };
  grows = omega arith;
  keeps = λ w.
      let there : (c == s.next) ≡ false = ground arith in
      (rw there at w, rw there (sym (append-nil _)));
}

serve-Kept :
    (c : ℕ) (auction_id : Bytes) (upgrades : Bool) (s s' : Server)
    → IsValid s.hub
    → c < s.next
    → without_reply (serve_http auction_id upgrades s) ≡ some s'
    → Kept s s' c []
unfolding serve_http send_register served
serve-Kept c auction_id upgrades s s' v old e = elim (Bool-cases (bytes_eq auction_id [])) [
  | inl empty ↦
      (let same : s ≡ s' = of_some (rw empty at e) in
        subst (λ x. Kept s x c []) same (same-Kept c s s.reading v))
  | inr named ↦ elim (Bool-cases upgrades) [
    | inr fails ↦
        (let same : s ≡ s' = of_some (rw (named, fails) at e) in
          subst (λ x. Kept s x c []) same (same-Kept c s s.reading v))
    | inl succeeds ↦ elim (Bool-cases (ltb (length s.hub.register) 1024)) [
      | inl room ↦
          (let same : served auction_id s ≡ s' = of_some (rw (named, succeeds, room) at e) in
            subst (λ x. Kept s x c []) same (served-Kept c auction_id s v old))
      | inr full ↦ absurd (cc (rw (named, succeeds, full) at e))
    ]
  ]
]

hub_does-Kept :
    (ev : Event) (c : ℕ) (s s' : Server)
    → IsValid s.hub
    → act (hub_does ev) s ≡ some s'
    → Kept s s' c (given ev s.hub c)
unfolding act
hub_does-Kept ev c s s' v e = elim (Option-cases (step ev s.hub)) [
  | inl stuck ↦ absurd (cc (goes stuck, e))
  | inr (hub, got) ↦
      (let same : record s { hub = hub } ≡ s' = cc (goes got, e) in
        subst (λ x. Kept s x c (given ev s.hub c)) same
          (record {
            valid = step-IsValid ev s.hub hub v got;
            grows = omega arith;
            keeps = λ w. (
              w,
              ap (λ q. s.wire c ++ q) (step-queue ev s.hub hub c v got)
                  ∙ sym (append_assoc (s.wire c) (s.hub.heap c).send (given ev s.hub c)),
            );
          }))
]
  where
    goes :
        {r : Option Hub}
        → step ev s.hub ≡ r
        → act (hub_does ev) s ≡ (elim r [ none ↦ none | some hub ↦ some (record s { hub = hub }) ])
    goes f = ap (λ o. elim o [ none ↦ none | some hub ↦ some (record s { hub = hub }) ]) f

pub act-Kept :
    (x : Action) (c : ℕ) (s s' : Server)
    → IsValid s.hub
    → c < s.next
    → act x s ≡ some s'
    → Kept s s' c (handed x s c)
unfolding act handed read_fails read_closes writes pings write_closes
act-Kept (connects auction_id upgrades) c s s' v old e =
    serve-Kept c auction_id upgrades s s' v old e
act-Kept (fails_to_read d) c s s' v old e =
    subst (λ x. Kept s x c []) (of_some (looping_next (s.reading d) _ s' e)) (same-Kept c s _ v)
act-Kept (closes_reader d) c s s' v old e =
    Kept-trans s (record s { reading = at d done s.reading }) s' c [] [] (same-Kept c s _ v)
      (closed-Kept c d _ s' v (closing_next (s.reading d) _ s' e))
act-Kept (closes_writer d) c s s' v old e =
    Kept-trans s (record s { writing = at d done s.writing }) s' c [] []
      (stops-Kept c d s done done-ne-looping v)
      (closed-Kept c d _ s' v (closing_next (s.writing d) _ s' e))
act-Kept (writes_next d written) c s s' v old e =
    write_next-Kept c d written (s.hub.heap d).send s s' refl v (looping_next (s.writing d) _ s' e)
act-Kept (pings_client d true) c s s' v old e =
    subst (λ x. Kept s x c []) (of_some (looping_next (s.writing d) _ s' e))
      (same-Kept c s s.reading v)
act-Kept (pings_client d false) c s s' v old e =
    subst (λ x. Kept s x c []) (of_some (looping_next (s.writing d) _ s' e))
      (stops-Kept c d s closing closing-ne-looping v)
act-Kept (hub_does ev) c s s' v old e = hub_does-Kept ev c s s' v e

-- All that a run hands to client `c`.
unfoldable pub handed_by : List Action → Server → ℕ → List Bytes
unfolding handed
handed_by [] s c = []
handed_by (x ∷ xs) s c = elim (act x s) [ none ↦ [] | some s' ↦ handed x s c ++ handed_by xs s' c ]

run-Kept :
    (xs : List Action) (c : ℕ) (s s' : Server)
    → IsValid s.hub
    → c < s.next
    → run xs s ≡ some s'
    → Kept s s' c (handed_by xs s c)
unfolding run handed_by
run-Kept [] c s s' v old e = subst (λ x. Kept s x c []) (of_some e) (same-Kept c s s.reading v)
run-Kept (x ∷ xs) c s s' v old e = elim (Option-cases (act x s)) [
  | inl stuck ↦ absurd (cc (rw (run, stuck) at e))
  | inr (t, got) ↦
      (let k = act-Kept x c s t v old got in
        rw (handed_by, got)
          (Kept-trans s t s' c (handed x s c) _ k
            (run-Kept xs c t s' k.valid (omega (arith, k.grows)) (rw (run, got) at e))))
]

-- Whatever the clients, their goroutines and the hub do, in any order: as long as the writer of a
-- client loops, what it has written to the connection and what waits in its channel are together
-- what was there before and then the payloads that the hub handed to it since: none is lost, none
-- comes twice, and their order is kept. (From a valid hub, for a client that is there.)
pub run-stream :
    (xs : List Action) (c : ℕ) (s s' : Server)
    → IsValid s.hub
    → c < s.next
    → run xs s ≡ some s'
    → s'.writing c ≡ looping
    → s'.wire c ++ (s'.hub.heap c).send ≡ (s.wire c ++ (s.hub.heap c).send) ++ handed_by xs s c
run-stream xs c s s' v old e w = ((run-Kept xs c s s' v old e).keeps w).1
