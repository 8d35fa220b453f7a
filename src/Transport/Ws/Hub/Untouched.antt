-- ===== src/Transport/Ws/Hub/Untouched.antt =====
-- Broadcasting and closing leave the channels `register` and `broadcast` alone.
use auctioneer.Base.{
  ℕ, suc, ◌≡◌, ◌∙◌, refl, some, List, [], ◌∷◌, ◌++◌, ltb, length, inl, inr, Bool-cases,
  Option-cases,
}
use mathlib.Core.Path.{subst}
use auctioneer.Text.{Bytes}
use auctioneer.Text.Map
use auctioneer.Transport.Ws.Hub.{
  Hub, Subscription, TargetedMessage, subscribers, update, deliver, close_conn, close, close_all,
  drop_clients, on_broadcast, on_unregister, unregister_capacity,
}
use auctioneer.Transport.Ws.Hub.Sets.{has_room}
use auctioneer.Transport.Ws.Hub.Channels.{sent_if}

abbrev pub Untouched : Hub → Hub → Type 0
Untouched h h' = (h'.register ≡ h.register) × (h'.broadcast ≡ h.broadcast)

of_some {ℓ} : {A : Type ℓ} {x y : A} → some x ≡ some y → x ≡ y
of_some e = cc

deliver-Untouched : (p : Bytes) (cs : List ℕ) (h : Hub) → Untouched h (deliver p cs h).0
unfolding deliver
deliver-Untouched p [] h = (refl, refl)
deliver-Untouched p (c ∷ cs) h = elim (Bool-cases (has_room (h.heap c))) [
  | inl room ↦
      (let client = h.heap c in
        let (r, b) =
          deliver-Untouched p cs (record h {
            heap = update c (record client { send = client.send ++ p ∷ [] }) h.heap;
          }) in
        rw (deliver, room) (r, b))
  | inr full ↦
      (let (r, b) = deliver-Untouched p cs (record h { dropped = suc h.dropped }) in
        rw (deliver, full) (r, b))
]

pub close-Untouched : (c : ℕ) (h h' : Hub) → close c h ≡ some h' → Untouched h h'
unfolding close close_conn
close-Untouched c h h' e = elim (Option-cases (h.heap c).close_fn) [
  | inl plain ↦ subst (Untouched h) (of_some (rw (close, plain) at e)) (refl, refl)
  | inr (a, closes) ↦
      subst (Untouched h)
        (sent_if (ltb (length h.unregister) unregister_capacity) _ h' (rw (close, closes) at e)).1
        (refl, refl)
]

close_all-Untouched : (cs : List ℕ) (h h' : Hub) → close_all cs h ≡ some h' → Untouched h h'
unfolding close_all
close_all-Untouched [] h h' e = subst (Untouched h) (of_some e) (refl, refl)
close_all-Untouched (c ∷ cs) h h' e = elim (Option-cases (close c h)) [
  | inl stuck ↦ absurd (cc (rw (close_all, stuck) at e))
  | inr (next, done) ↦
      (let (r, b) = close-Untouched c h next done in
        let (r', b') = close_all-Untouched cs next h' (rw (close_all, done) at e) in
        (r' ∙ r, b' ∙ b))
]

drop_clients-Untouched :
    (a : Bytes) (cs : List ℕ) (h h' : Hub) → drop_clients a cs h ≡ some h' → Untouched h h'
unfolding drop_clients
drop_clients-Untouched a [] h h' e = subst (Untouched h) (of_some e) (refl, refl)
drop_clients-Untouched a (c ∷ cs) h h' e = elim (Option-cases (close_all (c ∷ cs) h)) [
  | inl stuck ↦ absurd (cc (rw (drop_clients, stuck) at e))
  | inr (next, done) ↦
      subst (Untouched h) (of_some (rw (drop_clients, done) at e))
        (close_all-Untouched (c ∷ cs) h next done)
]

pub on_broadcast-Untouched :
    (msg : TargetedMessage) (h h' : Hub) → on_broadcast msg h ≡ some h' → Untouched h h'
unfolding on_broadcast
on_broadcast-Untouched msg h h' e =
    let (r, b) = deliver-Untouched msg.payload (subscribers msg.auction_id h) h in
    let (r', b') = drop_clients-Untouched msg.auction_id _ _ h' e in (r' ∙ r, b' ∙ b)

pub on_unregister-Untouched : (sub : Subscription) (h : Hub) → Untouched h (on_unregister sub h)
unfolding on_unregister
on_unregister-Untouched sub h = elim (Option-cases (Map.get sub.auction_id h.clients)) [
  | inl unknown ↦ rw (on_unregister, unknown) (refl, refl)
  | inr (set, known) ↦ rw (on_unregister, known) (refl, refl)
]
