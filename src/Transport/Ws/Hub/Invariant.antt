-- ===== src/Transport/Ws/Hub/Invariant.antt =====
-- What holds of the hub between two steps of `Run`.
use auctioneer.Base.{
  ℕ, ◌+◌, ◌≤◌, ◌≡◌, ◌∙◌, ◌≢◌, ◌↔◌, refl, sym, ap, Bool, true, false, ◌&&◌, some, List, [], ◌∷◌,
  ◌++◌, arith, if◌then◌else◌, ltb→lt, length, length-append, Bool-cases, Option-cases, inl, inr,
}
use mathlib.Core.Path.{subst}
use auctioneer.Text.{Bytes, bytes_eq}
use auctioneer.Text.Map
use auctioneer.Text.Map.{contains, is_some, contains-keys, get-put}
use auctioneer.Transport.Ws.Hub.{
  Client, Hub, Subscription, TargetedMessage, member, members_of, subscribers, add, remove,
  store_set, on_register, on_unregister, on_broadcast, known_auctions, unregister_capacity,
}
use auctioneer.Transport.Ws.Hub.Sets.{
  HasNoRepeat, has_room, full_ones, with_room, as_set, add-HasNoRepeat, add-ne-nil,
  remove-HasNoRepeat, remove_all-HasNoRepeat, remove_all-full_ones,
}
use auctioneer.Transport.Ws.Hub.Closing.{closers}
use auctioneer.Transport.Ws.Hub.Broadcast.{
  IsTidy, subscribers-store_set, IsTidy-store_set, on_broadcast_lem, slow,
}

pub record IsValid (h : Hub) : Type 0 where
  pub tidy : IsTidy h
  pub no_repeat : (k : Bytes) → HasNoRepeat (subscribers k h)
  pub waiting : length h.unregister ≤ unregister_capacity
  pub fits : (c : ℕ) → length (h.heap c).send ≤ (h.heap c).capacity

-- In a valid hub KnownAuctions gives exactly the auctions that have a subscriber.
pub known_auctions_iff :
    (h : Hub) (k : Bytes)
    → IsValid h
    → (contains k (known_auctions h) ≡ true) ↔ (subscribers k h ≢ [])
unfolding known_auctions
known_auctions_iff h k v =
    subst (λ b. (b ≡ true) ↔ (subscribers k h ≢ []))
      (sym (contains-keys k h.clients ∙ ap is_some (v.tidy k))) (by_set (subscribers k h))
  where
    by_set : (cs : List ℕ) → (is_some (as_set cs) ≡ true) ↔ (cs ≢ [])
    by_set [] = ((λ e. cc), (λ n. absurd (n refl)))
    by_set (c ∷ cs) = ((λ e n. cc), (λ n. refl))

members-if : (b : Bool) (P : List ℕ → Type 0) {x y : List ℕ} → P x → P y → P (if b then x else y)
members-if true P px py = px
members-if false P px py = py

subscribers-put :
    (a k : Bytes) (c : ℕ) (cs : List ℕ) (h : Hub)
    → subscribers k (record h { clients = Map.put a (c ∷ cs) h.clients })
      ≡ (if bytes_eq a k then c ∷ cs else subscribers k h)
subscribers-put a k c cs h = rw (get-put a k (c ∷ cs) h.clients) (ground arith)

pub stored_as_put :
    (a : Bytes) (cs : List ℕ) (h : Hub)
    → cs ≢ []
    → Map.put a cs h.clients ≡ store_set a cs h.clients
unfolding store_set
stored_as_put a [] h n = absurd (n refl)
stored_as_put a (c ∷ cs) h n = refl

-- Registering a client keeps the hub valid: no empty set, no client twice in a set, and neither
-- `unregister` nor the channel of a client above its capacity.
pub on_register-IsValid : (sub : Subscription) (h : Hub) → IsValid h → IsValid (on_register sub h)
unfolding on_register
on_register-IsValid sub h v =
    let cs = add sub.client (subscribers sub.auction_id h) in
    rw (stored_as_put sub.auction_id cs h (add-ne-nil sub.client (subscribers sub.auction_id h)))
      (record {
        tidy = IsTidy-store_set sub.auction_id cs h v.tidy;
        no_repeat = λ k. rw (subscribers-store_set sub.auction_id k cs h) (
            members-if (bytes_eq sub.auction_id k) HasNoRepeat
              (add-HasNoRepeat sub.client (subscribers sub.auction_id h)
                (v.no_repeat sub.auction_id))
              (v.no_repeat k));
        waiting = v.waiting;
        fits = v.fits;
      })

-- Unregistering a client keeps the hub valid.
pub on_unregister-IsValid :
    (sub : Subscription) (h : Hub) → IsValid h → IsValid (on_unregister sub h)
unfolding on_unregister
on_unregister-IsValid sub h v = elim (Option-cases (Map.get sub.auction_id h.clients)) [
  | inl unknown ↦ rw (on_unregister, unknown) v
  | inr (set, known) ↦
      let members : subscribers sub.auction_id h ≡ set = ap members_of known in
      rw (on_unregister, known)
        (record {
          tidy = IsTidy-store_set sub.auction_id (remove sub.client set) h v.tidy;
          no_repeat = λ k. rw (subscribers-store_set sub.auction_id k (remove sub.client set) h) (
              members-if (bytes_eq sub.auction_id k) HasNoRepeat
                (remove-HasNoRepeat sub.client set
                  (subst HasNoRepeat members (v.no_repeat sub.auction_id)))
                (v.no_repeat k));
          waiting = v.waiting;
          fits = v.fits;
        })
]

with_room-HasNoRepeat :
    (heap : ℕ → Client) (cs : List ℕ) → HasNoRepeat cs → HasNoRepeat (with_room heap cs)
with_room-HasNoRepeat heap cs h =
    subst HasNoRepeat (remove_all-full_ones heap cs h)
      (remove_all-HasNoRepeat (full_ones heap cs) cs h)

-- A broadcast keeps the hub valid, if `unregister` has room for the dropped clients that unregister
-- themselves.
pub on_broadcast-IsValid :
    (msg : TargetedMessage) (h : Hub)
    → IsValid h
    → length h.unregister + closers h.heap (slow msg h) ≤ unregister_capacity
    → (h' : Hub) × (on_broadcast msg h ≡ some h') × IsValid h'
on_broadcast-IsValid msg h v room =
    let (h', done, b) = on_broadcast_lem msg h (v.no_repeat msg.auction_id) v.tidy room in
    (
      h',
      done,
      record {
        tidy = b.tidy;
        no_repeat = λ k. subst HasNoRepeat (sym (b.members k)) (
            members-if (bytes_eq msg.auction_id k) HasNoRepeat
              (with_room-HasNoRepeat h.heap (subscribers msg.auction_id h)
                (v.no_repeat msg.auction_id))
              (v.no_repeat k));
        waiting = omega (arith, room, b.queued);
        fits = λ c. rw (b.queues c, b.capacities c) (queue_fits c);
      },
    )
  where
    queue_fits :
        (c : ℕ)
        → length (
            if member c (subscribers msg.auction_id h) && has_room (h.heap c)
            then (h.heap c).send ++ msg.payload ∷ []
            else (h.heap c).send)
          ≤ (h.heap c).capacity
    queue_fits c =
        elim (Bool-cases (member c (subscribers msg.auction_id h) && has_room (h.heap c))) [
          | inl e ↦
              rw (e, length-append (h.heap c).send (msg.payload ∷ []))
                (omega (
                  arith,
                  ltb→lt (length (h.heap c).send) (h.heap c).capacity
                      (second (member c (subscribers msg.auction_id h)) (has_room (h.heap c)) e),
                ))
          | inr n ↦ rw n (v.fits c)
        ]
      where
        second : (a b : Bool) → a && b ≡ true → b ≡ true
        second a b e = ground arith
