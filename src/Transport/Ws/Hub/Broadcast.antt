-- ===== src/Transport/Ws/Hub/Broadcast.antt =====
-- The whole case `msg := <-h.broadcast` of `Run`.
use auctioneer.Base.{
  ℕ, All, ◌+◌, ◌≤◌, ◌<◌, ◌≡◌, ◌∙◌, refl, sym, ap, ◌&&◌, none, some, List, [], ◌∷◌, ◌++◌, arith,
  if◌then◌else◌, length,
}
use mathlib.Core.Path.{subst}
use auctioneer.Text.{Bytes, bytes_eq, bytes_eq_iff}
use auctioneer.Text.Map
use auctioneer.Transport.Ws.Hub.{
  Hub, TargetedMessage, member, members_of, subscribers, deliver, close_all, remove_all, store_set,
  drop_clients, on_broadcast, unregister_capacity,
}
use auctioneer.Transport.Ws.Hub.Sets.{
  HasNoRepeat, has_room, full_ones, with_room, as_set, get-store_set, remove_all-full_ones,
}
use auctioneer.Transport.Ws.Hub.Fanout.{Delivered, deliver_lem, with_payload}
use auctioneer.Transport.Ws.Hub.Closing.{
  closers, closers-same, Closed, close_all-Closed, close_all-stuck,
}

-- No key is kept for an empty set.
abbrev pub IsTidy : Hub → Type 0
IsTidy h = (k : Bytes) → Map.get k h.clients ≡ as_set (subscribers k h)

-- The hub behind a broadcast of `msg`.
pub record Broadcasted (msg : TargetedMessage) (h h' : Hub) : Type 0 where
  pub members :
      (k : Bytes)
      → subscribers k h' ≡ (
          if bytes_eq msg.auction_id k
          then with_room h.heap (subscribers msg.auction_id h)
          else subscribers k h)
  pub queues :
      (d : ℕ)
      → (h'.heap d).send ≡ (
          if member d (subscribers msg.auction_id h) && has_room (h.heap d)
          then (h.heap d).send ++ msg.payload ∷ []
          else (h.heap d).send)
  pub capacities : (d : ℕ) → (h'.heap d).capacity ≡ (h.heap d).capacity
  pub tidy : IsTidy h'
  pub queued :
      length h'.unregister
      ≡ length h.unregister + closers h.heap (full_ones h.heap (subscribers msg.auction_id h))
  pub count : h'.dropped ≡ h.dropped + length (full_ones h.heap (subscribers msg.auction_id h))

members_of-as_set : (cs : List ℕ) → members_of (as_set cs) ≡ cs
members_of-as_set [] = refl
members_of-as_set (c ∷ cs) = refl

pub subscribers-store_set :
    (a k : Bytes) (cs : List ℕ) (h : Hub)
    → subscribers k (record h { clients = store_set a cs h.clients })
      ≡ (if bytes_eq a k then cs else subscribers k h)
subscribers-store_set a k cs h =
    rw (get-store_set a k cs h.clients) (ground (arith, members_of-as_set cs))

pub IsTidy-store_set :
    (a : Bytes) (cs : List ℕ) (h : Hub)
    → IsTidy h
    → IsTidy (record h { clients = store_set a cs h.clients })
IsTidy-store_set a cs h neat k =
    get-store_set a k cs h.clients
    ∙ (ground (arith, neat k) ∙ ap as_set (sym (subscribers-store_set a k cs h)))

module _ (msg : TargetedMessage) (h : Hub) where
  -- The subscribers, and those of them whose channel is full.
  abbrev pub audience : List ℕ
  audience = subscribers msg.auction_id h

  abbrev pub slow : List ℕ
  slow = full_ones h.heap audience

  module _ (no_repeat : HasNoRepeat audience) where
    sent :
        Delivered msg.payload audience h
          (deliver msg.payload audience h).0
          (deliver msg.payload audience h).1
    sent = deliver_lem msg.payload audience h no_repeat

    -- The closers among the dropped are those among the full ones before the broadcast.
    same_closers : closers (deliver msg.payload audience h).0.heap slow ≡ closers h.heap slow
    same_closers =
        closers-same (deliver msg.payload audience h).0.heap h.heap slow
          λ d. ap (λ v. v.close_fn) (sent.heap d) ∙ kept d
      where
        kept :
            (d : ℕ)
            → (if member d audience && has_room (h.heap d)
                then with_payload msg.payload (h.heap d)
                else h.heap d).close_fn
              ≡ (h.heap d).close_fn
        kept d = ground arith

    same_subscribers :
        (k : Bytes) → subscribers k (deliver msg.payload audience h).0 ≡ subscribers k h
    same_subscribers k = ap (λ m. members_of (Map.get k m)) sent.clients

    queue_of :
        (d : ℕ)
        → ((deliver msg.payload audience h).0.heap d).send ≡ (
            if member d audience && has_room (h.heap d)
            then (h.heap d).send ++ msg.payload ∷ []
            else (h.heap d).send)
    queue_of d = ap (λ v. v.send) (sent.heap d) ∙ ground arith

    capacity_of :
        (d : ℕ) → ((deliver msg.payload audience h).0.heap d).capacity ≡ (h.heap d).capacity
    capacity_of d = ap (λ v. v.capacity) (sent.heap d) ∙ ground arith

    on_broadcast-eq :
        on_broadcast msg h ≡ drop_clients msg.auction_id slow (deliver msg.payload audience h).0
    unfolding on_broadcast
    on_broadcast-eq =
        ap (λ ds. drop_clients msg.auction_id ds (deliver msg.payload audience h).0) sent.full

    -- Where no subscriber is full nobody is dropped.
    nobody_dropped : IsTidy h → slow ≡ [] → Broadcasted msg h (deliver msg.payload audience h).0
    nobody_dropped neat none_slow = record {
      members = λ k.
          same_subscribers k
          ∙ same_members k
              (sym (remove_all-full_ones h.heap audience no_repeat) ∙ unchanged none_slow);
      queues = queue_of;
      capacities = capacity_of;
      tidy = λ k. rw sent.clients (neat k);
      queued = ap length sent.unregister ∙ rw none_slow (unfold closers in omega arith);
      count = sent.count ∙ ap (λ ds. h.dropped + length ds) sent.full;
    }
      where
        unchanged : slow ≡ [] → remove_all slow audience ≡ audience
        unchanged e = rw e (unfold remove_all in refl)

        same_members :
            (k : Bytes)
            → with_room h.heap audience ≡ audience
            → subscribers k h
              ≡ (if bytes_eq msg.auction_id k then with_room h.heap audience else subscribers k h)
        same_members k e = rw e (ground (arith, bytes_eq_iff msg.auction_id k, ap_subscribers k))
          where
            ap_subscribers :
                (k : Bytes) → msg.auction_id ≡ k → subscribers k h ≡ subscribers msg.auction_id h
            ap_subscribers k e = rw e

    -- Where some are, and all of them can be closed.
    some_dropped :
        IsTidy h
        → (c : ℕ) (cs : List ℕ) → slow ≡ c ∷ cs
        → (h' : Hub) → close_all (c ∷ cs) (deliver msg.payload audience h).0 ≡ some h'
        → Closed
            (deliver msg.payload audience h).0
            h'
            (closers (deliver msg.payload audience h).0.heap (c ∷ cs))
        → (h'' : Hub) × (drop_clients msg.auction_id (c ∷ cs) (deliver msg.payload audience h).0
            ≡ some h'')
          × Broadcasted msg h h''
    unfolding drop_clients
    some_dropped neat c cs e h' closed k =
        let kept = remove_all (c ∷ cs) (subscribers msg.auction_id h') in
        let same : (j : Bytes) → subscribers j h' ≡ subscribers j h =
          λ j. ap (λ m. members_of (Map.get j m)) k.clients ∙ same_subscribers j in
        let roomy : kept ≡ with_room h.heap audience =
          ap (λ s. remove_all (c ∷ cs) s) (same msg.auction_id)
          ∙ ap (λ ds. remove_all ds audience) (sym e)
          ∙ remove_all-full_ones h.heap audience no_repeat in
        (
          record h' { clients = store_set msg.auction_id kept h'.clients },
          rw (drop_clients, closed),
          record {
            members = λ j.
                subscribers-store_set msg.auction_id j kept h'
                ∙ ap (λ s. if bytes_eq msg.auction_id j then s else subscribers j h') roomy
                ∙ ap (λ s. if bytes_eq msg.auction_id j then with_room h.heap audience else s)
                    (same j);
            queues = λ d. (k.same d).send ∙ queue_of d;
            capacities = λ d. (k.same d).capacity ∙ capacity_of d;
            tidy =
                IsTidy-store_set msg.auction_id kept h'
                  (λ j. rw (k.clients, sent.clients) (neat j));
            queued = omega (
              arith,
              k.queued,
              ap length sent.unregister,
              subst (λ ds. closers (deliver msg.payload audience h).0.heap ds ≡ closers h.heap slow)
                  e same_closers,
            );
            count = k.dropped ∙ sent.count ∙ ap (λ ds. h.dropped + length ds) sent.full;
          },
        )

    room_after :
        length h.unregister + closers h.heap slow ≤ unregister_capacity
        → length (deliver msg.payload audience h).0.unregister
            + closers (deliver msg.payload audience h).0.heap slow
          ≤ unregister_capacity
    room_after room = omega (arith, ap length sent.unregister, same_closers)

    pub on_broadcast_lem :
        IsTidy h
        → length h.unregister + closers h.heap slow ≤ unregister_capacity
        → (h' : Hub) × (on_broadcast msg h ≡ some h') × Broadcasted msg h h'
    on_broadcast_lem neat room = rw on_broadcast-eq (by_list slow refl)
      where
        by_list :
            (ds : List ℕ)
            → slow ≡ ds
            → (h' : Hub) × (drop_clients msg.auction_id slow (deliver msg.payload audience h).0
                ≡ some h')
              × Broadcasted msg h h'
        by_list [] e = (
          (deliver msg.payload audience h).0,
          ap (λ ds. drop_clients msg.auction_id ds (deliver msg.payload audience h).0) e
              ∙ unfold drop_clients in refl,
          nobody_dropped neat e,
        )
        by_list (c ∷ cs) e =
            let (h', closed, k) = close_all-Closed (c ∷ cs) (deliver msg.payload audience h).0 (
              subst
                (λ ds.
                  length (deliver msg.payload audience h).0.unregister
                    + closers (deliver msg.payload audience h).0.heap ds
                  ≤ unregister_capacity)
                e (room_after room)) in
            let (h'', done, facts) = some_dropped neat c cs e h' closed k in
            (
              h'',
              ap (λ ds. drop_clients msg.auction_id ds (deliver msg.payload audience h).0) e ∙ done,
              facts,
            )

    -- A broadcast gives every subscriber with room the payload, behind what it has not read yet, and
    -- drops the others: they leave the auction's set, the counter counts each, and no other auction
    -- and no other queue changes. The conditions: no client is twice in the auction's set, the map
    -- holds no empty set (nor does it afterwards), the subscribers' channels are buffered, and the
    -- channel `unregister` has room for every dropped client that unregisters itself when it is closed.
    -- (What other goroutines send on `unregister` meanwhile counts as sent before.)
    pub on_broadcast-delivers :
        IsTidy h
        → All (λ d. 0 < (h.heap d).capacity) audience
        → length h.unregister + closers h.heap slow ≤ unregister_capacity
        → (h' : Hub) × (on_broadcast msg h ≡ some h') × Broadcasted msg h h'
    on_broadcast-delivers neat buffered room = on_broadcast_lem neat room

    -- If more clients that unregister themselves are dropped at once than the channel `unregister`
    -- has room for, no hub follows: `Run` waits for itself. (No client is twice in the auction's set.)
    pub on_broadcast-stuck :
        length h.unregister ≤ unregister_capacity
        → unregister_capacity < length h.unregister + closers h.heap slow
        → on_broadcast msg h ≡ none
    on_broadcast-stuck low high = rw on_broadcast-eq (by_list slow refl)
      where
        by_list :
            (ds : List ℕ)
            → slow ≡ ds
            → drop_clients msg.auction_id slow (deliver msg.payload audience h).0 ≡ none
        by_list [] e = absurd (nobody (ap (closers h.heap) e))
          where
            nobody : ¬ (closers h.heap slow ≡ closers h.heap [])
            nobody x = unfold closers in omega arith
        by_list (c ∷ cs) e =
            ap (λ ds. drop_clients msg.auction_id ds (deliver msg.payload audience h).0) e
            ∙ unfold drop_clients in
              rw (
                drop_clients,
                close_all-stuck (c ∷ cs) (deliver msg.payload audience h).0
                    (omega (arith, ap length sent.unregister))
                    (subst
                      (λ ds.
                        unregister_capacity
                        < length (deliver msg.payload audience h).0.unregister
                          + closers (deliver msg.payload audience h).0.heap ds)
                      e (omega (arith, ap length sent.unregister, same_closers))),
              )
