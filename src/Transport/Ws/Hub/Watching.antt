-- ===== src/Transport/Ws/Hub/Watching.antt =====
-- A client of one auction: its place in the auction's set, and the messages that are on their way.
use auctioneer.Base.{
  ℕ, ◌≡◌, ◌∙◌, refl, sym, ap, Bool, true, false, ◌&&◌, some, List, [], ◌∷◌, ◌++◌, append-nil, arith,
  if◌then◌else◌, All, All-append, ltb, length, inl, inr, Bool-cases,
}
use mathlib.Core.Path.{subst}
use auctioneer.Text.{Bytes, bytes_eq, bytes_eq_iff}
use auctioneer.Transport.Ws.Hub.{
  Hub, Subscription, TargetedMessage, member, subscribers, on_register, on_unregister,
  unregister_capacity,
}
use auctioneer.Transport.Ws.Hub.Sets.{has_room}
use auctioneer.Transport.Ws.Hub.Broadcast.{Broadcasted}
use auctioneer.Transport.Ws.Hub.Invariant.{IsValid}
use auctioneer.Transport.Ws.Hub.Channels.{
  Event, registers, unregisters, broadcasts, runs_register, runs_unregister, runs_broadcast, step,
  received, sent_if, send_register, send_unregister, send_broadcast, receive_register,
  receive_unregister, receive_broadcast, IsValid-requeued,
}
use auctioneer.Transport.Ws.Hub.Members.{
  IsOther, member-on_register, member-on_unregister, member-Broadcasted, bytes_ne_sym, both_true,
}
use auctioneer.Transport.Ws.Hub.Untouched.{on_broadcast-Untouched, on_unregister-Untouched}
use auctioneer.Transport.Ws.Hub.Queues.{given, given_by, on_broadcast-some}

-- The payloads for an auction among messages.
unfoldable pub payloads_for : Bytes → List TargetedMessage → List Bytes
payloads_for a [] = []
payloads_for a (msg ∷ msgs) =
    let rest = payloads_for a msgs in if bytes_eq msg.auction_id a then msg.payload ∷ rest else rest

pub payloads_for-append :
    (a : Bytes) (xs ys : List TargetedMessage)
    → payloads_for a (xs ++ ys) ≡ payloads_for a xs ++ payloads_for a ys
unfolding payloads_for
payloads_for-append a [] ys = refl
payloads_for-append a (msg ∷ xs) ys = ground (arith, payloads_for-append a xs ys)

-- The client is in no other auction's set, and no registration of it waits.
pub record Watches (a : Bytes) (c : ℕ) (h : Hub) : Type 0 where
  pub only : (k : Bytes) → bytes_eq a k ≡ false → member c (subscribers k h) ≡ false
  pub registered : All (IsOther c) h.register

-- What an event sends to the channel `broadcast`, and that it registers only others.
abbrev pub sent_by : Event → List TargetedMessage
sent_by (broadcasts msg) = msg ∷ []
sent_by _ = []

abbrev pub RegistersOthers : ℕ → Event → Type 0
RegistersOthers c (registers sub) = IsOther c sub
RegistersOthers c _ = Unit

-- A hub that followed: the client still watches at most its auction; and if it is still in the set,
-- it was there before, and what it was given and what waits are what waited and was sent.
pub record Watched (a : Bytes) (c : ℕ) (h h' : Hub) (more : List Bytes)
    (sent : List TargetedMessage) : Type 0 where
  pub watches : Watches a c h'
  pub was_there : member c (subscribers a h') ≡ true → member c (subscribers a h) ≡ true
  pub balance :
      member c (subscribers a h') ≡ true
      → more ++ payloads_for a h'.broadcast ≡ payloads_for a h.broadcast ++ payloads_for a sent

-- A step that changes neither the sets nor the messages that wait.
pub same-Watched :
    (a : Bytes) (c : ℕ) (h h' : Hub)
    → Watches a c h
    → h'.clients ≡ h.clients
    → h'.broadcast ≡ h.broadcast
    → All (IsOther c) h'.register
    → Watched a c h h' [] []
unfolding payloads_for
same-Watched a c h h' w clients waiting others = record {
  watches = record { only = λ k n. rw clients (w.only k n); registered = others };
  was_there = λ m. rw clients at m;
  balance = λ m. ap (payloads_for a) waiting ∙ sym (append-nil _);
}

module _ (a : Bytes) (c : ℕ) (h h' : Hub) (w : Watches a c h) where
  -- A broadcast that `Run` has taken from the channel.
  broadcast-Watched :
      (msg : TargetedMessage) (rest : List TargetedMessage)
      → h.broadcast ≡ msg ∷ rest
      → h'.broadcast ≡ rest
      → h'.register ≡ h.register
      → Broadcasted msg (record h { broadcast = rest }) h'
      → Watched a c h h' (given_by h.broadcast h c) []
  unfolding given_by payloads_for
  broadcast-Watched msg rest front waits registered facts = record {
    watches = record {
      only = λ k n. mem k ∙ ground (arith, w.only k n);
      registered = subst (All (IsOther c)) (sym registered) w.registered;
    };
    was_there = λ m. was_in (bytes_eq msg.auction_id a) (sym (mem a) ∙ m);
    balance = λ m.
        rw (front, waits)
          (elim (Bool-cases (bytes_eq msg.auction_id a)) [
            | inl e ↦
                (let got : (member c (subscribers msg.auction_id h) && has_room (h.heap c)) ≡ true =
                    ap (λ j. member c (subscribers j h) && has_room (h.heap c))
                      ((bytes_eq_iff _ _).0 e)
                    ∙ (rw e at (sym (mem a) ∙ m)) in
                  rw (given_by, got, e) (sym (append-nil _)))
            | inr n ↦
                (let nothing : member c (subscribers msg.auction_id h) ≡ false =
                    w.only msg.auction_id (bytes_ne_sym _ _ n) in
                  rw (given_by, nothing, n) (sym (append-nil _)))
          ]);
  }
    where
      mem :
          (k : Bytes)
          → member c (subscribers k h') ≡ (
              if bytes_eq msg.auction_id k
              then member c (subscribers k h) && has_room (h.heap c)
              else member c (subscribers k h))
      mem k = member-Broadcasted c k msg (record h { broadcast = rest }) h' facts

      was_in :
          (b : Bool)
          → (if b
              then member c (subscribers a h) && has_room (h.heap c)
              else member c (subscribers a h))
            ≡ true
          → member c (subscribers a h) ≡ true
      was_in true e = both_true _ _ e
      was_in false e = e

not_true : {b : Bool} → ¬ (b ≡ true) → b ≡ false
not_true {b} n = ground (arith, n)

-- What waits for room is behind what was there.
pub snoc-Others :
    (c : ℕ) (subs : List Subscription) (sub : Subscription)
    → All (IsOther c) subs
    → IsOther c sub
    → All (IsOther c) (subs ++ sub ∷ [])
snoc-Others c subs sub h other = All-append (IsOther c) subs (sub ∷ []) h (other, tt)

pub step-Watched :
    (e : Event) (a : Bytes) (c : ℕ) (h h' : Hub)
    → IsValid h
    → Watches a c h
    → RegistersOthers c e
    → step e h ≡ some h'
    → Watched a c h h' (given e h c) (sent_by e)
unfolding step given send_register send_unregister send_broadcast receive_register
    receive_unregister receive_broadcast
step-Watched (registers sub) a c h h' v w other e =
    let same = (sent_if (ltb (length h.register) 1024) _ h' e).1 in
    subst (λ g. Watched a c h g [] []) same
      (same-Watched a c h _ w refl refl (snoc-Others c h.register sub w.registered other))
step-Watched (unregisters sub) a c h h' v w other e =
    let same = (sent_if (ltb (length h.unregister) unregister_capacity) _ h' e).1 in
    subst (λ g. Watched a c h g [] []) same (same-Watched a c h _ w refl refl w.registered)
step-Watched (broadcasts msg) a c h h' v w other e =
    let same = (sent_if (ltb (length h.broadcast) 4096) _ h' e).1 in
    subst (λ g. Watched a c h g [] (msg ∷ [])) same
      (record {
        watches = record { only = w.only; registered = w.registered };
        was_there = λ m. m;
        balance = λ m. payloads_for-append a h.broadcast (msg ∷ []);
      })
step-Watched runs_register a c h h' v w other e =
    let (sub, rest, front, got) = received h.register _ h' e in
    let same : on_register sub (record h { register = rest }) ≡ h' = cc in
    let (first, others) = subst (All (IsOther c)) front w.registered in
    subst (λ g. Watched a c h g [] []) same (registered sub rest first others)
  where
    registered :
        (sub : Subscription) (rest : List Subscription)
        → IsOther c sub
        → All (IsOther c) rest
        → Watched a c h (on_register sub (record h { register = rest })) [] []
    registered sub rest first others = record {
      watches = record {
        only = λ k n. member-on_register c k sub (record h { register = rest }) first ∙ w.only k n;
        registered = unfold on_register in others;
      };
      was_there = λ m. sym (member-on_register c a sub (record h { register = rest }) first) ∙ m;
      balance = λ m. unfold on_register payloads_for in sym (append-nil _);
    }
step-Watched runs_unregister a c h h' v w other e =
    let (sub, rest, front, got) = received h.unregister _ h' e in
    let same : on_unregister sub (record h { unregister = rest }) ≡ h' = cc in
    subst (λ g. Watched a c h g [] []) same (unregistered sub rest)
  where
    unregistered :
        (sub : Subscription) (rest : List Subscription)
        → Watched a c h (on_unregister sub (record h { unregister = rest })) [] []
    unregistered sub rest = record {
      watches = record {
        only = λ k n.
            not_true (λ m.
              cc (member-on_unregister c k sub (record h { unregister = rest }) m, w.only k n));
        registered =
            subst (All (IsOther c))
              (sym (on_unregister-Untouched sub (record h { unregister = rest })).0) w.registered;
      };
      was_there = member-on_unregister c a sub (record h { unregister = rest });
      balance = λ m.
          ap (payloads_for a) (on_unregister-Untouched sub (record h { unregister = rest })).1
          ∙ unfold payloads_for in sym (append-nil _);
    }
step-Watched runs_broadcast a c h h' v w other e =
    let (msg, rest, front, got) = received h.broadcast _ h' e in
    let facts =
      on_broadcast-some msg _ h' (IsValid-requeued h h.register h.unregister rest v.waiting v)
        got in
    let (r, b) = on_broadcast-Untouched msg _ h' got in
    broadcast-Watched a c h h' w msg rest front b r facts
