-- ===== src/Transport/Ws/Hub/Members.antt =====
-- Who is in the set of an auction behind each case of `Run`.
use auctioneer.Base.{
  ℕ, ◌≡◌, ◌∙◌, refl, sym, ap, Bool, true, false, ◌&&◌, ◌==◌, ==_iff, ◌↔◌, none, some, List, [], ◌∷◌,
  arith, if◌then◌else◌, inl, inr, Bool-cases, Option-cases,
}
use auctioneer.Text.{Bytes, bytes_eq, bytes_eq_iff, bytes_eq→ne, ne→bytes_eq}
use auctioneer.Text.Map
use auctioneer.Text.Map.{get-put}
use auctioneer.Transport.Ws.Hub.{
  Hub, Subscription, TargetedMessage, Client, member, members_of, subscribers, add, remove,
  store_set, on_register, on_unregister,
}
use auctioneer.Transport.Ws.Hub.Sets.{has_room, with_room, add-ne-nil, member-add, member-remove}
use auctioneer.Transport.Ws.Hub.Broadcast.{Broadcasted, subscribers-store_set}
use auctioneer.Transport.Ws.Hub.Invariant.{stored_as_put}

-- A subscription of another client.
abbrev pub IsOther : ℕ → Subscription → Type 0
IsOther c sub = (sub.client == c) ≡ false

subscribers-on_register :
    (k : Bytes) (sub : Subscription) (h : Hub)
    → subscribers k (on_register sub h) ≡ (
        if bytes_eq sub.auction_id k
        then add sub.client (subscribers sub.auction_id h)
        else subscribers k h)
unfolding on_register
subscribers-on_register k sub h =
    let cs = add sub.client (subscribers sub.auction_id h) in
    ap (λ m. members_of (Map.get k m))
      (stored_as_put sub.auction_id cs h (add-ne-nil sub.client (subscribers sub.auction_id h)))
    ∙ subscribers-store_set sub.auction_id k cs h

-- Registering others changes no membership of the client.
pub member-on_register :
    (c : ℕ) (k : Bytes) (sub : Subscription) (h : Hub)
    → IsOther c sub
    → member c (subscribers k (on_register sub h)) ≡ member c (subscribers k h)
member-on_register c k sub h other =
    rw (subscribers-on_register k sub h) (elim (Bool-cases (bytes_eq sub.auction_id k)) [
      | inr n ↦ rw n refl
      | inl e ↦
          rw (e, member-add sub.client c (subscribers sub.auction_id h), other)
            (ap (λ j. member c (subscribers j h)) ((bytes_eq_iff sub.auction_id k).0 e))
    ])

on_unregister-known :
    (sub : Subscription) (h : Hub) (set : List ℕ)
    → Map.get sub.auction_id h.clients ≡ some set
    → on_unregister sub h
      ≡ record h { clients = store_set sub.auction_id (remove sub.client set) h.clients }
unfolding on_unregister
on_unregister-known sub h set known = rw (on_unregister, known) refl

on_unregister-unknown :
    (sub : Subscription) (h : Hub)
    → Map.get sub.auction_id h.clients ≡ none
    → on_unregister sub h ≡ h
unfolding on_unregister
on_unregister-unknown sub h unknown = rw (on_unregister, unknown) refl

-- Unregistering adds nobody.
pub member-on_unregister :
    (c : ℕ) (k : Bytes) (sub : Subscription) (h : Hub)
    → member c (subscribers k (on_unregister sub h)) ≡ true
    → member c (subscribers k h) ≡ true
member-on_unregister c k sub h m = elim (Option-cases (Map.get sub.auction_id h.clients)) [
  | inl unknown ↦ rw (on_unregister-unknown sub h unknown) at m
  | inr (set, known) ↦ kept set known (bytes_eq sub.auction_id k) refl (
      rw
        (
          on_unregister-known sub h set known,
          subscribers-store_set sub.auction_id k (remove sub.client set) h,
        )
        at m)
]
  where
    kept :
        (set : List ℕ)
        → Map.get sub.auction_id h.clients ≡ some set
        → (b : Bool) → bytes_eq sub.auction_id k ≡ b
        → member c (if b then remove sub.client set else subscribers k h) ≡ true
        → member c (subscribers k h) ≡ true
    kept set known false n m' = m'
    kept set known true e m' =
        ap (λ j. member c (subscribers j h)) (sym ((bytes_eq_iff sub.auction_id k).0 e))
        ∙ ap (λ o. member c (members_of o)) known
        ∙ ground (arith, member-remove sub.client c set)

member-with_room :
    (heap : ℕ → Client) (c : ℕ) (cs : List ℕ)
    → member c (with_room heap cs) ≡ (member c cs && has_room (heap c))
unfolding with_room
member-with_room heap c [] = refl
member-with_room heap c (d ∷ cs) =
    ground (arith, member-with_room heap c cs, same_room (==_iff d c))
  where
    same_room : ((d == c) ≡ true) ↔ (d ≡ c) → d ≡ c → has_room (heap d) ≡ has_room (heap c)
    same_room _ e = rw e refl

pub bytes_ne_sym : (x y : Bytes) → bytes_eq x y ≡ false → bytes_eq y x ≡ false
bytes_ne_sym x y n = ne→bytes_eq y x (λ e. bytes_eq→ne x y n (sym e))

-- Who is still in a set behind a broadcast.
pub member-Broadcasted :
    (c : ℕ) (k : Bytes) (msg : TargetedMessage) (h h' : Hub)
    → Broadcasted msg h h'
    → member c (subscribers k h') ≡ (
        if bytes_eq msg.auction_id k
        then member c (subscribers k h) && has_room (h.heap c)
        else member c (subscribers k h))
member-Broadcasted c k msg h h' facts = elim (Bool-cases (bytes_eq msg.auction_id k)) [
  | inr n ↦ rw n (ap (member c) (rw n at (facts.members k)))
  | inl e ↦ rw e (
      ap (member c) (rw e at (facts.members k))
      ∙ member-with_room h.heap c (subscribers msg.auction_id h)
      ∙ ap (λ j. member c (subscribers j h) && has_room (h.heap c)) ((bytes_eq_iff _ _).0 e))
]

pub both_true : (x y : Bool) → (x && y) ≡ true → x ≡ true
both_true x y e = ground arith
