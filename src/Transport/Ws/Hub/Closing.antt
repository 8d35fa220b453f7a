-- ===== src/Transport/Ws/Hub/Closing.antt =====
-- Closing the dropped clients from inside `Run`: each that has a closeFn takes a place in the channel
-- `unregister`, which nobody empties meanwhile.
use auctioneer.Base.{
  ℕ, ◌+◌, ◌≤◌, ◌<◌, ◌≡◌, ◌∙◌, refl, ap, ◌==◌, Option, none, some, List, [], ◌∷◌, ◌++◌, arith,
  lt→ltb, le→ltb, length, length-append, Option-cases, Bool-cases, ==_iff, sym, inl, inr, ◌⊎◌,
}
use mathlib.Core.Path.{subst}
use auctioneer.Text.{Bytes}
use auctioneer.Transport.Ws.Hub.{
  Client, Hub, update, close_conn, close, close_all, unregister_capacity,
}

pub le-or-lt : (a b : ℕ) → (a ≤ b) ⊎ (b < a)
le-or-lt a b = omega arith

-- The clients of a list that unregister themselves when they are closed.
abbrev pub one_if_some : Option Bytes → ℕ
one_if_some none = 0
one_if_some (some a) = 1

unfoldable pub closers : (ℕ → Client) → List ℕ → ℕ
closers heap [] = 0
closers heap (c ∷ cs) = one_if_some (heap c).close_fn + closers heap cs

-- A client whose connection may have been closed, and no more.
pub record SameClient (v w : Client) : Type 0 where
  pub send : w.send ≡ v.send
  pub capacity : w.capacity ≡ v.capacity
  pub close_fn : w.close_fn ≡ v.close_fn

-- The hub behind some closed clients, whose number of closeFn calls is `n`.
pub record Closed (h h' : Hub) (n : ℕ) : Type 0 where
  pub clients : h'.clients ≡ h.clients
  pub dropped : h'.dropped ≡ h.dropped
  pub same : (d : ℕ) → SameClient (h.heap d) (h'.heap d)
  pub queued : length h'.unregister ≡ length h.unregister + n

same_conn : (c d : ℕ) (h : Hub) → SameClient (h.heap d) ((close_conn c h).heap d)
unfolding close_conn update
same_conn c d h = elim (Bool-cases (d == c)) [
  | inl e ↦ rw e (record {
    send = ap (λ x. (h.heap x).send) (sym ((==_iff d c).0 e));
    capacity = ap (λ x. (h.heap x).capacity) (sym ((==_iff d c).0 e));
    close_fn = ap (λ x. (h.heap x).close_fn) (sym ((==_iff d c).0 e));
  })
  | inr n ↦ rw n (record { send = refl; capacity = refl; close_fn = refl })
]

pub close-Closed :
    (c : ℕ) (h : Hub)
    → length h.unregister + one_if_some (h.heap c).close_fn ≤ unregister_capacity
    → (h' : Hub) × (close c h ≡ some h') × Closed h h' (one_if_some (h.heap c).close_fn)
unfolding close
close-Closed c h room = elim (Option-cases (h.heap c).close_fn) [
  | inl e ↦ (
    close_conn c h,
    rw (close, e),
    unfold close_conn in
        record {
          clients = refl;
          dropped = refl;
          same = λ d. same_conn c d h;
          queued = rw e (omega arith);
        },
  )
  | inr (a, e) ↦
      let h₁ = record h {
        unregister = h.unregister ++ record { auction_id = a; client = c } ∷ [];
      } in
      let free : length h.unregister < unregister_capacity =
        omega
          (arith, subst (λ o. length h.unregister + one_if_some o ≤ unregister_capacity) e room) in
      (
        close_conn c h₁,
        rw (close, e, lt→ltb (length h.unregister) unregister_capacity free),
        unfold close_conn in
            record {
              clients = refl;
              dropped = refl;
              same = λ d. same_conn c d h₁;
              queued =
                  rw e (length-append h.unregister (record { auction_id = a; client = c } ∷ []));
            },
      )
]

close-stuck :
    (c : ℕ) (h : Hub)
    → length h.unregister ≤ unregister_capacity
    → unregister_capacity < length h.unregister + one_if_some (h.heap c).close_fn
    → close c h ≡ none
unfolding close
close-stuck c h low high = elim (Option-cases (h.heap c).close_fn) [
  | inl e ↦ absurd (omega (arith, ap one_if_some e))
  | inr (a, e) ↦
      rw (
        close,
        e,
        le→ltb (length h.unregister) unregister_capacity (omega (arith, ap one_if_some e)),
      )
]

-- A client that is closed found room in the channel.
pub close-some :
    (c : ℕ) (h h' : Hub)
    → length h.unregister ≤ unregister_capacity
    → close c h ≡ some h'
    → Closed h h' (one_if_some (h.heap c).close_fn)
      × (length h.unregister + one_if_some (h.heap c).close_fn ≤ unregister_capacity)
close-some c h h' low e =
    elim (le-or-lt (length h.unregister + one_if_some (h.heap c).close_fn) unregister_capacity) [
      | inl room ↦
          (let (next, done, closed) = close-Closed c h room in
            (subst (λ g. Closed h g (one_if_some (h.heap c).close_fn)) (cc e) closed, room))
      | inr full ↦ absurd (cc (close-stuck c h low full, e))
    ]

pub closers-same :
    (g heap : ℕ → Client) (cs : List ℕ)
    → ((d : ℕ) → (g d).close_fn ≡ (heap d).close_fn)
    → closers g cs ≡ closers heap cs
unfolding closers
closers-same g heap [] same = refl
closers-same g heap (c ∷ cs) same =
    omega (arith, ap one_if_some (same c), closers-same g heap cs same)

Closed-trans : (h i j : Hub) (n m : ℕ) → Closed h i n → Closed i j m → Closed h j (n + m)
Closed-trans h i j n m a b = record {
  clients = b.clients ∙ a.clients;
  dropped = b.dropped ∙ a.dropped;
  same = λ d. record {
    send = (b.same d).send ∙ (a.same d).send;
    capacity = (b.same d).capacity ∙ (a.same d).capacity;
    close_fn = (b.same d).close_fn ∙ (a.same d).close_fn;
  };
  queued = omega (arith, a.queued, b.queued);
}

-- With room for every closeFn all clients are closed.
pub close_all-Closed :
    (cs : List ℕ) (h : Hub)
    → length h.unregister + closers h.heap cs ≤ unregister_capacity
    → (h' : Hub) × (close_all cs h ≡ some h') × Closed h h' (closers h.heap cs)
unfolding close_all closers
close_all-Closed [] h room = (
  h,
  refl,
  record {
    clients = refl;
    dropped = refl;
    same = λ d. record { send = refl; capacity = refl; close_fn = refl };
    queued = omega arith;
  },
)
close_all-Closed (c ∷ cs) h room =
    let (h₁, e₁, k₁) = close-Closed c h (omega arith) in
    let same_count = closers-same h₁.heap h.heap cs (λ d. (k₁.same d).close_fn) in
    let (h₂, e₂, k₂) = close_all-Closed cs h₁ (omega (arith, k₁.queued, same_count)) in
    (
      h₂,
      rw (close_all, e₁) e₂,
      subst (λ n. Closed h h₂ (one_if_some (h.heap c).close_fn + n)) same_count
          (Closed-trans h h₁ h₂ _ _ k₁ k₂),
    )

-- With more closeFn calls than room the loop gets stuck.
pub close_all-stuck :
    (cs : List ℕ) (h : Hub)
    → length h.unregister ≤ unregister_capacity
    → unregister_capacity < length h.unregister + closers h.heap cs
    → close_all cs h ≡ none
unfolding close_all closers
close_all-stuck [] h low high = absurd (omega arith)
close_all-stuck (c ∷ cs) h low high =
    elim (le-or-lt (length h.unregister + one_if_some (h.heap c).close_fn) unregister_capacity) [
      | inl room ↦
          let (h₁, e₁, k₁) = close-Closed c h room in
          let same_count = closers-same h₁.heap h.heap cs (λ d. (k₁.same d).close_fn) in
          rw (close_all, e₁)
            (close_all-stuck cs h₁ (omega (arith, k₁.queued))
              (omega (arith, k₁.queued, same_count)))
      | inr full ↦ rw (close_all, close-stuck c h low full)
    ]
