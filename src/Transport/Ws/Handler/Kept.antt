-- ===== src/Transport/Ws/Handler/Kept.antt =====
-- What one access of a goroutine does to what a client has been sent.
use auctioneer.Base.{
  ℕ, ◌≤◌, ◌≡◌, ◌≢◌, ◌∙◌, sym, ap, Bool, true, false, Option, none, some, List, [], ◌∷◌, ◌++◌,
  append-nil, append_assoc, arith, length, inl, inr, Option-cases, Bool-cases, ◌==◌, ==_iff,
}
use mathlib.Core.Path.{subst}
use auctioneer.Text.{Bytes}
use auctioneer.Transport.Ws.Hub.{Hub, update, close}
use auctioneer.Transport.Ws.Hub.Closing.{close-some}
use auctioneer.Transport.Ws.Hub.Invariant.{IsValid}
use auctioneer.Transport.Ws.Hub.Queues.{close-IsValid}
use auctioneer.Transport.Ws.Handler.{
  Server, Pump, looping, closing, done, at, closed, if_looping, if_closing, write_next,
}

-- What is on the wire of a client and behind it in its channel.
abbrev pub stream : Server → ℕ → List Bytes
stream s c = s.wire c ++ (s.hub.heap c).send

-- What one action does to client `c`: a writer that still loops has lost nothing.
pub record Kept (s s' : Server) (c : ℕ) (more : List Bytes) : Type 0 where
  pub valid : IsValid s'.hub
  pub grows : s.next ≤ s'.next
  pub keeps : s'.writing c ≡ looping → (s.writing c ≡ looping) × (stream s' c ≡ stream s c ++ more)

-- A call of `close` changes no channel of a client.
pub closed-Kept : (c d : ℕ) (s s' : Server) → IsValid s.hub → closed d s ≡ some s' → Kept s s' c []
closed-Kept c d s s' v e = elim (Option-cases (close d s.hub)) [
  | inl stuck ↦ absurd (cc (goes stuck, e))
  | inr (hub, got) ↦
      (let (k, room) = close-some d s.hub hub v.waiting got in
        let same : record s { hub = hub } ≡ s' = cc (goes got, e) in
        subst (λ x. Kept s x c []) same
          (record {
            valid = close-IsValid s.hub hub _ v k room;
            grows = omega arith;
            keeps = λ w. (w, ap (λ q. s.wire c ++ q) (k.same c).send ∙ sym (append-nil _));
          }))
]
  where
    goes :
        {r : Option Hub}
        → close d s.hub ≡ r
        → closed d s ≡ (elim r [ none ↦ none | some hub ↦ some (record s { hub = hub }) ])
    goes f = ap (λ o. elim o [ none ↦ none | some hub ↦ some (record s { hub = hub }) ]) f

pub closing-ne-looping : closing ≢ looping
closing-ne-looping e = cc

pub done-ne-looping : done ≢ looping
done-ne-looping e = cc

-- A change that leaves the hub, the addresses and the client's writer alone.
pub same-Kept :
    (c : ℕ) (s : Server) (reading : ℕ → Pump)
    → IsValid s.hub
    → Kept s (record s { reading = reading }) c []
same-Kept c s reading v = record {
  valid = v;
  grows = omega arith;
  keeps = λ w. (w, sym (append-nil _));
}

-- A writer that stops looping loses its claim.
pub stops-Kept :
    (c d : ℕ) (s : Server) (p : Pump)
    → p ≢ looping
    → IsValid s.hub
    → Kept s (record s { writing = at d p s.writing }) c []
stops-Kept c d s p stops v = record {
  valid = v;
  grows = omega arith;
  keeps = λ w. elim (Bool-cases (c == d)) [
    | inl here ↦ absurd (stops (rw here at w))
    | inr there ↦ (rw there at w, sym (append-nil _))
  ];
}

-- One action after another.
pub Kept-trans :
    (s t u : Server) (c : ℕ) (xs ys : List Bytes)
    → Kept s t c xs
    → Kept t u c ys
    → Kept s u c (xs ++ ys)
Kept-trans s t u c xs ys k l = record {
  valid = l.valid;
  grows = omega (arith, k.grows, l.grows);
  keeps = λ w.
      let (w', next) = l.keeps w in
      let (w'', first) = k.keeps w' in
      (w'', next ∙ ap (λ q. q ++ ys) first ∙ append_assoc (stream s c) xs ys);
}

-- The first message of a channel is taken.
pub taken : ℕ → List Bytes → Server → Server
taken d rest s = record s {
  hub = record s.hub { heap = update d (record (s.hub.heap d) { send = rest }) s.hub.heap };
}

pub taken-IsValid :
    (d : ℕ) (msg : Bytes) (rest : List Bytes) (s : Server)
    → (s.hub.heap d).send ≡ msg ∷ rest
    → IsValid s.hub
    → IsValid (taken d rest s).hub
unfolding taken update
taken-IsValid d msg rest s e v = record {
  tidy = v.tidy;
  no_repeat = v.no_repeat;
  waiting = v.waiting;
  fits = λ c. elim (Bool-cases (c == d)) [
    | inl here ↦ rw here (omega (arith, ap length e, v.fits d))
    | inr there ↦ rw there (v.fits c)
  ];
}

pub write_next-Kept :
    (c d : ℕ) (written : Bool) (q : List Bytes) (s s' : Server)
    → (s.hub.heap d).send ≡ q
    → IsValid s.hub
    → write_next d written q s ≡ some s'
    → Kept s s' c []
unfolding write_next update
write_next-Kept c d written [] s s' q v e = absurd (cc)
write_next-Kept c d true (msg ∷ rest) s s' q v e =
    let same : record (taken d rest s) { wire = at d (s.wire d ++ msg ∷ []) s.wire } ≡ s' =
      unfold taken in cc in
    subst (λ x. Kept s x c []) same
      (record {
        valid = taken-IsValid d msg rest s q v;
        grows = unfold taken in omega arith;
        keeps = λ w.
            unfold taken in
            elim (Bool-cases (c == d)) [
              | inl here ↦ (
                w,
                rw here (
                    append_assoc (s.wire d) (msg ∷ []) rest
                    ∙ ap (λ xs. s.wire d ++ xs) (sym q)
                    ∙ ap (stream s) (sym ((==_iff c d).0 here))
                    ∙ sym (append-nil _)),
              )
              | inr there ↦ (w, rw there (sym (append-nil _)))
            ];
      })
write_next-Kept c d false (msg ∷ rest) s s' q v e =
    let same : record (taken d rest s) { writing = at d closing s.writing } ≡ s' =
      unfold taken in cc in
    subst (λ x. Kept s x c []) same
      (record {
        valid = taken-IsValid d msg rest s q v;
        grows = unfold taken in omega arith;
        keeps = λ w.
            unfold taken in
            elim (Bool-cases (c == d)) [
              | inl here ↦ absurd (closing-ne-looping (rw here at w))
              | inr there ↦ (rw there at w, rw there (sym (append-nil _)))
            ];
      })

pub looping_next :
    (p : Pump) (next : Option Server) (s' : Server) → if_looping p next ≡ some s' → next ≡ some s'
unfolding if_looping
looping_next looping next s' e = e
looping_next closing next s' e = absurd (cc)
looping_next done next s' e = absurd (cc)

pub closing_next :
    (p : Pump) (next : Option Server) (s' : Server) → if_closing p next ≡ some s' → next ≡ some s'
unfolding if_closing
closing_next looping next s' e = absurd (cc)
closing_next closing next s' e = e
closing_next done next s' e = absurd (cc)

pub of_some : {s t : Server} → some s ≡ some t → s ≡ t
of_some e = cc
