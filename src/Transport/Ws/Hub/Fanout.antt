-- ===== src/Transport/Ws/Hub/Fanout.antt =====
-- What a broadcast does, client by client, and when it gets the hub stuck.
use auctioneer.Base.{
  ℕ, suc, ◌+◌, ◌≡◌, ◌∙◌, refl, ap, true, false, ◌&&◌, List, [], ◌∷◌, ◌++◌, arith, if◌then◌else◌,
  length, Bool-cases, inl, inr,
}
use auctioneer.Text.{Bytes}
use auctioneer.Transport.Ws.Hub.{Client, Hub, member, update, deliver}
use auctioneer.Transport.Ws.Hub.Sets.{HasNoRepeat, has_room, full_ones}

full_ones-update :
    (c : ℕ) (v : Client) (heap : ℕ → Client) (cs : List ℕ)
    → member c cs ≡ false
    → full_ones (update c v heap) cs ≡ full_ones heap cs
unfolding full_ones update
full_ones-update c v heap [] h = refl
full_ones-update c v heap (d ∷ cs) h = ground (arith, full_ones-update c v heap cs)

-- A client with the payload in its channel.
abbrev pub with_payload : Bytes → Client → Client
with_payload p c = record c { send = c.send ++ p ∷ [] }

-- The loop over the subscribers `cs`.
pub record Delivered (p : Bytes) (cs : List ℕ) (h : Hub) (h' : Hub) (out : List ℕ) : Type 0 where
  pub full : out ≡ full_ones h.heap cs
  pub count : h'.dropped ≡ h.dropped + length out
  pub clients : h'.clients ≡ h.clients
  pub unregister : h'.unregister ≡ h.unregister
  pub heap :
      (d : ℕ)
      → h'.heap d
        ≡ (if member d cs && has_room (h.heap d) then with_payload p (h.heap d) else h.heap d)

deliver-sent :
    (p : Bytes) (c : ℕ) (cs : List ℕ) (h : Hub)
    → has_room (h.heap c) ≡ true
    → deliver p (c ∷ cs) h
      ≡ deliver p cs (record h { heap = update c (with_payload p (h.heap c)) h.heap })
unfolding deliver
deliver-sent p c cs h room = rw (room, deliver)

deliver-full :
    (p : Bytes) (c : ℕ) (cs : List ℕ) (h : Hub)
    → has_room (h.heap c) ≡ false
    → deliver p (c ∷ cs) h ≡ (
      (deliver p cs (record h { dropped = suc h.dropped })).0,
      c ∷ (deliver p cs (record h { dropped = suc h.dropped })).1,
    )
unfolding deliver
deliver-full p c cs h full = rw (full, deliver)

pub deliver_lem :
    (p : Bytes) (cs : List ℕ) (h : Hub)
    → HasNoRepeat cs
    → Delivered p cs h (deliver p cs h).0 (deliver p cs h).1
deliver_lem p [] h _ =
    unfold deliver full_ones in
    record { full = refl; count = omega arith; clients = refl; unregister = refl; heap = λ d. refl }
deliver_lem p (c ∷ cs) h (n, rest) = elim (Bool-cases (has_room (h.heap c))) [
  | inl room ↦
      let h₁ = record h { heap = update c (with_payload p (h.heap c)) h.heap } in
      let ih = deliver_lem p cs h₁ rest in
      rw (deliver-sent p c cs h room) (record {
        full =
            ih.full
            ∙ full_ones-update c (with_payload p (h.heap c)) h.heap cs n
            ∙ unfold full_ones in rw room;
        count = ih.count;
        clients = ih.clients;
        unregister = ih.unregister;
        heap = λ d. ih.heap d ∙ unfold update in ground (arith, room, n, same_member c d cs n);
      })
  | inr full ↦
      let h₁ = record h { dropped = suc h.dropped } in
      let ih = deliver_lem p cs h₁ rest in
      rw (deliver-full p c cs h full) (record {
        full = ap (λ x. c ∷ x) ih.full ∙ unfold full_ones in rw full;
        count = omega (arith, ih.count);
        clients = ih.clients;
        unregister = ih.unregister;
        heap = λ d. ih.heap d ∙ ground (arith, full, same_room h c d);
      })
]
  where
    same_member : (c d : ℕ) (cs : List ℕ) → member c cs ≡ false → c ≡ d → member d cs ≡ false
    same_member c d cs m e = rw (← e) m

    same_room : (h : Hub) (c d : ℕ) → c ≡ d → has_room (h.heap d) ≡ has_room (h.heap c)
    same_room h c d e = rw e
