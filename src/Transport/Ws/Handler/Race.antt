-- ===== src/Transport/Ws/Handler/Race.antt =====
-- A client whose connection ends before `Run` has taken its registration.
use auctioneer.Base.{==_refl, ℕ, ◌≡◌, ◌≢◌, refl, true, Option, none, some, List, [], ◌∷◌, ◌++◌}
use auctioneer.Text.{Bytes, ne→bytes_eq, bytes_eq_refl}
use auctioneer.Text.Map
use auctioneer.Text.Map.{get-put}
use auctioneer.Transport.Ws.Hub.{
  Hub, Subscription, member, subscribers, add, update, close, close_conn, on_register,
  on_unregister,
}
use auctioneer.Transport.Ws.Hub.Channels.{
  runs_register, runs_unregister, step, send_register, receive, receive_register,
  receive_unregister,
}
use auctioneer.Transport.Ws.Handler.{
  Server, Action, closing, done, connects, fails_to_read, closes_reader, hub_does, at, new_client,
  serve_http, read_fails, read_closes, closed, if_looping, if_closing, act, run,
}
use auctioneer.Transport.Ws.Handler.Order.{served}

-- A connection is made, and ends; `Run` takes the unregistration first.
abbrev pub early_end : Bytes → ℕ → List Action
early_end auction_id c =
    connects auction_id true
    ∷ fails_to_read c
    ∷ closes_reader c
    ∷ hub_does runs_unregister
    ∷ hub_does runs_register
    ∷ []

run-step :
    (x : Action) (xs : List Action) (s t : Server) {r : Option Server}
    → act x s ≡ some t
    → run xs t ≡ r
    → run (x ∷ xs) s ≡ r
unfolding run
run-step x xs s t e rest = rw (run, e) rest

run_nil : (s : Server) → run [] s ≡ some s
unfolding run
run_nil s = refl

close-registered :
    (c : ℕ) (auction_id : Bytes) (h : Hub)
    → (h.heap c).close_fn ≡ some auction_id
    → h.unregister ≡ []
    → close c h
      ≡ some (
          close_conn c (record h {
            unregister = h.unregister ++ record { auction_id = auction_id; client = c } ∷ [];
          }))
unfolding close
close-registered c auction_id h e empty = rw (close, e, empty) refl

module _ (auction_id : Bytes) (s : Server) (named : auction_id ≢ []) (no_reg : s.hub.register ≡ [])
    (no_unreg : s.hub.unregister ≡ []) (unknown : Map.get auction_id s.hub.clients ≡ none) where
  abbrev sub : Subscription
  sub = record { auction_id = auction_id; client = s.next }

  connected : act (connects auction_id true) s ≡ some (served auction_id s)
  unfolding act serve_http send_register served
  connected = rw (ne→bytes_eq auction_id [] named, no_reg) refl

  abbrev ending : Server
  ending = record (served auction_id s) {
    reading = at s.next closing (served auction_id s).reading;
  }

  ended : act (fails_to_read s.next) (served auction_id s) ≡ some ending
  unfolding act read_fails if_looping served
  ended = rw (==_refl s.next) refl

  -- The hub with the client closed.
  abbrev closed_hub : Hub
  closed_hub =
      close_conn s.next
        (record (served auction_id s).hub { unregister = s.hub.unregister ++ sub ∷ [] })

  abbrev gone : Server
  gone = record ending { hub = closed_hub; reading = at s.next done ending.reading }

  new_close_fn : ((served auction_id s).hub.heap s.next).close_fn ≡ some auction_id
  unfolding served new_client update
  new_close_fn = rw (update, ==_refl s.next) refl

  none_waits : (served auction_id s).hub.unregister ≡ []
  unfolding served
  none_waits = no_unreg

  closed_new : close s.next (served auction_id s).hub ≡ some closed_hub
  unfolding served
  closed_new = close-registered s.next auction_id (served auction_id s).hub new_close_fn none_waits

  closes : act (closes_reader s.next) ending ≡ some gone
  unfolding act read_closes if_closing
  closes = rw (read_closes, ==_refl s.next) (rw (closed, closed_new) refl)

  after_unregister :
      act (hub_does runs_unregister) gone
      ≡ some (record gone { hub = record closed_hub { unregister = [] } })
  unfolding act step receive receive_unregister on_unregister served close_conn
  after_unregister = rw (no_unreg, step, on_unregister, unknown) refl

  abbrev subscribed_hub : Hub
  subscribed_hub = on_register sub (record closed_hub { register = []; unregister = [] })

  after_register :
      act (hub_does runs_register) (record gone { hub = record closed_hub { unregister = [] } })
      ≡ some (record gone { hub = subscribed_hub })
  unfolding act step receive receive_register served close_conn
  after_register = rw (no_reg, step) refl

  early_end-runs : run (early_end auction_id s.next) s ≡ some (record gone { hub = subscribed_hub })
  early_end-runs = run-step _ _ s _ connected (
      run-step _ _ _ _ ended (
        run-step _ _ _ _ closes
          (run-step _ _ _ _ after_unregister (run-step _ _ _ _ after_register (run_nil _)))))

  -- If both channels are empty, the hub may take the unregistration of a new client before its
  -- registration: a client of an auction with no other subscriber is then subscribed, though its
  -- connection is closed and its reader is gone.
  pub early_end-subscribed :
      (s' : Server) × (run (early_end auction_id s.next) s ≡ some s')
      × (member s.next (subscribers auction_id s'.hub) ≡ true)
      × ((s'.hub.heap s.next).conn_closed ≡ true)
      × (s'.reading s.next ≡ done)
  unfolding add on_register close_conn served update new_client Map.get
  early_end-subscribed = (
    record gone { hub = subscribed_hub },
    early_end-runs,
    rw (get-put, bytes_eq_refl auction_id, add, unknown) (rw (==_refl s.next) refl),
    rw (close_conn, ==_refl s.next) refl,
    rw (==_refl s.next) refl,
  )
