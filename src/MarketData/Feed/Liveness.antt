-- ===== src/MarketData/Feed/Liveness.antt =====
-- cpp/market_data/upstox_ws_handler.cpp: how the connection comes back.
use quantforge_engine.Prelude.{
  ℕ, zero, suc, ◌≤◌, ◌≡◌, refl, ap, ◌∙◌, true, false, Option, some, List, [], ◌∷◌, arith, length,
  if_elim,
}
use quantforge_engine.Prelude.Text.{Text}
use quantforge_engine.MarketData.Feed.{
  WsHandler, Pending, has_op, remove_op, finish, do_authorize, on_resolve, on_connect, on_secure,
  on_upgrade, do_reconnect, on_timer, no_url, do_send_subscription, no_keys,
}
use quantforge_engine.MarketData.Feed.Steps.{IsLive}

module _ {D : Type 0} (parse : Text → Option (Text × Text)) where
  -- The completion of the operation that is under way, when the network answers well.
  abbrev pub succeed : Text → List Pending → WsHandler D → WsHandler D
  succeed url [] s = s
  succeed url (Pending.resolving ∷ ps) s = on_resolve (finish Pending.resolving s) false
  succeed url (Pending.connecting ∷ ps) s = on_connect (finish Pending.connecting s) false true
  succeed url (Pending.securing ∷ ps) s = on_secure (finish Pending.securing s) false
  succeed url (Pending.upgrading ∷ ps) s = on_upgrade (finish Pending.upgrading s) false
  succeed url (Pending.reading ∷ ps) s = s
  succeed url (Pending.waiting ∷ ps) s = on_timer parse (finish Pending.waiting s) false url

  abbrev pub succeed_times : ℕ → Text → WsHandler D → WsHandler D
  succeed_times zero url s = s
  succeed_times (suc n) url s = succeed_times n url (succeed url s.pending s)

  module _ (url : Text) (host path : Text) (full : no_url url ≡ false)
      (good : parse url ≡ some (host, path)) where
    one_more :
        (n : ℕ) (op : Pending) (s : WsHandler D)
        → s.pending ≡ op ∷ []
        → (succeed_times n url (succeed url (op ∷ []) s)).connected ≡ true
        → (succeed_times (suc n) url s).connected ≡ true
    one_more n op s e h = ap (λ ps. (succeed_times n url (succeed url ps s)).connected) e ∙ h

    -- From the last handshake on, and so back to the timer.
    from_upgrading :
        (s : WsHandler D)
        → s.pending ≡ Pending.upgrading ∷ []
        → (succeed_times 1 url s).connected ≡ true
    unfolding on_upgrade do_send_subscription
    from_upgrading s e = one_more 0 Pending.upgrading s e (
        if_elim (λ (t : WsHandler D). t.connected ≡ true) (no_keys s.subscribed_keys) _ _
          (λ _. refl) (λ _. refl))

    from_securing :
        (s : WsHandler D)
        → s.pending ≡ Pending.securing ∷ []
        → (succeed_times 2 url s).connected ≡ true
    from_securing s e = one_more 1 Pending.securing s e (
        from_upgrading (on_secure (finish Pending.securing s) false)
          (unfold on_secure in ap (λ ps. Pending.upgrading ∷ remove_op Pending.securing ps) e))

    from_connecting :
        (s : WsHandler D)
        → s.pending ≡ Pending.connecting ∷ []
        → (succeed_times 3 url s).connected ≡ true
    from_connecting s e = one_more 2 Pending.connecting s e (
        from_securing (on_connect (finish Pending.connecting s) false true)
          (unfold on_connect in ap (λ ps. Pending.securing ∷ remove_op Pending.connecting ps) e))

    from_resolving :
        (s : WsHandler D)
        → s.pending ≡ Pending.resolving ∷ []
        → (succeed_times 4 url s).connected ≡ true
    from_resolving s e = one_more 3 Pending.resolving s e (
        from_connecting (on_resolve (finish Pending.resolving s) false)
          (unfold on_resolve in ap (λ ps. Pending.connecting ∷ remove_op Pending.resolving ps) e))

    authorized :
        (s : WsHandler D) → (do_authorize parse s url).pending ≡ Pending.resolving ∷ s.pending
    unfolding do_authorize
    authorized s = rw (full, good)

    from_waiting :
        (s : WsHandler D)
        → s.pending ≡ Pending.waiting ∷ []
        → (succeed_times 5 url s).connected ≡ true
    from_waiting s e = one_more 4 Pending.waiting s e (
        from_resolving (on_timer parse (finish Pending.waiting s) false url) (
          unfold on_timer do_reconnect in
          (authorized (record (finish Pending.waiting s) { has_ws = false })
            ∙ ap (λ ps. Pending.resolving ∷ remove_op Pending.waiting ps) e)))

    from_any :
        (ps : List Pending) (s : WsHandler D)
        → s.pending ≡ ps
        → length ps ≡ 1
        → s.connected ≡ has_op Pending.reading ps
        → (n : ℕ) × (n ≤ 5) × ((succeed_times n url s).connected ≡ true)
    from_any [] s e l c = absurd (omega arith)
    from_any (p ∷ q ∷ ps) s e l c = absurd (omega arith)
    from_any (Pending.resolving ∷ []) s e l c = (4, omega arith, from_resolving s e)
    from_any (Pending.connecting ∷ []) s e l c = (3, omega arith, from_connecting s e)
    from_any (Pending.securing ∷ []) s e l c = (2, omega arith, from_securing s e)
    from_any (Pending.upgrading ∷ []) s e l c = (1, omega arith, from_upgrading s e)
    from_any (Pending.reading ∷ []) s e l c = (0, omega arith, c)
    from_any (Pending.waiting ∷ []) s e l c = (5, omega arith, from_waiting s e)

    -- A handler that satisfies the invariant and is not stopped is connected after at most five
    -- completions of the operation that is under way, if all of them succeed and the address that is
    -- fetched has the expected form.
    pub succeed_times-connected :
        (s : WsHandler D)
        → IsLive s
        → s.stop ≡ false
        → (n : ℕ) × (n ≤ 5) × ((succeed_times n url s).connected ≡ true)
    succeed_times-connected s v n = from_any s.pending s refl (v.busy n) (v.reads n)
