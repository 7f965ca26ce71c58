-- ===== src/MarketData/Feed/Stopping.antt =====
-- cpp/market_data/upstox_ws_handler.cpp: how the connection ends after a call of stop.
use quantforge_engine.Prelude.{
  ℕ, suc, ◌+◌, ◌-◌, ◌≤◌, ◌<◌, ◌≡◌, ◌==◌, if◌then◌else◌, Bool, true, false, Option, none, some, List,
  [], ◌∷◌, arith, length, nat_eq, if_elim,
}
use quantforge_engine.Prelude.Text.{Text}
use quantforge_engine.Doubles.{Double}
use quantforge_engine.MarketData.Feed.{
  WsHandler, Pending, has_op, remove_op, finish, begin, schedule_reconnect, do_authorize,
  on_resolve, do_ssl_handshake, on_connect, on_secure, on_upgrade, do_reconnect, on_timer, on_read,
  on_written_sub, no_url, parsed_url, do_send_subscription, no_keys, pending_value,
}
use quantforge_engine.MarketData.Feed.Steps.{
  Completion, resolved, joined, secured, upgraded, received, timed_out, sub_written, IsLive,
}

-- How many completions an operation can still lead to, a write of the subscription among them for
-- those before the last handshake ends.
abbrev cost : Pending → ℕ
cost p = if pending_value p == 0 then 1 else pending_value p + 2

-- How many completions the operations under way can still have.
abbrev work : List Pending → ℕ
work [] = 0
work (p ∷ ps) = cost p + work ps

work-remove_op :
    (op : Pending) (ps : List Pending)
    → has_op op ps ≡ true
    → work (remove_op op ps) + cost op ≡ work ps
work-remove_op op [] h = absurd (cc)
work-remove_op op (p ∷ ps) h = ground (arith, work-remove_op op ps)

work-le : (ps : List Pending) → length ps ≤ 1 → work ps ≤ 7
work-le [] h = omega arith
work-le (p ∷ []) h = ground arith
work-le (p ∷ q ∷ ps) h = absurd (omega arith)

module _ {D : Type 0} where
  -- All that can still complete, without further calls.
  abbrev left : WsHandler D → ℕ
  left t = work t.pending + t.writes

  -- Still stopped, and with at most this much work.
  abbrev Within : ℕ → WsHandler D → Type 0
  Within k t = (t.stop ≡ true) × (left t ≤ k)

  schedule_reconnect-Within :
      (k : ℕ) (s : WsHandler D) → Within k s → Within k (schedule_reconnect s)
  unfolding schedule_reconnect
  schedule_reconnect-Within k s w = if_elim (Within k) s.stop _ _ (λ _. w) (λ n. absurd (cc (w.0)))

  do_ssl_handshake-Within :
      (k : ℕ) (s : WsHandler D) (sni : Bool)
      → Within k s
      → 4 ≤ k - left s
      → Within k (do_ssl_handshake s sni)
  unfolding do_ssl_handshake
  do_ssl_handshake-Within k s true w h = (w.0, omega arith)
  do_ssl_handshake-Within k s false w h = schedule_reconnect-Within k s w

  do_authorize-Within :
      (parse : Text → Option (Text × Text)) (k : ℕ) (s : WsHandler D) (url : Text)
      → Within k s
      → 6 ≤ k - left s
      → Within k (do_authorize parse s url)
  unfolding do_authorize
  do_authorize-Within parse k s url w h =
      if_elim (Within k) (no_url url) _ _
        (λ _. schedule_reconnect-Within k (record s { wss_url = url }) w)
        (λ _. elim (parse url) as (λ o. Within k (parsed_url (record s { wss_url = url }) o)) [
          | none ↦ schedule_reconnect-Within k (record s { wss_url = url }) w
          | some (host, path) ↦ (w.0, omega arith)
        ])

  on_upgrade-Within :
      (k : ℕ) (s : WsHandler D) (ec : Bool)
      → Within k s
      → 2 ≤ k - left s
      → Within k (on_upgrade s ec)
  unfolding on_upgrade do_send_subscription
  on_upgrade-Within k s true w h = schedule_reconnect-Within k s w
  on_upgrade-Within k s false w h =
      if_elim (λ (t : WsHandler D). Within k (begin Pending.reading t)) (no_keys s.subscribed_keys)
        _ _ (λ _. (w.0, omega arith)) (λ _. (w.0, omega arith))

module _ {D : Type 0} ⦃d : Double D⦄ (hash : Text → ℕ) (parse : Text → Option (Text × Text)) where
  -- A completion after the stop ends an operation, and starts at most a later one.
  Completion-Within :
      {s t : WsHandler D} → Completion hash parse s t → s.stop ≡ true → Within (left s - 1) t
  unfolding on_resolve on_connect on_secure on_read on_timer do_reconnect on_written_sub
  Completion-Within {s} (resolved ec h) e =
      let r = work-remove_op Pending.resolving s.pending h in
      if_elim (Within (left s - 1)) ec _ _
        (λ _. schedule_reconnect-Within _ (finish Pending.resolving s) (e, omega arith))
        (λ _. (e, omega arith))
  Completion-Within {s} (joined ec sni h) e =
      let r = work-remove_op Pending.connecting s.pending h in
      if_elim (Within (left s - 1)) ec _ _
        (λ _. schedule_reconnect-Within _ (finish Pending.connecting s) (e, omega arith))
        (λ _.
          do_ssl_handshake-Within _ (finish Pending.connecting s) sni (e, omega arith)
            (omega arith))
  Completion-Within {s} (secured ec h) e =
      let r = work-remove_op Pending.securing s.pending h in
      if_elim (Within (left s - 1)) ec _ _
        (λ _. schedule_reconnect-Within _ (finish Pending.securing s) (e, omega arith))
        (λ _. (e, omega arith))
  Completion-Within {s} (upgraded ec h) e =
      let r = work-remove_op Pending.upgrading s.pending h in
      on_upgrade-Within _ (finish Pending.upgrading s) ec (e, omega arith) (omega arith)
  Completion-Within {s} (received r h) e =
      let w = work-remove_op Pending.reading s.pending h in
      if_elim (Within (left s - 1)) s.stop _ _ (λ _. (e, omega arith)) (λ n. absurd (cc))
  Completion-Within {s} (timed_out aborted url h only) e =
      let r = work-remove_op Pending.waiting s.pending h in
      if_elim (Within (left s - 1)) aborted _ _ (λ _. (e, omega arith))
        (λ _.
          do_authorize-Within parse _ (record (finish Pending.waiting s) { has_ws = false }) url
            (e, omega arith) (omega arith))
  Completion-Within {s} (sub_written some_write) e = (e, omega arith)

  -- A run of completions.
  pub data Run (s : WsHandler D) : ℕ → WsHandler D → Type 0 where
    done : Run s 0 s
    more : {n : ℕ} {t u : WsHandler D} → Run s n t → Completion hash parse t u → Run s (suc n) u

  Completion-pending : {s t : WsHandler D} → Completion hash parse s t → 0 < left s
  Completion-pending {s} (resolved ec h) =
      omega (arith, work-remove_op Pending.resolving s.pending h)
  Completion-pending {s} (joined ec sni h) =
      omega (arith, work-remove_op Pending.connecting s.pending h)
  Completion-pending {s} (secured ec h) = omega (arith, work-remove_op Pending.securing s.pending h)
  Completion-pending {s} (upgraded ec h) =
      omega (arith, work-remove_op Pending.upgrading s.pending h)
  Completion-pending {s} (received r h) = omega (arith, work-remove_op Pending.reading s.pending h)
  Completion-pending {s} (timed_out a u h o) =
      omega (arith, work-remove_op Pending.waiting s.pending h)
  Completion-pending {s} (sub_written some_write) = omega arith

  Run-work :
      {s : WsHandler D} {n : ℕ} {t : WsHandler D}
      → s.stop ≡ true
      → Run s n t
      → (t.stop ≡ true) × (n + left t ≤ left s)
  Run-work e done = (e, omega arith)
  Run-work e (more r c) =
      let ih = Run-work e r in
      let w = Completion-Within c ih.0 in (w.0, omega (arith, Completion-pending c))

  -- A handler that satisfies the invariant, was stopped and is not called again has at most seven more
  -- completions and one for each write of a subscription that is under way, whatever the network
  -- answers, and stays stopped.
  pub Run-le :
      (s : WsHandler D) (n : ℕ) (t : WsHandler D)
      → IsLive s
      → s.stop ≡ true
      → Run s n t
      → (n ≤ 7 + s.writes) × (t.stop ≡ true)
  Run-le s n t v e r = let w = Run-work e r in (omega (arith, work-le s.pending v.single), w.0)
