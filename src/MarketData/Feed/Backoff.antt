-- ===== src/MarketData/Feed/Backoff.antt =====
-- cpp/market_data/upstox_ws_handler.cpp: the delay between attempts to connect that fail.
use native.Mathlib.Nat.{pow-succ'}
use quantforge_engine.Prelude.{
  ℕ, suc, ◌+◌, ◌*◌, ◌^◌, ◌≡◌, refl, ap, ◌∙◌, true, false, Option, some, List, [], ◌∷◌, arith,
  length, if_elim,
}
use quantforge_engine.Prelude.Text.{Text, codes}
use quantforge_engine.MarketData.Feed.{
  WsHandler, Pending, remove_op, finish, max_reconnect_delay, smaller, schedule_reconnect,
  do_authorize, on_resolve, do_ssl_handshake, on_connect, on_secure, on_upgrade, do_reconnect,
  on_timer, no_url,
}

doubled : (k : ℕ) → smaller (smaller (2 ^ k) 60 * 2) 60 ≡ smaller (2 ^ suc k) 60
doubled k = let e : 2 ^ suc k ≡ 2 * 2 ^ k = pow-succ' 2 k in ground arith

-- How an attempt to connect again fails.
pub data Failure : Type 0 where
  no_address no_host no_connection no_sni no_tls no_upgrade : Failure

module _ {D : Type 0} (parse : Text → Option (Text × Text)) (url : Text) where
  -- The handlers of an attempt in their order, up to the one that fails.
  abbrev pub fails_at : Failure → WsHandler D → WsHandler D
  fails_at no_address s = on_timer parse (finish Pending.waiting s) false []
  fails_at no_host s =
      on_resolve (finish Pending.resolving (on_timer parse (finish Pending.waiting s) false url))
        true
  fails_at no_connection s =
      let s1 = on_timer parse (finish Pending.waiting s) false url in
      let s2 = on_resolve (finish Pending.resolving s1) false in
      on_connect (finish Pending.connecting s2) true true
  fails_at no_sni s =
      let s1 = on_timer parse (finish Pending.waiting s) false url in
      let s2 = on_resolve (finish Pending.resolving s1) false in
      on_connect (finish Pending.connecting s2) false false
  fails_at no_tls s =
      let s1 = on_timer parse (finish Pending.waiting s) false url in
      let s2 = on_resolve (finish Pending.resolving s1) false in
      let s3 = on_connect (finish Pending.connecting s2) false true in
      on_secure (finish Pending.securing s3) true
  fails_at no_upgrade s =
      let s1 = on_timer parse (finish Pending.waiting s) false url in
      let s2 = on_resolve (finish Pending.resolving s1) false in
      let s3 = on_connect (finish Pending.connecting s2) false true in
      let s4 = on_secure (finish Pending.securing s3) false in
      on_upgrade (finish Pending.upgrading s4) true

  abbrev pub fail_all : List Failure → WsHandler D → WsHandler D
  fail_all [] s = s
  fail_all (f ∷ fs) s = fail_all fs (fails_at f s)

  -- The handler waits for the timer again, with the delay that it had, and the delay doubled.
  abbrev WaitsAgain : ℕ → WsHandler D → Type 0
  WaitsAgain delay t =
      (t.stop ≡ false)
      × (t.pending ≡ Pending.waiting ∷ [])
      × (t.timer ≡ delay)
      × (t.reconnect_delay ≡ smaller (delay * 2) max_reconnect_delay)

  schedule_reconnect-WaitsAgain :
      (s : WsHandler D)
      → s.stop ≡ false
      → s.pending ≡ []
      → WaitsAgain s.reconnect_delay (schedule_reconnect s)
  unfolding schedule_reconnect
  schedule_reconnect-WaitsAgain s n e =
      if_elim (WaitsAgain s.reconnect_delay) s.stop _ _ (λ y. absurd (cc))
        (λ _. (n, ap (λ ps. Pending.waiting ∷ ps) e, refl, refl))

  module _ (host path : Text) (full : no_url url ≡ false)
      (good : parse url ≡ some (host, path)) where
    -- The state in which the address was fetched.
    abbrev located : WsHandler D → WsHandler D
    located s = record (finish Pending.waiting s) {
      has_ws = false;
      wss_url = url;
      wss_host = host;
      wss_path = path;
      wss_port = codes "443";
    }

    fails_at-WaitsAgain :
        (f : Failure) (s : WsHandler D)
        → s.stop ≡ false
        → s.pending ≡ Pending.waiting ∷ []
        → WaitsAgain s.reconnect_delay (fails_at f s)
    unfolding on_timer do_reconnect do_authorize on_resolve on_connect on_secure on_upgrade
        do_ssl_handshake
    fails_at-WaitsAgain no_address s n e =
        schedule_reconnect-WaitsAgain
          (record (finish Pending.waiting s) { has_ws = false; wss_url = [] }) n
          (ap (remove_op Pending.waiting) e)
    fails_at-WaitsAgain no_host s n e =
        rw (full, good)
          (schedule_reconnect-WaitsAgain (located s) n (ap (remove_op Pending.waiting) e))
    fails_at-WaitsAgain no_connection s n e =
        rw (full, good)
          (schedule_reconnect-WaitsAgain (record (located s) { has_ws = true }) n
            (ap (remove_op Pending.waiting) e))
    fails_at-WaitsAgain no_sni s n e =
        rw (full, good)
          (schedule_reconnect-WaitsAgain (record (located s) { has_ws = true }) n
            (ap (remove_op Pending.waiting) e))
    fails_at-WaitsAgain no_tls s n e =
        rw (full, good)
          (schedule_reconnect-WaitsAgain (record (located s) { has_ws = true }) n
            (ap (remove_op Pending.waiting) e))
    fails_at-WaitsAgain no_upgrade s n e =
        rw (full, good)
          (schedule_reconnect-WaitsAgain (record (located s) { has_ws = true }) n
            (ap (remove_op Pending.waiting) e))

    fail_all-delay :
        (fs : List Failure) (k : ℕ) (s : WsHandler D)
        → s.stop ≡ false
        → s.pending ≡ Pending.waiting ∷ []
        → s.timer ≡ smaller (2 ^ k) 60
        → s.reconnect_delay ≡ smaller (2 ^ suc k) 60
        → (fail_all fs s).timer ≡ smaller (2 ^ (k + length fs)) 60
    fail_all-delay [] k s n e t r = t ∙ ap (λ (m : ℕ). smaller (2 ^ m) 60) (omega arith)
    fail_all-delay (f ∷ fs) k s n e t r =
        let w = fails_at-WaitsAgain f s n e in
        fail_all-delay fs (suc k) (fails_at f s) w.0 w.1 (w.2 ∙ r)
          (w.3 ∙ ap (λ (m : ℕ). smaller (m * 2) 60) r ∙ doubled (suc k))
        ∙ ap (λ (m : ℕ). smaller (2 ^ m) 60) (omega arith)

    -- A connection is lost while the delay is one second, and then every attempt fails, wherever it
    -- fails: after `k` of them the timer is set to 2 ^ k seconds, or to 60 if that is less. The
    -- handler is not stopped, and the address has the expected form.
    pub fail_all-timer :
        (fs : List Failure) (s : WsHandler D)
        → s.stop ≡ false
        → s.pending ≡ []
        → s.reconnect_delay ≡ 1
        → (fail_all fs (schedule_reconnect s)).timer ≡ smaller (2 ^ length fs) max_reconnect_delay
    fail_all-timer fs s n e r =
        let w = schedule_reconnect-WaitsAgain s n e in
        fail_all-delay fs 0 (schedule_reconnect s) w.0 w.1 (w.2 ∙ r)
          (w.3 ∙ ap (λ (m : ℕ). smaller (m * 2) 60) r)
        ∙ ap (λ (m : ℕ). smaller (2 ^ m) 60) (omega arith)
