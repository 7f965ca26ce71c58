-- ===== src/MarketData/Feed/Connection.antt =====
-- cpp/market_data/upstox_ws_handler.cpp: what holds of the connection over all of its steps.
use quantforge_engine.MarketData.Feed.Steps.{
  Completion, resolved, joined, secured, upgraded, received, timed_out, sub_written, Step,
  completes, subscribes, unsubscribes, stops, Reach, here, next, IsLive,
}
use quantforge_engine.Prelude.{
  ℕ, ◌*◌, ◌≤◌, ◌≡◌, ◌≢◌, refl, sym, ◌∙◌, Bool, true, false, Option, none, some, List, [], ◌∷◌,
  arith, length, erase, nat_eq, if_elim,
}
use quantforge_engine.Prelude.Text.{Text, codes}
use quantforge_engine.Doubles.{Double}
use quantforge_engine.MarketData.Feed.Frames.{FeedMsg, FeedFrame, broken, feeds, translate}
use quantforge_engine.MarketData.Feed.{
  WsHandler, Pending, ReadResult, closed, failed, frame, has_op, remove_op, remove_key, finish,
  begin, max_reconnect_delay, smaller, schedule_reconnect, do_authorize, on_resolve,
  do_ssl_handshake, on_connect, on_secure, on_upgrade, subscribe, unsubscribe, stop_feed,
  do_reconnect, on_timer, on_read, on_written_sub, pending_value, no_url, parsed_url,
  do_send_subscription, decode_feeds, decode_protobuf_frame, push_tick, push_some, no_keys,
  read_result,
}

-- The operation that is under way is the only one.
sole :
    (op : Pending) (ps : List Pending) → has_op op ps ≡ true → length ps ≤ 1 → remove_op op ps ≡ []
sole op [] h l = absurd (cc)
sole op (p ∷ []) h l = ground arith
sole op (p ∷ q ∷ ps) h l = absurd (omega arith)

-- Two operations are not both the only one.
sole_other :
    (op other : Pending) (ps : List Pending)
    → pending_value op ≢ pending_value other
    → has_op op ps ≡ true
    → length ps ≤ 1
    → has_op other ps ≡ false
sole_other op other [] ne h l = refl
sole_other op other (p ∷ []) ne h l = ground arith
sole_other op other (p ∷ q ∷ ps) ne h l = absurd (omega arith)

doubled_low : (n : ℕ) → 1 ≤ n → 1 ≤ smaller (n * 2) max_reconnect_delay
doubled_low n h = ground arith

doubled_high : (n : ℕ) → smaller (n * 2) max_reconnect_delay ≤ max_reconnect_delay
doubled_high n = ground arith

module _ {D : Type 0} ⦃d : Double D⦄ (hash : Text → ℕ) (parse : Text → Option (Text × Text)) where
  -- A handler that starts no operation but the last of its calls.
  abbrev IsIdle : WsHandler D → Type 0
  IsIdle s = (s.pending ≡ []) × (1 ≤ s.reconnect_delay) × (s.reconnect_delay ≤ max_reconnect_delay)

  finish-IsIdle :
      (op : Pending) (s : WsHandler D)
      → has_op op s.pending ≡ true
      → IsLive s
      → IsIdle (finish op s)
  finish-IsIdle op s h v = (sole op s.pending h v.single, v.delay_low, v.delay_high)

  schedule_reconnect-IsLive : (s : WsHandler D) → IsIdle s → IsLive (schedule_reconnect s)
  unfolding schedule_reconnect
  schedule_reconnect-IsLive s v =
      if_elim IsLive s.stop _ _
        (λ h. record {
          single = rw v.0 (omega arith);
          busy = λ n. absurd (cc);
          reads = λ n. absurd (cc);
          delay_low = v.1;
          delay_high = v.2;
        })
        (λ h. record {
          single = rw v.0 (omega arith);
          busy = λ n. rw v.0;
          reads = λ n. rw v.0;
          delay_low = doubled_low s.reconnect_delay v.1;
          delay_high = doubled_high s.reconnect_delay;
        })

  begin-IsLive :
      (op : Pending) (s : WsHandler D)
      → IsIdle s
      → (s.stop ≡ false → s.connected ≡ has_op Pending.reading (op ∷ []))
      → IsLive (begin op s)
  begin-IsLive op s v off = record {
    single = rw v.0 (omega arith);
    busy = λ n. rw v.0;
    reads = λ n. rw v.0 (off n);
    delay_low = v.1;
    delay_high = v.2;
  }

  -- An operation other than reading was under way, so the handler was not connected.
  finish-off :
      (op : Pending) (s : WsHandler D)
      → has_op op s.pending ≡ true
      → pending_value op ≢ pending_value Pending.reading
      → IsLive s
      → s.stop ≡ false
      → s.connected ≡ false
  finish-off op s h ne v n = v.reads n ∙ sole_other op Pending.reading s.pending ne h v.single

  do_authorize-IsLive :
      (s : WsHandler D) (url : Text)
      → IsIdle s
      → (s.stop ≡ false → s.connected ≡ false)
      → IsLive (do_authorize parse s url)
  unfolding do_authorize
  do_authorize-IsLive s url v off =
      if_elim IsLive (no_url url) _ _
        (λ _. schedule_reconnect-IsLive (record s { wss_url = url }) v)
        (λ _. elim (parse url) as (λ o. IsLive (parsed_url (record s { wss_url = url }) o)) [
          | none ↦ schedule_reconnect-IsLive (record s { wss_url = url }) v
          | some (host, path) ↦
              begin-IsLive Pending.resolving
                (record s {
                  wss_url = url;
                  wss_host = host;
                  wss_path = path;
                  wss_port = codes "443";
                })
                v off
        ])

  do_ssl_handshake-IsLive :
      (s : WsHandler D) (sni : Bool)
      → IsIdle s
      → (s.stop ≡ false → s.connected ≡ false)
      → IsLive (do_ssl_handshake s sni)
  unfolding do_ssl_handshake
  do_ssl_handshake-IsLive s true v off = begin-IsLive Pending.securing s v off
  do_ssl_handshake-IsLive s false v off = schedule_reconnect-IsLive s v

  -- Decoding touches the queue and the counters only.
  abbrev SameConnection : WsHandler D → WsHandler D → Type 0
  SameConnection s t =
      (t.pending ≡ s.pending)
      × (t.reconnect_delay ≡ s.reconnect_delay)
      × (t.stop ≡ s.stop)
      × (t.connected ≡ s.connected)

  decode_feeds-SameConnection :
      (s : WsHandler D) (now : ℕ) (fs : List (Text × FeedMsg D))
      → SameConnection s (decode_feeds hash s now fs)
  unfolding decode_feeds
  decode_feeds-SameConnection s now [] = (refl, refl, refl, refl)
  decode_feeds-SameConnection s now ((key, msg) ∷ rest) =
      elim (translate hash now key msg)
        as (λ o. SameConnection s (decode_feeds hash (push_some s o) now rest)) [
          | none ↦ decode_feeds-SameConnection s now rest
          | some t ↦ decode_feeds-SameConnection (push_tick s t) now rest
        ]

  pub decode-SameConnection :
      (s : WsHandler D) (now : ℕ) (f : FeedFrame D)
      → SameConnection s (decode_protobuf_frame hash s now f)
  unfolding decode_protobuf_frame
  decode-SameConnection s now broken = (refl, refl, refl, refl)
  decode-SameConnection s now (feeds fs) = decode_feeds-SameConnection s now fs

  read_result-IsLive :
      (s : WsHandler D) (r : ReadResult D)
      → IsIdle s
      → (s.stop ≡ false → s.connected ≡ true)
      → IsLive (read_result hash s r)
  read_result-IsLive s closed v on = schedule_reconnect-IsLive (record s { connected = false }) v
  read_result-IsLive s failed v on = schedule_reconnect-IsLive (record s { connected = false }) v
  read_result-IsLive s (frame now f) v on =
      let same = decode-SameConnection s now f in
      begin-IsLive Pending.reading (decode_protobuf_frame hash s now f)
        (same.0 ∙ v.0, rw same.1 v.1, rw same.1 v.2) (λ n. same.3 ∙ on (sym same.2 ∙ n))

  idle-IsLive : (s : WsHandler D) → IsIdle s → s.stop ≡ true → IsLive s
  idle-IsLive s v stopped = record {
    single = rw v.0 (omega arith);
    busy = λ n. absurd (cc);
    reads = λ n. absurd (cc);
    delay_low = v.1;
    delay_high = v.2;
  }

  on_upgrade-IsLive : (s : WsHandler D) (ec : Bool) → IsIdle s → IsLive (on_upgrade s ec)
  unfolding on_upgrade do_send_subscription
  on_upgrade-IsLive s true v = schedule_reconnect-IsLive s v
  on_upgrade-IsLive s false v =
      if_elim (λ (t : WsHandler D). IsLive (begin Pending.reading t)) (no_keys s.subscribed_keys) _
        _
        (λ _.
          begin-IsLive Pending.reading (record s { connected = true; reconnect_delay = 1 })
            (v.0, omega arith, omega arith) (λ _. refl))
        (λ _.
          begin-IsLive Pending.reading
            (do_send_subscription (record s { connected = true; reconnect_delay = 1 }))
            (v.0, omega arith, omega arith) (λ _. refl))

  Completion-IsLive : {s t : WsHandler D} → Completion hash parse s t → IsLive s → IsLive t
  unfolding on_resolve on_connect on_secure on_read on_timer do_reconnect on_written_sub
  Completion-IsLive {s} (resolved ec h) v =
      let i = finish-IsIdle Pending.resolving s h v in
      if_elim IsLive ec _ _ (λ _. schedule_reconnect-IsLive (finish Pending.resolving s) i)
        (λ _.
          begin-IsLive Pending.connecting _ i (finish-off Pending.resolving s h (omega arith) v))
  Completion-IsLive {s} (joined ec sni h) v =
      let i = finish-IsIdle Pending.connecting s h v in
      if_elim IsLive ec _ _ (λ _. schedule_reconnect-IsLive (finish Pending.connecting s) i)
        (λ _.
          do_ssl_handshake-IsLive (finish Pending.connecting s) sni i
            (finish-off Pending.connecting s h (omega arith) v))
  Completion-IsLive {s} (secured ec h) v =
      let i = finish-IsIdle Pending.securing s h v in
      if_elim IsLive ec _ _ (λ _. schedule_reconnect-IsLive (finish Pending.securing s) i)
        (λ _. begin-IsLive Pending.upgrading _ i (finish-off Pending.securing s h (omega arith) v))
  Completion-IsLive {s} (upgraded ec h) v =
      on_upgrade-IsLive _ ec (finish-IsIdle Pending.upgrading s h v)
  Completion-IsLive {s} (received r h) v =
      let i = finish-IsIdle Pending.reading s h v in
      if_elim IsLive s.stop _ _ (λ e. idle-IsLive _ i e)
        (λ _. read_result-IsLive _ r i (λ n. v.reads n ∙ h))
  Completion-IsLive {s} (timed_out aborted url h only) v =
      let i = finish-IsIdle Pending.waiting s h v in
      if_elim IsLive aborted _ _ (λ e. idle-IsLive _ i (only e))
        (λ _.
          do_authorize-IsLive (record (finish Pending.waiting s) { has_ws = false }) url i
            (finish-off Pending.waiting s h (omega arith) v))
  Completion-IsLive {s} (sub_written some_write) v = record {
    single = v.single;
    busy = v.busy;
    reads = v.reads;
    delay_low = v.delay_low;
    delay_high = v.delay_high;
  }

  unsubscribe-SameConnection :
      (s : WsHandler D) (ks : List Text) → SameConnection s (unsubscribe hash s ks)
  unfolding unsubscribe
  unsubscribe-SameConnection s [] = (refl, refl, refl, refl)
  unsubscribe-SameConnection s (k ∷ ks) =
      unsubscribe-SameConnection
        (record s {
          subscribed_keys = remove_key k s.subscribed_keys;
          token_to_key = erase (hash k) s.token_to_key;
        })
        ks

  subscribe-SameConnection :
      (s : WsHandler D) (ks : List Text) (mode : Text) → SameConnection s (subscribe hash s ks mode)
  unfolding subscribe do_send_subscription
  subscribe-SameConnection s ks mode =
      if_elim (SameConnection s) s.connected _ _ (λ _. (refl, refl, refl, refl))
        (λ _. (refl, refl, refl, refl))

  SameConnection-IsLive : {s t : WsHandler D} → SameConnection s t → IsLive s → IsLive t
  SameConnection-IsLive same v = record {
    single = rw same.0 v.single;
    busy = λ n. rw same.0 (v.busy (sym same.2 ∙ n));
    reads = λ n. rw same.0 (same.3 ∙ v.reads (sym same.2 ∙ n));
    delay_low = rw same.1 v.delay_low;
    delay_high = rw same.1 v.delay_high;
  }

  pub Step-IsLive : {s t : WsHandler D} → Step hash parse s t → IsLive s → IsLive t
  unfolding stop_feed
  Step-IsLive (completes c) v = Completion-IsLive c v
  Step-IsLive {s} (subscribes keys mode) v =
      SameConnection-IsLive (subscribe-SameConnection s keys mode) v
  Step-IsLive {s} (unsubscribes keys) v =
      SameConnection-IsLive (unsubscribe-SameConnection s keys) v
  Step-IsLive stops v = record {
    single = v.single;
    busy = λ n. absurd (cc);
    reads = λ n. absurd (cc);
    delay_low = v.delay_low;
    delay_high = v.delay_high;
  }

  -- From `start` on, whatever the network answers and whenever the handler is called or stopped:
  -- until it is stopped exactly one asynchronous operation is under way beside the writes of
  -- subscriptions, so that it never stalls, and it is connected exactly while that one is reading; and
  -- always at most one is under way beside those writes, and the delay is between 1 second and the 60
  -- of the code's constant. The handler is one on which nothing was called before.
  pub Reach-IsLive :
      (s : WsHandler D) (url : Text) (t : WsHandler D)
      → s.pending ≡ []
      → s.connected ≡ false
      → s.reconnect_delay ≡ 1
      → Reach hash parse (do_authorize parse s url) t
      → IsLive t
  Reach-IsLive s url t p c e here =
      do_authorize-IsLive s url (p, rw e (omega arith), rw e (omega arith)) (λ _. c)
  Reach-IsLive s url t p c e (next {t = m} r st) = Step-IsLive st (Reach-IsLive s url m p c e r)
