-- ===== src/MarketData/Feed.antt =====
-- cpp/market_data/upstox_ws_handler.cpp and .hpp: UpstoxWSHandler. The asynchronous operations that
-- are under way are the list `pending`; what the network, the clock, the protobuf parser, std::hash
-- and std::regex answer are arguments. The messages that are sent are recorded, newest first.
pub mod Frames
pub mod Decode
pub mod Steps
pub mod Connection
pub mod Liveness
pub mod Backoff
pub mod Stopping
pub mod Stopped
use quantforge_engine.Prelude.{
  ℕ, ◌+◌, ◌-◌, ◌*◌, ◌%◌, ◌^◌, Bool, true, false, not, ◌&&◌, Option, none, some, List, [], ◌∷◌,
  if◌then◌else◌, ◌==◌, ltb, set, insert, erase, nat_eq,
}
use quantforge_engine.Prelude.Int.{ℤ, pos, negsuc, ◌-ℤ◌, ltb_ℤ}
use quantforge_engine.Prelude.Text.{Text, codes, text_beq, strncpy}
use quantforge_engine.Doubles.{Double}
use quantforge_engine.Types.{NormalizedTick, DepthLevel, blank_tick, no_depth, max_symbol_len}
use quantforge_engine.Spsc.{Spsc, spsc_push}
use quantforge_engine.MarketData.Feed.Frames.{FeedMsg, FeedFrame, broken, feeds, translate}

-- An asynchronous call whose completion handler has not run.
pub data Pending : Type 0 where
  resolving connecting securing upgrading reading waiting : Pending

pub record WsHandler (D : Type 0) : Type 0 where
  pub tick_queue : Spsc (NormalizedTick D)
  pub has_ws : Bool  -- whether ws_ is set
  pub wss_url : Text
  pub wss_host : Text
  pub wss_port : Text
  pub wss_path : Text
  pub subscribed_keys : List Text
  pub subscribe_mode : Text
  pub connected : Bool
  pub stop : Bool
  pub msg_count : ℕ
  pub decode_errors : ℕ
  pub reconnect_delay : ℕ
  pub token_to_key : List (ℕ × Text)
  pub pending : List Pending  -- all but the writes of subscriptions
  pub writes : ℕ  -- writes of subscriptions that are under way
  pub timer : ℕ  -- the seconds that reconnect_timer_ was last set to
  pub sent : List (Text × List Text)  -- mode and keys of the subscriptions
  pub closes : ℕ  -- calls of ws_->close

abbrev pub max_reconnect_delay : ℕ
max_reconnect_delay = 60

abbrev pub smaller : ℕ → ℕ → ℕ
smaller a b = if ltb b a then b else a

pub data ReadResult (D : Type 0) : Type 0 where
  closed failed : ReadResult D
  frame : ℕ → FeedFrame D → ReadResult D  -- with the clock

-- The members of `Pending` are told apart by number.
abbrev pub pending_value : Pending → ℕ
pending_value Pending.resolving = 4
pending_value Pending.connecting = 3
pending_value Pending.securing = 2
pending_value Pending.upgrading = 1
pending_value Pending.reading = 0
pending_value Pending.waiting = 5

abbrev pub has_op : Pending → List Pending → Bool
has_op op [] = false
has_op op (p ∷ ps) = if pending_value op == pending_value p then true else has_op op ps

abbrev pub remove_op : Pending → List Pending → List Pending
remove_op op [] = []
remove_op op (p ∷ ps) = if pending_value op == pending_value p then ps else p ∷ remove_op op ps

-- `erase(remove(begin, end, k), end)`.
abbrev pub remove_key : Text → List Text → List Text
remove_key k [] = []
remove_key k (x ∷ xs) = if text_beq x k then remove_key k xs else x ∷ remove_key k xs

abbrev pub no_url : Text → Bool
no_url [] = true
no_url (c ∷ cs) = false

abbrev pub no_keys : List Text → Bool
no_keys [] = true
no_keys (k ∷ ks) = false

-- The loop of `subscribe` over the keys.
abbrev pub build_map : (Text → ℕ) → List Text → List (ℕ × Text) → List (ℕ × Text)
build_map hash [] m = m
build_map hash (k ∷ ks) m = build_map hash ks (insert (hash k) k m)

module _ {D : Type 0} where
  -- The completion of `op` takes it from the operations under way; its handler follows.
  abbrev pub finish : Pending → WsHandler D → WsHandler D
  finish op s = record s { pending = remove_op op s.pending }

  abbrev pub begin : Pending → WsHandler D → WsHandler D
  begin op s = record s { pending = op ∷ s.pending }

  unfoldable pub do_send_subscription : WsHandler D → WsHandler D
  do_send_subscription s = record s {
    sent = (s.subscribe_mode, s.subscribed_keys) ∷ s.sent;
    writes = s.writes + 1;
  }

  -- The handler of the write, which only logs, whether it failed or not.
  unfoldable pub on_written_sub : WsHandler D → WsHandler D
  on_written_sub s = record s { writes = s.writes - 1 }

  unfoldable pub schedule_reconnect : WsHandler D → WsHandler D
  schedule_reconnect s = if s.stop then s else record s {
    connected = false;
    timer = s.reconnect_delay;
    pending = Pending.waiting ∷ s.pending;
    reconnect_delay = smaller (s.reconnect_delay * 2) max_reconnect_delay;
  }

  abbrev pub parsed_url : WsHandler D → Option (Text × Text) → WsHandler D
  parsed_url s none = schedule_reconnect s
  parsed_url s (some (host, path)) =
      begin Pending.resolving
        (record s { wss_host = host; wss_path = path; wss_port = codes "443" })

  -- `url` is what fetch_ws_url returns, `parse` the regular expression's two groups.
  unfoldable pub do_authorize : (Text → Option (Text × Text)) → WsHandler D → Text → WsHandler D
  unfolding schedule_reconnect
  do_authorize parse s url =
      let s1 = record s { wss_url = url } in
      if no_url url then schedule_reconnect s1 else parsed_url s1 (parse url)

  -- The completion handlers, `ec` for an error.
  unfoldable pub on_resolve : WsHandler D → Bool → WsHandler D
  unfolding schedule_reconnect
  on_resolve s ec =
      if ec then schedule_reconnect s else begin Pending.connecting (record s { has_ws = true })

  -- `sni` is the answer of SSL_set_tlsext_host_name.
  unfoldable pub do_ssl_handshake : WsHandler D → Bool → WsHandler D
  unfolding schedule_reconnect
  do_ssl_handshake s sni = if sni then begin Pending.securing s else schedule_reconnect s

  unfoldable pub on_connect : WsHandler D → Bool → Bool → WsHandler D
  unfolding schedule_reconnect do_ssl_handshake
  on_connect s ec sni = if ec then schedule_reconnect s else do_ssl_handshake s sni

  unfoldable pub on_secure : WsHandler D → Bool → WsHandler D
  unfolding schedule_reconnect
  on_secure s ec = if ec then schedule_reconnect s else begin Pending.upgrading s

  unfoldable pub on_upgrade : WsHandler D → Bool → WsHandler D
  unfolding schedule_reconnect do_send_subscription
  on_upgrade s ec =
      let s1 = record s { connected = true; reconnect_delay = 1 } in
      if ec
      then schedule_reconnect s
      else begin Pending.reading (if no_keys s.subscribed_keys then s1 else do_send_subscription s1)

  unfoldable pub subscribe : (Text → ℕ) → WsHandler D → List Text → Text → WsHandler D
  unfolding do_send_subscription
  subscribe hash s keys mode =
      let s1 = record s {
        subscribed_keys = keys;
        subscribe_mode = mode;
        token_to_key = build_map hash keys s.token_to_key;
      } in
      if s.connected then do_send_subscription s1 else s1

  unfoldable pub unsubscribe : (Text → ℕ) → WsHandler D → List Text → WsHandler D
  unsubscribe hash s [] = s
  unsubscribe hash s (k ∷ ks) =
      unsubscribe hash
        (record s {
          subscribed_keys = remove_key k s.subscribed_keys;
          token_to_key = erase (hash k) s.token_to_key;
        })
        ks

  -- The cancelled timer shows in how its wait completes.
  unfoldable pub stop_feed : WsHandler D → WsHandler D
  stop_feed s = record s {
    stop = true;
    closes = if s.has_ws && s.connected then s.closes + 1 else s.closes;
  }

  unfoldable pub do_reconnect : (Text → Option (Text × Text)) → WsHandler D → Text → WsHandler D
  unfolding do_authorize
  do_reconnect parse s url = do_authorize parse (record s { has_ws = false }) url

  -- The handler of the timer.
  unfoldable pub on_timer : (Text → Option (Text × Text)) → WsHandler D → Bool → Text → WsHandler D
  unfolding do_reconnect
  on_timer parse s aborted url = if aborted then s else do_reconnect parse s url

  -- A full queue drops the tick, and the message counts all the same.
  unfoldable pub push_tick : WsHandler D → NormalizedTick D → WsHandler D
  push_tick s tick = record s {
    tick_queue = (spsc_push s.tick_queue tick).0;
    msg_count = (s.msg_count + 1) % 2 ^ 64;
  }

  abbrev pub push_some : WsHandler D → Option (NormalizedTick D) → WsHandler D
  push_some s none = s
  push_some s (some tick) = push_tick s tick

module _ {D : Type 0} ⦃d : Double D⦄ (hash : Text → ℕ) where
  -- The loop over the feeds of a message.
  unfoldable pub decode_feeds : WsHandler D → ℕ → List (Text × FeedMsg D) → WsHandler D
  unfolding push_tick
  decode_feeds s recv_ts [] = s
  decode_feeds s recv_ts ((key, msg) ∷ rest) =
      decode_feeds (push_some s (translate hash recv_ts key msg)) recv_ts rest

  unfoldable pub decode_protobuf_frame : WsHandler D → ℕ → FeedFrame D → WsHandler D
  unfolding decode_feeds
  decode_protobuf_frame s recv_ts broken = record s {
    decode_errors = (s.decode_errors + 1) % 2 ^ 64;
  }
  decode_protobuf_frame s recv_ts (feeds fs) = decode_feeds s recv_ts fs

  abbrev pub read_result : WsHandler D → ReadResult D → WsHandler D
  read_result s closed = schedule_reconnect (record s { connected = false })
  read_result s failed = schedule_reconnect (record s { connected = false })
  read_result s (frame now f) = begin Pending.reading (decode_protobuf_frame s now f)

  unfoldable pub on_read : WsHandler D → ReadResult D → WsHandler D
  unfolding schedule_reconnect decode_protobuf_frame
  on_read s r = if s.stop then s else read_result s r
