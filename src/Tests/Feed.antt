-- ===== src/Tests/Feed.antt =====
-- Runs of cpp/market_data/upstox_ws_handler.cpp.
use quantforge_engine.Prelude.{
  ℕ, ◌+◌, ◌%◌, ◌^◌, ◌≤◌, ◌≡◌, refl, Bool, true, false, Option, some, List, [], ◌∷◌, arith, length,
}
use quantforge_engine.Prelude.Int.{pos, ◌-ℤ◌}
use quantforge_engine.Prelude.Text.{Text, codes}
use quantforge_engine.Doubles.Fixed.{Fixed, fixed_double}
use quantforge_engine.Types.{NormalizedTick, blank_tick}
use quantforge_engine.Spsc.Refine.{IsValid, contents}
use quantforge_engine.MarketData.Feed.{
  WsHandler, Pending, closed, finish, max_reconnect_delay, smaller, schedule_reconnect,
  do_authorize, on_resolve, on_upgrade, on_read, decode_feeds,
}
use quantforge_engine.MarketData.Feed.Frames.{FeedMsg, ltpc, market_full, other_full, translate}
use quantforge_engine.MarketData.Feed.Decode.{offer, ticks_of, decode_feeds_lem}
use quantforge_engine.MarketData.Feed.Steps.{here, next, completes, resolved, received, IsLive}
use quantforge_engine.MarketData.Feed.Connection.{Reach-IsLive}
use quantforge_engine.MarketData.Feed.Liveness.{succeed_times, succeed_times-connected}
use quantforge_engine.MarketData.Feed.Backoff.{
  Failure, no_address, no_host, no_tls, fail_all, fail_all-timer,
}
use quantforge_engine.MarketData.Feed.Stopping.{done, more, Run-le}
use quantforge_engine.MarketData.Feed.Stopped.{on_upgrade-connected}

abbrev blank : NormalizedTick Fixed
blank = blank_tick

-- A handler before `start`, over a queue of four cells.
abbrev feed : WsHandler Fixed
feed = record {
  tick_queue = record {
    write_pos = 0;
    read_pos = 0;
    cells = blank ∷ blank ∷ blank ∷ blank ∷ [];
    capacity = 4;
  };
  has_ws = false;
  wss_url = [];
  wss_host = [];
  wss_port = [];
  wss_path = [];
  subscribed_keys = codes "K" ∷ [];
  subscribe_mode = codes "full";
  connected = false;
  stop = false;
  msg_count = 0;
  decode_errors = 0;
  reconnect_delay = 1;
  token_to_key = [];
  pending = [];
  writes = 0;
  timer = 0;
  sent = [];
  closes = 0;
}

abbrev url : Text
url = codes "wss://h/p"

-- What the expression finds in `url`.
abbrev parse : Text → Option (Text × Text)
parse s = some (codes "h", codes "/p")

abbrev hash : Text → ℕ
hash k = length k

abbrev upgrading : Bool → WsHandler Fixed
upgrading stopped = record feed { has_ws = true; stop = stopped; pending = Pending.upgrading ∷ [] }

-- The host is resolved.
Reach-IsLive_example :
    IsLive (on_resolve (finish Pending.resolving (do_authorize parse feed url)) false)
unfolding do_authorize
Reach-IsLive_example =
    Reach-IsLive hash parse feed url
      (on_resolve (finish Pending.resolving (do_authorize parse feed url)) false) refl refl refl
      (next here (completes (resolved false refl)))

abbrev waiting_live : IsLive (record feed { pending = Pending.waiting ∷ [] })
waiting_live = record {
  single = omega arith;
  busy = λ _. refl;
  reads = λ _. refl;
  delay_low = omega arith;
  delay_high = omega arith;
}

succeed_times-connected_example :
    (n : ℕ) × (n ≤ 5)
    × ((succeed_times parse n url (record feed { pending = Pending.waiting ∷ [] })).connected
        ≡ true)
succeed_times-connected_example =
    succeed_times-connected parse url (codes "h") (codes "/p") refl refl
      (record feed { pending = Pending.waiting ∷ [] }) waiting_live refl

abbrev seven : List Failure
seven = no_address ∷ no_host ∷ no_tls ∷ no_host ∷ no_host ∷ no_host ∷ no_host ∷ []

fail_all-timer_example :
    (fail_all parse url seven (schedule_reconnect feed)).timer
    ≡ smaller (2 ^ length seven) max_reconnect_delay
fail_all-timer_example =
    fail_all-timer parse url (codes "h") (codes "/p") refl refl seven feed refl refl refl

abbrev stopped_live :
    IsLive (record feed { stop = true; connected = true; pending = Pending.reading ∷ [] })
stopped_live = record {
  single = omega arith;
  busy = λ _. refl;
  reads = λ _. refl;
  delay_low = omega arith;
  delay_high = omega arith;
}

Run-le_example :
    (1 ≤ 7 + feed.writes)
    × ((on_read hash
          (finish Pending.reading
            (record feed { stop = true; connected = true; pending = Pending.reading ∷ [] }))
          closed).stop
        ≡ true)
Run-le_example =
    Run-le hash parse
      (record feed { stop = true; connected = true; pending = Pending.reading ∷ [] }) 1
      (on_read hash
        (finish Pending.reading
          (record feed { stop = true; connected = true; pending = Pending.reading ∷ [] }))
        closed)
      stopped_live refl (more done (received closed refl))

on_upgrade-connected_example :
    (on_upgrade (finish Pending.upgrading (upgrading true)) false).connected ≡ true
on_upgrade-connected_example =
    on_upgrade-connected hash parse (upgrading true)
      (on_upgrade (finish Pending.upgrading (upgrading true)) false) refl here

-- Two feeds with data and one without.
abbrev three : List (Text × FeedMsg Fixed)
three =
    (codes "K", ltpc (record { ltp = pos 100_000; cp = pos 90_000; ltt = pos 5 }))
    ∷ (codes "NONE", other_full)
    ∷ (
      codes "KEY",
      market_full (record { ltp = pos 50_000; cp = pos 0; ltt = pos 5 }) 10 20
          ((pos 49_000, 7) ∷ []),
    )
    ∷ []

abbrev feed_queue : IsValid feed.tick_queue
feed_queue = record { stored = refl; write_in = omega arith; read_in = omega arith }

decode_feeds_lem_example :
    let s' = decode_feeds hash feed 9 three in
    (contents blank s'.tick_queue
      ≡ offer 4 (contents blank feed.tick_queue) (ticks_of hash 9 three))
    × (s'.msg_count ≡ (0 + length (ticks_of hash 9 three)) % 2 ^ 64)
    × (s' ≡ record feed { tick_queue = s'.tick_queue; msg_count = s'.msg_count })
decode_feeds_lem_example = decode_feeds_lem hash blank feed 9 three feed_queue (omega arith)

two_counted : (decode_feeds hash feed 9 three).msg_count ≡ 2
unfolding decode_feeds translate
two_counted = refl

abbrev late_msg : FeedMsg Fixed
late_msg = ltpc (record { ltp = pos 100_000; cp = pos 90_000; ltt = pos 1 })

abbrev late_tick : NormalizedTick Fixed
late_tick = record blank {
  instrument_token = 1;
  recv_ts_ns = 6_000_000_000;
  symbol = codes "K";
  ltp = pos 100_000;
  prev_close = pos 90_000;
  exchange_ts_ns = 1_000_000;
  latency_ns = pos 5_999_000_000;
  is_stale = true;
}

translate_late : translate hash 6_000_000_000 (codes "K") late_msg ≡ some late_tick
unfolding translate fixed_double ◌-ℤ◌
translate_late = refl
