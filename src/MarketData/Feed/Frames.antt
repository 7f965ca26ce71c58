-- ===== src/MarketData/Feed/Frames.antt =====
-- decode_protobuf_frame of cpp/market_data/upstox_ws_handler.cpp: the tick that a feed of a message
-- gives. The classes that are generated from MarketDataFeed.proto are not in the repository; a
-- message is what the code reads of it, its numbers in the types of the tick's members.
use quantforge_engine.Prelude.{
  ℕ, ◌-◌, ◌*◌, ◌%◌, ◌^◌, Option, none, some, List, [], ◌∷◌, if◌then◌else◌, ltb, set,
}
use quantforge_engine.Prelude.Int.{ℤ, pos, negsuc, ◌-ℤ◌, ltb_ℤ}
use quantforge_engine.Prelude.Text.{Text, strncpy}
use quantforge_engine.Doubles.{Double}
use quantforge_engine.Types.{NormalizedTick, DepthLevel, blank_tick, no_depth, max_symbol_len}

pub record Ltpc (D : Type 0) : Type 0 where
  pub ltp : D
  pub cp : D
  pub ltt : ℤ

-- `market_full` has the volume, the open interest, and price and quantity of the bids.
pub data FeedMsg (D : Type 0) : Type 0 where
  ltpc : Ltpc D → FeedMsg D
  market_full : Ltpc D → ℕ → ℕ → List (D × ℕ) → FeedMsg D
  other_full : FeedMsg D
  first_level : Ltpc D → FeedMsg D
  unset : FeedMsg D

-- A received frame: one that does not parse, or its feeds by key.
pub data FeedFrame (D : Type 0) : Type 0 where
  broken : FeedFrame D
  feeds : List (Text × FeedMsg D) → FeedFrame D

-- `static_cast<uint64_t>` of an int64_t, and back.
abbrev pub to_u64 : ℤ → ℕ
to_u64 (pos n) = n % 2 ^ 64
to_u64 (negsuc n) = 2 ^ 64 - 1 - n % 2 ^ 64

abbrev pub to_i64 : ℕ → ℤ
to_i64 n = if ltb n (2 ^ 63) then pos n else negsuc (2 ^ 64 - 1 - n)

module _ {D : Type 0} ⦃d : Double D⦄ where
  -- What every tick starts with.
  abbrev pub fresh_tick : (Text → ℕ) → ℕ → Text → NormalizedTick D
  fresh_tick hash recv_ts key = record blank_tick {
    instrument_token = hash key;
    recv_ts_ns = recv_ts;
    symbol = strncpy key (max_symbol_len - 1);
  }

  abbrev pub first_bid : List (DepthLevel D) → List (D × ℕ) → List (DepthLevel D)
  first_bid bid [] = bid
  first_bid bid ((bidp, bidq) ∷ qs) = set bid 0 (record no_depth { price = bidp; qty = bidq })

  -- The branches on the kind of the feed; `none` where `have_data` stays false.
  abbrev pub fill_tick : NormalizedTick D → FeedMsg D → Option (NormalizedTick D)
  fill_tick t (ltpc l) = some (record t {
    ltp = l.ltp;
    prev_close = l.cp;
    exchange_ts_ns = to_u64 l.ltt * 1_000_000 % 2 ^ 64;
  })
  fill_tick t (market_full l vtt oi quotes) = some (record t {
    ltp = l.ltp;
    prev_close = l.cp;
    volume = vtt;
    oi = oi;
    bid = first_bid t.bid quotes;
  })
  fill_tick t other_full = none
  fill_tick t (first_level l) = some (record t { ltp = l.ltp; prev_close = l.cp })
  fill_tick t unset = none

  abbrev pub latency_of : NormalizedTick D → ℤ
  latency_of t = to_i64 t.recv_ts_ns -ℤ to_i64 t.exchange_ts_ns

  unfoldable pub mark_stale : NormalizedTick D → NormalizedTick D
  unfolding ◌-ℤ◌
  mark_stale t =
      if ltb 0 t.exchange_ts_ns
      then record t {
        latency_ns = latency_of t;
        is_stale = ltb_ℤ (pos 5_000_000_000) (latency_of t);
      }
      else t

  abbrev pub marked : Option (NormalizedTick D) → Option (NormalizedTick D)
  marked none = none
  marked (some t) = some (mark_stale t)

  unfoldable pub translate : (Text → ℕ) → ℕ → Text → FeedMsg D → Option (NormalizedTick D)
  unfolding mark_stale
  translate hash recv_ts key msg = marked (fill_tick (fresh_tick hash recv_ts key) msg)
