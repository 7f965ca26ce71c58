-- ===== src/Types/Market.antt =====
-- The market data of cpp/common/types.hpp. A field `open` is `open_price`: `open` is a reserved word.
use quantforge_engine.Prelude.{ℕ, Bool, false, List, replicate, []}
use quantforge_engine.Prelude.Int.{ℤ, pos}
use quantforge_engine.Prelude.Text.{Text}
use quantforge_engine.Doubles.{Double, of_ℕ}
use quantforge_engine.Types.Enums.{ExchangeId, depth_levels}

pub record DepthLevel (D : Type 0) : Type 0 where
  pub price : D
  pub qty : ℕ
  pub orders : ℕ

-- The padding bytes carry nothing and are left out.
pub record NormalizedTick (D : Type 0) : Type 0 where
  pub instrument_token : ℕ
  pub symbol : Text
  pub exchange : ExchangeId
  pub ltp : D
  pub prev_close : D
  pub open_price : D
  pub high : D
  pub low : D
  pub volume : ℕ
  pub oi : ℕ
  pub bid : List (DepthLevel D)
  pub ask : List (DepthLevel D)
  pub candle_open_1m : D
  pub candle_high_1m : D
  pub candle_low_1m : D
  pub candle_close_1m : D
  pub iv : D
  pub delta : D
  pub gamma : D
  pub theta : D
  pub vega : D
  pub exchange_ts_ns : ℕ
  pub recv_ts_ns : ℕ
  pub latency_ns : ℤ
  pub is_stale : Bool
  pub is_index : Bool
  pub is_option : Bool

pub record Candle (D : Type 0) : Type 0 where
  pub instrument_token : ℕ
  pub open_ts_ns : ℕ
  pub close_ts_ns : ℕ
  pub interval_sec : ℕ
  pub open_price : D
  pub high : D
  pub low : D
  pub close : D
  pub volume : ℕ
  pub oi : ℕ

module _ {D : Type 0} ⦃d : Double D⦄ where
  abbrev pub no_depth : DepthLevel D
  no_depth = record { price = of_ℕ 0; qty = 0; orders = 0 }

  -- `NormalizedTick{}`.
  abbrev pub blank_tick : NormalizedTick D
  blank_tick = record {
    instrument_token = 0;
    symbol = [];
    exchange = ExchangeId.nse_eq;
    ltp = of_ℕ 0;
    prev_close = of_ℕ 0;
    open_price = of_ℕ 0;
    high = of_ℕ 0;
    low = of_ℕ 0;
    volume = 0;
    oi = 0;
    bid = replicate depth_levels no_depth;
    ask = replicate depth_levels no_depth;
    candle_open_1m = of_ℕ 0;
    candle_high_1m = of_ℕ 0;
    candle_low_1m = of_ℕ 0;
    candle_close_1m = of_ℕ 0;
    iv = of_ℕ 0;
    delta = of_ℕ 0;
    gamma = of_ℕ 0;
    theta = of_ℕ 0;
    vega = of_ℕ 0;
    exchange_ts_ns = 0;
    recv_ts_ns = 0;
    latency_ns = pos 0;
    is_stale = false;
    is_index = false;
    is_option = false;
  }
