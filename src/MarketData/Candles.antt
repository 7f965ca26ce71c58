-- ===== src/MarketData/Candles.antt =====
-- cpp/market_data/candle_builder.hpp: CandleBuilder. The calls of the callbacks are recorded, newest
-- first; callback i is the one that was registered after i others.
use mathlib.Core.Path.{ap, ap₂}
use quantforge_engine.Prelude.{
  ℕ, zero, suc, ◌+◌, ◌-◌, ◌*◌, ◌/◌, ◌%◌, ◌^◌, ◌≡◌, ◌↔◌, Bool, true, false, not, ◌&&◌, ◌||◌, Option,
  none, some, List, [], ◌∷◌, ◌++◌, arith, ltb, ◌==◌, if◌then◌else◌, Eq, lookup, insert,
}
use quantforge_engine.Doubles.{Double, of_ℕ, fmin, fmax}
use quantforge_engine.Types.{NormalizedTick, Candle}

pub record BarKey : Type 0 where
  pub token : ℕ
  pub interval : ℕ

-- The `operator==` of keys.
abbrev pub same_key : BarKey → BarKey → Bool
same_key k o = (k.token == o.token) && (k.interval == o.interval)

pub same_key_iff : (k o : BarKey) → (same_key k o ≡ true) ↔ (k ≡ o)
same_key_iff k o = (
  λ h.
      let t : k.token ≡ o.token = ground arith in
      let i : k.interval ≡ o.interval = ground arith in
      ap₂ (λ a b. let r : BarKey = record { token = a; interval = b } in r) t i,
  λ e.
      let t : k.token ≡ o.token = ap (λ (x : BarKey). x.token) e in
      let i : k.interval ≡ o.interval = ap (λ (x : BarKey). x.interval) e in ground arith,
)

instance abbrev pub key_eq : Eq BarKey
key_eq = record { beq = same_key; beq_iff = same_key_iff }

pub record BarState (D : Type 0) : Type 0 where
  pub instrument_token : ℕ
  pub bar_start_ns : ℕ
  pub interval_sec : ℕ
  pub open_price : D
  pub high : D
  pub low : D
  pub close : D
  pub volume : ℕ
  pub oi : ℕ
  pub initialized : Bool

pub record CandleBuilder (D : Type 0) : Type 0 where
  pub open_bars : List (BarKey × BarState D)
  pub callbacks : ℕ
  pub calls : List (ℕ × Candle D)

-- INTERVALS.
abbrev pub intervals : List ℕ
intervals = 60 ∷ 300 ∷ 900 ∷ 3600 ∷ []

abbrev pub interval_ns : ℕ → ℕ
interval_ns interval_sec = interval_sec * 1_000_000_000

-- The calls of the first n callbacks.
abbrev pub calls_of : {D : Type 0} → ℕ → Candle D → List (ℕ × Candle D)
calls_of zero c = []
calls_of (suc n) c = (n, c) ∷ calls_of n c

module _ {D : Type 0} where
  unfoldable pub register_callback : CandleBuilder D → CandleBuilder D
  register_callback b = record b { callbacks = suc b.callbacks }

  abbrev pub candle_of : BarState D → ℕ → Candle D
  candle_of bar close_ts_ns = record {
    instrument_token = bar.instrument_token;
    open_ts_ns = bar.bar_start_ns;
    close_ts_ns = close_ts_ns;
    interval_sec = bar.interval_sec;
    open_price = bar.open_price;
    high = bar.high;
    low = bar.low;
    close = bar.close;
    volume = bar.volume;
    oi = bar.oi;
  }

  unfoldable pub emit_candle : CandleBuilder D → BarState D → ℕ → CandleBuilder D
  emit_candle b bar close_ts_ns = record b {
    calls = calls_of b.callbacks (candle_of bar close_ts_ns) ++ b.calls;
  }

  -- The exchange's timestamp, or else that of the reception.
  abbrev pub tick_ts : NormalizedTick D → ℕ
  tick_ts tick = if ltb 0 tick.exchange_ts_ns then tick.exchange_ts_ns else tick.recv_ts_ns

  abbrev pub bar_start : NormalizedTick D → ℕ → ℕ
  bar_start tick interval_sec = tick_ts tick / interval_ns interval_sec * interval_ns interval_sec

  abbrev pub new_bar : NormalizedTick D → ℕ → BarState D
  new_bar tick interval_sec = record {
    instrument_token = tick.instrument_token;
    bar_start_ns = bar_start tick interval_sec;
    interval_sec = interval_sec;
    open_price = tick.ltp;
    high = tick.ltp;
    low = tick.ltp;
    close = tick.ltp;
    volume = tick.volume;
    oi = tick.oi;
    initialized = true;
  }

module _ {D : Type 0} ⦃d : Double D⦄ where
  abbrev pub candles_init : CandleBuilder D
  candles_init = record { open_bars = []; callbacks = 0; calls = [] }

  -- `BarState{}`.
  abbrev pub blank_bar : BarState D
  blank_bar = record {
    instrument_token = 0;
    bar_start_ns = 0;
    interval_sec = 0;
    open_price = of_ℕ 0;
    high = of_ℕ 0;
    low = of_ℕ 0;
    close = of_ℕ 0;
    volume = 0;
    oi = 0;
    initialized = false;
  }

  abbrev pub bar_or_blank : Option (BarState D) → BarState D
  bar_or_blank none = blank_bar
  bar_or_blank (some bar) = bar

  -- The update of an open bar.
  unfoldable pub extend_bar : BarState D → NormalizedTick D → BarState D
  extend_bar bar tick = record bar {
    high = fmax bar.high tick.ltp;
    low = fmin bar.low tick.ltp;
    close = tick.ltp;
    volume = if ltb bar.volume tick.volume then tick.volume else bar.volume;
    oi = tick.oi;
  }

  -- The end of the bar before, if there is one, and the start of the next.
  unfoldable pub roll_bar : CandleBuilder D → BarState D → NormalizedTick D → ℕ → CandleBuilder D
  roll_bar b bar tick interval_sec =
      let ended =
        if bar.initialized && d.lt (of_ℕ 0) bar.open_price
        then emit_candle b bar ((bar.bar_start_ns + interval_ns interval_sec - 1) % 2 ^ 64)
        else b in
      let key : BarKey = record { token = tick.instrument_token; interval = interval_sec } in
      record ended { open_bars = insert key (new_bar tick interval_sec) ended.open_bars }

  unfoldable pub update_bar : CandleBuilder D → NormalizedTick D → ℕ → CandleBuilder D
  update_bar b tick interval_sec =
      let key : BarKey = record { token = tick.instrument_token; interval = interval_sec } in
      let bar = bar_or_blank (lookup key b.open_bars) in
      if not bar.initialized || not (bar.bar_start_ns == bar_start tick interval_sec)
      then roll_bar b bar tick interval_sec
      else record b { open_bars = insert key (extend_bar bar tick) b.open_bars }

  unfoldable pub update_each : CandleBuilder D → NormalizedTick D → List ℕ → CandleBuilder D
  update_each b tick [] = b
  update_each b tick (interval ∷ rest) = update_each (update_bar b tick interval) tick rest

  unfoldable pub on_tick : CandleBuilder D → NormalizedTick D → CandleBuilder D
  unfolding update_each
  on_tick b tick = update_each b tick intervals

  unfoldable pub flush_each : CandleBuilder D → List (BarKey × BarState D) → ℕ → CandleBuilder D
  flush_each b [] now = b
  flush_each b ((_, bar) ∷ bars) now =
      flush_each (if d.lt (of_ℕ 0) bar.open_price then emit_candle b bar now else b) bars now

  -- `clock` is what the system clock shows.
  unfoldable pub flush_all : CandleBuilder D → ℕ → ℕ → CandleBuilder D
  flush_all b ts_ns clock =
      let flushed = flush_each b b.open_bars (if ts_ns == 0 then clock else ts_ns) in
      record flushed { open_bars = [] }
