-- ===== src/Tests/Ticks.antt =====
-- Runs of cpp/market_data and of cpp/common/disruptor.hpp.
use quantforge_engine.Prelude.{
  ℕ, ◌+◌, ◌-◌, ◌%◌, ◌^◌, ◌≤◌, ◌<◌, ◌≡◌, ◌⊎◌, refl, true, false, ◌&&◌, List, [], ◌∷◌, ◌++◌, some,
  arith, length, get_or, lookup, All, if◌then◌else◌,
}
use quantforge_engine.Doubles.{of_ℕ}
use quantforge_engine.Doubles.Fixed.{Fixed, fixed_double, Fixed-IsOrdered}
use quantforge_engine.Prelude.Int.{pos}
use quantforge_engine.Types.{NormalizedTick, blank_tick, Candle}
use quantforge_engine.MarketData.Disruptor.{disruptor_init, try_consume_tick}
use quantforge_engine.MarketData.FanOut.{push_all, try_consume_tick_lem}
use quantforge_engine.MarketData.Candles.{
  CandleBuilder, key_eq, candles_init, calls_of, candle_of, interval_ns, new_bar,
}
use quantforge_engine.MarketData.Shapes.{
  Event, registers, ticks, flushes, run, IsShaped, run-IsShaped,
}
use quantforge_engine.MarketData.Bars.{key_of, bar_at, update_all, summed, update_all_lem}
use quantforge_engine.MarketData.Normalizer.{TickNormalizer}
use quantforge_engine.MarketData.Dropped.{passing, normalize_all, build_all, normalize_all_lem}

abbrev tick_at : ℕ → ℕ → NormalizedTick Fixed
tick_at price ts =
    let t : NormalizedTick Fixed = blank_tick in
    record t {
      instrument_token = 7;
      ltp = pos price;
      open_price = pos 100_000;
      volume = price;
      exchange_ts_ns = ts;
    }

-- Two in the first minute, one at its end, one in the second minute, and one far off.
abbrev morning : List (NormalizedTick Fixed)
morning =
    tick_at 100_000 1
    ∷ tick_at 103_000 2
    ∷ tick_at 99_000 59_000_000_000
    ∷ tick_at 101_000 60_000_000_000
    ∷ tick_at 900_000 61_000_000_000
    ∷ []

abbrev first_tick : NormalizedTick Fixed
first_tick = tick_at 100_000 1

abbrev same_minute : List (NormalizedTick Fixed)
same_minute = tick_at 103_000 2 ∷ tick_at 99_000 59_000_000_000 ∷ []

-- Five ticks through a ring of four: the first is overwritten.
try_consume_tick_lem_example :
    let answer = try_consume_tick (push_all (disruptor_init 4) morning) 0 first_tick in
    ((5 ≤ 0) × (answer ≡ (0, first_tick, false)))
    ⊎ ((0 < 5) × (5 ≤ 0 + 4) × (answer ≡ (1, get_or morning 0 blank_tick, true)))
    ⊎ ((j : ℕ) × (0 < j)
        × (j < 5)
        × (5 ≤ j + 4)
        × (j % 4 ≡ 0 % 4)
        × (answer ≡ (1, get_or morning j blank_tick, true)))
try_consume_tick_lem_example = try_consume_tick_lem 4 morning 0 first_tick (omega arith)

abbrev day : List (Event Fixed)
day =
    registers
    ∷ ticks first_tick
    ∷ ticks (tick_at 103_000 2)
    ∷ ticks (tick_at 101_000 60_000_000_000)
    ∷ flushes 70_000_000_000 0
    ∷ []

run-IsShaped_example :
    All (λ (call : ℕ × Candle Fixed). IsShaped call.1) (run candles_init day).calls
run-IsShaped_example = run-IsShaped Fixed-IsOrdered day (
  tt,
  (
    unfold fixed_double in refl,
    (unfold fixed_double in refl, (unfold fixed_double in refl, (tt, tt))),
  ),
)

abbrev builder : CandleBuilder Fixed
builder = record (candles_init) { callbacks = 1 }

update_all_lem_example :
    let old = bar_at builder (key_of first_tick 60) in
    let end = update_all builder (first_tick ∷ same_minute) 60 in
    (lookup (key_of first_tick 60) end.open_bars
      ≡ some (summed (new_bar first_tick 60) same_minute))
    × (end.calls ≡ (
        if old.initialized && fixed_double.lt (of_ℕ 0) old.open_price
        then calls_of 1 (candle_of old ((old.bar_start_ns + interval_ns 60 - 1) % 2 ^ 64)) ++ []
        else []))
update_all_lem_example =
    update_all_lem builder first_tick same_minute 60 refl ((refl, refl), ((refl, refl), tt))

abbrev normalizer : TickNormalizer Fixed
normalizer = record {
  disruptor = disruptor_init 4;
  candle_builder = builder;
  has_kafka = true;
  published = [];
  ticks_processed = 0;
  stale_dropped = 0;
  sanity_rejected = 0;
}

normalize_all_lem_example :
    let r = normalize_all normalizer morning in
    (r.disruptor ≡ push_all (disruptor_init 4) (passing morning))
    × (r.candle_builder ≡ build_all builder (passing morning))
    × (r.ticks_processed ≡ 0 + length (passing morning))
    × (r.ticks_processed + r.stale_dropped + r.sanity_rejected ≡ 5)
normalize_all_lem_example =
    normalize_all_lem Fixed-IsOrdered morning normalizer (unfold fixed_double in refl) (omega arith)
