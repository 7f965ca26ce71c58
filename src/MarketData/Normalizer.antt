-- ===== src/MarketData/Normalizer.antt =====
-- cpp/market_data/tick_normalizer.cpp and .hpp: TickNormalizer. The calls of the Kafka function are
-- recorded, newest first.
use quantforge_engine.Prelude.{ℕ, ◌+◌, ◌%◌, ◌^◌, Bool, true, false, List, ◌∷◌, if◌then◌else◌}
use quantforge_engine.Doubles.{Double, of_ℕ}
use quantforge_engine.Types.{NormalizedTick, blank_tick}
use quantforge_engine.Spsc.{Spsc, spsc_try_pop}
use quantforge_engine.MarketData.Disruptor.{TickDisruptor, push}
use quantforge_engine.MarketData.Candles.{CandleBuilder, on_tick}

pub record TickNormalizer (D : Type 0) : Type 0 where
  pub disruptor : TickDisruptor D
  pub candle_builder : CandleBuilder D
  pub has_kafka : Bool
  pub published : List (NormalizedTick D)
  pub ticks_processed : ℕ
  pub stale_dropped : ℕ
  pub sanity_rejected : ℕ

module _ {D : Type 0} ⦃d : Double D⦄ where
  -- How far the last price is from the opening price.
  abbrev pub deviation : NormalizedTick D → D
  deviation t = d.div (d.abs (d.sub t.ltp t.open_price)) t.open_price

  abbrev pub count_stale : TickNormalizer D → TickNormalizer D
  count_stale n = record n { stale_dropped = (n.stale_dropped + 1) % 2 ^ 64 }

  abbrev pub count_rejected : TickNormalizer D → TickNormalizer D
  count_rejected n = record n { sanity_rejected = (n.sanity_rejected + 1) % 2 ^ 64 }

  -- The counters are `mutable`, so they come back beside the answer.
  unfoldable pub validate : TickNormalizer D → NormalizedTick D → TickNormalizer D × Bool
  validate n t =
      if t.is_stale
      then (count_stale n, false)
      else if d.le t.ltp (of_ℕ 0)
      then (count_rejected n, false)
      else if d.lt (of_ℕ 0) t.open_price
      then (if d.lt (d.decimal 20 2) (deviation t)
          then (if d.lt (d.decimal 5 1) (deviation t) then (count_rejected n, false) else (n, true))
          else (n, true))
      else (n, true)

  -- The three ways that a valid tick goes, and the counter.
  unfoldable pub forward : TickNormalizer D → NormalizedTick D → TickNormalizer D
  forward n t = record n {
    disruptor = push n.disruptor t;
    candle_builder = on_tick n.candle_builder t;
    published = if n.has_kafka then t ∷ n.published else n.published;
    ticks_processed = (n.ticks_processed + 1) % 2 ^ 64;
  }

  unfoldable pub normalize : TickNormalizer D → NormalizedTick D → TickNormalizer D
  unfolding validate forward
  normalize n t = let (n', good) = validate n t in if good then forward n' t else n'

  abbrev pub round_of :
      TickNormalizer D
      → Spsc (NormalizedTick D) × NormalizedTick D × Bool
      → TickNormalizer D × Spsc (NormalizedTick D)
  round_of n (q, tick, got) = if got then (normalize n tick, q) else (n, q)

  -- One round of `run`.
  unfoldable pub run_round :
      TickNormalizer D → Spsc (NormalizedTick D) → TickNormalizer D × Spsc (NormalizedTick D)
  run_round n q = round_of n (spsc_try_pop blank_tick q blank_tick)
