-- ===== src/Main/Wiring.antt =====
-- cpp/main/main.cpp: the callbacks by which run_engine joins the components to the risk gate, Kafka
-- and Redis, and the instruments that it subscribes. Each callback runs on the thread of the
-- component that calls it; the calls are given one after the other.
pub mod History
use quantforge_engine.Prelude.{ℕ, Bool, Option, none, some, List, [], ◌∷◌, ◌++◌, map, ◌>>=◌}
use quantforge_engine.Prelude.Text.{Text, decimal}
use quantforge_engine.Doubles.{Double}
use quantforge_engine.Types.{NormalizedTick, Fill, Position, PortfolioSnapshot, StrategyConfig}
use quantforge_engine.Risk.Gate.{RiskEngine}
use quantforge_engine.Risk.Gate
use quantforge_engine.Transport.Kafka.{
  KafkaPublisher, publish_tick, publish_fill, publish_portfolio,
}
use quantforge_engine.Transport.Redis.{
  RedisClient, Printf, redis_flush, publish_position, redis_publish_tick,
}

-- What the callbacks write to.
pub record Sinks (D : Type 0) : Type 0 where
  pub risk : RiskEngine D
  pub kafka : KafkaPublisher
  pub redis : RedisClient D

-- How a double is stored and printed.
pub record Formats (D : Type 0) : Type 0 where
  pub bits : D → ℕ
  pub show : D → Text
  pub printf : Printf D

-- What hiredis answers to a flush.
pub record FlushAnswers : Type 0 where
  pub replies : List Bool
  pub err : Bool
  pub up : Bool

-- A call of a callback, and whether librdkafka takes the message: the OMS made a fill, the normalizer passed a tick on, the portfolio changed.
pub data Call (D : Type 0) : Type 0 where
  filled : Fill D → Bool → Call D
  ticked : NormalizedTick D → Bool → Call D
  updated : PortfolioSnapshot D → Bool → FlushAnswers → Call D

module _ {D : Type 0} ⦃d : Double D⦄ (f : Formats D) where
  unfoldable pub on_oms_fill : Sinks D → Fill D → Bool → Sinks D
  on_oms_fill s fill accepted = record s {
    risk = Gate.update_price s.risk fill.instrument_token fill.price;
    kafka = publish_fill f.bits s.kafka fill accepted;
  }

  unfoldable pub on_normalized : Sinks D → NormalizedTick D → Bool → Sinks D
  on_normalized s t accepted = record s {
    risk = Gate.update_price s.risk t.instrument_token t.ltp;
    kafka = publish_tick f.bits s.kafka t accepted;
    redis = redis_publish_tick f.printf s.redis t;
  }

  -- The loop over the positions.
  unfoldable pub publish_positions : RedisClient D → List (ℕ × Position D) → RedisClient D
  publish_positions r [] = r
  publish_positions r ((token, p) ∷ ps) =
      publish_positions (publish_position f.printf r p.strategy_id p) ps

  -- `none` while the flush waits.
  unfoldable pub on_portfolio_update :
      Sinks D → PortfolioSnapshot D → Bool → FlushAnswers → Option (Sinks D)
  on_portfolio_update s snap accepted a = do
    redis ← redis_flush (publish_positions s.redis snap.positions) a.replies a.err a.up
    some (record s { kafka = publish_portfolio f.show s.kafka snap accepted; redis = redis })

  unfoldable pub run_call : Sinks D → Call D → Option (Sinks D)
  unfolding on_oms_fill on_normalized on_portfolio_update
  run_call s (filled fill accepted) = some (on_oms_fill s fill accepted)
  run_call s (ticked t accepted) = some (on_normalized s t accepted)
  run_call s (updated snap accepted a) = on_portfolio_update s snap accepted a

  unfoldable pub run_calls : Sinks D → List (Call D) → Option (Sinks D)
  unfolding run_call
  run_calls s [] = some s
  run_calls s (c ∷ cs) = do s' ← run_call s c; run_calls s' cs

-- The keys of the subscription, from the configured strategies.
unfoldable pub instrument_keys : {D : Type 0} → List (StrategyConfig D) → List Text
instrument_keys [] = []
instrument_keys (c ∷ cs) = map decimal c.instruments ++ instrument_keys cs
