-- ===== src/Strategy/Threads.antt =====
-- cpp/strategy/strategy_manager.cpp: the loading of strategies and run_strategy_thread. What the
-- dynamic linker answers is an argument; the two other threads that a strategy's thread meets are the
-- producer of the ring and the one that clears `running`. A cursor is kept as in MarketData/Disruptor.
use quantforge_engine.Prelude.{
  ℕ, Bool, true, false, Option, none, some, List, [], ◌∷◌, ◌++◌, if◌then◌else◌, insert, nat_eq,
}
use quantforge_engine.Doubles.{Double}
use quantforge_engine.Types.{NormalizedTick, StrategyConfig, EngineConfig}
use quantforge_engine.MarketData.Disruptor.{TickDisruptor, try_consume_tick}
use quantforge_engine.Strategy.Manager.{IStrategy, LoadedStrategy}

-- What dlopen, dlsym and the plugin's create_strategy give: `none` for a null pointer.
pub record Library (S : Type 0) : Type 0 where
  pub opened : Bool
  pub has_symbol : Bool
  pub created : Option S

-- A strategy's thread: the strategy, the cache that all strategies share, and the local `tick`.
pub record StrategyThread (D S : Type 0) : Type 0 where
  pub strategy : LoadedStrategy D S
  pub last_tick_cache : List (ℕ × NormalizedTick D)
  pub tick : NormalizedTick D

module _ {D S : Type 0} where
  abbrev pub created_strategy : StrategyConfig D → Option S → Option (LoadedStrategy D S)
  created_strategy cfg none = none
  created_strategy cfg (some instance_state) =
      some (record {
        instance_state = instance_state;
        config = cfg;
        running = true;
        disruptor_seq = 0;
      })

  -- `none` where it throws.
  unfoldable pub load_strategy : StrategyConfig D → Library S → Option (LoadedStrategy D S)
  load_strategy cfg lib =
      if lib.opened
      then (if lib.has_symbol then created_strategy cfg lib.created else none)
      else none

  abbrev pub push_loaded :
      List (LoadedStrategy D S) → Option (LoadedStrategy D S) → List (LoadedStrategy D S)
  push_loaded strategies none = strategies
  push_loaded strategies (some s) = strategies ++ (s ∷ [])

  -- The loop over the configured strategies, from those that are loaded already.
  unfoldable pub start_each :
      (StrategyConfig D → Library S)
      → List (StrategyConfig D)
      → List (LoadedStrategy D S)
      → List (LoadedStrategy D S)
  unfolding load_strategy
  start_each linker [] strategies = strategies
  start_each linker (cfg ∷ cfgs) strategies =
      start_each linker cfgs (push_loaded strategies (load_strategy cfg (linker cfg)))

  unfoldable pub start_all :
      (StrategyConfig D → Library S) → EngineConfig D → List (LoadedStrategy D S)
  unfolding start_each
  start_all linker cfg = start_each linker cfg.strategies []

module _ {D S : Type 0} ⦃d : Double D⦄ (plugin : IStrategy D S) where
  -- A round of the loop, at the answer of `try_consume`.
  abbrev pub consumed : StrategyThread D S → ℕ × NormalizedTick D × Bool → StrategyThread D S
  consumed t (next, tick, got) =
      let moved = record (t.strategy) { disruptor_seq = next } in
      if got
      then record {
        strategy = record moved { instance_state = plugin.on_tick moved.instance_state tick };
        last_tick_cache = insert tick.instrument_token tick t.last_tick_cache;
        tick = tick;
      }
      else record t { strategy = moved; tick = tick }

  unfoldable pub strategy_round : TickDisruptor D → StrategyThread D S → StrategyThread D S
  unfolding try_consume_tick
  strategy_round ring t = consumed t (try_consume_tick ring t.strategy.disruptor_seq t.tick)

  -- The loop, for the rounds after which `running` is found cleared, over the ring as each round
  -- finds it; and `on_stop`.
  unfoldable pub strategy_loop : List (TickDisruptor D) → StrategyThread D S → StrategyThread D S
  unfolding strategy_round
  strategy_loop [] t = t
  strategy_loop (ring ∷ rings) t = strategy_loop rings (strategy_round ring t)

  unfoldable pub after_loop : StrategyThread D S → StrategyThread D S
  after_loop t = record t {
    strategy = record (t.strategy) {
      instance_state = plugin.on_stop t.strategy.instance_state;
      running = false;
    };
  }

  abbrev pub started : StrategyThread D S → S → StrategyThread D S
  started t instance_state = record t {
    strategy = record (t.strategy) { instance_state = instance_state };
  }

  abbrev pub failed_start : StrategyThread D S → S → StrategyThread D S
  failed_start t instance_state = record t {
    strategy = record (t.strategy) { instance_state = instance_state; running = false };
  }

  unfoldable pub run_strategy_thread :
      List (TickDisruptor D) → StrategyThread D S → StrategyThread D S
  unfolding strategy_loop after_loop
  run_strategy_thread rings t =
      let (instance_state, threw) = plugin.on_start t.strategy.instance_state in
      if threw
      then failed_start t instance_state
      else after_loop (strategy_loop rings (started t instance_state))

  -- A strategy in the loop of `stop_all`: `on_stop`, the flag, and what its thread, which `on_start`
  -- let go on, does until it is joined.
  abbrev pub stopping : StrategyThread D S → StrategyThread D S
  stopping t = record t {
    strategy = record (t.strategy) {
      instance_state = plugin.on_stop t.strategy.instance_state;
      running = false;
    };
  }

  unfoldable pub stop_strategy : List (TickDisruptor D) → StrategyThread D S → StrategyThread D S
  unfolding strategy_loop after_loop
  stop_strategy rings t = after_loop (strategy_loop rings (stopping t))

  -- The threads as they are when they are destroyed, for the rounds that each still does, and the
  -- list of the strategies that is left.
  unfoldable pub stop_all :
      List (List (TickDisruptor D) × StrategyThread D S)
      → List (StrategyThread D S) × List (LoadedStrategy D S)
  unfolding stop_strategy
  stop_all [] = ([], [])
  stop_all ((rings, t) ∷ ts) = (stop_strategy rings t ∷ (stop_all ts).0, [])
