-- ===== src/Tests/Engine.antt =====
-- Runs of cpp/main/main.cpp's callbacks, of cpp/transport/redis_client.cpp and of the threads of
-- cpp/strategy/strategy_manager.cpp.
use quantforge_engine.Prelude.{
  ℕ, ◌+◌, ◌≡◌, refl, true, false, none, some, List, [], ◌∷◌, map, take, arith,
}
use quantforge_engine.Prelude.Int.{pos}
use quantforge_engine.Prelude.Text.{codes, text_eq}
use quantforge_engine.Doubles.Fixed.{Fixed, fixed_double}
use quantforge_engine.Types.{Side, NormalizedTick, blank_tick}
use quantforge_engine.Risk.Gate.{risk_init, current_price}
use quantforge_engine.Transport.Kafka.{kafka_init, serialize_fill}
use quantforge_engine.Transport.Redis.{RedisClient, Context, Printf, parsed_or_default}
use quantforge_engine.Transport.Redis.Loss.{do_writes, kill_switch, flush, flush-lost}
use quantforge_engine.Main.Wiring.{Sinks, Formats, Call, filled, ticked, updated, run_calls}
use quantforge_engine.Main.Wiring.History.{
  last_price, fills_of, fill_payloads, pushed, run_calls-Kept,
}
use quantforge_engine.Strategy.Manager.{IStrategy}
use quantforge_engine.Strategy.Threads.{StrategyThread, strategy_loop}
use quantforge_engine.Strategy.Delivery.{
  cursor_after, handle_all, rings_of, strategy_loop-handle_all,
}
use quantforge_engine.Tests.{fill_at, strategy, holdings}
use quantforge_engine.Strategy.Exits.{open_count, closing}
use quantforge_engine.Strategy.Momentum.{Momentum}
use quantforge_engine.Strategy.Plugin.{Times, momentum_plugin, halted, halted_run}
use quantforge_engine.Strategy.Threads.{after_loop, stop_strategy}
use quantforge_engine.Tests.Strategies.{loaded, momentum}

abbrev printf : Printf Fixed
printf = record { show_int = λ i. codes "1"; show_double = λ x. codes "0.0000" }

abbrev context : Context Fixed
context = record { appended = []; has_password = false }

abbrev redis : RedisClient Fixed
redis = record (parsed_or_default none) { ctx = some context }

flush-lost_example :
    do_writes printf redis (flush (true ∷ false ∷ []) true false ∷ kill_switch true ∷ [])
    ≡ some (record redis { ctx = none })
flush-lost_example =
    flush-lost printf redis context (true ∷ false ∷ []) (kill_switch true ∷ []) refl refl

abbrev formats : Formats Fixed
formats = record { bits = λ x. 5; show = λ x. codes "0"; printf = printf }

abbrev sinks : Sinks Fixed
sinks = record { risk = risk_init; kafka = kafka_init true true true true true; redis = redis }

abbrev a_tick : NormalizedTick Fixed
a_tick = record (blank_tick) { instrument_token = 7; ltp = pos 94_000 }

abbrev calls : List (Call Fixed)
calls =
    filled (fill_at 7 Side.buy 10 100_000) true
    ∷ filled (fill_at 7 Side.sell 4 101_000) false
    ∷ ticked a_tick true
    ∷ updated holdings true (record { replies = true ∷ false ∷ []; err = true; up = true })
    ∷ []

run_calls-Kept_example :
    (s' : Sinks Fixed) × (run_calls formats sinks calls ≡ some s')
    × (current_price s'.risk 7 ≡ last_price 7 (current_price sinks.risk 7) calls)
    × (fill_payloads s'.kafka.produced
        ≡ pushed
            (map (serialize_fill formats.bits) (fills_of calls))
            (fill_payloads sinks.kafka.produced))
run_calls-Kept_example =
    run_calls-Kept formats calls sinks 7 (unfold kafka_init in refl) (unfold kafka_init in refl)
      (tt, (tt, (tt, (refl, tt))))

-- A strategy that adds up the instruments it hears of.
abbrev summing : IStrategy Fixed ℕ
summing = record {
  on_start = λ s. (s, false);
  on_stop = λ s. s;
  on_tick = λ s t. s + t.instrument_token;
  on_candle = λ s c. s;
  on_order_fill = λ s f. s;
  on_kill_signal = λ s. s;
  update_params = λ s ps. s;
}

abbrev strategy_thread : StrategyThread Fixed ℕ
strategy_thread = record {
  strategy = loaded (codes "sum");
  last_tick_cache = [];
  tick = blank_tick;
}

abbrev sent : List (NormalizedTick Fixed)
sent =
    a_tick
    ∷ record (a_tick) { instrument_token = 8 }
    ∷ record (a_tick) { instrument_token = 9 }
    ∷ []

strategy_loop-handle_all_example :
    let t' = strategy_loop summing (rings_of summing 2 sent (1 ∷ 1 ∷ 3 ∷ 3 ∷ [])) strategy_thread in
    (t'.strategy.disruptor_seq ≡ cursor_after 0 (1 ∷ 1 ∷ 3 ∷ 3 ∷ []))
    × (t'.strategy.instance_state
        ≡ handle_all summing 0 (take (cursor_after 0 (1 ∷ 1 ∷ 3 ∷ 3 ∷ [])) sent))
strategy_loop-handle_all_example =
    strategy_loop-handle_all summing 2 sent (1 ∷ 1 ∷ 3 ∷ 3 ∷ []) strategy_thread (omega arith)
      (omega arith, (omega arith, (omega arith, (omega arith, tt))))
      (omega arith, (omega arith, (omega arith, (omega arith, tt)))) refl

abbrev times : Times Fixed
times = record { tick_time = λ t. 8; kill_time = 9; stop_time = 10 }

-- The strategy with a long position, on its thread.
abbrev holding : StrategyThread Fixed (Momentum Fixed)
holding = record {
  strategy = record {
    instance_state = momentum;
    config = strategy;
    running = true;
    disruptor_seq = 0;
  };
  last_tick_cache = [];
  tick = blank_tick;
}

abbrev plugin : IStrategy Fixed (Momentum Fixed)
plugin = momentum_plugin none times (λ m c. m)

halted_run_example :
    let end =
      (after_loop plugin (
        strategy_loop plugin
          (rings_of plugin 2 sent (1 ∷ 3 ∷ []))
          (halted plugin holding))).strategy.instance_state in
    let stopped =
      (stop_strategy plugin
        (rings_of plugin 2 sent (1 ∷ 3 ∷ []))
        holding).strategy.instance_state in
    ((end.orders ≡ closing momentum.id 9 momentum.states []) × (open_count end.states ≡ 0))
    × ((stopped.orders ≡ closing momentum.id 10 momentum.states [])
        × (open_count stopped.states ≡ 0))
halted_run_example = halted_run none times (λ m c. m) (rings_of plugin 2 sent (1 ∷ 3 ∷ [])) holding
