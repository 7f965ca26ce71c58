-- ===== src/Strategy/Plugin.antt =====
-- cpp/strategy/plugins/momentum_strategy.cpp as the plugin of a thread of
-- cpp/strategy/strategy_manager.cpp: what is sent after a halt. on_candle, which has no definition in
-- the source, is an argument, as are the times that the handlers read.
use quantforge_engine.Prelude.{
  ℕ, suc, ◌≡◌, refl, sym, ap, ◌∙◌, Bool, true, false, not, List, [], ◌∷◌, Option, if_true, if_false,
  arith, Bool-cases, inl, inr,
}
use quantforge_engine.Prelude.Text.{Text}
use quantforge_engine.Doubles.{Double}
use quantforge_engine.Types.{NormalizedTick, Candle, OrderRequest}
use quantforge_engine.MarketData.Disruptor.{TickDisruptor, try_consume_tick}
use quantforge_engine.Strategy.Manager.{IStrategy}
use quantforge_engine.Strategy.Threads.{
  StrategyThread, consumed, strategy_round, strategy_loop, after_loop, stopping, stop_strategy,
}
use quantforge_engine.Strategy.Params
use quantforge_engine.Strategy.Momentum.{
  InstrumentState, Momentum, on_start_momentum, on_tick_momentum, on_order_fill, on_kill_signal,
  eod_flatten_all,
}
use quantforge_engine.Strategy.Exits.{open_count, closing, on_kill_signal_lem}

pub record Times (D : Type 0) : Type 0 where
  pub tick_time : NormalizedTick D → ℕ
  pub kill_time : ℕ
  pub stop_time : ℕ

module _ {D : Type 0} ⦃d : Double D⦄ where
  -- The parameters of the configuration, the times, and on_candle.
  abbrev pub momentum_plugin :
      Option (List (Text × D))
      → Times D
      → (Momentum D → Candle D → Momentum D)
      → IStrategy D (Momentum D)
  momentum_plugin config times on_candle = record {
    on_start = λ m. (on_start_momentum m config, false);
    on_stop = λ m. on_kill_signal m times.stop_time;
    on_tick = λ m tick. on_tick_momentum m tick (times.tick_time tick);
    on_candle = on_candle;
    on_order_fill = on_order_fill;
    on_kill_signal = λ m. on_kill_signal m times.kill_time;
    update_params = λ m params. record m { params = Params.update_params m.params params };
  }

  -- A halted strategy: what `halt_strategy` makes of the one that it finds.
  abbrev pub halted :
      IStrategy D (Momentum D) → StrategyThread D (Momentum D) → StrategyThread D (Momentum D)
  halted plugin t = record t {
    strategy = record (t.strategy) {
      instance_state = plugin.on_kill_signal t.strategy.instance_state;
      running = false;
    };
  }

  closing_none :
      (id : Text) (now : ℕ) (ss : List (ℕ × InstrumentState D)) (orders : List (OrderRequest D))
      → open_count ss ≡ 0
      → closing id now ss orders ≡ orders
  closing_none id now [] orders none_open = refl
  closing_none id now ((token, s) ∷ ss) orders none_open = elim (Bool-cases s.in_position) [
    | inl held ↦ absurd (grind (arith, if_true (suc (open_count ss)) (open_count ss) held))
    | inr idle ↦
        if_false _ (closing id now ss orders) idle
        ∙ closing_none id now ss orders
            (sym (if_false (suc (open_count ss)) (open_count ss) idle) ∙ none_open)
  ]

module _ {D : Type 0} ⦃d : Double D⦄ (config : Option (List (Text × D))) (times : Times D)
    (on_candle : Momentum D → Candle D → Momentum D) where
  consumed-dead :
      (t : StrategyThread D (Momentum D)) (r : ℕ × NormalizedTick D × Bool)
      → t.strategy.instance_state.alive ≡ false
      → (consumed (momentum_plugin config times on_candle) t r).strategy.instance_state
        ≡ t.strategy.instance_state
  unfolding on_tick_momentum
  consumed-dead t (next, tick, true) dead = if_true t.strategy.instance_state _ (ap not dead)
  consumed-dead t (next, tick, false) dead = refl

  strategy_loop-dead :
      (rings : List (TickDisruptor D)) (t : StrategyThread D (Momentum D))
      → t.strategy.instance_state.alive ≡ false
      → (strategy_loop (momentum_plugin config times on_candle) rings t).strategy.instance_state
        ≡ t.strategy.instance_state
  unfolding strategy_loop strategy_round
  strategy_loop-dead [] t dead = refl
  strategy_loop-dead (ring ∷ rings) t dead =
      let plugin = momentum_plugin config times on_candle in
      let same = consumed-dead t (try_consume_tick ring t.strategy.disruptor_seq t.tick) dead in
      strategy_loop-dead rings (strategy_round plugin ring t)
        (ap (λ (m : Momentum D). m.alive) same ∙ dead)
      ∙ same

  -- A thread whose strategy got a kill signal or was stopped at `now`.
  dead_run :
      (rings : List (TickDisruptor D)) (t : StrategyThread D (Momentum D)) (m : Momentum D)
      (now : ℕ)
      → t.strategy.instance_state ≡ on_kill_signal m now
      → let plugin = momentum_plugin config times on_candle in
        let end = (after_loop plugin (strategy_loop plugin rings t)).strategy.instance_state in
        (end.orders ≡ closing m.id now m.states m.orders) × (open_count end.states ≡ 0)
  unfolding after_loop
  dead_run rings t m now at =
      let killed = on_kill_signal m now in
      let first = on_kill_signal_lem m t.tick now 0 in
      let dead : killed.alive ≡ false = unfold on_kill_signal eod_flatten_all in refl in
      let same = strategy_loop-dead rings t (ap (λ (x : Momentum D). x.alive) at ∙ dead) in
      let last = on_kill_signal_lem killed t.tick times.stop_time 0 in
      let stopped = ap (λ (x : Momentum D). on_kill_signal x times.stop_time) (same ∙ at) in
      (
        ap (λ (x : Momentum D). x.orders) stopped
            ∙ last.1
            ∙ closing_none killed.id times.stop_time killed.states killed.orders first.0
            ∙ first.1,
        ap (λ (x : Momentum D). open_count x.states) stopped ∙ last.0,
      )

  -- A momentum strategy that is halted sends one closing order for every position that is open then,
  -- and nothing more, whatever rounds its thread still does and whatever ticks they find, and also not
  -- when the thread ends; no position is open at the end. The same holds when `stop_all` stops it,
  -- although `on_stop` then runs twice.
  pub halted_run :
      (rings : List (TickDisruptor D)) (t : StrategyThread D (Momentum D))
      → let plugin = momentum_plugin config times on_candle in
        let m = t.strategy.instance_state in
        let end =
          (after_loop plugin
            (strategy_loop plugin rings (halted plugin t))).strategy.instance_state in
        let stopped = (stop_strategy plugin rings t).strategy.instance_state in
        ((end.orders ≡ closing m.id times.kill_time m.states m.orders)
          × (open_count end.states ≡ 0))
        × ((stopped.orders ≡ closing m.id times.stop_time m.states m.orders)
            × (open_count stopped.states ≡ 0))
  unfolding stop_strategy
  halted_run rings t =
      let plugin = momentum_plugin config times on_candle in
      let m = t.strategy.instance_state in
      (
        dead_run rings (halted plugin t) m times.kill_time refl,
        dead_run rings (stopping plugin t) m times.stop_time refl,
      )
