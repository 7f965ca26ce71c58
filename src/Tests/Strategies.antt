-- ===== src/Tests/Strategies.antt =====
-- Runs of cpp/strategy.
use quantforge_engine.Prelude.{
  ℕ, zero, suc, ◌*◌, List, Option, arith, nat_eq, ◌+◌, ◌≡◌, ◌⊎◌, refl, true, false, [], ◌∷◌, none,
  some, length, lookup,
}
use quantforge_engine.Prelude.Int.{pos}
use quantforge_engine.Prelude.Text.{Text, codes, text_eq}
use quantforge_engine.Doubles.{fmax}
use quantforge_engine.Doubles.Fixed.{Fixed, fixed_double}
use quantforge_engine.Types.{Side, NormalizedTick, blank_tick}
use quantforge_engine.Oms.Requests.{oms_init, submit}
use quantforge_engine.Risk.Gate.{
  risk_init, engage_global_kill_switch, is_strategy_halted, current_price,
}
use quantforge_engine.Risk.Decisions.{WithinLimits, Granted}
use quantforge_engine.Strategy.Manager.{LoadedStrategy, Services, Clock, submit_order}
use quantforge_engine.Strategy.Routing.{submit_orders, submit_order_lem, submit_orders_killed}
use quantforge_engine.Strategy.Params.{MomentumParams, default_params}
use quantforge_engine.Strategy.Momentum.{
  InstrumentState, Momentum, blank_state, state_of, market_request, exit_tag, on_tick_momentum,
  on_order_fill, place_market, ema, ema_of, ema_from,
}
use quantforge_engine.Strategy.Exits.{Stays, ExitsAs, on_tick_lem, exit_reopens}
use quantforge_engine.Strategy.Signal.{
  evaluate_signal, try_entry, enter_at, enter, compute_qty, atr, atr_sum,
}
use quantforge_engine.Strategy.Dormant.{signalled, ticked, run_plugin, run_plugin-idle}
use quantforge_engine.Tests.{buy_ten, strategy, holdings, fill_at}

abbrev services : Services Fixed
services = record {
  portfolio = record {
    snapshot = holdings;
    starting_capital = pos 100_000_000;
    has_update_cb = false;
    updates = [];
  };
  risk = risk_init;
  oms = oms_init 2 4 false true true;
}

abbrev clock : Clock
clock = record { market_open = true; limiter_ns = 1000; id_ms = 5; placed_ns = 6; fill_ns = 7 }

submit_order_lem_example :
    let (t, accepted) = submit_order services strategy buy_ten clock in
    ((false ≡ false)
      × (is_strategy_halted services.risk (codes "mom") ≡ false)
      × (true ≡ true)
      × Granted (lookup (codes "mom") services.risk.rate_limiters) 1000
      × WithinLimits buy_ten strategy holdings (current_price services.risk 7)
      × (t.oms ≡ (submit services.oms buy_ten 5 6 7).0)
      × (accepted ≡ (submit services.oms buy_ten 5 6 7).1))
    ⊎ ((t.oms ≡ services.oms) × (accepted ≡ false))
submit_order_lem_example = submit_order_lem services strategy buy_ten clock

submit_orders_killed_example :
    let killed = record services { risk = engage_global_kill_switch services.risk } in
    submit_orders killed ((strategy, buy_ten, clock) ∷ (strategy, buy_ten, clock) ∷ []) ≡ killed
submit_orders_killed_example =
    submit_orders_killed ((strategy, buy_ten, clock) ∷ (strategy, buy_ten, clock) ∷ []) services

abbrev pub loaded : Text → LoadedStrategy Fixed ℕ
loaded id = record {
  instance_state = 0;
  config = record strategy { id = id };
  running = true;
  disruptor_seq = 0;
}

-- Long ten at 100, with the stop at 95 and the target at 110.
abbrev long_state : InstrumentState Fixed
long_state = record (blank_state) {
  entry_price = pos 100_000;
  stop_price = pos 95_000;
  target_price = pos 110_000;
  in_position = true;
  position_qty = pos 10;
}

abbrev pub momentum : Momentum Fixed
momentum = record {
  id = codes "mom";
  params = default_params;
  states = (7, long_state) ∷ [];
  alive = true;
  orders = [];
}

abbrev drop_tick : NormalizedTick Fixed
drop_tick = record (blank_tick) { instrument_token = 7; ltp = pos 94_000 }

on_tick_lem_example :
    let t = on_tick_momentum momentum drop_tick 9 in
    (Stays long_state (pos 94_000)
      × (t.orders ≡ [])
      × (state_of t 7 ≡ record long_state { last_ltp = pos 94_000 }))
    ⊎ ((tag : Text) × ExitsAs long_state (pos 94_000) tag
        × (t.orders ≡ market_request (codes "mom") 7 Side.sell (pos 10) tag 9 ∷ [])
        × (state_of t 7 ≡ record long_state { last_ltp = pos 94_000; in_position = false }))
on_tick_lem_example = on_tick_lem momentum drop_tick 9 refl refl

exit_reopens_example :
    let t =
      state_of
        (on_order_fill (on_tick_momentum momentum drop_tick 9) (fill_at 7 Side.sell 10 94_000))
        7 in
    (t.in_position ≡ true) × (t.position_side ≡ Side.sell) × (t.position_qty ≡ pos 10)
exit_reopens_example =
    exit_reopens momentum drop_tick (fill_at 7 Side.sell 10 94_000) 9 (codes "stop-loss") refl refl
      (unfold exit_tag fixed_double in refl) refl

abbrev closes_from : ℕ → ℕ → List Fixed
closes_from zero x = []
closes_from (suc n) x = pos (x * 1000) ∷ closes_from n (x + 1)

abbrev get_or_self : Option (Momentum Fixed) → Momentum Fixed
get_or_self none = momentum
get_or_self (some m) = m

-- Averages over 2 and 3 closes, and a range over 2.
abbrev short_params : MomentumParams Fixed
short_params = record (default_params) { ema_fast = pos 2; ema_slow = pos 3; atr_period = pos 2 }

-- Rising closes, enough for both averages.
abbrev rising : InstrumentState Fixed
rising = record (blank_state) {
  closes = record { max_len = 200; data_points = closes_from 8 100 };
  last_ltp = pos 108_000;
}

abbrev watching : Momentum Fixed
watching = record momentum { params = short_params; states = (7, rising) ∷ [] }

run_plugin-idle_example :
    let calls =
      signalled 7 400_000_000_000 (pos 100_000_000) (pos 130_000) ∷ ticked drop_tick 9 ∷ [] in
    (m' : Momentum Fixed) × (run_plugin watching calls ≡ some m') × (m'.orders ≡ [])
unfolding fixed_double
run_plugin-idle_example =
    run_plugin-idle
      (signalled 7 400_000_000_000 (pos 100_000_000) (pos 130_000) ∷ ticked drop_tick 9 ∷ [])
      watching refl (omega arith) ((refl, refl), tt)

-- The same with highs and lows, as many as closes.
abbrev entering : Momentum Fixed
entering = record momentum {
  params = short_params;
  states = (7, record rising { highs = closes_from 8 101; lows = closes_from 8 99 }) ∷ [];
}

abbrev entered : Momentum Fixed
entered = get_or_self (evaluate_signal entering 7 400_000_000_000 (pos 100_000_000) (pos 130_000))

-- An entry is sent.
entered_once :
    (evaluate_signal entering 7 400_000_000_000 (pos 100_000_000) (pos 130_000) ≡ some entered)
    × (length entered.orders ≡ 1 + 0)
unfolding evaluate_signal try_entry enter_at enter place_market compute_qty atr atr_sum ema ema_of
    ema_from fixed_double fmax
entered_once = (refl, refl)
