-- ===== src/Strategy/Momentum.antt =====
-- cpp/strategy/plugins/momentum_strategy.cpp and .hpp: PriceSeries and the handlers of
-- MomentumStrategy that the engine calls. The orders handed to the context are recorded, newest first:
-- what the context answers is only logged. One reading of the clock stands for those of one call.
use quantforge_engine.Prelude.{
  ℕ, ◌-◌, Bool, true, false, not, Option, none, some, List, [], ◌∷◌, ◌++◌, length, drop, ltb, leb,
  if◌then◌else◌, lookup, insert, nat_eq,
}
use quantforge_engine.Prelude.Int.{ℤ, pos, negsuc}
use quantforge_engine.Prelude.Text.{Text, codes, strncpy, text_eq}
use quantforge_engine.Doubles.{Double, of_ℕ}
use quantforge_engine.Types.{
  Side, is_side, OrderType, OrderProduct, OrderValidity, OrderRequest, Fill, NormalizedTick,
}
use quantforge_engine.Strategy.Params.{MomentumParams}
use quantforge_engine.Strategy.Params

pub record PriceSeries (D : Type 0) : Type 0 where
  pub max_len : ℕ
  pub data_points : List D  -- data_, oldest first

-- open_order_id, which nothing reads, is left out.
pub record InstrumentState (D : Type 0) : Type 0 where
  pub closes : PriceSeries D
  pub highs : List D
  pub lows : List D
  pub last_ltp : D
  pub entry_price : D
  pub stop_price : D
  pub target_price : D
  pub in_position : Bool
  pub position_side : Side
  pub position_qty : ℤ
  pub last_signal_ts : ℕ

pub record Momentum (D : Type 0) : Type 0 where
  pub id : Text
  pub params : MomentumParams D
  pub states : List (ℕ × InstrumentState D)
  pub alive : Bool
  pub orders : List (OrderRequest D)

-- The other side.
abbrev pub close_side : Side → Side
close_side side = if is_side side Side.buy then Side.sell else Side.buy

module _ {D : Type 0} where
  unfoldable pub push_price : PriceSeries D → D → PriceSeries D
  push_price s price =
      let grown = s.data_points ++ (price ∷ []) in
      record s { data_points = if ltb s.max_len (length grown) then drop 1 grown else grown }

  abbrev pub is_ready : PriceSeries D → ℕ → Bool
  is_ready s n = leb n (length s.data_points)

module _ {D : Type 0} ⦃d : Double D⦄ where
  -- The loop of `ema`.
  unfoldable pub ema_from : D → D → List D → D
  ema_from k val [] = val
  ema_from k val (x ∷ xs) = ema_from k (d.add (d.mul x k) (d.mul val (d.sub (of_ℕ 1) k))) xs

  unfoldable pub ema_of : D → List D → D
  unfolding ema_from
  ema_of k [] = of_ℕ 0
  ema_of k (x ∷ xs) = ema_from k x xs

  -- For a period above 0. At 0, which a parameter can be, the source reads out of the range.
  unfoldable pub ema : PriceSeries D → ℕ → D
  unfolding ema_of
  ema s period =
      if ltb (length s.data_points) period
      then of_ℕ 0
      else ema_of (d.div (of_ℕ 2) (d.add (of_ℕ period) (of_ℕ 1)))
          (drop (length s.data_points - period) s.data_points)

  -- `InstrumentState{}`.
  abbrev pub blank_state : InstrumentState D
  blank_state = record {
    closes = record { max_len = 200; data_points = [] };
    highs = [];
    lows = [];
    last_ltp = of_ℕ 0;
    entry_price = of_ℕ 0;
    stop_price = of_ℕ 0;
    target_price = of_ℕ 0;
    in_position = false;
    position_side = Side.buy;
    position_qty = pos 0;
    last_signal_ts = 0;
  }

  abbrev pub state_or_blank : Option (InstrumentState D) → InstrumentState D
  state_or_blank none = blank_state
  state_or_blank (some s) = s

  -- `on_start`, with the parameters of the context's configuration, if there is one.
  abbrev pub started_params : MomentumParams D → Option (List (Text × D)) → MomentumParams D
  started_params p none = p
  started_params p (some config) = Params.update_params p config

  unfoldable pub on_start_momentum : Momentum D → Option (List (Text × D)) → Momentum D
  on_start_momentum m config = record m { params = started_params m.params config; alive = true }

  -- `states_[token]`.
  abbrev pub state_of : Momentum D → ℕ → InstrumentState D
  state_of m token = state_or_blank (lookup token m.states)

  -- The request of `place_market`.
  abbrev pub market_request : Text → ℕ → Side → ℤ → Text → ℕ → OrderRequest D
  market_request id token side qty tag now = record {
    instrument_token = token;
    side = side;
    order_type = OrderType.market;
    product = OrderProduct.intraday;
    validity = OrderValidity.day;
    quantity = qty;
    limit_price = of_ℕ 0;
    trigger_price = of_ℕ 0;
    stop_loss_price = of_ℕ 0;
    take_profit_price = of_ℕ 0;
    signal_strength = of_ℕ 1;
    is_amo = false;
    slice = true;
    market_protection = negsuc 0;
    strategy_id = strncpy id 31;
    tag = strncpy tag 31;
    request_ts_ns = now;
  }

  unfoldable pub place_market : Momentum D → ℕ → Side → ℤ → Text → ℕ → Momentum D
  place_market m token side qty tag now = record m {
    orders = market_request m.id token side qty tag now ∷ m.orders;
  }

  -- Where the price is beyond the target the tag says so, whatever the stop says.
  unfoldable pub exit_tag : InstrumentState D → D → Option Text
  exit_tag s price =
      if is_side s.position_side Side.buy
      then (if d.le s.target_price price
          then some (codes "take-profit")
          else if d.le price s.stop_price
          then some (codes "stop-loss")
          else none)
      else (if d.le price s.target_price
          then some (codes "take-profit")
          else if d.le s.stop_price price
          then some (codes "stop-loss")
          else none)

  unfoldable pub exit_with : Momentum D → ℕ → InstrumentState D → ℕ → Option Text → Momentum D
  unfolding place_market
  exit_with m token s now none = m
  exit_with m token s now (some tag) =
      let placed = place_market m token (close_side s.position_side) s.position_qty tag now in
      record placed { states = insert token (record s { in_position = false }) placed.states }

  unfoldable pub manage_position : Momentum D → ℕ → D → ℕ → Momentum D
  unfolding exit_with exit_tag
  manage_position m token price now =
      let s = state_of m token in
      if not s.in_position then m else exit_with m token s now (exit_tag s price)

  -- The tick's price is kept, in a new state for a new instrument.
  abbrev pub with_ltp : Momentum D → NormalizedTick D → Momentum D
  with_ltp m tick = record m {
    states =
        insert tick.instrument_token
          (record (state_of m tick.instrument_token) { last_ltp = tick.ltp }) m.states;
  }

  unfoldable pub on_tick_momentum : Momentum D → NormalizedTick D → ℕ → Momentum D
  on_tick_momentum m tick now =
      if not m.alive
      then m
      else if (state_of m tick.instrument_token).in_position
      then manage_position (with_ltp m tick) tick.instrument_token tick.ltp now
      else with_ltp m tick

  -- The state after a fill of its instrument.
  unfoldable pub filled_state : InstrumentState D → Fill D → InstrumentState D
  filled_state s fill =
      if not s.in_position
      then record s {
        in_position = true;
        position_side = fill.side;
        position_qty = fill.quantity;
        entry_price = fill.price;
      }
      else record s { in_position = false; position_qty = pos 0 }

  unfoldable pub on_order_fill : Momentum D → Fill D → Momentum D
  unfolding filled_state
  on_order_fill m fill = record m {
    states =
        insert fill.instrument_token (filled_state (state_of m fill.instrument_token) fill)
          m.states;
  }

  -- The loop of `eod_flatten_all`: the states that are left, and the orders so far.
  unfoldable pub flatten_each :
      Text
      → ℕ
      → List (ℕ × InstrumentState D)
      → List (OrderRequest D)
      → List (ℕ × InstrumentState D) × List (OrderRequest D)
  flatten_each id now [] orders = ([], orders)
  flatten_each id now ((token, s) ∷ ss) orders =
      let placed =
        if s.in_position
        then market_request id token (close_side s.position_side) s.position_qty
            (codes "eod-flatten") now
          ∷ orders
        else orders in
      let (ss', orders') = flatten_each id now ss placed in
      ((token, if s.in_position then record s { in_position = false } else s) ∷ ss', orders')

  unfoldable pub eod_flatten_all : Momentum D → ℕ → Momentum D
  eod_flatten_all m now =
      let (states, orders) = flatten_each m.id now m.states m.orders in
      record m { states = states; orders = orders }

  -- `on_kill_signal`, and `on_stop`, which differs in its log line.
  unfoldable pub on_kill_signal : Momentum D → ℕ → Momentum D
  on_kill_signal m now = eod_flatten_all (record m { alive = false }) now
