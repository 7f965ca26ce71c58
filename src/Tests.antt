-- ===== src/Tests.antt =====
-- Runs of the modelled code on concrete data, and the theorems applied to it. The numbers with a
-- fraction are those of Doubles/Fixed: 100.5 is written 100_500.
mod Orders
mod Limits
mod Positions
mod Ticks
mod Memory
mod Strategies
mod Feed
mod Config
mod Broker
mod Wire
mod Engine
use quantforge_engine.Prelude.{
  ℕ, Bool, true, false, List, [], ◌∷◌, ◌+◌, ◌<◌, ◌≡◌, suc, refl, arith, ltb, leb,
}
use quantforge_engine.Prelude.Int.{ℤ, pos, negsuc}
use quantforge_engine.Prelude.Text.{Text, codes}
use quantforge_engine.Doubles.Fixed.{Fixed, fixed_double}
use quantforge_engine.Types.{
  Side, OrderType, OrderProduct, OrderValidity, OrderStatus, OrderRequest, Order, Fill, blank_order,
  blank_fill, Position, PortfolioSnapshot, blank_position, StrategyConfig,
}

-- A limit order for 10 at 100.
abbrev pub buy_ten : OrderRequest Fixed
buy_ten = record {
  instrument_token = 7;
  side = Side.buy;
  order_type = OrderType.limit;
  product = OrderProduct.intraday;
  validity = OrderValidity.day;
  quantity = pos 10;
  limit_price = pos 100_000;
  trigger_price = pos 0;
  stop_loss_price = pos 0;
  take_profit_price = pos 0;
  signal_strength = pos 0;
  is_amo = false;
  slice = false;
  market_protection = negsuc 0;
  strategy_id = codes "mom";
  tag = [];
  request_ts_ns = 0;
}

abbrev pub strategy : StrategyConfig Fixed
strategy = record {
  id = codes "mom";
  name = codes "momentum";
  plugin_path = [];
  instruments = 7 ∷ [];
  allocated_core = pos 0;
  risk = record {
    max_single_order_value = pos 5_000_000;
    max_position_value = pos 5_000_000;
    max_capital_allocation = pos 50_000_000;
    max_daily_loss = pos 1_000_000;
    max_net_delta = pos 1_000_000;
    max_net_vega = pos 1_000_000;
    max_orders_per_second = pos 2;
  };
  params = [];
}

-- Ten bought at 90.
abbrev pub long_ten : Position Fixed
long_ten = record (blank_position) {
  instrument_token = 7;
  strategy_id = codes "mom";
  quantity = pos 10;
  avg_price = pos 90_000;
  unrealized_pnl = pos 50_000;
}

abbrev pub holdings : PortfolioSnapshot Fixed
holdings = record {
  positions = (7, long_ten) ∷ [];
  total_realized_pnl = pos 0;
  total_unrealized_pnl = pos 50_000;
  available_capital = pos 100_000_000;
  used_margin = pos 0;
  snapshot_ts_ns = 0;
}

abbrev pub fill_at : ℕ → Side → ℕ → ℕ → Fill Fixed
fill_at token side quantity price =
    let f : Fill Fixed = blank_fill in
    record f {
      instrument_token = token;
      strategy_id = codes "mom";
      side = side;
      quantity = pos quantity;
      price = pos price;
    }
