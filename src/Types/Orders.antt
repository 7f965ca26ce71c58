-- ===== src/Types/Orders.antt =====
-- Requests, live orders and fills of cpp/common/types.hpp.
use quantforge_engine.Prelude.{ℕ, Bool, []}
use quantforge_engine.Prelude.Int.{ℤ, pos}
use quantforge_engine.Prelude.Text.{Text}
use quantforge_engine.Doubles.{Double, of_ℕ}
use quantforge_engine.Types.Enums.{Side, OrderType, OrderProduct, OrderValidity, OrderStatus}

pub record OrderRequest (D : Type 0) : Type 0 where
  pub instrument_token : ℕ
  pub side : Side
  pub order_type : OrderType
  pub product : OrderProduct
  pub validity : OrderValidity
  pub quantity : ℤ
  pub limit_price : D
  pub trigger_price : D
  pub stop_loss_price : D
  pub take_profit_price : D
  pub signal_strength : D
  pub is_amo : Bool
  pub slice : Bool
  pub market_protection : ℤ
  pub strategy_id : Text
  pub tag : Text
  pub request_ts_ns : ℕ

pub record Order (D : Type 0) : Type 0 where
  pub order_id : Text
  pub strategy_id : Text
  pub tag : Text
  pub instrument_token : ℕ
  pub side : Side
  pub order_type : OrderType
  pub product : OrderProduct
  pub status : OrderStatus
  pub quantity : ℤ
  pub filled_qty : ℤ
  pub limit_price : D
  pub trigger_price : D
  pub avg_fill_price : D
  pub placed_ts_ns : ℕ
  pub last_update_ns : ℕ

pub record Fill (D : Type 0) : Type 0 where
  pub order_id : Text
  pub trade_id : Text
  pub strategy_id : Text
  pub instrument_token : ℕ
  pub side : Side
  pub quantity : ℤ
  pub price : D
  pub fill_ts_ns : ℕ

module _ {D : Type 0} ⦃d : Double D⦄ where
  -- `Order{}`.
  abbrev pub blank_order : Order D
  blank_order = record {
    order_id = [];
    strategy_id = [];
    tag = [];
    instrument_token = 0;
    side = Side.buy;
    order_type = OrderType.market;
    product = OrderProduct.intraday;
    status = OrderStatus.pending;
    quantity = pos 0;
    filled_qty = pos 0;
    limit_price = of_ℕ 0;
    trigger_price = of_ℕ 0;
    avg_fill_price = of_ℕ 0;
    placed_ts_ns = 0;
    last_update_ns = 0;
  }

  -- `Fill{}`.
  abbrev pub blank_fill : Fill D
  blank_fill = record {
    order_id = [];
    trade_id = [];
    strategy_id = [];
    instrument_token = 0;
    side = Side.buy;
    quantity = pos 0;
    price = of_ℕ 0;
    fill_ts_ns = 0;
  }
