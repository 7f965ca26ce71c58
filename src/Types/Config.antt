-- ===== src/Types/Config.antt =====
-- The configuration of cpp/common/types.hpp: the fields that the modelled code reads.
use quantforge_engine.Prelude.{ℕ, Bool, List}
use quantforge_engine.Prelude.Int.{ℤ}
use quantforge_engine.Prelude.Text.{Text}
use quantforge_engine.Types.Enums.{AlertLevel}

pub record RiskLimits (D : Type 0) : Type 0 where
  pub max_single_order_value : D
  pub max_position_value : D
  pub max_capital_allocation : D
  pub max_daily_loss : D
  pub max_net_delta : D
  pub max_net_vega : D
  pub max_orders_per_second : ℤ

pub record StrategyConfig (D : Type 0) : Type 0 where
  pub id : Text
  pub name : Text
  pub plugin_path : Text
  pub instruments : List ℕ
  pub allocated_core : ℤ
  pub risk : RiskLimits D
  pub params : List (Text × D)

pub record ThreadConfig : Type 0 where
  pub market_data_io : ℤ
  pub tick_normalizer : ℤ
  pub risk_gate : ℤ
  pub oms : ℤ
  pub fill_processor : ℤ
  pub portfolio : ℤ
  pub kafka_publisher : ℤ
  pub heartbeat : ℤ

pub record EngineConfig (D : Type 0) : Type 0 where
  pub upstox_access_token : Text
  pub upstox_api_key : Text
  pub upstox_redirect_uri : Text
  pub redis_url : Text
  pub kafka_brokers : Text
  pub threads : ThreadConfig
  pub strategies : List (StrategyConfig D)
  pub paper_trading : Bool
  pub dry_run : Bool

pub record RiskAlert : Type 0 where
  pub level : AlertLevel
  pub strategy_id : Text
  pub message : Text
  pub ts_ns : ℕ
