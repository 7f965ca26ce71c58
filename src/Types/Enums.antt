-- ===== src/Types/Enums.antt =====
-- The limits and enumerations of cpp/common/types.hpp. `open` is a reserved word here: `opened`.
use quantforge_engine.Prelude.{ℕ, Bool, ◌==◌}

abbrev pub max_symbol_len : ℕ
max_symbol_len = 32

abbrev pub max_order_id_len : ℕ
max_order_id_len = 36

abbrev pub max_tag_len : ℕ
max_tag_len = 32

abbrev pub max_strategy_len : ℕ
max_strategy_len = 32

abbrev pub depth_levels : ℕ
depth_levels = 5

pub data Side : Type 0 where
  buy sell : Side

pub data OrderType : Type 0 where
  market limit sl slm : OrderType

pub data OrderProduct : Type 0 where
  intraday delivery mtf : OrderProduct

pub data OrderValidity : Type 0 where
  day ioc : OrderValidity

pub data OrderStatus : Type 0 where
  pending opened complete cancelled rejected partial trigger_pending : OrderStatus

pub data ExchangeId : Type 0 where
  nse_eq nse_fo bse_eq bse_fo nse_idx : ExchangeId

pub data RiskDecision : Type 0 where
  pass reject_kill_switch reject_market_closed reject_rate_limit reject_position_limit
        reject_capital reject_price_sanity reject_greek_limit reject_daily_loss :
      RiskDecision

pub data AlertLevel : Type 0 where
  debug info warn high critical : AlertLevel

-- The underlying values, by which the code compares.
abbrev pub side_value : Side → ℕ
side_value Side.buy = 1
side_value Side.sell = 2

abbrev pub order_type_value : OrderType → ℕ
order_type_value OrderType.market = 1
order_type_value OrderType.limit = 2
order_type_value OrderType.sl = 3
order_type_value OrderType.slm = 4

abbrev pub status_value : OrderStatus → ℕ
status_value OrderStatus.pending = 0
status_value OrderStatus.opened = 1
status_value OrderStatus.complete = 2
status_value OrderStatus.cancelled = 3
status_value OrderStatus.rejected = 4
status_value OrderStatus.partial = 5
status_value OrderStatus.trigger_pending = 6

abbrev pub is_side : Side → Side → Bool
is_side a b = side_value a == side_value b

abbrev pub is_order_type : OrderType → OrderType → Bool
is_order_type a b = order_type_value a == order_type_value b

abbrev pub is_status : OrderStatus → OrderStatus → Bool
is_status a b = status_value a == status_value b

abbrev pub decision_value : RiskDecision → ℕ
decision_value RiskDecision.pass = 0
decision_value RiskDecision.reject_kill_switch = 1
decision_value RiskDecision.reject_market_closed = 2
decision_value RiskDecision.reject_rate_limit = 3
decision_value RiskDecision.reject_position_limit = 4
decision_value RiskDecision.reject_capital = 5
decision_value RiskDecision.reject_price_sanity = 6
decision_value RiskDecision.reject_greek_limit = 7
decision_value RiskDecision.reject_daily_loss = 8

abbrev pub alert_level_value : AlertLevel → ℕ
alert_level_value AlertLevel.debug = 0
alert_level_value AlertLevel.info = 1
alert_level_value AlertLevel.warn = 2
alert_level_value AlertLevel.high = 3
alert_level_value AlertLevel.critical = 4
