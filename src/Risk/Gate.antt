-- ===== src/Risk/Gate.antt =====
-- cpp/risk/pre_trade_risk.cpp and .hpp: PreTradeRiskEngine. The clocks are arguments. The tick price
-- cache and the limiters are `mutable`, so `check` returns the new state beside its decision.
use quantforge_engine.Prelude.{
  ℕ, Bool, true, false, not, ◌&&◌, Option, none, some, List, [], ◌∷◌, if◌then◌else◌, lookup, insert,
  nat_eq,
}
use quantforge_engine.Prelude.Int.{ℤ, negsuc, ◌+ℤ◌, neg_ℤ, abs_ℤ}
use quantforge_engine.Prelude.Text.{Text, text_eq}
use quantforge_engine.Doubles.{Double, of_ℕ}
use quantforge_engine.Types.{
  Side, OrderType, is_side, is_order_type, OrderRequest, PortfolioSnapshot, StrategyConfig,
  RiskDecision, get_position, strategy_used_capital, strategy_daily_pnl, sum_of,
}
use quantforge_engine.Oms.Dedup.{contains}
use quantforge_engine.Risk.TokenBucket.{TokenBucket, bucket_init, try_consume}

pub record RiskEngine (D : Type 0) : Type 0 where
  pub global_kill_switch : Bool
  pub halted_strategies : List Text
  pub rate_limiters : List (Text × TokenBucket D)
  pub price_cache : List (ℕ × D)

module _ {D : Type 0} ⦃d : Double D⦄ where
  abbrev pub risk_init : RiskEngine D
  risk_init = record {
    global_kill_switch = false;
    halted_strategies = [];
    rate_limiters = [];
    price_cache = [];
  }

  -- `emplace`, which keeps an entry that is there.
  unfoldable pub emplace :
      Text → TokenBucket D → List (Text × TokenBucket D) → List (Text × TokenBucket D)
  emplace id b m = elim (lookup id m) [ none ↦ insert id b m | some _ ↦ m ]

  unfoldable pub configure : RiskEngine D → List (StrategyConfig D) → ℕ → RiskEngine D
  unfolding emplace
  configure s [] now = s
  configure s (c ∷ cs) now =
      configure
        (record s {
          rate_limiters =
              emplace c.id (bucket_init c.risk.max_orders_per_second (negsuc 0) now)
                s.rate_limiters;
        })
        cs now

  unfoldable pub is_strategy_halted : RiskEngine D → Text → Bool
  is_strategy_halted s id = contains id s.halted_strategies

  unfoldable pub engage_global_kill_switch : RiskEngine D → RiskEngine D
  engage_global_kill_switch s = record s { global_kill_switch = true }

  unfoldable pub disengage_global_kill_switch : RiskEngine D → RiskEngine D
  disengage_global_kill_switch s = record s { global_kill_switch = false }

  unfoldable pub update_price : RiskEngine D → ℕ → D → RiskEngine D
  update_price s token price = record s { price_cache = insert token price s.price_cache }

  abbrev pub price_or_zero : Option D → D
  price_or_zero none = of_ℕ 0
  price_or_zero (some p) = p

  unfoldable pub current_price : RiskEngine D → ℕ → D
  current_price s token = price_or_zero (lookup token s.price_cache)

  -- Check 4: a strategy with no limiter is not limited.
  unfoldable pub rate_limit : RiskEngine D → Text → ℕ → Option (TokenBucket D) → RiskEngine D × Bool
  rate_limit s sid now none = (s, true)
  rate_limit s sid now (some b) =
      let (b', granted) = try_consume b now in
      (record s { rate_limiters = insert sid b' s.rate_limiters }, granted)

  -- Check 5.
  unfoldable pub order_too_big : OrderRequest D → StrategyConfig D → D → Bool
  order_too_big req scfg ltp =
      d.lt (of_ℕ 0) ltp && d.lt scfg.risk.max_single_order_value (d.mul (d.of_int req.quantity) ltp)

  -- The position that the order would make.
  unfoldable pub new_quantity : OrderRequest D → PortfolioSnapshot D → ℤ
  new_quantity req portfolio =
      (get_position portfolio req.instrument_token).quantity
      +ℤ (if is_side req.side Side.buy then req.quantity else neg_ℤ req.quantity)

  -- Check 6.
  unfoldable pub position_too_big :
      OrderRequest D → StrategyConfig D → PortfolioSnapshot D → D → Bool
  position_too_big req scfg portfolio ltp =
      d.lt (of_ℕ 0) ltp
      && d.lt scfg.risk.max_position_value
          (d.mul (d.of_int (abs_ℤ (new_quantity req portfolio))) ltp)

  -- Check 7.
  unfoldable pub capital_exceeded :
      OrderRequest D → StrategyConfig D → PortfolioSnapshot D → D → Bool
  capital_exceeded req scfg portfolio ltp =
      d.lt (of_ℕ 0) ltp
      && d.lt scfg.risk.max_capital_allocation (
          d.add (strategy_used_capital portfolio req.strategy_id)
            (d.mul (d.of_int req.quantity) ltp))

  -- Check 8.
  unfoldable pub price_insane : OrderRequest D → D → Bool
  price_insane req ltp =
      (is_order_type req.order_type OrderType.limit
        && d.lt (of_ℕ 0) ltp
        && d.lt (of_ℕ 0) req.limit_price)
      && d.lt (d.decimal 5 2) (d.div (d.abs (d.sub req.limit_price ltp)) ltp)

  -- Check 10.
  unfoldable pub loss_exceeded : OrderRequest D → StrategyConfig D → PortfolioSnapshot D → Bool
  loss_exceeded req scfg portfolio =
      d.lt (strategy_daily_pnl portfolio req.strategy_id) (d.neg scfg.risk.max_daily_loss)

  -- Checks 5 to 10, at the last price of the instrument. Check 9 is commented out in the source.
  unfoldable pub check_limits :
      OrderRequest D → StrategyConfig D → PortfolioSnapshot D → D → RiskDecision
  check_limits req scfg portfolio ltp =
      if order_too_big req scfg ltp
      then RiskDecision.reject_position_limit
      else if position_too_big req scfg portfolio ltp
      then RiskDecision.reject_position_limit
      else if capital_exceeded req scfg portfolio ltp
      then RiskDecision.reject_capital
      else if price_insane req ltp
      then RiskDecision.reject_price_sanity
      else if loss_exceeded req scfg portfolio
      then RiskDecision.reject_daily_loss
      else RiskDecision.pass

  -- Check 4's refusal, and the checks behind it, after the limiter was asked.
  unfoldable pub check_rated :
      OrderRequest D
      → StrategyConfig D
      → PortfolioSnapshot D
      → RiskEngine D × Bool
      → RiskEngine D × RiskDecision
  check_rated req scfg portfolio (s, granted) =
      if granted
      then (s, check_limits req scfg portfolio (current_price s req.instrument_token))
      else (s, RiskDecision.reject_rate_limit)

  -- `market_open` is what `market_hours_.is_open()` answers.
  unfoldable pub check :
      RiskEngine D
      → OrderRequest D
      → StrategyConfig D
      → PortfolioSnapshot D
      → Bool
      → ℕ
      → RiskEngine D × RiskDecision
  check s req scfg portfolio market_open now =
      if s.global_kill_switch
      then (s, RiskDecision.reject_kill_switch)
      else if is_strategy_halted s req.strategy_id
      then (s, RiskDecision.reject_kill_switch)
      else if not market_open
      then (s, RiskDecision.reject_market_closed)
      else check_rated req scfg portfolio
          (rate_limit s req.strategy_id now (lookup req.strategy_id s.rate_limiters))

  -- `check_greeks`, which no code calls.
  unfoldable pub check_greeks : PortfolioSnapshot D → StrategyConfig D → RiskDecision
  check_greeks portfolio scfg =
      let net_delta = sum_of (λ p. p.net_delta) scfg.id (of_ℕ 0) portfolio.positions in
      let net_vega = sum_of (λ p. p.net_vega) scfg.id (of_ℕ 0) portfolio.positions in
      if d.lt scfg.risk.max_net_delta (d.abs net_delta)
      then RiskDecision.reject_greek_limit
      else if d.lt scfg.risk.max_net_vega (d.abs net_vega)
      then RiskDecision.reject_greek_limit
      else RiskDecision.pass
