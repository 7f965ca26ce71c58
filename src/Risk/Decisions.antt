-- ===== src/Risk/Decisions.antt =====
-- What the pre-trade gate of cpp/risk/pre_trade_risk.cpp lets through, and what its calls change.
use quantforge_engine.Prelude.{
  ℕ, ◌<◌, ◌≡◌, refl, ◌↔◌, ◌≢◌, Bool, true, false, not, ◌&&◌, Option, none, some, arith,
  if◌then◌else◌, lookup,
}
use quantforge_engine.Prelude.Int.{ℤ, abs_ℤ, neg_ℤ, ◌+ℤ◌, ◌-ℤ◌, int_laws}
use quantforge_engine.Prelude.Text.{Text, text_eq}
use quantforge_engine.Doubles.{Double, of_ℕ}
use quantforge_engine.Types.{
  Side, is_side, get_position, OrderType, is_order_type, OrderRequest, PortfolioSnapshot,
  StrategyConfig, RiskDecision, strategy_used_capital, strategy_daily_pnl,
}
use quantforge_engine.Risk.MarketHours.{is_open, CountsAsOpen, is_open_lem}
use quantforge_engine.Risk.TokenBucket.{TokenBucket, try_consume}
use quantforge_engine.Risk.Gate.{
  RiskEngine, is_strategy_halted, current_price, rate_limit, order_too_big, new_quantity,
  position_too_big, capital_exceeded, price_insane, loss_exceeded, check_limits, check_rated, check,
}

kill_not_pass : RiskDecision.reject_kill_switch ≢ RiskDecision.pass
kill_not_pass e = cc

closed_not_pass : RiskDecision.reject_market_closed ≢ RiskDecision.pass
closed_not_pass e = cc

not-false : (b : Bool) → (not b ≡ false) ↔ (b ≡ true)
not-false true = (λ _. refl, λ _. refl)
not-false false = (λ h. cc, λ h. cc)

-- The position that an order would make of the one held.
abbrev pub quantity_after : Side → ℤ → ℤ → ℤ
quantity_after Side.buy held quantity = held +ℤ quantity
quantity_after Side.sell held quantity = held -ℤ quantity

quantity_after-lem :
    (side : Side) (held quantity : ℤ)
    → held +ℤ (if is_side side Side.buy then quantity else neg_ℤ quantity)
      ≡ quantity_after side held quantity
quantity_after-lem Side.buy held quantity = refl
quantity_after-lem Side.sell held quantity = omega int_laws

module _ {D : Type 0} ⦃d : Double D⦄ where
  new_quantity-lem :
      (req : OrderRequest D) (portfolio : PortfolioSnapshot D)
      → new_quantity req portfolio
        ≡ quantity_after req.side
            (get_position portfolio req.instrument_token).quantity
            req.quantity
  unfolding new_quantity
  new_quantity-lem req portfolio =
      quantity_after-lem req.side (get_position portfolio req.instrument_token).quantity
        req.quantity

  -- The limits that an order has to keep at the last price `ltp` of its instrument. An instrument with
  -- no price is not limited by value.
  pub record WithinLimits (req : OrderRequest D) (scfg : StrategyConfig D)
      (portfolio : PortfolioSnapshot D) (ltp : D) : Type 0 where
    pub order_value :
        (d.lt (of_ℕ 0) ltp
          && d.lt scfg.risk.max_single_order_value (d.mul (d.of_int req.quantity) ltp))
        ≡ false
    pub position_value :
        (d.lt (of_ℕ 0) ltp
          && d.lt scfg.risk.max_position_value (
              d.mul
                (d.of_int (
                  abs_ℤ (
                    quantity_after req.side
                      (get_position portfolio req.instrument_token).quantity
                      req.quantity)))
                ltp))
        ≡ false
    pub capital :
        (d.lt (of_ℕ 0) ltp
          && d.lt scfg.risk.max_capital_allocation (
              d.add
                (strategy_used_capital portfolio req.strategy_id)
                (d.mul (d.of_int req.quantity) ltp)))
        ≡ false
    pub price :
        ((is_order_type req.order_type OrderType.limit
            && d.lt (of_ℕ 0) ltp
            && d.lt (of_ℕ 0) req.limit_price)
          && d.lt (d.decimal 5 2) (d.div (d.abs (d.sub req.limit_price ltp)) ltp))
        ≡ false
    pub daily_loss :
        d.lt (strategy_daily_pnl portfolio req.strategy_id) (d.neg scfg.risk.max_daily_loss) ≡ false

  check_limits-pass :
      (req : OrderRequest D) (scfg : StrategyConfig D) (portfolio : PortfolioSnapshot D) (ltp : D)
      → check_limits req scfg portfolio ltp ≡ RiskDecision.pass
      → WithinLimits req scfg portfolio ltp
  unfolding check_limits order_too_big position_too_big capital_exceeded price_insane loss_exceeded
  check_limits-pass req scfg portfolio ltp h = record {
    order_value = ground arith;
    position_value = rw (← new_quantity-lem req portfolio) (ground arith);
    capital = ground arith;
    price = ground arith;
    daily_loss = ground arith;
  }

  pass-check_limits :
      (req : OrderRequest D) (scfg : StrategyConfig D) (portfolio : PortfolioSnapshot D) (ltp : D)
      → WithinLimits req scfg portfolio ltp
      → check_limits req scfg portfolio ltp ≡ RiskDecision.pass
  unfolding check_limits order_too_big position_too_big capital_exceeded price_insane loss_exceeded
  pass-check_limits req scfg portfolio ltp w =
      let position = (rw (← new_quantity-lem req portfolio) at w.position_value) in
      ground (arith, w.order_value, position, w.capital, w.price, w.daily_loss)

  -- `try_consume` is asked where the strategy has a limiter.
  abbrev pub Granted : Option (TokenBucket D) → ℕ → Type 0
  Granted none now = Unit {0}
  Granted (some b) now = (try_consume b now).1 ≡ true

  price-rate_limit :
      (s : RiskEngine D) (sid : Text) (now token : ℕ) (o : Option (TokenBucket D))
      → current_price (rate_limit s sid now o).0 token ≡ current_price s token
  unfolding rate_limit current_price
  price-rate_limit s sid now token none = refl
  price-rate_limit s sid now token (some b) = refl

  -- A check that fails decides; otherwise the next one does.
  refuse_if :
      (b : Bool) (x y : RiskEngine D × RiskDecision)
      → x.1 ≢ RiskDecision.pass
      → ((if b then x else y).1 ≡ RiskDecision.pass) ↔ ((b ≡ false) × (y.1 ≡ RiskDecision.pass))
  refuse_if true x y ne = (λ h. absurd (ne h), λ h. cc)
  refuse_if false x y ne = (λ h. (refl, h), λ h. h.1)

  Granted-iff :
      (s : RiskEngine D) (sid : Text) (now : ℕ) (o : Option (TokenBucket D))
      → ((rate_limit s sid now o).1 ≡ true) ↔ Granted o now
  unfolding rate_limit
  Granted-iff s sid now none = (λ _. tt, λ _. refl)
  Granted-iff s sid now (some b) = (λ h. h, λ h. h)

  -- Check 4 and those behind it.
  rated_pass :
      (s : RiskEngine D) (req : OrderRequest D) (scfg : StrategyConfig D)
      (portfolio : PortfolioSnapshot D) (s' : RiskEngine D) (granted : Bool)
      → current_price s' req.instrument_token ≡ current_price s req.instrument_token
      → ((check_rated req scfg portfolio (s', granted)).1 ≡ RiskDecision.pass) ↔ (
          (granted ≡ true) × WithinLimits req scfg portfolio (current_price s req.instrument_token))
  unfolding check_rated
  rated_pass s req scfg portfolio s' true same = (
    λ h. (refl, check_limits-pass req scfg portfolio _ (rw same at h)),
    λ h. rw same (pass-check_limits req scfg portfolio _ h.1),
  )
  rated_pass s req scfg portfolio s' false same = (λ h. absurd (cc), λ h. absurd (cc))

  -- The same, with what the market hours answer.
  pub check_pass_at :
      (s : RiskEngine D) (req : OrderRequest D) (scfg : StrategyConfig D)
      (portfolio : PortfolioSnapshot D) (market_open : Bool) (now : ℕ)
      → ((check s req scfg portfolio market_open now).1 ≡ RiskDecision.pass) ↔ (
          (s.global_kill_switch ≡ false)
          × (is_strategy_halted s req.strategy_id ≡ false)
          × (market_open ≡ true)
          × Granted (lookup req.strategy_id s.rate_limiters) now
          × WithinLimits req scfg portfolio (current_price s req.instrument_token))
  unfolding check
  check_pass_at s req scfg portfolio market_open now =
      let sid = req.strategy_id in
      let limiter = lookup sid s.rate_limiters in
      let killed =
        refuse_if s.global_kill_switch (s, RiskDecision.reject_kill_switch) _ kill_not_pass in
      let halted =
        refuse_if (is_strategy_halted s sid) (s, RiskDecision.reject_kill_switch) _ kill_not_pass in
      let closed =
        refuse_if (not market_open) (s, RiskDecision.reject_market_closed) _ closed_not_pass in
      let rated =
        rated_pass s req scfg portfolio (rate_limit s sid now limiter).0
          (rate_limit s sid now limiter).1
          (price-rate_limit s sid now req.instrument_token limiter) in
      (
        λ h.
            let (k, h1) = killed.0 h in
            let (l, h2) = halted.0 h1 in
            let (m, h3) = closed.0 h2 in
            let (g, w) = rated.0 h3 in
            (k, l, (not-false market_open).0 m, (Granted-iff s sid now limiter).0 g, w),
        λ (k, l, m, g, w). killed.1 (
          k,
          halted.1 (
            l,
            closed.1
                ((not-false market_open).1 m, rated.1 ((Granted-iff s sid now limiter).1 g, w)),
          ),
        ),
      )

  -- The gate passes an order, at a UTC time of day and weekday, exactly if no kill switch is on, the
  -- strategy is not halted, the market counts as open then, the strategy's rate limiter (if it has one)
  -- grants a token, and the order keeps the limits on the values of the order and of the position, on
  -- the capital, on the price of a limit order and on the loss of the day, at the last price of its
  -- instrument. The limits on the Greeks are not among the conditions.
  pub check_pass :
      (s : RiskEngine D) (req : OrderRequest D) (scfg : StrategyConfig D)
      (portfolio : PortfolioSnapshot D) (tm_hour tm_min tm_wday now : ℕ)
      → tm_hour < 24
      → tm_min < 60
      → ((check s req scfg portfolio (is_open tm_hour tm_min tm_wday) now).1 ≡ RiskDecision.pass)
        ↔ ((s.global_kill_switch ≡ false)
            × (is_strategy_halted s req.strategy_id ≡ false)
            × CountsAsOpen tm_hour tm_min tm_wday
            × Granted (lookup req.strategy_id s.rate_limiters) now
            × WithinLimits req scfg portfolio (current_price s req.instrument_token))
  check_pass s req scfg portfolio tm_hour tm_min tm_wday now hh mm =
      let decides = check_pass_at s req scfg portfolio (is_open tm_hour tm_min tm_wday) now in
      let hours = is_open_lem tm_hour tm_min tm_wday hh mm in
      (
        λ h. let (k, l, m, g, w) = decides.0 h in (k, l, hours.0 m, g, w),
        λ (k, l, m, g, w). decides.1 (k, l, hours.1 m, g, w),
      )
