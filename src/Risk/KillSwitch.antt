-- ===== src/Risk/KillSwitch.antt =====
-- What holds of the gate of cpp/risk/pre_trade_risk.cpp over any history of calls.
use quantforge_engine.Prelude.{
  ℕ, ◌≡◌, refl, ◌∙◌, ◌≢◌, Bool, true, false, not, Option, none, some, List, [], ◌∷◌, if_elim,
  if_true, lookup, lookup-insert_ne,
}
use quantforge_engine.Prelude.Int.{negsuc}
use quantforge_engine.Prelude.Text.{Text, text_eq}
use quantforge_engine.Doubles.{Double}
use quantforge_engine.Types.{OrderRequest, PortfolioSnapshot, StrategyConfig, RiskDecision}
use quantforge_engine.Oms.Dedup.{contains}
use quantforge_engine.Risk.TokenBucket.{TokenBucket, bucket_init}
use quantforge_engine.Risk.Gate.{
  RiskEngine, risk_init, emplace, configure, is_strategy_halted, engage_global_kill_switch,
  disengage_global_kill_switch, update_price, rate_limit, check_rated, check,
}

module _ {D : Type 0} ⦃d : Double D⦄ where
  -- A call of the gate, or of what its owners call.
  pub data Step : RiskEngine D → RiskEngine D → Type 0 where
    configures :
        (s : RiskEngine D) (cs : List (StrategyConfig D)) (now : ℕ) → Step s (configure s cs now)
    checks :
        (s : RiskEngine D) (req : OrderRequest D) (scfg : StrategyConfig D)
        (portfolio : PortfolioSnapshot D) (market_open : Bool) (now : ℕ)
        → Step s (check s req scfg portfolio market_open now).0
    prices : (s : RiskEngine D) (token : ℕ) (price : D) → Step s (update_price s token price)
    engages : (s : RiskEngine D) → Step s (engage_global_kill_switch s)

  -- Calls with no disengagement among them.
  pub data Engaged (s : RiskEngine D) : RiskEngine D → Type 0 where
    here : Engaged s s
    next : {t u : RiskEngine D} → Engaged s t → Step t u → Engaged s u

  -- All calls that the program has.
  pub data Reach (s : RiskEngine D) : RiskEngine D → Type 0 where
    start : Reach s s
    step : {t u : RiskEngine D} → Reach s t → Step t u → Reach s u
    resume : {t : RiskEngine D} → Reach s t → Reach s (disengage_global_kill_switch t)

  -- The parts that a step keeps.
  abbrev Keeps : RiskEngine D → RiskEngine D → Type 0
  Keeps s t =
      (t.global_kill_switch ≡ s.global_kill_switch) × (t.halted_strategies ≡ s.halted_strategies)

  configure-Keeps :
      (s : RiskEngine D) (cs : List (StrategyConfig D)) (now : ℕ) → Keeps s (configure s cs now)
  unfolding configure
  configure-Keeps s [] now = (refl, refl)
  configure-Keeps s (c ∷ cs) now =
      configure-Keeps
        (record s {
          rate_limiters =
              emplace c.id (bucket_init c.risk.max_orders_per_second (negsuc 0) now)
                s.rate_limiters;
        })
        cs now

  -- A check for the strategy `sid` touches no other strategy's limiter, no price and no switch.
  abbrev Frame : Text → RiskEngine D → RiskEngine D → Type 0
  Frame sid s t =
      ((other : Text) → sid ≢ other → lookup other t.rate_limiters ≡ lookup other s.rate_limiters)
      × (t.price_cache ≡ s.price_cache)
      × (t.global_kill_switch ≡ s.global_kill_switch)
      × (t.halted_strategies ≡ s.halted_strategies)

  Frame-refl : (sid : Text) (s : RiskEngine D) → Frame sid s s
  Frame-refl sid s = (λ other ne. refl, refl, refl, refl)

  rate_limit-Frame :
      (s : RiskEngine D) (sid : Text) (now : ℕ) (o : Option (TokenBucket D))
      → Frame sid s (rate_limit s sid now o).0
  unfolding rate_limit
  rate_limit-Frame s sid now none = Frame-refl sid s
  rate_limit-Frame s sid now (some b) =
      (λ other ne. lookup-insert_ne sid other _ s.rate_limiters ne, refl, refl, refl)

  state-check_rated :
      (req : OrderRequest D) (scfg : StrategyConfig D) (portfolio : PortfolioSnapshot D)
      (s : RiskEngine D) (granted : Bool)
      → (check_rated req scfg portfolio (s, granted)).0 ≡ s
  unfolding check_rated
  state-check_rated req scfg portfolio s true = refl
  state-check_rated req scfg portfolio s false = refl

  check-Frame :
      (s : RiskEngine D) (req : OrderRequest D) (scfg : StrategyConfig D)
      (portfolio : PortfolioSnapshot D) (market_open : Bool) (now : ℕ)
      → Frame req.strategy_id s (check s req scfg portfolio market_open now).0
  unfolding check
  check-Frame s req scfg portfolio market_open now =
      let P = λ (r : RiskEngine D × RiskDecision). Frame req.strategy_id s r.0 in
      let rated = rate_limit s req.strategy_id now (lookup req.strategy_id s.rate_limiters) in
      let last : Frame req.strategy_id s (check_rated req scfg portfolio rated).0 =
        rw (state-check_rated req scfg portfolio rated.0 rated.1)
          (rate_limit-Frame s req.strategy_id now (lookup req.strategy_id s.rate_limiters)) in
      if_elim P s.global_kill_switch (s, RiskDecision.reject_kill_switch) _
        (λ _. Frame-refl req.strategy_id s)
        (λ _.
          if_elim P (is_strategy_halted s req.strategy_id) (s, RiskDecision.reject_kill_switch) _
            (λ _. Frame-refl req.strategy_id s)
            (λ _.
              if_elim P (not market_open) (s, RiskDecision.reject_market_closed)
                (check_rated req scfg portfolio rated) (λ _. Frame-refl req.strategy_id s)
                (λ _. last)))

  -- Whatever it decides, a check for a strategy touches no other strategy's limiter, no price and no
  -- switch.
  pub check_others :
      (s : RiskEngine D) (req : OrderRequest D) (scfg : StrategyConfig D)
      (portfolio : PortfolioSnapshot D) (market_open : Bool) (now : ℕ) (other : Text)
      → req.strategy_id ≢ other
      → let t = (check s req scfg portfolio market_open now).0 in
        (lookup other t.rate_limiters ≡ lookup other s.rate_limiters)
        × (t.price_cache ≡ s.price_cache)
        × (t.global_kill_switch ≡ s.global_kill_switch)
        × (t.halted_strategies ≡ s.halted_strategies)
  check_others s req scfg portfolio market_open now other ne =
      let frame = check-Frame s req scfg portfolio market_open now in
      (frame.0 other ne, frame.1, frame.2, frame.3)

  Engaged-on :
      {s t : RiskEngine D} → Engaged s t → s.global_kill_switch ≡ true → t.global_kill_switch ≡ true
  unfolding update_price engage_global_kill_switch
  Engaged-on here h = h
  Engaged-on (next r (configures s cs now)) h = (configure-Keeps s cs now).0 ∙ Engaged-on r h
  Engaged-on (next r (checks s req scfg portfolio market_open now)) h =
      (check-Frame s req scfg portfolio market_open now).2 ∙ Engaged-on r h
  Engaged-on (next r (prices s token price)) h = Engaged-on r h
  Engaged-on (next r (engages s)) h = refl

  -- Once the global kill switch is engaged, and until it is disengaged, every order of every strategy
  -- is refused for that reason, whatever is configured, checked or priced in between, and a refused
  -- order changes nothing: no token is taken from a limiter.
  pub check_refuses :
      (s : RiskEngine D) {t : RiskEngine D} (req : OrderRequest D) (scfg : StrategyConfig D)
      (portfolio : PortfolioSnapshot D) (market_open : Bool) (now : ℕ)
      → Engaged (engage_global_kill_switch s) t
      → check t req scfg portfolio market_open now ≡ (t, RiskDecision.reject_kill_switch)
  unfolding check
  check_refuses s req scfg portfolio market_open now r =
      if_true _ _ (Engaged-on r (unfold engage_global_kill_switch in refl))

  halted-Reach : {t : RiskEngine D} → Reach risk_init t → t.halted_strategies ≡ []
  unfolding update_price engage_global_kill_switch disengage_global_kill_switch
  halted-Reach start = refl
  halted-Reach (step r (configures s cs now)) = (configure-Keeps s cs now).1 ∙ halted-Reach r
  halted-Reach (step r (checks s req scfg portfolio market_open now)) =
      (check-Frame s req scfg portfolio market_open now).3 ∙ halted-Reach r
  halted-Reach (step r (prices s token price)) = halted-Reach r
  halted-Reach (step r (engages s)) = halted-Reach r
  halted-Reach (resume r) = halted-Reach r

  -- No history of the calls that the program implements ever halts a single strategy: the engine has
  -- no definition of `engage_strategy_kill`, and nothing else writes the set of halted strategies.
  pub never_halted :
      {t : RiskEngine D} (id : Text) → Reach risk_init t → is_strategy_halted t id ≡ false
  unfolding is_strategy_halted contains
  never_halted id r = rw (halted-Reach r)
