-- ===== src/Strategy/Routing.antt =====
-- What the strategy manager of cpp/strategy/strategy_manager.cpp lets reach the order manager, and
-- which strategy hears of a fill.
use quantforge_engine.Prelude.{
  ◌≡◌, refl, ap, ◌∙◌, ◌⊎◌, inl, inr, true, false, List, [], ◌∷◌, ◌++◌, arith, if_true, if_false,
  Bool-cases, All, lookup,
}
use quantforge_engine.Prelude.Text.{text_eq}
use quantforge_engine.Doubles.{Double}
use quantforge_engine.Types.{OrderRequest, Fill, StrategyConfig, RiskDecision}
use quantforge_engine.Oms.Requests.{submit}
use quantforge_engine.Risk.Gate.{
  RiskEngine, check, engage_global_kill_switch, is_strategy_halted, current_price,
}
use quantforge_engine.Risk.Decisions.{WithinLimits, Granted, check_pass_at}
use quantforge_engine.Risk.KillSwitch.{here, check_refuses}
use quantforge_engine.Portfolio.Engine.{get_snapshot}
use quantforge_engine.Strategy.Manager.{
  IStrategy, LoadedStrategy, Services, Clock, is_pass, submit_checked, submit_order, owns,
  dispatch_fill,
}

is_pass-pass : (r : RiskDecision) → is_pass r ≡ true → r ≡ RiskDecision.pass
is_pass-pass RiskDecision.pass h = refl
is_pass-pass _ h = absurd (ground arith)

module _ {D : Type 0} ⦃d : Double D⦄ where
  checked_cases :
      (e : Services D) (req : OrderRequest D) (clock : Clock) (x : RiskEngine D × RiskDecision)
      → ((x.1 ≡ RiskDecision.pass)
          × ((submit_checked e req clock x).0.oms
              ≡ (submit e.oms req clock.id_ms clock.placed_ns clock.fill_ns).0)
          × ((submit_checked e req clock x).1
              ≡ (submit e.oms req clock.id_ms clock.placed_ns clock.fill_ns).1))
        ⊎ (((submit_checked e req clock x).0.oms ≡ e.oms)
            × ((submit_checked e req clock x).1 ≡ false))
  unfolding submit_checked
  checked_cases e req clock (risk, r) = elim (Bool-cases (is_pass r)) [
    | inl pass ↦ inl (is_pass-pass r pass, rw pass refl, rw pass refl)
    | inr refuse ↦ inr (rw refuse (refl, refl))
  ]

  -- An order of a strategy either meets all of the gate's conditions, and then what becomes of it
  -- is what the order manager does with it, or it does not reach the order manager, which is as
  -- before, and the strategy is told false.
  pub submit_order_lem :
      (e : Services D) (scfg : StrategyConfig D) (req : OrderRequest D) (clock : Clock)
      → let (t, accepted) = submit_order e scfg req clock in
        ((e.risk.global_kill_switch ≡ false)
          × (is_strategy_halted e.risk req.strategy_id ≡ false)
          × (clock.market_open ≡ true)
          × Granted (lookup req.strategy_id e.risk.rate_limiters) clock.limiter_ns
          × WithinLimits req scfg e.portfolio.snapshot (current_price e.risk req.instrument_token)
          × (t.oms ≡ (submit e.oms req clock.id_ms clock.placed_ns clock.fill_ns).0)
          × (accepted ≡ (submit e.oms req clock.id_ms clock.placed_ns clock.fill_ns).1))
        ⊎ ((t.oms ≡ e.oms) × (accepted ≡ false))
  unfolding submit_order get_snapshot
  submit_order_lem e scfg req clock =
      let gate =
        check_pass_at e.risk req scfg e.portfolio.snapshot clock.market_open clock.limiter_ns in
      elim (checked_cases e req clock
        (check e.risk req scfg e.portfolio.snapshot clock.market_open clock.limiter_ns)) [
          | inl (pass, oms, answer) ↦
              let g = gate.0 pass in inl (g.0, g.1, g.2, g.3, g.4, oms, answer)
          | inr refused ↦ inr refused
        ]

  -- Orders of any strategies, one after the other.
  unfoldable pub submit_orders :
      Services D → List (StrategyConfig D × OrderRequest D × Clock) → Services D
  submit_orders e [] = e
  submit_orders e ((scfg, req, clock) ∷ orders) =
      submit_orders (submit_order e scfg req clock).0 orders

  -- After the global kill switch is engaged no order of any strategy changes anything in the engine.
  pub submit_orders_killed :
      (orders : List (StrategyConfig D × OrderRequest D × Clock)) (e : Services D)
      → let killed = record e { risk = engage_global_kill_switch e.risk } in
        submit_orders killed orders ≡ killed
  unfolding submit_orders
  submit_orders_killed [] e = refl
  submit_orders_killed ((scfg, req, clock) ∷ orders) e =
      let killed : Services D = record e { risk = engage_global_kill_switch e.risk } in
      ap (λ (x : Services D). submit_orders x orders) (one scfg req clock)
      ∙ submit_orders_killed orders e
    where
      one :
          (scfg : StrategyConfig D) (req : OrderRequest D) (clock : Clock)
          → (submit_order (record e { risk = engage_global_kill_switch e.risk }) scfg req clock).0
            ≡ record e { risk = engage_global_kill_switch e.risk }
      one scfg req clock =
          unfold submit_order submit_checked in
          rw
            (check_refuses e.risk req scfg (get_snapshot e.portfolio) clock.market_open
              clock.limiter_ns here)
            refl

module _ {D S : Type 0} (plugin : IStrategy D S) where
  -- A fill is handed to the first strategy that owns it and to no other; the others, and all of them
  -- if none owns it, are as before.
  pub dispatch_fill_lem :
      (ss : List (LoadedStrategy D S)) (fill : Fill D)
      → (All (λ (s : LoadedStrategy D S). owns plugin fill s ≡ false) ss
          × (dispatch_fill plugin ss fill ≡ ss))
        ⊎ ((before : List (LoadedStrategy D S)) × (s : LoadedStrategy D S) × (after : List
              (LoadedStrategy D S))
            × (ss ≡ before ++ (s ∷ after))
            × All (λ (s : LoadedStrategy D S). owns plugin fill s ≡ false) before
            × (owns plugin fill s ≡ true)
            × (dispatch_fill plugin ss fill
                ≡ before
                  ++ (record s { instance_state = plugin.on_order_fill s.instance_state fill }
                      ∷ after)))
  unfolding dispatch_fill
  dispatch_fill_lem [] fill = inl (tt, refl)
  dispatch_fill_lem (s ∷ ss) fill = elim (Bool-cases (owns plugin fill s)) [
    | inl mine ↦ inr ([], s, ss, refl, tt, mine, if_true _ _ mine)
    | inr other ↦ elim (dispatch_fill_lem ss fill) [
      | inl (none_owns, same) ↦ inl ((other, none_owns), if_false _ _ other ∙ ap (λ t. s ∷ t) same)
      | inr (before, o, after, split, skipped, mine, e) ↦ inr (
        s ∷ before,
        o,
        after,
        ap (λ t. s ∷ t) split,
        (other, skipped),
        mine,
        if_false _ _ other ∙ ap (λ t. s ∷ t) e,
      )
    ]
  ]
