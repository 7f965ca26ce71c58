-- ===== src/Strategy/Dormant.antt =====
-- cpp/strategy/plugins/momentum_strategy.cpp: a strategy for which no highs are recorded.
use quantforge_engine.Prelude.{
  All, ℕ, ◌+◌, ◌%◌, ◌^◌, ◌<◌, ◌≡◌, refl, ap, ◌∙◌, arith, Bool, true, false, not, ◌||◌, Option, some,
  List, [], ◌∷◌, length, lookup, insert, nat_eq, if_elim, if_true, ltb, lt→ltb, ◌>>=◌,
}
use quantforge_engine.Prelude.Int.{pos, leb_ℤ}
use quantforge_engine.Doubles.{Double, of_ℕ}
use quantforge_engine.Types.{NormalizedTick}
use quantforge_engine.Strategy.Params.{size_of}
use quantforge_engine.Strategy.Momentum.{
  InstrumentState, PriceSeries, Momentum, on_tick_momentum, with_ltp, state_of, state_or_blank,
}
use quantforge_engine.Strategy.Signal.{
  touch, active_count, atr, enter_at, try_entry, evaluate_signal,
}
use quantforge_engine.Strategy.Entry.{evaluate_cases}

-- A tick with the time, or an evaluation with the time and what the context answers.
pub data PluginCall (D : Type 0) : Type 0 where
  ticked : NormalizedTick D → ℕ → PluginCall D
  signalled : ℕ → ℕ → D → D → PluginCall D

or_middle : (a b c : Bool) → b ≡ true → (a || (b || c)) ≡ true
or_middle true b c h = refl
or_middle false true c h = refl
or_middle false false c h = absurd (grind arith)

module _ {D : Type 0} ⦃d : Double D⦄ where
  -- No highs recorded and no position open, for every instrument.
  abbrev IsDormant : ℕ × InstrumentState D → Type 0
  IsDormant (token, s) = (s.highs ≡ []) × (s.in_position ≡ false)

  -- From m on: still dormant, with the same parameters and orders.
  abbrev IsIdle : Momentum D → Momentum D → Type 0
  IsIdle m m' = All IsDormant m'.states × ((m'.params ≡ m.params) × (m'.orders ≡ m.orders))

  All-insert :
      (token : ℕ) (s : InstrumentState D) (ss : List (ℕ × InstrumentState D))
      → (s.highs ≡ []) × (s.in_position ≡ false)
      → All IsDormant ss
      → All IsDormant (insert token s ss)
  All-insert token s [] h hs = (h, tt)
  All-insert token s ((k, v) ∷ ss) h (h0, hs) =
      if_elim (λ (l : List (ℕ × InstrumentState D)). All IsDormant l) (nat_eq.beq k token)
        ((token, s) ∷ ss) ((k, v) ∷ insert token s ss) (λ e. (h, hs))
        (λ e. (h0, All-insert token s ss h hs))

  lookup-dormant :
      (token : ℕ) (ss : List (ℕ × InstrumentState D))
      → All IsDormant ss
      → let s = state_or_blank (lookup token ss) in (s.highs ≡ []) × (s.in_position ≡ false)
  lookup-dormant token [] hs = (refl, refl)
  lookup-dormant token ((k, v) ∷ ss) (h, hs) =
      if_elim
        (λ (o : Option (InstrumentState D)).
          ((state_or_blank o).highs ≡ []) × ((state_or_blank o).in_position ≡ false))
        (nat_eq.beq k token) (some v) (lookup token ss) (λ e. h) (λ e. lookup-dormant token ss hs)

  atr-bare :
      (closes : PriceSeries D) (period : ℕ) (highs lows : List D)
      → 0 < period
      → highs ≡ []
      → atr closes period highs lows ≡ some (of_ℕ 0)
  unfolding atr
  atr-bare closes period highs lows some_period bare = if_true (some (of_ℕ 0)) _ (
      or_middle (ltb (length closes.data_points) ((period + 1) % 2 ^ 64))
        (ltb (length highs) period) (ltb (length lows) period)
        (ap (λ (hs : List D). ltb (length hs) period) bare ∙ lt→ltb 0 period some_period))

  try_entry-bare :
      (m0 : Momentum D) (token : ℕ) (ltp : D) (now : ℕ) (capital current_price : D)
      → d.le (of_ℕ 0) (of_ℕ 0) ≡ true
      → 0 < size_of m0.params.atr_period
      → (state_of (touch m0 token) token).highs ≡ []
      → try_entry m0 token ltp now capital current_price ≡ some (touch m0 token)
  unfolding try_entry enter_at
  try_entry-bare m0 token ltp now capital current_price zero_le period bare =
      let m = touch m0 token in
      let s = state_of m token in
      if_elim (λ (o : Option (Momentum D)). o ≡ some m)
        (leb_ℤ m.params.max_positions (pos (active_count m.states))) (some m)
        (atr s.closes (size_of m.params.atr_period) s.highs s.lows >>= λ atr_val.
          some (enter_at m token ltp now capital current_price atr_val))
        (λ h. refl)
        (λ h.
          ap
            (λ (o : Option D).
              o >>= λ atr_val. some (enter_at m token ltp now capital current_price atr_val))
            (atr-bare s.closes (size_of m.params.atr_period) s.highs s.lows period bare)
          ∙ ap (λ (x : Momentum D). some x) (if_true m _ zero_le))

  evaluate_signal-bare :
      (m : Momentum D) (token now : ℕ) (capital current_price : D)
      → d.le (of_ℕ 0) (of_ℕ 0) ≡ true
      → 0 < size_of m.params.atr_period
      → All IsDormant m.states
      → (m' : Momentum D) × (evaluate_signal m token now capital current_price ≡ some m')
        × IsIdle m m'
  evaluate_signal-bare m token now capital current_price zero_le period dormant =
      let s = state_of m token in
      let h = lookup-dormant token m.states dormant in
      let t = touch m token in
      let tt_h = All-insert token s m.states h dormant in
      let h2 = lookup-dormant token t.states tt_h in
      let t2_h = All-insert token (state_of t token) t.states h2 tt_h in
      evaluate_cases (λ o. (m' : Momentum D) × (o ≡ some m') × IsIdle m m') m token now capital
        current_price (t, refl, (tt_h, (refl, refl)))
        (λ warm flat. (
          touch t token,
          try_entry-bare t token (state_of t token).last_ltp now capital current_price zero_le
              period (lookup-dormant token (touch t token).states t2_h).0,
          (t2_h, (refl, refl)),
        ))

  on_tick-bare :
      (m : Momentum D) (tick : NormalizedTick D) (now : ℕ)
      → All IsDormant m.states
      → IsIdle m (on_tick_momentum m tick now)
  unfolding on_tick_momentum
  on_tick-bare m tick now dormant =
      let h = lookup-dormant tick.instrument_token m.states dormant in
      let kept : All IsDormant (with_ltp m tick).states =
        All-insert tick.instrument_token _ m.states h dormant in
      if_elim (λ (x : Momentum D). IsIdle m x) (not m.alive) m _ (λ e. (dormant, (refl, refl)))
        (λ e.
          if_elim (λ (x : Momentum D). IsIdle m x) (state_of m tick.instrument_token).in_position _
            (with_ltp m tick) (λ held. absurd (grind arith)) (λ e. (kept, (refl, refl))))

  -- One call after the other.
  unfoldable pub run_plugin : Momentum D → List (PluginCall D) → Option (Momentum D)
  run_plugin m [] = some m
  run_plugin m (ticked tick now ∷ cs) = run_plugin (on_tick_momentum m tick now) cs
  run_plugin m (signalled token now capital current_price ∷ cs) = do
    m' ← evaluate_signal m token now capital current_price
    run_plugin m' cs

  pub run_plugin-idle :
      (cs : List (PluginCall D)) (m : Momentum D)
      → d.le (of_ℕ 0) (of_ℕ 0) ≡ true
      → 0 < size_of m.params.atr_period
      → All IsDormant m.states
      → (m' : Momentum D) × (run_plugin m cs ≡ some m') × (m'.orders ≡ m.orders)
  unfolding run_plugin
  run_plugin-idle [] m zero_le period dormant = (m, refl, refl)
  run_plugin-idle (ticked tick now ∷ cs) m zero_le period dormant =
      let m1 = on_tick_momentum m tick now in
      let (dormant1, (params, orders)) = on_tick-bare m tick now dormant in
      let (m', ran, same) = run_plugin-idle cs m1 zero_le (rw params period) dormant1 in
      (m', ran, same ∙ orders)
  run_plugin-idle (signalled token now capital current_price ∷ cs) m zero_le period dormant =
      let (m1, ran1, (dormant1, (params, orders))) =
        evaluate_signal-bare m token now capital current_price zero_le period dormant in
      let (m', ran, same) = run_plugin-idle cs m1 zero_le (rw params period) dormant1 in
      (m', ap (λ o. o >>= λ x. run_plugin x cs) ran1 ∙ ran, same ∙ orders)
