-- ===== src/Strategy/Entry.antt =====
-- cpp/strategy/plugins/momentum_strategy.cpp: when evaluate_signal sends an order.
use mathlib.Core.Path.{subst}
use quantforge_engine.Prelude.{
  ℕ, ◌+◌, ◌*◌, ◌≤◌, ◌<◌, ◌≡◌, ◌≢◌, ◌⊎◌, inl, inr, refl, ap, ◌∙◌, arith, true, false, not, Option,
  none, some, List, insert, lookup-insert_self, nat_eq, if◌then◌else◌, if_elim, if_false, lt→ltb,
  Bool-cases, ◌>>=◌,
}
use quantforge_engine.Prelude.Int.{ℤ, pos, leb_ℤ, ◌+ℤ◌}
use quantforge_engine.Doubles.{Double, of_ℕ}
use quantforge_engine.Types.{OrderRequest, Side}
use quantforge_engine.Strategy.Params.{size_of}
use quantforge_engine.Strategy.Momentum.{
  InstrumentState, Momentum, state_of, state_or_blank, is_ready, ema, place_market,
}
use quantforge_engine.Strategy.Signal.{
  touch, with_levels, entry_tag, active_count, atr, compute_qty, enter, enter_at, try_entry,
  is_zero, cooling, separation, evaluate_signal, entry_side,
}

module _ {D : Type 0} ⦃d : Double D⦄ where
  -- What was returned sent no order, or has the time of the signal.
  abbrev Stamped : List (OrderRequest D) → ℕ → ℕ → Option (Momentum D) → Type 0
  Stamped os token now none = Unit
  Stamped os token now (some m) = (m.orders ≡ os) ⊎ ((state_of m token).last_signal_ts ≡ now)

  enter-Stamped :
      (m : Momentum D) (token : ℕ) (ltp : D) (now : ℕ) (side : Side) (qty : ℤ) (atr_val : D)
      → Stamped m.orders token now (some (enter m token ltp now side qty atr_val))
  unfolding enter place_market
  enter-Stamped m token ltp now side qty atr_val = elim (Bool-cases (leb_ℤ qty (pos 0))) [
    | inl h ↦ inl (rw h)
    | inr h ↦
        let placed =
          place_market
            (record m { states = insert token (with_levels m token ltp now side atr_val) m.states })
            token side qty (entry_tag side) now in
        inr (
          ap (λ (x : Momentum D). (state_of x token).last_signal_ts) (if_false m placed h)
          ∙ ap (λ o. (state_or_blank o).last_signal_ts)
              (lookup-insert_self token (with_levels m token ltp now side atr_val) m.states))
  ]

  enter_at-Stamped :
      (m : Momentum D) (token : ℕ) (ltp : D) (now : ℕ) (capital current_price atr_val : D)
      → Stamped m.orders token now (some (enter_at m token ltp now capital current_price atr_val))
  unfolding enter_at
  enter_at-Stamped m token ltp now capital current_price atr_val =
      elim (Bool-cases (d.le atr_val (of_ℕ 0))) [
        | inl h ↦ inl (rw h)
        | inr h ↦ rw h (
            enter-Stamped m token ltp now
              (entry_side (ema (state_of m token).closes (size_of m.params.ema_fast))
                (ema (state_of m token).closes (size_of m.params.ema_slow)))
              (compute_qty m token atr_val capital current_price) atr_val)
      ]

  bind-Stamped :
      (m : Momentum D) (token : ℕ) (ltp : D) (now : ℕ) (capital current_price : D) (o : Option D)
      → Stamped m.orders token now
          (o >>= λ atr_val. some (enter_at m token ltp now capital current_price atr_val))
  bind-Stamped m token ltp now capital current_price none = tt
  bind-Stamped m token ltp now capital current_price (some atr_val) =
      enter_at-Stamped m token ltp now capital current_price atr_val

  try_entry-Stamped :
      (m0 : Momentum D) (token : ℕ) (ltp : D) (now : ℕ) (capital current_price : D)
      → Stamped m0.orders token now (try_entry m0 token ltp now capital current_price)
  unfolding try_entry
  try_entry-Stamped m0 token ltp now capital current_price =
      let m = touch m0 token in
      if_elim (λ (o : Option (Momentum D)). Stamped m0.orders token now o)
        (leb_ℤ m.params.max_positions (pos (active_count m.states))) (some m)
        (atr (state_of m token).closes (size_of m.params.atr_period) (state_of m token).highs
            (state_of m token).lows
          >>= λ atr_val. some (enter_at m token ltp now capital current_price atr_val))
        (λ h. inl refl)
        (λ h. bind-Stamped m token ltp now capital current_price (
          atr (state_of m token).closes (size_of m.params.atr_period) (state_of m token).highs
            (state_of m token).lows))

  -- An evaluation makes sure that the instrument has a state, or tries an entry.
  pub evaluate_cases :
      (P : Option (Momentum D) → Type 0) (m0 : Momentum D) (token now : ℕ)
      (capital current_price : D)
      → let m = touch m0 token in
        P (some m)
        → (cooling (state_of m token) now ≡ false
            → (state_of m token).in_position ≡ false
            → P (try_entry m token (state_of m token).last_ltp now capital current_price))
        → P (evaluate_signal m0 token now capital current_price)
  unfolding evaluate_signal
  evaluate_cases P m0 token now capital current_price stays tries =
      let m = touch m0 token in
      let s = state_of m token in
      let fast = ema s.closes (size_of m.params.ema_fast) in
      let slow = ema s.closes (size_of m.params.ema_slow) in
      let tried = try_entry m token s.last_ltp now capital current_price in
      let strong = d.le m.params.min_signal_strength (d.abs (separation fast slow)) in
      let at_signal = if strong then tried else some m in
      let at_position = if s.in_position then some m else at_signal in
      let at_cooldown = if cooling s now then some m else at_position in
      if_elim P (not (is_ready s.closes (size_of (m.params.ema_slow +ℤ pos 5)))) (some m)
        (if is_zero slow then some m else at_cooldown) (λ h. stays)
        (λ h.
          if_elim P (is_zero slow) (some m) at_cooldown (λ h. stays)
            (λ h.
              if_elim P (cooling s now) (some m) at_position (λ h. stays)
                (λ warm.
                  if_elim P s.in_position (some m) at_signal (λ h. stays)
                    (λ flat. if_elim P strong tried (some m) (λ h. tries warm flat) (λ h. stays)))))

  evaluate_signal-Stamped :
      (m0 : Momentum D) (token now : ℕ) (capital current_price : D)
      → Stamped m0.orders token now (evaluate_signal m0 token now capital current_price)
  evaluate_signal-Stamped m0 token now capital current_price =
      let m = touch m0 token in
      evaluate_cases (λ o. Stamped m0.orders token now o) m0 token now capital current_price
        (inl refl)
        (λ warm flat.
          try_entry-Stamped m token (state_of m token).last_ltp now capital current_price)

  cooling_lem :
      (s : InstrumentState D) (now later : ℕ)
      → s.last_signal_ts ≡ now
      → now ≤ later
      → later < now + 300 * 1_000_000_000
      → cooling s later ≡ true
  cooling_lem s now later at lo hi = lt→ltb _ _ (rw at (omega arith))

  evaluate_signal-cooling :
      (m0 : Momentum D) (token now : ℕ) (capital current_price : D)
      → cooling (state_of (touch m0 token) token) now ≡ true
      → evaluate_signal m0 token now capital current_price ≡ some (touch m0 token)
  evaluate_signal-cooling m0 token now capital current_price cool =
      evaluate_cases (λ o. o ≡ some (touch m0 token)) m0 token now capital current_price refl
        (λ warm flat. absurd (grind arith))

  -- For highs and lows that were recorded, which no code does: if an evaluation of an instrument's signal
  -- returns and sent an order, then another one of the
  -- instrument, less than five minutes later, returns and sends none: it only makes sure that the
  -- instrument has a state.
  pub evaluate_signal-cooldown :
      (m m' : Momentum D) (token now later : ℕ) (capital current_price capital' current_price' : D)
      → evaluate_signal m token now capital current_price ≡ some m'
      → m'.orders ≢ m.orders
      → now ≤ later
      → later < now + 300 * 1_000_000_000
      → evaluate_signal m' token later capital' current_price' ≡ some (touch m' token)
  evaluate_signal-cooldown m m' token now later capital current_price capital' current_price' ran
        sent lo hi =
      elim (subst (λ o. Stamped m.orders token now o) ran
        (evaluate_signal-Stamped m token now capital current_price)) [
          | inl same ↦ absurd (sent same)
          | inr stamped ↦ evaluate_signal-cooling m' token later capital' current_price' (
              cooling_lem (state_of (touch m' token) token) now later
                (ap (λ o. (state_or_blank o).last_signal_ts)
                    (lookup-insert_self token (state_of m' token) m'.states)
                  ∙ stamped)
                lo hi)
        ]
