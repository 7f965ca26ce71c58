-- ===== src/Strategy/Signal.antt =====
-- cpp/strategy/plugins/momentum_strategy.cpp: evaluate_signal, try_entry, compute_qty and
-- PriceSeries::atr, which nothing calls. What the context answers, the capital and the price of the
-- instrument's position, is an argument; `none` where a deque is read out of its range.
use quantforge_engine.Prelude.{
  ℕ, zero, suc, ◌+◌, ◌-◌, ◌*◌, ◌%◌, ◌^◌, Bool, ◌&&◌, ◌||◌, not, Option, none, some, List, [], ◌∷◌,
  length, get_or, ltb, if◌then◌else◌, insert, nat_eq, ◌>>=◌,
}
use quantforge_engine.Prelude.Int.{ℤ, pos, ◌+ℤ◌, ltb_ℤ, leb_ℤ}
use quantforge_engine.Prelude.Text.{Text, codes}
use quantforge_engine.Doubles.{Double, of_ℕ, fmax}
use quantforge_engine.Types.{Side, is_side}
use quantforge_engine.Strategy.Params.{MomentumParams, size_of}
use quantforge_engine.Strategy.Momentum.{
  PriceSeries, InstrumentState, Momentum, state_of, is_ready, ema, place_market,
}

-- `deque[i]`.
abbrev pub at_index : {D : Type 0} → List D → ℕ → Option D
at_index [] i = none
at_index (x ∷ xs) zero = some x
at_index (x ∷ xs) (suc i) = at_index xs i

abbrev pub entry_tag : Side → Text
entry_tag side = if is_side side Side.buy then codes "momentum-long" else codes "momentum-short"

module _ {D : Type 0} where
  -- Count active positions.
  abbrev pub active_count : List (ℕ × InstrumentState D) → ℕ
  active_count [] = 0
  active_count ((token, s) ∷ ss) =
      let rest = active_count ss in if s.in_position then suc rest else rest

module _ {D : Type 0} ⦃d : Double D⦄ where
  -- `states_[token]`, which makes a state that is not there.
  abbrev pub touch : Momentum D → ℕ → Momentum D
  touch m token = record m { states = insert token (state_of m token) m.states }

  -- The previous close is in the series, since the index is below its length.
  abbrev pub true_range : List D → D → D → ℕ → D
  true_range closes h l zero = d.sub h l
  true_range closes h l (suc i) =
      let before = get_or closes i (of_ℕ 0) in
      fmax (fmax (d.sub h l) (d.abs (d.sub h before))) (d.abs (d.sub l before))

  -- The loop of `atr`, from the index `i` on.
  unfoldable pub atr_sum : List D → List D → List D → ℕ → ℕ → D → Option D
  atr_sum closes highs lows i zero sum = some sum
  atr_sum closes highs lows i (suc k) sum = do
    h ← at_index highs i
    l ← at_index lows i
    atr_sum closes highs lows (suc i) k (d.add sum (true_range closes h l i))

  unfoldable pub atr : PriceSeries D → ℕ → List D → List D → Option D
  unfolding atr_sum
  atr s period highs lows =
      if ltb (length s.data_points) ((period + 1) % 2 ^ 64)
        || (ltb (length highs) period || ltb (length lows) period)
      then some (of_ℕ 0)
      else (atr_sum s.data_points highs lows (length s.data_points - period) period (of_ℕ 0)
          >>= λ sum. some (d.div sum (of_ℕ period)))

  -- The price is looked at, but does not enter the quantity.
  unfoldable pub compute_qty : Momentum D → ℕ → D → D → D → ℤ
  compute_qty m token atr_value capital current_price =
      if d.le capital (of_ℕ 0) || d.le atr_value (of_ℕ 0)
      then pos 0
      else if d.le
          (if d.lt (of_ℕ 0) current_price then current_price else (state_of m token).last_ltp)
          (of_ℕ 0)
      then pos 0
      else (let qty = d.truncate (
            d.div (d.mul capital m.params.risk_pct) (d.mul m.params.atr_sl_multiplier atr_value)) in
          if ltb_ℤ (pos 1) qty then qty else pos 1)

  abbrev pub entry_side : D → D → Side
  entry_side fast slow = if d.lt slow fast then Side.buy else Side.sell

  abbrev pub stop_of : MomentumParams D → Side → D → D → D
  stop_of p side ltp atr_val =
      if is_side side Side.buy
      then d.sub ltp (d.mul p.atr_sl_multiplier atr_val)
      else d.add ltp (d.mul p.atr_sl_multiplier atr_val)

  abbrev pub target_of : MomentumParams D → Side → D → D → D
  target_of p side ltp atr_val =
      if is_side side Side.buy
      then d.add ltp (d.mul p.atr_tp_multiplier atr_val)
      else d.sub ltp (d.mul p.atr_tp_multiplier atr_val)

  abbrev pub with_levels : Momentum D → ℕ → D → ℕ → Side → D → InstrumentState D
  with_levels m token ltp now side atr_val = record (state_of m token) {
    stop_price = stop_of m.params side ltp atr_val;
    target_price = target_of m.params side ltp atr_val;
    entry_price = ltp;
    last_signal_ts = now;
  }

  -- The levels and the order, for a quantity.
  unfoldable pub enter : Momentum D → ℕ → D → ℕ → Side → ℤ → D → Momentum D
  enter m token ltp now side qty atr_val =
      if leb_ℤ qty (pos 0)
      then m
      else place_market
          (record m { states = insert token (with_levels m token ltp now side atr_val) m.states })
          token side qty (entry_tag side) now

  -- What follows the average true range.
  unfoldable pub enter_at : Momentum D → ℕ → D → ℕ → D → D → D → Momentum D
  unfolding enter
  enter_at m token ltp now capital current_price atr_val =
      if d.le atr_val (of_ℕ 0)
      then m
      else (let s = state_of m token in
          let side =
            entry_side (ema s.closes (size_of m.params.ema_fast))
              (ema s.closes (size_of m.params.ema_slow)) in
          enter m token ltp now side (compute_qty m token atr_val capital current_price) atr_val)

  unfoldable pub try_entry : Momentum D → ℕ → D → ℕ → D → D → Option (Momentum D)
  unfolding enter_at
  try_entry m0 token ltp now capital current_price =
      let m = touch m0 token in
      if leb_ℤ m.params.max_positions (pos (active_count m.states))
      then some m
      else (let s = state_of m token in
          atr s.closes (size_of m.params.atr_period) s.highs s.lows >>= λ atr_val.
          some (enter_at m token ltp now capital current_price atr_val))

  -- `slow == 0.0`.
  abbrev pub is_zero : D → Bool
  is_zero x = d.le x (of_ℕ 0) && d.le (of_ℕ 0) x

  abbrev pub cooling : InstrumentState D → ℕ → Bool
  cooling s now = ltb ((2 ^ 64 + now - s.last_signal_ts) % 2 ^ 64) (300 * 1_000_000_000)

  abbrev pub separation : D → D → D
  separation fast slow = d.div (d.sub fast slow) slow

  unfoldable pub evaluate_signal : Momentum D → ℕ → ℕ → D → D → Option (Momentum D)
  unfolding try_entry
  evaluate_signal m0 token now capital current_price =
      let m = touch m0 token in
      let s = state_of m token in
      let fast = ema s.closes (size_of m.params.ema_fast) in
      let slow = ema s.closes (size_of m.params.ema_slow) in
      if not (is_ready s.closes (size_of (m.params.ema_slow +ℤ pos 5)))
      then some m
      else if is_zero slow
      then some m
      else if cooling s now
      then some m
      else if s.in_position
      then some m
      else if d.le m.params.min_signal_strength (d.abs (separation fast slow))
      then try_entry m token s.last_ltp now capital current_price
      else some m
