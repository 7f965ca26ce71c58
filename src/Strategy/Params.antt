-- ===== src/Strategy/Params.antt =====
-- cpp/strategy/plugins/momentum_strategy.cpp and .hpp: the parameters of the momentum strategy and
-- update_params. eod_flatten_hhmm_, which nothing reads, is left out.
use quantforge_engine.Prelude.{ℕ, ◌+◌, ◌-◌, ◌^◌, Option, none, some, List, lookup}
use quantforge_engine.Prelude.Int.{ℤ, pos, negsuc}
use quantforge_engine.Prelude.Text.{Text, codes, text_eq}
use quantforge_engine.Doubles.{Double}

pub record MomentumParams (D : Type 0) : Type 0 where
  pub ema_fast : ℤ
  pub ema_slow : ℤ
  pub atr_period : ℤ
  pub atr_sl_multiplier : D
  pub atr_tp_multiplier : D
  pub risk_pct : D
  pub max_positions : ℤ
  pub min_signal_strength : D

-- An int as a size_t.
abbrev pub size_of : ℤ → ℕ
size_of (pos n) = n
size_of (negsuc n) = 2 ^ 64 - (n + 1)

module _ {D : Type 0} ⦃d : Double D⦄ where
  abbrev pub default_params : MomentumParams D
  default_params = record {
    ema_fast = pos 9;
    ema_slow = pos 21;
    atr_period = pos 14;
    atr_sl_multiplier = d.decimal 15 1;
    atr_tp_multiplier = d.decimal 30 1;
    risk_pct = d.decimal 1 2;
    max_positions = pos 3;
    min_signal_strength = d.decimal 2 3;
  }

  -- The lambda `g`, at an int and at a double.
  abbrev pub int_param : Option D → ℤ → ℤ
  int_param none dest = dest
  int_param (some x) dest = d.truncate x

  abbrev pub double_param : Option D → D → D
  double_param none dest = dest
  double_param (some x) dest = x

  unfoldable pub update_params : MomentumParams D → List (Text × D) → MomentumParams D
  update_params m p = record {
    ema_fast = int_param (lookup (codes "ema_fast") p) m.ema_fast;
    ema_slow = int_param (lookup (codes "ema_slow") p) m.ema_slow;
    atr_period = int_param (lookup (codes "atr_period") p) m.atr_period;
    atr_sl_multiplier = double_param (lookup (codes "atr_sl_multiplier") p) m.atr_sl_multiplier;
    atr_tp_multiplier = double_param (lookup (codes "atr_tp_multiplier") p) m.atr_tp_multiplier;
    risk_pct = double_param (lookup (codes "risk_pct") p) m.risk_pct;
    max_positions = int_param (lookup (codes "max_positions") p) m.max_positions;
    min_signal_strength =
        double_param (lookup (codes "min_signal_strength") p) m.min_signal_strength;
  }
