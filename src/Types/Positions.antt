-- ===== src/Types/Positions.antt =====
-- Positions and the portfolio snapshot of cpp/common/types.hpp.
use quantforge_engine.Prelude.{
  ℕ, Bool, List, [], ◌∷◌, Option, none, some, if◌then◌else◌, lookup, nat_eq,
}
use quantforge_engine.Prelude.Int.{ℤ, pos, ltb_ℤ, eqb_ℤ, abs_ℤ}
use quantforge_engine.Prelude.Text.{Text, strncmp_eq}
use quantforge_engine.Doubles.{Double, of_ℕ}
use quantforge_engine.Types.Enums.{max_strategy_len}

pub record Position (D : Type 0) : Type 0 where
  pub instrument_token : ℕ
  pub symbol : Text
  pub strategy_id : Text
  pub quantity : ℤ
  pub avg_price : D
  pub current_price : D
  pub realized_pnl : D
  pub unrealized_pnl : D
  pub net_delta : D
  pub net_gamma : D
  pub net_vega : D
  pub net_theta : D

pub record PortfolioSnapshot (D : Type 0) : Type 0 where
  pub positions : List (ℕ × Position D)
  pub total_realized_pnl : D
  pub total_unrealized_pnl : D
  pub available_capital : D
  pub used_margin : D
  pub snapshot_ts_ns : ℕ

module _ {D : Type 0} where
  pub is_long : Position D → Bool
  is_long p = ltb_ℤ (pos 0) p.quantity

  pub is_short : Position D → Bool
  is_short p = ltb_ℤ p.quantity (pos 0)

  pub is_flat : Position D → Bool
  is_flat p = eqb_ℤ p.quantity (pos 0)

module _ {D : Type 0} ⦃d : Double D⦄ where
  -- `Position{}`.
  abbrev pub blank_position : Position D
  blank_position = record {
    instrument_token = 0;
    symbol = [];
    strategy_id = [];
    quantity = pos 0;
    avg_price = of_ℕ 0;
    current_price = of_ℕ 0;
    realized_pnl = of_ℕ 0;
    unrealized_pnl = of_ℕ 0;
    net_delta = of_ℕ 0;
    net_gamma = of_ℕ 0;
    net_vega = of_ℕ 0;
    net_theta = of_ℕ 0;
  }

  unfoldable pub position_value : Position D → D
  position_value p = d.mul (d.of_int (abs_ℤ p.quantity)) p.current_price

  -- `it != end() ? it->second : Position{}`.
  abbrev pub position_or_blank : Option (Position D) → Position D
  position_or_blank none = blank_position
  position_or_blank (some p) = p

  unfoldable pub get_position : PortfolioSnapshot D → ℕ → Position D
  get_position s token = position_or_blank (lookup token s.positions)

  abbrev pub belongs : Text → Position D → Bool
  belongs sid p = strncmp_eq p.strategy_id sid max_strategy_len

  -- The loops of the two sums below, over the positions of one strategy.
  unfoldable pub sum_of : (Position D → D) → Text → D → List (ℕ × Position D) → D
  sum_of f sid total [] = total
  sum_of f sid total ((_, p) ∷ ps) =
      sum_of f sid (if belongs sid p then d.add total (f p) else total) ps

  unfoldable pub strategy_daily_pnl : PortfolioSnapshot D → Text → D
  unfolding sum_of
  strategy_daily_pnl s sid =
      sum_of (λ p. d.add p.realized_pnl p.unrealized_pnl) sid (of_ℕ 0) s.positions

  unfoldable pub strategy_used_capital : PortfolioSnapshot D → Text → D
  unfolding sum_of position_value
  strategy_used_capital s sid = sum_of position_value sid (of_ℕ 0) s.positions
