-- ===== src/Tests/Limits.antt =====
-- Runs of cpp/risk.
use mathlib.Core.Bool.{false≢true}
use quantforge_engine.Prelude.{nat_eq, false, [], ◌∷◌, ◌≤◌, ◌≡◌, ◌≢◌, ◌↔◌, refl, arith, lookup}
use quantforge_engine.Prelude.Int.{pos, ◌+ℤ◌, ◌-ℤ◌, ◌*ℤ◌, neg_ℤ, abs_ℤ}
use quantforge_engine.Prelude.Text.{codes, text_eq, text_beq_iff}
use quantforge_engine.Doubles.Fixed.{Fixed, fixed_double, Fixed-IsOrdered}
use quantforge_engine.Types.{RiskDecision}
use quantforge_engine.Risk.TokenBucket.{TokenBucket}
use quantforge_engine.Risk.Gate.{RiskEngine, risk_init, is_strategy_halted, current_price, check}
use quantforge_engine.Risk.Bursts.{IsRefill, grants, grants-le-burst}
use quantforge_engine.Risk.MarketHours.{is_open, CountsAsOpen}
use quantforge_engine.Risk.Decisions.{Granted, WithinLimits, check_pass}
use quantforge_engine.Tests.{buy_ten, strategy, holdings}

Fixed-IsRefill : IsRefill Fixed
unfolding fixed_double ◌+ℤ◌ ◌-ℤ◌ ◌*ℤ◌ neg_ℤ abs_ℤ
Fixed-IsRefill = record {
  not-one-le-zero = refl;
  sub_one = λ n x h le. ground arith;
  of_ℕ_num = λ n. ground arith;
  no_time = λ x rate h. ground arith;
}

-- Two orders a second, bursts of four, three tokens left at the time 1000.
abbrev bucket : TokenBucket Fixed
bucket = record { max_rate = pos 2; burst = pos 4; tokens = pos 3_000; last_refill_ns = 1000 }

abbrev engine : RiskEngine Fixed
engine = record (risk_init) {
  rate_limiters = (codes "mom", bucket) ∷ (codes "arb", bucket) ∷ [];
  price_cache = (7, pos 100_000) ∷ [];
}

grants-le-burst_example : grants bucket 5000 9 ≤ 4
grants-le-burst_example =
    grants-le-burst Fixed-IsOrdered Fixed-IsRefill bucket 5000 9 4 (omega arith) refl

check_pass_example :
    ((check engine buy_ten strategy holdings (is_open 4 10 3) 2000).1 ≡ RiskDecision.pass) ↔ (
      (engine.global_kill_switch ≡ false)
      × (is_strategy_halted engine (codes "mom") ≡ false)
      × CountsAsOpen 4 10 3
      × Granted (lookup (codes "mom") engine.rate_limiters) 2000
      × WithinLimits buy_ten strategy holdings (current_price engine 7))
check_pass_example =
    check_pass engine buy_ten strategy holdings 4 10 3 2000 (omega arith) (omega arith)

mom_not_arb : codes "mom" ≢ codes "arb"
mom_not_arb e = false≢true ((text_beq_iff (codes "mom") (codes "arb")).1 e)
