-- ===== src/Prelude/Modulus.antt =====
-- Places in a ring: remainders of numbers that are close to each other.
use native.Mathlib.Nat.{mod-add-mod, mod-eq-sub-mod, mod-eq_of_lt, mod-lt}
use native.Mathlib.Decide.{dec_lt}
use native.Mathlib.Omega.{arith}
use Prim.Native.Nat.{ℕ, ◌+◌, ◌-◌, ◌%◌, ◌≤◌, ◌<◌}
use mathlib.Core.Path.{◌≡◌, ap, ◌∙◌}
use mathlib.Core.Logic.{◌≢◌, ◌⊎◌, inl, inr}

-- A sum of two positions goes round once at most.
pub mod_cases : (a n : ℕ) → a < n + n → ((a < n) × (a % n ≡ a)) ⊎ ((n ≤ a) × (a % n + n ≡ a))
mod_cases a n h = elim (dec_lt a n) [
  | yes p ↦ inl (p, mod-eq_of_lt p)
  | no p ↦ inr (
    omega arith,
    omega (
      arith,
      mod-eq-sub-mod {n = a} {m = n} (omega arith),
      mod-eq_of_lt {n = a - n} {m = n} (omega arith),
    ),
  )
]

-- Two numbers less than the size apart have different places.
pub mod_apart : (j n size : ℕ) → j < n → n < j + size → j % size ≢ n % size
mod_apart j n size lo hi e =
    let low = mod-lt j {m = size} (omega arith) in
    let split : (j % size + (n - j)) % size ≡ n % size =
      mod-add-mod j size (n - j) ∙ ap (λ (m : ℕ). m % size) (omega arith) in
    let c = mod_cases (j % size + (n - j)) size (omega arith) in omega arith
