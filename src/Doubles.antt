-- ===== src/Doubles.antt =====
-- The `double` of the engine: a type with the operations that the code calls. The type and its
-- arithmetic belong to the platform (IEEE 754), so they are a parameter of every definition.
pub mod Fixed
use quantforge_engine.Prelude.{
  ℕ, ◌+◌, ◌*◌, ◌/◌, ◌^◌, ◌≡◌, ◌⊎◌, Bool, true, false, not, arith, if◌then◌else◌, ltb,
}
use quantforge_engine.Prelude.Int.{
  ℤ, pos, negsuc, ◌+ℤ◌, ◌-ℤ◌, ◌*ℤ◌, neg_ℤ, abs_ℤ, ltb_ℤ, leb_ℤ, pos_part, neg_part, int_laws, sub_ℕ,
}

-- `gt x y` of the source is `lt y x` here, and `x >= y` is `le y x`.
pub record Double (D : Type 0) : Type 0 where
  pub of_int : ℤ → D  -- static_cast<double>, and the implicit conversions from integers
  pub decimal : ℕ → ℕ → D  -- the literal m / 10 ^ k
  pub truncate : D → ℤ  -- static_cast<int>
  pub add : D → D → D
  pub sub : D → D → D
  pub mul : D → D → D
  pub div : D → D → D
  pub neg : D → D
  pub abs : D → D  -- std::abs
  pub lt : D → D → Bool
  pub le : D → D → Bool

module _ {D : Type 0} ⦃d : Double D⦄ where
  abbrev pub of_ℕ : ℕ → D
  of_ℕ n = d.of_int (pos n)

  -- `std::min(a, b)` and `std::max(a, b)` return `a` unless `b` is strictly better.
  unfoldable pub fmin : D → D → D
  fmin a b = if d.lt b a then b else a

  unfoldable pub fmax : D → D → D
  fmax a b = if d.lt a b then b else a

infix 4 ◌≼◌
abbrev pub ◌≼◌ : {D : Type 0} ⦃d : Double D⦄ → D → D → Type 0
◌≼◌ ⦃d⦄ x y = d.le x y ≡ true

-- What IEEE 754 says of its comparisons: NaN is the value that is not `<=` itself, and away from it
-- `<=` is a total order with `<` as its strict part.
pub record IsOrdered (D : Type 0) ⦃d : Double D⦄ : Type 0 where
  pub refl_of_le : (x y : D) → x ≼ y → (x ≼ x) × (y ≼ y)
  pub le_trans : (x y z : D) → x ≼ y → y ≼ z → x ≼ z
  pub le_total : (x y : D) → x ≼ x → y ≼ y → (x ≼ y) ⊎ (y ≼ x)
  pub lt-eq-not-le : (x y : D) → x ≼ x → y ≼ y → d.lt x y ≡ not (d.le y x)
  pub le_of_lt : (x y : D) → d.lt x y ≡ true → x ≼ y
