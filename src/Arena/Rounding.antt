-- ===== src/Arena/Rounding.antt =====
-- The rounding in cpp/common/arena_allocator.hpp: `& ~(align - 1)` for a power of two.
use native.Mathlib.Nat.{pow-succ', pow-le-pow_right, div-div-eq-div-mul, mul_assoc, mul_comm}
use quantforge_engine.Prelude.{
  ℕ, zero, suc, ◌+◌, ◌-◌, ◌*◌, ◌/◌, ◌%◌, ◌^◌, ◌≤◌, ◌<◌, ◌≡◌, arith, ap, ◌∙◌, sym,
}
use quantforge_engine.Arena.{bit_and, minus_one, bit_not, align_up}

pub pow_pos : (k : ℕ) → 0 < 2 ^ k
pow_pos zero = omega arith
pow_pos (suc k) = omega (arith, pow-succ' 2 k, pow_pos k)

-- All bits, of `m` bits.
bit_and-ones : (m x : ℕ) → x < 2 ^ m → bit_and m x (2 ^ m - 1) ≡ x
unfolding bit_and
bit_and-ones zero x lt = omega arith
bit_and-ones (suc m) x lt =
    let e = pow-succ' 2 m in
    let p = pow_pos m in
    let odd : (2 ^ suc m - 1) % 2 ≡ 1 = omega arith in
    let half : (2 ^ suc m - 1) / 2 ≡ 2 ^ m - 1 = omega arith in
    rw (odd, half, bit_and-ones m (x / 2) (omega arith)) (omega arith)

twice : (a q r : ℕ) → r * 0 + 2 * (a * q) ≡ a * (2 * q)
twice a q r =
    let e : r * 0 + 2 * (a * q) ≡ 2 * (a * q) = omega arith in
    e ∙ sym (mul_assoc 2 a q) ∙ (ap (λ (n : ℕ). n * q) (mul_comm 2 a) ∙ mul_assoc a 2 q)

-- All bits from the one numbered `k` on, of `m` bits.
bit_and-mask : (m k x : ℕ) → k ≤ m → x < 2 ^ m → bit_and m x (2 ^ m - 2 ^ k) ≡ x / 2 ^ k * 2 ^ k
unfolding bit_and
bit_and-mask m zero x le lt = bit_and-ones m x lt ∙ omega arith
bit_and-mask zero (suc k) x le lt = absurd (omega arith)
bit_and-mask (suc m) (suc k) x le lt =
    let e = pow-succ' 2 m in
    let e' = pow-succ' 2 k in
    let even : (2 ^ suc m - 2 ^ suc k) % 2 ≡ 0 = omega arith in
    let half : (2 ^ suc m - 2 ^ suc k) / 2 ≡ 2 ^ m - 2 ^ k = omega arith in
    rw (even, half, bit_and-mask m k (x / 2) (omega arith) (omega arith))
      (twice (x / 2 / 2 ^ k) (2 ^ k) (x % 2)
        ∙ ap (λ (n : ℕ). n * (2 * 2 ^ k)) (div-div-eq-div-mul x 2 (2 ^ k))
        ∙ ap (λ (n : ℕ). x / n * n) (sym e'))

-- For an alignment that is a power of two, the source rounds up to a multiple of it.
pub align_up-pow :
    (cur k : ℕ) → k ≤ 6 → cur ≤ 2 ^ 62 → align_up cur (2 ^ k) ≡ (cur + 2 ^ k - 1) / 2 ^ k * 2 ^ k
unfolding align_up
align_up-pow cur k small low =
    let p = pow_pos k in
    let high : 2 ^ k ≤ 2 ^ 6 = pow-le-pow_right (omega arith) small in
    let from : minus_one (cur + 2 ^ k) ≡ cur + 2 ^ k - 1 = omega arith in
    let mask : bit_not (minus_one (2 ^ k)) ≡ 2 ^ 64 - 2 ^ k = omega arith in
    rw (from, mask) (bit_and-mask 64 k (cur + 2 ^ k - 1) (omega arith) (omega arith))
