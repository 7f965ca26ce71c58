-- ===== src/Risk/Bursts.antt =====
-- How many orders the limiter of cpp/risk/token_bucket.hpp can grant at one instant.
use mathlib.Core.Bool.{false≢true}
use quantforge_engine.Prelude.{
  ℕ, zero, suc, ◌+◌, ◌-◌, ◌%◌, ◌^◌, ◌≤◌, ◌<◌, ◌≡◌, refl, sym, ap, ◌∙◌, ◌⊎◌, inl, inr, Bool, true,
  false, not, arith, if◌then◌else◌, Bool-cases,
}
use quantforge_engine.Prelude.Int.{ℤ, pos}
use quantforge_engine.Doubles.{Double, of_ℕ, fmin, ◌≼◌, IsOrdered}
use quantforge_engine.Risk.TokenBucket.{TokenBucket, elapsed_s, refilled, try_consume}

-- What IEEE 754 gives of the arithmetic here: 1 is above 0, the rounded difference of a number that is
-- at most the integer n + 1 and of 1 is at most n, and no time adds nothing.
pub record IsRefill (D : Type 0) ⦃d : Double D⦄ : Type 0 where
  pub not-one-le-zero : d.le (of_ℕ 1) (of_ℕ 0) ≡ false
  pub sub_one : (n : ℕ) (x : D) → n < 2 ^ 53 → x ≼ of_ℕ (suc n) → d.sub x (of_ℕ 1) ≼ of_ℕ n
  pub of_ℕ_num : (n : ℕ) → ◌≼◌ {D = D} (of_ℕ n) (of_ℕ n)
  pub no_time :
      (x : D) (rate : ℤ)
      → let y = d.add x (d.mul (d.div (of_ℕ 0) (of_ℕ 1_000_000_000)) (d.of_int rate)) in
        y ≼ y → y ≼ x

-- How many of n calls at the time `now` are granted.
unfoldable pub grants : {D : Type 0} ⦃d : Double D⦄ → TokenBucket D → ℕ → ℕ → ℕ
grants b now zero = 0
grants b now (suc n) =
    let (b', granted) = try_consume b now in
    let rest = grants b' now n in if granted then suc rest else rest

module _ {D : Type 0} ⦃d : Double D⦄ (order : IsOrdered D) (law : IsRefill D) where
  -- At most k tokens, or not a number.
  abbrev AtMost : ℕ → D → Type 0
  AtMost k x = (x ≼ of_ℕ k) ⊎ (¬ (x ≼ x))

  num_or_not : (x : D) → (x ≼ x) ⊎ (¬ (x ≼ x))
  num_or_not x = elim (Bool-cases (d.le x x)) [ inl num ↦ inl num | inr nan ↦ inr (λ num. cc) ]

  -- The two cases of `std::min`.
  fmin_cases : (a b : D) → b ≼ b → ((fmin a b ≡ b) × (b ≼ a)) ⊎ ((fmin a b ≡ a) × (a ≼ a → a ≼ b))
  unfolding fmin
  fmin_cases a b hb = elim (Bool-cases (d.lt b a)) [
    | inl less ↦ inl (rw less, order.le_of_lt b a less)
    | inr more ↦
        inr (rw more, λ ha. not_false (d.le a b) (sym (order.lt-eq-not-le b a hb ha) ∙ more))
  ]
    where
      not_false : (t : Bool) → not t ≡ false → t ≡ true
      not_false true h = refl
      not_false false h = cc

  -- The tokens that the refill adds to.
  abbrev topped : TokenBucket D → ℕ → D
  topped b now = d.add b.tokens (d.mul (elapsed_s b now) (d.of_int b.max_rate))

  refilled-AtMost_burst :
      (b : TokenBucket D) (now k : ℕ) → b.burst ≡ pos k → AtMost k (refilled b now)
  unfolding refilled
  refilled-AtMost_burst b now k e =
      let cap : d.of_int b.burst ≡ of_ℕ k = ap d.of_int e in
      elim (fmin_cases (topped b now) (d.of_int b.burst) (rw cap (law.of_ℕ_num k))) [
        | inl (same, _) ↦ rw (same, cap) (inl (law.of_ℕ_num k))
        | inr (same, below) ↦ rw same (elim (num_or_not (topped b now)) [
          | inl num ↦ inl (rw cap at below num)
          | inr nan ↦ inr nan
        ])
      ]

  topped_again :
      (b : TokenBucket D) (now : ℕ)
      → b.last_refill_ns ≡ now
      → topped b now ≼ topped b now
      → topped b now ≼ b.tokens
  topped_again b now e num =
      let zero_ns : (now + 2 ^ 64 - b.last_refill_ns) % 2 ^ 64 ≡ 0 = omega arith in
      let none_elapsed : elapsed_s b now ≡ d.div (of_ℕ 0) (of_ℕ 1_000_000_000) =
        unfold elapsed_s in ap (λ n. d.div (of_ℕ n) (of_ℕ 1_000_000_000)) zero_ns in
      let same = ap (λ t. d.add b.tokens (d.mul t (d.of_int b.max_rate))) none_elapsed in
      rw same (law.no_time b.tokens b.max_rate (rw same at num))

  -- No tokens come in at the time of the last refill.
  refilled-AtMost_tokens :
      (b : TokenBucket D) (now j k : ℕ)
      → b.burst ≡ pos k
      → b.last_refill_ns ≡ now
      → AtMost j b.tokens
      → AtMost j (refilled b now)
  unfolding refilled
  refilled-AtMost_tokens b now j k e last few =
      let cap : d.of_int b.burst ≡ of_ℕ k = ap d.of_int e in
      elim (fmin_cases (topped b now) (d.of_int b.burst) (rw cap (law.of_ℕ_num k))) [
        | inl (same, under) ↦ rw same (
            inl (
              order.le_trans _ _ _ under
                (below (topped_again b now last (order.refl_of_le _ _ under).1))))
        | inr (same, _) ↦ rw same (elim (num_or_not (topped b now)) [
          | inl num ↦ inl (below (topped_again b now last num))
          | inr nan ↦ inr nan
        ])
      ]
    where
      below : topped b now ≼ b.tokens → topped b now ≼ of_ℕ j
      below h = elim few [
        | inl le ↦ order.le_trans _ _ _ h le
        | inr nan ↦ absurd (nan (order.refl_of_le _ _ h).1)
      ]

  -- One call with at most j tokens after its refill: a token is granted only if there is one, and it
  -- is then taken.
  grants-le :
      (n : ℕ) (b : TokenBucket D) (now j k : ℕ)
      → j < 2 ^ 53
      → b.burst ≡ pos k
      → AtMost j (refilled b now)
      → grants b now n ≤ j
  unfolding grants try_consume
  grants-le zero b now j k hj e few = omega arith
  grants-le (suc n) b now j k hj e few =
      let t = refilled b now in
      let kept : TokenBucket D = record b { tokens = t; last_refill_ns = now } in
      let spent : TokenBucket D = record b { tokens = d.sub t (of_ℕ 1); last_refill_ns = now } in
      elim (Bool-cases (d.le (of_ℕ 1) t)) [
        | inr dry ↦
            rw dry (grants-le n kept now j k hj e (refilled-AtMost_tokens kept now j k e refl few))
        | inl wet ↦
            let (i, same, left) = spend j hj few wet in
            let rest =
              grants-le n spent now i k (omega arith) e
                (refilled-AtMost_tokens spent now i k e refl (inl left)) in
            rw wet (omega arith)
      ]
    where
      spend :
          (j : ℕ)
          → j < 2 ^ 53
          → AtMost j (refilled b now)
          → of_ℕ 1 ≼ refilled b now
          → (i : ℕ) × (j ≡ suc i) × (d.sub (refilled b now) (of_ℕ 1) ≼ of_ℕ i)
      spend j hj (inr nan) wet = absurd (nan (order.refl_of_le _ _ wet).1)
      spend zero hj (inl le) wet =
          absurd (false≢true (sym law.not-one-le-zero ∙ order.le_trans _ _ _ wet le))
      spend (suc i) hj (inl le) wet = (i, refl, law.sub_one i _ (omega arith) le)

  -- However many orders a strategy sends at one instant, and however long the limiter was idle before,
  -- no more of them are granted than its burst.
  pub grants-le-burst :
      (b : TokenBucket D) (now n k : ℕ) → k < 2 ^ 53 → b.burst ≡ pos k → grants b now n ≤ k
  grants-le-burst b now n k hk e = grants-le n b now k k hk e (refilled-AtMost_burst b now k e)
