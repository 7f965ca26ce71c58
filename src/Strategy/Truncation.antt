-- ===== src/Strategy/Truncation.antt =====
-- Strategy ids that are too long for the arrays of cpp/common/types.hpp.
use quantforge_engine.Prelude.{
  ℕ, zero, suc, ◌≤◌, ◌≡◌, refl, ap, ◌∙◌, inl, inr, false, List, [], ◌∷◌, arith, if_false,
  Bool-cases, All, length, take,
}
use quantforge_engine.Prelude.Int.{ℤ}
use quantforge_engine.Prelude.Text.{Text, c_str, strncpy, strncmp_eq, text_beq_iff}
use quantforge_engine.Doubles.{Double}
use quantforge_engine.Types.{Order, max_strategy_len}
use quantforge_engine.Oms.Manager.{make_fill}
use quantforge_engine.Strategy.Manager.{IStrategy, LoadedStrategy, dispatch_fill}

length-c_str : (x : Text) → length (c_str x) ≤ length x
length-c_str [] = omega arith
length-c_str (c ∷ cs) = let ih = length-c_str cs in ground arith

length-take_le : (n : ℕ) (x : Text) → length (take n x) ≤ n
length-take_le zero x = omega arith
length-take_le (suc n) [] = omega arith
length-take_le (suc n) (c ∷ cs) = let ih = length-take_le n cs in omega arith

length-take : (n : ℕ) (x : Text) → n ≤ length x → length (take n x) ≡ n
length-take zero x h = refl
length-take (suc n) [] h = absurd (omega arith)
length-take (suc n) (c ∷ cs) h = ap suc (length-take n cs (omega arith))

length-take_short : (n : ℕ) (x : Text) → length (take n x) ≤ length x
length-take_short zero x = omega arith
length-take_short (suc n) [] = omega arith
length-take_short (suc n) (c ∷ cs) = let ih = length-take_short n cs in omega arith

-- What fits into an array of 32 with its zero differs from a longer text.
truncated :
    (long short : Text)
    → 32 ≤ length (c_str long)
    → strncmp_eq long (strncpy short 31) max_strategy_len ≡ false
truncated long short h = elim (Bool-cases (strncmp_eq long (strncpy short 31) 32)) [
  | inr differ ↦ differ
  | inl same ↦
      let e : length (take 32 (c_str long)) ≡ length (take 32 (c_str (strncpy short 31))) =
        ap length
          ((text_beq_iff (take 32 (c_str long)) (take 32 (c_str (strncpy short 31)))).0 same) in
      let full = length-take 32 (c_str long) h in
      let cut = length-take_short 32 (c_str (strncpy short 31)) in
      let read : length (c_str (strncpy short 31)) ≤ length (take 31 (c_str short)) =
        length-c_str (strncpy short 31) in
      let copied = length-take_le 31 (c_str short) in absurd (omega arith)
]

module _ {D : Type 0} ⦃d : Double D⦄ {S : Type 0} (plugin : IStrategy D S) where
  -- A strategy whose id has 32 characters or more never hears of a fill: the ids of the order manager's
  -- fills are cut off after 31, so none of its fills changes any such strategy.
  pub dispatch_fill_long :
      (ss : List (LoadedStrategy D S)) (o : Order D) (oid : Text) (price : D) (qty : ℤ) (tid : Text)
      (now : ℕ)
      → All (λ (s : LoadedStrategy D S). 32 ≤ length (c_str s.config.id)) ss
      → dispatch_fill plugin ss (make_fill o oid price qty tid now) ≡ ss
  unfolding dispatch_fill make_fill
  dispatch_fill_long [] o oid price qty tid now hs = refl
  dispatch_fill_long (s ∷ ss) o oid price qty tid now (h, hs) =
      if_false _ _ (truncated s.config.id o.strategy_id h)
      ∙ ap (λ t. s ∷ t) (dispatch_fill_long ss o oid price qty tid now hs)
