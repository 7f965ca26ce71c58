-- ===== src/Portfolio/FillLoop.antt =====
-- `fill_loop`, the fill-processing thread of cpp/portfolio/portfolio_engine.cpp.
use quantforge_engine.Prelude.{
  ℕ, zero, suc, ◌≤◌, ◌≡◌, refl, ap, ◌∙◌, inl, inr, Bool, true, false, Option, none, some, List, [],
  ◌∷◌, arith, ◌==◌, if◌then◌else◌, Bool-cases, length,
}
use mathlib.Core.Path.{ap₂}
use quantforge_engine.Doubles.{Double}
use quantforge_engine.Types.{Fill, blank_fill}
use quantforge_engine.Spsc.{Spsc, spsc_pop, spsc_try_pop}
use quantforge_engine.Spsc.Refine.{IsValid, contents, spsc_pop_refines}
use quantforge_engine.Portfolio.Engine.{Portfolio, process_fill}
use quantforge_engine.Portfolio.Quantities.{process_all}

-- What `try_pop` answers, by what `pop` does.
abbrev pub popped : {T : Type 0} → T → Spsc T × Option T → Spsc T × T × Bool
popped out (q, none) = (q, out, false)
popped out (q, some x) = (q, x, true)

try_pop-pop :
    {T : Type 0} (blank out : T) (q : Spsc T)
    → spsc_try_pop blank q out ≡ popped out (spsc_pop blank q)
unfolding spsc_pop spsc_try_pop
try_pop-pop blank out q = elim (Bool-cases (q.read_pos == q.write_pos)) [
  | inl h ↦ rw h
  | inr h ↦ rw h
]

length-zero {ℓ} : {A : Type ℓ} (xs : List A) → length xs ≡ 0 → xs ≡ []
length-zero [] h = refl
length-zero (x ∷ xs) h = absurd (omega arith)

module _ {D : Type 0} ⦃d : Double D⦄ where
  unfoldable pub loop_body :
      Portfolio D → Spsc (Fill D) × Fill D × Bool → Portfolio D × Spsc (Fill D)
  loop_body e (q, fill, got) = if got then (process_fill e fill, q) else (e, q)

  -- `rounds` rounds of `fill_loop`, with nothing pushed in between.
  unfoldable pub fill_loop : ℕ → Portfolio D × Spsc (Fill D) → Portfolio D × Spsc (Fill D)
  unfolding loop_body
  fill_loop zero s = s
  fill_loop (suc rounds) (e, q) =
      fill_loop rounds (loop_body e (spsc_try_pop blank_fill q blank_fill))

  -- As many rounds as the queue holds fills process every fill exactly once, oldest first, and leave
  -- the queue empty; more rounds change nothing.
  pub fill_loop_drains :
      (rounds : ℕ) (e : Portfolio D) (q : Spsc (Fill D))
      → IsValid q
      → length (contents blank_fill q) ≤ rounds
      → ((fill_loop rounds (e, q)).0 ≡ process_all e (contents blank_fill q))
        × (contents blank_fill (fill_loop rounds (e, q)).1 ≡ [])
  unfolding fill_loop loop_body process_all
  fill_loop_drains zero e q v h =
      let none_left = length-zero (contents blank_fill q) (omega arith) in (rw none_left, none_left)
  fill_loop_drains (suc rounds) e q v h =
      let (v', out) = spsc_pop_refines blank_fill q v in
      let got = try_pop-pop blank_fill blank_fill q in
      elim out [
        | inl (nothing, r, same) ↦
            let got' = got ∙ ap₂ (λ a o. popped blank_fill (a, o)) same r in
            rw (fill_loop, got') (fill_loop_drains rounds e q v (nothing_held nothing))
        | inr (x, split, r) ↦
            let got' = got ∙ ap (λ o. popped blank_fill ((spsc_pop blank_fill q).0, o)) r in
            rw (fill_loop, got')
              (rw split (
                fill_loop_drains rounds (process_fill e x) (spsc_pop blank_fill q).0 v'
                  (one_less split)))
      ]
    where
      nothing_held : contents blank_fill q ≡ [] → length (contents blank_fill q) ≤ rounds
      nothing_held nothing = rw nothing (omega arith)

      one_less :
          {x : Fill D}
          → contents blank_fill q ≡ x ∷ contents blank_fill (spsc_pop blank_fill q).0
          → length (contents blank_fill (spsc_pop blank_fill q).0) ≤ rounds
      one_less split = omega (arith, ap length split)
