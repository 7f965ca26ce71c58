-- ===== src/Portfolio/Quantities.antt =====
-- The quantities that the fills of cpp/portfolio/portfolio_engine.cpp add up to.
use quantforge_engine.Prelude.{
  ℕ, ◌≡◌, refl, ap, ◌∙◌, inl, inr, true, List, [], ◌∷◌, arith, ◌==◌, ==_iff, if◌then◌else◌, if_elim,
  Bool-cases, lookup, nat_eq, lookup-insert,
}
use quantforge_engine.Prelude.Int.{ℤ, pos, neg_ℤ, ◌+ℤ◌, eqb_ℤ, int_laws}
use quantforge_engine.Doubles.{Double}
use quantforge_engine.Types.{Side, Fill, Position, PortfolioSnapshot, position_or_blank}
use quantforge_engine.Portfolio.Engine.{
  Portfolio, is_buy, qty_delta, claim_position, same_direction, open_position, add_to_position,
  reduce_position, apply_fill, fill_snapshot, position_of, emit_update, process_fill,
}

-- A bought quantity counts up, a sold one down.
abbrev pub signed : Side → ℤ → ℤ
signed Side.buy quantity = quantity
signed Side.sell quantity = neg_ℤ quantity

qty_delta-signed : {D : Type 0} (f : Fill D) → qty_delta f ≡ signed f.side f.quantity
unfolding qty_delta
qty_delta-signed f =
    elim f.side
      as (λ s. (if is_buy s then f.quantity else neg_ℤ f.quantity) ≡ signed s f.quantity) [
        | Side.buy ↦ refl
        | Side.sell ↦ refl
      ]

-- What the fills of one instrument add up to.
unfoldable pub net : {D : Type 0} → ℕ → List (Fill D) → ℤ
net token [] = pos 0
net token (f ∷ fs) =
    (if f.instrument_token == token then signed f.side f.quantity else pos 0) +ℤ net token fs

unfoldable pub process_all : {D : Type 0} ⦃d : Double D⦄ → Portfolio D → List (Fill D) → Portfolio D
process_all e [] = e
process_all e (f ∷ fs) = process_all (process_fill e f) fs

+ℤ_assoc : (a b c : ℤ) → a +ℤ b +ℤ c ≡ a +ℤ (b +ℤ c)
+ℤ_assoc a b c = omega int_laws

flat_sum : (a b : ℤ) → eqb_ℤ a (pos 0) ≡ true → b ≡ a +ℤ b
flat_sum a b h = let z : a ≡ pos 0 = ground arith in rw z (omega int_laws)

module _ {D : Type 0} ⦃d : Double D⦄ where
  -- The open quantity of an instrument.
  abbrev pub quantity_of : Portfolio D → ℕ → ℤ
  quantity_of e token = (position_or_blank (lookup token e.snapshot.positions)).quantity

  quantity-claim_position :
      (p : Position D) (f : Fill D) → (claim_position p f).quantity ≡ p.quantity
  unfolding claim_position
  quantity-claim_position p f =
      if_elim (λ (q : Position D). q.quantity ≡ p.quantity) (p.instrument_token == 0) _ _
        (λ _. refl) (λ _. refl)

  quantity-apply_fill :
      (p : Position D) (f : Fill D) → (apply_fill p f).quantity ≡ p.quantity +ℤ qty_delta f
  unfolding apply_fill open_position add_to_position reduce_position
  quantity-apply_fill p f =
      let P = λ (q : Position D). q.quantity ≡ p.quantity +ℤ qty_delta f in
      if_elim P (eqb_ℤ p.quantity (pos 0)) _ _ (λ flat. flat_sum p.quantity (qty_delta f) flat)
        (λ _. if_elim P (same_direction (qty_delta f) p.quantity) _ _ (λ _. refl) (λ _. refl))

  pub snapshot-process_fill :
      (e : Portfolio D) (f : Fill D) → (process_fill e f).snapshot ≡ fill_snapshot e.snapshot f
  unfolding process_fill emit_update
  snapshot-process_fill e f =
      if_elim (λ (x : Portfolio D). x.snapshot ≡ fill_snapshot e.snapshot f) e.has_update_cb _ _
        (λ _. refl) (λ _. refl)

  quantity-process_fill :
      (e : Portfolio D) (f : Fill D) (token : ℕ)
      → quantity_of (process_fill e f) token
        ≡ quantity_of e token
          +ℤ (if f.instrument_token == token then signed f.side f.quantity else pos 0)
  unfolding fill_snapshot
  quantity-process_fill e f token =
      let p = position_of e.snapshot f in
      let map = e.snapshot.positions in
      let new = apply_fill p f in
      let here = lookup-insert f.instrument_token token new map ∙ refl in
      ap (λ (s : PortfolioSnapshot D). (position_or_blank (lookup token s.positions)).quantity)
        (snapshot-process_fill e f)
      ∙ elim (Bool-cases (f.instrument_token == token)) [
        | inl same ↦
            let e1 = (==_iff _ token).0 same in
            rw (here, same)
              ((quantity-apply_fill p f ∙ ap (λ q. p.quantity +ℤ q) (qty_delta-signed f))
                ∙ ap (λ q. q +ℤ signed f.side f.quantity)
                    (quantity-claim_position _ f
                      ∙ ap (λ t. (position_or_blank (lookup t map)).quantity) e1))
        | inr other ↦ rw (here, other) (omega int_laws)
      ]

  -- Whatever branches they take, the fills of an instrument add up in its position: after any list
  -- of fills, of any instruments and in any order, the quantity is the old one plus the signed
  -- quantities of the instrument's own fills.
  pub quantity-process_all :
      (e : Portfolio D) (fs : List (Fill D)) (token : ℕ)
      → quantity_of (process_all e fs) token ≡ quantity_of e token +ℤ net token fs
  unfolding process_all net
  quantity-process_all e [] token = omega int_laws
  quantity-process_all e (f ∷ fs) token =
      quantity-process_all (process_fill e f) fs token
      ∙ (ap (λ q. q +ℤ net token fs) (quantity-process_fill e f token)
          ∙ +ℤ_assoc (quantity_of e token) _ (net token fs))
