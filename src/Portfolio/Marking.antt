-- ===== src/Portfolio/Marking.antt =====
-- Prices and results in cpp/portfolio/portfolio_engine.cpp: marking to market, turning a position round
-- and closing it.
use quantforge_engine.Prelude.{
  ℕ, ◌≡◌, refl, sym, ap, ◌∙◌, ◌≢◌, ◌⊎◌, inl, inr, false, none, some, arith, ◌==◌, if◌then◌else◌,
  if_true, if_false, Option-cases, lookup, nat_eq, lookup-insert, lookup-insert_self,
}
use quantforge_engine.Prelude.Int.{ℤ, pos, ◌+ℤ◌, neg_ℤ, eqb_ℤ, int_laws, ◌<ℤ◌}
use quantforge_engine.Doubles.{Double, of_ℕ}
use quantforge_engine.Types.{Fill, Position, PortfolioSnapshot, position_or_blank}
use quantforge_engine.Portfolio.Engine.{
  Portfolio, qty_delta, claim_position, same_direction, reduce_position, apply_fill, fill_snapshot,
  position_of, process_fill, mark, mark_found, total_upnl, update_price,
}
use quantforge_engine.Portfolio.Quantities.{snapshot-process_fill}

over_tests :
    (q delta : ℤ)
    → pos 0 <ℤ q
    → q +ℤ delta <ℤ pos 0
    → (eqb_ℤ q (pos 0) ≡ false) × (same_direction delta q ≡ false)
over_tests q delta long over =
    let below : delta <ℤ pos 0 = omega int_laws in (ground arith, ground arith)

negative_test : (q : ℤ) → q <ℤ pos 0 → eqb_ℤ q (pos 0) ≡ false
negative_test q h = ground arith

close_tests :
    (q delta : ℤ)
    → q ≢ pos 0
    → delta ≡ neg_ℤ q
    → (eqb_ℤ q (pos 0) ≡ false) × (same_direction delta q ≡ false)
unfolding neg_ℤ
close_tests q delta h e = rw e (ground arith, ground arith)

+ℤ-neg_ℤ : (q : ℤ) → q +ℤ neg_ℤ q ≡ pos 0
+ℤ-neg_ℤ q = omega int_laws

module _ {D : Type 0} ⦃d : Double D⦄ where
  abbrev pub position_at : Portfolio D → ℕ → Position D
  position_at e token = position_or_blank (lookup token e.snapshot.positions)

  -- A price changes the position of its instrument only, if there is one, and then the total is the
  -- sum over all positions; a price of an instrument with no position changes nothing.
  pub update_price_lem :
      (e : Portfolio D) (token other : ℕ) (price : D)
      → let t = update_price e token price in
        ((lookup token e.snapshot.positions ≡ none) × (t ≡ e))
        ⊎ ((p : Position D) × (lookup token e.snapshot.positions ≡ some p)
            × (lookup token t.snapshot.positions ≡ some (mark p price))
            × (t.snapshot.total_unrealized_pnl ≡ total_upnl (of_ℕ 0) t.snapshot.positions)
            × (lookup other t.snapshot.positions ≡ (
                if token == other then some (mark p price) else lookup other e.snapshot.positions)))
  unfolding update_price mark_found
  update_price_lem e token other price = elim (Option-cases (lookup token e.snapshot.positions)) [
    | inl e0 ↦ inl (e0, rw e0)
    | inr (p, e1) ↦ rw e1 (
        inr (
          p,
          refl,
          lookup-insert_self token (mark p price) e.snapshot.positions,
          refl,
          lookup-insert token other (mark p price) e.snapshot.positions,
        ))
  ]

  position-process_fill :
      (e : Portfolio D) (f : Fill D)
      → position_at (process_fill e f) f.instrument_token ≡ apply_fill (position_of e.snapshot f) f
  unfolding fill_snapshot
  position-process_fill e f =
      ap (λ (s : PortfolioSnapshot D). position_or_blank (lookup f.instrument_token s.positions))
        (snapshot-process_fill e f)
      ∙ ap position_or_blank (lookup-insert_self f.instrument_token _ e.snapshot.positions)

  -- A position of a known instrument is not claimed again.
  claimed :
      (e : Portfolio D) (f : Fill D)
      → (position_at e f.instrument_token).instrument_token ≢ 0
      → position_of e.snapshot f ≡ position_at e f.instrument_token
  unfolding claim_position
  claimed e f known =
      let held = position_at e f.instrument_token in
      if_false {b = held.instrument_token == 0} _ _ (ground arith)

  apply_fill_over :
      (p : Position D) (f : Fill D)
      → pos 0 <ℤ p.quantity
      → p.quantity +ℤ qty_delta f <ℤ pos 0
      → apply_fill p f ≡ reduce_position p f
  unfolding apply_fill
  apply_fill_over p f long over =
      let (open_before, against) = over_tests p.quantity (qty_delta f) long over in
      if_false _ _ open_before ∙ if_false _ _ against

  reduced_over :
      (p : Position D) (f : Fill D)
      → p.quantity +ℤ qty_delta f <ℤ pos 0
      → ((reduce_position p f).quantity <ℤ pos 0) × ((reduce_position p f).avg_price ≡ p.avg_price)
  unfolding reduce_position
  reduced_over p f over = (over, if_false _ _ (negative_test _ over))

  apply_fill_close :
      (p : Position D) (f : Fill D)
      → p.quantity ≢ pos 0
      → qty_delta f ≡ neg_ℤ p.quantity
      → apply_fill p f ≡ reduce_position p f
  unfolding apply_fill
  apply_fill_close p f open_before closes =
      let (before, against) = close_tests p.quantity (qty_delta f) open_before closes in
      if_false _ _ before ∙ if_false _ _ against

  reduced_flat :
      (p : Position D) (f : Fill D)
      → qty_delta f ≡ neg_ℤ p.quantity
      → (reduce_position p f).quantity ≡ pos 0
  unfolding reduce_position
  reduced_flat p f closes = ap (λ q. p.quantity +ℤ q) closes ∙ +ℤ-neg_ℤ p.quantity

  -- A flat position keeps its unrealized result under every price.
  position-update_price :
      (e : Portfolio D) (token : ℕ) (price : D)
      → (position_at e token).quantity ≡ pos 0
      → ((position_at (update_price e token price) token).quantity ≡ pos 0)
        × ((position_at (update_price e token price) token).unrealized_pnl
            ≡ (position_at e token).unrealized_pnl)
  unfolding update_price mark_found mark
  position-update_price e token price flat =
      elim (Option-cases (lookup token e.snapshot.positions)) [
        | inl e0 ↦ rw e0 (rw e0 (refl, refl))
        | inr (p, e1) ↦
            let none_held : p.quantity ≡ pos 0 =
              sym (ap (λ o. (position_or_blank o).quantity) e1) ∙ flat in
            rw e1 (
              rw (lookup-insert_self token (mark p price) e.snapshot.positions) (
                none_held,
                if_true {b = eqb_ℤ p.quantity (pos 0)} _ _ (ap (λ q. eqb_ℤ q (pos 0)) none_held),
              ))
      ]

  -- A fill against the position that is larger than it turns the position round, at a sign opposite to
  -- before, but its average price stays that of the closed position, not the price of the fill.
  pub process_fill_flip :
      (e : Portfolio D) (f : Fill D)
      → (position_at e f.instrument_token).instrument_token ≢ 0
      → pos 0 <ℤ (position_at e f.instrument_token).quantity
      → (position_at e f.instrument_token).quantity +ℤ qty_delta f <ℤ pos 0
      → let old = position_at e f.instrument_token in
        let new = position_at (process_fill e f) f.instrument_token in
        (new.quantity <ℤ pos 0) × (new.avg_price ≡ old.avg_price)
  process_fill_flip e f known long over =
      let old = position_at e f.instrument_token in
      let new : position_at (process_fill e f) f.instrument_token ≡ reduce_position old f =
        position-process_fill e f
        ∙ (ap (λ p. apply_fill p f) (claimed e f known) ∙ apply_fill_over old f long over) in
      rw new (reduced_over old f over)

  -- A fill that closes a position leaves its unrealized result as it was, and no later price of the
  -- instrument changes it: it stays in the total.
  pub process_fill_close :
      (e : Portfolio D) (f : Fill D) (price : D)
      → (position_at e f.instrument_token).instrument_token ≢ 0
      → (position_at e f.instrument_token).quantity ≢ pos 0
      → qty_delta f ≡ neg_ℤ (position_at e f.instrument_token).quantity
      → let old = position_at e f.instrument_token in
        let marked = update_price (process_fill e f) f.instrument_token price in
        let new = position_at marked f.instrument_token in
        (new.quantity ≡ pos 0) × (new.unrealized_pnl ≡ old.unrealized_pnl)
  process_fill_close e f price known open_before closes =
      let token = f.instrument_token in
      let old = position_at e token in
      let done = process_fill e f in
      let closed : position_at done token ≡ reduce_position old f =
        position-process_fill e f
        ∙ (ap (λ p. apply_fill p f) (claimed e f known)
            ∙ apply_fill_close old f open_before closes) in
      let flat : (position_at done token).quantity ≡ pos 0 =
        ap (λ (p : Position D). p.quantity) closed ∙ reduced_flat old f closes in
      let kept = position-update_price done token price flat in
      (
        kept.0,
        kept.1
            ∙ (ap (λ (p : Position D). p.unrealized_pnl) closed ∙ (unfold reduce_position in refl)),
      )
