-- ===== src/MarketData/Dropped.antt =====
-- Which ticks cpp/market_data/tick_normalizer.cpp lets through, and where they go.
use quantforge_engine.Prelude.{
  ℕ, ◌+◌, ◌^◌, ◌<◌, ◌≡◌, refl, sym, ap, ◌∙◌, ◌↔◌, ◌⊎◌, inl, inr, Bool, true, false, not, ◌&&◌, List,
  [], ◌∷◌, arith, if◌then◌else◌, if_elim, if_true, if_false, Bool-cases, length,
}
use quantforge_engine.Doubles.{Double, of_ℕ, ◌≼◌, IsOrdered}
use quantforge_engine.Types.{NormalizedTick}
use quantforge_engine.MarketData.Candles.{CandleBuilder, on_tick}
use quantforge_engine.MarketData.FanOut.{push_all}
use quantforge_engine.MarketData.Normalizer.{
  TickNormalizer, deviation, count_stale, count_rejected, validate, forward, normalize,
}

module _ {D : Type 0} ⦃d : Double D⦄ where
  -- More than half is more than a fifth.
  fifth_of_half :
      (order : IsOrdered D) (x : D)
      → d.lt (d.decimal 20 2) (d.decimal 5 1) ≡ true
      → d.lt (d.decimal 5 1) x ≡ true
      → d.lt (d.decimal 20 2) x ≡ true
  fifth_of_half order x apart over =
      let low : d.decimal 20 2 ≼ d.decimal 5 1 = order.le_of_lt _ _ apart in
      let high : d.decimal 5 1 ≼ x = order.le_of_lt _ _ over in
      let fifth = (order.refl_of_le _ _ low).0 in
      let half = (order.refl_of_le _ _ low).1 in
      let num = (order.refl_of_le _ _ high).1 in
      let back = order.lt-eq-not-le (d.decimal 20 2) (d.decimal 5 1) fifth half in
      let goal = order.lt-eq-not-le (d.decimal 20 2) x fifth num in
      elim (Bool-cases (d.le x (d.decimal 20 2))) [
        | inr above ↦ ground arith
        | inl under ↦
            let down : d.decimal 5 1 ≼ d.decimal 20 2 = order.le_trans _ _ _ high under in
            ground arith
      ]

  -- A tick is valid exactly if it is not marked stale, its price is not at most 0 and, where there is
  -- an opening price above 0, the price is not off by more than half of that. The test against a fifth
  -- decides nothing, on IEEE comparisons and with a fifth below a half.
  pub validate_lem :
      (order : IsOrdered D) (n : TickNormalizer D) (t : NormalizedTick D)
      → d.lt (d.decimal 20 2) (d.decimal 5 1) ≡ true
      → ((validate n t).1 ≡ true) ↔ (
          (t.is_stale ≡ false)
          × (d.le t.ltp (of_ℕ 0) ≡ false)
          × ((d.lt (of_ℕ 0) t.open_price && d.lt (d.decimal 5 1) (deviation t)) ≡ false))
  unfolding validate
  validate_lem order n t apart =
      let wide = fifth_of_half order (deviation t) apart in (λ h. ground arith, λ h. ground arith)

  abbrev pub passes : NormalizedTick D → Bool
  passes t =
      not t.is_stale
      && not (d.le t.ltp (of_ℕ 0))
      && not (d.lt (of_ℕ 0) t.open_price && d.lt (d.decimal 5 1) (deviation t))

  -- The ticks of a list that pass.
  abbrev pub passing : List (NormalizedTick D) → List (NormalizedTick D)
  passing [] = []
  passing (t ∷ ts) = if passes t then t ∷ passing ts else passing ts

  unfoldable pub normalize_all : TickNormalizer D → List (NormalizedTick D) → TickNormalizer D
  normalize_all n [] = n
  normalize_all n (t ∷ ts) = normalize_all (normalize n t) ts

  unfoldable pub build_all : CandleBuilder D → List (NormalizedTick D) → CandleBuilder D
  build_all b [] = b
  build_all b (t ∷ ts) = build_all (on_tick b t) ts

  -- A tick is passed on and counted, or counted as one of the two kinds that are dropped.
  abbrev Outcome : TickNormalizer D → NormalizedTick D → TickNormalizer D → Type 0
  Outcome n t r =
      ((passes t ≡ true) × (r ≡ forward n t))
      ⊎ ((passes t ≡ false) × ((r ≡ count_stale n) ⊎ (r ≡ count_rejected n)))

  normalize-Outcome :
      (order : IsOrdered D) (n : TickNormalizer D) (t : NormalizedTick D)
      → d.lt (d.decimal 20 2) (d.decimal 5 1) ≡ true
      → Outcome n t (normalize n t)
  unfolding normalize validate
  normalize-Outcome order n t apart =
      let wide = fifth_of_half order (deviation t) apart in
      let good : TickNormalizer D × Bool = (n, true) in
      let bad : TickNormalizer D × Bool = (count_rejected n, false) in
      let P = λ (x : TickNormalizer D × Bool). Outcome n t (if x.1 then forward x.0 t else x.0) in
      if_elim P t.is_stale _ _ (λ stale. inr (ground arith, inl refl))
        (λ fresh.
          if_elim P (d.le t.ltp (of_ℕ 0)) bad _ (λ low. inr (ground arith, inr refl))
            (λ priced.
              if_elim P (d.lt (of_ℕ 0) t.open_price) _ good
                (λ opened.
                  if_elim P (d.lt (d.decimal 20 2) (deviation t)) _ good
                    (λ far.
                      if_elim P (d.lt (d.decimal 5 1) (deviation t)) bad good
                        (λ off. inr (ground arith, inr refl)) (λ near. inl (ground arith, refl)))
                    (λ near. inl (ground arith, refl)))
                (λ unopened. inl (ground arith, refl))))

  abbrev total : TickNormalizer D → ℕ
  total n = n.ticks_processed + n.stale_dropped + n.sanity_rejected

  -- Of any ticks, below the wrap of the counters: exactly those that pass go, in order, to the ring and
  -- to the candles, they are counted, and every tick is in one of the three counters.
  pub normalize_all_lem :
      (order : IsOrdered D) (ts : List (NormalizedTick D)) (n : TickNormalizer D)
      → d.lt (d.decimal 20 2) (d.decimal 5 1) ≡ true
      → n.ticks_processed + n.stale_dropped + n.sanity_rejected + length ts < 2 ^ 64
      → let r = normalize_all n ts in
        (r.disruptor ≡ push_all n.disruptor (passing ts))
        × (r.candle_builder ≡ build_all n.candle_builder (passing ts))
        × (r.ticks_processed ≡ n.ticks_processed + length (passing ts))
        × (r.ticks_processed + r.stale_dropped + r.sanity_rejected
            ≡ n.ticks_processed + n.stale_dropped + n.sanity_rejected + length ts)
  unfolding normalize_all push_all build_all forward
  normalize_all_lem order [] n apart room = (refl, refl, omega arith, omega arith)
  normalize_all_lem order (t ∷ ts) n apart room = elim (normalize-Outcome order n t apart) [
    | inl (pass, e) ↦
        let kept : passing (t ∷ ts) ≡ t ∷ passing ts = if_true _ _ pass in
        let (ring, bars, count, all) =
          normalize_all_lem order ts (forward n t) apart (omega arith) in
        rw (normalize_all, e)
          (
            ring ∙ ap (push_all n.disruptor) (sym kept),
            bars ∙ ap (build_all n.candle_builder) (sym kept),
            omega (arith, count, ap length kept),
            omega (arith, all),
          )
    | inr (drop, inl e) ↦
        let lost : passing (t ∷ ts) ≡ passing ts = if_false _ _ drop in
        let (ring, bars, count, all) =
          normalize_all_lem order ts (count_stale n) apart (omega arith) in
        rw (normalize_all, e)
          (
            ring ∙ ap (push_all n.disruptor) (sym lost),
            bars ∙ ap (build_all n.candle_builder) (sym lost),
            omega (arith, count, ap length lost),
            omega (arith, all),
          )
    | inr (drop, inr e) ↦
        let lost : passing (t ∷ ts) ≡ passing ts = if_false _ _ drop in
        let (ring, bars, count, all) =
          normalize_all_lem order ts (count_rejected n) apart (omega arith) in
        rw (normalize_all, e)
          (
            ring ∙ ap (push_all n.disruptor) (sym lost),
            bars ∙ ap (build_all n.candle_builder) (sym lost),
            omega (arith, count, ap length lost),
            omega (arith, all),
          )
  ]
