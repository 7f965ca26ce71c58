-- ===== src/MarketData/Shapes.antt =====
-- The shape of the candles of cpp/market_data/candle_builder.hpp.
use quantforge_engine.Prelude.{
  ℕ, zero, suc, ◌+◌, ◌-◌, ◌*◌, ◌%◌, ◌^◌, ◌≡◌, refl, sym, ◌∙◌, inl, inr, true, false, not, ◌&&◌,
  ◌||◌, some, List, [], ◌∷◌, arith, ◌==◌, if◌then◌else◌, Bool-cases, Option-cases, if_elim, All,
  All-append, lookup, insert, Eq,
}
use quantforge_engine.Doubles.{Double, of_ℕ, fmin, fmax, ◌≼◌, IsOrdered}
use quantforge_engine.Types.{NormalizedTick, Candle}
use quantforge_engine.MarketData.Candles.{
  BarKey, key_eq, BarState, CandleBuilder, intervals, interval_ns, calls_of, register_callback,
  candle_of, emit_candle, bar_start, new_bar, candles_init, extend_bar, roll_bar, update_bar,
  update_each, on_tick, flush_each, flush_all,
}

-- A property of all entries of a map.
All-insert :
    {K : Type 0} {V : Type 0} ⦃e : Eq K⦄ (P : K × V → Type 0) (k : K) (v : V) (m : List (K × V))
    → P (k, v)
    → All P m
    → All P (insert k v m)
All-insert P k v [] p h = (p, tt)
All-insert ⦃e⦄ P k v ((j, w) ∷ m) p (q, h) = elim (Bool-cases (e.beq j k)) [
  | inl hit ↦ rw hit (p, h)
  | inr miss ↦ rw miss (q, All-insert P k v m p h)
]

All-lookup :
    {K : Type 0} {V : Type 0} ⦃e : Eq K⦄ (P : K × V → Type 0) (k : K) (v : V) (m : List (K × V))
    → All P m
    → lookup k m ≡ some v
    → P (k, v)
All-lookup P k v [] h found = absurd (cc)
All-lookup ⦃e⦄ P k v ((j, w) ∷ m) (q, h) found = elim (Bool-cases (e.beq j k)) [
  | inl hit ↦
      let same : j ≡ k = (e.beq_iff j k).0 hit in
      let here : w ≡ v = ground arith in rw (← same, ← here) q
  | inr miss ↦ All-lookup P k v m h (rw miss at found)
]

-- What comes to the builder.
pub data Event (D : Type 0) : Type 0 where
  registers : Event D
  ticks : NormalizedTick D → Event D
  flushes : ℕ → ℕ → Event D

module _ {D : Type 0} ⦃d : Double D⦄ where
  -- The range holds the first and the last price, and the candle starts where an interval does.
  pub record IsShaped (c : Candle D) : Type 0 where
    pub low_open : c.low ≼ c.open_price
    pub open_high : c.open_price ≼ c.high
    pub low_close : c.low ≼ c.close
    pub close_high : c.close ≼ c.high
    pub start : (m : ℕ) × (c.open_ts_ns ≡ m * interval_ns c.interval_sec)

  unfoldable pub handle : CandleBuilder D → Event D → CandleBuilder D
  handle b registers = register_callback b
  handle b (ticks t) = on_tick b t
  handle b (flushes ts_ns clock) = flush_all b ts_ns clock

  unfoldable pub run : CandleBuilder D → List (Event D) → CandleBuilder D
  run b [] = b
  run b (e ∷ es) = run (handle b e) es

  -- The price of a tick is a number.
  abbrev pub IsPriced : Event D → Type 0
  IsPriced registers = Unit
  IsPriced (ticks t) = t.ltp ≼ t.ltp
  IsPriced (flushes ts_ns clock) = Unit

  abbrev ShapedEntry : BarKey × BarState D → Type 0
  ShapedEntry (k, bar) = IsShaped (candle_of bar 0) × (bar.interval_sec ≡ k.interval)

  abbrev ShapedCall : ℕ × Candle D → Type 0
  ShapedCall call = IsShaped call.1

  abbrev AllShaped : CandleBuilder D → Type 0
  AllShaped b = All ShapedEntry b.open_bars × All ShapedCall b.calls

  IsShaped-candle_of :
      (bar : BarState D) (close : ℕ) → IsShaped (candle_of bar 0) → IsShaped (candle_of bar close)
  IsShaped-candle_of bar close s = record {
    low_open = s.low_open;
    open_high = s.open_high;
    low_close = s.low_close;
    close_high = s.close_high;
    start = s.start;
  }

  All-calls_of : (n : ℕ) (c : Candle D) → IsShaped c → All ShapedCall (calls_of n c)
  All-calls_of zero c s = tt
  All-calls_of (suc n) c s = (s, All-calls_of n c s)

  calls-emit_candle :
      (b : CandleBuilder D) (bar : BarState D) (close : ℕ)
      → IsShaped (candle_of bar 0)
      → All ShapedCall b.calls
      → All ShapedCall (emit_candle b bar close).calls
  unfolding emit_candle
  calls-emit_candle b bar close s h =
      All-append ShapedCall (calls_of b.callbacks (candle_of bar close)) b.calls
        (All-calls_of b.callbacks (candle_of bar close) (IsShaped-candle_of bar close s)) h

  module _ (order : IsOrdered D) where
    fmax-bounds : (a b : D) → a ≼ a → b ≼ b → (a ≼ fmax a b) × (b ≼ fmax a b)
    unfolding fmax
    fmax-bounds a b ha hb = elim (Bool-cases (d.lt a b)) [
      | inl up ↦ rw up (order.le_of_lt a b up, hb)
      | inr down ↦ rw down (ha, not_false (sym (order.lt-eq-not-le a b ha hb) ∙ down))
    ]
      where
        not_false : not (d.le b a) ≡ false → b ≼ a
        not_false h = ground arith

    fmin-bounds : (a b : D) → a ≼ a → b ≼ b → (fmin a b ≼ a) × (fmin a b ≼ b)
    unfolding fmin
    fmin-bounds a b ha hb = elim (Bool-cases (d.lt b a)) [
      | inl down ↦ rw down (order.le_of_lt b a down, hb)
      | inr up ↦ rw up (ha, not_false (sym (order.lt-eq-not-le b a hb ha) ∙ up))
    ]
      where
        not_false : not (d.le a b) ≡ false → a ≼ b
        not_false h = ground arith

    IsShaped-new_bar :
        (t : NormalizedTick D) (interval : ℕ)
        → t.ltp ≼ t.ltp
        → IsShaped (candle_of (new_bar t interval) 0)
    IsShaped-new_bar t interval num = record {
      low_open = num;
      open_high = num;
      low_close = num;
      close_high = num;
      start = (_, refl);
    }

    IsShaped-extend_bar :
        (bar : BarState D) (t : NormalizedTick D)
        → t.ltp ≼ t.ltp
        → IsShaped (candle_of bar 0)
        → IsShaped (candle_of (extend_bar bar t) 0)
    unfolding extend_bar
    IsShaped-extend_bar bar t num s =
        let high = fmax-bounds bar.high t.ltp (order.refl_of_le _ _ s.open_high).1 num in
        let low = fmin-bounds bar.low t.ltp (order.refl_of_le _ _ s.low_open).0 num in
        record {
          low_open = order.le_trans _ _ _ low.0 s.low_open;
          open_high = order.le_trans _ _ _ s.open_high high.0;
          low_close = low.1;
          close_high = high.1;
          start = s.start;
        }

    AllShaped-roll_bar :
        (b : CandleBuilder D) (bar : BarState D) (t : NormalizedTick D) (interval : ℕ)
        → t.ltp ≼ t.ltp
        → (bar.initialized ≡ true → IsShaped (candle_of bar 0))
        → AllShaped b
        → AllShaped (roll_bar b bar t interval)
    unfolding roll_bar
    AllShaped-roll_bar b bar t interval num s (bars, calls) =
        let key : BarKey = record { token = t.instrument_token; interval = interval } in
        let close = (bar.bar_start_ns + interval_ns interval - 1) % 2 ^ 64 in
        let entered =
          All-insert ShapedEntry key (new_bar t interval) b.open_bars
            (IsShaped-new_bar t interval num, refl) bars in
        if_elim
          (λ (x : CandleBuilder D).
            AllShaped (record x { open_bars = insert key (new_bar t interval) x.open_bars }))
          (bar.initialized && d.lt (of_ℕ 0) bar.open_price) (emit_candle b bar close) b
          (λ ended.
            (unfold emit_candle in entered, calls-emit_candle b bar close (s (ground arith)) calls))
          (λ _. (entered, calls))

    AllShaped-update_bar :
        (b : CandleBuilder D) (t : NormalizedTick D) (interval : ℕ)
        → t.ltp ≼ t.ltp
        → AllShaped b
        → AllShaped (update_bar b t interval)
    unfolding update_bar
    AllShaped-update_bar b t interval num (bars, calls) =
        let key : BarKey = record { token = t.instrument_token; interval = interval } in
        elim (Option-cases (lookup key b.open_bars)) [
          | inl e0 ↦ rw e0 (AllShaped-roll_bar b _ t interval num (λ h. cc) (bars, calls))
          | inr (bar, e1) ↦
              let (s, k) = All-lookup ShapedEntry key bar b.open_bars bars e1 in
              rw e1 (
                if_elim AllShaped
                  (not bar.initialized || not (bar.bar_start_ns == bar_start t interval)) _ _
                  (λ _. AllShaped-roll_bar b bar t interval num (λ _. s) (bars, calls))
                  (λ _. (
                    All-insert ShapedEntry key (extend_bar bar t) b.open_bars
                        (IsShaped-extend_bar bar t num s, (unfold extend_bar in k)) bars,
                    calls,
                  )))
        ]

    AllShaped-update_each :
        (b : CandleBuilder D) (t : NormalizedTick D) (is : List ℕ)
        → t.ltp ≼ t.ltp
        → AllShaped b
        → AllShaped (update_each b t is)
    unfolding update_each
    AllShaped-update_each b t [] num h = h
    AllShaped-update_each b t (i ∷ is) num h =
        AllShaped-update_each (update_bar b t i) t is num (AllShaped-update_bar b t i num h)

    calls-flush_each :
        (b : CandleBuilder D) (bars : List (BarKey × BarState D)) (now : ℕ)
        → All ShapedEntry bars
        → All ShapedCall b.calls
        → All ShapedCall (flush_each b bars now).calls
    unfolding flush_each
    calls-flush_each b [] now hs h = h
    calls-flush_each b ((k, bar) ∷ bars) now (s, hs) h =
        calls-flush_each (if d.lt (of_ℕ 0) bar.open_price then emit_candle b bar now else b) bars
          now hs
          (if_elim (λ (x : CandleBuilder D). All ShapedCall x.calls) (d.lt (of_ℕ 0) bar.open_price)
            _ _ (λ _. calls-emit_candle b bar now s.0 h) (λ _. h))

    AllShaped-run :
        (b : CandleBuilder D) (es : List (Event D))
        → All IsPriced es
        → AllShaped b
        → AllShaped (run b es)
    unfolding run handle register_callback on_tick flush_all
    AllShaped-run b [] ps h = h
    AllShaped-run b (registers ∷ es) (_, ps) h = AllShaped-run (register_callback b) es ps h
    AllShaped-run b (ticks t ∷ es) (p, ps) h =
        AllShaped-run (on_tick b t) es ps (AllShaped-update_each b t intervals p h)
    AllShaped-run b (flushes ts_ns clock ∷ es) (_, ps) h =
        AllShaped-run (flush_all b ts_ns clock) es ps (tt, calls-flush_each b b.open_bars _ h.0 h.1)

    -- Whatever ticks with numbers for prices come, in any order of instruments and times, with callbacks
    -- registered and bars flushed in between, every candle that a callback gets has its first and
    -- last price between its low and its high, and starts at a multiple of its interval.
    pub run-IsShaped :
        (es : List (Event D))
        → All IsPriced es
        → All (λ (call : ℕ × Candle D). IsShaped call.1) (run candles_init es).calls
    run-IsShaped es ps = (AllShaped-run candles_init es ps (tt, tt)).1
