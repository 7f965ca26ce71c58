-- ===== src/MarketData/Bars.antt =====
-- What the bars of cpp/market_data/candle_builder.hpp add up to.
use quantforge_engine.Prelude.{
  ℕ, ◌+◌, ◌-◌, ◌%◌, ◌^◌, ◌≡◌, refl, sym, ap, ◌∙◌, true, not, ◌&&◌, ◌||◌, some, List, [], ◌∷◌, ◌++◌,
  arith, ltb, ◌==◌, ==_iff, if◌then◌else◌, if_true, if_false, All, lookup, insert,
  lookup-insert_self,
}
use quantforge_engine.Doubles.{Double, of_ℕ, fmin, fmax}
use quantforge_engine.Types.{NormalizedTick}
use quantforge_engine.MarketData.Candles.{
  BarKey, key_eq, BarState, CandleBuilder, interval_ns, calls_of, candle_of, emit_candle, bar_start,
  new_bar, bar_or_blank, extend_bar, roll_bar, update_bar,
}

module _ {D : Type 0} ⦃d : Double D⦄ where
  abbrev pub key_of : NormalizedTick D → ℕ → BarKey
  key_of t interval = record { token = t.instrument_token; interval = interval }

  -- The bar of a key.
  abbrev pub bar_at : CandleBuilder D → BarKey → BarState D
  bar_at b key = bar_or_blank (lookup key b.open_bars)

  -- `update_bar` of each tick.
  unfoldable pub update_all : CandleBuilder D → List (NormalizedTick D) → ℕ → CandleBuilder D
  update_all b [] interval = b
  update_all b (t ∷ ts) interval = update_all (update_bar b t interval) ts interval

  -- Ticks of one instrument in one interval.
  abbrev pub SameBar : NormalizedTick D → ℕ → List (NormalizedTick D) → Type 0
  SameBar t interval = All (λ (u : NormalizedTick D).
      (u.instrument_token ≡ t.instrument_token) × (bar_start u interval ≡ bar_start t interval))

  -- The highest, the lowest and the last price, and the greatest volume, from a first one on.
  abbrev pub highest : D → List (NormalizedTick D) → D
  highest x [] = x
  highest x (t ∷ ts) = highest (fmax x t.ltp) ts

  abbrev pub lowest : D → List (NormalizedTick D) → D
  lowest x [] = x
  lowest x (t ∷ ts) = lowest (fmin x t.ltp) ts

  abbrev pub last_price : D → List (NormalizedTick D) → D
  last_price x [] = x
  last_price x (t ∷ ts) = last_price t.ltp ts

  abbrev pub top_volume : ℕ → List (NormalizedTick D) → ℕ
  top_volume v [] = v
  top_volume v (t ∷ ts) = top_volume (if ltb v t.volume then t.volume else v) ts

  abbrev pub last_oi : ℕ → List (NormalizedTick D) → ℕ
  last_oi n [] = n
  last_oi n (t ∷ ts) = last_oi t.oi ts

  -- The bar that the ticks make of `bar`.
  abbrev pub summed : BarState D → List (NormalizedTick D) → BarState D
  summed bar ts = record bar {
    high = highest bar.high ts;
    low = lowest bar.low ts;
    close = last_price bar.close ts;
    volume = top_volume bar.volume ts;
    oi = last_oi bar.oi ts;
  }

  -- A tick of the open bar.
  update_bar-same :
      (b : CandleBuilder D) (bar : BarState D) (u : NormalizedTick D) (interval : ℕ)
      → lookup (key_of u interval) b.open_bars ≡ some bar
      → bar.initialized ≡ true
      → bar.bar_start_ns ≡ bar_start u interval
      → update_bar b u interval
        ≡ record b { open_bars = insert (key_of u interval) (extend_bar bar u) b.open_bars }
  unfolding update_bar
  update_bar-same b bar u interval found on same = rw found (
      if_false {b = not bar.initialized || not (bar.bar_start_ns == bar_start u interval)} _ _
        (ground (arith, ==_iff bar.bar_start_ns (bar_start u interval))))

  update_all-same :
      (ts : List (NormalizedTick D)) (b : CandleBuilder D) (bar : BarState D) (t : NormalizedTick D)
      (interval : ℕ)
      → lookup (key_of t interval) b.open_bars ≡ some bar
      → bar.initialized ≡ true
      → bar.bar_start_ns ≡ bar_start t interval
      → SameBar t interval ts
      → (lookup (key_of t interval) (update_all b ts interval).open_bars ≡ some (summed bar ts))
        × ((update_all b ts interval).calls ≡ b.calls)
  unfolding update_all extend_bar
  update_all-same [] b bar t interval found on same all = (found, refl)
  update_all-same (u ∷ ts) b bar t interval found on same ((tok, start), all) =
      let key : key_of u interval ≡ key_of t interval =
        ap (λ (n : ℕ). let k : BarKey = record { token = n; interval = interval } in k) tok in
      let next : CandleBuilder D = record b {
        open_bars = insert (key_of t interval) (extend_bar bar u) b.open_bars;
      } in
      let step : update_bar b u interval ≡ next =
        update_bar-same b bar u interval (rw key found) on (same ∙ sym start)
        ∙ ap
            (λ (k : BarKey).
              let x : CandleBuilder D = record b {
                open_bars = insert k (extend_bar bar u) b.open_bars;
              } in
              x)
            key in
      rw (update_all, step)
        (let ih =
            update_all-same ts next (extend_bar bar u) t interval
              (lookup-insert_self (key_of t interval) (extend_bar bar u) b.open_bars) on same all in
          ih)

  -- The first tick of a bar.
  update_bar-new :
      (b : CandleBuilder D) (t : NormalizedTick D) (interval : ℕ)
      → let bar = bar_at b (key_of t interval) in
        (not bar.initialized || not (bar.bar_start_ns == bar_start t interval)) ≡ true
        → update_bar b t interval ≡ roll_bar b bar t interval
  unfolding update_bar
  update_bar-new b t interval starts = if_true _ _ starts

  -- When a tick starts a bar and further ticks of its instrument fall into the same interval, the bar
  -- then holds the first price, the highest, the lowest and the last price, the greatest volume and
  -- the last open interest of them, and the only candle handed to the callbacks is that of the bar
  -- before, if there was one with a positive first price.
  pub update_all_lem :
      (b : CandleBuilder D) (t : NormalizedTick D) (ts : List (NormalizedTick D)) (interval : ℕ)
      → (not (bar_at b (key_of t interval)).initialized
          || not ((bar_at b (key_of t interval)).bar_start_ns == bar_start t interval))
        ≡ true
      → SameBar t interval ts
      → let old = bar_at b (key_of t interval) in
        let end = update_all b (t ∷ ts) interval in
        (lookup (key_of t interval) end.open_bars ≡ some (summed (new_bar t interval) ts))
        × (end.calls ≡ (
            if old.initialized && d.lt (of_ℕ 0) old.open_price
            then calls_of b.callbacks
                (candle_of old ((old.bar_start_ns + interval_ns interval - 1) % 2 ^ 64))
              ++ b.calls
            else b.calls))
  unfolding update_all
  update_all_lem b t ts interval starts all =
      let old = bar_at b (key_of t interval) in
      let new = update_bar-new b t interval starts in
      rw (update_all, new)
        (let (found, calls) =
            update_all-same ts (roll_bar b old t interval) (new_bar t interval) t interval
              (unfold roll_bar in lookup-insert_self (key_of t interval) (new_bar t interval) _)
              refl refl all in
          (found, calls ∙ calls-roll_bar old))
    where
      calls-roll_bar :
          (old : BarState D)
          → (roll_bar b old t interval).calls ≡ (
              if old.initialized && d.lt (of_ℕ 0) old.open_price
              then calls_of b.callbacks
                  (candle_of old ((old.bar_start_ns + interval_ns interval - 1) % 2 ^ 64))
                ++ b.calls
              else b.calls)
      calls-roll_bar old = unfold roll_bar emit_candle in ground arith
