-- ===== src/Strategy/Exits.antt =====
-- How the momentum strategy of cpp/strategy/plugins/momentum_strategy.cpp leaves its positions.
use mathlib.Core.Path.{ap₂}
use mathlib.Core.Option.{none-ne-some, some-injective}
use quantforge_engine.Prelude.{
  ℕ, suc, ◌+◌, ◌≡◌, ◌≢◌, Bool, Option, refl, sym, ap, ◌∙◌, ◌⊎◌, inl, inr, true, false, not, none,
  some, List, [], ◌∷◌, arith, length, if◌then◌else◌, if_true, if_false, Bool-cases, Option-cases,
  nat_eq, lookup-insert_self,
}
use quantforge_engine.Prelude.Text.{Text, codes}
use quantforge_engine.Doubles.{Double, ◌≼◌}
use quantforge_engine.Types.{Side, is_side, OrderRequest, Fill, NormalizedTick}
use quantforge_engine.Strategy.Momentum.{
  InstrumentState, Momentum, close_side, state_or_blank, state_of, market_request, place_market,
  exit_tag, exit_with, manage_position, with_ltp, on_tick_momentum, filled_state, on_order_fill,
  flatten_each, eod_flatten_all, on_kill_signal,
}

-- A sale closes what was bought, a purchase what was sold.
abbrev pub opposite : Side → Side
opposite Side.buy = Side.sell
opposite Side.sell = Side.buy

close_side-opposite : (side : Side) → close_side side ≡ opposite side
close_side-opposite Side.buy = refl
close_side-opposite Side.sell = refl

-- The tag of the first test that holds.
abbrev first_of : Bool → Bool → Option Text
first_of a b =
    if a then some (codes "take-profit") else if b then some (codes "stop-loss") else none

first_none : (a b : Bool) → first_of a b ≡ none → (a ≢ true) × (b ≢ true)
first_none true b e = absurd (none-ne-some (codes "take-profit") (sym e))
first_none false true e = absurd (none-ne-some (codes "stop-loss") (sym e))
first_none false false e = (λ h. cc, λ h. cc)

first_some :
    (a b : Bool) (tag : Text)
    → first_of a b ≡ some tag
    → ((a ≡ true) × (tag ≡ codes "take-profit"))
      ⊎ ((a ≢ true) × (b ≡ true) × (tag ≡ codes "stop-loss"))
first_some true b tag e = inl (refl, sym (some-injective (codes "take-profit") tag e))
first_some false true tag e = inr (λ h. cc, refl, sym (some-injective (codes "stop-loss") tag e))
first_some false false tag e = absurd (none-ne-some tag e)

module _ {D : Type 0} ⦃d : Double D⦄ where
  -- A tick of an instrument with an open position.
  on_tick_open :
      (m : Momentum D) (tick : NormalizedTick D) (now : ℕ)
      → m.alive ≡ true
      → (state_of m tick.instrument_token).in_position ≡ true
      → on_tick_momentum m tick now
        ≡ exit_with
            (with_ltp m tick)
            tick.instrument_token
            (record (state_of m tick.instrument_token) { last_ltp = tick.ltp })
            now
            (exit_tag (state_of m tick.instrument_token) tick.ltp)
  unfolding on_tick_momentum
  on_tick_open m tick now alive held = if_false _ _ (ap not alive) ∙ (if_true _ _ held ∙ managed)
    where
      at_tick :
          state_of (with_ltp m tick) tick.instrument_token
          ≡ record (state_of m tick.instrument_token) { last_ltp = tick.ltp }
      at_tick = ap state_or_blank (lookup-insert_self tick.instrument_token _ m.states)

      managed :
          manage_position (with_ltp m tick) tick.instrument_token tick.ltp now
          ≡ exit_with
              (with_ltp m tick)
              tick.instrument_token
              (record (state_of m tick.instrument_token) { last_ltp = tick.ltp })
              now
              (exit_tag (state_of m tick.instrument_token) tick.ltp)
      managed =
          unfold manage_position exit_tag in
          (if_false _ _ (ap not (ap (λ (x : InstrumentState D). x.in_position) at_tick ∙ held))
            ∙ ap
                (λ (x : InstrumentState D).
                  exit_with (with_ltp m tick) tick.instrument_token x now (exit_tag x tick.ltp))
                at_tick)

  on_tick_cases :
      (m : Momentum D) (tick : NormalizedTick D) (now : ℕ)
      → m.alive ≡ true
      → (state_of m tick.instrument_token).in_position ≡ true
      → let token = tick.instrument_token in
        let s = state_of m token in
        let t = on_tick_momentum m tick now in
        ((exit_tag s tick.ltp ≡ none)
          × (t.orders ≡ m.orders)
          × (state_of t token ≡ record s { last_ltp = tick.ltp }))
        ⊎ ((tag : Text) × (exit_tag s tick.ltp ≡ some tag)
            × (t.orders
                ≡ market_request m.id token (close_side s.position_side) s.position_qty tag now
                  ∷ m.orders)
            × (state_of t token ≡ record s { last_ltp = tick.ltp; in_position = false }))
  on_tick_cases m tick now alive held =
      let token = tick.instrument_token in
      let s = state_of m token in
      let kept : InstrumentState D = record s { last_ltp = tick.ltp } in
      let e = on_tick_open m tick now alive held in
      elim (Option-cases (exit_tag s tick.ltp)) [
        | inl stays ↦
            let t = e ∙ ap (exit_with (with_ltp m tick) token kept now) stays in
            inl (
              stays,
              ap (λ (x : Momentum D). x.orders) t ∙ (unfold exit_with in refl),
              ap (λ (x : Momentum D). state_of x token) t
                  ∙ (unfold exit_with in
                      ap state_or_blank (lookup-insert_self token kept m.states)),
            )
        | inr (tag, leaves) ↦
            let t = e ∙ ap (exit_with (with_ltp m tick) token kept now) leaves in
            inr (
              tag,
              leaves,
              ap (λ (x : Momentum D). x.orders) t ∙ (unfold exit_with place_market in refl),
              ap (λ (x : Momentum D). state_of x token) t
                  ∙ (unfold exit_with place_market in
                      ap state_or_blank (lookup-insert_self token _ (with_ltp m tick).states)),
            )
      ]

  -- What a position at a price calls for, with the tag of the order: the target comes first.
  abbrev pub AtTarget : Side → D → D → Type 0
  AtTarget Side.buy price target = target ≼ price
  AtTarget Side.sell price target = price ≼ target

  abbrev pub AtStop : Side → D → D → Type 0
  AtStop Side.buy price stop = price ≼ stop
  AtStop Side.sell price stop = stop ≼ price

  abbrev pub ExitsAs : InstrumentState D → D → Text → Type 0
  ExitsAs s price tag =
      (AtTarget s.position_side price s.target_price × (tag ≡ codes "take-profit"))
      ⊎ (¬ AtTarget s.position_side price s.target_price
          × AtStop s.position_side price s.stop_price
          × (tag ≡ codes "stop-loss"))

  abbrev pub Stays : InstrumentState D → D → Type 0
  Stays s price =
      ¬ AtTarget s.position_side price s.target_price × ¬ AtStop s.position_side price s.stop_price

  -- `exit_tag`, with the side taken out of the state.
  abbrev tag_of : Side → D → D → D → Option Text
  tag_of side price target stop =
      if is_side side Side.buy
      then first_of (d.le target price) (d.le price stop)
      else first_of (d.le price target) (d.le stop price)

  tag_of-none :
      (side : Side) (price target stop : D)
      → tag_of side price target stop ≡ none
      → ¬ AtTarget side price target × ¬ AtStop side price stop
  tag_of-none Side.buy price target stop e = first_none (d.le target price) (d.le price stop) e
  tag_of-none Side.sell price target stop e = first_none (d.le price target) (d.le stop price) e

  tag_of-some :
      (side : Side) (price target stop : D) (tag : Text)
      → tag_of side price target stop ≡ some tag
      → (AtTarget side price target × (tag ≡ codes "take-profit"))
        ⊎ (¬ AtTarget side price target × AtStop side price stop × (tag ≡ codes "stop-loss"))
  tag_of-some Side.buy price target stop tag e =
      first_some (d.le target price) (d.le price stop) tag e
  tag_of-some Side.sell price target stop tag e =
      first_some (d.le price target) (d.le stop price) tag e

  exit_tag-none : (s : InstrumentState D) (price : D) → exit_tag s price ≡ none → Stays s price
  unfolding exit_tag
  exit_tag-none s price e = tag_of-none s.position_side price s.target_price s.stop_price e

  exit_tag-some :
      (s : InstrumentState D) (price : D) (tag : Text)
      → exit_tag s price ≡ some tag
      → ExitsAs s price tag
  unfolding exit_tag
  exit_tag-some s price tag e = tag_of-some s.position_side price s.target_price s.stop_price tag e

  -- The state of an instrument with an open position after a tick at which the strategy is alive. A
  -- bought position exits at a price at or above its target or at or below its stop, a sold one at or
  -- below its target or at or above its stop: then one market order for the whole quantity is sent, a
  -- sale for a bought position and a purchase for a sold one, tagged take-profit at the target and else
  -- stop-loss, and the strategy counts as flat. At any other price nothing is sent and the position
  -- stays.
  pub on_tick_lem :
      (m : Momentum D) (tick : NormalizedTick D) (now : ℕ)
      → m.alive ≡ true
      → (state_of m tick.instrument_token).in_position ≡ true
      → let token = tick.instrument_token in
        let s = state_of m token in
        let t = on_tick_momentum m tick now in
        (Stays s tick.ltp
          × (t.orders ≡ m.orders)
          × (state_of t token ≡ record s { last_ltp = tick.ltp }))
        ⊎ ((tag : Text) × ExitsAs s tick.ltp tag
            × (t.orders
                ≡ market_request m.id token (opposite s.position_side) s.position_qty tag now
                  ∷ m.orders)
            × (state_of t token ≡ record s { last_ltp = tick.ltp; in_position = false }))
  on_tick_lem m tick now alive held =
      let token = tick.instrument_token in
      let s = state_of m token in
      elim (on_tick_cases m tick now alive held) [
        | inl (stays, orders, state) ↦ inl (exit_tag-none s tick.ltp stays, orders, state)
        | inr (tag, leaves, orders, state) ↦ inr (
          tag,
          exit_tag-some s tick.ltp tag leaves,
          orders
              ∙ ap (λ side. market_request m.id token side s.position_qty tag now ∷ m.orders)
                  (close_side-opposite s.position_side),
          state,
        )
      ]

  -- At a tick that meets the stop or the target of an open position, of a strategy that is alive, the
  -- strategy sends its exit order and forgets the position; then the next fill of the instrument, that of
  -- the exit order, is taken for an opening fill, and its side and quantity are held to be an open
  -- position.
  pub exit_reopens :
      (m : Momentum D) (tick : NormalizedTick D) (fill : Fill D) (now : ℕ) (tag : Text)
      → m.alive ≡ true
      → (state_of m tick.instrument_token).in_position ≡ true
      → exit_tag (state_of m tick.instrument_token) tick.ltp ≡ some tag
      → fill.instrument_token ≡ tick.instrument_token
      → let s = state_of m tick.instrument_token in
        let t = state_of (on_order_fill (on_tick_momentum m tick now) fill) tick.instrument_token in
        (t.in_position ≡ true) × (t.position_side ≡ fill.side) × (t.position_qty ≡ fill.quantity)
  unfolding on_order_fill filled_state
  exit_reopens m tick fill now tag alive held exits same =
      let t = on_tick_momentum m tick now in
      let s = state_of m tick.instrument_token in
      let flat : (state_of t fill.instrument_token).in_position ≡ false =
        rw same (elim (on_tick_cases m tick now alive held) [
          | inl (stays, _, _) ↦ absurd (cc)
          | inr (_, _, _, at) ↦ ap (λ (x : InstrumentState D). x.in_position) at
        ]) in
      let at : state_of (on_order_fill t fill) tick.instrument_token
          ≡ filled_state (state_of t fill.instrument_token) fill =
        ap (state_of (on_order_fill t fill)) (sym same)
        ∙ (ap state_or_blank (
            lookup-insert_self fill.instrument_token
              (filled_state (state_of t fill.instrument_token) fill) t.states)) in
      let opened = at ∙ if_true _ _ (ap not flat) in
      (
        ap (λ (x : InstrumentState D). x.in_position) opened,
        ap (λ (x : InstrumentState D). x.position_side) opened,
        ap (λ (x : InstrumentState D). x.position_qty) opened,
      )

  -- How many positions are open.
  abbrev pub open_count : List (ℕ × InstrumentState D) → ℕ
  open_count [] = 0
  open_count ((_, s) ∷ ss) = if s.in_position then suc (open_count ss) else open_count ss

  -- The orders that flatten the open positions, newest first.
  abbrev pub closing :
      Text → ℕ → List (ℕ × InstrumentState D) → List (OrderRequest D) → List (OrderRequest D)
  closing id now [] orders = orders
  closing id now ((token, s) ∷ ss) orders =
      if s.in_position
      then closing id now ss (
          market_request id token (close_side s.position_side) s.position_qty (codes "eod-flatten")
            now
          ∷ orders)
      else closing id now ss orders

  -- One state of the loop.
  abbrev flattened :
      Text
      → ℕ
      → ℕ
      → List (ℕ × InstrumentState D)
      → List (OrderRequest D)
      → InstrumentState D
      → List (ℕ × InstrumentState D) × List (OrderRequest D)
  flattened id now token ss orders s =
      ((token, s) ∷ (flatten_each id now ss orders).0, (flatten_each id now ss orders).1)

  flatten_open :
      (ss : List (ℕ × InstrumentState D)) (id : Text) (now token : ℕ) (s : InstrumentState D)
      (orders : List (OrderRequest D))
      → s.in_position ≡ true
      → flatten_each id now ((token, s) ∷ ss) orders
        ≡ flattened id now token ss
            (market_request id token
                (close_side s.position_side)
                s.position_qty
                (codes "eod-flatten")
                now
              ∷ orders)
            (record s { in_position = false })
  unfolding flatten_each
  flatten_open ss id now token s orders held =
      ap₂ (flattened id now token ss) (if_true _ _ held) (if_true _ _ held)

  flatten_idle :
      (ss : List (ℕ × InstrumentState D)) (id : Text) (now token : ℕ) (s : InstrumentState D)
      (orders : List (OrderRequest D))
      → s.in_position ≡ false
      → flatten_each id now ((token, s) ∷ ss) orders ≡ flattened id now token ss orders s
  unfolding flatten_each
  flatten_idle ss id now token s orders idle =
      ap₂ (flattened id now token ss) (if_false _ _ idle) (if_false _ _ idle)

  flatten_each_lem :
      (ss : List (ℕ × InstrumentState D)) (id : Text) (now : ℕ) (orders : List (OrderRequest D))
      → (open_count (flatten_each id now ss orders).0 ≡ 0)
        × ((flatten_each id now ss orders).1 ≡ closing id now ss orders)
        × (length (flatten_each id now ss orders).1 ≡ open_count ss + length orders)
  flatten_each_lem [] id now orders = unfold flatten_each in (refl, refl, omega arith)
  flatten_each_lem ((token, s) ∷ ss) id now orders = elim (Bool-cases s.in_position) [
    | inl held ↦
        let request =
          market_request id token (close_side s.position_side) s.position_qty (codes "eod-flatten")
            now in
        let (none_open, sent, count) = flatten_each_lem ss id now (request ∷ orders) in
        let e = flatten_open ss id now token s orders held in
        let counted : open_count ((token, s) ∷ ss) ≡ suc (open_count ss) = if_true _ _ held in
        (
          ap (λ x. open_count x.0) e ∙ none_open,
          ap (λ x. x.1) e ∙ (sent ∙ sym (if_true _ _ held)),
          ap (λ x. length x.1) e ∙ omega (arith, count, counted),
        )
    | inr idle ↦
        let (none_open, sent, count) = flatten_each_lem ss id now orders in
        let e = flatten_idle ss id now token s orders idle in
        let counted : open_count ((token, s) ∷ ss) ≡ open_count ss = if_false _ _ idle in
        (
          ap (λ x. open_count x.0) e ∙ (if_false _ _ idle ∙ none_open),
          ap (λ x. x.1) e ∙ (sent ∙ sym (if_false _ _ idle)),
          ap (λ x. length x.1) e ∙ omega (arith, count, counted),
        )
  ]

  -- A kill signal sends exactly one closing market order for every open position and leaves none open,
  -- and from then on ticks change nothing.
  pub on_kill_signal_lem :
      (m : Momentum D) (tick : NormalizedTick D) (now later : ℕ)
      → let t = on_kill_signal m now in
        (open_count t.states ≡ 0)
        × (t.orders ≡ closing m.id now m.states m.orders)
        × (length t.orders ≡ open_count m.states + length m.orders)
        × (on_tick_momentum t tick later ≡ t)
  unfolding on_kill_signal eod_flatten_all on_tick_momentum
  on_kill_signal_lem m tick now later =
      let f = flatten_each_lem m.states m.id now m.orders in (f.0, f.1, f.2, refl)
