-- ===== src/Strategy/Delivery.antt =====
-- cpp/strategy/strategy_manager.cpp over cpp/common/disruptor.hpp: which ticks a strategy gets.
use quantforge_engine.Prelude.{
  All, ℕ, zero, suc, ◌+◌, ◌≤◌, ◌<◌, ◌≡◌, refl, sym, ap, ◌∙◌, ◌⊎◌, inl, inr, true, false, List, [],
  ◌∷◌, arith, length, get_or, take, nat_eq, if◌then◌else◌, ltb,
}
use quantforge_engine.Doubles.{Double}
use quantforge_engine.Types.{NormalizedTick, blank_tick}
use quantforge_engine.MarketData.Disruptor.{TickDisruptor, disruptor_init, try_consume_tick}
use quantforge_engine.MarketData.FanOut.{push_all, try_consume_tick_lem}
use quantforge_engine.Strategy.Manager.{IStrategy}
use quantforge_engine.Strategy.Threads.{StrategyThread, consumed, strategy_round, strategy_loop}
use quantforge_engine.Prelude.Modulus.{mod_apart}

module _ {A : Type 0} where
  length-take : (n : ℕ) (xs : List A) → n ≤ length xs → length (take n xs) ≡ n
  length-take zero xs h = refl
  length-take (suc n) [] h = absurd (omega arith)
  length-take (suc n) (x ∷ xs) h = ap suc (length-take n xs (omega arith))

  get_or-take : (n i : ℕ) (xs : List A) (a : A) → i < n → get_or (take n xs) i a ≡ get_or xs i a
  get_or-take zero i xs a h = absurd (omega arith)
  get_or-take (suc n) i [] a h = refl
  get_or-take (suc n) zero (x ∷ xs) a h = refl
  get_or-take (suc n) (suc i) (x ∷ xs) a h = get_or-take n i xs a (omega arith)

module _ {D S : Type 0} (plugin : IStrategy D S) where
  -- The strategy handles ticks one after the other.
  abbrev pub handle_all : S → List (NormalizedTick D) → S
  handle_all s [] = s
  handle_all s (t ∷ ts) = handle_all (plugin.on_tick s t) ts

  handle_all-suc :
      (s : S) (ts : List (NormalizedTick D)) (c : ℕ) (out : NormalizedTick D)
      → c < length ts
      → handle_all s (take (suc c) ts) ≡ plugin.on_tick (handle_all s (take c ts)) (get_or ts c out)
  handle_all-suc s [] c out h = absurd (omega arith)
  handle_all-suc s (t ∷ ts) zero out h = refl
  handle_all-suc s (t ∷ ts) (suc c) out h =
      handle_all-suc (plugin.on_tick s t) ts c out (omega arith)

-- The cursor after rounds that find so many ticks sent.
abbrev pub next_cursor : ℕ → ℕ → ℕ
next_cursor c n = if ltb c n then suc c else c

abbrev pub cursor_after : ℕ → List ℕ → ℕ
cursor_after c [] = c
cursor_after c (n ∷ ns) = cursor_after (next_cursor c n) ns

-- No round finds the producer more than the ring ahead of the cursor.
abbrev pub NotLapped : ℕ → ℕ → List ℕ → Type 0
NotLapped size c [] = Unit
NotLapped size c (n ∷ ns) = (n ≤ c + size) × NotLapped size (next_cursor c n) ns

module _ {D S : Type 0} ⦃d : Double D⦄ (plugin : IStrategy D S) (size : ℕ)
    (ts : List (NormalizedTick D)) where
  -- The ring after the first `n` ticks were sent.
  abbrev pub ring_of : ℕ → TickDisruptor D
  ring_of n = push_all (disruptor_init size) (take n ts)

  abbrev pub rings_of : List ℕ → List (TickDisruptor D)
  rings_of [] = []
  rings_of (n ∷ ns) = ring_of n ∷ rings_of ns

  -- A consumer that is not lapped reads the next tick, if it was sent.
  consume_next :
      (n c : ℕ) (out : NormalizedTick D)
      → 0 < size
      → n ≤ length ts
      → n ≤ c + size
      → ((n ≤ c) × (try_consume_tick (ring_of n) c out ≡ (c, out, false)))
        ⊎ ((c < n) × (try_consume_tick (ring_of n) c out ≡ (suc c, get_or ts c blank_tick, true)))
  consume_next n c out pos_size sent near =
      let l = length-take n ts sent in
      elim (try_consume_tick_lem size (take n ts) c out pos_size) [
        | inl early ↦ inl (rw (← l) early.0, early.1)
        | inr (inl exact) ↦ inr (
          omega arith,
          exact.2
              ∙ ap (λ (x : NormalizedTick D). (suc c, x, true))
                  (get_or-take n c ts blank_tick (omega arith)),
        )
        | inr (inr (j, lo, below, recent, place, _)) ↦
            absurd (mod_apart c j size lo (omega arith) (sym place))
      ]

  round_lem :
      (n c : ℕ) (s0 : S) (t : StrategyThread D S)
      → 0 < size
      → n ≤ length ts
      → n ≤ c + size
      → t.strategy.disruptor_seq ≡ c
      → t.strategy.instance_state ≡ handle_all plugin s0 (take c ts)
      → let t' = strategy_round plugin (ring_of n) t in
        (t'.strategy.disruptor_seq ≡ next_cursor c n)
        × (t'.strategy.instance_state ≡ handle_all plugin s0 (take (next_cursor c n) ts))
  unfolding strategy_round
  round_lem n c s0 t pos_size sent near at state =
      let moved = ap (λ (k : ℕ). try_consume_tick (ring_of n) k t.tick) at in
      elim (consume_next n c t.tick pos_size sent near) [
        | inl (behind, q) ↦
            let stays : next_cursor c n ≡ c = ground arith in
            (
              ap (λ a. (consumed plugin t a).strategy.disruptor_seq) (moved ∙ q) ∙ sym stays,
              ap (λ a. (consumed plugin t a).strategy.instance_state) (moved ∙ q)
                  ∙ state
                  ∙ ap (λ (k : ℕ). handle_all plugin s0 (take k ts)) (sym stays),
            )
        | inr (ahead, q) ↦
            let goes : next_cursor c n ≡ suc c = ground arith in
            (
              ap (λ a. (consumed plugin t a).strategy.disruptor_seq) (moved ∙ q) ∙ sym goes,
              ap (λ a. (consumed plugin t a).strategy.instance_state) (moved ∙ q)
                  ∙ ap (λ s. plugin.on_tick s (get_or ts c blank_tick)) state
                  ∙ sym (handle_all-suc plugin s0 ts c blank_tick (omega arith))
                  ∙ ap (λ (k : ℕ). handle_all plugin s0 (take k ts)) (sym goes),
            )
      ]

  loop_lem :
      (ns : List ℕ) (c : ℕ) (s0 : S) (t : StrategyThread D S)
      → 0 < size
      → All (λ n. n ≤ length ts) ns
      → NotLapped size c ns
      → t.strategy.disruptor_seq ≡ c
      → t.strategy.instance_state ≡ handle_all plugin s0 (take c ts)
      → let t' = strategy_loop plugin (rings_of ns) t in
        (t'.strategy.disruptor_seq ≡ cursor_after c ns)
        × (t'.strategy.instance_state ≡ handle_all plugin s0 (take (cursor_after c ns) ts))
  unfolding strategy_loop
  loop_lem [] c s0 t pos_size sent near at state = (at, state)
  loop_lem (n ∷ ns) c s0 t pos_size (sent, rest) (near, later) at state =
      let r = round_lem n c s0 t pos_size sent near at state in
      loop_lem ns (next_cursor c n) s0 (strategy_round plugin (ring_of n) t) pos_size rest later r.0
        r.1

  -- The rounds of a strategy's thread, each of which finds some of the ticks sent and none of which
  -- finds the thread lapped, hand the strategy the first ticks, each once and in their order, as many
  -- as its cursor has passed: one more at each round that finds a tick that it has not read.
  pub strategy_loop-handle_all :
      (ns : List ℕ) (t : StrategyThread D S)
      → 0 < size
      → All (λ n. n ≤ length ts) ns
      → NotLapped size 0 ns
      → t.strategy.disruptor_seq ≡ 0
      → let t' = strategy_loop plugin (rings_of ns) t in
        (t'.strategy.disruptor_seq ≡ cursor_after 0 ns)
        × (t'.strategy.instance_state
            ≡ handle_all plugin t.strategy.instance_state (take (cursor_after 0 ns) ts))
  strategy_loop-handle_all ns t pos_size sent near at =
      loop_lem ns 0 t.strategy.instance_state t pos_size sent near at refl
