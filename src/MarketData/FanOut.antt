-- ===== src/MarketData/FanOut.antt =====
-- What a consumer of the ring of cpp/common/disruptor.hpp reads, by how far it is behind.
use native.Mathlib.Nat.{mod-lt, add-mul-mod_self_left, div-add-mod}
use mathlib.Core.Path.{ap₂}
use mathlib.Core.Bool.{false≢true}
use native.Mathlib.Decide.{dec_lt}
use mathlib.Core.List.{append-nil}
use quantforge_engine.Prelude.{
  ℕ, zero, suc, ◌+◌, ◌-◌, ◌*◌, ◌/◌, ◌%◌, ◌≤◌, ◌<◌, ◌≡◌, refl, sym, ap, ◌∙◌, ◌≢◌, ◌⊎◌, inl, inr,
  true, false, List, [], ◌∷◌, ◌++◌, arith, ltb, ◌==◌, ==_iff, Bool-cases, get_or, replicate, length,
  length-append, length-set, length-replicate, get_or-set_self, get_or-set_ne,
}
use quantforge_engine.Prelude.Modulus.{mod_apart}
use quantforge_engine.Doubles.{Double}
use quantforge_engine.Types.{NormalizedTick, blank_tick}
use quantforge_engine.MarketData.Disruptor.{
  Slot, TickDisruptor, blank_slot, disruptor_init, slot_at, try_consume_tick, claim_next, publish,
  push,
}

module _ {ℓ} {A : Type ℓ} where
  get_or-replicate : (n i : ℕ) (a : A) → get_or (replicate n a) i a ≡ a
  get_or-replicate zero i a = refl
  get_or-replicate (suc n) zero a = refl
  get_or-replicate (suc n) (suc i) a = get_or-replicate n i a

  get_or-append_left :
      (xs : List A) (y a : A) (i : ℕ) → i < length xs → get_or (xs ++ (y ∷ [])) i a ≡ get_or xs i a
  get_or-append_left [] y a i h = absurd (omega arith)
  get_or-append_left (x ∷ xs) y a zero h = refl
  get_or-append_left (x ∷ xs) y a (suc i) h = get_or-append_left xs y a i (omega arith)

  get_or-append_last : (xs : List A) (y a : A) → get_or (xs ++ (y ∷ [])) (length xs) a ≡ y
  get_or-append_last [] y a = refl
  get_or-append_last (x ∷ xs) y a = get_or-append_last xs y a

  append-snoc : (xs : List A) (y : A) (ys : List A) → (xs ++ (y ∷ [])) ++ ys ≡ xs ++ (y ∷ ys)
  append-snoc [] y ys = refl
  append-snoc (x ∷ xs) y ys = ap (λ t. x ∷ t) (append-snoc xs y ys)

-- The last number below n at the place of `next`.
latest :
    (n next size : ℕ)
    → 0 < size
    → next < n
    → (j : ℕ) × (next ≤ j) × (j < n) × (n ≤ j + size) × (j % size ≡ next % size)
latest n next size pos_size lo =
    let q = (n - suc next) / size in
    let e = div-add-mod (n - suc next) size in
    let r = mod-lt (n - suc next) {m = size} pos_size in
    (next + size * q, omega arith, omega arith, omega arith, add-mul-mod_self_left next size q)

module _ {D : Type 0} ⦃d : Double D⦄ where
  -- `push` of each tick.
  unfoldable pub push_all : TickDisruptor D → List (NormalizedTick D) → TickDisruptor D
  push_all b [] = b
  push_all b (t ∷ ts) = push_all (push b t) ts

  -- The slot that tick `j` is in.
  abbrev Holds : List (NormalizedTick D) → TickDisruptor D → ℕ → Type 0
  Holds ts b j = slot_at b j ≡ record { tick = get_or ts j blank_tick; sequence = suc j }

  -- The last `size` ticks are in the ring, and no slot claims to be ahead.
  record IsBroadcast (size : ℕ) (ts : List (NormalizedTick D)) (b : TickDisruptor D) : Type 0 where
    stored : length b.buffer ≡ size
    sized : b.buffer_size ≡ size
    counted : b.producer_seq ≡ length ts
    recent : (j : ℕ) → j < length ts → length ts ≤ j + size → Holds ts b j
    ahead : (j : ℕ) → length ts ≤ j → (slot_at b j).sequence ≤ j

  init-IsBroadcast : (size : ℕ) → IsBroadcast size [] (disruptor_init size)
  unfolding disruptor_init
  init-IsBroadcast size = record {
    stored = length-replicate size blank_slot;
    sized = refl;
    counted = refl;
    recent = λ j lo hi. absurd (omega arith);
    ahead = λ j lo. rw (get_or-replicate size (j % size) blank_slot) (omega arith);
  }

  slot-push_self :
      (b : TickDisruptor D) (t : NormalizedTick D) (j : ℕ)
      → 0 < b.buffer_size
      → length b.buffer ≡ b.buffer_size
      → b.producer_seq % b.buffer_size ≡ j % b.buffer_size
      → slot_at (push b t) j ≡ record { tick = t; sequence = suc b.producer_seq }
  unfolding push claim_next publish
  slot-push_self b t j pos_size stored same =
      let inside = mod-lt b.producer_seq {m = b.buffer_size} pos_size in
      rw (← same) (get_or-set_self b.buffer _ _ blank_slot (omega arith))

  slot-push_ne :
      (b : TickDisruptor D) (t : NormalizedTick D) (j : ℕ)
      → b.producer_seq % b.buffer_size ≢ j % b.buffer_size
      → slot_at (push b t) j ≡ slot_at b j
  unfolding push claim_next publish
  slot-push_ne b t j ne = get_or-set_ne b.buffer _ _ _ blank_slot ne

  length-snoc :
      (ts : List (NormalizedTick D)) (t : NormalizedTick D)
      → length (ts ++ (t ∷ [])) ≡ suc (length ts)
  length-snoc ts t = omega (arith, length-append ts (t ∷ []))

  push-recent :
      (size : ℕ) (ts : List (NormalizedTick D)) (b : TickDisruptor D) (t : NormalizedTick D)
      → 0 < size
      → IsBroadcast size ts b
      → (j : ℕ) → j < length (ts ++ (t ∷ []))
      → length (ts ++ (t ∷ [])) ≤ j + size
      → Holds (ts ++ (t ∷ [])) (push b t) j
  push-recent size ts b t pos_size v j lo hi =
      let n = length-snoc ts t in
      let bs = v.sized in
      let count = v.counted in
      elim (dec_lt j (length ts)) [
        | yes old ↦
            slot-push_ne b t j
              (λ e. mod_apart j b.producer_seq b.buffer_size (omega arith) (omega arith) (sym e))
            ∙ (v.recent j old (omega arith)
                ∙ ap
                    (λ (x : NormalizedTick D).
                      let o : Slot D = record { tick = x; sequence = suc j } in o)
                    (sym (get_or-append_left ts t blank_tick j old)))
        | no new ↦
            let last : j ≡ length ts = omega arith in
            slot-push_self b t j (omega arith) (v.stored ∙ sym bs)
              (ap (λ (k : ℕ). k % b.buffer_size) (count ∙ sym last))
            ∙ ap₂ (λ x k. let o : Slot D = record { tick = x; sequence = suc k } in o)
                (sym (
                  ap (λ (k : ℕ). get_or (ts ++ (t ∷ [])) k blank_tick) last
                  ∙ get_or-append_last ts t blank_tick))
                (count ∙ sym last)
      ]

  push-ahead :
      (size : ℕ) (ts : List (NormalizedTick D)) (b : TickDisruptor D) (t : NormalizedTick D)
      → 0 < size
      → IsBroadcast size ts b
      → (j : ℕ) → length (ts ++ (t ∷ [])) ≤ j
      → (slot_at (push b t) j).sequence ≤ j
  push-ahead size ts b t pos_size v j lo =
      let n = length-snoc ts t in
      let bs = v.sized in
      let count = v.counted in
      elim (Bool-cases (b.producer_seq % b.buffer_size == j % b.buffer_size)) [
        | inl same ↦
            rw
              (slot-push_self b t j (omega arith) (v.stored ∙ sym bs)
                ((==_iff _ (j % b.buffer_size)).0 same))
              (omega arith)
        | inr other ↦
            rw
              (slot-push_ne b t j
                (λ e. false≢true (sym other ∙ (==_iff _ (j % b.buffer_size)).1 e)))
              (v.ahead j (omega arith))
      ]

  push-IsBroadcast :
      (size : ℕ) (ts : List (NormalizedTick D)) (b : TickDisruptor D) (t : NormalizedTick D)
      → 0 < size
      → IsBroadcast size ts b
      → IsBroadcast size (ts ++ (t ∷ [])) (push b t)
  push-IsBroadcast size ts b t pos_size v = record {
    stored = unfold push publish in length-set b.buffer _ _ ∙ v.stored;
    sized = unfold push publish in v.sized;
    counted = unfold push claim_next publish in ap suc (v.counted) ∙ sym (length-snoc ts t);
    recent = push-recent size ts b t pos_size v;
    ahead = push-ahead size ts b t pos_size v;
  }

  push_all-IsBroadcast :
      (size : ℕ) (sent ts : List (NormalizedTick D)) (b : TickDisruptor D)
      → 0 < size
      → IsBroadcast size sent b
      → IsBroadcast size (sent ++ ts) (push_all b ts)
  unfolding push_all
  push_all-IsBroadcast size sent [] b pos_size v = rw append-nil v
  push_all-IsBroadcast size sent (t ∷ ts) b pos_size v = rw (← append-snoc sent t ts) (
      push_all-IsBroadcast size (sent ++ (t ∷ [])) ts (push b t) pos_size
        (push-IsBroadcast size sent b t pos_size v))

  -- After any ticks were sent, a consumer that is to read tick `next` gets nothing if that was not sent
  -- yet; gets exactly that tick if it is one of the last `size`; and otherwise gets a later tick that
  -- took its place, while its cursor still moves on by one.
  pub try_consume_tick_lem :
      (size : ℕ) (ts : List (NormalizedTick D)) (next : ℕ) (out : NormalizedTick D)
      → 0 < size
      → let answer = try_consume_tick (push_all (disruptor_init size) ts) next out in
        ((length ts ≤ next) × (answer ≡ (next, out, false)))
        ⊎ ((next < length ts)
            × (length ts ≤ next + size)
            × (answer ≡ (suc next, get_or ts next blank_tick, true)))
        ⊎ ((j : ℕ) × (next < j)
            × (j < length ts)
            × (length ts ≤ j + size)
            × (j % size ≡ next % size)
            × (answer ≡ (suc next, get_or ts j blank_tick, true)))
  unfolding try_consume_tick
  try_consume_tick_lem size ts next out pos_size =
      let b = push_all (disruptor_init size) ts in
      let v =
        push_all-IsBroadcast size [] ts (disruptor_init size) pos_size (init-IsBroadcast size) in
      elim (dec_lt next (length ts)) [
        | no behind ↦
            let early = v.ahead next (omega arith) in
            let test : ltb (slot_at b next).sequence (suc next) ≡ true = ground arith in
            inl (omega arith, rw test)
        | yes sent ↦
            let (j, lo, below, recent, place) = latest (length ts) next size pos_size sent in
            let same : slot_at b next ≡ record { tick = get_or ts j blank_tick; sequence = suc j } =
              ap (λ (i : ℕ). get_or b.buffer i blank_slot)
                (ap (λ (m : ℕ). next % m) v.sized
                  ∙ (sym place ∙ ap (λ (m : ℕ). j % m) (sym v.sized)))
              ∙ v.recent j below recent in
            let test : ltb (suc j) (suc next) ≡ false = ground arith in
            elim (dec_lt next j) [
              | yes later ↦ inr (inr (j, later, below, recent, place, rw same (rw test)))
              | no exact ↦
                  let e : j ≡ next = omega arith in
                  inr (
                    inl (
                      sent,
                      omega arith,
                      rw same
                          (rw test (ap (λ (k : ℕ). (suc next, get_or ts k blank_tick, true)) e)),
                    ))
            ]
      ]
