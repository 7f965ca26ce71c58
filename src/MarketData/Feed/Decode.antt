-- ===== src/MarketData/Feed/Decode.antt =====
-- cpp/market_data/upstox_ws_handler.cpp: what a frame leaves in the queue of ticks.
use quantforge_engine.Prelude.{
  ℕ, zero, suc, ◌+◌, ◌-◌, ◌*◌, ◌%◌, ◌^◌, ◌<◌, ◌≡◌, ◌↔◌, inl, inr, refl, sym, ap, ◌∙◌, true, false,
  Option, Option-cases, none, some, List, [], ◌∷◌, ◌++◌, arith, length, take, length-append, ltb,
  Bool-cases,
}
use mathlib.Core.List.{append-nil, append_assoc}
use quantforge_engine.Prelude.Int.{pos, ◌-ℤ◌, ◌<ℤ◌}
use quantforge_engine.Prelude.Text.{Text}
use quantforge_engine.Doubles.{Double}
use quantforge_engine.Types.{NormalizedTick}
use quantforge_engine.Spsc.{Spsc, spsc_push}
use quantforge_engine.Spsc.Refine.{IsValid, contents, spsc_push_refines}
use quantforge_engine.MarketData.Feed.{WsHandler, decode_feeds, push_tick}
use quantforge_engine.MarketData.Feed.Frames.{
  FeedMsg, ltpc, market_full, other_full, first_level, unset, translate, fresh_tick, mark_stale,
  to_u64, to_i64, latency_of,
}

module _ {T : Type 0} where
  -- A bounded FIFO of `places - 1` places takes the first items of a batch for which it has room.
  abbrev pub offer : ℕ → List T → List T → List T
  offer places held xs = held ++ take (places - 1 - length held) xs

  abbrev push_all : Spsc T → List T → Spsc T
  push_all q [] = q
  push_all q (x ∷ xs) = push_all (spsc_push q x).0 xs

  take-nil : (n : ℕ) → take {A = T} n [] ≡ []
  take-nil zero = refl
  take-nil (suc n) = refl

  take_suc : (n : ℕ) (x : T) (xs : List T) → 0 < n → take n (x ∷ xs) ≡ x ∷ take (n - 1) xs
  take_suc zero x xs h = absurd (omega arith)
  take_suc (suc n) x xs h = ap (λ (m : ℕ). x ∷ take m xs) (omega arith)

  offer_full :
      (places : ℕ) (held : List T) (x : T) (xs : List T)
      → length held + 1 ≡ places
      → offer places held xs ≡ offer places held (x ∷ xs)
  offer_full places held x xs h = let e : places - 1 - length held ≡ 0 = omega arith in rw e

  offer_room :
      (places : ℕ) (held : List T) (x : T) (xs : List T)
      → length held + 1 < places
      → offer places (held ++ (x ∷ [])) xs ≡ offer places held (x ∷ xs)
  offer_room places held x xs h =
      let e : places - 1 - length (held ++ (x ∷ [])) ≡ places - 1 - length held - 1 =
        omega (arith, length-append held (x ∷ [])) in
      rw (take_suc (places - 1 - length held) x xs (omega arith), e) (append_assoc held _ _)

  spsc_push-capacity : (q : Spsc T) (x : T) → (spsc_push q x).0.capacity ≡ q.capacity
  unfolding spsc_push
  spsc_push-capacity q x = ground arith

module _ {T : Type 0} (blank : T) where
  push_all-offer :
      (q : Spsc T) (xs : List T)
      → IsValid q
      → contents blank (push_all q xs) ≡ offer q.capacity (contents blank q) xs
  push_all-offer q [] v = sym (rw take-nil (append-nil (contents blank q)))
  push_all-offer q (x ∷ xs) v =
      push_all-offer (spsc_push q x).0 xs (spsc_push_refines blank q x v).0
      ∙ ap (λ c. offer c (contents blank (spsc_push q x).0) xs) (spsc_push-capacity q x)
      ∙ elim ((spsc_push_refines blank q x v).1) [
        | inl (full, _, same) ↦
            ap (λ r. offer q.capacity (contents blank r) xs) same
            ∙ offer_full q.capacity (contents blank q) x xs full
        | inr (room, _, e) ↦
            ap (λ r. offer q.capacity r xs) e ∙ offer_room q.capacity (contents blank q) x xs room
      ]

module _ {D : Type 0} ⦃d : Double D⦄ where
  late_cases :
      (t : NormalizedTick D)
      → t.is_stale ≡ false
      → ((mark_stale t).is_stale ≡ true)
        ↔ ((0 < t.exchange_ts_ns) × (pos 5_000_000_000 <ℤ latency_of t))
  unfolding mark_stale
  late_cases t n = elim (Bool-cases (ltb 0 t.exchange_ts_ns)) [
    | inl known ↦ rw known (λ h. (ground arith, ground arith), λ h. ground arith)
    | inr zero_time ↦ rw zero_time (λ h. absurd (cc), λ h. absurd (ground arith))
  ]

module _ {D : Type 0} where
  -- When a feed's tick counts as late: its exchange time is known and more than five seconds back.
  abbrev pub IsLate : ℕ → FeedMsg D → Type 0
  IsLate recv_ts (ltpc l) =
      (0 < to_u64 l.ltt * 1_000_000 % 2 ^ 64)
      × (pos 5_000_000_000 <ℤ to_i64 recv_ts -ℤ to_i64 (to_u64 l.ltt * 1_000_000 % 2 ^ 64))
  IsLate recv_ts (market_full l vtt oi quotes) = ⊥
  IsLate recv_ts other_full = ⊥
  IsLate recv_ts (first_level l) = ⊥
  IsLate recv_ts unset = ⊥

some_inj : {A : Type 0} {a b : A} → some a ≡ some b → a ≡ b
some_inj e = cc

module _ {D : Type 0} ⦃d : Double D⦄ (hash : Text → ℕ) where
  abbrev some_first : Option (NormalizedTick D) → List (NormalizedTick D) → List (NormalizedTick D)
  some_first none ts = ts
  some_first (some t) ts = t ∷ ts

  -- The ticks of the feeds that carry data, in their order.
  abbrev pub ticks_of : ℕ → List (Text × FeedMsg D) → List (NormalizedTick D)
  ticks_of recv_ts [] = []
  ticks_of recv_ts ((key, msg) ∷ rest) =
      some_first (translate hash recv_ts key msg) (ticks_of recv_ts rest)

  -- Delivering is a push into the queue and a count.
  abbrev delivered : WsHandler D → List (NormalizedTick D) → WsHandler D
  delivered s ts = record s {
    tick_queue = push_all s.tick_queue ts;
    msg_count = (s.msg_count + length ts) % 2 ^ 64;
  }

  decode_feeds-delivered :
      (s : WsHandler D) (recv_ts : ℕ) (fs : List (Text × FeedMsg D))
      → s.msg_count < 2 ^ 64
      → decode_feeds hash s recv_ts fs ≡ delivered s (ticks_of recv_ts fs)
  unfolding decode_feeds
  decode_feeds-delivered s recv_ts [] h = ap (λ (m : ℕ). record s { msg_count = m }) (omega arith)
  decode_feeds-delivered s recv_ts ((key, msg) ∷ rest) h =
      elim (Option-cases (translate hash recv_ts key msg)) [
        | inl e ↦ rw e (decode_feeds-delivered s recv_ts rest h)
        | inr (t, e) ↦ rw e (
            decode_feeds-delivered (push_tick s t) recv_ts rest (omega arith)
            ∙ ap
                (λ (m : ℕ). record s {
                  tick_queue = push_all (spsc_push s.tick_queue t).0 (ticks_of recv_ts rest);
                  msg_count = m;
                })
                (omega arith))
      ]

  -- A frame that parses appends the ticks of its feeds with data, in their order, to the queue as
  -- far as there is room, drops the later ones, and counts all of them; the rest of the handler is
  -- as before. The queue is one that satisfies its invariant and the counter one of 64 bits.
  pub decode_feeds_lem :
      (blank : NormalizedTick D) (s : WsHandler D) (recv_ts : ℕ) (fs : List (Text × FeedMsg D))
      → IsValid s.tick_queue
      → s.msg_count < 2 ^ 64
      → let s' = decode_feeds hash s recv_ts fs in
        (contents blank s'.tick_queue
          ≡ offer s.tick_queue.capacity (contents blank s.tick_queue) (ticks_of recv_ts fs))
        × (s'.msg_count ≡ (s.msg_count + length (ticks_of recv_ts fs)) % 2 ^ 64)
        × (s' ≡ record s { tick_queue = s'.tick_queue; msg_count = s'.msg_count })
  decode_feeds_lem blank s recv_ts fs v h =
      rw (decode_feeds-delivered s recv_ts fs h)
        (push_all-offer blank s.tick_queue (ticks_of recv_ts fs) v, refl, refl)

  -- A tick is marked stale exactly if its feed is of the kind `ltpc` and is late; the ticks of the
  -- other kinds, which have no exchange time, never are.
  pub translate-IsLate :
      (recv_ts : ℕ) (key : Text) (msg : FeedMsg D) (t : NormalizedTick D)
      → translate hash recv_ts key msg ≡ some t
      → (t.is_stale ≡ true) ↔ IsLate recv_ts msg
  unfolding translate
  translate-IsLate recv_ts key (ltpc l) t e =
      let t0 : NormalizedTick D = record (fresh_tick hash recv_ts key) {
        ltp = l.ltp;
        prev_close = l.cp;
        exchange_ts_ns = to_u64 l.ltt * 1_000_000 % 2 ^ 64;
      } in
      let same : mark_stale t0 ≡ t = some_inj e in
      let both = late_cases t0 refl in
      (
        λ h. both.0 (ap (λ (r : NormalizedTick D). r.is_stale) same ∙ h),
        λ h. ap (λ (r : NormalizedTick D). r.is_stale) (sym same) ∙ both.1 h,
      )
  translate-IsLate recv_ts key (market_full l vtt oi quotes) t e = (λ h. cc, λ h. absurd h)
  translate-IsLate recv_ts key other_full t e = absurd (cc)
  translate-IsLate recv_ts key (first_level l) t e = (λ h. cc, λ h. absurd h)
  translate-IsLate recv_ts key unset t e = absurd (cc)
