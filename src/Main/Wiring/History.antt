-- ===== src/Main/Wiring/History.antt =====
-- cpp/main/main.cpp: what the calls of the callbacks leave behind, in the risk gate and in Kafka.
use quantforge_engine.Prelude.{
  All, ℕ, ◌≡◌, refl, sym, ap, ◌∙◌, Bool, true, false, ◌&&◌, Option, none, some, List, [], ◌∷◌, map,
  ◌==◌, if◌then◌else◌, if_true, if_false, lookup-insert, nat_eq, Bool-cases, ◌>>=◌, inl, inr,
}
use quantforge_engine.Prelude.Text.{Text}
use quantforge_engine.Doubles.{Double}
use quantforge_engine.Types.{NormalizedTick, Fill, PortfolioSnapshot}
use quantforge_engine.Risk.Gate.{RiskEngine, current_price}
use quantforge_engine.Risk.Gate
use quantforge_engine.Transport.Kafka.{
  KafkaPublisher, Message, produce, count_published, Topic, publish_tick, publish_fill,
  publish_portfolio, serialize_fill,
}
use quantforge_engine.Transport.Redis.{
  RedisClient, Context, drains, flush_ctx, redis_connect, redis_flush,
}
use quantforge_engine.Main.Wiring.{
  Sinks, Formats, FlushAnswers, Call, filled, ticked, updated, on_oms_fill, on_normalized,
  on_portfolio_update, publish_positions, run_call, run_calls,
}

module _ {D : Type 0} where
  -- The price of an instrument after the calls: the last one that a fill or a tick of it carried.
  abbrev pub price_step : ℕ → D → Call D → D
  price_step token p (filled fill accepted) =
      if fill.instrument_token == token then fill.price else p
  price_step token p (ticked t accepted) = if t.instrument_token == token then t.ltp else p
  price_step token p (updated snap accepted a) = p

  abbrev pub last_price : ℕ → D → List (Call D) → D
  last_price token p [] = p
  last_price token p (c ∷ cs) = last_price token (price_step token p c) cs

  -- The loop over the replies ends.
  abbrev pub Drains : Call D → Type 0
  Drains (filled fill accepted) = Unit
  Drains (ticked t accepted) = Unit
  Drains (updated snap accepted a) = drains a.replies ≡ true

  abbrev pub fills_of : List (Call D) → List (Fill D)
  fills_of [] = []
  fills_of (filled fill accepted ∷ cs) =
      let rest = fills_of cs in if accepted then fill ∷ rest else rest
  fills_of (ticked t accepted ∷ cs) = fills_of cs
  fills_of (updated snap accepted a ∷ cs) = fills_of cs

-- The payloads on the topic of the fills, and the publisher that can write to it.
abbrev pub is_fills : Topic → Bool
is_fills Topic.ticks = false
is_fills Topic.fills = true
is_fills Topic.portfolio = false
is_fills Topic.alerts = false

abbrev pub fill_payloads : List Message → List Text
fill_payloads [] = []
fill_payloads (m ∷ ms) =
    let rest = fill_payloads ms in if is_fills m.topic then m.payload ∷ rest else rest

-- The payloads of further fills, the newest first, before those that are there.
abbrev pub pushed {ℓ} : {A : Type ℓ} → List A → List A → List A
pushed [] old = old
pushed (x ∷ xs) old = pushed xs (x ∷ old)

module _ {D : Type 0} where
  flush_ctx_ends :
      (r : RedisClient D) (o : Option (Context D)) (replies : List Bool) (err up : Bool)
      → drains replies ≡ true
      → (r' : RedisClient D) × (flush_ctx r o replies err up ≡ some r')
  flush_ctx_ends r none replies err up h = (r, refl)
  flush_ctx_ends r (some c) replies err up h =
      let r' = if err then redis_connect (record r { ctx = none }) up else r in
      (r', if_true (some r') none h)

  flush_ends :
      (r : RedisClient D) (a : FlushAnswers)
      → drains a.replies ≡ true
      → (r' : RedisClient D) × (redis_flush r a.replies a.err a.up ≡ some r')
  unfolding redis_flush
  flush_ends r a h = flush_ctx_ends r r.ctx a.replies a.err a.up h

module _ {D : Type 0} ⦃d : Double D⦄ where
  price-update :
      (r : RiskEngine D) (k token : ℕ) (p : D)
      → current_price (Gate.update_price r k p) token
        ≡ (if k == token then p else current_price r token)
  unfolding Gate.update_price current_price
  price-update r k token p =
      rw (lookup-insert k token p r.price_cache)
        (elim (Bool-cases (k == token)) [ inl h ↦ rw h | inr h ↦ rw h ])

-- The publisher can write to the topic of the fills, and a call keeps it so.
abbrev pub Writes : KafkaPublisher → Type 0
Writes k = (k.healthy ≡ true) × (k.has_fills ≡ true)

abbrev pub Holds : KafkaPublisher → List Text → Type 0
Holds k payloads = Writes k × (fill_payloads k.produced ≡ payloads)

-- A message of another topic.
counted-Holds :
    (k : KafkaPublisher) (ps : List Text) (m : Message) (accepted : Bool)
    → is_fills m.topic ≡ false
    → Holds k ps
    → Holds (count_published (produce k m accepted)) ps
counted-Holds k ps m true other h = (h.0, if_false _ _ other ∙ h.1)
counted-Holds k ps m false other h = h

module _ {D : Type 0} ⦃d : Double D⦄ (f : Formats D) where
  publish_tick-Holds :
      (k : KafkaPublisher) (ps : List Text) (t : NormalizedTick D) (accepted : Bool)
      → Holds k ps
      → Holds (publish_tick f.bits k t accepted) ps
  unfolding publish_tick
  publish_tick-Holds k ps t accepted h = elim (Bool-cases (k.healthy && k.has_ticks)) [
    | inl e ↦ rw e (counted-Holds k ps _ accepted refl h)
    | inr e ↦ rw e h
  ]

  publish_portfolio-Holds :
      (k : KafkaPublisher) (ps : List Text) (snap : PortfolioSnapshot D) (accepted : Bool)
      → Holds k ps
      → Holds (publish_portfolio f.show k snap accepted) ps
  unfolding publish_portfolio
  publish_portfolio-Holds k ps snap accepted h = elim (Bool-cases (k.healthy && k.has_portfolio)) [
    | inl e ↦ rw e (counted-Holds k ps _ accepted refl h)
    | inr e ↦ rw e h
  ]

  publish_fill-Holds :
      (k : KafkaPublisher) (ps : List Text) (fill : Fill D) (accepted : Bool)
      → Holds k ps
      → Holds
          (publish_fill f.bits k fill accepted)
          (if accepted then serialize_fill f.bits fill ∷ ps else ps)
  unfolding publish_fill
  publish_fill-Holds k ps fill true ((healthy, has), same) =
      let e : (k.healthy && k.has_fills) ≡ true = rw (healthy, has) in
      rw e ((healthy, has), ap (λ (xs : List Text). serialize_fill f.bits fill ∷ xs) same)
  publish_fill-Holds k ps fill false ((healthy, has), same) =
      let e : (k.healthy && k.has_fills) ≡ true = rw (healthy, has) in rw e ((healthy, has), same)

  -- One call: the price, and the fills on their topic.
  abbrev Kept : Sinks D → List Text → ℕ → D → Type 0
  Kept s ps token p = (current_price s.risk token ≡ p) × Holds s.kafka ps

  call_lem :
      (s : Sinks D) (ps : List Text) (token : ℕ) (p : D) (c : Call D)
      → Kept s ps token p
      → Drains c
      → (s' : Sinks D) × (run_call f s c ≡ some s')
        × Kept s'
            (pushed (map (serialize_fill f.bits) (fills_of (c ∷ []))) ps)
            token
            (price_step token p c)
  unfolding run_call on_oms_fill on_normalized
  call_lem s ps token p (filled fill true) (price, holds) ok = (
    on_oms_fill f s fill true,
    refl,
    (
      price-update s.risk fill.instrument_token token fill.price
          ∙ ap (λ (x : D). if fill.instrument_token == token then fill.price else x) price,
      publish_fill-Holds s.kafka ps fill true holds,
    ),
  )
  call_lem s ps token p (filled fill false) (price, holds) ok = (
    on_oms_fill f s fill false,
    refl,
    (
      price-update s.risk fill.instrument_token token fill.price
          ∙ ap (λ (x : D). if fill.instrument_token == token then fill.price else x) price,
      publish_fill-Holds s.kafka ps fill false holds,
    ),
  )
  call_lem s ps token p (ticked t accepted) (price, holds) ok = (
    on_normalized f s t accepted,
    refl,
    (
      price-update s.risk t.instrument_token token t.ltp
          ∙ ap (λ (x : D). if t.instrument_token == token then t.ltp else x) price,
      publish_tick-Holds s.kafka ps t accepted holds,
    ),
  )
  call_lem s ps token p (updated snap accepted a) (price, holds) ok =
      let (r, returns) = flush_ends (publish_positions f s.redis snap.positions) a ok in
      (
        record s { kafka = publish_portfolio f.show s.kafka snap accepted; redis = r },
        unfold on_portfolio_update in rw returns refl,
        (price, publish_portfolio-Holds s.kafka ps snap accepted holds),
      )

  pushed-split :
      (c : Call D) (cs : List (Call D)) (ps : List Text)
      → pushed (map (serialize_fill f.bits) (fills_of (c ∷ cs))) ps
        ≡ pushed
            (map (serialize_fill f.bits) (fills_of cs))
            (pushed (map (serialize_fill f.bits) (fills_of (c ∷ []))) ps)
  pushed-split (filled fill true) cs ps = refl
  pushed-split (filled fill false) cs ps = refl
  pushed-split (ticked t accepted) cs ps = refl
  pushed-split (updated snap accepted a) cs ps = refl

  calls_lem :
      (cs : List (Call D)) (s : Sinks D) (ps : List Text) (token : ℕ) (p : D)
      → Kept s ps token p
      → All Drains cs
      → (s' : Sinks D) × (run_calls f s cs ≡ some s')
        × Kept s'
            (pushed (map (serialize_fill f.bits) (fills_of cs)) ps)
            token
            (last_price token p cs)
  unfolding run_calls
  calls_lem [] s ps token p kept ends = (s, refl, kept)
  calls_lem (c ∷ cs) s ps token p kept (ok, ends) =
      let (s1, ran, kept1) = call_lem s ps token p c kept ok in
      let (s2, rest, kept2) =
        calls_lem cs s1 (pushed (map (serialize_fill f.bits) (fills_of (c ∷ []))) ps) token
          (price_step token p c) kept1 ends in
      (
        s2,
        ap (λ o. o >>= λ x. run_calls f x cs) ran ∙ rest,
        (kept2.0, (kept2.1.0, kept2.1.1 ∙ sym (pushed-split c cs ps))),
      )

  -- When the loops over the replies of Redis end and the publisher is healthy and has its topic of
  -- fills, any calls of the callbacks return. The risk gate then has, for every instrument, the last
  -- price that a fill or a tick of it carried, or else its price from before; and what librdkafka has
  -- taken for the topic of fills is what it had and, behind that, exactly the fills whose messages it
  -- accepted, each once, serialized, in the order of the calls.
  pub run_calls-Kept :
      (cs : List (Call D)) (s : Sinks D) (token : ℕ)
      → s.kafka.healthy ≡ true
      → s.kafka.has_fills ≡ true
      → All Drains cs
      → (s' : Sinks D) × (run_calls f s cs ≡ some s')
        × (current_price s'.risk token ≡ last_price token (current_price s.risk token) cs)
        × (fill_payloads s'.kafka.produced
            ≡ pushed (map (serialize_fill f.bits) (fills_of cs)) (fill_payloads s.kafka.produced))
  run_calls-Kept cs s token healthy has ends =
      let (s', ran, (price, (_, same))) =
        calls_lem cs s (fill_payloads s.kafka.produced) token (current_price s.risk token)
          (refl, ((healthy, has), refl)) ends in
      (s', ran, price, same)
