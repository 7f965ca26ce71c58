-- ===== src/Oms/Fills.antt =====
-- The deduplication of fills in cpp/oms/oms.cpp over the calls of a day.
use quantforge_engine.Prelude.{
  ℕ, ◌+◌, ◌%◌, ◌^◌, ◌≡◌, refl, ◌∙◌, inl, inr, true, false, List, [], ◌∷◌, Option, none, some, arith,
  Bool-cases, if_elim, lookup, beq_self,
}
use quantforge_engine.Prelude.Text.{Text, text_eq}
use quantforge_engine.Prelude.Int.{ℤ}
use quantforge_engine.Doubles.{Double}
use quantforge_engine.Types.{Fill, OrderRequest}
use quantforge_engine.Oms.Pool.{acquire, acquire_from}
use quantforge_engine.Oms.Dedup.{FillDeduplicator, refused, contains, mark_slow, try_mark}
use quantforge_engine.Oms.Manager.{
  Oms, internal_or_same, is_empty, on_order_ack, ack_found, on_fill, fill_unseen, fill_found,
  book_fill, retire, deliver, paper_oid, order_id_text,
}
use quantforge_engine.Oms.Requests.{
  enter, route, submit, submit_with, cancel, cancel_found, on_reject, reject_found, on_place_error,
  release_found, cancel_each, cancel_all_open, working_ids,
}
use quantforge_engine.Oms.Conservation.Histories.{
  Step, submits, cancels, acks, fills, rejects, place_fails, cancels_all, Session, opening,
  and_then,
}

-- Every id that was marked stays marked.
abbrev Extends : FillDeduplicator → FillDeduplicator → Type 0
Extends f g = (t : Text) → contains t f.processed ≡ true → contains t g.processed ≡ true

try_mark-Extends : (f : FillDeduplicator) (tid : Text) → Extends f (try_mark f tid).0
unfolding try_mark mark_slow contains
try_mark-Extends f tid t h = ground arith

try_mark-contains :
    (f : FillDeduplicator) (tid : Text) → contains tid (try_mark f tid).0.processed ≡ true
unfolding try_mark
try_mark-contains f tid = elim (Bool-cases (contains tid f.processed)) [
  | inl old ↦ rw old old
  | inr new ↦ rw new (unfold mark_slow contains in rw (new, beq_self tid))
]

module _ {D : Type 0} ⦃d : Double D⦄ where
  dedup-book_fill :
      (s : Oms D) (exoid oid : Text) (p : ℕ) (f : Fill D)
      → (book_fill s exoid oid p f).dedup ≡ s.dedup
  unfolding book_fill retire
  dedup-book_fill s exoid oid p f =
      if_elim (λ (t : Oms D). t.dedup ≡ s.dedup) _ _ _ (λ _. refl) (λ _. refl)

  dedup-deliver : (s : Oms D) (f : Fill D) → (deliver s f).dedup ≡ s.dedup
  unfolding deliver
  dedup-deliver s f =
      if_elim (λ (t : Oms D). t.dedup ≡ s.dedup) s.has_fill_cb _ _ (λ _. refl) (λ _. refl)

  dedup-fill_found :
      (s : Oms D) (exoid oid : Text) (price : D) (qty : ℤ) (tid : Text) (now : ℕ) (o : Option ℕ)
      → (fill_found s exoid oid price qty tid now o).dedup ≡ s.dedup
  unfolding fill_found
  dedup-fill_found s exoid oid price qty tid now none = refl
  dedup-fill_found s exoid oid price qty tid now (some p) =
      dedup-deliver _ _ ∙ dedup-book_fill s exoid oid p _

  dedup-fill_unseen :
      (s : Oms D) (exoid : Text) (price : D) (qty : ℤ) (tid : Text) (now : ℕ)
      → (fill_unseen s exoid price qty tid now).dedup ≡ s.dedup
  unfolding fill_unseen
  dedup-fill_unseen s exoid price qty tid now = dedup-fill_found s exoid _ price qty tid now _

  dedup-on_fill :
      (s : Oms D) (exoid : Text) (price : D) (qty : ℤ) (tid : Text) (now : ℕ)
      → is_empty tid ≡ false
      → (on_fill s exoid price qty tid now).dedup ≡ (try_mark s.dedup tid).0
  unfolding on_fill
  dedup-on_fill s exoid price qty tid now named =
      let Same = λ (t : Oms D). t.dedup ≡ (try_mark s.dedup tid).0 in
      rw named (
        if_elim Same (try_mark s.dedup tid).1 _ _ (λ _. dedup-fill_unseen _ exoid price qty tid now)
          (λ _. refl))

  on_fill-Extends :
      (s : Oms D) (exoid : Text) (price : D) (qty : ℤ) (tid : Text) (now : ℕ)
      → Extends s.dedup (on_fill s exoid price qty tid now).dedup
  on_fill-Extends s exoid price qty tid now t h = elim (Bool-cases (is_empty tid)) [
    | inl bare ↦ unfold on_fill in rw bare (rw (dedup-fill_unseen s exoid price qty tid now) h)
    | inr named ↦
        rw (dedup-on_fill s exoid price qty tid now named) (try_mark-Extends s.dedup tid t h)
  ]

  dedup-on_order_ack : (s : Oms D) (exoid oid : Text) → (on_order_ack s exoid oid).dedup ≡ s.dedup
  unfolding on_order_ack
  dedup-on_order_ack s exoid oid = go (lookup oid s.orders)
    where
      go : (o : Option ℕ) → (ack_found s exoid oid o).dedup ≡ s.dedup
      go none = refl
      go (some p) = refl

  dedup-route :
      (s : Oms D) (req : OrderRequest D) (oid : Text) (now : ℕ)
      → Extends s.dedup (route s req oid now).dedup
  unfolding route
  dedup-route s req oid now t h =
      if_elim (λ (u : Oms D). contains t u.dedup.processed ≡ true) s.paper_mode _ _
        (λ _.
          on_fill-Extends (on_order_ack s (paper_oid oid) oid) _ _ _ _ now t
            (rw (dedup-on_order_ack s (paper_oid oid) oid) h))
        (λ _. h)

  dedup-submit_with :
      (s : Oms D) (req : OrderRequest D) (ts now fill_ns : ℕ) (free : List ℕ)
      → Extends s.dedup (submit_with s req ts now fill_ns (acquire_from s.pool free)).0.dedup
  unfolding submit_with acquire_from
  dedup-submit_with s req ts now fill_ns [] t h = h
  dedup-submit_with s req ts now fill_ns (p ∷ free) t h =
      dedup-route (enter s req (order_id_text ts s.seq) now p _) req _ fill_ns t (unfold enter in h)

  dedup-cancel : (s : Oms D) (oid : Text) → (cancel s oid).0.dedup ≡ s.dedup
  unfolding cancel
  dedup-cancel s oid = go (lookup oid s.orders)
    where
      go : (o : Option ℕ) → (cancel_found s oid o).0.dedup ≡ s.dedup
      go none = refl
      go (some p) = ground arith

  dedup-cancel_each : (s : Oms D) (oids : List Text) → (cancel_each s oids).dedup ≡ s.dedup
  unfolding cancel_each
  dedup-cancel_each s [] = refl
  dedup-cancel_each s (oid ∷ oids) = dedup-cancel_each (cancel s oid).0 oids ∙ dedup-cancel s oid

  dedup-reject_found :
      (s : Oms D) (exoid oid : Text) (o : Option ℕ) → (reject_found s exoid oid o).dedup ≡ s.dedup
  unfolding reject_found
  dedup-reject_found s exoid oid none = refl
  dedup-reject_found s exoid oid (some p) = refl

  dedup-on_reject : (s : Oms D) (exoid reason : Text) → (on_reject s exoid reason).dedup ≡ s.dedup
  unfolding on_reject
  dedup-on_reject s exoid reason =
      let oid = internal_or_same exoid (lookup exoid s.exchange_to_internal) in
      let same = dedup-reject_found s exoid oid (lookup oid s.orders) in
      if_elim (λ (t : Oms D). t.dedup ≡ s.dedup) s.has_reject_cb _ _ (λ _. same) (λ _. same)

  dedup-release_found :
      (s : Oms D) (oid : Text) (o : Option ℕ) → (release_found s oid o).dedup ≡ s.dedup
  unfolding release_found
  dedup-release_found s oid none = refl
  dedup-release_found s oid (some p) = refl

  dedup-on_place_error :
      (s : Oms D) (oid reason : Text) → (on_place_error s oid reason).dedup ≡ s.dedup
  unfolding on_place_error
  dedup-on_place_error s oid reason =
      dedup-release_found (on_reject s [] reason) oid _ ∙ dedup-on_reject s [] reason

  Step-Extends : {s t : Oms D} → Step s t → Extends s.dedup t.dedup
  Step-Extends (submits s req ts now fill_ns _) u h =
      unfold submit acquire in dedup-submit_with s req ts now fill_ns s.pool.free_list u h
  Step-Extends (cancels s oid) u h = rw (dedup-cancel s oid) h
  Step-Extends (acks s exoid oid) u h = rw (dedup-on_order_ack s exoid oid) h
  Step-Extends (fills s exoid price qty tid now) u h = on_fill-Extends s exoid price qty tid now u h
  Step-Extends (rejects s exoid reason) u h = rw (dedup-on_reject s exoid reason) h
  Step-Extends (place_fails s oid reason) u h = rw (dedup-on_place_error s oid reason) h
  Step-Extends (cancels_all s) u h =
      unfold cancel_all_open in rw (dedup-cancel_each s (working_ids s.pool s.orders)) h

  Session-Extends : {s t : Oms D} → Session s t → Extends s.dedup t.dedup
  Session-Extends opening u h = h
  Session-Extends (and_then r st) u h = Step-Extends st u (Session-Extends r u h)

  on_fill_seen :
      (s : Oms D) (exoid : Text) (price : D) (qty : ℤ) (tid : Text) (now : ℕ)
      → is_empty tid ≡ false
      → contains tid s.dedup.processed ≡ true
      → on_fill s exoid price qty tid now ≡ record s { dedup = (refused s.dedup).0 }
  unfolding on_fill try_mark
  on_fill_seen s exoid price qty tid now named seen = rw (named, seen)

  -- Once a fill event with a trade id came, then, after any further calls of the same day, every event
  -- with that id, whatever order, price and quantity it names, only counts a duplicate.
  pub on_fill_once :
      (s : Oms D) {t : Oms D} (exoid exoid' : Text) (price price' : D) (qty qty' : ℤ) (tid : Text)
      (now now' : ℕ)
      → is_empty tid ≡ false
      → Session (on_fill s exoid price qty tid now) t
      → on_fill t exoid' price' qty' tid now'
        ≡ record t { dedup = record (t.dedup) { duplicates = (t.dedup.duplicates + 1) % 2 ^ 64 } }
  on_fill_once s {t} exoid exoid' price price' qty qty' tid now now' named r =
      on_fill_seen t exoid' price' qty' tid now' named (
        Session-Extends r tid
          (rw (dedup-on_fill s exoid price qty tid now named) (try_mark-contains s.dedup tid)))
