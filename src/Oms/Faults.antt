-- ===== src/Oms/Faults.antt =====
-- `cancel` of cpp/oms/oms.cpp, and events in an order that its comments do not speak of: a fill
-- before its acknowledgement, a late acknowledgement, a failed placement.
use quantforge_engine.Prelude.{
  ℕ, ◌+◌, ◌%◌, ◌^◌, ◌<◌, ◌≡◌, refl, ◌∙◌, ap, ◌⊎◌, inl, inr, true, false, [], ◌∷◌, none, some,
  if◌then◌else◌, Bool-cases, Option-cases, if_true, lookup, erase, length, get_or-set_self,
}
use quantforge_engine.Prelude.Text.{Text, text_eq}
use quantforge_engine.Prelude.Int.{ℤ}
use quantforge_engine.Doubles.{Double}
use quantforge_engine.Types.{OrderStatus}
use quantforge_engine.Oms.OrderState.{is_legal, transition}
use quantforge_engine.Oms.Pool.{PooledOrder, clean, slot, release}
use quantforge_engine.Oms.Dedup.{contains, mark_slow, try_mark}
use quantforge_engine.Oms.Manager.{
  Oms, call, cancel_order, reject_callback, internal_or_suffix, is_empty, is_working,
  exchange_id_of, on_order_ack, acked_slot, on_fill, fill_unseen, fill_found,
}
use quantforge_engine.Oms.Requests.{cancel, on_reject, reject_found, on_place_error, release_found}
use quantforge_engine.Oms.Conservation.Histories.{Session}
use quantforge_engine.Oms.Fills.{on_fill_once}

module _ {D : Type 0} ⦃d : Double D⦄ where
  -- A fill event with a new trade id whose order is not found changes nothing but the set of seen ids,
  -- and so it is lost: after any further calls of the day (the acknowledgement among them) the event
  -- that the broker sends again is only counted as a duplicate.
  pub on_fill_early :
      (s : Oms D) {t : Oms D} (exoid : Text) (price : D) (qty : ℤ) (tid : Text) (now later : ℕ)
      → is_empty tid ≡ false
      → contains tid s.dedup.processed ≡ false
      → lookup (internal_or_suffix exoid (lookup exoid s.exchange_to_internal)) s.orders ≡ none
      → Session (on_fill s exoid price qty tid now) t
      → (on_fill s exoid price qty tid now
          ≡ record s { dedup = record (s.dedup) { processed = tid ∷ s.dedup.processed } })
        × (on_fill t exoid price qty tid later ≡ record t {
          dedup = record (t.dedup) { duplicates = (t.dedup.duplicates + 1) % 2 ^ 64 };
        })
  unfolding on_fill try_mark mark_slow fill_unseen fill_found
  on_fill_early s exoid price qty tid now later named new unknown r = (
    rw (named, new, unknown),
    on_fill_once s exoid exoid price price qty qty tid now later named r,
  )

  -- An acknowledgement of a known order always writes OPEN into the order's record, while the state
  -- machine moves only where OPEN is legal, and else stays: so after one for a partially filled order
  -- the record says OPEN and the state machine PARTIAL.
  pub on_order_ack_late :
      (s : Oms D) (exoid oid : Text) (p : ℕ)
      → lookup oid s.orders ≡ some p
      → p < length s.pool.slots
      → let old = (slot s.pool p).sm in
        let new = slot (on_order_ack s exoid oid).pool p in
        (new.order.status ≡ OrderStatus.opened)
        × (new.sm ≡ (if is_legal old OrderStatus.opened then OrderStatus.opened else old))
  unfolding on_order_ack acked_slot transition
  on_order_ack_late s exoid oid p found inside =
      let at = get_or-set_self s.pool.slots p (acked_slot (slot s.pool p)) clean inside in
      rw found (
        ap (λ (o : PooledOrder D). o.order.status) at,
        ap (λ (o : PooledOrder D). o.sm) at ∙ acked-sm (slot s.pool p).sm,
      )
    where
      acked-sm :
          (old : OrderStatus)
          → (transition old OrderStatus.opened).0
            ≡ (if is_legal old OrderStatus.opened then OrderStatus.opened else old)
      acked-sm OrderStatus.pending = refl
      acked-sm _ = refl

  -- `cancel` answers true exactly for a known, working order with an exchange id, and then asks the
  -- broker to cancel that exchange id; in every other case it answers false and changes nothing.
  pub cancel_lem :
      (s : Oms D) (oid : Text)
      → ((p : ℕ) × (lookup oid s.orders ≡ some p)
          × (is_working (slot s.pool p).sm ≡ true)
          × (is_empty (exchange_id_of oid s.exchange_to_internal) ≡ false)
          × (cancel s oid
              ≡ (call s (cancel_order (exchange_id_of oid s.exchange_to_internal)), true)))
        ⊎ (((lookup oid s.orders ≡ none)
              ⊎ (is_empty (exchange_id_of oid s.exchange_to_internal) ≡ true)
              ⊎ ((p : ℕ) × (lookup oid s.orders ≡ some p)
                  × (is_working (slot s.pool p).sm ≡ false)))
            × (cancel s oid ≡ (s, false)))
  unfolding cancel
  cancel_lem s oid = elim (Option-cases (lookup oid s.orders)) [
    | inl unknown ↦ inr (inl unknown, rw unknown)
    | inr (p, found) ↦ elim (Bool-cases (is_working (slot s.pool p).sm)) [
      | inr idle ↦ inr (inr (inr (p, found, idle)), rw (found, idle))
      | inl working ↦ elim (Bool-cases (is_empty (exchange_id_of oid s.exchange_to_internal))) [
        | inl bare ↦ inr (inr (inl bare), rw (found, working, bare))
        | inr named ↦ inl (p, found, working, named, rw (found, working, named))
      ]
    ]
  ]

  -- When the broker refuses a placement the order is dropped and its slot freed, but the rejection
  -- callback is told the empty text and not the order's id.
  pub on_place_error_lem :
      (s : Oms D) (oid reason : Text) (p : ℕ)
      → lookup [] s.exchange_to_internal ≡ none
      → lookup [] s.orders ≡ none
      → lookup oid s.orders ≡ some p
      → s.has_reject_cb ≡ true
      → on_place_error s oid reason ≡ record s {
        pool = release s.pool (some p);
        orders = erase oid s.orders;
        calls = reject_callback [] reason ∷ s.calls;
      }
  unfolding on_place_error on_reject reject_found release_found
  on_place_error_lem s oid reason p no_ex no_order found has =
      ap (λ (t : Oms D). release_found t oid (lookup oid t.orders)) rejected ∙ rw found
    where
      rejected : on_reject s [] reason ≡ call s (reject_callback [] reason)
      rejected = rw (no_ex, no_order) (if_true _ _ has)
