-- ===== src/Oms/AckFill.antt =====
-- cpp/oms/oms.cpp: an acknowledgement and a fill of the whole quantity, one after the other.
use quantforge_engine.Prelude.{
  ℕ, ◌<◌, ◌≡◌, refl, ◌∙◌, ap, inl, inr, true, false, ◌∷◌, some, arith, lookup, insert, erase,
  length, length-set, get_or-set_self, lookup-insert_self,
}
use quantforge_engine.Prelude.Text.{Text, text_eq}
use quantforge_engine.Prelude.Int.{ℤ, pos, ◌+ℤ◌, ◌<ℤ◌, leb_ℤ}
use quantforge_engine.Doubles.{Double}
use quantforge_engine.Types.{Order, OrderStatus}
use quantforge_engine.Spsc.{spsc_push}
use quantforge_engine.Oms.OrderState.{transition}
use quantforge_engine.Oms.Pool.{PooledOrder, clean, slot, put_slot}
use quantforge_engine.Oms.Dedup.{contains}
use quantforge_engine.Oms.Manager.{Oms, is_empty, on_order_ack, acked_slot, on_fill, make_fill}
use quantforge_engine.Oms.Booking.{on_fill_booked}

-- An order is filled up by its own quantity.
zero_add-leb : (q : ℤ) → leb_ℤ q (pos 0 +ℤ q) ≡ true
unfolding ◌+ℤ◌
zero_add-leb q = ground arith

fills_up : (q : ℤ) → ¬ (pos 0 +ℤ q <ℤ q)
fills_up q h = let z = zero_add-leb q in ground arith

module _ {D : Type 0} ⦃d : Double D⦄ where
  -- A pending order with nothing filled is acknowledged and filled at once.
  pub on_fill-on_order_ack :
      (s : Oms D) (exoid oid : Text) (o : Order D) (price : D) (quantity : ℤ) (tid : Text)
      (now p : ℕ)
      → is_empty tid ≡ false
      → slot s.pool p ≡ record { order = o; sm = OrderStatus.pending }
      → o.filled_qty ≡ pos 0
      → o.quantity ≡ quantity
      → lookup oid s.orders ≡ some p
      → p < length s.pool.slots
      → contains tid s.dedup.processed ≡ false
      → let t = on_fill (on_order_ack s exoid oid) exoid price quantity tid now in
        (t.fill_queue ≡ (spsc_push s.fill_queue (make_fill o oid price quantity tid now)).0)
        × (t.pool.free_list ≡ p ∷ s.pool.free_list)
        × (t.orders ≡ erase oid s.orders)
        × (t.exchange_to_internal ≡ erase exoid (insert exoid oid s.exchange_to_internal))
  unfolding acked_slot transition make_fill
  on_fill-on_order_ack s exoid oid o price quantity tid now p full_tid at_p none_filled same_qty
        entered inside new_trade =
      let acked : Oms D = record s {
        exchange_to_internal = insert exoid oid s.exchange_to_internal;
        pool = put_slot s.pool p (acked_slot (slot s.pool p));
      } in
      let ack : on_order_ack s exoid oid ≡ acked = unfold on_order_ack in rw entered in
      let opened : PooledOrder D = record {
        order = record o { status = OrderStatus.opened };
        sm = OrderStatus.opened;
      } in
      let here : slot acked.pool p ≡ opened =
        get_or-set_self s.pool.slots p _ clean inside ∙ ap acked_slot at_p in
      let booked =
        on_fill_booked acked exoid oid price quantity tid now p full_tid new_trade
          (lookup-insert_self exoid oid s.exchange_to_internal) entered
          (rw (length-set s.pool.slots p (acked_slot (slot s.pool p))) inside) (rw here refl) in
      rw ack (
        booked.0
            ∙ ap
                (λ (po : PooledOrder D).
                  (spsc_push s.fill_queue (make_fill po.order oid price quantity tid now)).0)
                here,
        elim booked.1 [ inl r ↦ r.1 | inr h ↦ absurd (never_short _ here h.0) ],
        elim booked.1 [ inl r ↦ r.2 | inr h ↦ absurd (never_short _ here h.0) ],
        elim booked.1 [ inl r ↦ r.3 | inr h ↦ absurd (never_short _ here h.0) ],
      )
    where
      never_short :
          (po : PooledOrder D)
          → po
            ≡ record { order = record o { status = OrderStatus.opened }; sm = OrderStatus.opened }
          → ¬ (po.order.filled_qty +ℤ quantity <ℤ po.order.quantity)
      never_short po at short =
          let f = ap (λ (x : PooledOrder D). x.order.filled_qty) at ∙ none_filled in
          let q = ap (λ (x : PooledOrder D). x.order.quantity) at ∙ same_qty in
          fills_up quantity (rw (f, q) at short)
