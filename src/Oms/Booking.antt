-- ===== src/Oms/Booking.antt =====
-- What a fill does to its order in cpp/oms/oms.cpp.
use mathlib.Core.Path.{subst}
use quantforge_engine.Prelude.{
  sym, [], ◌++◌, ◌+◌, ℕ, ◌<◌, ◌≡◌, refl, ◌∙◌, ap, ◌⊎◌, inl, inr, true, false, ◌∷◌, some, arith,
  Bool-cases, if_elim, lookup, erase, length, get_or-set_self,
}
use quantforge_engine.Prelude.Text.{Text, text_eq}
use quantforge_engine.Prelude.Int.{ℤ, ◌+ℤ◌, ◌≤ℤ◌, ◌<ℤ◌, leb_ℤ}
use quantforge_engine.Doubles.{Double}
use quantforge_engine.Types.{Fill, blank_fill, OrderStatus}
use quantforge_engine.Spsc.{Spsc, spsc_push}
use quantforge_engine.Spsc.Refine.{IsValid, contents, spsc_push_refines}
use quantforge_engine.Oms.OrderState.{transition, is_terminal}
use quantforge_engine.Oms.Pool.{OrderPool, PooledOrder, clean, slot, put_slot, release}
use quantforge_engine.Oms.Dedup.{contains, try_mark}
use quantforge_engine.Oms.Manager.{
  Oms, is_empty, is_working, on_fill, fill_unseen, fill_found, filled_slot, book_fill, retire,
  deliver, make_fill,
}

-- A working order that is filled up completes, another becomes or stays partial.
working-transition :
    (sm : OrderStatus)
    → is_working sm ≡ true
    → ((transition sm OrderStatus.complete).0 ≡ OrderStatus.complete)
      × ((transition sm OrderStatus.partial).0 ≡ OrderStatus.partial)
unfolding transition
working-transition OrderStatus.opened h = (refl, refl)
working-transition OrderStatus.partial h = (refl, refl)
working-transition _ h = absurd (cc)

module _ {D : Type 0} ⦃d : Double D⦄ where
  -- Behind the guard, and with the order found.
  on_fill_found :
      (s : Oms D) (exoid oid : Text) (price : D) (qty : ℤ) (tid : Text) (now p : ℕ)
      → is_empty tid ≡ false
      → contains tid s.dedup.processed ≡ false
      → lookup exoid s.exchange_to_internal ≡ some oid
      → lookup oid s.orders ≡ some p
      → let marked = record s {
        dedup = record (s.dedup) { processed = tid ∷ s.dedup.processed };
      } in
        let fill = make_fill (slot s.pool p).order oid price qty tid now in
        on_fill s exoid price qty tid now ≡ deliver (book_fill marked exoid oid p fill) fill
  unfolding on_fill fill_unseen fill_found try_mark
  on_fill_found s exoid oid price qty tid now p named fresh mapped entered =
      rw (named, fresh, mapped, entered)

  pool-deliver : (s : Oms D) (f : Fill D) → (deliver s f).pool ≡ s.pool
  unfolding deliver
  pool-deliver s f =
      if_elim (λ (t : Oms D). t.pool ≡ s.pool) s.has_fill_cb _ _ (λ _. refl) (λ _. refl)

  orders-deliver : (s : Oms D) (f : Fill D) → (deliver s f).orders ≡ s.orders
  unfolding deliver
  orders-deliver s f =
      if_elim (λ (t : Oms D). t.orders ≡ s.orders) s.has_fill_cb _ _ (λ _. refl) (λ _. refl)

  exchange-deliver :
      (s : Oms D) (f : Fill D) → (deliver s f).exchange_to_internal ≡ s.exchange_to_internal
  unfolding deliver
  exchange-deliver s f =
      if_elim (λ (t : Oms D). t.exchange_to_internal ≡ s.exchange_to_internal) s.has_fill_cb _ _
        (λ _. refl) (λ _. refl)

  queue-deliver : (s : Oms D) (f : Fill D) → (deliver s f).fill_queue ≡ (spsc_push s.fill_queue f).0
  unfolding deliver
  queue-deliver s f =
      if_elim (λ (t : Oms D). t.fill_queue ≡ (spsc_push s.fill_queue f).0) s.has_fill_cb _ _
        (λ _. refl) (λ _. refl)

  -- The order is full: it is retired.
  book_fill_complete :
      (s : Oms D) (exoid oid : Text) (p : ℕ) (f : Fill D)
      → is_working (slot s.pool p).sm ≡ true
      → leb_ℤ (slot s.pool p).order.quantity ((slot s.pool p).order.filled_qty +ℤ f.quantity) ≡ true
      → book_fill s exoid oid p f
        ≡ retire (record s { pool = put_slot s.pool p (filled_slot (slot s.pool p) f) }) exoid oid p
  unfolding book_fill
  book_fill_complete s exoid oid p f working full =
      let done : is_terminal (filled_slot (slot s.pool p) f).sm ≡ true =
        unfold filled_slot is_terminal in
        rw (full, (working-transition (slot s.pool p).sm working).0) in
      rw done

  -- It is not: its record stays.
  book_fill_partial :
      (s : Oms D) (exoid oid : Text) (p : ℕ) (f : Fill D)
      → is_working (slot s.pool p).sm ≡ true
      → leb_ℤ (slot s.pool p).order.quantity ((slot s.pool p).order.filled_qty +ℤ f.quantity)
        ≡ false
      → book_fill s exoid oid p f
        ≡ record s { pool = put_slot s.pool p (filled_slot (slot s.pool p) f) }
  unfolding book_fill
  book_fill_partial s exoid oid p f working short =
      let going : is_terminal (filled_slot (slot s.pool p) f).sm ≡ false =
        unfold filled_slot is_terminal in
        rw (short, (working-transition (slot s.pool p).sm working).1) in
      rw going

  -- The fill and the books.
  pub on_fill_booked :
      (s : Oms D) (exoid oid : Text) (price : D) (qty : ℤ) (tid : Text) (now p : ℕ)
      → is_empty tid ≡ false
      → contains tid s.dedup.processed ≡ false
      → lookup exoid s.exchange_to_internal ≡ some oid
      → lookup oid s.orders ≡ some p
      → p < length s.pool.slots
      → is_working (slot s.pool p).sm ≡ true
      → let old = (slot s.pool p).order in
        let filled = old.filled_qty +ℤ qty in
        let t = on_fill s exoid price qty tid now in
        (t.fill_queue ≡ (spsc_push s.fill_queue (make_fill old oid price qty tid now)).0)
        × (((old.quantity ≤ℤ filled)
              × (t.pool.free_list ≡ p ∷ s.pool.free_list)
              × (t.orders ≡ erase oid s.orders)
              × (t.exchange_to_internal ≡ erase exoid s.exchange_to_internal))
            ⊎ ((filled <ℤ old.quantity)
                × (t.pool.free_list ≡ s.pool.free_list)
                × (t.orders ≡ s.orders)
                × (t.exchange_to_internal ≡ s.exchange_to_internal)
                × ((slot t.pool p).order.filled_qty ≡ filled)
                × ((slot t.pool p).order.status ≡ OrderStatus.partial)
                × ((slot t.pool p).sm ≡ OrderStatus.partial)))
  unfolding filled_slot retire make_fill release
  on_fill_booked s exoid oid price qty tid now p named fresh mapped entered inside working =
      let po = slot s.pool p in
      let fill = make_fill po.order oid price qty tid now in
      let marked : Oms D = record s {
        dedup = record (s.dedup) { processed = tid ∷ s.dedup.processed };
      } in
      let found = on_fill_found s exoid oid price qty tid now p named fresh mapped entered in
      let booked : Oms D = record marked { pool = put_slot s.pool p (filled_slot po fill) } in
      let here : slot booked.pool p ≡ filled_slot po fill =
        get_or-set_self s.pool.slots p _ clean inside in
      elim (Bool-cases (leb_ℤ po.order.quantity (po.order.filled_qty +ℤ qty))) [
        | inl full ↦
            let e =
              found
              ∙ ap (λ b. deliver b fill)
                  (book_fill_complete marked exoid oid p fill working full) in
            let end = retire booked exoid oid p in
            rw e (
              queue-deliver end fill,
              inl (
                ground arith,
                ap (λ (o : OrderPool D). o.free_list) (pool-deliver end fill),
                orders-deliver end fill,
                exchange-deliver end fill,
              ),
            )
        | inr short ↦
            let e =
              found
              ∙ ap (λ b. deliver b fill)
                  (book_fill_partial marked exoid oid p fill working short) in
            let at = ap (λ (o : OrderPool D). slot o p) (pool-deliver booked fill) ∙ here in
            rw e (
              queue-deliver booked fill,
              inr (
                ground arith,
                ap (λ (o : OrderPool D). o.free_list) (pool-deliver booked fill),
                orders-deliver booked fill,
                exchange-deliver booked fill,
                ap (λ (o : PooledOrder D). o.order.filled_qty) at,
                ap (λ (o : PooledOrder D). o.order.status) at ∙ (rw short),
                ap (λ (o : PooledOrder D). o.sm) at ∙ rw short (working-transition po.sm working).1,
              ),
            )
      ]

  -- A fill behind those that a queue holds, or a queue that is full, one place short of its capacity, and
  -- stays as it is.
  abbrev pub QueuedOrLost : Fill D → Spsc (Fill D) → Spsc (Fill D) → Type 0
  QueuedOrLost fill q q' =
      ((length (contents blank_fill q) + 1 < q.capacity)
        × (contents blank_fill q' ≡ contents blank_fill q ++ (fill ∷ [])))
      ⊎ ((length (contents blank_fill q) + 1 ≡ q.capacity) × (q' ≡ q))

  spsc_push-QueuedOrLost :
      (q : Spsc (Fill D)) (fill : Fill D) → IsValid q → QueuedOrLost fill q (spsc_push q fill).0
  spsc_push-QueuedOrLost q fill v = elim (spsc_push_refines blank_fill q fill v).1 [
    | inl (full, _, same) ↦ inr (full, same)
    | inr (room, _, behind) ↦ inl (room, behind)
  ]

  -- A new fill of an acknowledged, working order goes behind those in the fill queue, or is lost if that
  -- is full. In both cases: if it fills the order up, the slot is freed and both map entries are erased;
  -- otherwise the order stays with the added quantity, and its record and its state machine both say
  -- PARTIAL.
  pub on_fill_working :
      (s : Oms D) (exoid oid : Text) (price : D) (qty : ℤ) (tid : Text) (now p : ℕ)
      → is_empty tid ≡ false
      → contains tid s.dedup.processed ≡ false
      → lookup exoid s.exchange_to_internal ≡ some oid
      → lookup oid s.orders ≡ some p
      → p < length s.pool.slots
      → is_working (slot s.pool p).sm ≡ true
      → IsValid s.fill_queue
      → let old = (slot s.pool p).order in
        let filled = old.filled_qty +ℤ qty in
        let fill = make_fill old oid price qty tid now in
        let t = on_fill s exoid price qty tid now in
        QueuedOrLost fill s.fill_queue t.fill_queue
        × (((old.quantity ≤ℤ filled)
              × (t.pool.free_list ≡ p ∷ s.pool.free_list)
              × (t.orders ≡ erase oid s.orders)
              × (t.exchange_to_internal ≡ erase exoid s.exchange_to_internal))
            ⊎ ((filled <ℤ old.quantity)
                × (t.pool.free_list ≡ s.pool.free_list)
                × (t.orders ≡ s.orders)
                × (t.exchange_to_internal ≡ s.exchange_to_internal)
                × ((slot t.pool p).order.filled_qty ≡ filled)
                × ((slot t.pool p).order.status ≡ OrderStatus.partial)
                × ((slot t.pool p).sm ≡ OrderStatus.partial)))
  on_fill_working s exoid oid price qty tid now p named fresh mapped entered inside working valid =
      let fill = make_fill (slot s.pool p).order oid price qty tid now in
      let (queue, books) =
        on_fill_booked s exoid oid price qty tid now p named fresh mapped entered inside working in
      (
        subst (QueuedOrLost fill s.fill_queue) (sym queue)
            (spsc_push-QueuedOrLost s.fill_queue fill valid),
        books,
      )
