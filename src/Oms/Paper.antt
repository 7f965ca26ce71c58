-- ===== src/Oms/Paper.antt =====
-- What paper mode makes of a submission in cpp/oms/oms.cpp.
use quantforge_engine.Prelude.{
  ℕ, ◌<◌, ◌≡◌, refl, ◌∙◌, ap, inl, inr, true, false, List, ◌∷◌, none, some, if◌then◌else◌,
  Bool-cases, if_true, lookup, insert, erase, length, length-set, set, get_or-set_self,
  lookup-insert_self, erase-insert,
}
use quantforge_engine.Prelude.Text.{Text, text_eq, strncpy}
use quantforge_engine.Prelude.Int.{pos}
use quantforge_engine.Doubles.{Double, of_ℕ}
use quantforge_engine.Types.{Fill, Order, OrderRequest, OrderStatus}
use quantforge_engine.Spsc.{spsc_push}
use quantforge_engine.Oms.Pool.{OrderPool, PooledOrder, clean, slot, acquire, acquire_from}
use quantforge_engine.Oms.Dedup.{contains}
use quantforge_engine.Oms.Manager.{
  Oms, on_order_ack, on_fill, make_fill, paper_oid, paper_trade, order_id_text,
}
use quantforge_engine.Oms.AckFill.{on_fill-on_order_ack}
use quantforge_engine.Oms.Requests.{enter, route, submit, submit_with, new_order}

module _ {D : Type 0} ⦃d : Double D⦄ where
  -- The fill that paper mode makes of a request.
  abbrev pub paper_fill : OrderRequest D → Text → ℕ → Fill D
  paper_fill req oid fill_ns = record {
    order_id = strncpy oid 35;
    trade_id = strncpy (paper_trade oid) 35;
    strategy_id = strncpy (strncpy req.strategy_id 31) 31;
    instrument_token = req.instrument_token;
    side = req.side;
    quantity = req.quantity;
    price = req.limit_price;
    fill_ts_ns = fill_ns;
  }

  paper_price :
      (l : D)
      → d.lt (of_ℕ 0) (of_ℕ 0) ≡ false
      → let p = if d.lt (of_ℕ 0) l then l else of_ℕ 0 in (if d.lt (of_ℕ 0) p then p else l) ≡ l
  paper_price l h = elim (Bool-cases (d.lt (of_ℕ 0) l)) [
    | inl up ↦ rw (up, up)
    | inr flat ↦ rw (flat, h)
  ]

  -- The acknowledgement and the fill that `submit` simulates, once the order is entered.
  route_paper :
      (s : Oms D) (req : OrderRequest D) (oid : Text) (o : Order D) (fill_ns p : ℕ)
      → s.paper_mode ≡ true
      → slot s.pool p ≡ record { order = o; sm = OrderStatus.pending }
      → o.filled_qty ≡ pos 0
      → o.quantity ≡ req.quantity
      → lookup oid s.orders ≡ some p
      → p < length s.pool.slots
      → contains (paper_trade oid) s.dedup.processed ≡ false
      → let t = route s req oid fill_ns in
        let price = if d.lt (of_ℕ 0) req.limit_price then req.limit_price else of_ℕ 0 in
        (t.fill_queue
          ≡ (spsc_push s.fill_queue
              (make_fill o oid price req.quantity (paper_trade oid) fill_ns)).0)
        × (t.pool.free_list ≡ p ∷ s.pool.free_list)
        × (t.orders ≡ erase oid s.orders)
        × (t.exchange_to_internal
            ≡ erase (paper_oid oid) (insert (paper_oid oid) oid s.exchange_to_internal))
  route_paper s req oid o fill_ns p paper at_p none_filled same_qty entered inside new_trade =
      let price = if d.lt (of_ℕ 0) req.limit_price then req.limit_price else of_ℕ 0 in
      let exoid = paper_oid oid in
      let e : route s req oid fill_ns
          ≡ on_fill (on_order_ack s exoid oid) exoid price req.quantity (paper_trade oid) fill_ns =
        unfold route in if_true _ _ paper in
      rw e (
        on_fill-on_order_ack s exoid oid o price req.quantity (paper_trade oid) fill_ns p refl at_p
          none_filled same_qty entered inside new_trade)

  -- In paper mode a submission that gets a slot and has fresh ids is accepted and filled at once, in
  -- full, at the limit price of the request (for a market order too, whose limit price is 0 unless
  -- set): the slot and both map entries are given back, and the fill goes to the fill queue, if that
  -- has room.
  pub submit_paper :
      (s : Oms D) (req : OrderRequest D) (ts now fill_ns p : ℕ) (rest : List ℕ)
      → d.lt (of_ℕ 0) (of_ℕ 0) ≡ false
      → s.paper_mode ≡ true
      → s.pool.free_list ≡ p ∷ rest
      → p < length s.pool.slots
      → lookup (order_id_text ts s.seq) s.orders ≡ none
      → lookup (paper_oid (order_id_text ts s.seq)) s.exchange_to_internal ≡ none
      → contains (paper_trade (order_id_text ts s.seq)) s.dedup.processed ≡ false
      → let (t, accepted) = submit s req ts now fill_ns in
        (accepted ≡ true)
        × (t.pool.free_list ≡ s.pool.free_list)
        × (t.orders ≡ s.orders)
        × (t.exchange_to_internal ≡ s.exchange_to_internal)
        × (t.fill_queue
            ≡ (spsc_push s.fill_queue (paper_fill req (order_id_text ts s.seq) fill_ns)).0)
  unfolding submit submit_with acquire acquire_from enter new_order make_fill
  submit_paper s req ts now fill_ns p rest zero_lt paper free inside new_oid new_exoid new_trade =
      let oid = order_id_text ts s.seq in
      let pool : OrderPool D = record { slots = set s.pool.slots p clean; free_list = rest } in
      let kept = length-set s.pool.slots p clean in
      let at : slot pool p ≡ clean = get_or-set_self s.pool.slots p clean clean inside in
      let r =
        route_paper (enter s req oid now p pool) req oid (new_order req oid now) fill_ns p paper
          (get_or-set_self pool.slots p _ clean (rw kept inside)
            ∙ ap (λ (o : PooledOrder D). record o { order = new_order req oid now }) at)
          refl refl (lookup-insert_self oid p s.orders)
          (rw
            (length-set pool.slots p (record (slot pool p) { order = new_order req oid now }), kept)
            inside)
          new_trade in
      rw free (
        refl,
        r.1,
        r.2 ∙ erase-insert oid p s.orders new_oid,
        r.3 ∙ erase-insert (paper_oid oid) oid s.exchange_to_internal new_exoid,
        r.0
            ∙ ap (λ (x : D). (spsc_push s.fill_queue (at_price x)).0)
                (paper_price req.limit_price zero_lt),
      )
    where
      at_price : D → Fill D
      at_price x =
          let f : Fill D = paper_fill req (order_id_text ts s.seq) fill_ns in record f { price = x }
