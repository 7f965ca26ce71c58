-- ===== src/Ems/Live.antt =====
-- An order in live mode through cpp/oms/oms.cpp, cpp/ems/ems.cpp and
-- cpp/transport/upstox_rest_client.cpp, from `submit` to the broker's answers.
use quantforge_engine.Prelude.{
  ℕ, ◌<◌, ◌≡◌, refl, ◌∙◌, sym, ap, true, false, Option, none, some, List, ◌∷◌, if_true, lookup,
  length, length-set, set, get_or-set_self, lookup-insert_self, erase-insert,
}
use quantforge_engine.Prelude.Text.{Text, text_eq}
use quantforge_engine.Doubles.{Double}
use quantforge_engine.Types.{OrderRequest, OrderStatus}
use quantforge_engine.Spsc.{spsc_push}
use quantforge_engine.Transport.Rest.{Net}
use quantforge_engine.Transport.Rest.Replies.{Succeeds}
use quantforge_engine.Oms.Pool.{PooledOrder, clean, slot, acquire, acquire_from}
use quantforge_engine.Oms.Dedup.{contains}
use quantforge_engine.Oms.Manager.{
  Oms, place_order, call, on_order_ack, on_fill, make_fill, order_id_text, is_empty,
}
use quantforge_engine.Oms.Requests.{
  enter, route, submit, submit_with, new_order, cancel, cancel_found,
}
use quantforge_engine.Oms.AckFill.{on_fill-on_order_ack}
use quantforge_engine.Ems.Response.{Value, order_id_of}
use quantforge_engine.Ems.{Ems, settle, complete, on_fill_event}
use quantforge_engine.Ems.Placement.{complete-parsed}

module _ {D : Type 0} ⦃d : Double D⦄ where
  -- The order manager after `submit` in live mode, with the slot `p`.
  abbrev entered : Oms D → OrderRequest D → ℕ → ℕ → ℕ → List ℕ → Oms D
  entered s req ts now p rest =
      let oid = order_id_text ts s.seq in
      call (enter s req oid now p (record { slots = set s.pool.slots p clean; free_list = rest }))
        (place_order req oid)

  submit-entered :
      (s : Oms D) (req : OrderRequest D) (ts now fill_ns p : ℕ) (rest : List ℕ)
      → s.paper_mode ≡ false
      → s.pool.free_list ≡ p ∷ rest
      → submit s req ts now fill_ns ≡ (entered s req ts now p rest, true)
  unfolding submit submit_with acquire acquire_from route enter
  submit-entered s req ts now fill_ns p rest live free = rw (free, live)

  -- The slot holds the order of the request, pending.
  slot-entered :
      (s : Oms D) (req : OrderRequest D) (ts now p : ℕ) (rest : List ℕ)
      → p < length s.pool.slots
      → slot (entered s req ts now p rest).pool p
        ≡ record { order = new_order req (order_id_text ts s.seq) now; sm = OrderStatus.pending }
  unfolding enter
  slot-entered s req ts now p rest inside =
      let kept = length-set s.pool.slots p clean in
      get_or-set_self (set s.pool.slots p clean) p _ clean (rw kept inside)
      ∙ ap (λ (o : PooledOrder D). record o { order = new_order req (order_id_text ts s.seq) now })
          (get_or-set_self s.pool.slots p clean clean inside)

  module _ (parse : Text → Option Value) (e : Ems) (s : Oms D) (req : OrderRequest D)
      (ts now fill_ns p : ℕ) (rest : List ℕ) (n : Net) where
    -- An order in live mode that gets a slot, that the broker accepts under an exchange id, and that
    -- is then filled whole: it is accepted, the fill goes to the fill queue if that has room, with
    -- the order's instrument, side and strategy, and the slot and the map entries are given back.
    -- The new order id, the exchange id and the trade id are not in use.
    pub live_round_trip :
        (x tid : Text) (price : D) (t : ℕ)
        → s.paper_mode ≡ false
        → e.rest_client.paper_mode ≡ false
        → e.has_fill_cb ≡ true
        → s.pool.free_list ≡ p ∷ rest
        → p < length s.pool.slots
        → Succeeds n
        → order_id_of parse n.body ≡ some x
        → is_empty tid ≡ false
        → lookup (order_id_text ts s.seq) s.orders ≡ none
        → lookup x s.exchange_to_internal ≡ none
        → contains tid s.dedup.processed ≡ false
        → let oid = order_id_text ts s.seq in
          let (s1, accepted) = submit s req ts now fill_ns in
          let s2 = complete parse e s1 req oid n in
          let s3 = on_fill_event e s2 x price req.quantity tid t in
          (accepted ≡ true)
          × (s3.fill_queue
              ≡ (spsc_push s.fill_queue
                  (make_fill (new_order req oid now) oid price req.quantity tid t)).0)
          × (s3.pool.free_list ≡ s.pool.free_list)
          × (s3.orders ≡ s.orders)
          × (s3.exchange_to_internal ≡ s.exchange_to_internal)
    unfolding on_fill_event settle enter new_order
    live_round_trip x tid price t live live' has free inside ok named full new_oid new_x new_tid =
        let oid = order_id_text ts s.seq in
        let s1 = entered s req ts now p rest in
        let acked : complete parse e s1 req oid n ≡ on_order_ack s1 x oid =
          complete-parsed parse e s1 req oid n (some x) live' ok named in
        let pool_kept = length-set s.pool.slots p clean in
        let r =
          on_fill-on_order_ack s1 x oid (new_order req oid now) price req.quantity tid t p full
            (slot-entered s req ts now p rest inside) refl refl (lookup-insert_self oid p s.orders)
            (rw (length-set (set s.pool.slots p clean) p _, pool_kept) inside) new_tid in
        rw (submit-entered s req ts now fill_ns p rest live free) (
          refl,
          filled s1 oid acked (λ (a : Oms D). a.fill_queue) ∙ r.0,
          filled s1 oid acked (λ (a : Oms D). a.pool.free_list) ∙ r.1 ∙ sym free,
          filled s1 oid acked (λ (a : Oms D). a.orders) ∙ r.2 ∙ erase-insert oid p s.orders new_oid,
          filled s1 oid acked (λ (a : Oms D). a.exchange_to_internal)
              ∙ r.3
              ∙ erase-insert x oid s.exchange_to_internal new_x,
        )
      where
        filled :
            {A : Type 0} (s1 : Oms D) (oid : Text)
            → complete parse e s1 req oid n ≡ on_order_ack s1 x oid
            → (f : Oms D → A)
            → f (on_fill_event e (complete parse e s1 req oid n) x price req.quantity tid t)
              ≡ f (on_fill (on_order_ack s1 x oid) x price req.quantity tid t)
        filled s1 oid a f =
            ap f (if_true _ _ has ∙ ap (λ b. on_fill b x price req.quantity tid t) a)

    -- An order in live mode that gets a slot and that the broker accepts in an answer from which no
    -- exchange id can be read: it stays pending, is known, keeps its slot, and cannot be cancelled.
    pub live_unread :
        s.paper_mode ≡ false
        → e.rest_client.paper_mode ≡ false
        → s.pool.free_list ≡ p ∷ rest
        → p < length s.pool.slots
        → Succeeds n
        → order_id_of parse n.body ≡ none
        → let oid = order_id_text ts s.seq in
          let s2 = complete parse e (submit s req ts now fill_ns).0 req oid n in
          (lookup oid s2.orders ≡ some p)
          × ((slot s2.pool p).sm ≡ OrderStatus.pending)
          × (s2.pool.free_list ≡ rest)
          × (cancel s2 oid ≡ (s2, false))
    unfolding settle cancel cancel_found enter
    live_unread live live' free inside ok unread =
        let oid = order_id_text ts s.seq in
        let s1 = entered s req ts now p rest in
        let found = lookup-insert_self oid p s.orders in
        let waits = ap (λ (o : PooledOrder D). o.sm) (slot-entered s req ts now p rest inside) in
        rw (submit-entered s req ts now fill_ns p rest live free) (
          rw (complete-parsed parse e s1 req oid n none live' ok unread)
            (found, waits, refl, rw (found, waits)))
