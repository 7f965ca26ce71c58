-- ===== src/Oms/Requests.antt =====
-- cpp/oms/oms.cpp: the calls of strategies and of the main thread (submit, cancel, cancel_all_open,
-- the counters) and the broker's rejections.
use quantforge_engine.Prelude.{
  ℕ, suc, ◌+◌, ◌%◌, ◌^◌, Bool, true, false, not, Option, none, some, List, [], ◌∷◌, if◌then◌else◌,
  lookup, insert, erase,
}
use quantforge_engine.Prelude.Text.{Text, strncpy, text_eq}
use quantforge_engine.Doubles.{Double, of_ℕ}
use quantforge_engine.Types.{Order, OrderRequest, OrderStatus, blank_order, blank_fill}
use quantforge_engine.Spsc.{spsc_init}
use quantforge_engine.Oms.OrderState.{transition, is_terminal}
use quantforge_engine.Oms.Pool.{PooledOrder, OrderPool, slot, put_slot, acquire, release, pool_init}
use quantforge_engine.Oms.Dedup.{dedup_reset, no_fills}
use quantforge_engine.Oms.Manager.{
  Oms, place_order, cancel_order, reject_callback, call, order_id_text, paper_oid, paper_trade,
  on_order_ack, on_fill, internal_or_same, exchange_id_of, is_empty, is_working,
}

module _ {D : Type 0} ⦃d : Double D⦄ where
  -- The constructor, with a pool of `pool_size` orders and a fill queue of `queue_size` cells.
  unfoldable pub oms_init : ℕ → ℕ → Bool → Bool → Bool → Oms D
  oms_init pool_size queue_size paper has_fill has_reject = record {
    fill_queue = spsc_init queue_size blank_fill;
    pool = pool_init pool_size;
    orders = [];
    exchange_to_internal = [];
    has_fill_cb = has_fill;
    has_reject_cb = has_reject;
    dedup = no_fills;
    seq = 0;
    paper_mode = paper;
    calls = [];
  }

  -- The order record of a request, over the clean one of the pool.
  unfoldable pub new_order : OrderRequest D → Text → ℕ → Order D
  new_order req oid now_ns =
      let blank : Order D = blank_order in
      record blank {
        order_id = strncpy oid 35;
        strategy_id = strncpy req.strategy_id 31;
        tag = strncpy req.tag 31;
        instrument_token = req.instrument_token;
        side = req.side;
        order_type = req.order_type;
        product = req.product;
        quantity = req.quantity;
        limit_price = req.limit_price;
        trigger_price = req.trigger_price;
        status = OrderStatus.pending;
        placed_ts_ns = now_ns;
      }

  -- `submit` up to the test of the mode: the order is filled in and entered in the map.
  unfoldable pub enter : Oms D → OrderRequest D → Text → ℕ → ℕ → OrderPool D → Oms D
  enter s req oid now_ns p pool = record s {
    pool = put_slot pool p (record (slot pool p) { order = new_order req oid now_ns });
    orders = insert oid p s.orders;
    seq = (s.seq + 1) % 2 ^ 64;
  }

  -- The simulated acknowledgement and fill of paper mode, or the call of the EMS.
  unfoldable pub route : Oms D → OrderRequest D → Text → ℕ → Oms D
  route s req oid fill_ns =
      if s.paper_mode
      then on_fill (on_order_ack s (paper_oid oid) oid) (paper_oid oid)
          (if d.lt (of_ℕ 0) req.limit_price then req.limit_price else of_ℕ 0) req.quantity
          (paper_trade oid) fill_ns
      else call s (place_order req oid)

  -- `submit` at the result of `acquire`.
  unfoldable pub submit_with :
      Oms D → OrderRequest D → ℕ → ℕ → ℕ → Option (ℕ × OrderPool D) → Oms D × Bool
  submit_with s req ts_ms now_ns fill_ns none = (s, false)
  submit_with s req ts_ms now_ns fill_ns (some (p, pool)) =
      let oid = order_id_text ts_ms s.seq in
      (route (enter s req oid now_ns p pool) req oid fill_ns, true)

  -- `ts_ms` is the clock of the order id, `now_ns` that of `placed_ts_ns`, `fill_ns` that of the
  -- simulated fill.
  unfoldable pub submit : Oms D → OrderRequest D → ℕ → ℕ → ℕ → Oms D × Bool
  unfolding submit_with
  submit s req ts_ms now_ns fill_ns = submit_with s req ts_ms now_ns fill_ns (acquire s.pool)

  unfoldable pub cancel_found : Oms D → Text → Option ℕ → Oms D × Bool
  cancel_found s order_id none = (s, false)
  cancel_found s order_id (some p) =
      let exchange_oid = exchange_id_of order_id s.exchange_to_internal in
      if not (is_working (slot s.pool p).sm)
      then (s, false)
      else if is_empty exchange_oid
      then (s, false)
      else (call s (cancel_order exchange_oid), true)

  unfoldable pub cancel : Oms D → Text → Oms D × Bool
  unfolding cancel_found
  cancel s order_id = cancel_found s order_id (lookup order_id s.orders)

  rejected_slot : PooledOrder D → PooledOrder D
  rejected_slot po = record po { sm = (transition po.sm OrderStatus.rejected).0 }

  unfoldable pub reject_found : Oms D → Text → Text → Option ℕ → Oms D
  unfolding rejected_slot
  reject_found s exchange_oid internal_oid none = s
  reject_found s exchange_oid internal_oid (some p) = record s {
    pool = release (put_slot s.pool p (rejected_slot (slot s.pool p))) (some p);
    orders = erase internal_oid s.orders;
    exchange_to_internal = erase exchange_oid s.exchange_to_internal;
  }

  unfoldable pub on_reject : Oms D → Text → Text → Oms D
  unfolding reject_found
  on_reject s exchange_oid reason =
      let internal_oid =
        internal_or_same exchange_oid (lookup exchange_oid s.exchange_to_internal) in
      let s' = reject_found s exchange_oid internal_oid (lookup internal_oid s.orders) in
      if s.has_reject_cb then call s' (reject_callback internal_oid reason) else s'

  unfoldable pub release_found : Oms D → Text → Option ℕ → Oms D
  release_found s oid none = s
  release_found s oid (some p) = record s {
    pool = release s.pool (some p);
    orders = erase oid s.orders;
  }

  -- The error callback that `submit` hands to the EMS.
  unfoldable pub on_place_error : Oms D → Text → Text → Oms D
  unfolding release_found
  on_place_error s oid reason =
      let s' = on_reject s [] reason in release_found s' oid (lookup oid s'.orders)

  -- The ids that `cancel_all_open` collects under the lock.
  unfoldable pub working_ids : OrderPool D → List (Text × ℕ) → List Text
  working_ids pool [] = []
  working_ids pool ((oid, p) ∷ m) =
      if is_working (slot pool p).sm then oid ∷ working_ids pool m else working_ids pool m

  unfoldable pub cancel_each : Oms D → List Text → Oms D
  cancel_each s [] = s
  cancel_each s (oid ∷ oids) = cancel_each (cancel s oid).0 oids

  unfoldable pub cancel_all_open : Oms D → Oms D
  cancel_all_open s = cancel_each s (working_ids s.pool s.orders)

  count_open : OrderPool D → List (Text × ℕ) → ℕ
  count_open pool [] = 0
  count_open pool ((oid, p) ∷ m) =
      let rest = count_open pool m in if is_terminal (slot pool p).sm then rest else suc rest

  unfoldable pub open_order_count : Oms D → ℕ
  unfolding count_open
  open_order_count s = count_open s.pool s.orders

module _ {D : Type 0} where
  unfoldable pub reset_for_eod : Oms D → Oms D
  reset_for_eod s = record s { dedup = dedup_reset s.dedup }
