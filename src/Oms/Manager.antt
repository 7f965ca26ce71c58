-- ===== src/Oms/Manager.antt =====
-- cpp/oms/oms.cpp and oms.hpp: OrderManagementSystem. The clocks are arguments; the calls that leave
-- the component (the EMS, the two callbacks) are recorded, newest first.
use quantforge_engine.Prelude.{
  ℕ, Bool, true, false, ◌||◌, Option, none, some, List, [], ◌∷◌, ◌++◌, length, drop, ltb,
  if◌then◌else◌, lookup, insert, erase,
}
use quantforge_engine.Prelude.Int.{ℤ, ◌+ℤ◌, leb_ℤ}
use quantforge_engine.Prelude.Text.{Text, codes, strncpy, decimal, text_beq, text_eq}
use quantforge_engine.Doubles.{Double, of_ℕ}
use quantforge_engine.Types.{Order, OrderRequest, Fill, OrderStatus, is_status}
use quantforge_engine.Spsc.{Spsc, spsc_push}
use quantforge_engine.Oms.OrderState.{transition, is_terminal}
use quantforge_engine.Oms.Pool.{PooledOrder, OrderPool, slot, put_slot, release}
use quantforge_engine.Oms.Dedup.{FillDeduplicator, try_mark}

-- A call out of the component.
pub data Call (D : Type 0) : Type 0 where
  place_order : OrderRequest D → Text → Call D
  cancel_order : Text → Call D
  fill_callback : Fill D → Call D
  reject_callback : Text → Text → Call D

pub record Oms (D : Type 0) : Type 0 where
  pub fill_queue : Spsc (Fill D)
  pub pool : OrderPool D
  pub orders : List (Text × ℕ)
  pub exchange_to_internal : List (Text × Text)
  pub has_fill_cb : Bool
  pub has_reject_cb : Bool
  pub dedup : FillDeduplicator
  pub seq : ℕ
  pub paper_mode : Bool
  pub calls : List (Call D)

-- `generate_order_id` at a given time and sequence number: QF-{ts}-{seq}.
unfoldable pub order_id_text : ℕ → ℕ → Text
order_id_text ts_ms seq = codes "QF-" ++ (decimal ts_ms ++ (codes "-" ++ decimal seq))

-- In paper mode the exchange's names are derived from the internal id.
abbrev pub paper_oid : Text → Text
paper_oid oid = codes "PAPER-" ++ oid

abbrev pub paper_trade : Text → Text
paper_trade oid = codes "PAPER-TRD-" ++ oid

-- The internal id that `on_fill` takes an exchange id for.
abbrev pub internal_or_suffix : Text → Option Text → Text
internal_or_suffix exchange_oid none =
    if ltb 6 (length exchange_oid) then drop 6 exchange_oid else exchange_oid
internal_or_suffix exchange_oid (some internal_oid) = internal_oid

-- The one that `on_reject` takes.
abbrev pub internal_or_same : Text → Option Text → Text
internal_or_same exchange_oid none = exchange_oid
internal_or_same exchange_oid (some internal_oid) = internal_oid

-- The loop of `cancel` over exchange_to_internal_: the first exchange id of the order, or "".
unfoldable pub exchange_id_of : Text → List (Text × Text) → Text
exchange_id_of order_id [] = []
exchange_id_of order_id ((exoid, iid) ∷ m) =
    if text_beq iid order_id then exoid else exchange_id_of order_id m

abbrev pub is_empty : Text → Bool
is_empty [] = true
is_empty (x ∷ xs) = false

-- The test of `cancel` and of `cancel_all_open`.
abbrev pub is_working : OrderStatus → Bool
is_working s = is_status s OrderStatus.opened || is_status s OrderStatus.partial

module _ {D : Type 0} ⦃d : Double D⦄ where
  abbrev pub call : Oms D → Call D → Oms D
  call s c = record s { calls = c ∷ s.calls }

  unfoldable pub acked_slot : PooledOrder D → PooledOrder D
  acked_slot po = record {
    order = record (po.order) { status = OrderStatus.opened };
    sm = (transition po.sm OrderStatus.opened).0;
  }

  unfoldable pub ack_found : Oms D → Text → Text → Option ℕ → Oms D
  unfolding acked_slot
  ack_found s exchange_oid internal_oid none = s
  ack_found s exchange_oid internal_oid (some p) = record s {
    exchange_to_internal = insert exchange_oid internal_oid s.exchange_to_internal;
    pool = put_slot s.pool p (acked_slot (slot s.pool p));
  }

  unfoldable pub on_order_ack : Oms D → Text → Text → Oms D
  unfolding ack_found
  on_order_ack s exchange_oid internal_oid =
      ack_found s exchange_oid internal_oid (lookup internal_oid s.orders)

  -- The fill that `on_fill` builds from the order.
  unfoldable pub make_fill : Order D → Text → D → ℤ → Text → ℕ → Fill D
  make_fill o internal_oid fill_price fill_qty trade_id now_ns = record {
    order_id = strncpy internal_oid 35;
    trade_id = strncpy trade_id 35;
    strategy_id = strncpy o.strategy_id 31;
    instrument_token = o.instrument_token;
    side = o.side;
    quantity = fill_qty;
    price = if d.lt (of_ℕ 0) fill_price then fill_price else o.limit_price;
    fill_ts_ns = now_ns;
  }

  -- The update of the order and of its state machine under the lock.
  unfoldable pub filled_slot : PooledOrder D → Fill D → PooledOrder D
  filled_slot po fill =
      let filled = po.order.filled_qty +ℤ fill.quantity in
      let status =
        if leb_ℤ po.order.quantity filled then OrderStatus.complete else OrderStatus.partial in
      record {
        order = record (po.order) {
          filled_qty = filled;
          avg_fill_price = fill.price;
          last_update_ns = fill.fill_ts_ns;
          status = status;
        };
        sm = (transition po.sm status).0;
      }

  -- A terminal order goes back to the pool, and its two map entries are erased.
  unfoldable pub retire : Oms D → Text → Text → ℕ → Oms D
  retire s exchange_oid internal_oid p = record s {
    pool = release s.pool (some p);
    orders = erase internal_oid s.orders;
    exchange_to_internal = erase exchange_oid s.exchange_to_internal;
  }

  -- The push to the queue, whose failure is only logged, and the callback.
  unfoldable pub deliver : Oms D → Fill D → Oms D
  deliver s fill =
      let queued = record s { fill_queue = (spsc_push s.fill_queue fill).0 } in
      if s.has_fill_cb then call queued (fill_callback fill) else queued

  unfoldable pub book_fill : Oms D → Text → Text → ℕ → Fill D → Oms D
  book_fill s exchange_oid internal_oid p fill =
      let po = filled_slot (slot s.pool p) fill in
      let booked = record s { pool = put_slot s.pool p po } in
      if is_terminal po.sm then retire booked exchange_oid internal_oid p else booked

  unfoldable pub fill_found : Oms D → Text → Text → D → ℤ → Text → ℕ → Option ℕ → Oms D
  fill_found s exchange_oid internal_oid fill_price fill_qty trade_id now_ns none = s
  fill_found s exchange_oid internal_oid fill_price fill_qty trade_id now_ns (some p) =
      let fill = make_fill (slot s.pool p).order internal_oid fill_price fill_qty trade_id now_ns in
      deliver (book_fill s exchange_oid internal_oid p fill) fill

  -- `on_fill` behind the deduplication guard.
  unfoldable pub fill_unseen : Oms D → Text → D → ℤ → Text → ℕ → Oms D
  unfolding fill_found
  fill_unseen s exchange_oid fill_price fill_qty trade_id now_ns =
      let internal_oid =
        internal_or_suffix exchange_oid (lookup exchange_oid s.exchange_to_internal) in
      fill_found s exchange_oid internal_oid fill_price fill_qty trade_id now_ns
        (lookup internal_oid s.orders)

  unfoldable pub on_fill : Oms D → Text → D → ℤ → Text → ℕ → Oms D
  unfolding fill_unseen
  on_fill s exchange_oid fill_price fill_qty trade_id now_ns =
      if is_empty trade_id
      then fill_unseen s exchange_oid fill_price fill_qty trade_id now_ns
      else let (marked, fresh) = try_mark s.dedup trade_id in
        let s' = record s { dedup = marked } in
        if fresh then fill_unseen s' exchange_oid fill_price fill_qty trade_id now_ns else s'
