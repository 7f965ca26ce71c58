-- ===== src/Tests/Orders.antt =====
-- Runs of cpp/oms.
use mathlib.Core.List.{Nodup}
use quantforge_engine.Prelude.{
  ℕ, nat_eq, Bool, true, false, List, [], ◌∷◌, ◌+◌, ◌%◌, ◌^◌, ◌≡◌, ◌⊎◌, refl, arith, length, erase,
}
use quantforge_engine.Prelude.Int.{pos, ◌+ℤ◌, ◌<ℤ◌, ◌≤ℤ◌}
use quantforge_engine.Prelude.Text.{Text, codes, text_eq}
use quantforge_engine.Doubles.Fixed.{Fixed, fixed_double}
use quantforge_engine.Types.{OrderStatus, Order, blank_order, blank_fill}
use quantforge_engine.Spsc.{spsc_init, spsc_push}
use quantforge_engine.Oms.OrderState.{is_terminal, transition, transition_at}
use quantforge_engine.Oms.OrderState.Lifecycle.{attempts}
use quantforge_engine.Oms.Pool.{slot, clean, available, release, pool_init}
use quantforge_engine.Oms.Dedup.{contains, try_mark, no_fills}
use quantforge_engine.Oms.Manager.{
  Oms, deliver, book_fill, filled_slot, retire, order_id_text, on_order_ack, on_fill, make_fill,
}
use quantforge_engine.Oms.Requests.{oms_init, submit, cancel_all_open, open_order_count}
use quantforge_engine.Oms.Conservation.{owned}
use quantforge_engine.Oms.Conservation.Histories.{
  here, next, opening, and_then, submits, acks, cancels_all, pool-Reach,
}
use quantforge_engine.Oms.OrderIds.{order_id_text-injective}
use quantforge_engine.Oms.Fills.{on_fill_once}
use quantforge_engine.Oms.Booking.{QueuedOrLost, on_fill_working}
use quantforge_engine.Oms.Paper.{submit_paper, paper_fill}
use quantforge_engine.Oms.Faults.{on_fill_early}
use quantforge_engine.Tests.{buy_ten}

abbrev oid : Text
oid = codes "QF-5-0"

abbrev exoid : Text
exoid = codes "X1"

abbrev tid : Text
tid = codes "T1"

-- A session with two slots and four cells of the fill queue, nothing submitted.
abbrev idle : Bool → Oms Fixed
idle paper = record {
  fill_queue = record {
    write_pos = 0;
    read_pos = 0;
    cells = blank_fill ∷ blank_fill ∷ blank_fill ∷ blank_fill ∷ [];
    capacity = 4;
  };
  pool = record { slots = clean ∷ clean ∷ []; free_list = 1 ∷ 0 ∷ [] };
  orders = [];
  exchange_to_internal = [];
  has_fill_cb = true;
  has_reject_cb = true;
  dedup = no_fills;
  seq = 0;
  paper_mode = paper;
  calls = [];
}

idle_is_init : oms_init 2 4 false true true ≡ idle false
unfolding oms_init spsc_init pool_init
idle_is_init = refl

-- One order is working, in slot 1.
abbrev working : Oms Fixed
working =
    let blank : Order Fixed = blank_order in
    let order = record blank {
      order_id = oid;
      strategy_id = codes "mom";
      instrument_token = 7;
      quantity = pos 10;
      limit_price = pos 100_000;
      status = OrderStatus.opened;
    } in
    record (idle false) {
      pool = record {
        slots = clean ∷ record { order = order; sm = OrderStatus.opened } ∷ [];
        free_list = 0 ∷ [];
      };
      orders = (oid, 1) ∷ [];
      exchange_to_internal = (exoid, oid) ∷ [];
      seq = 1;
    }

-- The life of an order: filled in two parts.
part_filled :
    (slot (on_fill working exoid (pos 99_000) (pos 4) tid 8).pool 1).sm ≡ OrderStatus.partial
unfolding on_fill try_mark contains deliver book_fill is_terminal filled_slot transition ◌+ℤ◌
    make_fill
part_filled = refl

all_filled :
    let t =
      on_fill
        (on_fill working exoid (pos 99_000) (pos 4) tid 8)
        exoid
        (pos 99_000)
        (pos 6)
        (codes "T2")
        9 in
    (t.pool.free_list ≡ 1 ∷ 0 ∷ []) × (t.orders ≡ []) × (open_order_count t ≡ 0)
unfolding on_fill open_order_count try_mark contains deliver book_fill is_terminal filled_slot
    transition ◌+ℤ◌ make_fill retire release
all_filled = (refl, refl, refl)

pool-Reach_example :
    let s : Oms Fixed = (submit (oms_init 2 4 false true true) buy_ten 5 6 7).0 in
    Nodup (owned s.pool.free_list s.orders) × (available s.pool + length s.orders ≡ 2)
pool-Reach_example = pool-Reach 2 4 false true true (
    next here
      (submits (oms_init 2 4 false true true) buy_ten 5 6 7 (unfold oms_init in omega arith)))

on_fill_once_example :
    let s : Oms Fixed = cancel_all_open (on_fill working exoid (pos 99_000) (pos 4) tid 8) in
    on_fill s exoid (pos 98_000) (pos 6) tid 9
    ≡ record s { dedup = record (s.dedup) { duplicates = (s.dedup.duplicates + 1) % 2 ^ 64 } }
on_fill_once_example =
    on_fill_once working exoid exoid (pos 99_000) (pos 98_000) (pos 4) (pos 6) tid 8 9 refl
      (and_then opening (cancels_all (on_fill working exoid (pos 99_000) (pos 4) tid 8)))

on_fill_working_example :
    let old = (slot working.pool 1).order in
    let filled = old.filled_qty +ℤ pos 4 in
    let t = on_fill working exoid (pos 99_000) (pos 4) tid 8 in
    QueuedOrLost (make_fill old oid (pos 99_000) (pos 4) tid 8) working.fill_queue t.fill_queue
    × (((old.quantity ≤ℤ filled)
          × (t.pool.free_list ≡ 1 ∷ 0 ∷ [])
          × (t.orders ≡ erase oid working.orders)
          × (t.exchange_to_internal ≡ erase exoid working.exchange_to_internal))
        ⊎ ((filled <ℤ old.quantity)
            × (t.pool.free_list ≡ 0 ∷ [])
            × (t.orders ≡ working.orders)
            × (t.exchange_to_internal ≡ working.exchange_to_internal)
            × ((slot t.pool 1).order.filled_qty ≡ filled)
            × ((slot t.pool 1).order.status ≡ OrderStatus.partial)
            × ((slot t.pool 1).sm ≡ OrderStatus.partial)))
on_fill_working_example =
    on_fill_working working exoid oid (pos 99_000) (pos 4) tid 8 1 refl (unfold contains in refl)
      refl refl (omega arith) refl
      (record { stored = refl; write_in = omega arith; read_in = omega arith })

submit_paper_example :
    let (t, accepted) = submit (idle true) buy_ten 5 6 7 in
    (accepted ≡ true)
    × (t.pool.free_list ≡ 1 ∷ 0 ∷ [])
    × (t.orders ≡ [])
    × (t.exchange_to_internal ≡ [])
    × (t.fill_queue
        ≡ (spsc_push (idle true).fill_queue (paper_fill buy_ten (order_id_text 5 0) 7)).0)
submit_paper_example =
    submit_paper (idle true) buy_ten 5 6 7 1 (0 ∷ []) (unfold fixed_double in refl) refl refl
      (omega arith) refl refl (unfold contains in refl)

-- The acknowledgement, a fill that loaded PENDING, and a fill.
abbrev life : List (OrderStatus × OrderStatus)
life =
    (OrderStatus.pending, OrderStatus.opened)
    ∷ (OrderStatus.pending, OrderStatus.cancelled)
    ∷ (OrderStatus.opened, OrderStatus.complete)
    ∷ []

life_lived : attempts OrderStatus.pending life ≡ (OrderStatus.complete, 2)
unfolding attempts transition_at
life_lived = refl

abbrev third_seq : ℕ
third_seq = 3

order_id_text-injective_example : third_seq ≡ third_seq
order_id_text-injective_example =
    order_id_text-injective 5 third_seq 5 third_seq (omega arith) (omega arith) refl

-- The fill of an order whose acknowledgement is not here yet.
on_fill_early_example :
    let s = on_fill working (codes "X2") (pos 99_000) (pos 4) tid 8 in
    (s ≡ record working { dedup = record (working.dedup) { processed = tid ∷ [] } })
    × (on_fill (on_order_ack s (codes "X2") oid) (codes "X2") (pos 99_000) (pos 4) tid 9
        ≡ record (on_order_ack s (codes "X2") oid) {
          dedup = record ((on_order_ack s (codes "X2") oid).dedup) {
            duplicates = ((on_order_ack s (codes "X2") oid).dedup.duplicates + 1) % 2 ^ 64;
          };
        })
on_fill_early_example =
    on_fill_early working (codes "X2") (pos 99_000) (pos 4) tid 8 9 refl (unfold contains in refl)
      refl
      (and_then opening
        (acks (on_fill working (codes "X2") (pos 99_000) (pos 4) tid 8) (codes "X2") oid))
