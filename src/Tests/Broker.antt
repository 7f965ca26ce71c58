-- ===== src/Tests/Broker.antt =====
-- Runs of cpp/ems/ems.cpp and cpp/transport/upstox_rest_client.cpp.
use quantforge_engine.Prelude.{
  ◌≡◌, ◌⊎◌, refl, true, false, Option, none, some, [], ◌∷◌, arith, lookup,
}
use quantforge_engine.Prelude.Int.{pos}
use quantforge_engine.Prelude.Text.{Text, codes, text_eq}
use quantforge_engine.Doubles.Fixed.{Fixed, fixed_double}
use quantforge_engine.Types.{OrderStatus, blank_fill}
use quantforge_engine.Spsc.{spsc_push}
use quantforge_engine.Transport.Rest.{Net}
use quantforge_engine.Transport.Rest.Replies.{Succeeds}
use quantforge_engine.Oms.Pool.{clean, slot}
use quantforge_engine.Oms.Dedup.{contains, no_fills}
use quantforge_engine.Oms.Manager.{Oms, make_fill, order_id_text, on_order_ack}
use quantforge_engine.Oms.Requests.{submit, new_order, cancel, on_place_error}
use quantforge_engine.Ems.Response.{
  Value, string, plain, array, object, no_items, item, no_fields, field, order_id_of,
}
use quantforge_engine.Ems.{Ems, complete, on_fill_event}
use quantforge_engine.Ems.Placement.{complete_lem}
use quantforge_engine.Ems.Live.{live_round_trip, live_unread}
use quantforge_engine.Tests.{buy_ten}

abbrev live : Oms Fixed
live = record {
  fill_queue = record {
    write_pos = 0;
    read_pos = 0;
    cells = blank_fill ∷ blank_fill ∷ blank_fill ∷ blank_fill ∷ [];
    capacity = 4;
  };
  pool = record { slots = clean ∷ clean ∷ []; free_list = 1 ∷ 0 ∷ [] };
  orders = [];
  exchange_to_internal = [];
  has_fill_cb = true;
  has_reject_cb = true;
  dedup = no_fills;
  seq = 0;
  paper_mode = false;
  calls = [];
}

abbrev ems : Ems
ems = record {
  rest_client = record { access_token = codes "t"; paper_mode = false };
  token_to_key = [];
  has_fill_cb = true;
}

abbrev answered : Net
answered = record {
  resolve = none;
  sni = true;
  connect = none;
  handshake = none;
  write = none;
  read = none;
  status = 200;
  body = codes "X1";
}

abbrev answered_well : Succeeds answered
answered_well = record {
  found = refl;
  named = refl;
  joined = refl;
  secured = refl;
  written = refl;
  answered = refl;
  low = omega arith;
  high = omega arith;
}

-- A parser that finds the body as the first id, and one that finds no ids.
abbrev whole : Text → Option Value
whole b = some (
    object (
      field (codes "status") plain (
        field (codes "data")
          (object (field (codes "order_ids") (array (item (string b) no_items)) no_fields))
          no_fields)))

abbrev nothing : Text → Option Value
nothing b = some (object (field (codes "data") (object no_fields) no_fields))

abbrev oid : Text
oid = order_id_text 5 0

complete_lem_example :
    (Succeeds answered
      × ((x : Text) × (order_id_of whole answered.body ≡ some x)
          × (complete whole ems live buy_ten oid answered ≡ on_order_ack live x oid)))
    ⊎ (Succeeds answered
        × (order_id_of whole answered.body ≡ none)
        × (complete whole ems live buy_ten oid answered ≡ live))
    ⊎ ((¬ Succeeds answered)
        × ((m : Text) × (complete whole ems live buy_ten oid answered ≡ on_place_error live oid m)))
complete_lem_example = complete_lem whole ems live buy_ten oid answered refl

live_round_trip_example :
    let (s1, accepted) = submit live buy_ten 5 9 9 in
    let s2 = complete whole ems s1 buy_ten oid answered in
    let s3 = on_fill_event ems s2 (codes "X1") (pos 100_000) (pos 10) (codes "T1") 11 in
    (accepted ≡ true)
    × (s3.fill_queue
        ≡ (spsc_push live.fill_queue
            (make_fill (new_order buy_ten oid 9) oid (pos 100_000) (pos 10) (codes "T1") 11)).0)
    × (s3.pool.free_list ≡ live.pool.free_list)
    × (s3.orders ≡ live.orders)
    × (s3.exchange_to_internal ≡ live.exchange_to_internal)
unfolding contains order_id_of
live_round_trip_example =
    live_round_trip whole ems live buy_ten 5 9 9 1 (0 ∷ []) answered (codes "X1") (codes "T1")
      (pos 100_000) 11 refl refl refl refl (omega arith) answered_well refl refl refl refl refl

live_unread_example :
    let s2 = complete nothing ems (submit live buy_ten 5 9 9).0 buy_ten oid answered in
    (lookup oid s2.orders ≡ some 1)
    × ((slot s2.pool 1).sm ≡ OrderStatus.pending)
    × (s2.pool.free_list ≡ 0 ∷ [])
    × (cancel s2 oid ≡ (s2, false))
unfolding order_id_of
live_unread_example =
    live_unread nothing ems live buy_ten 5 9 9 1 (0 ∷ []) answered refl refl refl (omega arith)
      answered_well refl
