-- ===== src/Ems.antt =====
-- cpp/ems/ems.cpp and .hpp: ExecutionManagementSystem, between the order manager and the broker's
-- client, and the callbacks that the order manager (cpp/oms/oms.cpp) hands to it. nlohmann's parser
-- is the parameter `parse`.
pub mod Response
pub mod Placement
pub mod Live
use quantforge_engine.Prelude.{
  ℕ, Bool, true, false, Option, none, some, List, [], if◌then◌else◌, lookup, nat_eq,
}
use quantforge_engine.Prelude.Int.{ℤ}
use quantforge_engine.Prelude.Text.{Text, decimal}
use quantforge_engine.Doubles.{Double}
use quantforge_engine.Types.{OrderRequest}
use quantforge_engine.Transport.Rest.{
  RestClient, HttpRequest, Net, Reply, success, error, rest_place_order, rest_cancel_order,
}
use quantforge_engine.Ems.Response.{Value, order_id_of}
use quantforge_engine.Oms.Manager.{Oms, on_order_ack, on_fill}
use quantforge_engine.Oms.Requests.{on_place_error}

pub record Ems : Type 0 where
  pub rest_client : RestClient
  pub token_to_key : List (ℕ × Text)
  pub has_fill_cb : Bool

-- What the order manager hears of a placement.
pub data Answer : Type 0 where
  acked refused : Text → Answer
  silent : Answer

unfoldable pub register_instruments : Ems → List (ℕ × Text) → Ems
register_instruments e token_to_key = record e { token_to_key = token_to_key }

abbrev pub key_or_token : ℕ → Option Text → Text
key_or_token token none = decimal token
key_or_token token (some key) = key

unfoldable pub resolve_instrument_key : Ems → ℕ → Text
resolve_instrument_key e token = key_or_token token (lookup token e.token_to_key)

abbrev pub ack_parsed : Option Text → Answer
ack_parsed none = silent
ack_parsed (some exchange_oid) = acked exchange_oid

-- The two lambdas of `place_order`.
abbrev pub answer_of : (Text → Option Value) → Reply → Answer
answer_of parse (success body) = ack_parsed (order_id_of parse body)
answer_of parse (error message) = refused message

module _ {D : Type 0} where
  unfoldable pub ems_place_order :
      (Text → Option Value) → Ems → OrderRequest D → Text → Net → Option (HttpRequest D) × Answer
  ems_place_order parse e req oid n =
      let (sent, reply) = rest_place_order e.rest_client req oid n in (sent, answer_of parse reply)

  -- Both callbacks only log.
  unfoldable pub ems_cancel_order : Ems → Text → Net → Option (HttpRequest D)
  ems_cancel_order e exchange_oid n = (rest_cancel_order e.rest_client exchange_oid n).0

module _ {D : Type 0} ⦃d : Double D⦄ where
  -- `fill_cb_` is the lambda of main.cpp, which calls the order manager.
  unfoldable pub on_fill_event : Ems → Oms D → Text → D → ℤ → Text → ℕ → Oms D
  on_fill_event e s exchange_oid price qty trade_id now_ns =
      if e.has_fill_cb then on_fill s exchange_oid price qty trade_id now_ns else s

  -- The callbacks that `submit` passes.
  unfoldable pub settle : Oms D → Text → Answer → Oms D
  settle s oid (acked exchange_oid) = on_order_ack s exchange_oid oid
  settle s oid (refused reason) = on_place_error s oid reason
  settle s oid silent = s

  -- The placement of an order that was submitted, up to the callback.
  unfoldable pub complete :
      (Text → Option Value) → Ems → Oms D → OrderRequest D → Text → Net → Oms D
  complete parse e s req oid n = settle s oid (ems_place_order parse e req oid n).1
