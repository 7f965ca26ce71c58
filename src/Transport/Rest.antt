-- ===== src/Transport/Rest.antt =====
-- cpp/transport/upstox_rest_client.cpp and .hpp: UpstoxRestClient. What the network does with a
-- request is a record of the results of the asynchronous calls; the callback that is called at the
-- end, with its text, is the result. A JSON object is the list of its members.
pub mod Replies
pub mod Bodies
use quantforge_engine.Prelude.{
  ℕ, Bool, true, false, ◌&&◌, Option, none, some, List, [], ◌∷◌, ◌++◌, if◌then◌else◌, leb, ltb,
}
use quantforge_engine.Prelude.Int.{ℤ, pos}
use quantforge_engine.Prelude.Text.{Text, codes, decimal}
use quantforge_engine.Types.{OrderRequest, Side, OrderType, OrderProduct, OrderValidity, is_side}

pub record RestClient : Type 0 where
  pub access_token : Text
  pub paper_mode : Bool

pub data Verb : Type 0 where
  get post put delete : Verb

pub data Json (D : Type 0) : Type 0 where
  int : ℤ → Json D
  number : D → Json D
  text : Text → Json D
  flag : Bool → Json D

pub record HttpRequest (D : Type 0) : Type 0 where
  pub host : Text
  pub verb : Verb
  pub target : Text
  pub is_json : Bool  -- whether Content-Type is set
  pub authorization : Text
  pub body : List (Text × Json D)

-- The results of the calls: the message of an error code, or none.
pub record Net : Type 0 where
  pub resolve : Option Text
  pub sni : Bool
  pub connect : Option Text
  pub handshake : Option Text
  pub write : Option Text
  pub read : Option Text
  pub status : ℕ
  pub body : Text

-- The callback that is called.
pub data Reply : Type 0 where
  success error : Text → Reply

abbrev pub hft_host : Text
hft_host = codes "api-hft.upstox.com"

abbrev pub api_host : Text
api_host = codes "api.upstox.com"

-- The completion handlers from the innermost out: each goes on, or calls on_error.
abbrev pub unless_error : Option Text → Text → Reply → Reply
unless_error none prefix go_on = go_on
unless_error (some message) prefix go_on = error (prefix ++ message)

unfoldable pub on_response : Net → Reply
on_response n =
    if leb 200 n.status && ltb n.status 300
    then success n.body
    else error (codes "HTTP " ++ (decimal n.status ++ (codes ": " ++ n.body)))

unfoldable pub on_written : Net → Reply
unfolding on_response
on_written n =
    unless_error n.write (codes "Write: ") (unless_error n.read (codes "Read: ") (on_response n))

unfoldable pub on_joined : Net → Reply
unfolding on_written
on_joined n =
    unless_error n.connect (codes "Connect: ")
      (unless_error n.handshake (codes "TLS: ") (on_written n))

-- `do_request`; the request decides nothing of the way.
unfoldable pub do_request : Net → Reply
unfolding on_joined
do_request n =
    unless_error n.resolve (codes "Resolve: ")
      (if n.sni then on_joined n else error (codes "SSL SNI failed"))

-- The lambdas of build_place_order_body.
abbrev pub side_str : Side → Text
side_str s = if is_side s Side.buy then codes "BUY" else codes "SELL"

abbrev pub type_str : OrderType → Text
type_str OrderType.market = codes "MARKET"
type_str OrderType.limit = codes "LIMIT"
type_str OrderType.sl = codes "SL"
type_str OrderType.slm = codes "SL-M"

abbrev pub prod_str : OrderProduct → Text
prod_str OrderProduct.intraday = codes "I"
prod_str OrderProduct.delivery = codes "D"
prod_str OrderProduct.mtf = codes "MTF"

abbrev pub validity_str : OrderValidity → Text
validity_str OrderValidity.day = codes "DAY"
validity_str OrderValidity.ioc = codes "IOC"

-- The answer of paper mode.
abbrev pub paper_body : Text → Text
paper_body oid =
    codes "{\"data\":{\"order_ids\":[\"PAPER-" ++ (oid ++ codes "\"]},\"status\":\"success\"}")

abbrev pub bearer : RestClient → Text
bearer c = codes "Bearer " ++ c.access_token

unfoldable pub set_access_token : RestClient → Text → RestClient
set_access_token c token = record c { access_token = token }

module _ {D : Type 0} where
  unfoldable pub build_place_order_body : OrderRequest D → Text → List (Text × Json D)
  build_place_order_body req tag =
      (codes "quantity", int req.quantity)
      ∷ (codes "product", text (prod_str req.product))
      ∷ (codes "validity", text (validity_str req.validity))
      ∷ (codes "price", number req.limit_price)
      ∷ (codes "tag", text (req.tag ++ (codes "-" ++ tag)))
      ∷ (codes "instrument_token", text (decimal req.instrument_token))
      ∷ (codes "order_type", text (type_str req.order_type))
      ∷ (codes "transaction_type", text (side_str req.side))
      ∷ (codes "disclosed_quantity", int (pos 0))
      ∷ (codes "trigger_price", number req.trigger_price)
      ∷ (codes "is_amo", flag req.is_amo)
      ∷ (codes "slice", flag req.slice)
      ∷ []

  -- An operation sends a request or none, and then a callback is called.
  unfoldable pub rest_place_order :
      RestClient → OrderRequest D → Text → Net → Option (HttpRequest D) × Reply
  rest_place_order c req oid n = if c.paper_mode then (none, success (paper_body oid)) else (
    some (record {
      host = hft_host;
      verb = Verb.post;
      target = codes "/v3/order/place";
      is_json = true;
      authorization = bearer c;
      body = build_place_order_body req oid;
    }),
    do_request n,
  )

  unfoldable pub rest_cancel_order : RestClient → Text → Net → Option (HttpRequest D) × Reply
  rest_cancel_order c exchange_oid n = if c.paper_mode then (none, success (codes "{}")) else (
    some (record {
      host = hft_host;
      verb = Verb.delete;
      target = codes "/v3/order/cancel?order_id=" ++ exchange_oid;
      is_json = false;
      authorization = bearer c;
      body = [];
    }),
    do_request n,
  )

  unfoldable pub modify_order : RestClient → Text → D → ℤ → Net → Option (HttpRequest D) × Reply
  modify_order c exchange_oid new_price new_qty n =
      if c.paper_mode then (none, success (codes "{}")) else (
        some (record {
          host = hft_host;
          verb = Verb.put;
          target = codes "/v3/order/modify";
          is_json = true;
          authorization = bearer c;
          body =
              (codes "order_id", text exchange_oid)
              ∷ (codes "price", number new_price)
              ∷ (codes "quantity", int new_qty)
              ∷ (codes "validity", text (codes "DAY"))
              ∷ [];
        }),
        do_request n,
      )

  abbrev pub get_from : RestClient → Text → HttpRequest D
  get_from c target = record {
    host = api_host;
    verb = Verb.get;
    target = target;
    is_json = false;
    authorization = bearer c;
    body = [];
  }

  unfoldable pub get_positions : RestClient → Net → Option (HttpRequest D) × Reply
  get_positions c n = (some (get_from c (codes "/v3/portfolio/short-term-positions")), do_request n)

  unfoldable pub get_funds : RestClient → Net → Option (HttpRequest D) × Reply
  get_funds c n = (some (get_from c (codes "/v3/user/get-funds-and-margin")), do_request n)
