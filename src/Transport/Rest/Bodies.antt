-- ===== src/Transport/Rest/Bodies.antt =====
-- cpp/transport/upstox_rest_client.cpp: what the body of an order tells the broker.
use quantforge_engine.Prelude.{◌<◌, ◌^◌, ◌≡◌, refl, sym, ap, ◌∙◌, arith}
use quantforge_engine.Prelude.Text.{Text, decimal, value_from, value-decimal}
use quantforge_engine.Types.{OrderRequest, Side, OrderType, OrderProduct, OrderValidity}
use quantforge_engine.Transport.Rest.{
  side_str, type_str, prod_str, validity_str, build_place_order_body,
}

prod_str-injective : (a b : OrderProduct) → prod_str a ≡ prod_str b → a ≡ b
prod_str-injective OrderProduct.intraday OrderProduct.intraday e = refl
prod_str-injective OrderProduct.delivery OrderProduct.delivery e = refl
prod_str-injective OrderProduct.mtf OrderProduct.mtf e = refl
prod_str-injective _ _ e = absurd (ground arith)

type_str-injective : (a b : OrderType) → type_str a ≡ type_str b → a ≡ b
type_str-injective OrderType.market OrderType.market e = refl
type_str-injective OrderType.limit OrderType.limit e = refl
type_str-injective OrderType.sl OrderType.sl e = refl
type_str-injective OrderType.slm OrderType.slm e = refl
type_str-injective _ _ e = absurd (ground arith)

side_str-injective : (a b : Side) → side_str a ≡ side_str b → a ≡ b
side_str-injective Side.buy Side.buy e = refl
side_str-injective Side.sell Side.sell e = refl
side_str-injective _ _ e = absurd (ground arith)

validity_str-injective : (a b : OrderValidity) → validity_str a ≡ validity_str b → a ≡ b
validity_str-injective OrderValidity.day OrderValidity.day e = refl
validity_str-injective OrderValidity.ioc OrderValidity.ioc e = refl
validity_str-injective _ _ e = absurd (ground arith)

module _ {D : Type 0} where
  -- Two bodies that are equal were built from requests with the same terms, where the tokens are
  -- numbers of 64 bits: the instrument, the side, the kinds, the quantity, both prices and the flags.
  pub build_place_order_body-injective :
      (r r' : OrderRequest D) (oid oid' : Text)
      → r.instrument_token < 2 ^ 64
      → r'.instrument_token < 2 ^ 64
      → build_place_order_body r oid ≡ build_place_order_body r' oid'
      → (r.instrument_token ≡ r'.instrument_token)
        × (r.side ≡ r'.side)
        × (r.order_type ≡ r'.order_type)
        × (r.product ≡ r'.product)
        × (r.validity ≡ r'.validity)
        × (r.quantity ≡ r'.quantity)
        × (r.limit_price ≡ r'.limit_price)
        × (r.trigger_price ≡ r'.trigger_price)
        × (r.is_amo ≡ r'.is_amo)
        × (r.slice ≡ r'.slice)
  unfolding build_place_order_body
  build_place_order_body-injective r r' oid oid' h h' e =
      let token : decimal r.instrument_token ≡ decimal r'.instrument_token = cc in
      (
        sym (value-decimal r.instrument_token (omega arith))
            ∙ ap (value_from 0) token
            ∙ value-decimal r'.instrument_token (omega arith),
        side_str-injective r.side r'.side (cc),
        type_str-injective r.order_type r'.order_type (cc),
        prod_str-injective r.product r'.product (cc),
        validity_str-injective r.validity r'.validity (cc),
        cc,
        cc,
        cc,
        cc,
        cc,
      )
