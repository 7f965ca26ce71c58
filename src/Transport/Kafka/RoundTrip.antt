-- ===== src/Transport/Kafka/RoundTrip.antt =====
-- What a reader of the topics of cpp/transport/kafka_publisher.cpp finds in the messages.
use quantforge_engine.Prelude.{
  ℕ, ◌+◌, ◌-◌, ◌≤◌, ◌<◌, ◌^◌, ◌≡◌, ◌≢◌, refl, ap, ◌∙◌, arith, length, All, replicate,
}
use quantforge_engine.Prelude.Int.{ℤ, pos, negsuc, ◌≤ℤ◌}
use quantforge_engine.Prelude.Text.{Text, c_str}
use quantforge_engine.Transport.Bytes.{
  le_bytes, le_value, bits32, signed32, memcpy, slice, char_array, length-le_bytes,
  length-char_array, le_value-le_bytes, signed32-bits32, bits32-lt, c_str-char_array, length-memcpy,
  slice-memcpy_self, slice-memcpy_before,
}
use quantforge_engine.Types.{
  NormalizedTick, Fill, Side, side_value, max_order_id_len, max_strategy_len,
}
use quantforge_engine.Transport.Kafka.{serialize_tick, serialize_fill}

-- The fields of a tick that a message carries, and of a fill; a double as its bit pattern.
pub record WireTick : Type 0 where
  pub token : ℕ
  pub ltp_bits : ℕ
  pub volume : ℕ
  pub ts : ℕ

pub record WireFill : Type 0 where
  pub order_id : Text
  pub strategy_id : Text
  pub token : ℕ
  pub price_bits : ℕ
  pub quantity : ℤ
  pub side : ℕ

abbrev pub read_tick : Text → WireTick
read_tick buf = record {
  token = le_value (slice 0 8 buf);
  ltp_bits = le_value (slice 8 8 buf);
  volume = le_value (slice 16 8 buf);
  ts = le_value (slice 24 8 buf);
}

abbrev pub read_fill : Text → WireFill
read_fill buf = record {
  order_id = c_str (slice 0 36 buf);
  strategy_id = c_str (slice 36 32 buf);
  token = le_value (slice 68 8 buf);
  price_bits = le_value (slice 76 8 buf);
  quantity = signed32 (le_value (slice 84 4 buf));
  side = le_value (slice 88 1 buf);
}

side_value-lt : (x : Side) → side_value x < 256
side_value-lt Side.buy = omega arith
side_value-lt Side.sell = omega arith

sized :
    (size : ℕ) (buf : Text) (off k : ℕ) (bs : Text)
    → length buf ≡ size
    → length bs ≡ k
    → off + k ≤ size
    → length (memcpy buf off bs) ≡ size
sized size buf off k bs e f h = length-memcpy buf off bs (omega arith) ∙ e

-- Six fields written one behind the other, as for a fill.
module _ (a b c d e f : Text) (ha : length a ≡ 36) (hb : length b ≡ 32) (hc : length c ≡ 8) where
  abbrev two : Text
  two = memcpy (memcpy (replicate 100 0) 0 a) 36 b

  abbrev four : Text
  four = memcpy (memcpy two 68 c) 76 d

  abbrev six : Text
  six = memcpy (memcpy four 84 e) 88 f

  length-two : length two ≡ 100
  length-two = sized 100 _ 36 32 b (sized 100 _ 0 36 a refl ha (omega arith)) hb (omega arith)

  -- What four fields hold is not touched by the last two.
  six-keeps : (i n : ℕ) (v : Text) → i + n ≤ 84 → slice i n four ≡ v → slice i n six ≡ v
  six-keeps i n v h q =
      slice-memcpy_before _ i n 88 f (omega arith) ∙ slice-memcpy_before four i n 84 e h ∙ q

  four-keeps : (i n : ℕ) (v : Text) → i + n ≤ 68 → slice i n two ≡ v → slice i n four ≡ v
  four-keeps i n v h q =
      slice-memcpy_before _ i n 76 d (omega arith) ∙ slice-memcpy_before two i n 68 c h ∙ q

  module _ (hd : length d ≡ 8) (he : length e ≡ 4) (hf : length f ≡ 1) where
    length-four : length four ≡ 100
    length-four =
        sized 100 _ 76 8 d (sized 100 two 68 8 c length-two hc (omega arith)) hd (omega arith)

    length-six : length six ≡ 100
    length-six =
        sized 100 _ 88 1 f (sized 100 four 84 4 e length-four he (omega arith)) hf (omega arith)

    field_order : slice 0 36 six ≡ a
    field_order = six-keeps 0 36 a (omega arith) (
        four-keeps 0 36 a (omega arith) (
          slice-memcpy_before _ 0 36 36 b (omega arith)
          ∙ slice-memcpy_self (replicate 100 0) 0 36 a ha (omega arith)))

    field_strategy : slice 36 32 six ≡ b
    field_strategy = six-keeps 36 32 b (omega arith) (
        four-keeps 36 32 b (omega arith)
          (slice-memcpy_self _ 36 32 b hb (omega (arith, length-memcpy (replicate 100 0) 0 a))))

    field_token : slice 68 8 six ≡ c
    field_token = six-keeps 68 8 c (omega arith) (
        slice-memcpy_before _ 68 8 76 d (omega arith)
        ∙ slice-memcpy_self two 68 8 c hc (omega (arith, length-two)))

    field_price : slice 76 8 six ≡ d
    field_price =
        six-keeps 76 8 d (omega arith)
          (slice-memcpy_self _ 76 8 d hd (omega (arith, sized 100 two 68 8 c length-two hc)))

    field_quantity : slice 84 4 six ≡ e
    field_quantity =
        slice-memcpy_before _ 84 4 88 f (omega arith)
        ∙ slice-memcpy_self four 84 4 e he (omega (arith, length-four))

    field_side : slice 88 1 six ≡ f
    field_side = slice-memcpy_self _ 88 1 f hf (omega (arith, sized 100 four 84 4 e length-four he))

module _ {D : Type 0} (bits : D → ℕ) (bits-lt : (x : D) → bits x < 2 ^ 64) where
  -- A message of a tick has 32 bytes, and the token, the bits of the price, the volume and the
  -- receive time are read back from it, where the pattern of a double and the three integers are
  -- below 2 ^ 64.
  pub read_tick-serialize_tick :
      (t : NormalizedTick D)
      → t.instrument_token < 2 ^ 64
      → t.volume < 2 ^ 64
      → t.recv_ts_ns < 2 ^ 64
      → (length (serialize_tick bits t) ≡ 32)
        × (read_tick (serialize_tick bits t) ≡ record {
          token = t.instrument_token;
          ltp_bits = bits t.ltp;
          volume = t.volume;
          ts = t.recv_ts_ns;
        })
  unfolding serialize_tick memcpy le_bytes
  read_tick-serialize_tick t a b c = (
    refl,
    λ i. record {
      token = le_value-le_bytes 8 t.instrument_token a i;
      ltp_bits = le_value-le_bytes 8 (bits t.ltp) (bits-lt t.ltp) i;
      volume = le_value-le_bytes 8 t.volume b i;
      ts = le_value-le_bytes 8 t.recv_ts_ns c i;
    },
  )

  -- A message of a fill has 100 bytes, and the two ids, the token, the bits of the price, the
  -- quantity and the side are read back from it, where the ids fit their arrays with a final zero
  -- and have no other, the quantity is an int of 32 bits, and the pattern of a double and the token
  -- are below 2 ^ 64. The trade id and the time are not sent.
  pub read_fill-serialize_fill :
      (f : Fill D)
      → length f.order_id < max_order_id_len
      → All (λ c. c ≢ 0) f.order_id
      → length f.strategy_id < max_strategy_len
      → All (λ c. c ≢ 0) f.strategy_id
      → f.instrument_token < 2 ^ 64
      → negsuc (2 ^ 31 - 1) ≤ℤ f.quantity
      → f.quantity ≤ℤ pos (2 ^ 31 - 1)
      → (length (serialize_fill bits f) ≡ 100)
        × (read_fill (serialize_fill bits f) ≡ record {
          order_id = f.order_id;
          strategy_id = f.strategy_id;
          token = f.instrument_token;
          price_bits = bits f.price;
          quantity = f.quantity;
          side = side_value f.side;
        })
  unfolding serialize_fill
  read_fill-serialize_fill f ho zo hs zs ht lo hi =
      let a = char_array 36 f.order_id in
      let b = char_array 32 f.strategy_id in
      let c = le_bytes 8 f.instrument_token in
      let d = le_bytes 8 (bits f.price) in
      let e = le_bytes 4 (bits32 f.quantity) in
      let s = le_bytes 1 (side_value f.side) in
      let ha = length-char_array 36 f.order_id in
      let hb = length-char_array 32 f.strategy_id in
      let hc = length-le_bytes 8 f.instrument_token in
      let hd = length-le_bytes 8 (bits f.price) in
      let he = length-le_bytes 4 (bits32 f.quantity) in
      let hf = length-le_bytes 1 (side_value f.side) in
      (
        length-six a b c d e s ha hb hc hd he hf,
        λ i. record {
          order_id =
              (ap c_str (field_order a b c d e s ha hb hc hd he hf)
                  ∙ c_str-char_array 36 f.order_id ho zo)
                i;
          strategy_id =
              (ap c_str (field_strategy a b c d e s ha hb hc hd he hf)
                  ∙ c_str-char_array 32 f.strategy_id hs zs)
                i;
          token =
              (ap le_value (field_token a b c d e s ha hb hc hd he hf)
                  ∙ le_value-le_bytes 8 f.instrument_token ht)
                i;
          price_bits =
              (ap le_value (field_price a b c d e s ha hb hc hd he hf)
                  ∙ le_value-le_bytes 8 (bits f.price) (bits-lt f.price))
                i;
          quantity =
              (ap (λ w. signed32 (le_value w)) (field_quantity a b c d e s ha hb hc hd he hf)
                  ∙ ap signed32 (le_value-le_bytes 4 (bits32 f.quantity) (bits32-lt f.quantity))
                  ∙ signed32-bits32 f.quantity lo hi)
                i;
          side =
              (ap le_value (field_side a b c d e s ha hb hc hd he hf)
                  ∙ le_value-le_bytes 1 (side_value f.side) (side_value-lt f.side))
                i;
        },
      )
