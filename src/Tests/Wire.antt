-- ===== src/Tests/Wire.antt =====
-- Runs of the serializers of cpp/transport/kafka_publisher.cpp. Fixed numbers stand for their own bit
-- patterns here.
use quantforge_engine.Prelude.{ℕ, ◌+◌, ◌%◌, ◌^◌, ◌<◌, ◌≡◌, refl, length, arith}
use quantforge_engine.Prelude.Int.{pos, negsuc}
use quantforge_engine.Prelude.Text.{codes, decimal}
use quantforge_engine.Doubles.Fixed.{Fixed, fixed_double}
use quantforge_engine.Types.{Fill, Side, AlertLevel}
use quantforge_engine.Transport.Kafka.{serialize_fill, serialize_alert}
use quantforge_engine.Transport.Kafka.RoundTrip.{read_fill, read_fill-serialize_fill}

abbrev pattern_of : Fixed → ℕ
pattern_of (pos n) = n % 2 ^ 63
pattern_of (negsuc n) = 2 ^ 63 + n % 2 ^ 63

pattern_of-lt : (x : Fixed) → pattern_of x < 2 ^ 64
pattern_of-lt (pos n) = omega arith
pattern_of-lt (negsuc n) = omega arith

abbrev sold : Fill Fixed
sold = record {
  order_id = codes "QF-5-0";
  trade_id = codes "T1";
  strategy_id = codes "mom";
  instrument_token = 4_294_967_297;
  side = Side.sell;
  quantity = negsuc 299;
  price = pos 100_500;
  fill_ts_ns = 9;
}

read_fill-serialize_fill_example :
    (length (serialize_fill pattern_of sold) ≡ 100)
    × (read_fill (serialize_fill pattern_of sold) ≡ record {
      order_id = codes "QF-5-0";
      strategy_id = codes "mom";
      token = 4_294_967_297;
      price_bits = 100_500;
      quantity = negsuc 299;
      side = 2;
    })
read_fill-serialize_fill_example =
    read_fill-serialize_fill pattern_of pattern_of-lt sold (omega arith) (omega arith) (omega arith)
      (omega arith) (omega arith) (omega arith) (omega arith)

an_alert :
    serialize_alert
      (record { level = AlertLevel.high; strategy_id = codes "m"; message = codes "x"; ts_ns = 7 })
    ≡ codes "{\"level\":3,\"strategy\":\"m\",\"message\":\"x\",\"ts\":7}"
unfolding serialize_alert decimal
an_alert = refl
