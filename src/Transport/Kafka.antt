-- ===== src/Transport/Kafka.antt =====
-- cpp/transport/kafka_publisher.cpp and .hpp: KafkaPublisher and its serializers, in a build with
-- Kafka. librdkafka is not modelled: the messages that it takes are recorded, newest first, and what it
-- answers is an argument. The bit pattern of a double and the way `<<` prints one are parameters.
pub mod RoundTrip
use quantforge_engine.Prelude.{
  ℕ, suc, ◌+◌, ◌%◌, ◌^◌, Bool, true, false, ◌&&◌, not, Option, none, some, List, [], ◌∷◌, ◌++◌,
  if◌then◌else◌, replicate,
}
use quantforge_engine.Prelude.Text.{Text, codes, decimal}
use quantforge_engine.Transport.Bytes.{le_bytes, bits32, memcpy, char_array}
use quantforge_engine.Types.{
  NormalizedTick, Fill, PortfolioSnapshot, RiskAlert, side_value, alert_level_value,
  max_order_id_len, max_strategy_len,
}

pub data Topic : Type 0 where
  ticks fills portfolio alerts : Topic

-- One call of `produce`: `none` for the partition is PARTITION_UA, and for the key a null pointer.
pub record Message : Type 0 where
  pub topic : Topic
  pub partition : Option ℕ
  pub payload : Text
  pub key : Option Text

-- A member pointer is the test whether it is set.
pub record KafkaPublisher : Type 0 where
  pub has_producer : Bool
  pub has_ticks : Bool
  pub has_fills : Bool
  pub has_portfolio : Bool
  pub has_alerts : Bool
  pub healthy : Bool
  pub published : ℕ
  pub errors : ℕ
  pub produced : List Message

-- The constructor: `created` says whether the producer was made, and the four others which topics.
unfoldable pub kafka_init : Bool → Bool → Bool → Bool → Bool → KafkaPublisher
kafka_init created t f p a = record {
  has_producer = created;
  has_ticks = created && t;
  has_fills = created && f;
  has_portfolio = created && p;
  has_alerts = created && a;
  healthy = created;
  published = 0;
  errors = 0;
  produced = [];
}

-- `dr_cb`, for a report with or without an error.
unfoldable pub dr_cb : KafkaPublisher → Bool → KafkaPublisher
dr_cb k err = if err then record k { errors = (k.errors + 1) % 2 ^ 64 } else k

-- `accepted` says whether librdkafka took the message into its queue, which it does not when that is
-- full. The source does not look at this answer.
abbrev pub produce : KafkaPublisher → Message → Bool → KafkaPublisher
produce k m accepted = if accepted then record k { produced = m ∷ k.produced } else k

abbrev pub count_published : KafkaPublisher → KafkaPublisher
count_published k = record k { published = (k.published + 1) % 2 ^ 64 }

module _ {D : Type 0} (bits : D → ℕ) where
  unfoldable pub serialize_tick : NormalizedTick D → Text
  serialize_tick t =
      let buf = replicate 32 0 in
      let buf = memcpy buf 0 (le_bytes 8 t.instrument_token) in
      let buf = memcpy buf 8 (le_bytes 8 (bits t.ltp)) in
      let buf = memcpy buf 16 (le_bytes 8 t.volume) in memcpy buf 24 (le_bytes 8 t.recv_ts_ns)

  unfoldable pub serialize_fill : Fill D → Text
  serialize_fill f =
      let buf = replicate (32 + max_order_id_len + max_strategy_len) 0 in
      let buf = memcpy buf 0 (char_array max_order_id_len f.order_id) in
      let off = 0 + max_order_id_len in
      let buf = memcpy buf off (char_array max_strategy_len f.strategy_id) in
      let off = off + max_strategy_len in
      let buf = memcpy buf off (le_bytes 8 f.instrument_token) in
      let off = off + 8 in
      let buf = memcpy buf off (le_bytes 8 (bits f.price)) in
      let off = off + 8 in
      let buf = memcpy buf off (le_bytes 4 (bits32 f.quantity)) in
      let off = off + 4 in memcpy buf off (le_bytes 1 (side_value f.side))

  unfoldable pub publish_tick : KafkaPublisher → NormalizedTick D → Bool → KafkaPublisher
  publish_tick k tick accepted =
      if k.healthy && k.has_ticks
      then count_published (
          produce k
            (record {
              topic = Topic.ticks;
              partition = none;
              payload = serialize_tick tick;
              key = some (le_bytes 4 (tick.instrument_token % 2 ^ 32));
            })
            accepted)
      else k

  unfoldable pub publish_fill : KafkaPublisher → Fill D → Bool → KafkaPublisher
  publish_fill k fill accepted =
      if k.healthy && k.has_fills
      then count_published (
          produce k
            (record {
              topic = Topic.fills;
              partition = none;
              payload = serialize_fill fill;
              key = some fill.strategy_id;
            })
            accepted)
      else k

module _ {D : Type 0} (show : D → Text) where
  unfoldable pub serialize_portfolio : PortfolioSnapshot D → Text
  serialize_portfolio s =
      codes "{\"available_capital\":"
      ++ show s.available_capital
      ++ codes ",\"realized_pnl\":"
      ++ show s.total_realized_pnl
      ++ codes ",\"unrealized_pnl\":"
      ++ show s.total_unrealized_pnl
      ++ codes ",\"ts\":"
      ++ decimal s.snapshot_ts_ns
      ++ codes "}"

  unfoldable pub publish_portfolio : KafkaPublisher → PortfolioSnapshot D → Bool → KafkaPublisher
  publish_portfolio k snap accepted =
      if k.healthy && k.has_portfolio
      then count_published (
          produce k
            (record {
              topic = Topic.portfolio;
              partition = some 0;
              payload = serialize_portfolio snap;
              key = none;
            })
            accepted)
      else k

unfoldable pub serialize_alert : RiskAlert → Text
serialize_alert a =
    codes "{\"level\":"
    ++ decimal (alert_level_value a.level)
    ++ codes ",\"strategy\":\""
    ++ a.strategy_id
    ++ codes "\""
    ++ codes ",\"message\":\""
    ++ a.message
    ++ codes "\""
    ++ codes ",\"ts\":"
    ++ decimal a.ts_ns
    ++ codes "}"

-- An alert is not counted.
unfoldable pub publish_alert : KafkaPublisher → RiskAlert → Bool → KafkaPublisher
publish_alert k alert accepted =
    if k.healthy && k.has_alerts
    then produce k
        (record {
          topic = Topic.alerts;
          partition = none;
          payload = serialize_alert alert;
          key = none;
        })
        accepted
    else k
