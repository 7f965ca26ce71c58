-- ===== src/Transport/Redis.antt =====
-- cpp/transport/redis_client.cpp and .hpp: RedisClient, in a build with Redis. The commands that are
-- handed to hiredis are recorded, newest first; what it answers is an argument, as are the regular
-- expression of the constructor and the way that printf writes numbers.
pub mod Loss
use quantforge_engine.Prelude.{
  ℕ, Bool, true, false, Option, none, some, List, [], ◌∷◌, ◌++◌, if◌then◌else◌, get_or,
}
use quantforge_engine.Prelude.Int.{ℤ, pos}
use quantforge_engine.Prelude.Text.{Text, codes, decimal}
use quantforge_engine.Doubles.{Double}
use quantforge_engine.Types.{NormalizedTick, Position, DepthLevel, no_depth}

-- HSET with its key and its fields with their values, or SET.
pub data Command (D : Type 0) : Type 0 where
  hset : Text → List (Text × Text) → Command D
  set_flag : Text → Bool → Command D

pub record Context (D : Type 0) : Type 0 where
  pub appended : List (Command D)
  pub has_password : Bool  -- whether AUTH was sent

pub record RedisClient (D : Type 0) : Type 0 where
  pub ctx : Option (Context D)
  pub host : Text
  pub port : ℕ
  pub password : Text

abbrev pub is_set : Text → Bool
is_set [] = false
is_set (c ∷ cs) = true

-- How `%d` and `%.4f` print, a parameter.
pub record Printf (D : Type 0) : Type 0 where
  pub show_int : ℤ → Text
  pub show_double : D → Text

-- The loop of `flush`, over the answers of redisGetReply, true for REDIS_OK: whether it ends.
abbrev pub drains : List Bool → Bool
drains [] = false
drains (true ∷ replies) = drains replies
drains (false ∷ replies) = true

module _ {D : Type 0} where
  -- `up` says whether a context came back and has no error.
  unfoldable pub redis_connect : RedisClient D → Bool → RedisClient D
  redis_connect r up = record r {
    ctx = if up then some (record { appended = []; has_password = is_set r.password }) else none;
  }

  abbrev pub parsed_or_default : Option (Text × Text × ℕ) → RedisClient D
  parsed_or_default none = record {
    ctx = none;
    host = codes "127.0.0.1";
    port = 6379;
    password = [];
  }
  parsed_or_default (some (password, host, port)) = record {
    ctx = none;
    host = host;
    port = port;
    password = password;
  }

  -- The constructor: the groups of the expression are the password, the host and the port.
  unfoldable pub redis_init : (Text → Option (Text × Text × ℕ)) → Text → Bool → RedisClient D
  redis_init parse url up = redis_connect (parsed_or_default (parse url)) up

  abbrev pub is_connected : RedisClient D → Bool
  is_connected r = elim r.ctx [ none ↦ false | some c ↦ true ]

  unfoldable pub redis_reconnect : RedisClient D → Bool → RedisClient D × Bool
  redis_reconnect r up =
      let r' = redis_connect (record r { ctx = none }) up in (r', is_connected r')

  abbrev pub append_to : Option (Context D) → List (Command D) → Option (Context D)
  append_to none cs = none
  append_to (some c) cs = some (record c { appended = cs ++ c.appended })

  abbrev pub append_commands : RedisClient D → List (Command D) → RedisClient D
  append_commands r cs = record r { ctx = append_to r.ctx cs }

  unfoldable pub set_kill_switch : RedisClient D → Bool → RedisClient D
  set_kill_switch r engaged = append_commands r (set_flag (codes "kill_switch") engaged ∷ [])

  abbrev pub flush_ctx :
      RedisClient D → Option (Context D) → List Bool → Bool → Bool → Option (RedisClient D)
  flush_ctx r none replies err up = some r
  flush_ctx r (some c) replies err up =
      if drains replies
      then some (if err then redis_connect (record r { ctx = none }) up else r)
      else none

  -- `err` is the context's error flag after the loop; none while the loop waits.
  unfoldable pub redis_flush : RedisClient D → List Bool → Bool → Bool → Option (RedisClient D)
  unfolding redis_connect
  redis_flush r replies err up = flush_ctx r r.ctx replies err up

module _ {D : Type 0} (f : Printf D) where
  -- The newest of the four commands stands first.
  unfoldable pub publish_position : RedisClient D → Text → Position D → RedisClient D
  publish_position r sid p =
      let key = codes "positions:" ++ sid in
      let token = decimal p.instrument_token in
      append_commands r (
        hset key ((token ++ codes ":rpnl", f.show_double p.realized_pnl) ∷ [])
        ∷ hset key ((token ++ codes ":upnl", f.show_double p.unrealized_pnl) ∷ [])
        ∷ hset key ((token ++ codes ":avg_price", f.show_double p.avg_price) ∷ [])
        ∷ hset key ((token ++ codes ":qty", f.show_int p.quantity) ∷ [])
        ∷ [])

  unfoldable pub publish_risk_counters : RedisClient D → Text → D → ℤ → D → RedisClient D
  publish_risk_counters r sid daily_pnl order_count exposure = append_commands r (
      hset (codes "risk:" ++ sid) (
        (codes "daily_pnl", f.show_double daily_pnl)
        ∷ (codes "order_count", f.show_int order_count)
        ∷ (codes "exposure", f.show_double exposure)
        ∷ [])
      ∷ [])

module _ {D : Type 0} ⦃d : Double D⦄ (f : Printf D) where
  abbrev pub best : List (DepthLevel D) → DepthLevel D
  best levels = get_or levels 0 no_depth

  unfoldable pub redis_publish_tick : RedisClient D → NormalizedTick D → RedisClient D
  redis_publish_tick r t = append_commands r (
      hset (codes "ticks:" ++ decimal t.instrument_token) (
        (codes "ltp", f.show_double t.ltp)
        ∷ (codes "volume", decimal t.volume)
        ∷ (codes "bid1_price", f.show_double (best t.bid).price)
        ∷ (codes "bid1_qty", decimal (best t.bid).qty)
        ∷ (codes "ask1_price", f.show_double (best t.ask).price)
        ∷ (codes "ask1_qty", decimal (best t.ask).qty)
        ∷ (codes "ts", decimal t.recv_ts_ns)
        ∷ [])
      ∷ [])
