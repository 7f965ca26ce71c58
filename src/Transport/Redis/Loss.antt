-- ===== src/Transport/Redis/Loss.antt =====
-- cpp/transport/redis_client.cpp: the writes and flushes of a client one after the other.
use quantforge_engine.Prelude.{
  ◌≡◌, refl, ◌∙◌, ap, Bool, true, false, Option, none, some, List, [], ◌∷◌, if_true, ◌>>=◌,
}
use quantforge_engine.Prelude.Int.{ℤ}
use quantforge_engine.Prelude.Text.{Text}
use quantforge_engine.Doubles.{Double}
use quantforge_engine.Types.{NormalizedTick, Position}
use quantforge_engine.Transport.Redis.{
  RedisClient, Context, Printf, drains, flush_ctx, redis_connect, redis_flush, publish_position,
  publish_risk_counters, redis_publish_tick, set_kill_switch,
}

-- A call of a public member, with what hiredis answers to a flush.
pub data Write (D : Type 0) : Type 0 where
  position : Text → Position D → Write D
  tick : NormalizedTick D → Write D
  counters : Text → D → ℤ → D → Write D
  kill_switch : Bool → Write D
  flush : List Bool → Bool → Bool → Write D

module _ {D : Type 0} ⦃d : Double D⦄ (f : Printf D) where
  unfoldable pub do_write : RedisClient D → Write D → Option (RedisClient D)
  unfolding publish_position redis_publish_tick publish_risk_counters set_kill_switch redis_flush
  do_write r (position sid p) = some (publish_position f r sid p)
  do_write r (tick t) = some (redis_publish_tick f r t)
  do_write r (counters sid pnl count exposure) =
      some (publish_risk_counters f r sid pnl count exposure)
  do_write r (kill_switch engaged) = some (set_kill_switch r engaged)
  do_write r (flush replies err up) = redis_flush r replies err up

  unfoldable pub do_writes : RedisClient D → List (Write D) → Option (RedisClient D)
  unfolding do_write
  do_writes r [] = some r
  do_writes r (w ∷ ws) = do r' ← do_write r w; do_writes r' ws

  abbrev lost : RedisClient D → RedisClient D
  lost r = record r { ctx = none }

  do_write-lost : (r : RedisClient D) (w : Write D) → do_write (lost r) w ≡ some (lost r)
  unfolding do_write publish_position redis_publish_tick publish_risk_counters set_kill_switch
      redis_flush
  do_write-lost r (position sid p) = refl
  do_write-lost r (tick t) = refl
  do_write-lost r (counters sid pnl count exposure) = refl
  do_write-lost r (kill_switch engaged) = refl
  do_write-lost r (flush replies err up) = refl

  do_writes-lost : (r : RedisClient D) (ws : List (Write D)) → do_writes (lost r) ws ≡ some (lost r)
  unfolding do_writes
  do_writes-lost r [] = refl
  do_writes-lost r (w ∷ ws) = rw (do_write-lost r w) (do_writes-lost r ws)

  flush_lem :
      (r : RedisClient D) (ctx : Option (Context D)) (c : Context D) (replies : List Bool)
      → ctx ≡ some c
      → drains replies ≡ true
      → flush_ctx r ctx replies true false ≡ some (lost r)
  unfolding redis_connect
  flush_lem r ctx c replies connected ends =
      ap (λ o. flush_ctx r o replies true false) connected ∙ if_true (some (lost r)) none ends

  -- A flush of a connected client whose loop over the replies ends, that finds the context's error
  -- flag set and that cannot connect again, leaves the client without a context, and no write or
  -- flush behind it changes the client any more or waits: all of them are dropped.
  pub flush-lost :
      (r : RedisClient D) (c : Context D) (replies : List Bool) (ws : List (Write D))
      → r.ctx ≡ some c
      → drains replies ≡ true
      → do_writes r (flush replies true false ∷ ws) ≡ some (record r { ctx = none })
  unfolding do_writes do_write redis_flush
  flush-lost r c replies ws connected ends =
      rw (flush_lem r r.ctx c replies connected ends) (do_writes-lost r ws)
