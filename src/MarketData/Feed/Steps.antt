-- ===== src/MarketData/Feed/Steps.antt =====
-- cpp/market_data/upstox_ws_handler.cpp: the steps of the connection. A step is the completion of an
-- operation that is under way, with the answer of the network, or a call from another part.
use quantforge_engine.Prelude.{ℕ, ◌≤◌, ◌≡◌, Bool, true, false, Option, List, length, nat_eq}
use quantforge_engine.Prelude.Text.{Text}
use quantforge_engine.Doubles.{Double}
use quantforge_engine.MarketData.Feed.{
  WsHandler, Pending, ReadResult, has_op, finish, max_reconnect_delay, on_resolve, on_connect,
  on_secure, on_upgrade, subscribe, unsubscribe, stop_feed, on_timer, on_read, on_written_sub,
}

module _ {D : Type 0} where
  -- Beside the writes of subscriptions, the handler has exactly one operation under way while it is
  -- not stopped and at most one later; until it is stopped it is connected exactly while it reads; the delay is between 1 and 60 seconds.
  pub record IsLive (s : WsHandler D) : Type 0 where
    pub single : length s.pending ≤ 1
    pub busy : s.stop ≡ false → length s.pending ≡ 1
    pub reads : s.stop ≡ false → s.connected ≡ has_op Pending.reading s.pending
    pub delay_low : 1 ≤ s.reconnect_delay
    pub delay_high : s.reconnect_delay ≤ max_reconnect_delay

module _ {D : Type 0} ⦃d : Double D⦄ (hash : Text → ℕ) (parse : Text → Option (Text × Text)) where
  -- The timer's wait is aborted only by `stop`.
  pub data Completion (s : WsHandler D) : WsHandler D → Type 0 where
    resolved :
        (ec : Bool)
        → has_op Pending.resolving s.pending ≡ true
        → Completion s (on_resolve (finish Pending.resolving s) ec)
    joined :
        (ec sni : Bool)
        → has_op Pending.connecting s.pending ≡ true
        → Completion s (on_connect (finish Pending.connecting s) ec sni)
    secured :
        (ec : Bool)
        → has_op Pending.securing s.pending ≡ true
        → Completion s (on_secure (finish Pending.securing s) ec)
    upgraded :
        (ec : Bool)
        → has_op Pending.upgrading s.pending ≡ true
        → Completion s (on_upgrade (finish Pending.upgrading s) ec)
    received :
        (r : ReadResult D)
        → has_op Pending.reading s.pending ≡ true
        → Completion s (on_read hash (finish Pending.reading s) r)
    timed_out :
        (aborted : Bool) (url : Text)
        → has_op Pending.waiting s.pending ≡ true
        → (aborted ≡ true → s.stop ≡ true)
        → Completion s (on_timer parse (finish Pending.waiting s) aborted url)
    sub_written : 1 ≤ s.writes → Completion s (on_written_sub s)

  pub data Step (s : WsHandler D) : WsHandler D → Type 0 where
    completes : {t : WsHandler D} → Completion s t → Step s t
    subscribes : (keys : List Text) (mode : Text) → Step s (subscribe hash s keys mode)
    unsubscribes : (keys : List Text) → Step s (unsubscribe hash s keys)
    stops : Step s (stop_feed s)

  pub data Reach (s : WsHandler D) : WsHandler D → Type 0 where
    here : Reach s s
    next : {t u : WsHandler D} → Reach s t → Step t u → Reach s u
