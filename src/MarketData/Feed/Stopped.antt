-- ===== src/MarketData/Feed/Stopped.antt =====
-- cpp/market_data/upstox_ws_handler.cpp: what a stopped handler says of its connection.
use quantforge_engine.Prelude.{
  ℕ, ◌≡◌, refl, true, false, Option, none, some, List, [], ◌∷◌, erase, nat_eq, if_elim,
}
use quantforge_engine.Prelude.Text.{Text}
use quantforge_engine.Doubles.{Double}
use quantforge_engine.MarketData.Feed.{
  WsHandler, Pending, remove_key, finish, begin, schedule_reconnect, do_authorize, on_resolve,
  do_ssl_handshake, on_connect, on_secure, on_upgrade, do_reconnect, on_timer, on_read,
  on_written_sub, no_url, parsed_url, do_send_subscription, no_keys, subscribe, unsubscribe,
  stop_feed,
}
use quantforge_engine.MarketData.Feed.Steps.{
  Completion, resolved, joined, secured, upgraded, received, timed_out, sub_written, Step,
  completes, subscribes, unsubscribes, stops, Reach, here, next,
}

module _ {D : Type 0} ⦃d : Double D⦄ (hash : Text → ℕ) (parse : Text → Option (Text × Text)) where
  abbrev StaysOn : WsHandler D → Type 0
  StaysOn t = (t.stop ≡ true) × (t.connected ≡ true)

  schedule_reconnect-StaysOn : (s : WsHandler D) → StaysOn s → StaysOn (schedule_reconnect s)
  unfolding schedule_reconnect
  schedule_reconnect-StaysOn s w = if_elim StaysOn s.stop _ _ (λ _. w) (λ n. absurd (cc (w.0)))

  do_authorize-StaysOn :
      (s : WsHandler D) (url : Text) → StaysOn s → StaysOn (do_authorize parse s url)
  unfolding do_authorize
  do_authorize-StaysOn s url w =
      if_elim StaysOn (no_url url) _ _
        (λ _. schedule_reconnect-StaysOn (record s { wss_url = url }) w)
        (λ _. elim (parse url) as (λ o. StaysOn (parsed_url (record s { wss_url = url }) o)) [
          | none ↦ schedule_reconnect-StaysOn (record s { wss_url = url }) w
          | some (host, path) ↦ w
        ])

  on_upgrade-StaysOn : (s : WsHandler D) → s.stop ≡ true → StaysOn (on_upgrade s false)
  unfolding on_upgrade do_send_subscription
  on_upgrade-StaysOn s e =
      if_elim (λ (t : WsHandler D). StaysOn (begin Pending.reading t)) (no_keys s.subscribed_keys) _
        _ (λ _. (e, refl)) (λ _. (e, refl))

  unsubscribe-StaysOn :
      (s : WsHandler D) (ks : List Text) → StaysOn s → StaysOn (unsubscribe hash s ks)
  unfolding unsubscribe
  unsubscribe-StaysOn s [] w = w
  unsubscribe-StaysOn s (k ∷ ks) w =
      unsubscribe-StaysOn
        (record s {
          subscribed_keys = remove_key k s.subscribed_keys;
          token_to_key = erase (hash k) s.token_to_key;
        })
        ks w

  Completion-StaysOn : {s t : WsHandler D} → Completion hash parse s t → StaysOn s → StaysOn t
  unfolding on_resolve on_connect do_ssl_handshake on_secure on_read on_timer do_reconnect
      on_written_sub
  Completion-StaysOn {s} (resolved ec h) w =
      if_elim StaysOn ec _ _ (λ _. schedule_reconnect-StaysOn (finish Pending.resolving s) w)
        (λ _. w)
  Completion-StaysOn {s} (joined ec sni h) w =
      if_elim StaysOn ec _ _ (λ _. schedule_reconnect-StaysOn (finish Pending.connecting s) w)
        (λ _.
          if_elim StaysOn sni _ _ (λ _. w)
            (λ _. schedule_reconnect-StaysOn (finish Pending.connecting s) w))
  Completion-StaysOn {s} (secured ec h) w =
      if_elim StaysOn ec _ _ (λ _. schedule_reconnect-StaysOn (finish Pending.securing s) w)
        (λ _. w)
  Completion-StaysOn {s} (upgraded true h) w =
      unfold on_upgrade in schedule_reconnect-StaysOn (finish Pending.upgrading s) w
  Completion-StaysOn {s} (upgraded false h) w = on_upgrade-StaysOn (finish Pending.upgrading s) w.0
  Completion-StaysOn {s} (received r h) w =
      if_elim StaysOn s.stop _ _ (λ _. w) (λ n. absurd (cc (w.0)))
  Completion-StaysOn {s} (timed_out aborted url h only) w =
      if_elim StaysOn aborted _ _ (λ _. w)
        (λ _. do_authorize-StaysOn (record (finish Pending.waiting s) { has_ws = false }) url w)
  Completion-StaysOn {s} (sub_written some_write) w = w

  Step-StaysOn : {s t : WsHandler D} → Step hash parse s t → StaysOn s → StaysOn t
  unfolding stop_feed subscribe do_send_subscription
  Step-StaysOn (completes c) w = Completion-StaysOn c w
  Step-StaysOn {s} (subscribes keys mode) w = if_elim StaysOn s.connected _ _ (λ _. w) (λ _. w)
  Step-StaysOn {s} (unsubscribes keys) w = unsubscribe-StaysOn s keys w
  Step-StaysOn stops w = (refl, w.1)

  Reach-StaysOn : {s t : WsHandler D} → StaysOn s → Reach hash parse s t → StaysOn t
  Reach-StaysOn w here = w
  Reach-StaysOn w (next r st) = Step-StaysOn st (Reach-StaysOn w r)

  -- A handler that is stopped while it is connected says that it is connected for ever after.
  pub stop_feed-connected :
      (s t : WsHandler D)
      → s.connected ≡ true
      → Reach hash parse (stop_feed s) t
      → t.connected ≡ true
  unfolding stop_feed
  stop_feed-connected s t e r = (Reach-StaysOn {s = stop_feed s} {t = t} (refl, e) r).1

  -- A handler that is stopped while the last handshake is under way becomes connected when that
  -- succeeds, and says so for ever after, whatever is called and whatever the network answers.
  pub on_upgrade-connected :
      (s t : WsHandler D)
      → s.stop ≡ true
      → Reach hash parse (on_upgrade (finish Pending.upgrading s) false) t
      → t.connected ≡ true
  on_upgrade-connected s t e r =
      (Reach-StaysOn (on_upgrade-StaysOn (finish Pending.upgrading s) e) r).1
