-- ===== src/Strategy/Manager.antt =====
-- cpp/strategy/strategy_manager.cpp and .hpp: StrategyManager. A strategy is a state with handlers; a
-- handler is total, so it also stands for one that throws, which the manager swallows.
use quantforge_engine.Prelude.{
  ℕ, Bool, true, false, ◌&&◌, ◌||◌, Option, none, some, List, [], ◌∷◌, ◌==◌, if◌then◌else◌, lookup,
  nat_eq,
}
use quantforge_engine.Prelude.Text.{Text, text_beq, strncmp_eq}
use quantforge_engine.Doubles.{Double}
use quantforge_engine.Types.{
  OrderRequest, Fill, Candle, NormalizedTick, blank_tick, StrategyConfig, RiskDecision,
  decision_value, max_strategy_len,
}
use quantforge_engine.Oms.Manager.{Oms}
use quantforge_engine.Oms.Requests.{submit}
use quantforge_engine.Risk.Gate.{RiskEngine, check}
use quantforge_engine.Portfolio.Engine.{Portfolio, get_snapshot}

-- The handlers of a plugin, on its state S.
pub record IStrategy (D S : Type 0) : Type 0 where
  pub on_start : S → S × Bool  -- and whether it threw
  pub on_stop : S → S
  pub on_tick : S → NormalizedTick D → S
  pub on_candle : S → Candle D → S
  pub on_order_fill : S → Fill D → S
  pub on_kill_signal : S → S
  pub update_params : S → List (Text × D) → S

-- The thread's cursor in the ring is that of MarketData/Disruptor.
pub record LoadedStrategy (D S : Type 0) : Type 0 where
  pub instance_state : S
  pub config : StrategyConfig D
  pub running : Bool
  pub disruptor_seq : ℕ

-- The engine behind the context of a strategy.
pub record Services (D : Type 0) : Type 0 where
  pub portfolio : Portfolio D
  pub risk : RiskEngine D
  pub oms : Oms D

abbrev pub is_pass : RiskDecision → Bool
is_pass decision = decision_value decision == 0

-- The times that an order's way reads from the clocks.
pub record Clock : Type 0 where
  pub market_open : Bool
  pub limiter_ns : ℕ
  pub id_ms : ℕ
  pub placed_ns : ℕ
  pub fill_ns : ℕ

module _ {D : Type 0} ⦃d : Double D⦄ where
  unfoldable pub submit_checked :
      Services D → OrderRequest D → Clock → RiskEngine D × RiskDecision → Services D × Bool
  submit_checked e req clock (risk, decision) =
      if is_pass decision
      then (let (oms, accepted) = submit e.oms req clock.id_ms clock.placed_ns clock.fill_ns in
          (record e { risk = risk; oms = oms }, accepted))
      else (record e { risk = risk }, false)

  -- `ctx.submit_order` of a strategy with the configuration `scfg`.
  unfoldable pub submit_order :
      Services D → StrategyConfig D → OrderRequest D → Clock → Services D × Bool
  unfolding submit_checked
  submit_order e scfg req clock =
      submit_checked e req clock
        (check e.risk req scfg (get_snapshot e.portfolio) clock.market_open clock.limiter_ns)

module _ {D S : Type 0} (plugin : IStrategy D S) where
  subscribed_in : ℕ → List ℕ → Bool
  subscribed_in token [] = false
  subscribed_in token (t ∷ ts) = (t == token) || subscribed_in token ts

  abbrev pub no_instruments : List ℕ → Bool
  no_instruments [] = true
  no_instruments (t ∷ ts) = false

  unfoldable pub dispatch_candle : List (LoadedStrategy D S) → Candle D → List (LoadedStrategy D S)
  unfolding subscribed_in
  dispatch_candle [] candle = []
  dispatch_candle (s ∷ ss) candle =
      (if s.running
          && (no_instruments s.config.instruments
              || subscribed_in candle.instrument_token s.config.instruments)
        then record s { instance_state = plugin.on_candle s.instance_state candle }
        else s)
      ∷ dispatch_candle ss candle

  -- The strategy that a fill is for.
  abbrev pub owns : Fill D → LoadedStrategy D S → Bool
  owns fill s = strncmp_eq s.config.id fill.strategy_id max_strategy_len

  unfoldable pub dispatch_fill : List (LoadedStrategy D S) → Fill D → List (LoadedStrategy D S)
  dispatch_fill [] fill = []
  dispatch_fill (s ∷ ss) fill =
      let rest = dispatch_fill ss fill in
      if owns fill s
      then record s { instance_state = plugin.on_order_fill s.instance_state fill } ∷ ss
      else s ∷ rest

  unfoldable pub halt_strategy : List (LoadedStrategy D S) → Text → List (LoadedStrategy D S)
  halt_strategy [] id = []
  halt_strategy (s ∷ ss) id =
      let rest = halt_strategy ss id in
      if text_beq s.config.id id
      then record s { instance_state = plugin.on_kill_signal s.instance_state; running = false }
        ∷ ss
      else s ∷ rest

  unfoldable pub update_params_of :
      List (LoadedStrategy D S) → Text → List (Text × D) → List (LoadedStrategy D S)
  update_params_of [] id params = []
  update_params_of (s ∷ ss) id params =
      let rest = update_params_of ss id params in
      if text_beq s.config.id id
      then record s { instance_state = plugin.update_params s.instance_state params } ∷ ss
      else s ∷ rest

module _ {D : Type 0} ⦃d : Double D⦄ where
  abbrev pub tick_or_blank : Option (NormalizedTick D) → NormalizedTick D
  tick_or_blank none = blank_tick
  tick_or_blank (some t) = t

  -- `ctx.get_last_tick`.
  pub get_last_tick : List (ℕ × NormalizedTick D) → ℕ → NormalizedTick D
  get_last_tick cache token = tick_or_blank (lookup token cache)
