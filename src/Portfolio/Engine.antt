-- ===== src/Portfolio/Engine.antt =====
-- cpp/portfolio/portfolio_engine.cpp and .hpp: PortfolioEngine. The update callback's calls are
-- recorded, newest first; positions are listed in the order in which the map is walked.
use quantforge_engine.Prelude.{
  ℕ, Bool, ◌&&◌, ◌||◌, Option, none, some, List, [], ◌∷◌, ◌==◌, if◌then◌else◌, lookup, insert,
  nat_eq,
}
use quantforge_engine.Prelude.Int.{ℤ, pos, ◌+ℤ◌, neg_ℤ, abs_ℤ, ltb_ℤ, eqb_ℤ}
use quantforge_engine.Prelude.Text.{strncpy}
use quantforge_engine.Doubles.{Double, of_ℕ}
use quantforge_engine.Types.{
  Side, is_side, Fill, Position, PortfolioSnapshot, position_or_blank, get_position,
}

pub record Portfolio (D : Type 0) : Type 0 where
  pub snapshot : PortfolioSnapshot D
  pub starting_capital : D
  pub has_update_cb : Bool
  pub updates : List (PortfolioSnapshot D)

abbrev pub is_buy : Side → Bool
is_buy side = is_side side Side.buy

-- `std::min` on integers.
abbrev pub min_ℤ : ℤ → ℤ → ℤ
min_ℤ a b = if ltb_ℤ b a then b else a

abbrev pub same_direction : ℤ → ℤ → Bool
same_direction delta quantity =
    (ltb_ℤ (pos 0) delta && ltb_ℤ (pos 0) quantity)
    || (ltb_ℤ delta (pos 0) && ltb_ℤ quantity (pos 0))

module _ {D : Type 0} where
  -- The signed change of the position.
  unfoldable pub qty_delta : Fill D → ℤ
  qty_delta fill = if is_buy fill.side then fill.quantity else neg_ℤ fill.quantity

  -- A position that the map has just made takes the fill's instrument and strategy.
  unfoldable pub claim_position : Position D → Fill D → Position D
  claim_position p fill =
      if p.instrument_token == 0
      then record p {
        instrument_token = fill.instrument_token;
        strategy_id = strncpy fill.strategy_id 31;
      }
      else p

module _ {D : Type 0} ⦃d : Double D⦄ where
  -- The constructor; available capital starts at 100000.
  unfoldable pub portfolio_init : Bool → Portfolio D
  portfolio_init has_cb = record {
    snapshot = record {
      positions = [];
      total_realized_pnl = of_ℕ 0;
      total_unrealized_pnl = of_ℕ 0;
      available_capital = of_ℕ 100_000;
      used_margin = of_ℕ 0;
      snapshot_ts_ns = 0;
    };
    starting_capital = of_ℕ 100_000;
    has_update_cb = has_cb;
    updates = [];
  }

  unfoldable pub open_position : Position D → Fill D → Position D
  open_position p fill = record p { quantity = qty_delta fill; avg_price = fill.price }

  -- The volume-weighted price of a position that grows.
  unfoldable pub add_to_position : Position D → Fill D → Position D
  add_to_position p fill =
      let total_value =
        d.add (d.mul (d.of_int (abs_ℤ p.quantity)) p.avg_price)
          (d.mul (d.of_int (abs_ℤ (qty_delta fill))) fill.price) in
      let quantity = p.quantity +ℤ qty_delta fill in
      record p {
        quantity = quantity;
        avg_price =
            if eqb_ℤ quantity (pos 0)
            then of_ℕ 0
            else d.div total_value (d.of_int (abs_ℤ quantity));
      }

  -- What the part of the fill that closes earns.
  unfoldable pub realized : Position D → Fill D → D
  realized p fill = d.mul (d.of_int (min_ℤ (abs_ℤ (qty_delta fill)) (abs_ℤ p.quantity))) (
      if is_side fill.side Side.sell
      then d.sub fill.price p.avg_price
      else d.sub p.avg_price fill.price)

  unfoldable pub reduce_position : Position D → Fill D → Position D
  reduce_position p fill =
      let quantity = p.quantity +ℤ qty_delta fill in
      record p {
        realized_pnl = d.add p.realized_pnl (realized p fill);
        quantity = quantity;
        avg_price = if eqb_ℤ quantity (pos 0) then of_ℕ 0 else p.avg_price;
      }

  -- The three branches of `process_fill` on a claimed position.
  unfoldable pub apply_fill : Position D → Fill D → Position D
  apply_fill p fill =
      if eqb_ℤ p.quantity (pos 0)
      then open_position p fill
      else if same_direction (qty_delta fill) p.quantity
      then add_to_position p fill
      else reduce_position p fill

  unfoldable pub add_realized : Position D → Fill D → D → D
  add_realized p fill total =
      if eqb_ℤ p.quantity (pos 0)
      then total
      else if same_direction (qty_delta fill) p.quantity
      then total
      else d.add total (realized p fill)

  -- The estimate of the capital left.
  unfoldable pub capital_after : Fill D → D → D
  capital_after fill capital =
      let fill_value = d.mul (d.of_int fill.quantity) fill.price in
      if is_buy fill.side then d.sub capital fill_value else d.add capital fill_value

  -- `positions[token]`, which makes a blank position for a new token.
  abbrev pub position_of : PortfolioSnapshot D → Fill D → Position D
  position_of s fill =
      claim_position (position_or_blank (lookup fill.instrument_token s.positions)) fill

  unfoldable pub fill_snapshot : PortfolioSnapshot D → Fill D → PortfolioSnapshot D
  fill_snapshot s fill =
      let p = position_of s fill in
      record s {
        positions = insert fill.instrument_token (apply_fill p fill) s.positions;
        total_realized_pnl = add_realized p fill s.total_realized_pnl;
        available_capital = capital_after fill s.available_capital;
        snapshot_ts_ns = fill.fill_ts_ns;
      }

  unfoldable pub emit_update : Portfolio D → Portfolio D
  emit_update e = if e.has_update_cb then record e { updates = e.snapshot ∷ e.updates } else e

  unfoldable pub process_fill : Portfolio D → Fill D → Portfolio D
  process_fill e fill = emit_update (record e { snapshot = fill_snapshot e.snapshot fill })

  -- The mark to market of one position.
  unfoldable pub mark : Position D → D → Position D
  mark p price = record p {
    current_price = price;
    unrealized_pnl =
        if eqb_ℤ p.quantity (pos 0)
        then p.unrealized_pnl
        else if d.lt (of_ℕ 0) p.avg_price
        then d.mul
            (d.mul (if ltb_ℤ (pos 0) p.quantity then of_ℕ 1 else d.neg (of_ℕ 1))
              (d.of_int (abs_ℤ p.quantity)))
            (d.sub price p.avg_price)
        else p.unrealized_pnl;
  }

  -- The loop that adds up the unrealized results.
  unfoldable pub total_upnl : D → List (ℕ × Position D) → D
  total_upnl total [] = total
  total_upnl total ((_, p) ∷ ps) = total_upnl (d.add total p.unrealized_pnl) ps

  unfoldable pub mark_found :
      PortfolioSnapshot D → ℕ → D → Option (Position D) → PortfolioSnapshot D
  mark_found s token price none = s
  mark_found s token price (some p) =
      let positions = insert token (mark p price) s.positions in
      record s { positions = positions; total_unrealized_pnl = total_upnl (of_ℕ 0) positions }

  unfoldable pub update_price : Portfolio D → ℕ → D → Portfolio D
  update_price e token price = record e {
    snapshot = mark_found e.snapshot token price (lookup token e.snapshot.positions);
  }

  pub get_position_of : Portfolio D → ℕ → Position D
  get_position_of e token = get_position e.snapshot token

module _ {D : Type 0} where
  unfoldable pub get_snapshot : Portfolio D → PortfolioSnapshot D
  get_snapshot e = e.snapshot

  pub available_capital : Portfolio D → D
  available_capital e = e.snapshot.available_capital

  load_each : List (ℕ × Position D) → List (Position D) → List (ℕ × Position D)
  load_each m [] = m
  load_each m (p ∷ ps) = load_each (insert p.instrument_token p m) ps

  unfoldable pub load_positions : Portfolio D → List (Position D) → Portfolio D
  unfolding load_each
  load_positions e ps =
      let s = e.snapshot in
      record e { snapshot = record s { positions = load_each s.positions ps } }
