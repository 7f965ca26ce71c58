-- ===== src/Tests/Positions.antt =====
-- Runs of cpp/portfolio and of cpp/common/spsc_queue.hpp.
use quantforge_engine.Prelude.{
  ℕ, true, false, [], ◌∷◌, ◌++◌, none, some, ◌+◌, nat_eq, ◌<◌, ◌≡◌, ◌≢◌, ◌⊎◌, refl, arith, length,
}
use quantforge_engine.Prelude.Int.{pos, ◌+ℤ◌, ◌*ℤ◌, abs_ℤ}
use quantforge_engine.Doubles.Fixed.{Fixed, fixed_double}
use quantforge_engine.Types.{Side, Fill, blank_fill}
use quantforge_engine.Spsc.{Spsc, spsc_push, spsc_pop}
use quantforge_engine.Spsc.Refine.{IsValid, contents, spsc_push_refines, spsc_pop_refines}
use quantforge_engine.Portfolio.Engine.{
  Portfolio, emit_update, fill_snapshot, apply_fill, claim_position, add_to_position, process_fill,
  qty_delta,
}
use quantforge_engine.Portfolio.Quantities.{quantity-process_all, process_all, quantity_of, net}
use quantforge_engine.Portfolio.Marking.{position_at}
use quantforge_engine.Portfolio.FillLoop.{fill_loop, fill_loop_drains}
use quantforge_engine.Tests.{holdings, fill_at}

-- Two items in a ring of four cells, the second wrapped round.
abbrev ring : Spsc ℕ
ring = record { write_pos = 1; read_pos = 3; cells = 11 ∷ 0 ∷ 0 ∷ 10 ∷ []; capacity = 4 }

abbrev ring-IsValid : IsValid ring
ring-IsValid = record { stored = refl; write_in = omega arith; read_in = omega arith }

spsc_push_refines_example :
    IsValid (spsc_push ring 12).0
    × (((length (contents 0 ring) + 1 ≡ 4)
          × ((spsc_push ring 12).1 ≡ false)
          × ((spsc_push ring 12).0 ≡ ring))
        ⊎ ((length (contents 0 ring) + 1 < 4)
            × ((spsc_push ring 12).1 ≡ true)
            × (contents 0 (spsc_push ring 12).0 ≡ contents 0 ring ++ (12 ∷ []))))
spsc_push_refines_example = spsc_push_refines 0 ring 12 ring-IsValid

spsc_pop_refines_example :
    IsValid (spsc_pop 0 ring).0
    × (((contents 0 ring ≡ []) × ((spsc_pop 0 ring).1 ≡ none) × ((spsc_pop 0 ring).0 ≡ ring))
        ⊎ ((x : ℕ) × (contents 0 ring ≡ x ∷ contents 0 (spsc_pop 0 ring).0)
            × ((spsc_pop 0 ring).1 ≡ some x)))
spsc_pop_refines_example = spsc_pop_refines 0 ring ring-IsValid

abbrev book : Portfolio Fixed
book = record {
  snapshot = holdings;
  starting_capital = pos 100_000_000;
  has_update_cb = true;
  updates = [];
}

abbrev buy_five : Fill Fixed
buy_five = fill_at 7 Side.buy 5 120_000

abbrev sell_ten : Fill Fixed
sell_ten = fill_at 7 Side.sell 10 95_000

abbrev sell_thirty : Fill Fixed
sell_thirty = fill_at 7 Side.sell 30 95_000

abbrev other_fill : Fill Fixed
other_fill = fill_at 8 Side.buy 1 5_000

-- Five more at 120 on ten at 90: fifteen at 100.
added :
    position_at (process_fill book buy_five) 7
    ≡ record (position_at book 7) { quantity = pos 15; avg_price = pos 100_000 }
unfolding process_fill emit_update fill_snapshot apply_fill claim_position qty_delta add_to_position
    ◌+ℤ◌ abs_ℤ fixed_double ◌*ℤ◌
added = refl

quantity-process_all_example :
    quantity_of (process_all book (buy_five ∷ other_fill ∷ sell_thirty ∷ [])) 7
    ≡ pos 10 +ℤ net 7 (buy_five ∷ other_fill ∷ sell_thirty ∷ [])
quantity-process_all_example =
    quantity-process_all book (buy_five ∷ other_fill ∷ sell_thirty ∷ []) 7

abbrev fills : Spsc (Fill Fixed)
fills = record {
  write_pos = 2;
  read_pos = 0;
  cells = buy_five ∷ sell_ten ∷ blank_fill ∷ blank_fill ∷ [];
  capacity = 4;
}

abbrev fills-IsValid : IsValid fills
fills-IsValid = record { stored = refl; write_in = omega arith; read_in = omega arith }

fill_loop_drains_example :
    ((fill_loop 3 (book, fills)).0 ≡ process_all book (contents blank_fill fills))
    × (contents blank_fill (fill_loop 3 (book, fills)).1 ≡ [])
fill_loop_drains_example = fill_loop_drains 3 book fills fills-IsValid (omega arith)

seven_known : (position_at book 7).instrument_token ≢ 0
seven_known e = omega (arith, e)

ten_open : (position_at book 7).quantity ≢ pos 0
ten_open e = ground (arith, e)
