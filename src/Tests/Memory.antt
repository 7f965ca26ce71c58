-- ===== src/Tests/Memory.antt =====
-- Runs of cpp/common/arena_allocator.hpp.
use quantforge_engine.Prelude.{◌≤◌, ◌≡◌, refl, false, List, [], ◌∷◌, arith}
use quantforge_engine.Arena.{arena_init, bit_and, align_up, allocate_round}
use quantforge_engine.Arena.Blocks.{Round, rounds, Packed, rounds-Packed}

-- Two threads: the second loses its first exchange, and the last request does not fit.
abbrev threads : List Round
threads =
    record { cur = 0; size = 10; align = 8; spurious = false }
    ∷ record { cur = 0; size = 20; align = 8; spurious = false }
    ∷ record { cur = 10; size = 20; align = 8; spurious = false }
    ∷ record { cur = 36; size = 200; align = 64; spurious = false }
    ∷ []

two_blocks :
    (rounds (arena_init 100) threads).1
    ≡ record { start = 0; size = 10; align = 8 } ∷ record { start = 16; size = 20; align = 8 } ∷ []
unfolding rounds allocate_round align_up bit_and
two_blocks = refl

rounds-Packed_example :
    let (end, bs) = rounds (arena_init 100) threads in
    Packed 640 0 bs end.offset × (end.offset ≤ 100)
rounds-Packed_example =
    rounds-Packed 640 (arena_init 100) threads (omega arith) (omega arith) (omega arith) (
      ((3, omega arith, refl), omega arith),
      (
        ((3, omega arith, refl), omega arith),
        (((3, omega arith, refl), omega arith), (((6, omega arith, refl), omega arith), tt)),
      ),
    )
