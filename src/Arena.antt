-- ===== src/Arena.antt =====
-- cpp/common/arena_allocator.hpp: ArenaAllocator. An address is its distance from the start of the pool,
-- which is aligned to 64 bytes.
pub mod Rounding
pub mod Blocks
use quantforge_engine.Prelude.{
  ℕ, zero, suc, ◌+◌, ◌-◌, ◌*◌, ◌/◌, ◌%◌, ◌^◌, Bool, true, false, not, ◌&&◌, ltb, ◌==◌,
  if◌then◌else◌,
}

pub record Arena : Type 0 where
  pub pool_size : ℕ
  pub offset : ℕ

-- What one round of the loop of `allocate` comes to: nullptr, another round, or a block.
pub data Outcome : Type 0 where
  full : Outcome
  retry : Outcome
  block : ℕ → Outcome

abbrev pub arena_init : ℕ → Arena
arena_init pool_bytes = record { pool_size = pool_bytes; offset = 0 }

-- `x & y`, on so many bits.
unfoldable pub bit_and : ℕ → ℕ → ℕ → ℕ
bit_and zero x y = 0
bit_and (suc n) x y = (x % 2) * (y % 2) + 2 * bit_and n (x / 2) (y / 2)

-- `~x` and `x - 1`, for a size_t.
abbrev pub bit_not : ℕ → ℕ
bit_not x = 2 ^ 64 - 1 - x

abbrev pub minus_one : ℕ → ℕ
minus_one x = (x + (2 ^ 64 - 1)) % 2 ^ 64

unfoldable pub align_up : ℕ → ℕ → ℕ
align_up cur align = bit_and 64 (minus_one (cur + align)) (bit_not (minus_one align))

-- `cur` is what the thread has read of the offset, which another may have changed since; a weak
-- exchange may also fail for no reason.
unfoldable pub allocate_round : Arena → ℕ → ℕ → ℕ → Bool → Arena × Outcome
allocate_round a cur size align spurious =
    let next = (align_up cur align + size) % 2 ^ 64 in
    if ltb a.pool_size next
    then (a, full)
    else if (cur == a.offset) && not spurious
    then (record a { offset = next }, block (align_up cur align))
    else (a, retry)

unfoldable pub reset : Arena → Arena
reset a = record a { offset = 0 }

pub used_bytes : Arena → ℕ
used_bytes a = a.offset
