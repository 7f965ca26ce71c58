-- ===== src/Spsc.antt =====
-- cpp/common/spsc_queue.hpp: SPSCQueue, the bounded ring between two threads. `Capacity` is a power
-- of two, so `& mask_` is `% capacity`; every position is one of the array, so no sum wraps.
-- Each call is modelled as one step.
pub mod Refine
use quantforge_engine.Prelude.{
  ℕ, ◌+◌, ◌-◌, ◌%◌, Bool, true, false, Option, none, some, List, ◌==◌, if◌then◌else◌, get_or, set,
  replicate,
}

pub record Spsc (T : Type 0) : Type 0 where
  pub write_pos : ℕ
  pub read_pos : ℕ
  pub cells : List T  -- data_
  pub capacity : ℕ

module _ {T : Type 0} where
  -- The array's default elements are `blank`.
  unfoldable pub spsc_init : ℕ → T → Spsc T
  spsc_init capacity blank = record {
    write_pos = 0;
    read_pos = 0;
    cells = replicate capacity blank;
    capacity = capacity;
  }

  unfoldable pub spsc_push : Spsc T → T → Spsc T × Bool
  spsc_push q item =
      let next_w = (q.write_pos + 1) % q.capacity in
      if next_w == q.read_pos
      then (q, false)
      else (record q { cells = set q.cells q.write_pos item; write_pos = next_w }, true)

  -- `blank` is what a read out of the array would give; `Refine` shows that none happens.
  unfoldable pub spsc_pop : T → Spsc T → Spsc T × Option T
  spsc_pop blank q = if q.read_pos == q.write_pos then (q, none) else (
    record q { read_pos = (q.read_pos + 1) % q.capacity },
    some (get_or q.cells q.read_pos blank),
  )

  -- `out` is passed in and returned.
  unfoldable pub spsc_try_pop : T → Spsc T → T → Spsc T × T × Bool
  spsc_try_pop blank q out = if q.read_pos == q.write_pos then (q, out, false) else (
    record q { read_pos = (q.read_pos + 1) % q.capacity },
    get_or q.cells q.read_pos blank,
    true,
  )

  pub spsc_empty : Spsc T → Bool
  spsc_empty q = q.read_pos == q.write_pos

  -- `(w - r) & mask_`, with the modulus added before the subtraction.
  pub spsc_size : Spsc T → ℕ
  spsc_size q = (q.write_pos + q.capacity - q.read_pos) % q.capacity
