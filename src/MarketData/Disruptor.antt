-- ===== src/MarketData/Disruptor.antt =====
-- cpp/common/disruptor.hpp: TickDisruptor. A sequence number s is kept as s + 1, so that -1 is 0: a
-- consumer's cursor is kept as the number that it reads next. Each call is one step.
use quantforge_engine.Prelude.{
  ℕ, suc, ◌%◌, Bool, true, false, List, ltb, if◌then◌else◌, get_or, set, replicate,
}
use quantforge_engine.Prelude.Int.{ℤ, sub_ℕ}
use quantforge_engine.Doubles.{Double}
use quantforge_engine.Types.{NormalizedTick, blank_tick}

pub record Slot (D : Type 0) : Type 0 where
  pub tick : NormalizedTick D
  pub sequence : ℕ

pub record TickDisruptor (D : Type 0) : Type 0 where
  pub buffer : List (Slot D)
  pub buffer_size : ℕ
  pub producer_seq : ℕ

module _ {D : Type 0} ⦃d : Double D⦄ where
  abbrev pub blank_slot : Slot D
  blank_slot = record { tick = blank_tick; sequence = 0 }

  unfoldable pub disruptor_init : ℕ → TickDisruptor D
  disruptor_init buffer_size = record {
    buffer = replicate buffer_size blank_slot;
    buffer_size = buffer_size;
    producer_seq = 0;
  }

  -- `buffer_[n & MASK]`; the size is a power of two.
  abbrev pub slot_at : TickDisruptor D → ℕ → Slot D
  slot_at b n = get_or b.buffer (n % b.buffer_size) blank_slot

  -- The cursor, the tick handed in, and whether one was read.
  unfoldable pub try_consume_tick :
      TickDisruptor D → ℕ → NormalizedTick D → ℕ × NormalizedTick D × Bool
  try_consume_tick b next out =
      if ltb (slot_at b next).sequence (suc next)
      then (next, out, false)
      else (suc next, (slot_at b next).tick, true)

module _ {D : Type 0} where
  unfoldable pub claim_next : TickDisruptor D → TickDisruptor D × ℕ
  claim_next b = (record b { producer_seq = suc b.producer_seq }, b.producer_seq)

  -- `n` is the number that `claim_next` gave.
  unfoldable pub publish : TickDisruptor D → ℕ → NormalizedTick D → TickDisruptor D
  publish b n tick = record b {
    buffer = set b.buffer (n % b.buffer_size) (record { tick = tick; sequence = suc n });
  }

  unfoldable pub push : TickDisruptor D → NormalizedTick D → TickDisruptor D
  unfolding claim_next publish
  push b tick = let (b', n) = claim_next b in publish b' n tick

  pub lag : TickDisruptor D → ℕ → ℤ
  lag b next = sub_ℕ b.producer_seq next
