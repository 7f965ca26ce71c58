-- ===== src/Oms/Dedup.antt =====
-- cpp/oms/fill_deduplicator.hpp: FillDeduplicator.
use quantforge_engine.Prelude.{
  ℕ, ◌+◌, ◌%◌, ◌^◌, Bool, true, false, ◌||◌, List, [], ◌∷◌, length, if◌then◌else◌,
}
use quantforge_engine.Prelude.Text.{Text, text_beq}

pub record FillDeduplicator : Type 0 where
  pub processed : List Text
  pub duplicates : ℕ

abbrev pub no_fills : FillDeduplicator
no_fills = record { processed = []; duplicates = 0 }

unfoldable pub contains : Text → List Text → Bool
contains t [] = false
contains t (x ∷ xs) = text_beq x t || contains t xs

-- `duplicates_++` on a size_t, and the refusal.
abbrev pub refused : FillDeduplicator → FillDeduplicator × Bool
refused f = (record f { duplicates = (f.duplicates + 1) % 2 ^ 64 }, false)

-- The slow path, under the exclusive lock: `insert` tells whether the id is new.
unfoldable pub mark_slow : FillDeduplicator → Text → FillDeduplicator × Bool
mark_slow f trade_id =
    if contains trade_id f.processed
    then refused f
    else (record f { processed = trade_id ∷ f.processed }, true)

-- The fast path, under the shared lock, then the slow path.
unfoldable pub try_mark : FillDeduplicator → Text → FillDeduplicator × Bool
unfolding mark_slow
try_mark f trade_id = if contains trade_id f.processed then refused f else mark_slow f trade_id

unfoldable pub dedup_reset : FillDeduplicator → FillDeduplicator
dedup_reset f = record { processed = []; duplicates = 0 }

pub unique_fills : FillDeduplicator → ℕ
unique_fills f = length f.processed

pub duplicate_count : FillDeduplicator → ℕ
duplicate_count f = f.duplicates
