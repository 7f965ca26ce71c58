-- ===== src/Arena/Blocks.antt =====
-- The blocks that cpp/common/arena_allocator.hpp hands out to any threads.
use native.Mathlib.Nat.{div-add-mod, mod-lt, mod-eq_of_lt, mul-mod_left, mul_comm, pow-le-pow_right}
use mathlib.Core.Path.{subst}
use quantforge_engine.Prelude.{
  ℕ, zero, suc, ◌+◌, ◌-◌, ◌/◌, ◌%◌, ◌^◌, ◌≤◌, ◌<◌, ◌≡◌, refl, sym, ◌⊎◌, inl, inr, Bool, not, ◌&&◌,
  List, [], ◌∷◌, arith, ltb, ◌==◌, ==_iff, Bool-cases, All,
}
use quantforge_engine.Arena.Rounding.{pow_pos, align_up-pow}
use quantforge_engine.Arena.{Arena, Outcome, full, retry, block, align_up, allocate_round}

-- A round of some thread: what it had read, what it asks for, and whether the exchange just fails.
pub record Round : Type 0 where
  pub cur : ℕ
  pub size : ℕ
  pub align : ℕ
  pub spurious : Bool

-- A block with its start, its size and the alignment asked for.
pub record Block : Type 0 where
  pub start : ℕ
  pub size : ℕ
  pub align : ℕ

abbrev pub handed : Round → Outcome → List Block → List Block
handed r full bs = bs
handed r retry bs = bs
handed r (block at) bs = record { start = at; size = r.size; align = r.align } ∷ bs

-- Any interleaving of rounds: the arena afterwards, and the blocks in the order of the exchanges.
unfoldable pub rounds : Arena → List Round → Arena × List Block
rounds a [] = (a, [])
rounds a (r ∷ rs) =
    let (a', out) = allocate_round a r.cur r.size r.align r.spurious in
    let (end, bs) = rounds a' rs in (end, handed r out bs)

-- Blocks one behind the other between two places, with aligned addresses in a pool at `base`.
abbrev pub Packed : ℕ → ℕ → List Block → ℕ → Type 0
Packed base lo [] hi = lo ≤ hi
Packed base lo (b ∷ bs) hi =
    (lo ≤ b.start) × ((base + b.start) % b.align ≡ 0) × Packed base (b.start + b.size) bs hi

-- The alignment is a power of two up to that of the pool, and the size is far from the wrap of size_t.
abbrev pub IsSmall : Round → Type 0
IsSmall r = ((k : ℕ) × (k ≤ 6) × (r.align ≡ 2 ^ k)) × (r.size ≤ 2 ^ 62)

align_up_lem :
    (cur k : ℕ)
    → k ≤ 6
    → cur ≤ 2 ^ 62
    → (cur ≤ align_up cur (2 ^ k))
      × (align_up cur (2 ^ k) < cur + 2 ^ k)
      × (align_up cur (2 ^ k) % 2 ^ k ≡ 0)
align_up_lem cur k small low =
    let align = 2 ^ k in
    let e = div-add-mod (cur + align - 1) align in
    let r = mod-lt (cur + align - 1) {m = align} (pow_pos k) in
    let c = mul_comm align ((cur + align - 1) / align) in
    let p = pow_pos k in
    rw (align_up-pow cur k small low) (omega arith, omega arith, mul-mod_left _ align)

-- A multiple of a small power of two stays one behind the start of the pool.
aligned_at : (k base at : ℕ) → k ≤ 6 → base % 64 ≡ 0 → at % 2 ^ k ≡ 0 → (base + at) % 2 ^ k ≡ 0
aligned_at zero base at small b h = omega arith
aligned_at (suc zero) base at small b h = omega arith
aligned_at (suc (suc zero)) base at small b h = omega arith
aligned_at (suc (suc (suc zero))) base at small b h = omega arith
aligned_at (suc (suc (suc (suc zero)))) base at small b h = omega arith
aligned_at (suc (suc (suc (suc (suc zero))))) base at small b h = omega arith
aligned_at (suc (suc (suc (suc (suc (suc zero)))))) base at small b h = omega arith
aligned_at (suc (suc (suc (suc (suc (suc (suc k))))))) base at small b h = absurd (omega arith)

-- A round leaves the arena as it is, or hands out the next aligned place, and then the offset is its
-- end.
round_cases :
    (base : ℕ) (a : Arena) (r : Round)
    → base % 64 ≡ 0
    → a.offset ≤ a.pool_size
    → a.pool_size ≤ 2 ^ 62
    → IsSmall r
    → let (a', out) = allocate_round a r.cur r.size r.align r.spurious in
      (a'.pool_size ≡ a.pool_size)
      × (((a' ≡ a) × ((out ≡ full) ⊎ (out ≡ retry)))
          ⊎ ((at : ℕ) × (out ≡ block at)
              × (a.offset ≤ at)
              × ((base + at) % r.align ≡ 0)
              × (a'.offset ≡ at + r.size)
              × (at + r.size ≤ a.pool_size)))
unfolding allocate_round
round_cases base a r based low small ((k, tiny, pow), short) =
    let at = align_up r.cur r.align in
    elim (Bool-cases (ltb a.pool_size ((at + r.size) % 2 ^ 64))) [
      | inl over ↦ rw over (refl, inl (refl, inl refl))
      | inr fits ↦ elim (Bool-cases ((r.cur == a.offset) && not r.spurious)) [
        | inr lost ↦ rw (fits, lost) (refl, inl (refl, inr refl))
        | inl won ↦
            let now : r.cur ≡ a.offset = ground (arith, ==_iff r.cur a.offset) in
            let high : 2 ^ k ≤ 2 ^ 6 = pow-le-pow_right (omega arith) tiny in
            let rounded =
              subst
                (λ (n : ℕ).
                  (r.cur ≤ align_up r.cur n)
                  × (align_up r.cur n < r.cur + 2 ^ k)
                  × ((base + align_up r.cur n) % n ≡ 0))
                (sym pow)
                (let l = align_up_lem r.cur k tiny (omega arith) in
                  (l.0, l.1, aligned_at k base (align_up r.cur (2 ^ k)) tiny based l.2)) in
            let (lo, hi, whole) = rounded in
            let exact : (at + r.size) % 2 ^ 64 ≡ at + r.size = mod-eq_of_lt (omega arith) in
            rw (fits, won)
              (refl, inr (at, refl, omega arith, whole, exact, ground (arith, exact, fits)))
      ]
    ]

Packed-handed :
    (base : ℕ) (a a' : Arena) (r : Round) (out : Outcome) (bs : List Block) (hi : ℕ)
    → ((a' ≡ a) × ((out ≡ full) ⊎ (out ≡ retry)))
      ⊎ ((at : ℕ) × (out ≡ block at)
          × (a.offset ≤ at)
          × ((base + at) % r.align ≡ 0)
          × (a'.offset ≡ at + r.size)
          × (at + r.size ≤ a.pool_size))
    → Packed base a'.offset bs hi
    → Packed base a.offset (handed r out bs) hi
Packed-handed base a a' r out bs hi (inl (same, inl e)) p =
    rw e (subst (λ (x : Arena). Packed base x.offset bs hi) same p)
Packed-handed base a a' r out bs hi (inl (same, inr e)) p =
    rw e (subst (λ (x : Arena). Packed base x.offset bs hi) same p)
Packed-handed base a a' r out bs hi (inr (at, e, lo, whole, end, _)) p =
    rw e (lo, whole, subst (λ (x : ℕ). Packed base x bs hi) end p)

-- Over any interleaving of the rounds of any threads, with alignments that are powers of two up to the 64
-- bytes of the pool's own and sizes far from the wrap of size_t, the blocks handed out lie one behind the
-- other, from the old offset to the new one and within the pool: no two overlap, and the address of each,
-- for a pool at a multiple of 64, is a multiple of its alignment.
pub rounds-Packed :
    (base : ℕ) (a : Arena) (rs : List Round)
    → base % 64 ≡ 0
    → a.offset ≤ a.pool_size
    → a.pool_size ≤ 2 ^ 62
    → All IsSmall rs
    → let (end, bs) = rounds a rs in Packed base a.offset bs end.offset × (end.offset ≤ a.pool_size)
unfolding rounds
rounds-Packed base a [] based low small hs = (omega arith, low)
rounds-Packed base a (r ∷ rs) based low small (s, hs) =
    let a' = (allocate_round a r.cur r.size r.align r.spurious).0 in
    let (same_pool, cases) = round_cases base a r based low small s in
    let inside : a'.offset ≤ a'.pool_size = elim cases [
      | inl (same, _) ↦ subst (λ (x : Arena). x.offset ≤ x.pool_size) (sym same) low
      | inr (_, _, _, _, end, fits) ↦ omega arith
    ] in
    let ih = rounds-Packed base a' rs based inside (omega arith) hs in
    (
      Packed-handed base a a' r (allocate_round a r.cur r.size r.align r.spurious).1
          (rounds a' rs).1 (rounds a' rs).0.offset cases ih.0,
      omega (arith, ih.1, same_pool),
    )
