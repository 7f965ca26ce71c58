-- ===== src/Spsc/Refine.antt =====
-- The queue of cpp/common/spsc_queue.hpp against a list of its contents.
use native.Mathlib.Nat.{mod-add-mod, mod-eq_of_lt, mod-lt}
use mathlib.Core.Path.{ap₂}
use mathlib.Core.Bool.{false≢true}
use native.Mathlib.Nat.{add-zero}
use quantforge_engine.Prelude.{
  ℕ, zero, suc, ◌+◌, ◌-◌, ◌%◌, ◌≤◌, ◌<◌, ◌≡◌, refl, sym, ap, ◌∙◌, ◌≢◌, ◌⊎◌, inl, inr, true, false,
  none, some, List, [], ◌∷◌, ◌++◌, arith, ◌==◌, ==_iff, Bool-cases, get_or, set, length, length-set,
  get_or-set_self, get_or-set_ne,
}
use quantforge_engine.Prelude.Modulus.{mod_cases}
use quantforge_engine.Spsc.{Spsc, spsc_push, spsc_pop}

pub record IsValid {T : Type 0} (q : Spsc T) : Type 0 where
  pub stored : length q.cells ≡ q.capacity
  pub write_in : q.write_pos < q.capacity
  pub read_in : q.read_pos < q.capacity

abbrev count : ℕ → ℕ → ℕ → ℕ
count w r cap = (w + cap - r) % cap

module _ (w r cap : ℕ) (hw : w < cap) (hr : r < cap) where
  count_cases : ((r ≤ w) × (count w r cap + r ≡ w)) ⊎ ((w < r) × (count w r cap + r ≡ w + cap))
  count_cases = let c = mod_cases (w + cap - r) cap (omega arith) in grind arith

  count_end : w ≡ (r + (0 + count w r cap)) % cap
  count_end =
      let c = count_cases in
      let e = mod_cases (r + (0 + count w r cap)) cap (omega arith) in
      let l = mod-lt (r + (0 + count w r cap)) {m = cap} (omega arith) in omega arith

  next_cases : (((w + 1) % cap ≡ w + 1) × (w + 1 < cap)) ⊎ (((w + 1) % cap ≡ 0) × (w + 1 ≡ cap))
  next_cases =
      let c = mod_cases (w + 1) cap (omega arith) in
      let l = mod-lt (w + 1) {m = cap} (omega arith) in omega arith

  next_in : (w + 1) % cap < cap
  next_in = mod-lt (w + 1) {m = cap} (omega arith)

  count_full : (w + 1) % cap ≡ r → count w r cap + 1 ≡ cap
  count_full e = let c = count_cases in let n = next_cases in omega arith

  count_empty : r ≡ w → count w r cap ≡ 0
  count_empty e = let c = count_cases in omega arith

count_push :
    (w r cap : ℕ)
    → w < cap
    → r < cap
    → (w + 1) % cap ≢ r
    → (count ((w + 1) % cap) r cap ≡ suc (count w r cap)) × (count w r cap + 1 < cap)
count_push w r cap hw hr e =
    let c = count_cases w r cap hw hr in
    let n = next_cases w r cap hw hr in
    let c' = count_cases ((w + 1) % cap) r cap (next_in w r cap hw hr) hr in
    (omega arith, omega arith)

count_pop :
    (w r cap : ℕ) → w < cap → r < cap → r ≢ w → count w r cap ≡ suc (count w ((r + 1) % cap) cap)
count_pop w r cap hw hr e =
    let c = count_cases w r cap hw hr in
    let n = next_cases r w cap hr hw in
    let c' = count_cases w ((r + 1) % cap) cap hw (next_in r w cap hr hw) in omega arith

-- The number of items held.
abbrev pub held_count : {T : Type 0} → Spsc T → ℕ
held_count q = (q.write_pos + q.capacity - q.read_pos) % q.capacity

module _ {T : Type 0} (blank : T) where
  -- The items `k`, …, `k + n - 1` places behind the read position `r`.
  abbrev pub items : List T → ℕ → ℕ → ℕ → ℕ → List T
  items cells cap r k zero = []
  items cells cap r k (suc n) = get_or cells ((r + k) % cap) blank ∷ items cells cap r (suc k) n

  -- Oldest first.
  abbrev pub contents : Spsc T → List T
  contents q = items q.cells q.capacity q.read_pos 0 (held_count q)

  length-items : (cells : List T) (cap r k n : ℕ) → length (items cells cap r k n) ≡ n
  length-items cells cap r k zero = refl
  length-items cells cap r k (suc n) = ap suc (length-items cells cap r (suc k) n)

  -- A write outside of the items.
  items-set :
      (cells : List T) (cap r k n i : ℕ) (x : T)
      → r < cap
      → k + n < cap
      → i ≡ (r + (k + n)) % cap
      → items (set cells i x) cap r k n ≡ items cells cap r k n
  items-set cells cap r k zero i x hr hn e = refl
  items-set cells cap r k (suc n) i x hr hn e =
      let miss : i ≢ (r + k) % cap = λ same. apart (same ∙ refl) in
      rw (get_or-set_ne cells i ((r + k) % cap) x blank miss) (
        ap (λ t. get_or cells ((r + k) % cap) blank ∷ t)
          (items-set cells cap r (suc k) n i x hr (omega arith)
            (e ∙ ap (λ (m : ℕ). (r + m) % cap) (omega arith))))
    where
      apart : ¬ (i ≡ (r + k) % cap)
      apart same =
          let low = mod_cases (r + k) cap (omega arith) in
          let high = mod_cases (r + (k + suc n)) cap (omega arith) in omega arith

  -- One item more at the end.
  items-suc :
      (cells : List T) (cap r k n : ℕ)
      → items cells cap r k (suc n)
        ≡ items cells cap r k n ++ (get_or cells ((r + (k + n)) % cap) blank ∷ [])
  items-suc cells cap r k zero =
      ap (λ (m : ℕ). get_or cells ((r + m) % cap) blank ∷ []) (omega arith)
  items-suc cells cap r k (suc n) =
      ap (λ t. get_or cells ((r + k) % cap) blank ∷ t)
        (items-suc cells cap r (suc k) n
          ∙ ap (λ (m : ℕ). items cells cap r (suc k) n ++ (get_or cells ((r + m) % cap) blank ∷ []))
              (omega arith))

  -- Moving the read position one on.
  items-next :
      (cells : List T) (cap r k n : ℕ)
      → items cells cap ((r + 1) % cap) k n ≡ items cells cap r (suc k) n
  items-next cells cap r k zero = refl
  items-next cells cap r k (suc n) =
      let same : ((r + 1) % cap + k) % cap ≡ (r + suc k) % cap =
        rw mod-add-mod (ap (λ (m : ℕ). m % cap) (omega arith)) in
      rw same
        (ap (λ t. get_or cells ((r + suc k) % cap) blank ∷ t) (items-next cells cap r (suc k) n))

  -- `push` refuses exactly at Capacity - 1 items, changing nothing, and otherwise appends the item;
  -- it keeps the positions in the array.
  pub spsc_push_refines :
      (q : Spsc T) (x : T)
      → IsValid q
      → let (q', done) = spsc_push q x in
        IsValid q'
        × (((length (contents q) + 1 ≡ q.capacity) × (done ≡ false) × (q' ≡ q))
            ⊎ ((length (contents q) + 1 < q.capacity)
                × (done ≡ true)
                × (contents q' ≡ contents q ++ (x ∷ []))))
  unfolding spsc_push
  spsc_push_refines q x v = elim (Bool-cases ((q.write_pos + 1) % q.capacity == q.read_pos)) [
    | inl full ↦ rw full (
      v,
      inl (
        omega (
          arith,
          length-items q.cells q.capacity q.read_pos 0 (held_count q),
          count_full q.write_pos q.read_pos q.capacity v.write_in v.read_in
              ((==_iff _ q.read_pos).0 full),
        ),
        refl,
        refl,
      ),
    )
    | inr room ↦ rw room (
        let ne : (q.write_pos + 1) % q.capacity ≢ q.read_pos =
          λ e. false≢true (sym room ∙ (==_iff _ q.read_pos).1 e) in
        let pushed = count_push q.write_pos q.read_pos q.capacity v.write_in v.read_in ne in
        let end = count_end q.write_pos q.read_pos q.capacity v.write_in v.read_in in
        (
          record {
            stored = length-set q.cells q.write_pos x ∙ v.stored;
            write_in = next_in q.write_pos q.read_pos q.capacity v.write_in v.read_in;
            read_in = v.read_in;
          },
          inr (
            omega (arith, length-items q.cells q.capacity q.read_pos 0 (held_count q), pushed.1),
            refl,
            rw pushed.0 (
                items-suc (set q.cells q.write_pos x) q.capacity q.read_pos 0 (held_count q)
                ∙ ap₂ (λ a b. a ++ (b ∷ []))
                    (items-set q.cells q.capacity q.read_pos 0 (held_count q) q.write_pos x
                      v.read_in (omega (arith, pushed.1)) end)
                    (rw (← end) (get_or-set_self q.cells q.write_pos x blank (omega arith)))),
          ),
        ))
  ]

  -- `pop` gives `none` exactly on the empty queue, changing nothing, and otherwise takes the oldest
  -- item out; it keeps the positions in the array.
  pub spsc_pop_refines :
      (q : Spsc T)
      → IsValid q
      → let (q', r) = spsc_pop blank q in
        IsValid q'
        × (((contents q ≡ []) × (r ≡ none) × (q' ≡ q))
            ⊎ ((x : T) × (contents q ≡ x ∷ contents q') × (r ≡ some x)))
  unfolding spsc_pop
  spsc_pop_refines q v = elim (Bool-cases (q.read_pos == q.write_pos)) [
    | inl empty ↦ rw empty (
      v,
      inl (
        ap (λ (n : ℕ). items q.cells q.capacity q.read_pos 0 n)
            (count_empty q.write_pos q.read_pos q.capacity v.write_in v.read_in
              ((==_iff _ q.write_pos).0 empty)),
        refl,
        refl,
      ),
    )
    | inr more ↦ rw more (
        let ne : q.read_pos ≢ q.write_pos =
          λ e. false≢true (sym more ∙ (==_iff _ q.write_pos).1 e) in
        let popped = count_pop q.write_pos q.read_pos q.capacity v.write_in v.read_in ne in
        (
          record {
            stored = v.stored;
            write_in = v.write_in;
            read_in = next_in q.read_pos q.write_pos q.capacity v.read_in v.write_in;
          },
          inr (
            get_or q.cells q.read_pos blank,
            rw popped (
                ap₂ ◌∷◌
                  (ap (λ (i : ℕ). get_or q.cells i blank)
                    (ap (λ (i : ℕ). i % q.capacity) (add-zero q.read_pos) ∙ mod-eq_of_lt v.read_in))
                  (sym (items-next q.cells q.capacity q.read_pos 0 _))),
            refl,
          ),
        ))
  ]
