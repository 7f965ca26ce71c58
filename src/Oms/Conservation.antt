-- ===== src/Oms/Conservation.antt =====
-- Where the slots of the order pool of cpp/oms are, over every call of the order manager.
pub mod Requests
pub mod Histories
use mathlib.Core.List.{Perm, perm_middle, Nodup}
use mathlib.Core.List.Perm
use native.Mathlib.Nat.{mod-eq_of_lt}
use quantforge_engine.Prelude.{
  ℕ, zero, suc, ◌+◌, ◌%◌, ◌^◌, ◌≤◌, ◌<◌, ◌≡◌, refl, ◌∙◌, sym, ap, ◌⊎◌, inl, inr, Bool, true, false,
  List, [], ◌∷◌, ◌++◌, Option, none, some, arith, if◌then◌else◌, Bool-cases, if_elim, Option-cases,
  length, length-append, length-set, All, lookup, insert, erase, values, values-insert-perm,
  values-erase-perm, beq_self, set,
}
use quantforge_engine.Prelude.Text.{Text, text_eq}
use quantforge_engine.Doubles.{Double}
use quantforge_engine.Prelude.Int.{ℤ}
use quantforge_engine.Types.{Fill, OrderRequest}
use quantforge_engine.Oms.Pool.{
  OrderPool, PooledOrder, indices, clean, put_slot, slot, acquire, acquire_from, release,
}
use quantforge_engine.Oms.OrderState.{is_terminal}
use quantforge_engine.Oms.Dedup.{FillDeduplicator, try_mark}
use quantforge_engine.Oms.Manager.{
  Oms, Call, call, order_id_text, on_order_ack, on_fill, fill_unseen, filled_slot,
  internal_or_suffix, internal_or_same, is_empty, book_fill, retire, deliver,
}
use quantforge_engine.Oms.Requests.{
  enter, route, submit, cancel, on_reject, on_place_error, cancel_each, cancel_all_open,
  reset_for_eod,
}
use quantforge_engine.Oms.OrderIds.{issued, issued-order_id_text}

-- Ids that were issued before the number n.
abbrev pub IssuedBelow : ℕ → List (Text × ℕ) → Type 0
IssuedBelow n = All (λ entry. issued entry.0 < n)

-- The slots that are free or held.
abbrev pub owned : List ℕ → List (Text × ℕ) → List ℕ
owned free orders = free ++ values orders

module _ {D : Type 0} where
  pub record IsConserved (n : ℕ) (s : Oms D) : Type 0 where
    pub partition : Perm (owned s.pool.free_list s.orders) (indices n)
    pub sized : length s.pool.slots ≡ n
    pub fresh : IssuedBelow s.seq s.orders

IssuedBelow-insert :
    (n : ℕ) (k : Text) (p : ℕ) (m : List (Text × ℕ))
    → issued k < n
    → IssuedBelow n m
    → IssuedBelow n (insert k p m)
IssuedBelow-insert n k p [] h b = (h, tt)
IssuedBelow-insert n k p ((j, w) ∷ m) h (b, bs) = elim (Bool-cases (text_eq.beq j k)) [
  | inl hit ↦ rw hit (h, bs)
  | inr miss ↦ rw miss (b, IssuedBelow-insert n k p m h bs)
]

IssuedBelow-erase :
    (n : ℕ) (k : Text) (m : List (Text × ℕ)) → IssuedBelow n m → IssuedBelow n (erase k m)
IssuedBelow-erase n k [] b = tt
IssuedBelow-erase n k ((j, w) ∷ m) (b, bs) = elim (Bool-cases (text_eq.beq j k)) [
  | inl hit ↦ rw hit bs
  | inr miss ↦ rw miss (b, IssuedBelow-erase n k m bs)
]

IssuedBelow-mono : (n k : ℕ) (m : List (Text × ℕ)) → n ≤ k → IssuedBelow n m → IssuedBelow k m
IssuedBelow-mono n k [] h b = tt
IssuedBelow-mono n k ((j, w) ∷ m) h (b, bs) = (omega arith, IssuedBelow-mono n k m h bs)

-- An id that was not issued yet is no key.
lookup_unissued :
    (n : ℕ) (k : Text) (m : List (Text × ℕ)) → IssuedBelow n m → issued k ≡ n → lookup k m ≡ none
lookup_unissued n k [] b e = refl
lookup_unissued n k ((j, w) ∷ m) (b, bs) e = elim (Bool-cases (text_eq.beq j k)) [
  | inl hit ↦ absurd (omega (arith, ap issued ((text_eq.beq_iff j k).0 hit)))
  | inr miss ↦ rw miss (lookup_unissued n k m bs e)
]

owned-acquire :
    (p : ℕ) (free : List ℕ) (k : Text) (m : List (Text × ℕ))
    → lookup k m ≡ none
    → Perm (owned free (insert k p m)) (owned (p ∷ free) m)
owned-acquire p free k m h =
    Perm.trans (Perm.append (Perm.refl free) (values-insert-perm k p m h))
      (perm_middle free (values m))

owned-release :
    (p : ℕ) (free : List ℕ) (k : Text) (m : List (Text × ℕ))
    → lookup k m ≡ some p
    → Perm (owned (p ∷ free) (erase k m)) (owned free m)
owned-release p free k m h =
    Perm.trans (Perm.symm (perm_middle free (values (erase k m))))
      (Perm.append (Perm.refl free) (Perm.symm (values-erase-perm k p m h)))

module _ {D : Type 0} ⦃d : Double D⦄ where
  -- Rewriting a slot moves no slot.
  put-IsConserved :
      (n : ℕ) (s : Oms D) (p : ℕ) (o : PooledOrder D)
      → IsConserved n s
      → IsConserved n (record s { pool = put_slot s.pool p o })
  put-IsConserved n s p o v = record {
    partition = v.partition;
    sized = length-set s.pool.slots p o ∙ v.sized;
    fresh = v.fresh;
  }

  retire-IsConserved :
      (n : ℕ) (s : Oms D) (exoid oid : Text) (p : ℕ)
      → IsConserved n s
      → lookup oid s.orders ≡ some p
      → IsConserved n (retire s exoid oid p)
  unfolding retire release
  retire-IsConserved n s exoid oid p v found = record {
    partition = Perm.trans (owned-release p s.pool.free_list oid s.orders found) v.partition;
    sized = v.sized;
    fresh = IssuedBelow-erase s.seq oid s.orders v.fresh;
  }

  deliver-IsConserved :
      (n : ℕ) (s : Oms D) (f : Fill D) → IsConserved n s → IsConserved n (deliver s f)
  unfolding deliver
  deliver-IsConserved n s f v = elim (Bool-cases s.has_fill_cb) [
    | inl h ↦ rw h (record { partition = v.partition; sized = v.sized; fresh = v.fresh })
    | inr h ↦ rw h (record { partition = v.partition; sized = v.sized; fresh = v.fresh })
  ]

  on_order_ack-IsConserved :
      (n : ℕ) (s : Oms D) (exoid oid : Text)
      → IsConserved n s
      → IsConserved n (on_order_ack s exoid oid)
  unfolding on_order_ack
  on_order_ack-IsConserved n s exoid oid v = elim (Option-cases (lookup oid s.orders)) [
    | inl e ↦ rw e v
    | inr (p, e) ↦ rw e (record {
      partition = v.partition;
      sized = length-set s.pool.slots p _ ∙ v.sized;
      fresh = v.fresh;
    })
  ]

  book_fill-IsConserved :
      (n : ℕ) (s : Oms D) (exoid oid : Text) (p : ℕ) (f : Fill D)
      → IsConserved n s
      → lookup oid s.orders ≡ some p
      → IsConserved n (book_fill s exoid oid p f)
  unfolding book_fill
  book_fill-IsConserved n s exoid oid p f v found =
      let po = filled_slot (slot s.pool p) f in
      let w = put-IsConserved n s p po v in
      elim (Bool-cases (is_terminal po.sm)) [
        | inl h ↦ rw h (retire-IsConserved n _ exoid oid p w found)
        | inr h ↦ rw h w
      ]

  fill_unseen-IsConserved :
      (n : ℕ) (s : Oms D) (exoid : Text) (price : D) (qty : ℤ) (tid : Text) (now : ℕ)
      → IsConserved n s
      → IsConserved n (fill_unseen s exoid price qty tid now)
  unfolding fill_unseen
  fill_unseen-IsConserved n s exoid price qty tid now v =
      let oid = internal_or_suffix exoid (lookup exoid s.exchange_to_internal) in
      elim (Option-cases (lookup oid s.orders)) [
        | inl e ↦ rw e v
        | inr (p, e) ↦
            rw e (deliver-IsConserved n _ _ (book_fill-IsConserved n s exoid oid p _ v e))
      ]

  dedup-IsConserved :
      (n : ℕ) (s : Oms D) (f : FillDeduplicator)
      → IsConserved n s
      → IsConserved n (record s { dedup = f })
  dedup-IsConserved n s f v = record { partition = v.partition; sized = v.sized; fresh = v.fresh }

  pub on_fill-IsConserved :
      (n : ℕ) (s : Oms D) (exoid : Text) (price : D) (qty : ℤ) (tid : Text) (now : ℕ)
      → IsConserved n s
      → IsConserved n (on_fill s exoid price qty tid now)
  unfolding on_fill
  on_fill-IsConserved n s exoid price qty tid now v = elim (Bool-cases (is_empty tid)) [
    | inl h ↦ rw h (fill_unseen-IsConserved n s exoid price qty tid now v)
    | inr h ↦
        let w = dedup-IsConserved n s (try_mark s.dedup tid).0 v in
        elim (Bool-cases (try_mark s.dedup tid).1) [
          | inl k ↦ rw (h, k) (fill_unseen-IsConserved n _ exoid price qty tid now w)
          | inr k ↦ rw (h, k) w
        ]
  ]
