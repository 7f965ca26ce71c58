-- ===== src/Oms/Conservation/Histories.antt =====
-- Any history of calls of the order manager of cpp/oms/oms.cpp, from its construction on.
use mathlib.Core.List.{
  Perm, Nodup, Permᴰ, mem-cons, not-mem-nil, Mem, Nodup-cons, Nodup-nil, append-nil,
}
use mathlib.Core.List.Perm
use mathlib.Core.Logic.{∥∥₁_elim}
use mathlib.Core.Logic.Or
use native.Mathlib.Bridge.{le_prop}
use native.Mathlib.Nat.{ℕ_set}
use quantforge_engine.Prelude.{
  ℕ, zero, suc, ◌+◌, ◌^◌, ◌<◌, ◌≡◌, refl, ◌∙◌, ap, Bool, List, [], ◌∷◌, arith, length,
  length-replicate,
}
use quantforge_engine.Prelude.Text.{Text}
use quantforge_engine.Prelude.Int.{ℤ}
use quantforge_engine.Doubles.{Double}
use quantforge_engine.Types.{OrderRequest}
use quantforge_engine.Oms.Pool.{indices, pool_init, available}
use quantforge_engine.Oms.Manager.{Oms, on_order_ack, on_fill}
use quantforge_engine.Oms.Requests.{
  submit, cancel, on_reject, on_place_error, cancel_all_open, reset_for_eod, oms_init,
}
use quantforge_engine.Oms.Conservation.{
  IsConserved, owned, on_order_ack-IsConserved, on_fill-IsConserved,
}
use quantforge_engine.Oms.Conservation.Requests.{
  submit-IsConserved, cancel-IsConserved, on_reject-IsConserved, on_place_error-IsConserved,
  cancel_all_open-IsConserved, reset_for_eod-IsConserved,
}

module _ {D : Type 0} ⦃d : Double D⦄ where
  -- One call, by a strategy, the broker or the main thread. The 2 ^ 64 - 1 first submissions of a
  -- session are covered: then the sequence number would wrap.
  pub data Step : Oms D → Oms D → Type 0 where
    submits :
        (s : Oms D) (req : OrderRequest D) (ts now fill_ns : ℕ)
        → s.seq + 1 < 2 ^ 64
        → Step s (submit s req ts now fill_ns).0
    cancels : (s : Oms D) (oid : Text) → Step s (cancel s oid).0
    acks : (s : Oms D) (exoid oid : Text) → Step s (on_order_ack s exoid oid)
    fills :
        (s : Oms D) (exoid : Text) (price : D) (qty : ℤ) (tid : Text) (now : ℕ)
        → Step s (on_fill s exoid price qty tid now)
    rejects : (s : Oms D) (exoid reason : Text) → Step s (on_reject s exoid reason)
    place_fails : (s : Oms D) (oid reason : Text) → Step s (on_place_error s oid reason)
    cancels_all : (s : Oms D) → Step s (cancel_all_open s)

  -- The calls of one day.
  pub data Session (s : Oms D) : Oms D → Type 0 where
    opening : Session s s
    and_then : {t u : Oms D} → Session s t → Step t u → Session s u

  -- Any number of days, with the reset between them.
  pub data Reach (s : Oms D) : Oms D → Type 0 where
    here : Reach s s
    next : {t u : Oms D} → Reach s t → Step t u → Reach s u
    next_day : {t : Oms D} → Reach s t → Reach s (reset_for_eod t)

  Step-IsConserved : (n : ℕ) {s t : Oms D} → Step s t → IsConserved n s → IsConserved n t
  Step-IsConserved n (submits s req ts now fill_ns h) v =
      submit-IsConserved n s req ts now fill_ns h v
  Step-IsConserved n (cancels s oid) v = cancel-IsConserved n s oid v
  Step-IsConserved n (acks s exoid oid) v = on_order_ack-IsConserved n s exoid oid v
  Step-IsConserved n (fills s exoid price qty tid now) v =
      on_fill-IsConserved n s exoid price qty tid now v
  Step-IsConserved n (rejects s exoid reason) v = on_reject-IsConserved n s exoid reason v
  Step-IsConserved n (place_fails s oid reason) v = on_place_error-IsConserved n s oid reason v
  Step-IsConserved n (cancels_all s) v = cancel_all_open-IsConserved n s v

  Reach-IsConserved : (n : ℕ) {s t : Oms D} → Reach s t → IsConserved n s → IsConserved n t
  Reach-IsConserved n here v = v
  Reach-IsConserved n (next r st) v = Step-IsConserved n st (Reach-IsConserved n r v)
  Reach-IsConserved n (next_day r) v = reset_for_eod-IsConserved n _ (Reach-IsConserved n r v)

  init-IsConserved :
      (n queue : ℕ) (paper has_fill has_reject : Bool)
      → IsConserved n (oms_init {D = D} n queue paper has_fill has_reject)
  unfolding oms_init pool_init
  init-IsConserved n queue paper has_fill has_reject = record {
    partition = rw append-nil (Perm.refl (indices n));
    sized = length-replicate n _;
    fresh = tt;
  }

-- In the native numbers.
length-Permᴰ : {xs ys : List ℕ} → Permᴰ xs ys → length xs ≡ length ys
length-Permᴰ Permᴰ.nil = refl
length-Permᴰ (Permᴰ.cons e p) = ap suc (length-Permᴰ p)
length-Permᴰ (Permᴰ.swap e f) = refl
length-Permᴰ (Permᴰ.trans p q) = length-Permᴰ p ∙ length-Permᴰ q

length-Perm : {xs ys : List ℕ} → Perm xs ys → length xs ≡ length ys
length-Perm {xs} {ys} p = ∥∥₁_elim p (ℕ_set _ _) length-Permᴰ

length-owned :
    (free : List ℕ) (orders : List (Text × ℕ))
    → length free + length orders ≡ length (owned free orders)
length-owned [] [] = omega arith
length-owned [] (o ∷ orders) = omega (arith, length-owned [] orders)
length-owned (p ∷ free) orders = omega (arith, length-owned free orders)

length-indices : (n : ℕ) → length (indices n) ≡ n
length-indices zero = refl
length-indices (suc n) = ap suc (length-indices n)

indices-lt : (n a : ℕ) → Mem a (indices n) → a < n
indices-lt zero a m = absurd (not-mem-nil m)
indices-lt (suc n) a m =
    Or.elim le_prop (mem-cons.0 m) (λ e. omega arith) (λ r. let h = indices-lt n a r in omega arith)

indices-Nodup : (n : ℕ) → Nodup (indices n)
indices-Nodup zero = Nodup-nil
indices-Nodup (suc n) =
    Nodup-cons.1 ((λ m. let h = indices-lt n n m in absurd (omega arith)), indices-Nodup n)

module _ {D : Type 0} ⦃d : Double D⦄ where
  -- After any history of calls from the construction with n slots, no slot is both free and held nor
  -- held by two orders, and the free slots and the live orders make up the n slots: no order is
  -- ever released twice and none leaks.
  pub pool-Reach :
      (n queue : ℕ) (paper has_fill has_reject : Bool) {s : Oms D}
      → Reach (oms_init n queue paper has_fill has_reject) s
      → Nodup (owned s.pool.free_list s.orders) × (available s.pool + length s.orders ≡ n)
  unfolding available
  pool-Reach n queue paper has_fill has_reject {s} r =
      let v = Reach-IsConserved n r (init-IsConserved n queue paper has_fill has_reject) in
      (
        Perm.nodup (Perm.symm v.partition) (indices-Nodup n),
        (length-owned s.pool.free_list s.orders ∙ (length-Perm v.partition ∙ length-indices n)),
      )
