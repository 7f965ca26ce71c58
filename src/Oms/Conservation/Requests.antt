-- ===== src/Oms/Conservation/Requests.antt =====
-- The calls of cpp/oms/oms.cpp that take or return slots of the pool.
use mathlib.Core.List.Perm
use native.Mathlib.Nat.{mod-eq_of_lt}
use quantforge_engine.Prelude.{
  ℕ, ◌+◌, ◌%◌, ◌^◌, ◌<◌, ◌≡◌, refl, ◌∙◌, inl, inr, List, [], ◌∷◌, Option, none, some, arith,
  Bool-cases, if_elim, length-set, lookup, set,
}
use quantforge_engine.Prelude.Text.{Text, text_eq}
use quantforge_engine.Doubles.{Double}
use quantforge_engine.Types.{OrderRequest}
use quantforge_engine.Oms.Pool.{clean, slot, acquire, acquire_from, release}
use quantforge_engine.Oms.Manager.{
  Oms, Call, cancel_order, exchange_id_of, is_working, call, order_id_text, internal_or_same,
  is_empty,
}
use quantforge_engine.Oms.Requests.{
  enter, route, submit, submit_with, cancel, cancel_found, on_reject, reject_found, on_place_error,
  release_found, cancel_each, cancel_all_open, reset_for_eod,
}
use quantforge_engine.Oms.OrderIds.{issued, issued-order_id_text}
use quantforge_engine.Oms.Conservation.{
  IsConserved, IssuedBelow-insert, IssuedBelow-erase, IssuedBelow-mono, lookup_unissued,
  owned-acquire, owned-release, on_order_ack-IsConserved, on_fill-IsConserved,
}

module _ {D : Type 0} ⦃d : Double D⦄ where
  call-IsConserved : (n : ℕ) (s : Oms D) (c : Call D) → IsConserved n s → IsConserved n (call s c)
  call-IsConserved n s c v = record { partition = v.partition; sized = v.sized; fresh = v.fresh }

  route-IsConserved :
      (n : ℕ) (s : Oms D) (req : OrderRequest D) (oid : Text) (now : ℕ)
      → IsConserved n s
      → IsConserved n (route s req oid now)
  unfolding route
  route-IsConserved n s req oid now v =
      if_elim (IsConserved n) s.paper_mode _ _
        (λ _. on_fill-IsConserved n _ _ _ _ _ now (on_order_ack-IsConserved n s _ oid v))
        (λ _. call-IsConserved n s _ v)

  enter-IsConserved :
      (n : ℕ) (s : Oms D) (req : OrderRequest D) (ts now p : ℕ) (rest : List ℕ)
      → s.seq + 1 < 2 ^ 64
      → s.pool.free_list ≡ p ∷ rest
      → IsConserved n s
      → IsConserved n (
          enter s req
            (order_id_text ts s.seq)
            now
            p
            (record { slots = set s.pool.slots p clean; free_list = rest }))
  unfolding enter
  enter-IsConserved n s req ts now p rest small free v =
      let oid = order_id_text ts s.seq in
      let id : issued oid ≡ s.seq = issued-order_id_text ts s.seq (omega arith) in
      let new : lookup oid s.orders ≡ none = lookup_unissued s.seq oid s.orders v.fresh id in
      let next : (s.seq + 1) % 2 ^ 64 ≡ s.seq + 1 = mod-eq_of_lt small in
      record {
        partition = Perm.trans (owned-acquire p rest oid s.orders new) (rw free at v.partition);
        sized = length-set _ p _ ∙ length-set s.pool.slots p clean ∙ v.sized;
        fresh = rw next (
            IssuedBelow-insert (s.seq + 1) oid p s.orders (omega arith)
              (IssuedBelow-mono s.seq (s.seq + 1) s.orders (omega arith) v.fresh));
      }

  submit_with-IsConserved :
      (n : ℕ) (s : Oms D) (req : OrderRequest D) (ts now fill_ns : ℕ) (free : List ℕ)
      → s.seq + 1 < 2 ^ 64
      → s.pool.free_list ≡ free
      → IsConserved n s
      → IsConserved n (submit_with s req ts now fill_ns (acquire_from s.pool free)).0
  unfolding submit_with acquire_from
  submit_with-IsConserved n s req ts now fill_ns [] small e v = v
  submit_with-IsConserved n s req ts now fill_ns (p ∷ rest) small e v =
      route-IsConserved n _ req _ fill_ns (enter-IsConserved n s req ts now p rest small e v)

  pub submit-IsConserved :
      (n : ℕ) (s : Oms D) (req : OrderRequest D) (ts now fill_ns : ℕ)
      → s.seq + 1 < 2 ^ 64
      → IsConserved n s
      → IsConserved n (submit s req ts now fill_ns).0
  unfolding submit acquire
  submit-IsConserved n s req ts now fill_ns small v =
      submit_with-IsConserved n s req ts now fill_ns s.pool.free_list small refl v

  cancel_found-IsConserved :
      (n : ℕ) (s : Oms D) (oid : Text) (o : Option ℕ)
      → IsConserved n s
      → IsConserved n (cancel_found s oid o).0
  unfolding cancel_found
  cancel_found-IsConserved n s oid none v = v
  cancel_found-IsConserved n s oid (some p) v =
      let exchange_oid = exchange_id_of oid s.exchange_to_internal in
      elim (Bool-cases (is_working (slot s.pool p).sm)) [
        | inr idle ↦ rw idle v
        | inl working ↦ elim (Bool-cases (is_empty exchange_oid)) [
          | inl unknown ↦ rw (working, unknown) v
          | inr known ↦ rw (working, known) (call-IsConserved n s (cancel_order exchange_oid) v)
        ]
      ]

  pub cancel-IsConserved :
      (n : ℕ) (s : Oms D) (oid : Text) → IsConserved n s → IsConserved n (cancel s oid).0
  unfolding cancel
  cancel-IsConserved n s oid v = cancel_found-IsConserved n s oid (lookup oid s.orders) v

  cancel_each-IsConserved :
      (n : ℕ) (s : Oms D) (oids : List Text) → IsConserved n s → IsConserved n (cancel_each s oids)
  unfolding cancel_each
  cancel_each-IsConserved n s [] v = v
  cancel_each-IsConserved n s (oid ∷ oids) v =
      cancel_each-IsConserved n (cancel s oid).0 oids (cancel-IsConserved n s oid v)

  pub cancel_all_open-IsConserved :
      (n : ℕ) (s : Oms D) → IsConserved n s → IsConserved n (cancel_all_open s)
  unfolding cancel_all_open
  cancel_all_open-IsConserved n s v = cancel_each-IsConserved n s _ v

  reject_found-IsConserved :
      (n : ℕ) (s : Oms D) (exoid oid : Text) (o : Option ℕ)
      → lookup oid s.orders ≡ o
      → IsConserved n s
      → IsConserved n (reject_found s exoid oid o)
  unfolding reject_found release
  reject_found-IsConserved n s exoid oid none e v = v
  reject_found-IsConserved n s exoid oid (some p) e v = record {
    partition = Perm.trans (owned-release p s.pool.free_list oid s.orders e) v.partition;
    sized = length-set s.pool.slots p _ ∙ v.sized;
    fresh = IssuedBelow-erase s.seq oid s.orders v.fresh;
  }

  pub on_reject-IsConserved :
      (n : ℕ) (s : Oms D) (exoid reason : Text)
      → IsConserved n s
      → IsConserved n (on_reject s exoid reason)
  unfolding on_reject
  on_reject-IsConserved n s exoid reason v =
      let oid = internal_or_same exoid (lookup exoid s.exchange_to_internal) in
      let w = reject_found-IsConserved n s exoid oid _ refl v in
      if_elim (IsConserved n) s.has_reject_cb _ _ (λ _. call-IsConserved n _ _ w) (λ _. w)

  release_found-IsConserved :
      (n : ℕ) (s : Oms D) (oid : Text) (o : Option ℕ)
      → lookup oid s.orders ≡ o
      → IsConserved n s
      → IsConserved n (release_found s oid o)
  unfolding release_found release
  release_found-IsConserved n s oid none e v = v
  release_found-IsConserved n s oid (some p) e v = record {
    partition = Perm.trans (owned-release p s.pool.free_list oid s.orders e) v.partition;
    sized = v.sized;
    fresh = IssuedBelow-erase s.seq oid s.orders v.fresh;
  }

  pub on_place_error-IsConserved :
      (n : ℕ) (s : Oms D) (oid reason : Text)
      → IsConserved n s
      → IsConserved n (on_place_error s oid reason)
  unfolding on_place_error
  on_place_error-IsConserved n s oid reason v =
      release_found-IsConserved n _ oid _ refl (on_reject-IsConserved n s [] reason v)

  pub reset_for_eod-IsConserved :
      (n : ℕ) (s : Oms D) → IsConserved n s → IsConserved n (reset_for_eod s)
  unfolding reset_for_eod
  reset_for_eod-IsConserved n s v = record {
    partition = v.partition;
    sized = v.sized;
    fresh = v.fresh;
  }
