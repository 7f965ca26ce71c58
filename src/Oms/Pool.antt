-- ===== src/Oms/Pool.antt =====
-- cpp/oms/order_pool.hpp: OrderPool. A `PooledOrder *` is the index of its slot in `pool_`.
use quantforge_engine.Prelude.{
  ℕ, zero, suc, Option, none, some, List, [], ◌∷◌, length, get_or, set, replicate,
}
use quantforge_engine.Doubles.{Double}
use quantforge_engine.Types.{Order, OrderStatus, blank_order}

pub record PooledOrder (D : Type 0) : Type 0 where
  pub order : Order D
  pub sm : OrderStatus  -- the status_ of the OrderStateMachine

-- The top of the stack `free_list_` is the head.
pub record OrderPool (D : Type 0) : Type 0 where
  pub slots : List (PooledOrder D)
  pub free_list : List ℕ

-- The indices below n, the last one on top.
abbrev pub indices : ℕ → List ℕ
indices zero = []
indices (suc n) = n ∷ indices n

module _ {D : Type 0} ⦃d : Double D⦄ where
  abbrev pub clean : PooledOrder D
  clean = record { order = blank_order; sm = OrderStatus.pending }

  unfoldable pub pool_init : ℕ → OrderPool D
  pool_init pool_size = record { slots = replicate pool_size clean; free_list = indices pool_size }

  -- The slot that a pointer names.
  abbrev pub slot : OrderPool D → ℕ → PooledOrder D
  slot pool p = get_or pool.slots p clean

  abbrev pub put_slot : OrderPool D → ℕ → PooledOrder D → OrderPool D
  put_slot pool p o = record pool { slots = set pool.slots p o }

  -- `acquire` at the contents of the free list.
  unfoldable pub acquire_from : OrderPool D → List ℕ → Option (ℕ × OrderPool D)
  acquire_from pool [] = none
  acquire_from pool (p ∷ rest) =
      some (p, record { slots = set pool.slots p clean; free_list = rest })

  -- `none` is nullptr.
  unfoldable pub acquire : OrderPool D → Option (ℕ × OrderPool D)
  unfolding acquire_from
  acquire pool = acquire_from pool pool.free_list

module _ {D : Type 0} where
  -- The pool's own clients never pass nullptr; `none` is that argument.
  unfoldable pub release : OrderPool D → Option ℕ → OrderPool D
  release pool none = pool
  release pool (some p) = record pool { free_list = p ∷ pool.free_list }

  unfoldable pub available : OrderPool D → ℕ
  available pool = length pool.free_list
