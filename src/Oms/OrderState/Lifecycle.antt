-- ===== src/Oms/OrderState/Lifecycle.antt =====
-- What the order state machine of cpp/oms/order_state.hpp lets an order live through.
use quantforge_engine.Prelude.{
  ℕ, suc, ◌+◌, ◌≤◌, ◌<◌, ◌≡◌, refl, ◌⊎◌, inl, inr, true, false, List, [], ◌∷◌, arith, if◌then◌else◌,
  Bool-cases, ap,
}
use quantforge_engine.Types.{OrderStatus, is_status}
use quantforge_engine.Oms.OrderState.{is_legal, transition_at, is_terminal}

-- The moves that an order may make, one constructor for each arrow.
pub data Move : OrderStatus → OrderStatus → Type 0 where
  acknowledge : Move OrderStatus.pending OrderStatus.opened
  refuse : Move OrderStatus.pending OrderStatus.rejected
  withdraw : Move OrderStatus.pending OrderStatus.cancelled
  park : Move OrderStatus.pending OrderStatus.trigger_pending
  trigger : Move OrderStatus.trigger_pending OrderStatus.opened
  withdraw_parked : Move OrderStatus.trigger_pending OrderStatus.cancelled
  fill : Move OrderStatus.opened OrderStatus.complete
  fill_part : Move OrderStatus.opened OrderStatus.partial
  cancel_open : Move OrderStatus.opened OrderStatus.cancelled
  fill_rest : Move OrderStatus.partial OrderStatus.complete
  cancel_rest : Move OrderStatus.partial OrderStatus.cancelled

Move-is_legal : {s t : OrderStatus} → Move s t → is_legal s t ≡ true
unfolding is_legal
Move-is_legal acknowledge = refl
Move-is_legal refuse = refl
Move-is_legal withdraw = refl
Move-is_legal park = refl
Move-is_legal trigger = refl
Move-is_legal withdraw_parked = refl
Move-is_legal fill = refl
Move-is_legal fill_part = refl
Move-is_legal cancel_open = refl
Move-is_legal fill_rest = refl
Move-is_legal cancel_rest = refl

is_legal-Move : (s t : OrderStatus) → is_legal s t ≡ true → Move s t
unfolding is_legal
is_legal-Move OrderStatus.pending OrderStatus.opened h = acknowledge
is_legal-Move OrderStatus.pending OrderStatus.rejected h = refuse
is_legal-Move OrderStatus.pending OrderStatus.cancelled h = withdraw
is_legal-Move OrderStatus.pending OrderStatus.trigger_pending h = park
is_legal-Move OrderStatus.trigger_pending OrderStatus.opened h = trigger
is_legal-Move OrderStatus.trigger_pending OrderStatus.cancelled h = withdraw_parked
is_legal-Move OrderStatus.opened OrderStatus.complete h = fill
is_legal-Move OrderStatus.opened OrderStatus.partial h = fill_part
is_legal-Move OrderStatus.opened OrderStatus.cancelled h = cancel_open
is_legal-Move OrderStatus.partial OrderStatus.complete h = fill_rest
is_legal-Move OrderStatus.partial OrderStatus.cancelled h = cancel_rest
is_legal-Move _ _ h = absurd (cc)

-- How far along its life an order is.
abbrev pub rank : OrderStatus → ℕ
rank OrderStatus.pending = 0
rank OrderStatus.trigger_pending = 1
rank OrderStatus.opened = 2
rank OrderStatus.partial = 3
rank OrderStatus.complete = 4
rank OrderStatus.cancelled = 4
rank OrderStatus.rejected = 4

Move-rank : {s t : OrderStatus} → Move s t → rank s < rank t
Move-rank acknowledge = omega arith
Move-rank refuse = omega arith
Move-rank withdraw = omega arith
Move-rank park = omega arith
Move-rank trigger = omega arith
Move-rank withdraw_parked = omega arith
Move-rank fill = omega arith
Move-rank fill_part = omega arith
Move-rank cancel_open = omega arith
Move-rank fill_rest = omega arith
Move-rank cancel_rest = omega arith

rank-le : (s : OrderStatus) → rank s ≤ 4
rank-le OrderStatus.pending = omega arith
rank-le _ = omega arith

terminal-rank : (s : OrderStatus) → is_terminal s ≡ true → ¬ (rank s < 4)
unfolding is_terminal
terminal-rank OrderStatus.pending h k = cc
terminal-rank _ h k = ground arith

is_status-eq : (s t : OrderStatus) → is_status s t ≡ true → s ≡ t
is_status-eq OrderStatus.pending t h = ground arith
is_status-eq _ t h = ground arith

is_status_refl : (s : OrderStatus) → is_status s s ≡ true
is_status_refl OrderStatus.pending = refl
is_status_refl _ = refl

Move-is_status : {s t : OrderStatus} → Move s t → is_status s t ≡ false
Move-is_status {s} {t} m = elim (Bool-cases (is_status s t)) [
  | inr e ↦ e
  | inl e ↦ let up = Move-rank m in let same = ap rank (is_status-eq s t e) in absurd (omega arith)
]

Move-not-terminal : {s t : OrderStatus} → Move s t → ¬ (is_terminal s ≡ true)
unfolding is_terminal
Move-not-terminal {s} {t} m h =
    let up = Move-rank m in let top = rank-le t in terminal-rank s h (omega arith)

-- Whatever another thread did between the load and the exchange of `transition`: a call that
-- returns true made a legal move from the status of that moment to the one asked for, and a call
-- that returns false left the status alone.
pub transition_at-Move :
    (loaded current to : OrderStatus)
    → ((transition_at loaded current to ≡ (to, true)) × Move current to)
      ⊎ (transition_at loaded current to ≡ (current, false))
unfolding transition_at
transition_at-Move loaded current to = elim (Bool-cases (is_legal loaded to)) [
  | inr illegal ↦ inr (rw illegal)
  | inl legal ↦ elim (Bool-cases (is_status loaded current)) [
    | inr moved ↦ inr (rw (legal, moved))
    | inl same ↦
        inl (
          rw (legal, same),
          rw (← is_status-eq loaded current same) (is_legal-Move loaded to legal),
        )
  ]
]

-- A sequence of calls by any threads: what each had loaded, and what it asks for. The second part
-- counts the calls that succeed.
unfoldable pub attempts : OrderStatus → List (OrderStatus × OrderStatus) → OrderStatus × ℕ
attempts s [] = (s, 0)
attempts s ((loaded, to) ∷ rest) =
    let (s', done) = transition_at loaded s to in
    let (t, n) = attempts s' rest in (t, if done then suc n else n)

-- Over any interleaving of calls, the calls that succeed fit between the ranks of the first and the
-- last status: at most four ever do.
pub attempts-rank :
    (s : OrderStatus) (calls : List (OrderStatus × OrderStatus))
    → let (t, n) = attempts s calls in (rank s + n ≤ rank t) × (n ≤ 4)
unfolding attempts
attempts-rank s [] = (omega arith, omega arith)
attempts-rank s ((loaded, to) ∷ rest) = elim (transition_at-Move loaded s to) [
  | inl (e, m) ↦ rw e (
      let ih = attempts-rank to rest in
      let up = Move-rank m in let top = rank-le (attempts to rest).0 in (omega arith, omega arith))
  | inr e ↦ rw e (attempts-rank s rest)
]

-- A terminal status is final: over any interleaving of calls none succeeds and the status stays.
pub attempts_terminal :
    (s : OrderStatus) (calls : List (OrderStatus × OrderStatus))
    → is_terminal s ≡ true
    → attempts s calls ≡ (s, 0)
unfolding attempts
attempts_terminal s [] h = refl
attempts_terminal s ((loaded, to) ∷ rest) h = elim (transition_at-Move loaded s to) [
  | inl (e, m) ↦ absurd (Move-not-terminal m h)
  | inr e ↦ rw (e, attempts_terminal s rest h)
]

-- Of two threads that loaded the same status and ask for legal moves, the first exchange succeeds
-- and the second fails, whatever they ask for.
pub race :
    (s a b : OrderStatus)
    → is_legal s a ≡ true
    → is_legal s b ≡ true
    → (transition_at s s a ≡ (a, true)) × (transition_at s a b ≡ (a, false))
unfolding transition_at
race s a b h k =
    let ne : is_status s a ≡ false = Move-is_status (is_legal-Move s a h) in
    (rw (h, is_status_refl s), rw (k, ne))
