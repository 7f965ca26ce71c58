-- ===== src/Risk/MarketHours.antt =====
-- `MarketHours::is_open` of cpp/risk/pre_trade_risk.hpp. The fields of the UTC time that `gmtime_r`
-- fills in are arguments.
use quantforge_engine.Prelude.{
  ℕ, ◌+◌, ◌-◌, ◌*◌, ◌%◌, ◌≤◌, ◌<◌, ◌≡◌, ◌↔◌, ◌≢◌, Bool, true, false, ◌||◌, ◌&&◌, arith, leb, ltb,
  ◌==◌, if◌then◌else◌, ◌⊎◌, inl, inr, Bool-cases, ltb→lt,
}

-- The carry of the code: `if (m >= 60) { h = (h + 1) % 24; m -= 60; }`.
hhmm_of : ℕ → ℕ → ℕ
hhmm_of h m = if leb 60 m then ((h + 1) % 24) * 100 + (m - 60) else h * 100 + m

unfoldable pub is_open : ℕ → ℕ → ℕ → Bool
unfolding hhmm_of
is_open tm_hour tm_min tm_wday =
    let hhmm = hhmm_of ((tm_hour + 5) % 24) ((tm_min + 30) % 60) in
    if tm_wday == 0 || tm_wday == 6 then false else leb 915 hhmm && ltb hhmm 1530

-- Minutes since midnight in IST, which is UTC + 5:30.
abbrev pub ist_minutes : ℕ → ℕ → ℕ
ist_minutes tm_hour tm_min = (tm_hour * 60 + tm_min + 330) % 1440

abbrev pub IsWeekday : ℕ → Type 0
IsWeekday tm_wday = (tm_wday ≢ 0) × (tm_wday ≢ 6)

-- In the first half of every UTC hour, on any UTC weekday, the market is open exactly from 09:15 to
-- 15:30 IST.
pub is_open_first_half :
    (h m wday : ℕ)
    → h < 24
    → m < 30
    → (is_open h m wday ≡ true)
      ↔ (IsWeekday wday × (555 ≤ ist_minutes h m) × (ist_minutes h m < 930))
unfolding is_open
is_open_first_half h m wday hh hm = (λ e. ground arith, λ e. ground arith)

-- In the second half the carry from the minutes is lost, so the code is an hour late: the market
-- counts as open exactly from 10:15 to 16:30 IST.
pub is_open_second_half :
    (h m wday : ℕ)
    → h < 24
    → 30 ≤ m
    → m < 60
    → (is_open h m wday ≡ true)
      ↔ (IsWeekday wday × (615 ≤ ist_minutes h m) × (ist_minutes h m < 990))
unfolding is_open
is_open_second_half h m wday hh lo hm = (λ e. ground arith, λ e. ground arith)

-- Both halves: on UTC weekdays, from 09:15 to 15:30 IST in the first half of a UTC hour, and from 10:15
-- to 16:30 IST in the second.
abbrev pub CountsAsOpen : ℕ → ℕ → ℕ → Type 0
CountsAsOpen tm_hour tm_min tm_wday =
    IsWeekday tm_wday
    × (((tm_min < 30) × (555 ≤ ist_minutes tm_hour tm_min) × (ist_minutes tm_hour tm_min < 930))
        ⊎ ((30 ≤ tm_min) × (615 ≤ ist_minutes tm_hour tm_min) × (ist_minutes tm_hour tm_min < 990)))

lt-or-le : (m n : ℕ) → (m < n) ⊎ (n ≤ m)
lt-or-le m n = elim (Bool-cases (ltb m n)) [
  | inl h ↦ inl (ltb→lt m n h)
  | inr h ↦ inr (ground arith)
]

pub is_open_lem :
    (h m wday : ℕ) → h < 24 → m < 60 → (is_open h m wday ≡ true) ↔ CountsAsOpen h m wday
is_open_lem h m wday hh hm = elim (lt-or-le m 30) [
  | inl early ↦
      let e = is_open_first_half h m wday hh early in
      (
        λ o. let (d, lo, hi) = e.0 o in (d, inl (early, lo, hi)),
        λ (d, c). elim c [
          | inl (_, lo, hi) ↦ e.1 (d, lo, hi)
          | inr (late, _, _) ↦ absurd (omega arith)
        ],
      )
  | inr late ↦
      let e = is_open_second_half h m wday hh late hm in
      (
        λ o. let (d, lo, hi) = e.0 o in (d, inr (late, lo, hi)),
        λ (d, c). elim c [
          | inl (early, _, _) ↦ absurd (omega arith)
          | inr (_, lo, hi) ↦ e.1 (d, lo, hi)
        ],
      )
]
