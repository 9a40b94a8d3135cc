-- ===== src/Calendar.antt =====
-- Working days: src/planner/domain/calendar/ports.py and rules.py. A `date` is its ordinal, as
-- `date.toordinal` gives it, so `day + timedelta(days=1)` is the next number.
pub mod Laws
pub mod Weekend
pub mod Counting
pub mod Working
use planner_dev.Prelude.{
  ℕ, zero, suc, ◌+◌, ◌-◌, ◌%◌, max, Bool, true, false, not, ◌&&◌, List, [], ◌∷◌, leb, ltb,
  if◌then◌else◌, Result, ok, err, value_error, nat_eq, mem,
}

-- The protocol `WorkingCalendar`, on which the solver depends.
pub record WorkingCalendar : Type 0 where
  pub is_working_day : ℕ → Bool
  pub next_working_day : ℕ → ℕ
  pub business_days_between : ℕ → ℕ → ℕ

-- The class `WeekendCalendar`.
pub record WeekendCalendar : Type 0 where
  pub holidays : List ℕ

-- `date.weekday()`: Monday is 0, and the first ordinal is a Monday.
abbrev pub weekday : ℕ → ℕ
weekday day = (day + 6) % 7

abbrev pub weekend : List ℕ
weekend = 5 ∷ 6 ∷ []

unfoldable pub is_working_day : WeekendCalendar → ℕ → Bool
is_working_day cal day = not (mem (weekday day) weekend) && not (mem day cal.holidays)

-- `while not self.is_working_day(d): d += timedelta(days=1)`, with fuel.
unfoldable pub skip_off : WeekendCalendar → ℕ → ℕ → ℕ
skip_off cal zero d = d
skip_off cal (suc fuel) d = elim (is_working_day cal d) [
  | true ↦ d
  | false ↦ skip_off cal fuel (d + 1)
]

-- The last holiday, 0 without any.
unfoldable pub latest : List ℕ → ℕ
latest [] = 0
latest (h ∷ hs) = max h (latest hs)

unfoldable pub next_working_day : WeekendCalendar → ℕ → ℕ
unfolding skip_off latest
next_working_day cal day = skip_off cal (latest cal.holidays + 4) (day + 1)

-- `while d < b`, with as many rounds as there are days, and the count so far.
unfoldable pub count_days : WeekendCalendar → ℕ → ℕ → ℕ → ℕ → ℕ
count_days cal zero d b n = n
count_days cal (suc fuel) d b n =
    let rest = count_days cal fuel (d + 1) b (if is_working_day cal d then n + 1 else n) in
    if ltb d b then rest else n

unfoldable pub business_days_between : WeekendCalendar → ℕ → ℕ → ℕ
unfolding count_days
business_days_between cal a b = if leb b a then 0 else count_days cal (b - a) a b 0

-- A `WeekendCalendar` seen through the protocol.
abbrev pub weekend_calendar : WeekendCalendar → WorkingCalendar
weekend_calendar cal = record {
  is_working_day = is_working_day cal;
  next_working_day = next_working_day cal;
  business_days_between = business_days_between cal;
}

unfoldable pub first_working_day : WorkingCalendar → ℕ → ℕ
first_working_day cal start = if cal.is_working_day start then start else cal.next_working_day start

-- `for _ in range(n): day = cal.next_working_day(day)`
unfoldable pub advance : WorkingCalendar → ℕ → ℕ → ℕ
advance cal zero day = day
advance cal (suc n) day = advance cal n (cal.next_working_day day)

unfoldable pub nth_working_day : WorkingCalendar → ℕ → ℕ → Result ℕ
unfolding first_working_day advance
nth_working_day cal start n =
    if ltb n 1 then err value_error else ok (advance cal (n - 1) (first_working_day cal start))
