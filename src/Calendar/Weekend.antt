-- ===== src/Calendar/Weekend.antt =====
-- The loop of `WeekendCalendar.next_working_day` (src/planner/domain/calendar/rules.py) ends.
use planner_dev.Prelude.{
  ℕ, zero, suc, ◌+◌, ◌-◌, ◌≤◌, ◌<◌, ◌≡◌, refl, true, false, arith, ltb, List, [], ◌∷◌,
  if◌then◌else◌, ◌==◌, nat_eq, mem, Bool-cases, inl, inr,
}
use planner_dev.Calendar.{
  WeekendCalendar, weekday, is_working_day, skip_off, latest, next_working_day, weekend_calendar,
}
use planner_dev.Calendar.Laws.{IsCalendar}

mem-gt_latest : (d : ℕ) (hs : List ℕ) → latest hs < d → mem d hs ≡ false
unfolding latest
mem-gt_latest d [] h = refl
mem-gt_latest d (x ∷ hs) h = ground (arith, mem-gt_latest d hs)

-- How many days off may still stand in a row from `d`.
days_off : WeekendCalendar → ℕ → ℕ
days_off cal d =
    if ltb (latest cal.holidays) d
    then if weekday d == 5 then 2 else if weekday d == 6 then 1 else 0
    else latest cal.holidays - d + 3

days_off_falls :
    (cal : WeekendCalendar) (d : ℕ)
    → is_working_day cal d ≡ false
    → days_off cal (d + 1) < days_off cal d
unfolding days_off is_working_day
days_off_falls cal d h = ground (arith, mem-gt_latest d cal.holidays)

days_off-zero : (cal : WeekendCalendar) (d : ℕ) → days_off cal d ≡ 0 → is_working_day cal d ≡ true
unfolding days_off is_working_day
days_off-zero cal d h = ground (arith, mem-gt_latest d cal.holidays)

skip_off_works :
    (cal : WeekendCalendar) (fuel d : ℕ)
    → days_off cal d ≤ fuel
    → is_working_day cal (skip_off cal fuel d) ≡ true
unfolding skip_off
skip_off_works cal zero d h = days_off-zero cal d (omega arith)
skip_off_works cal (suc fuel) d h =
    ground (arith, days_off_falls cal d, skip_off_works cal fuel (d + 1))

skip_off-le : (cal : WeekendCalendar) (fuel d : ℕ) → d ≤ skip_off cal fuel d
unfolding skip_off
skip_off-le cal zero d = omega arith
skip_off-le cal (suc fuel) d = ground (arith, skip_off-le cal fuel (d + 1))

skip_off_first :
    (cal : WeekendCalendar) (fuel d k : ℕ)
    → d ≤ k
    → k < skip_off cal fuel d
    → is_working_day cal k ≡ false
unfolding skip_off
skip_off_first cal zero d k h l = absurd (omega arith)
skip_off_first cal (suc fuel) d k h l = elim (Bool-cases (is_working_day cal d)) [
  | inl w ↦ absurd (ground arith)
  | inr off ↦ ground (arith, skip_off_first cal fuel (d + 1) k)
]

days_off-le : (cal : WeekendCalendar) (d : ℕ) → days_off cal d ≤ latest cal.holidays + 4
unfolding days_off
days_off-le cal d = ground arith

-- For every holiday list, the loop of `next_working_day` ends within its fuel, on the first
-- working day strictly after the given day.
pub next_working_day-IsCalendar : (cal : WeekendCalendar) → IsCalendar (weekend_calendar cal)
unfolding next_working_day
next_working_day-IsCalendar cal = record {
  later = λ d. omega (arith, skip_off-le cal (latest cal.holidays + 4) (d + 1));
  works = λ d. skip_off_works cal (latest cal.holidays + 4) (d + 1) (days_off-le cal (d + 1));
  first = λ d k h. skip_off_first cal (latest cal.holidays + 4) (d + 1) k (omega arith);
}
