-- ===== src/Calendar/Laws.antt =====
-- What the solver relies on in a calendar, and what follows for the helpers of
-- src/planner/domain/calendar/rules.py.
use planner_dev.Prelude.{ℕ, zero, suc, ◌+◌, ◌-◌, ◌≤◌, ◌<◌, ◌≡◌, true, false, arith, ok}
use planner_dev.Calendar.{WorkingCalendar, first_working_day, advance, nth_working_day}

-- `next_working_day` is the first working day after the given day.
pub record IsCalendar (cal : WorkingCalendar) : Type 0 where
  pub later : (d : ℕ) → d < cal.next_working_day d
  pub works : (d : ℕ) → cal.is_working_day (cal.next_working_day d) ≡ true
  pub first : (d k : ℕ) → d < k → k < cal.next_working_day d → cal.is_working_day k ≡ false

module _ {cal : WorkingCalendar} (laws : IsCalendar cal) where
  pub first_working_day-le : (d : ℕ) → d ≤ first_working_day cal d
  unfolding first_working_day
  first_working_day-le d = ground (arith, laws.later d)

  pub first_working_day_works : (d : ℕ) → cal.is_working_day (first_working_day cal d) ≡ true
  unfolding first_working_day
  first_working_day_works d = ground (arith, laws.works d)

  -- No working day is passed over.
  pub first_working_day_first :
      (d k : ℕ) → d ≤ k → cal.is_working_day k ≡ true → first_working_day cal d ≤ k
  unfolding first_working_day
  first_working_day_first d k h w = grind (arith, laws.first d k)

  pub advance_works :
      (n d : ℕ) → cal.is_working_day d ≡ true → cal.is_working_day (advance cal n d) ≡ true
  unfolding advance
  advance_works zero d w = w
  advance_works (suc n) d w = advance_works n (cal.next_working_day d) (laws.works d)

  pub advance-le : (n d : ℕ) → d + n ≤ advance cal n d
  unfolding advance
  advance-le zero d = omega arith
  advance-le (suc n) d = omega (arith, laws.later d, advance-le n (cal.next_working_day d))

  pub nth_working_day_works :
      (d n e : ℕ) → nth_working_day cal d n ≡ ok e → cal.is_working_day e ≡ true
  unfolding nth_working_day
  nth_working_day_works d n e h =
      ground (arith, advance_works (n - 1) (first_working_day cal d) (first_working_day_works d))

  pub nth_working_day-le : (d n e : ℕ) → nth_working_day cal d n ≡ ok e → d + (n - 1) ≤ e
  unfolding nth_working_day
  nth_working_day-le d n e h =
      ground (arith, advance-le (n - 1) (first_working_day cal d), first_working_day-le d)
