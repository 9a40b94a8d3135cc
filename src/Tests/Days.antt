-- ===== src/Tests/Days.antt =====
-- Working days, days and slots at concrete inputs.
use planner_dev.Prelude.{◌≡◌, refl, ok, arith, true}
use planner_dev.Calendar.{
  is_working_day, next_working_day, business_days_between, nth_working_day, weekend_calendar,
}
use planner_dev.Calendar.Laws.{IsCalendar}
use planner_dev.Calendar.Weekend.{next_working_day-IsCalendar}
use planner_dev.Calendar.Counting.{between-nth_working_day}
use planner_dev.Units.{hours_to_working_days, hours_to_slots}
use planner_dev.Units.Rounding.{IsCeil, hours_to_working_days-IsCeil, hours_to_slots-IsCeil}
use planner_dev.Tests.Samples.{weeks, calendar}

friday : next_working_day weeks 5 ≡ 8
unfolding next_working_day is_working_day
friday = refl

before_holiday : next_working_day weeks 10 ≡ 12
unfolding next_working_day is_working_day
before_holiday = refl

fifth : nth_working_day calendar 6 5 ≡ ok 15
unfolding nth_working_day next_working_day is_working_day
fifth = refl

next_working_day-IsCalendar_example : IsCalendar (weekend_calendar weeks)
next_working_day-IsCalendar_example = next_working_day-IsCalendar weeks

between-nth_working_day_example :
    (is_working_day weeks 15 ≡ true) × (business_days_between weeks 6 15 ≡ 4)
between-nth_working_day_example = between-nth_working_day weeks 6 5 15 fifth

hours_to_working_days-IsCeil_example : IsCeil 20 8 (hours_to_working_days 20 8)
hours_to_working_days-IsCeil_example = hours_to_working_days-IsCeil 20 8 (omega arith)

-- Seven thirds of an hour are one slot.
hours_to_slots-IsCeil_example : IsCeil 7 12 (hours_to_slots 7 3)
hours_to_slots-IsCeil_example = hours_to_slots-IsCeil 7 3 (omega arith)
