-- ===== src/Units.antt =====
-- Hours shown as days and slots: src/planner/domain/units.py and src/planner/domain/slots.py.
-- `math.ceil(a / b)` is the rounded-up quotient; the division by a positive number is exact.
pub mod Rounding
use planner_dev.Prelude.{ℕ, ◌+◌, ◌-◌, ◌*◌, ◌/◌, leb, if◌then◌else◌}

-- ceil(a / b), for 0 < b.
abbrev pub ceil_div : ℕ → ℕ → ℕ
ceil_div a b = (a + (b - 1)) / b

unfoldable pub hours_to_working_days : ℕ → ℕ → ℕ
hours_to_working_days hours capacity_h =
    if leb hours 0 then 0 else if leb capacity_h 0 then hours else ceil_div hours capacity_h

abbrev pub slot_hours : ℕ
slot_hours = 4

-- A fractional number of hours is the quotient of two numbers, `num / den` with 0 < `den`.
unfoldable pub hours_to_slots : (num den : ℕ) → ℕ
hours_to_slots num den = if leb num 0 then 0 else ceil_div num (den * slot_hours)
