-- ===== src/Units/Rounding.antt =====
-- The conversions of src/planner/domain/units.py and slots.py round up, and by less than a unit.
use native.Mathlib.Nat.{lt-div-mul-add, div-lt_iff_lt-mul}
use planner_dev.Prelude.{ℕ, ◌+◌, ◌-◌, ◌*◌, ◌≤◌, ◌<◌, ◌≡◌, arith, leb, Bool-cases, inl, inr, leb→le}
use planner_dev.Units.{ceil_div, hours_to_working_days, slot_hours, hours_to_slots}

-- `n` is the least number of units of size `b` that hold `a`.
abbrev pub IsCeil : ℕ → ℕ → ℕ → Type 0
IsCeil a b n = (a ≤ n * b) × ((m : ℕ) → a ≤ m * b → n ≤ m)

pub ceil_div-IsCeil : (a b : ℕ) → 0 < b → IsCeil a b (ceil_div a b)
ceil_div-IsCeil a b h =
    (omega (arith, lt-div-mul-add {a = a + (b - 1)} h), λ m fits. least m (omega arith))
  where
    least : (m : ℕ) → a + (b - 1) < m * b + b → ceil_div a b ≤ m
    least m small =
        let e : m * b + b ≡ (m + 1) * b = omega arith in
        omega (arith, (div-lt_iff_lt-mul {x = a + (b - 1)} {y = m + 1} h).1 (rw (← e) small))

-- At a positive capacity, the days shown are the least number of days that hold the hours.
pub hours_to_working_days-IsCeil :
    (hours capacity_h : ℕ)
    → 0 < capacity_h
    → IsCeil hours capacity_h (hours_to_working_days hours capacity_h)
unfolding hours_to_working_days
hours_to_working_days-IsCeil hours capacity_h h = elim (Bool-cases (leb hours 0)) [
  | inl z ↦ rw z (omega (arith, leb→le hours 0 z), λ m fits. omega arith)
  | inr nz ↦ elim (Bool-cases (leb capacity_h 0)) [
    | inl bad ↦ absurd (omega (arith, leb→le capacity_h 0 bad))
    | inr good ↦ rw (nz, good) (ceil_div-IsCeil hours capacity_h h)
  ]
]

-- The slots shown for `num / den` hours are the least number of slots that hold them, so a part of
-- a slot counts as a slot.
pub hours_to_slots-IsCeil :
    (num den : ℕ) → 0 < den → IsCeil num (den * slot_hours) (hours_to_slots num den)
unfolding hours_to_slots
hours_to_slots-IsCeil num den h = elim (Bool-cases (leb num 0)) [
  | inl z ↦ rw z (omega (arith, leb→le num 0 z), λ m fits. omega arith)
  | inr nz ↦ rw nz (ceil_div-IsCeil num (den * slot_hours) (omega arith))
]
