-- ===== src/Capacity.antt =====
-- The class `CapacityIndex` of src/planner/domain/solver/greedy.py: used hours by person and day.
-- `_used` is a `defaultdict(int)`, so reading a key enters it with 0; a read returns the new index.
pub mod Accounting
pub mod Overloads
use planner_dev.Prelude.{
  ℕ, ◌+◌, Bool, List, [], ◌∷◌, ltb, if◌then◌else◌, none, some, nat_eq, pair_eq,
}
use planner_dev.Prelude.Int.{ℤ, sub_ℕ}
use planner_dev.Prelude.Dict.{Dict, get, put, get_or, set_default}
use planner_dev.Calendar.{WorkingCalendar}
use planner_dev.Models.{Person, DayOverride, DayAllocation}

pub record CapacityIndex : Type 0 where
  pub cap : Dict ℕ ℕ
  pub cal : WorkingCalendar
  pub override : Dict (ℕ × ℕ) ℕ
  pub used : Dict (ℕ × ℕ) ℕ

-- `{p.id: p.capacity_h for p in people}`
unfoldable pub capacities : Dict ℕ ℕ → List Person → Dict ℕ ℕ
capacities d [] = d
capacities d (p ∷ l) = capacities (put d p.id p.capacity_h) l

-- `{(o.person_id, o.day): o.capacity_h for o in day_overrides}`
unfoldable pub overrides : Dict (ℕ × ℕ) ℕ → List DayOverride → Dict (ℕ × ℕ) ℕ
overrides d [] = d
overrides d (o ∷ l) = overrides (put d (o.person_id, o.day) o.capacity_h) l

-- `self._used[(a.person_id, a.day)] += a.hours` for each allocation
unfoldable pub add_hours : Dict (ℕ × ℕ) ℕ → List DayAllocation → Dict (ℕ × ℕ) ℕ
add_hours used [] = used
add_hours used (a ∷ l) =
    add_hours (put used (a.person_id, a.day) (get_or used (a.person_id, a.day) 0 + a.hours)) l

-- The constructor.
unfoldable pub make_index :
    List Person → WorkingCalendar → List DayOverride → List DayAllocation → CapacityIndex
unfolding capacities overrides add_hours
make_index people calendar day_overrides existing = record {
  cap = capacities [] people;
  cal = calendar;
  override = overrides [] day_overrides;
  used = add_hours [] existing;
}

unfoldable pub base_capacity : CapacityIndex → ℕ → ℕ → ℕ
base_capacity idx person_id day = elim (get idx.override (person_id, day)) [
  | some hours ↦ hours
  | none ↦ if idx.cal.is_working_day day then get_or idx.cap person_id 0 else 0
]

-- The hours used so far, as a reader sees them.
abbrev pub used_at : CapacityIndex → ℕ → ℕ → ℕ
used_at idx person_id day = get_or idx.used (person_id, day) 0

unfoldable pub remaining : CapacityIndex → ℕ → ℕ → ℤ × CapacityIndex
remaining idx person_id day = (
  sub_ℕ (base_capacity idx person_id day) (used_at idx person_id day),
  record idx { used = set_default idx.used (person_id, day) 0 },
)

unfoldable pub occupy : CapacityIndex → List DayAllocation → CapacityIndex
unfolding add_hours
occupy idx allocations = record idx { used = add_hours idx.used allocations }

-- An overloaded day: the hours used on it and its capacity.
pub record Overload : Type 0 where
  pub person_id : ℕ
  pub day : ℕ
  pub used : ℕ
  pub base : ℕ

unfoldable pub overloads_in : CapacityIndex → Dict (ℕ × ℕ) ℕ → List Overload
overloads_in idx [] = []
overloads_in idx (((pid, day), used) ∷ l) =
    let base = base_capacity idx pid day in
    let rest = overloads_in idx l in
    if ltb base used
    then record { person_id = pid; day = day; used = used; base = base } ∷ rest
    else rest

unfoldable pub overloads : CapacityIndex → List Overload
unfolding overloads_in
overloads idx = overloads_in idx idx.used
