-- ===== src/Allocate.antt =====
-- The placement functions of src/planner/domain/solver/greedy.py: `_allocate_single`,
-- `_allocate_split`, `_allocate`, `_allocate_window` and `_allocate_pair`. The reads of the capacity
-- index are threaded through. A search over the days up to the horizon has one round for each day.
pub mod Search
pub mod Whole
pub mod Spread
pub mod SpreadLaws
pub mod Spans
pub mod Splitting
use planner_dev.Prelude.{
  ℕ, zero, suc, ◌+◌, ◌-◌, min, max, Bool, true, false, ◌&&◌, Option, none, some, List, [], ◌∷◌,
  ◌++◌, leb, ltb, if◌then◌else◌, or_else, Result, ok, err, value_error, ◌>>=◌,
}
use planner_dev.Prelude.Int.{ℤ, le_ℤ, to_ℕ}
use planner_dev.Calendar.{WorkingCalendar, first_working_day, nth_working_day}
use planner_dev.Units.{ceil_div}
use planner_dev.Models.{Person, Task, DayAllocation}
use planner_dev.Capacity.{CapacityIndex, remaining}

-- What the placement functions return beside the index.
pub record Placement : Type 0 where
  pub allocations : List DayAllocation
  pub start : ℕ
  pub finish : ℕ

abbrev pub Test : Type 0
Test = CapacityIndex → ℕ → Bool × CapacityIndex

-- `while day <= horizon_limit: if …: placed = day; break … day += timedelta(days=1)`
unfoldable pub find_day : Test → ℕ → ℕ → ℕ → CapacityIndex → Option ℕ × CapacityIndex
find_day test zero limit day idx = (none, idx)
find_day test (suc fuel) limit day idx =
    let (fits, idx') = test idx day in
    elim (leb day limit) [
      | false ↦ (none, idx)
      | true ↦ elim fits [
        | true ↦ (some day, idx')
        | false ↦ find_day test fuel limit (day + 1) idx'
      ]
    ]

-- The rounds of such a loop from `day`.
abbrev pub rounds : ℕ → ℕ → ℕ
rounds limit day = limit + 1 - day

-- `idx.remaining(person_id, day) >= hours`
unfoldable pub has_room : ℕ → ℕ → Test
unfolding remaining
has_room hours person_id idx day =
    let (left, idx') = remaining idx person_id day in (le_ℤ hours left, idx')

unfoldable pub fits_single : ℕ → ℕ → WorkingCalendar → Test
unfolding has_room
fits_single hours person_id calendar idx day =
    if calendar.is_working_day day then has_room hours person_id idx day else (false, idx)

unfoldable pub fits_pair : ℕ → ℕ → ℕ → WorkingCalendar → Test
unfolding fits_single has_room
fits_pair hours p1 p2 calendar idx day =
    let (first, idx') = fits_single hours p1 calendar idx day in
    if first then has_room hours p2 idx' day else (false, idx')

abbrev pub chunk : ℕ → ℕ → ℕ → DayAllocation
chunk person_id day hours = record { person_id = person_id; day = day; hours = hours }

abbrev pub one_day : List DayAllocation → ℕ → Placement
one_day allocations placed = record { allocations = allocations; start = placed; finish = placed }

unfoldable pub allocate_single :
    Task → Person → ℕ → WorkingCalendar → CapacityIndex → ℕ → Placement × CapacityIndex
unfolding find_day fits_single first_working_day
allocate_single task person earliest calendar idx horizon_limit =
    let day = first_working_day calendar earliest in
    let (found, idx') =
      find_day (fits_single task.duration_hours person.id calendar) (rounds horizon_limit day)
        horizon_limit day idx in
    let placed = or_else found (first_working_day calendar earliest) in
    (one_day (chunk person.id placed task.duration_hours ∷ []) placed, idx')

-- The variables of the loop of `_allocate_split`.
pub record Split : Type 0 where
  pub remaining : ℕ
  pub allocs : List DayAllocation
  pub idx : CapacityIndex

-- The body of the loop, without the step to the next day.
unfoldable pub split_day : ℕ → WorkingCalendar → ℕ → Split → Split
split_day person_id calendar day s =
    let (cap, idx') = remaining s.idx person_id day in
    if calendar.is_working_day day
    then if ltb 0 (to_ℕ cap)
      then record {
        remaining = s.remaining - min (to_ℕ cap) s.remaining;
        allocs = s.allocs ++ chunk person_id day (min (to_ℕ cap) s.remaining) ∷ [];
        idx = idx';
      }
      else record s { idx = idx' }
    else s

-- `while remaining > 0 and day <= horizon_limit`
unfoldable pub split_loop : ℕ → WorkingCalendar → ℕ → ℕ → ℕ → Split → Split
unfolding split_day
split_loop person_id calendar zero horizon_limit day s = s
split_loop person_id calendar (suc fuel) horizon_limit day s =
    elim (ltb 0 s.remaining && leb day horizon_limit) [
      | true ↦
          split_loop person_id calendar fuel horizon_limit (day + 1)
            (split_day person_id calendar day s)
      | false ↦ s
    ]

-- `min(a.day for a in allocs)` and `max(…)`, which raise `ValueError` on no allocations.
unfoldable pub min_day : List DayAllocation → Result ℕ
min_day [] = err value_error
min_day (a ∷ []) = ok a.day
min_day (a ∷ b ∷ l) = do rest ← min_day (b ∷ l); ok (min a.day rest)

unfoldable pub max_day : List DayAllocation → Result ℕ
max_day [] = err value_error
max_day (a ∷ []) = ok a.day
max_day (a ∷ b ∷ l) = do rest ← max_day (b ∷ l); ok (max a.day rest)

-- The rest of `_allocate_split`, behind its loop.
unfoldable pub split_finish : ℕ → ℕ → Split → Result (Placement × CapacityIndex)
unfolding min_day max_day
split_finish person_id start_day s =
    let allocs =
      if ltb 0 s.remaining
      then s.allocs ++ chunk person_id start_day s.remaining ∷ []
      else s.allocs in
    do
      start ← min_day allocs
      finish ← max_day allocs
      ok (record { allocations = allocs; start = start; finish = finish }, s.idx)

unfoldable pub allocate_split :
    Task → Person → ℕ → WorkingCalendar → CapacityIndex → ℕ → Result (Placement × CapacityIndex)
unfolding split_loop split_finish first_working_day
allocate_split task person earliest calendar idx horizon_limit =
    let day = first_working_day calendar earliest in
    split_finish person.id day (
      split_loop person.id calendar (rounds horizon_limit day) horizon_limit day
        (record { remaining = task.duration_hours; allocs = []; idx = idx }))

unfoldable pub allocate :
    Task → Person → ℕ → WorkingCalendar → CapacityIndex → ℕ → Result (Placement × CapacityIndex)
unfolding allocate_split allocate_single
allocate task person earliest calendar idx horizon_limit =
    if task.is_splittable
    then allocate_split task person earliest calendar idx horizon_limit
    else ok (allocate_single task person earliest calendar idx horizon_limit)

abbrev pub day_hours : ℕ
day_hours = 8

unfoldable pub allocate_window : Task → ℕ → WorkingCalendar → Result Placement
unfolding first_working_day nth_working_day
allocate_window task earliest calendar = do
  let span = max 1 (ceil_div task.duration_hours day_hours)
  let start = first_working_day calendar earliest
  finish ← nth_working_day calendar start span
  ok (record { allocations = []; start = start; finish = finish })

unfoldable pub allocate_pair :
    Task → Person → Person → ℕ → WorkingCalendar → CapacityIndex → ℕ → Placement × CapacityIndex
unfolding find_day fits_pair first_working_day
allocate_pair task p1 p2 earliest calendar idx horizon_limit =
    let day = first_working_day calendar earliest in
    let (found, idx') =
      find_day (fits_pair task.duration_hours p1.id p2.id calendar) (rounds horizon_limit day)
        horizon_limit day idx in
    let placed = or_else found (first_working_day calendar earliest) in
    (
      one_day (chunk p1.id placed task.duration_hours ∷ chunk p2.id placed task.duration_hours ∷ [])
          placed,
      idx',
    )
