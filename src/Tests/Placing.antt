-- ===== src/Tests/Placing.antt =====
-- Placements at concrete tasks and capacities.
use planner_dev.Prelude.{
  mem, map, ltb, pair_eq, nat_eq, ℕ, ◌+◌, ◌≤◌, max, ◌≡◌, refl, ok, err, value_error, true, [], ◌∷◌,
  arith, All, sum_of, leb→le, leb, if◌then◌else◌,
}
use planner_dev.Calendar.{first_working_day}
use planner_dev.Capacity.Overloads.{IsReached, made, occupied, key_of, overloads-IsExact}
use planner_dev.Capacity.{overloads, CapacityIndex, used_at, base_capacity, occupy}
use planner_dev.Capacity.Accounting.{SameHours, hours_at, used_at-occupy}
use planner_dev.Allocate.SpreadLaws.{offered}
use planner_dev.Allocate.{
  rounds, Placement, chunk, one_day, allocate_single, allocate_pair, allocate_split,
}
use planner_dev.Allocate.Search.{single_ok, pair_ok}
use planner_dev.Allocate.Whole.{
  IsEarliest, Fits, allocate_single-IsEarliest, allocate_pair-IsEarliest,
  allocate_single_no_overload, allocate_pair_no_overload,
}
use planner_dev.Allocate.Splitting.{
  allocate_split_complete, allocate_split_total, allocate_split_no_overload,
}
use planner_dev.Tests.Samples.{calendar, ann, bob, brief, draft, review, index, program, request}

used_at-occupy_example :
    used_at (occupy index (chunk 1 1 3 ∷ [])) 1 1
    ≡ used_at index 1 1 + hours_at (chunk 1 1 3 ∷ []) 1 1
used_at-occupy_example = used_at-occupy index (chunk 1 1 3 ∷ []) 1 1

allocate_single-IsEarliest_example :
    let r = allocate_single brief ann 1 calendar index 366 in
    IsEarliest (single_ok index calendar 8 1) (first_working_day calendar 1) 366 r.0.start
    × (r.0 ≡ one_day (chunk 1 r.0.start 8 ∷ []) r.0.start)
    × SameHours index r.1
allocate_single-IsEarliest_example = allocate_single-IsEarliest brief ann 1 calendar index 366

allocate_pair-IsEarliest_example :
    let r = allocate_pair review ann bob 1 calendar index 366 in
    IsEarliest (pair_ok index calendar 4 1 2) (first_working_day calendar 1) 366 r.0.start
    × (r.0 ≡ one_day (chunk 1 r.0.start 4 ∷ chunk 2 r.0.start 4 ∷ []) r.0.start)
    × SameHours index r.1
allocate_pair-IsEarliest_example = allocate_pair-IsEarliest review ann bob 1 calendar index 366

-- Ann has eight hours left on the second day.
second_day : Fits (single_ok index calendar 8 1) (first_working_day calendar 1) 366
unfolding program
second_day = (2, omega arith, omega arith, refl)

allocate_single_no_overload_example :
    let r = allocate_single brief ann 1 calendar index 366 in
    used_at (occupy r.1 r.0.allocations) 1 2 ≤ max (used_at index 1 2) (base_capacity index 1 2)
allocate_single_no_overload_example =
    allocate_single_no_overload brief ann 1 calendar index 366 second_day 1 2

together : Fits (pair_ok index calendar 4 1 2) (first_working_day calendar 1) 366
unfolding program
together = (1, omega arith, omega arith, refl)

allocate_pair_no_overload_example :
    let r = allocate_pair review ann bob 1 calendar index 366 in
    used_at (occupy r.1 r.0.allocations) 2 1 ≤ max (used_at index 2 1) (base_capacity index 2 1)
allocate_pair_no_overload_example =
    allocate_pair_no_overload review ann bob 1 calendar index 366 (omega arith) together 2 1

abbrev four_days : Placement × CapacityIndex
four_days = (
  record {
    allocations = chunk 2 1 6 ∷ chunk 2 2 6 ∷ chunk 2 3 6 ∷ chunk 2 4 2 ∷ [];
    start = 1;
    finish = 4;
  },
  record index { used = ((1, 1), 4) ∷ ((2, 1), 0) ∷ ((2, 2), 0) ∷ ((2, 3), 0) ∷ ((2, 4), 0) ∷ [] },
)

-- Twenty hours of Bob, who works six hours a day. Reading his days enters them into the index.
split_draft : allocate_split draft bob 1 calendar index 366 ≡ ok four_days
unfolding program
split_draft = refl

allocate_split_complete_example :
    (sum_of (λ a. a.hours) four_days.0.allocations ≡ 20)
    × All (λ a. 1 ≤ a.day) four_days.0.allocations
    × All (λ a. a.day ≤ 4) four_days.0.allocations
    × SameHours index four_days.1
allocate_split_complete_example =
    allocate_split_complete draft bob 1 calendar index 366 four_days split_draft

allocate_split_total_example :
    (r : Placement × CapacityIndex) × (allocate_split draft bob 1 calendar index 366
      ≡ (if leb draft.duration_hours 0 then err value_error else ok r))
allocate_split_total_example = allocate_split_total draft bob 1 calendar index 366

enough :
    20
    ≤ offered index calendar 2
        (rounds 366 (first_working_day calendar 1))
        (first_working_day calendar 1)
unfolding program offered
enough = leb→le 20 _ refl

allocate_split_no_overload_example :
    ((p d : ℕ)
      → used_at (occupy four_days.1 four_days.0.allocations) p d
        ≤ max (used_at index p d) (base_capacity index p d))
    × All (λ a. (calendar.is_working_day a.day ≡ true) × (a.day ≤ 366)) four_days.0.allocations
allocate_split_no_overload_example =
    allocate_split_no_overload draft bob 1 calendar index 366 four_days enough split_draft

-- Ann's first day with four hours more than the four that are taken and the eight that she has.
abbrev overfull : CapacityIndex
overfull = occupy index (record { person_id = 1; day = 1; hours = 8 } ∷ [])

overfull-IsReached : IsReached overfull
overfull-IsReached =
    occupied index _
      (made request.people calendar request.day_overrides request.existing_allocations)

overloads-IsExact_example :
    mem (1, 1) (map key_of (overloads overfull))
    ≡ ltb (base_capacity overfull 1 1) (used_at overfull 1 1)
overloads-IsExact_example = overloads-IsExact overfull 1 1 overfull-IsReached
