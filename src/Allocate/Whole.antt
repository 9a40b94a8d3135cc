-- ===== src/Allocate/Whole.antt =====
-- `_allocate_single` and `_allocate_pair` of src/planner/domain/solver/greedy.py: which day they
-- choose, and what the choice does to the hours of that day.
use planner_dev.Prelude.{
  ℕ, ◌+◌, ◌≤◌, ◌≡◌, ◌≢◌, refl, ap, max, ◌⊎◌, inl, inr, Bool, true, false, ◌&&◌, Option, none, some,
  [], ◌∷◌, arith, or_else, nat_eq, nat_beq_iff,
}
use planner_dev.Prelude.Int.{le_ℤ→add_le}
use planner_dev.Calendar.{WorkingCalendar, first_working_day}
use planner_dev.Models.{Person, Task}
use planner_dev.Capacity.{CapacityIndex, base_capacity, used_at, occupy}
use planner_dev.Capacity.Accounting.{SameHours, SameHours-refl, hours_at, used_at-occupy}
use planner_dev.Allocate.{Placement, rounds, chunk, one_day, allocate_single, allocate_pair}
use planner_dev.Allocate.Search.{
  IsFirstFit, find_day-IsFirstFit, single_ok, pair_ok, fits_single-Decides, fits_pair-Decides,
}

-- The first day that passes, or else the first day of the search.
abbrev pub IsEarliest : (ℕ → Bool) → ℕ → ℕ → ℕ → Type 0
IsEarliest p day limit placed =
    IsFirstFit p day limit (some placed) ⊎ (IsFirstFit p day limit none × (placed ≡ day))

or_else-IsEarliest :
    (p : ℕ → Bool) (day limit : ℕ) (o : Option ℕ)
    → IsFirstFit p day limit o
    → IsEarliest p day limit (or_else o day)
or_else-IsEarliest p day limit none h = inr (h, refl)
or_else-IsEarliest p day limit (some d) h = inl h

module _ (task : Task) (person : Person) (earliest : ℕ) (calendar : WorkingCalendar)
    (idx : CapacityIndex) (limit : ℕ) where
  -- A task that is not split goes, with all its hours, to the earliest working day up to the horizon
  -- on which the person has that many hours left; if there is none, to the first working day. The
  -- search changes no hours of the index.
  pub allocate_single-IsEarliest :
      let day = first_working_day calendar earliest in
      let r = allocate_single task person earliest calendar idx limit in
      IsEarliest (single_ok idx calendar task.duration_hours person.id) day limit r.0.start
      × (r.0 ≡ one_day (chunk person.id r.0.start task.duration_hours ∷ []) r.0.start)
      × SameHours idx r.1
  unfolding allocate_single
  allocate_single-IsEarliest =
      let day = first_working_day calendar earliest in
      let found =
        find_day-IsFirstFit (fits_single-Decides idx calendar task.duration_hours person.id)
          (rounds limit day) limit day idx (omega arith) (SameHours-refl idx) in
      (or_else-IsEarliest _ day limit _ found.0, refl, found.1)

module _ (task : Task) (p1 p2 : Person) (earliest : ℕ) (calendar : WorkingCalendar)
    (idx : CapacityIndex) (limit : ℕ) where
  -- A required pair goes to the earliest working day up to the horizon on which both people have
  -- the hours of the task left, and each gets all of them; if there is none, to the first working day.
  pub allocate_pair-IsEarliest :
      let day = first_working_day calendar earliest in
      let r = allocate_pair task p1 p2 earliest calendar idx limit in
      let hours = task.duration_hours in
      IsEarliest (pair_ok idx calendar hours p1.id p2.id) day limit r.0.start
      × (r.0 ≡ one_day (chunk p1.id r.0.start hours ∷ chunk p2.id r.0.start hours ∷ []) r.0.start)
      × SameHours idx r.1
  unfolding allocate_pair
  allocate_pair-IsEarliest =
      let day = first_working_day calendar earliest in
      let found =
        find_day-IsFirstFit (fits_pair-Decides idx calendar task.duration_hours p1.id p2.id)
          (rounds limit day) limit day idx (omega arith) (SameHours-refl idx) in
      (or_else-IsEarliest _ day limit _ found.0, refl, found.1)

-- A day that fits is somewhere within the horizon.
abbrev pub Fits : (ℕ → Bool) → ℕ → ℕ → Type 0
Fits p day limit = (k : ℕ) × (day ≤ k) × (k ≤ limit) × (p k ≡ true)

placed_ok :
    (p : ℕ → Bool) (day limit placed : ℕ)
    → Fits p day limit
    → IsEarliest p day limit placed
    → p placed ≡ true
placed_ok p day limit placed fits (inl h) = h.2
placed_ok p day limit placed fits (inr h) = absurd (clash (h.0 fits.0 fits.1 fits.2) fits.3)
  where
    clash : {b : Bool} → b ≡ false → b ≡ true → ⊥
    clash e e' = cc

-- Occupying the placement on the index that the search left.
after : Placement × CapacityIndex → CapacityIndex
after r = occupy r.1 r.0.allocations

and_left : (b c : Bool) → (b && c) ≡ true → b ≡ true
and_left true c h = refl
and_left false c h = cc

and_right : (b : Bool) {c : Bool} → (b && c) ≡ true → c ≡ true
and_right true h = h
and_right false h = cc

single_ok-add_le :
    (idx : CapacityIndex) (calendar : WorkingCalendar) (hours p d : ℕ)
    → single_ok idx calendar hours p d ≡ true
    → used_at idx p d + hours ≤ base_capacity idx p d
single_ok-add_le idx calendar hours p d h =
    le_ℤ→add_le hours (base_capacity idx p d) (used_at idx p d)
      (and_right (calendar.is_working_day d) h)

used_at-after :
    (idx : CapacityIndex) (r : Placement × CapacityIndex)
    → SameHours idx r.1
    → (p d : ℕ) → used_at (after r) p d ≡ used_at idx p d + hours_at r.0.allocations p d
unfolding after
used_at-after idx r s p d = rw (used_at-occupy r.1 r.0.allocations p d, s.used p d)

-- One chunk that fits keeps every day within the greater of its capacity and its use so far.
chunk_no_overload :
    (idx : CapacityIndex) (hours q placed p d : ℕ)
    → used_at idx q placed + hours ≤ base_capacity idx q placed
    → used_at idx p d + hours_at (chunk q placed hours ∷ []) p d
      ≤ max (used_at idx p d) (base_capacity idx p d)
chunk_no_overload idx hours q placed p d h = ground (arith, nat_beq_iff q p, nat_beq_iff placed d)

two_chunks_no_overload :
    (idx : CapacityIndex) (hours q1 q2 placed p d : ℕ)
    → q1 ≢ q2
    → used_at idx q1 placed + hours ≤ base_capacity idx q1 placed
    → used_at idx q2 placed + hours ≤ base_capacity idx q2 placed
    → used_at idx p d + hours_at (chunk q1 placed hours ∷ chunk q2 placed hours ∷ []) p d
      ≤ max (used_at idx p d) (base_capacity idx p d)
two_chunks_no_overload idx hours q1 q2 placed p d ne h k =
    ground (arith, nat_beq_iff q1 p, nat_beq_iff q2 p, nat_beq_iff placed d)

-- If the task fits on some day within the horizon, its placement overloads no day: no day's hours
-- pass the greater of its capacity and what was used before.
pub allocate_single_no_overload :
    (task : Task) (person : Person) (earliest : ℕ) (calendar : WorkingCalendar)
    (idx : CapacityIndex) (limit : ℕ)
    → Fits
        (single_ok idx calendar task.duration_hours person.id)
        (first_working_day calendar earliest)
        limit
    → (p d : ℕ)
    → let r = allocate_single task person earliest calendar idx limit in
      used_at (occupy r.1 r.0.allocations) p d ≤ max (used_at idx p d) (base_capacity idx p d)
unfolding after
allocate_single_no_overload task person earliest calendar idx limit fits p d =
    let r = allocate_single task person earliest calendar idx limit in
    let (found, shape, same) = allocate_single-IsEarliest task person earliest calendar idx limit in
    let hours = task.duration_hours in
    let allocs = ap (λ (q : Placement). hours_at q.allocations p d) shape in
    let fit =
      single_ok-add_le idx calendar hours person.id r.0.start
        (placed_ok _ _ limit r.0.start fits found) in
    omega (
      arith,
      used_at-after idx r same p d,
      allocs,
      chunk_no_overload idx hours person.id r.0.start p d fit,
    )

-- If a pair of two different people fits on some day within the horizon, its placement overloads no
-- day of anyone.
pub allocate_pair_no_overload :
    (task : Task) (p1 p2 : Person) (earliest : ℕ) (calendar : WorkingCalendar) (idx : CapacityIndex)
    (limit : ℕ)
    → p1.id ≢ p2.id
    → Fits
        (pair_ok idx calendar task.duration_hours p1.id p2.id)
        (first_working_day calendar earliest)
        limit
    → (p d : ℕ)
    → let r = allocate_pair task p1 p2 earliest calendar idx limit in
      used_at (occupy r.1 r.0.allocations) p d ≤ max (used_at idx p d) (base_capacity idx p d)
unfolding after
allocate_pair_no_overload task p1 p2 earliest calendar idx limit ne fits p d =
    let r = allocate_pair task p1 p2 earliest calendar idx limit in
    let (found, shape, same) = allocate_pair-IsEarliest task p1 p2 earliest calendar idx limit in
    let hours = task.duration_hours in
    let allocs = ap (λ (q : Placement). hours_at q.allocations p d) shape in
    let ok = placed_ok _ _ limit r.0.start fits found in
    let fit1 =
      single_ok-add_le idx calendar hours p1.id r.0.start
        (and_left (single_ok idx calendar hours p1.id r.0.start) _ ok) in
    let fit2 =
      le_ℤ→add_le hours (base_capacity idx p2.id r.0.start) (used_at idx p2.id r.0.start)
        (and_right (single_ok idx calendar hours p1.id r.0.start) ok) in
    omega (
      arith,
      used_at-after idx r same p d,
      allocs,
      two_chunks_no_overload idx hours p1.id p2.id r.0.start p d ne fit1 fit2,
    )
