-- ===== src/Greedy/Placed.antt =====
-- The placement of one task in `GreedySolver.plan` (src/planner/domain/solver/greedy.py), on one
-- day, split over days, on two people, or as a window.
use planner_dev.Prelude.{
  ℕ, ◌+◌, ◌≤◌, ◌≡◌, refl, sym, ap, subst, Bool, true, false, ◌&&◌, Option, none, some, [], arith,
  max, if◌then◌else◌, sum_of, inl, inr, Bool-cases, ok, >>=-eq-ok, string_eq,
}
use planner_dev.Calendar.{WorkingCalendar, first_working_day, nth_working_day}
use planner_dev.Calendar.Laws.{
  IsCalendar, first_working_day-le, first_working_day_works, nth_working_day-le,
}
use planner_dev.Units.{ceil_div}
use planner_dev.Models.{Person, Task}
use planner_dev.Capacity.{CapacityIndex}
use planner_dev.Capacity.Accounting.{SameHours, SameHours-refl}
use planner_dev.Allocate.{
  Placement, day_hours, allocate, allocate_split, allocate_single, allocate_window, allocate_pair,
}
use planner_dev.Allocate.Search.{single_ok, pair_ok}
use planner_dev.Allocate.Whole.{IsEarliest, allocate_single-IsEarliest, allocate_pair-IsEarliest}
use planner_dev.Allocate.Splitting.{allocate_split_complete, allocate_split-IsFrom}

-- A placement from `earliest` on with `work` hours in all, and the index that the search left.
pub record IsPlaced (calendar : WorkingCalendar) (earliest work : ℕ) (idx idx' : CapacityIndex)
    (p : Placement) : Type 0 where
  pub from : earliest ≤ p.start
  pub ordered : p.start ≤ p.finish
  pub works : calendar.is_working_day p.start ≡ true
  pub hours : sum_of (λ a. a.hours) p.allocations ≡ work
  pub same : SameHours idx idx'

and_first : (b c : Bool) → (b && c) ≡ true → b ≡ true
and_first true c h = refl
and_first false c h = cc

-- A day that a search chooses satisfies what the first day and every passing day satisfy.
IsEarliest_ind {κ} :
    (P : ℕ → Type κ) (p : ℕ → Bool) (day limit placed : ℕ)
    → P day
    → ((d : ℕ) → day ≤ d → p d ≡ true → P d)
    → IsEarliest p day limit placed
    → P placed
IsEarliest_ind P p day limit placed start passing (inl h) = passing placed h.0 h.2
IsEarliest_ind P p day limit placed start passing (inr h) = subst P (sym h.1) start

module _ (calendar : WorkingCalendar) (laws : IsCalendar calendar) (task : Task) (earliest : ℕ)
    (idx : CapacityIndex) (limit : ℕ) where
  -- The days that a placement from `earliest` may start on.
  abbrev MayStart : ℕ → Type 0
  MayStart d = (earliest ≤ d) × (calendar.is_working_day d ≡ true)

  first_MayStart : MayStart (first_working_day calendar earliest)
  first_MayStart = (first_working_day-le laws earliest, first_working_day_works laws earliest)

  -- A placement on one day with all its hours there.
  single-IsPlaced :
      (person : Person)
      → let r = allocate_single task person earliest calendar idx limit in
        IsPlaced calendar earliest task.duration_hours idx r.1 r.0
  single-IsPlaced person =
      let r = allocate_single task person earliest calendar idx limit in
      let (found, shape, same) =
        allocate_single-IsEarliest task person earliest calendar idx limit in
      let day = first_working_day calendar earliest in
      let ok_day : MayStart r.0.start =
        IsEarliest_ind MayStart (single_ok idx calendar task.duration_hours person.id) day limit
          r.0.start first_MayStart (λ d le p. (omega (arith, first_MayStart.0), and_first _ _ p))
          found in
      let total = ap (λ (q : Placement). sum_of (λ a. a.hours) q.allocations) shape in
      record {
        from = ok_day.0;
        ordered = omega (arith, ap (λ (q : Placement). q.finish) shape);
        works = ok_day.1;
        hours = omega (arith, total);
        same = same;
      }

  pub pair-IsPlaced :
      (p1 p2 : Person)
      → let r = allocate_pair task p1 p2 earliest calendar idx limit in
        IsPlaced calendar earliest (task.duration_hours + task.duration_hours) idx r.1 r.0
  pair-IsPlaced p1 p2 =
      let r = allocate_pair task p1 p2 earliest calendar idx limit in
      let (found, shape, same) = allocate_pair-IsEarliest task p1 p2 earliest calendar idx limit in
      let day = first_working_day calendar earliest in
      let hours = task.duration_hours in
      let ok_day : MayStart r.0.start =
        IsEarliest_ind MayStart (pair_ok idx calendar hours p1.id p2.id) day limit r.0.start
          first_MayStart
          (λ d le p. (
            omega (arith, first_MayStart.0),
            and_first _ _ (and_first (single_ok idx calendar hours p1.id d) _ p),
          ))
          found in
      let total = ap (λ (q : Placement). sum_of (λ a. a.hours) q.allocations) shape in
      record {
        from = ok_day.0;
        ordered = omega (arith, ap (λ (q : Placement). q.finish) shape);
        works = ok_day.1;
        hours = omega (arith, total);
        same = same;
      }

  split-IsPlaced :
      (person : Person) (r : Placement × CapacityIndex)
      → allocate_split task person earliest calendar idx limit ≡ ok r
      → IsPlaced calendar earliest task.duration_hours idx r.1 r.0
  split-IsPlaced person r h =
      let (total, starts, ends, same) =
        allocate_split_complete task person earliest calendar idx limit r h in
      let (from, ordered) =
        allocate_split-IsFrom task person earliest calendar idx limit r first_MayStart.1 h in
      record {
        from = omega (arith, first_MayStart.0, from.0);
        ordered = ordered;
        works = from.1;
        hours = total;
        same = same;
      }

  pub allocate-IsPlaced :
      (person : Person) (r : Placement × CapacityIndex)
      → allocate task person earliest calendar idx limit ≡ ok r
      → IsPlaced calendar earliest task.duration_hours idx r.1 r.0
  unfolding allocate
  allocate-IsPlaced person r h = elim (Bool-cases task.is_splittable) [
    | inl splits ↦ split-IsPlaced person r (rw splits at h)
    | inr whole ↦
        let e = rw whole at h in
        subst
          (λ (q : Placement × CapacityIndex).
            IsPlaced calendar earliest task.duration_hours idx q.1 q.0)
          (cc) (single-IsPlaced person)
  ]

  pub window-IsPlaced :
      (p : Placement)
      → allocate_window task earliest calendar ≡ ok p
      → IsPlaced calendar earliest 0 idx idx p
  unfolding allocate_window
  window-IsPlaced p h =
      let day = first_working_day calendar earliest in
      let span = max 1 (ceil_div task.duration_hours day_hours) in
      let (n, e, f) = >>=-eq-ok (nth_working_day calendar day span) _ h in
      let q : Placement = record { allocations = []; start = day; finish = n } in
      let same : q ≡ p = cc in
      subst (IsPlaced calendar earliest 0 idx idx) same (record {
        from = first_MayStart.0;
        ordered = omega (arith, nth_working_day-le laws day span n e);
        works = first_MayStart.1;
        hours = refl;
        same = SameHours-refl idx;
      })

  abbrev pub BestIsPlaced : Option (Placement × Person) → Type 0
  BestIsPlaced none = Unit
  BestIsPlaced (some (p, person)) = IsPlaced calendar earliest task.duration_hours idx idx p

  pub choose :
      (b : Bool) (p : Placement) (person : Person) (best : Option (Placement × Person))
      → IsPlaced calendar earliest task.duration_hours idx idx p
      → BestIsPlaced best
      → BestIsPlaced (if b then some (p, person) else best)
  choose true p person best h k = h
  choose false p person best h k = k

pub IsPlaced-SameHours :
    {calendar : WorkingCalendar} {earliest work : ℕ} {idx : CapacityIndex} {p : Placement}
    (idx' : CapacityIndex)
    → SameHours idx idx'
    → IsPlaced calendar earliest work idx idx p
    → IsPlaced calendar earliest work idx idx' p
IsPlaced-SameHours idx' s i = record {
  from = i.from;
  ordered = i.ordered;
  works = i.works;
  hours = i.hours;
  same = s;
}
