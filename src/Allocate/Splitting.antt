-- ===== src/Allocate/Splitting.antt =====
-- `_allocate_split` of src/planner/domain/solver/greedy.py as a whole.
use planner_dev.Prelude.{
  leb, leb→gt, ℕ, ◌+◌, ◌≤◌, max, ◌≡◌, sym, ap, ◌∙◌, true, false, subst, [], append-nil, arith,
  if◌then◌else◌, sum_of, All, All-imp, Bool-cases, inl, inr, ok, err, value_error, >>=-eq-ok,
  nat_eq, nat_beq_iff, ◌==◌,
}
use planner_dev.Calendar.{WorkingCalendar, first_working_day}
use planner_dev.Models.{Person, Task}
use planner_dev.Capacity.{CapacityIndex, base_capacity, used_at, occupy}
use planner_dev.Capacity.Accounting.{SameHours, hours_at, used_at-occupy}
use planner_dev.Allocate.{Placement, rounds, allocate_split, min_day, max_day}
use planner_dev.Allocate.Spread.{offer, spread, leftover, spread_zero, leftover_zero}
use planner_dev.Allocate.SpreadLaws.{
  offered, leftover-offered, hours_at-spread-le, spread-IsChunk, IsChunk,
}
use planner_dev.Allocate.Spans.{
  allocate_split-spans, chunks_of, spans, sum-chunks_of, spans-eq-ok, spans_total, min_day_ind,
  min-le-max, IsFrom, chunks_of-IsFrom, min_day_some,
}

used-add-offer :
    (idx : CapacityIndex) (calendar : WorkingCalendar) (p d : ℕ)
    → used_at idx p d + offer idx calendar p d ≤ max (used_at idx p d) (base_capacity idx p d)
used-add-offer idx calendar p d = ground arith

module _ (idx : CapacityIndex) (calendar : WorkingCalendar) (p limit day : ℕ) where
  chunks_of_zero : chunks_of idx calendar p limit day 0 ≡ []
  chunks_of_zero = rw (
    leftover_zero idx calendar p (rounds limit day) day,
    spread_zero idx calendar p (rounds limit day) day,
  )

  spans_none :
      (idx' : CapacityIndex) → spans (chunks_of idx calendar p limit day 0) idx' ≡ err value_error
  unfolding min_day
  spans_none idx' = rw chunks_of_zero

  chunks_of_enough :
      (hours : ℕ)
      → hours ≤ offered idx calendar p (rounds limit day) day
      → chunks_of idx calendar p limit day hours
        ≡ spread idx calendar p (rounds limit day) day hours
  chunks_of_enough hours h =
      let z : leftover idx calendar p (rounds limit day) day hours ≡ 0 =
        omega (arith, leftover-offered idx calendar p (rounds limit day) day hours) in
      rw (z, append-nil)

  spread_no_overload :
      (hours q d : ℕ)
      → used_at idx q d + hours_at (spread idx calendar p (rounds limit day) day hours) q d
        ≤ max (used_at idx q d) (base_capacity idx q d)
  spread_no_overload hours q d = elim (Bool-cases (p == q)) [
    | inl e ↦
        let same : p ≡ q = (nat_beq_iff p q).0 e in
        omega
          (arith, bound e, ap (λ k. offer idx calendar k d) same, used-add-offer idx calendar q d)
    | inr ne ↦ omega (arith, nothing ne)
  ]
    where
      chunk_hours : ℕ
      chunk_hours = hours_at (spread idx calendar p (rounds limit day) day hours) q d

      bound : (p == q) ≡ true → chunk_hours ≤ offer idx calendar p d
      bound e = rw e at (hours_at-spread-le idx calendar p (rounds limit day) day hours q d)

      nothing : (p == q) ≡ false → chunk_hours ≤ 0
      nothing e = rw e at (hours_at-spread-le idx calendar p (rounds limit day) day hours q d)

module _ (task : Task) (person : Person) (earliest : ℕ) (calendar : WorkingCalendar)
    (idx : CapacityIndex) (limit : ℕ) where
  -- A split task gets exactly the hours of the task, all between its start and its end, and the
  -- search changes no hours of the index.
  pub allocate_split_complete :
      (r : Placement × CapacityIndex)
      → allocate_split task person earliest calendar idx limit ≡ ok r
      → (sum_of (λ a. a.hours) r.0.allocations ≡ task.duration_hours)
        × All (λ a. r.0.start ≤ a.day) r.0.allocations
        × All (λ a. a.day ≤ r.0.finish) r.0.allocations
        × SameHours idx r.1
  allocate_split_complete r h =
      let (idx', same, e) = allocate_split-spans task person earliest calendar idx limit in
      let day = first_working_day calendar earliest in
      let l = chunks_of idx calendar person.id limit day task.duration_hours in
      let (allocs, last, starts, ends) = spans-eq-ok l idx' r (sym e ∙ h) in
      (
        ap (sum_of (λ a. a.hours)) allocs
            ∙ sum-chunks_of idx calendar person.id limit day task.duration_hours,
        rw allocs starts,
        rw allocs ends,
        rw last same,
      )

  -- Splitting raises `ValueError` for a task of no hours, and succeeds for every other task.
  pub allocate_split_total :
      (r : Placement × CapacityIndex) × (allocate_split task person earliest calendar idx limit
        ≡ (if leb task.duration_hours 0 then err value_error else ok r))
  allocate_split_total =
      let (idx', same, e) = allocate_split-spans task person earliest calendar idx limit in
      let day = first_working_day calendar earliest in
      let l = chunks_of idx calendar person.id limit day task.duration_hours in
      let total = sum-chunks_of idx calendar person.id limit day task.duration_hours in
      elim (Bool-cases (leb task.duration_hours 0)) [
        | inl none_due ↦
            let z : task.duration_hours ≡ 0 = ground arith in
            (
              (record { allocations = []; start = 0; finish = 0 }, idx),
              rw none_due (
                  e
                  ∙ ap (λ c. spans (chunks_of idx calendar person.id limit day c) idx') z
                  ∙ spans_none idx calendar person.id limit day idx'),
            )
        | inr some_due ↦
            let (r, done) = spans_total l idx' (λ none_left.
              absurd (
                omega (arith, total, ap (sum_of (λ a. a.hours)) none_left, leb→gt _ 0 some_due))) in
            (r, rw some_due (e ∙ done))
      ]

  -- Where the days from the first working day to the horizon offer the person's hours of the task, a
  -- split placement overloads no day, and all its hours are on working days up to the horizon.
  pub allocate_split_no_overload :
      (r : Placement × CapacityIndex)
      → task.duration_hours
        ≤ offered idx calendar person.id
            (rounds limit (first_working_day calendar earliest))
            (first_working_day calendar earliest)
      → allocate_split task person earliest calendar idx limit ≡ ok r
      → ((p d : ℕ)
          → used_at (occupy r.1 r.0.allocations) p d
            ≤ max (used_at idx p d) (base_capacity idx p d))
        × All (λ a. (calendar.is_working_day a.day ≡ true) × (a.day ≤ limit)) r.0.allocations
  allocate_split_no_overload r enough h =
      let (idx', same, e) = allocate_split-spans task person earliest calendar idx limit in
      let day = first_working_day calendar earliest in
      let hours = task.duration_hours in
      let (allocs, last, starts, ends) = spans-eq-ok _ idx' r (sym e ∙ h) in
      let chunks = allocs ∙ chunks_of_enough idx calendar person.id limit day hours enough in
      (
        λ p d. omega (
          arith,
          used_at-occupy r.1 r.0.allocations p d,
          ap (λ (i : CapacityIndex). used_at i p d) last,
          same.used p d,
          ap (λ l. hours_at l p d) chunks,
          spread_no_overload idx calendar person.id limit day hours p d,
        ),
        rw chunks (
            All-imp (IsChunk idx calendar person.id day (day + rounds limit day)) _
              (λ a c. (c.3, omega arith)) _
              (spread-IsChunk idx calendar person.id (rounds limit day) day hours)),
      )

-- A split task starts on a working day, not before the first, and does not end before it starts.
pub allocate_split-IsFrom :
    (task : Task) (person : Person) (earliest : ℕ) (calendar : WorkingCalendar)
    (idx : CapacityIndex) (limit : ℕ) (r : Placement × CapacityIndex)
    → calendar.is_working_day (first_working_day calendar earliest) ≡ true
    → allocate_split task person earliest calendar idx limit ≡ ok r
    → IsFrom calendar (first_working_day calendar earliest) r.0.start × (r.0.start ≤ r.0.finish)
allocate_split-IsFrom task person earliest calendar idx limit r w h =
    let (idx', same, e) = allocate_split-spans task person earliest calendar idx limit in
    let day = first_working_day calendar earliest in
    let l = chunks_of idx calendar person.id limit day task.duration_hours in
    let h' = sym e ∙ h in
    let (allocs, last, starts, ends) = spans-eq-ok l idx' r h' in
    let (m, em, f) = >>=-eq-ok (min_day l) _ h' in
    let (n, en, f') = >>=-eq-ok (max_day l) _ f in
    let from : IsFrom calendar day m =
      min_day_ind (IsFrom calendar day) l m
        (chunks_of-IsFrom idx calendar person.id limit day task.duration_hours w) em in
    (
      subst (IsFrom calendar day) (cc) from,
      min-le-max l r.0.start r.0.finish (λ none_left. min_day_some l m em none_left) starts ends,
    )
