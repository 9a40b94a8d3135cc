-- ===== src/Greedy/Ways.antt =====
-- The placement of one task by `GreedySolver.plan` (src/planner/domain/solver/greedy.py), over its
-- three ways: a window, a pair, and the best of the allowed people.
use planner_dev.Prelude.{
  ℕ, ◌+◌, ◌≡◌, subst, ◌&&◌, Option, none, some, List, [], ◌∷◌, leb, if◌then◌else◌, length, inl, inr,
  Bool-cases, ok, >>=-eq-ok, string_eq, ◌==◌,
}
use planner_dev.Calendar.{WorkingCalendar}
use planner_dev.Calendar.Laws.{IsCalendar}
use planner_dev.Models.{Person, Task}
use planner_dev.Capacity.{CapacityIndex}
use planner_dev.Capacity.Accounting.{SameHours, SameHours-refl, SameHours-trans}
use planner_dev.Allocate.{Placement, allocate, allocate_window, allocate_pair}
use planner_dev.Greedy.Choice.{
  is_better, pick_best, place_window, place_pair, place_best, unpack_best, place_task, person_at,
}
use planner_dev.Greedy.Placed.{
  IsPlaced, BestIsPlaced, choose, allocate-IsPlaced, window-IsPlaced, pair-IsPlaced,
  IsPlaced-SameHours,
}

-- The hours that the solver lays out for a task.
unfoldable pub work_of : Task → List Person → ℕ
work_of task allowed =
    if task.duration_is_window
    then 0
    else if (task.pair_mode == "required") && leb 2 (length allowed)
    then task.duration_hours + task.duration_hours
    else task.duration_hours

module _ (calendar : WorkingCalendar) (laws : IsCalendar calendar) (task : Task) (earliest : ℕ)
    (idx : CapacityIndex) (limit : ℕ) where
  pick_best-IsPlaced :
      (l : List Person) (best : Option (Placement × Person)) (idx' : CapacityIndex)
      (r : Option (Placement × Person) × CapacityIndex)
      → BestIsPlaced calendar laws task earliest idx limit best
      → SameHours idx idx'
      → pick_best task earliest calendar limit best idx' l ≡ ok r
      → BestIsPlaced calendar laws task earliest idx limit r.0 × SameHours idx r.1
  unfolding pick_best
  pick_best-IsPlaced [] best idx' r b s h =
      subst
        (λ (q : Option (Placement × Person) × CapacityIndex).
          BestIsPlaced calendar laws task earliest idx limit q.0 × SameHours idx q.1)
        (cc) (b, s)
  pick_best-IsPlaced (cand ∷ l) best idx' r b s h =
      let (q, e, f) = >>=-eq-ok (allocate task cand earliest calendar idx' limit) _ h in
      let placed = allocate-IsPlaced calendar laws task earliest idx' limit cand q e in
      let s' = SameHours-trans s placed.same in
      let q_placed : IsPlaced calendar earliest task.duration_hours idx idx q.0 = record {
        from = placed.from;
        ordered = placed.ordered;
        works = placed.works;
        hours = placed.hours;
        same = SameHours-refl idx;
      } in
      let next : Option (Placement × Person) =
        if is_better q.0 best then some (q.0, cand) else best in
      pick_best-IsPlaced l next q.1 r
        (choose calendar laws task earliest idx limit (is_better q.0 best) q.0 cand best q_placed b)
        s' f

  place_best-IsPlaced :
      (allowed : List Person) (r : Placement × Person × CapacityIndex)
      → place_best task earliest calendar limit allowed idx ≡ ok r
      → IsPlaced calendar earliest task.duration_hours idx r.2 r.0
  unfolding place_best
  place_best-IsPlaced allowed r h =
      let (found, e, f) =
        >>=-eq-ok (pick_best task earliest calendar limit none idx allowed) unpack_best h in
      let (b, s) = pick_best-IsPlaced allowed none idx found tt (SameHours-refl idx) e in
      unpack found b s f
    where
      unpack :
          (found : Option (Placement × Person) × CapacityIndex)
          → BestIsPlaced calendar laws task earliest idx limit found.0
          → SameHours idx found.1
          → unpack_best found ≡ ok r
          → IsPlaced calendar earliest task.duration_hours idx r.2 r.0
      unpack (none, idx') b s e = unfold unpack_best in cc
      unpack (some (p, person), idx') b s e =
          let q : Placement × Person × CapacityIndex = (p, person, idx') in
          let same : q ≡ r = unfold unpack_best in cc in
          subst
            (λ (q : Placement × Person × CapacityIndex).
              IsPlaced calendar earliest task.duration_hours idx q.2 q.0)
            same (IsPlaced-SameHours idx' s b)

  place_window-IsPlaced :
      (allowed : List Person) (r : Placement × Person × CapacityIndex)
      → place_window task earliest calendar allowed idx ≡ ok r
      → IsPlaced calendar earliest 0 idx r.2 r.0
  unfolding place_window
  place_window-IsPlaced allowed r h =
      let (p, e, f) = >>=-eq-ok (allocate_window task earliest calendar) _ h in
      let (person, e', g) = >>=-eq-ok (person_at allowed 0) _ f in
      let q : Placement × Person × CapacityIndex = (p, person, idx) in
      let same : q ≡ r = cc in
      subst (λ (q : Placement × Person × CapacityIndex). IsPlaced calendar earliest 0 idx q.2 q.0)
        same (window-IsPlaced calendar laws task earliest idx limit p e)

  place_pair-IsPlaced :
      (allowed : List Person) (r : Placement × Person × CapacityIndex)
      → place_pair task earliest calendar limit allowed idx ≡ ok r
      → IsPlaced calendar earliest (task.duration_hours + task.duration_hours) idx r.2 r.0
  unfolding place_pair
  place_pair-IsPlaced allowed r h =
      let (p1, e1, f) = >>=-eq-ok (person_at allowed 0) _ h in
      let (p2, e2, g) = >>=-eq-ok (person_at allowed 1) _ f in
      let found = allocate_pair task p1 p2 earliest calendar idx limit in
      let q : Placement × Person × CapacityIndex = (found.0, p1, found.1) in
      let same : q ≡ r = cc in
      subst
        (λ (q : Placement × Person × CapacityIndex).
          IsPlaced calendar earliest (task.duration_hours + task.duration_hours) idx q.2 q.0)
        same (pair-IsPlaced calendar laws task earliest idx limit p1 p2)

  -- Whichever way a task is placed: not before `earliest`, on a working day, with its hours.
  pub place_task-IsPlaced :
      (allowed : List Person) (r : Placement × Person × CapacityIndex)
      → place_task task earliest calendar limit allowed idx ≡ ok r
      → IsPlaced calendar earliest (work_of task allowed) idx r.2 r.0
  unfolding place_task work_of
  place_task-IsPlaced allowed r h = elim (Bool-cases task.duration_is_window) [
    | inl window ↦ rw window (place_window-IsPlaced allowed r (rw window at h))
    | inr other ↦ elim (Bool-cases ((task.pair_mode == "required") && leb 2 (length allowed))) [
      | inl two ↦ rw (other, two) (place_pair-IsPlaced allowed r (rw (other, two) at h))
      | inr one ↦ rw (other, one) (place_best-IsPlaced allowed r (rw (other, one) at h))
    ]
  ]
