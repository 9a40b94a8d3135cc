-- ===== src/Greedy/Steps.antt =====
-- The main loop of `GreedySolver.plan` (src/planner/domain/solver/greedy.py): what one round does,
-- and the rule by which an invariant of the rounds holds at the end.
use planner_dev.Prelude.{
  ℕ, ◌≡◌, sym, ◌∙◌, subst, Option, none, some, List, [], ◌∷◌, inl, inr, Option-cases, ok, >>=-eq-ok,
  ◌>>=◌, nat_eq,
}
use planner_dev.Prelude.Dict.{Dict, get}
use planner_dev.Calendar.{WorkingCalendar}
use planner_dev.Models.{Person, Task, PlanRequest}
use planner_dev.Networkx.{Networkx}
use planner_dev.Capacity.{CapacityIndex}
use planner_dev.Allocate.{Placement}
use planner_dev.Greedy.Dag.{earliest_start}
use planner_dev.Greedy.Choice.{allowed_people, place_task}
use planner_dev.Greedy.{Schedule, record_placement, horizon_limit, schedule_task, schedule_all}

module _ (nx : Networkx) (calendar : WorkingCalendar) (req : PlanRequest) (graph : nx.DiGraph)
    (tasks_by_id : Dict ℕ Task) where
  -- A round that places its task.
  pub record IsPlacing (tid : ℕ) (s s' : Schedule) : Type 0 where
    pub task : Task
    pub earliest : ℕ
    pub placed : Placement × Person × CapacityIndex
    pub absent : get s.assignments tid ≡ none
    pub known : get tasks_by_id tid ≡ some task
    pub starts : earliest_start nx calendar task graph s.assignments req.horizon_start ≡ ok earliest
    pub places :
        place_task task earliest calendar
          (horizon_limit nx calendar req)
          (allowed_people req.people task)
          s.idx
        ≡ ok placed
    pub result : record_placement tid s placed ≡ s'

  -- A round skips a task that is assigned or unknown, or places it.
  pub data Step (tid : ℕ) (s s' : Schedule) : Type 0 where
    skipped : s ≡ s' → (get s.assignments tid ≡ none → get tasks_by_id tid ≡ none) → Step tid s s'
    placing : IsPlacing tid s s' → Step tid s s'

  skip_assigned :
      (tid : ℕ) (s : Schedule) {a : _}
      → get s.assignments tid ≡ some a
      → schedule_task nx calendar req graph tasks_by_id tid s ≡ ok s
  unfolding schedule_task
  skip_assigned tid s h = rw (h, schedule_task)

  skip_unknown :
      (tid : ℕ) (s : Schedule)
      → get s.assignments tid ≡ none
      → get tasks_by_id tid ≡ none
      → schedule_task nx calendar req graph tasks_by_id tid s ≡ ok s
  unfolding schedule_task
  skip_unknown tid s h k = rw (h, k, schedule_task)

  place_known :
      (tid : ℕ) (s : Schedule) (task : Task)
      → get s.assignments tid ≡ none
      → get tasks_by_id tid ≡ some task
      → schedule_task nx calendar req graph tasks_by_id tid s ≡ (
          earliest_start nx calendar task graph s.assignments req.horizon_start >>= λ earliest.
          place_task task earliest calendar
            (horizon_limit nx calendar req)
            (allowed_people req.people task)
            s.idx
          >>= λ placed. ok (record_placement tid s placed))
  unfolding schedule_task
  place_known tid s task h k = rw (h, k, schedule_task)

  pub schedule_task-Step :
      (tid : ℕ) (s s' : Schedule)
      → schedule_task nx calendar req graph tasks_by_id tid s ≡ ok s'
      → Step tid s s'
  schedule_task-Step tid s s' e = elim (Option-cases (get s.assignments tid)) [
    | inr (a, assigned) ↦
        let same = sym (skip_assigned tid s assigned) ∙ e in
        skipped (cc) (λ absent. absurd (clash absent assigned))
    | inl absent ↦ elim (Option-cases (get tasks_by_id tid)) [
      | inl unknown ↦
          let same = sym (skip_unknown tid s absent unknown) ∙ e in skipped (cc) (λ _. unknown)
      | inr (task, known) ↦
          let e' = sym (place_known tid s task absent known) ∙ e in
          let (earliest, starts, f) =
            >>=-eq-ok (earliest_start nx calendar task graph s.assignments req.horizon_start) _
              e' in
          let (placed, places, g) =
            >>=-eq-ok
              (place_task task earliest calendar (horizon_limit nx calendar req)
                (allowed_people req.people task) s.idx)
              _ f in
          placing (record {
            task = task;
            earliest = earliest;
            placed = placed;
            absent = absent;
            known = known;
            starts = starts;
            places = places;
            result = cc;
          })
    ]
  ]
    where
      clash : {A : Type 0} {o : Option A} {a : A} → o ≡ none → o ≡ some a → ⊥
      clash p q = cc

  -- An invariant of the tasks left and the state, kept by every round, holds at the end.
  pub schedule_all_ind {κ} :
      (P : List ℕ → Schedule → Type κ)
      → ((tid : ℕ) (l : List ℕ) (s s' : Schedule) → Step tid s s' → P (tid ∷ l) s → P l s')
      → (l : List ℕ) (s t : Schedule) → P l s
      → schedule_all nx calendar req graph tasks_by_id l s ≡ ok t
      → P [] t
  unfolding schedule_all
  schedule_all_ind P keep [] s t p e = subst (P []) (cc) p
  schedule_all_ind P keep (tid ∷ l) s t p e =
      let (s', first, rest) =
        >>=-eq-ok (schedule_task nx calendar req graph tasks_by_id tid s) _ e in
      schedule_all_ind P keep l s' t (keep tid l s s' (schedule_task-Step tid s s' first) p) rest
