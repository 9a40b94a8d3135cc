-- ===== src/Greedy/Assigned.antt =====
-- What a plan of `GreedySolver.plan` (src/planner/domain/solver/greedy.py) guarantees about each
-- assignment that the solver chooses.
use planner_dev.Prelude.{
  ℕ, ◌≤◌, ◌≡◌, sym, ap, ◌∙◌, subst, Bool, true, false, some, [], arith, nat_eq, nat_beq_iff, ◌==◌,
  is_some, get_elem?, inl, inr, Bool-cases, ok, sum_of,
}
use planner_dev.Prelude.Dict.{get}
use planner_dev.Calendar.{WorkingCalendar}
use planner_dev.Calendar.Laws.{IsCalendar}
use planner_dev.Models.{Task, Assignment, PlanRequest, PlanResult}
use planner_dev.Networkx.{Networkx}
use planner_dev.Greedy.{Schedule, initial, plan, horizon_limit}
use planner_dev.Greedy.Dag.{build_dag, earliest_start}
use planner_dev.Greedy.Choice.{index_tasks, allowed_people}
use planner_dev.Greedy.Starts.{raise_start-Respects}
use planner_dev.Greedy.Ways.{work_of, place_task-IsPlaced}
use planner_dev.Greedy.Steps.{Step, skipped, placing, schedule_all_ind, IsPlacing}
use planner_dev.Greedy.Precedence.{placed_here, placed_other}
use planner_dev.Greedy.Dependencies.{IsLabelled, initial-IsLabelled, IsLabelled-Step}
use planner_dev.Greedy.Run.{IsRun, plan-IsRun, is_pinned, assigned-initial, returned-IsEntry}

-- An assignment of a task of the request, from the start of the horizon on, with its hours.
pub record IsAssigned (calendar : WorkingCalendar) (req : PlanRequest) (a : Assignment)
    : Type 0 where
  pub task : Task
  pub known : get (index_tasks [] req.tasks) a.task_id ≡ some task
  pub from : req.horizon_start ≤ a.start_date
  pub ordered : a.start_date ≤ a.end_date
  pub works : calendar.is_working_day a.start_date ≡ true
  pub hours : sum_of (λ al. al.hours) a.allocations ≡ work_of task (allowed_people req.people task)

-- All assignments of a state but the pinned ones are of this kind.
abbrev AllAssigned : WorkingCalendar → PlanRequest → Schedule → Type 0
AllAssigned calendar req s =
    (v : ℕ) (a : Assignment)
    → is_pinned req.tasks v ≡ false
    → get s.assignments v ≡ some a
    → (a.task_id ≡ v) × IsAssigned calendar req a

module _ (nx : Networkx) (calendar : WorkingCalendar) (laws : IsCalendar calendar)
    (req : PlanRequest) (graph : nx.DiGraph) where
  placing-IsAssigned :
      (tid : ℕ) (s s' : Schedule)
      (p : IsPlacing nx calendar req graph (index_tasks [] req.tasks) tid s s')
      → IsAssigned calendar req (record {
        task_id = tid;
        person_id = p.placed.1.id;
        start_date = p.placed.0.start;
        end_date = p.placed.0.finish;
        allocations = p.placed.0.allocations;
      })
  unfolding earliest_start
  placing-IsAssigned tid s s' p =
      let t = p.task in
      let (low, respects) =
        raise_start-Respects nx calendar graph s.assignments t.id (nx.predecessors graph t.id)
          req.horizon_start p.earliest p.starts in
      let placed =
        place_task-IsPlaced calendar laws t p.earliest s.idx (horizon_limit nx calendar req)
          (allowed_people req.people t) p.placed p.places in
      record {
        task = t;
        known = p.known;
        from = omega (arith, low, placed.from);
        ordered = placed.ordered;
        works = placed.works;
        hours = placed.hours;
      }

  AllAssigned-Step :
      (tid : ℕ) (s s' : Schedule)
      → Step nx calendar req graph (index_tasks [] req.tasks) tid s s'
      → AllAssigned calendar req s
      → AllAssigned calendar req s'
  AllAssigned-Step tid s s' (skipped same known) h = subst (AllAssigned calendar req) same h
  AllAssigned-Step tid s s' (placing p) h = subst (AllAssigned calendar req) p.result (λ v b free e.
      elim (Bool-cases (tid == v)) [
        | inl here ↦
            subst (λ (c : Assignment). (c.task_id ≡ v) × IsAssigned calendar req c)
              (placed_here tid v s p.placed b here e)
              ((nat_beq_iff tid v).0 here, placing-IsAssigned tid s s' p)
        | inr other ↦ h v b free (placed_other tid v s p.placed b other e)
      ])

assigned_at_start :
    (calendar : WorkingCalendar) (req : PlanRequest)
    → AllAssigned calendar req (initial calendar req)
assigned_at_start calendar req v a free e =
    absurd (clash free (sym (assigned-initial calendar req v) ∙ ap is_some e))
  where
    clash : {b : Bool} → b ≡ false → b ≡ true → ⊥
    clash p q = cc

assigned_at_end :
    (nx : Networkx) (calendar : WorkingCalendar) (laws : IsCalendar calendar) (req : PlanRequest)
    (r : PlanResult) (run : IsRun nx calendar req r)
    → AllAssigned calendar req run.state × IsLabelled run.state
assigned_at_end nx calendar laws req r run =
    let g = build_dag nx req.tasks req.dependencies in
    let by_id = index_tasks [] req.tasks in
    schedule_all_ind nx calendar req g by_id (λ l s. AllAssigned calendar req s × IsLabelled s)
      (λ tid l s s' step inv. (
        AllAssigned-Step nx calendar laws req g tid s s' step inv.0,
        IsLabelled-Step nx calendar req g by_id tid s s' step inv.1,
      ))
      run.order (initial calendar req) run.state
      (assigned_at_start calendar req, initial-IsLabelled calendar req) run.runs

-- Every assignment of a plan that was not pinned as done is of a task of the request: it starts on a
-- working day, not before the horizon does, does not end before it starts, and has all the hours of
-- the task, twice for a pair, and none for a window. It is assumed that the calendar finds the next
-- working day.
pub plan-IsAssigned :
    (nx : Networkx) (calendar : WorkingCalendar) (laws : IsCalendar calendar) (req : PlanRequest)
    (r : PlanResult) (i : ℕ) (a : Assignment)
    → plan nx calendar req ≡ ok r
    → get_elem? r.assignments i ≡ some a
    → is_pinned req.tasks a.task_id ≡ false
    → IsAssigned calendar req a
plan-IsAssigned nx calendar laws req r i a h e free =
    let run = plan-IsRun nx calendar req r h in
    let (v, ev) = returned-IsEntry nx calendar req r run i a e in
    let (assigned, labelled) = assigned_at_end nx calendar laws req r run in
    let same = labelled v a ev in
    (assigned a.task_id a free (ap (get run.state.assignments) same ∙ ev)).1
