-- ===== src/Greedy.antt =====
-- The solver's planning run: `GreedySolver.plan` and `_overload_flags` of
-- src/planner/domain/solver/greedy.py. A raised exception is an error value.
pub mod Dag
pub mod Choice
pub mod Starts
pub mod Placed
pub mod Ways
pub mod Steps
pub mod Edges
pub mod Precedence
pub mod Run
pub mod Dependencies
pub mod Assigned
use planner_dev.Prelude.{
  ℕ, zero, suc, ◌+◌, ◌-◌, ◌≤◌, max, Bool, true, false, not, ◌&&◌, ◌||◌, Option, none, some, List,
  [], ◌∷◌, ◌++◌, map, leb, ltb, if◌then◌else◌, or_else, is_some, length, Result, ok, err, or_raise,
  no_people, unfeasible, key_error, index_error, assertion_error, ◌>>=◌, ◌==◌, nat_eq, string_eq,
}
use planner_dev.Prelude.Dict.{Dict, get, put}
use planner_dev.Calendar.{WorkingCalendar, first_working_day, nth_working_day}
use planner_dev.Units.{hours_to_working_days}
use planner_dev.Models.{
  Person, Task, Dependency, Assignment, RiskFlag, overload_of, deadline_of, PlanRequest, PlanResult,
}
use planner_dev.Networkx.{Networkx, EdgeData}
use planner_dev.Capacity.{CapacityIndex, Overload, make_index, occupy, overloads}
use planner_dev.Allocate.{Placement, chunk, allocate, allocate_window, allocate_pair}
use planner_dev.Greedy.Dag.{build_dag, earliest_start}
use planner_dev.Greedy.Choice.{index_tasks, allowed_people, place_task}

abbrev pub horizon_days : ℕ
horizon_days = 365

-- The variables of the planning loop.
pub record Schedule : Type 0 where
  pub assignments : Dict ℕ Assignment
  pub idx : CapacityIndex

abbrev pub assignment_of : ℕ → Placement × Person × CapacityIndex → Assignment
assignment_of tid (p, person, idx) = record {
  task_id = tid;
  person_id = person.id;
  start_date = p.start;
  end_date = p.finish;
  allocations = p.allocations;
}

-- `idx.occupy(allocs)` and `assignments[tid] = …`
abbrev pub record_placement : ℕ → Schedule → Placement × Person × CapacityIndex → Schedule
record_placement tid s r = record {
  assignments = put s.assignments tid (assignment_of tid r);
  idx = occupy r.2 r.0.allocations;
}

-- The assignment of an immovable task.
unfoldable pub pinned : Task → Option Assignment
pinned t = elim t.fixed_start [
  | none ↦ none
  | some start ↦ elim t.fixed_assignee_id [
    | none ↦ none
    | some person_id ↦
        if t.status == "done"
        then some (record {
          task_id = t.id;
          person_id = person_id;
          start_date = start;
          end_date = or_else t.fixed_end start;
          allocations = chunk person_id start t.duration_hours ∷ [];
        })
        else none
  ]
]

-- The loop that places the immovable tasks first.
unfoldable pub pin_done : Schedule → List Task → Schedule
pin_done s [] = s
pin_done s (t ∷ l) = elim (pinned t) [
  | none ↦ pin_done s l
  | some a ↦
      pin_done (record { assignments = put s.assignments t.id a; idx = occupy s.idx a.allocations })
        l
]

module _ (nx : Networkx) (calendar : WorkingCalendar) (req : PlanRequest) where
  abbrev pub horizon_limit : ℕ
  horizon_limit = req.horizon_start + horizon_days

  -- The body of `for tid in order`.
  unfoldable pub schedule_task : nx.DiGraph → Dict ℕ Task → ℕ → Schedule → Result Schedule
  unfolding earliest_start allowed_people place_task
  schedule_task graph tasks_by_id tid s = elim (get s.assignments tid) [
    | some a ↦ ok s
    | none ↦ elim (get tasks_by_id tid) [
      | none ↦ ok s
      | some task ↦ do
        earliest ← earliest_start nx calendar task graph s.assignments req.horizon_start
        placed ←
            place_task task earliest calendar horizon_limit (allowed_people req.people task) s.idx
        ok (record_placement tid s placed)
    ]
  ]

  unfoldable pub schedule_all : nx.DiGraph → Dict ℕ Task → List ℕ → Schedule → Result Schedule
  unfolding schedule_task
  schedule_all graph tasks_by_id [] s = ok s
  schedule_all graph tasks_by_id (tid ∷ l) s = do
    s' ← schedule_task graph tasks_by_id tid s
    schedule_all graph tasks_by_id l s'

unfoldable pub overload_flag : Overload → RiskFlag
unfolding hours_to_working_days
overload_flag o = record {
  kind = "overload";
  message = overload_of (hours_to_working_days o.used o.base) o.day;
  task_id = none;
  person_id = some o.person_id;
  day = some o.day;
}

unfoldable pub overload_flags : CapacityIndex → List RiskFlag
unfolding overload_flag overloads
overload_flags idx = map overload_flag (overloads idx)

-- `max((a.end_date for a in assignments.values()), default=None)`
unfoldable pub latest_end : Dict ℕ Assignment → Option ℕ
latest_end [] = none
latest_end ((tid, a) ∷ l) = elim (latest_end l) [
  | none ↦ some a.end_date
  | some d ↦ some (max a.end_date d)
]

-- The flag of a plan that ends behind its deadline.
unfoldable pub deadline_flags : Option ℕ → Option ℕ → List RiskFlag
deadline_flags none finish = []
deadline_flags (some deadline) none = []
deadline_flags (some deadline) (some finish) =
    if ltb deadline finish
    then record {
      kind = "deadline_missed";
      message = deadline_of finish deadline;
      task_id = none;
      person_id = none;
      day = none;
    }
      ∷ []
    else []

-- `assignments[tid] for tid in order if tid in assignments`
unfoldable pub in_order : Dict ℕ Assignment → List ℕ → List Assignment
in_order assignments [] = []
in_order assignments (tid ∷ l) = elim (get assignments tid) [
  | none ↦ in_order assignments l
  | some a ↦ a ∷ in_order assignments l
]

-- The result that the final state gives.
unfoldable pub plan_result : Option ℕ → List ℕ → Schedule → PlanResult
unfolding overload_flags latest_end deadline_flags in_order
plan_result deadline order s = record {
  assignments = in_order s.assignments order;
  risks = overload_flags s.idx ++ deadline_flags deadline (latest_end s.assignments);
  end_date = latest_end s.assignments;
}

-- The state before the main loop.
unfoldable pub initial : WorkingCalendar → PlanRequest → Schedule
unfolding make_index pin_done
initial calendar req =
    pin_done
      (record {
        assignments = [];
        idx = make_index req.people calendar req.day_overrides req.existing_allocations;
      })
      req.tasks

-- `req.tasks and not req.people`
unfoldable pub lacks_people : PlanRequest → Bool
lacks_people req = leb 1 (length req.tasks) && leb (length req.people) 0

-- `GreedySolver.plan`
unfoldable pub plan : Networkx → WorkingCalendar → PlanRequest → Result PlanResult
unfolding pinned occupy lacks_people build_dag index_tasks schedule_all initial plan_result
plan nx calendar req = if lacks_people req then err no_people else do
  let graph = build_dag nx req.tasks req.dependencies
  order ← or_raise unfeasible (nx.topological_sort graph)
  s ← schedule_all nx calendar req graph (index_tasks [] req.tasks) order (initial calendar req)
  ok (plan_result req.deadline order s)
