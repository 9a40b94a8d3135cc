-- ===== src/Critical.antt =====
-- The critical path: src/planner/domain/solver/critical_path.py.
pub mod Bases
pub mod Finishes
pub mod Chains
use planner_dev.Prelude.{
  ℕ, zero, suc, ◌+◌, max, min, Option, none, some, List, [], ◌∷◌, leb, if◌then◌else◌, nat_eq,
  Result, ok, or_raise, unfeasible, key_error, ◌>>=◌,
}
use planner_dev.Prelude.Dict.{Dict, get, put}
use planner_dev.Calendar.{WorkingCalendar, first_working_day, nth_working_day}
use planner_dev.Units.{ceil_div}
use planner_dev.Models.{Person, Task, Dependency, PlanRequest}
use planner_dev.Networkx.{Networkx, no_data}
use planner_dev.Greedy.Choice.{index_people, index_tasks, known_people}
use planner_dev.Greedy.Dag.{add_tasks}

abbrev pub backward_buffer_working_days : ℕ
backward_buffer_working_days = 2

-- `min(caps)` of the people, none for nobody.
unfoldable pub least_capacity : List Person → Option ℕ
least_capacity [] = none
least_capacity (p ∷ l) = elim (least_capacity l) [
  | none ↦ some p.capacity_h
  | some c ↦ some (min p.capacity_h c)
]

abbrev pub or_eight : Option ℕ → ℕ
or_eight none = 8
or_eight (some c) = c

unfoldable pub duration_days : Task → Dict ℕ Person → ℕ
unfolding least_capacity known_people
duration_days task people_by_id =
    let cap =
      max (or_eight (least_capacity (known_people people_by_id task.allowed_person_ids))) 1 in
    max 1 (ceil_div task.duration_hours cap)

module _ (nx : Networkx) where
  -- `g.add_edge(d.depends_on_id, d.task_id)` for each dependency
  unfoldable pub add_links : nx.DiGraph → List Dependency → nx.DiGraph
  add_links g [] = g
  add_links g (d ∷ l) = add_links (nx.add_edge g d.depends_on_id d.task_id no_data) l

  unfoldable pub path_graph : PlanRequest → nx.DiGraph
  unfolding add_tasks add_links
  path_graph req = add_links (add_tasks nx nx.empty req.tasks) req.dependencies

-- `max((ef_days[p] for p in preds), default=0)`
unfoldable pub latest_finish : Dict ℕ ℕ → List ℕ → Result ℕ
latest_finish ef_days [] = ok 0
latest_finish ef_days (p ∷ l) = do
  first ← or_raise key_error (get ef_days p)
  rest ← latest_finish ef_days l
  ok (max first rest)

module _ (nx : Networkx) (g : nx.DiGraph) (tasks_by_id : Dict ℕ Task)
    (people_by_id : Dict ℕ Person) where
  -- One round of the loop: the earliest finish of a task, in working days.
  unfoldable pub finish_task : ℕ → Dict ℕ ℕ → Result ℕ
  unfolding latest_finish duration_days
  finish_task tid ef_days = do
    task ← or_raise key_error (get tasks_by_id tid)
    base ← latest_finish ef_days (nx.predecessors g tid)
    ok (base + duration_days task people_by_id)

  -- The loop over the order: the finishes, and the greatest of them.
  unfoldable pub finish_all : List ℕ → Dict ℕ ℕ → (max_ef : ℕ) → Result (Dict ℕ ℕ × ℕ)
  unfolding finish_task
  finish_all [] ef_days max_ef = ok (ef_days, max_ef)
  finish_all (tid ∷ l) ef_days max_ef = do
    ef ← finish_task tid ef_days
    finish_all l (put ef_days tid ef) (max max_ef ef)

module _ (nx : Networkx) where
  unfoldable pub longest_chain : PlanRequest → Result ℕ
  unfolding finish_all path_graph
  longest_chain req = do
    let g = path_graph nx req
    order ← or_raise unfeasible (nx.topological_sort g)
    r ← finish_all nx g (index_tasks [] req.tasks) (index_people [] req.people) order [] 0
    ok r.1

module _ (nx : Networkx) (calendar : WorkingCalendar) where
  unfoldable pub critical_path_end : PlanRequest → (start : ℕ) → Result ℕ
  unfolding longest_chain
  critical_path_end req start = longest_chain nx req >>= λ max_ef.
      if leb max_ef 0
      then ok (first_working_day calendar start)
      else nth_working_day calendar start max_ef

  -- `for _ in range(n): end = calendar.next_working_day(end)`
  unfoldable pub buffered : ℕ → ℕ → ℕ
  buffered zero finish = finish
  buffered (suc n) finish = buffered n (calendar.next_working_day finish)

  unfoldable pub presented_earliest_end : PlanRequest → (start : ℕ) → Result ℕ
  unfolding critical_path_end buffered
  presented_earliest_end req start = do
    finish ← critical_path_end req start
    ok (buffered backward_buffer_working_days finish)
