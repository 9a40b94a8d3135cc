-- ===== src/Greedy/Dag.antt =====
-- `build_dag` and `_earliest_start` of src/planner/domain/solver/greedy.py.
use planner_dev.Prelude.{
  ℕ, none, some, List, [], ◌∷◌, ltb, if◌then◌else◌, or_else, Result, ok, or_raise, key_error, ◌>>=◌,
  ◌==◌, nat_eq, string_eq,
}
use planner_dev.Prelude.Dict.{Dict, get}
use planner_dev.Calendar.{WorkingCalendar, first_working_day, nth_working_day}
use planner_dev.Models.{Task, Dependency, Assignment}
use planner_dev.Networkx.{Networkx, EdgeData}

module _ (nx : Networkx) where
  unfoldable pub add_tasks : nx.DiGraph → List Task → nx.DiGraph
  add_tasks g [] = g
  add_tasks g (t ∷ l) = add_tasks (nx.add_node g t.id) l

  unfoldable pub add_dependencies : nx.DiGraph → List Dependency → nx.DiGraph
  add_dependencies g [] = g
  add_dependencies g (d ∷ l) =
      let data_of : EdgeData = record {
        link_type = some d.link_type;
        lag = some d.lag_working_days;
      } in
      add_dependencies (nx.add_edge g d.depends_on_id d.task_id data_of) l

  unfoldable pub build_dag : List Task → List Dependency → nx.DiGraph
  unfolding add_tasks add_dependencies
  build_dag tasks deps = add_dependencies (add_tasks nx.empty tasks) deps

-- The first day that an edge allows, for a predecessor that is placed.
unfoldable pub candidate : WorkingCalendar → EdgeData → Assignment → Result ℕ
unfolding first_working_day nth_working_day
candidate calendar edge a = do
  link_type ← or_raise key_error edge.link_type
  let base = if link_type == "FS" then calendar.next_working_day a.end_date else a.start_date
  let lag = or_else edge.lag 0
  if ltb 0 lag then nth_working_day calendar base lag else ok (first_working_day calendar base)

module _ (nx : Networkx) (calendar : WorkingCalendar) where
  -- The loop of `_earliest_start`, with `est` so far.
  unfoldable pub raise_start : nx.DiGraph → Dict ℕ Assignment → ℕ → ℕ → List ℕ → Result ℕ
  unfolding candidate
  raise_start graph assignments task_id est [] = ok est
  raise_start graph assignments task_id est (dep_id ∷ l) = elim (get assignments dep_id) [
    | none ↦ raise_start graph assignments task_id est l
    | some a ↦ do
      edge ← or_raise key_error (nx.edge graph dep_id task_id)
      cand ← candidate calendar edge a
      raise_start graph assignments task_id (if ltb est cand then cand else est) l
  ]

  unfoldable pub earliest_start : Task → nx.DiGraph → Dict ℕ Assignment → ℕ → Result ℕ
  unfolding raise_start
  earliest_start task graph assignments horizon_start =
      raise_start graph assignments task.id horizon_start (nx.predecessors graph task.id)
