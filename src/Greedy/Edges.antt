-- ===== src/Greedy/Edges.antt =====
-- The edges of the graph of `build_dag` (src/planner/domain/solver/greedy.py) are the dependencies of
-- the request; of several between the same two tasks the last one counts.
use planner_dev.Prelude.{
  ℕ, ◌≡◌, refl, ◌∙◌, ◌&&◌, Option, none, some, List, [], ◌∷◌, arith, if◌then◌else◌, nat_eq, ◌==◌,
}
use planner_dev.Models.{Task, Dependency}
use planner_dev.Networkx.{Networkx, NetworkxLaws, EdgeData, update}
use planner_dev.Greedy.Dag.{add_tasks, add_dependencies, build_dag}

-- The last dependency of `v` on `u`.
abbrev pub dependency_of : List Dependency → ℕ → ℕ → Option Dependency
dependency_of [] u v = none
dependency_of (d ∷ l) u v = elim (dependency_of l u v) [
  | some later ↦ some later
  | none ↦ if (u == d.depends_on_id) && (v == d.task_id) then some d else none
]

abbrev pub edge_of : Dependency → EdgeData
edge_of d = record { link_type = some d.link_type; lag = some d.lag_working_days }

abbrev with_default : Option EdgeData → Option Dependency → Option EdgeData
with_default old none = old
with_default old (some d) = some (edge_of d)

module _ (nx : Networkx) (laws : NetworkxLaws nx) where
  edge-add_dependencies :
      (g : nx.DiGraph) (l : List Dependency) (u v : ℕ)
      → nx.edge (add_dependencies nx g l) u v ≡ with_default (nx.edge g u v) (dependency_of l u v)
  unfolding add_dependencies update
  edge-add_dependencies g [] u v = refl
  edge-add_dependencies g (d ∷ l) u v =
      let g' = nx.add_edge g d.depends_on_id d.task_id (edge_of d) in
      ground (
        arith,
        edge-add_dependencies g' l u v,
        laws.edge-add_edge g d.depends_on_id d.task_id u v (edge_of d),
      )

  pub edge-add_tasks :
      (g : nx.DiGraph) (l : List Task) (u v : ℕ) → nx.edge (add_tasks nx g l) u v ≡ nx.edge g u v
  unfolding add_tasks
  edge-add_tasks g [] u v = refl
  edge-add_tasks g (t ∷ l) u v =
      edge-add_tasks (nx.add_node g t.id) l u v ∙ laws.edge-add_node g t.id u v

  -- There is an edge for each dependency, with the attributes of the last one, and no other edge.
  pub edge-build_dag :
      (tasks : List Task) (deps : List Dependency) (u v : ℕ)
      → nx.edge (build_dag nx tasks deps) u v ≡ with_default none (dependency_of deps u v)
  unfolding build_dag
  edge-build_dag tasks deps u v =
      let g = add_tasks nx nx.empty tasks in
      let empty = edge-add_tasks nx.empty tasks u v ∙ laws.edge-empty u v in
      rw (← empty) (edge-add_dependencies g deps u v)
