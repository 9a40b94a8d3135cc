-- ===== src/Critical/Chains.antt =====
-- Chains of dependent tasks, which `critical_path_end` measures
-- (src/planner/domain/solver/critical_path.py).
use planner_dev.Prelude.{
  ℕ, ◌+◌, ◌≤◌, ◌≡◌, ◌⊎◌, refl, sym, ap, ◌∙◌, subst, Bool, true, false, ◌&&◌, ◌||◌, Option, some,
  is_some, List, [], ◌∷◌, arith, nat_eq, nat_beq_iff, ◌==◌, mem, map, inl, inr, ok, or_raise,
  unfeasible, >>=-eq-ok, or_raise-eq-ok,
}
use planner_dev.Prelude.Dict.{Dict, get, put, get-put}
use planner_dev.Models.{Task, Dependency, PlanRequest}
use planner_dev.Networkx.{Networkx, NetworkxLaws, no_data}
use planner_dev.Greedy.Choice.{index_tasks, index_people}
use planner_dev.Greedy.Dag.{add_tasks}
use planner_dev.Greedy.Edges.{edge-add_tasks}
use planner_dev.Critical.{duration_days, add_links, path_graph, finish_all, longest_chain}
use planner_dev.Critical.Bases.{latest_finish-le, latest_finish_attained}
use planner_dev.Critical.Finishes.{IsFinish, finish_all-Holds, IsFinished, finish_all-IsFinished}

-- Whether `v` depends on `u`.
abbrev pub depends : List Dependency → ℕ → ℕ → Bool
depends [] u v = false
depends (d ∷ l) u v = ((u == d.depends_on_id) && (v == d.task_id)) || depends l u v

abbrev pub task_at : PlanRequest → ℕ → Option Task
task_at req v = get (index_tasks [] req.tasks) v

abbrev pub days_of : PlanRequest → Task → ℕ
days_of req task = duration_days task (index_people [] req.people)

-- A chain of tasks of the request, each depending on the one before: its last task, and the working
-- days of all of them, one after the other.
pub data Chain (req : PlanRequest) : ℕ → ℕ → Type 0 where
  alone : (v : ℕ) (task : Task) → task_at req v ≡ some task → Chain req v (days_of req task)
  behind :
      (u v n : ℕ) (task : Task)
      → Chain req u n
      → depends req.dependencies u v ≡ true
      → task_at req v ≡ some task
      → Chain req v (n + days_of req task)

same_value : {A : Type 0} {a b : A} → some a ≡ some b → a ≡ b
same_value h = cc

get-index_tasks :
    (d : Dict ℕ Task) (l : List Task) (v : ℕ)
    → is_some (get (index_tasks d l) v) ≡ (is_some (get d v) || mem v (map (λ t. t.id) l))
unfolding index_tasks
get-index_tasks d [] v = ground arith
get-index_tasks d (t ∷ l) v = ground (
  arith,
  get-index_tasks (put d t.id t) l v,
  get-put d t.id v t,
  nat_beq_iff t.id v,
  nat_beq_iff v t.id,
)

-- `n` is as long as the longest chain: no chain takes more days, and one takes as many, unless
-- there is no task.
pub record IsLongest (req : PlanRequest) (n : ℕ) : Type 0 where
  pub bound : (v k : ℕ) → Chain req v k → k ≤ n
  pub attained : (n ≡ 0) ⊎ (v : ℕ) × Chain req v n

module _ (nx : Networkx) (laws : NetworkxLaws nx) where
  edge-add_links :
      (g : nx.DiGraph) (l : List Dependency) (u v : ℕ)
      → is_some (nx.edge (add_links nx g l) u v) ≡ (is_some (nx.edge g u v) || depends l u v)
  unfolding add_links
  edge-add_links g [] u v = ground arith
  edge-add_links g (d ∷ l) u v = ground (
    arith,
    edge-add_links (nx.add_edge g d.depends_on_id d.task_id no_data) l u v,
    laws.edge-add_edge g d.depends_on_id d.task_id u v no_data,
  )

  edge-path_graph :
      (req : PlanRequest) (u v : ℕ)
      → is_some (nx.edge (path_graph nx req) u v) ≡ depends req.dependencies u v
  unfolding path_graph
  edge-path_graph req u v =
      let g = add_tasks nx nx.empty req.tasks in
      let empty = edge-add_tasks nx laws nx.empty req.tasks u v ∙ laws.edge-empty u v in
      edge-add_links g req.dependencies u v ∙ rw empty refl

  has_node-add_tasks :
      (g : nx.DiGraph) (l : List Task) (v : ℕ)
      → nx.has_node (add_tasks nx g l) v ≡ (nx.has_node g v || mem v (map (λ t. t.id) l))
  unfolding add_tasks
  has_node-add_tasks g [] v = ground arith
  has_node-add_tasks g (t ∷ l) v =
      ground (arith, has_node-add_tasks (nx.add_node g t.id) l v, laws.has_node-add_node g t.id v)

  has_node-add_links :
      (g : nx.DiGraph) (l : List Dependency) (v : ℕ)
      → nx.has_node g v ≡ true
      → nx.has_node (add_links nx g l) v ≡ true
  unfolding add_links
  has_node-add_links g [] v h = h
  has_node-add_links g (d ∷ l) v h =
      has_node-add_links (nx.add_edge g d.depends_on_id d.task_id no_data) l v
        (ground (arith, laws.has_node-add_edge g d.depends_on_id d.task_id v no_data))

  -- The tasks of the request are nodes.
  has_node-path_graph :
      (req : PlanRequest) (v : ℕ) (task : Task)
      → task_at req v ≡ some task
      → nx.has_node (path_graph nx req) v ≡ true
  unfolding path_graph get
  has_node-path_graph req v task h =
      let listed : mem v (map (λ t. t.id) req.tasks) ≡ true =
        sym (get-index_tasks [] req.tasks v) ∙ ap is_some h in
      has_node-add_links (add_tasks nx nx.empty req.tasks) req.dependencies v
        (ground (arith, has_node-add_tasks nx.empty req.tasks v, listed))

  module _ (req : PlanRequest) (order : List ℕ) (d : Dict ℕ ℕ) (n : ℕ)
      (sorted : nx.topological_sort (path_graph nx req) ≡ some order)
      (done : IsFinished nx
        (path_graph nx req)
        (index_tasks [] req.tasks)
        (index_people [] req.people)
        order
        []
        0
        d
        n) where
    abbrev Finish : ℕ → ℕ → Type 0
    Finish =
        IsFinish nx (path_graph nx req) (index_tasks [] req.tasks) (index_people [] req.people) d

    Finish-task_at :
        (v : ℕ) (task : Task)
        → task_at req v ≡ some task
        → (f : ℕ) × (get d v ≡ some f) × (f ≤ n) × Finish v f
    Finish-task_at v task h =
        done.finishes v
          (laws.order-nodes (path_graph nx req) order sorted v ∙ has_node-path_graph req v task h)

    -- A task's finish is no less than any chain that it ends.
    Chain-le : (v k : ℕ) → Chain req v k → (f : ℕ) × (get d v ≡ some f) × (f ≤ n) × (k ≤ f)
    Chain-le v k (alone v' task h) =
        let (f, e, low, finish) = Finish-task_at v' task h in
        let same : finish.task ≡ task = same_value (sym finish.known ∙ h) in
        let days = ap (days_of req) same in (f, e, low, omega (arith, finish.total, days))
    Chain-le v k (behind u v' m task c linked h) =
        let (fu, eu, lowu, mu) = Chain-le u m c in
        let (f, e, low, finish) = Finish-task_at v' task h in
        let same : finish.task ≡ task = same_value (sym finish.known ∙ h) in
        let days = ap (days_of req) same in
        let member : mem u (nx.predecessors (path_graph nx req) v') ≡ true =
          laws.mem-predecessors (path_graph nx req) u v' ∙ (edge-path_graph req u v' ∙ linked) in
        let under : fu ≤ finish.base =
          latest_finish-le d (nx.predecessors (path_graph nx req) v') finish.base u fu finish.behind
            member eu in
        (f, e, low, omega (arith, finish.total, days, under, mu))

  -- A task's finish is the length of a chain that it ends, if that holds of those before it.
  Chain-finish :
      (req : PlanRequest) (d : Dict ℕ ℕ) (v f : ℕ)
      → ((p k : ℕ) → get d p ≡ some k → Chain req p k)
      → IsFinish nx
          (path_graph nx req)
          (index_tasks [] req.tasks)
          (index_people [] req.people)
          d
          v
          f
      → Chain req v f
  Chain-finish req d v f chains finish =
      let preds = nx.predecessors (path_graph nx req) v in
      elim (latest_finish_attained d preds finish.base finish.behind) [
        | inl first ↦
            let days : days_of req finish.task ≡ f = omega (arith, first, finish.total) in
            subst (Chain req v) days (alone v finish.task finish.known)
        | inr (p, member, e) ↦
            let linked : depends req.dependencies p v ≡ true =
              sym (edge-path_graph req p v)
              ∙ (sym (laws.mem-predecessors (path_graph nx req) p v) ∙ member) in
            subst (Chain req v) finish.total
              (behind p v finish.base finish.task (chains p finish.base e) linked finish.known)
      ]

  -- What `critical_path_end` counts, if it answers, is the length in working days of the longest
  -- chain of dependent tasks: no chain is longer, and one is as long, unless there is no task. It is
  -- assumed that networkx sorts as documented.
  pub longest_chain-IsLongest :
      (req : PlanRequest) (n : ℕ) → longest_chain nx req ≡ ok n → IsLongest req n
  unfolding longest_chain get
  longest_chain-IsLongest req n h =
      let g = path_graph nx req in
      let tasks = index_tasks [] req.tasks in
      let people = index_people [] req.people in
      let (order, e1, h1) = >>=-eq-ok (or_raise unfeasible (nx.topological_sort g)) _ h in
      let (r, e2, h2) = >>=-eq-ok (finish_all nx g tasks people order [] 0) _ h1 in
      let sorted = or_raise-eq-ok unfeasible (nx.topological_sort g) order e1 in
      let same : r.1 ≡ n = cc in
      let done =
        finish_all-IsFinished nx g tasks people order [] r.0 0 r.1 (laws.order-nodup g order sorted)
          (λ v m. refl) e2 in
      let chains =
        finish_all-Holds nx g tasks people (Chain req) (Chain-finish req) order [] r.0 0 r.1 e2
          (λ p k e. cc) in
      subst (IsLongest req) same (record {
        bound = λ v k c.
            let (f, e, low, under) = Chain-le req order r.0 r.1 sorted done v k c in
            omega (arith, low, under);
        attained = elim done.top [
          | inl nothing ↦ inl nothing
          | inr (v, e) ↦ inr (v, chains v r.1 e)
        ];
      })
