-- ===== src/AddProject/Templates.antt =====
-- The tasks of a template (src/planner/app/add_project.py).
use planner_dev.Prelude.{
  ℕ, ◌+◌, ◌≡◌, sym, ap, ◌∙◌, Bool, true, ◌||◌, some, String, List, [], ◌∷◌, ◌++◌, map, ◌==◌, nat_eq,
  nat_beq_iff, mem, All, All-imp, All-append, is_some, arith, Bool-cases, inl, inr, ok, or_raise,
  key_error, >>=-eq-ok, or_raise-eq-ok, subst,
}
use planner_dev.Prelude.Dict.{Dict, get, put, get-put}
use planner_dev.Models.{Task, Dependency}
use planner_dev.Database.{Env}
use planner_dev.Database.Projects.{TemplateTaskSpec, ProjectTemplate}
use planner_dev.AddProject.Instantiate.{
  ord_to_id, tasks_of, task_of, deps_of, all_deps, instantiate_template, head_or, tail,
}

abbrev task_ids : List Task → List ℕ
task_ids l = map (λ t. t.id) l

-- Exactly the order numbers of the template have an identifier.
pub get-ord_to_id :
    (env : Env) (d : Dict ℕ ℕ) (draw : ℕ) (l : List TemplateTaskSpec) (o : ℕ)
    → is_some (get (ord_to_id env d draw l) o) ≡ (is_some (get d o) || mem o (map (λ s. s.ord) l))
unfolding ord_to_id
get-ord_to_id env d draw [] o = ground arith
get-ord_to_id env d draw (spec ∷ l) o = ground (
  arith,
  get-ord_to_id env (put d spec.ord (env.uuid4 draw)) (draw + 1) l o,
  get-put d spec.ord o (env.uuid4 draw),
  nat_beq_iff spec.ord o,
  nat_beq_iff o spec.ord,
)

-- The identifier of an order number of the template is one of its tasks'.
mem-tasks_of :
    (project_id : ℕ) (ids : Dict ℕ ℕ) (l : List TemplateTaskSpec) (tasks : List Task) (o id : ℕ)
    → tasks_of project_id ids l ≡ ok tasks
    → mem o (map (λ s. s.ord) l) ≡ true
    → get ids o ≡ some id
    → mem id (task_ids tasks) ≡ true
unfolding tasks_of
mem-tasks_of project_id ids [] tasks o id h m e = cc
mem-tasks_of project_id ids (spec ∷ l) tasks o id h m e =
    let (first, e1, h1) = >>=-eq-ok (or_raise key_error (get ids spec.ord)) _ h in
    let (rest, e2, h2) = >>=-eq-ok (tasks_of project_id ids l) _ h1 in
    let known = or_raise-eq-ok key_error (get ids spec.ord) first e1 in
    let split : (task_of project_id first spec ∷ rest) ≡ tasks = cc in
    subst (λ ts. mem id (task_ids ts) ≡ true) split
      (elim (Bool-cases (o == spec.ord)) [
        | inl own ↦
            let path = (nat_beq_iff o spec.ord).0 own in
            let same : id ≡ first = same_value (sym e ∙ (ap (get ids) path ∙ known)) in
            or_left (id == first) (mem id (task_ids rest)) ((nat_beq_iff id first).1 same)
        | inr other ↦
            or_right (id == first) (mem id (task_ids rest))
              (mem-tasks_of project_id ids l rest o id e2 (rw other at m) e)
      ])
  where
    same_value : {a b : ℕ} → some a ≡ some b → a ≡ b
    same_value p = cc

    or_left : (b m : Bool) → b ≡ true → (b || m) ≡ true
    or_left b m h = ground arith

    or_right : (b m : Bool) → m ≡ true → (b || m) ≡ true
    or_right b m h = ground arith

-- Both ends of a dependency are identifiers of order numbers.
abbrev Joins : Dict ℕ ℕ → Dependency → Type 0
Joins ids d =
    (from : ℕ) × (to : ℕ) × (get ids from ≡ some d.task_id) × (get ids to ≡ some d.depends_on_id)

deps_of-Joins :
    (ids : Dict ℕ ℕ) (from task_id : ℕ) (dep_ords : List ℕ) (link_types : List String)
    (lags : List ℕ) (deps : List Dependency)
    → get ids from ≡ some task_id
    → deps_of ids task_id dep_ords link_types lags ≡ ok deps
    → All (Joins ids) deps
unfolding deps_of
deps_of-Joins ids from task_id [] link_types lags deps k h =
    let none_left : [] ≡ deps = cc in subst (All (Joins ids)) none_left tt
deps_of-Joins ids from task_id (o ∷ l) link_types lags deps k h =
    let (dep, e1, h1) = >>=-eq-ok (or_raise key_error (get ids o)) _ h in
    let (rest, e2, h2) = >>=-eq-ok (deps_of ids task_id l (tail link_types) (tail lags)) _ h1 in
    let first : Dependency = record {
      task_id = task_id;
      depends_on_id = dep;
      link_type = head_or "FS" link_types;
      lag_working_days = head_or 0 lags;
    } in
    let split : (first ∷ rest) ≡ deps = cc in
    subst (All (Joins ids)) split (
      (from, o, k, or_raise-eq-ok key_error (get ids o) dep e1),
      deps_of-Joins ids from task_id l (tail link_types) (tail lags) rest k e2,
    )

all_deps-Joins :
    (ids : Dict ℕ ℕ) (l : List TemplateTaskSpec) (deps : List Dependency)
    → all_deps ids l ≡ ok deps
    → All (Joins ids) deps
unfolding all_deps
all_deps-Joins ids [] deps h =
    let none_left : [] ≡ deps = cc in subst (All (Joins ids)) none_left tt
all_deps-Joins ids (spec ∷ l) deps h =
    let (task_id, e1, h1) = >>=-eq-ok (or_raise key_error (get ids spec.ord)) _ h in
    let (first, e2, h2) =
      >>=-eq-ok (deps_of ids task_id spec.depends_on_ords spec.link_types spec.dep_lags) _ h1 in
    let (rest, e3, h3) = >>=-eq-ok (all_deps ids l) _ h2 in
    let split : (first ++ rest) ≡ deps = cc in
    subst (All (Joins ids)) split (
      All-append (Joins ids) first rest
        (deps_of-Joins ids spec.ord task_id spec.depends_on_ords spec.link_types spec.dep_lags first
          (or_raise-eq-ok key_error (get ids spec.ord) task_id e1) e2)
        (all_deps-Joins ids l rest e3))

-- Both ends of a dependency are among the tasks.
abbrev pub IsWithin : List Task → Dependency → Type 0
IsWithin tasks d =
    (mem d.task_id (task_ids tasks) ≡ true) × (mem d.depends_on_id (task_ids tasks) ≡ true)

known_ord :
    (env : Env) (draw : ℕ) (l : List TemplateTaskSpec) (o id : ℕ)
    → get (ord_to_id env [] draw l) o ≡ some id
    → mem o (map (λ s. s.ord) l) ≡ true
unfolding get
known_ord env draw l o id e = sym (get-ord_to_id env [] draw l o) ∙ ap is_some e

-- If a template is instantiated, the dependencies join tasks that are instantiated with them.
pub instantiate_template-IsWithin :
    (env : Env) (draw : ℕ) (template : ProjectTemplate) (project_id : ℕ) (tasks : List Task)
    (deps : List Dependency)
    → instantiate_template env draw template project_id ≡ ok (tasks, deps)
    → All (IsWithin tasks) deps
unfolding instantiate_template
instantiate_template-IsWithin env draw template project_id tasks deps h =
    let ids = ord_to_id env [] draw template.tasks in
    let (made, e1, h1) = >>=-eq-ok (tasks_of project_id ids template.tasks) _ h in
    let (joined, e2, h2) = >>=-eq-ok (all_deps ids template.tasks) _ h1 in
    let same_tasks : made ≡ tasks = cc in
    let same_deps : joined ≡ deps = cc in
    let at : (o id : ℕ) → get ids o ≡ some id → mem id (task_ids made) ≡ true = λ o id e.
      mem-tasks_of project_id ids template.tasks made o id e1
        (known_ord env draw template.tasks o id e) e in
    let within =
      All-imp (Joins ids) (IsWithin made)
        (λ d (from, to, ef, et). (at from d.task_id ef, at to d.depends_on_id et)) joined
        (all_deps-Joins ids template.tasks joined e2) in
    subst (λ ts. All (IsWithin ts) deps) same_tasks
      (subst (λ ds. All (IsWithin made) ds) same_deps within)
