-- ===== src/AddProject/Instantiate.antt =====
-- `instantiate_template` of src/planner/app/add_project.py.
use planner_dev.Prelude.{
  ℕ, ◌+◌, String, none, some, List, [], ◌∷◌, ◌++◌, nat_eq, string_eq, Result, ok, or_raise,
  key_error, ◌>>=◌,
}
use planner_dev.Prelude.Dict.{Dict, get, put}
use planner_dev.Models.{Task, Dependency}
use planner_dev.Database.{Env}
use planner_dev.Database.Projects.{TemplateTaskSpec, ProjectTemplate}

abbrev pub head_or {ℓ} : {A : Type ℓ} → A → List A → A
head_or x [] = x
head_or x (y ∷ l) = y

abbrev pub tail {ℓ} : {A : Type ℓ} → List A → List A
tail [] = []
tail (y ∷ l) = l

module _ (env : Env) where
  -- `ord_to_id`, from the n-th draw on.
  unfoldable pub ord_to_id : Dict ℕ ℕ → (draw : ℕ) → List TemplateTaskSpec → Dict ℕ ℕ
  ord_to_id d draw [] = d
  ord_to_id d draw (spec ∷ l) = ord_to_id (put d spec.ord (env.uuid4 draw)) (draw + 1) l

abbrev pub task_of : (project_id id : ℕ) → TemplateTaskSpec → Task
task_of project_id id spec = record {
  id = id;
  name = spec.name;
  duration_hours = spec.duration_hours;
  allowed_person_ids = spec.allowed_person_ids;
  project_id = some project_id;
  required_skills = [];
  is_splittable = spec.is_splittable;
  pair_mode = spec.pair_mode;
  duration_is_window = spec.duration_is_window;
  status = "not_done";
  source = "template";
  fixed_start = none;
  fixed_end = none;
  fixed_assignee_id = none;
}

unfoldable pub tasks_of : (project_id : ℕ) → Dict ℕ ℕ → List TemplateTaskSpec → Result (List Task)
tasks_of project_id ids [] = ok []
tasks_of project_id ids (spec ∷ l) = do
  id ← or_raise key_error (get ids spec.ord)
  rest ← tasks_of project_id ids l
  ok (task_of project_id id spec ∷ rest)

-- The dependencies of one task; a missing link is `FS`, a missing lag 0.
unfoldable pub deps_of :
    Dict ℕ ℕ
    → (task_id : ℕ) → (dep_ords : List ℕ) → (link_types : List String) → (lags : List ℕ)
    → Result (List Dependency)
deps_of ids task_id [] link_types lags = ok []
deps_of ids task_id (dep_ord ∷ l) link_types lags = do
  dep ← or_raise key_error (get ids dep_ord)
  rest ← deps_of ids task_id l (tail link_types) (tail lags)
  ok (
      record {
        task_id = task_id;
        depends_on_id = dep;
        link_type = head_or "FS" link_types;
        lag_working_days = head_or 0 lags;
      }
      ∷ rest)

unfoldable pub all_deps : Dict ℕ ℕ → List TemplateTaskSpec → Result (List Dependency)
unfolding deps_of
all_deps ids [] = ok []
all_deps ids (spec ∷ l) = do
  task_id ← or_raise key_error (get ids spec.ord)
  first ← deps_of ids task_id spec.depends_on_ords spec.link_types spec.dep_lags
  rest ← all_deps ids l
  ok (first ++ rest)

unfoldable pub instantiate_template :
    Env → (draw : ℕ) → ProjectTemplate → (project_id : ℕ) → Result (List Task × List Dependency)
unfolding ord_to_id tasks_of all_deps
instantiate_template env draw template project_id = do
  let ids = ord_to_id env [] draw template.tasks
  tasks ← tasks_of project_id ids template.tasks
  deps ← all_deps ids template.tasks
  ok (tasks, deps)
