-- ===== src/Tests/Adding.antt =====
-- A project of two tasks added, refused, and started.
use planner_dev.Prelude.{
  ℕ, ◌≡◌, refl, ◌==◌, nat_eq, false, some, none, List, [], ◌∷◌, All, ok, err, unfeasible,
}
use planner_dev.Prelude.Dict.{get, put}
use planner_dev.Models.{Task, Dependency}
use planner_dev.Intents.{AddProjectIntent}
use planner_dev.Database.{Database}
use planner_dev.Database.Rows.{any_row}
use planner_dev.Database.Tables.{TemplateTaskRow}
use planner_dev.Database.Projects.{get_project_template, TemplateTaskSpec, ProjectTemplate}
use planner_dev.Confirm.{url}
use planner_dev.AddProject.Instantiate.{task_of, instantiate_template}
use planner_dev.AddProject.{
  SolverPort, ProjectCall, AddProjectResult, added, refused, cyclic, add_project,
}
use planner_dev.AddProject.Loaded.{instantiate_template-get_project_template}
use planner_dev.AddProject.Templates.{IsWithin, instantiate_template-IsWithin}
use planner_dev.AddProject.Proposal.{IsStarted, add_project_refused, confirm-add_project}
use planner_dev.Tests.Samples.{ann, bob, outcome}
use planner_dev.Tests.Snapshots.{tally, tally_laws}
use planner_dev.Tests.Stores.{env, text, store, mirror}

abbrev pub spec : ℕ → List ℕ → TemplateTaskSpec
spec ord before = record {
  ord = ord;
  name = "step";
  duration_hours = 8;
  allowed_person_ids = 1 ∷ [];
  depends_on_ords = before;
  link_types = "FS" ∷ [];
  dep_lags = [];
  is_splittable = false;
  pair_mode = "none";
  duration_is_window = false;
}

abbrev pub two_steps : ProjectTemplate
two_steps = record { code = "poster"; tasks = spec 1 [] ∷ spec 2 (1 ∷ []) ∷ [] }

abbrev made : List Task × List Dependency
made = (
  task_of 40 101 (spec 1 []) ∷ task_of 40 102 (spec 2 (1 ∷ [])) ∷ [],
  record { task_id = 102; depends_on_id = 101; link_type = "FS"; lag_working_days = 0 } ∷ [],
)

instantiate_template-IsWithin_example : All (IsWithin made.0) made.1
instantiate_template-IsWithin_example =
    instantiate_template-IsWithin env 1 two_steps 40 made.0 made.1 instantiated
  where
    instantiated : instantiate_template env 1 two_steps 40 ≡ ok made
    instantiated = unfold instantiate_template get put in refl

-- A solver that gives the one plan, and one that finds a cycle.
abbrev pub solved : SolverPort
solved = record { plan = λ req. ok outcome; presented_earliest_end = λ req start. ok start }

abbrev stuck : SolverPort
stuck = record { plan = λ req. err unfeasible; presented_earliest_end = λ req start. ok start }

abbrev pub poster : AddProjectIntent
poster = record {
  title = "poster";
  template_code = "poster";
  deadline = none;
  brief_return_date = none;
  notes = none;
}

abbrev pub on_monday : ProjectCall
on_monday = record {
  actor_id = some 1;
  people = ann ∷ bob ∷ [];
  today = 1;
  existing_allocations = [];
  day_overrides = [];
  card = some (url "card");
}

add_project_refused_example :
    (add_project env tally text stuck store poster on_monday two_steps).1 ≡ store
add_project_refused_example =
    add_project_refused env tally text stuck store poster on_monday two_steps cyclic cycle
  where
    cycle : (add_project env tally text stuck store poster on_monday two_steps).0 ≡ refused cyclic
    cycle = unfold add_project get put in refl

-- What the call answers.
abbrev poster_answer : AddProjectResult
poster_answer = record {
  project = record {
    id = 100;
    title = "poster";
    status = "planning";
    deadline = none;
    priority = "medium";
    template_code = some "poster";
    start_date = none;
    notion_page_id = none;
  };
  plan_version_id = 104;
  plan = outcome;
  tasks = task_of 100 101 (spec 1 []) ∷ task_of 100 102 (spec 2 (1 ∷ [])) ∷ [];
  earliest_end = some 1;
  notion_page_id = some "card";
}

abbrev with_poster : Database
with_poster = (add_project env tally text solved store poster on_monday two_steps).1

confirm-add_project_example :
    IsStarted env tally text with_poster (some 1) (some mirror) outcome 104
confirm-add_project_example =
    confirm-add_project env tally text solved tally_laws store poster on_monday two_steps
      poster_answer with_poster answered fresh (some 1) (some mirror)
  where
    answered :
        add_project env tally text solved store poster on_monday two_steps
        ≡ (added poster_answer, with_poster)
    answered = unfold add_project get put in refl

    fresh : any_row (λ v. v.id == 104) store.plan_versions ≡ false
    fresh = unfold any_row in refl

abbrev step_row : ℕ → ℕ → TemplateTaskRow
step_row id ord = record {
  id = id;
  template_id = 7;
  ord = ord;
  name = "step";
  duration_hours = 8;
  duration_is_window = false;
  is_splittable = false;
  allow_two_assignees = false;
  pair_mode = "none";
  optional_in_lite = false;
}

-- A template of two tasks, the second one after the first.
abbrev catalogue : Database
catalogue = record store {
  templates = record { id = 7; code = "poster"; name = "poster" } ∷ [];
  template_tasks = step_row 71 1 ∷ step_row 72 2 ∷ [];
  template_dependencies =
      record { template_task_id = 72; depends_on_id = 71; link_type = "FS"; lag_working_days = 0 }
      ∷ [];
}

abbrev poster_template : ProjectTemplate
poster_template = record {
  code = "poster";
  tasks =
      record (spec 1 []) { allowed_person_ids = []; link_types = [] }
      ∷ record (spec 2 (1 ∷ [])) { allowed_person_ids = []; dep_lags = 0 ∷ [] }
      ∷ [];
}

instantiate_template-get_project_template_example :
    (made : List Task × List Dependency) × (instantiate_template env 1 poster_template 40 ≡ ok made)
instantiate_template-get_project_template_example =
    instantiate_template-get_project_template text catalogue "poster" poster_template stored env 1
      40
  where
    stored : get_project_template text catalogue "poster" ≡ some poster_template
    stored = unfold get_project_template get in refl
