-- ===== src/AddProject.antt =====
-- `AddProjectUseCase` of src/planner/app/add_project.py over the repository and the solver's port
-- (src/planner/domain/solver/ports.py).
pub mod Instantiate
pub mod Templates
pub mod Loaded
pub mod Cases
pub mod Proposal
use planner_dev.Prelude.{
  ℕ, ◌+◌, String, Bool, false, Option, none, some, List, leb, ltb, length, if◌then◌else◌, ◌==◌,
  nat_eq, string_eq, Error, Result, ok, err, unfeasible, no_people, ◌>>=◌,
}
use planner_dev.Models.{
  Person, Task, Dependency, DayOverride, DayAllocation, PlanRequest, PlanResult,
}
use planner_dev.Intents.{AddProjectIntent}
use planner_dev.Payload.Json.{Codec, obj, field, end, str, plain}
use planner_dev.Payload.Writing.{serialize_plan}
use planner_dev.Database.{Database, Env}
use planner_dev.Database.Records.{ProjectRecord, TextOps}
use planner_dev.Database.Projects.{ProjectTemplate, create_project, set_project_notion_page}
use planner_dev.Database.Plans.{save_plan_version}
use planner_dev.Database.Saving.{save_project_tasks}
use planner_dev.Database.Boards.{add_audit}
use planner_dev.Confirm.{Push, raised, missing, url}
use planner_dev.AddProject.Instantiate.{instantiate_template}

-- What the use-case asks of a solver.
pub record SolverPort : Type 0 where
  pub plan : PlanRequest → Result PlanResult
  pub presented_earliest_end : PlanRequest → (start : ℕ) → Result ℕ

pub data ProjectError : Type 0 where
  empty_title past_deadline no_tasks cyclic nobody : ProjectError
  -- Any other exception.
  other : Error → ProjectError

pub record AddProjectResult : Type 0 where
  pub project : ProjectRecord
  pub plan_version_id : ℕ
  pub plan : PlanResult
  pub tasks : List Task
  pub earliest_end : Option ℕ
  pub notion_page_id : Option String

pub data ProjectAnswer : Type 0 where
  added : AddProjectResult → ProjectAnswer
  refused : ProjectError → ProjectAnswer

-- The handlers of the two exceptions of the solver.
abbrev pub solver_error : Error → ProjectError
solver_error unfeasible = cyclic
solver_error no_people = nobody
solver_error e = other e

abbrev pub is_past : Option ℕ → (today : ℕ) → Bool
is_past none today = false
is_past (some d) today = ltb d today

-- What `execute` is called with, but the intent and the template.
pub record ProjectCall : Type 0 where
  pub actor_id : Option ℕ
  pub people : List Person
  pub today : ℕ
  pub existing_allocations : List DayAllocation
  pub day_overrides : List DayOverride
  -- What the project sink answers, if there is one.
  pub card : Option Push

-- The page that is stored; an address that is empty is not.
abbrev pub page_of_card : Option Push → Option String
page_of_card none = none
page_of_card (some raised) = none
page_of_card (some missing) = none
page_of_card (some (url u)) = some u

abbrev pub store_page : Database → (project_id : ℕ) → Option String → Database
store_page db project_id none = db
store_page db project_id (some page) =
    if page == "" then db else set_project_notion_page db project_id page

module _ (env : Env) (c : Codec) (text : TextOps) (solver : SolverPort) where
  abbrev pub request_of : AddProjectIntent → ProjectCall → List Task → List Dependency → PlanRequest
  request_of intent call tasks deps = record {
    people = call.people;
    tasks = tasks;
    dependencies = deps;
    horizon_start = call.today;
    day_overrides = call.day_overrides;
    existing_allocations = call.existing_allocations;
    deadline = intent.deadline;
  }

  -- `solver.presented_earliest_end` where there is no deadline
  abbrev pub earliest_of : PlanRequest → (today : ℕ) → Result (Option ℕ)
  earliest_of req today = elim req.deadline [
    | some d ↦ ok none
    | none ↦ solver.presented_earliest_end req today >>= λ d. ok (some d)
  ]

  -- The writes, behind the plan.
  unfoldable pub write_project :
      Database
      → AddProjectIntent
      → ProjectCall
      → (title : String) → (project_id : ℕ) → List Task
      → PlanResult
      → (earliest_end : Option ℕ) → ProjectAnswer × Database
  unfolding create_project save_project_tasks save_plan_version add_audit set_project_notion_page
  write_project db intent call title project_id tasks plan earliest_end =
      let created =
        create_project env db
          (record {
            title = title;
            template_code = intent.template_code;
            deadline = intent.deadline;
            brief_return_date = intent.brief_return_date;
            priority = "medium";
          })
          call.actor_id (some project_id) in
      let saved = save_project_tasks created.1 created.0.id tasks plan.assignments in
      let version =
        save_plan_version env saved created.0.id "proposed" (serialize_plan c plan) call.actor_id in
      let audited = add_audit env version.1 (record {
        actor_id = call.actor_id;
        action = "add_project";
        entity_type = "project";
        entity_id = some created.0.id;
        payload = some (obj (field "title" (str (plain title)) end));
      }) in
      let page = page_of_card call.card in
      (
        added (record {
          project = created.0;
          plan_version_id = version.0.id;
          plan = plan;
          tasks = tasks;
          earliest_end = earliest_end;
          notion_page_id = page;
        }),
        store_page audited created.0.id page,
      )

  -- The state behind the draws of the project's and the tasks' identifiers.
  abbrev pub drawn : Database → ProjectTemplate → Database
  drawn db template = record db { draws = db.draws + 1 + length template.tasks }

  unfoldable pub after_end :
      Database
      → AddProjectIntent
      → ProjectCall
      → ProjectTemplate
      → List Task
      → PlanResult
      → Result (Option ℕ)
      → ProjectAnswer × Database
  unfolding write_project
  after_end db intent call template tasks plan (err e) = (refused (other e), db)
  after_end db intent call template tasks plan (ok earliest_end) =
      write_project (drawn db template) intent call (text.strip intent.title) (env.uuid4 db.draws)
        tasks plan earliest_end

  unfoldable pub after_plan :
      Database
      → AddProjectIntent
      → ProjectCall
      → ProjectTemplate
      → List Task
      → PlanRequest
      → Result PlanResult
      → ProjectAnswer × Database
  unfolding after_end
  after_plan db intent call template tasks req (err e) = (refused (solver_error e), db)
  after_plan db intent call template tasks req (ok plan) =
      after_end db intent call template tasks plan (earliest_of req call.today)

  unfoldable pub after_template :
      Database
      → AddProjectIntent
      → ProjectCall
      → ProjectTemplate
      → Result (List Task × List Dependency)
      → ProjectAnswer × Database
  unfolding after_plan
  after_template db intent call template (err e) = (refused (other e), db)
  after_template db intent call template (ok (tasks, deps)) =
      let req = request_of intent call tasks deps in
      after_plan db intent call template tasks req (solver.plan req)

  -- `execute`. The identifiers drawn by a call that is refused are not counted.
  unfoldable pub add_project :
      Database → AddProjectIntent → ProjectCall → ProjectTemplate → ProjectAnswer × Database
  unfolding after_template instantiate_template
  add_project db intent call template =
      if text.strip intent.title == ""
      then (refused empty_title, db)
      else if is_past intent.deadline call.today
      then (refused past_deadline, db)
      else if leb (length template.tasks) 0
      then (refused no_tasks, db)
      else after_template db intent call template
          (instantiate_template env (db.draws + 1) template (env.uuid4 db.draws))
