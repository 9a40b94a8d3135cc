-- ===== src/Capture.antt =====
-- `CaptureTaskUseCase` of src/planner/app/capture_task.py over the repository.
pub mod Stored
pub mod Duplicates
use planner_dev.Prelude.{
  ℕ, zero, suc, String, Bool, true, false, not, ◌&&◌, Option, none, some, List, [], ◌∷◌,
  if◌then◌else◌, ◌==◌, nat_eq, string_eq,
}
use planner_dev.Prelude.Int.{ℤ, pos, negsuc}
use planner_dev.Payload.Json.{obj, field, end, str, plain, arr, Items, nil, cons}
use planner_dev.Intents.{CaptureTaskIntent}
use planner_dev.Database.{Database, Env}
use planner_dev.Database.Rows.{find_row}
use planner_dev.Database.Records.{ProjectRecord, TaskRecord, TextOps}
use planner_dev.Database.People.{get_person_by_name}
use planner_dev.Database.Projects.{get_project_by_title, create_project}
use planner_dev.Database.Work.{create_task, assign_task, list_project_tasks}
use planner_dev.Database.Boards.{add_audit}
use planner_dev.Confirm.{SinkTask, raised, missing, url, TaskSink}

abbrev pub inbox_project : String
inbox_project = "Inbox"

abbrev pub capture_hours : ℕ
capture_hours = 8

-- The deadline and the time of day stand for the text that is shown.
pub record CaptureResult : Type 0 where
  pub task_title : String
  pub project_title : String
  pub assignee_names : List String
  pub deadline : Option ℕ
  pub time_start : Option ℕ
  pub notion_url : Option String
  pub task_id : ℕ
  pub duration_hours : ℕ
  pub is_duplicate : Bool

abbrev pub or_inbox : String → String
or_inbox s = if s == "" then inbox_project else s

abbrev pub name_or_empty : Option String → String
name_or_empty none = ""
name_or_empty (some s) = s

-- A positive estimate, or the default.
abbrev pub duration_of : Option ℤ → ℕ
duration_of none = capture_hours
duration_of (some (pos zero)) = capture_hours
duration_of (some (pos (suc n))) = suc n
duration_of (some (negsuc n)) = capture_hours

abbrev pub names_json : List String → Items
names_json [] = nil
names_json (n ∷ l) = cons (str (plain n)) (names_json l)

abbrev pub pushed : Option TaskSink → SinkTask → Option String
pushed none task = none
pushed (some sink) task = elim (sink 0 task) [ raised ↦ none | missing ↦ none | url u ↦ some u ]

module _ (env : Env) (text : TextOps) where
  abbrev pub target_project : CaptureTaskIntent → String
  target_project intent = or_inbox (text.strip (name_or_empty intent.project_name))

  unfoldable pub resolve_project :
      Database → (target : String) → (actor_id : Option ℕ) → ProjectRecord × Database
  resolve_project db target actor_id = elim (get_project_by_title text db target) [
    | some existing ↦ (existing, db)
    | none ↦
        create_project env db
          (record {
            title = target;
            template_code = "";
            deadline = none;
            brief_return_date = none;
            priority = "medium";
          })
          actor_id none
  ]

  abbrev pub same_title : (wanted : String) → TaskRecord → Bool
  same_title wanted t = not (t.status == "done") && (text.lower (text.strip t.name) == wanted)

  unfoldable pub find_duplicate : Database → (project_id : ℕ) → (title : String) → Option TaskRecord
  unfolding find_row
  find_duplicate db project_id title =
      find_row (same_title (text.lower (text.strip title))) (list_project_tasks text db project_id)

  -- The loop over the names: those that are found, and the state with their assignments.
  unfoldable pub assign_all : Database → (task_id hours : ℕ) → List String → List String × Database
  assign_all db task_id hours [] = ([], db)
  assign_all db task_id hours (name ∷ l) = elim (get_person_by_name text db name) [
    | none ↦ assign_all db task_id hours l
    | some person ↦
        let rest = assign_all (assign_task db task_id person.id hours) task_id hours l in
        (person.name ∷ rest.0, rest.1)
  ]

  unfoldable pub capture_new :
      Database
      → ProjectRecord
      → CaptureTaskIntent
      → (actor_id : Option ℕ) → Option TaskSink
      → CaptureResult × Database
  unfolding assign_all
  capture_new db project intent actor_id sink =
      let duration = duration_of intent.est_hours in
      let created = create_task env db (record {
        project_id = project.id;
        name = intent.task_title;
        duration_hours = duration;
        deadline = intent.deadline;
        required_skills = intent.required_skills;
        time_start = intent.time_start;
      }) in
      let assigned = assign_all created.1 created.0.id duration intent.assignee_names in
      (
        record {
          task_title = intent.task_title;
          project_title = project.title;
          assignee_names = assigned.0;
          deadline = intent.deadline;
          time_start = intent.time_start;
          notion_url = pushed sink (record {
            title = intent.task_title;
            assignees = assigned.0;
            project = some project.title;
            deadline = intent.deadline;
            time_start = intent.time_start;
          });
          task_id = created.0.id;
          duration_hours = duration;
          is_duplicate = false;
        },
        add_audit env assigned.1 (record {
          actor_id = actor_id;
          action = "capture_task";
          entity_type = "task";
          entity_id = some created.0.id;
          payload = some (
              obj (
                field "title" (str (plain intent.task_title)) (
                  field "project" (str (plain project.title))
                    (field "assignees" (arr (names_json assigned.0)) end))));
        }),
      )

  unfoldable pub capture :
      Database
      → CaptureTaskIntent
      → (actor_id : Option ℕ) → Option TaskSink
      → CaptureResult × Database
  unfolding resolve_project find_duplicate capture_new
  capture db intent actor_id sink =
      let resolved = resolve_project db (target_project intent) actor_id in
      let project = resolved.0 in
      elim (find_duplicate resolved.1 project.id intent.task_title) [
        | none ↦ capture_new resolved.1 project intent actor_id sink
        | some duplicate ↦ (
          record {
            task_title = duplicate.name;
            project_title = project.title;
            assignee_names = [];
            deadline = duplicate.end_date;
            time_start = none;
            notion_url = none;
            task_id = duplicate.id;
            duration_hours = duplicate.duration_hours;
            is_duplicate = true;
          },
          resolved.1,
        )
      ]
