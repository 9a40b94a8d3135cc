-- ===== src/MarkDone.antt =====
-- `MarkTaskDoneUseCase` of src/planner/app/mark_task_done.py over the repository.
use planner_dev.Prelude.{
  ℕ, String, Bool, not, Option, none, some, List, [], ◌∷◌, if◌then◌else◌, ◌==◌, nat_eq, string_eq,
  mem,
}
use planner_dev.Payload.Json.{obj, field, end, str, plain}
use planner_dev.Database.{Database, Env}
use planner_dev.Database.Rows.{find_row}
use planner_dev.Database.Records.{TextOps, ProjectRecord}
use planner_dev.Database.Projects.{get_project_by_title}
use planner_dev.Database.Work.{set_task_status}
use planner_dev.Database.Boards.{add_audit, list_tasks_with_meta}

abbrev pub allowed_statuses : List String
allowed_statuses = "not_done" ∷ "done" ∷ "preliminary" ∷ "confirmed" ∷ []

pub data MarkAnswer : Type 0 where
  permission_error : MarkAnswer
  invalid_status : String → MarkAnswer
  marked : MarkAnswer

abbrev pub page_of : Option ProjectRecord → Option String
page_of none = none
page_of (some p) = p.notion_page_id

-- The call that `_tick_notion` makes, if any: the page and the name of the task.
unfoldable pub tick_notion : TextOps → Database → ℕ → Option (String × String)
unfolding find_row
tick_notion text db task_id =
    elim (find_row (λ m. m.task_id == task_id) (list_tasks_with_meta text db)) [
      | none ↦ none
      | some m ↦ elim (page_of (get_project_by_title text db m.project_title)) [
        | none ↦ none
        | some page ↦ if page == "" then none else some (page, m.task_name)
      ]
    ]

-- The answer, the tick that is asked of the sink, and the new state.
unfoldable pub mark_task :
    Env
    → TextOps
    → Database
    → (task_id : ℕ) → (actor_id : Option ℕ) → (is_admin has_sink : Bool) → (status : String)
    → MarkAnswer × Option (String × String) × Database
unfolding tick_notion set_task_status add_audit
mark_task env text db task_id actor_id is_admin has_sink status =
    if not is_admin
    then (permission_error, none, db)
    else if not (mem status allowed_statuses)
    then (invalid_status status, none, db)
    else let written = set_task_status db task_id status in
      let db' = add_audit env written (record {
        actor_id = actor_id;
        action = "mark_task";
        entity_type = "task";
        entity_id = some task_id;
        payload = some (obj (field "status" (str (plain status)) end));
      }) in
      let ticked =
        if status == "done"
        then (if has_sink then tick_notion text db' task_id else none)
        else none in
      (marked, ticked, db')
