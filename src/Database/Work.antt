-- ===== src/Database/Work.antt =====
-- Tasks and their assignments in `SqlAlchemyRepo` (src/planner/infra/db/repo.py).
use planner_dev.Prelude.{
  ℕ, ◌+◌, String, Bool, true, false, ◌&&◌, not, Option, none, some, List, [], ◌∷◌, map, keep, ◌==◌,
  nat_eq, string_eq,
}
use planner_dev.Prelude.Dict.{Dict, put}
use planner_dev.Models.{Dependency}
use planner_dev.Database.{Database, Env}
use planner_dev.Database.Tables.{TaskRow, ProjectRow, AssignmentRow}
use planner_dev.Database.Rows.{find_row, change_rows, order_by, add_row}
use planner_dev.Database.Records.{TaskRecord, TextOps}

-- The arguments of `create_task`, but the author, who is not stored.
pub record NewTask : Type 0 where
  pub project_id : ℕ
  pub name : String
  pub duration_hours : ℕ
  pub deadline : Option ℕ
  pub required_skills : List String
  pub time_start : Option ℕ

unfoldable pub create_task : Env → Database → NewTask → TaskRecord × Database
create_task env db new =
    let id = env.uuid4 db.draws in
    let row : TaskRow = record {
      id = id;
      project_id = new.project_id;
      template_task_id = none;
      name = new.name;
      duration_hours = new.duration_hours;
      start_date = none;
      end_date = new.deadline;
      time_start = new.time_start;
      status = "not_done";
      source = "bot_formed";
      required_skills = new.required_skills;
      is_preliminary = false;
      is_splittable = false;
      duration_is_window = false;
      allow_two_assignees = false;
      pair_mode = "none";
    } in
    (
      record {
        id = id;
        name = new.name;
        status = "not_done";
        start_date = none;
        end_date = new.deadline;
        duration_hours = new.duration_hours;
      },
      record db { tasks = add_row db.tasks row; draws = db.draws + 1 },
    )

abbrev pub is_assignment : ℕ → ℕ → AssignmentRow → Bool
is_assignment task_id person_id a = (a.task_id == task_id) && (a.person_id == person_id)

unfoldable pub assign_task : Database → (task_id person_id hours : ℕ) → Database
unfolding find_row change_rows
assign_task db task_id person_id hours =
    elim (find_row (is_assignment task_id person_id) db.assignments) [
      | none ↦ record db {
        assignments =
            add_row db.assignments
              (record { task_id = task_id; person_id = person_id; hours = hours });
      }
      | some existing ↦ record db {
        assignments =
            change_rows (is_assignment task_id person_id) (λ a. record a { hours = hours })
              db.assignments;
      }
    ]

-- A date that is given replaces the old one.
abbrev pub newer_date : Option ℕ → Option ℕ → Option ℕ
newer_date old none = old
newer_date old (some d) = some d

unfoldable pub update_task_schedule :
    Database → (task_id : ℕ) → (start finish : Option ℕ) → Database
unfolding change_rows
update_task_schedule db task_id start finish = record db {
  tasks =
      change_rows (λ t. t.id == task_id)
        (λ t. record t {
          start_date = newer_date t.start_date start;
          end_date = newer_date t.end_date finish;
        })
        db.tasks;
}

unfoldable pub set_task_status : Database → ℕ → String → Database
unfolding change_rows
set_task_status db task_id status = record db {
  tasks = change_rows (λ t. t.id == task_id) (λ t. record t { status = status }) db.tasks;
}

-- The task's assignments are replaced by one; whether the task exists.
unfoldable pub set_task_assignee : Database → (task_id person_id hours : ℕ) → Bool × Database
unfolding find_row
set_task_assignee db task_id person_id hours = elim (find_row (λ t. t.id == task_id) db.tasks) [
  | none ↦ (false, db)
  | some task ↦ (
    true,
    record db {
      assignments =
          add_row (keep (λ a. not (a.task_id == task_id)) db.assignments)
            (record { task_id = task_id; person_id = person_id; hours = hours });
    },
  )
]

abbrev pub task_record : TaskRow → TaskRecord
task_record t = record {
  id = t.id;
  name = t.name;
  status = t.status;
  start_date = t.start_date;
  end_date = t.end_date;
  duration_hours = t.duration_hours;
}

unfoldable pub list_project_tasks : TextOps → Database → ℕ → List TaskRecord
unfolding order_by
list_project_tasks text db project_id =
    map task_record (
      order_by (λ t u. text.collate t.name u.name)
        (keep (λ t. t.project_id == project_id) db.tasks))

-- The lag is not read.
unfoldable pub list_task_dependencies : Database → List Dependency
list_task_dependencies db =
    map
      (λ r. record {
        task_id = r.task_id;
        depends_on_id = r.depends_on_id;
        link_type = r.link_type;
        lag_working_days = 0;
      })
      db.dependencies

unfoldable pub task_names : Dict ℕ String → List TaskRow → Dict ℕ String
task_names d [] = d
task_names d (t ∷ l) = task_names (put d t.id t.name) l

unfoldable pub get_task_name_map : Database → Dict ℕ String
unfolding task_names
get_task_name_map db = task_names [] db.tasks

-- The titles of the tasks' projects; a task without one is left out.
unfoldable pub project_titles : List ProjectRow → Dict ℕ String → List TaskRow → Dict ℕ String
unfolding find_row
project_titles projects d [] = d
project_titles projects d (t ∷ l) =
    project_titles projects
      (elim (find_row (λ p. p.id == t.project_id) projects) [
        | none ↦ d
        | some p ↦ put d t.id p.title
      ])
      l

unfoldable pub get_task_project_map : Database → Dict ℕ String
unfolding project_titles
get_task_project_map db = project_titles db.projects [] db.tasks
