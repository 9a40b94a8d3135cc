-- ===== src/Database/Saving.antt =====
-- `save_project_tasks` of `SqlAlchemyRepo` (src/planner/infra/db/repo.py): the tasks of a new project
-- and the hours that the plan gives its people.
use planner_dev.Prelude.{ℕ, ◌+◌, false, Option, none, some, List, [], ◌∷◌, ◌++◌, map, nat_eq}
use planner_dev.Prelude.Dict.{Dict, get, put, get_or}
use planner_dev.Models.{Task, Assignment, DayAllocation, index_by_task}
use planner_dev.Database.{Database}
use planner_dev.Database.Tables.{TaskRow, AssignmentRow}

abbrev pub start_of : Option Assignment → Option ℕ
start_of none = none
start_of (some a) = some a.start_date

abbrev pub finish_of : Option Assignment → Option ℕ
finish_of none = none
finish_of (some a) = some a.end_date

abbrev pub task_row : (project_id : ℕ) → Task → Option Assignment → TaskRow
task_row project_id t a = record {
  id = t.id;
  project_id = project_id;
  template_task_id = none;
  name = t.name;
  duration_hours = t.duration_hours;
  start_date = start_of a;
  end_date = finish_of a;
  time_start = none;
  status = "not_done";
  source = t.source;
  required_skills = t.required_skills;
  is_preliminary = false;
  is_splittable = t.is_splittable;
  duration_is_window = t.duration_is_window;
  allow_two_assignees = false;
  pair_mode = t.pair_mode;
}

unfoldable pub task_rows : (project_id : ℕ) → Dict ℕ Assignment → List Task → List TaskRow
task_rows project_id by_task [] = []
task_rows project_id by_task (t ∷ l) =
    task_row project_id t (get by_task t.id) ∷ task_rows project_id by_task l

-- The hours of each person, in the order in which the people come.
unfoldable pub hours_by_person : Dict ℕ ℕ → List DayAllocation → Dict ℕ ℕ
hours_by_person d [] = d
hours_by_person d (al ∷ l) =
    hours_by_person (put d al.person_id (get_or d al.person_id 0 + al.hours)) l

-- A window has no allocations, and is entered for its one assignee.
abbrev pub or_single : Dict ℕ ℕ → (person_id hours : ℕ) → Dict ℕ ℕ
or_single [] person_id hours = (person_id, hours) ∷ []
or_single (x ∷ d) person_id hours = x ∷ d

unfoldable pub assignment_rows : Task → Option Assignment → List AssignmentRow
unfolding hours_by_person
assignment_rows t none = []
assignment_rows t (some a) =
    map (λ ph. record { task_id = t.id; person_id = ph.0; hours = ph.1 })
      (or_single (hours_by_person [] a.allocations) a.person_id t.duration_hours)

unfoldable pub all_assignment_rows : Dict ℕ Assignment → List Task → List AssignmentRow
unfolding assignment_rows
all_assignment_rows by_task [] = []
all_assignment_rows by_task (t ∷ l) =
    assignment_rows t (get by_task t.id) ++ all_assignment_rows by_task l

unfoldable pub save_project_tasks :
    Database → (project_id : ℕ) → List Task → List Assignment → Database
unfolding task_rows all_assignment_rows index_by_task
save_project_tasks db project_id tasks assignments =
    let by_task = index_by_task [] assignments in
    record db {
      tasks = db.tasks ++ task_rows project_id by_task tasks;
      assignments = db.assignments ++ all_assignment_rows by_task tasks;
    }
