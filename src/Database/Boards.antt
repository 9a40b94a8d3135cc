-- ===== src/Database/Boards.antt =====
-- The joins of `list_tasks_with_meta`, and the audit log, in `SqlAlchemyRepo`
-- (src/planner/infra/db/repo.py).
use planner_dev.Prelude.{
  ℕ, ◌+◌, String, Bool, Option, none, some, List, [], ◌∷◌, ◌++◌, map, keep, leb, take,
  if◌then◌else◌, ◌==◌, nat_eq, string_eq,
}
use planner_dev.Payload.Json.{Json}
use planner_dev.Database.{Database, Env}
use planner_dev.Database.Tables.{TaskRow, ProjectRow, PersonRow}
use planner_dev.Database.Rows.{find_row, order_by, add_row, drop}
use planner_dev.Database.Records.{TaskMeta, AuditRecord, TextOps}

-- `proj_dl or t.end_date`
abbrev pub first_date : Option ℕ → Option ℕ → Option ℕ
first_date none d = d
first_date (some d) e = some d

abbrev pub meta_of : TaskRow → ProjectRow → Option PersonRow → TaskMeta
meta_of t p person = record {
  task_id = t.id;
  task_name = t.name;
  project_title = p.title;
  priority = p.priority;
  status = t.status;
  start_date = t.start_date;
  end_date = t.end_date;
  duration_hours = t.duration_hours;
  assignee_id = elim person [ none ↦ none | some q ↦ some q.id ];
  assignee_name = elim person [ none ↦ none | some q ↦ some q.name ];
  deadline = first_date p.deadline t.end_date;
}

abbrev pub or_nobody : List (Option PersonRow) → List (Option PersonRow)
or_nobody [] = none ∷ []
or_nobody (x ∷ l) = x ∷ l

-- The people of the outer joins for a task: one for each assignment, or nobody.
unfoldable pub joined_people : Database → ℕ → List (Option PersonRow)
unfolding find_row
joined_people db task_id = or_nobody (
    map (λ a. find_row (λ p. p.id == a.person_id) db.people)
      (keep (λ a. a.task_id == task_id) db.assignments))

unfoldable pub joined_tasks : Database → List TaskRow → List TaskMeta
unfolding joined_people find_row
joined_tasks db [] = []
joined_tasks db (t ∷ l) =
    let rest = joined_tasks db l in
    elim (find_row (λ p. p.id == t.project_id) db.projects) [
      | none ↦ rest
      | some p ↦ map (meta_of t p) (joined_people db t.id) ++ rest
    ]

abbrev pub meta_le : TextOps → TaskMeta → TaskMeta → Bool
meta_le text a b =
    if a.project_title == b.project_title
    then text.collate a.task_name b.task_name
    else text.collate a.project_title b.project_title

unfoldable pub list_tasks_with_meta : TextOps → Database → List TaskMeta
unfolding joined_tasks order_by
list_tasks_with_meta text db = order_by (meta_le text) (joined_tasks db db.tasks)

-- The arguments of `add_audit`.
pub record AuditEntry : Type 0 where
  pub actor_id : Option ℕ
  pub action : String
  pub entity_type : String
  pub entity_id : Option ℕ
  pub payload : Option Json

unfoldable pub add_audit : Env → Database → AuditEntry → Database
add_audit env db entry = record db {
  audit_log = add_row db.audit_log (record {
    id = env.uuid4 db.draws;
    created_at = env.now db.draws;
    actor_id = entry.actor_id;
    action = entry.action;
    entity_type = entry.entity_type;
    entity_id = entry.entity_id;
    payload = entry.payload;
  });
  draws = db.draws + 1;
}

unfoldable pub list_audit : Database → (limit offset : ℕ) → List AuditRecord
unfolding order_by
list_audit db limit offset =
    map
      (λ a. record {
        created_at = a.created_at;
        action = a.action;
        entity_type = a.entity_type;
        payload = a.payload;
        entity_id = a.entity_id;
      })
      (take limit (drop offset (order_by (λ a b. leb b.created_at a.created_at) db.audit_log)))
