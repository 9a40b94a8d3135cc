-- ===== src/Database.antt =====
-- The database behind `SqlAlchemyRepo` (src/planner/infra/db/repo.py): its tables, each a list of
-- rows in the order of insertion, in which a SELECT without ORDER BY gives them. A constraint that
-- is not kept is not refused. Each method of the repository is one transaction, a function of the
-- whole state.
pub mod Tables
pub mod Rows
pub mod RowLaws
pub mod Records
pub mod People
pub mod Plans
pub mod Moves
pub mod Projects
pub mod Work
pub mod Boards
pub mod Resetting
pub mod SavedHours
pub mod Naming
pub mod Saving
use planner_dev.Prelude.{ℕ, List}
use planner_dev.Database.Tables.{
  PersonRow, RoleRow, SkillRow, RoleSkillRow, PersonRoleRow, TemplateRow, TemplateTaskRow,
  TemplateTaskAssigneeRow, TemplateDependencyRow, ProjectRow, TaskRow, AssignmentRow, DependencyRow,
  DayOverrideRow, PlanVersionRow, AuditLogRow, TaskHistoryRow,
}

-- `draws` counts the rows that have drawn an identifier and a time.
pub record Database : Type 0 where
  pub people : List PersonRow
  pub roles : List RoleRow
  pub skills : List SkillRow
  pub role_skills : List RoleSkillRow
  pub person_roles : List PersonRoleRow
  pub templates : List TemplateRow
  pub template_tasks : List TemplateTaskRow
  pub template_task_assignees : List TemplateTaskAssigneeRow
  pub template_dependencies : List TemplateDependencyRow
  pub projects : List ProjectRow
  pub tasks : List TaskRow
  pub assignments : List AssignmentRow
  pub dependencies : List DependencyRow
  pub day_overrides : List DayOverrideRow
  pub plan_versions : List PlanVersionRow
  pub audit_log : List AuditLogRow
  pub task_history : List TaskHistoryRow
  pub draws : ℕ

-- What the program takes from outside: the n-th `uuid4()`, and the time of the n-th transaction that
-- inserts.
pub record Env : Type 0 where
  pub uuid4 : ℕ → ℕ
  pub now : ℕ → ℕ
