-- ===== src/Database/Tables.antt =====
-- The rows of the tables in src/planner/infra/db/models.py: one record for each class, one field for
-- each column. Foreign keys are identifiers; a time of day is its minute, a moment a number.
use planner_dev.Prelude.{ℕ, String, Bool, Option, List}
use planner_dev.Prelude.Int.{ℤ}
use planner_dev.Payload.Json.{Json}

pub record PersonRow : Type 0 where
  pub id : ℕ
  pub tg_user_id : Option ℕ
  pub name : String
  pub role_label : Option String
  pub capacity_h : ℕ
  pub is_admin : Bool
  pub is_active : Bool
  pub is_external : Bool

pub record RoleRow : Type 0 where
  pub id : ℕ
  pub name : String
  pub description : Option String

pub record SkillRow : Type 0 where
  pub id : ℕ
  pub name : String
  pub description : Option String

pub record RoleSkillRow : Type 0 where
  pub role_id : ℕ
  pub skill_id : ℕ

pub record PersonRoleRow : Type 0 where
  pub person_id : ℕ
  pub role_id : ℕ

pub record TemplateRow : Type 0 where
  pub id : ℕ
  pub code : String
  pub name : String

pub record TemplateTaskRow : Type 0 where
  pub id : ℕ
  pub template_id : ℕ
  pub ord : ℕ
  pub name : String
  pub duration_hours : ℕ
  pub duration_is_window : Bool
  pub is_splittable : Bool
  pub allow_two_assignees : Bool
  pub pair_mode : String
  pub optional_in_lite : Bool

pub record TemplateTaskAssigneeRow : Type 0 where
  pub template_task_id : ℕ
  pub person_id : ℕ
  pub strictness : String
  pub priority : ℕ

pub record TemplateDependencyRow : Type 0 where
  pub template_task_id : ℕ
  pub depends_on_id : ℕ
  pub link_type : String
  pub lag_working_days : ℕ

pub record ProjectRow : Type 0 where
  pub id : ℕ
  pub title : String
  pub template_id : Option ℕ
  pub brief_return_date : Option ℕ
  pub deadline : Option ℕ
  pub priority : String
  pub status : String
  pub notion_page_id : Option String
  pub created_at : ℕ
  pub created_by : Option ℕ

pub record TaskRow : Type 0 where
  pub id : ℕ
  pub project_id : ℕ
  pub template_task_id : Option ℕ
  pub name : String
  pub duration_hours : ℕ
  pub start_date : Option ℕ
  pub end_date : Option ℕ
  pub time_start : Option ℕ
  pub status : String
  pub source : String
  pub required_skills : List String
  pub is_preliminary : Bool
  pub is_splittable : Bool
  pub duration_is_window : Bool
  pub allow_two_assignees : Bool
  pub pair_mode : String

pub record AssignmentRow : Type 0 where
  pub task_id : ℕ
  pub person_id : ℕ
  pub hours : ℕ

pub record DependencyRow : Type 0 where
  pub task_id : ℕ
  pub depends_on_id : ℕ
  pub link_type : String
  pub lag_working_days : ℕ

pub record DayOverrideRow : Type 0 where
  pub person_id : ℕ
  pub day : ℕ
  pub capacity_h : ℤ
  pub reason : Option String

pub record PlanVersionRow : Type 0 where
  pub id : ℕ
  pub project_id : ℕ
  pub status : String
  pub created_at : ℕ
  pub created_by : Option ℕ
  pub payload : Json

pub record AuditLogRow : Type 0 where
  pub id : ℕ
  pub created_at : ℕ
  pub actor_id : Option ℕ
  pub action : String
  pub entity_type : String
  pub entity_id : Option ℕ
  pub payload : Option Json

pub record TaskHistoryRow : Type 0 where
  pub id : ℕ
  pub person_id : ℕ
  pub task_name : String
  pub project_title : Option String
  pub completed_at : ℕ
  pub skills : Option Json
