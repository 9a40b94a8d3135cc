-- ===== src/Database/Records.antt =====
-- The records of src/planner/app/ports.py that the repository returns, and what the code takes from
-- Python's and the database's text functions.
use planner_dev.Prelude.{ℕ, String, Bool, Option, List}
use planner_dev.Payload.Json.{Json}

pub record PersonRecord : Type 0 where
  pub id : ℕ
  pub name : String
  pub is_admin : Bool
  pub capacity_h : ℕ
  pub role_label : Option String

pub record PlanVersionRecord : Type 0 where
  pub id : ℕ
  pub project_id : ℕ
  pub status : String
  pub payload : Json

pub record ProjectRecord : Type 0 where
  pub id : ℕ
  pub title : String
  pub status : String
  pub deadline : Option ℕ
  pub priority : String
  pub template_code : Option String
  pub start_date : Option ℕ
  pub notion_page_id : Option String

pub record TaskRecord : Type 0 where
  pub id : ℕ
  pub name : String
  pub status : String
  pub start_date : Option ℕ
  pub end_date : Option ℕ
  pub duration_hours : ℕ

-- The skills are a set: a list in which each stands once.
pub record CapabilityRecord : Type 0 where
  pub person_id : ℕ
  pub name : String
  pub skills : List String
  pub is_external : Bool

pub record AuditRecord : Type 0 where
  pub created_at : ℕ
  pub action : String
  pub entity_type : String
  pub payload : Option Json
  pub entity_id : Option ℕ

pub record TaskMeta : Type 0 where
  pub task_id : ℕ
  pub task_name : String
  pub project_title : String
  pub priority : String
  pub status : String
  pub start_date : Option ℕ
  pub end_date : Option ℕ
  pub duration_hours : ℕ
  pub assignee_id : Option ℕ
  pub assignee_name : Option String
  pub deadline : Option ℕ

-- `str.strip`, `str.lower`, `s.replace("ё", "е")`, `str.split()`, `str.startswith`, `len`, the
-- database's `lower`, the order of its collation, and the day of a moment.
pub record TextOps : Type 0 where
  pub strip : String → String
  pub lower : String → String
  pub replace_yo : String → String
  pub split : String → List String
  pub starts_with : String → String → Bool
  pub len : String → ℕ
  pub sql_lower : String → String
  pub collate : String → String → Bool
  pub day_of : ℕ → ℕ
