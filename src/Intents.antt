-- ===== src/Intents.antt =====
-- What a user asks for, and who may ask it: src/planner/domain/intent.py and
-- src/planner/domain/permissions.py. What pydantic checks about lengths is left out.
use planner_dev.Prelude.{
  ℕ, String, Bool, true, Option, none, some, List, [], ◌∷◌, if◌then◌else◌, string_eq, mem,
}
use planner_dev.Prelude.Int.{ℤ}
use planner_dev.Vacation.{VacationIntent}

pub record AddProjectIntent : Type 0 where
  pub title : String
  pub template_code : String
  pub deadline : Option ℕ
  pub brief_return_date : Option ℕ
  pub notes : Option String

pub record LoadIntent : Type 0 where
  pub person_name : Option String
  pub date_range : Option (ℕ × ℕ)

-- `_coerce_range` on the object form, whose ends may be missing.
abbrev pub coerce_range : Option ℕ → Option ℕ → Option ℕ → Option ℕ → Option (ℕ × ℕ)
coerce_range from start to finish = elim (either from start) [
  | none ↦ none
  | some lo ↦ elim (either to finish) [ none ↦ none | some hi ↦ some (lo, hi) ]
]
  where
    either : Option ℕ → Option ℕ → Option ℕ
    either none b = b
    either (some a) b = some a

pub record WhatIfIntent : Type 0 where
  pub operation : String
  pub project_title : Option String
  pub new_deadline : Option ℕ
  pub person_name : Option String

pub record ConfirmIntent : Type 0 where
  pub plan_version_id : Option ℕ

pub record AssignIntent : Type 0 where
  pub task_ref : String
  pub person_name : String

pub record CaptureTaskIntent : Type 0 where
  pub task_title : String
  pub assignee_names : List String
  pub project_name : Option String
  pub deadline : Option ℕ
  pub time_start : Option ℕ
  pub est_hours : Option ℤ
  pub required_skills : List String

pub record ClarifyIntent : Type 0 where
  pub question : Option String

pub data Intent : Type 0 where
  add_project : AddProjectIntent → Intent
  load : LoadIntent → Intent
  what_if : WhatIfIntent → Intent
  vacation : VacationIntent → Intent
  confirm : ConfirmIntent → Intent
  assign : AssignIntent → Intent
  capture_task : CaptureTaskIntent → Intent
  clarify : ClarifyIntent → Intent

-- The discriminator.
unfoldable pub kind : Intent → String
kind (add_project i) = "add_project"
kind (load i) = "load"
kind (what_if i) = "what_if"
kind (vacation i) = "vacation"
kind (confirm i) = "confirm"
kind (assign i) = "assign"
kind (capture_task i) = "capture_task"
kind (clarify i) = "clarify"

abbrev pub write_kinds : List String
write_kinds = "add_project" ∷ "vacation" ∷ "confirm" ∷ "assign" ∷ "capture_task" ∷ []

unfoldable pub can_execute : String → Bool → Bool
can_execute kind is_admin = if mem kind write_kinds then is_admin else true
