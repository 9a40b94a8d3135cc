-- ===== src/Models.antt =====
-- The value objects of src/planner/domain/models.py. A `UUID` is a number, since the program only
-- compares identifiers; a `date` is its ordinal; hours are numbers of ℕ.
use planner_dev.Prelude.{ℕ, String, Bool, Option, List, [], ◌∷◌, keep, ◌==◌, nat_eq, string_eq}
use planner_dev.Prelude.Dict.{Dict, put}

pub record Person : Type 0 where
  pub id : ℕ
  pub name : String
  pub capacity_h : ℕ

pub record Task : Type 0 where
  pub id : ℕ
  pub name : String
  pub duration_hours : ℕ
  pub allowed_person_ids : List ℕ
  pub project_id : Option ℕ
  pub required_skills : List String
  pub is_splittable : Bool
  pub pair_mode : String
  pub duration_is_window : Bool
  pub status : String
  pub source : String
  pub fixed_start : Option ℕ
  pub fixed_end : Option ℕ
  pub fixed_assignee_id : Option ℕ

pub record Dependency : Type 0 where
  pub task_id : ℕ
  pub depends_on_id : ℕ
  pub link_type : String
  pub lag_working_days : ℕ

pub record DayOverride : Type 0 where
  pub person_id : ℕ
  pub day : ℕ
  pub capacity_h : ℕ

pub record DayAllocation : Type 0 where
  pub person_id : ℕ
  pub day : ℕ
  pub hours : ℕ

pub record Assignment : Type 0 where
  pub task_id : ℕ
  pub person_id : ℕ
  pub start_date : ℕ
  pub end_date : ℕ
  pub allocations : List DayAllocation

-- The texts that the solver writes into a flag, with the values that they show.
pub data Message : Type 0 where
  overload_of : (used_days day : ℕ) → Message
  deadline_of : (end_date deadline : ℕ) → Message

pub record RiskFlag : Type 0 where
  pub kind : String
  pub message : Message
  pub task_id : Option ℕ
  pub person_id : Option ℕ
  pub day : Option ℕ

pub record PlanRequest : Type 0 where
  pub people : List Person
  pub tasks : List Task
  pub dependencies : List Dependency
  pub horizon_start : ℕ
  pub day_overrides : List DayOverride
  pub existing_allocations : List DayAllocation
  pub deadline : Option ℕ

pub record PlanResult : Type 0 where
  pub assignments : List Assignment
  pub risks : List RiskFlag
  pub end_date : Option ℕ

-- `{a.task_id: a for a in self.assignments}`
unfoldable pub index_by_task : Dict ℕ Assignment → List Assignment → Dict ℕ Assignment
index_by_task d [] = d
index_by_task d (a ∷ l) = index_by_task (put d a.task_id a) l

unfoldable pub by_task : PlanResult → Dict ℕ Assignment
unfolding index_by_task
by_task plan = index_by_task [] plan.assignments

unfoldable pub overloads : PlanResult → List RiskFlag
overloads plan = keep (λ r. r.kind == "overload") plan.risks

pub record PlanDiff : Type 0 where
  pub moved_tasks : List ℕ
  pub new_overloads : List RiskFlag
  pub removed_overloads : List RiskFlag
