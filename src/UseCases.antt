-- ===== src/UseCases.antt =====
-- The use-cases of src/planner/app that write to the database, as the calls that a running program
-- makes one after the other.
pub mod Owners
pub mod Pages
pub mod Versions
pub mod Owned
pub mod Assigned
pub mod Tasked
pub mod Consistent
use planner_dev.Prelude.{ℕ, Bool, Option, String, List, [], ◌∷◌}
use planner_dev.Payload.Json.{Codec}
use planner_dev.Intents.{AddProjectIntent, CaptureTaskIntent}
use planner_dev.Database.{Database, Env}
use planner_dev.Database.Records.{TextOps}
use planner_dev.Database.Projects.{ProjectTemplate}
use planner_dev.Database.Plans.{reset_all_plans}
use planner_dev.Confirm.{TaskSink, confirm}
use planner_dev.MarkDone.{mark_task}
use planner_dev.Capture.{capture}
use planner_dev.AddProject.{SolverPort, ProjectCall, add_project}

pub data UseCase : Type 0 where
  adds : AddProjectIntent → ProjectCall → ProjectTemplate → UseCase
  captures : CaptureTaskIntent → (actor_id : Option ℕ) → Option TaskSink → UseCase
  confirms : (plan_version_id : ℕ) → (actor_id : Option ℕ) → Option TaskSink → UseCase
  marks : (task_id : ℕ) → (actor_id : Option ℕ) → (is_admin has_sink : Bool) → String → UseCase
  resets : UseCase

module _ (env : Env) (c : Codec) (text : TextOps) (solver : SolverPort) where
  -- The state behind a call, whatever it answers.
  unfoldable pub run : Database → UseCase → Database
  run db (adds intent call template) = (add_project env c text solver db intent call template).1
  run db (captures intent actor_id sink) = (capture env text db intent actor_id sink).1
  run db (confirms pv_id actor_id sink) = (confirm env c text db pv_id actor_id sink).1
  run db (marks task_id actor_id is_admin has_sink status) =
      (mark_task env text db task_id actor_id is_admin has_sink status).2
  run db resets = (reset_all_plans db).1

  unfoldable pub run_all : Database → List UseCase → Database
  unfolding run
  run_all db [] = db
  run_all db (u ∷ l) = run_all (run db u) l
