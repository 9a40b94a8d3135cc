-- ===== src/UseCases/Consistent.antt =====
-- The references between the stored rows stay whole, whatever use-cases are called
-- (src/planner/app).
use planner_dev.Prelude.{List, [], ◌∷◌}
use planner_dev.Payload.Json.{Codec}
use planner_dev.Database.{Database, Env}
use planner_dev.Database.Records.{TextOps}
use planner_dev.AddProject.{SolverPort}
use planner_dev.UseCases.Owners.{HasOwners}
use planner_dev.UseCases.Owned.{
  HasOwners-add_project, HasOwners-capture, HasOwners-confirm, HasOwners-mark_task,
  HasOwners-reset_all_plans,
}
use planner_dev.UseCases.Versions.{
  HasProjects, HasProjects-add_project, HasProjects-capture, HasProjects-confirm,
  mark_task-plan_versions, HasProjects-reset_all_plans,
}
use planner_dev.UseCases.Assigned.{HasTasks}
use planner_dev.UseCases.Tasked.{
  HasTasks-add_project, HasTasks-capture, HasTasks-mark_task, confirm-tasks, reset_all_plans-tasks,
}
use planner_dev.UseCases.{UseCase, run, run_all, adds, captures, confirms, marks, resets}

-- Every task and every plan version belongs to a stored project, and every assignment to a stored
-- task.
abbrev pub IsConsistent : Database → Type 0
IsConsistent db =
    HasOwners db × HasProjects db.projects db.plan_versions × HasTasks db.tasks db.assignments

module _ (env : Env) (c : Codec) (text : TextOps) (solver : SolverPort) where
  run-IsConsistent :
      (db : Database) (u : UseCase) → IsConsistent db → IsConsistent (run env c text solver db u)
  unfolding run
  run-IsConsistent db (adds intent call t) h = (
    HasOwners-add_project env c text solver db intent call t h.0,
    HasProjects-add_project env c text solver db intent call t h.1,
    HasTasks-add_project env c text solver db intent call t h.2,
  )
  run-IsConsistent db (captures intent actor_id sink) h = (
    HasOwners-capture env c text db intent actor_id sink h.0,
    HasProjects-capture env c text db intent actor_id sink h.1,
    HasTasks-capture env c text db intent actor_id sink h.2,
  )
  run-IsConsistent db (confirms pv_id actor_id sink) h =
      let kept = confirm-tasks env c text db pv_id actor_id sink in
      (
        HasOwners-confirm env c text db pv_id actor_id sink h.0,
        HasProjects-confirm env c text db pv_id actor_id sink h.1,
        rw (kept.0, kept.1) h.2,
      )
  run-IsConsistent db (marks task_id actor_id is_admin has_sink status) h =
      let kept = mark_task-plan_versions env text db task_id actor_id is_admin has_sink status in
      (
        HasOwners-mark_task env text db task_id actor_id is_admin has_sink status h.0,
        rw (kept.0, kept.1) h.1,
        HasTasks-mark_task env text db task_id actor_id is_admin has_sink status h.2,
      )
  run-IsConsistent db resets h =
      let kept = reset_all_plans-tasks db in
      (
        HasOwners-reset_all_plans db h.0,
        HasProjects-reset_all_plans db h.1,
        rw (kept.0, kept.1) h.2,
      )

  -- Whatever use-cases are called one after the other, refused calls and failing mirrors among them,
  -- every stored task and every stored plan version stays one of a stored project, and every stored
  -- assignment one of a stored task.
  pub run_all-IsConsistent :
      (db : Database) (l : List UseCase)
      → IsConsistent db
      → IsConsistent (run_all env c text solver db l)
  unfolding run_all
  run_all-IsConsistent db [] h = h
  run_all-IsConsistent db (u ∷ l) h =
      run_all-IsConsistent (run env c text solver db u) l (run-IsConsistent db u h)
