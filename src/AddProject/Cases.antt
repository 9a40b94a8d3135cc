-- ===== src/AddProject/Cases.antt =====
-- The two ends of `AddProjectUseCase.execute` (src/planner/app/add_project.py): it raises before any
-- write, or goes through all of its writes.
use planner_dev.Prelude.{
  ℕ, ◌+◌, ◌==◌, nat_eq, string_eq, Option, List, leb, length, Result, ok, err, Bool-cases, inl, inr,
}
use planner_dev.Models.{Task, Dependency, PlanRequest, PlanResult}
use planner_dev.Intents.{AddProjectIntent}
use planner_dev.Payload.Json.{Codec}
use planner_dev.Database.{Database, Env}
use planner_dev.Database.Records.{TextOps}
use planner_dev.Database.Projects.{ProjectTemplate}
use planner_dev.AddProject.Instantiate.{instantiate_template}
use planner_dev.AddProject.{
  SolverPort, ProjectCall, ProjectError, ProjectAnswer, refused, write_project, after_end,
  after_plan, after_template, add_project, drawn, is_past, request_of, earliest_of,
}

module _ (env : Env) (c : Codec) (text : TextOps) (solver : SolverPort) (db : Database)
    (intent : AddProjectIntent) (call : ProjectCall) (t : ProjectTemplate)
    (P : ProjectAnswer × Database → Type 0) (refuse : (e : ProjectError) → P (refused e, db))
    (write : (tasks : List Task) (plan : PlanResult) (e : Option ℕ)
      → P (
          write_project env c text solver
            (drawn env c text solver db t)
            intent
            call
            (text.strip intent.title)
            (env.uuid4 db.draws)
            tasks
            plan
            e)) where
  after_end_ind :
      (tasks : List Task) (plan : PlanResult) (e : Result (Option ℕ))
      → P (after_end env c text solver db intent call t tasks plan e)
  unfolding after_end
  after_end_ind tasks plan (err x) = refuse _
  after_end_ind tasks plan (ok e) = write tasks plan e

  after_plan_ind :
      (tasks : List Task) (req : PlanRequest) (p : Result PlanResult)
      → P (after_plan env c text solver db intent call t tasks req p)
  unfolding after_plan
  after_plan_ind tasks req (err x) = refuse _
  after_plan_ind tasks req (ok plan) =
      after_end_ind tasks plan (earliest_of env c text solver req call.today)

  after_template_ind :
      (r : Result (List Task × List Dependency))
      → P (after_template env c text solver db intent call t r)
  unfolding after_template
  after_template_ind (err e) = refuse _
  after_template_ind (ok (tasks, deps)) =
      let req = request_of env c text solver intent call tasks deps in
      after_plan_ind tasks req (solver.plan req)

  -- What holds of a refusal that changes nothing, and of all the writes, holds of every call.
  pub add_project_ind : P (add_project env c text solver db intent call t)
  unfolding add_project
  add_project_ind = elim (Bool-cases (text.strip intent.title == "")) [
    | inl e ↦ rw e (refuse _)
    | inr e ↦ elim (Bool-cases (is_past intent.deadline call.today)) [
      | inl past ↦ rw (e, past) (refuse _)
      | inr soon ↦ elim (Bool-cases (leb (length t.tasks) 0)) [
        | inl none_left ↦ rw (e, soon, none_left) (refuse _)
        | inr some_left ↦
            rw (e, soon, some_left)
              (after_template_ind (instantiate_template env (db.draws + 1) t (env.uuid4 db.draws)))
      ]
    ]
  ]
