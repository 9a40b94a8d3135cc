-- ===== src/UseCases/Owned.antt =====
-- Every stored task belongs to a stored project, whatever use-cases are called (src/planner/app).
use planner_dev.Prelude.{
  ℕ, ◌==◌, nat_eq, string_eq, ◌≡◌, refl, sym, subst, Bool, true, false, mem, String, Option, none,
  List, [], ◌∷◌, All, All-append, Bool-cases, Option-cases, inl, inr,
}
use planner_dev.Models.{Task, PlanResult, index_by_task}
use planner_dev.Payload.Json.{Codec}
use planner_dev.Intents.{AddProjectIntent, CaptureTaskIntent}
use planner_dev.Database.{Database, Env}
use planner_dev.Database.Tables.{ProjectRow, TaskRow}
use planner_dev.Database.Rows.{find_row, change_rows, add_row}
use planner_dev.Database.Records.{TextOps, PlanVersionRecord, ProjectRecord}
use planner_dev.Database.Plans.{
  committed_projects, reset_all_plans, get_plan_version, transition_plan_status, save_plan_version,
}
use planner_dev.Database.Projects.{
  ProjectTemplate, template_id_of, create_project, get_project_by_title, set_project_status,
}
use planner_dev.Database.Saving.{task_rows, save_project_tasks}
use planner_dev.Database.Work.{set_task_status}
use planner_dev.Database.Boards.{add_audit}
use planner_dev.Confirm.{TaskSink, commit, confirm}
use planner_dev.Confirm.Steps.{is_proposed, confirm_found, confirm_missing}
use planner_dev.MarkDone.{mark_task, allowed_statuses}
use planner_dev.Capture.{resolve_project, target_project, find_duplicate, capture_new, capture}
use planner_dev.Capture.Stored.{new_row, capture_new-tasks, capture_new-projects}
use planner_dev.AddProject.{
  SolverPort, ProjectCall, write_project, add_project, drawn, store_page, page_of_card,
}
use planner_dev.AddProject.Cases.{add_project_ind}
use planner_dev.UseCases.Owners.{
  project_ids, IsOwned, HasOwners, ids-change_rows, IsOwned-among, same_ids, mem-ids-find_row,
  All-change_rows, task_rows-IsOwned, mem-ids-add_row, ids_kept,
}
use planner_dev.UseCases.Pages.{store_page-ids, store_page-tasks}

pub HasOwners-reset_all_plans : (db : Database) → HasOwners db → HasOwners (reset_all_plans db).1
unfolding reset_all_plans
HasOwners-reset_all_plans db h =
    let chosen : ProjectRow → Bool = λ p. mem p.id (committed_projects db.plan_versions) in
    let cancel : ProjectRow → ProjectRow = λ p. record p { status = "cancelled" } in
    same_ids db.projects (change_rows chosen cancel db.projects) db.tasks
      (ids-change_rows chosen cancel db.projects (λ p. refl)) h

pub HasOwners-mark_task :
    (env : Env) (text : TextOps) (db : Database) (task_id : ℕ) (actor_id : Option ℕ)
    (is_admin has_sink : Bool) (status : String)
    → HasOwners db
    → HasOwners (mark_task env text db task_id actor_id is_admin has_sink status).2
unfolding mark_task set_task_status add_audit
HasOwners-mark_task env text db task_id actor_id false has_sink status h = h
HasOwners-mark_task env text db task_id actor_id true has_sink status h =
    elim (Bool-cases (mem status allowed_statuses)) [
      | inl allowed ↦ rw allowed (
          All-change_rows (IsOwned db.projects) (λ t. t.id == task_id)
            (λ (t : TaskRow). record t { status = status }) db.tasks (λ t k. k) h)
      | inr invalid ↦ rw invalid h
    ]

module _ (env : Env) (c : Codec) (text : TextOps) where
  HasOwners-commit :
      (db : Database) (pv : PlanVersionRecord) (actor_id : Option ℕ) (sink : Option TaskSink)
      → HasOwners db
      → HasOwners (commit env c text db pv actor_id sink).1
  unfolding commit transition_plan_status add_audit set_project_status
  HasOwners-commit db pv actor_id sink h = elim (Bool-cases (is_proposed db pv.id)) [
    | inl moved ↦ rw moved (
        same_ids db.projects
          (change_rows (λ p. p.id == pv.project_id)
            (λ (p : ProjectRow). record p { status = "committed" }) db.projects)
          db.tasks
          (ids-change_rows (λ p. p.id == pv.project_id)
            (λ (p : ProjectRow). record p { status = "committed" }) db.projects (λ p. refl))
          h)
    | inr stays ↦ rw stays h
  ]

  pub HasOwners-confirm :
      (db : Database) (pv_id : ℕ) (actor_id : Option ℕ) (sink : Option TaskSink)
      → HasOwners db
      → HasOwners (confirm env c text db pv_id actor_id sink).1
  HasOwners-confirm db pv_id actor_id sink h = elim (Option-cases (get_plan_version db pv_id)) [
    | inl absent ↦ rw (confirm_missing env c text db pv_id actor_id sink absent) h
    | inr (pv, found) ↦
        rw (confirm_found env c text db pv_id pv actor_id sink found)
          (HasOwners-commit db pv actor_id sink h)
  ]

  -- A resolved project is stored, and the tasks stay owned.
  resolve_project-HasOwners :
      (db : Database) (target : String) (actor_id : Option ℕ)
      → HasOwners db
      → let r = resolve_project env text db target actor_id in
        HasOwners r.1 × (mem r.0.id (project_ids r.1.projects) ≡ true)
  unfolding resolve_project create_project get_project_by_title
  resolve_project-HasOwners db target actor_id h =
      let test : ProjectRow → Bool = λ p. text.sql_lower p.title == text.lower target in
      elim (Option-cases (find_row test db.projects)) [
        | inr (p, found) ↦
            rw (found, resolve_project) (h, mem-ids-find_row test db.projects p found)
        | inl absent ↦
            let row : ProjectRow = record {
              id = env.uuid4 db.draws;
              title = target;
              template_id = template_id_of db.templates "";
              brief_return_date = none;
              deadline = none;
              priority = "medium";
              status = "planning";
              notion_page_id = none;
              created_at = env.now db.draws;
              created_by = actor_id;
            } in
            rw (absent, resolve_project)
              (
                IsOwned-among db.projects (add_row db.projects row) db.tasks
                    (ids_kept db.projects row) h,
                mem-ids-add_row db.projects row,
              )
      ]

  HasOwners-capture_new :
      (db : Database) (project : ProjectRecord) (intent : CaptureTaskIntent) (actor_id : Option ℕ)
      (sink : Option TaskSink)
      → HasOwners db
      → mem project.id (project_ids db.projects) ≡ true
      → HasOwners (capture_new env text db project intent actor_id sink).1
  HasOwners-capture_new db project intent actor_id sink h m =
      let row = new_row env text db project intent in
      rw
        (
          capture_new-tasks env text db project intent actor_id sink,
          capture_new-projects env text db project intent actor_id sink,
        )
        (All-append (IsOwned db.projects) db.tasks (row ∷ []) h (m, tt))

  pub HasOwners-capture :
      (db : Database) (intent : CaptureTaskIntent) (actor_id : Option ℕ) (sink : Option TaskSink)
      → HasOwners db
      → HasOwners (capture env text db intent actor_id sink).1
  unfolding capture
  HasOwners-capture db intent actor_id sink h =
      let target = target_project env text intent in
      let resolved = resolve_project env text db target actor_id in
      let (owned, member) = resolve_project-HasOwners db target actor_id h in
      elim (Option-cases (find_duplicate env text resolved.1 resolved.0.id intent.task_title)) [
        | inl new ↦
            rw (new, capture)
              (HasOwners-capture_new resolved.1 resolved.0 intent actor_id sink owned member)
        | inr (t, old) ↦ rw (old, capture) owned
      ]

HasOwners-store_page :
    (db : Database) (id : ℕ) (page : Option String)
    → HasOwners db
    → HasOwners (store_page db id page)
HasOwners-store_page db id page h =
    subst (All (IsOwned (store_page db id page).projects)) (sym (store_page-tasks db id page))
      (same_ids db.projects (store_page db id page).projects db.tasks (store_page-ids db id page) h)

module _ (env : Env) (c : Codec) (text : TextOps) (solver : SolverPort) where
  HasOwners-write_project :
      (db : Database) (intent : AddProjectIntent) (call : ProjectCall) (title : String)
      (project_id : ℕ) (tasks : List Task) (plan : PlanResult) (e : Option ℕ)
      → HasOwners db
      → HasOwners (write_project env c text solver db intent call title project_id tasks plan e).1
  unfolding write_project create_project save_project_tasks save_plan_version add_audit
  HasOwners-write_project db intent call title project_id tasks plan e h =
      let row : ProjectRow = record {
        id = project_id;
        title = title;
        template_id = template_id_of db.templates intent.template_code;
        brief_return_date = intent.brief_return_date;
        deadline = intent.deadline;
        priority = "medium";
        status = "planning";
        notion_page_id = none;
        created_at = env.now db.draws;
        created_by = call.actor_id;
      } in
      let projects = add_row db.projects row in
      let by_task = index_by_task [] plan.assignments in
      HasOwners-store_page _ project_id (page_of_card call.card) (
        All-append (IsOwned projects) db.tasks (task_rows project_id by_task tasks)
          (IsOwned-among db.projects projects db.tasks (ids_kept db.projects row) h)
          (task_rows-IsOwned projects project_id by_task tasks (mem-ids-add_row db.projects row)))

  pub HasOwners-add_project :
      (db : Database) (intent : AddProjectIntent) (call : ProjectCall) (t : ProjectTemplate)
      → HasOwners db
      → HasOwners (add_project env c text solver db intent call t).1
  unfolding write_project
  HasOwners-add_project db intent call t h =
      add_project_ind env c text solver db intent call t (λ r. HasOwners r.1) (λ e. h)
        (λ tasks plan e.
          HasOwners-write_project (drawn env c text solver db t) intent call
            (text.strip intent.title) (env.uuid4 db.draws) tasks plan e h)
