-- ===== src/UseCases/Versions.antt =====
-- Every stored plan version belongs to a stored project, whatever use-cases are called
-- (src/planner/app).
use planner_dev.Prelude.{
  ℕ, ◌==◌, nat_eq, string_eq, ◌≡◌, refl, sym, ap, ◌∙◌, subst, Bool, true, false, mem, String,
  Option, none, List, [], ◌∷◌, All, All-append, All-imp, Bool-cases, Option-cases, inl, inr,
}
use planner_dev.Models.{Task, PlanResult}
use planner_dev.Payload.Json.{Codec}
use planner_dev.Intents.{AddProjectIntent, CaptureTaskIntent}
use planner_dev.Database.{Database, Env}
use planner_dev.Database.Tables.{ProjectRow, PlanVersionRow}
use planner_dev.Database.Rows.{find_row, change_rows, add_row}
use planner_dev.Database.Records.{TextOps, PlanVersionRecord}
use planner_dev.Database.Plans.{
  is_committed, is_version_in, committed_projects, reset_all_plans, get_plan_version,
  transition_plan_status, save_plan_version,
}
use planner_dev.Database.Projects.{
  ProjectTemplate, create_project, template_id_of, get_project_by_title, set_project_status,
}
use planner_dev.Database.Saving.{save_project_tasks}
use planner_dev.Database.Work.{set_task_status}
use planner_dev.Database.Boards.{add_audit}
use planner_dev.Confirm.{TaskSink, commit, confirm}
use planner_dev.Confirm.Steps.{is_proposed, confirm_found, confirm_missing}
use planner_dev.MarkDone.{mark_task, allowed_statuses}
use planner_dev.Capture.{resolve_project, target_project, find_duplicate, capture}
use planner_dev.Capture.Stored.{capture_new-projects, capture_new-plan_versions}
use planner_dev.AddProject.{
  SolverPort, ProjectCall, write_project, add_project, drawn, page_of_card,
}
use planner_dev.AddProject.Proposal.{proposal_row, write_project-plan_versions}
use planner_dev.AddProject.Cases.{add_project_ind}
use planner_dev.UseCases.Pages.{store_page-ids}
use planner_dev.UseCases.Owners.{
  project_ids, ids-change_rows, All-change_rows, mem-ids-add_row, ids_kept,
}

-- Every version's project is stored.
abbrev pub HasProjects : List ProjectRow → List PlanVersionRow → Type 0
HasProjects projects l = All (λ v. mem v.project_id (project_ids projects) ≡ true) l

HasProjects-among :
    (projects projects' : List ProjectRow) (l : List PlanVersionRow)
    → ((id : ℕ) → mem id (project_ids projects) ≡ true → mem id (project_ids projects') ≡ true)
    → HasProjects projects l
    → HasProjects projects' l
HasProjects-among projects projects' l keeps h =
    All-imp (λ v. mem v.project_id (project_ids projects) ≡ true)
      (λ v. mem v.project_id (project_ids projects') ≡ true) (λ v k. keeps v.project_id k) l h

-- Statuses of versions and of projects change, and nothing else.
HasProjects-change_rows :
    (projects : List ProjectRow) (versions : List PlanVersionRow) (p : ProjectRow → Bool)
    (f : ProjectRow → ProjectRow) (q : PlanVersionRow → Bool) (g : PlanVersionRow → PlanVersionRow)
    → ((x : ProjectRow) → (f x).id ≡ x.id)
    → ((x : PlanVersionRow) → (g x).project_id ≡ x.project_id)
    → HasProjects projects versions
    → HasProjects (change_rows p f projects) (change_rows q g versions)
HasProjects-change_rows projects versions p f q g same_id same_project h =
    let ids = ids-change_rows p f projects same_id in
    HasProjects-among projects (change_rows p f projects) (change_rows q g versions)
      (λ id k. ap (mem id) ids ∙ k)
      (All-change_rows (λ v. mem v.project_id (project_ids projects) ≡ true) q g versions
        (λ v k. ap (λ x. mem x (project_ids projects)) (same_project v) ∙ k) h)

pub HasProjects-reset_all_plans :
    (db : Database)
    → HasProjects db.projects db.plan_versions
    → HasProjects (reset_all_plans db).1.projects (reset_all_plans db).1.plan_versions
unfolding reset_all_plans
HasProjects-reset_all_plans db h =
    HasProjects-change_rows db.projects db.plan_versions
      (λ p. mem p.id (committed_projects db.plan_versions))
      (λ (p : ProjectRow). record p { status = "cancelled" }) is_committed
      (λ (v : PlanVersionRow). record v { status = "superseded" }) (λ p. refl) (λ v. refl) h

pub mark_task-plan_versions :
    (env : Env) (text : TextOps) (db : Database) (task_id : ℕ) (actor_id : Option ℕ)
    (is_admin has_sink : Bool) (status : String)
    → let db' = (mark_task env text db task_id actor_id is_admin has_sink status).2 in
      (db'.projects ≡ db.projects) × (db'.plan_versions ≡ db.plan_versions)
unfolding mark_task set_task_status add_audit
mark_task-plan_versions env text db task_id actor_id false has_sink status = (refl, refl)
mark_task-plan_versions env text db task_id actor_id true has_sink status =
    elim (Bool-cases (mem status allowed_statuses)) [
      | inl allowed ↦ rw allowed (refl, refl)
      | inr invalid ↦ rw invalid (refl, refl)
    ]

module _ (env : Env) (c : Codec) (text : TextOps) where
  HasProjects-commit :
      (db : Database) (pv : PlanVersionRecord) (actor_id : Option ℕ) (sink : Option TaskSink)
      → HasProjects db.projects db.plan_versions
      → let db' = (commit env c text db pv actor_id sink).1 in
        HasProjects db'.projects db'.plan_versions
  unfolding commit transition_plan_status add_audit set_project_status
  HasProjects-commit db pv actor_id sink h = elim (Bool-cases (is_proposed db pv.id)) [
    | inl moved ↦ rw moved (
        HasProjects-change_rows db.projects db.plan_versions (λ p. p.id == pv.project_id)
          (λ (p : ProjectRow). record p { status = "committed" }) (is_version_in pv.id "proposed")
          (λ (v : PlanVersionRow). record v { status = "committed" }) (λ p. refl) (λ v. refl) h)
    | inr stays ↦ rw stays (
        All-change_rows (λ v. mem v.project_id (project_ids db.projects) ≡ true)
          (is_version_in pv.id "proposed")
          (λ (v : PlanVersionRow). record v { status = "committed" }) db.plan_versions (λ v k. k) h)
  ]

  pub HasProjects-confirm :
      (db : Database) (pv_id : ℕ) (actor_id : Option ℕ) (sink : Option TaskSink)
      → HasProjects db.projects db.plan_versions
      → let db' = (confirm env c text db pv_id actor_id sink).1 in
        HasProjects db'.projects db'.plan_versions
  HasProjects-confirm db pv_id actor_id sink h = elim (Option-cases (get_plan_version db pv_id)) [
    | inl absent ↦ rw (confirm_missing env c text db pv_id actor_id sink absent) h
    | inr (pv, found) ↦
        rw (confirm_found env c text db pv_id pv actor_id sink found)
          (HasProjects-commit db pv actor_id sink h)
  ]

  resolve_project-HasProjects :
      (db : Database) (target : String) (actor_id : Option ℕ)
      → HasProjects db.projects db.plan_versions
      → let db' = (resolve_project env text db target actor_id).1 in
        HasProjects db'.projects db'.plan_versions
  unfolding resolve_project create_project get_project_by_title
  resolve_project-HasProjects db target actor_id h =
      let test : ProjectRow → Bool = λ p. text.sql_lower p.title == text.lower target in
      elim (Option-cases (find_row test db.projects)) [
        | inr (p, found) ↦ rw (found, resolve_project) h
        | inl absent ↦
            rw (absent, resolve_project)
              (HasProjects-among db.projects (add_row db.projects _) db.plan_versions
                (ids_kept db.projects _) h)
      ]

  pub HasProjects-capture :
      (db : Database) (intent : CaptureTaskIntent) (actor_id : Option ℕ) (sink : Option TaskSink)
      → HasProjects db.projects db.plan_versions
      → let db' = (capture env text db intent actor_id sink).1 in
        HasProjects db'.projects db'.plan_versions
  unfolding capture
  HasProjects-capture db intent actor_id sink h =
      let target = target_project env text intent in
      let resolved = resolve_project env text db target actor_id in
      let stored = resolve_project-HasProjects db target actor_id h in
      elim (Option-cases (find_duplicate env text resolved.1 resolved.0.id intent.task_title)) [
        | inl new ↦
            rw (new, capture)
              (rw
                (
                  capture_new-projects env text resolved.1 resolved.0 intent actor_id sink,
                  capture_new-plan_versions env text resolved.1 resolved.0 intent actor_id sink,
                )
                stored)
        | inr (t, old) ↦ rw (old, capture) stored
      ]

module _ (env : Env) (c : Codec) (text : TextOps) (solver : SolverPort) where
  abbrev new_project : Database → AddProjectIntent → ProjectCall → String → ℕ → ProjectRow
  new_project db intent call title project_id = record {
    id = project_id;
    title = title;
    template_id = template_id_of db.templates intent.template_code;
    brief_return_date = intent.brief_return_date;
    deadline = intent.deadline;
    priority = "medium";
    status = "planning";
    notion_page_id = none;
    created_at = env.now db.draws;
    created_by = call.actor_id;
  }

  write_project-ids :
      (db : Database) (intent : AddProjectIntent) (call : ProjectCall) (title : String)
      (project_id : ℕ) (tasks : List Task) (plan : PlanResult) (e : Option ℕ)
      → project_ids
          (write_project env c text solver db intent call title project_id tasks plan e).1.projects
        ≡ project_ids (add_row db.projects (new_project db intent call title project_id))
  unfolding write_project create_project save_project_tasks save_plan_version add_audit
  write_project-ids db intent call title project_id tasks plan e =
      store_page-ids _ project_id (page_of_card call.card)

  HasProjects-write_project :
      (db : Database) (intent : AddProjectIntent) (call : ProjectCall) (title : String)
      (project_id : ℕ) (tasks : List Task) (plan : PlanResult) (e : Option ℕ)
      → HasProjects db.projects db.plan_versions
      → let db' =
          (write_project env c text solver db intent call title project_id tasks plan e).1 in
        HasProjects db'.projects db'.plan_versions
  HasProjects-write_project db intent call title project_id tasks plan e h =
      let db' = (write_project env c text solver db intent call title project_id tasks plan e).1 in
      let project = new_project db intent call title project_id in
      let version = proposal_row env c text solver db call project_id plan in
      let projects = add_row db.projects project in
      let all : HasProjects projects (add_row db.plan_versions version) =
        All-append (λ v. mem v.project_id (project_ids projects) ≡ true) db.plan_versions
          (version ∷ [])
          (HasProjects-among db.projects projects db.plan_versions (ids_kept db.projects project) h)
          (mem-ids-add_row db.projects project, tt) in
      let ids = write_project-ids db intent call title project_id tasks plan e in
      subst (HasProjects db'.projects)
        (sym (
          write_project-plan_versions env c text solver db intent call title project_id tasks plan
            e))
        (HasProjects-among projects db'.projects (add_row db.plan_versions version)
          (λ id k. ap (mem id) ids ∙ k) all)

  pub HasProjects-add_project :
      (db : Database) (intent : AddProjectIntent) (call : ProjectCall) (t : ProjectTemplate)
      → HasProjects db.projects db.plan_versions
      → let db' = (add_project env c text solver db intent call t).1 in
        HasProjects db'.projects db'.plan_versions
  HasProjects-add_project db intent call t h =
      add_project_ind env c text solver db intent call t
        (λ r. HasProjects r.1.projects r.1.plan_versions) (λ e. h)
        (λ tasks plan e.
          HasProjects-write_project (drawn env c text solver db t) intent call
            (text.strip intent.title) (env.uuid4 db.draws) tasks plan e h)
