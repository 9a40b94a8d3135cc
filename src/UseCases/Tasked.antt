-- ===== src/UseCases/Tasked.antt =====
-- Every stored assignment belongs to a stored task, whatever use-cases are called (src/planner/app).
use planner_dev.Prelude.{
  ℕ, ◌==◌, nat_eq, string_eq, ◌≡◌, refl, sym, ap, ◌∙◌, subst, Bool, true, false, mem, String,
  Option, none, some, List, [], ◌∷◌, ◌++◌, All, All-imp, Bool-cases, Option-cases, inl, inr,
  beq_refl,
}
use planner_dev.Models.{Task, PlanResult, index_by_task}
use planner_dev.Payload.Json.{Codec}
use planner_dev.Intents.{AddProjectIntent, CaptureTaskIntent}
use planner_dev.Database.{Database, Env}
use planner_dev.Database.Tables.{TaskRow}
use planner_dev.Database.Rows.{change_rows}
use planner_dev.Database.Records.{TextOps, PlanVersionRecord, ProjectRecord}
use planner_dev.Database.People.{get_person_by_name}
use planner_dev.Database.Plans.{
  reset_all_plans, get_plan_version, transition_plan_status, save_plan_version,
}
use planner_dev.Database.Projects.{
  ProjectTemplate, create_project, get_project_by_title, set_project_status,
  set_project_notion_page,
}
use planner_dev.Database.Saving.{save_project_tasks}
use planner_dev.Database.Work.{create_task, assign_task, set_task_status}
use planner_dev.Database.Boards.{add_audit}
use planner_dev.Confirm.{TaskSink, commit, confirm}
use planner_dev.Confirm.Steps.{is_proposed, confirm_found, confirm_missing}
use planner_dev.MarkDone.{mark_task, allowed_statuses}
use planner_dev.Capture.{
  resolve_project, target_project, find_duplicate, assign_all, capture_new, capture, duration_of,
}
use planner_dev.Capture.Stored.{new_task, new_row, capture_new-tasks}
use planner_dev.AddProject.{
  SolverPort, ProjectCall, write_project, add_project, drawn, store_page, page_of_card,
}
use planner_dev.AddProject.Cases.{add_project_ind}
use planner_dev.UseCases.Pages.{store_page-tasks}
use planner_dev.UseCases.Owners.{or_left, or_right}
use planner_dev.UseCases.Assigned.{
  task_ids, HasTasks, mem-more_tasks, HasTasks-append, ids-change_status, HasTasks-saved,
  assign_task-task_id,
}

pub HasTasks-mark_task :
    (env : Env) (text : TextOps) (db : Database) (task_id : ℕ) (actor_id : Option ℕ)
    (is_admin has_sink : Bool) (status : String)
    → HasTasks db.tasks db.assignments
    → let db' = (mark_task env text db task_id actor_id is_admin has_sink status).2 in
      HasTasks db'.tasks db'.assignments
unfolding mark_task set_task_status add_audit
HasTasks-mark_task env text db task_id actor_id false has_sink status h = h
HasTasks-mark_task env text db task_id actor_id true has_sink status h =
    elim (Bool-cases (mem status allowed_statuses)) [
      | inl allowed ↦
          let tasks =
            change_rows (λ t. t.id == task_id) (λ (t : TaskRow). record t { status = status })
              db.tasks in
          rw allowed (
            All-imp (λ a. mem a.task_id (task_ids db.tasks) ≡ true)
              (λ a. mem a.task_id (task_ids tasks) ≡ true)
              (λ a m.
                ap (mem a.task_id) (ids-change_status (λ t. t.id == task_id) status db.tasks) ∙ m)
              db.assignments h)
      | inr invalid ↦ rw invalid h
    ]

pub reset_all_plans-tasks :
    (db : Database)
    → let db' = (reset_all_plans db).1 in
      (db'.tasks ≡ db.tasks) × (db'.assignments ≡ db.assignments)
unfolding reset_all_plans
reset_all_plans-tasks db = (refl, refl)

store_page-assignments :
    (db : Database) (id : ℕ) (page : Option String)
    → (store_page db id page).assignments ≡ db.assignments
unfolding set_project_notion_page
store_page-assignments db id none = refl
store_page-assignments db id (some page) = elim (Bool-cases (page == "")) [
  | inl empty ↦ rw empty refl
  | inr filled ↦ rw filled refl
]

HasTasks-store_page :
    (db : Database) (id : ℕ) (page : Option String)
    → HasTasks db.tasks db.assignments
    → HasTasks (store_page db id page).tasks (store_page db id page).assignments
HasTasks-store_page db id page h =
    rw (store_page-tasks db id page, store_page-assignments db id page) h

module _ (env : Env) (c : Codec) (text : TextOps) where
  commit-tasks :
      (db : Database) (pv : PlanVersionRecord) (actor_id : Option ℕ) (sink : Option TaskSink)
      → let db' = (commit env c text db pv actor_id sink).1 in
        (db'.tasks ≡ db.tasks) × (db'.assignments ≡ db.assignments)
  unfolding commit transition_plan_status add_audit set_project_status
  commit-tasks db pv actor_id sink = elim (Bool-cases (is_proposed db pv.id)) [
    | inl moved ↦ rw moved (refl, refl)
    | inr stays ↦ rw stays (refl, refl)
  ]

  pub confirm-tasks :
      (db : Database) (pv_id : ℕ) (actor_id : Option ℕ) (sink : Option TaskSink)
      → let db' = (confirm env c text db pv_id actor_id sink).1 in
        (db'.tasks ≡ db.tasks) × (db'.assignments ≡ db.assignments)
  confirm-tasks db pv_id actor_id sink = elim (Option-cases (get_plan_version db pv_id)) [
    | inl absent ↦ rw (confirm_missing env c text db pv_id actor_id sink absent) (refl, refl)
    | inr (pv, found) ↦
        rw (confirm_found env c text db pv_id pv actor_id sink found)
          (commit-tasks db pv actor_id sink)
  ]

  resolve_project-tasks :
      (db : Database) (target : String) (actor_id : Option ℕ)
      → let db' = (resolve_project env text db target actor_id).1 in
        (db'.tasks ≡ db.tasks) × (db'.assignments ≡ db.assignments)
  unfolding resolve_project create_project
  resolve_project-tasks db target actor_id =
      elim (Option-cases (get_project_by_title text db target)) [
        | inr (p, found) ↦ rw (found, resolve_project) (refl, refl)
        | inl absent ↦ rw (absent, resolve_project) (refl, refl)
      ]

  assign_all-task_id :
      (ids : List ℕ) (db : Database) (t h : ℕ) (l : List String)
      → mem t ids ≡ true
      → All (λ a. mem a.task_id ids ≡ true) db.assignments
      → All (λ a. mem a.task_id ids ≡ true) (assign_all env text db t h l).1.assignments
  unfolding assign_all
  assign_all-task_id ids db t h [] m all = all
  assign_all-task_id ids db t h (name ∷ l) m all =
      elim (Option-cases (get_person_by_name text db name)) [
        | inl unknown ↦ rw (unknown, assign_all) (assign_all-task_id ids db t h l m all)
        | inr (person, found) ↦
            rw (found, assign_all)
              (assign_all-task_id ids (assign_task db t person.id h) t h l m
                (assign_task-task_id ids db t person.id h m all))
      ]

  HasTasks-capture_new :
      (db : Database) (project : ProjectRecord) (intent : CaptureTaskIntent) (actor_id : Option ℕ)
      (sink : Option TaskSink)
      → HasTasks db.tasks db.assignments
      → let db' = (capture_new env text db project intent actor_id sink).1 in
        HasTasks db'.tasks db'.assignments
  unfolding capture_new create_task add_audit
  HasTasks-capture_new db project intent actor_id sink h =
      let row = new_row env text db project intent in
      let created = create_task env db (new_task env text project intent) in
      let tasks = db.tasks ++ row ∷ [] in
      let here : mem row.id (task_ids tasks) ≡ true =
        mem-more_tasks db.tasks (row ∷ []) row.id
        ∙ or_right (mem row.id (task_ids db.tasks)) (mem row.id (row.id ∷ []))
            (or_left (row.id == row.id) false (beq_refl row.id)) in
      subst (λ ts. HasTasks ts (capture_new env text db project intent actor_id sink).1.assignments)
        (sym (capture_new-tasks env text db project intent actor_id sink))
        (assign_all-task_id (task_ids tasks) created.1 created.0.id (duration_of intent.est_hours)
          intent.assignee_names here (HasTasks-append db.tasks (row ∷ []) db.assignments h))

  pub HasTasks-capture :
      (db : Database) (intent : CaptureTaskIntent) (actor_id : Option ℕ) (sink : Option TaskSink)
      → HasTasks db.tasks db.assignments
      → let db' = (capture env text db intent actor_id sink).1 in HasTasks db'.tasks db'.assignments
  unfolding capture
  HasTasks-capture db intent actor_id sink h =
      let target = target_project env text intent in
      let resolved = resolve_project env text db target actor_id in
      let kept = resolve_project-tasks db target actor_id in
      let stored : HasTasks resolved.1.tasks resolved.1.assignments = rw (kept.0, kept.1) h in
      elim (Option-cases (find_duplicate env text resolved.1 resolved.0.id intent.task_title)) [
        | inl new ↦
            rw (new, capture)
              (HasTasks-capture_new resolved.1 resolved.0 intent actor_id sink stored)
        | inr (t, old) ↦ rw (old, capture) stored
      ]

module _ (env : Env) (c : Codec) (text : TextOps) (solver : SolverPort) where
  HasTasks-write_project :
      (db : Database) (intent : AddProjectIntent) (call : ProjectCall) (title : String)
      (project_id : ℕ) (tasks : List Task) (plan : PlanResult) (e : Option ℕ)
      → HasTasks db.tasks db.assignments
      → let db' =
          (write_project env c text solver db intent call title project_id tasks plan e).1 in
        HasTasks db'.tasks db'.assignments
  unfolding write_project create_project save_project_tasks save_plan_version add_audit
  HasTasks-write_project db intent call title project_id tasks plan e h =
      HasTasks-store_page _ project_id (page_of_card call.card) (
        HasTasks-saved db.tasks db.assignments project_id (index_by_task [] plan.assignments) tasks
          h)

  pub HasTasks-add_project :
      (db : Database) (intent : AddProjectIntent) (call : ProjectCall) (t : ProjectTemplate)
      → HasTasks db.tasks db.assignments
      → let db' = (add_project env c text solver db intent call t).1 in
        HasTasks db'.tasks db'.assignments
  HasTasks-add_project db intent call t h =
      add_project_ind env c text solver db intent call t (λ r. HasTasks r.1.tasks r.1.assignments)
        (λ e. h)
        (λ tasks plan e.
          HasTasks-write_project (drawn env c text solver db t) intent call
            (text.strip intent.title) (env.uuid4 db.draws) tasks plan e h)
