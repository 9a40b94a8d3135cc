-- ===== src/Capture/Stored.antt =====
-- The task that a capture stores (src/planner/app/capture_task.py).
use planner_dev.Prelude.{
  ℕ, ◌≡◌, refl, ap, ◌∙◌, String, Bool, true, false, ◌&&◌, ◌||◌, Option, none, List, [], ◌∷◌, ◌++◌,
  ◌==◌, nat_eq, string_eq, is_some, map, keep, arith, Option-cases, inl, inr, beq_refl,
}
use planner_dev.Intents.{CaptureTaskIntent}
use planner_dev.Database.{Database, Env}
use planner_dev.Database.Tables.{TaskRow}
use planner_dev.Database.Rows.{find_row, any_row, order_by}
use planner_dev.Database.RowLaws.{
  is_some-find_row, any_row-order_by, any_row-append, any_row-keep, any_row-map,
}
use planner_dev.Database.Records.{ProjectRecord, TextOps}
use planner_dev.Database.People.{get_person_by_name}
use planner_dev.Database.Work.{
  NewTask, create_task, is_assignment, assign_task, list_project_tasks, task_record,
}
use planner_dev.Database.Boards.{add_audit}
use planner_dev.Confirm.{TaskSink}
use planner_dev.Capture.{same_title, find_duplicate, assign_all, capture_new, duration_of}

assign_task-tasks :
    (db : Database) (t p h : ℕ)
    → ((assign_task db t p h).tasks ≡ db.tasks)
      × ((assign_task db t p h).projects ≡ db.projects)
      × ((assign_task db t p h).plan_versions ≡ db.plan_versions)
unfolding assign_task
assign_task-tasks db t p h = elim (Option-cases (find_row (is_assignment t p) db.assignments)) [
  | inl new ↦ rw (new, assign_task) (refl, refl, refl)
  | inr (old, found) ↦ rw (found, assign_task) (refl, refl, refl)
]

module _ (env : Env) (text : TextOps) where
  assign_all-tasks :
      (db : Database) (t h : ℕ) (l : List String)
      → ((assign_all env text db t h l).1.tasks ≡ db.tasks)
        × ((assign_all env text db t h l).1.projects ≡ db.projects)
        × ((assign_all env text db t h l).1.plan_versions ≡ db.plan_versions)
  unfolding assign_all
  assign_all-tasks db t h [] = (refl, refl, refl)
  assign_all-tasks db t h (name ∷ l) = elim (Option-cases (get_person_by_name text db name)) [
    | inl unknown ↦ rw (unknown, assign_all) (assign_all-tasks db t h l)
    | inr (person, found) ↦
        let first = assign_task-tasks db t person.id h in
        let rest = assign_all-tasks (assign_task db t person.id h) t h l in
        rw (found, assign_all) (rest.0 ∙ first.0, rest.1 ∙ first.1, rest.2 ∙ first.2)
  ]

  -- A task of that title, not done, is in the project.
  abbrev pub HasTask : Database → ℕ → String → Type 0
  HasTask db project_id title =
      any_row
        (λ (t : TaskRow).
          (t.project_id == project_id)
          && same_title env text (text.lower (text.strip title)) (task_record t))
        db.tasks
      ≡ true

  pub find_duplicate-HasTask :
      (db : Database) (project_id : ℕ) (title : String)
      → HasTask db project_id title
      → is_some (find_duplicate env text db project_id title) ≡ true
  unfolding find_duplicate list_project_tasks
  find_duplicate-HasTask db project_id title h =
      let same = same_title env text (text.lower (text.strip title)) in
      let le : TaskRow → TaskRow → Bool = λ t u. text.collate t.name u.name in
      let mine : TaskRow → Bool = λ t. t.project_id == project_id in
      is_some-find_row same (map task_record (order_by le (keep mine db.tasks)))
      ∙ (any_row-map same task_record (order_by le (keep mine db.tasks))
          ∙ (any_row-order_by (λ t. same (task_record t)) le (keep mine db.tasks)
              ∙ (any_row-keep (λ t. same (task_record t)) mine db.tasks ∙ h)))

  -- The task that is stored, as the call's argument and as its row.
  abbrev pub new_task : ProjectRecord → CaptureTaskIntent → NewTask
  new_task project intent = record {
    project_id = project.id;
    name = intent.task_title;
    duration_hours = duration_of intent.est_hours;
    deadline = intent.deadline;
    required_skills = intent.required_skills;
    time_start = intent.time_start;
  }

  abbrev pub new_row : Database → ProjectRecord → CaptureTaskIntent → TaskRow
  new_row db project intent = record {
    id = env.uuid4 db.draws;
    project_id = project.id;
    template_task_id = none;
    name = intent.task_title;
    duration_hours = duration_of intent.est_hours;
    start_date = none;
    end_date = intent.deadline;
    time_start = intent.time_start;
    status = "not_done";
    source = "bot_formed";
    required_skills = intent.required_skills;
    is_preliminary = false;
    is_splittable = false;
    duration_is_window = false;
    allow_two_assignees = false;
    pair_mode = "none";
  }

  pub capture_new-tasks :
      (db : Database) (project : ProjectRecord) (intent : CaptureTaskIntent) (actor_id : Option ℕ)
      (sink : Option TaskSink)
      → (capture_new env text db project intent actor_id sink).1.tasks
        ≡ db.tasks ++ new_row db project intent ∷ []
  unfolding capture_new create_task add_audit
  capture_new-tasks db project intent actor_id sink =
      let created = create_task env db (new_task project intent) in
      (assign_all-tasks created.1 created.0.id (duration_of intent.est_hours)
        intent.assignee_names).0

  -- The task of the intent is there behind a capture that stores it.
  pub HasTask-capture_new :
      (db : Database) (project : ProjectRecord) (intent : CaptureTaskIntent) (actor_id : Option ℕ)
      (sink : Option TaskSink)
      → HasTask
          (capture_new env text db project intent actor_id sink).1
          project.id
          intent.task_title
  unfolding any_row
  HasTask-capture_new db project intent actor_id sink =
      let test : TaskRow → Bool = λ t.
        (t.project_id == project.id)
        && same_title env text (text.lower (text.strip intent.task_title)) (task_record t) in
      let here : any_row test (new_row db project intent ∷ []) ≡ true =
        rw (beq_refl project.id, beq_refl (text.lower (text.strip intent.task_title))) refl in
      ap (any_row test) (capture_new-tasks db project intent actor_id sink)
      ∙ (any_row-append test db.tasks (new_row db project intent ∷ [])
          ∙ or_true (any_row test db.tasks) (any_row test (new_row db project intent ∷ [])) here)
    where
      or_true : (a b : Bool) → b ≡ true → (a || b) ≡ true
      or_true a b h = ground arith

  pub capture_new-projects :
      (db : Database) (project : ProjectRecord) (intent : CaptureTaskIntent) (actor_id : Option ℕ)
      (sink : Option TaskSink)
      → (capture_new env text db project intent actor_id sink).1.projects ≡ db.projects
  unfolding capture_new create_task add_audit
  capture_new-projects db project intent actor_id sink =
      let created = create_task env db (new_task project intent) in
      (assign_all-tasks created.1 created.0.id (duration_of intent.est_hours)
        intent.assignee_names).1

  pub capture_new-plan_versions :
      (db : Database) (project : ProjectRecord) (intent : CaptureTaskIntent) (actor_id : Option ℕ)
      (sink : Option TaskSink)
      → (capture_new env text db project intent actor_id sink).1.plan_versions ≡ db.plan_versions
  unfolding capture_new create_task add_audit
  capture_new-plan_versions db project intent actor_id sink =
      let created = create_task env db (new_task project intent) in
      (assign_all-tasks created.1 created.0.id (duration_of intent.est_hours)
        intent.assignee_names).2
