-- ===== src/AddProject/Proposal.antt =====
-- What adding a project writes (src/planner/app/add_project.py), and what confirming it commits.
use planner_dev.Prelude.{
  ℕ, ◌+◌, ◌≡◌, refl, ap, ◌∙◌, subst, true, false, Option, none, some, String, List, ◌==◌, nat_eq,
  string_eq, Bool-cases, inl, inr, ok, beq_refl,
}
use planner_dev.Models.{Task, PlanResult}
use planner_dev.Intents.{AddProjectIntent}
use planner_dev.Payload.Json.{Codec, CodecLaws}
use planner_dev.Payload.Writing.{serialize_plan}
use planner_dev.Payload.Reading.{deserialize_plan}
use planner_dev.Payload.Roundtrip.{deserialize_plan-serialize_plan}
use planner_dev.Database.{Database, Env}
use planner_dev.Database.Tables.{PlanVersionRow}
use planner_dev.Database.Rows.{find_row, any_row, add_row}
use planner_dev.Database.RowLaws.{find_row-append_none}
use planner_dev.Database.Records.{TextOps, PlanVersionRecord}
use planner_dev.Database.Projects.{ProjectTemplate, create_project, set_project_notion_page}
use planner_dev.Database.Plans.{get_plan_version, save_plan_version, plan_version_record}
use planner_dev.Database.Saving.{save_project_tasks}
use planner_dev.Database.Boards.{add_audit}
use planner_dev.Confirm.{TaskSink, confirm}
use planner_dev.Confirm.Steps.{is_confirmed}
use planner_dev.Confirm.Committed.{confirm-IsCommitted}
use planner_dev.AddProject.Cases.{add_project_ind}
use planner_dev.AddProject.{
  SolverPort, ProjectCall, ProjectError, AddProjectResult, ProjectAnswer, added, refused,
  write_project, add_project, store_page, drawn, page_of_card,
}

store_page-plan_versions :
    (db : Database) (id : ℕ) (page : Option String)
    → (store_page db id page).plan_versions ≡ db.plan_versions
unfolding set_project_notion_page
store_page-plan_versions db id none = refl
store_page-plan_versions db id (some page) = elim (Bool-cases (page == "")) [
  | inl empty ↦ rw empty refl
  | inr filled ↦ rw filled refl
]

module _ (env : Env) (c : Codec) (text : TextOps) where
  -- Confirming the version succeeds and commits the plan.
  pub record IsStarted (db : Database) (actor_id : Option ℕ) (sink : Option TaskSink)
      (plan : PlanResult) (pv_id : ℕ) : Type 0 where
    pub version : PlanVersionRecord
    pub answers : is_confirmed (confirm env c text db pv_id actor_id sink).0 ≡ true
    pub stored : get_plan_version (confirm env c text db pv_id actor_id sink).1 pv_id ≡ some version
    pub committed : version.status ≡ "committed"
    pub snapshot : deserialize_plan c version.payload ≡ ok plan

module _ (env : Env) (c : Codec) (text : TextOps) (solver : SolverPort) where
  -- The version that is stored for a plan is the proposal of that plan.
  pub record IsProposal (versions : List PlanVersionRow) (db' : Database) (a : AddProjectResult)
      : Type 0 where
    pub row : PlanVersionRow
    pub named : row.id ≡ a.plan_version_id
    pub proposed : row.status ≡ "proposed"
    pub payload : row.payload ≡ serialize_plan c a.plan
    pub stored : db'.plan_versions ≡ add_row versions row

  abbrev Proposes : Database → ProjectAnswer × Database → Type 0
  Proposes db (refused e, db') = db' ≡ db
  Proposes db (added a, db') = IsProposal db.plan_versions db' a

  abbrev pub proposal_row : Database → ProjectCall → (project_id : ℕ) → PlanResult → PlanVersionRow
  proposal_row db call project_id plan = record {
    id = env.uuid4 (db.draws + 1);
    project_id = project_id;
    status = "proposed";
    created_at = env.now (db.draws + 1);
    created_by = call.actor_id;
    payload = serialize_plan c plan;
  }

  pub write_project-plan_versions :
      (db : Database) (intent : AddProjectIntent) (call : ProjectCall) (title : String)
      (project_id : ℕ) (tasks : List Task) (plan : PlanResult) (e : Option ℕ)
      → (write_project env c text solver db intent call title project_id tasks plan
          e).1.plan_versions
        ≡ add_row db.plan_versions (proposal_row db call project_id plan)
  unfolding write_project create_project save_project_tasks save_plan_version add_audit
  write_project-plan_versions db intent call title project_id tasks plan e =
      store_page-plan_versions _ _ (page_of_card call.card)

  write_project-Proposes :
      (db : Database) (intent : AddProjectIntent) (call : ProjectCall) (title : String)
      (project_id : ℕ) (tasks : List Task) (plan : PlanResult) (e : Option ℕ)
      → Proposes db (write_project env c text solver db intent call title project_id tasks plan e)
  unfolding write_project create_project save_project_tasks save_plan_version add_audit
  write_project-Proposes db intent call title project_id tasks plan e = record {
    row = proposal_row db call project_id plan;
    named = refl;
    proposed = refl;
    payload = refl;
    stored = write_project-plan_versions db intent call title project_id tasks plan e;
  }

  -- Whatever a call answers, it wrote nothing or the proposal it answers with.
  add_project-Proposes :
      (db : Database) (intent : AddProjectIntent) (call : ProjectCall) (t : ProjectTemplate)
      → Proposes db (add_project env c text solver db intent call t)
  unfolding write_project
  add_project-Proposes db intent call t =
      add_project_ind env c text solver db intent call t (Proposes db) (λ e. refl)
        (write_project-Proposes (drawn env c text solver db t) intent call (text.strip intent.title)
          (env.uuid4 db.draws))

  refused_keeps :
      (db : Database) (r : ProjectAnswer × Database) (e : ProjectError)
      → r.0 ≡ refused e
      → Proposes db r
      → r.1 ≡ db
  refused_keeps db (refused e', db') e h same = same
  refused_keeps db (added a, db') e h p = cc

  -- Adding a project that is refused, whatever the reason, leaves the state as it was.
  pub add_project_refused :
      (db : Database) (intent : AddProjectIntent) (call : ProjectCall) (t : ProjectTemplate)
      (e : ProjectError)
      → (add_project env c text solver db intent call t).0 ≡ refused e
      → (add_project env c text solver db intent call t).1 ≡ db
  add_project_refused db intent call t e h =
      refused_keeps db (add_project env c text solver db intent call t) e h
        (add_project-Proposes db intent call t)

  confirm-row :
      CodecLaws c
      → (versions : List PlanVersionRow) (db : Database) (row : PlanVersionRow) (plan : PlanResult)
      → db.plan_versions ≡ add_row versions row
      → row.status ≡ "proposed"
      → row.payload ≡ serialize_plan c plan
      → any_row (λ v. v.id == row.id) versions ≡ false
      → (actor_id : Option ℕ) (sink : Option TaskSink)
      → IsStarted env c text db actor_id sink plan row.id
  confirm-row laws versions db row plan stored proposed payload fresh actor_id sink =
      let found : find_row (λ v. v.id == row.id) db.plan_versions ≡ some row =
        ap (find_row (λ v. v.id == row.id)) stored
        ∙ find_row-append_none (λ v. v.id == row.id) versions row fresh (beq_refl row.id) in
      let done = confirm-IsCommitted env c text db row actor_id sink found proposed in
      record {
        version = record (plan_version_record row) { status = "committed" };
        answers = done.answers;
        stored = done.version;
        committed = refl;
        snapshot = ap (deserialize_plan c) payload ∙ deserialize_plan-serialize_plan c laws plan;
      }

  -- If a project is added, its plan's version having an identifier that no stored version has, then
  -- confirming that version succeeds: the version is then stored as committed, and its snapshot
  -- reads back as the plan that was proposed, if what the standard library prints parses back.
  pub confirm-add_project :
      CodecLaws c
      → (db : Database) (intent : AddProjectIntent) (call : ProjectCall) (t : ProjectTemplate)
        (a : AddProjectResult) (db' : Database)
      → add_project env c text solver db intent call t ≡ (added a, db')
      → any_row (λ v. v.id == a.plan_version_id) db.plan_versions ≡ false
      → (actor_id : Option ℕ) (sink : Option TaskSink)
      → IsStarted env c text db' actor_id sink a.plan a.plan_version_id
  confirm-add_project laws db intent call t a db' h fresh actor_id sink =
      let p : IsProposal db.plan_versions db' a =
        subst (Proposes db) h (add_project-Proposes db intent call t) in
      let unused : any_row (λ v. v.id == p.row.id) db.plan_versions ≡ false =
        ap (λ id. any_row (λ v. v.id == id) db.plan_versions) p.named ∙ fresh in
      subst (IsStarted env c text db' actor_id sink a.plan) p.named (
        confirm-row laws db.plan_versions db' p.row a.plan p.stored p.proposed p.payload unused
          actor_id sink)
