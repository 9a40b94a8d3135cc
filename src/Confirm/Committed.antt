-- ===== src/Confirm/Committed.antt =====
-- What a confirmed plan version leaves behind (src/planner/app/confirm_plan.py).
use planner_dev.Prelude.{
  ℕ, ◌≡◌, refl, sym, ap, ◌∙◌, subst, true, Option, some, ◌==◌, nat_eq, string_eq, beq_refl,
}
use planner_dev.Payload.Json.{Codec}
use planner_dev.Database.{Database, Env}
use planner_dev.Database.Tables.{PlanVersionRow, AuditLogRow}
use planner_dev.Database.Rows.{find_row, add_row}
use planner_dev.Database.RowLaws.{find_row-change_rows, any_row-find_row}
use planner_dev.Database.Records.{PlanVersionRecord, TextOps}
use planner_dev.Database.Plans.{
  found_version, get_plan_version, transition_plan_status, is_version_in, plan_version_record,
}
use planner_dev.Database.Projects.{set_project_status}
use planner_dev.Database.Boards.{add_audit}
use planner_dev.Confirm.{TaskSink, ConfirmAnswer, commit, confirm}
use planner_dev.Confirm.Steps.{
  is_proposed, is_confirmed, commit-plan_versions, commit-is_confirmed, confirm_found,
}

-- What a confirmed version leaves behind: the version is committed and its payload as before, its
-- project is committed, and the audit log has one more entry, by the actor.
pub record IsCommitted (db : Database) (pv : PlanVersionRecord) (actor_id : Option ℕ)
    (r : ConfirmAnswer × Database) : Type 0 where
  pub answers : is_confirmed r.0 ≡ true
  pub version : get_plan_version r.1 pv.id ≡ some (record pv { status = "committed" })
  pub project : r.1.projects ≡ (set_project_status db pv.project_id "committed").projects
  pub logged :
      (entry : AuditLogRow) × (r.1.audit_log ≡ add_row db.audit_log entry)
      × (entry.action ≡ "confirm_plan")
      × (entry.actor_id ≡ actor_id)
      × (entry.entity_id ≡ some pv.id)

module _ (env : Env) (c : Codec) (text : TextOps) where
  commit-projects :
      (db : Database) (row : PlanVersionRow) (actor_id : Option ℕ) (sink : Option TaskSink)
      → is_proposed db row.id ≡ true
      → (commit env c text db (plan_version_record row) actor_id sink).1.projects
        ≡ (set_project_status db row.project_id "committed").projects
  unfolding commit transition_plan_status add_audit set_project_status
  commit-projects db row actor_id sink moved = rw moved refl

  commit-audit_log :
      (db : Database) (row : PlanVersionRow) (actor_id : Option ℕ) (sink : Option TaskSink)
      → is_proposed db row.id ≡ true
      → (entry : AuditLogRow) × ((commit env c text db
            (plan_version_record row)
            actor_id
            sink).1.audit_log
          ≡ add_row db.audit_log entry)
        × (entry.action ≡ "confirm_plan")
        × (entry.actor_id ≡ actor_id)
        × (entry.entity_id ≡ some row.id)
  unfolding commit transition_plan_status add_audit set_project_status
  commit-audit_log db row actor_id sink moved = rw moved (_, refl, refl, refl, refl)

  commit-IsCommitted :
      (db : Database) (row : PlanVersionRow) (actor_id : Option ℕ) (sink : Option TaskSink)
      → find_row (λ v. v.id == row.id) db.plan_versions ≡ some row
      → row.status ≡ "proposed"
      → IsCommitted db
          (plan_version_record row)
          actor_id
          (commit env c text db (plan_version_record row) actor_id sink)
  unfolding get_plan_version
  commit-IsCommitted db row actor_id sink found proposed =
      let here : is_version_in row.id "proposed" row ≡ true =
        rw (beq_refl row.id) ((string_eq.equal_iff row.status "proposed").1 proposed) in
      let moved : is_proposed db row.id ≡ true =
        any_row-find_row (λ v. v.id == row.id) (is_version_in row.id "proposed") db.plan_versions
          row found here in
      let read : Option PlanVersionRow → Option PlanVersionRecord = found_version in
      record {
        answers = commit-is_confirmed env c text db (plan_version_record row) actor_id sink ∙ moved;
        version =
            ap (λ l. read (find_row (λ v. v.id == row.id) l))
              (commit-plan_versions env c text db (plan_version_record row) actor_id sink)
            ∙ (ap read (
                  find_row-change_rows (λ v. v.id == row.id) (is_version_in row.id "proposed")
                    (λ (v : PlanVersionRow). record v { status = "committed" }) db.plan_versions
                    (λ v. refl) row found)
                ∙ rw here refl);
        project = commit-projects db row actor_id sink moved;
        logged = commit-audit_log db row actor_id sink moved;
      }

  -- Confirming a version that is there as proposed commits it: its payload stays, its project is
  -- committed, and the audit log has one more entry, by the actor.
  pub confirm-IsCommitted :
      (db : Database) (row : PlanVersionRow) (actor_id : Option ℕ) (sink : Option TaskSink)
      → find_row (λ v. v.id == row.id) db.plan_versions ≡ some row
      → row.status ≡ "proposed"
      → IsCommitted db
          (plan_version_record row)
          actor_id
          (confirm env c text db row.id actor_id sink)
  unfolding get_plan_version
  confirm-IsCommitted db row actor_id sink found proposed =
      let same =
        confirm_found env c text db row.id (plan_version_record row) actor_id sink
          (ap found_version found) in
      subst (IsCommitted db (plan_version_record row) actor_id) (sym same)
        (commit-IsCommitted db row actor_id sink found proposed)
