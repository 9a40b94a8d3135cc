-- ===== src/Capture/Duplicates.antt =====
-- Capturing a task twice (src/planner/app/capture_task.py).
use planner_dev.Prelude.{
  ℕ, ◌≡◌, refl, sym, ap, ◌∙◌, subst, String, Bool, true, false, Option, none, some, ◌==◌, nat_eq,
  string_eq, is_some, Option-cases, inl, inr, beq_refl,
}
use planner_dev.Intents.{CaptureTaskIntent}
use planner_dev.Database.{Database, Env}
use planner_dev.Database.Tables.{ProjectRow}
use planner_dev.Database.Rows.{find_row, any_row}
use planner_dev.Database.RowLaws.{find_row-append_none, is_some-find_row}
use planner_dev.Database.Records.{ProjectRecord, TextOps}
use planner_dev.Database.Projects.{
  NewProject, template_id_of, get_project_by_title, create_project, found_project, project_record,
}
use planner_dev.Confirm.{TaskSink}
use planner_dev.Capture.{
  CaptureResult, target_project, resolve_project, find_duplicate, capture_new, capture,
}
use planner_dev.Capture.Stored.{
  HasTask, find_duplicate-HasTask, HasTask-capture_new, capture_new-projects,
}

module _ (env : Env) (text : TextOps) where
  abbrev stub : String → NewProject
  stub target = record {
    title = target;
    template_code = "";
    deadline = none;
    brief_return_date = none;
    priority = "medium";
  }

  stub_row : Database → String → Option ℕ → ProjectRow
  stub_row db target actor_id = record {
    id = env.uuid4 db.draws;
    title = target;
    template_id = template_id_of db.templates "";
    brief_return_date = none;
    deadline = none;
    priority = "medium";
    status = "planning";
    notion_page_id = none;
    created_at = env.now db.draws;
    created_by = actor_id;
  }

  missing_title :
      (db : Database) (target : String)
      → get_project_by_title text db target ≡ none
      → any_row (λ (p : ProjectRow). text.sql_lower p.title == text.lower target) db.projects
        ≡ false
  unfolding get_project_by_title
  missing_title db target h =
      let test : ProjectRow → Bool = λ p. text.sql_lower p.title == text.lower target in
      elim (Option-cases (find_row test db.projects)) [
        | inl absent ↦ sym (is_some-find_row test db.projects) ∙ ap is_some absent
        | inr (p, found) ↦ let h' = rw found at h in cc
      ]

  -- The project that a target resolves to is found by the target from then on.
  resolved_found :
      (db : Database) (target : String) (actor_id : Option ℕ)
      → text.sql_lower target ≡ text.lower target
      → (found : ProjectRecord) × (get_project_by_title text
            (resolve_project env text db target actor_id).1
            target
          ≡ some found)
        × (found.id ≡ (resolve_project env text db target actor_id).0.id)
  unfolding resolve_project create_project stub_row get_project_by_title
  resolved_found db target actor_id folds =
      elim (Option-cases (get_project_by_title text db target)) [
        | inl new ↦
            let made = create_project env db (stub target) actor_id none in
            let absent = missing_title db target new in
            rw (new, resolve_project)
              (
                project_record (stub_row db target actor_id),
                ap found_project (
                    find_row-append_none (λ p. text.sql_lower p.title == text.lower target)
                      db.projects (stub_row db target actor_id) absent
                      (rw folds (beq_refl (text.lower target)))),
                refl,
              )
        | inr (p, old) ↦ rw (old, resolve_project) (p, old, refl)
      ]

  -- The two ways of a capture.
  capture_is_new :
      (db : Database) (intent : CaptureTaskIntent) (actor_id : Option ℕ) (sink : Option TaskSink)
      → (capture env text db intent actor_id sink).0.is_duplicate ≡ false
      → let resolved = resolve_project env text db (target_project env text intent) actor_id in
        capture env text db intent actor_id sink
        ≡ capture_new env text resolved.1 resolved.0 intent actor_id sink
  unfolding capture
  capture_is_new db intent actor_id sink h =
      let resolved = resolve_project env text db (target_project env text intent) actor_id in
      elim (Option-cases (find_duplicate env text resolved.1 resolved.0.id intent.task_title)) [
        | inl new ↦ rw (new, capture) refl
        | inr (t, old) ↦ let h' = rw (old, capture) at h in cc
      ]

  -- A project that is found is resolved to, and nothing is written.
  resolve_found :
      (db : Database) (target : String) (actor_id : Option ℕ) (p : ProjectRecord)
      → get_project_by_title text db target ≡ some p
      → resolve_project env text db target actor_id ≡ (p, db)
  unfolding resolve_project
  resolve_found db target actor_id p h = rw (h, resolve_project) refl

  capture_duplicate :
      (db : Database) (intent : CaptureTaskIntent) (actor_id : Option ℕ) (sink : Option TaskSink)
      (p : ProjectRecord)
      → get_project_by_title text db (target_project env text intent) ≡ some p
      → is_some (find_duplicate env text db p.id intent.task_title) ≡ true
      → let r = capture env text db intent actor_id sink in (r.0.is_duplicate ≡ true) × (r.1 ≡ db)
  unfolding capture
  capture_duplicate db intent actor_id sink p found old =
      let target = target_project env text intent in
      elim (Option-cases (find_duplicate env text db p.id intent.task_title)) [
        | inl new ↦ let h' = rw new at old in cc
        | inr (t, there) ↦
            rw (resolve_found db target actor_id p found, there, capture)
              (
                refl,
                ap (λ (x : ProjectRecord × Database). x.1)
                    (resolve_found db target actor_id p found),
              )
      ]

title_kept :
    (text : TextOps) (a b : Database) (title : String)
    → a.projects ≡ b.projects
    → get_project_by_title text a title ≡ get_project_by_title text b title
unfolding get_project_by_title
title_kept text a b title same =
    ap
      (λ l.
        found_project (find_row (λ (p : ProjectRow). text.sql_lower p.title == text.lower title) l))
      same

-- After a capture that stored its task, capturing the same intent again, by whomever, is answered as
-- a duplicate and writes nothing, if the database folds the project's title to lower case as Python
-- does.
pub capture_again :
    (env : Env) (text : TextOps) (db : Database) (intent : CaptureTaskIntent)
    (actor_id later_actor_id : Option ℕ) (sink later_sink : Option TaskSink)
    → text.sql_lower (target_project env text intent) ≡ text.lower (target_project env text intent)
    → (capture env text db intent actor_id sink).0.is_duplicate ≡ false
    → let db' = (capture env text db intent actor_id sink).1 in
      let r = capture env text db' intent later_actor_id later_sink in
      (r.0.is_duplicate ≡ true) × (r.1 ≡ db')
capture_again env text db intent actor_id later_actor_id sink later_sink folds new =
    let target = target_project env text intent in
    let resolved = resolve_project env text db target actor_id in
    let first = capture_is_new env text db intent actor_id sink new in
    let stored = capture_new env text resolved.1 resolved.0 intent actor_id sink in
    let (p, there, same) = resolved_found env text db target actor_id folds in
    let kept = capture_new-projects env text resolved.1 resolved.0 intent actor_id sink in
    let found : get_project_by_title text stored.1 target ≡ some p =
      title_kept text stored.1 resolved.1 target kept ∙ there in
    let has =
      subst (λ id. HasTask env text stored.1 id intent.task_title) (sym same)
        (HasTask-capture_new env text resolved.1 resolved.0 intent actor_id sink) in
    let again =
      capture_duplicate env text stored.1 intent later_actor_id later_sink p found
        (find_duplicate-HasTask env text stored.1 p.id intent.task_title has) in
    subst
      (λ (x : CaptureResult × Database).
        let r = capture env text x.1 intent later_actor_id later_sink in
        (r.0.is_duplicate ≡ true) × (r.1 ≡ x.1))
      (sym first) again
