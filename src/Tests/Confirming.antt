-- ===== src/Tests/Confirming.antt =====
-- A proposal confirmed and refused, and a task captured twice.
use planner_dev.Prelude.{◌≤◌, ◌≡◌, refl, ◌==◌, nat_eq, true, false, none, some, [], ◌∷◌}
use planner_dev.Database.Rows.{find_row, any_row}
use planner_dev.Database.Plans.{get_plan_version, plan_version_record}
use planner_dev.Database.Work.{list_project_tasks}
use planner_dev.Database.Projects.{get_project_by_title}
use planner_dev.Intents.{CaptureTaskIntent}
use planner_dev.Confirm.{confirm, refused, plan_not_found}
use planner_dev.Confirm.Once.{confirmations, confirmations-le, confirm_refused}
use planner_dev.Confirm.Committed.{IsCommitted, confirm-IsCommitted}
use planner_dev.Capture.{find_duplicate, capture}
use planner_dev.Capture.Duplicates.{capture_again}
use planner_dev.Tests.Snapshots.{tally}
use planner_dev.Tests.Stores.{env, text, store, proposal, mirror}

confirmations-le_example :
    confirmations env tally text 50 store
      ((50, some 1, some mirror) ∷ (51, none, none) ∷ (50, some 2, none) ∷ [])
    ≤ 1
unfolding any_row
confirmations-le_example =
    confirmations-le env tally text 50 store
      ((50, some 1, some mirror) ∷ (51, none, none) ∷ (50, some 2, none) ∷ [])

confirm_refused_example : (confirm env tally text store 51 (some 1) none).1 ≡ store
confirm_refused_example =
    confirm_refused env tally text store 51 (some 1) none plan_not_found missing_version
  where
    missing_version : (confirm env tally text store 51 (some 1) none).0 ≡ refused plan_not_found
    missing_version = unfold confirm get_plan_version find_row in refl

confirm-IsCommitted_example :
    IsCommitted store
      (plan_version_record proposal)
      (some 1)
      (confirm env tally text store 50 (some 1) (some mirror))
confirm-IsCommitted_example =
    confirm-IsCommitted env tally text store proposal (some 1) (some mirror) found refl
  where
    found : find_row (λ v. v.id == proposal.id) store.plan_versions ≡ some proposal
    found = unfold find_row in refl

abbrev pub call_client : CaptureTaskIntent
call_client = record {
  task_title = "call";
  assignee_names = [];
  project_name = some "campaign";
  deadline = some 3;
  time_start = none;
  est_hours = none;
  required_skills = [];
}

capture_again_example :
    let db' = (capture env text store call_client (some 1) (some mirror)).1 in
    let r = capture env text db' call_client (some 2) none in
    (r.0.is_duplicate ≡ true) × (r.1 ≡ db')
capture_again_example =
    capture_again env text store call_client (some 1) (some 2) (some mirror) none refl stored
  where
    stored : (capture env text store call_client (some 1) (some mirror)).0.is_duplicate ≡ false
    stored = unfold capture find_duplicate list_project_tasks get_project_by_title in refl
