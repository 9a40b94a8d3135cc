-- ===== src/Database/Plans.antt =====
-- The versions of the plans: methods of `SqlAlchemyRepo` (src/planner/infra/db/repo.py).
use planner_dev.Prelude.{
  ℕ, ◌+◌, String, Bool, not, ◌&&◌, Option, none, some, List, [], ◌∷◌, map, keep, leb, if◌then◌else◌,
  ◌==◌, nat_eq, string_eq, option_eq, mem,
}
use planner_dev.Payload.Json.{Json}
use planner_dev.Database.{Database, Env}
use planner_dev.Database.Tables.{PlanVersionRow, ProjectRow}
use planner_dev.Database.Rows.{find_row, change_rows, any_row, order_by, add_row}
use planner_dev.Database.Records.{PlanVersionRecord}

abbrev pub plan_version_record : PlanVersionRow → PlanVersionRecord
plan_version_record pv = record {
  id = pv.id;
  project_id = pv.project_id;
  status = pv.status;
  payload = pv.payload;
}

abbrev pub found_version : Option PlanVersionRow → Option PlanVersionRecord
found_version none = none
found_version (some pv) = some (plan_version_record pv)

unfoldable pub get_plan_version : Database → ℕ → Option PlanVersionRecord
unfolding find_row
get_plan_version db pv_id = found_version (find_row (λ pv. pv.id == pv_id) db.plan_versions)

unfoldable pub set_plan_version_status : Database → ℕ → String → Database
unfolding change_rows
set_plan_version_status db pv_id status = record db {
  plan_versions =
      change_rows (λ pv. pv.id == pv_id) (λ pv. record pv { status = status }) db.plan_versions;
}

abbrev pub is_version_in : ℕ → String → PlanVersionRow → Bool
is_version_in pv_id status pv = (pv.id == pv_id) && (pv.status == status)

-- Whether exactly this transition happened, and the new state.
unfoldable pub transition_plan_status :
    Database → (pv_id : ℕ) → (from_status to_status : String) → Bool × Database
unfolding change_rows any_row
transition_plan_status db pv_id from_status to_status = (
  any_row (is_version_in pv_id from_status) db.plan_versions,
  record db {
    plan_versions =
        change_rows (is_version_in pv_id from_status) (λ pv. record pv { status = to_status })
          db.plan_versions;
  },
)

unfoldable pub save_plan_version :
    Env
    → Database
    → (project_id : ℕ) → (status : String) → Json
    → (actor_id : Option ℕ) → PlanVersionRecord × Database
save_plan_version env db project_id status payload actor_id =
    let row : PlanVersionRow = record {
      id = env.uuid4 db.draws;
      project_id = project_id;
      status = status;
      created_at = env.now db.draws;
      created_by = actor_id;
      payload = payload;
    } in
    (
      plan_version_record row,
      record db { plan_versions = add_row db.plan_versions row; draws = db.draws + 1 },
    )

-- The latest of the project's committed versions.
unfoldable pub get_committed_plan : Database → ℕ → Option PlanVersionRecord
unfolding find_row order_by
get_committed_plan db project_id = found_version (
    find_row (λ pv. (pv.project_id == project_id) && (pv.status == "committed"))
      (order_by (λ v w. leb w.created_at v.created_at) db.plan_versions))

abbrev pub is_committed : PlanVersionRow → Bool
is_committed pv = pv.status == "committed"

unfoldable pub list_committed_plans : Database → List Json
list_committed_plans db = map (λ pv. pv.payload) (keep is_committed db.plan_versions)

unfoldable pub list_committed_plans_with_project : Database → List (ℕ × Json)
list_committed_plans_with_project db =
    map (λ pv. (pv.project_id, pv.payload)) (keep is_committed db.plan_versions)

-- The projects of the committed versions, a set.
unfoldable pub committed_projects : List PlanVersionRow → List ℕ
committed_projects [] = []
committed_projects (pv ∷ l) =
    let rest = committed_projects l in
    if is_committed pv then pv.project_id ∷ keep (λ p. not (p == pv.project_id)) rest else rest

-- The pages of the projects that are cancelled.
unfoldable pub pages_of : List ProjectRow → List ℕ → List String
unfolding find_row
pages_of projects [] = []
pages_of projects (pid ∷ l) =
    let rest = pages_of projects l in
    elim (find_row (λ p. p.id == pid) projects) [
      | none ↦ rest
      | some p ↦ elim p.notion_page_id [
        | none ↦ rest
        | some page ↦ if page == "" then rest else page ∷ rest
      ]
    ]

unfoldable pub reset_all_plans : Database → List String × Database
unfolding committed_projects pages_of change_rows
reset_all_plans db =
    let project_ids = committed_projects db.plan_versions in
    (
      pages_of db.projects project_ids,
      record db {
        plan_versions =
            change_rows is_committed (λ pv. record pv { status = "superseded" }) db.plan_versions;
        projects =
            change_rows (λ p. mem p.id project_ids) (λ p. record p { status = "cancelled" })
              db.projects;
      },
    )
