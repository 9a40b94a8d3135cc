-- ===== src/UseCases/Pages.antt =====
-- Storing a project's page changes no identifier and no task (src/planner/app/add_project.py).
use planner_dev.Prelude.{
  ℕ, ◌==◌, nat_eq, string_eq, ◌≡◌, refl, String, Option, none, some, Bool-cases, inl, inr,
}
use planner_dev.Database.{Database}
use planner_dev.Database.Tables.{ProjectRow}
use planner_dev.Database.Projects.{set_project_notion_page}
use planner_dev.AddProject.{store_page}
use planner_dev.UseCases.Owners.{project_ids, ids-change_rows}

pub store_page-ids :
    (db : Database) (id : ℕ) (page : Option String)
    → project_ids (store_page db id page).projects ≡ project_ids db.projects
unfolding set_project_notion_page
store_page-ids db id none = refl
store_page-ids db id (some page) = elim (Bool-cases (page == "")) [
  | inl empty ↦ rw empty refl
  | inr filled ↦ rw filled (
      ids-change_rows (λ p. p.id == id)
        (λ (p : ProjectRow). record p { notion_page_id = some page }) db.projects (λ p. refl))
]

pub store_page-tasks :
    (db : Database) (id : ℕ) (page : Option String) → (store_page db id page).tasks ≡ db.tasks
unfolding set_project_notion_page
store_page-tasks db id none = refl
store_page-tasks db id (some page) = elim (Bool-cases (page == "")) [
  | inl empty ↦ rw empty refl
  | inr filled ↦ rw filled refl
]
