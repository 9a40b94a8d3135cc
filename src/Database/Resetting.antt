-- ===== src/Database/Resetting.antt =====
-- What `reset_all_plans` of src/planner/infra/db/repo.py leaves.
use planner_dev.Prelude.{
  ℕ, ◌≡◌, refl, ap, ◌∙◌, not, ◌&&◌, some, List, [], ◌∷◌, map, keep, ◌==◌, nat_eq, nat_beq_iff,
  string_eq, arith, Bool-cases, inl, inr, mem, ok, if◌then◌else◌,
}
use planner_dev.Payload.Json.{Codec}
use planner_dev.Database.{Database}
use planner_dev.Database.Tables.{PlanVersionRow, ProjectRow}
use planner_dev.Database.Rows.{find_row, change_rows, any_row}
use planner_dev.Database.RowLaws.{find_row-change_rows}
use planner_dev.Database.Plans.{
  is_committed, committed_projects, reset_all_plans, list_committed_plans,
}
use planner_dev.Capability.{committed_load, load_of}

none_committed :
    (l : List PlanVersionRow)
    → keep is_committed (change_rows is_committed (λ pv. record pv { status = "superseded" }) l)
      ≡ []
unfolding change_rows
none_committed [] = refl
none_committed (pv ∷ l) = elim (Bool-cases (is_committed pv)) [
  | inl yes_now ↦ rw yes_now (none_committed l)
  | inr no_more ↦ rw (no_more, no_more) (none_committed l)
]

mem-keep_ne :
    (x y : ℕ) (l : List ℕ) → mem x (keep (λ p. not (p == y)) l) ≡ (mem x l && not (x == y))
mem-keep_ne x y [] = refl
mem-keep_ne x y (z ∷ l) =
    ground (arith, mem-keep_ne x y l, nat_beq_iff z y, nat_beq_iff x z, nat_beq_iff x y)

-- A project is among them exactly if it has a committed version.
mem-committed_projects :
    (x : ℕ) (l : List PlanVersionRow)
    → mem x (committed_projects l) ≡ any_row (λ pv. is_committed pv && (pv.project_id == x)) l
unfolding committed_projects any_row
mem-committed_projects x [] = refl
mem-committed_projects x (pv ∷ l) = elim (Bool-cases (is_committed pv)) [
  | inl yes_now ↦
      rw (yes_now, mem-keep_ne x pv.project_id (committed_projects l))
        (ground (
          arith,
          mem-committed_projects x l,
          nat_beq_iff x pv.project_id,
          nat_beq_iff pv.project_id x,
        ))
  | inr no_more ↦ rw no_more (mem-committed_projects x l)
]

-- After a reset nobody has any committed load.
pub committed_load-reset_all_plans :
    (c : Codec) (db : Database) → committed_load c (reset_all_plans db).1 ≡ ok []
unfolding committed_load reset_all_plans list_committed_plans
committed_load-reset_all_plans c db =
    ap (λ l. load_of c [] (map (λ (pv : PlanVersionRow). pv.payload) l))
      (none_committed db.plan_versions)
    ∙ nothing
  where
    nothing : load_of c [] [] ≡ ok []
    nothing = unfold load_of in refl

-- A reset cancels exactly the projects that have a committed version.
pub find_row-reset_all_plans :
    (db : Database) (project : ProjectRow)
    → find_row (λ p. p.id == project.id) db.projects ≡ some project
    → find_row (λ p. p.id == project.id) (reset_all_plans db).1.projects
      ≡ some (
          if any_row (λ pv. is_committed pv && (pv.project_id == project.id)) db.plan_versions
          then record project { status = "cancelled" }
          else project)
unfolding reset_all_plans
find_row-reset_all_plans db project found =
    rw (← mem-committed_projects project.id db.plan_versions) (
      find_row-change_rows (λ p. p.id == project.id)
        (λ p. mem p.id (committed_projects db.plan_versions))
        (λ (p : ProjectRow). record p { status = "cancelled" }) db.projects (λ p. refl) project
        found)
