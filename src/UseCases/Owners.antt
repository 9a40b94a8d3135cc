-- ===== src/UseCases/Owners.antt =====
-- The projects of the stored tasks, and what writes keep of them (src/planner/infra/db/repo.py).
use planner_dev.Prelude.{
  ℕ, ◌==◌, nat_eq, ◌≡◌, refl, sym, ap, ◌∙◌, Bool, true, ◌||◌, mem, some, List, [], ◌∷◌, ◌++◌, map,
  map-append, All, All-imp, Bool-cases, inl, inr, beq_refl, arith,
}
use planner_dev.Models.{Task, Assignment}
use planner_dev.Prelude.Dict.{Dict}
use planner_dev.Database.{Database}
use planner_dev.Database.Tables.{ProjectRow, TaskRow}
use planner_dev.Database.Rows.{find_row, change_rows, add_row}
use planner_dev.Database.Saving.{task_rows}

abbrev pub project_ids : List ProjectRow → List ℕ
project_ids l = map (λ p. p.id) l

abbrev pub IsOwned : List ProjectRow → TaskRow → Type 0
IsOwned projects t = mem t.project_id (project_ids projects) ≡ true

-- Every task's project is stored.
abbrev pub HasOwners : Database → Type 0
HasOwners db = All (IsOwned db.projects) db.tasks

same_value : {a b : ProjectRow} → some a ≡ some b → a ≡ b
same_value h = cc

pub or_left : (b m : Bool) → b ≡ true → (b || m) ≡ true
or_left b m h = ground arith

pub or_right : (b m : Bool) → m ≡ true → (b || m) ≡ true
or_right b m h = ground arith

-- A change of rows that keeps the identifiers.
pub ids-change_rows :
    (p : ProjectRow → Bool) (f : ProjectRow → ProjectRow) (l : List ProjectRow)
    → ((x : ProjectRow) → (f x).id ≡ x.id)
    → project_ids (change_rows p f l) ≡ project_ids l
unfolding change_rows
ids-change_rows p f [] keeps = refl
ids-change_rows p f (x ∷ l) keeps = elim (Bool-cases (p x)) [
  | inl yes_now ↦ rw (yes_now, keeps x, ids-change_rows p f l keeps) refl
  | inr no_more ↦ rw (no_more, ids-change_rows p f l keeps) refl
]

pub mem-append : (x : ℕ) (l k : List ℕ) → mem x (l ++ k) ≡ (mem x l || mem x k)
mem-append x [] k = refl
mem-append x (y ∷ l) k = ground (arith, mem-append x l k)

-- The tasks stay owned where no project disappears.
pub IsOwned-among :
    (projects projects' : List ProjectRow) (l : List TaskRow)
    → ((id : ℕ) → mem id (project_ids projects) ≡ true → mem id (project_ids projects') ≡ true)
    → All (IsOwned projects) l
    → All (IsOwned projects') l
IsOwned-among projects projects' l keeps h =
    All-imp (IsOwned projects) (IsOwned projects') (λ t k. keeps t.project_id k) l h

pub same_ids :
    (projects projects' : List ProjectRow) (l : List TaskRow)
    → project_ids projects' ≡ project_ids projects
    → All (IsOwned projects) l
    → All (IsOwned projects') l
same_ids projects projects' l same h =
    IsOwned-among projects projects' l (λ id k. ap (mem id) same ∙ k) h

pub mem-ids-find_row :
    (p : ProjectRow → Bool) (l : List ProjectRow) (x : ProjectRow)
    → find_row p l ≡ some x
    → mem x.id (project_ids l) ≡ true
unfolding find_row
mem-ids-find_row p [] x h = cc
mem-ids-find_row p (y ∷ l) x h = elim (Bool-cases (p y)) [
  | inl first ↦
      let same : y ≡ x = same_value (rw first at h) in
      let here : x.id ≡ y.id = ap (λ (r : ProjectRow). r.id) (sym same) in
      rw (here, beq_refl y.id) refl
  | inr later ↦
      or_right (x.id == y.id) (mem x.id (project_ids l)) (mem-ids-find_row p l x (rw later at h))
]

pub All-change_rows :
    {A : Type 0} (P : A → Type 0) (p : A → Bool) (f : A → A) (l : List A)
    → ((x : A) → P x → P (f x))
    → All P l
    → All P (change_rows p f l)
unfolding change_rows
All-change_rows P p f [] keeps h = tt
All-change_rows P p f (x ∷ l) keeps h = elim (Bool-cases (p x)) [
  | inl yes_now ↦ rw yes_now (keeps x h.0, All-change_rows P p f l keeps h.1)
  | inr no_more ↦ rw no_more (h.0, All-change_rows P p f l keeps h.1)
]

pub task_rows-IsOwned :
    (projects : List ProjectRow) (project_id : ℕ) (by_task : Dict ℕ Assignment) (l : List Task)
    → mem project_id (project_ids projects) ≡ true
    → All (IsOwned projects) (task_rows project_id by_task l)
unfolding task_rows
task_rows-IsOwned projects project_id by_task [] h = tt
task_rows-IsOwned projects project_id by_task (t ∷ l) h =
    (h, task_rows-IsOwned projects project_id by_task l h)

-- One more project, which has the identifier.
pub mem-ids-add_row :
    (l : List ProjectRow) (row : ProjectRow) → mem row.id (project_ids (add_row l row)) ≡ true
mem-ids-add_row l row =
    ap (mem row.id) (map-append (λ (p : ProjectRow). p.id) l (row ∷ []))
    ∙ (mem-append row.id (project_ids l) (row.id ∷ [])
        ∙ or_right (mem row.id (project_ids l)) (mem row.id (row.id ∷ []))
            (rw (beq_refl row.id) refl))

pub ids_kept :
    (l : List ProjectRow) (row : ProjectRow) (id : ℕ)
    → mem id (project_ids l) ≡ true
    → mem id (project_ids (add_row l row)) ≡ true
ids_kept l row id h =
    ap (mem id) (map-append (λ (p : ProjectRow). p.id) l (row ∷ []))
    ∙ (mem-append id (project_ids l) (row.id ∷ [])
        ∙ or_left (mem id (project_ids l)) (mem id (row.id ∷ [])) h)
