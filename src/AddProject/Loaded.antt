-- ===== src/AddProject/Loaded.antt =====
-- A template that is loaded from the database (src/planner/infra/db/repo.py) and instantiated
-- (src/planner/app/add_project.py).
use planner_dev.Prelude.{
  ℕ, ◌≡◌, refl, sym, ap, ◌∙◌, subst, ◌||◌, Bool, true, some, is_some, String, List, [], ◌∷◌, ◌++◌,
  map, keep, ◌==◌, nat_eq, nat_beq_iff, string_eq, mem, All, All-imp, arith, Bool-cases,
  Option-cases, inl, inr, Result, ok, beq_refl, leb,
}
use planner_dev.Prelude.Dict.{Dict, get}
use planner_dev.Models.{Task, Dependency}
use planner_dev.Database.{Database, Env}
use planner_dev.Database.Tables.{TemplateTaskRow, TemplateDependencyRow}
use planner_dev.Database.Rows.{find_row, order_by}
use planner_dev.Database.Records.{TextOps}
use planner_dev.Database.Projects.{
  TemplateTaskSpec, ProjectTemplate, ords, links_of, spec_of, get_project_template,
}
use planner_dev.AddProject.Instantiate.{
  ord_to_id, tasks_of, task_of, deps_of, all_deps, instantiate_template, head_or, tail,
}
use planner_dev.AddProject.Templates.{get-ord_to_id}

-- The dependencies of a task are on order numbers that the list has.
abbrev IsClosed : List ℕ → TemplateTaskSpec → Type 0
IsClosed l spec = All (λ o. mem o l ≡ true) spec.depends_on_ords

abbrev Answers : {A : Type 0} → Result A → Type 0
Answers {A} r = (a : A) × (r ≡ ok a)

tasks_of-Answers :
    (project_id : ℕ) (ids : Dict ℕ ℕ) (l : List TemplateTaskSpec)
    → All (λ s. is_some (get ids s.ord) ≡ true) l
    → Answers (tasks_of project_id ids l)
unfolding tasks_of
tasks_of-Answers project_id ids [] h = ([], refl)
tasks_of-Answers project_id ids (spec ∷ l) h = elim (Option-cases (get ids spec.ord)) [
  | inl absent ↦ let h' = ap is_some (sym absent) ∙ h.0 in cc
  | inr (id, e) ↦
      let (rest, e') = tasks_of-Answers project_id ids l h.1 in
      (task_of project_id id spec ∷ rest, rw (e, e') refl)
]

deps_of-Answers :
    (ids : Dict ℕ ℕ) (id : ℕ) (l : List ℕ) (links : List String) (lags : List ℕ)
    → All (λ o. is_some (get ids o) ≡ true) l
    → Answers (deps_of ids id l links lags)
unfolding deps_of
deps_of-Answers ids id [] links lags h = ([], refl)
deps_of-Answers ids id (o ∷ l) links lags h = elim (Option-cases (get ids o)) [
  | inl absent ↦ let h' = ap is_some (sym absent) ∙ h.0 in cc
  | inr (dep, e) ↦
      let (rest, e') = deps_of-Answers ids id l (tail links) (tail lags) h.1 in
      let first : Dependency = record {
        task_id = id;
        depends_on_id = dep;
        link_type = head_or "FS" links;
        lag_working_days = head_or 0 lags;
      } in
      (first ∷ rest, rw (e, e') refl)
]

all_deps-Answers :
    (ids : Dict ℕ ℕ) (l : List TemplateTaskSpec)
    → All (λ s. is_some (get ids s.ord) ≡ true) l
    → All (λ s. All (λ o. is_some (get ids o) ≡ true) s.depends_on_ords) l
    → Answers (all_deps ids l)
unfolding all_deps
all_deps-Answers ids [] h k = ([], refl)
all_deps-Answers ids (spec ∷ l) h k = elim (Option-cases (get ids spec.ord)) [
  | inl absent ↦ let h' = ap is_some (sym absent) ∙ h.0 in cc
  | inr (id, e) ↦
      let (first, e1) =
        deps_of-Answers ids id spec.depends_on_ords spec.link_types spec.dep_lags k.0 in
      let (rest, e2) = all_deps-Answers ids l h.1 k.1 in (first ++ rest, rw (e, e1, e2) refl)
]

or_right : (b m : Bool) → m ≡ true → (b || m) ≡ true
or_right b m h = ground arith

or_left : (b m : Bool) → b ≡ true → (b || m) ≡ true
or_left b m h = ground arith

-- A value that a key has among the order numbers is one of them.
mem-get-ords :
    (l : List TemplateTaskRow) (k o : ℕ)
    → get (ords l) k ≡ some o
    → mem o (map (λ r. r.ord) l) ≡ true
unfolding get
mem-get-ords [] k o h = cc
mem-get-ords (row ∷ l) k o h = elim (Bool-cases (row.id == k)) [
  | inl here ↦
      let found : row.ord ≡ o = same_value (rw here at h) in
      rw ((nat_beq_iff o row.ord).1 (sym found)) refl
  | inr later ↦
      or_right (o == row.ord) (mem o (map (λ r. r.ord) l)) (mem-get-ords l k o (rw later at h))
]
  where
    same_value : {a b : ℕ} → some a ≡ some b → a ≡ b
    same_value h = cc

links_of-IsClosed :
    (l : List TemplateTaskRow) (id : ℕ) (deps : List TemplateDependencyRow)
    → All
        (λ o. mem o (map (λ r. r.ord) l) ≡ true)
        (map (λ d. d.dep_ord) (links_of (ords l) id deps))
unfolding links_of
links_of-IsClosed l id [] = tt
links_of-IsClosed l id (d ∷ deps) = elim (Bool-cases (d.template_task_id == id)) [
  | inl own ↦ elim (Option-cases (get (ords l) d.depends_on_id)) [
    | inl elsewhere ↦ rw (own, elsewhere) (links_of-IsClosed l id deps)
    | inr (o, e) ↦ rw (own, e) (mem-get-ords l d.depends_on_id o e, links_of-IsClosed l id deps)
  ]
  | inr other ↦ rw other (links_of-IsClosed l id deps)
]

abbrev loaded : TextOps → Database → String → List TemplateTaskRow → ProjectTemplate
loaded text db code rows = record { code = code; tasks = map (spec_of text db (ords rows)) rows }

spec_of-ord :
    (text : TextOps) (db : Database) (ids : Dict ℕ ℕ) (l : List TemplateTaskRow)
    → map (λ s. s.ord) (map (spec_of text db ids) l) ≡ map (λ r. r.ord) l
unfolding spec_of
spec_of-ord text db ids [] = refl
spec_of-ord text db ids (row ∷ l) = ap (λ t. row.ord ∷ t) (spec_of-ord text db ids l)

specs-IsClosed :
    (text : TextOps) (db : Database) (rows l : List TemplateTaskRow)
    → All (IsClosed (map (λ r. r.ord) rows)) (map (spec_of text db (ords rows)) l)
unfolding spec_of
specs-IsClosed text db rows [] = tt
specs-IsClosed text db rows (row ∷ l) =
    (links_of-IsClosed rows row.id db.template_dependencies, specs-IsClosed text db rows l)

-- Each of a list has an order number that the list has.
ords-known :
    (P : ℕ → Type 0) (l : List TemplateTaskSpec)
    → ((o : ℕ) → mem o (map (λ s. s.ord) l) ≡ true → P o)
    → All (λ s. P s.ord) l
ords-known P [] h = tt
ords-known P (s ∷ l) h =
    let at = mem s.ord (map (λ r. r.ord) l) in
    (
      h s.ord (or_left (s.ord == s.ord) at (beq_refl s.ord)),
      ords-known P l (λ o m. h o (or_right (o == s.ord) (mem o (map (λ r. r.ord) l)) m)),
    )

instantiate_loaded :
    (text : TextOps) (db : Database) (code : String) (rows : List TemplateTaskRow) (env : Env)
    (draw project_id : ℕ)
    → Answers (instantiate_template env draw (loaded text db code rows) project_id)
unfolding instantiate_template get
instantiate_loaded text db code rows env draw project_id =
    let specs = map (spec_of text db (ords rows)) rows in
    let ids = ord_to_id env [] draw specs in
    let known : (o : ℕ) → mem o (map (λ s. s.ord) specs) ≡ true → is_some (get ids o) ≡ true =
      λ o m. get-ord_to_id env [] draw specs o ∙ m in
    let own = ords-known (λ o. is_some (get ids o) ≡ true) specs known in
    let closed =
      All-imp (IsClosed (map (λ r. r.ord) rows))
        (λ s. All (λ o. is_some (get ids o) ≡ true) s.depends_on_ords)
        (λ s k.
          All-imp (λ o. mem o (map (λ r. r.ord) rows) ≡ true) (λ o. is_some (get ids o) ≡ true)
            (λ o m. known o (ap (mem o) (spec_of-ord text db (ords rows) rows) ∙ m))
            s.depends_on_ords k)
        specs (specs-IsClosed text db rows rows) in
    let (tasks, e1) = tasks_of-Answers project_id ids specs own in
    let (deps, e2) = all_deps-Answers ids specs own closed in ((tasks, deps), rw (e1, e2) refl)

same_template : {a b : ProjectTemplate} → some a ≡ some b → a ≡ b
same_template h = cc

-- Every template that the repository loads can be instantiated: no order number is missing.
pub instantiate_template-get_project_template :
    (text : TextOps) (db : Database) (code : String) (template : ProjectTemplate)
    → get_project_template text db code ≡ some template
    → (env : Env) (draw project_id : ℕ)
    → (made : List Task × List Dependency) × (instantiate_template env draw template project_id
        ≡ ok made)
unfolding get_project_template
instantiate_template-get_project_template text db code template h env draw project_id =
    elim (Option-cases (find_row (λ t. t.code == code) db.templates)) [
      | inl unknown ↦ let h' = rw (unknown, get_project_template) at h in cc
      | inr (row, found) ↦
          let rows =
            order_by (λ (a b : TemplateTaskRow). leb a.ord b.ord)
              (keep (λ (r : TemplateTaskRow). r.template_id == row.id) db.template_tasks) in
          let same : loaded text db code rows ≡ template =
            same_template (rw (found, get_project_template) at h) in
          subst (λ t. Answers (instantiate_template env draw t project_id)) same
            (instantiate_loaded text db code rows env draw project_id)
    ]
