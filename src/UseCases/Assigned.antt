-- ===== src/UseCases/Assigned.antt =====
-- The tasks of the stored assignments, and what writes keep of them (src/planner/infra/db/repo.py).
use planner_dev.Prelude.{
  ℕ, ◌==◌, nat_eq, string_eq, ◌≡◌, refl, ap, ◌∙◌, Bool, true, ◌||◌, mem, String, Option, none, some,
  List, [], ◌∷◌, ◌++◌, map, map-append, All, All-append, All-imp, Bool-cases, Option-cases, inl,
  inr, beq_refl,
}
use planner_dev.Prelude.Dict.{Dict, get}
use planner_dev.Models.{Task, Assignment}
use planner_dev.Database.{Database}
use planner_dev.Database.Tables.{TaskRow, AssignmentRow}
use planner_dev.Database.Rows.{find_row, change_rows}
use planner_dev.Database.Saving.{
  task_rows, hours_by_person, or_single, assignment_rows, all_assignment_rows,
}
use planner_dev.Database.Work.{is_assignment, assign_task}
use planner_dev.UseCases.Owners.{or_left, or_right, mem-append, All-change_rows}

abbrev pub task_ids : List TaskRow → List ℕ
task_ids l = map (λ t. t.id) l

-- Every assignment's task is stored.
abbrev pub HasTasks : List TaskRow → List AssignmentRow → Type 0
HasTasks tasks l = All (λ a. mem a.task_id (task_ids tasks) ≡ true) l

-- More tasks behind the others.
pub mem-more_tasks :
    (l k : List TaskRow) (id : ℕ)
    → mem id (task_ids (l ++ k)) ≡ (mem id (task_ids l) || mem id (task_ids k))
mem-more_tasks l k id =
    ap (mem id) (map-append (λ (t : TaskRow). t.id) l k) ∙ mem-append id (task_ids l) (task_ids k)

pub HasTasks-append :
    (l k : List TaskRow) (rows : List AssignmentRow) → HasTasks l rows → HasTasks (l ++ k) rows
HasTasks-append l k rows h =
    All-imp (λ a. mem a.task_id (task_ids l) ≡ true) (λ a. mem a.task_id (task_ids (l ++ k)) ≡ true)
      (λ a m.
        mem-more_tasks l k a.task_id
        ∙ or_left (mem a.task_id (task_ids l)) (mem a.task_id (task_ids k)) m)
      rows h

pub ids-change_status :
    (p : TaskRow → Bool) (status : String) (l : List TaskRow)
    → task_ids (change_rows p (λ (t : TaskRow). record t { status = status }) l) ≡ task_ids l
unfolding change_rows
ids-change_status p status [] = refl
ids-change_status p status (t ∷ l) = elim (Bool-cases (p t)) [
  | inl yes_now ↦ rw (yes_now, ids-change_status p status l) refl
  | inr no_more ↦ rw (no_more, ids-change_status p status l) refl
]

-- The rows of one task are its own.
assignment_rows-task_id :
    (ids : List ℕ) (t : Task) (o : Option Assignment)
    → mem t.id ids ≡ true
    → All (λ a. mem a.task_id ids ≡ true) (assignment_rows t o)
unfolding assignment_rows
assignment_rows-task_id ids t none h = tt
assignment_rows-task_id ids t (some a) h =
    each (or_single (hours_by_person [] a.allocations) a.person_id t.duration_hours)
  where
    each :
        (l : Dict ℕ ℕ)
        → All
            (λ (r : AssignmentRow). mem r.task_id ids ≡ true)
            (map (λ ph. record { task_id = t.id; person_id = ph.0; hours = ph.1 }) l)
    each [] = tt
    each (x ∷ l) = (h, each l)

all_assignment_rows-task_id :
    (ids : List ℕ) (by_task : Dict ℕ Assignment) (l : List Task)
    → All (λ t. mem t.id ids ≡ true) l
    → All (λ a. mem a.task_id ids ≡ true) (all_assignment_rows by_task l)
unfolding all_assignment_rows
all_assignment_rows-task_id ids by_task [] h = tt
all_assignment_rows-task_id ids by_task (t ∷ l) h =
    All-append (λ a. mem a.task_id ids ≡ true) (assignment_rows t (get by_task t.id))
      (all_assignment_rows by_task l) (assignment_rows-task_id ids t (get by_task t.id) h.0)
      (all_assignment_rows-task_id ids by_task l h.1)

task_rows-ids :
    (project_id : ℕ) (by_task : Dict ℕ Assignment) (ids : List ℕ) (l : List Task)
    → ((id : ℕ) → mem id (task_ids (task_rows project_id by_task l)) ≡ true → mem id ids ≡ true)
    → All (λ t. mem t.id ids ≡ true) l
unfolding task_rows
task_rows-ids project_id by_task ids [] h = tt
task_rows-ids project_id by_task ids (t ∷ l) h =
    let rest = task_ids (task_rows project_id by_task l) in
    (
      h t.id (or_left (t.id == t.id) (mem t.id rest) (beq_refl t.id)),
      task_rows-ids project_id by_task ids l (λ id m. h id (or_right (id == t.id) (mem id rest) m)),
    )

-- The tasks and assignments that a project is stored with.
pub HasTasks-saved :
    (tasks : List TaskRow) (rows : List AssignmentRow) (project_id : ℕ)
    (by_task : Dict ℕ Assignment) (l : List Task)
    → HasTasks tasks rows
    → HasTasks (tasks ++ task_rows project_id by_task l) (rows ++ all_assignment_rows by_task l)
HasTasks-saved tasks rows project_id by_task l h =
    let new = task_rows project_id by_task l in
    All-append (λ a. mem a.task_id (task_ids (tasks ++ new)) ≡ true) rows
      (all_assignment_rows by_task l) (HasTasks-append tasks new rows h)
      (all_assignment_rows-task_id (task_ids (tasks ++ new)) by_task l (
        task_rows-ids project_id by_task (task_ids (tasks ++ new)) l (λ id m.
          mem-more_tasks tasks new id
          ∙ or_right (mem id (task_ids tasks)) (mem id (task_ids new)) m)))

pub assign_task-task_id :
    (ids : List ℕ) (db : Database) (t p h : ℕ)
    → mem t ids ≡ true
    → All (λ a. mem a.task_id ids ≡ true) db.assignments
    → All (λ a. mem a.task_id ids ≡ true) (assign_task db t p h).assignments
unfolding assign_task
assign_task-task_id ids db t p h m all =
    elim (Option-cases (find_row (is_assignment t p) db.assignments)) [
      | inl new ↦
          rw (new, assign_task)
            (All-append (λ a. mem a.task_id ids ≡ true) db.assignments
              (record { task_id = t; person_id = p; hours = h } ∷ []) all (m, tt))
      | inr (old, found) ↦
          rw (found, assign_task)
            (All-change_rows (λ a. mem a.task_id ids ≡ true) (is_assignment t p)
              (λ (a : AssignmentRow). record a { hours = h }) db.assignments (λ a k. k) all)
    ]
