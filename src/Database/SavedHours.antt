-- ===== src/Database/SavedHours.antt =====
-- The hours that `save_project_tasks` stores (src/planner/infra/db/repo.py).
use planner_dev.Prelude.{
  All, mem, nat_beq_iff, Bool, ◌||◌, ℕ, ◌+◌, ◌≡◌, refl, sym, ap, ◌∙◌, some, List, [], ◌∷◌, map,
  if◌then◌else◌, ◌==◌, nat_eq, arith, sum_of, IsNodup, Bool-cases, inl, inr, subst,
}
use planner_dev.Prelude.Dict.{Dict, keys, get, get_or, put}
use planner_dev.Keys.{mem-keys-put, put-IsNodup}
use planner_dev.Models.{Task, Assignment, DayAllocation}
use planner_dev.Database.Tables.{AssignmentRow}
use planner_dev.Database.Saving.{hours_by_person, or_single, assignment_rows}

-- The hours of one person, in a dictionary, in rows and in chunks.
abbrev entered : ℕ → Dict ℕ ℕ → ℕ
entered p d = sum_of (λ kv. if kv.0 == p then kv.1 else 0) d

abbrev pub stored_hours : ℕ → List AssignmentRow → ℕ
stored_hours p rows = sum_of (λ (r : AssignmentRow). if r.person_id == p then r.hours else 0) rows

abbrev pub planned_hours : ℕ → List DayAllocation → ℕ
planned_hours p l = sum_of (λ (al : DayAllocation). if al.person_id == p then al.hours else 0) l

entered-put :
    (d : Dict ℕ ℕ) (k v p : ℕ)
    → entered p (put d k v) + (if k == p then get_or d k 0 else 0)
      ≡ entered p d + (if k == p then v else 0)
unfolding put get
entered-put [] k v p = grind (arith, nat_beq_iff k p)
entered-put ((j, w) ∷ d) k v p =
    ground (arith, entered-put d k v p, nat_beq_iff j k, nat_beq_iff k p, nat_beq_iff j p)

entered-hours_by_person :
    (d : Dict ℕ ℕ) (l : List DayAllocation) (p : ℕ)
    → entered p (hours_by_person d l) ≡ entered p d + planned_hours p l
unfolding hours_by_person
entered-hours_by_person d [] p = omega arith
entered-hours_by_person d (al ∷ l) p =
    let now = get_or d al.person_id 0 + al.hours in
    ground (
      arith,
      entered-hours_by_person (put d al.person_id now) l p,
      entered-put d al.person_id now p,
    )

mem-keys-hours_by_person :
    (d : Dict ℕ ℕ) (l : List DayAllocation) (p : ℕ)
    → mem p (keys (hours_by_person d l))
      ≡ (mem p (keys d) || mem p (map (λ (al : DayAllocation). al.person_id) l))
unfolding hours_by_person
mem-keys-hours_by_person d [] p = ground arith
mem-keys-hours_by_person d (al ∷ l) p =
    let now = get_or d al.person_id 0 + al.hours in
    mem-keys-hours_by_person (put d al.person_id now) l p
    ∙ (ap (λ b. b || mem p (map (λ (x : DayAllocation). x.person_id) l))
          (mem-keys-put d p al.person_id now)
        ∙ or_turn (p == al.person_id) (mem p (keys d))
            (mem p (map (λ (x : DayAllocation). x.person_id) l)))
  where
    or_turn : (a b c : Bool) → ((a || b) || c) ≡ (b || (a || c))
    or_turn a b c = ground arith

hours_by_person-IsNodup :
    (d : Dict ℕ ℕ) (l : List DayAllocation)
    → IsNodup (keys d)
    → IsNodup (keys (hours_by_person d l))
unfolding hours_by_person
hours_by_person-IsNodup d [] h = h
hours_by_person-IsNodup d (al ∷ l) h =
    let now = get_or d al.person_id 0 + al.hours in
    hours_by_person-IsNodup (put d al.person_id now) l (put-IsNodup d al.person_id now h)

-- The rows of some hours by person, for a task.
abbrev rows_of : ℕ → Dict ℕ ℕ → List AssignmentRow
rows_of task_id d = map (λ ph. record { task_id = task_id; person_id = ph.0; hours = ph.1 }) d

stored_hours-rows :
    (task_id : ℕ) (d : Dict ℕ ℕ) (p : ℕ) → stored_hours p (rows_of task_id d) ≡ entered p d
stored_hours-rows task_id [] p = refl
stored_hours-rows task_id (x ∷ d) p =
    ap (λ n. (if x.0 == p then x.1 else 0) + n) (stored_hours-rows task_id d p)

rows-task_id :
    (task_id : ℕ) (d : Dict ℕ ℕ)
    → All (λ (r : AssignmentRow). r.task_id ≡ task_id) (rows_of task_id d)
rows-task_id task_id [] = tt
rows-task_id task_id (x ∷ d) = (refl, rows-task_id task_id d)

keys-rows :
    (task_id : ℕ) (d : Dict ℕ ℕ)
    → map (λ (r : AssignmentRow). r.person_id) (rows_of task_id d) ≡ keys d
keys-rows task_id [] = refl
keys-rows task_id (x ∷ d) = ap (λ l. x.0 ∷ l) (keys-rows task_id d)

-- A write leaves no empty dictionary, and hours are only added.
or_single-hours_by_person :
    (x : ℕ × ℕ) (d : Dict ℕ ℕ) (l : List DayAllocation) (p h : ℕ)
    → or_single (hours_by_person (x ∷ d) l) p h ≡ hours_by_person (x ∷ d) l
unfolding hours_by_person put
or_single-hours_by_person x d [] p h = refl
or_single-hours_by_person (j, w) d (al ∷ l) p h = elim (Bool-cases (j == al.person_id)) [
  | inl same ↦
      rw same (or_single-hours_by_person (j, get_or ((j, w) ∷ d) al.person_id 0 + al.hours) d l p h)
  | inr other ↦ rw other (
      or_single-hours_by_person (j, w)
        (put d al.person_id (get_or ((j, w) ∷ d) al.person_id 0 + al.hours)) l p h)
]

hours_of_chunks :
    (t : Task) (person_id : ℕ) (al : DayAllocation) (l : List DayAllocation)
    → or_single (hours_by_person [] (al ∷ l)) person_id t.duration_hours
      ≡ hours_by_person [] (al ∷ l)
unfolding hours_by_person put get
hours_of_chunks t person_id al l =
    or_single-hours_by_person (al.person_id, 0 + al.hours) [] l person_id t.duration_hours

-- The chunks of an assignment; one that has none stands for the task's duration, of its assignee.
abbrev pub chunks_or : Task → Assignment → List DayAllocation → List DayAllocation
chunks_or t a [] =
    record { person_id = a.person_id; day = a.start_date; hours = t.duration_hours } ∷ []
chunks_or t a (al ∷ l) = al ∷ l

abbrev pub chunks_of : Task → Assignment → List DayAllocation
chunks_of t a = chunks_or t a a.allocations

-- Rows of the task, one for each person of some chunks, each with that person's hours.
pub record IsStored (task_id : ℕ) (chunks : List DayAllocation) (rows : List AssignmentRow)
    : Type 0 where
  pub own : All (λ (r : AssignmentRow). r.task_id ≡ task_id) rows
  pub once : IsNodup (map (λ (r : AssignmentRow). r.person_id) rows)
  pub people :
      (p : ℕ)
      → mem p (map (λ (r : AssignmentRow). r.person_id) rows)
        ≡ mem p (map (λ (al : DayAllocation). al.person_id) chunks)
  pub hours : (p : ℕ) → stored_hours p rows ≡ planned_hours p chunks

rows-IsStored :
    (task_id : ℕ) (l : List DayAllocation)
    → IsStored task_id l (rows_of task_id (hours_by_person [] l))
rows-IsStored task_id l =
    let d = hours_by_person [] l in
    record {
      own = rows-task_id task_id d;
      once = subst IsNodup (sym (keys-rows task_id d)) (hours_by_person-IsNodup [] l tt);
      people = λ p. ap (mem p) (keys-rows task_id d) ∙ mem-keys-hours_by_person [] l p;
      hours = λ p. stored_hours-rows task_id d p ∙ entered-hours_by_person [] l p ∙ omega arith;
    }

-- A planned task is stored with one row for each person who has a chunk of it, with the hours of all
-- of that person's chunks; one without chunks with a row for its assignee, with its duration.
pub assignment_rows-IsStored :
    (t : Task) (a : Assignment) → IsStored t.id (chunks_of t a) (assignment_rows t (some a))
unfolding assignment_rows
assignment_rows-IsStored t a = from_chunks a.allocations
  where
    from_chunks :
        (l : List DayAllocation)
        → IsStored t.id
            (chunks_or t a l)
            (rows_of t.id (or_single (hours_by_person [] l) a.person_id t.duration_hours))
    from_chunks [] =
        unfold hours_by_person in
        record { own = (refl, tt); once = (refl, tt); people = λ p. refl; hours = λ p. refl }
    from_chunks (al ∷ l) = rw (hours_of_chunks t a.person_id al l) (rows-IsStored t.id (al ∷ l))
