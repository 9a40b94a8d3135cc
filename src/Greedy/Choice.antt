-- ===== src/Greedy/Choice.antt =====
-- The choice of people and days for one task in `GreedySolver.plan` of
-- src/planner/domain/solver/greedy.py.
use planner_dev.Prelude.{
  ℕ, zero, suc, Bool, true, ◌&&◌, ◌||◌, Option, none, some, List, [], ◌∷◌, leb, ltb, if◌then◌else◌,
  length, Result, ok, err, index_error, assertion_error, ◌>>=◌, ◌==◌, nat_eq, string_eq,
}
use planner_dev.Prelude.Dict.{Dict, get, put}
use planner_dev.Calendar.{WorkingCalendar}
use planner_dev.Models.{Person, Task}
use planner_dev.Capacity.{CapacityIndex}
use planner_dev.Allocate.{Placement, allocate, allocate_window, allocate_pair}

-- `(start, end) < (best[1], best[2])`
unfoldable pub is_better : Placement → Option (Placement × Person) → Bool
is_better p none = true
is_better p (some (b, person)) =
    ltb p.start b.start || ((p.start == b.start) && ltb p.finish b.finish)

-- `for cand in allowed`, with the best placement so far.
unfoldable pub pick_best :
    Task
    → ℕ
    → WorkingCalendar
    → ℕ
    → Option (Placement × Person)
    → CapacityIndex
    → List Person
    → Result (Option (Placement × Person) × CapacityIndex)
unfolding allocate is_better
pick_best task earliest calendar limit best idx [] = ok (best, idx)
pick_best task earliest calendar limit best idx (cand ∷ l) = do
  r ← allocate task cand earliest calendar idx limit
  pick_best task earliest calendar limit (if is_better r.0 best then some (r.0, cand) else best) r.1
      l

-- `{p.id: p for p in people}` and `{t.id: t for t in tasks}`
unfoldable pub index_people : Dict ℕ Person → List Person → Dict ℕ Person
index_people d [] = d
index_people d (p ∷ l) = index_people (put d p.id p) l

unfoldable pub index_tasks : Dict ℕ Task → List Task → Dict ℕ Task
index_tasks d [] = d
index_tasks d (t ∷ l) = index_tasks (put d t.id t) l

-- `[people_by_id[pid] for pid in ids if pid in people_by_id]`
unfoldable pub known_people : Dict ℕ Person → List ℕ → List Person
known_people by_id [] = []
known_people by_id (pid ∷ l) = elim (get by_id pid) [
  | none ↦ known_people by_id l
  | some p ↦ p ∷ known_people by_id l
]

-- `xs or ys`
abbrev pub or_list : {A : Type 0} → List A → List A → List A
or_list [] ys = ys
or_list (x ∷ xs) ys = x ∷ xs

unfoldable pub allowed_people : List Person → Task → List Person
unfolding index_people known_people
allowed_people people task =
    or_list (known_people (index_people [] people) task.allowed_person_ids) people

-- `allowed[i]`
unfoldable pub person_at : List Person → ℕ → Result Person
person_at [] i = err index_error
person_at (p ∷ l) zero = ok p
person_at (p ∷ l) (suc i) = person_at l i

-- The three ways to place a task: a window, a pair, or the best single person.
unfoldable pub place_window :
    Task
    → ℕ
    → WorkingCalendar
    → List Person
    → CapacityIndex
    → Result (Placement × Person × CapacityIndex)
unfolding allocate_window person_at
place_window task earliest calendar allowed idx = do
  p ← allocate_window task earliest calendar
  person ← person_at allowed 0
  ok (p, person, idx)

unfoldable pub place_pair :
    Task
    → ℕ
    → WorkingCalendar
    → ℕ
    → List Person
    → CapacityIndex
    → Result (Placement × Person × CapacityIndex)
unfolding allocate_pair person_at
place_pair task earliest calendar limit allowed idx = do
  p1 ← person_at allowed 0
  p2 ← person_at allowed 1
  let r = allocate_pair task p1 p2 earliest calendar idx limit
  ok (r.0, p1, r.1)

-- `assert best is not None`, then the best placement and its person.
unfoldable pub unpack_best :
    Option (Placement × Person) × CapacityIndex → Result (Placement × Person × CapacityIndex)
unpack_best (none, idx) = err assertion_error
unpack_best (some (p, person), idx) = ok (p, person, idx)

unfoldable pub place_best :
    Task
    → ℕ
    → WorkingCalendar
    → ℕ
    → List Person
    → CapacityIndex
    → Result (Placement × Person × CapacityIndex)
unfolding pick_best unpack_best
place_best task earliest calendar limit allowed idx = do
  found ← pick_best task earliest calendar limit none idx allowed
  unpack_best found

unfoldable pub place_task :
    Task
    → ℕ
    → WorkingCalendar
    → ℕ
    → List Person
    → CapacityIndex
    → Result (Placement × Person × CapacityIndex)
unfolding place_window place_pair place_best
place_task task earliest calendar limit allowed idx =
    if task.duration_is_window
    then place_window task earliest calendar allowed idx
    else if (task.pair_mode == "required") && leb 2 (length allowed)
    then place_pair task earliest calendar limit allowed idx
    else place_best task earliest calendar limit allowed idx
