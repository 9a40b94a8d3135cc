-- ===== src/Database/Moves.antt =====
-- Moving a task inside the snapshots of committed plans: `reassign_in_plan` and
-- `update_schedule_in_plan` of src/planner/infra/db/repo.py.
use planner_dev.Prelude.{
  ℕ, String, Bool, true, false, Option, none, some, List, [], ◌∷◌, if◌then◌else◌, ◌==◌, nat_eq,
  string_eq, Result, ok, err, type_error, ◌>>=◌,
}
use planner_dev.Payload.Json.{
  Json, str, arr, obj, Items, nil, cons, Fields, end, field, plain, Codec, find, optional_list,
}
use planner_dev.Payload.Writing.{uuid_json, date_json}
use planner_dev.Database.{Database}
use planner_dev.Database.Tables.{PlanVersionRow}
use planner_dev.Database.Plans.{is_committed}

-- `payload[key] = value`
unfoldable pub put_field : Fields → String → Json → Fields
put_field end key v = field key v end
put_field (field k w fs) key v = if k == key then field k v fs else field k w (put_field fs key v)

abbrev pub set_item : Json → String → Json → Result Json
set_item (obj fs) key v = ok (obj (put_field fs key v))
set_item _ key v = err type_error

-- `al` of a list comprehension, as `{**dict(al), key: value}`.
unfoldable pub set_items : Items → String → Json → Result Items
unfolding put_field
set_items nil key v = ok nil
set_items (cons al l) key v = do
  first ← set_item al key v
  rest ← set_items l key v
  ok (cons first rest)

-- `a.get("task_id") == task_key`
abbrev pub is_text : Option Json → String → Bool
is_text (some (str (plain s))) key = s == key
is_text _ key = false

abbrev pub names_task : Json → String → Result Bool
names_task (obj fs) key = ok (is_text (find fs "task_id") key)
names_task _ key = err type_error

module _ (c : Codec) where
  -- The body of the loop for an assignment of the task.
  unfoldable pub reassigned : Json → ℕ → Result Json
  unfolding set_items put_field optional_list
  reassigned a new_person_id = do
    a' ← set_item a "person_id" (uuid_json c new_person_id)
    listed ← optional_list a' "allocations"
    moved ← set_items listed "person_id" (uuid_json c new_person_id)
    set_item a' "allocations" (arr moved)

  -- Sets a date that is given.
  abbrev pub set_date : Json → String → Option ℕ → Result Json
  set_date a key none = ok a
  set_date a key (some d) = set_item a key (date_json c d)

  unfoldable pub rescheduled : Json → (start finish : Option ℕ) → Result Json
  unfolding put_field
  rescheduled a start finish = do a' ← set_date a "start_date" start; set_date a' "end_date" finish

  -- Changes the assignments of a task; whether there is one.
  unfoldable pub change_assignments :
      (Json → Result Json) → (task_key : String) → Items → Result (Bool × Items)
  unfolding find
  change_assignments change task_key nil = ok (false, nil)
  change_assignments change task_key (cons a l) = do
    named ← names_task a task_key
    rest ← change_assignments change task_key l
    a' ← (if named then change a else ok a)
    ok ((if named then true else rest.0), cons a' rest.1)

  -- A payload with the task moved, if it has the task.
  unfoldable pub move_payload : (Json → Result Json) → (task_id : ℕ) → Json → Result (Option Json)
  unfolding change_assignments optional_list put_field
  move_payload change task_id payload = do
    listed ← optional_list payload "assignments"
    r ← change_assignments change (c.uuid_text task_id) listed
    payload' ← set_item payload "assignments" (arr r.1)
    ok (if r.0 then some payload' else none)

  abbrev pub skip_version :
      PlanVersionRow → Result (Bool × List PlanVersionRow) → Result (Bool × List PlanVersionRow)
  skip_version pv r = r >>= λ rest. ok (rest.0, pv ∷ rest.1)

  abbrev pub or_later :
      PlanVersionRow
      → List PlanVersionRow
      → Result (Bool × List PlanVersionRow)
      → Option Json
      → Result (Bool × List PlanVersionRow)
  or_later pv l later none = later
  or_later pv l later (some payload) = ok (true, record pv { payload = payload } ∷ l)

  -- The loop over the plans: the first committed one with the task is changed.
  unfoldable pub move_in_plans :
      (Json → Result Json)
      → (task_id : ℕ) → List PlanVersionRow
      → Result (Bool × List PlanVersionRow)
  unfolding move_payload
  move_in_plans change task_id [] = ok (false, [])
  move_in_plans change task_id (pv ∷ l) =
      let later = skip_version pv (move_in_plans change task_id l) in
      if is_committed pv
      then move_payload change task_id pv.payload >>= or_later pv l later
      else later

  unfoldable pub reassign_in_plan :
      Database → (task_id new_person_id : ℕ) → Result (Bool × Database)
  unfolding move_in_plans reassigned
  reassign_in_plan db task_id new_person_id = do
    r ← move_in_plans (λ a. reassigned a new_person_id) task_id db.plan_versions
    ok (r.0, record db { plan_versions = r.1 })

  unfoldable pub update_schedule_in_plan :
      Database → (task_id : ℕ) → (start finish : Option ℕ) → Result (Bool × Database)
  unfolding move_in_plans rescheduled
  update_schedule_in_plan db task_id start finish = do
    r ← move_in_plans (λ a. rescheduled a start finish) task_id db.plan_versions
    ok (r.0, record db { plan_versions = r.1 })
