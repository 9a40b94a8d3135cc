-- ===== src/Payload/Reading.antt =====
-- `deserialize_plan` and `deserialize_allocations` of src/planner/app/add_project.py.
use planner_dev.Prelude.{
  ℕ, String, Option, none, some, List, [], ◌∷◌, ◌++◌, if◌then◌else◌, ◌==◌, string_eq, Result, ok,
  err, or_raise, value_error, type_error, ◌>>=◌,
}
use planner_dev.Models.{Message, DayAllocation, Assignment, RiskFlag, PlanResult}
use planner_dev.Payload.Json.{
  Json, null, num, str, obj, Items, nil, cons, plain, message, Codec, find, item, list_of,
  optional_list,
}

module _ (c : Codec) where
  -- `UUID(v)` and `date.fromisoformat(v)`
  abbrev pub uuid_from : Json → Result ℕ
  uuid_from (str (plain s)) = or_raise value_error (c.uuid_of s)
  uuid_from _ = err type_error

  abbrev pub date_from : Json → Result ℕ
  date_from (str (plain s)) = or_raise value_error (c.date_of s)
  date_from _ = err type_error

  -- `parse(v) if v else None`, for `v` from `payload.get(key)`
  abbrev pub filled : (Json → Result ℕ) → String → Json → Result (Option ℕ)
  filled parse s v = if s == "" then ok none else parse v >>= λ n. ok (some n)

  abbrev pub opt_from : (Json → Result ℕ) → Option Json → Result (Option ℕ)
  opt_from parse none = ok none
  opt_from parse (some null) = ok none
  opt_from parse (some (str (plain s))) = filled parse s (str (plain s))
  opt_from parse (some _) = err type_error

  unfoldable pub optional : (Json → Result ℕ) → Json → String → Result (Option ℕ)
  unfolding find
  optional parse (obj fs) key = opt_from parse (find fs key)
  optional parse _ key = err type_error

  -- Hours are numbers; no other value of the payload is read as hours.
  abbrev pub hours_from : Json → Result ℕ
  hours_from (num n) = ok n
  hours_from _ = err type_error

  unfoldable pub allocation_from : Json → Result DayAllocation
  unfolding item
  allocation_from al = do
    person ← item al "person_id"
    person_id ← uuid_from person
    on ← item al "day"
    day ← date_from on
    amount ← item al "hours"
    hours ← hours_from amount
    ok (record { person_id = person_id; day = day; hours = hours })

  unfoldable pub allocations_from : Items → Result (List DayAllocation)
  allocations_from nil = ok []
  allocations_from (cons al l) = do
    first ← allocation_from al
    rest ← allocations_from l
    ok (first ∷ rest)

  unfoldable pub assignment_from : Json → Result Assignment
  unfolding item
  assignment_from a = do
    task ← item a "task_id"
    task_id ← uuid_from task
    person ← item a "person_id"
    person_id ← uuid_from person
    start ← item a "start_date"
    start_date ← date_from start
    finish ← item a "end_date"
    end_date ← date_from finish
    chunks ← item a "allocations"
    listed ← list_of chunks
    allocations ← allocations_from listed
    ok (record {
      task_id = task_id;
      person_id = person_id;
      start_date = start_date;
      end_date = end_date;
      allocations = allocations;
    })

  unfoldable pub assignments_from : Items → Result (List Assignment)
  assignments_from nil = ok []
  assignments_from (cons a l) = do
    first ← assignment_from a
    rest ← assignments_from l
    ok (first ∷ rest)

  abbrev pub kind_from : Json → Result String
  kind_from (str (plain s)) = ok s
  kind_from _ = err type_error

  abbrev pub message_from : Json → Result Message
  message_from (str (message m)) = ok m
  message_from _ = err type_error

  unfoldable pub risk_from : Json → Result RiskFlag
  unfolding item optional
  risk_from r = do
    k ← item r "kind"
    kind ← kind_from k
    m ← item r "message"
    text ← message_from m
    task_id ← optional uuid_from r "task_id"
    person_id ← optional uuid_from r "person_id"
    day ← optional date_from r "day"
    ok (record { kind = kind; message = text; task_id = task_id; person_id = person_id; day = day })

  unfoldable pub risks_from : Items → Result (List RiskFlag)
  risks_from nil = ok []
  risks_from (cons r l) = do first ← risk_from r; rest ← risks_from l; ok (first ∷ rest)

  unfoldable pub deserialize_plan : Json → Result PlanResult
  unfolding optional_list optional
  deserialize_plan payload = do
    listed ← optional_list payload "assignments"
    assignments ← assignments_from listed
    flagged ← optional_list payload "risks"
    risks ← risks_from flagged
    end_date ← optional date_from payload "end_date"
    ok (record { assignments = assignments; risks = risks; end_date = end_date })

  -- `for a in …: for al in a.get("allocations", [])`
  unfoldable pub flatten_from : Items → Result (List DayAllocation)
  flatten_from nil = ok []
  flatten_from (cons a l) = do
    listed ← optional_list a "allocations"
    first ← allocations_from listed
    rest ← flatten_from l
    ok (first ++ rest)

  unfoldable pub deserialize_allocations : Json → Result (List DayAllocation)
  unfolding optional_list
  deserialize_allocations payload = do
    listed ← optional_list payload "assignments"
    flatten_from listed
