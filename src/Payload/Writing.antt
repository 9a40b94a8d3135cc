-- ===== src/Payload/Writing.antt =====
-- `serialize_plan` of src/planner/app/add_project.py.
use planner_dev.Prelude.{ℕ, Option, none, some, List, [], ◌∷◌, string_eq}
use planner_dev.Models.{DayAllocation, Assignment, RiskFlag, PlanResult}
use planner_dev.Payload.Json.{
  Json, null, num, str, arr, obj, Items, nil, cons, end, field, plain, message, Codec,
}

module _ (c : Codec) where
  abbrev pub uuid_json : ℕ → Json
  uuid_json u = str (plain (c.uuid_text u))

  abbrev pub date_json : ℕ → Json
  date_json d = str (plain (c.date_text d))

  abbrev pub opt_json : (ℕ → Json) → Option ℕ → Json
  opt_json f none = null
  opt_json f (some v) = f v

  unfoldable pub allocation_json : DayAllocation → Json
  allocation_json al = obj (
      field "person_id" (uuid_json al.person_id)
        (field "day" (date_json al.day) (field "hours" (num al.hours) end)))

  unfoldable pub allocations_json : List DayAllocation → Items
  unfolding allocation_json
  allocations_json [] = nil
  allocations_json (al ∷ l) = cons (allocation_json al) (allocations_json l)

  unfoldable pub assignment_json : Assignment → Json
  unfolding allocations_json
  assignment_json a = obj (
      field "task_id" (uuid_json a.task_id) (
        field "person_id" (uuid_json a.person_id) (
          field "start_date" (date_json a.start_date) (
            field "end_date" (date_json a.end_date)
              (field "allocations" (arr (allocations_json a.allocations)) end)))))

  unfoldable pub assignments_json : List Assignment → Items
  unfolding assignment_json
  assignments_json [] = nil
  assignments_json (a ∷ l) = cons (assignment_json a) (assignments_json l)

  unfoldable pub risk_json : RiskFlag → Json
  risk_json r = obj (
      field "kind" (str (plain r.kind)) (
        field "message" (str (message r.message)) (
          field "task_id" (opt_json uuid_json r.task_id) (
            field "person_id" (opt_json uuid_json r.person_id)
              (field "day" (opt_json date_json r.day) end)))))

  unfoldable pub risks_json : List RiskFlag → Items
  unfolding risk_json
  risks_json [] = nil
  risks_json (r ∷ l) = cons (risk_json r) (risks_json l)

  unfoldable pub serialize_plan : PlanResult → Json
  unfolding assignments_json risks_json
  serialize_plan plan = obj (
      field "assignments" (arr (assignments_json plan.assignments)) (
        field "risks" (arr (risks_json plan.risks))
          (field "end_date" (opt_json date_json plan.end_date) end)))
