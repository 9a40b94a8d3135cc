-- ===== src/Payload/Roundtrip.antt =====
-- A plan survives its snapshot (src/planner/app/add_project.py).
use planner_dev.Prelude.{ℕ, ◌≡◌, refl, Option, none, some, List, [], ◌∷◌, ◌++◌, ok}
use planner_dev.Models.{DayAllocation, Assignment, RiskFlag, PlanResult}
use planner_dev.Payload.Json.{Codec, CodecLaws, optional_list}
use planner_dev.Payload.Writing.{
  allocation_json, allocations_json, assignment_json, assignments_json, risk_json, risks_json,
  serialize_plan, opt_json, date_json, uuid_json,
}
use planner_dev.Payload.Reading.{
  allocation_from, allocations_from, assignment_from, assignments_from, risk_from, risks_from,
  deserialize_plan, flatten_from, deserialize_allocations, opt_from, date_from, uuid_from,
}

-- The chunks of the assignments, one after the other.
unfoldable pub allocations_in : List Assignment → List DayAllocation
allocations_in [] = []
allocations_in (a ∷ l) = a.allocations ++ allocations_in l

module _ (c : Codec) (laws : CodecLaws c) where
  allocation_back : (al : DayAllocation) → allocation_from c (allocation_json c al) ≡ ok al
  unfolding allocation_from allocation_json
  allocation_back al = rw (laws.uuid_back al.person_id, laws.date_back al.day)

  allocations_back : (l : List DayAllocation) → allocations_from c (allocations_json c l) ≡ ok l
  unfolding allocations_from allocations_json
  allocations_back [] = refl
  allocations_back (al ∷ l) = rw (allocation_back al, allocations_back l)

  assignment_back : (a : Assignment) → assignment_from c (assignment_json c a) ≡ ok a
  unfolding assignment_from assignment_json
  assignment_back a = rw (
    laws.uuid_back a.task_id,
    laws.uuid_back a.person_id,
    laws.date_back a.start_date,
    laws.date_back a.end_date,
    allocations_back a.allocations,
  )

  assignments_back : (l : List Assignment) → assignments_from c (assignments_json c l) ≡ ok l
  unfolding assignments_from assignments_json
  assignments_back [] = refl
  assignments_back (a ∷ l) = rw (assignment_back a, assignments_back l)

  opt_date_back :
      (o : Option ℕ) → opt_from c (date_from c) (some (opt_json c (date_json c) o)) ≡ ok o
  opt_date_back none = refl
  opt_date_back (some d) = rw (laws.date_filled d, laws.date_back d)

  opt_uuid_back :
      (o : Option ℕ) → opt_from c (uuid_from c) (some (opt_json c (uuid_json c) o)) ≡ ok o
  opt_uuid_back none = refl
  opt_uuid_back (some u) = rw (laws.uuid_filled u, laws.uuid_back u)

  risk_back : (r : RiskFlag) → risk_from c (risk_json c r) ≡ ok r
  unfolding risk_from risk_json
  risk_back r = rw (opt_uuid_back r.task_id, opt_uuid_back r.person_id, opt_date_back r.day)

  risks_back : (l : List RiskFlag) → risks_from c (risks_json c l) ≡ ok l
  unfolding risks_from risks_json
  risks_back [] = refl
  risks_back (r ∷ l) = rw (risk_back r, risks_back l)

  -- Reading back the snapshot of a plan gives the plan, if what the standard library prints for an
  -- identifier or a date is not empty and parses to the same value.
  pub deserialize_plan-serialize_plan :
      (plan : PlanResult) → deserialize_plan c (serialize_plan c plan) ≡ ok plan
  unfolding deserialize_plan serialize_plan
  deserialize_plan-serialize_plan plan =
      rw (assignments_back plan.assignments, risks_back plan.risks, opt_date_back plan.end_date)

  flatten_back :
      (l : List Assignment) → flatten_from c (assignments_json c l) ≡ ok (allocations_in l)
  unfolding flatten_from assignments_json assignment_json optional_list allocations_in
  flatten_back [] = refl
  flatten_back (a ∷ l) = rw (allocations_back a.allocations, flatten_back l)

  -- The allocations read from the snapshot of a plan, for the load report, are those of its
  -- assignments one after the other, if what the standard library prints for an identifier or a
  -- date is not empty and parses to the same value.
  pub deserialize_allocations-serialize_plan :
      (plan : PlanResult)
      → deserialize_allocations c (serialize_plan c plan) ≡ ok (allocations_in plan.assignments)
  unfolding deserialize_allocations serialize_plan
  deserialize_allocations-serialize_plan plan = flatten_back plan.assignments
