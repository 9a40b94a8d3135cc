-- ===== src/Tests/Planning.antt =====
-- The solver's plans at a concrete request.
use planner_dev.Prelude.{refl}
use planner_dev.Calendar.Weekend.{next_working_day-IsCalendar}
use planner_dev.Networkx.Reference.{reference, reference_laws}
use planner_dev.Greedy.{pinned}
use planner_dev.Greedy.Assigned.{IsAssigned, plan-IsAssigned}
use planner_dev.Greedy.Dependencies.{Behind, plan-Behind}
use planner_dev.Tests.Samples.{
  weeks, calendar, request, outcome, needs, drafted, reviewed, plan-request,
}

-- The review waits two working days for the draft.
plan-Behind_example : Behind calendar (needs 12 11 "FS" 2) drafted reviewed
unfolding pinned
plan-Behind_example =
    plan-Behind reference reference_laws calendar (next_working_day-IsCalendar weeks) request
      outcome drafted reviewed (needs 12 11 "FS" 2) 1 3 plan-request refl refl refl refl

plan-IsAssigned_example : IsAssigned calendar request drafted
unfolding pinned
plan-IsAssigned_example =
    plan-IsAssigned reference calendar (next_working_day-IsCalendar weeks) request outcome 1 drafted
      plan-request refl refl
