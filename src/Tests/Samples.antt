-- ===== src/Tests/Samples.antt =====
-- A week of work for two people: day 1 is a Monday.
use planner_dev.Prelude.{ℕ, String, true, false, none, some, List, [], ◌∷◌, ok, ◌≡◌, refl}
use planner_dev.Calendar.{
  WeekendCalendar, WorkingCalendar, weekend_calendar, next_working_day, is_working_day,
}
use planner_dev.Prelude.Dict.{put, set_default}
use planner_dev.Networkx.{update}
use planner_dev.Models.{
  Assignment, overload_of, Person, Task, Dependency, DayAllocation, PlanRequest, PlanResult,
}
use planner_dev.Capacity.{CapacityIndex, make_index, base_capacity}
use planner_dev.Networkx.Reference.{reference, sort}
use planner_dev.Greedy.{plan}

-- Thursday of the second week is a holiday.
abbrev pub weeks : WeekendCalendar
weeks = record { holidays = 11 ∷ [] }

abbrev pub calendar : WorkingCalendar
calendar = weekend_calendar weeks

abbrev pub ann : Person
ann = record { id = 1; name = "Ann"; capacity_h = 8 }

abbrev pub bob : Person
bob = record { id = 2; name = "Bob"; capacity_h = 6 }

abbrev pub task : ℕ → String → ℕ → List ℕ → Task
task id name hours allowed = record {
  id = id;
  name = name;
  duration_hours = hours;
  allowed_person_ids = allowed;
  project_id = none;
  required_skills = [];
  is_splittable = false;
  pair_mode = "none";
  duration_is_window = false;
  status = "not_done";
  source = "bot_formed";
  fixed_start = none;
  fixed_end = none;
  fixed_assignee_id = none;
}

abbrev pub brief : Task
brief = task 10 "brief" 8 (1 ∷ 2 ∷ [])

abbrev pub draft : Task
draft = record (task 11 "draft" 20 (2 ∷ [])) { is_splittable = true }

abbrev pub review : Task
review = record (task 12 "review" 4 (1 ∷ 2 ∷ [])) { pair_mode = "required" }

abbrev pub design : Task
design = record (task 13 "design" 16 (1 ∷ [])) { duration_is_window = true }

abbrev pub needs : ℕ → ℕ → String → ℕ → Dependency
needs task_id depends_on_id link_type lag = record {
  task_id = task_id;
  depends_on_id = depends_on_id;
  link_type = link_type;
  lag_working_days = lag;
}

abbrev pub request : PlanRequest
request = record {
  people = ann ∷ bob ∷ [];
  tasks = review ∷ draft ∷ design ∷ brief ∷ [];
  dependencies = needs 11 10 "FS" 0 ∷ needs 12 11 "FS" 2 ∷ needs 13 10 "SS" 0 ∷ [];
  horizon_start = 1;
  day_overrides = [];
  existing_allocations = record { person_id = 1; day = 1; hours = 4 } ∷ [];
  deadline = some 9;
}

abbrev pub index : CapacityIndex
index = make_index request.people calendar request.day_overrides request.existing_allocations

abbrev chunk : ℕ → ℕ → ℕ → DayAllocation
chunk p d h = record { person_id = p; day = d; hours = h }

abbrev assigned : ℕ → ℕ → ℕ → ℕ → List DayAllocation → Assignment
assigned t p a b l = record {
  task_id = t;
  person_id = p;
  start_date = a;
  end_date = b;
  allocations = l;
}

abbrev pub drafted : Assignment
drafted = assigned 11 2 2 5 (chunk 2 2 6 ∷ chunk 2 3 6 ∷ chunk 2 4 6 ∷ chunk 2 5 2 ∷ [])

abbrev pub reviewed : Assignment
reviewed = assigned 12 1 9 9 (chunk 1 9 4 ∷ chunk 2 9 4 ∷ [])

-- The plan of the request. The brief goes to Bob, who never has eight hours on a day, on the first
-- day, and overloads him; Ann has eight hours on the second day.
abbrev pub outcome : PlanResult
outcome = record {
  assignments =
      assigned 10 2 1 1 (chunk 2 1 8 ∷ []) ∷ drafted ∷ assigned 13 1 1 2 [] ∷ reviewed ∷ [];
  risks =
      record {
        kind = "overload";
        message = overload_of 2 1;
        task_id = none;
        person_id = some 2;
        day = some 1;
      }
      ∷ [];
  end_date = some 9;
}

-- What a run of the solver computes with.
unfoldable pub program : Unit {0}
unfolding plan sort next_working_day put is_working_day base_capacity set_default update
program = tt

pub plan-request : plan reference calendar request ≡ ok outcome
unfolding program
plan-request = refl
