-- ===== src/Diff.antt =====
-- What changes between two plans: src/planner/domain/solver/diff.py.
pub mod Delta
use planner_dev.Prelude.{
  ℕ, Bool, not, Option, none, some, List, map, keep, true, ◌||◌, ◌==◌, nat_eq, option_eq, pair_eq,
  mem,
}
use planner_dev.Prelude.Dict.{Dict, get}
use planner_dev.Models.{Assignment, RiskFlag, PlanResult, PlanDiff, by_task, overloads}

abbrev pub overload_key : RiskFlag → Option ℕ × Option ℕ
overload_key r = (r.person_id, r.day)

-- A set, as a list for its membership test.
unfoldable pub overload_keys : PlanResult → List (Option ℕ × Option ℕ)
overload_keys plan = map overload_key (overloads plan)

-- The condition of the comprehension of `moved`.
abbrev pub differs : Option Assignment → Assignment → Bool
differs none a = true
differs (some b) a = not (b.start_date == a.start_date) || not (b.end_date == a.end_date)

abbrev pub is_moved : Dict ℕ Assignment → Assignment → Bool
is_moved b a = differs (get b a.task_id) a

unfoldable pub diff : PlanResult → PlanResult → PlanDiff
unfolding overload_keys
diff base modified = record {
  moved_tasks = map (λ a. a.task_id) (keep (is_moved (by_task base)) modified.assignments);
  new_overloads = keep (λ r. not (mem (overload_key r) (overload_keys base))) (overloads modified);
  removed_overloads =
      keep (λ r. not (mem (overload_key r) (overload_keys modified))) (overloads base);
}
