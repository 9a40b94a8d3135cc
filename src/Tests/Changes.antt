-- ===== src/Tests/Changes.antt =====
-- What changes between two sample plans.
use planner_dev.Prelude.{
  ◌≡◌, refl, not, ◌&&◌, ◌||◌, none, some, [], ◌∷◌, map, mem, option_eq, pair_eq, nat_eq,
}
use planner_dev.Models.{PlanResult, overload_of, by_task}
use planner_dev.Diff.{diff, overload_key, overload_keys}
use planner_dev.Diff.Delta.{diff_self, diff-overload_keys}
use planner_dev.Tests.Samples.{outcome, drafted, reviewed, program}

-- The same plan with the draft moved, and the overload of Bob on another day.
abbrev later : PlanResult
later = record {
  assignments = record drafted { start_date = 3 } ∷ reviewed ∷ [];
  risks =
      record {
        kind = "overload";
        message = overload_of 2 3;
        task_id = none;
        person_id = some 2;
        day = some 3;
      }
      ∷ [];
  end_date = some 9;
}

moved : (diff outcome later).moved_tasks ≡ 11 ∷ []
unfolding diff program by_task
moved = refl

diff_self_example :
    diff outcome outcome ≡ record { moved_tasks = []; new_overloads = []; removed_overloads = [] }
diff_self_example = diff_self outcome (refl, (refl, (refl, (refl, tt))))

diff-overload_keys_example :
    let d = diff outcome later in
    mem (some 2, some 3) (overload_keys later) ≡ (
      mem (some 2, some 3) (map overload_key d.new_overloads)
      || (mem (some 2, some 3) (overload_keys outcome)
          && not (mem (some 2, some 3) (map overload_key d.removed_overloads))))
diff-overload_keys_example = diff-overload_keys outcome later (some 2, some 3)
