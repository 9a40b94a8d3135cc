-- ===== src/Tests/Stored.antt =====
-- A running campaign reset, a plan stored, and a name matched.
use planner_dev.Prelude.{◌≡◌, refl, ◌==◌, nat_eq, some, [], ◌∷◌, ok}
use planner_dev.Database.Rows.{find_row, any_row}
use planner_dev.Database.Plans.{reset_all_plans}
use planner_dev.Database.Saving.{assignment_rows}
use planner_dev.Database.People.{match_person_name}
use planner_dev.Capability.{committed_load}
use planner_dev.Database.Resetting.{committed_load-reset_all_plans, find_row-reset_all_plans}
use planner_dev.Database.SavedHours.{IsStored, assignment_rows-IsStored}
use planner_dev.Database.Naming.{IsMatch, match_person_name-IsMatch}
use planner_dev.Tests.Samples.{review, reviewed}
use planner_dev.Tests.Snapshots.{tally}
use planner_dev.Tests.Stores.{text, running, campaign}

committed_load-reset_all_plans_example : committed_load tally (reset_all_plans running).1 ≡ ok []
committed_load-reset_all_plans_example = committed_load-reset_all_plans tally running

find_row-reset_all_plans_example :
    find_row (λ p. p.id == 40) (reset_all_plans running).1.projects
    ≡ some (record campaign { status = "cancelled" })
unfolding any_row
find_row-reset_all_plans_example = find_row-reset_all_plans running campaign found
  where
    found : find_row (λ p. p.id == 40) running.projects ≡ some campaign
    found = unfold find_row in refl

assignment_rows-IsStored_example :
    IsStored 12 reviewed.allocations (assignment_rows review (some reviewed))
assignment_rows-IsStored_example = assignment_rows-IsStored review reviewed

match_person_name-IsMatch_example : IsMatch text ("ann" ∷ "bob" ∷ []) "bob" "bob"
match_person_name-IsMatch_example =
    match_person_name-IsMatch text ("ann" ∷ "bob" ∷ []) "bob" "bob" matched
  where
    matched : match_person_name text ("ann" ∷ "bob" ∷ []) "bob" ≡ some "bob"
    matched = unfold match_person_name in refl
