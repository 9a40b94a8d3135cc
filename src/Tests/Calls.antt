-- ===== src/Tests/Calls.antt =====
-- A morning's calls, and suggestions for a task.
use planner_dev.Prelude.{
  ℕ, ◌≡◌, refl, String, true, false, none, some, List, [], ◌∷◌, All, ◌⊎◌, ◌==◌, nat_eq,
}
use planner_dev.Capability.{Candidate, SkillText, suggest_assignees}
use planner_dev.Capability.Ranking.{IsBestFirst, suggest_assignees-IsBestFirst}
use planner_dev.Capability.Considered.{IsSuggestion, IsBarred, suggest_assignees-IsSuggestion}
use planner_dev.Database.Rows.{any_row}
use planner_dev.UseCases.{UseCase, adds, captures, confirms, marks, resets, run_all}
use planner_dev.UseCases.Consistent.{IsConsistent, run_all-IsConsistent}
use planner_dev.Tests.Snapshots.{tally}
use planner_dev.Tests.Stores.{env, text, store, mirror}
use planner_dev.Tests.Confirming.{call_client}
use planner_dev.Tests.Adding.{solved, poster, on_monday, two_steps}

abbrev morning : List UseCase
morning =
    captures call_client (some 1) none
    ∷ adds poster on_monday two_steps
    ∷ confirms 50 (some 1) (some mirror)
    ∷ marks 100 none true false "done"
    ∷ resets
    ∷ []

run_all-IsConsistent_example : IsConsistent (run_all env tally text solved store morning)
run_all-IsConsistent_example =
    run_all-IsConsistent env tally text solved store morning (tt, (refl, tt), tt)

abbrev plain_text : SkillText
plain_text = record { strip = λ s. s; casefold = λ s. s; str_le = λ a b. true }

abbrev candidate : ℕ → String → List String → Candidate
candidate id name skills = record {
  person_id = id;
  name = name;
  skills = skills;
  is_external = false;
  load_hours = 0;
}

abbrev team : List Candidate
team = candidate 1 "ann" ("draw" ∷ []) ∷ candidate 2 "bob" ("draw" ∷ "write" ∷ []) ∷ []

suggest_assignees-IsBestFirst_example :
    IsBestFirst plain_text
      (suggest_assignees plain_text ("draw" ∷ "write" ∷ []) team false (some 5) [])
suggest_assignees-IsBestFirst_example =
    suggest_assignees-IsBestFirst plain_text either_way ("draw" ∷ "write" ∷ []) team false (some 5)
      []
  where
    either_way : (a b : String) → plain_text.str_le a b ≡ false → plain_text.str_le b a ≡ true
    either_way a b h = refl

suggest_assignees-IsSuggestion_example :
    All
      (IsSuggestion plain_text ("draw" ∷ "write" ∷ []) team false (2 ∷ []))
      (suggest_assignees plain_text ("draw" ∷ "write" ∷ []) team false (some 1) (2 ∷ []))
    × All
        (λ c.
          IsBarred false (2 ∷ []) c
          ⊎ (any_row
                (λ s. s.person_id == c.person_id)
                (suggest_assignees plain_text ("draw" ∷ "write" ∷ []) team false none (2 ∷ []))
              ≡ true))
        team
suggest_assignees-IsSuggestion_example =
    suggest_assignees-IsSuggestion plain_text ("draw" ∷ "write" ∷ []) team false (2 ∷ []) (some 1)
