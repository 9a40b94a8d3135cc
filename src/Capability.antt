-- ===== src/Capability.antt =====
-- Suggestions of assignees by skill and load: src/planner/domain/capability.py, and
-- src/planner/app/suggest_assignees.py over the repository. A coverage is the pair of the covered and
-- the required number of skills; a set is a list, read by membership.
pub mod Ranking
pub mod Labels
pub mod Considered
use planner_dev.Prelude.{
  ℕ, zero, suc, ◌+◌, ◌*◌, String, Bool, true, false, not, ◌&&◌, Option, none, some, List, [], ◌∷◌,
  map, keep, take, ltb, length, if◌then◌else◌, ◌==◌, nat_eq, string_eq, mem, Result, ok, ◌>>=◌,
}
use planner_dev.Prelude.Dict.{Dict, put, get_or, set_default}
use planner_dev.Models.{DayAllocation}
use planner_dev.Payload.Json.{Json, Codec}
use planner_dev.Payload.Reading.{deserialize_allocations}
use planner_dev.Database.{Database}
use planner_dev.Database.Rows.{order_by}
use planner_dev.Database.Records.{TextOps}
use planner_dev.Database.People.{get_person_capabilities}
use planner_dev.Database.Plans.{list_committed_plans}

pub record Candidate : Type 0 where
  pub person_id : ℕ
  pub name : String
  pub skills : List String
  pub is_external : Bool
  pub load_hours : ℕ

pub record AssigneeSuggestion : Type 0 where
  pub person_id : ℕ
  pub name : String
  pub coverage : ℕ × ℕ
  pub covered_skills : List String
  pub missing_skills : List String
  pub load_hours : ℕ

-- `str.strip`, `str.casefold`, and `<=` on texts.
pub record SkillText : Type 0 where
  pub strip : String → String
  pub casefold : String → String
  pub str_le : String → String → Bool

-- `a < b` for fractions of a positive number.
abbrev pub lt_fraction : ℕ × ℕ → ℕ × ℕ → Bool
lt_fraction a b = ltb (a.0 * b.1) (b.0 * a.1)

-- The sort key `(-coverage, load_hours, name)`.
unfoldable pub ranks_before : SkillText → AssigneeSuggestion → AssigneeSuggestion → Bool
ranks_before text s t =
    if lt_fraction t.coverage s.coverage
    then true
    else if lt_fraction s.coverage t.coverage
    then false
    else if ltb s.load_hours t.load_hours
    then true
    else if ltb t.load_hours s.load_hours
    then false
    else text.str_le s.name t.name

module _ (text : SkillText) where
  abbrev pub norm : String → String
  norm skill = text.casefold (text.strip skill)

  -- `label_by_key`: the first spelling of each required skill.
  unfoldable pub label_by_key : Dict String String → List String → Dict String String
  unfolding set_default
  label_by_key d [] = d
  label_by_key d (s ∷ l) =
      let label = text.strip s in
      label_by_key (if label == "" then d else set_default d (norm label) label) l

  -- The labels of the keys that a test accepts.
  unfoldable pub labels_where : (String → Bool) → Dict String String → List String
  labels_where p [] = []
  labels_where p ((k, label) ∷ d) =
      let rest = labels_where p d in if p k then label ∷ rest else rest

  -- The share of the required skills, 1 where none is.
  abbrev pub coverage_of : (covered required : ℕ) → ℕ × ℕ
  coverage_of covered zero = (1, 1)
  coverage_of covered (suc n) = (covered, suc n)

  unfoldable pub suggestion : Dict String String → Candidate → AssigneeSuggestion
  unfolding labels_where
  suggestion labels c =
      let have = map norm c.skills in
      let covered = labels_where (λ k. mem k have) labels in
      record {
        person_id = c.person_id;
        name = c.name;
        coverage = coverage_of (length covered) (length labels);
        covered_skills = covered;
        missing_skills = labels_where (λ k. not (mem k have)) labels;
        load_hours = c.load_hours;
      }

  -- The two `continue`s: a binding that is not empty, and people from outside.
  abbrev pub is_considered : (include_external : Bool) → (restrict_to : List ℕ) → Candidate → Bool
  is_considered include_external [] c = not (c.is_external && not include_external)
  is_considered include_external (p ∷ l) c = mem c.person_id (p ∷ l)

  abbrev pub limited : Option ℕ → List AssigneeSuggestion → List AssigneeSuggestion
  limited none l = l
  limited (some n) l = take n l

  unfoldable pub suggest_assignees :
      (required_skills : List String)
      → List Candidate
      → (include_external : Bool) → (limit : Option ℕ) → (restrict_to : List ℕ)
      → List AssigneeSuggestion
  unfolding label_by_key suggestion order_by ranks_before
  suggest_assignees required_skills candidates include_external limit restrict_to = limited limit (
      order_by (ranks_before text) (
        map (suggestion (label_by_key [] required_skills))
          (keep (is_considered include_external restrict_to) candidates)))

-- `load[alloc.person_id] += alloc.hours`
unfoldable pub add_load : Dict ℕ ℕ → List DayAllocation → Dict ℕ ℕ
add_load load [] = load
add_load load (al ∷ l) = add_load (put load al.person_id (get_or load al.person_id 0 + al.hours)) l

unfoldable pub load_of : Codec → Dict ℕ ℕ → List Json → Result (Dict ℕ ℕ)
unfolding add_load
load_of c load [] = ok load
load_of c load (payload ∷ l) = do
  allocations ← deserialize_allocations c payload
  load_of c (add_load load allocations) l

unfoldable pub committed_load : Codec → Database → Result (Dict ℕ ℕ)
unfolding load_of list_committed_plans
committed_load c db = load_of c [] (list_committed_plans db)

-- `SuggestAssigneesUseCase.execute`
unfoldable pub suggest :
    Codec
    → SkillText
    → TextOps
    → Database
    → (required_skills : List String) → (include_external : Bool) → (limit : Option ℕ)
    → (restrict_to : List ℕ) → Result (List AssigneeSuggestion)
unfolding committed_load suggest_assignees
suggest c text ops db required_skills include_external limit restrict_to = do
  load ← committed_load c db
  ok (
      suggest_assignees text required_skills
        (map
          (λ r. record {
            person_id = r.person_id;
            name = r.name;
            skills = r.skills;
            is_external = r.is_external;
            load_hours = get_or load r.person_id 0;
          })
          (get_person_capabilities ops db))
        include_external limit restrict_to)
