-- ===== src/Database/People.antt =====
-- People and their days in `SqlAlchemyRepo` (src/planner/infra/db/repo.py).
use planner_dev.Prelude.{
  ℕ, String, Bool, not, ◌||◌, ◌&&◌, Option, none, some, List, [], ◌∷◌, map, keep, leb,
  if◌then◌else◌, ◌==◌, nat_eq, string_eq, option_eq,
}
use planner_dev.Prelude.Int.{ℤ, to_ℕ}
use planner_dev.Prelude.Dict.{Dict, get, put}
use planner_dev.Models.{Person, DayOverride}
use planner_dev.Database.{Database}
use planner_dev.Database.Tables.{PersonRow, RoleSkillRow, SkillRow, DayOverrideRow}
use planner_dev.Database.Rows.{find_row, change_rows, any_row, order_by, add_row}
use planner_dev.Database.Records.{PersonRecord, CapabilityRecord, TextOps}

abbrev pub person_record : PersonRow → PersonRecord
person_record p = record {
  id = p.id;
  name = p.name;
  is_admin = p.is_admin;
  capacity_h = p.capacity_h;
  role_label = p.role_label;
}

-- The shorter of two texts, the first if they are as long.
abbrev pub shorter : (String → ℕ) → String → Option String → Option String
shorter len x none = some x
shorter len x (some y) = if leb (len x) (len y) then some x else some y

-- `min(l, key=len)`
unfoldable pub shortest : (String → ℕ) → List String → Option String
shortest len [] = none
shortest len (x ∷ l) = shorter len x (shortest len l)

module _ (text : TextOps) where
  abbrev pub norm_name : String → String
  norm_name s = text.replace_yo (text.lower (text.strip s))

  -- `any(w == q or w.startswith(q) for w in _norm_name(c).split())`
  abbrev pub is_plausible : String → String → Bool
  is_plausible q c = any_row (λ w. (w == q) || text.starts_with w q) (text.split (norm_name c))

  unfoldable pub match_person_name : List String → String → Option String
  unfolding find_row any_row shortest
  match_person_name candidates query =
      let q = norm_name query in
      if q == "" then none else elim (find_row (λ c. norm_name c == q) candidates) [
        | some exact ↦ some exact
        | none ↦ shortest text.len (keep (is_plausible q) candidates)
      ]

  -- `{p.name: p for p in people}`
  unfoldable pub by_name : Dict String PersonRow → List PersonRow → Dict String PersonRow
  by_name d [] = d
  by_name d (p ∷ l) = by_name (put d p.name p) l

  unfoldable pub get_person_by_name : Database → String → Option PersonRecord
  unfolding match_person_name by_name
  get_person_by_name db name =
      let people = by_name [] db.people in
      elim (match_person_name (map (λ kv. kv.0) people) name) [
        | none ↦ none
        | some chosen ↦ elim (get people chosen) [ none ↦ none | some p ↦ some (person_record p) ]
      ]

  unfoldable pub list_people : Database → List PersonRecord
  unfolding order_by
  list_people db = map person_record (order_by (λ p q. text.collate p.name q.name) db.people)

  unfoldable pub get_solver_people : Database → List Person
  unfolding order_by
  get_solver_people db =
      map (λ p. record { id = p.id; name = p.name; capacity_h = p.capacity_h })
        (order_by (λ p q. text.collate p.name q.name) (keep (λ p. p.is_active) db.people))

unfoldable pub get_person_by_tg_id : Database → ℕ → Option PersonRecord
unfolding find_row
get_person_by_tg_id db tg_user_id =
    elim (find_row (λ p. p.tg_user_id == some tg_user_id) db.people) [
      | none ↦ none
      | some p ↦ some (person_record p)
    ]

abbrev pub is_override : ℕ → ℕ → DayOverrideRow → Bool
is_override person_id day o = (o.person_id == person_id) && (o.day == day)

unfoldable pub upsert_day_override :
    Database → (person_id day : ℕ) → (capacity_h : ℤ) → (reason : Option String) → Database
unfolding find_row change_rows
upsert_day_override db person_id day capacity_h reason =
    elim (find_row (is_override person_id day) db.day_overrides) [
      | none ↦ record db {
        day_overrides =
            add_row db.day_overrides (record {
              person_id = person_id;
              day = day;
              capacity_h = capacity_h;
              reason = reason;
            });
      }
      | some existing ↦ record db {
        day_overrides =
            change_rows (is_override person_id day)
              (λ o. record o { capacity_h = capacity_h; reason = reason }) db.day_overrides;
      }
    ]

-- No capacity below zero is stored: setting a vacation refuses it.
unfoldable pub list_day_overrides : Database → List DayOverride
list_day_overrides db =
    map (λ o. record { person_id = o.person_id; day = o.day; capacity_h = to_ℕ o.capacity_h })
      db.day_overrides

-- The names of the skills that some roles' rows name, a set.
unfoldable pub skill_names : List SkillRow → List RoleSkillRow → List String
skill_names skills [] = []
skill_names skills (rs ∷ l) =
    let rest = skill_names skills l in
    elim (find_row (λ s. s.id == rs.skill_id) skills) [
      | none ↦ rest
      | some s ↦ s.name ∷ keep (λ n. not (n == s.name)) rest
    ]

-- The rows of `role_skills` for the roles of a person.
abbrev pub role_skills_of : Database → ℕ → List RoleSkillRow
role_skills_of db person_id =
    keep
      (λ rs.
        any_row (λ pr. (pr.person_id == person_id) && (pr.role_id == rs.role_id)) db.person_roles)
      db.role_skills

unfoldable pub get_person_capabilities : TextOps → Database → List CapabilityRecord
unfolding skill_names order_by any_row find_row
get_person_capabilities text db =
    map
      (λ p. record {
        person_id = p.id;
        name = p.name;
        skills = skill_names db.skills (role_skills_of db p.id);
        is_external = p.is_external;
      })
      (order_by (λ p q. text.collate p.name q.name) (keep (λ p. p.is_active) db.people))
