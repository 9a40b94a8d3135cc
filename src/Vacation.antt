-- ===== src/Vacation.antt =====
-- `SetVacationUseCase` of src/planner/app/set_vacation.py over the methods of `RepoPort`
-- (src/planner/app/ports.py) that it calls, and the repository of the program, which fills them.
pub mod Overrides
pub mod Writes
use planner_dev.Prelude.{
  ℕ, zero, suc, ◌+◌, ◌-◌, String, Bool, not, ◌&&◌, Option, none, some, leb, ltb, if◌then◌else◌,
  nat_eq,
}
use planner_dev.Prelude.Int.{ℤ, le_ℤ, to_ℕ}
use planner_dev.Payload.Json.{num, obj, end, field, Codec}
use planner_dev.Payload.Writing.{date_json}
use planner_dev.Database.{Database, Env}
use planner_dev.Database.Records.{PersonRecord, TextOps}
use planner_dev.Database.People
use planner_dev.Database.Boards
use planner_dev.Database.Boards.{AuditEntry}

-- The capacity is any integer that the parser of the intent gives.
pub record VacationIntent : Type 0 where
  pub person_name : String
  pub day_from : ℕ
  pub day_to : ℕ
  pub capacity_h : ℤ

abbrev pub max_vacation_days : ℕ
max_vacation_days = 60

abbrev pub max_capacity_h : ℕ
max_capacity_h = 12

-- The exceptions of the use-case.
pub data Refusal : Type 0 where
  permission_error : Refusal
  reversed_range : Refusal
  too_long : ℕ → Refusal
  bad_capacity : Refusal
  person_not_found : String → Refusal

pub data Answer : Type 0 where
  counted : ℕ → Answer
  refused : Refusal → Answer

-- The repository, as far as the use-case calls it.
pub record RepoPort : Type 1 where
  pub Store : Type 0
  pub get_person_by_name : Store → String → Option PersonRecord
  pub upsert_day_override : Store → ℕ → ℕ → ℤ → Option String → Store
  pub add_audit : Store → AuditEntry → Store

-- The repository that the program passes: the database.
abbrev pub sql_repo : Env → TextOps → RepoPort
sql_repo env text = record {
  Store = Database;
  get_person_by_name = People.get_person_by_name text;
  upsert_day_override = People.upsert_day_override;
  add_audit = Boards.add_audit env;
}

-- The call of `add_audit`. The capacity has passed the check of its bounds and is not negative.
abbrev pub audit_of : Codec → Option ℕ → VacationIntent → ℕ → AuditEntry
audit_of c actor_id intent person_id = record {
  actor_id = actor_id;
  action = "set_vacation";
  entity_type = "day_override";
  entity_id = some person_id;
  payload = some (
      obj (
        field "from" (date_json c intent.day_from) (
          field "to" (date_json c intent.day_to)
            (field "capacity_h" (num (to_ℕ intent.capacity_h)) end))));
}

module _ (c : Codec) (repo : RepoPort) where
  -- `while day <= intent.day_to`, in at most `rounds` rounds.
  unfoldable pub write_days :
      (rounds : ℕ) (person_id : ℕ) → VacationIntent → (day count : ℕ) → repo.Store → ℕ × repo.Store
  write_days zero person_id intent day count s = (count, s)
  write_days (suc rounds) person_id intent day count s =
      let rest =
        write_days rounds person_id intent (day + 1) (count + 1)
          (repo.upsert_day_override s person_id day intent.capacity_h (some "vacation")) in
      if leb day intent.day_to then rest else (count, s)

  -- `execute` behind its checks.
  unfoldable pub write_vacation :
      VacationIntent → Option ℕ → Option PersonRecord → repo.Store → Answer × repo.Store
  unfolding write_days
  write_vacation intent actor_id none s = (refused (person_not_found intent.person_name), s)
  write_vacation intent actor_id (some person) s =
      let rounds = intent.day_to + 1 - intent.day_from in
      let written = write_days rounds person.id intent intent.day_from 0 s in
      (counted written.0, repo.add_audit written.1 (audit_of c actor_id intent person.id))

  unfoldable pub set_vacation :
      VacationIntent → Option ℕ → (is_admin : Bool) → repo.Store → Answer × repo.Store
  unfolding write_vacation
  set_vacation intent actor_id is_admin s =
      if not is_admin
      then (refused permission_error, s)
      else if ltb intent.day_to intent.day_from
      then (refused reversed_range, s)
      else let range_days = intent.day_to - intent.day_from + 1 in
        if ltb max_vacation_days range_days
        then (refused (too_long range_days), s)
        else if not (le_ℤ 0 intent.capacity_h && leb (to_ℕ intent.capacity_h) max_capacity_h)
        then (refused bad_capacity, s)
        else write_vacation intent actor_id (repo.get_person_by_name s intent.person_name) s
