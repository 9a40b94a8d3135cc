-- ===== src/Vacation/Writes.antt =====
-- What setting a vacation writes (src/planner/app/set_vacation.py).
use planner_dev.Prelude.{
  ℕ, zero, suc, ◌+◌, ◌-◌, ◌≤◌, ◌≡◌, refl, ap, ◌∙◌, Bool, true, false, ◌&&◌, Option, none, some, leb,
  ltb, if◌then◌else◌, ◌==◌, nat_eq, nat_beq_iff, arith, le→leb, ◌<◌, Bool-cases, inl, inr,
}
use planner_dev.Prelude.Int.{le_ℤ, to_ℕ}
use planner_dev.Payload.Json.{num, obj, end, field, Codec}
use planner_dev.Payload.Writing.{date_json}
use planner_dev.Database.{Database, Env}
use planner_dev.Database.Records.{PersonRecord, TextOps}
use planner_dev.Database.Rows.{add_row}
use planner_dev.Database.People.{upsert_day_override, get_person_by_name}
use planner_dev.Database.Boards.{add_audit}
use planner_dev.Vacation.{
  VacationIntent, Answer, counted, refused, Refusal, RepoPort, sql_repo, write_days, audit_of,
  write_vacation, set_vacation, max_vacation_days, max_capacity_h,
}
use planner_dev.Vacation.Overrides.{
  capacity_on, capacity_on-upsert_day_override, upsert_day_override-others,
}

ltb-false : (a b : ℕ) → b ≤ a → ltb a b ≡ false
ltb-false a b h = ground arith

-- What a vacation of a person leaves behind: the overrides of exactly the person's days, one entry in
-- the audit log, and all the rest as it was.
pub record Written (c : Codec) (env : Env) (intent : VacationIntent) (actor_id : Option ℕ)
    (person_id : ℕ) (db : Database) (r : Answer × Database) : Type 0 where
  pub answer : r.0 ≡ counted (intent.day_to + 1 - intent.day_from)
  pub overrides :
      (q d : ℕ)
      → capacity_on r.1.day_overrides q d ≡ (
          if (person_id == q) && (leb intent.day_from d && leb d intent.day_to)
          then some intent.capacity_h
          else capacity_on db.day_overrides q d)
  pub others : r.1 ≡ record db {
    day_overrides = r.1.day_overrides;
    audit_log = add_row db.audit_log (record {
      id = env.uuid4 db.draws;
      created_at = env.now db.draws;
      actor_id = actor_id;
      action = "set_vacation";
      entity_type = "day_override";
      entity_id = some person_id;
      payload = some (
          obj (
            field "from" (date_json c intent.day_from) (
              field "to"
                (date_json c intent.day_to)
                (field "capacity_h" (num (to_ℕ intent.capacity_h)) end))));
    });
    draws = db.draws + 1;
  }

module _ (c : Codec) (env : Env) (text : TextOps) where
  abbrev days_written :
      (rounds person_id : ℕ) → VacationIntent → (day count : ℕ) → Database → ℕ × Database
  days_written = write_days c (sql_repo env text)

  write_days-capacity_on :
      (rounds person_id : ℕ) (intent : VacationIntent) (day count : ℕ) (db : Database) (q d : ℕ)
      → rounds ≡ intent.day_to + 1 - day
      → capacity_on (days_written rounds person_id intent day count db).1.day_overrides q d ≡ (
          if (person_id == q) && (leb day d && leb d intent.day_to)
          then some intent.capacity_h
          else capacity_on db.day_overrides q d)
  unfolding write_days
  write_days-capacity_on zero person_id intent day count db q d h = ground arith
  write_days-capacity_on (suc rounds) person_id intent day count db q d h =
      let db' = upsert_day_override db person_id day intent.capacity_h (some "vacation") in
      ground (
        arith,
        nat_beq_iff day d,
        capacity_on-upsert_day_override db person_id day q d intent.capacity_h (some "vacation"),
        write_days-capacity_on rounds person_id intent (day + 1) (count + 1) db' q d
            (omega (arith, h)),
      )

  write_days_count :
      (rounds person_id : ℕ) (intent : VacationIntent) (day count : ℕ) (db : Database)
      → rounds ≡ intent.day_to + 1 - day
      → (days_written rounds person_id intent day count db).0 ≡ count + rounds
  unfolding write_days
  write_days_count zero person_id intent day count db h = omega arith
  write_days_count (suc rounds) person_id intent day count db h =
      let db' = upsert_day_override db person_id day intent.capacity_h (some "vacation") in
      ground (
        arith,
        write_days_count rounds person_id intent (day + 1) (count + 1) db' (omega (arith, h)),
      )

  write_days-others :
      (rounds person_id : ℕ) (intent : VacationIntent) (day count : ℕ) (db : Database)
      → (days_written rounds person_id intent day count db).1 ≡ record db {
        day_overrides = (days_written rounds person_id intent day count db).1.day_overrides;
      }
  unfolding write_days
  write_days-others zero person_id intent day count db = refl
  write_days-others (suc rounds) person_id intent day count db =
      let db' = upsert_day_override db person_id day intent.capacity_h (some "vacation") in
      let last = (days_written rounds person_id intent (day + 1) (count + 1) db').1 in
      elim (Bool-cases (leb day intent.day_to)) [
        | inl more ↦ rw more (
            write_days-others rounds person_id intent (day + 1) (count + 1) db'
            ∙ ap (λ (b : Database). record b { day_overrides = last.day_overrides })
                (upsert_day_override-others db person_id day intent.capacity_h (some "vacation")))
        | inr over ↦ rw over refl
      ]

  write_vacation-Written :
      (intent : VacationIntent) (actor_id : Option ℕ) (person : PersonRecord) (db : Database)
      → intent.day_from ≤ intent.day_to
      → Written c env intent actor_id person.id db
          (write_vacation c (sql_repo env text) intent actor_id (some person) db)
  unfolding write_vacation add_audit
  write_vacation-Written intent actor_id person db le =
      let rounds = intent.day_to + 1 - intent.day_from in
      let entry = audit_of c actor_id intent person.id in
      record {
        answer = ap counted (
            write_days_count rounds person.id intent intent.day_from 0 db refl ∙ omega (arith, le));
        overrides =
            λ q d. write_days-capacity_on rounds person.id intent intent.day_from 0 db q d refl;
        others =
            ap (λ b. add_audit env b entry)
              (write_days-others rounds person.id intent intent.day_from 0 db);
      }

-- An administrator's vacation of a known person, of up to 60 days that are not reversed and at most
-- 12 hours a day, answers the number of days, sets the capacity of exactly these days of that person,
-- adds one entry to the audit log, with the days and the hours, and changes nothing else in the
-- database.
pub set_vacation-Written :
    (c : Codec) (env : Env) (text : TextOps) (intent : VacationIntent) (actor_id : Option ℕ)
    (person : PersonRecord) (db : Database)
    → intent.day_from ≤ intent.day_to
    → intent.day_to < intent.day_from + max_vacation_days
    → le_ℤ 0 intent.capacity_h ≡ true
    → to_ℕ intent.capacity_h ≤ max_capacity_h
    → get_person_by_name text db intent.person_name ≡ some person
    → Written c env intent actor_id person.id db
        (set_vacation c (sql_repo env text) intent actor_id true db)
unfolding set_vacation
set_vacation-Written c env text intent actor_id person db le short natural small known =
    let forward = ltb-false intent.day_to intent.day_from le in
    let fits =
      ltb-false max_vacation_days (intent.day_to - intent.day_from + 1) (omega (arith, short)) in
    let bounded = le→leb (to_ℕ intent.capacity_h) max_capacity_h small in
    rw (forward, fits, natural, bounded, known)
      (write_vacation-Written c env text intent actor_id person db le)

write_vacation_refused :
    (c : Codec) (repo : RepoPort) (intent : VacationIntent) (actor_id : Option ℕ)
    (found : Option PersonRecord) (s : repo.Store) (why : Refusal)
    → (write_vacation c repo intent actor_id found s).0 ≡ refused why
    → (write_vacation c repo intent actor_id found s).1 ≡ s
unfolding write_vacation
write_vacation_refused c repo intent actor_id none s why h = refl
write_vacation_refused c repo intent actor_id (some person) s why h = cc

-- If the vacation is refused, nothing is written.
pub set_vacation_refused :
    (c : Codec) (repo : RepoPort) (intent : VacationIntent) (actor_id : Option ℕ) (is_admin : Bool)
    (s : repo.Store) (why : Refusal)
    → (set_vacation c repo intent actor_id is_admin s).0 ≡ refused why
    → (set_vacation c repo intent actor_id is_admin s).1 ≡ s
unfolding set_vacation
set_vacation_refused c repo intent actor_id is_admin s why h = ground (
  arith,
  write_vacation_refused c repo intent actor_id (repo.get_person_by_name s intent.person_name) s
      why,
)
