-- ===== src/Tests/Vacations.antt =====
-- Vacations over the repository of a store with two people.
use planner_dev.Prelude.{◌≡◌, refl, none, some, [], ◌∷◌, arith, true, false, string_eq}
use planner_dev.Prelude.Int.{pos}
use planner_dev.Prelude.Dict.{put, get}
use planner_dev.Database.{Database}
use planner_dev.Database.Tables.{PersonRow}
use planner_dev.Database.People.{get_person_by_name, person_record}
use planner_dev.Vacation.{VacationIntent, reversed_range, sql_repo, set_vacation}
use planner_dev.Vacation.Writes.{Written, set_vacation-Written, set_vacation_refused}
use planner_dev.Tests.Snapshots.{tally}
use planner_dev.Tests.Stores.{env, text, store}

abbrev ann : PersonRow
ann = record {
  id = 1;
  tg_user_id = some 7;
  name = "Ann";
  role_label = none;
  capacity_h = 8;
  is_admin = true;
  is_active = true;
  is_external = false;
}

abbrev bob : PersonRow
bob = record ann { id = 2; tg_user_id = none; name = "Bob"; capacity_h = 6; is_admin = false }

-- Bob has a short day already.
abbrev staffed : Database
staffed = record store {
  people = ann ∷ bob ∷ [];
  day_overrides = record { person_id = 2; day = 4; capacity_h = pos 4; reason = none } ∷ [];
}

abbrev leave : VacationIntent
leave = record { person_name = "Bob"; day_from = 3; day_to = 5; capacity_h = pos 2 }

abbrev backwards : VacationIntent
backwards = record { person_name = "Bob"; day_from = 5; day_to = 3; capacity_h = pos 0 }

set_vacation-Written_example :
    Written tally env leave
      (some 1)
      2
      staffed
      (set_vacation tally (sql_repo env text) leave (some 1) true staffed)
set_vacation-Written_example =
    set_vacation-Written tally env text leave (some 1) (person_record bob) staffed (omega arith)
      (omega arith) refl (omega arith) known
  where
    known : get_person_by_name text staffed "Bob" ≡ some (person_record bob)
    known = unfold get_person_by_name put get in refl

set_vacation_refused_example :
    (set_vacation tally (sql_repo env text) backwards (some 1) true staffed).1 ≡ staffed
unfolding set_vacation
set_vacation_refused_example =
    set_vacation_refused tally (sql_repo env text) backwards (some 1) true staffed reversed_range
      refl
