-- ===== src/Vacation/Overrides.antt =====
-- The capacities of single days, and what `upsert_day_override` of src/planner/infra/db/repo.py makes of
-- them.
use planner_dev.Prelude.{
  ℕ, ◌≡◌, refl, ap, ◌∙◌, true, false, ◌&&◌, Option, none, some, ◌∷◌, if◌then◌else◌, ◌==◌, nat_eq,
  nat_beq_iff, arith, List, [], ◌++◌, String, Bool-cases, inl, inr, is_some, sym,
}
use planner_dev.Prelude.Int.{ℤ}
use planner_dev.Database.{Database}
use planner_dev.Database.Tables.{DayOverrideRow}
use planner_dev.Database.Rows.{find_row, any_row, change_rows}
use planner_dev.Database.RowLaws.{is_some-find_row}
use planner_dev.Database.People.{is_override, upsert_day_override}

-- The capacity that the table holds for a person and a day.
abbrev pub capacity_h_of : Option DayOverrideRow → Option ℤ
capacity_h_of none = none
capacity_h_of (some o) = some o.capacity_h

abbrev pub capacity_on : List DayOverrideRow → ℕ → ℕ → Option ℤ
capacity_on rows person_id day = capacity_h_of (find_row (is_override person_id day) rows)

-- Whose day an override is decides whether it is found.
capacity_on-append :
    (rows : List DayOverrideRow) (o : DayOverrideRow) (q d : ℕ)
    → any_row (is_override o.person_id o.day) rows ≡ false
    → capacity_on (rows ++ o ∷ []) q d
      ≡ (if is_override q d o then some o.capacity_h else capacity_on rows q d)
unfolding find_row any_row
capacity_on-append [] o q d h = ground arith
capacity_on-append (x ∷ rows) o q d h = ground (
  arith,
  capacity_on-append rows o q d,
  nat_beq_iff x.person_id q,
  nat_beq_iff x.day d,
  nat_beq_iff o.person_id q,
  nat_beq_iff o.day d,
  nat_beq_iff x.person_id o.person_id,
  nat_beq_iff x.day o.day,
)

-- An override with another capacity and reason.
abbrev overridden : ℤ → Option String → DayOverrideRow → DayOverrideRow
overridden hours reason o = record o { capacity_h = hours; reason = reason }

is_override_trans :
    (x : DayOverrideRow) (pid day q d : ℕ)
    → is_override pid day x ≡ true
    → is_override q d x ≡ ((pid == q) && (day == d))
is_override_trans x pid day q d h = grind (
  arith,
  nat_beq_iff x.person_id q,
  nat_beq_iff x.day d,
  nat_beq_iff x.person_id pid,
  nat_beq_iff x.day day,
  nat_beq_iff pid q,
  nat_beq_iff day d,
)

capacity_on-change_rows_same :
    (rows : List DayOverrideRow) (pid day : ℕ) (hours : ℤ) (reason : Option String)
    → any_row (is_override pid day) rows ≡ true
    → capacity_on (change_rows (is_override pid day) (overridden hours reason) rows) pid day
      ≡ some hours
unfolding find_row any_row change_rows
capacity_on-change_rows_same [] pid day hours reason h = cc
capacity_on-change_rows_same (x ∷ rows) pid day hours reason h =
    elim (Bool-cases (is_override pid day x)) [
      | inl found ↦ rw (found, found) refl
      | inr other ↦
          rw (other, other) (capacity_on-change_rows_same rows pid day hours reason (rw other at h))
    ]

capacity_on-change_rows_other :
    (rows : List DayOverrideRow) (pid day q d : ℕ) (hours : ℤ) (reason : Option String)
    → ((pid == q) && (day == d)) ≡ false
    → capacity_on (change_rows (is_override pid day) (overridden hours reason) rows) q d
      ≡ capacity_on rows q d
unfolding find_row change_rows
capacity_on-change_rows_other [] pid day q d hours reason h = refl
capacity_on-change_rows_other (x ∷ rows) pid day q d hours reason h =
    elim (Bool-cases (is_override pid day x)) [
      | inl found ↦
          let away = is_override_trans x pid day q d found ∙ h in
          rw (found, away) (capacity_on-change_rows_other rows pid day q d hours reason h)
      | inr other ↦ ground (arith, capacity_on-change_rows_other rows pid day q d hours reason h)
    ]

pub capacity_on-upsert_day_override :
    (db : Database) (pid day q d : ℕ) (hours : ℤ) (reason : Option String)
    → capacity_on (upsert_day_override db pid day hours reason).day_overrides q d
      ≡ (if (pid == q) && (day == d) then some hours else capacity_on db.day_overrides q d)
unfolding upsert_day_override
capacity_on-upsert_day_override db pid day q d hours reason =
    found_or_not (find_row (is_override pid day) db.day_overrides) refl
  where
    known :
        (found : Option DayOverrideRow)
        → find_row (is_override pid day) db.day_overrides ≡ found
        → any_row (is_override pid day) db.day_overrides ≡ is_some found
    known found e = sym (is_some-find_row (is_override pid day) db.day_overrides) ∙ ap is_some e

    changed :
        any_row (is_override pid day) db.day_overrides ≡ true
        → capacity_on
            (change_rows (is_override pid day) (overridden hours reason) db.day_overrides)
            q
            d
          ≡ (if (pid == q) && (day == d) then some hours else capacity_on db.day_overrides q d)
    changed any = elim (Bool-cases ((pid == q) && (day == d))) [
      | inl same ↦
          let p : pid ≡ q = grind (arith, nat_beq_iff pid q, nat_beq_iff day d) in
          let e : day ≡ d = grind (arith, nat_beq_iff pid q, nat_beq_iff day d) in
          rw (same, ← p, ← e)
            (capacity_on-change_rows_same db.day_overrides pid day hours reason any)
      | inr other ↦
          rw other (capacity_on-change_rows_other db.day_overrides pid day q d hours reason other)
    ]

    found_or_not :
        (found : Option DayOverrideRow)
        → find_row (is_override pid day) db.day_overrides ≡ found
        → capacity_on (upsert_day_override db pid day hours reason).day_overrides q d
          ≡ (if (pid == q) && (day == d) then some hours else capacity_on db.day_overrides q d)
    found_or_not none e =
        rw (upsert_day_override, e)
          (capacity_on-append db.day_overrides
            (record { person_id = pid; day = day; capacity_h = hours; reason = reason }) q d
            (known none e))
    found_or_not (some o) e = rw (upsert_day_override, e) (changed (known (some o) e))

-- Only the overrides change.
pub upsert_day_override-others :
    (db : Database) (pid day : ℕ) (hours : ℤ) (reason : Option String)
    → upsert_day_override db pid day hours reason
      ≡ record db { day_overrides = (upsert_day_override db pid day hours reason).day_overrides }
unfolding upsert_day_override
upsert_day_override-others db pid day hours reason =
    found_or_not (find_row (is_override pid day) db.day_overrides) refl
  where
    found_or_not :
        (found : Option DayOverrideRow)
        → find_row (is_override pid day) db.day_overrides ≡ found
        → upsert_day_override db pid day hours reason ≡ record db {
          day_overrides = (upsert_day_override db pid day hours reason).day_overrides;
        }
    found_or_not none e = rw (upsert_day_override, e) refl
    found_or_not (some o) e = rw (upsert_day_override, e) refl
