-- ===== src/Confirm/Steps.antt =====
-- The steps of a confirmation (src/planner/app/confirm_plan.py).
use planner_dev.Prelude.{
  ℕ, ◌≡◌, refl, ap, Bool, true, false, not, ◌&&◌, ◌||◌, Option, none, some, List, [], ◌∷◌, ◌==◌,
  nat_eq, nat_beq_iff, string_eq, arith, Bool-cases, inl, inr,
}
use planner_dev.Payload.Json.{Codec}
use planner_dev.Database.{Database, Env}
use planner_dev.Database.Tables.{PlanVersionRow}
use planner_dev.Database.Rows.{change_rows, any_row}
use planner_dev.Database.RowLaws.{change_rows_none}
use planner_dev.Database.Records.{PlanVersionRecord, TextOps}
use planner_dev.Database.Plans.{get_plan_version, transition_plan_status, is_version_in}
use planner_dev.Database.Projects.{set_project_status}
use planner_dev.Database.Boards.{add_audit}
use planner_dev.Confirm.{
  TaskSink, ConfirmAnswer, confirmed, refused, ConfirmError, commit, confirm, plan_not_found,
}

-- Whether a version may be confirmed: it is there as proposed.
abbrev pub is_proposed : Database → ℕ → Bool
is_proposed db v = any_row (is_version_in v "proposed") db.plan_versions

-- After the transition of `w` the others are proposed as before, and `w` is not.
pub proposed_after :
    (v w : ℕ) (l : List PlanVersionRow)
    → any_row
        (is_version_in v "proposed")
        (change_rows (is_version_in w "proposed") (λ pv. record pv { status = "committed" }) l)
      ≡ (any_row (is_version_in v "proposed") l && not (v == w))
unfolding any_row change_rows
proposed_after v w [] = refl
proposed_after v w (pv ∷ l) = elim (Bool-cases (is_version_in w "proposed" pv)) [
  | inl moves ↦
      rw (moves, proposed_after v w l)
        (moved_case (pv.id == v) (pv.id == w) (v == w) (pv.status == "proposed")
          (any_row (is_version_in v "proposed") l) moves
          (ground (arith, nat_beq_iff pv.id v, nat_beq_iff pv.id w, nat_beq_iff v w)))
  | inr stays ↦
      rw (stays, proposed_after v w l)
        (stayed_case (pv.id == v) (pv.id == w) (v == w) (pv.status == "proposed")
          (any_row (is_version_in v "proposed") l) stays
          (ground (arith, nat_beq_iff pv.id v, nat_beq_iff pv.id w, nat_beq_iff v w)))
]
  where
    moved_case :
        (a b e p m : Bool)
        → (b && p) ≡ true
        → (b ≡ true → a ≡ e)
        → ((a && false) || (m && not e)) ≡ (((a && p) || m) && not e)
    moved_case a b e p m h k = ground (arith, k)

    stayed_case :
        (a b e p m : Bool)
        → (b && p) ≡ false
        → (a ≡ true → b ≡ e)
        → ((a && p) || (m && not e)) ≡ (((a && p) || m) && not e)
    stayed_case a b e p m h k = ground (arith, k)

abbrev pub is_confirmed : ConfirmAnswer → Bool
is_confirmed (confirmed r) = true
is_confirmed (refused e) = false

module _ (env : Env) (c : Codec) (text : TextOps) where
  pub commit-plan_versions :
      (db : Database) (pv : PlanVersionRecord) (actor_id : Option ℕ) (sink : Option TaskSink)
      → (commit env c text db pv actor_id sink).1.plan_versions
        ≡ change_rows
            (is_version_in pv.id "proposed")
            (λ (v : PlanVersionRow). record v { status = "committed" })
            db.plan_versions
  unfolding commit transition_plan_status add_audit set_project_status
  commit-plan_versions db pv actor_id sink = elim (Bool-cases (is_proposed db pv.id)) [
    | inl moved ↦ rw moved refl
    | inr stays ↦ rw stays refl
  ]

  pub commit-is_confirmed :
      (db : Database) (pv : PlanVersionRecord) (actor_id : Option ℕ) (sink : Option TaskSink)
      → is_confirmed (commit env c text db pv actor_id sink).0 ≡ is_proposed db pv.id
  unfolding commit transition_plan_status
  commit-is_confirmed db pv actor_id sink = elim (Bool-cases (is_proposed db pv.id)) [
    | inl moved ↦ rw moved refl
    | inr stays ↦ rw stays refl
  ]

  pub commit_refused :
      (db : Database) (pv : PlanVersionRecord) (actor_id : Option ℕ) (sink : Option TaskSink)
      (why : ConfirmError)
      → (commit env c text db pv actor_id sink).0 ≡ refused why
      → (commit env c text db pv actor_id sink).1 ≡ db
  unfolding commit transition_plan_status
  commit_refused db pv actor_id sink why h = elim (Bool-cases (is_proposed db pv.id)) [
    | inl moved ↦ let h' = rw moved at h in cc
    | inr stays ↦ rw stays (
        ap (λ (l : List PlanVersionRow). record db { plan_versions = l })
          (change_rows_none (is_version_in pv.id "proposed")
            (λ (v : PlanVersionRow). record v { status = "committed" }) db.plan_versions stays))
  ]

  pub confirm_found :
      (db : Database) (v : ℕ) (pv : PlanVersionRecord) (actor_id : Option ℕ)
      (sink : Option TaskSink)
      → get_plan_version db v ≡ some pv
      → confirm env c text db v actor_id sink ≡ commit env c text db pv actor_id sink
  unfolding confirm
  confirm_found db v pv actor_id sink h = rw (h, confirm) refl

  pub confirm_missing :
      (db : Database) (v : ℕ) (actor_id : Option ℕ) (sink : Option TaskSink)
      → get_plan_version db v ≡ none
      → confirm env c text db v actor_id sink ≡ (refused plan_not_found, db)
  unfolding confirm
  confirm_missing db v actor_id sink h = rw (h, confirm) refl
