-- ===== src/Confirm/Once.antt =====
-- How often a plan version is confirmed (src/planner/app/confirm_plan.py).
use planner_dev.Prelude.{
  ℕ, suc, ◌≤◌, ◌≡◌, refl, sym, ap, ◌∙◌, Bool, true, false, not, ◌&&◌, Option, none, some, List, [],
  ◌∷◌, if◌then◌else◌, ◌==◌, nat_eq, nat_beq_iff, string_eq, arith, Bool-cases, Option-cases, inl,
  inr,
}
use planner_dev.Payload.Json.{Codec}
use planner_dev.Database.{Database, Env}
use planner_dev.Database.Tables.{PlanVersionRow}
use planner_dev.Database.Rows.{find_row, any_row}
use planner_dev.Database.RowLaws.{find_row-true}
use planner_dev.Database.Records.{PlanVersionRecord, TextOps}
use planner_dev.Database.Plans.{get_plan_version, is_version_in, plan_version_record}
use planner_dev.Confirm.{TaskSink, ConfirmAnswer, refused, ConfirmError, confirm}
use planner_dev.Confirm.Steps.{
  is_proposed, proposed_after, is_confirmed, commit-plan_versions, commit-is_confirmed,
  commit_refused, confirm_found, confirm_missing,
}

module _ (env : Env) (c : Codec) (text : TextOps) where
  -- A version that is not there is not proposed.
  not_proposed :
      (w : ℕ) (l : List PlanVersionRow)
      → find_row (λ pv. pv.id == w) l ≡ none
      → any_row (is_version_in w "proposed") l ≡ false
  unfolding find_row any_row
  not_proposed w [] h = refl
  not_proposed w (pv ∷ l) h = ground (arith, not_proposed w l)

  missing_row :
      (db : Database) (w : ℕ)
      → get_plan_version db w ≡ none
      → find_row (λ pv. pv.id == w) db.plan_versions ≡ none
  unfolding get_plan_version
  missing_row db w h = elim (Option-cases (find_row (λ v. v.id == w) db.plan_versions)) [
    | inl absent ↦ absent
    | inr (row, found) ↦ let h' = rw found at h in cc
  ]

  found_id :
      (db : Database) (w : ℕ) (pv : PlanVersionRecord) → get_plan_version db w ≡ some pv → pv.id ≡ w
  unfolding get_plan_version
  found_id db w pv h = elim (Option-cases (find_row (λ v. v.id == w) db.plan_versions)) [
    | inl absent ↦ let h' = rw absent at h in cc
    | inr (row, found) ↦
        let h' = rw found at h in
        let same : plan_version_record row ≡ pv = cc in
        ap (λ (r : PlanVersionRecord). r.id) (sym same)
        ∙ (nat_beq_iff row.id w).0 (find_row-true (λ v. v.id == w) db.plan_versions row found)
  ]

  gone_or_kept :
      (db : Database) (v w : ℕ)
      → is_proposed db w ≡ false
      → is_proposed db v ≡ (is_proposed db v && not (v == w))
  gone_or_kept db v w h = elim (Bool-cases (v == w)) [
    | inl same ↦
        let gone : is_proposed db v ≡ false = ap (is_proposed db) ((nat_beq_iff v w).0 same) ∙ h in
        rw (same, gone) refl
    | inr other ↦ rw other (kept (is_proposed db v))
  ]
    where
      kept : (b : Bool) → b ≡ (b && true)
      kept b = ground arith

  -- What a call does to the proposed versions: `w` is proposed no more, and was confirmed if it was.
  confirm_step :
      (db : Database) (v w : ℕ) (actor_id : Option ℕ) (sink : Option TaskSink)
      → let r = confirm env c text db w actor_id sink in
        (is_confirmed r.0 ≡ is_proposed db w)
        × (is_proposed r.1 v ≡ (is_proposed db v && not (v == w)))
  confirm_step db v w actor_id sink = elim (Option-cases (get_plan_version db w)) [
    | inl absent ↦
        let none_proposed = not_proposed w db.plan_versions (missing_row db w absent) in
        rw (confirm_missing env c text db w actor_id sink absent)
          (sym none_proposed, gone_or_kept db v w none_proposed)
    | inr (pv, found) ↦
        let same : pv.id ≡ w = found_id db w pv found in
        rw (confirm_found env c text db w pv actor_id sink found) (
          commit-is_confirmed env c text db pv actor_id sink ∙ ap (is_proposed db) same,
          ap (any_row (is_version_in v "proposed"))
                (commit-plan_versions env c text db pv actor_id sink)
              ∙ (proposed_after v pv.id db.plan_versions
                  ∙ ap (λ x. is_proposed db v && not (v == x)) same),
        )
  ]

  -- How often version `v` is confirmed by some calls, each for a version, by an actor, with a sink.
  unfoldable pub confirmations : (v : ℕ) → Database → List (ℕ × Option ℕ × Option TaskSink) → ℕ
  confirmations v db [] = 0
  confirmations v db ((w, actor_id, sink) ∷ l) =
      let r = confirm env c text db w actor_id sink in
      let rest = confirmations v r.1 l in if (v == w) && is_confirmed r.0 then suc rest else rest

  -- However the confirmations of plan versions follow one another, with whatever actors and mirrors,
  -- each version is confirmed at most once, and never if it is not proposed at the start.
  pub confirmations-le :
      (v : ℕ) (db : Database) (l : List (ℕ × Option ℕ × Option TaskSink))
      → confirmations v db l ≤ (if is_proposed db v then 1 else 0)
  unfolding confirmations
  confirmations-le v db [] = ground arith
  confirmations-le v db ((w, actor_id, sink) ∷ l) =
      let (said, left) = confirm_step db v w actor_id sink in
      let r = confirm env c text db w actor_id sink in
      let rest = confirmations-le v r.1 l in
      elim (Bool-cases (v == w)) [
        | inl own ↦
            let here : is_proposed db w ≡ is_proposed db v =
              ap (is_proposed db) (sym ((nat_beq_iff v w).0 own)) in
            ground (arith, said, left, rest, here)
        | inr other ↦ ground (arith, left, rest)
      ]

  -- If a confirmation is refused, the state is as before.
  pub confirm_refused :
      (db : Database) (v : ℕ) (actor_id : Option ℕ) (sink : Option TaskSink) (why : ConfirmError)
      → (confirm env c text db v actor_id sink).0 ≡ refused why
      → (confirm env c text db v actor_id sink).1 ≡ db
  confirm_refused db v actor_id sink why h = elim (Option-cases (get_plan_version db v)) [
    | inl absent ↦
        ap (λ (r : ConfirmAnswer × Database). r.1)
          (confirm_missing env c text db v actor_id sink absent)
    | inr (pv, found) ↦
        let same = confirm_found env c text db v pv actor_id sink found in
        ap (λ (r : ConfirmAnswer × Database). r.1) same
        ∙ commit_refused env c text db pv actor_id sink why
            (ap (λ (r : ConfirmAnswer × Database). r.0) (sym same) ∙ h)
  ]
