-- ===== src/Confirm.antt =====
-- `ConfirmPlanUseCase` of src/planner/app/confirm_plan.py over the repository. A mirror is what the
-- n-th call of a sink does: raise, answer nothing, or answer an address.
pub mod Steps
pub mod Once
pub mod Committed
use planner_dev.Prelude.{
  ℕ, suc, ◌+◌, ◌-◌, String, not, Option, none, some, List, [], ◌∷◌, length, if◌then◌else◌, nat_eq,
  string_eq, ok, err,
}
use planner_dev.Prelude.Dict.{Dict, get, get_or, put}
use planner_dev.Models.{Assignment}
use planner_dev.Payload.Json.{Codec}
use planner_dev.Payload.Reading.{deserialize_plan}
use planner_dev.Database.{Database, Env}
use planner_dev.Database.Records.{PersonRecord, PlanVersionRecord, ProjectRecord, TextOps}
use planner_dev.Database.People.{list_people}
use planner_dev.Database.Plans.{get_plan_version, transition_plan_status}
use planner_dev.Database.Projects.{get_project, set_project_status}
use planner_dev.Database.Work.{get_task_name_map}
use planner_dev.Database.Boards.{add_audit}

pub record SinkTask : Type 0 where
  pub title : String
  pub assignees : List String
  pub project : Option String
  pub deadline : Option ℕ
  pub time_start : Option ℕ

pub data Push : Type 0 where
  raised : Push
  missing : Push
  url : String → Push

-- A sink that is configured; one that is not, or does nothing, is `none`.
abbrev pub TaskSink : Type 0
TaskSink = ℕ → SinkTask → Push

pub data ConfirmError : Type 0 where
  plan_not_found : ConfirmError
  plan_not_proposed : String → ConfirmError

pub record ConfirmResult : Type 0 where
  pub plan : PlanVersionRecord
  pub mirror_total : ℕ
  pub mirror_failed : ℕ

pub data ConfirmAnswer : Type 0 where
  confirmed : ConfirmResult → ConfirmAnswer
  refused : ConfirmError → ConfirmAnswer

abbrev pub status_or_missing : Option PlanVersionRecord → String
status_or_missing none = "missing"
status_or_missing (some pv) = pv.status

abbrev pub title_of : Option ProjectRecord → String
title_of none = "Проект"
title_of (some p) = p.title

-- `{p.id: p.name for p in people}`
unfoldable pub people_names : Dict ℕ String → List PersonRecord → Dict ℕ String
people_names d [] = d
people_names d (p ∷ l) = people_names (put d p.id p.name) l

-- `[people[id]] if id in people else []`
abbrev pub name_list : Dict ℕ String → ℕ → List String
name_list people id = elim (get people id) [ none ↦ [] | some name ↦ name ∷ [] ]

-- The loop of `_mirror_tasks` from the n-th task on: how many tasks were mirrored. A call that raises
-- ends it.
unfoldable pub push_all :
    TaskSink → (title : String) → (names people : Dict ℕ String) → ℕ → List Assignment → ℕ
push_all sink title names people n [] = 0
push_all sink title names people n (a ∷ l) =
    let rest = push_all sink title names people (n + 1) l in
    let task : SinkTask = record {
      title = get_or names a.task_id "Задача";
      assignees = name_list people a.person_id;
      project = some title;
      deadline = some a.end_date;
      time_start = none;
    } in
    elim (sink n task) [ raised ↦ 0 | missing ↦ rest | url u ↦ suc rest ]

module _ (env : Env) (c : Codec) (text : TextOps) where
  -- The failed and all tasks of the mirror; a payload that cannot be read has none.
  unfoldable pub mirror_tasks : Database → Option TaskSink → PlanVersionRecord → ℕ × ℕ
  unfolding push_all people_names
  mirror_tasks db none pv = (0, 0)
  mirror_tasks db (some sink) pv =
      let title = title_of (get_project db pv.project_id) in
      let names = get_task_name_map db in
      let people = people_names [] (list_people text db) in
      elim (deserialize_plan c pv.payload) [
        | err e ↦ (0, 0)
        | ok plan ↦
            let total = length plan.assignments in
            (total - push_all sink title names people 0 plan.assignments, total)
      ]

  -- `execute` behind its first read, for a version of that status.
  unfoldable pub commit :
      Database
      → PlanVersionRecord
      → (actor_id : Option ℕ) → Option TaskSink
      → ConfirmAnswer × Database
  unfolding mirror_tasks
  commit db pv actor_id sink =
      let moved = transition_plan_status db pv.id "proposed" "committed" in
      if not moved.0
      then (
        refused (plan_not_proposed (status_or_missing (get_plan_version moved.1 pv.id))),
        moved.1,
      )
      else let audited = add_audit env moved.1 (record {
        actor_id = actor_id;
        action = "confirm_plan";
        entity_type = "plan_version";
        entity_id = some pv.id;
        payload = none;
      }) in
        let db' = set_project_status audited pv.project_id "committed" in
        let mirrored = mirror_tasks db' sink pv in
        (
          confirmed (record {
            plan = record pv { status = "committed" };
            mirror_total = mirrored.1;
            mirror_failed = mirrored.0;
          }),
          db',
        )

  unfoldable pub confirm :
      Database
      → (plan_version_id : ℕ) → (actor_id : Option ℕ) → Option TaskSink
      → ConfirmAnswer × Database
  unfolding commit
  confirm db plan_version_id actor_id sink = elim (get_plan_version db plan_version_id) [
    | none ↦ (refused plan_not_found, db)
    | some pv ↦ commit db pv actor_id sink
  ]
