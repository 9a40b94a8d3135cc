-- ===== src/Greedy/Dependencies.antt =====
-- What a plan of `GreedySolver.plan` (src/planner/domain/solver/greedy.py) guarantees about the
-- dependencies of the request.
use planner_dev.Prelude.{
  ℕ, ◌+◌, ◌≤◌, ◌≡◌, sym, ap, ◌∙◌, subst, Bool, true, false, some, List, [], ◌∷◌, arith, ltb,
  if◌then◌else◌, nat_eq, nat_beq_iff, string_eq, ◌==◌, is_some, get_elem?, inl, inr, Bool-cases,
  Option-cases, Result, ok, ltb→ge,
}
use planner_dev.Prelude.Dict.{Dict, get, get-put}
use planner_dev.Calendar.{WorkingCalendar, first_working_day, nth_working_day}
use planner_dev.Calendar.Working.{working_days, working_days-le, working_days-nth_working_day}
use planner_dev.Calendar.Laws.{IsCalendar, first_working_day-le, nth_working_day-le}
use planner_dev.Models.{Task, Dependency, Assignment, PlanRequest, PlanResult}
use planner_dev.Networkx.{Networkx, NetworkxLaws}
use planner_dev.Greedy.{Schedule, initial, plan, pinned, pin_done}
use planner_dev.Greedy.Dag.{build_dag, candidate}
use planner_dev.Greedy.Choice.{index_tasks}
use planner_dev.Greedy.Starts.{Allows}
use planner_dev.Greedy.Steps.{Step, skipped, placing, schedule_all_ind}
use planner_dev.Greedy.Edges.{dependency_of, edge_of, edge-build_dag}
use planner_dev.Greedy.Precedence.{IsRespectful, IsRespectful-Step, placed_here, placed_other}
use planner_dev.Greedy.Run.{
  IsRun, plan-IsRun, is_pinned, assigned-initial, index_tasks-IsKeyed_nil, returned-IsEntry, pin,
  pin_done_free, pin_done_fixed,
}

-- The first day that a link to `a` leaves open, before its lag: the day behind the end over `FS`, the
-- start over any other link.
abbrev pub open_day : Dependency → Assignment → ℕ
open_day d a = if d.link_type == "FS" then a.end_date + 1 else a.start_date

-- The successor does not start before that day, and a lag of n leaves at least n - 1 working days
-- between, that day counted and the start of the successor not.
abbrev pub Behind : WorkingCalendar → Dependency → Assignment → Assignment → Type 0
Behind calendar d a b =
    (open_day d a ≤ b.start_date)
    × (d.lag_working_days ≤ working_days calendar (open_day d a) b.start_date + 1)

module _ (calendar : WorkingCalendar) (laws : IsCalendar calendar) where
  shifted : ℕ → ℕ → Result ℕ
  shifted base lag =
      if ltb 0 lag then nth_working_day calendar base lag else ok (first_working_day calendar base)

  -- A day shifted by the lag from one that is not before `from`.
  shifted-le :
      (from base lag c start : ℕ)
      → from ≤ base
      → shifted base lag ≡ ok c
      → c ≤ start
      → (from ≤ start) × (lag ≤ working_days calendar from start + 1)
  unfolding shifted
  shifted-le from base lag c start after h le = elim (Bool-cases (ltb 0 lag)) [
    | inl some_lag ↦
        let e = rw some_lag at h in
        let low = nth_working_day-le laws base lag c e in
        let wider = working_days-le calendar from base c start after (omega (arith, low)) le in
        (
          omega (arith, after, low, le),
          omega (arith, working_days-nth_working_day laws base lag c e, wider),
        )
    | inr no_lag ↦
        let e = rw no_lag at h in
        let same : first_working_day calendar base ≡ c = cc in
        (
          omega (arith, same, after, le, first_working_day-le laws base),
          omega (arith, ltb→ge 0 lag no_lag),
        )
  ]

  Allows→Behind :
      (d : Dependency) (a b : Assignment)
      → Allows calendar (edge_of d) a b.start_date
      → Behind calendar d a b
  unfolding candidate
  Allows→Behind d a b (c, e, le) = elim (Bool-cases (d.link_type == "FS")) [
    | inl fs ↦ rw fs (
        shifted-le (a.end_date + 1) (calendar.next_working_day a.end_date) d.lag_working_days c
          b.start_date (omega (arith, laws.later a.end_date)) (unfold shifted in (rw fs at e)) le)
    | inr ss ↦ rw ss (
        shifted-le a.start_date a.start_date d.lag_working_days c b.start_date (omega arith)
          (unfold shifted in (rw ss at e)) le)
  ]

-- Every assignment of a state stands under the identifier of its task.
abbrev pub IsLabelled : Schedule → Type 0
IsLabelled s = (tid : ℕ) (a : Assignment) → get s.assignments tid ≡ some a → a.task_id ≡ tid

pinned-task_id : (t : Task) (a : Assignment) → pinned t ≡ some a → a.task_id ≡ t.id
unfolding pinned
pinned-task_id t a h = ground arith

pin-IsLabelled :
    (s : Schedule) (t : Task) (a : Assignment)
    → a.task_id ≡ t.id
    → IsLabelled s
    → IsLabelled (pin s t a)
pin-IsLabelled s t a same h tid b e =
    ground (arith, get-put s.assignments t.id tid a, nat_beq_iff t.id tid, h tid b)

pin_done-IsLabelled : (l : List Task) (s : Schedule) → IsLabelled s → IsLabelled (pin_done s l)
pin_done-IsLabelled [] s h = unfold pin_done in h
pin_done-IsLabelled (t ∷ l) s h = elim (Option-cases (pinned t)) [
  | inl free ↦ rw (pin_done_free s t l free) (pin_done-IsLabelled l s h)
  | inr (a, fixed) ↦
      rw (pin_done_fixed s t l a fixed)
        (pin_done-IsLabelled l (pin s t a) (pin-IsLabelled s t a (pinned-task_id t a fixed) h))
]

pub initial-IsLabelled :
    (calendar : WorkingCalendar) (req : PlanRequest) → IsLabelled (initial calendar req)
unfolding initial get
initial-IsLabelled calendar req = pin_done-IsLabelled req.tasks _ (λ tid a e. cc)

module _ (nx : Networkx) (calendar : WorkingCalendar) (req : PlanRequest) (graph : nx.DiGraph)
    (tasks_by_id : Dict ℕ Task) where
  pub IsLabelled-Step :
      (tid : ℕ) (s s' : Schedule)
      → Step nx calendar req graph tasks_by_id tid s s'
      → IsLabelled s
      → IsLabelled s'
  IsLabelled-Step tid s s' (skipped same known) h = subst IsLabelled same h
  IsLabelled-Step tid s s' (placing p) h = subst IsLabelled p.result (λ v b e.
      elim (Bool-cases (tid == v)) [
        | inl here ↦
            let new = placed_here tid v s p.placed b here e in
            subst (λ (c : Assignment). c.task_id ≡ v) new ((nat_beq_iff tid v).0 here)
        | inr other ↦ h v b (placed_other tid v s p.placed b other e)
      ])

-- The invariant of the loop, over the graph of the request.
abbrev Inv :
    (nx : Networkx) (calendar : WorkingCalendar) (req : PlanRequest) → List ℕ → Schedule → Type 0
Inv nx calendar req l s =
    IsRespectful nx (build_dag nx req.tasks req.dependencies) calendar (is_pinned req.tasks) l s
    × IsLabelled s

module _ (nx : Networkx) (nx_laws : NetworkxLaws nx) (calendar : WorkingCalendar)
    (laws : IsCalendar calendar) (req : PlanRequest) (r : PlanResult)
    (run : IsRun nx calendar req r) where
  Inv-initial : Inv nx calendar req run.order (initial calendar req)
  Inv-initial = (
    record {
      respected = λ u v a b free e ea eb. absurd (clash free (fixed_at v b eb));
      waiting = λ u v b m e eb. fixed_at v b eb;
      forward = λ u v e m.
          nx_laws.order-edges (build_dag nx req.tasks req.dependencies) run.order run.sorted u v e;
      nodup = nx_laws.order-nodup (build_dag nx req.tasks req.dependencies) run.order run.sorted;
    },
    initial-IsLabelled calendar req,
  )
    where
      clash : {b : Bool} → b ≡ false → b ≡ true → ⊥
      clash p q = cc

      fixed_at :
          (v : ℕ) (b : Assignment)
          → get (initial calendar req).assignments v ≡ some b
          → is_pinned req.tasks v ≡ true
      fixed_at v b e = sym (assigned-initial calendar req v) ∙ ap is_some e

  Inv-final : Inv nx calendar req [] run.state
  Inv-final =
      let g = build_dag nx req.tasks req.dependencies in
      let by_id = index_tasks [] req.tasks in
      schedule_all_ind nx calendar req g by_id (Inv nx calendar req)
        (λ tid l s s' step inv. (
          IsRespectful-Step nx nx_laws g calendar laws req by_id (index_tasks-IsKeyed_nil req.tasks)
              (is_pinned req.tasks) tid l s s' step inv.0,
          IsLabelled-Step nx calendar req g by_id tid s s' step inv.1,
        ))
        run.order (initial calendar req) run.state Inv-initial run.runs

  Behind-at :
      (u v : ℕ) (a b : Assignment) (d : Dependency)
      → get run.state.assignments u ≡ some a
      → get run.state.assignments v ≡ some b
      → dependency_of req.dependencies a.task_id b.task_id ≡ some d
      → is_pinned req.tasks b.task_id ≡ false
      → Behind calendar d a b
  Behind-at u v a b d ea eb dep free =
      let (inv, labelled) = Inv-final in
      let same_u = labelled u a ea in
      let same_v = labelled v b eb in
      let g = build_dag nx req.tasks req.dependencies in
      let edge : nx.edge g a.task_id b.task_id ≡ some (edge_of d) =
        edge-build_dag nx nx_laws req.tasks req.dependencies a.task_id b.task_id ∙ rw dep in
      let r =
        inv.respected a.task_id b.task_id a b free (ap is_some edge)
          (ap (get run.state.assignments) same_u ∙ ea)
          (ap (get run.state.assignments) same_v ∙ eb) in
      let x_same : r.0 ≡ edge_of d = cc in
      Allows→Behind calendar laws d a b (subst (λ x. Allows calendar x a b.start_date) x_same r.2)

-- In a plan every dependency between two planned tasks is kept, unless its second task was pinned as
-- done: over `FS` the second task starts behind the day on which the first one ends, over any other
-- link not before the first one starts; and of a lag of n working days at least n - 1 lie from there
-- up to the start of the second task, that day not counted. Of several dependencies between the same
-- two tasks the last one counts. It is assumed that networkx sorts as documented, and that the
-- calendar finds the next working day.
pub plan-Behind :
    (nx : Networkx) (nx_laws : NetworkxLaws nx) (calendar : WorkingCalendar)
    (laws : IsCalendar calendar) (req : PlanRequest) (r : PlanResult) (a b : Assignment)
    (d : Dependency) (i j : ℕ)
    → plan nx calendar req ≡ ok r
    → get_elem? r.assignments i ≡ some a
    → get_elem? r.assignments j ≡ some b
    → dependency_of req.dependencies a.task_id b.task_id ≡ some d
    → is_pinned req.tasks b.task_id ≡ false
    → Behind calendar d a b
plan-Behind nx nx_laws calendar laws req r a b d i j h ea eb dep free =
    let run = plan-IsRun nx calendar req r h in
    let (u, eu) = returned-IsEntry nx calendar req r run i a ea in
    let (v, ev) = returned-IsEntry nx calendar req r run j b eb in
    Behind-at nx nx_laws calendar laws req r run u v a b d eu ev dep free
