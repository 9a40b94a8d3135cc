-- ===== src/Greedy/Run.antt =====
-- `GreedySolver.plan` (src/planner/domain/solver/greedy.py) from its start to its result: the tasks
-- that are pinned first, the run of the loop, and the list of assignments that is returned.
use planner_dev.Prelude.{
  ℕ, ◌≡◌, sym, ◌∙◌, subst, Bool, true, false, ◌&&◌, ◌||◌, none, some, List, [], ◌∷◌, arith,
  if◌then◌else◌, nat_eq, nat_beq_iff, string_eq, ◌==◌, is_some, All, All-get_elem?, get_elem?,
  Bool-cases, Option-cases, inl, inr, ok, err, or_raise, unfeasible, or_raise-eq-ok, >>=-eq-ok,
}
use planner_dev.Prelude.Dict.{Dict, get, put, get-put}
use planner_dev.Calendar.{WorkingCalendar}
use planner_dev.Models.{Task, Assignment, PlanRequest, PlanResult}
use planner_dev.Networkx.{Networkx}
use planner_dev.Capacity.{make_index, occupy}
use planner_dev.Greedy.Dag.{build_dag}
use planner_dev.Greedy.Choice.{index_tasks}
use planner_dev.Greedy.{
  Schedule, pinned, pin_done, schedule_all, in_order, plan_result, initial, lacks_people, plan,
}
use planner_dev.Greedy.Precedence.{IsKeyed}

-- Whether an immovable task has the identifier.
abbrev pub is_pinned : List Task → ℕ → Bool
is_pinned [] v = false
is_pinned (t ∷ l) v = (is_some (pinned t) && (t.id == v)) || is_pinned l v

-- The state after an immovable task is placed.
abbrev pub pin : Schedule → Task → Assignment → Schedule
pin s t a = record { assignments = put s.assignments t.id a; idx = occupy s.idx a.allocations }

pub pin_done_free :
    (s : Schedule) (t : Task) (l : List Task) → pinned t ≡ none → pin_done s (t ∷ l) ≡ pin_done s l
unfolding pin_done
pin_done_free s t l h = rw (h, pin_done)

pub pin_done_fixed :
    (s : Schedule) (t : Task) (l : List Task) (a : Assignment)
    → pinned t ≡ some a
    → pin_done s (t ∷ l) ≡ pin_done (pin s t a) l
unfolding pin_done
pin_done_fixed s t l a h = rw (h, pin_done)

assigned-pin_done :
    (l : List Task) (s : Schedule) (v : ℕ)
    → is_some (get (pin_done s l).assignments v) ≡ (is_some (get s.assignments v) || is_pinned l v)
assigned-pin_done [] s v = unfold pin_done in ground arith
assigned-pin_done (t ∷ l) s v = elim (Option-cases (pinned t)) [
  | inl free ↦ rw (pin_done_free s t l free, free) (assigned-pin_done l s v)
  | inr (a, fixed) ↦
      rw (pin_done_fixed s t l a fixed, fixed)
        (assigned-pin_done l (pin s t a) v
          ∙ (rw (get-put s.assignments t.id v a) (cases (t.id == v) a)))
]
  where
    cases :
        (b : Bool) (a : Assignment)
        → (is_some (if b then some a else get s.assignments v) || is_pinned l v)
          ≡ (is_some (get s.assignments v) || ((true && b) || is_pinned l v))
    cases b a = ground arith

-- Before the loop exactly the immovable tasks are assigned.
pub assigned-initial :
    (calendar : WorkingCalendar) (req : PlanRequest) (v : ℕ)
    → is_some (get (initial calendar req).assignments v) ≡ is_pinned req.tasks v
unfolding initial get
assigned-initial calendar req v =
    assigned-pin_done req.tasks
      (record {
        assignments = [];
        idx = make_index req.people calendar req.day_overrides req.existing_allocations;
      })
      v

put-IsKeyed : (d : Dict ℕ Task) (t : Task) → IsKeyed d → IsKeyed (put d t.id t)
put-IsKeyed d t h tid u e = elim (Bool-cases (t.id == tid)) [
  | inl same ↦
      let now : get (put d t.id t) tid ≡ some t = rw (get-put d t.id tid t, same) in
      let got : t ≡ u = cc in subst (λ (w : Task). w.id ≡ tid) got ((nat_beq_iff t.id tid).0 same)
  | inr other ↦
      let now : get (put d t.id t) tid ≡ get d tid = rw (get-put d t.id tid t, other) in
      h tid u (sym now ∙ e)
]

index_tasks-IsKeyed : (l : List Task) (d : Dict ℕ Task) → IsKeyed d → IsKeyed (index_tasks d l)
unfolding index_tasks
index_tasks-IsKeyed [] d h = h
index_tasks-IsKeyed (t ∷ l) d h = index_tasks-IsKeyed l (put d t.id t) (put-IsKeyed d t h)

pub index_tasks-IsKeyed_nil : (l : List Task) → IsKeyed (index_tasks [] l)
unfolding get
index_tasks-IsKeyed_nil l = index_tasks-IsKeyed l [] (λ tid t e. cc)

-- What a successful run has computed.
pub record IsRun (nx : Networkx) (calendar : WorkingCalendar) (req : PlanRequest) (r : PlanResult)
    : Type 0 where
  pub order : List ℕ
  pub state : Schedule
  pub sorted : nx.topological_sort (build_dag nx req.tasks req.dependencies) ≡ some order
  pub runs :
      schedule_all nx calendar req
        (build_dag nx req.tasks req.dependencies)
        (index_tasks [] req.tasks)
        order
        (initial calendar req)
      ≡ ok state
  pub result : plan_result req.deadline order state ≡ r

pub plan-IsRun :
    (nx : Networkx) (calendar : WorkingCalendar) (req : PlanRequest) (r : PlanResult)
    → plan nx calendar req ≡ ok r
    → IsRun nx calendar req r
unfolding plan
plan-IsRun nx calendar req r h = elim (Bool-cases (lacks_people req)) [
  | inl lacking ↦ absurd (failed (rw lacking at h))
  | inr staffed ↦
      let h' = rw staffed at h in
      let graph = build_dag nx req.tasks req.dependencies in
      let (order, sorted, f) = >>=-eq-ok (or_raise unfeasible (nx.topological_sort graph)) _ h' in
      let (s, runs, g) =
        >>=-eq-ok
          (schedule_all nx calendar req graph (index_tasks [] req.tasks) order
            (initial calendar req))
          _ f in
      record {
        order = order;
        state = s;
        sorted = or_raise-eq-ok unfeasible (nx.topological_sort graph) order sorted;
        runs = runs;
        result = cc;
      }
]
  where
    failed : {A : Type 0} {a : A} {e : _} → err e ≡ ok a → ⊥
    failed p = cc

-- A fact about every entry holds of every assignment that is returned.
pub in_order-All {κ} :
    (P : Assignment → Type κ) (d : Dict ℕ Assignment)
    → ((tid : ℕ) (a : Assignment) → get d tid ≡ some a → P a)
    → (order : List ℕ) → All P (in_order d order)
unfolding in_order
in_order-All P d h [] = tt
in_order-All P d h (tid ∷ l) = elim (Option-cases (get d tid)) [
  | inl absent ↦ rw (absent, in_order) (in_order-All P d h l)
  | inr (a, present) ↦ rw (present, in_order) (h tid a present, in_order-All P d h l)
]

-- A returned assignment is an entry of the final state.
abbrev pub IsEntry : Dict ℕ Assignment → Assignment → Type 0
IsEntry d a = (tid : ℕ) × (get d tid ≡ some a)

pub returned-All {κ} :
    (nx : Networkx) (calendar : WorkingCalendar) (req : PlanRequest) (r : PlanResult)
    (run : IsRun nx calendar req r) (P : Assignment → Type κ)
    → ((tid : ℕ) (a : Assignment) → get run.state.assignments tid ≡ some a → P a)
    → All P r.assignments
unfolding plan_result
returned-All nx calendar req r run P h =
    subst (λ (q : PlanResult). All P q.assignments) run.result
      (in_order-All P run.state.assignments h run.order)

pub returned-IsEntry :
    (nx : Networkx) (calendar : WorkingCalendar) (req : PlanRequest) (r : PlanResult)
    (run : IsRun nx calendar req r) (i : ℕ) (a : Assignment)
    → get_elem? r.assignments i ≡ some a
    → IsEntry run.state.assignments a
returned-IsEntry nx calendar req r run i a e =
    All-get_elem? (IsEntry run.state.assignments) r.assignments i a
      (returned-All nx calendar req r run (IsEntry run.state.assignments) (λ tid b p. (tid, p))) e
