-- ===== src/Greedy/Precedence.antt =====
-- Dependencies in the plans of `GreedySolver.plan` (src/planner/domain/solver/greedy.py).
use planner_dev.Prelude.{
  ℕ, ◌≡◌, sym, ◌∙◌, subst, Bool, true, false, some, List, [], ◌∷◌, arith, nat_eq, nat_beq_iff, ◌==◌,
  is_some, mem, IsNodup, IsBefore, All-mem, Bool-cases, inl, inr,
}
use planner_dev.Prelude.Dict.{Dict, get, get-put}
use planner_dev.Calendar.{WorkingCalendar}
use planner_dev.Calendar.Laws.{IsCalendar}
use planner_dev.Models.{Person, Task, Assignment, PlanRequest}
use planner_dev.Networkx.{Networkx, NetworkxLaws, EdgeData}
use planner_dev.Capacity.{CapacityIndex}
use planner_dev.Allocate.{Placement}
use planner_dev.Greedy.{Schedule, assignment_of, record_placement}
use planner_dev.Greedy.Dag.{earliest_start}
use planner_dev.Greedy.Starts.{Allows, Respects, raise_start-Respects}
use planner_dev.Greedy.Ways.{place_task-IsPlaced}
use planner_dev.Greedy.Steps.{Step, skipped, placing, IsPlacing}

before-mem : (u v : ℕ) (l : List ℕ) → IsBefore u v l → mem v l ≡ true
before-mem u v [] b = absurd b
before-mem u v (x ∷ l) (inl b) = ground arith
before-mem u v (x ∷ l) (inr b) = ground (arith, before-mem u v l b)

module _ (nx : Networkx) (graph : nx.DiGraph) where
  abbrev pub HasEdge : ℕ → ℕ → Type 0
  HasEdge u v = is_some (nx.edge graph u v) ≡ true

  -- Within the rest of an order, an edge that starts there goes forwards.
  abbrev pub GoesForward : List ℕ → Type 0
  GoesForward l = (u v : ℕ) → HasEdge u v → mem u l ≡ true → IsBefore u v l

  GoesForward-tail : (x : ℕ) (l : List ℕ) → mem x l ≡ false → GoesForward (x ∷ l) → GoesForward l
  GoesForward-tail x l new h u v e m = strip (h u v e (ground arith))
    where
      strip : IsBefore u v (x ∷ l) → IsBefore u v l
      strip (inl b) = absurd (ground (arith, nat_beq_iff u x))
      strip (inr b) = b

  no_edge_back :
      (x : ℕ) (l : List ℕ)
      → mem x l ≡ false
      → GoesForward (x ∷ l)
      → (u : ℕ) → HasEdge u x
      → mem u (x ∷ l) ≡ true
      → ⊥
  no_edge_back x l new h u e m = back (h u x e m)
    where
      back : IsBefore u x (x ∷ l) → ⊥
      back (inl b) = ground arith
      back (inr b) = ground (arith, before-mem u x l b)

  module _ (calendar : WorkingCalendar) (fixed : ℕ → Bool) where
    -- Every edge between assigned tasks is respected, if the second one was not fixed beforehand;
    -- a task that still waits has no assigned successor but a fixed one.
    pub record IsRespectful (l : List ℕ) (s : Schedule) : Type 0 where
      pub respected :
          (u v : ℕ) (a b : Assignment)
          → fixed v ≡ false
          → HasEdge u v
          → get s.assignments u ≡ some a
          → get s.assignments v ≡ some b
          → (x : EdgeData) × (nx.edge graph u v ≡ some x) × Allows calendar x a b.start_date
      pub waiting :
          (u v : ℕ) (b : Assignment)
          → mem u l ≡ true
          → HasEdge u v
          → get s.assignments v ≡ some b
          → fixed v ≡ true
      pub forward : GoesForward l
      pub nodup : IsNodup l

-- Every entry of a task index stands under the identifier of its task.
abbrev pub IsKeyed : Dict ℕ Task → Type 0
IsKeyed d = (tid : ℕ) (t : Task) → get d tid ≡ some t → t.id ≡ tid

-- Who is assigned after a placement.
pub placed_here :
    (tid v : ℕ) (s : Schedule) (r : Placement × Person × CapacityIndex) (b : Assignment)
    → (tid == v) ≡ true
    → get (record_placement tid s r).assignments v ≡ some b
    → assignment_of tid r ≡ b
placed_here tid v s r b h e =
    let now : get (record_placement tid s r).assignments v ≡ some (assignment_of tid r) =
      rw (get-put s.assignments tid v (assignment_of tid r), h) in
    cc

pub placed_other :
    (tid v : ℕ) (s : Schedule) (r : Placement × Person × CapacityIndex) (b : Assignment)
    → (tid == v) ≡ false
    → get (record_placement tid s r).assignments v ≡ some b
    → get s.assignments v ≡ some b
placed_other tid v s r b h e =
    let now : get (record_placement tid s r).assignments v ≡ get s.assignments v =
      rw (get-put s.assignments tid v (assignment_of tid r), h) in
    sym now ∙ e

clash : {b : Bool} → b ≡ false → b ≡ true → ⊥
clash p q = cc

module _ (nx : Networkx) (nx_laws : NetworkxLaws nx) (graph : nx.DiGraph)
    (calendar : WorkingCalendar) (laws : IsCalendar calendar) (req : PlanRequest)
    (tasks_by_id : Dict ℕ Task) (keyed : IsKeyed tasks_by_id) (fixed : ℕ → Bool) where
  -- The start of a newly placed task respects each of its placed predecessors.
  placing_respects :
      (tid u : ℕ) (s s' : Schedule) (a : Assignment)
      → (p : IsPlacing nx calendar req graph tasks_by_id tid s s') → HasEdge nx graph u tid
      → get s.assignments u ≡ some a
      → (x : EdgeData) × (nx.edge graph u tid ≡ some x) × Allows calendar x a p.placed.0.start
  placing_respects tid u s s' a p e present =
      let t = p.task in
      let same : t.id ≡ tid = keyed tid t p.known in
      let deps = nx.predecessors graph t.id in
      let (le, all) =
        raise_start-Respects nx calendar graph s.assignments t.id deps req.horizon_start p.earliest
          (unfold earliest_start in p.starts) in
      let listed : mem u deps ≡ true = nx_laws.mem-predecessors graph u t.id ∙ rw same e in
      let (x, ex, allows) =
        All-mem (Respects nx calendar graph s.assignments t.id p.earliest) deps u all listed a
          present in
      let placed = place_task-IsPlaced calendar laws t p.earliest s.idx _ _ p.placed p.places in
      (x, rw same at ex, (allows.0, allows.1, omega (arith, allows.2, placed.from)))

  abbrev Inv : List ℕ → Schedule → Type 0
  Inv = IsRespectful nx graph calendar fixed

  abbrev Placing : ℕ → Schedule → Schedule → Type 0
  Placing = IsPlacing nx calendar req graph tasks_by_id

  respected_after :
      (tid : ℕ) (l : List ℕ) (s s' : Schedule) (p : Placing tid s s')
      → Inv (tid ∷ l) s
      → (u v : ℕ) (a b : Assignment) → fixed v ≡ false
      → HasEdge nx graph u v
      → get (record_placement tid s p.placed).assignments u ≡ some a
      → get (record_placement tid s p.placed).assignments v ≡ some b
      → (x : EdgeData) × (nx.edge graph u v ≡ some x) × Allows calendar x a b.start_date
  respected_after tid l s s' p inv u v a b free e ea eb = elim (Bool-cases (tid == v)) [
    | inl here ↦
        let same : v ≡ tid = sym ((nat_beq_iff tid v).0 here) in
        let e' : HasEdge nx graph u tid = rw same at e in
        elim (Bool-cases (tid == u)) [
          | inl self ↦ absurd (
              no_edge_back nx graph tid l inv.nodup.0 inv.forward u e'
                (ground (arith, nat_beq_iff tid u)))
          | inr old ↦
              let r = placing_respects tid u s s' a p e' (placed_other tid u s p.placed a old ea) in
              let new = placed_here tid v s p.placed b here eb in
              (
                r.0,
                rw same r.1,
                subst (λ (c : Assignment). Allows calendar r.0 a c.start_date) new r.2,
              )
        ]
    | inr other ↦
        let eb' = placed_other tid v s p.placed b other eb in
        elim (Bool-cases (tid == u)) [
          | inl from ↦
              absurd (clash free (inv.waiting u v b (ground (arith, nat_beq_iff tid u)) e eb'))
          | inr old ↦ inv.respected u v a b free e (placed_other tid u s p.placed a old ea) eb'
        ]
  ]

  waiting_after :
      (tid : ℕ) (l : List ℕ) (s s' : Schedule) (p : Placing tid s s')
      → Inv (tid ∷ l) s
      → (u v : ℕ) (b : Assignment) → mem u l ≡ true
      → HasEdge nx graph u v
      → get (record_placement tid s p.placed).assignments v ≡ some b
      → fixed v ≡ true
  waiting_after tid l s s' p inv u v b m e eb = elim (Bool-cases (tid == v)) [
    | inl here ↦
        let same : v ≡ tid = sym ((nat_beq_iff tid v).0 here) in
        let e' : HasEdge nx graph u tid = rw same at e in
        absurd (no_edge_back nx graph tid l inv.nodup.0 inv.forward u e' (ground arith))
    | inr other ↦ inv.waiting u v b (ground arith) e (placed_other tid v s p.placed b other eb)
  ]

  pub IsRespectful-Step :
      (tid : ℕ) (l : List ℕ) (s s' : Schedule)
      → Step nx calendar req graph tasks_by_id tid s s'
      → Inv (tid ∷ l) s
      → Inv l s'
  IsRespectful-Step tid l s s' (skipped same known) inv = subst (Inv l) same (record {
    respected = inv.respected;
    waiting = λ u v b m. inv.waiting u v b (ground arith);
    forward = GoesForward-tail nx graph tid l inv.nodup.0 inv.forward;
    nodup = inv.nodup.1;
  })
  IsRespectful-Step tid l s s' (placing p) inv = subst (Inv l) p.result (record {
    respected = respected_after tid l s s' p inv;
    waiting = waiting_after tid l s s' p inv;
    forward = GoesForward-tail nx graph tid l inv.nodup.0 inv.forward;
    nodup = inv.nodup.1;
  })
