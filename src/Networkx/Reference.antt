-- ===== src/Networkx/Reference.antt =====
-- A small graph library that meets the documented behaviour of networkx, so that the theorems about
-- the solver can be applied to concrete requests. Its sort checks its own answer.
use planner_dev.Prelude.{
  ℕ, zero, suc, ◌≡◌, refl, ap, ◌∙◌, subst, Bool, true, false, not, ◌&&◌, ◌||◌, Option, none, some,
  List, [], ◌∷◌, ◌++◌, arith, if◌then◌else◌, nat_eq, nat_beq_iff, pair_eq, ◌==◌, is_some, mem,
  mem-append, IsNodup, IsBefore, keep, length, Bool-cases, inl, inr,
}
use planner_dev.Prelude.Dict.{Dict, get, put, get-put}
use planner_dev.Networkx.{EdgeData, or_no_data, update, Networkx, NetworkxLaws}

pub record Graph : Type 0 where
  pub nodes : List ℕ
  pub edges : Dict (ℕ × ℕ) EdgeData

abbrev add_new : ℕ → List ℕ → List ℕ
add_new u l = if mem u l then l else l ++ u ∷ []

mem-add_new : (u v : ℕ) (l : List ℕ) → mem v (add_new u l) ≡ ((v == u) || mem v l)
mem-add_new u v l = elim (Bool-cases (mem u l)) [
  | inl old ↦ rw old (ground (arith, nat_beq_iff v u))
  | inr new ↦ rw (new, mem-append v l (u ∷ [])) (ground arith)
]

abbrev incoming : Dict (ℕ × ℕ) EdgeData → ℕ → List ℕ
incoming [] v = []
incoming (((u, w), x) ∷ l) v = let rest = incoming l v in if w == v then u ∷ rest else rest

mem-incoming : (l : Dict (ℕ × ℕ) EdgeData) (u v : ℕ) → mem u (incoming l v) ≡ is_some (get l (u, v))
unfolding get
mem-incoming [] u v = refl
mem-incoming (((a, w), x) ∷ l) u v =
    ground (arith, mem-incoming l u v, nat_beq_iff u a, nat_beq_iff a u)

-- The nodes of `pending` without an incoming edge from `pending`, round by round.
abbrev is_ready : Dict (ℕ × ℕ) EdgeData → List ℕ → ℕ → Bool
is_ready edges pending v = none_of (incoming edges v)
  where
    none_of : List ℕ → Bool
    none_of [] = true
    none_of (u ∷ l) = not (mem u pending) && none_of l

rounds : Dict (ℕ × ℕ) EdgeData → ℕ → List ℕ → List ℕ
rounds edges zero pending = []
rounds edges (suc fuel) pending =
    let ready = keep (is_ready edges pending) pending in
    let rest = rounds edges fuel (keep (λ v. not (is_ready edges pending v)) pending) in
    ready ++ rest

abbrev all_in : List ℕ → List ℕ → Bool
all_in [] ys = true
all_in (x ∷ xs) ys = mem x ys && all_in xs ys

abbrev nodup : List ℕ → Bool
nodup [] = true
nodup (x ∷ xs) = not (mem x xs) && nodup xs

abbrev before : ℕ → ℕ → List ℕ → Bool
before u v [] = false
before u v (x ∷ l) = ((u == x) && mem v l) || before u v l

abbrev all_before : Dict (ℕ × ℕ) EdgeData → List ℕ → Bool
all_before [] order = true
all_before (((u, v), x) ∷ l) order = before u v order && all_before l order

all_in-mem : (xs ys : List ℕ) (v : ℕ) → all_in xs ys ≡ true → mem v xs ≡ true → mem v ys ≡ true
all_in-mem [] ys v h m = absurd (ground arith)
all_in-mem (x ∷ xs) ys v h m = ground (arith, nat_beq_iff v x, all_in-mem xs ys v)

nodup-IsNodup : (xs : List ℕ) → nodup xs ≡ true → IsNodup xs
nodup-IsNodup [] h = tt
nodup-IsNodup (x ∷ xs) h = (ground arith, nodup-IsNodup xs (ground arith))

before-IsBefore : (u v : ℕ) (l : List ℕ) → before u v l ≡ true → IsBefore u v l
before-IsBefore u v [] h = absurd (ground arith)
before-IsBefore u v (x ∷ l) h = elim (Bool-cases ((u == x) && mem v l)) [
  | inl first ↦ inl (ground arith, ground arith)
  | inr later ↦ inr (before-IsBefore u v l (ground arith))
]

all_before-get :
    (l : Dict (ℕ × ℕ) EdgeData) (order : List ℕ) (u v : ℕ)
    → all_before l order ≡ true
    → is_some (get l (u, v)) ≡ true
    → before u v order ≡ true
unfolding get
all_before-get [] order u v h m = absurd (ground arith)
all_before-get (((a, b), x) ∷ l) order u v h m =
    ground (arith, nat_beq_iff a u, nat_beq_iff b v, all_before-get l order u v)

abbrev is_order : Graph → List ℕ → Bool
is_order g order =
    nodup order && (all_in order g.nodes && (all_in g.nodes order && all_before g.edges order))

abbrev checked : Graph → List ℕ → Option (List ℕ)
checked g order = if is_order g order then some order else none

unfoldable pub sort : Graph → Option (List ℕ)
unfolding rounds get
sort g = checked g (rounds g.edges (length g.nodes) g.nodes)

accepted :
    (b : Bool) (l order : List ℕ)
    → (if b then some l else none) ≡ some order
    → (b ≡ true) × (l ≡ order)
accepted true l order h = (refl, cc)
accepted false l order h = (cc, cc)

sort-is_order : (g : Graph) (order : List ℕ) → sort g ≡ some order → is_order g order ≡ true
unfolding sort
sort-is_order g order h =
    let l = rounds g.edges (length g.nodes) g.nodes in
    let (good, same) = accepted (is_order g l) l order h in
    subst (λ k. is_order g k ≡ true) same good

abbrev pub reference : Networkx
reference = record {
  DiGraph = Graph;
  empty = record { nodes = []; edges = [] };
  add_node = λ g u. record g { nodes = add_new u g.nodes };
  add_edge = λ g u v x. record {
    nodes = add_new u (add_new v g.nodes);
    edges = put g.edges (u, v) (update (or_no_data (get g.edges (u, v))) x);
  };
  has_node = λ g v. mem v g.nodes;
  edge = λ g u v. get g.edges (u, v);
  predecessors = λ g v. incoming g.edges v;
  topological_sort = sort;
}

edge-put :
    (edges : Dict (ℕ × ℕ) EdgeData) (a b u v : ℕ) (x : EdgeData)
    → get (put edges (a, b) x) (u, v) ≡ (if (u == a) && (v == b) then some x else get edges (u, v))
edge-put edges a b u v x = ground (
  arith,
  get-put edges (a, b) (u, v) x,
  nat_beq_iff a u,
  nat_beq_iff u a,
  nat_beq_iff b v,
  nat_beq_iff v b,
)

both_ways : (b c : Bool) → (b ≡ true → c ≡ true) → (c ≡ true → b ≡ true) → b ≡ c
both_ways b c h k = ground arith

module _ (g : Graph) (order : List ℕ) (h : sort g ≡ some order) where
  order_nodes : (v : ℕ) → mem v order ≡ mem v g.nodes
  order_nodes v =
      let good = sort-is_order g order h in
      both_ways _ _ (all_in-mem order g.nodes v (ground arith))
        (all_in-mem g.nodes order v (ground arith))

  order_edges : (u v : ℕ) → is_some (get g.edges (u, v)) ≡ true → IsBefore u v order
  order_edges u v e =
      let good = sort-is_order g order h in
      before-IsBefore u v order (all_before-get g.edges order u v (ground arith) e)

  order_nodup : IsNodup order
  order_nodup = let good = sort-is_order g order h in nodup-IsNodup order (ground arith)

pub reference_laws : NetworkxLaws reference
unfolding get
reference_laws = record {
  has_node-empty = λ v. refl;
  has_node-add_node = λ g u v. mem-add_new u v g.nodes;
  has_node-add_edge = λ g u v w x.
      mem-add_new u w (add_new v g.nodes) ∙ ap (λ b. (w == u) || b) (mem-add_new v w g.nodes);
  edge-empty = λ u v. refl;
  edge-add_node = λ g w u v. refl;
  edge-add_edge =
      λ g a b u v x. edge-put g.edges a b u v (update (or_no_data (get g.edges (a, b))) x);
  mem-predecessors = λ g u v. mem-incoming g.edges u v;
  order-nodup = λ g order h. order_nodup g order h;
  order-nodes = λ g order h. order_nodes g order h;
  order-edges = λ g order h. order_edges g order h;
}
