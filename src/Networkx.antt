-- ===== src/Networkx.antt =====
-- The part of `networkx` that the solver calls (src/planner/domain/solver/greedy.py and
-- critical_path.py import it). The library is not part of the repository: its graph type and
-- functions are a parameter, and its documented behaviour is a record of hypotheses.

pub mod Reference
use planner_dev.Prelude.{
  ℕ, ◌<◌, String, ◌≡◌, ◌≢◌, Bool, true, false, ◌&&◌, ◌||◌, Option, none, some, List, if◌then◌else◌,
  is_some, ◌==◌, nat_eq, mem, IsNodup, IsBefore,
}

-- The attributes of an edge that the program writes and reads.
pub record EdgeData : Type 0 where
  pub link_type : Option String
  pub lag : Option ℕ

abbrev pub no_data : EdgeData
no_data = record { link_type = none; lag = none }

abbrev newer : {A : Type 0} → Option A → Option A → Option A
newer old none = old
newer old (some v) = some v

-- `dict.update` on the attributes: what the new ones set wins.
unfoldable pub update : EdgeData → EdgeData → EdgeData
update old new = record {
  link_type = newer old.link_type new.link_type;
  lag = newer old.lag new.lag;
}

abbrev pub or_no_data : Option EdgeData → EdgeData
or_no_data none = no_data
or_no_data (some x) = x

-- `nx.DiGraph` and `nx.topological_sort`. An edge that is not there has no data (a `KeyError`), and
-- a graph with a cycle has no order (`NetworkXUnfeasible`).
pub record Networkx : Type 1 where
  pub DiGraph : Type 0
  pub empty : DiGraph
  pub add_node : DiGraph → ℕ → DiGraph
  pub add_edge : DiGraph → ℕ → ℕ → EdgeData → DiGraph
  pub has_node : DiGraph → ℕ → Bool
  pub edge : DiGraph → ℕ → ℕ → Option EdgeData
  pub predecessors : DiGraph → ℕ → List ℕ
  pub topological_sort : DiGraph → Option (List ℕ)

pub record NetworkxLaws (nx : Networkx) : Type 0 where
  pub has_node-empty : (v : ℕ) → nx.has_node nx.empty v ≡ false
  pub has_node-add_node :
      (g : nx.DiGraph) (u v : ℕ) → nx.has_node (nx.add_node g u) v ≡ ((v == u) || nx.has_node g v)
  pub has_node-add_edge :
      (g : nx.DiGraph) (u v w : ℕ) (x : EdgeData)
      → nx.has_node (nx.add_edge g u v x) w ≡ ((w == u) || ((w == v) || nx.has_node g w))
  pub edge-empty : (u v : ℕ) → nx.edge nx.empty u v ≡ none
  pub edge-add_node : (g : nx.DiGraph) (w u v : ℕ) → nx.edge (nx.add_node g w) u v ≡ nx.edge g u v
  pub edge-add_edge :
      (g : nx.DiGraph) (a b u v : ℕ) (x : EdgeData)
      → nx.edge (nx.add_edge g a b x) u v ≡ (
          if (u == a) && (v == b)
          then some (update (or_no_data (nx.edge g a b)) x)
          else nx.edge g u v)
  -- `predecessors` gives the other ends of the incoming edges.
  pub mem-predecessors :
      (g : nx.DiGraph) (u v : ℕ) → mem u (nx.predecessors g v) ≡ is_some (nx.edge g u v)
  -- An order holds every node once, and the start of each edge before its end.
  pub order-nodup :
      (g : nx.DiGraph) (order : List ℕ) → nx.topological_sort g ≡ some order → IsNodup order
  pub order-nodes :
      (g : nx.DiGraph) (order : List ℕ)
      → nx.topological_sort g ≡ some order
      → (v : ℕ) → mem v order ≡ nx.has_node g v
  pub order-edges :
      (g : nx.DiGraph) (order : List ℕ)
      → nx.topological_sort g ≡ some order
      → (u v : ℕ) → is_some (nx.edge g u v) ≡ true
      → IsBefore u v order
