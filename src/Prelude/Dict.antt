-- ===== src/Prelude/Dict.antt =====
-- Python's `dict`: pairs in insertion order. A write to a known key keeps its place.
use mathlib.Core.Path.{◌≡◌, refl}
use mathlib.Core.List.{List, [], ◌∷◌, map}
use mathlib.Core.Option.{Option, none, some}
use native.Mathlib.Omega.{arith}
use planner_dev.Prelude.Tests.{if◌then◌else◌}
use planner_dev.Prelude.Equality.{Comparable, ◌==◌}

abbrev pub Dict : Type 0 → Type 0 → Type 0
Dict K V = List (K × V)

abbrev pub keys : {K V : Type 0} → Dict K V → List K
keys d = map (λ kv. kv.0) d

module _ {K V : Type 0} ⦃e : Comparable K⦄ where
  -- d.get(k)
  unfoldable pub get : Dict K V → K → Option V
  get [] k = none
  get ((j, v) ∷ d) k = if j == k then some v else get d k

  -- d[k] = v
  unfoldable pub put : Dict K V → K → V → Dict K V
  put [] k v = (k, v) ∷ []
  put ((j, w) ∷ d) k v = if j == k then (j, v) ∷ d else (j, w) ∷ put d k v

  -- d.get(k, default)
  abbrev pub get_or : Dict K V → K → V → V
  get_or d k v = elim (get d k) [ none ↦ v | some w ↦ w ]

  -- `d.setdefault(k, v)`, and what reading `d[k]` does to a `defaultdict` whose default is `v`
  unfoldable pub set_default : Dict K V → K → V → Dict K V
  set_default d k v = elim (get d k) [ none ↦ put d k v | some w ↦ d ]

  pub get-put :
      (d : Dict K V) (written read : K) (v : V)
      → get (put d written v) read ≡ (if written == read then some v else get d read)
  unfolding get put
  get-put [] k j v = refl
  get-put ((i, w) ∷ d) k j v =
      ground (arith, e.equal_iff i k, e.equal_iff i j, e.equal_iff k j, get-put d k j v)

  -- A default read changes no value that a defaulting lookup can see.
  pub get_or-set_default :
      (d : Dict K V) (k j : K) (v : V) → get_or (set_default d k v) j v ≡ get_or d j v
  unfolding set_default
  get_or-set_default d k j v = ground (arith, get-put d k j v, e.equal_iff k j)
