-- ===== src/Greedy/Starts.antt =====
-- `_earliest_start` of src/planner/domain/solver/greedy.py: every placed predecessor is respected.
use planner_dev.Prelude.{
  ℕ, ◌≤◌, ◌≡◌, ◌∙◌, sym, ◌>>=◌, Option, none, some, List, [], ◌∷◌, arith, ltb, if◌then◌else◌, inl,
  inr, Option-cases, All, ok, or_raise, key_error, >>=-eq-ok, or_raise-eq-ok, nat_eq,
}
use planner_dev.Prelude.Dict.{Dict, get}
use planner_dev.Calendar.{WorkingCalendar}
use planner_dev.Models.{Assignment}
use planner_dev.Networkx.{Networkx, EdgeData}
use planner_dev.Greedy.Dag.{candidate, raise_start}

-- An assignment of the predecessor allows its successor to start on `day`.
abbrev pub Allows : WorkingCalendar → EdgeData → Assignment → ℕ → Type 0
Allows calendar edge a day = (c : ℕ) × (candidate calendar edge a ≡ ok c) × (c ≤ day)

module _ (nx : Networkx) (calendar : WorkingCalendar) (graph : nx.DiGraph)
    (assignments : Dict ℕ Assignment) (tid : ℕ) where
  -- If `dep` is placed, its edge to `tid` allows the start.
  abbrev pub Respects : ℕ → ℕ → Type 0
  Respects day dep =
      (a : Assignment)
      → get assignments dep ≡ some a
      → (x : EdgeData) × (nx.edge graph dep tid ≡ some x) × Allows calendar x a day

  clash : {o : Option Assignment} {a : Assignment} → o ≡ none → o ≡ some a → ⊥
  clash e e' = cc

  raise_start_absent :
      (est dep : ℕ) (l : List ℕ)
      → get assignments dep ≡ none
      → raise_start nx calendar graph assignments tid est (dep ∷ l)
        ≡ raise_start nx calendar graph assignments tid est l
  unfolding raise_start
  raise_start_absent est dep l h = rw (h, raise_start)

  raise_start_present :
      (est dep : ℕ) (l : List ℕ) (a : Assignment)
      → get assignments dep ≡ some a
      → raise_start nx calendar graph assignments tid est (dep ∷ l) ≡ (
          or_raise key_error (nx.edge graph dep tid) >>= λ edge.
          candidate calendar edge a >>= λ cand.
          raise_start nx calendar graph assignments tid (if ltb est cand then cand else est) l)
  unfolding raise_start
  raise_start_present est dep l a h = rw (h, raise_start)

  pub raise_start-Respects :
      (deps : List ℕ) (est e : ℕ)
      → raise_start nx calendar graph assignments tid est deps ≡ ok e
      → (est ≤ e) × All (Respects e) deps
  raise_start-Respects [] est e h = unfold raise_start in (ground arith, tt)
  raise_start-Respects (dep ∷ l) est e h = elim (Option-cases (get assignments dep)) [
    | inl absent ↦
        let (le, rest) =
          raise_start-Respects l est e (sym (raise_start_absent est dep l absent) ∙ h) in
        (le, ((λ a present. absurd (clash absent present)), rest))
    | inr (a, present) ↦
        let (x, ex, h1) =
          >>=-eq-ok (or_raise key_error (nx.edge graph dep tid)) _
            (sym (raise_start_present est dep l a present) ∙ h) in
        let (c, ec, h2) = >>=-eq-ok (candidate calendar x a) _ h1 in
        let (le, rest) = raise_start-Respects l (if ltb est c then c else est) e h2 in
        let low : c ≤ e = ground arith in
        (ground arith, ((λ b also. (x, or_raise-eq-ok key_error _ x ex, (c, (cc), low))), rest))
  ]
