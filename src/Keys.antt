-- ===== src/Keys.antt =====
-- The keys of a dictionary: each stands once, and a write adds its key only.
use planner_dev.Prelude.{
  ℕ, ◌+◌, ◌≡◌, refl, sym, ◌∙◌, subst, arith, Bool, false, ◌||◌, [], ◌∷◌, none, some, if◌then◌else◌,
  ◌==◌, mem, IsNodup, Bool-cases, inl, inr, Option-cases, Comparable, sum_of,
}
use planner_dev.Prelude.Dict.{Dict, keys, get, get_or, put, set_default}

or_twice : (b c : Bool) → (b || c) ≡ (b || (b || c))
or_twice b c = ground arith

or_swap : (b c m : Bool) → (b || (c || m)) ≡ (c || (b || m))
or_swap b c m = ground arith

module _ {K : Type 0} ⦃e : Comparable K⦄ where
  pub beq_sym : (a b : K) → (a == b) ≡ (b == a)
  beq_sym a b = ground (arith, e.equal_iff a b, e.equal_iff b a)

module _ {K V : Type 0} ⦃e : Comparable K⦄ where
  pub get_absent : (d : Dict K V) (k : K) → mem k (keys d) ≡ false → get d k ≡ none
  unfolding get
  get_absent [] k h = refl
  get_absent ((j, v) ∷ d) k h = ground (arith, get_absent d k, beq_sym j k, h)

  pub get_cons :
      (d : Dict K V) (j k : K) (v : V) → get ((j, v) ∷ d) k ≡ (if k == j then some v else get d k)
  unfolding get
  get_cons d j k v = rw (beq_sym j k) refl

  pub mem-keys-put :
      (d : Dict K V) (j k : K) (v : V) → mem j (keys (put d k v)) ≡ ((j == k) || mem j (keys d))
  unfolding put
  mem-keys-put [] j k v = refl
  mem-keys-put ((i, w) ∷ d) j k v = elim (Bool-cases (i == k)) [
    | inl same ↦
        let path = (e.equal_iff i k).0 same in
        let twice : (j == k) ≡ (j == i) = rw path refl in
        rw (same, twice) (or_twice (j == i) (mem j (keys d)))
    | inr other ↦ rw (other, mem-keys-put d j k v) (or_swap (j == i) (j == k) (mem j (keys d)))
  ]

  pub put-IsNodup : (d : Dict K V) (k : K) (v : V) → IsNodup (keys d) → IsNodup (keys (put d k v))
  unfolding put
  put-IsNodup [] k v h = (refl, tt)
  put-IsNodup ((i, w) ∷ d) k v h = elim (Bool-cases (i == k)) [
    | inl same ↦ rw same h
    | inr other ↦
        let fresh : mem i (keys (put d k v)) ≡ false =
          mem-keys-put d i k v ∙ rw (other, h.0) refl in
        rw other (fresh, put-IsNodup d k v h.1)
  ]

  pub set_default-IsNodup :
      (d : Dict K V) (k : K) (v : V) → IsNodup (keys d) → IsNodup (keys (set_default d k v))
  unfolding set_default
  set_default-IsNodup d k v h = elim (Option-cases (get d k)) [
    | inl new ↦
        let step : set_default d k v ≡ put d k v = rw (set_default, new) refl in
        subst (λ x. IsNodup (keys x)) (sym step) (put-IsNodup d k v h)
    | inr (w, old) ↦
        let step : set_default d k v ≡ d = rw (set_default, old) refl in
        subst (λ x. IsNodup (keys x)) (sym step) h
  ]

-- The sum over a dictionary of numbers, under a write.
pub sum_of-put :
    {K : Type 0} ⦃e : Comparable K⦄ (d : Dict K ℕ) (k : K) (v : ℕ)
    → sum_of (λ kv. kv.1) (put d k v) + get_or d k 0 ≡ sum_of (λ kv. kv.1) d + v
unfolding put get
sum_of-put [] k v = omega arith
sum_of-put ((j, w) ∷ d) k v = ground (arith, sum_of-put d k v)
