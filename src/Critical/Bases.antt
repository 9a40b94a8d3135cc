-- ===== src/Critical/Bases.antt =====
-- The loop of `critical_path_end` (src/planner/domain/solver/critical_path.py): the base
-- of a task's finish, and how the finishes change.
use planner_dev.Prelude.{
  ℕ, ◌≤◌, max, ◌≡◌, ◌⊎◌, refl, sym, ap, ◌∙◌, Bool, true, false, ◌||◌, none, some, List, [], ◌∷◌,
  arith, nat_eq, nat_beq_iff, ◌==◌, mem, Bool-cases, inl, inr, ok, or_raise, key_error, leb,
  beq_refl, >>=-eq-ok, or_raise-eq-ok,
}
use planner_dev.Prelude.Dict.{Dict, get, put, get-put}
use planner_dev.Critical.{latest_finish}

pub or_left : (b m : Bool) → b ≡ true → (b || m) ≡ true
or_left b m h = ground arith

pub or_right : (b m : Bool) → m ≡ true → (b || m) ≡ true
or_right b m h = ground arith

-- What is known at one time stays so.
abbrev pub Keeps : Dict ℕ ℕ → Dict ℕ ℕ → Type 0
Keeps d d' = (p f : ℕ) → get d p ≡ some f → get d' p ≡ some f

pub latest_finish-Keeps :
    (d d' : Dict ℕ ℕ) (l : List ℕ) (b : ℕ)
    → Keeps d d'
    → latest_finish d l ≡ ok b
    → latest_finish d' l ≡ ok b
unfolding latest_finish
latest_finish-Keeps d d' [] b keeps h = h
latest_finish-Keeps d d' (p ∷ l) b keeps h =
    let (first, e1, h1) = >>=-eq-ok (or_raise key_error (get d p)) _ h in
    let (rest, e2, h2) = >>=-eq-ok (latest_finish d l) _ h1 in
    let found = keeps p first (or_raise-eq-ok key_error (get d p) first e1) in
    let later = latest_finish-Keeps d d' l rest keeps e2 in rw (found, later) h2

-- The base of a task is no less than the finish of any predecessor, and one of them or 0.
pub latest_finish-le :
    (d : Dict ℕ ℕ) (l : List ℕ) (b p f : ℕ)
    → latest_finish d l ≡ ok b
    → mem p l ≡ true
    → get d p ≡ some f
    → f ≤ b
unfolding latest_finish
latest_finish-le d [] b p f h m e = cc
latest_finish-le d (q ∷ l) b p f h m e =
    let (first, e1, h1) = >>=-eq-ok (or_raise key_error (get d q)) _ h in
    let (rest, e2, h2) = >>=-eq-ok (latest_finish d l) _ h1 in
    let found = or_raise-eq-ok key_error (get d q) first e1 in
    let top : max first rest ≡ b = cc in
    elim (Bool-cases (p == q)) [
      | inl own ↦
          let path = (nat_beq_iff p q).0 own in
          let same : f ≡ first = same_value (sym e ∙ (ap (get d) path ∙ found)) in
          omega (arith, top, same)
      | inr other ↦ omega (arith, top, latest_finish-le d l rest p f e2 (rw other at m) e)
    ]
  where
    same_value : {a b : ℕ} → some a ≡ some b → a ≡ b
    same_value h = cc

pub latest_finish_attained :
    (d : Dict ℕ ℕ) (l : List ℕ) (b : ℕ)
    → latest_finish d l ≡ ok b
    → (b ≡ 0) ⊎ (p : ℕ) × (mem p l ≡ true) × (get d p ≡ some b)
unfolding latest_finish
latest_finish_attained d [] b h = inl (same_ok (sym h))
  where
    same_ok : {a b : ℕ} → ok a ≡ ok b → a ≡ b
    same_ok h = cc
latest_finish_attained d (q ∷ l) b h =
    let (first, e1, h1) = >>=-eq-ok (or_raise key_error (get d q)) _ h in
    let (rest, e2, h2) = >>=-eq-ok (latest_finish d l) _ h1 in
    let found = or_raise-eq-ok key_error (get d q) first e1 in
    let top : max first rest ≡ b = cc in
    elim (Bool-cases (leb rest first)) [
      | inl low ↦
          let same : first ≡ b = ground (arith, top, low) in
          inr (q, or_left (q == q) (mem q l) (beq_refl q), found ∙ ap some same)
      | inr high ↦
          let same : rest ≡ b = ground (arith, top, high) in
          elim (latest_finish_attained d l rest e2) [
            | inl zero_left ↦ inl (sym same ∙ zero_left)
            | inr (p, m, e) ↦ inr (p, or_right (p == q) (mem p l) m, e ∙ ap some same)
          ]
    ]

pub put_own : (d : Dict ℕ ℕ) (k v : ℕ) → get (put d k v) k ≡ some v
put_own d k v = get-put d k k v ∙ rw (beq_refl k) refl

-- A write to a key that is new keeps what is known.
pub put-Keeps : (d : Dict ℕ ℕ) (k v : ℕ) → get d k ≡ none → Keeps d (put d k v)
put-Keeps d k v absent p f e = elim (Bool-cases (k == p)) [
  | inl same ↦
      let path = (nat_beq_iff k p).0 same in
      let clash : none ≡ some f = sym absent ∙ (ap (get d) path ∙ e) in cc
  | inr other ↦ get-put d k p v ∙ rw other e
]

pub put_fresh :
    (d : Dict ℕ ℕ) (k f v : ℕ) (l : List ℕ)
    → mem k l ≡ false
    → mem v l ≡ true
    → get d v ≡ none
    → get (put d k f) v ≡ none
put_fresh d k f v l nodup m h = elim (Bool-cases (k == v)) [
  | inl same ↦
      let path = (nat_beq_iff k v).0 same in
      let clash : false ≡ true = sym nodup ∙ (ap (λ x. mem x l) path ∙ m) in cc
  | inr other ↦ get-put d k v f ∙ rw other h
]
