-- ===== src/Critical/Finishes.antt =====
-- The loop of `critical_path_end` (src/planner/domain/solver/critical_path.py): what the finishes are
-- at its end.
use planner_dev.Prelude.{
  ℕ, ◌+◌, ◌≤◌, max, ◌≡◌, ◌⊎◌, refl, sym, ap, ◌∙◌, subst, true, false, none, some, List, [], ◌∷◌,
  arith, nat_eq, nat_beq_iff, ◌==◌, mem, IsNodup, Bool-cases, inl, inr, ok, or_raise, key_error,
  leb, beq_refl, >>=-eq-ok, or_raise-eq-ok,
}
use planner_dev.Prelude.Dict.{Dict, get, put, get-put}
use planner_dev.Models.{Task, Person}
use planner_dev.Networkx.{Networkx}
use planner_dev.Critical.{duration_days, latest_finish, finish_task, finish_all}
use planner_dev.Critical.Bases.{
  or_left, or_right, Keeps, put_own, put-Keeps, put_fresh, latest_finish-Keeps,
}

module _ (nx : Networkx) (g : nx.DiGraph) (tasks_by_id : Dict ℕ Task)
    (people_by_id : Dict ℕ Person) where
  -- The finish of a task, from the finishes of its predecessors.
  pub record IsFinish (d : Dict ℕ ℕ) (tid f : ℕ) : Type 0 where
    pub task : Task
    pub base : ℕ
    pub known : get tasks_by_id tid ≡ some task
    pub behind : latest_finish d (nx.predecessors g tid) ≡ ok base
    pub total : base + duration_days task people_by_id ≡ f

  pub finish_task-IsFinish :
      (tid f : ℕ) (d : Dict ℕ ℕ)
      → finish_task nx g tasks_by_id people_by_id tid d ≡ ok f
      → IsFinish d tid f
  unfolding finish_task
  finish_task-IsFinish tid f d h =
      let (task, e1, h1) = >>=-eq-ok (or_raise key_error (get tasks_by_id tid)) _ h in
      let (base, e2, h2) = >>=-eq-ok (latest_finish d (nx.predecessors g tid)) _ h1 in
      record {
        task = task;
        base = base;
        known = or_raise-eq-ok key_error (get tasks_by_id tid) task e1;
        behind = e2;
        total = cc;
      }

  IsFinish-Keeps : (d d' : Dict ℕ ℕ) (v f : ℕ) → Keeps d d' → IsFinish d v f → IsFinish d' v f
  IsFinish-Keeps d d' v f keeps h = record {
    task = h.task;
    base = h.base;
    known = h.known;
    behind = latest_finish-Keeps d d' (nx.predecessors g v) h.base keeps h.behind;
    total = h.total;
  }

  -- What every entry is.
  abbrev pub Holds : (ℕ → ℕ → Type 0) → Dict ℕ ℕ → Type 0
  Holds P d = (p f : ℕ) → get d p ≡ some f → P p f

  -- What a finish inherits from those before it holds of every finish.
  pub finish_all-Holds :
      (P : ℕ → ℕ → Type 0)
      → ((d : Dict ℕ ℕ) (v f : ℕ) → Holds P d → IsFinish d v f → P v f)
      → (order : List ℕ) (ef d : Dict ℕ ℕ) (m n : ℕ)
      → finish_all nx g tasks_by_id people_by_id order ef m ≡ ok (d, n)
      → Holds P ef
      → Holds P d
  unfolding finish_all
  finish_all-Holds P step [] ef d m n h all = let same : ef ≡ d = cc in subst (Holds P) same all
  finish_all-Holds P step (tid ∷ l) ef d m n h all =
      let (f, e1, h1) = >>=-eq-ok (finish_task nx g tasks_by_id people_by_id tid ef) _ h in
      let own = step ef tid f all (finish_task-IsFinish tid f ef e1) in
      finish_all-Holds P step l (put ef tid f) d (max m f) n h1 (λ p k e.
        elim (Bool-cases (tid == p)) [
          | inl here ↦
              let e' : some f ≡ some k = sym (get-put ef tid p f ∙ rw here refl) ∙ e in
              let path = (nat_beq_iff tid p).0 here in
              subst (λ v. P v k) path (subst (P tid) (same_value e') own)
          | inr other ↦ all p k (sym (get-put ef tid p f ∙ rw other refl) ∙ e)
        ])
    where
      same_value : {a b : ℕ} → some a ≡ some b → a ≡ b
      same_value h = cc

  -- The end of the loop: every task has its finish, none greater than the result, which is one of
  -- them or the start value.
  pub record IsFinished (order : List ℕ) (ef : Dict ℕ ℕ) (m : ℕ) (d : Dict ℕ ℕ) (n : ℕ)
      : Type 0 where
    pub keeps : Keeps ef d
    pub low : m ≤ n
    pub finishes :
        (v : ℕ) → mem v order ≡ true → (f : ℕ) × (get d v ≡ some f) × (f ≤ n) × IsFinish d v f
    pub top : (n ≡ m) ⊎ (v : ℕ) × (get d v ≡ some n)

  IsFinished-cons :
      (tid f : ℕ) (l : List ℕ) (ef d : Dict ℕ ℕ) (m n : ℕ)
      → get ef tid ≡ none
      → IsFinish ef tid f
      → IsFinished l (put ef tid f) (max m f) d n
      → IsFinished (tid ∷ l) ef m d n
  IsFinished-cons tid f l ef d m n absent finish rest =
      let own : get d tid ≡ some f = rest.keeps tid f (put_own ef tid f) in
      let all : Keeps ef d = λ p k e. rest.keeps p k (put-Keeps ef tid f absent p k e) in
      record {
        keeps = all;
        low = omega (arith, rest.low);
        finishes = λ v k. elim (Bool-cases (v == tid)) [
          | inl here ↦
              let path = (nat_beq_iff v tid).0 here in
              subst (λ u. (f : ℕ) × (get d u ≡ some f) × (f ≤ n) × IsFinish d u f) (sym path)
                (f, own, omega (arith, rest.low), IsFinish-Keeps ef d tid f all finish)
          | inr other ↦ rest.finishes v (rw other at k)
        ];
        top = top_of own rest.top;
      }
    where
      top_of :
          get d tid ≡ some f
          → (n ≡ max m f) ⊎ (v : ℕ) × (get d v ≡ some n)
          → (n ≡ m) ⊎ (v : ℕ) × (get d v ≡ some n)
      top_of own (inr found) = inr found
      top_of own (inl same) = elim (Bool-cases (leb f m)) [
        | inl low ↦ inl (ground (arith, same, low))
        | inr high ↦ let last : f ≡ n = ground (arith, same, high) in inr (tid, own ∙ ap some last)
      ]

  pub finish_all-IsFinished :
      (order : List ℕ) (ef d : Dict ℕ ℕ) (m n : ℕ)
      → IsNodup order
      → ((v : ℕ) → mem v order ≡ true → get ef v ≡ none)
      → finish_all nx g tasks_by_id people_by_id order ef m ≡ ok (d, n)
      → IsFinished order ef m d n
  unfolding finish_all
  finish_all-IsFinished [] ef d m n nodup fresh h =
      let same_d : ef ≡ d = cc in
      let same_n : n ≡ m = cc in
      record {
        keeps = λ p f e. ap (λ x. get x p) (sym same_d) ∙ e;
        low = ground (arith, same_n);
        finishes = λ v k. absurd (no_member k);
        top = inl same_n;
      }
    where
      no_member : false ≡ true → ⊥
      no_member k = cc
  finish_all-IsFinished (tid ∷ l) ef d m n nodup fresh h =
      let (f, e1, h1) = >>=-eq-ok (finish_task nx g tasks_by_id people_by_id tid ef) _ h in
      let absent : get ef tid ≡ none =
        fresh tid (or_left (tid == tid) (mem tid l) (beq_refl tid)) in
      IsFinished-cons tid f l ef d m n absent (finish_task-IsFinish tid f ef e1) (
        finish_all-IsFinished l (put ef tid f) d (max m f) n nodup.1
          (λ v k. put_fresh ef tid f v l nodup.0 k (fresh v (or_right (v == tid) (mem v l) k))) h1)
