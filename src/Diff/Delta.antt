-- ===== src/Diff/Delta.antt =====
-- Laws of the difference of two plans (src/planner/domain/solver/diff.py).
use planner_dev.Prelude.{
  ℕ, ◌≡◌, refl, ◌∙◌, ap, sym, Bool, true, false, not, ◌&&◌, ◌||◌, Option, some, List, [], ◌∷◌, map,
  keep, arith, ◌==◌, nat_eq, string_eq, option_eq, pair_eq, mem, IsNodup, All, Comparable, beq_refl,
  Bool-cases, inl, inr, if◌then◌else◌, nat_beq_iff, All-imp,
}
use planner_dev.Prelude.Dict.{Dict, get, put, get-put}
use planner_dev.Models.{Assignment, PlanResult, index_by_task, by_task, overloads}
use planner_dev.Diff.{overload_key, overload_keys, is_moved, differs, diff}

and_false : (b : Bool) → (b && false) ≡ false
and_false b = ground arith

module _ {A K : Type 0} ⦃e : Comparable K⦄ (f : A → K) where
  drop_known_step :
      (b m : Bool) (k : K) (a : A) (known : List K) (rest : List A) (tail : List K)
      → ((k == f a) ≡ b)
      → mem k known ≡ m
      → mem k (map f rest) ≡ (mem k tail && not m)
      → mem k (map f (if not (mem (f a) known) then a ∷ rest else rest))
        ≡ ((b || mem k tail) && not m)
  drop_known_step true true k a known rest tail same found ih =
      let path = (e.equal_iff k (f a)).0 same in
      let found' : mem (f a) known ≡ true = rw (← path) found in
      rw found' (ih ∙ and_false (mem k tail))
  drop_known_step true false k a known rest tail same found ih =
      let path = (e.equal_iff k (f a)).0 same in
      let found' : mem (f a) known ≡ false = rw (← path) found in rw (found', same) refl
  drop_known_step false m k a known rest tail other found ih = elim (Bool-cases (mem (f a) known)) [
    | inl dropped ↦ rw dropped ih
    | inr kept ↦ rw (kept, other) ih
  ]

  -- Dropping the members whose key is known leaves the other keys.
  mem-drop_known :
      (k : K) (known : List K) (l : List A)
      → mem k (map f (keep (λ a. not (mem (f a) known)) l)) ≡ (mem k (map f l) && not (mem k known))
  mem-drop_known k known [] = refl
  mem-drop_known k known (a ∷ l) =
      drop_known_step (k == f a) (mem k known) k a known (keep (λ x. not (mem (f x) known)) l)
        (map f l) refl refl (mem-drop_known k known l)

  known-All : (l : List A) → All (λ a. mem (f a) (map f l) ≡ true) l
  known-All [] = tt
  known-All (a ∷ l) = (
    rw (beq_refl (f a)) refl,
    All-imp _ _ (λ x h. weaken (f x == f a) (mem (f x) (map f l)) h) l (known-All l),
  )
    where
      weaken : (b c : Bool) → c ≡ true → (b || c) ≡ true
      weaken b c h = ground arith

keep_none : {A : Type 0} (p : A → Bool) (l : List A) → All (λ a. p a ≡ false) l → keep p l ≡ []
keep_none p [] h = refl
keep_none p (a ∷ l) h = rw (h.0) (keep_none p l h.1)

-- The overloads of the modified plan are the new ones, and those of the base that are not removed.
pub diff-overload_keys :
    (base modified : PlanResult) (key : Option ℕ × Option ℕ)
    → let d = diff base modified in
      mem key (overload_keys modified) ≡ (
        mem key (map overload_key d.new_overloads)
        || (mem key (overload_keys base) && not (mem key (map overload_key d.removed_overloads))))
unfolding diff overload_keys
diff-overload_keys base modified key =
    rw
      (
        mem-drop_known overload_key key (overload_keys base) (overloads modified),
        mem-drop_known overload_key key (overload_keys modified) (overloads base),
      )
      (cases (mem key (overload_keys base)) (mem key (overload_keys modified)))
  where
    cases : (b m : Bool) → m ≡ ((m && not b) || (b && not (b && not m)))
    cases b m = ground arith

or_right : (b c : Bool) → (b || c) ≡ false → c ≡ false
or_right b c h = ground arith

eq_sym : (a b : ℕ) → (a == b) ≡ true → (b == a) ≡ true
eq_sym a b h = (nat_beq_iff b a).1 (sym ((nat_beq_iff a b).0 h))

other :
    (b c m : Bool) (x y : Option Assignment)
    → (b ≡ true → c ≡ true)
    → (c || m) ≡ false
    → (if b then x else y) ≡ y
other true c m x y s h = ground (arith, s refl, h)
other false c m x y s h = refl

get-index_by_task_absent :
    (d : Dict ℕ Assignment) (l : List Assignment) (v : ℕ)
    → mem v (map (λ a. a.task_id) l) ≡ false
    → get (index_by_task d l) v ≡ get d v
unfolding index_by_task
get-index_by_task_absent d [] v h = refl
get-index_by_task_absent d (a ∷ l) v h =
    let ids = map (λ (b : Assignment). b.task_id) l in
    get-index_by_task_absent (put d a.task_id a) l v (or_right (v == a.task_id) (mem v ids) h)
    ∙ (get-put d a.task_id v a
        ∙ other (a.task_id == v) (v == a.task_id) (mem v ids) (some a) (get d v)
            (eq_sym a.task_id v) h)

indexed-All :
    (d : Dict ℕ Assignment) (l : List Assignment)
    → IsNodup (map (λ a. a.task_id) l)
    → All (λ a. get (index_by_task d l) a.task_id ≡ some a) l
unfolding index_by_task
indexed-All d [] h = tt
indexed-All d (a ∷ l) h = (
  get-index_by_task_absent (put d a.task_id a) l a.task_id h.0
      ∙ (get-put d a.task_id a.task_id a ∙ rw (beq_refl a.task_id) refl),
  indexed-All (put d a.task_id a) l h.1,
)

-- A plan in which no task is twice does not differ from itself.
pub diff_self :
    (plan : PlanResult)
    → IsNodup (map (λ a. a.task_id) plan.assignments)
    → diff plan plan ≡ record { moved_tasks = []; new_overloads = []; removed_overloads = [] }
unfolding diff by_task overload_keys
diff_self plan h =
    let known =
      keep_none (λ r. not (mem (overload_key r) (map overload_key (overloads plan))))
        (overloads plan)
        (All-imp _ _ (λ r k. ap not k) (overloads plan)
          (known-All overload_key (overloads plan))) in
    let kept =
      keep_none (is_moved (by_task plan)) plan.assignments (
        All-imp _ _ (λ a k. rw k (stays a)) plan.assignments (indexed-All [] plan.assignments h)) in
    rw (known, kept) refl
  where
    stays : (a : Assignment) → differs (some a) a ≡ false
    stays a = rw (beq_refl a.start_date, beq_refl a.end_date) refl
