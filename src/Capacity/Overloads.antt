-- ===== src/Capacity/Overloads.antt =====
-- The overloads that `CapacityIndex` reports (src/planner/domain/solver/greedy.py), after any calls
-- of its operations.
use planner_dev.Prelude.{
  ℕ, ◌+◌, ◌≡◌, refl, ap, ◌∙◌, arith, Bool, true, false, ◌||◌, ◌&&◌, List, [], ◌∷◌, map, Option,
  none, some, ltb, nat_eq, pair_eq, ◌==◌, mem, IsNodup, Bool-cases, inl, inr,
}
use planner_dev.Prelude.Dict.{Dict, keys, get, get_or, put}
use planner_dev.Calendar.{WorkingCalendar}
use planner_dev.Models.{Person, DayOverride, DayAllocation}
use planner_dev.Capacity.{
  CapacityIndex, make_index, add_hours, base_capacity, used_at, remaining, occupy, Overload,
  overloads_in, overloads,
}
use planner_dev.Keys.{get_absent, get_cons, put-IsNodup, set_default-IsNodup}

add_hours-IsNodup :
    (used : Dict (ℕ × ℕ) ℕ) (l : List DayAllocation)
    → IsNodup (keys used)
    → IsNodup (keys (add_hours used l))
unfolding add_hours
add_hours-IsNodup used [] h = h
add_hours-IsNodup used (a ∷ l) h =
    let now = get_or used (a.person_id, a.day) 0 + a.hours in
    add_hours-IsNodup (put used (a.person_id, a.day) now) l
      (put-IsNodup used (a.person_id, a.day) now h)

-- The indexes that the operations lead to.
pub data IsReached : CapacityIndex → Type 0 where
  made :
      (people : List Person) (calendar : WorkingCalendar) (day_overrides : List DayOverride)
      (existing : List DayAllocation)
      → IsReached (make_index people calendar day_overrides existing)
  read : (idx : CapacityIndex) (p d : ℕ) → IsReached idx → IsReached (remaining idx p d).1
  occupied :
      (idx : CapacityIndex) (l : List DayAllocation) → IsReached idx → IsReached (occupy idx l)

reached-IsNodup : (idx : CapacityIndex) → IsReached idx → IsNodup (keys idx.used)
unfolding make_index remaining occupy
reached-IsNodup _ (made people calendar day_overrides existing) = add_hours-IsNodup [] existing tt
reached-IsNodup _ (read idx p d r) = set_default-IsNodup idx.used (p, d) 0 (reached-IsNodup idx r)
reached-IsNodup _ (occupied idx l r) = add_hours-IsNodup idx.used l (reached-IsNodup idx r)

-- The person and the day of an overload.
abbrev pub key_of : Overload → ℕ × ℕ
key_of o = (o.person_id, o.day)

overloads_in_step :
    (idx : CapacityIndex) (head : ℕ × ℕ) (n : ℕ) (l : Dict (ℕ × ℕ) ℕ) (k : ℕ × ℕ)
    → mem k (map key_of (overloads_in idx ((head, n) ∷ l))) ≡ (
        ((k == head) && ltb (base_capacity idx head.0 head.1) n)
        || mem k (map key_of (overloads_in idx l)))
unfolding overloads_in
overloads_in_step idx (pid, day) n l k = elim (Bool-cases (ltb (base_capacity idx pid day) n)) [
  | inl over ↦ rw over (over_case (k == (pid, day)) (mem k (map key_of (overloads_in idx l))))
  | inr fits ↦ rw fits (fits_case (k == (pid, day)) (mem k (map key_of (overloads_in idx l))))
]
  where
    over_case : (b m : Bool) → (b || m) ≡ ((b && true) || m)
    over_case b m = ground arith

    fits_case : (b m : Bool) → m ≡ ((b && false) || m)
    fits_case b m = ground arith

head_same :
    (m : Bool) (base base' n : ℕ)
    → base ≡ base'
    → m ≡ ltb base 0
    → ((true && ltb base' n) || m) ≡ ltb base n
head_same m base base' n same h = ground arith

abbrev or_zero : Option ℕ → ℕ
or_zero o = elim o [ none ↦ 0 | some n ↦ n ]

mem-overloads_in :
    (idx : CapacityIndex) (used : Dict (ℕ × ℕ) ℕ) (k : ℕ × ℕ)
    → IsNodup (keys used)
    → mem k (map key_of (overloads_in idx used)) ≡ ltb (base_capacity idx k.0 k.1) (get_or used k 0)
mem-overloads_in idx [] k h = unfold overloads_in get in ground arith
mem-overloads_in idx ((head, n) ∷ l) k h = elim (Bool-cases (k == head)) [
  | inl same ↦
      let path = (pair_eq.equal_iff k head).0 same in
      let base = ap (λ (x : ℕ × ℕ). base_capacity idx x.0 x.1) path in
      let absent : get l k ≡ none = get_absent l k (rw path (h.0)) in
      let rest = mem-overloads_in idx l k h.1 in
      let found : get_or ((head, n) ∷ l) k 0 ≡ n =
        ap or_zero (get_cons l head k n) ∙ rw same refl in
      let step = overloads_in_step idx head n l k in
      rw (step, same, found)
        (head_same _ (base_capacity idx k.0 k.1) (base_capacity idx head.0 head.1) n base
          (rest ∙ ap (λ o. ltb (base_capacity idx k.0 k.1) (or_zero o)) absent))
  | inr other ↦
      let found : get_or ((head, n) ∷ l) k 0 ≡ get_or l k 0 =
        ap or_zero (get_cons l head k n) ∙ rw other refl in
      let step = overloads_in_step idx head n l k in
      rw (step, other, found) (mem-overloads_in idx l k h.1)
]

-- After any calls, the index reports a person and a day exactly if the hours used there are more
-- than its capacity.
pub overloads-IsExact :
    (idx : CapacityIndex) (p d : ℕ)
    → IsReached idx
    → mem (p, d) (map key_of (overloads idx)) ≡ ltb (base_capacity idx p d) (used_at idx p d)
unfolding overloads
overloads-IsExact idx p d r = mem-overloads_in idx idx.used (p, d) (reached-IsNodup idx r)
