-- ===== src/Allocate/Spans.antt =====
-- The chunks of `_allocate_split` of src/planner/domain/solver/greedy.py: what the loop spreads and
-- the rest on the start day, and the first and the last of their days.
use planner_dev.Prelude.{
  ℕ, ◌+◌, ◌≤◌, min, max, ◌≡◌, ◌≢◌, refl, Bool, true, false, subst, List, [], ◌∷◌, ◌++◌, append-nil,
  arith, ltb, if◌then◌else◌, sum_of, sum_of-append, All, All-append, All-imp, Bool-cases, inl, inr,
  Result, ok, ◌>>=◌, >>=-eq-ok, nat_eq,
}
use planner_dev.Calendar.{WorkingCalendar, first_working_day}
use planner_dev.Models.{Person, Task, DayAllocation}
use planner_dev.Capacity.{CapacityIndex}
use planner_dev.Capacity.Accounting.{SameHours, SameHours-refl}
use planner_dev.Allocate.{
  Split, Placement, chunk, rounds, split_loop, split_finish, allocate_split, min_day, max_day,
}
use planner_dev.Allocate.Spread.{spread, leftover, Looped, split_loop-Looped}
use planner_dev.Allocate.SpreadLaws.{sum-spread, spread-IsChunk, IsChunk}

-- `min` and `max` of the days, on lists that are not empty.
pub min_day-le : (l : List DayAllocation) (m : ℕ) → min_day l ≡ ok m → All (λ a. m ≤ a.day) l
unfolding min_day
min_day-le [] m h = tt
min_day-le (a ∷ []) m h = (ground arith, tt)
min_day-le (a ∷ b ∷ l) m h =
    let (k, e, f) = >>=-eq-ok (min_day (b ∷ l)) (λ rest. ok (min a.day rest)) h in
    let rest =
      All-imp (λ (c : DayAllocation). k ≤ c.day) (λ c. m ≤ c.day) (λ c g. ground arith) (b ∷ l)
        (min_day-le (b ∷ l) k e) in
    (ground arith, rest)

pub le-max_day : (l : List DayAllocation) (m : ℕ) → max_day l ≡ ok m → All (λ a. a.day ≤ m) l
unfolding max_day
le-max_day [] m h = tt
le-max_day (a ∷ []) m h = (ground arith, tt)
le-max_day (a ∷ b ∷ l) m h =
    let (k, e, f) = >>=-eq-ok (max_day (b ∷ l)) (λ rest. ok (max a.day rest)) h in
    let rest =
      All-imp (λ (c : DayAllocation). c.day ≤ k) (λ c. c.day ≤ m) (λ c g. ground arith) (b ∷ l)
        (le-max_day (b ∷ l) k e) in
    (ground arith, rest)

pub min_day_total :
    (a : DayAllocation) (l : List DayAllocation) → (m : ℕ) × (min_day (a ∷ l) ≡ ok m)
unfolding min_day
min_day_total a [] = (a.day, refl)
min_day_total a (b ∷ l) = let (m, e) = min_day_total b l in (min a.day m, rw e)

pub max_day_total :
    (a : DayAllocation) (l : List DayAllocation) → (m : ℕ) × (max_day (a ∷ l) ≡ ok m)
unfolding max_day
max_day_total a [] = (a.day, refl)
max_day_total a (b ∷ l) = let (m, e) = max_day_total b l in (max a.day m, rw e)

-- All chunks of a split task: what the loop spreads, and the rest on the start day.
abbrev pub chunks_of : CapacityIndex → WorkingCalendar → ℕ → ℕ → ℕ → ℕ → List DayAllocation
chunks_of idx calendar p limit day hours =
    let left = leftover idx calendar p (rounds limit day) day hours in
    spread idx calendar p (rounds limit day) day hours
    ++ (if ltb 0 left then chunk p day left ∷ [] else [])

-- The start and the end of some chunks.
abbrev pub spans : List DayAllocation → CapacityIndex → Result (Placement × CapacityIndex)
spans allocs idx = do
  start ← min_day allocs
  finish ← max_day allocs
  ok (record { allocations = allocs; start = start; finish = finish }, idx)

pub split_finish-spans :
    (idx : CapacityIndex) (calendar : WorkingCalendar) (p limit day hours : ℕ) (t : Split)
    → Looped idx calendar p
        (rounds limit day)
        day
        (record { remaining = hours; allocs = []; idx = idx })
        t
    → split_finish p day t ≡ spans (chunks_of idx calendar p limit day hours) t.idx
unfolding split_finish
split_finish-spans idx calendar p limit day hours t l =
    elim (Bool-cases (ltb 0 (leftover idx calendar p (rounds limit day) day hours))) [
      | inl some_left ↦ rw (l.left, l.added, some_left)
      | inr none_left ↦ rw (l.left, l.added, none_left, append-nil)
    ]

module _ (task : Task) (person : Person) (earliest : ℕ) (calendar : WorkingCalendar)
    (idx : CapacityIndex) (limit : ℕ) where
  pub allocate_split-spans :
      (idx' : CapacityIndex) × SameHours idx idx'
      × (allocate_split task person earliest calendar idx limit
          ≡ spans
              (chunks_of idx calendar person.id limit
                (first_working_day calendar earliest)
                task.duration_hours)
              idx')
  unfolding allocate_split
  allocate_split-spans =
      let day = first_working_day calendar earliest in
      let s : Split = record { remaining = task.duration_hours; allocs = []; idx = idx } in
      let looped =
        split_loop-Looped idx calendar person.id (rounds limit day) limit day s refl
          (SameHours-refl idx) in
      let t = split_loop person.id calendar (rounds limit day) limit day s in
      (
        t.idx,
        looped.same,
        split_finish-spans idx calendar person.id limit day task.duration_hours t looped,
      )

pub sum-chunks_of :
    (idx : CapacityIndex) (calendar : WorkingCalendar) (p limit day hours : ℕ)
    → sum_of (λ a. a.hours) (chunks_of idx calendar p limit day hours) ≡ hours
sum-chunks_of idx calendar p limit day hours =
    let left = leftover idx calendar p (rounds limit day) day hours in
    let rest : List DayAllocation = if ltb 0 left then chunk p day left ∷ [] else [] in
    let total : sum_of (λ a. a.hours) rest ≡ left = ground arith in
    omega (
      arith,
      total,
      sum_of-append (λ a. a.hours) (spread idx calendar p (rounds limit day) day hours) rest,
      sum-spread idx calendar p (rounds limit day) day hours,
    )

-- What a successful run of `spans` returns.
pub spans-eq-ok :
    (l : List DayAllocation) (idx : CapacityIndex) (r : Placement × CapacityIndex)
    → spans l idx ≡ ok r
    → (r.0.allocations ≡ l)
      × (r.1 ≡ idx)
      × All (λ a. r.0.start ≤ a.day) l
      × All (λ a. a.day ≤ r.0.finish) l
spans-eq-ok l idx r h =
    let (m, e, f) = >>=-eq-ok (min_day l) _ h in
    let (n, e', f') = >>=-eq-ok (max_day l) _ f in
    (
      cc,
      cc,
      subst (λ k. All (λ (a : DayAllocation). k ≤ a.day) l) (cc) (min_day-le l m e),
      subst (λ k. All (λ (a : DayAllocation). a.day ≤ k) l) (cc) (le-max_day l n e'),
    )

pub spans_total :
    (l : List DayAllocation) (idx : CapacityIndex)
    → l ≢ []
    → (r : Placement × CapacityIndex) × (spans l idx ≡ ok r)
spans_total [] idx h = absurd (h refl)
spans_total (a ∷ l) idx h =
    let (m, e) = min_day_total a l in
    let (n, e') = max_day_total a l in
    ((record { allocations = a ∷ l; start = m; finish = n }, idx), rw (e, e'))

pub min_day_ind {κ} :
    (P : ℕ → Type κ) (l : List DayAllocation) (m : ℕ)
    → All (λ a. P a.day) l
    → min_day l ≡ ok m
    → P m
unfolding min_day
min_day_ind P [] m h e = cc
min_day_ind P (a ∷ []) m h e = subst P (cc) h.0
min_day_ind P (a ∷ b ∷ l) m h e =
    let (k, e', f) = >>=-eq-ok (min_day (b ∷ l)) (λ rest. ok (min a.day rest)) e in
    let pk = min_day_ind P (b ∷ l) k h.1 e' in
    elim (Bool-cases (ltb a.day k)) [
      | inl small ↦ subst P (ground arith) h.0
      | inr large ↦ subst P (ground arith) pk
    ]

pub min-le-max :
    (l : List DayAllocation) (m n : ℕ)
    → l ≢ []
    → All (λ a. m ≤ a.day) l
    → All (λ a. a.day ≤ n) l
    → m ≤ n
min-le-max [] m n ne h k = absurd (ne refl)
min-le-max (a ∷ l) m n ne h k = omega (arith, h.0, k.0)

-- Chunks lie on working days from `day` on.
abbrev pub IsFrom : WorkingCalendar → ℕ → ℕ → Type 0
IsFrom calendar day d = (day ≤ d) × (calendar.is_working_day d ≡ true)

pub chunks_of-IsFrom :
    (idx : CapacityIndex) (calendar : WorkingCalendar) (p limit day hours : ℕ)
    → calendar.is_working_day day ≡ true
    → All (λ a. IsFrom calendar day a.day) (chunks_of idx calendar p limit day hours)
chunks_of-IsFrom idx calendar p limit day hours w =
    let n = rounds limit day in
    let left = leftover idx calendar p n day hours in
    let P : DayAllocation → Type 0 = λ a. IsFrom calendar day a.day in
    All-append P (spread idx calendar p n day hours) _
      (All-imp (IsChunk idx calendar p day (day + n)) P (λ a c. (c.1, c.3)) _
        (spread-IsChunk idx calendar p n day hours))
      (last (ltb 0 left) left)
  where
    last :
        (b : Bool) (left : ℕ)
        → All
            (λ (a : DayAllocation). IsFrom calendar day a.day)
            (if b then chunk p day left ∷ [] else [])
    last true left = ((omega arith, w), tt)
    last false left = tt

pub min_day_some : (l : List DayAllocation) (m : ℕ) → min_day l ≡ ok m → l ≢ []
unfolding min_day
min_day_some [] m h z = cc
min_day_some (a ∷ l) m h z = cc
