-- ===== src/Allocate/Search.antt =====
-- The search for a day in `_allocate_single` and `_allocate_pair` of
-- src/planner/domain/solver/greedy.py: it ends, and finds the earliest day that fits.
use planner_dev.Prelude.{
  ℕ, zero, suc, ◌+◌, ◌≤◌, ◌<◌, ◌≡◌, ap, Bool, true, false, ◌&&◌, Option, none, some, arith, leb,
  ltb, Bool-cases, inl, inr, leb→le, leb→gt, ◌∙◌,
}
use planner_dev.Prelude.Int.{le_ℤ}
use planner_dev.Calendar.{WorkingCalendar}
use planner_dev.Capacity.{CapacityIndex, remaining}
use planner_dev.Capacity.Accounting.{
  SameHours, SameHours-refl, SameHours-trans, remaining-SameHours, room, room-SameHours,
}
use planner_dev.Allocate.{Test, find_day, has_room, fits_single, fits_pair}

-- `day` to `limit` were searched: the result is the first day that passes, `none` if none does.
abbrev pub IsFirstFit : (ℕ → Bool) → ℕ → ℕ → Option ℕ → Type 0
IsFirstFit p day limit none = (k : ℕ) → day ≤ k → k ≤ limit → p k ≡ false
IsFirstFit p day limit (some d) =
    (day ≤ d) × (d ≤ limit) × (p d ≡ true) × ((k : ℕ) → day ≤ k → k < d → p k ≡ false)

-- On every index with the hours of `idx`, `test` answers as `p`, and keeps the hours.
pub record Decides (idx : CapacityIndex) (p : ℕ → Bool) (test : Test) : Type 0 where
  pub answer : (idx' : CapacityIndex) (d : ℕ) → SameHours idx idx' → (test idx' d).0 ≡ p d
  pub quiet : (idx' : CapacityIndex) (d : ℕ) → SameHours idx' (test idx' d).1

IsFirstFit-step :
    (p : ℕ → Bool) (day limit : ℕ) (o : Option ℕ)
    → p day ≡ false
    → IsFirstFit p (day + 1) limit o
    → IsFirstFit p day limit o
IsFirstFit-step p day limit none off h = λ k a b. elim (Bool-cases (ltb day k)) [
  | inl l ↦ h k (ground arith) b
  | inr g ↦ let e : k ≡ day = ground arith in rw e off
]
IsFirstFit-step p day limit (some d) off h = (
  omega arith,
  h.1,
  h.2,
  λ k a b. elim (Bool-cases (ltb day k)) [
    | inl l ↦ h.3 k (ground arith) b
    | inr g ↦ let e : k ≡ day = ground arith in rw e off
  ],
)

-- One round of the loop, on each way out of its tests.
module _ (test : Test) (fuel limit day : ℕ) (idx : CapacityIndex) where
  find_day_over : leb day limit ≡ false → find_day test (suc fuel) limit day idx ≡ (none, idx)
  unfolding find_day
  find_day_over h = ground arith

  find_day_hit :
      leb day limit ≡ true
      → (test idx day).0 ≡ true
      → find_day test (suc fuel) limit day idx ≡ (some day, (test idx day).1)
  unfolding find_day
  find_day_hit h k = ground arith

  find_day_miss :
      leb day limit ≡ true
      → (test idx day).0 ≡ false
      → find_day test (suc fuel) limit day idx ≡ find_day test fuel limit (day + 1) (test idx day).1
  unfolding find_day
  find_day_miss h k = ground arith

-- The outcome of a search: a first fit, and an index with the same hours.
abbrev pub Searched : CapacityIndex → (ℕ → Bool) → ℕ → ℕ → Option ℕ × CapacityIndex → Type 0
Searched idx p day limit r = IsFirstFit p day limit r.0 × SameHours idx r.1

module _ {idx : CapacityIndex} {p : ℕ → Bool} {test : Test} (decides : Decides idx p test) where
  pub find_day-IsFirstFit :
      (fuel limit day : ℕ) (idx' : CapacityIndex)
      → limit < day + fuel
      → SameHours idx idx'
      → Searched idx p day limit (find_day test fuel limit day idx')
  find_day-IsFirstFit zero limit day idx' h s =
      unfold find_day in (λ k a b. absurd (omega arith), s)
  find_day-IsFirstFit (suc fuel) limit day idx' h s = elim (Bool-cases (leb day limit)) [
    | inr over ↦
        rw (find_day_over test fuel limit day idx' over)
          (λ k a b. absurd (omega (arith, leb→gt day limit over)), s)
    | inl within ↦ elim (Bool-cases (p day)) [
      | inl fits ↦
          rw (find_day_hit test fuel limit day idx' within (decides.answer idx' day s ∙ fits)) (
            (omega arith, leb→le day limit within, fits, λ k a b. absurd (omega arith)),
            SameHours-trans s (decides.quiet idx' day),
          )
      | inr off ↦
          let rest =
            find_day-IsFirstFit fuel limit (day + 1) (test idx' day).1 (omega arith)
              (SameHours-trans s (decides.quiet idx' day)) in
          rw (find_day_miss test fuel limit day idx' within (decides.answer idx' day s ∙ off))
            (IsFirstFit-step p day limit _ off rest.0, rest.1)
    ]
  ]

-- The tests of the two functions, as conditions on the day.
abbrev pub single_ok : CapacityIndex → WorkingCalendar → ℕ → ℕ → ℕ → Bool
single_ok idx calendar hours person_id day =
    calendar.is_working_day day && le_ℤ hours (room idx person_id day)

abbrev pub pair_ok : CapacityIndex → WorkingCalendar → ℕ → ℕ → ℕ → ℕ → Bool
pair_ok idx calendar hours p1 p2 day =
    single_ok idx calendar hours p1 day && le_ℤ hours (room idx p2 day)

pub fits_single-Decides :
    (idx : CapacityIndex) (calendar : WorkingCalendar) (hours person_id : ℕ)
    → Decides idx (single_ok idx calendar hours person_id) (fits_single hours person_id calendar)
fits_single-Decides idx calendar hours person_id = record {
  answer = λ idx' d s. elim (Bool-cases (calendar.is_working_day d)) [
    | inl w ↦ unfold fits_single remaining in rw w (ap (le_ℤ hours) (room-SameHours s person_id d))
    | inr off ↦ unfold fits_single in rw off
  ];
  quiet = λ idx' d. elim (Bool-cases (calendar.is_working_day d)) [
    | inl w ↦ unfold fits_single in rw w (remaining-SameHours idx' person_id d)
    | inr off ↦ unfold fits_single in rw off (SameHours-refl idx')
  ];
}

pub fits_pair-Decides :
    (idx : CapacityIndex) (calendar : WorkingCalendar) (hours p1 p2 : ℕ)
    → Decides idx (pair_ok idx calendar hours p1 p2) (fits_pair hours p1 p2 calendar)
fits_pair-Decides idx calendar hours p1 p2 = record {
  answer = λ idx' d s.
      let e = one.answer idx' d s in
      let s' = SameHours-trans s (one.quiet idx' d) in
      elim (Bool-cases (single_ok idx calendar hours p1 d)) [
        | inl first ↦
            rw (fits_pair_first idx' d (e ∙ first), first)
              (unfold has_room remaining in ap (le_ℤ hours) (room-SameHours s' p2 d))
        | inr off ↦ rw (fits_pair_off idx' d (e ∙ off), off)
      ];
  quiet = λ idx' d. elim (Bool-cases (fits_single hours p1 calendar idx' d).0) [
    | inl first ↦ rw (fits_pair_first idx' d first) (
        SameHours-trans (one.quiet idx' d)
          (unfold has_room in remaining-SameHours (fits_single hours p1 calendar idx' d).1 p2 d))
    | inr off ↦ rw (fits_pair_off idx' d off) (one.quiet idx' d)
  ];
}
  where
    one : Decides idx (single_ok idx calendar hours p1) (fits_single hours p1 calendar)
    one = fits_single-Decides idx calendar hours p1

    fits_pair_first :
        (idx' : CapacityIndex) (d : ℕ)
        → (fits_single hours p1 calendar idx' d).0 ≡ true
        → fits_pair hours p1 p2 calendar idx' d
          ≡ has_room hours p2 (fits_single hours p1 calendar idx' d).1 d
    fits_pair_first idx' d h = unfold fits_pair in ground arith

    fits_pair_off :
        (idx' : CapacityIndex) (d : ℕ)
        → (fits_single hours p1 calendar idx' d).0 ≡ false
        → fits_pair hours p1 p2 calendar idx' d ≡ (false, (fits_single hours p1 calendar idx' d).1)
    fits_pair_off idx' d h = unfold fits_pair in ground arith
