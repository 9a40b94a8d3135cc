-- ===== src/Allocate/Spread.antt =====
-- `_allocate_split` of src/planner/domain/solver/greedy.py: which hours it puts on which days.
use planner_dev.Prelude.{
  ℕ, zero, suc, ◌+◌, ◌-◌, ◌≤◌, ◌<◌, min, ◌≡◌, refl, sym, ap, ◌∙◌, List, [], ◌∷◌, ◌++◌, append-nil,
  append_assoc, arith, ltb, if◌then◌else◌, Bool-cases, inl, inr, ltb→lt,
}
use planner_dev.Prelude.Int.{to_ℕ}
use planner_dev.Calendar.{WorkingCalendar}
use planner_dev.Models.{DayAllocation}
use planner_dev.Capacity.{CapacityIndex, remaining}
use planner_dev.Capacity.Accounting.{
  SameHours, SameHours-trans, remaining-SameHours, room, room-SameHours,
}
use planner_dev.Allocate.{Split, chunk, rounds, split_day, split_loop}

-- The hours that a day offers to a person.
abbrev pub offer : CapacityIndex → WorkingCalendar → ℕ → ℕ → ℕ
offer idx calendar p d = if calendar.is_working_day d then to_ℕ (room idx p d) else 0

-- What the loop should add from `day` on, for `left` hours: on each day the smaller of its offer
-- and what is left, and nothing where that is 0.
unfoldable pub spread : CapacityIndex → WorkingCalendar → ℕ → ℕ → ℕ → ℕ → List DayAllocation
spread idx calendar p zero day left = []
spread idx calendar p (suc days) day left =
    let take = min (offer idx calendar p day) left in
    let rest = spread idx calendar p days (day + 1) (left - take) in
    if ltb 0 take then chunk p day take ∷ rest else rest

-- What the loop should leave.
unfoldable pub leftover : CapacityIndex → WorkingCalendar → ℕ → ℕ → ℕ → ℕ → ℕ
leftover idx calendar p zero day left = left
leftover idx calendar p (suc days) day left =
    leftover idx calendar p days (day + 1) (left - min (offer idx calendar p day) left)

-- One round of the loop.
record Stepped (idx : CapacityIndex) (calendar : WorkingCalendar) (p day : ℕ) (s t : Split)
    : Type 0 where
  left : t.remaining ≡ s.remaining - min (offer idx calendar p day) s.remaining
  added :
      t.allocs
      ≡ s.allocs
        ++ (if ltb 0 (min (offer idx calendar p day) s.remaining)
            then chunk p day (min (offer idx calendar p day) s.remaining) ∷ []
            else [])
  same : SameHours idx t.idx

split_day-SameHours :
    (idx : CapacityIndex) (calendar : WorkingCalendar) (p day : ℕ) (s : Split)
    → SameHours idx s.idx
    → SameHours idx (split_day p calendar day s).idx
unfolding split_day
split_day-SameHours idx calendar p day s same = elim (Bool-cases (calendar.is_working_day day)) [
  | inr off ↦ rw off same
  | inl w ↦ elim (Bool-cases (ltb 0 (to_ℕ (remaining s.idx p day).0))) [
    | inl some_left ↦ rw (w, some_left) (SameHours-trans same (remaining-SameHours s.idx p day))
    | inr none_left ↦ rw (w, none_left) (SameHours-trans same (remaining-SameHours s.idx p day))
  ]
]

split_day-Stepped :
    (idx : CapacityIndex) (calendar : WorkingCalendar) (p day : ℕ) (s : Split)
    → 0 < s.remaining
    → SameHours idx s.idx
    → Stepped idx calendar p day s (split_day p calendar day s)
unfolding split_day remaining
split_day-Stepped idx calendar p day s h same = record {
  left = ground (arith, room-SameHours same p day);
  added = ground (arith, room-SameHours same p day, append-nil s.allocs);
  same = split_day-SameHours idx calendar p day s same;
}

module _ (idx : CapacityIndex) (calendar : WorkingCalendar) (p : ℕ) where
  pub spread_zero : (days day : ℕ) → spread idx calendar p days day 0 ≡ []
  unfolding spread
  spread_zero zero day = refl
  spread_zero (suc days) day = ground (arith, spread_zero days (day + 1))

  pub leftover_zero : (days day : ℕ) → leftover idx calendar p days day 0 ≡ 0
  unfolding leftover
  leftover_zero zero day = refl
  leftover_zero (suc days) day = ground (arith, leftover_zero days (day + 1))

  -- The loop from `s` ends with `t`.
  pub record Looped (days day : ℕ) (s t : Split) : Type 0 where
    pub left : t.remaining ≡ leftover idx calendar p days day s.remaining
    pub added : t.allocs ≡ s.allocs ++ spread idx calendar p days day s.remaining
    pub same : SameHours idx t.idx

  spread_step :
      (days day left : ℕ)
      → spread idx calendar p (suc days) day left
        ≡ (if ltb 0 (min (offer idx calendar p day) left)
            then chunk p day (min (offer idx calendar p day) left) ∷ []
            else [])
          ++ spread idx calendar p days (day + 1) (left - min (offer idx calendar p day) left)
  unfolding spread
  spread_step days day left = elim (Bool-cases (ltb 0 (min (offer idx calendar p day) left))) [
    | inl e ↦ rw e
    | inr e ↦ rw e
  ]

  split_loop_stop :
      (fuel limit day : ℕ) (s : Split)
      → s.remaining ≡ 0
      → split_loop p calendar fuel limit day s ≡ s
  unfolding split_loop
  split_loop_stop zero limit day s h = refl
  split_loop_stop (suc fuel) limit day s h = ground arith

  split_loop_go :
      (fuel limit day : ℕ) (s : Split)
      → 0 < s.remaining
      → day ≤ limit
      → split_loop p calendar (suc fuel) limit day s
        ≡ split_loop p calendar fuel limit (day + 1) (split_day p calendar day s)
  unfolding split_loop
  split_loop_go fuel limit day s h k = ground arith

  pub split_loop-Looped :
      (fuel limit day : ℕ) (s : Split)
      → fuel ≡ rounds limit day
      → SameHours idx s.idx
      → Looped fuel day s (split_loop p calendar fuel limit day s)
  split_loop-Looped zero limit day s e same =
      unfold split_loop leftover spread in
      record { left = refl; added = sym (append-nil s.allocs); same = same }
  split_loop-Looped (suc fuel) limit day s e same = elim (Bool-cases (ltb 0 s.remaining)) [
    | inr done ↦
        let z : s.remaining ≡ 0 = ground arith in
        rw (split_loop_stop (suc fuel) limit day s z) (record {
          left =
              z
              ∙ sym (leftover_zero (suc fuel) day)
              ∙ ap (leftover idx calendar p (suc fuel) day) (sym z);
          added =
              sym (append-nil s.allocs)
              ∙ ap (λ l. s.allocs ++ l)
                  (sym (spread_zero (suc fuel) day)
                    ∙ ap (spread idx calendar p (suc fuel) day) (sym z));
          same = same;
        })
    | inl more ↦
        let step = split_day-Stepped idx calendar p day s (ltb→lt 0 s.remaining more) same in
        let rest =
          split_loop-Looped fuel limit (day + 1) (split_day p calendar day s) (omega arith)
            step.same in
        rw (split_loop_go fuel limit day s (ltb→lt 0 s.remaining more) (omega arith)) (record {
          left =
              rest.left
              ∙ (unfold leftover in ap (leftover idx calendar p fuel (day + 1)) step.left);
          added =
              rest.added
              ∙ ((rw (step.added, step.left, append_assoc))
                  ∙ ap (λ l. s.allocs ++ l) (sym (spread_step fuel day s.remaining)));
          same = rest.same;
        })
  ]
