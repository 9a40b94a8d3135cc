-- ===== src/Allocate/SpreadLaws.antt =====
-- Hours and days of what `_allocate_split` of src/planner/domain/solver/greedy.py spreads out.
use planner_dev.Prelude.{
  ℕ, zero, suc, ◌+◌, ◌-◌, ◌≤◌, ◌<◌, min, ◌≡◌, refl, true, false, arith, ltb, if◌then◌else◌, sum_of,
  All, All-imp, Bool-cases, inl, inr, nat_eq, nat_beq_iff, ◌==◌, ltb→lt,
}
use planner_dev.Prelude.Int.{to_ℕ}
use planner_dev.Calendar.{WorkingCalendar}
use planner_dev.Models.{DayAllocation}
use planner_dev.Capacity.{CapacityIndex}
use planner_dev.Capacity.Accounting.{room, hours_at}
use planner_dev.Allocate.{chunk}
use planner_dev.Allocate.Spread.{offer, spread, leftover}

module _ (idx : CapacityIndex) (calendar : WorkingCalendar) (p : ℕ) where
  -- The hours that the days offer in all.
  unfoldable pub offered : ℕ → ℕ → ℕ
  offered zero day = 0
  offered (suc days) day = offer idx calendar p day + offered days (day + 1)

  pub leftover-offered :
      (days day left : ℕ) → leftover idx calendar p days day left ≡ left - offered days day
  unfolding leftover offered
  leftover-offered zero day left = omega arith
  leftover-offered (suc days) day left =
      omega (arith, leftover-offered days (day + 1) (left - min (offer idx calendar p day) left))

  -- No hours are lost or made.
  pub sum-spread :
      (days day left : ℕ)
      → sum_of (λ a. a.hours) (spread idx calendar p days day left)
          + leftover idx calendar p days day left
        ≡ left
  unfolding spread leftover
  sum-spread zero day left = omega arith
  sum-spread (suc days) day left =
      ground (arith, sum-spread days (day + 1) (left - min (offer idx calendar p day) left))

  -- A chunk lies on a working day of the searched range, and has no more hours than the day offers.
  abbrev pub IsChunk : ℕ → ℕ → DayAllocation → Type 0
  IsChunk day end a =
      (a.person_id ≡ p)
      × (day ≤ a.day)
      × (a.day < end)
      × (calendar.is_working_day a.day ≡ true)
      × (0 < a.hours)
      × (a.hours ≤ to_ℕ (room idx p a.day))

  chunk-IsChunk :
      (days day left : ℕ)
      → 0 < min (offer idx calendar p day) left
      → IsChunk day (day + suc days) (chunk p day (min (offer idx calendar p day) left))
  chunk-IsChunk days day left h = elim (Bool-cases (calendar.is_working_day day)) [
    | inl w ↦ (refl, omega arith, omega arith, w, h, works w)
    | inr off ↦ absurd (no_offer off)
  ]
    where
      works :
          calendar.is_working_day day ≡ true
          → min (offer idx calendar p day) left ≤ to_ℕ (room idx p day)
      works w = rw w (omega arith)

      no_offer : calendar.is_working_day day ≡ false → ⊥
      no_offer off = let h' = rw off at h in omega arith

  pub spread-IsChunk :
      (days day left : ℕ) → All (IsChunk day (day + days)) (spread idx calendar p days day left)
  unfolding spread
  spread-IsChunk zero day left = tt
  spread-IsChunk (suc days) day left =
      let take = min (offer idx calendar p day) left in
      let rest : All (IsChunk day (day + suc days))
          (spread idx calendar p days (day + 1) (left - take)) =
        All-imp (IsChunk (day + 1) (day + 1 + days)) (IsChunk day (day + suc days))
          (λ a c. (c.0, omega arith, omega arith, c.3, c.4, c.5)) _
          (spread-IsChunk days (day + 1) (left - take)) in
      elim (Bool-cases (ltb 0 take)) [
        | inr off ↦ rw off rest
        | inl on ↦ rw on (chunk-IsChunk days day left (ltb→lt 0 take on), rest)
      ]

  hours_at-spread_before :
      (days day left q d : ℕ) → d < day → hours_at (spread idx calendar p days day left) q d ≡ 0
  unfolding spread
  hours_at-spread_before zero day left q d h = refl
  hours_at-spread_before (suc days) day left q d h = ground (
    arith,
    nat_beq_iff day d,
    hours_at-spread_before days (day + 1) (left - min (offer idx calendar p day) left) q d,
  )

  -- On a day of the person go at most the hours that the day offers; on other people's days none.
  pub hours_at-spread-le :
      (days day left q d : ℕ)
      → hours_at (spread idx calendar p days day left) q d
        ≤ (if p == q then offer idx calendar p d else 0)
  unfolding spread
  hours_at-spread-le zero day left q d = omega arith
  hours_at-spread-le (suc days) day left q d = ground (
    arith,
    nat_beq_iff p q,
    nat_beq_iff day d,
    hours_at-spread_before days (day + 1) (left - min (offer idx calendar p day) left) q d,
    hours_at-spread-le days (day + 1) (left - min (offer idx calendar p day) left) q d,
  )
