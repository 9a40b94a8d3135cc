-- ===== src/Calendar/Counting.antt =====
-- `business_days_between` and `nth_working_day` (src/planner/domain/calendar/rules.py) agree.
use planner_dev.Prelude.{
  ℕ, zero, suc, ◌+◌, ◌-◌, ◌≤◌, ◌<◌, ◌≡◌, refl, true, false, arith, leb, ltb, if◌then◌else◌, ok,
  Bool-cases, inl, inr,
}
use planner_dev.Calendar.{
  WeekendCalendar, is_working_day, count_days, business_days_between, weekend_calendar,
  next_working_day, first_working_day, advance, nth_working_day,
}
use planner_dev.Calendar.Laws.{IsCalendar, first_working_day-le, advance-le}
use planner_dev.Calendar.Laws.{first_working_day_works, nth_working_day_works}
use planner_dev.Calendar.Weekend.{next_working_day-IsCalendar}

-- The working days among `len` days from `d`.
work_in : WeekendCalendar → ℕ → ℕ → ℕ
work_in cal zero d = 0
work_in cal (suc len) d = (if is_working_day cal d then 1 else 0) + work_in cal len (d + 1)

count_days-work_in :
    (cal : WeekendCalendar) (fuel d b n : ℕ)
    → fuel ≡ b - d
    → count_days cal fuel d b n ≡ n + work_in cal fuel d
unfolding count_days work_in
count_days-work_in cal zero d b n h = omega arith
count_days-work_in cal (suc fuel) d b n h =
    ground
      (arith, count_days-work_in cal fuel (d + 1) b (if is_working_day cal d then n + 1 else n))

business_days-work_in :
    (cal : WeekendCalendar) (a b : ℕ) → business_days_between cal a b ≡ work_in cal (b - a) a
unfolding business_days_between
business_days-work_in cal a b = elim (Bool-cases (leb b a)) [
  | inl h ↦ ground (arith, none_left (b - a))
  | inr h ↦ ground (arith, count_days-work_in cal (b - a) a b 0)
]
  where
    none_left : (k : ℕ) → k ≡ 0 → work_in cal k a ≡ 0
    none_left zero e = unfold work_in in refl
    none_left (suc k) e = absurd (omega arith)

work_in-add :
    (cal : WeekendCalendar) (m k d : ℕ)
    → work_in cal (m + k) d ≡ work_in cal m d + work_in cal k (d + m)
unfolding work_in
work_in-add cal zero k d = ground arith
work_in-add cal (suc m) k d =
    let e : suc m + k ≡ suc (m + k) = omega arith in
    let e' : d + suc m ≡ d + 1 + m = omega arith in
    rw (e, e') (omega (arith, work_in-add cal m k (d + 1)))

work_in_off :
    (cal : WeekendCalendar) (m d : ℕ)
    → ((k : ℕ) → d ≤ k → k < d + m → is_working_day cal k ≡ false)
    → work_in cal m d ≡ 0
unfolding work_in
work_in_off cal zero d h = refl
work_in_off cal (suc m) d h =
    ground (arith, h d, work_in_off cal m (d + 1) (λ k a b. h k (omega arith) (omega arith)))

between-split :
    (cal : WeekendCalendar) (a b c : ℕ)
    → a ≤ b
    → b ≤ c
    → business_days_between cal a c ≡ business_days_between cal a b + business_days_between cal b c
between-split cal a b c h k =
    let e : c - a ≡ b - a + (c - b) = omega arith in
    let e' : a + (b - a) ≡ b = omega arith in
    let joined : work_in cal (b - a + (c - b)) a ≡ work_in cal (b - a) a + work_in cal (c - b) b =
      rw (work_in-add cal (b - a) (c - b) a, e') in
    rw
      (
        business_days-work_in cal a c,
        business_days-work_in cal a b,
        business_days-work_in cal b c,
        e,
      )
      joined

between_off :
    (cal : WeekendCalendar) (a b : ℕ)
    → a ≤ b
    → ((k : ℕ) → a ≤ k → k < b → is_working_day cal k ≡ false)
    → business_days_between cal a b ≡ 0
between_off cal a b h off =
    rw (business_days-work_in cal a b) (work_in_off cal (b - a) a (λ k p q. off k p (omega arith)))

between_next :
    (cal : WeekendCalendar) (d : ℕ)
    → is_working_day cal d ≡ true
    → business_days_between cal d (next_working_day cal d) ≡ 1
between_next cal d w =
    let laws = next_working_day-IsCalendar cal in
    let one : business_days_between cal d (d + 1) ≡ 1 = one_day in
    let rest : business_days_between cal (d + 1) (next_working_day cal d) ≡ 0 =
      between_off cal (d + 1) (next_working_day cal d) (omega (arith, laws.later d))
        (λ k p q. laws.first d k (omega arith) q) in
    omega (
      arith,
      between-split cal d (d + 1) (next_working_day cal d) (omega arith)
          (omega (arith, laws.later d)),
    )
  where
    one_day : business_days_between cal d (d + 1) ≡ 1
    one_day =
        let e : d + 1 - d ≡ suc zero = omega arith in
        rw (business_days-work_in cal d (d + 1), e) (unfold work_in in ground arith)

between-advance :
    (cal : WeekendCalendar) (n d : ℕ)
    → is_working_day cal d ≡ true
    → business_days_between cal d (advance (weekend_calendar cal) n d) ≡ n
unfolding advance
between-advance cal zero d w = between_off cal d d (omega arith) (λ k p q. absurd (omega arith))
between-advance cal (suc n) d w =
    let laws = next_working_day-IsCalendar cal in
    let d' = next_working_day cal d in
    omega (
      arith,
      between-split cal d d' (advance (weekend_calendar cal) n d') (omega (arith, laws.later d))
          (omega (arith, advance-le laws n d')),
      between_next cal d w,
      between-advance cal n d' (laws.works d),
    )

between_first :
    (cal : WeekendCalendar) (d : ℕ)
    → business_days_between cal d (first_working_day (weekend_calendar cal) d) ≡ 0
unfolding first_working_day
between_first cal d = elim (Bool-cases (is_working_day cal d)) [
  | inl w ↦ rw w (between_off cal d d (omega arith) (λ k p q. absurd (omega arith)))
  | inr off ↦
      let laws = next_working_day-IsCalendar cal in
      rw off (
        between_off cal d (next_working_day cal d) (omega (arith, laws.later d)) (λ k p q.
          elim (Bool-cases (ltb d k)) [
            | inl l ↦ laws.first d k (ground arith) q
            | inr g ↦ let e : k ≡ d = ground arith in rw e off
          ]))
]

-- The n-th working day on or after `start` (the first is number 1) is a working day with exactly
-- n - 1 working days from `start` up to it, the day itself not counted.
pub between-nth_working_day :
    (cal : WeekendCalendar) (start n e : ℕ)
    → nth_working_day (weekend_calendar cal) start n ≡ ok e
    → (is_working_day cal e ≡ true) × (business_days_between cal start e ≡ n - 1)
between-nth_working_day cal start n e h = (nth_working_day_works laws start n e h, counted)
  where
    laws : IsCalendar (weekend_calendar cal)
    laws = next_working_day-IsCalendar cal

    first : ℕ
    first = first_working_day (weekend_calendar cal) start

    counted : business_days_between cal start e ≡ n - 1
    counted =
        unfold nth_working_day in
        ground (
          arith,
          between-split cal start first (advance (weekend_calendar cal) (n - 1) first),
          first_working_day-le laws start,
          advance-le laws (n - 1) first,
          between_first cal start,
          between-advance cal (n - 1) first (first_working_day_works laws start),
        )
