-- ===== src/Calendar/Working.antt =====
-- The working days of any calendar (src/planner/domain/calendar/ports.py), counted one by one, and
-- how many of them `nth_working_day` (src/planner/domain/calendar/rules.py) passes.
use planner_dev.Prelude.{
  ℕ, zero, suc, ◌+◌, ◌-◌, ◌≤◌, ◌≡◌, true, arith, ltb, if◌then◌else◌, ok, Bool-cases, inl, inr,
  ltb→ge,
}
use planner_dev.Calendar.{WorkingCalendar, first_working_day, advance, nth_working_day}
use planner_dev.Calendar.Laws.{
  IsCalendar, first_working_day-le, first_working_day_works, advance-le,
}

-- The working days among the `len` days from `day` on.
unfoldable pub days_in : WorkingCalendar → (len day : ℕ) → ℕ
days_in calendar zero day = 0
days_in calendar (suc len) day =
    (if calendar.is_working_day day then 1 else 0) + days_in calendar len (day + 1)

-- The working days from `day` on that come before `finish`.
abbrev pub working_days : WorkingCalendar → (day finish : ℕ) → ℕ
working_days calendar day finish = days_in calendar (finish - day) day

module _ (calendar : WorkingCalendar) where
  days_in-more : (len k day : ℕ) → days_in calendar len day ≤ days_in calendar (len + k) day
  unfolding days_in
  days_in-more zero k day = omega arith
  days_in-more (suc len) k day =
      let e : suc len + k ≡ suc (len + k) = omega arith in
      rw e (omega (arith, days_in-more len k (day + 1)))

  days_in-later : (k len day : ℕ) → days_in calendar len (day + k) ≤ days_in calendar (k + len) day
  unfolding days_in
  days_in-later zero len day =
      let e : day + zero ≡ day = omega arith in
      let e' : zero + len ≡ len = omega arith in rw (e, e') (omega arith)
  days_in-later (suc k) len day =
      let e : suc k + len ≡ suc (k + len) = omega arith in
      let e' : day + suc k ≡ day + 1 + k = omega arith in
      rw (e, e') (omega (arith, days_in-later k len (day + 1)))

  -- A longer span has no fewer working days.
  pub working_days-le :
      (day day' finish' finish : ℕ)
      → day ≤ day'
      → day' ≤ finish'
      → finish' ≤ finish
      → working_days calendar day' finish' ≤ working_days calendar day finish
  working_days-le day day' finish' finish h k m =
      let e : day + (day' - day) ≡ day' = omega arith in
      let e' : day' - day + (finish' - day') ≡ finish' - day = omega arith in
      let e'' : finish' - day + (finish - finish') ≡ finish - day = omega arith in
      let first = rw (e, e') at (days_in-later (day' - day) (finish' - day') day) in
      let last = rw e'' at (days_in-more (finish' - day) (finish - finish') day) in
      omega (arith, first, last)

module _ {calendar : WorkingCalendar} (laws : IsCalendar calendar) where
  working_days-advance :
      (n day : ℕ)
      → calendar.is_working_day day ≡ true
      → n ≤ working_days calendar day (advance calendar n day)
  unfolding advance days_in
  working_days-advance zero day w = omega arith
  working_days-advance (suc n) day w =
      let next = calendar.next_working_day day in
      let far = advance calendar n next in
      let later = laws.later day in
      let rest = working_days-advance n next (laws.works day) in
      let inside : working_days calendar next far ≤ days_in calendar (far - (day + 1)) (day + 1) =
        working_days-le calendar (day + 1) next far far (omega (arith, later))
          (omega (arith, advance-le laws n next)) (omega arith) in
      let e : far - day ≡ suc (far - (day + 1)) = omega (arith, later, advance-le laws n next) in
      rw (e, w) (omega (arith, rest, inside))

  -- Before the n-th working day from `day` on there are n - 1 of them.
  pub working_days-nth_working_day :
      (day n e : ℕ) → nth_working_day calendar day n ≡ ok e → n ≤ working_days calendar day e + 1
  unfolding nth_working_day
  working_days-nth_working_day day n e h = elim (Bool-cases (ltb n 1)) [
    | inl none_asked ↦ let h' = rw none_asked at h in cc
    | inr some_asked ↦
        let first = first_working_day calendar day in
        let same : advance calendar (n - 1) first ≡ e = same_ok (rw some_asked at h) in
        let passed = working_days-advance (n - 1) first (first_working_day_works laws day) in
        let wider =
          working_days-le calendar day first (advance calendar (n - 1) first)
            (advance calendar (n - 1) first) (first_working_day-le laws day)
            (omega (arith, advance-le laws (n - 1) first)) (omega arith) in
        rw (← same) (omega (arith, passed, wider, ltb→ge n 1 some_asked))
  ]
    where
      same_ok : {a b : ℕ} → ok a ≡ ok b → a ≡ b
      same_ok h = cc
