-- ===== src/Throttle/Spacing.antt =====
-- How far apart the handled messages of a user are (src/planner/bot/middlewares/throttle.py).
use planner_dev.Prelude.{
  ℕ, ◌+◌, ◌≤◌, ◌≡◌, arith, leb, not, Bool, true, refl, sym, ap, ◌∙◌, false, Option, none, some,
  List, [], ◌∷◌, if◌then◌else◌, ◌==◌, nat_eq, nat_beq_iff, Bool-cases, inl, inr,
}
use planner_dev.Prelude.Dict.{Dict, get, put, get-put}
use planner_dev.Throttle.{Event, anonymous, from_user, too_soon, throttle, handled}

module _ (interval : ℕ) where
  -- A time is due if it is the first one, or at least the interval behind the last.
  abbrev pub is_due : Option ℕ → ℕ → Bool
  is_due none t = true
  is_due (some last) t = leb (last + interval) t

  -- What is left of a user's own times: those that are due after the last one kept.
  unfoldable pub spaced_out : Option ℕ → List ℕ → List ℕ
  spaced_out last [] = []
  spaced_out last (t ∷ l) =
      let drop = spaced_out last l in
      let keep = t ∷ spaced_out (some t) l in if is_due last t then keep else drop

  -- Each time is at least the interval behind the one before it.
  abbrev pub IsSpaced : List ℕ → Type 0
  IsSpaced [] = Unit
  IsSpaced (t ∷ []) = Unit
  IsSpaced (t ∷ u ∷ l) = (t + interval ≤ u) × IsSpaced (u ∷ l)

  abbrev IsBehind : ℕ → List ℕ → Type 0
  IsBehind last [] = Unit
  IsBehind last (t ∷ l) = last + interval ≤ t

  IsSpaced-cons : (t : ℕ) (l : List ℕ) → IsBehind t l → IsSpaced l → IsSpaced (t ∷ l)
  IsSpaced-cons t [] h k = tt
  IsSpaced-cons t (u ∷ l) h k = (h, k)

  spaced_out-IsBehind : (last : ℕ) (l : List ℕ) → IsBehind last (spaced_out (some last) l)
  unfolding spaced_out
  spaced_out-IsBehind last [] = tt
  spaced_out-IsBehind last (t ∷ l) = elim (Bool-cases (leb (last + interval) t)) [
    | inl due ↦ rw due (ground arith)
    | inr early ↦ rw early (spaced_out-IsBehind last l)
  ]

  spaced_out-IsSpaced : (last : Option ℕ) (l : List ℕ) → IsSpaced (spaced_out last l)
  unfolding spaced_out
  spaced_out-IsSpaced last [] = tt
  spaced_out-IsSpaced last (t ∷ l) = elim (Bool-cases (is_due last t)) [
    | inl due ↦ rw due (
        IsSpaced-cons t (spaced_out (some t) l) (spaced_out-IsBehind t l)
          (spaced_out-IsSpaced (some t) l))
    | inr early ↦ rw early (spaced_out-IsSpaced last l)
  ]

  -- The guard of the code drops what is not due.
  too_soon-is_due : (last : Option ℕ) (t : ℕ) → too_soon interval last t ≡ not (is_due last t)
  too_soon-is_due none t = refl
  too_soon-is_due (some last) t = ground arith

-- The times of the messages of a user.
unfoldable pub times_of : ℕ → List Event → List ℕ
times_of tg_id [] = []
times_of tg_id (anonymous now ∷ l) = times_of tg_id l
times_of tg_id (from_user u now ∷ l) =
    let rest = times_of tg_id l in if u == tg_id then now ∷ rest else rest

module _ (interval : ℕ) where
  -- A user's messages are handled as if there were no other users: from the times of the user's
  -- own messages, those are dropped that come less than the interval after the last one kept.
  pub handled-spaced_out :
      (tg_id : ℕ) (last_seen : Dict ℕ ℕ) (l : List Event)
      → handled interval tg_id last_seen l
        ≡ spaced_out interval (get last_seen tg_id) (times_of tg_id l)
  unfolding handled throttle spaced_out times_of
  handled-spaced_out tg_id last_seen [] = refl
  handled-spaced_out tg_id last_seen (anonymous now ∷ l) = handled-spaced_out tg_id last_seen l
  handled-spaced_out tg_id last_seen (from_user u now ∷ l) =
      let guard = too_soon-is_due interval (get last_seen u) now in
      elim (Bool-cases (is_due interval (get last_seen u) now)) [
        | inr early ↦
            let soon : too_soon interval (get last_seen u) now ≡ true = guard ∙ rw early refl in
            elim (Bool-cases (u == tg_id)) [
              | inl own ↦
                  let same : get last_seen tg_id ≡ get last_seen u =
                    ap (get last_seen) (sym ((nat_beq_iff u tg_id).0 own)) in
                  rw (soon, own, same, early) (handled-spaced_out tg_id last_seen l ∙ rw same refl)
              | inr other ↦ rw (soon, other) (handled-spaced_out tg_id last_seen l)
            ]
        | inl due ↦
            let late : too_soon interval (get last_seen u) now ≡ false = guard ∙ rw due refl in
            let next = put last_seen u now in
            let ih = handled-spaced_out tg_id next l in
            let read = get-put last_seen u tg_id now in
            elim (Bool-cases (u == tg_id)) [
              | inl own ↦
                  let same : get last_seen tg_id ≡ get last_seen u =
                    ap (get last_seen) (sym ((nat_beq_iff u tg_id).0 own)) in
                  let now_seen : get next tg_id ≡ some now = read ∙ rw own refl in
                  rw (late, own, same, due) (ap (λ r. now ∷ r) (ih ∙ rw now_seen refl))
              | inr other ↦
                  let unseen : get next tg_id ≡ get last_seen tg_id = read ∙ rw other refl in
                  rw (late, other) (ih ∙ rw unseen refl)
            ]
      ]

  -- Of the messages of a user that are handled, from whatever times were seen last, each comes at
  -- least the interval after the one before it.
  pub handled-IsSpaced :
      (tg_id : ℕ) (last_seen : Dict ℕ ℕ) (l : List Event)
      → IsSpaced interval (handled interval tg_id last_seen l)
  handled-IsSpaced tg_id last_seen l =
      rw (handled-spaced_out tg_id last_seen l)
        (spaced_out-IsSpaced interval (get last_seen tg_id) (times_of tg_id l))
