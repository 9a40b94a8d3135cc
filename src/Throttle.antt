-- ===== src/Throttle.antt =====
-- `ThrottleMiddleware` of src/planner/bot/middlewares/throttle.py: messages of one user that come too
-- fast are dropped. Times are ticks of the monotonic clock.
pub mod Spacing
use planner_dev.Prelude.{
  ℕ, ◌+◌, Bool, true, false, Option, none, some, List, [], ◌∷◌, ltb, if◌then◌else◌, ◌==◌, nat_eq,
}
use planner_dev.Prelude.Dict.{Dict, get, put}

-- A message and the time at which it arrives, with its user if it has one.
pub data Event : Type 0 where
  anonymous : (now : ℕ) → Event
  from_user : (tg_id now : ℕ) → Event

module _ (min_interval : ℕ) where
  -- `last is not None and now - last < self._min`
  abbrev pub too_soon : Option ℕ → ℕ → Bool
  too_soon none now = false
  too_soon (some last) now = ltb now (last + min_interval)

  -- Whether the handler is called, and the times seen last.
  unfoldable pub throttle : Dict ℕ ℕ → Event → Bool × Dict ℕ ℕ
  throttle last_seen (anonymous now) = (true, last_seen)
  throttle last_seen (from_user tg_id now) =
      if too_soon (get last_seen tg_id) now
      then (false, last_seen)
      else (true, put last_seen tg_id now)

  -- The times at which messages of a user reach the handler, over a run.
  unfoldable pub handled : (tg_id : ℕ) → Dict ℕ ℕ → List Event → List ℕ
  unfolding throttle
  handled tg_id last_seen [] = []
  handled tg_id last_seen (anonymous now ∷ l) =
      handled tg_id (throttle last_seen (anonymous now)).1 l
  handled tg_id last_seen (from_user u now ∷ l) =
      let r = throttle last_seen (from_user u now) in
      let rest = handled tg_id r.1 l in
      if u == tg_id then (if r.0 then now ∷ rest else rest) else rest
