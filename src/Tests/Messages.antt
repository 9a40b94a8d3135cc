-- ===== src/Tests/Messages.antt =====
-- Throttled messages of two users.
use planner_dev.Prelude.{ℕ, nat_eq, ◌≡◌, refl, List, [], ◌∷◌}
use planner_dev.Prelude.Dict.{get, put}
use planner_dev.Throttle.{Event, anonymous, from_user, handled}
use planner_dev.Throttle.Spacing.{
  spaced_out, times_of, IsSpaced, handled-spaced_out, handled-IsSpaced,
}

abbrev events : List Event
events =
    from_user 1 0
    ∷ from_user 2 4
    ∷ from_user 1 9
    ∷ anonymous 9
    ∷ from_user 1 10
    ∷ from_user 1 19
    ∷ []

passed : handled 10 1 [] events ≡ 0 ∷ 10 ∷ []
unfolding handled get put
passed = refl

handled-spaced_out_example :
    handled 10 1 [] events ≡ spaced_out 10 (get {K = ℕ} {V = ℕ} [] 1) (times_of 1 events)
handled-spaced_out_example = handled-spaced_out 10 1 [] events

handled-IsSpaced_example : IsSpaced 10 (handled 10 1 [] events)
handled-IsSpaced_example = handled-IsSpaced 10 1 [] events
