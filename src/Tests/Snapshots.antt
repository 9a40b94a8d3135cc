-- ===== src/Tests/Snapshots.antt =====
-- A plan and its snapshot, with identifiers and days printed as that many strokes.
use planner_dev.Prelude.{
  Bool-cases, inl, inr, arith, zero, suc, ℕ, String, false, Option, none, some, ok, ◌≡◌, refl, ◌==◌,
  string_eq, ap,
}
use planner_dev.Payload.Json.{Codec, CodecLaws}
use planner_dev.Payload.Writing.{serialize_plan}
use planner_dev.Payload.Reading.{deserialize_plan, deserialize_allocations}
use planner_dev.Payload.Roundtrip.{
  allocations_in, deserialize_plan-serialize_plan, deserialize_allocations-serialize_plan,
}
use planner_dev.Tests.Samples.{outcome}
use Prim.Native.String.{[], ◌∷◌}

unfoldable pub strokes : ℕ → String
strokes zero = "I"
strokes (suc n) = "I" ∷ strokes n

unfoldable pub count_more : String → ℕ
count_more [] = 0
count_more (c ∷ s) = suc (count_more s)

unfoldable pub count_strokes : String → Option ℕ
count_strokes [] = none
count_strokes (c ∷ s) = some (count_more s)

abbrev pub tally : Codec
tally = record {
  uuid_text = strokes;
  uuid_of = count_strokes;
  date_text = strokes;
  date_of = count_strokes;
}

count-strokes : (n : ℕ) → count_more (strokes n) ≡ suc n
unfolding count_more strokes
count-strokes zero = refl
count-strokes (suc n) = ap suc (count-strokes n)

strokes_back : (n : ℕ) → count_strokes (strokes n) ≡ some n
unfolding count_strokes strokes count_more
strokes_back zero = refl
strokes_back (suc n) = ap some (count-strokes n)

strokes_filled : (n : ℕ) → (strokes n == "") ≡ false
strokes_filled n = elim (Bool-cases (strokes n == "")) [
  | inl same ↦
      let empty = (string_eq.equal_iff (strokes n) "").0 same in
      let none_left : count_more (strokes n) ≡ count_more "" = ap count_more empty in
      absurd (omega (arith, count-strokes n, none_left, count_nothing))
  | inr other ↦ other
]
  where
    count_nothing : count_more "" ≡ 0
    count_nothing = unfold count_more in refl

pub tally_laws : CodecLaws tally
tally_laws = record {
  uuid_back = strokes_back;
  uuid_filled = strokes_filled;
  date_back = strokes_back;
  date_filled = strokes_filled;
}

deserialize_plan-serialize_plan_example :
    deserialize_plan tally (serialize_plan tally outcome) ≡ ok outcome
deserialize_plan-serialize_plan_example = deserialize_plan-serialize_plan tally tally_laws outcome

deserialize_allocations-serialize_plan_example :
    deserialize_allocations tally (serialize_plan tally outcome)
    ≡ ok (allocations_in outcome.assignments)
deserialize_allocations-serialize_plan_example =
    deserialize_allocations-serialize_plan tally tally_laws outcome
