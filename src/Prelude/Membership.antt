-- ===== src/Prelude/Membership.antt =====
-- `x in xs`, repetition-free lists and the order of first occurrences, as Boolean tests.
use mathlib.Core.Path.{◌≡◌, refl, subst, sym}
use mathlib.Core.Bool.{Bool, true, false, ◌||◌, false≢true}
use mathlib.Core.Logic.{◌⊎◌, inl, inr}
use mathlib.Core.List.{List, [], ◌∷◌, ◌++◌}
use native.Mathlib.Omega.{arith}
use planner_dev.Prelude.Tests.{Bool-cases}
use planner_dev.Prelude.Lists.{All}
use planner_dev.Prelude.Equality.{Comparable, ◌==◌}

module _ {ℓ} {A : Type ℓ} ⦃e : Comparable A⦄ where
  abbrev pub mem : A → List A → Bool
  mem a [] = false
  mem a (x ∷ xs) = (a == x) || mem a xs

  abbrev pub IsNodup : List A → Type 0
  IsNodup [] = Unit
  IsNodup (x ∷ xs) = (mem x xs ≡ false) × IsNodup xs

  -- `u` is a member, and `v` stands behind it.
  abbrev pub IsBefore : A → A → List A → Type 0
  IsBefore u v [] = ⊥
  IsBefore u v (x ∷ xs) = ((u == x) ≡ true) × (mem v xs ≡ true) ⊎ IsBefore u v xs

  pub mem-append : (a : A) (xs ys : List A) → mem a (xs ++ ys) ≡ (mem a xs || mem a ys)
  mem-append a [] ys = refl
  mem-append a (x ∷ xs) ys = ground (arith, mem-append a xs ys)

  -- A fact about all members holds of each.
  pub All-mem {κ} : (P : A → Type κ) (xs : List A) (a : A) → All P xs → mem a xs ≡ true → P a
  All-mem P [] a h m = absurd (false≢true m)
  All-mem P (x ∷ xs) a h m = elim (Bool-cases (a == x)) [
    | inl same ↦ subst P (sym ((e.equal_iff a x).0 same)) h.0
    | inr other ↦ All-mem P xs a h.1 (rw other at m)
  ]
