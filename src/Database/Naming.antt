-- ===== src/Database/Naming.antt =====
-- How a name is matched (src/planner/infra/db/repo.py).
use planner_dev.Prelude.{
  ℕ, ◌≡◌, refl, sym, ap, ◌∙◌, subst, String, Bool, true, false, ◌&&◌, ◌||◌, Option, none, some,
  List, [], ◌∷◌, ◌⊎◌, is_some, leb, ◌==◌, string_eq, mem, keep, All, All-imp, arith, Bool-cases,
  Option-cases, inl, inr, beq_refl,
}
use planner_dev.Database.Rows.{find_row, any_row}
use planner_dev.Database.RowLaws.{find_row-true, is_some-find_row}
use planner_dev.Database.Records.{TextOps}
use planner_dev.Database.People.{shorter, shortest, norm_name, is_plausible, match_person_name}

mem-find_row :
    (p : String → Bool) (l : List String) (x : String) → find_row p l ≡ some x → mem x l ≡ true
unfolding find_row
mem-find_row p [] x h = cc
mem-find_row p (y ∷ l) x h = elim (Bool-cases (p y)) [
  | inl first ↦
      let h' = rw first at h in
      let same : y ≡ x = cc in let here : (x == y) ≡ true = rw same (beq_refl x) in rw here refl
  | inr later ↦ let rest = mem-find_row p l x (rw later at h) in or_right (x == y) (mem x l) rest
]
  where
    or_right : (b m : Bool) → m ≡ true → (b || m) ≡ true
    or_right b m h = ground arith

mem-keep : (p : String → Bool) (x : String) (l : List String) → mem x (keep p l) ≡ (mem x l && p x)
mem-keep p x [] = refl
mem-keep p x (y ∷ l) = elim (Bool-cases (x == y)) [
  | inl same ↦
      let path = (string_eq.equal_iff x y).0 same in
      let here : p y ≡ p x = ap p (sym path) in ground (arith, mem-keep p x l, here, same)
  | inr other ↦ ground (arith, mem-keep p x l, other)
]

-- Nothing of no names; else a member, and no member is shorter.
abbrev IsLeast : (String → ℕ) → List String → Option String → Type 0
IsLeast len l none = l ≡ []
IsLeast len l (some x) = (mem x l ≡ true) × All (λ d. leb (len x) (len d) ≡ true) l

shorter-IsLeast :
    (len : String → ℕ) (y : String) (l : List String) (o : Option String)
    → IsLeast len l o
    → IsLeast len (y ∷ l) (shorter len y o)
shorter-IsLeast len y l none h = rw h (or_left (y == y) false (beq_refl y), (ground arith, tt))
  where
    or_left : (b m : Bool) → b ≡ true → (b || m) ≡ true
    or_left b m h = ground arith
shorter-IsLeast len y l (some x) h = elim (Bool-cases (leb (len y) (len x))) [
  | inl first ↦ rw first (
    or_left (y == y) (mem y l) (beq_refl y),
    (
      ground arith,
      All-imp (λ d. leb (len x) (len d) ≡ true) (λ d. leb (len y) (len d) ≡ true)
          (λ d k. leb_trans (len y) (len x) (len d) first k) l h.1,
    ),
  )
  | inr later ↦ rw later (or_right (x == y) (mem x l) h.0, (ground (arith, later), h.1))
]
  where
    or_left : (b m : Bool) → b ≡ true → (b || m) ≡ true
    or_left b m h = ground arith

    or_right : (b m : Bool) → m ≡ true → (b || m) ≡ true
    or_right b m h = ground arith

    leb_trans : (a b c : ℕ) → leb a b ≡ true → leb b c ≡ true → leb a c ≡ true
    leb_trans a b c h k = ground arith

shortest-IsLeast : (len : String → ℕ) (l : List String) → IsLeast len l (shortest len l)
unfolding shortest
shortest-IsLeast len [] = refl
shortest-IsLeast len (y ∷ l) = shorter-IsLeast len y l (shortest len l) (shortest-IsLeast len l)

module _ (text : TextOps) where
  -- A name for a query: one that is the query's own, or, if there is none, one that goes with it and
  -- is no longer than any other that does.
  abbrev pub IsMatch : List String → String → String → Type 0
  IsMatch candidates query c =
      let q = norm_name text query in
      (mem c candidates ≡ true)
      × (((norm_name text c == q) ≡ true)
          ⊎ (any_row (λ d. norm_name text d == q) candidates ≡ false)
            × (is_plausible text q c ≡ true)
            × All (λ d. leb (text.len c) (text.len d) ≡ true)
                (keep (is_plausible text q) candidates))

  plausible-IsMatch :
      (candidates : List String) (query c : String)
      → any_row (λ d. norm_name text d == norm_name text query) candidates ≡ false
      → IsLeast text.len (keep (is_plausible text (norm_name text query)) candidates) (some c)
      → IsMatch candidates query c
  plausible-IsMatch candidates query c inexact h =
      let q = norm_name text query in
      let both = sym (mem-keep (is_plausible text q) c candidates) ∙ h.0 in
      (
        and_first (mem c candidates) (is_plausible text q c) both,
        inr (inexact, and_second (mem c candidates) (is_plausible text q c) both, h.1),
      )
    where
      and_first : (b m : Bool) → (b && m) ≡ true → b ≡ true
      and_first b m h = ground arith

      and_second : (b m : Bool) → (b && m) ≡ true → m ≡ true
      and_second b m h = ground arith

  -- If a free text is matched, then with one of the candidates, whose normalised name is the text's,
  -- or, no candidate having that, which is plausible for the text and no longer than any other
  -- candidate that is.
  pub match_person_name-IsMatch :
      (candidates : List String) (query c : String)
      → match_person_name text candidates query ≡ some c
      → IsMatch candidates query c
  unfolding match_person_name
  match_person_name-IsMatch candidates query c h =
      let q = norm_name text query in
      elim (Bool-cases (q == "")) [
        | inl empty ↦ let h' = rw empty at h in cc
        | inr asked ↦
            let h' = rw asked at h in
            elim (Option-cases (find_row (λ d. norm_name text d == q) candidates)) [
              | inl inexact ↦
                  let no_exact =
                    sym (is_some-find_row (λ d. norm_name text d == q) candidates)
                    ∙ ap is_some inexact in
                  let e = rw inexact at h' in
                  let least = shortest-IsLeast text.len (keep (is_plausible text q) candidates) in
                  plausible-IsMatch candidates query c no_exact
                    (subst (IsLeast text.len (keep (is_plausible text q) candidates)) e least)
              | inr (x, exact) ↦
                  let e = rw exact at h' in
                  let same : x ≡ c = cc in
                  (
                    mem-find_row (λ d. norm_name text d == q) candidates c (exact ∙ ap some same),
                    inl (
                        find_row-true (λ d. norm_name text d == q) candidates c
                          (exact ∙ ap some same)),
                  )
            ]
      ]
