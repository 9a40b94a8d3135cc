-- ===== src/Capability/Ranking.antt =====
-- The order of the suggestions (src/planner/domain/capability.py).
use planner_dev.Prelude.{
  ℕ, zero, suc, ◌+◌, ◌≡◌, refl, String, Bool, true, false, Option, none, some, List, [], ◌∷◌, map,
  keep, take, length, mem, nat_eq, string_eq, All, arith, Bool-cases, inl, inr, ◌<◌, ◌≤◌, ltb,
  ltb→lt, ◌*◌, ap, ◌∙◌, ◌⊎◌, if◌then◌else◌,
}
use planner_dev.Prelude.Dict.{Dict}
use planner_dev.Database.Rows.{insert_row, order_by}
use planner_dev.Capability.{
  Candidate, AssigneeSuggestion, SkillText, ranks_before, label_by_key, labels_where, norm,
  suggestion, is_considered, lt_fraction, coverage_of, limited, suggest_assignees,
}

-- Neighbours are in the order of a sort.
abbrev IsRanked : {A : Type 0} → (A → A → Bool) → List A → Type 0
IsRanked le [] = Unit
IsRanked le (x ∷ []) = Unit
IsRanked le (x ∷ y ∷ l) = (le x y ≡ true) × IsRanked le (y ∷ l)

module _ {A : Type 0} (le : A → A → Bool) (total : (x y : A) → le x y ≡ false → le y x ≡ true) where
  -- An element that ranks behind `x` may follow it.
  insert_row-IsRanked_behind :
      (x y : A) (l : List A)
      → le y x ≡ true
      → IsRanked le (y ∷ l)
      → IsRanked le (y ∷ insert_row le x l)
  unfolding insert_row
  insert_row-IsRanked_behind x y [] h k = (h, tt)
  insert_row-IsRanked_behind x y (z ∷ l) h k = elim (Bool-cases (le x z)) [
    | inl first ↦ rw first (h, (first, k.1))
    | inr later ↦ rw later (k.0, insert_row-IsRanked_behind x z l (total x z later) k.1)
  ]

  insert_row-IsRanked : (x : A) (l : List A) → IsRanked le l → IsRanked le (insert_row le x l)
  unfolding insert_row
  insert_row-IsRanked x [] h = tt
  insert_row-IsRanked x (y ∷ l) h = elim (Bool-cases (le x y)) [
    | inl first ↦ rw first (first, h)
    | inr later ↦ rw later (insert_row-IsRanked_behind x y l (total x y later) h)
  ]

  order_by-IsRanked : (l : List A) → IsRanked le (order_by le l)
  unfolding order_by
  order_by-IsRanked [] = tt
  order_by-IsRanked (x ∷ l) = insert_row-IsRanked x (order_by le l) (order_by-IsRanked l)

take-IsRanked :
    {A : Type 0} (le : A → A → Bool) (n : ℕ) (l : List A) → IsRanked le l → IsRanked le (take n l)
take-IsRanked le zero l h = tt
take-IsRanked le (suc n) [] h = tt
take-IsRanked le (suc zero) (x ∷ l) h = tt
take-IsRanked le (suc (suc n)) (x ∷ []) h = tt
take-IsRanked le (suc (suc n)) (x ∷ y ∷ l) h = (h.0, take-IsRanked le (suc n) (y ∷ l) h.1)

pub All-take : {A : Type 0} (P : A → Type 0) (n : ℕ) (l : List A) → All P l → All P (take n l)
All-take P zero l h = tt
All-take P (suc n) [] h = tt
All-take P (suc n) (x ∷ l) h = (h.0, All-take P n l h.1)

All-insert_row :
    {A : Type 0} (P : A → Type 0) (le : A → A → Bool) (x : A) (l : List A)
    → P x
    → All P l
    → All P (insert_row le x l)
unfolding insert_row
All-insert_row P le x [] h k = (h, tt)
All-insert_row P le x (y ∷ l) h k = elim (Bool-cases (le x y)) [
  | inl first ↦ rw first (h, k)
  | inr later ↦ rw later (k.0, All-insert_row P le x l h k.1)
]

pub All-order_by :
    {A : Type 0} (P : A → Type 0) (le : A → A → Bool) (l : List A) → All P l → All P (order_by le l)
unfolding order_by
All-order_by P le [] h = tt
All-order_by P le (x ∷ l) h = All-insert_row P le x (order_by le l) h.0 (All-order_by P le l h.1)

ranks_before_total :
    (text : SkillText)
    → ((a b : String) → text.str_le a b ≡ false → text.str_le b a ≡ true)
    → (s t : AssigneeSuggestion) → ranks_before text s t ≡ false
    → ranks_before text t s ≡ true
unfolding ranks_before
ranks_before_total text total s t h = ground (arith, total s.name t.name)

module _ (text : SkillText) where
  -- A suggestion has the share of its covered skills among `n`.
  abbrev IsShare : ℕ → AssigneeSuggestion → Type 0
  IsShare n s =
      (s.coverage ≡ coverage_of text (length s.covered_skills) n) × (length s.covered_skills ≤ n)

  -- More skills covered, or as many and a lower load, or the same of both and a name not behind.
  abbrev pub IsBetter : AssigneeSuggestion → AssigneeSuggestion → Type 0
  IsBetter s t =
      (length t.covered_skills < length s.covered_skills)
      ⊎ (length s.covered_skills ≡ length t.covered_skills)
        × ((s.load_hours < t.load_hours)
            ⊎ (s.load_hours ≡ t.load_hours) × (text.str_le s.name t.name ≡ true))

  -- Of two that follow each other the first is the better one.
  abbrev pub IsBestFirst : List AssigneeSuggestion → Type 0
  IsBestFirst [] = Unit
  IsBestFirst (s ∷ []) = Unit
  IsBestFirst (s ∷ t ∷ l) = IsBetter s t × IsBestFirst (t ∷ l)

  lt_fraction-coverage_of :
      (a b n : ℕ)
      → a ≤ n
      → b ≤ n
      → lt_fraction (coverage_of text a n) (coverage_of text b n) ≡ ltb a b
  lt_fraction-coverage_of a b zero h k = ground arith
  lt_fraction-coverage_of a b (suc n) h k = ltb-mul a b
    where
      ltb-mul : (a b : ℕ) → ltb (a * suc n) (b * suc n) ≡ ltb a b
      ltb-mul zero zero = ground arith
      ltb-mul zero (suc b) =
          let e : suc b * suc n ≡ b * suc n + suc n = omega arith in ground (arith, e)
      ltb-mul (suc a) zero =
          let e : suc a * suc n ≡ a * suc n + suc n = omega arith in ground (arith, e)
      ltb-mul (suc a) (suc b) =
          let e : suc a * suc n ≡ a * suc n + suc n = omega arith in
          let f : suc b * suc n ≡ b * suc n + suc n = omega arith in
          ground (arith, e, f, ltb-mul a b)

  -- What the tests of the sort key decide.
  key-cases :
      (a b x y : ℕ) (named : Bool)
      → (if ltb b a
          then true
          else if ltb a b
          then false
          else if ltb x y
          then true
          else if ltb y x
          then false
          else named)
        ≡ true
      → (b < a) ⊎ (a ≡ b) × ((x < y) ⊎ (x ≡ y) × (named ≡ true))
  key-cases a b x y named h = elim (Bool-cases (ltb b a)) [
    | inl more ↦ inl (ltb→lt b a more)
    | inr not_more ↦
        let same : a ≡ b = ground (arith, h, not_more) in
        elim (Bool-cases (ltb x y)) [
          | inl freer ↦ inr (same, inl (ltb→lt x y freer))
          | inr not_freer ↦ inr (
            same,
            inr (ground (arith, h, not_more, not_freer), ground (arith, h, not_more, not_freer)),
          )
        ]
  ]

  ranks_before-IsBetter :
      (n : ℕ) (s t : AssigneeSuggestion)
      → IsShare n s
      → IsShare n t
      → ranks_before text s t ≡ true
      → IsBetter s t
  unfolding ranks_before
  ranks_before-IsBetter n s t hs ht h =
      let a = length s.covered_skills in
      let b = length t.covered_skills in
      let more =
        ap (λ c. lt_fraction c s.coverage) ht.0
        ∙ (ap (λ c. lt_fraction (coverage_of text b n) c) hs.0
            ∙ lt_fraction-coverage_of b a n ht.1 hs.1) in
      let fewer =
        ap (λ c. lt_fraction c t.coverage) hs.0
        ∙ (ap (λ c. lt_fraction (coverage_of text a n) c) ht.0
            ∙ lt_fraction-coverage_of a b n hs.1 ht.1) in
      key-cases a b s.load_hours t.load_hours (text.str_le s.name t.name) (rw (more, fewer) at h)

  IsRanked-IsBestFirst :
      (n : ℕ) (l : List AssigneeSuggestion)
      → All (IsShare n) l
      → IsRanked (ranks_before text) l
      → IsBestFirst l
  IsRanked-IsBestFirst n [] h k = tt
  IsRanked-IsBestFirst n (s ∷ []) h k = tt
  IsRanked-IsBestFirst n (s ∷ t ∷ l) h k =
      (ranks_before-IsBetter n s t h.0 h.1.0 k.0, IsRanked-IsBestFirst n (t ∷ l) h.1 k.1)

  length-labels_where :
      (p : String → Bool) (d : Dict String String) → length (labels_where text p d) ≤ length d
  unfolding labels_where
  length-labels_where p [] = omega arith
  length-labels_where p ((k, label) ∷ d) = ground (arith, length-labels_where p d)

  suggestion-IsShare :
      (labels : Dict String String) (l : List Candidate)
      → All (IsShare (length labels)) (map (suggestion text labels) l)
  unfolding suggestion
  suggestion-IsShare labels [] = tt
  suggestion-IsShare labels (c ∷ l) = (
    (refl, length-labels_where (λ k. mem k (map (norm text) c.skills)) labels),
    suggestion-IsShare labels l,
  )

  limited-IsBestFirst :
      (n : ℕ) (limit : Option ℕ) (l : List AssigneeSuggestion)
      → All (IsShare n) l
      → IsRanked (ranks_before text) l
      → IsBestFirst (limited text limit l)
  limited-IsBestFirst n none l h k = IsRanked-IsBestFirst n l h k
  limited-IsBestFirst n (some m) l h k =
      IsRanked-IsBestFirst n (take m l) (All-take (IsShare n) m l h)
        (take-IsRanked (ranks_before text) m l k)

  -- The suggestions come best first: of two that follow each other the first covers more of the
  -- required skills, or as many and has the lower load, or the same of both and a name that is not
  -- behind the other's, if any two names compare one way or the other.
  pub suggest_assignees-IsBestFirst :
      ((a b : String) → text.str_le a b ≡ false → text.str_le b a ≡ true)
      → (required_skills : List String) (candidates : List Candidate) (include_external : Bool)
        (limit : Option ℕ) (restrict_to : List ℕ)
      → IsBestFirst
          (suggest_assignees text required_skills candidates include_external limit restrict_to)
  unfolding suggest_assignees
  suggest_assignees-IsBestFirst total required_skills candidates include_external limit
        restrict_to =
      let before = ranks_before text in
      let labels = label_by_key text [] required_skills in
      let considered = keep (is_considered text include_external restrict_to) candidates in
      let all = map (suggestion text labels) considered in
      limited-IsBestFirst (length labels) limit (order_by before all)
        (All-order_by (IsShare (length labels)) before all (suggestion-IsShare labels considered))
        (order_by-IsRanked before (ranks_before_total text total) all)
