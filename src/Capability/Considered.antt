-- ===== src/Capability/Considered.antt =====
-- Who is suggested, and with which skills (src/planner/domain/capability.py).
use planner_dev.Prelude.{
  ℕ, zero, suc, ◌≡◌, ◌≢◌, refl, ap, ◌∙◌, String, Bool, true, false, not, ◌||◌, ◌&&◌, Option, none,
  some, List, [], ◌∷◌, ◌++◌, map, keep, mem, nat_eq, ◌==◌, string_eq, All, arith, Bool-cases, inl,
  inr, ◌⊎◌, beq_refl, get_elem?, All-imp, All-append,
}
use planner_dev.Prelude.Dict.{Dict, keys}
use planner_dev.Database.Rows.{order_by, any_row}
use planner_dev.Database.RowLaws.{any_row-order_by, any_row-map, any_row-keep}
use planner_dev.Capability.{
  Candidate, AssigneeSuggestion, SkillText, ranks_before, label_by_key, labels_where, norm,
  suggestion, is_considered, limited, suggest_assignees,
}
use planner_dev.Capability.Ranking.{All-take, All-order_by}
use planner_dev.Capability.Labels.{
  HasKey, label_by_key-IsKeyed, label_by_key-HasKey, labels_where-All, labels_where-IsRequired,
  mem-labels_where,
}

-- One of the bound people, or without a binding one who is not external or as external allowed.
abbrev pub IsAllowed : (include_external : Bool) → (restrict_to : List ℕ) → Candidate → Type 0
IsAllowed include_external restrict_to c =
    (mem c.person_id restrict_to ≡ true)
    ⊎ (restrict_to ≡ []) × ((c.is_external ≡ false) ⊎ (include_external ≡ true))

-- Not one of the bound people, or without a binding an external one where none is allowed.
abbrev pub IsBarred : (include_external : Bool) → (restrict_to : List ℕ) → Candidate → Type 0
IsBarred include_external restrict_to c =
    (mem c.person_id restrict_to ≡ false)
    × ((restrict_to ≢ []) ⊎ (c.is_external ≡ true) × (include_external ≡ false))

considered-IsAllowed :
    (text : SkillText) (include_external : Bool) (restrict_to : List ℕ) (c : Candidate)
    → is_considered text include_external restrict_to c ≡ true
    → IsAllowed include_external restrict_to c
considered-IsAllowed text include_external [] c h = elim (Bool-cases c.is_external) [
  | inl external ↦ inr (refl, inr (ground (arith, h, external)))
  | inr internal ↦ inr (refl, inl internal)
]
considered-IsAllowed text include_external (p ∷ l) c h = inl h

not_considered-IsBarred :
    (text : SkillText) (include_external : Bool) (restrict_to : List ℕ) (c : Candidate)
    → is_considered text include_external restrict_to c ≡ false
    → IsBarred include_external restrict_to c
not_considered-IsBarred text include_external [] c h =
    (refl, inr (ground (arith, h), ground (arith, h)))
not_considered-IsBarred text include_external (p ∷ l) c h = (h, inl (λ e. cc))

All-from_positions :
    {A : Type 0} (P : A → Type 0) (l : List A)
    → ((i : ℕ) (x : A) → get_elem? l i ≡ some x → P x)
    → All P l
All-from_positions P [] h = tt
All-from_positions P (x ∷ l) h = (h 0 x refl, All-from_positions P l (λ i y e. h (suc i) y e))

module _ (text : SkillText) (required_skills : List String) (candidates : List Candidate)
    (include_external : Bool) (restrict_to : List ℕ) where
  -- A suggestion: of an allowed candidate, with the required skills that the candidate has and those
  -- that the candidate has not. Skills are compared without outer spaces and without case.
  pub record IsSuggestion (s : AssigneeSuggestion) : Type 0 where
    pub candidate : Candidate
    pub position : ℕ
    pub is_candidate : get_elem? candidates position ≡ some candidate
    pub same_person : s.person_id ≡ candidate.person_id
    pub same_name : s.name ≡ candidate.name
    pub same_load : s.load_hours ≡ candidate.load_hours
    pub allowed : IsAllowed include_external restrict_to candidate
    pub has_covered :
        All
          (λ label. mem (norm text label) (map (norm text) candidate.skills) ≡ true)
          s.covered_skills
    pub lacks_missing :
        All
          (λ label. not (mem (norm text label) (map (norm text) candidate.skills)) ≡ true)
          s.missing_skills
    pub only_required :
        All
          (λ label. mem label (map text.strip required_skills) ≡ true)
          (s.covered_skills ++ s.missing_skills)
    pub each_required :
        All
          (λ r.
            ((text.strip r == "")
              || mem
                  (norm text (text.strip r))
                  (map (norm text) (s.covered_skills ++ s.missing_skills)))
            ≡ true)
          required_skills

  abbrev labels : Dict String String
  labels = label_by_key text [] required_skills

  suggestion-IsSuggestion :
      (c : Candidate) (i : ℕ)
      → get_elem? candidates i ≡ some c
      → is_considered text include_external restrict_to c ≡ true
      → IsSuggestion (suggestion text labels c)
  unfolding suggestion
  suggestion-IsSuggestion c i e h =
      let has = λ (k : String). mem k (map (norm text) c.skills) in
      let keyed = label_by_key-IsKeyed text [] required_skills tt in
      record {
        candidate = c;
        position = i;
        is_candidate = e;
        same_person = refl;
        same_name = refl;
        same_load = refl;
        allowed = considered-IsAllowed text include_external restrict_to c h;
        has_covered = labels_where-All text has labels keyed;
        lacks_missing = labels_where-All text (λ (k : String). not (has k)) labels keyed;
        only_required =
            All-append _ (labels_where text has labels)
              (labels_where text (λ (k : String). not (has k)) labels)
              (labels_where-IsRequired text has required_skills)
              (labels_where-IsRequired text (λ (k : String). not (has k)) required_skills);
        each_required =
            All-imp (HasKey text (keys labels)) _
              (λ r known.
                ap (λ b. (text.strip r == "") || b)
                  (mem-labels_where text has labels (norm text (text.strip r)) keyed)
                ∙ known)
              required_skills (label_by_key-HasKey text [] required_skills);
      }

  keep-All :
      (P : AssigneeSuggestion → Type 0) (l : List Candidate)
      → All
          (λ c.
            is_considered text include_external restrict_to c ≡ true → P (suggestion text labels c))
          l
      → All P
          (map (suggestion text labels) (keep (is_considered text include_external restrict_to) l))
  keep-All P [] h = tt
  keep-All P (c ∷ l) h = elim (Bool-cases (is_considered text include_external restrict_to c)) [
    | inl considered ↦ rw considered (h.0 considered, keep-All P l h.1)
    | inr skipped ↦ rw skipped (keep-All P l h.1)
  ]

  considered-IsSuggestion : All IsSuggestion (
      map
        (suggestion text labels)
        (keep (is_considered text include_external restrict_to) candidates))
  considered-IsSuggestion = keep-All IsSuggestion candidates (
      All-from_positions
        (λ c.
          is_considered text include_external restrict_to c ≡ true
          → IsSuggestion (suggestion text labels c))
        candidates (λ i c e. λ h. suggestion-IsSuggestion c i e h))

  -- Whether a person is suggested.
  abbrev pub is_suggested : ℕ → List AssigneeSuggestion → Bool
  is_suggested person_id l = any_row (λ s. s.person_id == person_id) l

  any_row-get_elem? :
      (p : Candidate → Bool) (l : List Candidate) (i : ℕ) (c : Candidate)
      → get_elem? l i ≡ some c
      → p c ≡ true
      → any_row p l ≡ true
  unfolding any_row
  any_row-get_elem? p [] i c e h = cc
  any_row-get_elem? p (x ∷ l) zero c e h =
      let same : x ≡ c = cc in let now : p x ≡ true = rw same h in rw now refl
  any_row-get_elem? p (x ∷ l) (suc i) c e h = ground (arith, any_row-get_elem? p l i c e h)

  considered-is_suggested :
      (c : Candidate) (i : ℕ)
      → get_elem? candidates i ≡ some c
      → is_considered text include_external restrict_to c ≡ true
      → is_suggested c.person_id
          (suggest_assignees text required_skills candidates include_external none restrict_to)
        ≡ true
  unfolding suggest_assignees suggestion
  considered-is_suggested c i e h =
      let considered = is_considered text include_external restrict_to in
      let all = map (suggestion text labels) (keep considered candidates) in
      let has_id = λ (s : AssigneeSuggestion). s.person_id == c.person_id in
      any_row-order_by has_id (ranks_before text) all
      ∙ (any_row-map has_id (suggestion text labels) (keep considered candidates)
          ∙ (any_row-keep (λ x. x.person_id == c.person_id) considered candidates
              ∙ any_row-get_elem? (λ x. considered x && (x.person_id == c.person_id)) candidates i c
                  e (rw (h, beq_refl c.person_id) refl)))

  -- Everyone suggested is a candidate whom the binding allows, one of the bound people if there is a
  -- binding, and comes with the required skills that the candidate has as covered and all the others
  -- as missing; and without a limit every candidate is suggested or barred.
  pub suggest_assignees-IsSuggestion :
      (limit : Option ℕ)
      → All IsSuggestion
          (suggest_assignees text required_skills candidates include_external limit restrict_to)
        × All
            (λ c.
              IsBarred include_external restrict_to c
              ⊎ (is_suggested c.person_id (
                    suggest_assignees text required_skills candidates include_external none
                      restrict_to)
                  ≡ true))
            candidates
  unfolding suggest_assignees
  suggest_assignees-IsSuggestion limit = (
    limited-All limit (order_by (ranks_before text) all)
        (All-order_by IsSuggestion (ranks_before text) all considered-IsSuggestion),
    All-from_positions _ candidates (λ i c e. elim (Bool-cases (considered c)) [
      | inl now ↦ inr (considered-is_suggested c i e now)
      | inr skipped ↦ inl (not_considered-IsBarred text include_external restrict_to c skipped)
    ]),
  )
    where
      considered : Candidate → Bool
      considered = is_considered text include_external restrict_to

      all : List AssigneeSuggestion
      all = map (suggestion text labels) (keep considered candidates)

      limited-All :
          (limit : Option ℕ) (l : List AssigneeSuggestion)
          → All IsSuggestion l
          → All IsSuggestion (limited text limit l)
      limited-All none l h = h
      limited-All (some n) l h = All-take IsSuggestion n l h
