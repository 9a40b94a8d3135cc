-- ===== src/Capability/Labels.antt =====
-- The labels of the required skills (src/planner/domain/capability.py): each stands under its own key,
-- and every skill that is not empty has a key.
use planner_dev.Prelude.{
  ◌≡◌, refl, ap, ◌∙◌, sym, String, Bool, true, not, ◌||◌, some, List, [], ◌∷◌, ◌++◌, map, mem,
  nat_eq, ◌==◌, string_eq, All, arith, Bool-cases, inl, inr, beq_refl, mem-append, Option-cases,
  map-append, All-imp, if◌then◌else◌,
}
use planner_dev.Prelude.Dict.{Dict, keys, get, put, set_default}
use planner_dev.Keys.{mem-keys-put, get_absent}
use planner_dev.Capability.{SkillText, label_by_key, labels_where, norm}

module _ (text : SkillText) where
  -- Every label stands under its own key.
  abbrev pub IsKeyed : Dict String String → Type 0
  IsKeyed d = All (λ kv. kv.0 ≡ norm text kv.1) d

  put-IsKeyed :
      (d : Dict String String) (label : String)
      → IsKeyed d
      → IsKeyed (put d (norm text label) label)
  unfolding put
  put-IsKeyed [] label h = (refl, tt)
  put-IsKeyed ((k, v) ∷ d) label h = elim (Bool-cases (k == norm text label)) [
    | inl same ↦ rw same ((string_eq.equal_iff k (norm text label)).0 same, h.1)
    | inr other ↦ rw other (h.0, put-IsKeyed d label h.1)
  ]

  -- A key is known after a default is set for it, and no key is lost.
  mem-keys-set_default :
      (d : Dict String String) (j k v : String)
      → mem j (keys (set_default d k v)) ≡ ((j == k) || mem j (keys d))
  unfolding set_default
  mem-keys-set_default d j k v = elim (Option-cases (get d k)) [
    | inl new ↦ rw (set_default, new) (mem-keys-put d j k v)
    | inr (w, old) ↦ elim (Bool-cases (j == k)) [
      | inl same ↦
          let path = (string_eq.equal_iff j k).0 same in
          rw (set_default, old, same) (ap (λ x. mem x (keys d)) path ∙ known w old)
      | inr other ↦ rw (set_default, old, other) refl
    ]
  ]
    where
      known : (w : String) → get d k ≡ some w → mem k (keys d) ≡ true
      known w old = elim (Bool-cases (mem k (keys d))) [
        | inl there ↦ there
        | inr absent ↦ let e = get_absent d k absent in cc
      ]

  set_default-IsKeyed :
      (d : Dict String String) (label : String)
      → IsKeyed d
      → IsKeyed (set_default d (norm text label) label)
  unfolding set_default
  set_default-IsKeyed d label h = elim (Option-cases (get d (norm text label))) [
    | inl new ↦ rw (set_default, new) (put-IsKeyed d label h)
    | inr (w, old) ↦ rw (set_default, old) h
  ]

  pub label_by_key-IsKeyed :
      (d : Dict String String) (l : List String) → IsKeyed d → IsKeyed (label_by_key text d l)
  unfolding label_by_key
  label_by_key-IsKeyed d [] h = h
  label_by_key-IsKeyed d (s ∷ l) h = elim (Bool-cases (text.strip s == "")) [
    | inl empty ↦ rw empty (label_by_key-IsKeyed d l h)
    | inr filled ↦ rw filled (
        label_by_key-IsKeyed (set_default d (norm text (text.strip s)) (text.strip s)) l
          (set_default-IsKeyed d (text.strip s) h))
  ]

  -- The keys of more skills include those of fewer.
  mem-keys-label_by_key :
      (d : Dict String String) (l : List String) (k : String)
      → mem k (keys d) ≡ true
      → mem k (keys (label_by_key text d l)) ≡ true
  unfolding label_by_key
  mem-keys-label_by_key d [] k h = h
  mem-keys-label_by_key d (s ∷ l) k h = elim (Bool-cases (text.strip s == "")) [
    | inl empty ↦ rw empty (mem-keys-label_by_key d l k h)
    | inr filled ↦ rw filled (
        let key = norm text (text.strip s) in
        mem-keys-label_by_key (set_default d key (text.strip s)) l k
          (mem-keys-set_default d k key (text.strip s) ∙ or_right (k == key) (mem k (keys d)) h))
  ]
    where
      or_right : (b m : Bool) → m ≡ true → (b || m) ≡ true
      or_right b m h = ground arith

  -- A required skill is empty or has its key.
  abbrev pub HasKey : List String → String → Type 0
  HasKey known r = ((text.strip r == "") || mem (norm text (text.strip r)) known) ≡ true

  pub label_by_key-HasKey :
      (d : Dict String String) (l : List String) → All (HasKey (keys (label_by_key text d l))) l
  unfolding label_by_key
  label_by_key-HasKey d [] = tt
  label_by_key-HasKey d (s ∷ l) = (first, label_by_key-HasKey later l)
    where
      key : String
      key = norm text (text.strip s)

      later : Dict String String
      later = if text.strip s == "" then d else set_default d key (text.strip s)

      first : HasKey (keys (label_by_key text d (s ∷ l))) s
      first = elim (Bool-cases (text.strip s == "")) [
        | inl empty ↦ rw empty refl
        | inr filled ↦ rw filled (
            mem-keys-label_by_key (set_default d key (text.strip s)) l key
              (mem-keys-set_default d key key (text.strip s) ∙ rw (beq_refl key) refl))
      ]

  -- The labels of the accepted keys are accepted by their own keys.
  pub labels_where-All :
      (p : String → Bool) (d : Dict String String)
      → IsKeyed d
      → All (λ label. p (norm text label) ≡ true) (labels_where text p d)
  unfolding labels_where
  labels_where-All p [] h = tt
  labels_where-All p ((k, label) ∷ d) h = elim (Bool-cases (p k)) [
    | inl accepted ↦ rw accepted (rw (← h.0) accepted, labels_where-All p d h.1)
    | inr refused ↦ rw refused (labels_where-All p d h.1)
  ]

  -- A key is one of an accepted or of a refused label.
  pub mem-labels_where :
      (p : String → Bool) (d : Dict String String) (k : String)
      → IsKeyed d
      → mem k (map (norm text) (labels_where text p d ++ labels_where text (λ j. not (p j)) d))
        ≡ mem k (keys d)
  unfolding labels_where
  mem-labels_where p d k h =
      ap (mem k)
        (map-append (norm text) (labels_where text p d) (labels_where text (λ j. not (p j)) d))
      ∙ (mem-append k (map (norm text) (labels_where text p d))
            (map (norm text) (labels_where text (λ j. not (p j)) d))
          ∙ halves d h)
    where
      halves :
          (d : Dict String String)
          → IsKeyed d
          → (mem k (map (norm text) (labels_where text p d))
              || mem k (map (norm text) (labels_where text (λ j. not (p j)) d)))
            ≡ mem k (keys d)
      halves [] h = refl
      halves ((j, label) ∷ d) h =
          let same : (k == norm text label) ≡ (k == j) = ap (λ x. k == x) (sym h.0) in
          ground (arith, halves d h.1, same)

  -- Every label is one of some texts.
  abbrev pub IsLabelled : List String → Dict String String → Type 0
  IsLabelled known d = All (λ kv. mem kv.1 known ≡ true) d

  put-IsLabelled :
      (known : List String) (d : Dict String String) (k label : String)
      → mem label known ≡ true
      → IsLabelled known d
      → IsLabelled known (put d k label)
  unfolding put
  put-IsLabelled known [] k label e h = (e, tt)
  put-IsLabelled known ((j, v) ∷ d) k label e h = elim (Bool-cases (j == k)) [
    | inl same ↦ rw same (e, h.1)
    | inr other ↦ rw other (h.0, put-IsLabelled known d k label e h.1)
  ]

  set_default-IsLabelled :
      (known : List String) (d : Dict String String) (k label : String)
      → mem label known ≡ true
      → IsLabelled known d
      → IsLabelled known (set_default d k label)
  unfolding set_default
  set_default-IsLabelled known d k label e h = elim (Option-cases (get d k)) [
    | inl new ↦ rw (set_default, new) (put-IsLabelled known d k label e h)
    | inr (w, old) ↦ rw (set_default, old) h
  ]

  label_by_key-IsLabelled :
      (known : List String) (d : Dict String String) (l : List String)
      → All (λ s. mem (text.strip s) known ≡ true) l
      → IsLabelled known d
      → IsLabelled known (label_by_key text d l)
  unfolding label_by_key
  label_by_key-IsLabelled known d [] e h = h
  label_by_key-IsLabelled known d (s ∷ l) e h = elim (Bool-cases (text.strip s == "")) [
    | inl empty ↦ rw empty (label_by_key-IsLabelled known d l e.1 h)
    | inr filled ↦ rw filled (
        let key = norm text (text.strip s) in
        label_by_key-IsLabelled known (set_default d key (text.strip s)) l e.1
          (set_default-IsLabelled known d key (text.strip s) e.0 h))
  ]

  All-mem-map : (l : List String) → All (λ s. mem (text.strip s) (map text.strip l) ≡ true) l
  All-mem-map [] = tt
  All-mem-map (s ∷ l) = (
    rw (beq_refl (text.strip s)) refl,
    All-imp _ _ (λ r known. or_right (text.strip r == text.strip s) _ known) l (All-mem-map l),
  )
    where
      or_right : (b m : Bool) → m ≡ true → (b || m) ≡ true
      or_right b m h = ground arith

  -- The labels are required skills without their outer spaces.
  pub labels_where-IsRequired :
      (p : String → Bool) (l : List String)
      → All
          (λ label. mem label (map text.strip l) ≡ true)
          (labels_where text p (label_by_key text [] l))
  unfolding labels_where
  labels_where-IsRequired p l =
      kept (label_by_key text [] l)
        (label_by_key-IsLabelled (map text.strip l) [] l (All-mem-map l) tt)
    where
      kept :
          (d : Dict String String)
          → IsLabelled (map text.strip l) d
          → All (λ label. mem label (map text.strip l) ≡ true) (labels_where text p d)
      kept [] h = tt
      kept ((k, label) ∷ d) h = elim (Bool-cases (p k)) [
        | inl accepted ↦ rw accepted (h.0, kept d h.1)
        | inr refused ↦ rw refused (kept d h.1)
      ]
