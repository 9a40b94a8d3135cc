-- ===== src/History/Recent.antt =====
-- What a chat's history holds (src/planner/infra/history.py).
use planner_dev.Prelude.{
  ℕ, ◌+◌, ◌≡◌, refl, sym, ap, ◌∙◌, String, List, [], ◌∷◌, ◌++◌, leb, length, if◌then◌else◌, ◌==◌,
  string_eq, Option, none, some, Comparable, arith, Bool-cases, inl, inr, not, ◌&&◌, length-append,
  append_assoc, append-nil, Bool, true, false,
}
use planner_dev.Prelude.Dict.{Dict, get, get_or, put, get-put}
use planner_dev.History.{last_n, record_text, recent, record_all}

-- Dropping the older members first changes nothing.
last_n_again {ℓ} :
    {A : Type ℓ} (n : ℕ) (l : List A) (x : A)
    → last_n n (last_n n l ++ x ∷ []) ≡ last_n n (l ++ x ∷ [])
unfolding last_n
last_n_again n [] x = refl
last_n_again n (y ∷ l) x = elim (Bool-cases (leb (length l + 1) n)) [
  | inl all ↦ rw all refl
  | inr more ↦
      let long : leb (length (l ++ x ∷ []) + 1) n ≡ false =
        ground (arith, length-append l (x ∷ [])) in
      rw (more, long) (last_n_again n l x)
]

pub length-last_n {ℓ} : {A : Type ℓ} (n : ℕ) (l : List A) → leb (length (last_n n l)) n ≡ true
unfolding last_n
length-last_n n [] = ground arith
length-last_n n (y ∷ l) = elim (Bool-cases (leb (length l + 1) n)) [
  | inl all ↦ rw all (ground arith)
  | inr more ↦ rw more (length-last_n n l)
]

added_first :
    (b : Bool) (x : String) (l : List String)
    → (if b then x ∷ [] else []) ++ l ≡ (if b then x ∷ l else l)
added_first true x l = refl
added_first false x l = refl

abbrev or_nil : Option (List String) → List String
or_nil o = elim o [ none ↦ [] | some w ↦ w ]

none_added : (b : Bool) (x : String) → (if b && false then x ∷ [] else []) ≡ []
none_added b x = ground arith

module _ {Chat : Type 0} ⦃e : Comparable Chat⦄ (strip : String → String) where
  -- The texts of one chat that are not blank.
  unfoldable pub texts_of : Chat → List (Chat × String) → List String
  texts_of chat [] = []
  texts_of chat ((c, text) ∷ l) =
      let rest = texts_of chat l in
      if (c == chat) && not (strip text == "") then strip text ∷ rest else rest

module _ {Chat : Type 0} ⦃e : Comparable Chat⦄ (strip : String → String) (max_turns : ℕ) where
  record_blank :
      (h : Dict Chat (List String)) (c : Chat) (text : String)
      → (strip text == "") ≡ true
      → record_text strip max_turns h c text ≡ h
  unfolding record_text
  record_blank h c text blank = rw blank refl

  record_filled :
      (h : Dict Chat (List String)) (c : Chat) (text : String)
      → (strip text == "") ≡ false
      → record_text strip max_turns h c text
        ≡ put h c (last_n max_turns (get_or h c [] ++ strip text ∷ []))
  unfolding record_text
  record_filled h c text filled = rw filled refl

  recent-record_text :
      (h : Dict Chat (List String)) (c chat : Chat) (text : String) (past : List String)
      → recent strip max_turns h chat ≡ last_n max_turns past
      → recent strip max_turns (record_text strip max_turns h c text) chat
        ≡ last_n max_turns
            (past ++ (if (c == chat) && not (strip text == "") then strip text ∷ [] else []))
  recent-record_text h c chat text past same = elim (Bool-cases (strip text == "")) [
    | inl blank ↦
        ap (λ g. recent strip max_turns g chat) (record_blank h c text blank)
        ∙ (same ∙ rw (blank, none_added (c == chat) (strip text), append-nil past) refl)
    | inr filled ↦
        let v = last_n max_turns (get_or h c [] ++ strip text ∷ []) in
        let now = ap (λ g. recent strip max_turns g chat) (record_filled h c text filled) in
        let read = ap or_nil (get-put h c chat v) in
        elim (Bool-cases (c == chat)) [
          | inl here ↦
              let path = (e.equal_iff c chat).0 here in
              let before : get_or h c [] ≡ last_n max_turns past = rw path same in
              rw (filled, here)
                (now ∙ (read ∙ (rw here (rw before (last_n_again max_turns past (strip text))))))
          | inr other ↦ rw (filled, other, append-nil past) (now ∙ (read ∙ (rw other same)))
        ]
  ]

  recent-record_all_from :
      (h : Dict Chat (List String)) (l : List (Chat × String)) (chat : Chat) (past : List String)
      → recent strip max_turns h chat ≡ last_n max_turns past
      → recent strip max_turns (record_all strip max_turns h l) chat
        ≡ last_n max_turns (past ++ texts_of strip chat l)
  unfolding record_all texts_of
  recent-record_all_from h [] chat past same = same ∙ ap (last_n max_turns) (sym (append-nil past))
  recent-record_all_from h ((c, text) ∷ l) chat past same =
      let added = if (c == chat) && not (strip text == "") then strip text ∷ [] else [] in
      recent-record_all_from (record_text strip max_turns h c text) l chat (past ++ added)
        (recent-record_text h c chat text past same)
      ∙ ap (last_n max_turns) (
          append_assoc past added (texts_of strip chat l)
          ∙ ap (λ r. past ++ r)
              (added_first ((c == chat) && not (strip text == "")) (strip text)
                (texts_of strip chat l)))

  -- However the messages of the chats are interleaved, the history of a chat holds the last
  -- `max_turns` of its own texts that are not blank, stripped and in order.
  pub recent-record_all :
      (l : List (Chat × String)) (chat : Chat)
      → recent strip max_turns (record_all strip max_turns [] l) chat
        ≡ last_n max_turns (texts_of strip chat l)
  recent-record_all l chat = recent-record_all_from [] l chat [] start
    where
      start : recent strip max_turns [] chat ≡ last_n max_turns []
      start = unfold get last_n in refl
