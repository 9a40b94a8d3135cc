-- ===== src/Database/RowLaws.antt =====
-- Laws of the searches, changes and orders of rows.
use planner_dev.Prelude.{
  ◌≡◌, refl, ap, ◌∙◌, Bool, true, false, ◌||◌, ◌&&◌, some, List, [], ◌∷◌, ◌++◌, if◌then◌else◌,
  arith, Bool-cases, inl, inr, is_some, map, keep,
}
use planner_dev.Database.Rows.{find_row, change_rows, any_row, insert_row, order_by}

module _ {ℓ} {A : Type ℓ} where
  pub find_row-append_none :
      (p : A → Bool) (l : List A) (x : A)
      → any_row p l ≡ false
      → p x ≡ true
      → find_row p (l ++ x ∷ []) ≡ some x
  unfolding find_row any_row
  find_row-append_none p [] x h e = rw e refl
  find_row-append_none p (y ∷ l) x h e = ground (arith, find_row-append_none p l x)

  -- A change of no row.
  pub change_rows_none :
      (p : A → Bool) (f : A → A) (l : List A) → any_row p l ≡ false → change_rows p f l ≡ l
  unfolding change_rows any_row
  change_rows_none p f [] h = refl
  change_rows_none p f (x ∷ l) h = ground (arith, change_rows_none p f l)

  -- A search finds the changed row.
  pub find_row-change_rows :
      (p q : A → Bool) (f : A → A) (l : List A)
      → ((x : A) → p (f x) ≡ p x)
      → (x : A) → find_row p l ≡ some x
      → find_row p (change_rows q f l) ≡ some (if q x then f x else x)
  unfolding find_row change_rows
  find_row-change_rows p q f [] same x h = cc
  find_row-change_rows p q f (y ∷ l) same x h =
      ground (arith, same y, find_row-change_rows p q f l same x)

  pub any_row-find_row :
      (p q : A → Bool) (l : List A) (x : A)
      → find_row p l ≡ some x
      → q x ≡ true
      → any_row q l ≡ true
  unfolding find_row any_row
  any_row-find_row p q [] x h e = cc
  any_row-find_row p q (y ∷ l) x h e = elim (Bool-cases (p y)) [
    | inl first ↦
        let h' = rw first at h in
        let same : y ≡ x = cc in let now : q y ≡ true = rw same e in rw now refl
    | inr later ↦ ground (arith, any_row-find_row p q l x (rw later at h) e)
  ]

  pub is_some-find_row : (p : A → Bool) (l : List A) → is_some (find_row p l) ≡ any_row p l
  unfolding find_row any_row
  is_some-find_row p [] = refl
  is_some-find_row p (x ∷ l) = ground (arith, is_some-find_row p l)

  pub find_row-true : (p : A → Bool) (l : List A) (x : A) → find_row p l ≡ some x → p x ≡ true
  unfolding find_row
  find_row-true p [] x h = cc
  find_row-true p (y ∷ l) x h = elim (Bool-cases (p y)) [
    | inl first ↦ let h' = rw first at h in let same : y ≡ x = cc in rw (← same) first
    | inr later ↦ find_row-true p l x (rw later at h)
  ]

  pub any_row-insert_row :
      (p : A → Bool) (le : A → A → Bool) (x : A) (l : List A)
      → any_row p (insert_row le x l) ≡ (p x || any_row p l)
  unfolding any_row insert_row
  any_row-insert_row p le x [] = refl
  any_row-insert_row p le x (y ∷ l) = ground (arith, any_row-insert_row p le x l)

  -- An order keeps the rows.
  pub any_row-order_by :
      (p : A → Bool) (le : A → A → Bool) (l : List A) → any_row p (order_by le l) ≡ any_row p l
  unfolding any_row order_by
  any_row-order_by p le [] = refl
  any_row-order_by p le (x ∷ l) =
      any_row-insert_row p le x (order_by le l) ∙ ap (λ b. p x || b) (any_row-order_by p le l)

  pub any_row-append :
      (p : A → Bool) (l m : List A) → any_row p (l ++ m) ≡ (any_row p l || any_row p m)
  unfolding any_row
  any_row-append p [] m = refl
  any_row-append p (x ∷ l) m = ground (arith, any_row-append p l m)

  pub any_row-keep :
      (p q : A → Bool) (l : List A) → any_row p (keep q l) ≡ any_row (λ x. q x && p x) l
  unfolding any_row
  any_row-keep p q [] = refl
  any_row-keep p q (x ∷ l) = ground (arith, any_row-keep p q l)

pub any_row-map {ℓ κ} :
    {A : Type ℓ} {B : Type κ} (p : B → Bool) (f : A → B) (l : List A)
    → any_row p (map f l) ≡ any_row (λ x. p (f x)) l
unfolding any_row
any_row-map p f [] = refl
any_row-map p f (x ∷ l) = rw (any_row-map p f l) refl
