-- ===== src/Database/Rows.antt =====
-- What the statements of the repository do with rows: search, change and order.
use planner_dev.Prelude.{
  ℕ, zero, suc, Bool, false, ◌||◌, Option, none, some, List, [], ◌∷◌, ◌++◌, if◌then◌else◌,
}

module _ {ℓ} {A : Type ℓ} where
  -- The first row that a test accepts.
  unfoldable pub find_row : (A → Bool) → List A → Option A
  find_row p [] = none
  find_row p (x ∷ l) = let rest = find_row p l in if p x then some x else rest

  -- `INSERT`
  abbrev pub add_row : List A → A → List A
  add_row l x = l ++ x ∷ []

  -- `UPDATE … WHERE`, and the change of an object that the session has loaded.
  unfoldable pub change_rows : (A → Bool) → (A → A) → List A → List A
  change_rows p f [] = []
  change_rows p f (x ∷ l) = (if p x then f x else x) ∷ change_rows p f l

  unfoldable pub any_row : (A → Bool) → List A → Bool
  any_row p [] = false
  any_row p (x ∷ l) = p x || any_row p l

  -- `ORDER BY`, where rows that compare alike stay in their order.
  unfoldable pub insert_row : (A → A → Bool) → A → List A → List A
  insert_row le x [] = x ∷ []
  insert_row le x (y ∷ l) = let rest = insert_row le x l in if le x y then x ∷ y ∷ l else y ∷ rest

  unfoldable pub order_by : (A → A → Bool) → List A → List A
  unfolding insert_row
  order_by le [] = []
  order_by le (x ∷ l) = insert_row le x (order_by le l)

  -- `OFFSET`
  abbrev pub drop : ℕ → List A → List A
  drop zero l = l
  drop (suc n) [] = []
  drop (suc n) (x ∷ l) = drop n l
