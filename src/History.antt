-- ===== src/History.antt =====
-- `ChatHistory` of src/planner/infra/history.py: the last texts of each chat. `str.strip` is Python's
-- standard library, a parameter; a `deque` with a `maxlen` keeps that many of its last items.
pub mod Recent
use planner_dev.Prelude.{
  ℕ, ◌+◌, String, List, [], ◌∷◌, ◌++◌, leb, length, if◌then◌else◌, ◌==◌, string_eq, Comparable,
}
use planner_dev.Prelude.Dict.{Dict, get_or, put}

-- The last `n` members.
unfoldable pub last_n {ℓ} : {A : Type ℓ} → ℕ → List A → List A
last_n n [] = []
last_n n (x ∷ l) = let rest = last_n n l in if leb (length l + 1) n then x ∷ l else rest

module _ {Chat : Type 0} ⦃e : Comparable Chat⦄ (strip : String → String) (max_turns : ℕ) where
  -- `record`, on the buffers by chat.
  unfoldable pub record_text : Dict Chat (List String) → Chat → String → Dict Chat (List String)
  unfolding last_n
  record_text by_chat chat_id text =
      let stripped = strip text in
      if stripped == ""
      then by_chat
      else put by_chat chat_id (last_n max_turns (get_or by_chat chat_id [] ++ stripped ∷ []))

  abbrev pub recent : Dict Chat (List String) → Chat → List String
  recent by_chat chat_id = get_or by_chat chat_id []

  -- Messages one after the other.
  unfoldable pub record_all :
      Dict Chat (List String) → List (Chat × String) → Dict Chat (List String)
  unfolding record_text
  record_all by_chat [] = by_chat
  record_all by_chat ((chat_id, text) ∷ l) = record_all (record_text by_chat chat_id text) l
