-- ===== src/Tests/Chats.antt =====
-- A chat's history over two chats.
use planner_dev.Prelude.{ℕ, String, ◌≡◌, refl, List, [], ◌∷◌, nat_eq}
use planner_dev.History.{last_n, recent, record_all}
use planner_dev.History.Recent.{texts_of, recent-record_all}

-- Texts with nothing to strip.
abbrev plain : String → String
plain text = text

abbrev messages : List (ℕ × String)
messages = (1, "one") ∷ (2, "two") ∷ (1, "three") ∷ (1, "") ∷ (1, "four") ∷ []

kept : last_n 2 (texts_of plain 1 messages) ≡ "three" ∷ "four" ∷ []
unfolding last_n texts_of
kept = refl

recent-record_all_example :
    recent plain 2 (record_all plain 2 [] messages) 1 ≡ last_n 2 (texts_of plain 1 messages)
recent-record_all_example = recent-record_all plain 2 messages 1
