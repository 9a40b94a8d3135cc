-- ===== src/Payload/Json.antt =====
-- JSON values, and the standard library's texts of identifiers and dates, a parameter with laws,
-- as src/planner/app/add_project.py uses them.
use planner_dev.Prelude.{
  ℕ, String, ◌≡◌, Option, none, some, if◌then◌else◌, false, ◌==◌, string_eq, Result, ok, err,
  or_raise, key_error, type_error,
}
use planner_dev.Models.{Message}

-- A text of the payload: a plain one, or the message of a risk flag.
pub data Text : Type 0 where
  plain : String → Text
  message : Message → Text

mutual
  pub data Json : Type 0 where
    null : Json
    num : ℕ → Json
    str : Text → Json
    arr : Items → Json
    obj : Fields → Json

  pub data Items : Type 0 where
    nil : Items
    cons : Json → Items → Items

  pub data Fields : Type 0 where
    end : Fields
    field : String → Json → Fields → Fields

-- `str(uuid)`, `UUID(text)`, `day.isoformat()` and `date.fromisoformat(text)`; the parsers raise
-- `ValueError` where they give nothing.
pub record Codec : Type 0 where
  pub uuid_text : ℕ → String
  pub uuid_of : String → Option ℕ
  pub date_text : ℕ → String
  pub date_of : String → Option ℕ

-- What is printed can be parsed, and is not empty.
pub record CodecLaws (c : Codec) : Type 0 where
  pub uuid_back : (u : ℕ) → c.uuid_of (c.uuid_text u) ≡ some u
  pub uuid_filled : (u : ℕ) → (c.uuid_text u == "") ≡ false
  pub date_back : (d : ℕ) → c.date_of (c.date_text d) ≡ some d
  pub date_filled : (d : ℕ) → (c.date_text d == "") ≡ false

-- `payload.get(key)`
unfoldable pub find : Fields → String → Option Json
find end key = none
find (field k v fs) key = if k == key then some v else find fs key

-- `payload[key]` on an object.
unfoldable pub item : Json → String → Result Json
unfolding find
item (obj fs) key = or_raise key_error (find fs key)
item _ key = err type_error

-- The list under `payload.get(key, [])`, and under `payload[key]`.
abbrev pub list_of : Json → Result Items
list_of (arr xs) = ok xs
list_of _ = err type_error

abbrev pub get_list : Option Json → Result Items
get_list none = ok nil
get_list (some j) = list_of j

unfoldable pub optional_list : Json → String → Result Items
unfolding find
optional_list (obj fs) key = get_list (find fs key)
optional_list _ key = err type_error
