-- ===== src/Json.antt =====
-- `serde_json::Value`, a third-party type: a parameter of the models that read tool arguments.
use pirs.Prelude.{◌≡◌, Option, none, some, List, ◌>>=◌}
use pirs.Prelude.Text.{Text}

-- What the program calls of the library: `insert_str` is `Map::insert` of a string into a value that
-- is an object, and nothing for another value, `object_str` is `json!` with one string member,
-- `members` is `as_object` and `items` is `as_array`. The laws are documented behaviour: only an object has members, and a member that was set is found.
pub record JsonLib : Type 1 where
  pub Value : Type 0
  pub null : Value
  pub get : Value → Text → Option Value
  pub as_str : Value → Option Text
  pub members : Value → Option (List (Text × Value))
  pub items : Value → Option (List Value)
  pub to_string : Value → Text
  pub insert_str : Value → Text → Text → Option Value
  pub object_str : Text → Text → Value
  pub get_null : (k : Text) → get null k ≡ none
  pub get_insert :
      (v w : Value) (k s : Text) → insert_str v k s ≡ some w → (get w k >>= as_str) ≡ some s
  pub get_object : (k s : Text) → (get (object_str k s) k >>= as_str) ≡ some s
