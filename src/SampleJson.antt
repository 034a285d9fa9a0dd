-- ===== src/SampleJson.antt =====
-- A small instance of the JSON interface, which shows that its laws can hold: texts, and objects
-- whose members are texts.
use pirs.Prelude.{◌≡◌, refl, Option, none, some, List, [], ◌∷◌, ◌++◌, if◌then◌else◌, ◌>>=◌, arith}
use pirs.Prelude.Text.{Text, lit, text_eq, text_eq_refl}
use pirs.Json.{JsonLib}

pub data SampleValue : Type 0 where
  null : SampleValue
  str : Text → SampleValue
  obj : List (Text × Text) → SampleValue

unfoldable pub member : Text → List (Text × Text) → Option SampleValue
unfolding text_eq
member k [] = none
member k ((j, v) ∷ m) = if text_eq j k then some (str v) else member k m

abbrev pub sample_get : SampleValue → Text → Option SampleValue
sample_get null k = none
sample_get (str s) k = none
sample_get (obj m) k = member k m

abbrev pub sample_as_str : SampleValue → Option Text
sample_as_str null = none
sample_as_str (str s) = some s
sample_as_str (obj m) = none

unfoldable pub show_members : List (Text × Text) → Text
unfolding lit
show_members [] = []
show_members ((k, v) ∷ m) = k ++ (lit ":" ++ (v ++ (lit "," ++ show_members m)))

abbrev pub named_members : List (Text × Text) → List (Text × SampleValue)
named_members [] = []
named_members ((k, v) ∷ m) = (k, str v) ∷ named_members m

abbrev pub sample_members : SampleValue → Option (List (Text × SampleValue))
sample_members null = none
sample_members (str s) = none
sample_members (obj m) = some (named_members m)

abbrev pub sample_to_string : SampleValue → Text
sample_to_string null = lit "null"
sample_to_string (str s) = s
sample_to_string (obj m) = lit "{" ++ (show_members m ++ lit "}")

abbrev pub sample_insert : SampleValue → Text → Text → Option SampleValue
sample_insert null k s = none
sample_insert (str t) k s = none
sample_insert (obj m) k s = some (obj ((k, s) ∷ m))

pub sample_get_insert :
    (v w : SampleValue) (k s : Text)
    → sample_insert v k s ≡ some w
    → (sample_get w k >>= sample_as_str) ≡ some s
unfolding member
sample_get_insert null w k s e = absurd (ground arith)
sample_get_insert (str t) w k s e = absurd (ground arith)
sample_get_insert (obj m) w k s e = ground (arith, text_eq_refl k)

pub sample_get_object : (k s : Text) → (sample_get (obj ((k, s) ∷ [])) k >>= sample_as_str) ≡ some s
unfolding member
sample_get_object k s = ground (arith, text_eq_refl k)

abbrev pub sample_json : JsonLib
sample_json = record {
  Value = SampleValue;
  null = null;
  get = sample_get;
  as_str = sample_as_str;
  members = sample_members;
  items = λ v. none;
  to_string = sample_to_string;
  insert_str = sample_insert;
  object_str = λ k s. obj ((k, s) ∷ []);
  get_null = λ k. refl;
  get_insert = sample_get_insert;
  get_object = sample_get_object;
}
