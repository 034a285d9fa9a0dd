-- ===== src/Truncate.antt =====
-- crates/pirs-tools/src/truncate.rs: the part of a text that is shown, as lines from the start or to
-- the end, and the cap on what the model gets of it. Theorems in `Windows`.
pub mod Windows
mod Samples
use pirs.Prelude.{
  ℕ, suc, ◌+◌, ◌-◌, ◌*◌, max, Bool, true, false, ◌||◌, List, [], ◌∷◌, ◌++◌, ltb, leb, if◌then◌else◌,
}
use pirs.Prelude.Lists.{length, drop}
use pirs.Prelude.Text.{Text, lit, byte_len, take_bytes, lines_of}

abbrev pub max_bytes : ℕ
max_bytes = 51_200

abbrev pub model_max_lines : ℕ
model_max_lines = 400

abbrev pub model_max_chars : ℕ
model_max_chars = 20_000

pub record Window : Type 0 where
  pub text : Text
  pub total_lines : ℕ
  pub start_line : ℕ
  pub end_line : ℕ
  pub truncated : Bool

-- Every line with its line feed.
unfoldable pub unlines : List Text → Text
unlines [] = []
unlines (l ∷ ls) = l ++ (10 ∷ unlines ls)

unfoldable pub truncate_line : Text → ℕ → Text
truncate_line line n = if leb (byte_len line) n then line else take_bytes n line ++ lit "..."

-- The loop of `head` after the test of the first line: the text so far and the last line shown.
unfoldable pub head_loop : ℕ → ℕ → Text → ℕ → List Text → Text × ℕ
head_loop limit count text end_line [] = (text, end_line)
head_loop limit count text end_line (l ∷ ls) =
    let rest = head_loop limit (suc count) (text ++ (l ++ (10 ∷ []))) (suc end_line) ls in
    if leb limit count || ltb max_bytes (byte_len text + byte_len l + 1)
    then (text, end_line)
    else rest

-- A first line that is too long is shown in part.
unfoldable pub head_part : ℕ → ℕ → List Text → Text × ℕ
head_part offset limit [] = ([], offset - 1)
head_part offset limit (l ∷ ls) =
    if ltb max_bytes (byte_len l + 1)
    then (truncate_line l max_bytes, offset)
    else head_loop limit 0 [] (offset - 1) (l ∷ ls)

unfoldable pub head : Text → ℕ → ℕ → Window
head content offset limit =
    let offset' = max offset 1 in
    let ls = lines_of content in
    let part = head_part offset' limit (drop (offset' - 1) ls) in
    record {
      text = part.0;
      total_lines = length ls;
      start_line = offset';
      end_line = part.1;
      truncated = ltb part.1 (length ls);
    }

unfoldable pub size_of : List Text → ℕ
size_of [] = 0
size_of (l ∷ ls) = byte_len l + 1 + size_of ls

-- `while !lines.is_empty() && size > MAX_BYTES`.
unfoldable pub shrink_lines : ℕ → List Text → List Text
shrink_lines size [] = []
shrink_lines size (l ∷ ls) =
    let rest = shrink_lines (size - (byte_len l + 1)) ls in
    if ltb max_bytes size then rest else l ∷ ls

unfoldable pub tail : Text → ℕ → Window
tail content limit =
    let ls = lines_of content in
    let last = drop (length ls - limit) ls in
    let shown = shrink_lines (size_of last) last in
    let first = length ls - length shown + 1 in
    record {
      text = unlines shown;
      total_lines = length ls;
      start_line = first;
      end_line = length ls;
      truncated = ltb 1 first;
    }

abbrev pub long_note : Text
long_note =
    lit "[earlier output truncated for model context — full log in tool details if available]\n"

abbrev pub short_note : Text
short_note = lit "[earlier output truncated for model context]\n"

unfoldable pub cap_window : Text → Bool → Text × Bool
cap_window text truncated =
    if ltb model_max_chars (byte_len text)
    then (long_note ++ drop (length text - model_max_chars) text, true)
    else if truncated
    then (short_note ++ text, true)
    else (text, false)

unfoldable pub cap_for_model : Text → Text × Bool
cap_for_model full = let w = tail full model_max_lines in cap_window w.text w.truncated
