-- ===== src/Truncate/Samples.antt =====
-- Windows of a text of three lines.
use pirs.Prelude.{ℕ, ◌+◌, ◌-◌, ◌≤◌, ◌<◌, ◌≡◌, refl, ◌⊎◌, [], ◌∷◌, arith}
use pirs.Prelude.Lists.{length, drop, take}
use pirs.Prelude.Text.{Text, lit, byte_len, lines_of, starts_with, len_utf8}
use pirs.Truncate.{head, tail, unlines, max_bytes, long_note, model_max_chars, cap_for_model}
use pirs.Truncate.Windows.{head-IsWindow, tail-IsWindow, cap_for_model-bounded}

abbrev log : Text
log = lit "a\r\nb\nc"

tail-IsWindow_example :
    ((tail log 2).text ≡ unlines (drop ((tail log 2).start_line - 1) (lines_of log)))
    × (byte_len (tail log 2).text ≤ max_bytes)
    × (length (lines_of log) < (tail log 2).start_line + 2)
    × ((j : ℕ)
        → j + 1 < (tail log 2).start_line
        → (2 + j < length (lines_of log))
          ⊎ (max_bytes < byte_len (unlines (drop j (lines_of log)))))
tail-IsWindow_example = tail-IsWindow log 2

head-IsWindow_example :
    (n : ℕ) × ((head log 2 1).text ≡ unlines (take n (lit "b" ∷ lit "c" ∷ [])))
    × ((head log 2 1).end_line + 1 ≡ (head log 2 1).start_line + n)
    × (n ≤ 1)
    × (byte_len (head log 2 1).text ≤ max_bytes)
head-IsWindow_example =
    head-IsWindow log 2 1 (lit "b") (lit "c" ∷ []) (unfold lines_of starts_with lit in refl)
      (unfold byte_len len_utf8 lit in omega arith)

cap_for_model-bounded_example : length (cap_for_model log).0 ≤ length long_note + model_max_chars
cap_for_model-bounded_example = cap_for_model-bounded log
