-- ===== src/Truncate/Windows.antt =====
-- What the windows show.
use pirs.Prelude.{
  ℕ, zero, suc, ◌+◌, ◌-◌, ◌≤◌, ◌<◌, ◌≡◌, refl, ap, sym, subst, ◌∙◌, ◌⊎◌, inl, inr, Bool, false,
  ◌||◌, List, [], ◌∷◌, ◌++◌, arith, ltb, leb, ltb→lt, Bool-cases, append_assoc, append-nil, max,
}
use pirs.Prelude.Lists.{length, take, drop, length-drop, length-append}
use pirs.Prelude.Text.{Text, lit, byte_len, byte_len-append, lines_of, len_utf8}
use pirs.Truncate.{
  head, head_part, head_loop, max_bytes, model_max_lines, model_max_chars, unlines, size_of,
  shrink_lines, tail, long_note, short_note, cap_window, cap_for_model,
}

byte_len-unlines : (ls : List Text) → byte_len (unlines ls) ≡ size_of ls
unfolding unlines size_of byte_len len_utf8
byte_len-unlines [] = refl
byte_len-unlines (l ∷ ls) = omega (arith, byte_len-append l (10 ∷ unlines ls), byte_len-unlines ls)

-- A smaller window is needed from every earlier line.
abbrev IsLeast : List Text → ℕ → Type 0
IsLeast ls k = (j : ℕ) → j < k → max_bytes < size_of (drop j ls)

-- The last lines from some line on, of at most the cap, and no line fewer than needed.
abbrev IsShrunk : List Text → List Text → Type 0
IsShrunk ls shown =
    (k : ℕ) × (shown ≡ drop k ls) × (size_of shown ≤ max_bytes) × (k ≤ length ls) × IsLeast ls k

IsLeast-cons :
    (l : Text) (ls : List Text) (k : ℕ)
    → max_bytes < size_of (l ∷ ls)
    → IsLeast ls k
    → IsLeast (l ∷ ls) (suc k)
IsLeast-cons l ls k h least zero e = h
IsLeast-cons l ls k h least (suc j) e = least j (omega arith)

shrink_lines-IsShrunk :
    (size : ℕ) (ls : List Text) → size ≡ size_of ls → IsShrunk ls (shrink_lines size ls)
unfolding shrink_lines size_of
shrink_lines-IsShrunk size [] e = (0, refl, omega arith, omega arith, λ j l. absurd (omega arith))
shrink_lines-IsShrunk size (l ∷ ls) e = elim (Bool-cases (ltb max_bytes size)) [
  | inr b ↦ rw (shrink_lines, b) (0, refl, ground arith, omega arith, λ j k. absurd (omega arith))
  | inl b ↦
      let (k, same, fits, n, least) =
        shrink_lines-IsShrunk (size - (byte_len l + 1)) ls (omega arith) in
      rw (shrink_lines, b)
        (
          suc k,
          same,
          fits,
          omega arith,
          IsLeast-cons l ls k (ltb→lt max_bytes (size_of (l ∷ ls)) (ground (arith, b, e))) least,
        )
]

drop_empty : {A : Type 0} (k : ℕ) → drop {A = A} k [] ≡ []
drop_empty zero = refl
drop_empty (suc k) = refl

drop-drop : {A : Type 0} (m k : ℕ) (xs : List A) → drop k (drop m xs) ≡ drop (m + k) xs
drop-drop zero k xs = ap (λ n. drop n xs) (omega arith)
drop-drop (suc m) k [] = drop_empty k ∙ sym (drop_empty (suc m + k))
drop-drop (suc m) k (x ∷ xs) =
    let e : suc (m + k) ≡ suc m + k = omega arith in drop-drop m k xs ∙ ap (λ n. drop n (x ∷ xs)) e

-- `tail` shows all lines from its first line on, at most `limit` lines and 51,200 bytes, and from every
-- earlier line on there would be more than that.
pub tail-IsWindow :
    (content : Text) (limit : ℕ)
    → let w = tail content limit in
      let ls = lines_of content in
      (w.text ≡ unlines (drop (w.start_line - 1) ls))
      × (byte_len w.text ≤ max_bytes)
      × (length ls < w.start_line + limit)
      × ((j : ℕ)
          → j + 1 < w.start_line
          → (limit + j < length ls) ⊎ (max_bytes < byte_len (unlines (drop j ls))))
unfolding tail
tail-IsWindow content limit =
    let ls = lines_of content in
    let m = length ls - limit in
    let last = drop m ls in
    let (k, same, fits, n, least) = shrink_lines-IsShrunk (size_of last) last refl in
    let shown = shrink_lines (size_of last) last in
    let from : shown ≡ drop (m + k) ls = same ∙ drop-drop m k ls in
    let a : length shown ≡ length ls - (m + k) = ap length from ∙ length-drop (m + k) ls in
    let b : length last ≡ length ls - m = length-drop m ls in
    let start : length ls - length shown + 1 - 1 ≡ m + k = omega arith in
    (
      ap unlines (from ∙ ap (λ i. drop i ls) (sym start)),
      rw (byte_len-unlines shown) fits,
      omega arith,
      λ j l. elim (Bool-cases (ltb j m)) [
        | inl c ↦ let d = ltb→lt j m c in inl (omega arith)
        | inr c ↦
            let d : m ≤ j = ground (arith, c) in
            let e : drop (j - m) last ≡ drop j ls =
              drop-drop m (j - m) ls ∙ ap (λ i. drop i ls) (omega arith) in
            inr (
              rw (byte_len-unlines (drop j ls))
                (subst (λ xs. max_bytes < size_of xs) e (least (j - m) (omega arith))))
      ],
    )

size_of_line :
    (text l : Text) → byte_len (text ++ (l ++ (10 ∷ []))) ≡ byte_len text + byte_len l + 1
unfolding byte_len len_utf8
size_of_line text l =
    omega (arith, byte_len-append text (l ++ (10 ∷ [])), byte_len-append l (10 ∷ []))

line_first : (text l rest : Text) → (text ++ (l ++ (10 ∷ []))) ++ rest ≡ text ++ (l ++ (10 ∷ rest))
line_first text l rest =
    append_assoc text (l ++ (10 ∷ [])) rest ∙ ap (λ t. text ++ t) (append_assoc l (10 ∷ []) rest)

-- The lines that `head_loop` adds, one after the other.
abbrev IsHeadOf : ℕ → ℕ → Text → ℕ → List Text → Text × ℕ → Type 0
IsHeadOf limit count text end_line ls p =
    (n : ℕ) × (p.0 ≡ text ++ unlines (take n ls))
    × (p.1 ≡ end_line + n)
    × (n ≤ limit - count)
    × (byte_len p.0 ≤ max_bytes)

head_loop-IsHeadOf :
    (limit count : ℕ) (text : Text) (end_line : ℕ) (ls : List Text)
    → byte_len text ≤ max_bytes
    → IsHeadOf limit count text end_line ls (head_loop limit count text end_line ls)
unfolding head_loop unlines
head_loop-IsHeadOf limit count text end_line [] h =
    (0, sym (append-nil text), omega arith, omega arith, h)
head_loop-IsHeadOf limit count text end_line (l ∷ ls) h =
    let text' = text ++ (l ++ (10 ∷ [])) in
    let stops = leb limit count || ltb max_bytes (byte_len text + byte_len l + 1) in
    elim (Bool-cases stops) [
      | inl e ↦ rw (head_loop, e) (0, sym (append-nil text), omega arith, omega arith, h)
      | inr e ↦
          let size : byte_len text' ≡ byte_len text + byte_len l + 1 = size_of_line text l in
          let fits : byte_len text' ≤ max_bytes = ground (arith, e, size) in
          let (n, a, b, c, d) = head_loop-IsHeadOf limit (suc count) text' (suc end_line) ls fits in
          rw (head_loop, e)
            (suc n, a ∙ line_first text l (unlines (take n ls)), omega arith, ground arith, d)
    ]

-- `head` shows whole lines from the offset on, at most `limit` of them and at most 51,200 bytes, unless
-- the first of them is too long by itself.
pub head-IsWindow :
    (content : Text) (offset limit : ℕ) (l : Text) (ls : List Text)
    → drop (max offset 1 - 1) (lines_of content) ≡ l ∷ ls
    → byte_len l < max_bytes
    → let w = head content offset limit in
      (n : ℕ) × (w.text ≡ unlines (take n (l ∷ ls)))
      × (w.end_line + 1 ≡ w.start_line + n)
      × (n ≤ limit)
      × (byte_len w.text ≤ max_bytes)
unfolding head head_part
head-IsWindow content offset limit l ls e h =
    let part = head_loop limit 0 [] (max offset 1 - 1) (l ∷ ls) in
    let short : ltb max_bytes (byte_len l + 1) ≡ false = ground arith in
    let (n, a, b, c, d) =
      head_loop-IsHeadOf limit 0 [] (max offset 1 - 1) (l ∷ ls) (unfold byte_len in omega arith) in
    rw (e, head_part, short) (n, a, omega arith, omega arith, d)

length-byte_len : (s : Text) → length s ≤ byte_len s
unfolding byte_len len_utf8
length-byte_len [] = omega arith
length-byte_len (c ∷ s) = ground (arith, length-byte_len s)

cap_window-bounded :
    (text : Text) (truncated : Bool)
    → length (cap_window text truncated).0 ≤ length long_note + model_max_chars
unfolding cap_window lit
cap_window-bounded text truncated = ground (
  arith,
  length-append long_note (drop (length text - model_max_chars) text),
  length-append short_note text,
  length-drop (length text - model_max_chars) text,
  length-byte_len text,
)

-- The model gets at most 20,000 characters of a text and the note on the cut.
pub cap_for_model-bounded :
    (full : Text) → length (cap_for_model full).0 ≤ length long_note + model_max_chars
unfolding cap_for_model
cap_for_model-bounded full =
    let w = tail full model_max_lines in cap_window-bounded w.text w.truncated
