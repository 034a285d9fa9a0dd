-- ===== src/Prelude/Text.antt =====
-- Text as a list of Unicode scalar values, with the operations of Rust's `str` that the program
-- uses. A literal is written `lit "…"`.
use Prim.Native.Char.{code}
use Prim.Native.String.{String}
use Prim.Native.Nat.{ℕ, zero, suc, ◌+◌, ◌-◌, ◌/◌, ◌%◌}
use mathlib.Core.Path.{◌≡◌, refl, ap₂}
use mathlib.Core.Logic.{◌↔◌, inl, inr}
use mathlib.Core.Option.{Option, none, some}
use mathlib.Core.Bool.{Bool, true, false, ◌&&◌, ◌||◌}
use mathlib.Core.List.{List, [], ◌∷◌, ◌++◌, map}
use native.Mathlib.Omega.{arith}
use pirs.Prelude.Tests.{ltb, leb, ◌==◌, if◌then◌else◌, and_true, ==_iff, ==_self, Bool-cases}
use pirs.Prelude.Lists.{any, all, length, drop}

abbrev pub Text : Type 0
Text = List ℕ

unfoldable pub lit : String → Text
lit String.[] = []
lit (String.◌∷◌ c s) = code c ∷ lit s

unfoldable pub text_eq : Text → Text → Bool
text_eq [] [] = true
text_eq [] (b ∷ bs) = false
text_eq (a ∷ s) [] = false
text_eq (a ∷ s) (b ∷ t) = (a == b) && text_eq s t

pub eq_of_text_eq : (s t : Text) → text_eq s t ≡ true → s ≡ t
unfolding text_eq
eq_of_text_eq [] [] h = refl
eq_of_text_eq [] (b ∷ t) h = ground arith
eq_of_text_eq (a ∷ s) [] h = ground arith
eq_of_text_eq (a ∷ s) (b ∷ t) h =
    let (p, q) = and_true (a == b) (text_eq s t) h in
    ap₂ ◌∷◌ ((==_iff a b).0 p) (eq_of_text_eq s t q)

pub text_eq_refl : (s : Text) → text_eq s s ≡ true
unfolding text_eq
text_eq_refl [] = refl
text_eq_refl (a ∷ s) = rw (==_self a) (text_eq_refl s)

pub text_eq_iff : (s t : Text) → (text_eq s t ≡ true) ↔ (s ≡ t)
text_eq_iff s t = (eq_of_text_eq s t, λ e. rw e (text_eq_refl t))

-- `matches!(s, "a" | "b" | …)`.
unfoldable pub one_of : Text → List Text → Bool
one_of s ts = any (text_eq s) ts

-- What holds of every text of a list holds of a text that is one of them.
pub all_of_one_of :
    (p : Text → Bool) (s : Text) (ts : List Text)
    → one_of s ts ≡ true
    → all p ts ≡ true
    → p s ≡ true
unfolding one_of
all_of_one_of p s [] h k = ground arith
all_of_one_of p s (t ∷ ts) h k = elim (Bool-cases (text_eq s t)) [
  | inl e ↦ rw (eq_of_text_eq s t e) ((and_true (p t) (all p ts) k).0)
  | inr e ↦ all_of_one_of p s ts (ground arith) ((and_true (p t) (all p ts) k).1)
]

-- `str::len`: the bytes of the UTF-8 encoding.
unfoldable pub len_utf8 : ℕ → ℕ
len_utf8 c = if ltb c 0x80 then 1 else if ltb c 0x800 then 2 else if ltb c 0x10000 then 3 else 4

unfoldable pub byte_len : Text → ℕ
unfolding len_utf8
byte_len [] = 0
byte_len (c ∷ s) = len_utf8 c + byte_len s

pub byte_len-append : (s t : Text) → byte_len (s ++ t) ≡ byte_len s + byte_len t
unfolding byte_len
byte_len-append [] t = omega arith
byte_len-append (c ∷ s) t = omega (arith, byte_len-append s t)

-- The longest front part of at most `n` bytes.
unfoldable pub take_bytes : ℕ → Text → Text
unfolding len_utf8
take_bytes n [] = []
take_bytes n (c ∷ s) = if leb (len_utf8 c) n then c ∷ take_bytes (n - len_utf8 c) s else []

unfoldable pub starts_with : Text → Text → Bool
starts_with s [] = true
starts_with [] (d ∷ p) = false
starts_with (c ∷ s) (d ∷ p) = (c == d) && starts_with s p

-- `str::lines`: a line feed ends a line, with the carriage return before it.
unfoldable pub lines_of : Text → List Text
unfolding starts_with
lines_of [] = []
lines_of (c ∷ s) =
    let rest = lines_of s in
    if c == 10
    then [] ∷ rest
    else if (c == 13) && starts_with s (10 ∷ [])
    then rest
    else elim rest [ [] ↦ (c ∷ []) ∷ [] | l ∷ ls ↦ (c ∷ l) ∷ ls ]

-- `char::is_whitespace`: the code points with the property White_Space.
unfoldable pub is_whitespace : ℕ → Bool
is_whitespace c =
    (leb 0x9 c && leb c 0xD)
    || c == 0x20
    || c == 0x85
    || c == 0xA0
    || c == 0x1680
    || (leb 0x2000 c && leb c 0x200A)
    || c == 0x2028
    || c == 0x2029
    || c == 0x202F
    || c == 0x205F
    || c == 0x3000

unfoldable pub trim_start : Text → Text
unfolding is_whitespace
trim_start [] = []
trim_start (c ∷ s) = if is_whitespace c then trim_start s else c ∷ s

-- `trim_end`, from the right.
unfoldable pub trim_end : Text → Text
unfolding is_whitespace
trim_end [] = []
trim_end (c ∷ s) = elim (trim_end s) [
  | [] ↦ if is_whitespace c then [] else c ∷ []
  | d ∷ r ↦ c ∷ d ∷ r
]

unfoldable pub trim : Text → Text
unfolding trim_start trim_end
trim s = trim_end (trim_start s)

unfoldable pub to_ascii_lower : ℕ → ℕ
to_ascii_lower c = if leb b'A' c && leb c b'Z' then c + 32 else c

unfoldable pub to_ascii_lowercase : Text → Text
unfolding to_ascii_lower
to_ascii_lowercase s = map to_ascii_lower s

pub to_ascii_lower_idem : (c : ℕ) → to_ascii_lower (to_ascii_lower c) ≡ to_ascii_lower c
unfolding to_ascii_lower
to_ascii_lower_idem c = ground arith

unfoldable pub eq_ignore_ascii_case : Text → Text → Bool
unfolding text_eq to_ascii_lowercase
eq_ignore_ascii_case s t = text_eq (to_ascii_lowercase s) (to_ascii_lowercase t)

-- `str::contains` with a text.
unfoldable pub contains : Text → Text → Bool
unfolding starts_with
contains [] p = starts_with [] p
contains (c ∷ s) p = starts_with (c ∷ s) p || contains s p

pub starts_with-append : (p s : Text) → starts_with (p ++ s) p ≡ true
unfolding starts_with
starts_with-append [] s = ground arith
starts_with-append (c ∷ p) s = rw (==_self c) (starts_with-append p s)

pub contains-append : (pre p post : Text) → contains (pre ++ (p ++ post)) p ≡ true
unfolding contains
contains-append [] [] [] = refl
contains-append [] [] (c ∷ post) = ground arith
contains-append [] (c ∷ p) post = rw (starts_with-append (c ∷ p) post)
contains-append (c ∷ pre) p post = ground (arith, contains-append pre p post)

-- `&text[text.find(marker)? + marker.len()..]`.
unfoldable pub after_marker : Text → Text → Option Text
unfolding starts_with
after_marker marker [] = if starts_with [] marker then some [] else none
after_marker marker (c ∷ s) =
    let later = after_marker marker s in
    if starts_with (c ∷ s) marker then some (drop (length marker) (c ∷ s)) else later

-- The decimal digits of a number in front of a text; the first argument bounds their count.
unfoldable pub digits : ℕ → ℕ → Text → Text
digits zero n acc = acc
digits (suc fuel) n acc =
    let acc' = (b'0' + n % 10) ∷ acc in
    let rest = digits fuel (n / 10) acc' in if ltb n 10 then acc' else rest

unfoldable pub decimal : ℕ → Text
unfolding digits
decimal n = digits (suc n) n []
