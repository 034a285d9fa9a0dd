-- ===== src/ToolExec/Suggest.antt =====
-- crates/pirs-agent/src/agent_loop/tool_exec.rs, lines 118 to 144: the tool that an unknown name may
-- stand for.
use pirs.Prelude.{
  ℕ, suc, ◌+◌, ◌/◌, ◌%◌, min, ◌||◌, Option, none, some, List, [], ◌∷◌, ◌++◌, ltb, leb, ◌==◌,
  if◌then◌else◌, ◌>>=◌,
}
use pirs.Prelude.Text.{Text, text_eq, byte_len, contains, to_ascii_lowercase}

-- The bytes of a code point in UTF-8.
unfoldable pub utf8_bytes : ℕ → List ℕ
utf8_bytes c =
    if ltb c 0x80
    then c ∷ []
    else if ltb c 0x800
    then (0xC0 + c / 64) ∷ (0x80 + c % 64) ∷ []
    else if ltb c 0x10000
    then (0xE0 + c / 4096) ∷ (0x80 + (c / 64) % 64) ∷ (0x80 + c % 64) ∷ []
    else (0xF0 + c / 262144)
      ∷ (0x80 + (c / 4096) % 64)
      ∷ (0x80 + (c / 64) % 64)
      ∷ (0x80 + c % 64)
      ∷ []

-- `str::bytes`.
unfoldable pub bytes : Text → List ℕ
unfolding utf8_bytes
bytes [] = []
bytes (c ∷ s) = utf8_bytes c ++ bytes s

-- `a.zip(b).take_while(|(a, b)| a == b).count()`.
unfoldable pub shared_prefix : List ℕ → List ℕ → ℕ
shared_prefix [] t = 0
shared_prefix (a ∷ s) [] = 0
shared_prefix (a ∷ s) (b ∷ t) = if a == b then suc (shared_prefix s t) else 0

unfoldable pub similarity : Text → Text → ℕ
similarity name_l c =
    if text_eq c name_l
    then 1000
    else if contains c name_l || contains name_l c
    then 50 + min (byte_len c) (byte_len name_l)
    else shared_prefix (bytes name_l) (bytes c)

-- The better of the best so far and a candidate with a score: the candidate only if it is above.
unfoldable pub better : Option (Text × ℕ) → Text → ℕ → Option (Text × ℕ)
better best cand score =
    if leb 3 score
    then elim best [
      | none ↦ some (cand, score)
      | some (c, s) ↦ if leb score s then some (c, s) else some (cand, score)
    ]
    else best

unfoldable pub best_match : Text → Option (Text × ℕ) → List Text → Option (Text × ℕ)
best_match name_l best [] = best
best_match name_l best (cand ∷ available) =
    best_match name_l (better best cand (similarity name_l (to_ascii_lowercase cand))) available

unfoldable pub did_you_mean : Text → List Text → Option Text
did_you_mean name available =
    best_match (to_ascii_lowercase name) none available >>= (λ p. some p.0)
