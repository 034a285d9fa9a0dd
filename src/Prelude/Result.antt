-- ===== src/Prelude/Result.antt =====
-- A fallible value, with the text of the error (`anyhow::Result`).
use pirs.Prelude.Text.{Text}

pub data Result (A : Type 0) : Type 0 where
  ok : A → Result A
  err : Text → Result A
