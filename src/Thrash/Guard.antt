-- ===== src/Thrash/Guard.antt =====
-- What the guard keeps for the agent to take.
use pirs.Prelude.{ℕ, ◌≡◌, Bool, Option, none, some, arith}
use pirs.Prelude.Text.{Text}
use pirs.Json.{JsonLib}
use pirs.Thrash.Detectors.{Stop, ThrashInner, observe_tool_end, observe_tool_start}

-- The newer message, if there is one.
abbrev pub latest : Option Stop → Option Stop → Option Stop
latest none old = old
latest (some new) old = some new

-- After the start and the end of a tool call the guard holds the message of the detector that
-- tripped last: at the end, else at the start, else the message of before.
guard_latches :
    (J : JsonLib) (content_hash : Text → ℕ) (name : Text) (args : J.Value) (is_error : Bool)
    (g : ThrashInner)
    → let (g', stop) = observe_tool_start J content_hash name args g in
      let (g'', stop') = observe_tool_end is_error g' in
      (g''.stop_message ≡ latest stop' (latest stop g.stop_message))
unfolding observe_tool_start observe_tool_end
guard_latches J content_hash name args is_error g = ground arith
