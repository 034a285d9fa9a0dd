-- ===== src/ToolExec/Prepare.antt =====
-- crates/pirs-agent/src/agent_loop/tool_exec.rs, lines 146 to 281 and 740 to 769: the choice of the tool of a call,
-- the check of its arguments, and the refusals; `tool_defs` of tool.rs and `extract_tool_calls` of
-- freeform.rs.
use pirs.Prelude.{ℕ, not, Option, none, some, List, [], ◌∷◌, ◌++◌, map, ◌==◌, if◌then◌else◌, ◌>>=◌}
use pirs.Prelude.Lists.{length}
use pirs.Prelude.Text.{Text, lit, text_eq, one_of}
use pirs.Json.{JsonLib}
use pirs.Message.{
  ContentBlock, text, thinking, image, tool_call, AssistantMessage, ToolResultMessage, join, texts,
}
use pirs.ToolExec.Host.{AgentTool, ToolCallData, Hooks, Host, is_visible}
use pirs.ToolExec.Caps.{error_result_kind}
use pirs.ToolExec.Suggest.{did_you_mean}

module _ {V : Type 0} where
  -- `extract_tool_calls`.
  unfoldable pub calls_of : List (ContentBlock V) → List (ToolCallData V)
  calls_of [] = []
  calls_of (tool_call id name arguments sig ∷ bs) =
      record { id = id; name = name; arguments = arguments } ∷ calls_of bs
  calls_of (text t sig ∷ bs) = calls_of bs
  calls_of (thinking t sig redacted ∷ bs) = calls_of bs
  calls_of (image d mime ∷ bs) = calls_of bs

  unfoldable pub extract_tool_calls : AssistantMessage V → List (ToolCallData V)
  extract_tool_calls a = calls_of a.content

-- What the provider is told of a tool.
pub record ToolDef (V : Type 0) : Type 0 where
  pub name : Text
  pub description : Text
  pub parameters : V

module _ {V W : Type 0} where
  -- `by_name.insert(name, t)`, the map being kept in the order of the first insertions, which is
  -- `order`.
  unfoldable pub register_tool : AgentTool V W → List (AgentTool V W) → List (AgentTool V W)
  register_tool t [] = t ∷ []
  register_tool t (u ∷ us) = if text_eq u.name t.name then t ∷ us else u ∷ register_tool t us

  unfoldable pub registered : List (AgentTool V W) → List (AgentTool V W) → List (AgentTool V W)
  registered known [] = known
  registered known (t ∷ ts) = registered (register_tool t known) ts

  unfoldable pub tool_def : AgentTool V W → ToolDef V
  tool_def t = record { name = t.name; description = t.description; parameters = t.parameters }

  unfoldable pub tool_defs : List (AgentTool V W) → List (ToolDef V)
  tool_defs tools = map tool_def (registered [] tools)

  -- `tools.iter().find(|t| t.name() == name)` and `tools.iter().rev().find(…)`.
  unfoldable pub first_named : Text → List (AgentTool V W) → Option (AgentTool V W)
  first_named name [] = none
  first_named name (t ∷ ts) = if text_eq t.name name then some t else first_named name ts

  unfoldable pub last_named : Text → List (AgentTool V W) → Option (AgentTool V W)
  last_named name [] = none
  last_named name (t ∷ ts) = elim (last_named name ts) [
    | some u ↦ some u
    | none ↦ if text_eq t.name name then some t else none
  ]

module _ (J : JsonLib) (W : Type 0) where
  open J use {Value, get, as_str, members, items}

  abbrev pub strings : List Value → List Text
  strings [] = []
  strings (v ∷ vs) = elim (as_str v) [ none ↦ strings vs | some s ↦ s ∷ strings vs ]

  abbrev pub required_names : Value → List Text
  required_names schema = elim (get schema (lit "required") >>= items) [
    | none ↦ []
    | some vs ↦ strings vs
  ]

  unfoldable pub property_line : List Text → Text → Value → Text
  property_line required k v =
      let ty : Text = elim (get v (lit "type") >>= as_str) [ none ↦ lit "any" | some t ↦ t ] in
      k ++ (lit ": " ++ (ty ++ (if one_of k required then lit " (required)" else [])))

  unfoldable pub property_lines : List Text → List (Text × Value) → List Text
  property_lines required [] = []
  property_lines required ((k, v) ∷ ps) = property_line required k v ∷ property_lines required ps

  unfoldable pub schema_summary : Value → Text
  schema_summary schema = elim (get schema (lit "properties") >>= members) [
    | none ↦ lit "(any object)"
    | some ps ↦ join (lit ", ") (property_lines (required_names schema) ps)
  ]

  -- A call that is ready, with its place in the batch.
  pub record ReadyCall : Type 0 where
    pub index : ℕ
    pub id : Text
    pub name : Text
    pub args : Value
    pub tool : AgentTool Value W

  pub data Prepared : Type 0 where
    ready : ReadyCall → Prepared
    refused : ℕ → ToolResultMessage Value → Prepared

  abbrev tool_names : List (AgentTool Value W) → List Text
  tool_names [] = []
  tool_names (t ∷ ts) = t.name ∷ tool_names ts

  unfoldable pub not_found_text : Text → List (AgentTool Value W) → Text
  not_found_text name tools =
      let available = tool_names tools in
      let hint : Text = elim (did_you_mean name available) [
        | none ↦ []
        | some t ↦ lit " Did you mean `" ++ (t ++ lit "`?")
      ] in
      lit "Tool `"
      ++ (name
          ++ (lit "` not found."
              ++ (hint ++ (lit " Available tools: " ++ (join (lit ", ") available ++ lit ".")))))

  unfoldable pub not_loaded_text : Text → Text
  not_loaded_text name =
      lit "Tool "
      ++ (name
          ++ (lit " is not loaded in this session. Call use_tool(\""
              ++ (name ++ lit "\") first to load it, then re-issue your call.")))

  unfoldable pub invalid_text : Text → Text → Value → Text
  invalid_text name e schema =
      lit "Invalid arguments for tool "
      ++ (name
          ++ (lit ": "
              ++ (e
                  ++ (lit ". Expected: "
                      ++ (schema_summary schema
                          ++ lit
                              ". Re-issue the call with a single JSON object matching that schema (no markdown fences, no trailing commentary).")))))

  module _ (h : Host Value W) (hooks : Hooks Value W) where
    unfoldable pub refuse : Text → Text → ℕ → ToolCallData Value → W → W × Prepared
    refuse message kind index call w =
        (w, refused index (error_result_kind J (h.now w) call.id call.name message kind))

    abbrev pub before_hook : Text → Text → Value → W → W × Option Text
    before_hook id name args w = elim hooks.before_tool_call [
      | none ↦ (w, none)
      | some f ↦ f id name args w
    ]

    -- The answer of the hook decides.
    unfoldable pub after_before :
        ℕ → ToolCallData Value → AgentTool Value W → Value → W × Option Text → W × Prepared
    after_before index call tool args (w, none) = (
      w,
      ready (record { index = index; id = call.id; name = call.name; args = args; tool = tool }),
    )
    after_before index call tool args (w, some reason) =
        refuse (lit "Tool call blocked: " ++ reason) (lit "blocked") index call w

    unfoldable pub prepare_with : ℕ → ToolCallData Value → AgentTool Value W → W → W × Prepared
    prepare_with index call tool w =
        let schema = tool.parameters in
        let args = h.coerce_args schema call.arguments in
        if not (is_visible h w call.name)
        then refuse (not_loaded_text call.name) (lit "not_loaded") index call w
        else elim (h.validate_args schema args) [
          | some e ↦ refuse (invalid_text call.name e schema) (lit "validation") index call w
          | none ↦ after_before index call tool args (before_hook call.id call.name args w)
        ]

    unfoldable pub prepare_found :
        ℕ
        → ToolCallData Value
        → List (AgentTool Value W)
        → W
        → Option (AgentTool Value W)
        → W × Prepared
    prepare_found index call tools w none =
        refuse (not_found_text call.name tools) (lit "not_found") index call w
    prepare_found index call tools w (some tool) = prepare_with index call tool w

    unfoldable pub prepare_call :
        ℕ → ToolCallData Value → List (AgentTool Value W) → W → W × Prepared
    prepare_call index call tools w = prepare_found index call tools w (last_named call.name tools)

-- `validate_tool_call_payload`: nothing if the call would be dispatched, else the message.
module _ (J : JsonLib) (W : Type 0) (h : Host J.Value W) where
  open J use {Value}

  abbrev no_hooks : Hooks Value W
  no_hooks = record {
    before_tool_call = none;
    after_tool_call = none;
    transform_context = none;
    should_stop_after_turn = none;
    get_steering_messages = none;
    get_follow_up_messages = none;
    get_api_key = none;
  }

  abbrev refusal : Prepared J W → Option Text
  refusal (ready job) = none
  refusal (refused index r) =
      let msg = join (lit "\n") (texts r.content) in
      some (if length msg == 0 then lit "tool call rejected" else msg)

  unfoldable pub validate_tool_call_payload :
      Text → Value → List (AgentTool Value W) → W → Option Text
  validate_tool_call_payload name arguments tools w =
      let call : ToolCallData Value = record {
        id = lit "validate";
        name = name;
        arguments = arguments;
      } in
      refusal (prepare_call J W h no_hooks 0 call tools w).1
