-- ===== src/Policy/Preset.antt =====
-- crates/pirs-tools/src/tool_preset.rs: named presets over the permission ladder and the profiles.
use pirs.Prelude.{ℕ, Bool, true, false, Option, none, some, [], ◌∷◌, if◌then◌else◌}
use pirs.Prelude.Text.{Text, lit, text_eq, one_of, trim, to_ascii_lowercase}
use pirs.Policy.Profile.{SafetyProfile}
use pirs.Policy.Profile
use pirs.Policy.Permission.{PermissionMode}
use pirs.Policy.Permission

pub data ToolPreset : Type 0 where
  full edit_test read_only no_tools : ToolPreset

pub record ToolPresetConfig : Type 0 where
  pub permission_mode : PermissionMode
  pub agent_profile : SafetyProfile
  pub tool_diet : Bool
  pub sequential : Bool
  pub max_tool_calls : Option ℕ

unfoldable pub parse : Text → Option ToolPreset
unfolding lit one_of text_eq trim to_ascii_lowercase
parse s =
    let key = to_ascii_lowercase (trim s) in
    if one_of key (lit "full" ∷ lit "all" ∷ lit "default" ∷ [])
    then some full
    else if one_of key (lit "edit-test" ∷ lit "edit_test" ∷ lit "edittest" ∷ lit "edit+test" ∷ [])
    then some edit_test
    else if one_of key (lit "read-only" ∷ lit "readonly" ∷ lit "ro" ∷ lit "plan" ∷ [])
    then some read_only
    else if one_of key
        (lit "no-tools" ∷ lit "notools" ∷ lit "none" ∷ lit "minimal" ∷ lit "no_tools" ∷ [])
    then some no_tools
    else none

unfoldable pub name : ToolPreset → Text
unfolding lit
name full = lit "full"
name edit_test = lit "edit-test"
name read_only = lit "read-only"
name no_tools = lit "no-tools"

unfoldable pub config : ToolPreset → ToolPresetConfig
config full = record {
  permission_mode = PermissionMode.danger_full_access;
  agent_profile = SafetyProfile.default;
  tool_diet = false;
  sequential = false;
  max_tool_calls = none;
}
config edit_test = record {
  permission_mode = PermissionMode.workspace_write;
  agent_profile = SafetyProfile.accept_edits;
  tool_diet = true;
  sequential = true;
  max_tool_calls = none;
}
config read_only = record {
  permission_mode = PermissionMode.read_only;
  agent_profile = SafetyProfile.plan;
  tool_diet = true;
  sequential = true;
  max_tool_calls = none;
}
config no_tools = record {
  permission_mode = PermissionMode.read_only;
  agent_profile = SafetyProfile.plan;
  tool_diet = true;
  sequential = true;
  max_tool_calls = some 0;
}

unfoldable pub allows_mutation : ToolPreset → Bool
allows_mutation full = true
allows_mutation edit_test = true
allows_mutation read_only = false
allows_mutation no_tools = false

unfoldable pub allows_edit_and_test_loop : ToolPreset → Bool
allows_edit_and_test_loop full = true
allows_edit_and_test_loop edit_test = true
allows_edit_and_test_loop read_only = false
allows_edit_and_test_loop no_tools = false

-- The mutable arguments of `apply_tool_preset`.
pub record Knobs : Type 0 where
  pub permission_mode : Option Text
  pub agent_profile : Text
  pub tool_diet : Bool
  pub sequential : Bool
  pub max_tool_calls : Option ℕ

abbrev or_some {ℓ} : {A : Type ℓ} → Option A → Option A → Option A
or_some none y = y
or_some (some x) y = some x

-- The profile is replaced only while it is the default.
unfoldable pub preset_profile : ToolPreset → Text → Text
preset_profile preset given =
    if text_eq given (lit "default") then Profile.name (config preset).agent_profile else given

unfoldable pub apply_tool_preset : ToolPreset → Knobs → Knobs
apply_tool_preset preset k =
    let cfg = config preset in
    record {
      permission_mode = or_some k.permission_mode (some (Permission.name cfg.permission_mode));
      agent_profile = preset_profile preset k.agent_profile;
      tool_diet = if k.tool_diet then true else cfg.tool_diet;
      sequential = if k.sequential then true else cfg.sequential;
      max_tool_calls = or_some k.max_tool_calls cfg.max_tool_calls;
    }
