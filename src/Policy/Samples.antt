-- ===== src/Policy/Samples.antt =====
-- Policy decisions on concrete calls.
use pirs.Prelude.{Option, ◌≡◌, refl, ◌≢◌, ◌↔◌, ◌⊎◌, true, false, none, some, [], ◌∷◌, arith}
use pirs.Prelude.Text.{lit, text_eq, one_of, starts_with, eq_ignore_ascii_case}
use pirs.SampleJson.{SampleValue, null, obj, member, sample_json}
use pirs.Policy.Profile.{
  SafetyProfile, is_readonly_tool, readonly_tools, file_mutation_tools, is_file_mutation_tool,
  is_shell_tool, shell_tools, is_inspection, action_arg, mutating_action_deny,
  project_action_is_readonly, profile_deny_reason_with_args,
}
use pirs.Policy.Permission.{
  PermissionMode, observing_tools, full_tools, rank, required_mode_for_tool,
  apply_yolo_permission_default, permission_deny_reason_with_args,
}
use pirs.Policy.Permission
use pirs.Policy.Preset.{ToolPreset, Knobs, apply_tool_preset}
use pirs.Policy.Preset
use pirs.Policy.Autonomy.{Autonomy, Settings, profile, resolve_autonomy, apply_autonomy}
use pirs.Policy.Autonomy
use pirs.Policy.Ladder.{
  permission_monotone, plan-read_only, read_only_denies_mutation, shell_needs_full_access,
}

-- Evaluates the policy functions.
policy : Unit {0}
unfolding permission_deny_reason_with_args profile_deny_reason_with_args mutating_action_deny
    project_action_is_readonly is_inspection action_arg required_mode_for_tool is_readonly_tool
    is_file_mutation_tool is_shell_tool readonly_tools file_mutation_tools shell_tools
    observing_tools full_tools one_of text_eq lit starts_with eq_ignore_ascii_case member
    resolve_autonomy Autonomy.parse Preset.parse Permission.parse
policy = tt

abbrev list_packages : SampleValue
list_packages = obj ((lit "action", lit "packages") ∷ [])

abbrev run_tests : SampleValue
run_tests = obj ((lit "action", lit "Test") ∷ [])

permission_monotone_example :
    permission_deny_reason_with_args sample_json PermissionMode.workspace_write (lit "edit") null
    ≡ none
permission_monotone_example =
    permission_monotone sample_json PermissionMode.workspace_write PermissionMode.workspace_write
      (lit "edit") null (omega arith) (unfold policy in refl)

plan-read_only_example :
    (profile_deny_reason_with_args sample_json SafetyProfile.plan (lit "project") list_packages
      ≡ none)
    ↔ (permission_deny_reason_with_args sample_json PermissionMode.read_only
          (lit "project")
          list_packages
        ≡ none)
plan-read_only_example = plan-read_only sample_json (lit "project") list_packages

read_only_denies_mutation_example :
    permission_deny_reason_with_args sample_json PermissionMode.read_only (lit "edit_block") null
    ≢ none
read_only_denies_mutation_example =
    read_only_denies_mutation sample_json (lit "edit_block") null (unfold policy in refl)

shell_needs_full_access_example :
    (PermissionMode.read_only ≡ PermissionMode.danger_full_access)
    ⊎ ((lit "project" ≡ lit "project")
        × (project_action_is_readonly sample_json list_packages ≡ true))
shell_needs_full_access_example =
    shell_needs_full_access sample_json PermissionMode.read_only (lit "project") list_packages
      (unfold policy in refl) (unfold policy in refl)

-- `todo` is in the read-only class, so that the test for it behind the file tools is never reached.
todo_required : required_mode_for_tool (lit "todo") ≡ PermissionMode.read_only
unfolding policy
todo_required = refl

abbrev no_mode : Option PermissionMode
no_mode = none

abbrev sample_knobs : Knobs
sample_knobs = record {
  permission_mode = some (lit "workspace-write");
  agent_profile = lit "accept-edits";
  tool_diet = false;
  sequential = true;
  max_tool_calls = some 7;
}

abbrev sample_settings : Settings
sample_settings = record {
  live = record { mode = PermissionMode.read_only; env_mode = none };
  env_profile = none;
  env_autonomy = none;
}
