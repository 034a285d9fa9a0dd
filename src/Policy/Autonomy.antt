-- ===== src/Policy/Autonomy.antt =====
-- crates/pirs-tools/src/autonomy.rs: the one product ladder, which expands into a permission mode,
-- a safety profile and an approval word.
use pirs.Prelude.{ℕ, Bool, true, false, Option, none, some, [], ◌∷◌, ◌++◌, ◌>>=◌, if◌then◌else◌}
use pirs.Prelude.Text.{Text, lit, text_eq, one_of, trim, to_ascii_lowercase, eq_ignore_ascii_case}
use pirs.Policy.Profile.{SafetyProfile}
use pirs.Policy.Profile
use pirs.Policy.Permission.{PermissionMode, Live, set_live_permission_mode}
use pirs.Policy.Permission
use pirs.Policy.Preset.{ToolPreset}
use pirs.Policy.Preset

pub data Autonomy : Type 0 where
  plan edit full : Autonomy

abbrev pub rank : Autonomy → ℕ
rank plan = 0
rank edit = 1
rank full = 2

unfoldable pub parse : Text → Option Autonomy
unfolding lit one_of text_eq trim to_ascii_lowercase
parse s =
    let key = to_ascii_lowercase (trim s) in
    if one_of key (lit "plan" ∷ lit "read-only" ∷ lit "readonly" ∷ lit "ro" ∷ [])
    then some plan
    else if one_of key
        (lit "edit" ∷ lit "workspace-write" ∷ lit "write" ∷ lit "accept-edits" ∷ lit "default" ∷ [])
    then some edit
    else if one_of key (
        lit "full"
        ∷ lit "yolo"
        ∷ lit "act"
        ∷ lit "danger"
        ∷ lit "danger-full-access"
        ∷ lit "auto-approve"
        ∷ lit "all"
        ∷ [])
    then some full
    else none

unfoldable pub name : Autonomy → Text
unfolding lit
name plan = lit "plan"
name edit = lit "edit"
name full = lit "full"

unfoldable pub permission : Autonomy → PermissionMode
permission plan = PermissionMode.read_only
permission edit = PermissionMode.workspace_write
permission full = PermissionMode.danger_full_access

unfoldable pub profile : Autonomy → SafetyProfile
profile plan = SafetyProfile.plan
profile edit = SafetyProfile.accept_edits
profile full = SafetyProfile.auto_approve

unfoldable pub approval_name : Autonomy → Text
unfolding lit
approval_name plan = lit "auto"
approval_name edit = lit "auto"
approval_name full = lit "yolo"

unfoldable pub is_yolo : Autonomy → Bool
is_yolo full = true
is_yolo _ = false

abbrev pub of_preset : ToolPreset → Autonomy
of_preset ToolPreset.full = full
of_preset ToolPreset.edit_test = edit
of_preset ToolPreset.read_only = plan
of_preset ToolPreset.no_tools = plan

abbrev pub of_permission : PermissionMode → Autonomy
of_permission PermissionMode.read_only = plan
of_permission PermissionMode.workspace_write = edit
of_permission PermissionMode.danger_full_access = full

-- The tests of `resolve_autonomy` that follow the two explicit flags, and those that follow yolo.
unfoldable pub resolve_profile : Text → Autonomy
resolve_profile agent_profile =
    if eq_ignore_ascii_case agent_profile (lit "plan") then plan else edit

unfoldable pub resolve_permission : Option Text → Text → Autonomy
unfolding resolve_profile
resolve_permission permission_flag agent_profile = elim (permission_flag >>= Permission.parse) [
  | some mode ↦ of_permission mode
  | none ↦ resolve_profile agent_profile
]

unfoldable pub resolve_preset : Option Text → Option Text → Text → Autonomy
unfolding resolve_permission
resolve_preset tool_preset permission_flag agent_profile = elim (tool_preset >>= Preset.parse) [
  | some p ↦ of_preset p
  | none ↦ resolve_permission permission_flag agent_profile
]

unfoldable pub resolve_autonomy :
    Option Text → Option Text → Option Text → Option Text → Text → Text → Autonomy
unfolding resolve_preset
resolve_autonomy mode_dial autonomy_flag tool_preset permission_flag approval agent_profile =
    elim (autonomy_flag >>= parse) [
      | some a ↦ a
      | none ↦ elim (mode_dial >>= parse) [
        | some d ↦ d
        | none ↦
            if eq_ignore_ascii_case approval (lit "yolo")
            then full
            else resolve_preset tool_preset permission_flag agent_profile
      ]
    ]

-- The process-wide settings that `apply_autonomy` writes.
pub record Settings : Type 0 where
  pub live : Live
  pub env_profile : Option Text
  pub env_autonomy : Option Text

unfoldable pub apply_autonomy : Autonomy → Settings → Settings
unfolding set_live_permission_mode
apply_autonomy autonomy s = record {
  live = set_live_permission_mode (permission autonomy) s.live;
  env_profile = some (Profile.name (profile autonomy));
  env_autonomy = some (name autonomy);
}

unfoldable pub autonomy_status_line : Autonomy → Text
unfolding lit
autonomy_status_line autonomy =
    lit "autonomy: "
    ++ (name autonomy
        ++ (lit "  (permission="
            ++ (Permission.name (permission autonomy)
                ++ (lit ", profile="
                    ++ (Profile.name (profile autonomy)
                        ++ (lit ", approval=" ++ (approval_name autonomy ++ lit ")")))))))
