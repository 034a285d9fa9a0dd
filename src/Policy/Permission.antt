-- ===== src/Policy/Permission.antt =====
-- crates/pirs-tools/src/permission_mode.rs: the ordered permission ladder.
use pirs.Prelude.{
  ℕ, Bool, false, not, ◌&&◌, ◌||◌, Option, none, some, List, [], ◌∷◌, ◌++◌, ltb, leb, ◌==◌,
  if◌then◌else◌,
}
use pirs.Prelude.Text.{
  Text, lit, text_eq, one_of, trim, to_ascii_lowercase, starts_with, eq_ignore_ascii_case,
}
use pirs.Json.{JsonLib}
use pirs.Policy.Profile.{
  is_readonly_tool, is_file_mutation_tool, is_shell_tool, action_arg, mutating_action_deny,
  project_action_is_readonly,
}

pub data PermissionMode : Type 0 where
  read_only workspace_write danger_full_access : PermissionMode

-- The discriminants, by which the derived order compares.
abbrev pub rank : PermissionMode → ℕ
rank read_only = 0
rank workspace_write = 1
rank danger_full_access = 2

unfoldable pub parse : Text → Option PermissionMode
unfolding lit one_of text_eq trim to_ascii_lowercase
parse s =
    let key = to_ascii_lowercase (trim s) in
    if one_of key (lit "read-only" ∷ lit "readonly" ∷ lit "ro" ∷ lit "plan" ∷ [])
    then some read_only
    else if one_of key (
        lit "workspace-write"
        ∷ lit "workspace_write"
        ∷ lit "write"
        ∷ lit "default"
        ∷ lit "accept-edits"
        ∷ [])
    then some workspace_write
    else if one_of key (
        lit "danger-full-access"
        ∷ lit "danger_full_access"
        ∷ lit "full"
        ∷ lit "danger"
        ∷ lit "yolo"
        ∷ lit "auto-approve"
        ∷ [])
    then some danger_full_access
    else none

unfoldable pub name : PermissionMode → Text
unfolding lit
name read_only = lit "read-only"
name workspace_write = lit "workspace-write"
name danger_full_access = lit "danger-full-access"

-- The environment variable is read by the caller: `none` if it is unset.
unfoldable pub from_env : Option Text → PermissionMode
from_env none = workspace_write
from_env (some s) = elim (parse s) [ none ↦ workspace_write | some mode ↦ mode ]

-- The process-wide slot, beside the environment variable that mirrors it.
pub record Live : Type 0 where
  pub mode : PermissionMode
  pub env_mode : Option Text

unfoldable pub set_live_permission_mode : PermissionMode → Live → Live
set_live_permission_mode mode live = record live { mode = mode; env_mode = some (name mode) }

unfoldable pub observing_tools : List Text
unfolding lit
observing_tools =
    lit "checkpoint"
    ∷ lit "session_rewind"
    ∷ lit "doctor"
    ∷ lit "audit_tail"
    ∷ lit "git"
    ∷ lit "pr"
    ∷ lit "fleet"
    ∷ []

unfoldable pub full_tools : List Text
unfolding lit
full_tools = lit "delegate" ∷ lit "bash" ∷ lit "run_tests" ∷ lit "computer_screenshot" ∷ []

unfoldable pub required_mode_for_tool : Text → PermissionMode
required_mode_for_tool tool =
    if is_readonly_tool tool || one_of tool observing_tools
    then read_only
    else if is_file_mutation_tool tool || text_eq tool (lit "todo")
    then workspace_write
    else if is_shell_tool tool
        || one_of tool full_tools
        || starts_with tool (lit "computer_")
        || starts_with tool (lit "browser_")
    then danger_full_access
    else danger_full_access

unfoldable pub apply_yolo_permission_default :
    Bool → Option PermissionMode → Bool → Bool → PermissionMode → PermissionMode
apply_yolo_permission_default approval_is_yolo (some explicit) dial_plan profile_is_plan current =
    current
apply_yolo_permission_default approval_is_yolo none dial_plan profile_is_plan current =
    if approval_is_yolo && not dial_plan && not profile_is_plan && not (rank current == 2)
    then danger_full_access
    else current

abbrev autonomy_word : PermissionMode → Text
autonomy_word read_only = lit "plan"
autonomy_word workspace_write = lit "edit"
autonomy_word danger_full_access = lit "full"

unfoldable pub project_reason : PermissionMode → Text
unfolding name lit
project_reason mode =
    lit "tool `project` action requires permission mode `"
    ++ (name danger_full_access
        ++ (lit "` (current: `"
            ++ (name mode
                ++ lit "`); raise with --permission-mode / PIRS_PERMISSION_MODE or use plan→act")))

unfoldable pub create_reason : PermissionMode → Text
unfolding name lit
create_reason mode =
    lit "tool `pr` action `create` requires permission mode `"
    ++ (name danger_full_access ++ (lit "` (current: `" ++ (name mode ++ lit "`)")))

unfoldable pub ladder_reason : PermissionMode → PermissionMode → Text → Text
unfolding name lit
ladder_reason mode need tool =
    lit "tool `"
    ++ (tool
        ++ (lit "` blocked by autonomy `"
            ++ (autonomy_word mode
                ++ (lit "` (need `"
                    ++ (autonomy_word need
                        ++ (lit "`); use /act or /yolo or --autonomy full  ·  permission "
                            ++ (name mode ++ (lit "→" ++ name need))))))))

module _ (J : JsonLib) where
  open J use {Value}

  abbrev is_create : Option Text → Bool
  is_create none = false
  is_create (some a) = eq_ignore_ascii_case a (lit "create")

  unfoldable pub permission_deny_reason_with_args : PermissionMode → Text → Value → Option Text
  permission_deny_reason_with_args mode tool args =
      if text_eq tool (lit "project")
      then (if project_action_is_readonly J args
          then none
          else if ltb (rank mode) (rank danger_full_access)
          then some (project_reason mode)
          else none)
      else elim (mutating_action_deny J tool args) [
        | some reason ↦
            if ltb (rank mode) (rank workspace_write)
            then some reason
            else if text_eq tool (lit "pr")
                && is_create (action_arg J args)
                && ltb (rank mode) (rank danger_full_access)
            then some (create_reason mode)
            else none
        | none ↦
            let need = required_mode_for_tool tool in
            if leb (rank need) (rank mode) then none else some (ladder_reason mode need tool)
      ]

  unfoldable pub permission_deny_reason : PermissionMode → Text → Option Text
  unfolding permission_deny_reason_with_args
  permission_deny_reason mode tool = permission_deny_reason_with_args mode tool J.null

  -- The hook reads the slot at every call.
  unfoldable pub permission_hook : Live → Text → Value → Option Text
  permission_hook live tool args = permission_deny_reason_with_args live.mode tool args
