-- ===== src/Policy/Profile.antt =====
-- crates/pirs-tools/src/safety_profile.rs: tool classes and the named safety profiles.
use pirs.Prelude.{
  Bool, true, false, not, ◌&&◌, ◌||◌, Option, none, some, List, [], ◌∷◌, ◌++◌, ◌>>=◌, if◌then◌else◌,
}
use pirs.Prelude.Text.{Text, lit, text_eq, one_of, trim, to_ascii_lowercase, starts_with}
use pirs.Json.{JsonLib}

pub data SafetyProfile : Type 0 where
  default plan accept_edits auto_approve : SafetyProfile

unfoldable pub parse : Text → Option SafetyProfile
unfolding lit one_of text_eq trim to_ascii_lowercase
parse s =
    let key = to_ascii_lowercase (trim s) in
    if one_of key (lit "" ∷ lit "default" ∷ [])
    then some default
    else if text_eq key (lit "plan")
    then some plan
    else if one_of key (lit "accept-edits" ∷ lit "accept_edits" ∷ lit "acceptedits" ∷ [])
    then some accept_edits
    else if one_of key
        (lit "auto-approve" ∷ lit "auto_approve" ∷ lit "autoapprove" ∷ lit "yolo" ∷ [])
    then some auto_approve
    else none

unfoldable pub name : SafetyProfile → Text
unfolding lit
name default = lit "default"
name plan = lit "plan"
name accept_edits = lit "accept-edits"
name auto_approve = lit "auto-approve"

unfoldable pub readonly_tools : List Text
unfolding lit
readonly_tools =
    lit "read"
    ∷ lit "grep"
    ∷ lit "find"
    ∷ lit "ls"
    ∷ lit "recall"
    ∷ lit "web_fetch"
    ∷ lit "web_search"
    ∷ lit "ask_user"
    ∷ lit "todo"
    ∷ lit "vision_describe"
    ∷ lit "browser_navigate"
    ∷ lit "browser_screenshot"
    ∷ lit "skill_list"
    ∷ lit "skill_view"
    ∷ lit "session_search"
    ∷ lit "jobs"
    ∷ lit "job_output"
    ∷ lit "job_wait"
    ∷ lit "wait_ready"
    ∷ lit "use_tool"
    ∷ lit "code_search"
    ∷ lit "code_map"
    ∷ lit "semantic_search"
    ∷ lit "lsp"
    ∷ lit "pr"
    ∷ lit "doctor"
    ∷ lit "audit_tail"
    ∷ lit "research"
    ∷ lit "session_rewind"
    ∷ lit "fleet"
    ∷ lit "checkpoint"
    ∷ lit "git"
    ∷ []

unfoldable pub is_readonly_tool : Text → Bool
is_readonly_tool tool = one_of tool readonly_tools

unfoldable pub file_mutation_tools : List Text
unfolding lit
file_mutation_tools =
    lit "write"
    ∷ lit "edit"
    ∷ lit "edit_block"
    ∷ lit "safe_edit"
    ∷ lit "ast_edit"
    ∷ lit "office_document"
    ∷ []

unfoldable pub is_file_mutation_tool : Text → Bool
is_file_mutation_tool tool = one_of tool file_mutation_tools

unfoldable pub shell_tools : List Text
unfolding lit
shell_tools =
    lit "bash"
    ∷ lit "run_tests"
    ∷ lit "project"
    ∷ lit "job_kill"
    ∷ lit "job_steer"
    ∷ lit "computer_click"
    ∷ lit "computer_type"
    ∷ []

unfoldable pub is_shell_tool : Text → Bool
is_shell_tool tool = one_of tool shell_tools || starts_with tool (lit "computer_")

-- `matches!(action, "list" | "packages" | "")`.
unfoldable pub is_inspection : Text → Bool
is_inspection action = one_of action (lit "list" ∷ lit "packages" ∷ lit "" ∷ [])

unfoldable pub profile_skips_approval : SafetyProfile → Text → Bool
profile_skips_approval auto_approve tool = true
profile_skips_approval accept_edits tool = is_file_mutation_tool tool || is_readonly_tool tool
profile_skips_approval plan tool = false
profile_skips_approval default tool = false

-- The messages of the denials.
abbrev pub restore_denied : Text
restore_denied =
    lit
      "tool `checkpoint` action `restore` mutates the workspace (not allowed under plan/read-only; raise permission or leave plan mode)"

abbrev pub create_denied : Text
create_denied =
    lit
      "tool `pr` action `create` pushes and opens a remote PR (not allowed under plan/read-only; raise permission or leave plan mode)"

abbrev pub project_denied : Text → Text
project_denied action =
    lit "tool `project` action `"
    ++ (action
        ++ lit
            "` runs a process (not allowed under plan/read-only; use list/packages or leave plan mode)")

abbrev pub plan_denied : Text → Text
plan_denied tool =
    lit "tool `"
    ++ (tool
        ++ lit
            "` blocked by safety profile `plan` (read-only; use profile accept-edits or auto-approve to mutate)")

abbrev pub text_or : Text → Option Text → Text
text_or d none = d
text_or d (some s) = s

module _ (J : JsonLib) where
  open J use {Value, get, as_str}

  -- `args.get("action").and_then(|v| v.as_str())`.
  unfoldable pub action_arg : Value → Option Text
  action_arg args = get args (lit "action") >>= as_str

  unfoldable pub mutating_action_deny : Text → Value → Option Text
  mutating_action_deny tool args =
      let action = to_ascii_lowercase (text_or (lit "") (action_arg args)) in
      if text_eq tool (lit "checkpoint") && text_eq action (lit "restore")
      then some restore_denied
      else if text_eq tool (lit "pr") && text_eq action (lit "create")
      then some create_denied
      else if text_eq tool (lit "project") && not (is_inspection action)
      then some (project_denied action)
      else none

  unfoldable pub project_action_is_readonly : Value → Bool
  project_action_is_readonly args =
      is_inspection (to_ascii_lowercase (text_or (lit "list") (action_arg args)))

  unfoldable pub profile_deny_reason_with_args : SafetyProfile → Text → Value → Option Text
  profile_deny_reason_with_args default tool args = none
  profile_deny_reason_with_args auto_approve tool args = none
  profile_deny_reason_with_args plan tool args = elim (mutating_action_deny tool args) [
    | some r ↦ some r
    | none ↦
        if text_eq tool (lit "project") && project_action_is_readonly args
        then none
        else if is_readonly_tool tool
        then none
        else some (plan_denied tool)
  ]
  profile_deny_reason_with_args accept_edits tool args = none

  unfoldable pub profile_deny_reason : SafetyProfile → Text → Option Text
  unfolding profile_deny_reason_with_args
  profile_deny_reason profile tool = profile_deny_reason_with_args profile tool J.null
