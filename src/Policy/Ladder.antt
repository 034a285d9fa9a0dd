-- ===== src/Policy/Ladder.antt =====
-- What the permission ladder and the safety profiles deny.
use pirs.Prelude.{
  ◌≤◌, ◌≡◌, refl, ◌↔◌, ◌⊎◌, subst, ◌≢◌, inl, inr, true, false, not, none, arith, Bool-cases,
  Option-cases,
}
use pirs.Prelude.Text.{
  Text, lit, to_ascii_lowercase, text_eq, one_of, starts_with, eq_of_text_eq, text_eq_iff,
  all_of_one_of,
}
use pirs.Json.{JsonLib}
use pirs.Policy.Profile.{
  SafetyProfile, shell_tools, readonly_tools, is_readonly_tool, file_mutation_tools,
  is_file_mutation_tool, is_shell_tool, profile_skips_approval, is_inspection, action_arg, text_or,
  mutating_action_deny, project_action_is_readonly, profile_deny_reason_with_args,
}
use pirs.Policy.Permission.{
  PermissionMode, rank, observing_tools, required_mode_for_tool, permission_deny_reason_with_args,
}

module _ (J : JsonLib) where
  open J use {Value}

  -- A call that a mode of the ladder allows, every higher mode allows.
  pub permission_monotone :
      (low high : PermissionMode) (tool : Text) (args : Value)
      → rank low ≤ rank high
      → permission_deny_reason_with_args J low tool args ≡ none
      → permission_deny_reason_with_args J high tool args ≡ none
  unfolding permission_deny_reason_with_args
  permission_monotone low high tool args h e = ground arith

  -- Full access denies no call.
  pub full_access_denies_nothing :
      (tool : Text) (args : Value)
      → permission_deny_reason_with_args J PermissionMode.danger_full_access tool args ≡ none
  unfolding permission_deny_reason_with_args
  full_access_denies_nothing tool args = ground arith

-- Evaluates a test of a tool name at every name of a list.
tool_tests : Unit {0}
unfolding is_readonly_tool is_file_mutation_tool is_shell_tool readonly_tools file_mutation_tools
    shell_tools observing_tools required_mode_for_tool one_of text_eq lit starts_with
tool_tests = tt

-- The tools that the ladder names beside the read-only class are in that class.
observing-readonly :
    (tool : Text) → one_of tool observing_tools ≡ true → is_readonly_tool tool ≡ true
observing-readonly tool h =
    all_of_one_of is_readonly_tool tool observing_tools h (unfold tool_tests in refl)

required_of_readonly :
    (tool : Text)
    → is_readonly_tool tool ≡ true
    → required_mode_for_tool tool ≡ PermissionMode.read_only
unfolding required_mode_for_tool
required_of_readonly tool h = rw h

required_of_not_readonly :
    (tool : Text) → is_readonly_tool tool ≡ false → 1 ≤ rank (required_mode_for_tool tool)
unfolding required_mode_for_tool
required_of_not_readonly tool h = ground (arith, observing-readonly tool)

-- A tool that writes files is not in the read-only class, and needs write access.
mutation-not_readonly :
    (tool : Text) → is_file_mutation_tool tool ≡ true → is_readonly_tool tool ≡ false
mutation-not_readonly tool h = ground (
  arith,
  all_of_one_of (λ t. not (is_readonly_tool t)) tool file_mutation_tools
      (unfold is_file_mutation_tool in h) (unfold tool_tests in refl),
)

mutation-not_project :
    (tool : Text) → is_file_mutation_tool tool ≡ true → text_eq tool (lit "project") ≡ false
mutation-not_project tool h = ground (
  arith,
  all_of_one_of (λ t. not (text_eq t (lit "project"))) tool file_mutation_tools
      (unfold is_file_mutation_tool in h) (unfold tool_tests in refl),
)

-- No tool is in two of the classes.
readonly-not_shell : (tool : Text) → is_readonly_tool tool ≡ true → is_shell_tool tool ≡ false
readonly-not_shell tool h = ground (
  arith,
  all_of_one_of (λ t. not (is_shell_tool t)) tool readonly_tools (unfold is_readonly_tool in h)
      (unfold tool_tests in refl),
)

mutation-not_shell : (tool : Text) → is_file_mutation_tool tool ≡ true → is_shell_tool tool ≡ false
mutation-not_shell tool h = ground (
  arith,
  all_of_one_of (λ t. not (is_shell_tool t)) tool file_mutation_tools
      (unfold is_file_mutation_tool in h) (unfold tool_tests in refl),
)

shell-ne :
    (tool other : Text)
    → is_shell_tool tool ≡ true
    → is_shell_tool other ≡ false
    → text_eq tool other ≡ false
shell-ne tool other h k = elim (Bool-cases (text_eq tool other)) [
  | inl e ↦
      absurd (ground (arith, subst (λ t. is_shell_tool t ≡ true) (eq_of_text_eq tool other e) h))
  | inr e ↦ e
]

required_of_shell :
    (tool : Text)
    → is_shell_tool tool ≡ true
    → required_mode_for_tool tool ≡ PermissionMode.danger_full_access
unfolding required_mode_for_tool
required_of_shell tool h = ground (
  arith,
  observing-readonly tool,
  readonly-not_shell tool,
  mutation-not_shell tool,
  shell-ne tool (lit "todo") h (unfold tool_tests in refl),
)

-- Under `accept-edits` no shell tool runs without the approval prompt.
shell_is_approved :
    (tool : Text)
    → is_shell_tool tool ≡ true
    → profile_skips_approval SafetyProfile.accept_edits tool ≡ false
unfolding profile_skips_approval
shell_is_approved tool h = ground (arith, readonly-not_shell tool, mutation-not_shell tool)

module _ (J : JsonLib) where
  open J use {Value}

  -- `project` with no action is read as an empty action by one test and as `list` by the other;
  -- both take it for an inspection.
  project_tests_agree :
      (args : Value)
      → project_action_is_readonly J args
        ≡ is_inspection (to_ascii_lowercase (text_or (lit "") (action_arg J args)))
  unfolding project_action_is_readonly
  project_tests_agree args = elim (Option-cases (action_arg J args)) [
    | inl e ↦ rw e (unfold is_inspection one_of text_eq lit to_ascii_lowercase in refl)
    | inr (a, e) ↦ rw e
  ]

  mutating-project :
      (tool : Text) (args : Value)
      → text_eq tool (lit "project") ≡ true
      → (mutating_action_deny J tool args ≡ none) ↔ (project_action_is_readonly J args ≡ true)
  mutating-project tool args h =
      rw (eq_of_text_eq tool (lit "project") h, project_tests_agree args)
        (unfold mutating_action_deny text_eq lit in (λ e. ground arith, λ e. ground arith))

  -- The `plan` profile and the read-only ladder deny exactly the same calls, whatever the tool and
  -- its arguments.
  pub plan-read_only :
      (tool : Text) (args : Value)
      → (profile_deny_reason_with_args J SafetyProfile.plan tool args ≡ none)
        ↔ (permission_deny_reason_with_args J PermissionMode.read_only tool args ≡ none)
  unfolding profile_deny_reason_with_args permission_deny_reason_with_args
  plan-read_only tool args = (
    λ e. ground (arith, mutating-project tool args, required_of_readonly tool),
    λ e. ground (arith, mutating-project tool args, required_of_not_readonly tool),
  )

  -- Under `read-only` none of the six tools that the policy classes as changing files runs (`write`,
  -- `edit`, `edit_block`, `safe_edit`, `ast_edit`, `office_document`), whatever its arguments.
  pub read_only_denies_mutation :
      (tool : Text) (args : Value)
      → is_file_mutation_tool tool ≡ true
      → permission_deny_reason_with_args J PermissionMode.read_only tool args ≢ none
  unfolding permission_deny_reason_with_args
  read_only_denies_mutation tool args h = ground (
    arith,
    mutation-not_project tool h,
    required_of_not_readonly tool (mutation-not_readonly tool h),
  )

  mutating-shell :
      (tool : Text) (args : Value)
      → is_shell_tool tool ≡ true
      → text_eq tool (lit "project") ≡ false
      → mutating_action_deny J tool args ≡ none
  unfolding mutating_action_deny
  mutating-shell tool args h k = ground (
    arith,
    shell-ne tool (lit "checkpoint") h (unfold tool_tests in refl),
    shell-ne tool (lit "pr") h (unfold tool_tests in refl),
  )

  -- Below full access no shell tool runs, whatever its arguments, but for the inspecting actions
  -- of `project`.
  pub shell_needs_full_access :
      (mode : PermissionMode) (tool : Text) (args : Value)
      → is_shell_tool tool ≡ true
      → permission_deny_reason_with_args J mode tool args ≡ none
      → (mode ≡ PermissionMode.danger_full_access)
        ⊎ ((tool ≡ lit "project") × (project_action_is_readonly J args ≡ true))
  unfolding permission_deny_reason_with_args
  shell_needs_full_access mode tool args h e = ground (
    arith,
    text_eq_iff tool (lit "project"),
    mutating-shell tool args h,
    required_of_shell tool h,
  )
