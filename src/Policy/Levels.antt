-- ===== src/Policy/Levels.antt =====
-- What the autonomy levels, the yolo rule and the presets grant.
use pirs.Prelude.{
  ℕ, ◌≤◌, ◌≡◌, ◌≢◌, ◌⊎◌, inl, inr, Bool, true, false, Option, none, some, ◌>>=◌, arith, Bool-cases,
}
use pirs.Prelude.Text.{Text, lit, text_eq, text_eq_iff, eq_ignore_ascii_case}
use pirs.Policy.Permission.{PermissionMode, rank, apply_yolo_permission_default}
use pirs.Policy.Permission
use pirs.Policy.Preset.{ToolPreset, Knobs, preset_profile, apply_tool_preset}
use pirs.Policy.Preset
use pirs.Policy.Autonomy.{Autonomy, resolve_preset, resolve_permission, resolve_profile}
use pirs.Policy.Autonomy

-- Full autonomy was asked for: by `--autonomy`; if that names no level, by the mode dial; if neither
-- does, by yolo approval, by the tool preset or, if that names no preset, by the permission flag.
abbrev pub IsFullAsked : Option Text → Option Text → Option Text → Option Text → Text → Type 0
IsFullAsked mode_dial autonomy_flag tool_preset permission_flag approval =
    ((autonomy_flag >>= Autonomy.parse) ≡ some Autonomy.full)
    ⊎ (((autonomy_flag >>= Autonomy.parse) ≡ none)
        × (((mode_dial >>= Autonomy.parse) ≡ some Autonomy.full)
            ⊎ (((mode_dial >>= Autonomy.parse) ≡ none)
                × ((eq_ignore_ascii_case approval (lit "yolo") ≡ true)
                    ⊎ (((tool_preset >>= Preset.parse) ≡ some ToolPreset.full)
                        ⊎ (((tool_preset >>= Preset.parse) ≡ none)
                            × ((permission_flag >>= Permission.parse)
                                ≡ some PermissionMode.danger_full_access)))))))

-- The yolo rule never lowers the mode, and raises it only to full access, under yolo approval and
-- with no explicit mode, no plan dial and no plan profile.
apply_yolo_raises :
    (yolo : Bool) (explicit : Option PermissionMode) (dial_plan profile_is_plan : Bool)
    (current : PermissionMode)
    → let mode = apply_yolo_permission_default yolo explicit dial_plan profile_is_plan current in
      (rank current ≤ rank mode)
      × ((mode ≡ current)
          ⊎ ((mode ≡ PermissionMode.danger_full_access)
              × (yolo ≡ true)
              × (explicit ≡ none)
              × (dial_plan ≡ false)
              × (profile_is_plan ≡ false)))
unfolding apply_yolo_permission_default
apply_yolo_raises yolo explicit dial prof current = ground arith

-- The profile that a preset fills in is kept by a second application.
preset_profile_stable :
    (p : ToolPreset) (given : Text)
    → preset_profile p (preset_profile p given) ≡ preset_profile p given
unfolding preset_profile
preset_profile_stable p given = elim (Bool-cases (text_eq given (lit "default"))) [
  | inl e ↦ rw e (ground arith)
  | inr e ↦ rw (e, e)
]

-- Applying a preset a second time changes nothing.
apply_tool_preset_idem :
    (p : ToolPreset) (k : Knobs)
    → apply_tool_preset p (apply_tool_preset p k) ≡ apply_tool_preset p k
unfolding apply_tool_preset
apply_tool_preset_idem p k = ground (arith, preset_profile_stable p k.agent_profile)

-- What the user set by hand a preset keeps: the permission mode, a profile other than the default,
-- and the budget of tool calls.
apply_tool_preset_keeps :
    (p : ToolPreset) (k : Knobs) {mode : Text} {calls : ℕ}
    → k.permission_mode ≡ some mode
    → k.agent_profile ≢ lit "default"
    → k.max_tool_calls ≡ some calls
    → let k' = apply_tool_preset p k in
      (k'.permission_mode ≡ some mode)
      × (k'.agent_profile ≡ k.agent_profile)
      × (k'.max_tool_calls ≡ some calls)
unfolding apply_tool_preset preset_profile
apply_tool_preset_keeps p k m d c = ground (arith, text_eq_iff k.agent_profile (lit "default"))
