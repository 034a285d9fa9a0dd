-- ===== src/Policy/Names.antt =====
-- The printed names of the policy values, and what reads them back.
use pirs.Prelude.{◌≡◌, refl, some, ◌>>=◌}
use pirs.Policy.Profile
use pirs.Policy.Permission
use pirs.Policy.Preset
use pirs.Policy.Autonomy
use pirs.Policy.Autonomy.{Settings, apply_autonomy, permission}

profile-parse-name : (p : Profile.SafetyProfile) → Profile.parse (Profile.name p) ≡ some p
unfolding Profile.parse Profile.name
profile-parse-name Profile.SafetyProfile.default = refl
profile-parse-name _ = refl

permission-parse-name :
    (m : Permission.PermissionMode) → Permission.parse (Permission.name m) ≡ some m
unfolding Permission.parse Permission.name
permission-parse-name Permission.PermissionMode.read_only = refl
permission-parse-name _ = refl

preset-parse-name : (p : Preset.ToolPreset) → Preset.parse (Preset.name p) ≡ some p
unfolding Preset.parse Preset.name
preset-parse-name Preset.ToolPreset.full = refl
preset-parse-name _ = refl

autonomy-parse-name : (a : Autonomy.Autonomy) → Autonomy.parse (Autonomy.name a) ≡ some a
unfolding Autonomy.parse Autonomy.name
autonomy-parse-name Autonomy.Autonomy.plan = refl
autonomy-parse-name _ = refl

-- For each of the four policy types, the name that a value prints parses back to the value.
pub parse-name :
    ((p : Profile.SafetyProfile) → Profile.parse (Profile.name p) ≡ some p)
    × ((m : Permission.PermissionMode) → Permission.parse (Permission.name m) ≡ some m)
    × ((p : Preset.ToolPreset) → Preset.parse (Preset.name p) ≡ some p)
    × ((a : Autonomy.Autonomy) → Autonomy.parse (Autonomy.name a) ≡ some a)
parse-name = (profile-parse-name, permission-parse-name, preset-parse-name, autonomy-parse-name)

-- After `apply_autonomy` the live slot holds the level's permission mode, and what a later process
-- reads from the three environment variables are that mode, the level's profile and the level.
apply_autonomy-reads :
    (a : Autonomy.Autonomy) (s : Settings)
    → let t = apply_autonomy a s in
      (t.live.mode ≡ permission a)
      × (Permission.from_env t.live.env_mode ≡ permission a)
      × ((t.env_profile >>= Profile.parse) ≡ some (Autonomy.profile a))
      × ((t.env_autonomy >>= Autonomy.parse) ≡ some a)
unfolding apply_autonomy Permission.from_env
apply_autonomy-reads a s = (
  refl,
  rw (Permission.from_env, permission-parse-name (permission a)),
  profile-parse-name (Autonomy.profile a),
  autonomy-parse-name a,
)
