-- ===== src/ShellSafety.antt =====
-- crates/pirs-tools/src/shell_safety.rs: the hard denials of the shell tool. Theorems in `Denials`.
pub mod Denials
mod Samples
use pirs.Prelude.{
  ℕ, Bool, true, false, ◌||◌, Option, none, some, List, [], ◌∷◌, ◌++◌, map, ◌==◌, if◌then◌else◌,
}
use pirs.Prelude.Lists.{any}
use pirs.Prelude.Text.{Text, lit, starts_with, contains, after_marker, to_ascii_lowercase}

unfoldable pub flatten_char : ℕ → ℕ
flatten_char c = if (c == b'\n') || (c == b'\r') then b' ' else c

unfoldable pub flatten_shell_command : Text → Text
unfolding flatten_char
flatten_shell_command cmd = map flatten_char cmd

-- `p.ends_with('/')`.
unfoldable pub ends_with_slash : Text → Bool
ends_with_slash [] = false
ends_with_slash (c ∷ []) = c == b'/'
ends_with_slash (c ∷ d ∷ s) = ends_with_slash (d ∷ s)

unfoldable pub rm_root : List Text
unfolding lit
rm_root =
    lit "rm -rf /"
    ∷ lit "rm -rf ~"
    ∷ lit "rm -fr /"
    ∷ lit "rm -fr ~"
    ∷ lit "rm --recursive --force /"
    ∷ lit "rm --force --recursive /"
    ∷ []

-- What follows the pattern shows that the root itself is meant.
unfoldable pub is_root_end : Text → Bool
unfolding starts_with
is_root_end [] = true
is_root_end (c ∷ after) =
    any (λ d. d == c) (b' ' ∷ b';' ∷ b'&' ∷ b'|' ∷ b'"' ∷ 39 ∷ b'`' ∷ 9 ∷ [])
    || starts_with (c ∷ after) (lit "--")

abbrev after_is_root : Option Text → Bool
after_is_root none = false
after_is_root (some after) = is_root_end after

-- One round of the loop over `rm_root`.
unfoldable pub removes_root : Text → Text → Bool
unfolding contains
removes_root lower p =
    if contains lower p
    then (if ends_with_slash p then after_is_root (after_marker p lower) else true)
    else false

unfoldable pub rm_reason : Text → List Text → Option Text
unfolding removes_root
rm_reason lower [] = none
rm_reason lower (p ∷ ps) =
    if removes_root lower p
    then some (
        lit "blocked: catastrophic shell pattern \""
        ++ (p ++ lit "\" (use a scoped path under the workspace)"))
    else rm_reason lower ps

unfoldable pub disk_patterns : List Text
unfolding lit
disk_patterns =
    lit "mkfs."
    ∷ lit "mkfs "
    ∷ lit ":(){:|:&};:"
    ∷ lit "dd if=/dev/zero of=/dev/"
    ∷ lit "dd if=/dev/random of=/dev/"
    ∷ lit "chmod -r 777 /"
    ∷ lit "chmod -r 777 / "
    ∷ []

unfoldable pub pipe_sh : List Text
unfolding lit
pipe_sh =
    lit "| sh"
    ∷ lit "|sh"
    ∷ lit "| bash"
    ∷ lit "|bash"
    ∷ lit "| /bin/sh"
    ∷ lit "|/bin/sh"
    ∷ lit "| /bin/bash"
    ∷ lit "|/bin/bash"
    ∷ []

unfoldable pub downloads : List Text
unfolding lit
downloads = lit "curl " ∷ lit "wget " ∷ lit "curl\t" ∷ lit "wget\t" ∷ []

-- The text that every test reads.
unfoldable pub normalised : Text → Text
unfolding flatten_shell_command
normalised cmd = to_ascii_lowercase (flatten_shell_command cmd)

unfoldable pub lower_reason : Text → Option Text
lower_reason lower = elim (rm_reason lower rm_root) [
  | some reason ↦ some reason
  | none ↦
      if any (contains lower) disk_patterns
      then some (
          lit
            "blocked: catastrophic disk/permission pattern (refusing to run without explicit operator override)")
      else if any (contains lower) downloads
      then (if any (contains lower) pipe_sh
          then some (
              lit
                "blocked: download piped to a shell (curl|sh / wget|bash). Download to a file and inspect first.")
          else none)
      else none
]

unfoldable pub catastrophic_shell_reason : Text → Option Text
unfolding lower_reason
catastrophic_shell_reason cmd = lower_reason (normalised cmd)
