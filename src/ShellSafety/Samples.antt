-- ===== src/ShellSafety/Samples.antt =====
-- Denials of concrete commands.
use pirs.Prelude.{◌≡◌, refl, none}
use pirs.Prelude.Text.{
  one_of, text_eq, lit, starts_with, contains, after_marker, to_ascii_lowercase, to_ascii_lower,
}
use pirs.ShellSafety.{
  flatten_char, flatten_shell_command, ends_with_slash, rm_root, is_root_end, removes_root,
  rm_reason, disk_patterns, pipe_sh, downloads, normalised, lower_reason, catastrophic_shell_reason,
}

-- Evaluates how characters count.
plain : Unit {0}
unfolding lit to_ascii_lower one_of text_eq
plain = tt

-- Only the first occurrence of a root pattern is looked at: behind a removal in `/tmp`, the removal
-- of the root passes.
second_removal_passes : catastrophic_shell_reason (lit "rm -rf /tmp/a; rm -rf /") ≡ none
unfolding catastrophic_shell_reason lower_reason normalised flatten_shell_command flatten_char
    to_ascii_lowercase to_ascii_lower rm_reason removes_root rm_root is_root_end ends_with_slash
    disk_patterns pipe_sh downloads contains starts_with after_marker lit
second_removal_passes = refl
