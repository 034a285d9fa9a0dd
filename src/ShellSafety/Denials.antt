-- ===== src/ShellSafety/Denials.antt =====
-- Which commands are denied.
use pirs.Prelude.{ℕ, ◌==◌, ◌⊎◌, ◌≡◌, true, ◌||◌, List, [], ◌∷◌, ◌++◌, map, if◌then◌else◌}
use pirs.Prelude.Text.{one_of, Text, lit, to_ascii_lower}

-- How a character counts: a line break as a space, and a letter in lower case.
abbrev pub plain_char : ℕ → ℕ
plain_char c = if (c == b'\n') || (c == b'\r') then b' ' else to_ascii_lower c

abbrev pub home_removals : List Text
home_removals = lit "rm -rf ~" ∷ lit "rm -fr ~" ∷ []

abbrev pub disk_attacks : List Text
disk_attacks =
    lit "mkfs."
    ∷ lit "mkfs "
    ∷ lit ":(){:|:&};:"
    ∷ lit "dd if=/dev/zero of=/dev/"
    ∷ lit "dd if=/dev/random of=/dev/"
    ∷ lit "chmod -r 777 /"
    ∷ []

abbrev pub fetches : List Text
fetches = lit "curl " ∷ lit "wget " ∷ lit "curl\t" ∷ lit "wget\t" ∷ []

abbrev pub shells : List Text
shells =
    lit "| sh"
    ∷ lit "|sh"
    ∷ lit "| bash"
    ∷ lit "|bash"
    ∷ lit "| /bin/sh"
    ∷ lit "|/bin/sh"
    ∷ lit "| /bin/bash"
    ∷ lit "|/bin/bash"
    ∷ []

-- Somewhere in the command stands one of the texts, as its characters count.
abbrev pub HasAny : List Text → Text → Type 0
HasAny ps cmd =
    (first : Text) × (p : Text) × (rest : Text) × (cmd ≡ first ++ (p ++ rest))
    × (one_of (map plain_char p) ps ≡ true)

abbrev pub IsDangerous : Text → Type 0
IsDangerous cmd =
    HasAny home_removals cmd ⊎ (HasAny disk_attacks cmd ⊎ (HasAny fetches cmd × HasAny shells cmd))
