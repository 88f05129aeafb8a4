-- ===== src/Policy/Danger.antt =====
-- policy.rs, `check_dangerous`: commands that are denied whatever the policy says. `to_lowercase`
-- of the standard library follows the Unicode tables and is a parameter.
pub mod Root
use zymi_core.Prelude.{
  ℕ, Bool, true, false, ◌&&◌, ◌||◌, Option, none, some, List, [], ◌∷◌, ◌==◌, if◌then◌else◌, Outcome,
  done, fault, ◌>>=◌, Text, codes, text_eq, starts_with, contains,
}
use zymi_core.Policy.Fragments.{holds}
use zymi_core.Policy.Command.{NormalizedCommand, has_flag, normalize_command}
use zymi_core.Policy.Docker.{check_docker_escape}

unfoldable pub any_starts_with : List Text → Text → Bool
any_starts_with [] p = false
any_starts_with (s ∷ ss) p = starts_with s p || any_starts_with ss p

-- The texts that are looked for in the command as it stands.
unfoldable pub raw_danger : Text → Option Text
raw_danger lower =
    if contains lower (codes ":(){:|:&};:")
    then some (codes "Blocked: Fork bomb")
    else if contains lower (codes "mkfs.")
    then some (codes "Blocked: Filesystem formatting")
    else if contains lower (codes "> /dev/sda")
    then some (codes "Blocked: Disk overwrite")
    else none

unfoldable pub removes_root : NormalizedCommand → Bool
removes_root norm =
    text_eq norm.base (codes "rm")
    && has_flag norm.flags b'r'
    && has_flag norm.flags b'f'
    && (holds norm.args (codes "/") || holds norm.args (codes "/*"))

unfoldable pub overwrites_disk : NormalizedCommand → Bool
overwrites_disk norm =
    text_eq norm.base (codes "dd")
    && (any_starts_with norm.args (codes "if=/dev/zero")
        || any_starts_with norm.args (codes "if=/dev/random"))
    && any_starts_with norm.args (codes "of=/dev/sd")

unfoldable pub opens_root : NormalizedCommand → Bool
opens_root norm =
    text_eq norm.base (codes "chmod")
    && (has_flag norm.flags b'r' || has_flag norm.flags b'R')
    && holds norm.args (codes "777")
    && holds norm.args (codes "/")

unfoldable pub owns_root : NormalizedCommand → Bool
owns_root norm =
    text_eq norm.base (codes "chown")
    && (has_flag norm.flags b'r' || has_flag norm.flags b'R')
    && holds norm.args (codes "/")

-- The tests of the normalized command, in their order.
unfoldable pub parsed_danger : NormalizedCommand → Option Text
parsed_danger norm =
    if removes_root norm
    then some (codes "Blocked: Recursive deletion of root filesystem")
    else if overwrites_disk norm
    then some (codes "Blocked: Disk overwrite")
    else if opens_root norm
    then some (codes "Blocked: Recursive permission change on root")
    else if owns_root norm
    then some (codes "Blocked: Recursive ownership change on root")
    else none

-- The tests that stand last: docker, then `nsenter`.
unfoldable pub host_danger : Text → Outcome (Option Text)
host_danger lower = do
  escape ← check_docker_escape lower
  done (
      if escape
      then some (codes "Blocked: Docker privilege escalation (container escape to host root)")
      else if contains lower (codes "nsenter") && contains lower (codes "-t 1")
      then some (codes "Blocked: nsenter into PID 1 (host namespace escape)")
      else none)

unfoldable pub check_dangerous : (Text → Text) → Text → Outcome (Option Text)
check_dangerous to_lowercase command = elim (raw_danger (to_lowercase command)) [
  | some reason ↦ done (some reason)
  | none ↦ elim (parsed_danger (normalize_command command)) [
    | some reason ↦ done (some reason)
    | none ↦ host_danger (to_lowercase command)
  ]
]
