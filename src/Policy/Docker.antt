-- ===== src/Policy/Docker.antt =====
-- policy.rs, `check_docker_escape` and what it calls. The text is the command in lower case. A
-- text cut from the front stands for a byte offset into it: a cut inside a character panics.
pub mod Mounts
pub mod Escape
pub mod Paths
use zymi_core.Prelude.{
  split_on, ℕ, zero, suc, ◌+◌, Bool, true, false, ◌&&◌, ◌||◌, Option, none, some, List, [], ◌∷◌,
  ◌++◌, ◌==◌, ltb, if◌then◌else◌, length, Outcome, done, fault, panic, out_of_fuel, ◌>>=◌, Text,
  codes, text_eq, trim, trim_start, is_empty, is_whitespace, strip_prefix, starts_with, contains,
}
use zymi_core.Policy.Split.{apostrophe, quotation}

-- `s.find(p)`, as what follows the first occurrence of `p`.
unfoldable pub after_first : Text → Text → Option Text
after_first [] p = strip_prefix [] p
after_first (c ∷ s) p = elim (strip_prefix (c ∷ s) p) [
  | some rest ↦ some rest
  | none ↦ after_first s p
]

-- `s[1..]`, behind a first character that may be wider than a byte.
unfoldable pub next_byte : Text → Outcome Text
next_byte [] = fault panic
next_byte (c ∷ s) = if ltb c 128 then done s else fault panic

-- `split_whitespace().next().unwrap_or("")`.
unfoldable pub word_at : Text → Text
word_at [] = []
word_at (c ∷ s) = if is_whitespace c then [] else c ∷ word_at s

unfoldable pub first_word : Text → Text
first_word s = word_at (trim_start s)

-- `token.find(':')` and the part before it.
unfoldable pub before : ℕ → Text → Option Text
before q [] = none
before q (c ∷ s) =
    if c == q then some [] else (elim (before q s) [ none ↦ none | some t ↦ some (c ∷ t) ])

unfoldable pub host_part : Text → List Text
host_part token = elim (before b':' token) [
  | none ↦ []
  | some host ↦ if is_empty host then [] else host ∷ []
]

unfoldable pub keyed : Text → Text → List Text
keyed part key = elim (strip_prefix part key) [
  | none ↦ []
  | some stripped ↦ if is_empty stripped then [] else stripped ∷ []
]

unfoldable pub mount_values : List Text → List Text
mount_values [] = []
mount_values (part ∷ parts) =
    keyed part (codes "source=") ++ keyed part (codes "src=") ++ mount_values parts

-- What a flag's argument holds: `-v`/`--volume` a host, `--mount` its `source=` or `src=`.
pub data FlagKind : Type 0 where
  volume mount : FlagKind

unfoldable pub sources_in : FlagKind → Text → List Text
sources_in volume token = host_part token
sources_in mount token = mount_values (split_on b',' [] token)

-- The `while let` loop over the occurrences of one flag. It cuts the text at each occurrence, so
-- it runs on fuel.
unfoldable pub flag_loop : FlagKind → Text → ℕ → Text → Outcome (List Text)
flag_loop kind flag zero s = fault out_of_fuel
flag_loop kind flag (suc fuel) s = elim (after_first s flag) [
  | none ↦ done []
  | some [] ↦ done []
  | some (c ∷ rest) ↦ do
    s' ← next_byte (c ∷ rest)
    more ← flag_loop kind flag fuel s'
    done (sources_in kind (first_word (trim_start (c ∷ rest))) ++ more)
]

unfoldable pub flag_sources : FlagKind → Text → Text → Outcome (List Text)
flag_sources kind cmd flag = flag_loop kind flag (suc (length cmd)) cmd

unfoldable pub all_sources : FlagKind → Text → List Text → Outcome (List Text)
all_sources kind cmd [] = done []
all_sources kind cmd (flag ∷ flags) = do
  here ← flag_sources kind cmd flag
  more ← all_sources kind cmd flags
  done (here ++ more)

abbrev pub volume_flags : List Text
volume_flags = codes "-v " ∷ codes "-v=" ∷ codes "--volume " ∷ codes "--volume=" ∷ []

abbrev pub mount_flags : List Text
mount_flags = codes "--mount " ∷ codes "--mount=" ∷ []

unfoldable pub extract_mount_sources : Text → Outcome (List Text)
extract_mount_sources cmd = do
  volumes ← all_sources volume cmd volume_flags
  mounts ← all_sources mount cmd mount_flags
  done (volumes ++ mounts)

-- `trim_matches` of both quotes.
abbrev is_quote : ℕ → Bool
is_quote c = c == quotation || c == apostrophe

unfoldable pub drop_quotes : Text → Text
drop_quotes [] = []
drop_quotes (c ∷ s) = if is_quote c then drop_quotes s else c ∷ s

keep_quoted : ℕ → Text → Text
keep_quoted c [] = if is_quote c then [] else c ∷ []
keep_quoted c (d ∷ s) = c ∷ d ∷ s

unfoldable pub drop_end_quotes : Text → Text
unfolding keep_quoted
drop_end_quotes [] = []
drop_end_quotes (c ∷ s) = keep_quoted c (drop_end_quotes s)

unfoldable pub normalize_path : Text → Text
normalize_path raw = trim (drop_end_quotes (drop_quotes (trim raw)))

-- `SENSITIVE_MOUNT_SOURCES`.
abbrev pub sensitive_mount_sources : List Text
sensitive_mount_sources =
    codes "/etc"
    ∷ codes "/root"
    ∷ codes "/var/run/docker.sock"
    ∷ codes "/run/docker.sock"
    ∷ codes "/proc"
    ∷ codes "/sys"
    ∷ codes "/dev"
    ∷ codes "/boot"
    ∷ []

-- Whether a path is `sensitive`, or goes on after it with a slash.
abbrev slash_first : Text → Bool
slash_first [] = false
slash_first (c ∷ s) = c == b'/'

unfoldable pub lies_under : Text → Text → Bool
lies_under path sensitive =
    text_eq path sensitive
    || (elim (strip_prefix path sensitive) [ none ↦ false | some rest ↦ slash_first rest ])

unfoldable pub lies_under_any : Text → List Text → Bool
lies_under_any path [] = false
lies_under_any path (sensitive ∷ more) = lies_under path sensitive || lies_under_any path more

unfoldable pub is_sensitive_path : Text → Bool
is_sensitive_path path = text_eq path (codes "/") || lies_under_any path sensitive_mount_sources

unfoldable pub any_sensitive : List Text → Bool
any_sensitive [] = false
any_sensitive (raw ∷ more) = is_sensitive_path (normalize_path raw) || any_sensitive more

unfoldable pub has_sensitive_mount : Text → Outcome Bool
has_sensitive_mount lower = do sources ← extract_mount_sources lower; done (any_sensitive sources)

-- `lower.contains(…)` of one of the texts.
unfoldable pub contains_any : Text → List Text → Bool
contains_any s [] = false
contains_any s (p ∷ ps) = contains s p || contains_any s ps

-- The flags that are refused wherever they stand in a command that names docker.
abbrev pub escape_flags : List Text
escape_flags =
    codes "--privileged"
    ∷ codes "--device"
    ∷ codes "--pid=host"
    ∷ codes "--pid host"
    ∷ codes "--cap-add=all"
    ∷ codes "--cap-add all"
    ∷ codes "--cap-add=sys_admin"
    ∷ codes "--cap-add sys_admin"
    ∷ codes "apparmor:unconfined"
    ∷ codes "apparmor=unconfined"
    ∷ []

unfoldable pub check_docker_escape : Text → Outcome Bool
check_docker_escape lower =
    if contains lower (codes "docker")
    then (if contains_any lower escape_flags then done true else has_sensitive_mount lower)
    else done false
