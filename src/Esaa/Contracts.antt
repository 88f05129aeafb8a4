-- ===== src/Esaa/Contracts.antt =====
-- esaa/contracts.rs: the contracts on shell commands and on files.
pub mod Files
pub mod Secrets
use zymi_core.Prelude.{
  ℕ, Bool, true, false, ◌&&◌, ◌||◌, Option, none, some, List, [], ◌∷◌, ◌++◌, ◌==◌, leb,
  if◌then◌else◌, Outcome, done, ◌>>=◌, Text, codes, is_empty, split_on, byte_len, floor_slice,
}
use zymi_core.Policy.Split.{backslash}
use zymi_core.Policy.ShellWrapper.{RegexCrate}
use zymi_core.Policy.Engine.{
  PolicyConfig, PolicyEngine, PolicyDecision, allowed, needs_approval, Host,
}
use zymi_core.Policy.Engine as Policy
use zymi_core.Esaa.Paths.{normalize_components, normalize_string, is_within}
use zymi_core.Esaa.Intentions.{
  Intention, execute_shell_command, write_file, read_file, web_search, web_scrape, write_memory,
  spawn_sub_agent, call_custom_tool, IntentionVerdict, approved, requires_human_approval, denied,
}

pub record FileWriteContract : Type 0 where
  pub allowed_dirs : List Text
  pub deny_patterns : List Text

-- `BUILTIN_SECRET_DENY`.
abbrev pub builtin_secret_deny : List Text
builtin_secret_deny =
    codes "*.env"
    ∷ codes ".env"
    ∷ codes ".env.*"
    ∷ codes "*.key"
    ∷ codes "*.pem"
    ∷ codes "*.pfx"
    ∷ codes "*.p12"
    ∷ codes "id_rsa"
    ∷ codes "id_dsa"
    ∷ codes "id_ecdsa"
    ∷ codes "id_ed25519"
    ∷ codes ".netrc"
    ∷ codes ".pypirc"
    ∷ codes ".npmrc"
    ∷ codes "credentials"
    ∷ codes "*.secret"
    ∷ []

pub record ContractEngine : Type 0 where
  pub shell_policy : PolicyEngine
  pub file_contract : FileWriteContract
  pub deny_regexes : List Text

-- `replace` of a backslash and `q`.
unfoldable pub replace_escaped : ℕ → Text → Text → Text
replace_escaped q by [] = []
replace_escaped q by (c ∷ []) = c ∷ []
replace_escaped q by (c ∷ d ∷ s) =
    let past = replace_escaped q by s in
    let next = replace_escaped q by (d ∷ s) in
    if c == backslash && d == q then by ++ past else c ∷ next

-- `glob_to_regex`; `none` where the crate rejects the pattern.
unfoldable pub glob_to_regex : RegexCrate → Text → Option Text
unfolding replace_escaped
glob_to_regex rx glob =
    let starred = replace_escaped b'*' (codes ".*") (rx.escape glob) in
    let regex_str = codes "^" ++ replace_escaped b'?' (codes ".") starred ++ codes "$" in
    if rx.compiles regex_str then some regex_str else none

unfoldable pub compile_globs : RegexCrate → List Text → List Text
unfolding glob_to_regex
compile_globs rx [] = []
compile_globs rx (p ∷ ps) = elim (glob_to_regex rx p) [
  | none ↦ compile_globs rx ps
  | some re ↦ re ∷ compile_globs rx ps
]

-- `ContractEngine::new`.
unfoldable pub new_contracts : RegexCrate → PolicyEngine → FileWriteContract → ContractEngine
new_contracts rx shell_policy file_contract = record {
  shell_policy = shell_policy;
  file_contract = file_contract;
  deny_regexes = compile_globs rx (builtin_secret_deny ++ file_contract.deny_patterns);
}

-- `rsplit('/').next()`: the last part.
unfoldable pub last_part : List Text → Text
last_part [] = []
last_part (s ∷ []) = s
last_part (s ∷ t ∷ ts) = last_part (t ∷ ts)

unfoldable pub basename : Text → Text
unfolding last_part
basename normalized = last_part (split_on b'/' [] normalized)

-- The loop over the deny regexes.
unfoldable pub first_denial : RegexCrate → List Text → Text → Text → Option Text
first_denial rx [] normalized base = none
first_denial rx (re ∷ res) normalized base =
    let later = first_denial rx res normalized base in
    if rx.is_match re normalized || rx.is_match re base then some re else later

unfoldable pub denied_by_pattern : RegexCrate → ContractEngine → Text → Option Text
denied_by_pattern rx e path =
    first_denial rx e.deny_regexes (normalize_string path) (basename (normalize_string path))

unfoldable pub evaluate_file_read : RegexCrate → ContractEngine → Text → IntentionVerdict
evaluate_file_read rx e path = elim (denied_by_pattern rx e path) [
  | some reason ↦ denied (codes "File read denied (" ++ reason ++ codes "): " ++ path)
  | none ↦ approved
]

-- The loop over the allowed directories.
unfoldable pub within_any : List Text → List Text → Bool
within_any target [] = false
within_any target (dir ∷ dirs) =
    is_within target (normalize_components dir) || within_any target dirs

abbrev no_dirs : Text
no_dirs = codes "No allowed_dirs configured, file write requires approval: "

unfoldable pub evaluate_file_write : RegexCrate → ContractEngine → Text → IntentionVerdict
evaluate_file_write rx e path = elim (denied_by_pattern rx e path) [
  | some reason ↦ denied (codes "File write denied (" ++ reason ++ codes "): " ++ path)
  | none ↦
      if is_empty e.file_contract.allowed_dirs
      then requires_human_approval (no_dirs ++ path)
      else if within_any (normalize_components path) e.file_contract.allowed_dirs
      then approved
      else requires_human_approval (codes "File write outside allowed directories: " ++ path)
]

unfoldable pub truncate : Text → ℕ → Text
unfolding byte_len floor_slice
truncate s max = if leb (byte_len s) max then s else floor_slice max s

unfoldable pub shell_verdict : Text → PolicyDecision → IntentionVerdict
shell_verdict command allowed = approved
shell_verdict command needs_approval =
    requires_human_approval (codes "Shell command requires approval: " ++ truncate command 100)
shell_verdict command (Policy.denied reason) = denied reason

unfoldable pub evaluate_shell_command : Host → ContractEngine → Text → Outcome IntentionVerdict
evaluate_shell_command host e command = do
  decision ← Policy.evaluate host e.shell_policy command
  done (shell_verdict command decision)

-- `ContractEngine::evaluate`.
unfoldable pub evaluate_intention : Host → ContractEngine → Intention → Outcome IntentionVerdict
evaluate_intention host e (execute_shell_command command timeout_secs) =
    evaluate_shell_command host e command
evaluate_intention host e (write_file path content) = done (evaluate_file_write host.regex e path)
evaluate_intention host e (read_file path) = done (evaluate_file_read host.regex e path)
evaluate_intention host e (web_search query) = done approved
evaluate_intention host e (web_scrape url) = done approved
evaluate_intention host e (write_memory key content) = done approved
evaluate_intention host e (spawn_sub_agent name task) =
    done (requires_human_approval (codes "Sub-agent spawn requires approval"))
evaluate_intention host e (call_custom_tool tool_name arguments) = done approved
