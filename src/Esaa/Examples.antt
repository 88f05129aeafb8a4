-- ===== src/Esaa/Examples.antt =====
-- The `esaa` module and approval.rs at concrete inputs: tests, and the theorems at inputs that meet
-- their hypotheses.
use zymi_core.Prelude.{
  ◌≡◌, refl, inl, inr, false, none, List, [], ◌∷◌, ◌++◌, Any, done, Text, codes, text_eq,
  starts_with, strip_prefix, split_on, join_with, is_empty,
}
use zymi_core.Policy.ShellWrapper.{RegexCrate}
use zymi_core.Policy.Engine.{PolicyEngine, Host}
use zymi_core.Esaa.Paths.{
  is_abs, normalize_components, normalize_string, add_components, add_component, ascend, is_within,
  zip_equal,
}
use zymi_core.Esaa.Paths.Resolve.{resolve, normalize_components_lem}
use zymi_core.Esaa.Intentions.{Intention, write_file, read_file, spawn_sub_agent, web_search, tag}
use zymi_core.Esaa.Intentions as Intentions
use zymi_core.Esaa.Contracts.{
  FileWriteContract, ContractEngine, new_contracts, compile_globs, glob_to_regex, replace_escaped,
  basename, last_part, first_denial, denied_by_pattern, evaluate_file_read, evaluate_file_write,
  within_any, evaluate_intention,
}
use zymi_core.Esaa.Contracts.Secrets.{evaluate_intention-secret}
use zymi_core.Esaa.Contracts.Files.{
  evaluate_file_write-approved, evaluate_file_write-below, evaluate_file_write-everywhere,
}

-- The crate on the patterns of this file: it compiles the pattern of `id_rsa` alone, which matches
-- that name.
abbrev regexes : RegexCrate
regexes = record {
  compiles = λ p. text_eq p (codes "^id_rsa$");
  is_match = λ p s. text_eq s (codes "id_rsa");
  escape = λ p. p;
  captures = λ p s. none;
}

abbrev host : Host
host = record { regex = regexes; to_lowercase = λ s. s }

abbrev policy : PolicyEngine
policy = record {
  config = record { enabled = false; allow = []; deny = []; require_approval = [] };
  allow_patterns = [];
  deny_patterns = [];
  approval_patterns = [];
}

abbrev contract : FileWriteContract
contract = record { allowed_dirs = codes "./memory/" ∷ []; deny_patterns = [] }

abbrev contracts : ContractEngine
contracts = record {
  shell_policy = policy;
  file_contract = contract;
  deny_regexes = codes "^id_rsa$" ∷ [];
}

-- A place to unfold what a judgement of a file runs through.
file_parts : Unit {0}
unfolding text_eq starts_with strip_prefix split_on join_with is_empty normalize_components
    normalize_string add_components add_component ascend is_within zip_equal new_contracts
    compile_globs glob_to_regex replace_escaped basename last_part first_denial denied_by_pattern
    evaluate_file_read evaluate_file_write within_any evaluate_intention
file_parts = tt

normalizes : normalize_string (codes "/a/./b/../../../c//d") ≡ codes "/c/d"
unfolding file_parts
normalizes = refl

normalizes_relative : normalize_components (codes "./m/../../x") ≡ codes ".." ∷ codes "x" ∷ []
unfolding file_parts
normalizes_relative = refl

denies_secret :
    evaluate_intention host contracts (read_file (codes "./keys/../id_rsa"))
    ≡ done (Intentions.denied (codes "File read denied (^id_rsa$): ./keys/../id_rsa"))
unfolding file_parts
denies_secret = refl

normalize_components_example :
    resolve (codes "home" ∷ []) false (normalize_components (codes "a/../b"))
    ≡ codes "b" ∷ codes "home" ∷ []
unfolding file_parts
normalize_components_example = normalize_components_lem (codes "home" ∷ []) (codes "a/../b")

file_write_example :
    evaluate_file_write regexes contracts (codes "memory/a/../b") ≡ Intentions.approved
unfolding file_parts
file_write_example =
    (evaluate_file_write-approved regexes contracts (codes "memory/a/../b")).1
      ((refl, tt), inl refl)

file_write_below_example :
    Any
      (λ dir.
        (below : List Text) × (resolve
            (codes "home" ∷ [])
            false
            (split_on b'/' [] (codes "memory/a/../b"))
          ≡ below ++ resolve (codes "home" ∷ []) (is_abs dir) (split_on b'/' [] dir)))
      (codes "./memory/" ∷ [])
unfolding file_parts
file_write_below_example =
    evaluate_file_write-below regexes contracts (codes "home" ∷ []) (codes "memory/a/../b")
      ((refl, refl), tt) refl

abbrev open_contracts : ContractEngine
open_contracts = record {
  shell_policy = policy;
  file_contract = record { allowed_dirs = codes "./" ∷ []; deny_patterns = [] };
  deny_regexes = codes "^id_rsa$" ∷ [];
}

file_write_everywhere_example :
    evaluate_file_write regexes open_contracts (codes "/etc/passwd") ≡ Intentions.approved
unfolding file_parts
file_write_everywhere_example =
    evaluate_file_write-everywhere regexes open_contracts (codes "/etc/passwd") (inl refl)
      (refl, tt)

secret_example :
    ((reason : Text) × (evaluate_intention host
          (new_contracts regexes policy contract)
          (read_file (codes "a/id_rsa"))
        ≡ done (Intentions.denied reason)))
    × ((reason : Text) × (evaluate_intention host
            (new_contracts regexes policy contract)
            (write_file (codes "a/id_rsa") [])
          ≡ done (Intentions.denied reason)))
unfolding file_parts
secret_example =
    evaluate_intention-secret host policy contract (codes "a/id_rsa") []
      (inr (inr (inr (inr (inr (inr (inr (inl (codes "^id_rsa$", refl, refl)))))))))
