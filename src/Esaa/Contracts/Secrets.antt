-- ===== src/Esaa/Contracts/Secrets.antt =====
-- The secrets that no contract gives out.
use zymi_core.Prelude.{
  ◌≡◌, ap, inl, inr, some, Option-cases, List, [], ◌∷◌, ◌++◌, Any, Any-append, done, Text, codes,
}
use zymi_core.Policy.ShellWrapper.{RegexCrate}
use zymi_core.Policy.Engine.{Host, PolicyEngine}
use zymi_core.Esaa.Contracts.Files.{IsMatched, first_denial-matched}
use zymi_core.Esaa.Intentions.{write_file, read_file, denied}
use zymi_core.Esaa.Contracts.{
  FileWriteContract, ContractEngine, new_contracts, compile_globs, glob_to_regex, denied_by_pattern,
  evaluate_file_read, evaluate_file_write, evaluate_intention, builtin_secret_deny,
}

compile_globs-IsMatched :
    (rx : RegexCrate) (path : Text) (globs : List Text)
    → Any (λ glob. (re : Text) × (glob_to_regex rx glob ≡ some re) × IsMatched rx path re) globs
    → Any (IsMatched rx path) (compile_globs rx globs)
unfolding compile_globs
compile_globs-IsMatched rx path [] h = elim h [ ]
compile_globs-IsMatched rx path (glob ∷ globs) (inl (re, c, m)) = rw (compile_globs, c) (inl m)
compile_globs-IsMatched rx path (glob ∷ globs) (inr h) =
    elim (Option-cases (glob_to_regex rx glob)) [
      | inl n ↦ rw (compile_globs, n) (compile_globs-IsMatched rx path globs h)
      | inr (re, n) ↦ rw (compile_globs, n) (inr (compile_globs-IsMatched rx path globs h))
    ]

module _ (rx : RegexCrate) (e : ContractEngine) (path reason : Text) where
  read-denied :
      denied_by_pattern rx e path ≡ some reason
      → evaluate_file_read rx e path
        ≡ denied (codes "File read denied (" ++ reason ++ codes "): " ++ path)
  unfolding evaluate_file_read
  read-denied n = rw (n, evaluate_file_read)

  write-denied :
      denied_by_pattern rx e path ≡ some reason
      → evaluate_file_write rx e path
        ≡ denied (codes "File write denied (" ++ reason ++ codes "): " ++ path)
  unfolding evaluate_file_write
  write-denied n = rw (n, evaluate_file_write)

denied_by_pattern-matched :
    (rx : RegexCrate) (e : ContractEngine) (path : Text)
    → Any (IsMatched rx path) e.deny_regexes
    → (reason : Text) × (denied_by_pattern rx e path ≡ some reason)
unfolding denied_by_pattern
denied_by_pattern-matched rx e path h = first_denial-matched rx e.deny_regexes path h

file-denied :
    (host : Host) (e : ContractEngine) (path content : Text)
    → Any (IsMatched host.regex path) e.deny_regexes
    → ((reason : Text) × (evaluate_intention host e (read_file path) ≡ done (denied reason)))
      × ((reason : Text) × (evaluate_intention host e (write_file path content)
            ≡ done (denied reason)))
unfolding evaluate_intention
file-denied host e path content h =
    let (reason, n) = denied_by_pattern-matched host.regex e path h in
    (
      (_, ap done (read-denied host.regex e path reason n)),
      (_, ap done (write-denied host.regex e path reason n)),
    )

-- No contract lifts the deny list of secrets: where the regex of one of its globs matches the
-- normalized path or its last component, both the read and the write of the path are denied.
pub evaluate_intention-secret :
    (host : Host) (policy : PolicyEngine) (contract : FileWriteContract) (path content : Text)
    → Any
        (λ glob.
          (re : Text) × (glob_to_regex host.regex glob ≡ some re) × IsMatched host.regex path re)
        builtin_secret_deny
    → ((reason : Text) × (evaluate_intention host
            (new_contracts host.regex policy contract)
            (read_file path)
          ≡ done (denied reason)))
      × ((reason : Text) × (evaluate_intention host
              (new_contracts host.regex policy contract)
              (write_file path content)
            ≡ done (denied reason)))
unfolding new_contracts
evaluate_intention-secret host policy contract path content h =
    file-denied host (new_contracts host.regex policy contract) path content (
      compile_globs-IsMatched host.regex path (builtin_secret_deny ++ contract.deny_patterns)
        (Any-append _ builtin_secret_deny contract.deny_patterns h))
