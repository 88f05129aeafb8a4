-- ===== src/Policy/Engine/Panic.antt =====
-- Commands on which the evaluation panics.
use zymi_core.Prelude.{
  ℕ, zero, suc, ◌<◌, ◌≡◌, true, some, List, [], ◌∷◌, arith, fault, panic, Text, trim,
}
use zymi_core.Policy.Split.{split_compound_commands}
use zymi_core.Policy.ShellWrapper.{RegexCrate, shell_c_regex, extract_shell_c_arg}
use zymi_core.Policy.ShellWrapper.Panic.{IsLoneQuote, extract_shell_c_arg-panic}
use zymi_core.Policy.Fragments.{
  holds, visit_sub, visit_subs, visit, collect_loop, rounds, collect_all_fragments,
}
use zymi_core.Policy.Fragments.Ends.{rounds-pos}
use zymi_core.Policy.Engine.{Host, PolicyEngine, evaluate}

module _ (rx : RegexCrate) (command sub : Text) (subs : List Text) where
  visit-panic :
      split_compound_commands command ≡ sub ∷ subs
      → extract_shell_c_arg rx sub ≡ fault panic
      → visit rx command 0 (record { seen = []; result = []; queue = [] }) ≡ fault panic
  unfolding visit visit_subs visit_sub holds
  visit-panic s p = rw (s, p)

  collect_loop-panic :
      (fuel : ℕ)
      → 0 < fuel
      → split_compound_commands command ≡ sub ∷ subs
      → extract_shell_c_arg rx sub ≡ fault panic
      → collect_loop rx fuel [] [] ((command, 0) ∷ []) ≡ fault panic
  unfolding collect_loop
  collect_loop-panic zero h s p = absurd (omega arith)
  collect_loop-panic (suc fuel) h s p = rw (visit-panic s p)

-- Where the policy is enabled, `evaluate` panics on every command whose first sub-command has a
-- `sh -c` argument that the regex captures as a quotation mark or apostrophe alone, blanks aside,
-- such as an unfinished `sh -c "`.
pub evaluate-lone_quote :
    (host : Host) (e : PolicyEngine) (command sub group : Text) (subs : List Text)
    → e.config.enabled ≡ true
    → split_compound_commands (trim command) ≡ sub ∷ subs
    → host.regex.captures shell_c_regex sub ≡ some (some group)
    → IsLoneQuote (trim group)
    → evaluate host e command ≡ fault panic
unfolding evaluate collect_all_fragments
evaluate-lone_quote host e command sub group subs on s captured lone =
    let p = (extract_shell_c_arg-panic host.regex sub).1 (group, captured, lone) in
    let c =
      collect_loop-panic host.regex (trim command) sub subs (rounds (trim command) 0)
        (rounds-pos (trim command) 0) s p in
    simp (on, c)
