-- ===== src/Policy/Examples.antt =====
-- policy.rs at concrete commands: tests, and the theorems at inputs that meet their hypotheses.
use zymi_core.Prelude.{
  ◌<◌, ◌≡◌, ◌≢◌, refl, inl, inr, true, none, some, [], ◌∷◌, if◌then◌else◌, arith, length, done,
  fault, panic, out_of_fuel, Text, codes, text_eq, text_eq_iff, trim, trim_start, trim_end,
  push_kept, is_whitespace, is_empty, contains, starts_with, strip_prefix, to_ascii_lowercase,
  Bool-cases,
}
use zymi_core.Policy.Split.{split_compound_commands, split_loop, advance, skips, push_fragment}
use zymi_core.Policy.Split.Visible.{visible, concat, split_compound_commands_complete}
use zymi_core.Policy.Subshell.{extract_subshells}
use zymi_core.Policy.ShellWrapper.{
  RegexCrate, shell_c_regex, extract_shell_c_arg, first_is, last_is, is_wrapped, inner_slice,
  strip_quotes, without_last,
}
use zymi_core.Policy.ShellWrapper.Panic.{CapturesPart}
use zymi_core.Policy.Fragments.{
  collect_all_fragments, collect_loop, rounds, visit, visit_subs, visit_sub, push_bodies,
  push_unseen, record_fragment, holds,
}
use zymi_core.Policy.Command.{
  ascii_lower, normalize_command, normalize_tokens, add_tokens, add_token, split_whitespace,
  long_flag_map, find_long, insert_flags, insert_flag, short_flags, has_flag,
}
use zymi_core.Policy.Command.Flags.{gives_flag, gives_arg}
use zymi_core.Policy.Docker.{check_docker_escape, contains_any, has_sensitive_mount}
use zymi_core.Policy.Docker.Escape.{has_sensitive_mount-panic}
use zymi_core.Policy.Danger.{
  check_dangerous, raw_danger, parsed_danger, host_danger, removes_root, overwrites_disk,
  opens_root, owns_root, any_starts_with,
}
use zymi_core.Policy.Danger.Root.{removes_root_lem}
use zymi_core.Policy.Variables.{has_variable_expansion, expansion_loop, starts_name}
use zymi_core.Policy.Engine.{
  PolicyConfig, allowed, denied, Host, new_engine, compile_all, glob_to_regex, glob_body, glob_char,
  evaluate, evaluate_single, by_lists, any_match, first_match, any_suspicious, merge_decisions,
  conclude, judge,
}
use zymi_core.Policy.Engine.Allow.{evaluate-allowed}
use zymi_core.Policy.Engine.Deny.{evaluate-denied}
use zymi_core.Policy.Engine.Rules.{evaluate_single-always_denied}
use zymi_core.Policy.Engine.Panic.{evaluate-lone_quote}
use zymi_core.Policy.Fragments.Ends.{collect_all_fragments-ends}

-- The regex crate on the texts of this file: it matches the pattern of `echo *` and captures the
-- argument of one command.
abbrev quoted_shell : Text
quoted_shell = codes "sh -c \""

abbrev regexes : RegexCrate
regexes = record {
  compiles = λ p. true;
  is_match = λ p s. starts_with s (codes "echo ");
  escape = λ p. p;
  captures = λ p s. if text_eq s quoted_shell then some (some (codes "\"")) else none;
}

abbrev host : Host
host = record { regex = regexes; to_lowercase = ascii_lower }

abbrev config : PolicyConfig
config = record { enabled = true; allow = codes "echo *" ∷ []; deny = []; require_approval = [] }

-- A place to unfold what a command runs through.
parts : Unit {0}
unfolding split_compound_commands split_loop advance skips push_fragment trim trim_start trim_end
    push_kept is_whitespace is_empty extract_subshells extract_shell_c_arg collect_all_fragments
    collect_loop rounds visit visit_subs visit_sub push_bodies push_unseen record_fragment holds
    text_eq starts_with strip_prefix contains strip_quotes is_wrapped first_is last_is inner_slice
    without_last normalize_command normalize_tokens add_tokens add_token split_whitespace
    long_flag_map find_long insert_flags insert_flag short_flags has_flag to_ascii_lowercase
    check_docker_escape contains_any check_dangerous raw_danger parsed_danger host_danger
    removes_root overwrites_disk opens_root owns_root any_starts_with has_variable_expansion
    expansion_loop starts_name new_engine compile_all glob_to_regex glob_body glob_char evaluate
    evaluate_single by_lists any_match first_match any_suspicious merge_decisions conclude judge
parts = tt

splits :
    split_compound_commands (codes "a && b; c | 'd;e'")
    ≡ codes "a" ∷ codes "b" ∷ codes "c" ∷ codes "'d;e'" ∷ []
unfolding parts
splits = refl

collects :
    collect_all_fragments regexes (codes "echo $(rm x; ls) && id")
    ≡ done (codes "echo $(rm x; ls)" ∷ codes "id" ∷ codes "rm x" ∷ codes "ls" ∷ [])
unfolding parts
collects = refl

evaluates :
    evaluate host (new_engine regexes config) (codes "echo hi; RM --force -R /")
    ≡ done (denied (codes "Blocked: Recursive deletion of root filesystem"))
unfolding parts
evaluates = refl

evaluate-allowed_example :
    evaluate host (new_engine regexes config) (codes "echo hi; echo ok") ≡ done allowed
unfolding parts
evaluate-allowed_example =
    (evaluate-allowed host (new_engine regexes config) (codes "echo hi; echo ok")).1 (
      codes "echo hi" ∷ codes "echo ok" ∷ [],
      record {
        enabled = refl;
        collected = refl;
        each = (inr refl, (inr refl, tt));
        shown = refl;
        no_variable = refl;
        no_suspicious = refl;
      },
    )

evaluate-denied_example :
    evaluate host (new_engine regexes config) (codes "echo a | mkfs.ext4 x")
    ≡ done (denied (codes "Blocked: Filesystem formatting"))
unfolding parts
evaluate-denied_example =
    (evaluate-denied host (new_engine regexes config) (codes "echo a | mkfs.ext4 x")
        (codes "Blocked: Filesystem formatting")).1
      (record {
        enabled = refl;
        fragments = codes "echo a" ∷ codes "mkfs.ext4 x" ∷ [];
        collected = refl;
        first = record {
          earlier = codes "echo a" ∷ [];
          fragment = codes "mkfs.ext4 x";
          later = [];
          parts = refl;
          passed = (inr (inl refl), tt);
          shown = refl;
          verdict = refl;
        };
      })

evaluate_single-always_denied_example :
    (reason : Text) × (evaluate_single host (new_engine regexes config) (codes "mkfs.ext4 x")
      ≡ done (denied reason))
unfolding parts
evaluate_single-always_denied_example =
    evaluate_single-always_denied host config (codes "mkfs.ext4 x")
      (inr (codes "Blocked: Filesystem formatting", refl))

split_complete_example :
    visible (concat (split_compound_commands (codes "a && b;c"))) ≡ visible (codes "a && b;c")
split_complete_example = split_compound_commands_complete (codes "a && b;c")

captures-shorter :
    (s g : Text) → regexes.captures shell_c_regex s ≡ some (some g) → length g < length s
captures-shorter s g h = elim (Bool-cases (text_eq s quoted_shell)) [
  | inl e ↦
      let same : s ≡ quoted_shell = (text_eq_iff s quoted_shell).0 e in
      let lone : codes "\"" ≡ g = ground arith in rw (same, ← lone) (omega arith)
  | inr e ↦ ground arith
]

regexes-CapturesPart : CapturesPart regexes
regexes-CapturesPart = record { shorter = captures-shorter }

collect-ends_example : collect_all_fragments regexes (codes "a; sh -c \"") ≢ fault out_of_fuel
collect-ends_example = collect_all_fragments-ends regexes (codes "a; sh -c \"") regexes-CapturesPart

removes_root_example :
    removes_root (normalize_tokens (codes "RM" ∷ codes "/" ∷ codes "--FORCE" ∷ codes "-vR" ∷ []))
    ≡ true
unfolding parts gives_flag gives_arg
removes_root_example =
    removes_root_lem (codes "RM") (codes "/" ∷ codes "--FORCE" ∷ codes "-vR" ∷ [])

evaluate-lone_quote_example :
    evaluate host (new_engine regexes config) (codes " sh -c \"") ≡ fault panic
unfolding parts
evaluate-lone_quote_example =
    evaluate-lone_quote host (new_engine regexes config) (codes " sh -c \"") quoted_shell
      (codes "\"") [] refl refl refl (inl refl)

has_sensitive_mount-panic_example :
    has_sensitive_mount (codes "docker run -v é:/data") ≡ fault panic
has_sensitive_mount-panic_example =
    has_sensitive_mount-panic (codes "docker run ") (codes ":/data") 233 (omega arith) (omega arith)
