-- ===== src/Policy/ShellWrapper.antt =====
-- policy.rs, `extract_shell_c_arg`: the argument of `sh -c "…"` and its like. The crate `regex` is
-- a parameter: compiling a pattern, matching it, `escape`, and the first group of its first match.
pub mod Panic
use zymi_core.Prelude.{
  ℕ, Bool, true, false, ◌&&◌, ◌||◌, Option, none, some, List, [], ◌∷◌, ◌==◌, if◌then◌else◌, Outcome,
  done, fault, panic, ◌>>=◌, Text, codes, trim, is_empty,
}
use zymi_core.Policy.Split.{apostrophe, quotation}

-- A compiled regex is given by its pattern: `Regex::new` fails unless `compiles`. `captures` is
-- `none` where there is no match, and `some none` where the first group takes no part in it.
pub record RegexCrate : Type 0 where
  pub compiles : Text → Bool
  pub is_match : Text → Text → Bool
  pub escape : Text → Text
  pub captures : Text → Text → Option (Option Text)

-- `SHELL_C_REGEX`.
abbrev pub shell_c_regex : Text
shell_c_regex = codes "(?i)\\b(?:bash|sh|zsh|dash)\\s+-c\\s+(.+)"

unfoldable pub first_is : ℕ → Text → Bool
first_is q [] = false
first_is q (c ∷ s) = c == q

unfoldable pub last_is : ℕ → Text → Bool
last_is q [] = false
last_is q (c ∷ []) = c == q
last_is q (c ∷ d ∷ s) = last_is q (d ∷ s)

unfoldable pub without_last : Text → Text
without_last [] = []
without_last (c ∷ []) = []
without_last (c ∷ d ∷ s) = c ∷ without_last (d ∷ s)

-- `&arg[1..arg.len() - 1]`, where both ends are one byte wide. On a single character the slice
-- `1..0` begins after its end, and Rust panics.
unfoldable pub inner_slice : Text → Outcome Text
inner_slice [] = fault panic
inner_slice (c ∷ []) = fault panic
inner_slice (c ∷ d ∷ s) = done (without_last (d ∷ s))

unfoldable pub is_wrapped : Text → Bool
is_wrapped arg =
    (first_is quotation arg && last_is quotation arg)
    || (first_is apostrophe arg && last_is apostrophe arg)

-- One layer of outer quotes is stripped.
unfoldable pub strip_quotes : Text → Outcome Text
strip_quotes arg = if is_wrapped arg then inner_slice arg else done arg

abbrev some_text : Text → Option Text
some_text s = if is_empty s then none else some s

unfoldable pub extract_shell_c_arg : RegexCrate → Text → Outcome (Option Text)
unfolding strip_quotes is_wrapped first_is last_is inner_slice without_last
extract_shell_c_arg rx command = elim (rx.captures shell_c_regex command) [
  | none ↦ done none
  | some none ↦ done none
  | some (some group) ↦ do stripped ← strip_quotes (trim group); done (some_text stripped)
]
