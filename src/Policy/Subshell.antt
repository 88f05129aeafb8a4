-- ===== src/Policy/Subshell.antt =====
-- policy.rs, `extract_subshells`: the bodies of `$(…)` and of backticks outside single quotes.
-- The loop jumps past a body, so it runs on fuel; the text's length is enough (Subshell/Fuel).
pub mod Fuel
pub mod Balance
use zymi_core.Prelude.{
  ℕ, zero, suc, ◌+◌, ◌-◌, Bool, true, false, not, ◌&&◌, Option, none, some, List, [], ◌∷◌, ◌==◌,
  if◌then◌else◌, length, Text,
}
use zymi_core.Policy.Split.{apostrophe}

abbrev pub backtick : ℕ
backtick = 96

abbrev pub dollar : ℕ
dollar = 36

abbrev pub with_first : ℕ → Option (Text × Text) → Option (Text × Text)
with_first c none = none
with_first c (some (body, rest)) = some (c ∷ body, rest)

-- `depth` after the character `c`.
abbrev pub deeper : ℕ → ℕ → ℕ
deeper depth c = if c == b'(' then depth + 1 else if c == b')' then depth - 1 else depth

-- The inner loop: the text up to the parenthesis that brings `depth` to 0, and what follows it.
unfoldable pub paren_body : ℕ → Text → Option (Text × Text)
paren_body depth [] = none
paren_body depth (c ∷ s) =
    let more = paren_body (deeper depth c) s in
    if deeper depth c == 0 then some ([], s) else with_first c more

-- `position` of the next backtick.
unfoldable pub backtick_body : Text → Option (Text × Text)
backtick_body [] = none
backtick_body (c ∷ s) =
    let more = backtick_body s in if c == backtick then some ([], s) else with_first c more

-- The body that begins at the character `c`, with the text after it.
unfoldable pub body_at : ℕ → Text → Option (Text × Text)
unfolding paren_body backtick_body
body_at c [] = none
body_at c (d ∷ s) =
    if c == dollar && d == b'('
    then paren_body 1 s
    else if c == backtick
    then backtick_body (d ∷ s)
    else none

-- One round of the loop, given the rest of the loop. A quote turns `in_single_quote` over.
unfoldable pub extract_round : (Bool → Text → List Text) → Bool → ℕ → Text → List Text
unfolding body_at
extract_round rest quoted c s =
    if c == apostrophe
    then rest (not quoted) s
    else if quoted
    then rest quoted s
    else elim (body_at c s) [ none ↦ rest quoted s | some (body, after) ↦ body ∷ rest quoted after ]

unfoldable pub extract_loop : ℕ → Bool → Text → List Text
extract_loop fuel quoted [] = []
extract_loop zero quoted (c ∷ s) = []
extract_loop (suc fuel) quoted (c ∷ s) = extract_round (extract_loop fuel) quoted c s

unfoldable pub extract_subshells : Text → List Text
unfolding extract_loop extract_round
extract_subshells command = extract_loop (length command) false command
