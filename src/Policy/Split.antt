-- ===== src/Policy/Split.antt =====
-- policy.rs, `split_compound_commands`: cutting a compound command at `;`, `&&`, `||`, `|` and `&`
-- while respecting quotes, escapes and parentheses. The loop index is the text that is left; the
-- nesting depth, a u32, stays below the text's length and is not wrapped.
pub mod Visible
pub mod Join
pub mod Size
use zymi_core.Prelude.{
  ℕ, ◌+◌, ◌-◌, Bool, true, false, ◌&&◌, ◌||◌, List, [], ◌∷◌, ◌++◌, ◌==◌, if◌then◌else◌, Text, trim,
  is_empty,
}

pub data ParseState : Type 0 where
  normal single_quote double_quote escape double_quote_escape : ParseState
  paren : ℕ → ParseState

abbrev pub backslash : ℕ
backslash = 92

abbrev pub apostrophe : ℕ
apostrophe = 39

abbrev pub quotation : ℕ
quotation = 34

-- `push_fragment`: a fragment is trimmed, and dropped if it is blank.
unfoldable pub push_fragment : List Text → Text → List Text
push_fragment fragments s = if is_empty (trim s) then fragments else fragments ++ trim s ∷ []

-- The variables of the loop, without the index.
pub record Scan : Type 0 where
  pub state : ParseState
  pub current : Text
  pub fragments : List Text

abbrev pub scan : ParseState → Text → List Text → Scan
scan st cur fs = record { state = st; current = cur; fragments = fs }

-- One round of the loop at the character `c`, but for the index.
unfoldable pub advance : ParseState → ℕ → Text → List Text → Scan
advance normal c cur fs =
    if c == backslash
    then scan escape (cur ++ c ∷ []) fs
    else if c == apostrophe
    then scan single_quote (cur ++ c ∷ []) fs
    else if c == quotation
    then scan double_quote (cur ++ c ∷ []) fs
    else if c == b'('
    then scan (paren 1) (cur ++ c ∷ []) fs
    else if c == b';'
    then scan normal [] (push_fragment fs cur)
    else if c == b'&'
    then scan normal [] (push_fragment fs cur)
    else if c == b'|'
    then scan normal [] (push_fragment fs cur)
    else scan normal (cur ++ c ∷ []) fs
advance single_quote c cur fs =
    scan (if c == apostrophe then normal else single_quote) (cur ++ c ∷ []) fs
advance double_quote c cur fs =
    scan
      (if c == backslash
        then double_quote_escape
        else if c == quotation
        then normal
        else double_quote)
      (cur ++ c ∷ []) fs
advance double_quote_escape c cur fs = scan double_quote (cur ++ c ∷ []) fs
advance escape c cur fs = scan normal (cur ++ c ∷ []) fs
advance (paren depth) c cur fs =
    scan
      (if c == b'('
        then paren (depth + 1)
        else if c == b')'
        then (if depth == 1 then normal else paren (depth - 1))
        else paren depth)
      (cur ++ c ∷ []) fs

-- `i += 1` inside the arms of `&` and `|`: the second character of `&&` and `||` is passed over.
unfoldable pub skips : ParseState → ℕ → ℕ → Bool
skips normal c d = (c == b'&' && d == b'&') || (c == b'|' && d == b'|')
skips _ c d = false

unfoldable pub split_loop : ParseState → Text → Text → List Text → List Text
split_loop st [] cur fs = push_fragment fs cur
split_loop st (c ∷ []) cur fs =
    let next = advance st c cur fs in push_fragment next.fragments next.current
split_loop st (c ∷ d ∷ s) cur fs =
    let next = advance st c cur fs in
    let after_both = split_loop next.state s next.current next.fragments in
    let after_one = split_loop next.state (d ∷ s) next.current next.fragments in
    if skips st c d then after_both else after_one

unfoldable pub split_compound_commands : Text → List Text
unfolding split_loop advance skips push_fragment
split_compound_commands command = split_loop normal command [] []
