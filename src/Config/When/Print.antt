-- ===== src/Config/When/Print.antt =====
-- config/when_expr.rs: the grammar in the module's comment as a data type, its printed form and its
-- meaning.
use zymi_core.Prelude.{
  ℕ, Bool, true, false, not, ◌&&◌, ◌||◌, List, [], ◌∷◌, ◌++◌, ◌==◌, if◌then◌else◌, Text, text_eq,
}
use zymi_core.Policy.Split.{apostrophe}
use zymi_core.Config.When.{is_ascii_whitespace, at_operator}

pub data Value : Type 0 where
  quoted bare : Text → Value

pub record Comparison : Type 0 where
  pub lhs : Value
  pub is_eq : Bool
  pub rhs : Value

-- A comparison after `&&` or after `||`.
pub data Conjoined : Type 0 where
  and_also or_else : Comparison → Conjoined

pub record Expression : Type 0 where
  pub first : Comparison
  pub others : List Conjoined

abbrev pub text_of : Value → Text
text_of (quoted s) = s
text_of (bare s) = s

abbrev pub comparison_meaning : Comparison → Bool
comparison_meaning c =
    if c.is_eq
    then text_eq (text_of c.lhs) (text_of c.rhs)
    else not (text_eq (text_of c.lhs) (text_of c.rhs))

-- Equal precedence, from the left.
unfoldable pub meaning_from : Bool → List Conjoined → Bool
meaning_from acc [] = acc
meaning_from acc (and_also c ∷ xs) = meaning_from (acc && comparison_meaning c) xs
meaning_from acc (or_else c ∷ xs) = meaning_from (acc || comparison_meaning c) xs

unfoldable pub meaning : Expression → Bool
unfolding meaning_from
meaning e = meaning_from (comparison_meaning e.first) e.others

abbrev pub space : ℕ
space = b' '

-- A value, with the text after it.
abbrev pub print_value : Value → Text → Text
print_value (quoted s) rest = apostrophe ∷ s ++ apostrophe ∷ rest
print_value (bare s) rest = s ++ rest

abbrev pub print_op : Bool → Text → Text
print_op is_eq rest = (if is_eq then b'=' else b'!') ∷ b'=' ∷ rest

abbrev pub print_comparison : Comparison → Text → Text
print_comparison c rest =
    print_value c.lhs (space ∷ print_op c.is_eq (space ∷ print_value c.rhs rest))

unfoldable pub print_others : List Conjoined → Text
print_others [] = []
print_others (and_also c ∷ xs) = space ∷ b'&' ∷ b'&' ∷ space ∷ print_comparison c (print_others xs)
print_others (or_else c ∷ xs) = space ∷ b'|' ∷ b'|' ∷ space ∷ print_comparison c (print_others xs)

unfoldable pub print : Expression → Text
unfolding print_others
print e = print_comparison e.first (print_others e.others)

-- No whitespace, and no operator from any position on.
unfoldable pub is_token : Text → Bool
is_token [] = true
is_token (c ∷ s) = not (is_ascii_whitespace c) && not (at_operator (c ∷ s)) && is_token s

unfoldable pub has_no_quote : Text → Bool
has_no_quote [] = true
has_no_quote (c ∷ s) = not (c == apostrophe) && has_no_quote s

abbrev pub starts_bare : Text → Bool
starts_bare [] = false
starts_bare (c ∷ s) = not (c == apostrophe)

unfoldable pub is_value : Value → Bool
unfolding has_no_quote is_token
is_value (quoted s) = has_no_quote s
is_value (bare s) = starts_bare s && is_token s

abbrev pub is_comparison : Comparison → Bool
is_comparison c = is_value c.lhs && is_value c.rhs

unfoldable pub are_comparisons : List Conjoined → Bool
are_comparisons [] = true
are_comparisons (and_also c ∷ xs) = is_comparison c && are_comparisons xs
are_comparisons (or_else c ∷ xs) = is_comparison c && are_comparisons xs

-- What the grammar can write down.
abbrev pub is_expression : Expression → Bool
is_expression e = is_comparison e.first && are_comparisons e.others
