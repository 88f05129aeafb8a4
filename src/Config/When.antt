-- ===== src/Config/When.antt =====
-- config/when_expr.rs: the expressions of `when:`. The input is held as the characters that are
-- left and the byte position that they start at.
pub mod Print
pub mod RoundTrip
pub mod Total
use zymi_core.Prelude.{
  ℕ, zero, suc, ◌+◌, ◌<◌, Bool, true, false, not, ◌&&◌, ◌||◌, Option, none, some, List, [], ◌∷◌,
  ◌++◌, ◌==◌, ltb, if◌then◌else◌, length, Text, codes, text_eq, starts_with, byte_len, len_utf8,
}
use zymi_core.Policy.Split.{apostrophe}

pub data WhenExprError : Type 0 where
  expected_op expected_value unterminated_string : (at : ℕ) → WhenExprError
  bad_logic : (at : ℕ) → (token : Text) → WhenExprError
  trailing : (at : ℕ) → (rest : Text) → WhenExprError

-- What a run of the parser gives. `out_of_fuel` belongs to the model only.
pub data Result {ℓ} (A : Type ℓ) : Type ℓ where
  ok : A → Result A
  err : WhenExprError → Result A
  out_of_fuel : Result A

infixl 5 ◌>>=◌ ◌>>◌
abbrev pub ◌>>=◌ {ℓ κ} : {A : Type ℓ} {B : Type κ} → Result A → (A → Result B) → Result B
ok a >>= f = f a
err e >>= f = err e
out_of_fuel >>= f = out_of_fuel

abbrev pub ◌>>◌ {ℓ} : {B : Type ℓ} → Result (Unit {0}) → Result B → Result B
m >> k = m >>= λ _. k

pub record Parser : Type 0 where
  pub pos : ℕ
  pub rest : Text

abbrev pub new_parser : Text → Parser
new_parser input = record { pos = 0; rest = input }

abbrev pub at : ℕ → Text → Parser
at pos rest = record { pos = pos; rest = rest }

unfoldable pub is_ascii_whitespace : ℕ → Bool
is_ascii_whitespace c = c == b' ' || c == 9 || c == 10 || c == 12 || c == 13

unfoldable pub skip_from : ℕ → Text → Parser
skip_from pos [] = at pos []
skip_from pos (c ∷ s) = if is_ascii_whitespace c then skip_from (pos + 1) s else at pos (c ∷ s)

unfoldable pub skip_ws : Parser → Parser
unfolding skip_from
skip_ws p = skip_from p.pos p.rest

-- The two bytes of an operator stand first.
abbrev pub at_op : ℕ → ℕ → Text → Bool
at_op a b [] = false
at_op a b (c ∷ []) = false
at_op a b (c ∷ d ∷ s) = c == a && d == b

unfoldable pub at_operator : Text → Bool
at_operator s = at_op b'=' b'=' s || at_op b'!' b'=' s || at_op b'&' b'&' s || at_op b'|' b'|' s

abbrev pub two_on : Parser → Parser
two_on p = elim p.rest [ [] ↦ p | c ∷ s ↦ elim s [ [] ↦ p | d ∷ r ↦ at (p.pos + 2) r ] ]

-- The loop over a quoted string, with what it has passed: `none` if the end comes first.
unfoldable pub quoted_from : ℕ → Text → Text → Option (Text × Parser)
quoted_from pos value [] = none
quoted_from pos value (c ∷ s) =
    if c == apostrophe
    then some (value, at (pos + 1) s)
    else quoted_from (pos + len_utf8 c) (value ++ c ∷ []) s

-- The loop over an unquoted token.
unfoldable pub token_from : ℕ → Text → Text → Text × Parser
token_from pos value [] = (value, at pos [])
token_from pos value (c ∷ s) =
    if is_ascii_whitespace c || at_operator (c ∷ s)
    then (value, at pos (c ∷ s))
    else token_from (pos + len_utf8 c) (value ++ c ∷ []) s

abbrev pub token_value : ℕ → Text × Parser → Result (Text × Parser)
token_value start ([], p) = err (expected_value start)
token_value start (c ∷ value, p) = ok (c ∷ value, p)

abbrev pub quoted_value : ℕ → Option (Text × Parser) → Result (Text × Parser)
quoted_value start none = err (unterminated_string start)
quoted_value start (some (value, p)) = ok (value, p)

unfoldable pub value_at : ℕ → Text → Result (Text × Parser)
unfolding quoted_from token_from
value_at start [] = err (expected_value start)
value_at start (c ∷ s) =
    if c == apostrophe
    then quoted_value start (quoted_from (start + 1) [] s)
    else token_value start (token_from start [] (c ∷ s))

unfoldable pub parse_value : Parser → Result (Text × Parser)
unfolding skip_ws value_at
parse_value p = let q = skip_ws p in value_at q.pos q.rest

-- `==` or `!=`.
unfoldable pub parse_op : Parser → Result (Bool × Parser)
parse_op p =
    if at_op b'=' b'=' p.rest
    then ok (true, two_on p)
    else if at_op b'!' b'=' p.rest
    then ok (false, two_on p)
    else err (expected_op p.pos)

unfoldable pub parse_comp : Parser → Result (Bool × Parser)
unfolding parse_value parse_op skip_ws
parse_comp p = do
  (lhs, p) ← parse_value p
  (is_eq, p) ← parse_op (skip_ws p)
  (rhs, p) ← parse_value p
  ok ((if is_eq then text_eq lhs rhs else not (text_eq lhs rhs)), p)

-- `from_utf8_lossy` of two bytes of which the first is `&` or `|`.
abbrev pub lossy_token : Text → Text
lossy_token [] = []
lossy_token (c ∷ []) = c ∷ []
lossy_token (c ∷ d ∷ s) = c ∷ (if ltb d 128 then d else 0xFFFD) ∷ []

abbrev pub lone_logic : Text → Bool
lone_logic [] = false
lone_logic (c ∷ []) = false
lone_logic (c ∷ d ∷ s) = c == b'&' || c == b'|'

-- The loop of `parse_expr` from the value so far, on fuel.
unfoldable pub parse_logic : ℕ → Bool → Parser → Result (Bool × Parser)
unfolding parse_comp skip_ws
parse_logic zero acc p = out_of_fuel
parse_logic (suc fuel) acc p =
    let q = skip_ws p in
    let conjunct = (do (rhs, r) ← parse_comp (two_on q); parse_logic fuel (acc && rhs) r) in
    let disjunct = (do (rhs, r) ← parse_comp (two_on q); parse_logic fuel (acc || rhs) r) in
    if at_op b'&' b'&' q.rest
    then conjunct
    else if at_op b'|' b'|' q.rest
    then disjunct
    else if lone_logic q.rest
    then err (bad_logic q.pos (lossy_token q.rest))
    else ok (acc, q)

-- Each round passes over two bytes at least.
unfoldable pub parse_expr : Parser → Result (Bool × Parser)
unfolding parse_logic parse_comp
parse_expr p = do (acc, p) ← parse_comp p; parse_logic (suc (length p.rest)) acc p

abbrev pub left_over : Bool → ℕ → Text → Result Bool
left_over value pos [] = ok value
left_over value pos (c ∷ s) = err (trailing pos (c ∷ s))

abbrev pub ended : Bool × Parser → Result Bool
ended (value, p) = let q = skip_ws p in left_over value q.pos q.rest

unfoldable pub evaluate : Text → Result Bool
unfolding parse_expr skip_ws
evaluate expr = do r ← parse_expr (new_parser expr); ended r

unfoldable pub parse_only : Text → Result (Unit {0})
unfolding parse_expr skip_ws
parse_only expr = do r ← parse_expr (new_parser expr); _ ← ended r; ok tt
