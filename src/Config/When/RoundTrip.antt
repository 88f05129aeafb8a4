-- ===== src/Config/When/RoundTrip.antt =====
-- config/when_expr.rs: `evaluate` on a printed expression.
use zymi_core.Prelude.{
  ℕ, zero, suc, ◌+◌, ◌<◌, ◌≤◌, ◌≡◌, refl, Bool, true, false, ◌&&◌, ◌||◌, some, List, [], ◌∷◌, ◌++◌,
  ◌==◌, length, length-append, Text, len_utf8, append_assoc, append-nil, arith,
}
use zymi_core.Policy.Split.{apostrophe}
use zymi_core.Config.When.{
  Result, ok, Parser, at, is_ascii_whitespace, skip_from, skip_ws, at_operator, quoted_from,
  token_from, value_at, parse_value, parse_op, parse_comp, parse_logic, parse_expr, evaluate,
}
use zymi_core.Config.When.Print.{
  Value, quoted, bare, Comparison, Conjoined, and_also, or_else, Expression, text_of,
  comparison_meaning, meaning_from, meaning, space, print_value, print_op, print_comparison,
  print_others, print, is_token, has_no_quote, is_value, is_comparison, are_comparisons,
  is_expression,
}

-- The parser gives `a` and leaves `rest`.
abbrev Reads : {A : Type 0} → Result (A × Parser) → A → Text → Type 0
Reads m a rest = (q : ℕ) × (m ≡ ok (a, at q rest))

-- Nothing is left, or whitespace comes first.
abbrev stops : Text → Bool
stops [] = true
stops (c ∷ s) = is_ascii_whitespace c

quoted_from-Reads :
    (pos : ℕ) (value s rest : Text)
    → has_no_quote s ≡ true
    → (q : ℕ) × (quoted_from pos value (s ++ apostrophe ∷ rest) ≡ some (value ++ s, at q rest))
unfolding quoted_from has_no_quote
quoted_from-Reads pos value [] rest h = (pos + 1, rw (append-nil value) refl)
quoted_from-Reads pos value (c ∷ s) rest h =
    let (q, e) = quoted_from-Reads (pos + len_utf8 c) (value ++ c ∷ []) s rest (ground arith) in
    (q, ground (arith, rw (append_assoc value (c ∷ []) s) at e))

at_operator-append : (s rest : Text) → stops rest ≡ true → at_operator (s ++ rest) ≡ at_operator s
unfolding at_operator is_ascii_whitespace
at_operator-append [] [] h = refl
at_operator-append [] (c ∷ []) h = refl
at_operator-append [] (c ∷ d ∷ rest) h = ground arith
at_operator-append (d ∷ []) [] h = refl
at_operator-append (d ∷ []) (c ∷ rest) h = ground arith
at_operator-append (c ∷ d ∷ s) rest h = refl

is_token-cons :
    (c : ℕ) (s : Text)
    → is_token (c ∷ s) ≡ true
    → (is_ascii_whitespace c ≡ false) × (at_operator (c ∷ s) ≡ false) × (is_token s ≡ true)
unfolding is_token
is_token-cons c s h = (ground arith, ground arith, ground arith)

token_from-Reads :
    (pos : ℕ) (value s rest : Text)
    → is_token s ≡ true
    → stops rest ≡ true
    → (q : ℕ) × (token_from pos value (s ++ rest) ≡ (value ++ s, at q rest))
unfolding token_from
token_from-Reads pos value [] [] h k = (pos, rw (append-nil value) refl)
token_from-Reads pos value [] (c ∷ rest) h k = (pos, rw (append-nil value, k) refl)
token_from-Reads pos value (c ∷ s) rest h k =
    let (w, o, t) = is_token-cons c s h in
    let (q, e) = token_from-Reads (pos + len_utf8 c) (value ++ c ∷ []) s rest t k in
    (q, rw (w, at_operator-append (c ∷ s) rest k, o, e, append_assoc value (c ∷ []) s) refl)

is_value-bare :
    (c : ℕ) (s : Text)
    → is_value (bare (c ∷ s)) ≡ true
    → ((c == apostrophe) ≡ false) × (is_token (c ∷ s) ≡ true)
unfolding is_value
is_value-bare c s h = (ground arith, ground arith)

value_at-Reads :
    (pos : ℕ) (v : Value) (rest : Text)
    → is_value v ≡ true
    → stops rest ≡ true
    → Reads (value_at pos (print_value v rest)) (text_of v) rest
unfolding value_at is_value
value_at-Reads pos (quoted s) rest h k =
    let (q, e) = quoted_from-Reads (pos + 1) [] s rest h in (q, rw e refl)
value_at-Reads pos (bare []) rest h k = absurd (ground arith)
value_at-Reads pos (bare (c ∷ s)) rest h k =
    let (n, t) = is_value-bare c s h in
    let (q, e) = token_from-Reads pos [] (c ∷ s) rest t k in (q, rw (n, e) refl)

-- A printed value starts with no whitespace.
skip_from-print_value :
    (pos : ℕ) (v : Value) (rest : Text)
    → is_value v ≡ true
    → skip_from pos (print_value v rest) ≡ at pos (print_value v rest)
unfolding skip_from is_value is_ascii_whitespace
skip_from-print_value pos (quoted s) rest h = refl
skip_from-print_value pos (bare []) rest h = absurd (ground arith)
skip_from-print_value pos (bare (c ∷ s)) rest h =
    rw ((is_token-cons c s ((is_value-bare c s h).1)).0)

parse_value-Reads :
    (pos : ℕ) (v : Value) (rest : Text)
    → is_value v ≡ true
    → stops rest ≡ true
    → Reads (parse_value (at pos (print_value v rest))) (text_of v) rest
unfolding parse_value skip_ws
parse_value-Reads pos v rest h k =
    let (q, e) = value_at-Reads pos v rest h k in
    (q, rw (skip_from-print_value pos v rest h, e) refl)

skip_from-space : (pos : ℕ) (s : Text) → skip_from pos (space ∷ s) ≡ skip_from (pos + 1) s
unfolding skip_from is_ascii_whitespace
skip_from-space pos s = refl

parse_value_spaced-Reads :
    (pos : ℕ) (v : Value) (rest : Text)
    → is_value v ≡ true
    → stops rest ≡ true
    → Reads (parse_value (at pos (space ∷ print_value v rest))) (text_of v) rest
unfolding parse_value skip_ws
parse_value_spaced-Reads pos v rest h k =
    let (q, e) = value_at-Reads (pos + 1) v rest h k in
    (
      q,
      rw (skip_from-space pos (print_value v rest), skip_from-print_value (pos + 1) v rest h, e)
          refl,
    )

parse_op-Reads :
    (pos : ℕ) (is_eq : Bool) (rest : Text)
    → Reads (parse_op (skip_ws (at pos (space ∷ print_op is_eq rest)))) is_eq rest
unfolding parse_op skip_ws skip_from is_ascii_whitespace
parse_op-Reads pos true rest = (pos + 1 + 2, refl)
parse_op-Reads pos false rest = (pos + 1 + 2, refl)

space-stops : (s : Text) → stops (space ∷ s) ≡ true
unfolding is_ascii_whitespace
space-stops s = refl

-- The rest of a comparison, once its first value is read.
module _ (c : Comparison) (rest : Text) (h : is_comparison c ≡ true) (k : stops rest ≡ true) where
  parse_comp-Reads :
      (pos : ℕ) → Reads (parse_comp (at pos (print_comparison c rest))) (comparison_meaning c) rest
  unfolding parse_comp
  parse_comp-Reads pos =
      let after_op = space ∷ print_value c.rhs rest in
      let (a, l) =
        parse_value-Reads pos c.lhs (space ∷ print_op c.is_eq after_op) (ground arith)
          (space-stops (print_op c.is_eq after_op)) in
      let (b, o) = parse_op-Reads a c.is_eq after_op in
      let (d, r) = parse_value_spaced-Reads b c.rhs rest (ground arith) k in (d, rw (l, o, r) refl)

  parse_comp_spaced-Reads :
      (pos : ℕ)
      → Reads (parse_comp (at pos (space ∷ print_comparison c rest))) (comparison_meaning c) rest
  unfolding parse_comp
  parse_comp_spaced-Reads pos =
      let after_op = space ∷ print_value c.rhs rest in
      let (a, l) =
        parse_value_spaced-Reads pos c.lhs (space ∷ print_op c.is_eq after_op) (ground arith)
          (space-stops (print_op c.is_eq after_op)) in
      let (b, o) = parse_op-Reads a c.is_eq after_op in
      let (d, r) = parse_value_spaced-Reads b c.rhs rest (ground arith) k in (d, rw (l, o, r) refl)

print_others-stops : (xs : List Conjoined) → stops (print_others xs) ≡ true
unfolding print_others is_ascii_whitespace
print_others-stops [] = refl
print_others-stops (and_also c ∷ xs) = refl
print_others-stops (or_else c ∷ xs) = refl

parse_logic-Reads :
    (fuel : ℕ) (acc : Bool) (xs : List Conjoined) (pos : ℕ)
    → length xs < fuel
    → are_comparisons xs ≡ true
    → Reads (parse_logic fuel acc (at pos (print_others xs))) (meaning_from acc xs) []
unfolding parse_logic skip_ws skip_from is_ascii_whitespace meaning_from are_comparisons
    print_others
parse_logic-Reads zero acc xs pos h k = absurd (omega arith)
parse_logic-Reads (suc fuel) acc [] pos h k = (pos, refl)
parse_logic-Reads (suc fuel) acc (and_also c ∷ xs) pos h k =
    let (a, r) =
      parse_comp_spaced-Reads c (print_others xs) (ground arith) (print_others-stops xs)
        (pos + 1 + 2) in
    let (b, e) =
      parse_logic-Reads fuel (acc && comparison_meaning c) xs a (omega arith) (ground arith) in
    (b, rw (r, e) refl)
parse_logic-Reads (suc fuel) acc (or_else c ∷ xs) pos h k =
    let (a, r) =
      parse_comp_spaced-Reads c (print_others xs) (ground arith) (print_others-stops xs)
        (pos + 1 + 2) in
    let (b, e) =
      parse_logic-Reads fuel (acc || comparison_meaning c) xs a (omega arith) (ground arith) in
    (b, rw (r, e) refl)

length-print_value : (v : Value) (rest : Text) → length rest ≤ length (print_value v rest)
length-print_value (quoted s) rest = omega (arith, length-append s (apostrophe ∷ rest))
length-print_value (bare s) rest = omega (arith, length-append s rest)

length-print_comparison :
    (c : Comparison) (rest : Text) → length rest ≤ length (print_comparison c rest)
length-print_comparison c rest =
    let after_op = space ∷ print_value c.rhs rest in
    omega (
      arith,
      length-print_value c.rhs rest,
      length-print_value c.lhs (space ∷ print_op c.is_eq after_op),
    )

length-print_others : (xs : List Conjoined) → length xs ≤ length (print_others xs)
unfolding print_others
length-print_others [] = omega arith
length-print_others (and_also c ∷ xs) =
    omega (arith, length-print_others xs, length-print_comparison c (print_others xs))
length-print_others (or_else c ∷ xs) =
    omega (arith, length-print_others xs, length-print_comparison c (print_others xs))

-- The printed form of an expression whose values can be written down (a quoted one has no
-- apostrophe, a bare one is not empty, starts with no apostrophe and has neither whitespace nor an
-- operator in it) evaluates to its meaning: every comparison exact, `&&` and `||` of equal
-- precedence, from the left.
pub evaluate-print : (e : Expression) → is_expression e ≡ true → evaluate (print e) ≡ ok (meaning e)
unfolding evaluate parse_expr skip_ws skip_from print meaning
evaluate-print e h =
    let (a, c) =
      parse_comp-Reads e.first (print_others e.others) (ground arith) (print_others-stops e.others)
        0 in
    let (b, l) =
      parse_logic-Reads (suc (length (print_others e.others))) (comparison_meaning e.first) e.others
        a (omega (arith, length-print_others e.others)) (ground arith) in
    rw (c, l) refl
