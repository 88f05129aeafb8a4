-- ===== src/Config/When/Total.antt =====
-- config/when_expr.rs: the loops of the parser end.
use zymi_core.Prelude.{
  ℕ, zero, suc, ◌+◌, ◌<◌, ◌≤◌, ◌≡◌, refl, Bool, true, ◌&&◌, ◌||◌, Option, none, some, [], ◌∷◌, ◌++◌,
  ◌==◌, length, Text, len_utf8, Bool-cases, arith, inl, inr,
}
use zymi_core.Policy.Split.{apostrophe}
use zymi_core.Config.When.{
  Result, ok, err, out_of_fuel, ◌>>=◌, Parser, at, new_parser, is_ascii_whitespace, skip_from,
  skip_ws, at_op, at_operator, two_on, quoted_from, token_from, token_value, quoted_value, value_at,
  parse_value, parse_op, parse_comp, parse_logic, parse_expr, left_over, ended, evaluate,
  parse_only, lone_logic,
}

-- A result, with `n` characters left at most.
abbrev Within {ℓ} : {A : Type ℓ} → ℕ → Result (A × Parser) → Type 0
Within n (ok (a, p)) = length p.rest ≤ n
Within n (err e) = Unit
Within n out_of_fuel = ⊥

Within-bind {ℓ κ} :
    {A : Type ℓ} {B : Type κ} (n k : ℕ) (m : Result (A × Parser))
    (f : A × Parser → Result (B × Parser))
    → Within n m
    → ((a : A) (p : Parser) → length p.rest ≤ n → Within k (f (a, p)))
    → Within k (m >>= f)
Within-bind n k (ok (a, p)) f h g = g a p h
Within-bind n k (err e) f h g = tt
Within-bind n k out_of_fuel f h g = h

length-skip_from : (pos : ℕ) (s : Text) → length (skip_from pos s).rest ≤ length s
unfolding skip_from
length-skip_from pos [] = omega arith
length-skip_from pos (c ∷ s) = elim (Bool-cases (is_ascii_whitespace c)) [
  | inl e ↦ rw e (omega (arith, length-skip_from (pos + 1) s))
  | inr e ↦ rw e (omega arith)
]

length-skip_ws : (p : Parser) → length (skip_ws p).rest ≤ length p.rest
unfolding skip_ws
length-skip_ws p = length-skip_from p.pos p.rest

token_from-Within : (pos : ℕ) (value s : Text) → length ((token_from pos value s).1).rest ≤ length s
unfolding token_from
token_from-Within pos value [] = omega arith
token_from-Within pos value (c ∷ s) =
    elim (Bool-cases (is_ascii_whitespace c || at_operator (c ∷ s))) [
      | inl e ↦ rw e (omega arith)
      | inr e ↦ rw e (omega (arith, token_from-Within (pos + len_utf8 c) (value ++ c ∷ []) s))
    ]

abbrev PassesOn : Option (Text × Parser) → ℕ → Type 0
PassesOn none n = Unit
PassesOn (some (value, p)) n = length p.rest ≤ n

quoted_from-PassesOn :
    (pos : ℕ) (value s : Text) (n : ℕ) → length s ≤ n → PassesOn (quoted_from pos value s) n
unfolding quoted_from
quoted_from-PassesOn pos value [] n h = tt
quoted_from-PassesOn pos value (c ∷ s) n h = elim (Bool-cases (c == apostrophe)) [
  | inl e ↦ rw e (omega arith)
  | inr e ↦ rw e (quoted_from-PassesOn (pos + len_utf8 c) (value ++ c ∷ []) s n (omega arith))
]

token_value-Within :
    (start : ℕ) (t : Text × Parser) (n : ℕ) → length (t.1).rest ≤ n → Within n (token_value start t)
token_value-Within start ([], p) n h = tt
token_value-Within start (c ∷ v, p) n h = h

quoted_value-Within :
    (start : ℕ) (r : Option (Text × Parser)) (n : ℕ)
    → PassesOn r n
    → Within n (quoted_value start r)
quoted_value-Within start none n h = tt
quoted_value-Within start (some (value, p)) n h = h

value_at-Within : (start : ℕ) (s : Text) (n : ℕ) → length s ≤ n → Within n (value_at start s)
unfolding value_at
value_at-Within start [] n h = tt
value_at-Within start (c ∷ s) n h = elim (Bool-cases (c == apostrophe)) [
  | inl e ↦ rw e (
      quoted_value-Within start (quoted_from (start + 1) [] s) n
        (quoted_from-PassesOn (start + 1) [] s n (omega arith)))
  | inr e ↦ rw e (
      token_value-Within start (token_from start [] (c ∷ s)) n
        (omega (arith, token_from-Within start [] (c ∷ s))))
]

parse_value-Within : (p : Parser) (n : ℕ) → length p.rest ≤ n → Within n (parse_value p)
unfolding parse_value
parse_value-Within p n h =
    value_at-Within (skip_ws p).pos (skip_ws p).rest n (omega (arith, length-skip_ws p))

at_op-length-at :
    (a b pos : ℕ) (s : Text) → at_op a b s ≡ true → length (two_on (at pos s)).rest + 2 ≡ length s
at_op-length-at a b pos [] h = cc
at_op-length-at a b pos (c ∷ []) h = cc
at_op-length-at a b pos (c ∷ d ∷ s) h = omega arith

at_op-length :
    (a b : ℕ) (p : Parser) → at_op a b p.rest ≡ true → length (two_on p).rest + 2 ≡ length p.rest
at_op-length a b p h = at_op-length-at a b p.pos p.rest h

parse_op-Within : (p : Parser) (n : ℕ) → length p.rest ≤ n → Within n (parse_op p)
unfolding parse_op
parse_op-Within p n h = elim (Bool-cases (at_op b'=' b'=' p.rest)) [
  | inl e ↦ rw e (omega (arith, at_op-length b'=' b'=' p e))
  | inr e ↦ rw e (elim (Bool-cases (at_op b'!' b'=' p.rest)) [
    | inl k ↦ rw k (omega (arith, at_op-length b'!' b'=' p k))
    | inr k ↦ rw k tt
  ])
]

parse_comp-Within : (p : Parser) (n : ℕ) → length p.rest ≤ n → Within n (parse_comp p)
unfolding parse_comp
parse_comp-Within p n h = Within-bind n n (parse_value p) _ (parse_value-Within p n h) (λ lhs q k.
    Within-bind n n (parse_op (skip_ws q)) _
      (parse_op-Within (skip_ws q) n (omega (arith, length-skip_ws q)))
      (λ is_eq r l. Within-bind n n (parse_value r) _ (parse_value-Within r n l) (λ rhs t m. m)))

-- A round of the loop, from the comparison after the operator on.
round-Within :
    (a b : ℕ) (p : Parser) (n : ℕ) (f : Bool × Parser → Result (Bool × Parser))
    → at_op a b p.rest ≡ true
    → ((rhs : Bool) (r : Parser) → length r.rest + 2 ≤ length p.rest → Within n (f (rhs, r)))
    → Within n (parse_comp (two_on p) >>= f)
round-Within a b p n f h k =
    let m = length (two_on p).rest in
    Within-bind m n (parse_comp (two_on p)) f (parse_comp-Within (two_on p) m (omega arith))
      (λ rhs r l. k rhs r (omega (arith, at_op-length a b p h)))

parse_logic-Within :
    (fuel : ℕ) (acc : Bool) (p : Parser) (n : ℕ)
    → length p.rest ≤ n
    → length p.rest < fuel
    → Within n (parse_logic fuel acc p)
unfolding parse_logic
parse_logic-Within zero acc p n h k = absurd (omega arith)
parse_logic-Within (suc fuel) acc p n h k = elim (Bool-cases (at_op b'&' b'&' (skip_ws p).rest)) [
  | inl e ↦ rw e (
      round-Within b'&' b'&' (skip_ws p) n _ e (λ rhs r l.
        parse_logic-Within fuel (acc && rhs) r n (omega (arith, length-skip_ws p))
          (omega (arith, length-skip_ws p))))
  | inr e ↦ rw e (elim (Bool-cases (at_op b'|' b'|' (skip_ws p).rest)) [
    | inl l ↦ rw l (
        round-Within b'|' b'|' (skip_ws p) n _ l (λ rhs r m.
          parse_logic-Within fuel (acc || rhs) r n (omega (arith, length-skip_ws p))
            (omega (arith, length-skip_ws p))))
    | inr l ↦ rw l (elim (Bool-cases (lone_logic (skip_ws p).rest)) [
      | inl m ↦ rw m tt
      | inr m ↦ rw m (omega (arith, length-skip_ws p))
    ])
  ])
]

parse_expr-Within : (p : Parser) → Within (length p.rest) (parse_expr p)
unfolding parse_expr
parse_expr-Within p =
    Within-bind (length p.rest) (length p.rest) (parse_comp p) _
      (parse_comp-Within p (length p.rest) (omega arith))
      (λ acc q h. parse_logic-Within (suc (length q.rest)) acc q (length p.rest) h (omega arith))

-- A result that the code can give.
abbrev pub IsResult {ℓ} : {A : Type ℓ} → Result A → Type 0
IsResult (ok a) = Unit
IsResult (err e) = Unit
IsResult out_of_fuel = ⊥

left_over-IsResult : (value : Bool) (pos : ℕ) (s : Text) → IsResult (left_over value pos s)
left_over-IsResult value pos [] = tt
left_over-IsResult value pos (c ∷ s) = tt

ended-IsResult : (n : ℕ) (m : Result (Bool × Parser)) → Within n m → IsResult (m >>= ended)
ended-IsResult n (ok (value, p)) h = left_over-IsResult value (skip_ws p).pos (skip_ws p).rest
ended-IsResult n (err e) h = tt
ended-IsResult n out_of_fuel h = h

-- `evaluate` gives a value or an error for every text: its loops end.
pub evaluate-IsResult : (expr : Text) → IsResult (evaluate expr)
unfolding evaluate
evaluate-IsResult expr =
    ended-IsResult (length expr) (parse_expr (new_parser expr))
      (parse_expr-Within (new_parser expr))

abbrev pub forget {ℓ} : {A : Type ℓ} → Result A → Result (Unit {0})
forget (ok a) = ok tt
forget (err e) = err e
forget out_of_fuel = out_of_fuel

then_ok : (m : Result Bool) → (m >>= (λ _. ok tt)) ≡ forget m
then_ok (ok b) = refl
then_ok (err e) = refl
then_ok out_of_fuel = refl

then_ended :
    (m : Result (Bool × Parser)) → (m >>= (λ r. ended r >>= (λ _. ok tt))) ≡ forget (m >>= ended)
then_ended (ok r) = then_ok (ended r)
then_ended (err e) = refl
then_ended out_of_fuel = refl

-- `parse_only` accepts exactly what `evaluate` gives a value for, and gives its error otherwise.
pub parse_only_lem : (expr : Text) → parse_only expr ≡ forget (evaluate expr)
unfolding parse_only evaluate
parse_only_lem expr = then_ended (parse_expr (new_parser expr))
