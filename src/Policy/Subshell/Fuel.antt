-- ===== src/Policy/Subshell/Fuel.antt =====
-- The fuel of `extract_subshells` is enough, and the bodies are shorter than the command.
use zymi_core.Prelude.{
  ℕ, zero, suc, ◌+◌, ◌≤◌, ◌<◌, ◌≡◌, refl, Bool, false, not, ◌&&◌, Option, none, some, List, [], ◌∷◌,
  ◌==◌, arith, Option-cases, Bool-cases, inl, inr, length, Text,
}
use zymi_core.Policy.Subshell.{
  with_first, deeper, paren_body, backtick_body, body_at, extract_round, extract_loop,
  extract_subshells, backtick, dollar,
}

-- A body and what follows it, with the closing character, fit into the text.
abbrev Fits : ℕ → Option (Text × Text) → Type 0
Fits n none = Unit
Fits n (some (body, rest)) = length body + length rest < n

with_first-Fits : (c n : ℕ) (r : Option (Text × Text)) → Fits n r → Fits (suc n) (with_first c r)
with_first-Fits c n none h = tt
with_first-Fits c n (some (body, rest)) h = omega arith

paren_body-Fits : (depth : ℕ) (s : Text) → Fits (length s) (paren_body depth s)
unfolding paren_body
paren_body-Fits depth [] = tt
paren_body-Fits depth (c ∷ s) = elim (Bool-cases (deeper depth c == 0)) [
  | inl e ↦ rw e (omega arith)
  | inr e ↦ rw e (
      with_first-Fits c (length s) (paren_body (deeper depth c) s)
        (paren_body-Fits (deeper depth c) s))
]

backtick_body-Fits : (s : Text) → Fits (length s) (backtick_body s)
unfolding backtick_body
backtick_body-Fits [] = tt
backtick_body-Fits (c ∷ s) = elim (Bool-cases (c == backtick)) [
  | inl e ↦ rw e (omega arith)
  | inr e ↦ rw e (with_first-Fits c (length s) (backtick_body s) (backtick_body-Fits s))
]

Fits-mono : (m n : ℕ) (r : Option (Text × Text)) → Fits m r → m ≤ n → Fits n r
Fits-mono m n none h k = tt
Fits-mono m n (some (body, rest)) h k = omega arith

pub body_at-Fits : (c : ℕ) (s : Text) → Fits (length s) (body_at c s)
unfolding body_at
body_at-Fits c [] = tt
body_at-Fits c (d ∷ s) = elim (Bool-cases (c == dollar && d == b'(')) [
  | inl e ↦
      rw e
        (Fits-mono (length s) (suc (length s)) (paren_body 1 s) (paren_body-Fits 1 s) (omega arith))
  | inr e ↦ elim (Bool-cases (c == backtick)) [
    | inl k ↦ rw (e, k) (backtick_body-Fits (d ∷ s))
    | inr k ↦ rw (e, k) tt
  ]
]

body_at-lt :
    (c : ℕ) (s : Text) {body after : Text}
    → body_at c s ≡ some (body, after)
    → length body + length after < length s
body_at-lt c s e = subst_Fits (body_at-Fits c s) e
  where
    subst_Fits :
        {n : ℕ} {r : Option (Text × Text)} {body after : Text}
        → Fits n r
        → r ≡ some (body, after)
        → length body + length after < n
    subst_Fits {r = none} h k = cc
    subst_Fits {r = some (b, a)} h k = ground arith

-- Two continuations that agree on shorter texts give the same round.
extract_round-congr :
    (f g : Bool → Text → List Text) (quoted : Bool) (c : ℕ) (s : Text)
    → ((q : Bool) (t : Text) → length t ≤ length s → f q t ≡ g q t)
    → extract_round f quoted c s ≡ extract_round g quoted c s
unfolding extract_round
extract_round-congr f g quoted c s h = elim (Option-cases (body_at c s)) [
  | inl e ↦ rw e (ground (arith, h (not quoted) s, h quoted s))
  | inr ((body, after), e) ↦
      rw e (ground (arith, h (not quoted) s, h quoted s, h quoted after, body_at-lt c s e))
]

pub extract_loop-fuel :
    (fuel more : ℕ) (quoted : Bool) (s : Text)
    → length s ≤ fuel
    → length s ≤ more
    → extract_loop fuel quoted s ≡ extract_loop more quoted s
unfolding extract_loop
extract_loop-fuel zero zero quoted [] h k = refl
extract_loop-fuel zero (suc more) quoted [] h k = refl
extract_loop-fuel (suc fuel) zero quoted [] h k = refl
extract_loop-fuel (suc fuel) (suc more) quoted [] h k = refl
extract_loop-fuel zero more quoted (c ∷ s) h k = absurd (omega arith)
extract_loop-fuel (suc fuel) zero quoted (c ∷ s) h k = absurd (omega arith)
extract_loop-fuel (suc fuel) (suc more) quoted (c ∷ s) h k =
    extract_round-congr (extract_loop fuel) (extract_loop more) quoted c s
      λ q t m. extract_loop-fuel fuel more q t (omega arith) (omega arith)

-- Each body with one character of its own brackets.
abbrev pub weight : List Text → ℕ
weight [] = 0
weight (s ∷ ss) = length s + 1 + weight ss

weight-extract_round :
    (f : Bool → Text → List Text) (quoted : Bool) (c : ℕ) (s : Text)
    → ((q : Bool) (t : Text) → weight (f q t) ≤ length t)
    → weight (extract_round f quoted c s) ≤ suc (length s)
unfolding extract_round
weight-extract_round f quoted c s h = elim (Option-cases (body_at c s)) [
  | inl e ↦ rw e (ground (arith, h (not quoted) s, h quoted s))
  | inr ((body, after), e) ↦
      rw e (ground (arith, h (not quoted) s, h quoted s, h quoted after, body_at-lt c s e))
]

weight-extract_loop :
    (fuel : ℕ) (quoted : Bool) (s : Text) → weight (extract_loop fuel quoted s) ≤ length s
unfolding extract_loop
weight-extract_loop zero quoted [] = omega arith
weight-extract_loop (suc fuel) quoted [] = omega arith
weight-extract_loop zero quoted (c ∷ s) = omega arith
weight-extract_loop (suc fuel) quoted (c ∷ s) =
    weight-extract_round (extract_loop fuel) quoted c s (weight-extract_loop fuel)

pub weight-extract_subshells : (s : Text) → weight (extract_subshells s) ≤ length s
unfolding extract_subshells
weight-extract_subshells s = weight-extract_loop (length s) false s

-- The loop from a state, with enough fuel.
abbrev pub extract_from : Bool → Text → List Text
extract_from quoted s = extract_loop (length s) quoted s

-- The loop obeys its round with no mention of fuel.
pub extract_from-round :
    (quoted : Bool) (c : ℕ) (s : Text)
    → extract_from quoted (c ∷ s) ≡ extract_round extract_from quoted c s
unfolding extract_loop
extract_from-round quoted c s =
    extract_round-congr (extract_loop (length s)) extract_from quoted c s
      λ q t m. extract_loop-fuel (length s) (length t) q t m (omega arith)
