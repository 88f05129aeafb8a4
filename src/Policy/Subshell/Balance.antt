-- ===== src/Policy/Subshell/Balance.antt =====
-- What `extract_subshells` finds: balanced `$(…)` and backticks, never inside single quotes.
use zymi_core.Prelude.{
  ℕ, ◌+◌, ◌-◌, ◌<◌, ◌≡◌, refl, sym, ◌∙◌, Bool, true, false, not, Option, none, some, List, [], ◌∷◌,
  ◌++◌, append_assoc, append-nil, arith, Text,
}
use zymi_core.Policy.Split.{apostrophe}
use zymi_core.Policy.Subshell.{
  with_first, deeper, paren_body, backtick_body, body_at, extract_round, extract_subshells,
  backtick, dollar,
}
use zymi_core.Policy.Subshell.Fuel.{extract_from, extract_from-round}

-- A text whose parentheses are balanced.
pub data IsBalanced : Text → Type 0 where
  nothing : IsBalanced []
  plain : {s : Text} (c : ℕ) → ¬ (c ≡ b'(') → ¬ (c ≡ b')') → IsBalanced s → IsBalanced (c ∷ s)
  group : {b s : Text} → IsBalanced b → IsBalanced s → IsBalanced (b'(' ∷ b ++ b')' ∷ s)

abbrev prepend : Text → Option (Text × Text) → Option (Text × Text)
prepend s none = none
prepend s (some (body, rest)) = some (s ++ body, rest)

prepend-cons :
    (c : ℕ) (s : Text) (r : Option (Text × Text)) → with_first c (prepend s r) ≡ prepend (c ∷ s) r
prepend-cons c s none = refl
prepend-cons c s (some (body, rest)) = refl

prepend-nil : (r : Option (Text × Text)) → prepend [] r ≡ r
prepend-nil none = refl
prepend-nil (some (body, rest)) = refl

prepend-append :
    (s t : Text) (r : Option (Text × Text)) → prepend s (prepend t r) ≡ prepend (s ++ t) r
prepend-append s t none = refl
prepend-append s t (some (body, rest)) = rw append_assoc

paren_body-step :
    (depth c : ℕ) (s : Text)
    → 0 < deeper depth c
    → paren_body depth (c ∷ s) ≡ with_first c (paren_body (deeper depth c) s)
unfolding paren_body
paren_body-step depth c s h = ground arith

paren_body-balanced :
    (depth : ℕ) {b : Text} (t : Text)
    → IsBalanced b
    → 0 < depth
    → paren_body depth (b ++ t) ≡ prepend b (paren_body depth t)
paren_body-balanced depth t nothing h = sym (prepend-nil (paren_body depth t))
paren_body-balanced depth t (plain {s} c n m b) h =
    let e : deeper depth c ≡ depth = ground arith in
    paren_body-step depth c (s ++ t) (rw e h)
    ∙ rw (e, paren_body-balanced depth t b h) (prepend-cons c s (paren_body depth t))
paren_body-balanced depth t (group {b} {s} x y) h =
    let r = paren_body depth t in
    let back : (depth + 1) - 1 ≡ depth = omega arith in
    let close : paren_body (depth + 1) (b')' ∷ s ++ t) ≡ prepend (b')' ∷ s) r =
      paren_body-step (depth + 1) b')' (s ++ t) (rw back h)
      ∙ rw (back, paren_body-balanced depth t y h) (prepend-cons b')' s r) in
    paren_body-step depth b'(' ((b ++ b')' ∷ s) ++ t) (omega arith)
    ∙ rw
        (
          append_assoc b (b')' ∷ s) t,
          paren_body-balanced (depth + 1) (b')' ∷ s ++ t) x (omega arith),
          close,
        )
        (prepend-cons b'(' b (prepend (b')' ∷ s) r) ∙ prepend-append (b'(' ∷ b) (b')' ∷ s) r)

paren_body-close :
    {b : Text} (rest : Text) → IsBalanced b → paren_body 1 (b ++ b')' ∷ rest) ≡ some (b, rest)
unfolding paren_body
paren_body-close {b} rest x = paren_body-balanced 1 (b')' ∷ rest) x (omega arith) ∙ rw append-nil

-- A text without the character `q`.
abbrev pub Lacks : ℕ → Text → Type 0
Lacks q [] = Unit
Lacks q (c ∷ s) = (¬ (c ≡ q)) × Lacks q s

backtick_body-close :
    (b rest : Text) → Lacks backtick b → backtick_body (b ++ backtick ∷ rest) ≡ some (b, rest)
unfolding backtick_body
backtick_body-close [] rest h = refl
backtick_body-close (c ∷ b) rest (n, h) = ground (arith, backtick_body-close b rest h)

-- Characters with no meaning to the scan.
abbrev pub IsPlain : Text → Type 0
IsPlain s = Lacks apostrophe s × Lacks dollar s × Lacks backtick s

body_at-plain : (c : ℕ) (s : Text) → ¬ (c ≡ dollar) → ¬ (c ≡ backtick) → body_at c s ≡ none
unfolding body_at
body_at-plain c [] n m = refl
body_at-plain c (d ∷ s) n m = ground arith

body_at-dollar :
    (b rest : Text) → IsBalanced b → body_at dollar (b'(' ∷ b ++ b')' ∷ rest) ≡ some (b, rest)
unfolding body_at
body_at-dollar b rest x = paren_body-close rest x

first_backtick :
    (b rest : Text) (d : ℕ) (s : Text)
    → b ++ backtick ∷ rest ≡ d ∷ s
    → body_at backtick (d ∷ s) ≡ backtick_body (d ∷ s)
unfolding body_at
first_backtick b rest d s e = ground arith

body_at-backtick :
    (b rest : Text) → Lacks backtick b → body_at backtick (b ++ backtick ∷ rest) ≡ some (b, rest)
body_at-backtick [] rest h =
    first_backtick [] rest backtick rest refl ∙ backtick_body-close [] rest h
body_at-backtick (c ∷ b) rest h =
    first_backtick (c ∷ b) rest c (b ++ backtick ∷ rest) refl ∙ backtick_body-close (c ∷ b) rest h

module _ (f : Bool → Text → List Text) (c : ℕ) (s : Text) where
  round-quote : (quoted : Bool) → extract_round f quoted apostrophe s ≡ f (not quoted) s
  unfolding extract_round
  round-quote quoted = refl

  round-quoted : ¬ (c ≡ apostrophe) → extract_round f true c s ≡ f true s
  unfolding extract_round
  round-quoted n = ground arith

  round-plain :
      ¬ (c ≡ apostrophe) → ¬ (c ≡ dollar) → ¬ (c ≡ backtick) → extract_round f false c s ≡ f false s
  unfolding extract_round
  round-plain a d b = rw (body_at-plain c s d b) (ground arith)

  round-body :
      {body after : Text}
      → ¬ (c ≡ apostrophe)
      → body_at c s ≡ some (body, after)
      → extract_round f false c s ≡ body ∷ f false after
  unfolding extract_round
  round-body a e = rw e (ground arith)

extract_from-plain : (p t : Text) → IsPlain p → extract_from false (p ++ t) ≡ extract_from false t
extract_from-plain [] t h = refl
extract_from-plain (c ∷ p) t ((a, ha), (d, hd), (b, hb)) =
    extract_from-round false c (p ++ t)
    ∙ round-plain extract_from c (p ++ t) a d b
    ∙ extract_from-plain p t (ha, hd, hb)

extract_from-quoted :
    (q t : Text)
    → Lacks apostrophe q
    → extract_from true (q ++ apostrophe ∷ t) ≡ extract_from false t
extract_from-quoted [] t h =
    extract_from-round true apostrophe t ∙ round-quote extract_from apostrophe t true
extract_from-quoted (c ∷ q) t (n, h) =
    extract_from-round true c (q ++ apostrophe ∷ t)
    ∙ round-quoted extract_from c (q ++ apostrophe ∷ t) n
    ∙ extract_from-quoted q t h

-- After text with no quote, dollar or backtick, `extract_subshells` returns the body of `$(…)`
-- whenever its parentheses are balanced, and goes on after it.
pub extract_subshells-dollar :
    (before body after : Text)
    → IsPlain before
    → IsBalanced body
    → extract_subshells (before ++ (dollar ∷ b'(' ∷ (body ++ b')' ∷ after)))
      ≡ body ∷ extract_subshells after
unfolding extract_subshells
extract_subshells-dollar before body after p b =
    let s = b'(' ∷ body ++ b')' ∷ after in
    extract_from-plain before (dollar ∷ s) p
    ∙ extract_from-round false dollar s
    ∙ round-body extract_from dollar s (λ e. omega arith) (body_at-dollar body after b)

-- After text with no quote, dollar or backtick, a body in backticks that holds no backtick is
-- returned, and the extraction goes on after it.
pub extract_subshells-backtick :
    (before body after : Text)
    → IsPlain before
    → Lacks backtick body
    → extract_subshells (before ++ (backtick ∷ (body ++ backtick ∷ after)))
      ≡ body ∷ extract_subshells after
unfolding extract_subshells
extract_subshells-backtick before body after p b =
    let s = body ++ backtick ∷ after in
    extract_from-plain before (backtick ∷ s) p
    ∙ extract_from-round false backtick s
    ∙ round-body extract_from backtick s (λ e. omega arith) (body_at-backtick body after b)

-- After text with no quote, dollar or backtick, nothing is extracted from between single quotes.
pub extract_subshells-quoted :
    (before quoted after : Text)
    → IsPlain before
    → Lacks apostrophe quoted
    → extract_subshells (before ++ (apostrophe ∷ (quoted ++ apostrophe ∷ after)))
      ≡ extract_subshells after
unfolding extract_subshells
extract_subshells-quoted before quoted after p q =
    let s = quoted ++ apostrophe ∷ after in
    extract_from-plain before (apostrophe ∷ s) p
    ∙ extract_from-round false apostrophe s
    ∙ round-quote extract_from apostrophe s false
    ∙ extract_from-quoted quoted after q
