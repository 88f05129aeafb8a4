-- ===== src/Policy/Variables.antt =====
-- policy.rs, `has_variable_expansion`. The loop goes over the bytes; all that it tests is ASCII, so
-- the characters are walked here.
use zymi_core.Prelude.{
  ℕ, ◌≡◌, ap, ◌↔◌, inl, inr, Bool, true, false, not, ◌&&◌, ◌||◌, [], ◌∷◌, ◌++◌, ◌==◌, leb,
  if◌then◌else◌, arith, Bool-cases, Text,
}
use zymi_core.Policy.Split.{apostrophe}
use zymi_core.Policy.Subshell.{dollar}

-- `is_ascii_alphanumeric() || '{' || '_'`.
unfoldable pub starts_name : ℕ → Bool
starts_name c =
    (leb b'0' c && leb c b'9')
    || (leb b'A' c && leb c b'Z')
    || (leb b'a' c && leb c b'z')
    || c == b'{'
    || c == b'_'

unfoldable pub expansion_loop : Bool → Text → Bool
unfolding starts_name
expansion_loop quoted [] = false
expansion_loop quoted (c ∷ []) = false
expansion_loop quoted (c ∷ d ∷ s) =
    let toggled = expansion_loop (not quoted) (d ∷ s) in
    let after_both = expansion_loop quoted s in
    let after_one = expansion_loop quoted (d ∷ s) in
    if c == apostrophe
    then toggled
    else if not quoted && c == dollar
    then (if d == b'(' then after_both else if starts_name d then true else after_one)
    else after_one

unfoldable pub has_variable_expansion : Text → Bool
unfolding expansion_loop
has_variable_expansion command = expansion_loop false command

-- Whether the position behind a text lies between single quotes.
abbrev pub in_quote : Bool → Text → Bool
in_quote quoted [] = quoted
in_quote quoted (c ∷ s) = in_quote (if c == apostrophe then not quoted else quoted) s

-- A dollar outside single quotes, followed by the first character of a name or by a brace.
pub record ExpandsAt (quoted : Bool) (s : Text) : Type 0 where
  pub before : Text
  pub name : ℕ
  pub after : Text
  pub parts : s ≡ before ++ dollar ∷ name ∷ after
  pub unquoted : in_quote quoted before ≡ false
  pub named : starts_name name ≡ true

ExpandsAt-cons :
    (quoted : Bool) (c : ℕ) (s : Text)
    → ExpandsAt (if c == apostrophe then not quoted else quoted) s
    → ExpandsAt quoted (c ∷ s)
ExpandsAt-cons quoted c s x = record {
  before = c ∷ x.before;
  name = x.name;
  after = x.after;
  parts = ap (◌∷◌ c) x.parts;
  unquoted = x.unquoted;
  named = x.named;
}

loop→ : (quoted : Bool) (s : Text) → expansion_loop quoted s ≡ true → ExpandsAt quoted s
unfolding expansion_loop
loop→ quoted [] h = cc
loop→ quoted (c ∷ []) h = cc
loop→ quoted (c ∷ d ∷ s) h = elim (Bool-cases (c == apostrophe)) [
  | inl a ↦ ExpandsAt-cons quoted c (d ∷ s) (rw a (loop→ (not quoted) (d ∷ s) (rw a at h)))
  | inr a ↦ elim (Bool-cases (not quoted && c == dollar)) [
    | inr o ↦ ExpandsAt-cons quoted c (d ∷ s) (rw a (loop→ quoted (d ∷ s) (rw (a, o) at h)))
    | inl o ↦ elim (Bool-cases (d == b'(')) [
      | inl p ↦ ExpandsAt-cons quoted c (d ∷ s) (
          let plain : (d == apostrophe) ≡ false = ground arith in
          rw a (ExpandsAt-cons quoted d s (rw plain (loop→ quoted s (rw (a, o, p) at h)))))
      | inr p ↦ elim (Bool-cases (starts_name d)) [
        | inl n ↦ record {
          before = [];
          name = d;
          after = s;
          parts = ground arith;
          unquoted = ground arith;
          named = n;
        }
        | inr n ↦
            ExpandsAt-cons quoted c (d ∷ s) (rw a (loop→ quoted (d ∷ s) (rw (a, o, p, n) at h)))
      ]
    ]
  ]
]

loop-paren :
    (quoted : Bool) (s : Text)
    → expansion_loop quoted (b'(' ∷ s) ≡ true
    → expansion_loop quoted s ≡ true
unfolding expansion_loop
loop-paren quoted [] h = cc
loop-paren quoted (c ∷ s) h = ground arith

loop-cons :
    (quoted : Bool) (c d : ℕ) (s : Text)
    → expansion_loop (if c == apostrophe then not quoted else quoted) (d ∷ s) ≡ true
    → expansion_loop quoted (c ∷ d ∷ s) ≡ true
unfolding expansion_loop
loop-cons quoted c d s h = elim (Bool-cases (c == apostrophe)) [
  | inl a ↦ rw a (rw a at h)
  | inr a ↦ ground (arith, loop-paren quoted s)
]

loop-nonempty :
    (quoted : Bool) (c : ℕ) (t : Text)
    → expansion_loop (if c == apostrophe then not quoted else quoted) t ≡ true
    → expansion_loop quoted (c ∷ t) ≡ true
unfolding expansion_loop
loop-nonempty quoted c [] h = cc
loop-nonempty quoted c (d ∷ t) h = loop-cons quoted c d t h

loop← :
    (quoted : Bool) (before after : Text) (name : ℕ)
    → in_quote quoted before ≡ false
    → starts_name name ≡ true
    → expansion_loop quoted (before ++ dollar ∷ name ∷ after) ≡ true
unfolding expansion_loop starts_name
loop← quoted [] after name q n = ground arith
loop← quoted (c ∷ before) after name q n =
    loop-nonempty quoted c (before ++ dollar ∷ name ∷ after)
      (loop← (if c == apostrophe then not quoted else quoted) before after name q n)

-- A command is found to expand a variable exactly when a dollar that an even number of single
-- quotes precedes is followed by a letter, a digit, an underscore or an opening brace.
pub has_variable_expansion_iff :
    (command : Text) → (has_variable_expansion command ≡ true) ↔ ExpandsAt false command
unfolding has_variable_expansion
has_variable_expansion_iff command =
    (loop→ false command, λ x. rw x.parts (loop← false x.before x.after x.name x.unquoted x.named))
