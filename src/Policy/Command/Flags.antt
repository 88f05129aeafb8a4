-- ===== src/Policy/Command/Flags.antt =====
-- The flags and arguments of a normalized command, token by token: their order does not matter.
use zymi_core.Prelude.{
  ℕ, ◌≡◌, refl, ◌∙◌, inl, inr, Bool, true, false, ◌&&◌, ◌||◌, Option, none, some, Option-cases,
  Bool-cases, List, [], ◌∷◌, ◌++◌, ◌==◌, if◌then◌else◌, arith, Text, codes, text_eq,
  to_ascii_lowercase, starts_with,
}
use zymi_core.Policy.Fragments.{holds}
use zymi_core.Policy.Command.{
  ascii_lower, NormalizedCommand, normalized, long_flag_map, find_long, has_flag, insert_flag,
  insert_flags, short_flags, add_token, add_tokens, normalize_tokens,
}

-- Whether a short flag's letters hold `c`, in lower case.
abbrev pub names_flag : ℕ → Text → Bool
names_flag c [] = false
names_flag c (d ∷ s) = to_ascii_lowercase d == c || names_flag c s

abbrev pub is_flag : ℕ → Option ℕ → Bool
is_flag c none = false
is_flag c (some d) = d == c

abbrev pub is_letter : ℕ → Option Text → Bool
is_letter c none = false
is_letter c (some letters) = names_flag c letters

-- Whether a token sets the flag `c`.
unfoldable pub gives_flag : List (Text × ℕ) → ℕ → Text → Bool
gives_flag flag_map c token =
    if starts_with token (codes "--")
    then is_flag c (find_long flag_map token)
    else is_letter c (short_flags token)

abbrev pub absent {ℓ} : {A : Type ℓ} → Option A → Bool
absent none = true
absent (some _) = false

-- Whether a token is the argument `a`.
unfoldable pub gives_arg : List (Text × ℕ) → Text → Text → Bool
gives_arg flag_map a token =
    (if starts_with token (codes "--")
      then absent (find_long flag_map token)
      else absent (short_flags token))
    && text_eq (ascii_lower token) a

abbrev pub any : (Text → Bool) → List Text → Bool
any p [] = false
any p (t ∷ ts) = p t || any p ts

pub any-append : (p : Text → Bool) (xs ys : List Text) → any p (xs ++ ys) ≡ (any p xs || any p ys)
any-append p [] ys = refl
any-append p (x ∷ xs) ys = ground (arith, any-append p xs ys)

has_flag-insert_flag :
    (d c : ℕ) (flags : List ℕ) → has_flag (insert_flag d flags) c ≡ (has_flag flags c || d == c)
unfolding insert_flag has_flag
has_flag-insert_flag d c flags = elim (Bool-cases (has_flag flags d)) [
  | inl e ↦ rw e (elim (Bool-cases (d == c)) [ inl k ↦ ground arith | inr k ↦ ground arith ])
  | inr e ↦ rw e (ground arith)
]

has_flag-insert_flags :
    (s : Text) (c : ℕ) (flags : List ℕ)
    → has_flag (insert_flags s flags) c ≡ (has_flag flags c || names_flag c s)
unfolding insert_flags
has_flag-insert_flags [] c flags = ground arith
has_flag-insert_flags (d ∷ s) c flags = ground (
  arith,
  has_flag-insert_flags s c (insert_flag (to_ascii_lowercase d) flags),
  has_flag-insert_flag (to_ascii_lowercase d) c flags,
)

holds-append_one :
    (ts : List Text) (t a : Text) → holds (ts ++ t ∷ []) a ≡ (holds ts a || text_eq t a)
unfolding holds
holds-append_one [] t a = ground arith
holds-append_one (x ∷ ts) t a = ground (arith, holds-append_one ts t a)

module _ (flag_map : List (Text × ℕ)) where
  has_flag-add_token :
      (token : Text) (c : ℕ) (cmd : NormalizedCommand)
      → has_flag (add_token flag_map token cmd).flags c
        ≡ (has_flag cmd.flags c || gives_flag flag_map c token)
  unfolding add_token gives_flag
  has_flag-add_token token c cmd = elim (Option-cases (find_long flag_map token)) [
    | inl n ↦ elim (Option-cases (short_flags token)) [
      | inl m ↦ ground arith
      | inr (letters, m) ↦ ground (arith, has_flag-insert_flags letters c cmd.flags)
    ]
    | inr (short, n) ↦ elim (Option-cases (short_flags token)) [
      | inl m ↦ ground (arith, has_flag-insert_flag short c cmd.flags)
      | inr (letters, m) ↦
          ground (
            arith,
            has_flag-insert_flags letters c cmd.flags,
            has_flag-insert_flag short c cmd.flags,
          )
    ]
  ]

  holds-add_token :
      (token a : Text) (cmd : NormalizedCommand)
      → holds (add_token flag_map token cmd).args a
        ≡ (holds cmd.args a || gives_arg flag_map a token)
  unfolding add_token gives_arg
  holds-add_token token a cmd = ground (arith, holds-append_one cmd.args (ascii_lower token) a)

  has_flag-add_tokens :
      (tokens : List Text) (c : ℕ) (cmd : NormalizedCommand)
      → has_flag (add_tokens flag_map tokens cmd).flags c
        ≡ (has_flag cmd.flags c || any (gives_flag flag_map c) tokens)
  unfolding add_tokens
  has_flag-add_tokens [] c cmd = ground arith
  has_flag-add_tokens (t ∷ ts) c cmd =
      ground
        (arith, has_flag-add_tokens ts c (add_token flag_map t cmd), has_flag-add_token t c cmd)

  holds-add_tokens :
      (tokens : List Text) (a : Text) (cmd : NormalizedCommand)
      → holds (add_tokens flag_map tokens cmd).args a
        ≡ (holds cmd.args a || any (gives_arg flag_map a) tokens)
  unfolding add_tokens
  holds-add_tokens [] a cmd = ground arith
  holds-add_tokens (t ∷ ts) a cmd =
      ground (arith, holds-add_tokens ts a (add_token flag_map t cmd), holds-add_token t a cmd)

base-add_tokens :
    (flag_map : List (Text × ℕ)) (tokens : List Text) (cmd : NormalizedCommand)
    → (add_tokens flag_map tokens cmd).base ≡ cmd.base
unfolding add_tokens add_token
base-add_tokens flag_map [] cmd = refl
base-add_tokens flag_map (t ∷ ts) cmd =
    base-add_tokens flag_map ts (add_token flag_map t cmd) ∙ ground arith

-- What normalization makes of the tokens `base ∷ tokens`: the base in lower case; a flag is set
-- exactly when one of the tokens gives it, and an argument is there exactly when a token is it.
pub normalize_tokens_lem :
    (base : Text) (tokens : List Text) (c : ℕ) (a : Text)
    → let m = long_flag_map (ascii_lower base) in
      let cmd = normalize_tokens (base ∷ tokens) in
      (cmd.base ≡ ascii_lower base)
      × (has_flag cmd.flags c ≡ any (gives_flag m c) tokens)
      × (holds cmd.args a ≡ any (gives_arg m a) tokens)
unfolding normalize_tokens has_flag holds
normalize_tokens_lem base tokens c a =
    let m = long_flag_map (ascii_lower base) in
    let start = normalized (ascii_lower base) [] [] in
    (
      base-add_tokens m tokens start,
      has_flag-add_tokens m tokens c start,
      holds-add_tokens m tokens a start,
    )
