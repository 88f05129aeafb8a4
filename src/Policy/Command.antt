-- ===== src/Policy/Command.antt =====
-- policy.rs, `normalize_command`: a simple command as its base name, its flags and its arguments.
pub mod Flags
use zymi_core.Prelude.{
  ℕ, suc, Bool, true, false, ◌&&◌, ◌||◌, Option, none, some, List, [], ◌∷◌, ◌++◌, map, ◌==◌, ltb,
  if◌then◌else◌, length, Text, codes, text_eq, is_whitespace, to_ascii_lowercase, is_empty,
  starts_with,
}
use zymi_core.Policy.Fragments.{holds}

-- `split_whitespace`, with the word that is being read.
push_word : Text → List Text → List Text
push_word [] words = words
push_word (c ∷ s) words = (c ∷ s) ∷ words

words_from : Text → Text → List Text
words_from word [] = push_word word []
words_from word (c ∷ s) =
    if is_whitespace c then push_word word (words_from [] s) else words_from (word ++ c ∷ []) s

unfoldable pub split_whitespace : Text → List Text
unfolding words_from push_word
split_whitespace s = words_from [] s

abbrev pub ascii_lower : Text → Text
ascii_lower = map to_ascii_lowercase

pub record NormalizedCommand : Type 0 where
  pub base : Text
  pub flags : List ℕ
  pub args : List Text

abbrev pub normalized : Text → List ℕ → List Text → NormalizedCommand
normalized base flags args = record { base = base; flags = flags; args = args }

-- `long_flag_map`.
unfoldable pub long_flag_map : Text → List (Text × ℕ)
long_flag_map base =
    if text_eq base (codes "rm")
    then (codes "--recursive", b'r') ∷ (codes "--force", b'f') ∷ []
    else if text_eq base (codes "chmod") || text_eq base (codes "chown")
    then (codes "--recursive", b'R') ∷ []
    else []

-- `flag_map.iter().find(|…| long.eq_ignore_ascii_case(token))`.
unfoldable pub find_long : List (Text × ℕ) → Text → Option ℕ
find_long [] token = none
find_long ((long, short) ∷ map') token =
    if text_eq (ascii_lower long) (ascii_lower token) then some short else find_long map' token

-- `flags.insert` for each character of a short flag.
unfoldable pub has_flag : List ℕ → ℕ → Bool
has_flag [] c = false
has_flag (d ∷ ds) c = d == c || has_flag ds c

unfoldable pub insert_flag : ℕ → List ℕ → List ℕ
insert_flag c flags = if has_flag flags c then flags else c ∷ flags

unfoldable pub insert_flags : Text → List ℕ → List ℕ
insert_flags [] flags = flags
insert_flags (c ∷ s) flags = insert_flags s (insert_flag (to_ascii_lowercase c) flags)

-- A token that begins with `-` and is longer than that.
unfoldable pub short_flags : Text → Option Text
short_flags [] = none
short_flags (c ∷ []) = none
short_flags (c ∷ d ∷ s) = if c == b'-' then some (d ∷ s) else none

-- One round of the loop over the tokens behind the first.
unfoldable pub add_token : List (Text × ℕ) → Text → NormalizedCommand → NormalizedCommand
add_token flag_map token cmd =
    if starts_with token (codes "--")
    then elim (find_long flag_map token) [
      | some short ↦ record cmd { flags = insert_flag short cmd.flags }
      | none ↦ record cmd { args = cmd.args ++ ascii_lower token ∷ [] }
    ]
    else elim (short_flags token) [
      | some letters ↦ record cmd { flags = insert_flags letters cmd.flags }
      | none ↦ record cmd { args = cmd.args ++ ascii_lower token ∷ [] }
    ]

unfoldable pub add_tokens : List (Text × ℕ) → List Text → NormalizedCommand → NormalizedCommand
add_tokens flag_map [] cmd = cmd
add_tokens flag_map (token ∷ tokens) cmd = add_tokens flag_map tokens (add_token flag_map token cmd)

unfoldable pub normalize_tokens : List Text → NormalizedCommand
normalize_tokens [] = normalized [] [] []
normalize_tokens (token ∷ tokens) =
    add_tokens (long_flag_map (ascii_lower token)) tokens (normalized (ascii_lower token) [] [])

unfoldable pub normalize_command : Text → NormalizedCommand
normalize_command command = normalize_tokens (split_whitespace command)
