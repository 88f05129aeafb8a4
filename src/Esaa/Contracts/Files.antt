-- ===== src/Esaa/Contracts/Files.antt =====
-- Which files the contracts admit.
use zymi_core.Prelude.{
  ◌≡◌, ◌↔◌, refl, sym, ◌∙◌, inl, inr, Bool, true, false, ◌||◌, none, some, Option-cases, Bool-cases,
  List, [], ◌∷◌, ◌++◌, arith, Any, All, Any-All, Any-map, reverse, is_empty, Text, split_on,
}
use mathlib.Core.Option.{none-ne-some}
use zymi_core.Policy.ShellWrapper.{RegexCrate}
use zymi_core.Esaa.Paths.{is_abs, normalize_components, normalize_string, is_within}
use zymi_core.Esaa.Paths.Resolve.{resolve}
use zymi_core.Esaa.Paths.Within.{IsPinned, is_within-below, is_within-empty}
use zymi_core.Esaa.Intentions.{approved}
use zymi_core.Esaa.Contracts.{
  ContractEngine, basename, first_denial, denied_by_pattern, evaluate_file_read,
  evaluate_file_write, within_any,
}

-- Whether a regex matches the normalized path, or its last component.
abbrev pub matched : RegexCrate → Text → Text → Bool
matched rx path re =
    rx.is_match re (normalize_string path) || rx.is_match re (basename (normalize_string path))

abbrev pub IsMatched : RegexCrate → Text → Text → Type 0
IsMatched rx path re = matched rx path re ≡ true

abbrev pub IsUnmatched : RegexCrate → Text → Text → Type 0
IsUnmatched rx path re = matched rx path re ≡ false

abbrev pub Admits : Text → Text → Type 0
Admits path dir = is_within (normalize_components path) (normalize_components dir) ≡ true

within_any_iff :
    (path : Text) (dirs : List Text)
    → (within_any (normalize_components path) dirs ≡ true) ↔ Any (Admits path) dirs
unfolding within_any
within_any_iff path [] = ((λ h. cc), (λ h. elim h [ ]))
within_any_iff path (dir ∷ dirs) =
    elim (Bool-cases (is_within (normalize_components path) (normalize_components dir))) [
      | inl e ↦ ((λ h. inl e), (λ h. rw e refl))
      | inr e ↦ (
        (λ h. inr ((within_any_iff path dirs).0 (rw e at h))),
        λ h. rw e (elim h [ inl f ↦ cc | inr f ↦ (within_any_iff path dirs).1 f ]),
      )
    ]

first_denial-none :
    (rx : RegexCrate) (res : List Text) (path : Text)
    → (first_denial rx res (normalize_string path) (basename (normalize_string path)) ≡ none)
      ↔ All (IsUnmatched rx path) res
unfolding first_denial
first_denial-none rx [] path = ((λ h. tt), (λ h. refl))
first_denial-none rx (re ∷ res) path = elim (Bool-cases (matched rx path re)) [
  | inl e ↦ (rw e (λ h. cc), (λ (h, hs). cc))
  | inr e ↦ (
    rw e (λ h. (refl, (first_denial-none rx res path).0 h)),
    λ (h, hs). rw e ((first_denial-none rx res path).1 hs),
  )
]

pub first_denial-matched :
    (rx : RegexCrate) (res : List Text) (path : Text)
    → Any (IsMatched rx path) res
    → (reason : Text) × (first_denial rx res
          (normalize_string path)
          (basename (normalize_string path))
        ≡ some reason)
unfolding first_denial
first_denial-matched rx [] path h = elim h [ ]
first_denial-matched rx (re ∷ res) path (inl e) = (re, rw e refl)
first_denial-matched rx (re ∷ res) path (inr h) = elim (Bool-cases (matched rx path re)) [
  | inl e ↦ (re, rw e refl)
  | inr e ↦ rw e (first_denial-matched rx res path h)
]

denied_by_pattern-none :
    (rx : RegexCrate) (e : ContractEngine) (path : Text)
    → (denied_by_pattern rx e path ≡ none) ↔ All (IsUnmatched rx path) e.deny_regexes
unfolding denied_by_pattern
denied_by_pattern-none rx e path = first_denial-none rx e.deny_regexes path

-- A read is approved iff no deny regex matches the normalized path or its last component.
pub evaluate_file_read-approved :
    (rx : RegexCrate) (e : ContractEngine) (path : Text)
    → (evaluate_file_read rx e path ≡ approved) ↔ All (IsUnmatched rx path) e.deny_regexes
unfolding evaluate_file_read
evaluate_file_read-approved rx e path = elim (Option-cases (denied_by_pattern rx e path)) [
  | inl n ↦ ((λ h. (denied_by_pattern-none rx e path).0 n), (λ h. ground arith))
  | inr (reason, n) ↦ (
    (λ h. ground arith),
    λ h. let m = (denied_by_pattern-none rx e path).1 h in absurd (none-ne-some reason (sym m ∙ n)),
  )
]

within_any-dirs :
    (target : List Text) (dirs : List Text) → within_any target dirs ≡ true → is_empty dirs ≡ false
unfolding within_any is_empty
within_any-dirs target [] h = cc
within_any-dirs target (dir ∷ dirs) h = refl

-- A write is approved iff no deny regex matches the normalized path or its last component, and the
-- path is within one of the allowed directories.
pub evaluate_file_write-approved :
    (rx : RegexCrate) (e : ContractEngine) (path : Text)
    → (evaluate_file_write rx e path ≡ approved)
      ↔ (All (IsUnmatched rx path) e.deny_regexes × Any (Admits path) e.file_contract.allowed_dirs)
unfolding evaluate_file_write
evaluate_file_write-approved rx e path = elim (Option-cases (denied_by_pattern rx e path)) [
  | inl n ↦ (
    (λ h. ((denied_by_pattern-none rx e path).0 n, (within_any_iff path dirs).0 (ground arith))),
    λ (h, a).
        let w : within_any (normalize_components path) dirs ≡ true =
          (within_any_iff path dirs).1 a in
        let d = within_any-dirs (normalize_components path) dirs w in ground arith,
  )
  | inr (reason, n) ↦ (
    (λ h. ground arith),
    λ (h, a).
        let m = (denied_by_pattern-none rx e path).1 h in absurd (none-ne-some reason (sym m ∙ n)),
  )
]
  where
    dirs : List Text
    dirs = e.file_contract.allowed_dirs

-- Where the allowed directories are pinned down (each absolute, or ending in a name) and written
-- as absolute iff the path is, an approved write leads below one of them, from every working
-- directory, whatever `.` and `..` stand in the path. No symbolic link is followed.
pub evaluate_file_write-below :
    (rx : RegexCrate) (e : ContractEngine) (cwd : List Text) (path : Text)
    → All
        (λ dir.
          (is_abs path ≡ is_abs dir) × IsPinned (is_abs dir) (reverse (normalize_components dir)))
        e.file_contract.allowed_dirs
    → evaluate_file_write rx e path ≡ approved
    → Any
        (λ dir.
          (below : List Text) × (resolve cwd (is_abs path) (split_on b'/' [] path)
            ≡ below ++ resolve cwd (is_abs dir) (split_on b'/' [] dir)))
        e.file_contract.allowed_dirs
evaluate_file_write-below rx e cwd path pinned h =
    Any-All _ _ _ e.file_contract.allowed_dirs (λ dir w (k, p). is_within-below cwd path dir k p w)
      ((evaluate_file_write-approved rx e path).0 h).1 pinned

-- An allowed directory that normalizes to nothing, such as `./`, admits the write of every path
-- that no deny regex matches: absolute paths, and paths that lead out by `..`, too.
pub evaluate_file_write-everywhere :
    (rx : RegexCrate) (e : ContractEngine) (path : Text)
    → Any (λ dir. normalize_components dir ≡ []) e.file_contract.allowed_dirs
    → All (IsUnmatched rx path) e.deny_regexes
    → evaluate_file_write rx e path ≡ approved
evaluate_file_write-everywhere rx e path d u =
    (evaluate_file_write-approved rx e path).1
      (u, Any-map _ _ e.file_contract.allowed_dirs (is_within-empty path) d)
