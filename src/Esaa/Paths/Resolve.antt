-- ===== src/Esaa/Paths/Resolve.antt =====
-- Normalization keeps what a path denotes, from every working directory.
use zymi_core.Prelude.{
  ◌≡◌, refl, ap, ◌∙◌, inl, inr, Bool, true, false, List, [], ◌∷◌, ◌++◌, reverse, starts_with,
  if◌then◌else◌, Bool-cases, Text, codes, text_eq, split_on,
}
use mathlib.Core.List.{reverse-cons}
use zymi_core.Esaa.Paths.{
  is_dot, is_dots, ascend, add_component, add_components, is_abs, normalize_components,
}

-- A place in the file system: the names from it up to the root, with no symbolic links. The root
-- is its own parent.
abbrev pub parent : List Text → List Text
parent [] = []
parent (name ∷ place) = place

abbrev pub enter : List Text → Text → List Text
enter place comp =
    if is_dot comp then place else if is_dots comp then parent place else comp ∷ place

abbrev pub walk : List Text → List Text → List Text
walk place [] = place
walk place (comp ∷ comps) = walk (enter place comp) comps

-- Where a path with these components leads, from the directory `cwd` if it is relative.
abbrev pub resolve : List Text → Bool → List Text → List Text
resolve cwd is_abs comps = walk (if is_abs then [] else cwd) comps

-- The components kept so far name something, and are no `..` in an absolute path.
abbrev pub IsKept : Bool → List Text → Type 0
IsKept is_abs [] = Unit
IsKept is_abs (t ∷ out) =
    (is_dot t ≡ false) × (is_abs ≡ true → is_dots t ≡ false) × IsKept is_abs out

-- Where `out`, with its end first, leads.
unfoldable pub lead : List Text → List Text → List Text
lead start [] = start
lead start (t ∷ out) = enter (lead start out) t

ascend-IsKept : (abs : Bool) (out : List Text) → IsKept abs out → IsKept abs (ascend abs out)
unfolding ascend text_eq
ascend-IsKept true [] k = tt
ascend-IsKept false [] k = (refl, (λ e. cc), tt)
ascend-IsKept true (t ∷ out) k = let (a, b, c) = k in rw (b refl) c
ascend-IsKept false (t ∷ out) k = elim (Bool-cases (is_dots t)) [
  | inl e ↦ rw e (refl, (λ f. cc), k)
  | inr e ↦ let (a, b, c) = k in rw e c
]

lead-ascend :
    (abs : Bool) (start out : List Text)
    → (abs ≡ true → start ≡ [])
    → IsKept abs out
    → lead start (ascend abs out) ≡ parent (lead start out)
unfolding ascend lead text_eq
lead-ascend true start [] s k = rw (s refl) refl
lead-ascend false start [] s k = refl
lead-ascend true start (t ∷ out) s k = let (a, b, c) = k in rw (b refl) (rw a refl)
lead-ascend false start (t ∷ out) s k = elim (Bool-cases (is_dots t)) [
  | inl e ↦ ap (λ b. lead start (if b then codes ".." ∷ t ∷ out else out)) e
  | inr e ↦ let (a, b, c) = k in rw e (rw a refl)
]

pub add_component-IsKept :
    (abs : Bool) (comp : Text) (out : List Text)
    → IsKept abs out
    → IsKept abs (add_component abs comp out)
unfolding add_component
add_component-IsKept abs comp out k = elim (Bool-cases (is_dot comp)) [
  | inl e ↦ rw e k
  | inr e ↦ elim (Bool-cases (is_dots comp)) [
    | inl d ↦ rw (e, d) (ascend-IsKept abs out k)
    | inr d ↦ rw (e, d) (e, (λ _. d), k)
  ]
]

lead-add_component :
    (abs : Bool) (start : List Text) (comp : Text) (out : List Text)
    → (abs ≡ true → start ≡ [])
    → IsKept abs out
    → lead start (add_component abs comp out) ≡ enter (lead start out) comp
unfolding add_component lead
lead-add_component abs start comp out s k = elim (Bool-cases (is_dot comp)) [
  | inl e ↦ rw e refl
  | inr e ↦ elim (Bool-cases (is_dots comp)) [
    | inl d ↦ rw (e, d) (lead-ascend abs start out s k)
    | inr d ↦ rw (e, d) (rw (e, d) refl)
  ]
]

lead-add_components :
    (abs : Bool) (start comps out : List Text)
    → (abs ≡ true → start ≡ [])
    → IsKept abs out
    → lead start (add_components abs comps out) ≡ walk (lead start out) comps
unfolding add_components
lead-add_components abs start [] out s k = refl
lead-add_components abs start (comp ∷ comps) out s k =
    lead-add_components abs start comps (add_component abs comp out) s
      (add_component-IsKept abs comp out k)
    ∙ ap (λ p. walk p comps) (lead-add_component abs start comp out s k)

-- The vector that `normalize_components` returns, its end first.
unfoldable pub kept : Text → List Text
unfolding starts_with
kept path = add_components (is_abs path) (split_on b'/' [] path) []

pub lead-kept :
    (cwd : List Text) (path : Text)
    → lead (if is_abs path then [] else cwd) (kept path)
      ≡ resolve cwd (is_abs path) (split_on b'/' [] path)
unfolding kept starts_with lead
lead-kept cwd path =
    lead-add_components (is_abs path) (if is_abs path then [] else cwd) (split_on b'/' [] path) []
      (λ e. rw e refl) tt

walk-append : (place xs ys : List Text) → walk place (xs ++ ys) ≡ walk (walk place xs) ys
walk-append place [] ys = refl
walk-append place (x ∷ xs) ys = walk-append (enter place x) xs ys

walk-reverse : (start out : List Text) → walk start (reverse out) ≡ lead start out
unfolding lead
walk-reverse start [] = refl
walk-reverse start (t ∷ out) =
    ap (walk start) (reverse-cons t out)
    ∙ walk-append start (reverse out) (t ∷ [])
    ∙ ap (λ p. enter p t) (walk-reverse start out)

-- From every working directory the normalized components of a path lead where its components,
-- `.` and `..` included, lead: the root if the path is absolute. No symbolic link is followed.
pub normalize_components_lem :
    (cwd : List Text) (path : Text)
    → resolve cwd (is_abs path) (normalize_components path)
      ≡ resolve cwd (is_abs path) (split_on b'/' [] path)
unfolding normalize_components starts_with kept
normalize_components_lem cwd path =
    walk-reverse (if is_abs path then [] else cwd) (kept path) ∙ lead-kept cwd path
