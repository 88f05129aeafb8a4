-- ===== src/Policy/Docker/Paths.antt =====
-- Which paths `is_sensitive_path` refuses.
use zymi_core.Prelude.{
  ◌≡◌, ◌∙◌, ◌⊎◌, inl, inr, ◌↔◌, true, false, some, Option-cases, Bool-cases, List, [], ◌∷◌, ◌++◌,
  arith, Text, codes, text_eq, text_eq_iff, strip_prefix, strip_prefix-append, strip_prefix→,
}
use zymi_core.Policy.Docker.{lies_under, lies_under_any, is_sensitive_path, sensitive_mount_sources}

-- The directory itself, or a path below it.
abbrev pub Under : Text → Text → Type 0
Under path dir = (path ≡ dir) ⊎ ((rest : Text) × (path ≡ dir ++ b'/' ∷ rest))

abbrev pub UnderAny : Text → List Text → Type 0
UnderAny path [] = ⊥
UnderAny path (dir ∷ dirs) = Under path dir ⊎ UnderAny path dirs

lies_under→ : (path dir : Text) → lies_under path dir ≡ true → Under path dir
unfolding lies_under
lies_under→ path dir h = elim (Bool-cases (text_eq path dir)) [
  | inl e ↦ inl ((text_eq_iff path dir).0 e)
  | inr e ↦ elim (Option-cases (strip_prefix path dir)) [
    | inl n ↦ ground arith
    | inr (rest, q) ↦ below rest q h e
  ]
]
  where
    below :
        (rest : Text)
        → strip_prefix path dir ≡ some rest
        → lies_under path dir ≡ true
        → text_eq path dir ≡ false
        → Under path dir
    below [] q h e = ground arith
    below (c ∷ rest) q h e = inr (rest, strip_prefix→ path dir q ∙ ground arith)

lies_under← : (path dir : Text) → Under path dir → lies_under path dir ≡ true
unfolding lies_under
lies_under← path dir (inl e) = rw ((text_eq_iff path dir).1 e)
lies_under← path dir (inr (rest, e)) = rw (e, strip_prefix-append dir (b'/' ∷ rest)) (ground arith)

lies_under_any_iff :
    (path : Text) (dirs : List Text) → (lies_under_any path dirs ≡ true) ↔ UnderAny path dirs
unfolding lies_under_any
lies_under_any_iff path [] = (λ h. cc, λ h. absurd h)
lies_under_any_iff path (dir ∷ dirs) = (
  ground (arith, lies_under→ path dir, lies_under_any_iff path dirs),
  λ h. ground (arith, lies_under← path dir, lies_under_any_iff path dirs),
)

-- A path is refused exactly when it is the root, or one of the listed host paths, or lies below
-- one of them.
pub is_sensitive_path_iff :
    (path : Text)
    → (is_sensitive_path path ≡ true) ↔ ((path ≡ codes "/") ⊎ UnderAny path sensitive_mount_sources)
unfolding is_sensitive_path
is_sensitive_path_iff path = (
  λ h. elim (Bool-cases (text_eq path (codes "/"))) [
    | inl e ↦ inl ((text_eq_iff path (codes "/")).0 e)
    | inr e ↦ inr ((lies_under_any_iff path sensitive_mount_sources).0 (rw e at h))
  ],
  ground (arith, text_eq_iff path (codes "/"), lies_under_any_iff path sensitive_mount_sources),
)
