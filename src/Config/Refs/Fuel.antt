-- ===== src/Config/Refs/Fuel.antt =====
-- config/validate.rs and config/when_expr.rs: the scan for references has rounds enough.
use zymi_core.Prelude.{
  ℕ, zero, suc, ◌≤◌, ◌<◌, ◌≡◌, refl, ap, Option, none, some, List, [], ◌∷◌, ◌==◌, inl, inr,
  Bool-cases, Option-cases, length, Text, strip_prefix, length-strip_prefix, arith,
}
use zymi_core.Config.Refs.{split_at, open_ref, push_ref, extract_from}

after_length : Option (Text × Text) → ℕ
after_length none = 0
after_length (some (before, after)) = length after

split_at-length :
    (q : ℕ) (s before after : Text) → split_at q s ≡ some (before, after) → length after < length s
unfolding split_at after_length
split_at-length q [] before after h = cc
split_at-length q (c ∷ s) before after h = elim (Bool-cases (c == q)) [
  | inl e ↦ omega (arith, ap after_length (rw e at h))
  | inr e ↦ elim (Option-cases (split_at q s)) [
    | inl n ↦ let found = rw (e, n) at h in cc
    | inr ((x, y), f) ↦ omega (arith, split_at-length q s x y f, ap after_length (rw (e, f) at h))
  ]
]

-- With any number of rounds that is not less than the length, the scan finds the same.
pub extract_from-enough :
    (f g : ℕ) (s : Text) (out : List Text)
    → length s ≤ f
    → length s ≤ g
    → extract_from f s out ≡ extract_from g s out
unfolding extract_from
extract_from-enough zero zero [] out h k = refl
extract_from-enough zero (suc g) [] out h k = refl
extract_from-enough (suc f) zero [] out h k = refl
extract_from-enough (suc f) (suc g) [] out h k = refl
extract_from-enough zero g (c ∷ s) out h k = absurd (omega arith)
extract_from-enough (suc f) zero (c ∷ s) out h k = absurd (omega arith)
extract_from-enough (suc f) (suc g) (c ∷ s) out h k =
    let next = extract_from-enough f g s out (omega arith) (omega arith) in
    elim (Option-cases (strip_prefix (c ∷ s) open_ref)) [
      | inl n ↦ rw (extract_from, n) next
      | inr (rest, e) ↦ elim (Option-cases (split_at b'}' rest)) [
        | inl n ↦ rw (extract_from, e, n) next
        | inr ((inner, after), m) ↦
            rw (extract_from, e, m)
              (extract_from-enough f g after (push_ref inner out)
                (omega (
                  arith,
                  length-strip_prefix (c ∷ s) open_ref e,
                  split_at-length b'}' rest inner after m,
                ))
                (omega (
                  arith,
                  length-strip_prefix (c ∷ s) open_ref e,
                  split_at-length b'}' rest inner after m,
                )))
      ]
    ]
