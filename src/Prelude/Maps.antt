-- ===== src/Prelude/Maps.antt =====
-- A `HashMap` from texts, as the list of its entries: an entry that is inserted takes the place of
-- the one of its key, or comes last.
use mathlib.Core.Path.{◌≡◌, refl, sym, ap, ◌∙◌}
use mathlib.Core.Logic.{inl, inr}
use mathlib.Core.List.{List, [], ◌∷◌}
use mathlib.Core.Option.{Option, none, some, none-ne-some}
use zymi_core.Prelude.Tests.{if◌then◌else◌, Bool-cases}
use zymi_core.Prelude.Quantifiers.{All}
use zymi_core.Prelude.Texts.{Text, text_eq, text_eq_iff}

module _ {ℓ} {A : Type ℓ} where
  unfoldable pub lookup : Text → List (Text × A) → Option A
  lookup key [] = none
  lookup key ((k, a) ∷ m) = if text_eq key k then some a else lookup key m

  unfoldable pub insert_entry : Text → A → List (Text × A) → List (Text × A)
  insert_entry key a [] = (key, a) ∷ []
  insert_entry key a ((k, b) ∷ m) =
      if text_eq key k then (k, a) ∷ m else (k, b) ∷ insert_entry key a m

  unfoldable pub remove_entry : Text → List (Text × A) → List (Text × A)
  remove_entry key [] = []
  remove_entry key ((k, b) ∷ m) =
      if text_eq key k then remove_entry key m else (k, b) ∷ remove_entry key m

  pub lookup-insert_entry :
      (v key : Text) (a : A) (m : List (Text × A))
      → lookup v (insert_entry key a m) ≡ (if text_eq v key then some a else lookup v m)
  unfolding lookup insert_entry
  lookup-insert_entry v key a [] = refl
  lookup-insert_entry v key a ((k, b) ∷ m) = elim (Bool-cases (text_eq key k)) [
    | inl e ↦
        rw (e, (text_eq_iff key k).0 e)
          (elim (Bool-cases (text_eq v k)) [ inl f ↦ rw f refl | inr f ↦ rw f refl ])
    | inr e ↦
        rw (e, lookup-insert_entry v key a m)
          (elim (Bool-cases (text_eq v key)) [
            | inl f ↦ rw (f, (text_eq_iff v key).0 f, e) refl
            | inr f ↦ rw f refl
          ])
  ]

  pub lookup-remove_entry :
      (v key : Text) (m : List (Text × A))
      → lookup v (remove_entry key m) ≡ (if text_eq v key then none else lookup v m)
  unfolding lookup remove_entry
  lookup-remove_entry v key [] = elim (Bool-cases (text_eq v key)) [
    | inl f ↦ rw f refl
    | inr f ↦ rw f refl
  ]
  lookup-remove_entry v key ((k, b) ∷ m) = elim (Bool-cases (text_eq key k)) [
    | inl e ↦
        rw (e, lookup-remove_entry v key m, (text_eq_iff key k).0 e)
          (elim (Bool-cases (text_eq v k)) [ inl f ↦ rw f refl | inr f ↦ rw f refl ])
    | inr e ↦
        rw (e, lookup-remove_entry v key m)
          (elim (Bool-cases (text_eq v key)) [
            | inl f ↦ rw (f, (text_eq_iff v key).0 f, e) refl
            | inr f ↦ rw f refl
          ])
  ]

  -- No key stands twice.
  abbrev pub Distinct : List (Text × A) → Type ℓ
  Distinct [] = Unit
  Distinct ((k, a) ∷ m) = (lookup k m ≡ none) × Distinct m

  pub insert_entry-Distinct :
      (key : Text) (a : A) (m : List (Text × A)) → Distinct m → Distinct (insert_entry key a m)
  unfolding lookup insert_entry
  insert_entry-Distinct key a [] d = (refl, tt)
  insert_entry-Distinct key a ((k, b) ∷ m) (n, d) = elim (Bool-cases (text_eq key k)) [
    | inl e ↦ rw e (n, d)
    | inr e ↦ rw e (
      (elim (Bool-cases (text_eq k key)) [
        | inl f ↦ let g = (text_eq_iff key k).1 (sym ((text_eq_iff k key).0 f)) in cc
        | inr f ↦ rw (lookup-insert_entry k key a m, f) n
      ]),
      insert_entry-Distinct key a m d,
    )
  ]

  -- A property of what the keys lead to is one of all entries.
  pub Distinct-All :
      (P : A → Type 0) (m : List (Text × A))
      → Distinct m
      → ((v : Text) (a : A) → lookup v m ≡ some a → P a)
      → All (λ p. P (p.1)) m
  unfolding lookup
  Distinct-All P [] d f = tt
  Distinct-All P ((k, a) ∷ m) (n, d) f = (
    f k a (rw ((text_eq_iff k k).1 refl) refl),
    Distinct-All P m d λ v b e. f v b (elim (Bool-cases (text_eq v k)) [
      | inl g ↦
          let same = (text_eq_iff v k).0 g in
          absurd (none-ne-some b (sym n ∙ ap (λ w. lookup w m) (sym same) ∙ e))
      | inr g ↦ rw g e
    ]),
  )
