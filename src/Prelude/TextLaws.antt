-- ===== src/Prelude/TextLaws.antt =====
-- What the searches of `Prelude/Texts` mean, by decompositions of the text.
use Prim.Native.Nat.{◌≤◌}
use mathlib.Core.Path.{◌≡◌, refl, ap₂}
use mathlib.Core.Logic.{inl, inr}
use mathlib.Core.Bool.{true}
use mathlib.Core.List.{[], ◌∷◌, ◌++◌}
use mathlib.Core.Option.{some}
use native.Mathlib.Omega.{arith}
use zymi_core.Prelude.Tests.{◌==◌, Bool-cases}
use zymi_core.Prelude.Lists.{length}
use zymi_core.Prelude.Texts.{Text, strip_prefix, starts_with, contains}

pub strip_prefix-append : (p t : Text) → strip_prefix (p ++ t) p ≡ some t
unfolding strip_prefix
strip_prefix-append [] t = refl
strip_prefix-append (c ∷ p) t = ground (arith, strip_prefix-append p t)

pub strip_prefix→ : (s p : Text) {t : Text} → strip_prefix s p ≡ some t → s ≡ p ++ t
unfolding strip_prefix
strip_prefix→ s [] h = ground arith
strip_prefix→ [] (c ∷ p) h = cc
strip_prefix→ (d ∷ s) (c ∷ p) {t} h = elim (Bool-cases (d == c)) [
  | inl e ↦ ap₂ ◌∷◌ (ground arith) (strip_prefix→ s p (rw e at h))
  | inr e ↦ ground arith
]

pub length-strip_prefix : (s p : Text) {t : Text} → strip_prefix s p ≡ some t → length t ≤ length s
unfolding strip_prefix
length-strip_prefix s [] h = ground arith
length-strip_prefix [] (c ∷ p) h = cc
length-strip_prefix (d ∷ s) (c ∷ p) {t} h = ground (arith, length-strip_prefix s p {t = t})

pub contains-append : (s p t : Text) → contains (s ++ (p ++ t)) p ≡ true
unfolding contains starts_with
contains-append [] [] [] = refl
contains-append [] [] (d ∷ t) = refl
contains-append [] (c ∷ p) t = ground (arith, strip_prefix-append (c ∷ p) t)
contains-append (c ∷ s) p t = ground (arith, contains-append s p t)
