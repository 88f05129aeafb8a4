-- ===== src/Policy/Docker/Mounts.antt =====
-- The search for bind mounts: it ends, it finds a sensitive host path, and it can panic.
use zymi_core.Prelude.{
  ℕ, zero, suc, ◌≤◌, ◌<◌, ◌≡◌, ◌≢◌, refl, sym, ap, ◌∙◌, subst, ◌⊎◌, inl, inr, true, false, none,
  some, Option-cases, Bool-cases, List, [], ◌∷◌, ◌++◌, ◌==◌, ltb, arith, length, Outcome-cases,
  Fault, done, fault, panic, out_of_fuel, Text, trim_start, is_empty, is_whitespace, strip_prefix,
  strip_prefix-append, length-strip_prefix,
}
use zymi_core.Policy.Subshell.Balance.{Lacks}
use zymi_core.Policy.Docker.{
  FlagKind, volume, after_first, next_byte, word_at, first_word, before, host_part, sources_in,
  flag_loop,
}

module _ (c : ℕ) (s p : Text) where
  after_first-found : {r : Text} → strip_prefix (c ∷ s) p ≡ some r → after_first (c ∷ s) p ≡ some r
  unfolding after_first
  after_first-found h = ground arith

  after_first-missed : strip_prefix (c ∷ s) p ≡ none → after_first (c ∷ s) p ≡ after_first s p
  unfolding after_first
  after_first-missed h = ground arith

-- The search for a flag whose first character is `q` passes over a text without `q`.
pub after_first-skip :
    (q : ℕ) (p s t : Text) → Lacks q s → after_first (s ++ ((q ∷ p) ++ t)) (q ∷ p) ≡ some t
unfolding strip_prefix
after_first-skip q p [] t h = after_first-found q (p ++ t) (q ∷ p) (strip_prefix-append (q ∷ p) t)
after_first-skip q p (c ∷ s) t (n, h) =
    after_first-missed c (s ++ ((q ∷ p) ++ t)) (q ∷ p) (ground arith) ∙ after_first-skip q p s t h

pub length-after_first : (s p : Text) {t : Text} → after_first s p ≡ some t → length t ≤ length s
unfolding after_first
length-after_first [] p h = length-strip_prefix [] p h
length-after_first (c ∷ s) p {t} h = elim (Option-cases (strip_prefix (c ∷ s) p)) [
  | inl n ↦ ground (arith, length-after_first s p {t = t})
  | inr (r, n) ↦ ground (arith, length-strip_prefix (c ∷ s) p n)
]

-- All characters are one byte wide.
abbrev pub IsAscii : Text → Type 0
IsAscii [] = Unit
IsAscii (c ∷ s) = (c < 128) × IsAscii s

IsAscii-strip_prefix : (s p : Text) {t : Text} → IsAscii s → strip_prefix s p ≡ some t → IsAscii t
unfolding strip_prefix
IsAscii-strip_prefix s [] {t} a h = let e : s ≡ t = cc in subst IsAscii e a
IsAscii-strip_prefix [] (c ∷ p) a h = cc
IsAscii-strip_prefix (d ∷ s) (c ∷ p) {t} a h = elim (Bool-cases (d == c)) [
  | inl e ↦ IsAscii-strip_prefix s p a.1 (rw e at h)
  | inr e ↦ ground arith
]

pub IsAscii-after_first : (s p : Text) {t : Text} → IsAscii s → after_first s p ≡ some t → IsAscii t
unfolding after_first
IsAscii-after_first [] p a h = IsAscii-strip_prefix [] p a h
IsAscii-after_first (c ∷ s) p {t} a h = elim (Option-cases (strip_prefix (c ∷ s) p)) [
  | inl n ↦ IsAscii-after_first s p a.1 (sym (after_first-missed c s p n) ∙ h)
  | inr (r, n) ↦ IsAscii-strip_prefix (c ∷ s) p a (n ∙ sym (after_first-found c s p n) ∙ h)
]

module _ (kind : FlagKind) (flag : Text) where
  -- Behind an occurrence with an argument, at an ASCII character.
  pub flag_loop-round :
      (fuel : ℕ) (s : Text) (c : ℕ) (rest : Text) {more : List Text}
      → after_first s flag ≡ some (c ∷ rest)
      → c < 128
      → flag_loop kind flag fuel rest ≡ done more
      → flag_loop kind flag (suc fuel) s
        ≡ done (sources_in kind (first_word (trim_start (c ∷ rest))) ++ more)
  unfolding flag_loop next_byte
  flag_loop-round fuel s c rest n a m =
      let one : ltb c 128 ≡ true = ground arith in rw (n, flag_loop, one, m)

  flag_loop-ended :
      (fuel : ℕ) (s : Text)
      → (after_first s flag ≡ none) ⊎ (after_first s flag ≡ some [])
      → flag_loop kind flag (suc fuel) s ≡ done []
  unfolding flag_loop
  flag_loop-ended fuel s h = ground arith

  -- On an ASCII text the loop over a flag returns.
  pub flag_loop-done :
      (fuel : ℕ) (s : Text)
      → IsAscii s
      → length s < fuel
      → (r : List Text) × (flag_loop kind flag fuel s ≡ done r)
  flag_loop-done zero s a h = absurd (omega arith)
  flag_loop-done (suc fuel) s a h = elim (Option-cases (after_first s flag)) [
    | inl n ↦ ([], flag_loop-ended fuel s (inl n))
    | inr ([], n) ↦ ([], flag_loop-ended fuel s (inr n))
    | inr (c ∷ rest, n) ↦
        let (b, bs) = IsAscii-after_first s flag a n in
        let (more, m) = flag_loop-done fuel rest bs (omega (arith, length-after_first s flag n)) in
        (
          sources_in kind (first_word (trim_start (c ∷ rest))) ++ more,
          flag_loop-round fuel s c rest n b m,
        )
  ]

  -- Behind an occurrence whose argument begins with a wider character the loop panics.
  pub flag_loop-panic :
      (fuel : ℕ) (s : Text) (c : ℕ) (rest : Text)
      → after_first s flag ≡ some (c ∷ rest)
      → 128 ≤ c
      → flag_loop kind flag (suc fuel) s ≡ fault panic
  unfolding flag_loop next_byte
  flag_loop-panic fuel s c rest n a =
      let wide : ltb c 128 ≡ false = ground arith in rw (n, flag_loop, wide)

  flag_loop-fault :
      (fuel : ℕ) (s : Text) (c : ℕ) (rest : Text) {x : Fault}
      → after_first s flag ≡ some (c ∷ rest)
      → c < 128
      → flag_loop kind flag fuel rest ≡ fault x
      → flag_loop kind flag (suc fuel) s ≡ fault x
  unfolding flag_loop next_byte
  flag_loop-fault fuel s c rest n a m =
      let one : ltb c 128 ≡ true = ground arith in rw (n, flag_loop, one, m)

  -- The loop never runs out of fuel.
  pub flag_loop-ends :
      (fuel : ℕ) (s : Text) → length s < fuel → flag_loop kind flag fuel s ≢ fault out_of_fuel
  flag_loop-ends zero s h = absurd (omega arith)
  flag_loop-ends (suc fuel) s h = elim (Option-cases (after_first s flag)) [
    | inl n ↦ rw (flag_loop-ended fuel s (inl n)) (λ e. cc)
    | inr ([], n) ↦ rw (flag_loop-ended fuel s (inr n)) (λ e. cc)
    | inr (c ∷ rest, n) ↦ elim (Bool-cases (ltb c 128)) [
      | inr wide ↦ rw (flag_loop-panic fuel s c rest n (ground arith)) (λ e. ground arith)
      | inl one ↦ elim (Outcome-cases (flag_loop kind flag fuel rest)) [
        | inl (more, m) ↦ rw (flag_loop-round fuel s c rest n (ground arith) m) (λ e. cc)
        | inr (x, m) ↦
            rw (flag_loop-fault fuel s c rest n (ground arith) m) (
              ground (arith, flag_loop-ends fuel rest (omega (arith, length-after_first s flag n))))
      ]
    ]
  ]

-- The characters of a host path on the command line.
abbrev pub IsHost : Text → Type 0
IsHost [] = Unit
IsHost (c ∷ s) = (is_whitespace c ≡ false) × (¬ (c ≡ b':')) × IsHost s

word_at-host :
    (host rest : Text) → IsHost host → word_at (host ++ b':' ∷ rest) ≡ host ++ b':' ∷ word_at rest
unfolding word_at is_whitespace
word_at-host [] rest h = refl
word_at-host (c ∷ host) rest (w, n, h) = rw w (ap (◌∷◌ c) (word_at-host host rest h))

before-host : (host rest : Text) → IsHost host → before b':' (host ++ b':' ∷ rest) ≡ some host
unfolding before
before-host [] rest h = refl
before-host (c ∷ host) rest (w, n, h) = ground (arith, before-host host rest h)

trim_start-host : (c : ℕ) (s : Text) → is_whitespace c ≡ false → trim_start (c ∷ s) ≡ c ∷ s
unfolding trim_start
trim_start-host c s h = rw h

-- The host of a `-v` argument is the source that is read from it.
pub sources-host :
    (c : ℕ) (host rest : Text)
    → IsHost (c ∷ host)
    → sources_in volume (first_word (trim_start ((c ∷ host) ++ b':' ∷ rest))) ≡ (c ∷ host) ∷ []
unfolding sources_in first_word host_part is_empty
sources-host c host rest h = rw (
  trim_start-host c (host ++ b':' ∷ rest) h.0,
  trim_start-host c (host ++ b':' ∷ rest) h.0,
  word_at-host (c ∷ host) rest h,
  before-host (c ∷ host) (word_at rest) h,
  host_part,
)
