-- ===== src/Policy/ShellWrapper/Panic.antt =====
-- When `extract_shell_c_arg` panics, and what it returns otherwise.
use zymi_core.Prelude.{
  ℕ, ◌≤◌, ◌<◌, ◌≡◌, ◌≢◌, refl, ◌⊎◌, ◌↔◌, Option, none, some, [], ◌∷◌, arith, length, Outcome, done,
  fault, panic, out_of_fuel, ◌>>=◌, Text, trim,
}
use zymi_core.Policy.Split.{apostrophe, quotation}
use zymi_core.Policy.Split.Size.{length-trim}
use zymi_core.Policy.ShellWrapper.{
  RegexCrate, shell_c_regex, first_is, last_is, without_last, inner_slice, is_wrapped, strip_quotes,
  some_text, extract_shell_c_arg,
}

-- A lone quotation mark or apostrophe.
abbrev pub IsLoneQuote : Text → Type 0
IsLoneQuote s = (s ≡ quotation ∷ []) ⊎ (s ≡ apostrophe ∷ [])

strip_quotes-panic : (s : Text) → (strip_quotes s ≡ fault panic) ↔ IsLoneQuote s
unfolding strip_quotes is_wrapped first_is last_is inner_slice
strip_quotes-panic [] = (λ h. cc, λ h. ground arith)
strip_quotes-panic (c ∷ []) = (λ h. ground arith, λ h. ground arith)
strip_quotes-panic (c ∷ d ∷ s) = (λ h. ground arith, λ h. ground arith)

some_text-bind-panic :
    (m : Outcome Text) → ((do s ← m; done (some_text s)) ≡ fault panic) ↔ (m ≡ fault panic)
some_text-bind-panic (done s) = (λ h. cc, λ h. cc)
some_text-bind-panic (fault e) = (λ h. ground arith, λ h. ground arith)

-- `extract_shell_c_arg` panics exactly when the regex captures a group that is, when trimmed, a
-- lone quotation mark or apostrophe.
pub extract_shell_c_arg-panic :
    (rx : RegexCrate) (command : Text)
    → (extract_shell_c_arg rx command ≡ fault panic) ↔ (
        (group : Text) × (rx.captures shell_c_regex command ≡ some (some group))
        × IsLoneQuote (trim group))
unfolding extract_shell_c_arg
extract_shell_c_arg-panic rx command = by_capture (rx.captures shell_c_regex command) refl
  where
    by_capture :
        (r : Option (Option Text))
        → rx.captures shell_c_regex command ≡ r
        → (extract_shell_c_arg rx command ≡ fault panic) ↔ (
            (group : Text) × (rx.captures shell_c_regex command ≡ some (some group))
            × IsLoneQuote (trim group))
    by_capture none e = (λ h. ground arith, λ h. ground arith)
    by_capture (some none) e = (λ h. ground arith, λ h. ground arith)
    by_capture (some (some g)) e = (
      λ h. (
        g,
        e,
        (strip_quotes-panic (trim g)).0
            ((some_text-bind-panic _).0 (rw (e, extract_shell_c_arg) at h)),
      ),
      λ h.
          rw (h.1, extract_shell_c_arg)
            ((some_text-bind-panic _).1 ((strip_quotes-panic (trim h.0)).1 h.2)),
    )

length-without_last : (c : ℕ) (s : Text) → length (without_last (c ∷ s)) ≤ length s
unfolding without_last
length-without_last c [] = omega arith
length-without_last c (d ∷ s) = omega (arith, length-without_last d s)

-- What the wrapped command's argument may be: not longer than the group it comes from.
strip_quotes-length : (s : Text) {t : Text} → strip_quotes s ≡ done t → length t ≤ length s
unfolding strip_quotes inner_slice
strip_quotes-length [] h = ground arith
strip_quotes-length (c ∷ []) h = ground arith
strip_quotes-length (c ∷ d ∷ s) h = ground (arith, length-without_last d s)

-- The crate's promise on captures that the loop of `collect_all_fragments` relies on: the group
-- `(.+)` of `SHELL_C_REGEX` is a part of the text that leaves out the shell's name before it.
pub record CapturesPart (rx : RegexCrate) : Type 0 where
  pub shorter : (s g : Text) → rx.captures shell_c_regex s ≡ some (some g) → length g < length s

pub extract_shell_c_arg-length :
    (rx : RegexCrate) (command : Text) {arg : Text}
    → CapturesPart rx
    → extract_shell_c_arg rx command ≡ done (some arg)
    → length arg < length command
unfolding extract_shell_c_arg
extract_shell_c_arg-length rx command {arg} part h =
    by_capture (rx.captures shell_c_regex command) refl
  where
    by_group :
        (g : Text) (m : Outcome Text)
        → strip_quotes (trim g) ≡ m
        → (do s ← m; done (some_text s)) ≡ done (some arg)
        → length arg ≤ length g
    by_group g (done t) e k = ground (arith, strip_quotes-length (trim g) e, length-trim g)
    by_group g (fault x) e k = cc

    by_capture :
        (r : Option (Option Text))
        → rx.captures shell_c_regex command ≡ r
        → length arg < length command
    by_capture none e = ground arith
    by_capture (some none) e = ground arith
    by_capture (some (some g)) e = omega (
      arith,
      part.shorter command g e,
      by_group g (strip_quotes (trim g)) refl (rw (e, extract_shell_c_arg) at h),
    )

strip_quotes-ne-out_of_fuel : (s : Text) → strip_quotes s ≢ fault out_of_fuel
unfolding strip_quotes inner_slice
strip_quotes-ne-out_of_fuel [] = λ h. ground arith
strip_quotes-ne-out_of_fuel (c ∷ []) = λ h. ground arith
strip_quotes-ne-out_of_fuel (c ∷ d ∷ s) = λ h. ground arith

some_text-bind-ne-out_of_fuel :
    (m : Outcome Text) → m ≢ fault out_of_fuel → (do s ← m; done (some_text s)) ≢ fault out_of_fuel
some_text-bind-ne-out_of_fuel (done s) n = λ h. cc
some_text-bind-ne-out_of_fuel (fault e) n = λ h. n (ground arith)

pub extract_shell_c_arg-ne-out_of_fuel :
    (rx : RegexCrate) (command : Text) → extract_shell_c_arg rx command ≢ fault out_of_fuel
unfolding extract_shell_c_arg
extract_shell_c_arg-ne-out_of_fuel rx command = by_capture (rx.captures shell_c_regex command) refl
  where
    by_capture :
        (r : Option (Option Text))
        → rx.captures shell_c_regex command ≡ r
        → extract_shell_c_arg rx command ≢ fault out_of_fuel
    by_capture none e = λ h. ground arith
    by_capture (some none) e = λ h. ground arith
    by_capture (some (some g)) e =
        rw (e, extract_shell_c_arg)
          (some_text-bind-ne-out_of_fuel (strip_quotes (trim g))
            (strip_quotes-ne-out_of_fuel (trim g)))
