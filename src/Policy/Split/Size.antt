-- ===== src/Policy/Split/Size.antt =====
-- The fragments of a command are not blank, and together no longer than the command.
use zymi_core.Prelude.{
  ℕ, suc, ◌+◌, ◌≤◌, ◌≡◌, List, [], ◌∷◌, ◌++◌, arith, Bool-cases, inl, inr, length, length-append,
  Text, trim, trim_start, trim_end, push_kept,
}
use zymi_core.Policy.Split.{
  ParseState, normal, single_quote, double_quote, escape, double_quote_escape, paren, advance,
  push_fragment, skips, split_loop, split_compound_commands,
}

abbrev pub total : List Text → ℕ
total [] = 0
total (s ∷ ss) = length s + total ss

pub total-append : (xs ys : List Text) → total (xs ++ ys) ≡ total xs + total ys
total-append [] ys = omega arith
total-append (x ∷ xs) ys = omega (arith, total-append xs ys)

length-trim_start : (s : Text) → length (trim_start s) ≤ length s
unfolding trim_start
length-trim_start [] = omega arith
length-trim_start (c ∷ s) = ground (arith, length-trim_start s)

length-push_kept : (c : ℕ) (s : Text) → length (push_kept c s) ≤ suc (length s)
unfolding push_kept
length-push_kept c [] = ground arith
length-push_kept c (d ∷ s) = omega arith

length-trim_end : (s : Text) → length (trim_end s) ≤ length s
unfolding trim_end
length-trim_end [] = omega arith
length-trim_end (c ∷ s) = omega (arith, length-push_kept c (trim_end s), length-trim_end s)

pub length-trim : (s : Text) → length (trim s) ≤ length s
unfolding trim
length-trim s = omega (arith, length-trim_end (trim_start s), length-trim_start s)

total-push_fragment : (fs : List Text) (s : Text) → total (push_fragment fs s) ≤ total fs + length s
unfolding push_fragment
total-push_fragment fs s = ground (arith, length-trim s, total-append fs (trim s ∷ []))

size-advance :
    (st : ParseState) (c : ℕ) (cur : Text) (fs : List Text)
    → total (advance st c cur fs).fragments + length (advance st c cur fs).current
      ≤ total fs + length cur + 1
unfolding advance
size-advance normal c cur fs =
    ground (arith, total-push_fragment fs cur, length-append cur (c ∷ []))
size-advance single_quote c cur fs = omega (arith, length-append cur (c ∷ []))
size-advance double_quote c cur fs = omega (arith, length-append cur (c ∷ []))
size-advance escape c cur fs = omega (arith, length-append cur (c ∷ []))
size-advance double_quote_escape c cur fs = omega (arith, length-append cur (c ∷ []))
size-advance (paren depth) c cur fs = omega (arith, length-append cur (c ∷ []))

total-split_loop :
    (st : ParseState) (s cur : Text) (fs : List Text)
    → total (split_loop st s cur fs) ≤ total fs + length cur + length s
unfolding split_loop
total-split_loop st [] cur fs = omega (arith, total-push_fragment fs cur)
total-split_loop st (c ∷ []) cur fs =
    let next = advance st c cur fs in
    omega (arith, total-push_fragment next.fragments next.current, size-advance st c cur fs)
total-split_loop st (c ∷ d ∷ s) cur fs =
    let next = advance st c cur fs in
    let both = total-split_loop next.state s next.current next.fragments in
    let one = total-split_loop next.state (d ∷ s) next.current next.fragments in
    elim (Bool-cases (skips st c d)) [
      | inl e ↦ rw e (omega (arith, both, size-advance st c cur fs))
      | inr e ↦ rw e (omega (arith, one, size-advance st c cur fs))
    ]

pub total-split_compound_commands :
    (command : Text) → total (split_compound_commands command) ≤ length command
unfolding split_compound_commands
total-split_compound_commands command = omega (arith, total-split_loop normal command [] [])
