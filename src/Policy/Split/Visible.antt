-- ===== src/Policy/Split/Visible.antt =====
-- No part of a command escapes the split.
use zymi_core.Prelude.{
  ℕ, ◌≡◌, refl, sym, ap, ◌∙◌, Bool, true, ◌||◌, List, [], ◌∷◌, ◌++◌, append_assoc, append-nil, ◌==◌,
  if◌then◌else◌, arith, Bool-cases, inl, inr, Text, trim, trim_start, trim_end, push_kept,
  is_whitespace, is_empty,
}
use zymi_core.Policy.Split.{
  ParseState, normal, single_quote, double_quote, escape, double_quote_escape, paren, Scan, advance,
  push_fragment, skips, split_loop, split_compound_commands,
}

-- Blanks and the characters of the operators.
abbrev pub drops : ℕ → Bool
drops c = is_whitespace c || c == b';' || c == b'&' || c == b'|'

abbrev pub visible : Text → Text
visible [] = []
visible (c ∷ s) = if drops c then visible s else c ∷ visible s

abbrev pub concat : List Text → Text
concat [] = []
concat (s ∷ ss) = s ++ concat ss

pub visible-append : (s t : Text) → visible (s ++ t) ≡ visible s ++ visible t
visible-append [] t = refl
visible-append (c ∷ s) t = ground (arith, visible-append s t)

pub concat-append : (xs ys : List Text) → concat (xs ++ ys) ≡ concat xs ++ concat ys
concat-append [] ys = refl
concat-append (x ∷ xs) ys = rw (concat-append xs ys, append_assoc)

visible-trim_start : (s : Text) → visible (trim_start s) ≡ visible s
unfolding trim_start
visible-trim_start [] = refl
visible-trim_start (c ∷ s) = ground (arith, visible-trim_start s)

visible-push_kept : (c : ℕ) (s : Text) → visible (push_kept c s) ≡ visible (c ∷ s)
unfolding push_kept
visible-push_kept c [] = ground arith
visible-push_kept c (d ∷ s) = refl

visible-trim_end : (s : Text) → visible (trim_end s) ≡ visible s
unfolding trim_end
visible-trim_end [] = refl
visible-trim_end (c ∷ s) = visible-push_kept c (trim_end s) ∙ ground (arith, visible-trim_end s)

visible-trim : (s : Text) → visible (trim s) ≡ visible s
unfolding trim
visible-trim s = visible-trim_end (trim_start s) ∙ visible-trim_start s

is_empty-visible : (s : Text) → is_empty s ≡ true → visible s ≡ []
unfolding is_empty
is_empty-visible [] h = refl
is_empty-visible (c ∷ s) h = cc

abbrev shown : List Text → Text
shown fs = visible (concat fs)

shown-push_fragment :
    (fs : List Text) (s : Text) → shown (push_fragment fs s) ≡ shown fs ++ visible s
unfolding push_fragment
shown-push_fragment fs s = elim (Bool-cases (is_empty (trim s))) [
  | inl e ↦ rw e (
      sym (append-nil (shown fs))
      ∙ ap (◌++◌ (shown fs)) (sym (sym (visible-trim s) ∙ is_empty-visible (trim s) e)))
  | inr e ↦
      rw
        (
          e,
          concat-append fs (trim s ∷ []),
          append-nil (trim s),
          visible-append (concat fs) (trim s),
        )
        (ap (◌++◌ (shown fs)) (visible-trim s))
]

-- What a scan has seen so far.
abbrev seen : Scan → Text
seen sc = shown sc.fragments ++ visible sc.current

keep_lem :
    (fs : List Text) (cur : Text) (c : ℕ)
    → shown fs ++ visible (cur ++ c ∷ []) ≡ (shown fs ++ visible cur) ++ visible (c ∷ [])
keep_lem fs cur c = rw (visible-append cur (c ∷ []), append_assoc)

cut_lem :
    (fs : List Text) (cur : Text) (c : ℕ)
    → drops c ≡ true
    → shown (push_fragment fs cur) ++ [] ≡ (shown fs ++ visible cur) ++ visible (c ∷ [])
cut_lem fs cur c h =
    rw (h, append-nil (shown (push_fragment fs cur)), append-nil (shown fs ++ visible cur))
      (shown-push_fragment fs cur)

seen-advance :
    (st : ParseState) (c : ℕ) (cur : Text) (fs : List Text)
    → seen (advance st c cur fs) ≡ (shown fs ++ visible cur) ++ visible (c ∷ [])
unfolding advance
seen-advance normal c cur fs = ground (arith, keep_lem fs cur c, cut_lem fs cur c)
seen-advance single_quote c cur fs = keep_lem fs cur c
seen-advance double_quote c cur fs = keep_lem fs cur c
seen-advance escape c cur fs = keep_lem fs cur c
seen-advance double_quote_escape c cur fs = keep_lem fs cur c
seen-advance (paren depth) c cur fs = keep_lem fs cur c

skips-visible :
    (st : ParseState) (c d : ℕ) (s : Text)
    → skips st c d ≡ true
    → visible (c ∷ s) ≡ visible (c ∷ d ∷ s)
unfolding skips
skips-visible normal c d s h = ground arith
skips-visible single_quote c d s h = cc
skips-visible _ c d s h = cc

visible-cons : (c : ℕ) (s : Text) → visible (c ∷ s) ≡ visible (c ∷ []) ++ visible s
visible-cons c s = visible-append (c ∷ []) s

shown-split_loop :
    (st : ParseState) (s cur : Text) (fs : List Text)
    → shown (split_loop st s cur fs) ≡ (shown fs ++ visible cur) ++ visible s
unfolding split_loop
shown-split_loop st [] cur fs = rw append-nil (shown-push_fragment fs cur)
shown-split_loop st (c ∷ []) cur fs =
    let next = advance st c cur fs in
    shown-push_fragment next.fragments next.current ∙ seen-advance st c cur fs
shown-split_loop st (c ∷ d ∷ s) cur fs =
    let next = advance st c cur fs in
    let one = shown-split_loop next.state (d ∷ s) next.current next.fragments in
    let both = shown-split_loop next.state s next.current next.fragments in
    let base : seen next ≡ (shown fs ++ visible cur) ++ visible (c ∷ []) =
      seen-advance st c cur fs in
    elim (Bool-cases (skips st c d)) [
      | inl e ↦
          rw e (both ∙ rw (base, append_assoc, ← skips-visible st c d s e, visible-cons c s) refl)
      | inr e ↦ rw e (one ∙ rw (base, append_assoc, visible-cons c (d ∷ s)) refl)
    ]

-- The fragments of a command, joined, hold every character of it in order, but for blanks and the
-- characters `;`, `&` and `|`: no part of a command is left unchecked.
pub split_compound_commands_complete :
    (command : Text) → visible (concat (split_compound_commands command)) ≡ visible command
unfolding split_compound_commands
split_compound_commands_complete command = shown-split_loop normal command [] []
