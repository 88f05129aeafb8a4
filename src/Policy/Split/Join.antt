-- ===== src/Policy/Split/Join.antt =====
-- A semicolon outside quotes, escapes and parentheses always separates.
use zymi_core.Prelude.{
  ℕ, ◌≡◌, refl, sym, ap, ◌∙◌, true, false, List, [], ◌∷◌, ◌++◌, append_assoc, append-nil, arith,
  Bool-cases, inl, inr, Text, trim, is_empty,
}
use zymi_core.Policy.Split.{
  ParseState, normal, single_quote, double_quote, escape, double_quote_escape, paren, Scan, scan,
  advance, push_fragment, skips, split_loop, split_compound_commands,
}

-- Where the scan of `s` ends, from the state `st`.
abbrev pub state_after : ParseState → Text → ParseState
state_after st [] = st
state_after st (c ∷ s) = state_after (advance st c [] []).state s

push_fragment-prefix : (fs : List Text) (s : Text) → push_fragment fs s ≡ fs ++ push_fragment [] s
unfolding push_fragment
push_fragment-prefix fs s = elim (Bool-cases (is_empty (trim s))) [
  | inl e ↦ rw e (sym (append-nil fs))
  | inr e ↦ rw e
]

push_fragment-append :
    (fs gs : List Text) (s : Text) → push_fragment (fs ++ gs) s ≡ fs ++ push_fragment gs s
push_fragment-append fs gs s =
    push_fragment-prefix (fs ++ gs) s
    ∙ append_assoc fs gs (push_fragment [] s)
    ∙ ap (◌++◌ fs) (sym (push_fragment-prefix gs s))

advance-prefix :
    (st : ParseState) (c : ℕ) (cur : Text) (fs : List Text)
    → advance st c cur fs
      ≡ scan
          (advance st c [] []).state
          (advance st c cur []).current
          (fs ++ (advance st c cur []).fragments)
unfolding advance
advance-prefix normal c cur fs = ground (arith, push_fragment-prefix fs cur, append-nil fs)
advance-prefix single_quote c cur fs = ground (arith, append-nil fs)
advance-prefix double_quote c cur fs = ground (arith, append-nil fs)
advance-prefix escape c cur fs = ground (arith, append-nil fs)
advance-prefix double_quote_escape c cur fs = ground (arith, append-nil fs)
advance-prefix (paren depth) c cur fs = ground (arith, append-nil fs)

split_loop-prefix :
    (st : ParseState) (s cur : Text) (fs gs : List Text)
    → split_loop st s cur (fs ++ gs) ≡ fs ++ split_loop st s cur gs
unfolding split_loop
split_loop-prefix st [] cur fs gs = push_fragment-append fs gs cur
split_loop-prefix st (c ∷ []) cur fs gs =
    rw (advance-prefix st c cur (fs ++ gs), advance-prefix st c cur gs, append_assoc)
      (push_fragment-append fs _ _)
split_loop-prefix st (c ∷ d ∷ s) cur fs gs =
    let st' = (advance st c [] []).state in
    let cur' = (advance st c cur []).current in
    let gs' = gs ++ (advance st c cur []).fragments in
    rw (advance-prefix st c cur (fs ++ gs), advance-prefix st c cur gs, append_assoc)
      (elim (Bool-cases (skips st c d)) [
        | inl e ↦ rw e (split_loop-prefix st' s cur' fs gs')
        | inr e ↦ rw e (split_loop-prefix st' (d ∷ s) cur' fs gs')
      ])

skips-semicolon : (st : ParseState) (c : ℕ) → skips st c b';' ≡ false
unfolding skips
skips-semicolon normal c = ground arith
skips-semicolon _ c = refl

skips-first : (d : ℕ) → skips normal b';' d ≡ false
unfolding skips
skips-first d = refl

skips-normal :
    (st : ParseState) (c d : ℕ) (s : Text)
    → skips st c d ≡ true
    → state_after (advance st c [] []).state s ≡ state_after st (c ∷ d ∷ s)
unfolding skips advance
skips-normal normal c d s h = ground arith
skips-normal single_quote c d s h = cc
skips-normal _ c d s h = cc

split_loop-semicolon :
    (b cur : Text) (fs : List Text)
    → split_loop normal (b';' ∷ b) cur fs ≡ push_fragment fs cur ++ split_loop normal b [] []
unfolding split_loop advance skips
split_loop-semicolon [] cur fs = push_fragment-prefix (push_fragment fs cur) []
split_loop-semicolon (d ∷ b) cur fs =
    ap (split_loop normal (d ∷ b) []) (sym (append-nil (push_fragment fs cur)))
    ∙ split_loop-prefix normal (d ∷ b) [] (push_fragment fs cur) []

state_after-advance :
    (st : ParseState) (c : ℕ) (cur : Text) (fs : List Text) (s : Text)
    → state_after (advance st c cur fs).state s ≡ state_after st (c ∷ s)
state_after-advance st c cur fs s =
    ap (λ (sc : Scan). state_after sc.state s) (advance-prefix st c cur fs)

split_loop-join :
    (st : ParseState) (a b cur : Text) (fs : List Text)
    → state_after st a ≡ normal
    → split_loop st (a ++ b';' ∷ b) cur fs ≡ split_loop st a cur fs ++ split_loop normal b [] []
unfolding split_loop
split_loop-join st [] b cur fs h = rw h (split_loop-semicolon b cur fs)
split_loop-join st (c ∷ []) b cur fs h =
    let next = advance st c cur fs in
    rw (skips-semicolon st c) (
      split_loop-join next.state [] b next.current next.fragments
        (state_after-advance st c cur fs [] ∙ h))
split_loop-join st (c ∷ d ∷ a) b cur fs h =
    let next = advance st c cur fs in
    elim (Bool-cases (skips st c d)) [
      | inl e ↦ rw e (
          split_loop-join next.state a b next.current next.fragments
            (state_after-advance st c cur fs a ∙ skips-normal st c d a e ∙ h))
      | inr e ↦ rw e (
          split_loop-join next.state (d ∷ a) b next.current next.fragments
            (state_after-advance st c cur fs (d ∷ a) ∙ h))
    ]

-- Where the text before a semicolon leaves the scan outside quotes, escapes and parentheses, the
-- command is split there: its fragments are those of the two sides, in order.
pub split_compound_commands-semicolon :
    (a b : Text)
    → state_after normal a ≡ normal
    → split_compound_commands (a ++ b';' ∷ b)
      ≡ split_compound_commands a ++ split_compound_commands b
unfolding split_compound_commands
split_compound_commands-semicolon a b h = split_loop-join normal a b [] [] h
