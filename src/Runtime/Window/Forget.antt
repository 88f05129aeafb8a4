-- ===== src/Runtime/Window/Forget.antt =====
-- runtime/context_window.rs: `forget_old_turns` cuts between turns.
use zymi_core.Prelude.{
  ℕ, suc, ◌+◌, ◌-◌, ◌<◌, ◌≤◌, ◌≡◌, refl, ap, sym, ◌∙◌, ◌⊎◌, true, false, Option, List, [], ◌∷◌,
  ◌++◌, ltb, leb, length, length-append, snoc_append, length-snoc, done, Text, append_assoc,
  append-nil, arith, tests, Bool-cases, inl, inr,
}
use zymi_core.Events.{ToolCallInfo, Message, assistant}
use zymi_core.Runtime.Window.{
  Segment, turn, pass_through, identify_segments, count_turns, slice, drop_until, forget_old_turns,
}
use zymi_core.Runtime.Window.Tiles.{
  is_assistant, are_results, starts_result, Tiles, identify_segments-Tiles, slice-append,
}
use zymi_core.Runtime.Window.Mask.{assistants, assistants-results, count_turns_lem}

drop_until-enough :
    (k seen idx : ℕ) (segs : List Segment) → leb k seen ≡ true → drop_until k seen idx segs ≡ idx
unfolding drop_until
drop_until-enough k seen idx [] h = refl
drop_until-enough k seen idx (turn start finish ∷ segs) h = rw h refl
drop_until-enough k seen idx (pass_through i ∷ segs) h = rw h refl

-- Index `d` of the body is where a turn ends that `turns` turns follow.
abbrev pub CutsAfterTurn : List Message → ℕ → ℕ → Type 0
CutsAfterTurn body d turns =
    (before : List Message) × (content : Option Text) × (tool_calls : List ToolCallInfo) × (results
      kept : List Message)
    × (body ≡ before ++ (assistant content tool_calls ∷ (results ++ kept)))
    × (are_results results ≡ true)
    × (starts_result kept ≡ false)
    × (assistants kept ≡ turns)
    × (d ≡ length before + suc (length results))

less : (k seen : ℕ) → seen < k → leb k seen ≡ false
less k seen h = ground arith

enough : (k seen : ℕ) → ltb seen k ≡ false → leb k seen ≡ true
enough k seen h = ground arith

assistants-pass :
    (m : Message) (ms : List Message) → is_assistant m ≡ false → assistants (m ∷ ms) ≡ assistants ms
unfolding assistants
assistants-pass m ms h = rw h refl

pub drop_until-CutsAfterTurn :
    (body : List Message) (segs : List Segment) (i : ℕ) (rest pre : List Message)
    (k seen idx turns : ℕ)
    → Tiles body i segs rest
    → body ≡ pre ++ rest
    → i ≡ length pre
    → seen < k
    → seen + assistants rest ≡ k + turns
    → CutsAfterTurn body (drop_until k seen idx segs) turns
unfolding drop_until assistants
drop_until-CutsAfterTurn body [] i rest pre k seen idx turns (e, _) b l h a =
    absurd (omega (arith, ap assistants e))
drop_until-CutsAfterTurn body (turn start finish ∷ segs) i rest pre k seen idx turns
      (after, s, (c, t, rs, r, n, e, f, _), later) b l h a =
    let here = b ∙ ap (λ ms. pre ++ ms) e in
    let counted = ap assistants e ∙ ap suc (assistants-results rs after r) in
    rw (less k seen h) (elim (Bool-cases (ltb (suc seen) k)) [
      | inl m ↦
          drop_until-CutsAfterTurn body segs finish after (pre ++ (assistant c t ∷ rs)) k (suc seen)
            finish turns later (here ∙ sym (append_assoc pre (assistant c t ∷ rs) after))
            (omega (arith, length-append pre (assistant c t ∷ rs))) (omega tests) (omega arith)
      | inr m ↦ (
        pre,
        c,
        t,
        rs,
        after,
        here,
        r,
        n,
        ground arith,
        drop_until-enough k (suc seen) finish segs (enough k (suc seen) m) ∙ (omega arith),
      )
    ])
drop_until-CutsAfterTurn body (pass_through j ∷ segs) i rest pre k seen idx turns
      (m, after, s, n, e, _, later) b l h a =
    rw (less k seen h) (
      drop_until-CutsAfterTurn body segs (suc i) after (pre ++ m ∷ []) k seen (j + 1) turns later
        (b ∙ ap (λ ms. pre ++ ms) e ∙ snoc_append pre m after) (omega (arith, length-snoc pre m)) h
        (omega (arith, ap assistants e ∙ assistants-pass m after n)))

-- The slice from where a front ends, in two steps: with the front as one list, then with its parts.
slice_after :
    (body front kept : List Message) (d : ℕ)
    → body ≡ front ++ (kept ++ [])
    → d ≡ length front
    → slice body d (length body) ≡ done kept
slice_after body front kept d b e =
    rw (b, e)
      (slice-append front kept [] (length (front ++ (kept ++ [])))
        (omega (arith, length-append front (kept ++ []), length-append kept [])))

slice_to_end :
    (body before turn_msgs kept : List Message) (d : ℕ)
    → body ≡ before ++ (turn_msgs ++ kept)
    → d ≡ length before + length turn_msgs
    → slice body d (length body) ≡ done kept
slice_to_end body before turn_msgs kept d b e =
    slice_after body (before ++ turn_msgs) kept d
      (b
        ∙ sym (append_assoc before turn_msgs kept)
        ∙ ap (λ ms. (before ++ turn_msgs) ++ ms) (sym (append-nil kept)))
      (omega (arith, length-append before turn_msgs))

too_many :
    (t keep a : ℕ) → leb t keep ≡ false → t ≡ a → (0 < t - keep) × (0 + a ≡ (t - keep) + keep)
too_many t keep a h e = (ground arith, ground arith)

-- Forgetting the old turns never panics. A body with no more turns than are to be kept stays as it
-- is. Of any other it gives what stands behind one of its turns and all the results of that turn,
-- with exactly as many turns as are to be kept: calls and results are never separated, and a
-- message that stands between the last turn dropped and the first one kept is kept too.
pub forget_old_turns_lem :
    (body : List Message) (keep_last_turns : ℕ)
    → ((assistants body ≤ keep_last_turns) × (forget_old_turns body keep_last_turns ≡ done body))
      ⊎ ((before : List Message) × (content : Option Text) × (tool_calls : List ToolCallInfo)
          × (results kept : List Message) × (body
              ≡ before ++ (assistant content tool_calls ∷ (results ++ kept)))
          × (are_results results ≡ true)
          × (starts_result kept ≡ false)
          × (assistants kept ≡ keep_last_turns)
          × (forget_old_turns body keep_last_turns ≡ done kept))
unfolding forget_old_turns
forget_old_turns_lem body keep =
    let segs = identify_segments body in
    let tiles = identify_segments-Tiles body in
    let counted = count_turns_lem body segs 0 body tiles in
    elim (Bool-cases (leb (count_turns segs) keep)) [
      | inl e ↦ inl (omega tests, rw e refl)
      | inr e ↦
          let k = count_turns segs - keep in
          let (more, exact) = too_many (count_turns segs) keep (assistants body) e counted in
          let (before, c, t, rs, kept, b, r, n, a, d) =
            drop_until-CutsAfterTurn body segs 0 body [] k 0 0 keep tiles refl refl more exact in
          inr (
            before,
            c,
            t,
            rs,
            kept,
            b,
            r,
            n,
            a,
            rw e (slice_to_end body before (assistant c t ∷ rs) kept (drop_until k 0 0 segs) b d),
          )
    ]
