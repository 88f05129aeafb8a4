-- ===== src/Runtime/Window/Mask.antt =====
-- runtime/context_window.rs: `mask_observations` against a definition with one pass and no index.
pub mod Keeps
use zymi_core.Prelude.{
  ℕ, zero, suc, ◌+◌, ◌-◌, ◌<◌, ◌≤◌, ◌≡◌, refl, ap, sym, ◌∙◌, Bool, true, false, ◌&&◌, Option, none,
  some, List, [], ◌∷◌, ◌++◌, ◌==◌, ltb, leb, if◌then◌else◌, length, length-append, take, drop,
  take-append-drop, is_empty, map, Outcome, done, ◌>>=◌, Text, append_assoc, append-nil, arith,
  Bool-cases, inl, inr,
}
use zymi_core.Events.{
  ToolCallInfo, ContentPart, Message, system, user, user_multimodal, assistant, tool_result,
}
use zymi_core.Runtime.Window.{
  Segment, turn, pass_through, identify_segments, count_turns, is_turn, slice, index, SerdeJson,
  preview_content, placeholder, mask_results, mask_turn, mask_segments, mask_body,
  mask_observations, prefix_end, is_prefix_message,
}
use zymi_core.Runtime.Window.Tiles.{
  is_assistant, is_result, are_results, starts_result, Tiles, identify_segments-Tiles,
}

-- The turns of a conversation, by their assistant messages.
unfoldable pub assistants : List Message → ℕ
assistants [] = 0
assistants (m ∷ ms) = if is_assistant m then suc (assistants ms) else assistants ms

pub assistants-append :
    (ms ns : List Message) → assistants (ms ++ ns) ≡ assistants ms + assistants ns
unfolding assistants
assistants-append [] ns = omega arith
assistants-append (m ∷ ms) ns = elim (Bool-cases (is_assistant m)) [
  | inl e ↦ rw e (omega (arith, assistants-append ms ns))
  | inr e ↦ rw e (assistants-append ms ns)
]

pub assistants-results :
    (rs after : List Message) → are_results rs ≡ true → assistants (rs ++ after) ≡ assistants after
unfolding assistants
assistants-results [] after h = refl
assistants-results (assistant c t ∷ rs) after h = cc
assistants-results (tool_result id c ∷ rs) after h = assistants-results rs after h
assistants-results (_ ∷ rs) after h = cc

pub count_turns_lem :
    (body : List Message) (segs : List Segment) (i : ℕ) (rest : List Message)
    → Tiles body i segs rest
    → count_turns segs ≡ assistants rest
unfolding count_turns is_turn assistants
count_turns_lem body [] i rest (e, _) = rw e refl
count_turns_lem body (turn start finish ∷ segs) i rest (after, _, (c, t, rs, r, _, e, _, _), k) =
    rw (e, assistants-results rs after r) (ap suc (count_turns_lem body segs finish after k))
count_turns_lem body (pass_through idx ∷ segs) i rest (m, after, _, n, e, _, k) =
    rw (e, n) (count_turns_lem body segs (suc i) after k)

minus-suc : (k seen : ℕ) → ltb seen k ≡ true → k - seen ≡ suc (k - suc seen)
minus-suc k seen h = ground arith

minus-zero : (k seen : ℕ) → ltb seen k ≡ false → (k - seen ≡ 0) × (k - suc seen ≡ 0)
minus-zero k seen h = ground arith

module _ (json : SerdeJson) where
  -- The first `n` turns are masked, the rest stays. Within a turn that is masked, `calls` holds
  -- what its results answer.
  unfoldable pub mask_first : ℕ → Option (List ToolCallInfo) → List Message → List Message
  mask_first n calls [] = []
  mask_first zero calls (assistant content tool_calls ∷ ms) =
      assistant content tool_calls ∷ mask_first zero none ms
  mask_first (suc n) calls (assistant content tool_calls ∷ ms) =
      assistant (preview_content content) tool_calls ∷ mask_first n (some tool_calls) ms
  mask_first n (some tool_calls) (tool_result id content ∷ ms) =
      tool_result id (placeholder json tool_calls id content) ∷ mask_first n (some tool_calls) ms
  mask_first n none (tool_result id content ∷ ms) = tool_result id content ∷ mask_first n none ms
  mask_first n calls (system s ∷ ms) = system s ∷ mask_first n none ms
  mask_first n calls (user s ∷ ms) = user s ∷ mask_first n none ms
  mask_first n calls (user_multimodal parts ∷ ms) = user_multimodal parts ∷ mask_first n none ms

  pub mask_first-zero : (ms : List Message) → mask_first zero none ms ≡ ms
  unfolding mask_first
  mask_first-zero [] = refl
  mask_first-zero (system s ∷ ms) = ap (λ r. system s ∷ r) (mask_first-zero ms)
  mask_first-zero (user s ∷ ms) = ap (λ r. user s ∷ r) (mask_first-zero ms)
  mask_first-zero (user_multimodal parts ∷ ms) =
      ap (λ r. user_multimodal parts ∷ r) (mask_first-zero ms)
  mask_first-zero (assistant c t ∷ ms) = ap (λ r. assistant c t ∷ r) (mask_first-zero ms)
  mask_first-zero (tool_result id c ∷ ms) = ap (λ r. tool_result id c ∷ r) (mask_first-zero ms)

  mask_first-pass :
      (n : ℕ) (m : Message) (ms : List Message)
      → is_assistant m ≡ false
      → mask_first n none (m ∷ ms) ≡ m ∷ mask_first n none ms
  unfolding mask_first
  mask_first-pass n (assistant c t) ms h = cc
  mask_first-pass n (system s) ms h = refl
  mask_first-pass n (user s) ms h = refl
  mask_first-pass n (user_multimodal parts) ms h = refl
  mask_first-pass n (tool_result id c) ms h = refl

  -- A turn ends where no result follows.
  mask_first-after :
      (n : ℕ) (t : List ToolCallInfo) (ms : List Message)
      → starts_result ms ≡ false
      → mask_first n (some t) ms ≡ mask_first n none ms
  unfolding mask_first
  mask_first-after n t [] h = refl
  mask_first-after zero t (assistant c u ∷ ms) h = refl
  mask_first-after (suc n) t (assistant c u ∷ ms) h = refl
  mask_first-after n t (system s ∷ ms) h = refl
  mask_first-after n t (user s ∷ ms) h = refl
  mask_first-after n t (user_multimodal parts ∷ ms) h = refl
  mask_first-after n t (tool_result id c ∷ ms) h = cc

  mask_first-results :
      (n : ℕ) (t : List ToolCallInfo) (rs after : List Message)
      → are_results rs ≡ true
      → starts_result after ≡ false
      → mask_first n (some t) (rs ++ after) ≡ mask_results json t rs ++ mask_first n none after
  unfolding mask_first mask_results
  mask_first-results n t [] after h k = mask_first-after n t after k
  mask_first-results n t (tool_result id c ∷ rs) after h k =
      ap (λ r. tool_result id (placeholder json t id c) ∷ r) (mask_first-results n t rs after h k)
  mask_first-results n t (_ ∷ rs) after h k = cc

  mask_segments-mask_first :
      (body : List Message) (segs : List Segment) (i : ℕ) (rest : List Message) (k seen : ℕ)
      → Tiles body i segs rest
      → mask_segments json body k seen segs ≡ done (mask_first (k - seen) none rest)
  unfolding mask_segments mask_turn mask_first
  mask_segments-mask_first body [] i rest k seen (e, _) = rw e refl
  mask_segments-mask_first body (turn start finish ∷ segs) i rest k seen
        (after, _, (c, t, rs, r, a, e, _, sl), later) =
      elim (Bool-cases (ltb seen k)) [
        | inl l ↦
            rw
              (
                e,
                sl,
                l,
                mask_segments-mask_first body segs finish after k (suc seen) later,
                minus-suc k seen l,
                mask_first-results (k - suc seen) t rs after r a,
              )
              refl
        | inr l ↦
            rw
              (
                e,
                sl,
                l,
                mask_segments-mask_first body segs finish after k (suc seen) later,
                (minus-zero k seen l).0,
                (minus-zero k seen l).1,
                mask_first-zero after,
                mask_first-zero (rs ++ after),
              )
              refl
      ]
  mask_segments-mask_first body (pass_through idx ∷ segs) i rest k seen
        (m, after, _, n, e, ix, later) =
      rw
        (
          e,
          ix,
          mask_segments-mask_first body segs (suc i) after k seen later,
          mask_first-pass (k - seen) m after n,
        )
        refl

  prefix-mask_first :
      (n : ℕ) (ms : List Message)
      → mask_first n none ms
        ≡ take (prefix_end ms) ms ++ mask_first n none (drop (prefix_end ms) ms)
  unfolding mask_first prefix_end is_prefix_message
  prefix-mask_first n [] = refl
  prefix-mask_first n (system s ∷ ms) = ap (λ r. system s ∷ r) (prefix-mask_first n ms)
  prefix-mask_first n (user s ∷ ms) = ap (λ r. user s ∷ r) (prefix-mask_first n ms)
  prefix-mask_first n (user_multimodal parts ∷ ms) =
      ap (λ r. user_multimodal parts ∷ r) (prefix-mask_first n ms)
  prefix-mask_first n (assistant c t ∷ ms) = refl
  prefix-mask_first n (tool_result id c ∷ ms) = refl

prefix-assistants : (ms : List Message) → assistants (drop (prefix_end ms) ms) ≡ assistants ms
unfolding assistants prefix_end is_prefix_message
prefix-assistants [] = refl
prefix-assistants (system s ∷ ms) = prefix-assistants ms
prefix-assistants (user s ∷ ms) = prefix-assistants ms
prefix-assistants (user_multimodal parts ∷ ms) = prefix-assistants ms
prefix-assistants (assistant c t ∷ ms) = refl
prefix-assistants (tool_result id c ∷ ms) = refl

is_empty-eq {ℓ} : {A : Type ℓ} (xs : List A) → is_empty xs ≡ true → xs ≡ []
unfolding is_empty
is_empty-eq [] h = refl
is_empty-eq (x ∷ xs) h = cc

masked-zero :
    (json : SerdeJson) (ms : List Message) (n : ℕ) → n ≡ 0 → ms ≡ mask_first json n none ms
masked-zero json ms n e = rw (e, mask_first-zero json ms) refl

minus_nothing : (n : ℕ) → n - 0 ≡ n
minus_nothing n = omega arith

mask_body-mask_first :
    (json : SerdeJson) (messages prefix body : List Message) (w : ℕ)
    → assistants body ≡ assistants messages
    → ((n : ℕ) → mask_first json n none messages ≡ prefix ++ mask_first json n none body)
    → mask_body json messages prefix body w
      ≡ done (mask_first json (assistants messages - w) none messages)
unfolding mask_body is_empty assistants
mask_body-mask_first json messages prefix [] w c h =
    ap done (masked-zero json messages (assistants messages - w) (omega arith))
mask_body-mask_first json messages prefix (m ∷ ms) w c h =
    let body = m ∷ ms in
    let k = assistants messages - w in
    let counted =
      count_turns_lem body (identify_segments body) 0 body (identify_segments-Tiles body) ∙ c in
    elim (Bool-cases (k == 0)) [
      | inl e ↦ rw (counted, e) (ap done (masked-zero json messages k (ground arith)))
      | inr e ↦
          rw
            (
              counted,
              e,
              h k,
              mask_segments-mask_first json body (identify_segments body) 0 body k 0
                  (identify_segments-Tiles body),
              minus_nothing k,
            )
            refl
    ]

-- Masking the observations never panics, and gives the messages with the first turns masked, one by
-- one: the assistant's content cut to a preview, and a placeholder in place of every result that
-- follows. As many turns are masked as there are assistant messages beyond the window. The result
-- does not depend on the search for a prefix.
pub mask_observations-mask_first :
    (json : SerdeJson) (messages : List Message) (observation_window : ℕ)
    → mask_observations json messages observation_window
      ≡ done (mask_first json (assistants messages - observation_window) none messages)
unfolding mask_observations mask_first
mask_observations-mask_first json [] w = refl
mask_observations-mask_first json (m ∷ ms) w =
    let messages = m ∷ ms in
    mask_body-mask_first json messages (take (prefix_end messages) messages)
      (drop (prefix_end messages) messages) w (prefix-assistants messages)
      (λ n. prefix-mask_first json n messages)
