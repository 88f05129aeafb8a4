-- ===== src/Runtime/Context/Fits.antt =====
-- runtime/context_builder.rs: a built context fits.
use zymi_core.Prelude.{
  ℕ, zero, suc, ◌+◌, ◌-◌, ◌≤◌, ◌<◌, ◌≡◌, refl, sym, ap, ◌∙◌, ◌⊎◌, inl, inr, false, Option, none,
  some, List, [], ◌∷◌, ◌++◌, append_assoc, append-nil, ◌==◌, ltb, ltb→lt, Bool-cases, Option-cases,
  length, length-append, get_elem?, take, Outcome, done, is_empty, arith,
}
use zymi_core.Events.{Event, EventKind, TokenUsage, Message, assistant}
use zymi_core.Runtime.Window.{
  identify_segments, count_turns, slice, drop_until, mask_observations, approx_chars,
}
use zymi_core.Runtime.Window.Tiles.{identify_segments-Tiles}
use zymi_core.Runtime.Window.Mask.{assistants, count_turns_lem, mask_observations-mask_first}
use zymi_core.Runtime.Window.Forget.{CutsAfterTurn, drop_until-CutsAfterTurn, forget_old_turns_lem}
use zymi_core.Runtime.Context.{
  ContextBuilder, Draws, Trace, ContextResult, ok, err, hard_cap_exceeded, events_to_messages,
  events_to_messages_with_seqs,
}
use zymi_core.Runtime.Context.Build.{
  fresh_events, forget_after, seq_at, prefix, tail_of, emit_compaction_event, note_reply,
  note_request, compaction_request, replace_span, compact_span, compact_to, try_compact,
  within_soft_cap, build,
}

-- Events are added to a stream, `n` at most.
abbrev pub Extends : ℕ → List Event → List Event → Type 0
Extends n before after = (added : List Event) × (after ≡ before ++ added) × (length added ≤ n)

Extends-refl : (n : ℕ) (es : List Event) → Extends n es es
Extends-refl n es = ([], sym (append-nil es), omega arith)

Extends-trans :
    (n m : ℕ) (es fs gs : List Event) → Extends n es fs → Extends m fs gs → Extends (n + m) es gs
Extends-trans n m es fs gs (xs, e, h) (ys, f, k) = (
  xs ++ ys,
  f ∙ ap (λ zs. zs ++ ys) e ∙ append_assoc es xs ys,
  omega (arith, length-append xs ys),
)

get_elem?-below {ℓ} :
    {A : Type ℓ} (xs : List A) (i : ℕ) → i < length xs → (x : A) × (get_elem? xs i ≡ some x)
get_elem?-below [] i h = absurd (omega arith)
get_elem?-below (x ∷ xs) zero h = (x, refl)
get_elem?-below (x ∷ xs) (suc i) h = get_elem?-below xs i (omega arith)

seq_at-below :
    (tagged : List (Message × ℕ)) (i : ℕ)
    → i < length tagged
    → (seq : ℕ) × (seq_at tagged i ≡ done seq)
seq_at-below tagged i h = let (p, e) = get_elem?-below tagged i h in (p.1, rw (seq_at, e) refl)

slice_front :
    (body : List Message) (end : ℕ) → end ≤ length body → slice body 0 end ≡ done (take end body)
unfolding slice
slice_front body end h = ground arith

not_below : (a b : ℕ) → ltb a b ≡ false → b ≤ a
not_below a b h = ground arith

compactable :
    (count keep a : ℕ)
    → ((count - keep) == 0) ≡ false
    → count ≡ a
    → (0 < count - keep) × (0 + a ≡ (count - keep) + keep)
compactable count keep a h e = (ground arith, ground arith)

CutsAfterTurn-bounds :
    (body : List Message) (d turns : ℕ) → CutsAfterTurn body d turns → (0 < d) × (d ≤ length body)
CutsAfterTurn-bounds body d turns (before, c, t, rs, kept, e, _, _, _, f) = (
  omega arith,
  omega (
    arith,
    ap length e,
    length-append before (assistant c t ∷ (rs ++ kept)),
    length-append rs kept,
  ),
)

module _ (b : ContextBuilder) (w : Draws) where
  tail_of-IsDone : (events : List Event) → (ms : List Message) × (tail_of b w events ≡ done ms)
  unfolding tail_of
  tail_of-IsDone events =
      let (ms, e) = forgotten b.config.forget_after_turns (events_to_messages events) in
      let (out, f) = masked ms in (out, rw e f)
    where
      masked :
          (ms : List Message)
          → (out : List Message) × (mask_observations b.json ms b.config.observation_window
              ≡ done out)
      masked ms = (_, mask_observations-mask_first b.json ms b.config.observation_window)

      forgotten :
          (keep : Option ℕ) (tail : List Message)
          → (ms : List Message) × (forget_after keep tail ≡ done ms)
      forgotten none tail = (tail, refl)
      forgotten (some keep) tail = elim (forget_old_turns_lem tail keep) [
        | inl (_, e) ↦ (tail, e)
        | inr (_, _, _, _, kept, _, _, _, _, e) ↦ (kept, e)
      ]

  emit-Extends :
      (kind : EventKind) (trace : Trace)
      → Extends 1 trace.stream (emit_compaction_event b w kind trace).stream
  unfolding emit_compaction_event
  emit-Extends kind trace = elim (Bool-cases (w.appends trace.tick)) [
    | inl e ↦ rw e (_, refl, omega arith)
    | inr e ↦ rw e (Extends-refl 1 trace.stream)
  ]

  -- The messages begin with the front, and the stream has grown by three events at most.
  abbrev Compacts : List Message → Trace → Outcome (List Message × Trace) → Type 0
  Compacts front trace m =
      (rest : List Message) × (after : Trace) × (m ≡ done (front ++ rest, after))
      × Extends 3 trace.stream after.stream

  unchanged :
      (front body : List Message) (trace : Trace)
      → Compacts front trace (done (front ++ body, trace))
  unchanged front body trace = (body, trace, refl, Extends-refl 3 trace.stream)

  note_reply-Extends :
      (batch : List Message) (lo hi : ℕ) (reply : Message) (usage : TokenUsage) (trace : Trace)
      → Extends 2 trace.stream (note_reply b w batch lo hi reply usage trace).stream
  unfolding note_reply
  note_reply-Extends batch lo hi reply usage trace =
      Extends-trans 1 1 _ _ _ (emit-Extends _ trace) (emit-Extends _ _)

  replace_span-IsDone :
      (front batch : List Message) (lo hi : ℕ) (reply : Message) (usage : TokenUsage)
      (trace : Trace)
      → (rest : List Message) × (after : Trace) × (replace_span b w front batch lo hi reply usage
            trace
          ≡ done (front ++ rest, after))
        × Extends 2 trace.stream after.stream
  unfolding replace_span
  replace_span-IsDone front batch lo hi reply usage trace =
      let after = note_reply b w batch lo hi reply usage trace in
      let (ms, e) = tail_of-IsDone after.stream in
      (ms, after, rw e refl, note_reply-Extends batch lo hi reply usage trace)

  compact_span-Compacts :
      (chat : List Message → Option (Message × TokenUsage)) (front body batch : List Message)
      (lo hi : ℕ) (trace : Trace)
      → Compacts front trace (compact_span b w chat front body batch lo hi trace)
  unfolding compact_span note_request
  compact_span-Compacts chat front body batch lo hi trace =
      let asked = compaction_request b w batch in
      let started = note_request b w asked trace in
      elim (Option-cases (chat asked)) [
        | inl e ↦
            rw (compact_span, e)
              (
                body,
                started,
                refl,
                Extends-trans 1 2 _ _ _ (emit-Extends _ trace) (Extends-refl 2 started.stream),
              )
        | inr ((reply, usage), e) ↦
            let (rest, after, f, x) = replace_span-IsDone front batch lo hi reply usage started in
            rw (compact_span, e) (rest, after, f, Extends-trans 1 2 _ _ _ (emit-Extends _ trace) x)
      ]

  compact_to-Compacts :
      (chat : List Message → Option (Message × TokenUsage)) (events : List Event)
      (front body : List Message) (end : ℕ) (trace : Trace)
      → 0 < end
      → end ≤ length body
      → Compacts front trace (compact_to b w chat events front body end trace)
  unfolding compact_to
  compact_to-Compacts chat events front body end trace positive bound =
      let tagged = events_to_messages_with_seqs events in
      rw (compact_to, slice_front body end bound)
        (elim (Bool-cases (is_empty (take end body))) [
          | inl e ↦ rw e (unchanged front body trace)
          | inr e ↦ elim (Bool-cases (ltb (length tagged) end)) [
            | inl f ↦ rw (e, f) (unchanged front body trace)
            | inr f ↦
                let long = not_below (length tagged) end f in
                let (lo, g) = seq_at-below tagged 0 (omega arith) in
                let (hi, k) = seq_at-below tagged (end - 1) (omega arith) in
                rw (e, f, g, k) (compact_span-Compacts chat front body (take end body) lo hi trace)
          ]
        ])

  try_compact-Compacts :
      (chat : List Message → Option (Message × TokenUsage)) (events : List Event)
      (front body : List Message) (trace : Trace)
      → Compacts front trace (try_compact b w chat events front body trace)
  unfolding try_compact
  try_compact-Compacts chat events front body trace =
      let segs = identify_segments body in
      let tiles = identify_segments-Tiles body in
      let turns = b.config.min_tail_turns in
      let k = count_turns segs - turns in
      elim (Bool-cases (is_empty body)) [
        | inl e ↦ rw (try_compact, e) (unchanged front body trace)
        | inr e ↦ elim (Bool-cases (k == 0)) [
          | inl f ↦ rw (try_compact, e, f) (unchanged front body trace)
          | inr f ↦
              let (more, exact) =
                compactable (count_turns segs) turns (assistants body) f
                  (count_turns_lem body segs 0 body tiles) in
              let cut =
                drop_until-CutsAfterTurn body segs 0 body [] k 0 0 turns tiles refl refl more
                  exact in
              let (positive, bound) = CutsAfterTurn-bounds body (drop_until k 0 0 segs) turns cut in
              rw (try_compact, e, f)
                (compact_to-Compacts chat events front body (drop_until k 0 0 segs) trace positive
                  bound)
        ]
      ]

  within_soft_cap-Compacts :
      (compaction : Option (List Message → Option (Message × TokenUsage))) (events : List Event)
      (masked : List Message) (trace : Trace)
      → Compacts (prefix b w) trace (within_soft_cap b w compaction events masked trace)
  unfolding within_soft_cap
  within_soft_cap-Compacts none events masked trace = unchanged (prefix b w) masked trace
  within_soft_cap-Compacts (some chat) events masked trace =
      elim (Bool-cases (ltb b.config.soft_cap_chars (approx_chars (prefix b w ++ masked)))) [
        | inl f ↦
            rw (within_soft_cap, f) (try_compact-Compacts chat events (prefix b w) masked trace)
        | inr f ↦ rw (within_soft_cap, f) (unchanged (prefix b w) masked trace)
      ]

  -- A context that fits in the hard cap, or the report of one that does not.
  abbrev pub Fits : List Message → Trace → Outcome (ContextResult × Trace) → Type 0
  Fits ms after m =
      ((approx_chars ms ≤ b.config.hard_cap_chars) × (m ≡ done (ok ms, after)))
      ⊎ ((b.config.hard_cap_chars < approx_chars ms)
          × (m ≡ done (err (hard_cap_exceeded (approx_chars ms) b.config.hard_cap_chars), after)))

  -- The building of a context never panics, whatever the model answers and whichever appends fail. It
  -- makes messages that begin with the prefix (the system prompt, the task and the memory). They are
  -- given if they fit in the hard cap; otherwise their size is reported as an error. The stream has
  -- grown by three events at most, at its end.
  pub build-Fits :
      (stream : List Event)
      → (rest : List Message) × (after : Trace) × Extends 3 stream after.stream
        × Fits (prefix b w ++ rest) after (build b w stream)
  unfolding build
  build-Fits stream =
      let events = fresh_events b.fresh_after stream in
      let (masked, e) = tail_of-IsDone events in
      let (rest, after, f, x) =
        within_soft_cap-Compacts b.compaction events masked
          (record { stream = stream; tick = 0 }) in
      let ms = prefix b w ++ rest in
      (
        rest,
        after,
        x,
        elim (Bool-cases (ltb b.config.hard_cap_chars (approx_chars ms))) [
          | inl g ↦
              inr (ltb→lt b.config.hard_cap_chars (approx_chars ms) g, rw (build, e, f, g) refl)
          | inr g ↦
              inl (not_below b.config.hard_cap_chars (approx_chars ms) g, rw (build, e, f, g) refl)
        ],
      )
