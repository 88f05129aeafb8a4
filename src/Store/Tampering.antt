-- ===== src/Store/Tampering.antt =====
-- What `verify_chain` does not see, and what it does.
use zymi_core.Prelude.{
  ℕ, ◌+◌, ◌≡◌, ◌≢◌, refl, inl, inr, ◌⊎◌, true, not, ◌||◌, Option, none, some, Option-cases,
  Bool-cases, List, [], ◌∷◌, ◌++◌, arith, All, ◌==◌, Text, text_eq, is_empty,
}
use zymi_core.Store.{
  Row, Head, Walk, ChainVerification, Verification, accepted, broken_link, broken_hash, deleted,
  truncated, walk_start, recompute_hash, skip_legacy, step_over, check_head, walk_rows,
  verify_chain,
}

abbrev pub more_legacy : ChainVerification → ChainVerification
more_legacy c = record { verified = c.verified; legacy = c.legacy + 1 }

abbrev pub forgive : Verification → Verification
forgive (accepted c) = accepted (more_legacy c)
forgive (broken_link event_id) = broken_link event_id
forgive (broken_hash event_id) = broken_hash event_id
forgive deleted = deleted
forgive truncated = truncated

check_head-skip_legacy :
    (head : Option Head) (w : Walk) → check_head head (skip_legacy w) ≡ forgive (check_head head w)
unfolding check_head skip_legacy
check_head-skip_legacy none w = refl
check_head-skip_legacy (some head) w = elim (Bool-cases (w.result.verified == 0)) [
  | inl e ↦ rw e refl
  | inr e ↦
      elim (Bool-cases
        (not (w.last_seq == head.last_sequence) || not (text_eq w.last_hash head.last_hash))) [
          | inl f ↦ rw (e, f) refl
          | inr f ↦ rw (e, f) refl
        ]
]

module _ (sha256 : List ℕ → Text) where
  walk_rows-skip_legacy :
      (head : Option Head) (rows : List Row) (w : Walk)
      → walk_rows sha256 head rows (skip_legacy w) ≡ forgive (walk_rows sha256 head rows w)
  unfolding walk_rows skip_legacy step_over
  walk_rows-skip_legacy head [] w = check_head-skip_legacy head w
  walk_rows-skip_legacy head (row ∷ rows) w = elim (Option-cases (recompute_hash sha256 row)) [
    | inl n ↦ rw (walk_rows, n) (walk_rows-skip_legacy head rows (skip_legacy w))
    | inr (computed, n) ↦ elim (Bool-cases (text_eq row.prev_hash w.expected_prev_hash)) [
      | inr e ↦ rw (walk_rows, n, e) refl
      | inl e ↦ elim (Bool-cases (text_eq computed row.hash)) [
        | inr f ↦ rw (walk_rows, n, e, f) refl
        | inl f ↦ rw (walk_rows, n, e, f) (walk_rows-skip_legacy head rows (step_over row w))
      ]
    ]
  ]

  walk_rows-insert :
      (head : Option Head) (before after : List Row) (row : Row) (w : Walk)
      → is_empty row.hash ≡ true
      → walk_rows sha256 head (before ++ row ∷ after) w
        ≡ forgive (walk_rows sha256 head (before ++ after) w)
  unfolding walk_rows recompute_hash
  walk_rows-insert head [] after row w h =
      rw (walk_rows, recompute_hash, h) (walk_rows-skip_legacy head after w)
  walk_rows-insert head (first ∷ before) after row w h =
      elim (Option-cases (recompute_hash sha256 first)) [
        | inl n ↦ rw (walk_rows, n) (walk_rows-insert head before after row (skip_legacy w) h)
        | inr (computed, n) ↦ elim (Bool-cases (text_eq first.prev_hash w.expected_prev_hash)) [
          | inr e ↦ rw (walk_rows, n, e) refl
          | inl e ↦ elim (Bool-cases (text_eq computed first.hash)) [
            | inr f ↦ rw (walk_rows, n, e, f) refl
            | inl f ↦
                rw (walk_rows, n, e, f)
                  (walk_rows-insert head before after row (step_over first w) h)
          ]
        ]
      ]

  -- A row with an empty hash may stand anywhere in a stream, whatever it holds: the verification
  -- is the same as without it, and counts it as legacy where it accepts.
  pub verify_chain-forged :
      (head : Option Head) (before after : List Row) (row : Row)
      → is_empty row.hash ≡ true
      → verify_chain sha256 (record { rows = before ++ row ∷ after; head = head })
        ≡ forgive (verify_chain sha256 (record { rows = before ++ after; head = head }))
  unfolding verify_chain
  verify_chain-forged head before after row h = walk_rows-insert head before after row walk_start h

  walk_rows-headless :
      (head : Head) (rows : List Row) (w : Walk) (c : ChainVerification)
      → All (λ row. row.sequence ≢ head.last_sequence) rows
      → (w.result.verified ≡ 0) ⊎ (w.last_seq ≢ head.last_sequence)
      → walk_rows sha256 (some head) rows w ≢ accepted c
  unfolding walk_rows check_head skip_legacy step_over
  walk_rows-headless head [] w c a (inl z) h = ground arith
  walk_rows-headless head [] w c a (inr d) h = ground arith
  walk_rows-headless head (row ∷ rows) w c (r, a) p h =
      elim (Option-cases (recompute_hash sha256 row)) [
        | inl n ↦ walk_rows-headless head rows (skip_legacy w) c a p (rw (walk_rows, n) at h)
        | inr (computed, n) ↦ elim (Bool-cases (text_eq row.prev_hash w.expected_prev_hash)) [
          | inr e ↦ let k : broken_link row.event_id ≡ accepted c = rw (walk_rows, n, e) at h in cc
          | inl e ↦ elim (Bool-cases (text_eq computed row.hash)) [
            | inr f ↦
                let k : broken_hash row.event_id ≡ accepted c = rw (walk_rows, n, e, f) at h in cc
            | inl f ↦
                walk_rows-headless head rows (step_over row w) c a (inr r)
                  (rw (walk_rows, n, e, f) at h)
          ]
        ]
      ]

  -- Where no row has the sequence that the head records, the stream is not accepted: the last rows
  -- are missing, or all of them.
  pub verify_chain-truncated :
      (head : Head) (rows : List Row) (c : ChainVerification)
      → All (λ row. row.sequence ≢ head.last_sequence) rows
      → verify_chain sha256 (record { rows = rows; head = some head }) ≢ accepted c
  unfolding verify_chain
  verify_chain-truncated head rows c a = walk_rows-headless head rows walk_start c a (inl refl)
