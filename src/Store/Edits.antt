-- ===== src/Store/Edits.antt =====
-- An edited row.
use zymi_core.Prelude.{
  ℕ, ◌≡◌, ◌≢◌, sym, ap, ◌∙◌, inl, inr, ◌⊎◌, false, Option, none, some, Option-cases, Bool-cases,
  List, [], ◌∷◌, ◌++◌, arith, Text, text_eq, text_eq_iff, is_empty, starts_with,
}
use zymi_core.Store.{
  hash_v2_prefix, Row, Head, Walk, ChainVerification, accepted, broken_link, broken_hash,
  walk_start, recompute_hash, skip_legacy, step_over, walk_rows, verify_chain,
}

module _ (sha256 : List ℕ → Text) where
  walk_rows-row :
      (head : Option Head) (before after : List Row) (row : Row) (w : Walk) (c : ChainVerification)
      → walk_rows sha256 head (before ++ row ∷ after) w ≡ accepted c
      → (recompute_hash sha256 row ≡ none) ⊎ (recompute_hash sha256 row ≡ some row.hash)
  unfolding walk_rows
  walk_rows-row head [] after row w c h = elim (Option-cases (recompute_hash sha256 row)) [
    | inl n ↦ inl n
    | inr (computed, n) ↦ elim (Bool-cases (text_eq row.prev_hash w.expected_prev_hash)) [
      | inr e ↦ let k : broken_link row.event_id ≡ accepted c = rw (walk_rows, n, e) at h in cc
      | inl e ↦ elim (Bool-cases (text_eq computed row.hash)) [
        | inr f ↦ let k : broken_hash row.event_id ≡ accepted c = rw (walk_rows, n, e, f) at h in cc
        | inl f ↦ inr (n ∙ ap some ((text_eq_iff computed row.hash).0 f))
      ]
    ]
  ]
  walk_rows-row head (first ∷ before) after row w c h =
      elim (Option-cases (recompute_hash sha256 first)) [
        | inl n ↦ walk_rows-row head before after row (skip_legacy w) c (rw (walk_rows, n) at h)
        | inr (computed, n) ↦ elim (Bool-cases (text_eq first.prev_hash w.expected_prev_hash)) [
          | inr e ↦
              let k : broken_link first.event_id ≡ accepted c = rw (walk_rows, n, e) at h in cc
          | inl e ↦ elim (Bool-cases (text_eq computed first.hash)) [
            | inr f ↦
                let k : broken_hash first.event_id ≡ accepted c = rw (walk_rows, n, e, f) at h in cc
            | inl f ↦
                walk_rows-row head before after row (step_over first w) c
                  (rw (walk_rows, n, e, f) at h)
          ]
        ]
      ]

  recompute_hash-hashed : (row : Row) → is_empty row.hash ≡ false → recompute_hash sha256 row ≢ none
  unfolding recompute_hash
  recompute_hash-hashed row h n = elim (Bool-cases (starts_with row.hash hash_v2_prefix)) [
    | inl e ↦ ground arith
    | inr e ↦ ground arith
  ]

  -- Where a hashed row is edited but for its stored hash, and the stream is accepted both before and
  -- after, the hash recomputed from the edited row is the one recomputed from the row before. (Of a
  -- row of version 1 the sequence is not hashed, and may be edited so.)
  pub verify_chain-edited :
      (head : Option Head) (before after : List Row) (row edited : Row) (c d : ChainVerification)
      → is_empty row.hash ≡ false
      → edited.hash ≡ row.hash
      → verify_chain sha256 (record { rows = before ++ row ∷ after; head = head }) ≡ accepted c
      → verify_chain sha256 (record { rows = before ++ edited ∷ after; head = head }) ≡ accepted d
      → recompute_hash sha256 edited ≡ recompute_hash sha256 row
  unfolding verify_chain
  verify_chain-edited head before after row edited c d h s a b =
      hashed edited (rw s h) (walk_rows-row head before after edited walk_start d b)
      ∙ ap some s
      ∙ sym (hashed row h (walk_rows-row head before after row walk_start c a))
    where
      hashed :
          (r : Row)
          → is_empty r.hash ≡ false
          → (recompute_hash sha256 r ≡ none) ⊎ (recompute_hash sha256 r ≡ some r.hash)
          → recompute_hash sha256 r ≡ some r.hash
      hashed r e (inl n) = absurd (recompute_hash-hashed r e n)
      hashed r e (inr n) = n
