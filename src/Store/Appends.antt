-- ===== src/Store/Appends.antt =====
-- A stream that only `append` writes to is verified.
use zymi_core.Prelude.{
  ℕ, ◌+◌, ◌≡◌, ◌≢◌, refl, sym, subst, ap, ◌∙◌, inl, inr, ◌⊎◌, true, Option, none, some, List, [],
  ◌∷◌, ◌++◌, append_assoc, append-nil, arith, All, length, Text, text_eq_iff, is_empty, starts_with,
  strip_prefix,
}
use zymi_core.Store.{
  Row, Head, Stream, Walk, ChainVerification, accepted, walk_start, last_row, hash_of,
  compute_hash_v2, recompute_hash, new_row, append, skip_legacy, step_over, check_head, walk_rows,
  verify_chain,
}

last_row-snoc : (rows : List Row) (row : Row) → last_row (rows ++ row ∷ []) ≡ some row
unfolding last_row
last_row-snoc [] row = refl
last_row-snoc (r ∷ []) row = refl
last_row-snoc (r ∷ next ∷ rows) row = last_row-snoc (next ∷ rows) row

empty_hash : (s : Text) → is_empty s ≡ true → s ≡ []
unfolding is_empty
empty_hash [] h = refl
empty_hash (c ∷ s) h = cc

module _ (sha256 : List ℕ → Text) where
  unfoldable pub appends : List (Text × Text) → Stream → Stream
  appends [] s = s
  appends ((event_id, data') ∷ events) s = appends events (append sha256 event_id data' s)

  -- The walk over the rows of a stream comes to this point, whatever rows follow.
  abbrev Reaches : List Row → Walk → Type 0
  Reaches rows w =
      (head : Option Head) (more : List Row)
      → walk_rows sha256 head (rows ++ more) walk_start ≡ walk_rows sha256 head more w

  recompute_hash-new_row :
      (event_id data' : Text) (last : Option Row)
      → recompute_hash sha256 (new_row sha256 event_id data' last)
        ≡ some (new_row sha256 event_id data' last).hash
  unfolding recompute_hash new_row compute_hash_v2 is_empty starts_with strip_prefix
  recompute_hash-new_row event_id data' last = refl

  walk_rows-valid :
      (head : Option Head) (row : Row) (more : List Row) (w : Walk)
      → recompute_hash sha256 row ≡ some row.hash
      → row.prev_hash ≡ w.expected_prev_hash
      → walk_rows sha256 head (row ∷ more) w ≡ walk_rows sha256 head more (step_over row w)
  unfolding walk_rows
  walk_rows-valid head row more w n p =
      rw
        (
          walk_rows,
          n,
          (text_eq_iff row.prev_hash w.expected_prev_hash).1 p,
          (text_eq_iff row.hash row.hash).1 refl,
        )
        refl

  walk_rows-legacy :
      (head : Option Head) (row : Row) (more : List Row) (w : Walk)
      → is_empty row.hash ≡ true
      → walk_rows sha256 head (row ∷ more) w ≡ walk_rows sha256 head more (skip_legacy w)
  unfolding walk_rows recompute_hash
  walk_rows-legacy head row more w h = rw (walk_rows, recompute_hash, h) refl

  -- The walk ends in step with what `append` left.
  record InStep (s : Stream) (verified legacy : ℕ) : Type 0 where
    walk : Walk
    reached : Reaches s.rows walk
    expects : walk.expected_prev_hash ≡ hash_of (last_row s.rows)
    counted : walk.result ≡ record { verified = verified; legacy = legacy }
    headed :
        ((verified ≡ 0) × (s.head ≡ none))
        ⊎ ((verified ≢ 0)
            × (s.head
                ≡ some (record { last_sequence = walk.last_seq; last_hash = walk.last_hash })))

  append-InStep :
      (event_id data' : Text) (s : Stream) (v l : ℕ)
      → InStep s v l
      → InStep (append sha256 event_id data' s) (v + 1) l
  unfolding append new_row step_over
  append-InStep event_id data' s v l k =
      let row = new_row sha256 event_id data' (last_row s.rows) in
      record {
        walk = step_over row k.walk;
        reached = λ head more.
            ap (λ (r : List Row). walk_rows sha256 head r walk_start)
              (append_assoc s.rows (row ∷ []) more)
            ∙ k.reached head (row ∷ more)
            ∙ walk_rows-valid head row more k.walk
                (recompute_hash-new_row event_id data' (last_row s.rows)) (sym k.expects);
        expects = sym (ap hash_of (last_row-snoc s.rows row));
        counted =
            ap (λ (c : ChainVerification). record { verified = c.verified + 1; legacy = c.legacy })
              k.counted;
        headed = inr ((λ e. omega arith), refl);
      }

  appends-InStep :
      (events : List (Text × Text)) (s : Stream) (v l : ℕ)
      → InStep s v l
      → InStep (appends events s) (v + length events) l
  unfolding appends
  appends-InStep [] s v l k = subst (λ n. InStep s n l) (omega arith) k
  appends-InStep ((event_id, data') ∷ events) s v l k =
      subst (λ n. InStep (appends events (append sha256 event_id data' s)) n l) (omega arith)
        (appends-InStep events (append sha256 event_id data' s) (v + 1) l
          (append-InStep event_id data' s v l k))

  check_head-own :
      (w : Walk)
      → w.result.verified ≢ 0
      → check_head (some (record { last_sequence = w.last_seq; last_hash = w.last_hash })) w
        ≡ accepted w.result
  unfolding check_head
  check_head-own w z = let e = (text_eq_iff w.last_hash w.last_hash).1 refl in rw e (ground arith)

  check_head-accepted :
      (s : Stream) (v l : ℕ) (k : InStep s v l)
      → check_head s.head k.walk ≡ accepted (record { verified = v; legacy = l })
  unfolding check_head
  check_head-accepted s v l k = elim k.headed [
    | inl (z, n) ↦ rw n (ap accepted k.counted)
    | inr (z, e) ↦
        ap (λ h. check_head h k.walk) e
        ∙ check_head-own k.walk (λ n. z (sym (ap (λ c. c.verified) k.counted) ∙ n))
        ∙ ap accepted k.counted
  ]

  verify_chain-InStep :
      (s : Stream) (v l : ℕ)
      → InStep s v l
      → verify_chain sha256 s ≡ accepted (record { verified = v; legacy = l })
  unfolding verify_chain walk_rows
  verify_chain-InStep s v l k =
      ap (λ (r : List Row). walk_rows sha256 s.head r walk_start) (sym (append-nil s.rows))
      ∙ k.reached s.head []
      ∙ check_head-accepted s v l k

  past_legacy : List Row → Walk → Walk
  past_legacy [] w = w
  past_legacy (row ∷ rows) w = past_legacy rows (skip_legacy w)

  walk_rows-past_legacy :
      (head : Option Head) (rows more : List Row) (w : Walk)
      → All (λ row. is_empty row.hash ≡ true) rows
      → walk_rows sha256 head (rows ++ more) w ≡ walk_rows sha256 head more (past_legacy rows w)
  unfolding past_legacy
  walk_rows-past_legacy head [] more w a = refl
  walk_rows-past_legacy head (row ∷ rows) more w (h, a) =
      walk_rows-legacy head row (rows ++ more) w h
      ∙ walk_rows-past_legacy head rows more (skip_legacy w) a

  past_legacy-expects :
      (rows : List Row) (w : Walk) → (past_legacy rows w).expected_prev_hash ≡ w.expected_prev_hash
  unfolding past_legacy skip_legacy
  past_legacy-expects [] w = refl
  past_legacy-expects (row ∷ rows) w = past_legacy-expects rows (skip_legacy w)

  past_legacy-counted :
      (rows : List Row) (w : Walk)
      → (past_legacy rows w).result
        ≡ record { verified = w.result.verified; legacy = w.result.legacy + length rows }
  unfolding past_legacy skip_legacy
  past_legacy-counted [] w =
      ap (λ n. record { verified = w.result.verified; legacy = n }) (omega arith)
  past_legacy-counted (row ∷ rows) w =
      past_legacy-counted rows (skip_legacy w)
      ∙ ap (λ n. record { verified = w.result.verified; legacy = n }) (omega arith)

  legacy-last :
      (rows : List Row) → All (λ row. is_empty row.hash ≡ true) rows → hash_of (last_row rows) ≡ []
  unfolding last_row
  legacy-last [] a = refl
  legacy-last (row ∷ []) (h, a) = empty_hash row.hash h
  legacy-last (row ∷ next ∷ rows) (h, a) = legacy-last (next ∷ rows) a

  -- Whatever is appended to a stream of legacy rows that has no head yet, an empty one for
  -- instance, the stream is accepted: each event appended is verified, and each row that was there
  -- counted as legacy. This holds of every hash function.
  pub verify_chain-appends :
      (events : List (Text × Text)) (old : List Row)
      → All (λ row. is_empty row.hash ≡ true) old
      → verify_chain sha256 (appends events (record { rows = old; head = none }))
        ≡ accepted (record { verified = length events; legacy = length old })
  verify_chain-appends events old a = verify_chain-InStep _ (length events) (length old) (
      subst (λ n. InStep (appends events (record { rows = old; head = none })) n (length old))
        (omega arith)
        (appends-InStep events (record { rows = old; head = none }) 0 (length old)
          (record {
            walk = past_legacy old walk_start;
            reached = λ head more. walk_rows-past_legacy head old more walk_start a;
            expects = past_legacy-expects old walk_start ∙ sym (legacy-last old a);
            counted =
                past_legacy-counted old walk_start
                ∙ ap (λ n. record { verified = 0; legacy = n }) (omega arith);
            headed = inl (refl, refl);
          })))
