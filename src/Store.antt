-- ===== src/Store.antt =====
-- events/store/event_store.rs and events/store/sqlite.rs: the hash chain of one stream. The crate
-- `sha2` is a parameter, from the bytes to the digest in hexadecimal.
pub mod Appends
pub mod Tampering
pub mod Edits
mod Examples
use Prim.Native.Nat.{◌/◌, ◌%◌}
use zymi_core.Prelude.{
  ℕ, zero, suc, ◌+◌, ◌*◌, Bool, true, false, not, ◌&&◌, ◌||◌, Option, none, some, List, [], ◌∷◌,
  ◌++◌, ◌==◌, ltb, if◌then◌else◌, Text, codes, text_eq, is_empty, starts_with,
}

-- `as_bytes`: UTF-8.
unfoldable pub utf8 : ℕ → List ℕ
utf8 c =
    if ltb c 0x80
    then c ∷ []
    else if ltb c 0x800
    then (0xC0 + c / 0x40) ∷ (0x80 + c % 0x40) ∷ []
    else if ltb c 0x10000
    then (0xE0 + c / 0x1000) ∷ (0x80 + (c / 0x40) % 0x40) ∷ (0x80 + c % 0x40) ∷ []
    else (0xF0 + c / 0x40000)
      ∷ (0x80 + (c / 0x1000) % 0x40)
      ∷ (0x80 + (c / 0x40) % 0x40)
      ∷ (0x80 + c % 0x40)
      ∷ []

unfoldable pub as_bytes : Text → List ℕ
unfolding utf8
as_bytes [] = []
as_bytes (c ∷ s) = utf8 c ++ as_bytes s

-- The low `n` bytes of a number, the lowest first; `to_le_bytes` of a `u64` takes 8.
unfoldable pub le_bytes : ℕ → ℕ → List ℕ
le_bytes zero k = []
le_bytes (suc n) k = (k % 0x100) ∷ le_bytes n (k / 0x100)

abbrev pub hash_v2_prefix : Text
hash_v2_prefix = codes "v2:"

-- A row of `events`, as far as it is verified.
pub record Row : Type 0 where
  pub event_id : Text
  pub sequence : ℕ
  pub data' : Text
  pub prev_hash : Text
  pub hash : Text

-- A row of `stream_heads`.
pub record Head : Type 0 where
  pub last_sequence : ℕ
  pub last_hash : Text

-- The rows of one stream in the order of their sequence, and its head.
pub record Stream : Type 0 where
  pub rows : List Row
  pub head : Option Head

pub record ChainVerification : Type 0 where
  pub verified : ℕ
  pub legacy : ℕ

pub data Verification : Type 0 where
  accepted : ChainVerification → Verification
  broken_link broken_hash : (event_id : Text) → Verification
  deleted truncated : Verification

-- What the walk over the rows carries.
pub record Walk : Type 0 where
  pub expected_prev_hash : Text
  pub last_seq : ℕ
  pub last_hash : Text
  pub result : ChainVerification

abbrev pub walk_start : Walk
walk_start = record {
  expected_prev_hash = [];
  last_seq = 0;
  last_hash = [];
  result = record { verified = 0; legacy = 0 };
}

-- The row that `MAX(sequence)` and `ORDER BY sequence DESC LIMIT 1` find.
unfoldable pub last_row : List Row → Option Row
last_row [] = none
last_row (row ∷ []) = some row
last_row (row ∷ next ∷ rows) = last_row (next ∷ rows)

abbrev pub next_sequence : Option Row → ℕ
next_sequence none = 1
next_sequence (some row) = row.sequence + 1

abbrev pub hash_of : Option Row → Text
hash_of none = []
hash_of (some row) = row.hash

unfoldable pub skip_legacy : Walk → Walk
skip_legacy w = record {
  expected_prev_hash = w.expected_prev_hash;
  last_seq = w.last_seq;
  last_hash = w.last_hash;
  result = record { verified = w.result.verified; legacy = w.result.legacy + 1 };
}

unfoldable pub step_over : Row → Walk → Walk
step_over row w = record {
  expected_prev_hash = row.hash;
  last_seq = row.sequence;
  last_hash = row.hash;
  result = record { verified = w.result.verified + 1; legacy = w.result.legacy };
}

-- The check against the recorded head.
unfoldable pub check_head : Option Head → Walk → Verification
check_head none w = accepted w.result
check_head (some head) w =
    if w.result.verified == 0
    then deleted
    else if not (w.last_seq == head.last_sequence) || not (text_eq w.last_hash head.last_hash)
    then truncated
    else accepted w.result

module _ (sha256 : List ℕ → Text) where
  unfoldable pub compute_hash_v1 : Text → Text → Text → Text
  unfolding as_bytes
  compute_hash_v1 event_id data' prev_hash =
      sha256 (as_bytes event_id ++ as_bytes data' ++ as_bytes prev_hash)

  unfoldable pub compute_hash_v2 : Text → ℕ → Text → Text → Text
  unfolding as_bytes le_bytes
  compute_hash_v2 event_id sequence data' prev_hash =
      hash_v2_prefix
      ++ sha256 (
          as_bytes (codes "v2")
          ++ as_bytes event_id
          ++ le_bytes 8 sequence
          ++ as_bytes data'
          ++ as_bytes prev_hash)

  unfoldable pub recompute_hash : Row → Option Text
  recompute_hash row =
      if is_empty row.hash
      then none
      else if starts_with row.hash hash_v2_prefix
      then some (compute_hash_v2 row.event_id row.sequence row.data' row.prev_hash)
      else some (compute_hash_v1 row.event_id row.data' row.prev_hash)

  -- The row that `append` inserts.
  unfoldable pub new_row : Text → Text → Option Row → Row
  new_row event_id data' last = record {
    event_id = event_id;
    sequence = next_sequence last;
    data' = data';
    prev_hash = hash_of last;
    hash = compute_hash_v2 event_id (next_sequence last) data' (hash_of last);
  }

  -- `append`, where the database fails in none of its steps.
  unfoldable pub append : Text → Text → Stream → Stream
  append event_id data' s =
      let row = new_row event_id data' (last_row s.rows) in
      record {
        rows = s.rows ++ row ∷ [];
        head = some (record { last_sequence = row.sequence; last_hash = row.hash });
      }

  -- The loop over the rows, and what follows it.
  unfoldable pub walk_rows : Option Head → List Row → Walk → Verification
  walk_rows head [] w = check_head head w
  walk_rows head (row ∷ rows) w =
      let past = walk_rows head rows (skip_legacy w) in
      let onward = walk_rows head rows (step_over row w) in
      elim (recompute_hash row) [
        | none ↦ past
        | some computed ↦
            if not (text_eq row.prev_hash w.expected_prev_hash)
            then broken_link row.event_id
            else if not (text_eq computed row.hash)
            then broken_hash row.event_id
            else onward
      ]

  -- `verify_chain`, where the database fails in none of its steps.
  unfoldable pub verify_chain : Stream → Verification
  verify_chain s = walk_rows s.head s.rows walk_start
