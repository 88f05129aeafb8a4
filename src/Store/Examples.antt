-- ===== src/Store/Examples.antt =====
-- The hash chain at concrete streams: tests, and the theorems at inputs that meet their hypotheses.
use zymi_core.Prelude.{
  ℕ, ◌≡◌, ◌≢◌, refl, none, some, List, [], ◌∷◌, Text, codes, arith, is_empty, text_eq, starts_with,
  strip_prefix,
}
use zymi_core.Store.{
  Row, Stream, accepted, broken_hash, truncated, utf8, as_bytes, le_bytes, compute_hash_v1,
  compute_hash_v2, recompute_hash, last_row, new_row, append, skip_legacy, step_over, check_head,
  walk_rows, verify_chain,
}
use zymi_core.Store.Appends.{appends, verify_chain-appends}
use zymi_core.Store.Edits.{verify_chain-edited}
use zymi_core.Store.Tampering.{verify_chain-forged, verify_chain-truncated}

-- A digest that gives everything away.
abbrev digest : List ℕ → Text
digest bytes = bytes

abbrev old_row : Row
old_row = record {
  event_id = codes "e0";
  sequence = 1;
  data' = codes "old";
  prev_hash = [];
  hash = [];
}

abbrev events : List (Text × Text)
events = (codes "e1", codes "x") ∷ (codes "e2", codes "y") ∷ []

-- A place to unfold what a verification runs through.
parts : Unit {0}
unfolding is_empty text_eq starts_with strip_prefix utf8 as_bytes le_bytes compute_hash_v1
    compute_hash_v2 recompute_hash last_row new_row append skip_legacy step_over check_head
    walk_rows verify_chain appends
parts = tt

abbrev edited : Row → Row
edited row = record {
  event_id = row.event_id;
  sequence = row.sequence;
  data' = codes "z";
  prev_hash = row.prev_hash;
  hash = row.hash;
}

abbrev edit_last : List Row → List Row
edit_last [] = []
edit_last (row ∷ []) = edited row ∷ []
edit_last (row ∷ next ∷ rows) = row ∷ edit_last (next ∷ rows)

abbrev drop_last : List Row → List Row
drop_last [] = []
drop_last (row ∷ []) = []
drop_last (row ∷ next ∷ rows) = row ∷ drop_last (next ∷ rows)

abbrev fresh : Stream
fresh = record { rows = old_row ∷ []; head = none }

detects_edit :
    verify_chain digest (record {
      rows = edit_last (appends digest events fresh).rows;
      head = (appends digest events fresh).head;
    })
    ≡ broken_hash (codes "e2")
unfolding parts
detects_edit = refl

detects_truncation :
    verify_chain digest (record {
      rows = drop_last (appends digest events fresh).rows;
      head = (appends digest events fresh).head;
    })
    ≡ truncated
unfolding parts
detects_truncation = refl

verify_chain-appends_example :
    verify_chain digest (appends digest events fresh)
    ≡ accepted (record { verified = 2; legacy = 1 })
unfolding is_empty
verify_chain-appends_example = verify_chain-appends digest events (old_row ∷ []) (refl, tt)

abbrev forged : Row
forged = record {
  event_id = codes "e9";
  sequence = 2;
  data' = codes "forged";
  prev_hash = [];
  hash = [];
}

verify_chain-forged_example :
    verify_chain digest (record { rows = old_row ∷ forged ∷ []; head = none })
    ≡ accepted (record { verified = 0; legacy = 2 })
unfolding parts
verify_chain-forged_example = verify_chain-forged digest none (old_row ∷ []) [] forged refl

verify_chain-truncated_example :
    verify_chain digest (record {
      rows = old_row ∷ [];
      head = some (record { last_sequence = 3; last_hash = codes "v2:" });
    })
    ≢ accepted (record { verified = 0; legacy = 1 })
verify_chain-truncated_example =
    verify_chain-truncated digest (record { last_sequence = 3; last_hash = codes "v2:" })
      (old_row ∷ []) (record { verified = 0; legacy = 1 }) ((λ e. omega arith), tt)

-- A digest under which all rows collide.
abbrev constant : List ℕ → Text
constant bytes = []

abbrev hashed : Row
hashed = record {
  event_id = codes "e1";
  sequence = 1;
  data' = codes "x";
  prev_hash = [];
  hash = codes "v2:";
}

verify_chain-edited_example :
    recompute_hash constant (edited hashed) ≡ recompute_hash constant hashed
unfolding parts
verify_chain-edited_example =
    verify_chain-edited constant none [] [] hashed (edited hashed)
      (record { verified = 1; legacy = 0 }) (record { verified = 1; legacy = 0 }) refl refl refl
      refl
