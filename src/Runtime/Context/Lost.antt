-- ===== src/Runtime/Context/Lost.antt =====
-- runtime/context_builder.rs: a second compaction from the same start.
use zymi_core.Prelude.{
  ℕ, ◌<◌, ◌≤◌, ◌≡◌, refl, ap, ◌∙◌, false, inl, inr, List, [], ◌∷◌, ◌==◌, ==_iff, Bool-cases, arith,
}
use zymi_core.Events.{Event}
use zymi_core.Runtime.Context.{
  Compaction, compactions, sort_starts, convert, events_to_messages_with_seqs,
}

-- The sequences rise, from above `n` on.
abbrev pub Rises : ℕ → List Event → Type 0
Rises n [] = Unit
Rises n (e ∷ es) = (n < e.sequence) × Rises e.sequence es

-- A summary whose start is passed is never due again, and holds up those behind it.
convert-passed :
    (ranges : List Compaction) (c : Compaction) (cs : List Compaction) (n : ℕ) (es : List Event)
    → c.lo ≤ n
    → Rises n es
    → convert ranges (c ∷ cs) es ≡ convert ranges [] es
unfolding convert
convert-passed ranges c cs n [] h r = refl
convert-passed ranges c cs n (e ∷ es) h (a, r) =
    let rest = convert-passed ranges c cs e.sequence es (omega arith) r in
    rw (passed c.lo e.sequence (omega arith), rest) refl
  where
    passed : (x y : ℕ) → x < y → (x == y) ≡ false
    passed x y k = ground arith

-- Where the sequences of the events rise and, of the compacted ranges in the order of their starts,
-- the first two start at one sequence, the messages are those made with the first summary alone: the
-- second one is never shown, nor any behind it, though the events of all ranges are left out.
pub events_to_messages_with_seqs-lost :
    (events : List Event) (n : ℕ)
    → Rises n events
    → (first second : Compaction) (others : List Compaction)
    → sort_starts (compactions events) ≡ first ∷ second ∷ others
    → first.lo ≡ second.lo
    → events_to_messages_with_seqs events ≡ convert (compactions events) (first ∷ []) events
unfolding events_to_messages_with_seqs convert
events_to_messages_with_seqs-lost events n r first second others e same =
    ap (λ cs. convert (compactions events) cs events) e ∙ go (compactions events) n events r
  where
    go :
        (ranges : List Compaction) (m : ℕ) (es : List Event)
        → Rises m es
        → convert ranges (first ∷ second ∷ others) es ≡ convert ranges (first ∷ []) es
    go ranges m [] k = refl
    go ranges m (x ∷ xs) (a, k) =
        let later = go ranges x.sequence xs k in
        elim (Bool-cases (first.lo == x.sequence)) [
          | inl t ↦
              let at_start = (==_iff first.lo x.sequence).0 t in
              rw
                (
                  convert,
                  t,
                  convert-passed ranges second others x.sequence xs (omega arith) k,
                  later,
                )
                refl
          | inr t ↦ rw (convert, t, later) refl
        ]
