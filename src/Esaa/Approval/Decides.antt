-- ===== src/Esaa/Approval/Decides.antt =====
-- Which event decides an approval.
use zymi_core.Prelude.{
  ◌≡◌, ◌↔◌, refl, sym, ap, ◌∙◌, inl, inr, ◌⊎◌, Bool, true, false, Option, none, some, Option-cases,
  List, [], ◌∷◌, arith, Text, text_eq_iff,
}
use mathlib.Core.Option.{none-ne-some, some-injective}
use zymi_core.Events.{Event, EventKind, approval_granted, approval_denied}
use zymi_core.Esaa.Approval.{decision, await_decision}

-- The decision on this approval that an event of this kind is.
abbrev pub Verdict : Text → Bool → EventKind → Type 0
Verdict approval_id true kind =
    (stream_id decided_by : Text) × (reason : Option Text) × (kind
      ≡ approval_granted approval_id stream_id decided_by reason)
Verdict approval_id false kind =
    (stream_id decided_by : Text) × (reason : Option Text) × (kind
      ≡ approval_denied approval_id stream_id decided_by reason)

-- The first of these events that decides the approval decides it so.
abbrev pub FirstVerdict : Text → Bool → List Event → Type 0
FirstVerdict approval_id verdict [] = ⊥
FirstVerdict approval_id verdict (event ∷ events) =
    Verdict approval_id verdict event.kind
    ⊎ ((¬ Verdict approval_id true event.kind)
        × (¬ Verdict approval_id false event.kind)
        × FirstVerdict approval_id verdict events)

decision→ :
    (aid : Text) (verdict : Bool) (kind : EventKind)
    → decision aid kind ≡ some verdict
    → Verdict aid verdict kind
unfolding decision
decision→ aid true (approval_granted id s d r) h =
    (s, d, r, ap (λ i. approval_granted i s d r) ((text_eq_iff id aid).0 (ground arith)))
decision→ aid false (approval_granted id s d r) h = ground arith
decision→ aid true (approval_denied id s d r) h = ground arith
decision→ aid false (approval_denied id s d r) h =
    (s, d, r, ap (λ i. approval_denied i s d r) ((text_eq_iff id aid).0 (ground arith)))
decision→ aid verdict _ h = cc

decision← :
    (aid : Text) (verdict : Bool) (kind : EventKind)
    → Verdict aid verdict kind
    → decision aid kind ≡ some verdict
unfolding decision
decision← aid true kind (s, d, r, e) = rw e (rw ((text_eq_iff aid aid).1 refl) refl)
decision← aid false kind (s, d, r, e) = rw e (rw ((text_eq_iff aid aid).1 refl) refl)

await_decision-skip :
    (aid : Text) (event : Event) (events : List Event)
    → decision aid event.kind ≡ none
    → await_decision aid (event ∷ events) ≡ await_decision aid events
unfolding await_decision
await_decision-skip aid event events n = rw (await_decision, n) refl

await_decision-hit :
    (aid : Text) (verdict : Bool) (event : Event) (events : List Event)
    → decision aid event.kind ≡ some verdict
    → await_decision aid (event ∷ events) ≡ some verdict
unfolding await_decision
await_decision-hit aid verdict event events n = rw (await_decision, n) refl

not-passed :
    (aid : Text) (verdict : Bool) (kind : EventKind)
    → Verdict aid verdict kind
    → ¬ Verdict aid true kind
    → ¬ Verdict aid false kind
    → ⊥
not-passed aid true kind v a b = a v
not-passed aid false kind v a b = b v

-- The wait ends with a decision iff that is the first one on this approval to arrive.
pub await_decision_iff :
    (aid : Text) (verdict : Bool) (events : List Event)
    → (await_decision aid events ≡ some verdict) ↔ FirstVerdict aid verdict events
unfolding await_decision
await_decision_iff aid verdict [] = ((λ h. absurd (none-ne-some verdict h)), (λ h. elim h [ ]))
await_decision_iff aid verdict (event ∷ events) = elim (Option-cases (decision aid event.kind)) [
  | inl n ↦ (
    (λ h. inr (
      (λ t. absurd (none-ne-some true (sym n ∙ decision← aid true event.kind t))),
      (λ f. absurd (none-ne-some false (sym n ∙ decision← aid false event.kind f))),
      (await_decision_iff aid verdict events).0 (sym (await_decision-skip aid event events n) ∙ h),
    )),
    λ h. elim h [
      | inl v ↦ await_decision-hit aid verdict event events (decision← aid verdict event.kind v)
      | inr (a, b, c) ↦
          await_decision-skip aid event events n ∙ (await_decision_iff aid verdict events).1 c
    ],
  )
  | inr (v, n) ↦ (
    (λ h.
        let e : v ≡ verdict =
          some-injective _ _ (sym (await_decision-hit aid v event events n) ∙ h) in
        inl (decision→ aid verdict event.kind (n ∙ ap some e))),
    λ h. elim h [
      | inl u ↦ await_decision-hit aid verdict event events (decision← aid verdict event.kind u)
      | inr (a, b, c) ↦ absurd (not-passed aid v event.kind (decision→ aid v event.kind n) a b)
    ],
  )
]
