-- ===== src/Esaa/Replay/Requests.antt =====
-- approval.rs: which approvals a store leaves open.
use zymi_core.Prelude.{
  ℕ, suc, ◌≡◌, refl, sym, ap, ◌∙◌, Bool, true, false, ◌||◌, inl, inr, Option, none, some, List, [],
  ◌∷◌, Bool-cases, if◌then◌else◌, is_some, lookup, lookup-insert_entry, Text, text_eq, text_eq_iff,
}
use zymi_core.Events.{Event, EventKind, approval_requested, approval_granted, approval_denied}
use zymi_core.Esaa.Replay.{numbered, Collected, note, note_page, undecided}

-- An event requests the approval `v`.
abbrev pub requests : Text → EventKind → Bool
requests v (approval_requested id stream_id description explanation channel) = text_eq v id
requests v _ = false

-- An event decides on the approval `v`.
abbrev pub decides : Text → EventKind → Bool
decides v (approval_granted id stream_id decided_by reason) = text_eq v id
decides v (approval_denied id stream_id decided_by reason) = text_eq v id
decides v _ = false

abbrev pub later : Option Event → Option Event → Option Event
later none before = before
later (some e) before = some e

-- The last request of an approval.
unfoldable pub last_request : Text → List Event → Option Event
last_request v [] = none
last_request v (e ∷ es) = later (last_request v es) (if requests v e.kind then some e else none)

unfoldable pub is_decided : Text → List Event → Bool
is_decided v [] = false
is_decided v (e ∷ es) = is_decided v es || decides v e.kind

-- The request of an approval on which no event decides.
unfoldable pub open_request : Text → List Event → Option Event
open_request v es = if is_decided v es then none else last_request v es

later_test :
    (a b : Option Event) (t : Bool) (e : Event)
    → later (later a (if t then some e else none)) b ≡ later a (if t then some e else b)
later_test none b true e = refl
later_test none b false e = refl
later_test (some a) b t e = refl

lookup-note :
    (v : Text) (e : Event) (k : EventKind) (c : Collected)
    → lookup v (note e k c).pending ≡ (if requests v k then some e else lookup v c.pending)
lookup-note v e (approval_requested id stream_id description explanation channel) c =
    lookup-insert_entry v id e c.pending
lookup-note v e _ c = refl

or_test : (a : Bool) (o : Option (Unit {0})) → is_some (if a then some tt else o) ≡ (a || is_some o)
or_test true o = refl
or_test false o = refl

lookup-note_decided :
    (v : Text) (e : Event) (k : EventKind) (c : Collected)
    → is_some (lookup v (note e k c).decided) ≡ (decides v k || is_some (lookup v c.decided))
lookup-note_decided v e (approval_granted id stream_id decided_by reason) c =
    ap is_some (lookup-insert_entry v id tt c.decided) ∙ or_test (text_eq v id) (lookup v c.decided)
lookup-note_decided v e (approval_denied id stream_id decided_by reason) c =
    ap is_some (lookup-insert_entry v id tt c.decided) ∙ or_test (text_eq v id) (lookup v c.decided)
lookup-note_decided v e _ c = refl

or_assoc : (a b c : Bool) → (a || (b || c)) ≡ ((a || b) || c)
or_assoc true b c = refl
or_assoc false b c = refl

-- What is noted of the events of a store.
pub lookup-note_page :
    (v : Text) (global : ℕ → ℕ) (n : ℕ) (es : List Event) (c : Collected)
    → lookup v (note_page (numbered global n es) c).pending
      ≡ later (last_request v es) (lookup v c.pending)
unfolding note_page numbered last_request
lookup-note_page v global n [] c = refl
lookup-note_page v global n (e ∷ es) c =
    lookup-note_page v global (suc n) es (note e e.kind c)
    ∙ ap (later (last_request v es)) (lookup-note v e e.kind c)
    ∙ sym (later_test (last_request v es) (lookup v c.pending) (requests v e.kind) e)

pub decided-note_page :
    (v : Text) (global : ℕ → ℕ) (n : ℕ) (es : List Event) (c : Collected)
    → is_some (lookup v (note_page (numbered global n es) c).decided)
      ≡ (is_decided v es || is_some (lookup v c.decided))
unfolding note_page numbered is_decided
decided-note_page v global n [] c = refl
decided-note_page v global n (e ∷ es) c =
    decided-note_page v global (suc n) es (note e e.kind c)
    ∙ ap (λ b. is_decided v es || b) (lookup-note_decided v e e.kind c)
    ∙ or_assoc (is_decided v es) (decides v e.kind) (is_some (lookup v c.decided))

pub lookup-undecided :
    (v : Text) (decided : List (Text × Unit {0})) (m : List (Text × Event))
    → lookup v (undecided decided m) ≡ (if is_some (lookup v decided) then none else lookup v m)
unfolding undecided lookup
lookup-undecided v decided [] = elim (Bool-cases (is_some (lookup v decided))) [
  | inl f ↦ rw f refl
  | inr f ↦ rw f refl
]
lookup-undecided v decided ((id, e) ∷ m) = elim (Bool-cases (is_some (lookup id decided))) [
  | inl f ↦ elim (Bool-cases (text_eq v id)) [
    | inl g ↦ rw (f, lookup-undecided v decided m, (text_eq_iff v id).0 g, f) refl
    | inr g ↦ rw (f, g) (lookup-undecided v decided m)
  ]
  | inr f ↦ elim (Bool-cases (text_eq v id)) [
    | inl g ↦ rw (f, g, (text_eq_iff v id).0 g, f) refl
    | inr g ↦ rw (f, g) (lookup-undecided v decided m)
  ]
]
