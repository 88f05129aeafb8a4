-- ===== src/Esaa/Replay/Settled.antt =====
-- approval.rs: what `replay_unfulfilled_approvals` does with the approvals that are open.
use zymi_core.Prelude.{
  ℕ, suc, ◌<◌, ◌≡◌, refl, sym, ap, ◌∙◌, Bool, true, false, not, ◌||◌, inl, inr, Option, none, some,
  List, [], ◌∷◌, Bool-cases, if◌then◌else◌, is_some, lookup, Distinct, insert_entry-Distinct,
  Distinct-All, done, Text,
}
use zymi_core.Events.{Event, EventKind, approval_requested}
use zymi_core.Bus.{EventBus}
use zymi_core.Esaa.Replay.{
  Restart, TailedEvent, numbered, Collected, nothing, note, note_page, undecided, Replayed, is_aged,
  timeout_chrono, conclude_replay, untouched, replay_unfulfilled_approvals,
}
use zymi_core.Esaa.Replay.Pages.{collect-numbered}
use zymi_core.Esaa.Replay.Requests.{
  later, last_request, is_decided, open_request, lookup-note_page, decided-note_page,
  lookup-undecided,
}
use zymi_core.Esaa.Replay.Loop.{
  mentions, passes, any_entry-lookup, IsRequest, last_request-IsRequest, replay_all-Settles,
}

note-Distinct :
    (e : Event) (k : EventKind) (c : Collected) → Distinct c.pending → Distinct (note e k c).pending
note-Distinct e (approval_requested id stream_id description explanation channel) c d =
    insert_entry-Distinct id e c.pending d
note-Distinct e _ c d = d

note_page-Distinct :
    (ts : List TailedEvent) (c : Collected) → Distinct c.pending → Distinct (note_page ts c).pending
unfolding note_page
note_page-Distinct [] c d = d
note_page-Distinct (t ∷ ts) c d =
    note_page-Distinct ts (note t.event t.event.kind c) (note-Distinct t.event t.event.kind c d)

undecided-Distinct :
    (decided : List (Text × Unit {0})) (m : List (Text × Event))
    → Distinct m
    → Distinct (undecided decided m)
unfolding undecided
undecided-Distinct decided [] d = tt
undecided-Distinct decided ((id, e) ∷ m) (n, d) = elim (Bool-cases (is_some (lookup id decided))) [
  | inl f ↦ rw f (undecided-Distinct decided m d)
  | inr f ↦ rw f (lookup-undecided id decided m ∙ (rw f n), undecided-Distinct decided m d)
]

-- The entries that the second pass goes over.
to_replay : List TailedEvent → List (Text × Event)
to_replay ts = undecided (note_page ts nothing).decided (note_page ts nothing).pending

later_none : (o : Option Event) → later o none ≡ o
later_none none = refl
later_none (some e) = refl

or_none : (b : Bool) → (b || is_some {A = Unit {0}} none) ≡ b
or_none true = refl
or_none false = refl

-- They are the open requests.
lookup-to_replay :
    (v : Text) (global : ℕ → ℕ) (store : List Event)
    → lookup v (to_replay (numbered global 0 store)) ≡ open_request v store
unfolding to_replay open_request lookup
lookup-to_replay v global store =
    let c = note_page (numbered global 0 store) nothing in
    lookup-undecided v c.decided c.pending
    ∙ ap (λ b. if b then none else lookup v c.pending)
        (decided-note_page v global 0 store nothing ∙ or_none (is_decided v store))
    ∙ ap (λ o. if is_decided v store then none else o)
        (lookup-note_page v global 0 store nothing ∙ later_none (last_request v store))

-- A request that is still in time.
abbrev pub in_time : (Event → Bool) → Option Event → Option Event
in_time aged none = none
in_time aged (some e) = if aged e then none else some e

closed_request :
    (aged : Event → Bool) (last : Option Event) (d : Bool)
    → (if passes aged (if d then none else last) || d then none else last)
      ≡ in_time aged (if d then none else last)
closed_request aged last true = refl
closed_request aged none false = refl
closed_request aged (some e) false = elim (Bool-cases (aged e)) [
  | inl t ↦ rw t refl
  | inr t ↦ rw t refl
]

module _ (h : Restart) (sends : (n : ℕ) → h.appends n ≡ true)
    (iterated : (m : List (Text × Event))
      → Distinct m
      → Distinct (h.iterate m) × ((v : Text) → lookup v (h.iterate m) ≡ lookup v m)) where
  abbrev aged_by : ℕ → Event → Bool
  aged_by timeout = is_aged h (timeout_chrono h timeout)

  abbrev young_by : ℕ → Event → Bool
  young_by timeout e = not (aged_by timeout e)

  -- What becomes of an approval, from what the second pass is given of it.
  Concludes : ℕ → EventBus → Replayed → Text → Option Event → Type 0
  Concludes timeout bus r v o =
      (last_request v r.bus.store ≡ last_request v bus.store)
      × (is_decided v r.bus.store ≡ (passes (aged_by timeout) o || is_decided v bus.store))
      × (mentions v r.report.expired ≡ passes (aged_by timeout) o)
      × (mentions v r.report.redelivered ≡ passes (young_by timeout) o)

  or_nothing : (b : Bool) → (b || false) ≡ b
  or_nothing true = refl
  or_nothing false = refl

  conclude_replay-Concludes :
      (timeout : ℕ) (bus : EventBus) (m : List (Text × Event))
      → Distinct m
      → ((v : Text) (e : Event) → lookup v m ≡ some e → IsRequest e.kind)
      → (r : Replayed) × (conclude_replay h timeout bus m ≡ done r)
        × ((v : Text) → Concludes timeout bus r v (lookup v m))
  unfolding Concludes lookup mentions
  conclude_replay-Concludes timeout bus [] d f =
      (untouched h bus, refl, λ v. (refl, refl, refl, refl))
  conclude_replay-Concludes timeout bus (p ∷ m) d f =
      let (distinct, same) = iterated (p ∷ m) d in
      let entries = h.iterate (p ∷ m) in
      let requests =
        Distinct-All (λ e. IsRequest e.kind) entries distinct λ v e g. f v e (sym (same v) ∙ g) in
      let (r, e, settles) =
        replay_all-Settles h sends (timeout_chrono h timeout) entries requests (untouched h bus) in
      let found = λ (t : Event → Bool) (v : Text).
        any_entry-lookup t v entries distinct ∙ ap (passes t) (same v) in
      (
        r,
        e,
        λ v.
            let (a, b, c, g) = settles v in
            (
              a,
              b ∙ ap (λ x. x || is_decided v bus.store) (found (aged_by timeout) v),
              c ∙ or_nothing _ ∙ found (aged_by timeout) v,
              g ∙ or_nothing _ ∙ found (young_by timeout) v,
            ),
      )

  open_request-IsRequest :
      (v : Text) (store : List Event) (e : Event) → open_request v store ≡ some e → IsRequest e.kind
  unfolding open_request
  open_request-IsRequest v store e g = elim (Bool-cases (is_decided v store)) [
    | inl t ↦ let found = rw t at g in cc
    | inr t ↦ last_request-IsRequest v store e (rw t at g)
  ]

  -- Where every append succeeds, the store numbers its events upwards, and the iteration of a map
  -- gives each of its entries once, the replay ends and does not panic, and of every approval: if it
  -- is open, its last request is told from its age. If that has reached the timeout, the approval is
  -- decided in the store afterwards, and reported as expired alone; if not, it is open as before, and
  -- reported as redelivered alone. An approval that is not open stays closed and is not reported.
  pub replay_unfulfilled_approvals-settles :
      (0 < h.global 0)
      → ((n : ℕ) → h.global n < h.global (suc n))
      → (timeout : ℕ) (bus : EventBus)
      → (r : Replayed) × (replay_unfulfilled_approvals h timeout bus ≡ done r)
        × ((v : Text)
            → (open_request v r.bus.store ≡ in_time (aged_by timeout) (open_request v bus.store))
              × (mentions v r.report.expired ≡ passes (aged_by timeout) (open_request v bus.store))
              × (mentions v r.report.redelivered
                  ≡ passes (young_by timeout) (open_request v bus.store)))
  unfolding replay_unfulfilled_approvals to_replay Concludes open_request
  replay_unfulfilled_approvals-settles positive up timeout bus =
      let store = bus.store in
      let rows = numbered h.global 0 store in
      let same = λ (v : Text). lookup-to_replay v h.global store in
      let (r, e, f) =
        conclude_replay-Concludes timeout bus (to_replay rows)
          (undecided-Distinct (note_page rows nothing).decided _
            (note_page-Distinct rows nothing tt))
          (λ v e g. open_request-IsRequest v store e (sym (same v) ∙ g)) in
      (
        r,
        rw (collect-numbered h.global positive up store 1023 nothing) e,
        λ v.
            let (a, b, c, g) = f v in
            (
              (rw (a, b, same v)
                  (closed_request (aged_by timeout) (last_request v store) (is_decided v store))),
              c ∙ ap (passes (aged_by timeout)) (same v),
              g ∙ ap (passes (young_by timeout)) (same v),
            ),
      )
