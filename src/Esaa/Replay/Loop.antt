-- ===== src/Esaa/Replay/Loop.antt =====
-- approval.rs: the second pass of `replay_unfulfilled_approvals`.
use zymi_core.Prelude.{
  ℕ, ◌≡◌, refl, sym, ap, ◌∙◌, subst, Bool, true, false, not, ◌&&◌, ◌||◌, inl, inr, Option, none,
  some, List, [], ◌∷◌, ◌++◌, All, Bool-cases, Option-cases, lookup, Distinct, done, Text, text_eq,
  text_eq_iff,
}
use zymi_core.Events.{Uuid, Event, EventKind, approval_requested, new_event, with_correlation}
use zymi_core.Bus.{publish, redeliver, contains_id}
use zymi_core.Esaa.Replay.{
  Restart, Replayed, stream_of, correlated, restart_denial, seal, repeat_request, is_aged,
  replay_all,
}
use zymi_core.Esaa.Replay.Requests.{requests, decides, last_request, is_decided}

-- The list names the approval.
unfoldable pub mentions : Text → List Text → Bool
mentions v [] = false
mentions v (x ∷ xs) = text_eq v x || mentions v xs

-- A test passes on what was found.
abbrev pub passes : (Event → Bool) → Option Event → Bool
passes f none = false
passes f (some e) = f e

unfoldable pub any_entry : (Event → Bool) → Text → List (Text × Event) → Bool
any_entry f v [] = false
any_entry f v ((id, e) ∷ m) = (text_eq v id && f e) || any_entry f v m

or_false : (b : Bool) → (b || false) ≡ b
or_false true = refl
or_false false = refl

or_swap : (a b c : Bool) → (a || (b || c)) ≡ (b || (a || c))
or_swap true true c = refl
or_swap true false c = refl
or_swap false b c = refl

any_entry-absent :
    (f : Event → Bool) (v : Text) (m : List (Text × Event))
    → lookup v m ≡ none
    → any_entry f v m ≡ false
unfolding any_entry lookup
any_entry-absent f v [] h = refl
any_entry-absent f v ((id, e) ∷ m) h = elim (Bool-cases (text_eq v id)) [
  | inl g ↦ let found = rw g at h in cc
  | inr g ↦ rw g (any_entry-absent f v m (rw g at h))
]

pub any_entry-lookup :
    (f : Event → Bool) (v : Text) (m : List (Text × Event))
    → Distinct m
    → any_entry f v m ≡ passes f (lookup v m)
unfolding any_entry lookup
any_entry-lookup f v [] d = refl
any_entry-lookup f v ((id, e) ∷ m) (n, d) = elim (Bool-cases (text_eq v id)) [
  | inl g ↦
      rw (g, any_entry-absent f v m (ap (λ w. lookup w m) ((text_eq_iff v id).0 g) ∙ n))
        (or_false (f e))
  | inr g ↦ rw g (any_entry-lookup f v m d)
]

mentions-snoc :
    (v : Text) (xs : List Text) (x : Text)
    → mentions v (xs ++ x ∷ []) ≡ (text_eq v x || mentions v xs)
unfolding mentions
mentions-snoc v [] x = refl
mentions-snoc v (y ∷ xs) x =
    ap (λ b. text_eq v y || b) (mentions-snoc v xs x)
    ∙ or_swap (text_eq v y) (text_eq v x) (mentions v xs)

or_rotate : (a b c : Bool) → ((a || b) || c) ≡ (a || (b || c))
or_rotate true b c = refl
or_rotate false b c = refl

is_decided-snoc :
    (v : Text) (es : List Event) (e : Event)
    → is_decided v (es ++ e ∷ []) ≡ (decides v e.kind || is_decided v es)
unfolding is_decided
is_decided-snoc v [] e = sym (or_false (decides v e.kind))
is_decided-snoc v (x ∷ es) e =
    ap (λ b. b || decides v x.kind) (is_decided-snoc v es e)
    ∙ or_rotate (decides v e.kind) (is_decided v es) (decides v x.kind)

last_request-snoc :
    (v : Text) (es : List Event) (e : Event)
    → requests v e.kind ≡ false
    → last_request v (es ++ e ∷ []) ≡ last_request v es
unfolding last_request
last_request-snoc v [] e h = rw h refl
last_request-snoc v (x ∷ es) e h = rw (last_request-snoc v es e h) refl

unfoldable pub IsRequest : EventKind → Type 0
IsRequest k = (stream_id : Text) × (stream_of k ≡ done stream_id)

requests-IsRequest : (v : Text) (k : EventKind) → requests v k ≡ true → IsRequest k
unfolding IsRequest
requests-IsRequest v (approval_requested id stream_id description explanation channel) h =
    (stream_id, refl)
requests-IsRequest v _ h = cc

pub last_request-IsRequest :
    (v : Text) (es : List Event) (e : Event) → last_request v es ≡ some e → IsRequest e.kind
unfolding last_request
last_request-IsRequest v [] e h = cc
last_request-IsRequest v (x ∷ es) e h = elim (Option-cases (last_request v es)) [
  | inl n ↦ elim (Bool-cases (requests v x.kind)) [
    | inl r ↦ subst passes_kind (rw (n, r) at h) (requests-IsRequest v x.kind r)
    | inr r ↦ let found = rw (n, r) at h in cc
  ]
  | inr (y, s) ↦ last_request-IsRequest v es e (s ∙ (rw s at h))
]
  where
    passes_kind : Option Event → Type 0
    passes_kind none = Unit
    passes_kind (some y) = IsRequest y.kind

or_turn : (a b c : Bool) → (b || (a || c)) ≡ (((a && true) || b) || c)
or_turn true true c = refl
or_turn true false c = refl
or_turn false b c = refl

or_skip : (a b c : Bool) → (b || c) ≡ (((a && false) || b) || c)
or_skip true b c = refl
or_skip false b c = refl

correlated-kind : (o : Option Uuid) (e : Event) → (correlated o e).kind ≡ e.kind
unfolding with_correlation
correlated-kind none e = refl
correlated-kind (some corr) e = refl

-- One more entry: `a` says that it is of the approval, `t` that the test passes on it.
entry_passed : (a b c t : Bool) → t ≡ true → (b || (a || c)) ≡ (((a && t) || b) || c)
entry_passed a b c t e = rw e (or_turn a b c)

entry_failed : (a b c t : Bool) → t ≡ false → (b || c) ≡ (((a && t) || b) || c)
entry_failed a b c t e = rw e (or_skip a b c)

module _ (h : Restart) where
  denial_kind :
      (id : Text) (ev : Event) (stream_id : Text) (tick : ℕ) (v : Text)
      → (requests v (restart_denial h id ev stream_id tick).kind ≡ false)
        × (decides v (restart_denial h id ev stream_id tick).kind ≡ text_eq v id)
  unfolding restart_denial new_event
  denial_kind id ev stream_id tick v = (
    ap (requests v) (correlated-kind ev.correlation_id _),
    ap (decides v) (correlated-kind ev.correlation_id _),
  )

  module _ (sends : (n : ℕ) → h.appends n ≡ true) (timeout : ℕ) where
    abbrev pub aged : Event → Bool
    aged = is_aged h timeout

    abbrev pub young : Event → Bool
    young e = not (aged e)

    -- What the second pass leaves, of what it found.
    abbrev pub Settles : Text → List (Text × Event) → Replayed → Replayed → Type 0
    Settles v m s r =
        (last_request v r.bus.store ≡ last_request v s.bus.store)
        × (is_decided v r.bus.store ≡ (any_entry aged v m || is_decided v s.bus.store))
        × (mentions v r.report.expired ≡ (any_entry aged v m || mentions v s.report.expired))
        × (mentions v r.report.redelivered
            ≡ (any_entry young v m || mentions v s.report.redelivered))

    seal-sent :
        (id : Text) (ev : Event) (stream_id : Text) (s : Replayed)
        → ((seal h id ev stream_id s).bus.store
            ≡ s.bus.store ++ restart_denial h id ev stream_id s.tick ∷ [])
          × ((seal h id ev stream_id s).report.expired ≡ s.report.expired ++ id ∷ [])
          × ((seal h id ev stream_id s).report.redelivered ≡ s.report.redelivered)
    unfolding seal publish
    seal-sent id ev stream_id s = rw (sends s.tick) (refl, refl, refl)

    repeat_request-store :
        (id : Text) (ev : Event) (s : Replayed) → (repeat_request h id ev s).bus.store ≡ s.bus.store
    unfolding repeat_request redeliver
    repeat_request-store id ev s = elim (Bool-cases (contains_id s.bus.recent_local ev.id)) [
      | inl e ↦ rw e refl
      | inr e ↦ rw e refl
    ]

    -- An expired entry, in front of others.
    seal-Settles :
        (v id : Text) (ev : Event) (stream_id : Text) (m : List (Text × Event)) (s r : Replayed)
        → aged ev ≡ true
        → Settles v m (seal h id ev stream_id s) r
        → Settles v ((id, ev) ∷ m) s r
    unfolding any_entry
    seal-Settles v id ev stream_id m s r t (a, b, c, d) =
        let (store, expired, redelivered) = seal-sent id ev stream_id s in
        let denial = restart_denial h id ev stream_id s.tick in
        let (quiet, closes) = denial_kind id ev stream_id s.tick v in
        (
          a ∙ ap (last_request v) store ∙ last_request-snoc v s.bus.store denial quiet,
          b
              ∙ ap (λ x. any_entry aged v m || x)
                  (ap (is_decided v) store
                    ∙ is_decided-snoc v s.bus.store denial
                    ∙ ap (λ x. x || is_decided v s.bus.store) closes)
              ∙ entry_passed (text_eq v id) (any_entry aged v m) (is_decided v s.bus.store)
                  (aged ev) t,
          c
              ∙ ap (λ x. any_entry aged v m || x)
                  (ap (mentions v) expired ∙ mentions-snoc v s.report.expired id)
              ∙ entry_passed (text_eq v id) (any_entry aged v m) (mentions v s.report.expired)
                  (aged ev) t,
          d
              ∙ ap (λ x. any_entry young v m || mentions v x) redelivered
              ∙ entry_failed (text_eq v id) (any_entry young v m) (mentions v s.report.redelivered)
                  (young ev) (ap not t),
        )

    -- One in time.
    repeat_request-Settles :
        (v id : Text) (ev : Event) (m : List (Text × Event)) (s r : Replayed)
        → aged ev ≡ false
        → Settles v m (repeat_request h id ev s) r
        → Settles v ((id, ev) ∷ m) s r
    unfolding any_entry repeat_request
    repeat_request-Settles v id ev m s r t (a, b, c, d) =
        let store = repeat_request-store id ev s in
        (
          a ∙ ap (last_request v) store,
          b
              ∙ ap (λ x. any_entry aged v m || is_decided v x) store
              ∙ entry_failed (text_eq v id) (any_entry aged v m) (is_decided v s.bus.store)
                  (aged ev) t,
          c
              ∙ entry_failed (text_eq v id) (any_entry aged v m) (mentions v s.report.expired)
                  (aged ev) t,
          d
              ∙ ap (λ x. any_entry young v m || x) (mentions-snoc v s.report.redelivered id)
              ∙ entry_passed (text_eq v id) (any_entry young v m) (mentions v s.report.redelivered)
                  (young ev) (ap not t),
        )

    pub replay_all-Settles :
        (m : List (Text × Event))
        → All (λ p. IsRequest p.1.kind) m
        → (s : Replayed)
        → (r : Replayed) × (replay_all h timeout m s ≡ done r) × ((v : Text) → Settles v m s r)
    unfolding replay_all any_entry IsRequest
    replay_all-Settles [] a s = (s, refl, λ v. (refl, refl, refl, refl))
    replay_all-Settles ((id, ev) ∷ m) ((stream_id, k), a) s = elim (Bool-cases (aged ev)) [
      | inl t ↦
          let (r, e, f) = replay_all-Settles m a (seal h id ev stream_id s) in
          (r, rw (t, k) e, λ v. seal-Settles v id ev stream_id m s r t (f v))
      | inr t ↦
          let (r, e, f) = replay_all-Settles m a (repeat_request h id ev s) in
          (r, rw t e, λ v. repeat_request-Settles v id ev m s r t (f v))
    ]
