-- ===== src/Bus/Ring.antt =====
-- The ring of recent local identifiers, and what it spares the subscribers.
use zymi_core.Prelude.{
  ℕ, suc, ◌≤◌, ◌<◌, ◌≡◌, refl, sym, subst, ◌∙◌, true, false, not, ◌&&◌, ◌||◌, List, [], ◌∷◌, ◌++◌,
  ◌==◌, ltb, arith, ==_iff, length, length-append, Bool-cases, inl, inr,
}
use zymi_core.Events.{Uuid, Event}
use zymi_core.Bus.{
  has_id, remove_id, RecentLocal, evict, record_id, contains_id, recent_local_capacity, EventBus,
  publish, redeliver,
}

-- No identifier stands twice.
abbrev pub IsDistinct : List Uuid → Type 0
IsDistinct [] = Unit
IsDistinct (x ∷ xs) = (has_id xs x ≡ false) × IsDistinct xs

-- The set holds what the queue holds, each once, and no more than the capacity.
pub record IsSound (capacity : ℕ) (r : RecentLocal) : Type 0 where
  pub bounded : length r.queue ≤ capacity
  pub distinct : IsDistinct r.queue
  pub same : (id : Uuid) → has_id r.set id ≡ has_id r.queue id

has_id-append :
    (xs ys : List Uuid) (id : Uuid) → has_id (xs ++ ys) id ≡ has_id xs id || has_id ys id
unfolding has_id
has_id-append [] ys id = refl
has_id-append (x ∷ xs) ys id = ground (arith, has_id-append xs ys id)

has_id-remove_id :
    (xs : List Uuid) (x id : Uuid) → has_id (remove_id xs x) id ≡ not (x == id) && has_id xs id
unfolding has_id remove_id
has_id-remove_id [] x id = ground arith
has_id-remove_id (y ∷ xs) x id = ground (arith, has_id-remove_id xs x id)

IsDistinct-snoc :
    (xs : List Uuid) (id : Uuid) → IsDistinct xs → has_id xs id ≡ false → IsDistinct (xs ++ id ∷ [])
unfolding has_id
IsDistinct-snoc [] id d h = (refl, tt)
IsDistinct-snoc (x ∷ xs) id (e, d) h =
    (ground (arith, has_id-append xs (id ∷ []) x), IsDistinct-snoc xs id d (ground arith))

-- Eviction of one identifier too many.
evict-IsSound :
    (capacity : ℕ) (set queue : List Uuid)
    → length queue ≤ suc capacity
    → IsDistinct queue
    → ((id : Uuid) → has_id set id ≡ has_id queue id)
    → IsSound capacity (evict capacity set queue)
unfolding evict has_id
evict-IsSound capacity set [] b d s = record { bounded = omega arith; distinct = tt; same = s }
evict-IsSound capacity set (x ∷ queue) b (e, d) s =
    elim (Bool-cases (ltb capacity (length (x ∷ queue)))) [
      | inr f ↦ rw (evict, f) (record { bounded = ground arith; distinct = (e, d); same = s })
      | inl f ↦
          rw (evict, f)
            (record {
              bounded = omega arith;
              distinct = d;
              same = λ id. has_id-remove_id set x id ∙ elim (Bool-cases (x == id)) [
                | inl q ↦ rw q (subst (λ i. false ≡ has_id queue i) ((==_iff x id).0 q) (sym e))
                | inr q ↦ rw q (s id ∙ rw q refl)
              ];
            })
    ]

-- Every recording keeps the ring sound: its set and its queue hold the same identifiers, each once,
-- and never more than the capacity.
pub record_id-IsSound :
    (capacity : ℕ) (id : Uuid) (r : RecentLocal)
    → IsSound capacity r
    → IsSound capacity (record_id capacity id r)
unfolding record_id has_id
record_id-IsSound capacity id r k = elim (Bool-cases (has_id r.set id)) [
  | inl e ↦ rw (record_id, e) k
  | inr e ↦
      rw (record_id, e)
        (evict-IsSound capacity (id ∷ r.set) (r.queue ++ id ∷ [])
          (omega (arith, length-append r.queue (id ∷ []), k.bounded))
          (IsDistinct-snoc r.queue id k.distinct (sym (k.same id) ∙ e))
          (λ x. ground (arith, has_id-append r.queue (id ∷ []) x, k.same x)))
]

has_id-snoc : (xs : List Uuid) (id : Uuid) → has_id (xs ++ id ∷ []) id ≡ true
unfolding has_id
has_id-snoc [] id = ground arith
has_id-snoc (x ∷ xs) id = ground (arith, has_id-snoc xs id)

evict-kept :
    (capacity : ℕ) (set queue : List Uuid) (id : Uuid)
    → 0 < capacity
    → has_id (evict capacity set (queue ++ id ∷ [])).queue id ≡ true
unfolding evict has_id
evict-kept capacity set [] id h = elim (Bool-cases (ltb capacity 1)) [
  | inl f ↦ absurd (ground arith)
  | inr f ↦ rw (evict, f) (ground arith)
]
evict-kept capacity set (x ∷ queue) id h =
    elim (Bool-cases (ltb capacity (length (x ∷ (queue ++ id ∷ []))))) [
      | inl f ↦ rw (evict, f) (has_id-snoc queue id)
      | inr f ↦ rw (evict, f) (has_id-snoc (x ∷ queue) id)
    ]

contains_id-record_id :
    (capacity : ℕ) (id : Uuid) (r : RecentLocal)
    → 0 < capacity
    → IsSound capacity r
    → contains_id (record_id capacity id r) id ≡ true
unfolding contains_id record_id
contains_id-record_id capacity id r h k =
    (record_id-IsSound capacity id r k).same id ∙ elim (Bool-cases (has_id r.set id)) [
      | inl e ↦ rw (record_id, e) (sym (k.same id) ∙ e)
      | inr e ↦ rw (record_id, e) (evict-kept capacity (id ∷ r.set) r.queue id h)
    ]

-- With a sound ring, an event that was just published reaches nobody a second time: redelivering
-- it leaves the bus as it was.
pub redeliver-publish :
    (event : Event) (bus : EventBus)
    → IsSound recent_local_capacity bus.recent_local
    → redeliver event (publish true event bus).0 ≡ (publish true event bus).0
unfolding redeliver publish
redeliver-publish event bus k =
    rw
      (
        redeliver,
        contains_id-record_id recent_local_capacity event.id bus.recent_local (omega arith) k,
      )
      refl
