-- ===== src/Bus/Window.antt =====
-- How long the ring remembers an identifier.
use zymi_core.Prelude.{
  ℕ, suc, ◌+◌, ◌≤◌, ◌<◌, ◌≡◌, refl, sym, subst, ap, ◌∙◌, inl, inr, true, false, List, [], ◌∷◌, ◌++◌,
  append_assoc, ltb, arith, length, length-append, Bool-cases,
}
use zymi_core.Events.{Uuid}
use zymi_core.Bus.{has_id, RecentLocal, evict, record_id, contains_id}
use zymi_core.Bus.Ring.{IsSound, record_id-IsSound}

-- At most `n` identifiers stand behind this one in the queue.
record InWindow (n : ℕ) (id : Uuid) (queue : List Uuid) : Type 0 where
  before : List Uuid
  after : List Uuid
  parts : queue ≡ before ++ id ∷ after
  few : length after ≤ n

has_id-InWindow : (before after : List Uuid) (id : Uuid) → has_id (before ++ id ∷ after) id ≡ true
unfolding has_id
has_id-InWindow [] after id = ground arith
has_id-InWindow (x ∷ before) after id = ground (arith, has_id-InWindow before after id)

evict-InWindow :
    (capacity n : ℕ) (set before after : List Uuid) (id : Uuid)
    → length after ≤ n
    → suc n ≤ capacity
    → InWindow n id (evict capacity set (before ++ id ∷ after)).queue
unfolding evict
evict-InWindow capacity n set [] after id f h =
    elim (Bool-cases (ltb capacity (length (id ∷ after)))) [
      | inl e ↦ absurd (ground arith)
      | inr e ↦ rw (evict, e) (record { before = []; after = after; parts = refl; few = f })
    ]
evict-InWindow capacity n set (x ∷ before) after id f h =
    elim (Bool-cases (ltb capacity (length (x ∷ (before ++ id ∷ after))))) [
      | inl e ↦ rw (evict, e) (record { before = before; after = after; parts = refl; few = f })
      | inr e ↦ rw (evict, e) (record { before = x ∷ before; after = after; parts = refl; few = f })
    ]

record_id-fresh :
    (capacity : ℕ) (id : Uuid) (r : RecentLocal)
    → 0 < capacity
    → has_id r.set id ≡ false
    → InWindow 0 id (record_id capacity id r).queue
unfolding record_id
record_id-fresh capacity id r h e =
    rw (record_id, e)
      (evict-InWindow capacity 0 (id ∷ r.set) r.queue [] id (omega arith) (omega arith))

record_id-InWindow :
    (capacity n : ℕ) (id x : Uuid) (r : RecentLocal)
    → suc n < capacity
    → InWindow n id r.queue
    → InWindow (suc n) id (record_id capacity x r).queue
unfolding record_id
record_id-InWindow capacity n id x r h k = elim (Bool-cases (has_id r.set x)) [
  | inl e ↦
      rw (record_id, e)
        (record { before = k.before; after = k.after; parts = k.parts; few = omega (arith, k.few) })
  | inr e ↦
      rw (record_id, e)
        (subst (λ q. InWindow (suc n) id (evict capacity (x ∷ r.set) q).queue)
          (sym (append_assoc k.before (id ∷ k.after) (x ∷ []))
            ∙ ap (λ (q : List Uuid). q ++ x ∷ []) (sym k.parts))
          (evict-InWindow capacity (suc n) (x ∷ r.set) k.before (k.after ++ x ∷ []) id
            (omega (arith, length-append k.after (x ∷ []), k.few)) (omega arith)))
]

unfoldable pub record_ids : ℕ → List Uuid → RecentLocal → RecentLocal
record_ids capacity [] r = r
record_ids capacity (id ∷ ids) r = record_ids capacity ids (record_id capacity id r)

record_ids-InWindow :
    (capacity n : ℕ) (id : Uuid) (ids : List Uuid) (r : RecentLocal)
    → n + length ids < capacity
    → IsSound capacity r
    → InWindow n id r.queue
    → contains_id (record_ids capacity ids r) id ≡ true
unfolding record_ids contains_id
record_ids-InWindow capacity n id [] r h k i =
    k.same id ∙ ap (λ q. has_id q id) i.parts ∙ has_id-InWindow i.before i.after id
record_ids-InWindow capacity n id (x ∷ ids) r h k i =
    record_ids-InWindow capacity (suc n) id ids (record_id capacity x r) (omega arith)
      (record_id-IsSound capacity x r k) (record_id-InWindow capacity n id x r (omega arith) i)

-- A sound ring remembers an identifier that is new to it through any further recordings that are
-- fewer than its capacity.
pub record_ids-contains :
    (capacity : ℕ) (id : Uuid) (ids : List Uuid) (r : RecentLocal)
    → length ids < capacity
    → IsSound capacity r
    → has_id r.set id ≡ false
    → contains_id (record_ids capacity ids (record_id capacity id r)) id ≡ true
record_ids-contains capacity id ids r h k e =
    record_ids-InWindow capacity 0 id ids (record_id capacity id r) (omega arith)
      (record_id-IsSound capacity id r k) (record_id-fresh capacity id r (omega arith) e)
