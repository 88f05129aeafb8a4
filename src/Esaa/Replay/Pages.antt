-- ===== src/Esaa/Replay/Pages.antt =====
-- approval.rs: the pages of the store are the whole store.
use zymi_core.Prelude.{
  ℕ, zero, suc, ◌≤◌, ◌<◌, ◌≡◌, refl, sym, ap, ◌∙◌, subst, false, inl, inr, List, [], ◌∷◌, ◌++◌, ltb,
  lt→ltb, ltb→lt, Bool-cases, length, take, drop, length-drop, take-append-drop, done, arith,
}
use zymi_core.Events.{Event}
use zymi_core.Esaa.Replay.{
  TailedEvent, numbered, beyond, Collected, note, note_page, last_seq, collect,
}

-- The numbers rise, from above `n` on.
abbrev pub Ascends : ℕ → List TailedEvent → Type 0
Ascends n [] = Unit
Ascends n (t ∷ ts) = (n < t.global_seq) × Ascends t.global_seq ts

numbered-Ascends :
    (global : ℕ → ℕ)
    → ((n : ℕ) → global n < global (suc n))
    → (m n : ℕ) (es : List Event) → m < global n
    → Ascends m (numbered global n es)
unfolding numbered
numbered-Ascends global up m n [] h = tt
numbered-Ascends global up m n (e ∷ es) h =
    (h, numbered-Ascends global up (global n) (suc n) es (up n))

Ascends-lower : (m n : ℕ) (ts : List TailedEvent) → m ≤ n → Ascends n ts → Ascends m ts
Ascends-lower m n [] h a = tt
Ascends-lower m n (t ∷ ts) h (a, b) = (omega arith, b)

beyond-Ascends : (n : ℕ) (ts : List TailedEvent) → Ascends n ts → beyond n ts ≡ ts
unfolding beyond
beyond-Ascends n [] a = refl
beyond-Ascends n (t ∷ ts) (a, b) =
    rw (lt→ltb n t.global_seq a)
      (ap (λ r. t ∷ r) (beyond-Ascends n ts (Ascends-lower n t.global_seq ts (omega arith) b)))

ltb-le : (a b : ℕ) → b ≤ a → ltb a b ≡ false
ltb-le a b h = elim (Bool-cases (ltb a b)) [
  | inl e ↦ absurd (omega (arith, ltb→lt a b e))
  | inr e ↦ e
]

beyond-beyond : (m n : ℕ) (ts : List TailedEvent) → m ≤ n → beyond n (beyond m ts) ≡ beyond n ts
unfolding beyond
beyond-beyond m n [] h = refl
beyond-beyond m n (t ∷ ts) h = elim (Bool-cases (ltb m t.global_seq)) [
  | inl e ↦ rw (e, beyond-beyond m n ts h) refl
  | inr e ↦ elim (Bool-cases (ltb n t.global_seq)) [
    | inl f ↦ let g = lt→ltb m t.global_seq (omega (arith, ltb→lt n t.global_seq f)) in cc
    | inr f ↦ rw (e, f) (beyond-beyond m n ts h)
  ]
]

last_seq-bound : (k m : ℕ) (ts : List TailedEvent) → Ascends m ts → m ≤ last_seq m (take k ts)
unfolding last_seq
last_seq-bound zero m ts a = omega arith
last_seq-bound (suc k) m [] a = omega arith
last_seq-bound (suc k) m (t ∷ ts) (a, b) = omega (arith, last_seq-bound k t.global_seq ts b)

-- Behind the last of a page stand the events that the page leaves.
beyond-last_seq :
    (k m : ℕ) (ts : List TailedEvent)
    → Ascends m ts
    → beyond (last_seq m (take k ts)) ts ≡ drop k ts
unfolding last_seq beyond
beyond-last_seq zero m ts a = beyond-Ascends m ts a
beyond-last_seq (suc k) m [] a = refl
beyond-last_seq (suc k) m (t ∷ ts) (a, b) =
    rw
      (ltb-le (last_seq t.global_seq (take k ts)) t.global_seq (last_seq-bound k t.global_seq ts b))
      (beyond-last_seq k t.global_seq ts b)

drop-Ascends :
    (k m : ℕ) (ts : List TailedEvent) → Ascends m ts → Ascends (last_seq m (take k ts)) (drop k ts)
unfolding last_seq
drop-Ascends zero m ts a = a
drop-Ascends (suc k) m [] a = tt
drop-Ascends (suc k) m (t ∷ ts) (a, b) = drop-Ascends k t.global_seq ts b

note_page-append :
    (xs ys : List TailedEvent) (c : Collected)
    → note_page (xs ++ ys) c ≡ note_page ys (note_page xs c)
unfolding note_page
note_page-append [] ys c = refl
note_page-append (t ∷ xs) ys c = note_page-append xs ys _

drop-short : (k : ℕ) (ts : List TailedEvent) → length (take k ts) < k → drop k ts ≡ []
drop-short zero ts h = absurd (omega arith)
drop-short (suc k) [] h = refl
drop-short (suc k) (t ∷ ts) h = drop-short k ts (omega arith)

-- One page and what is behind it, noted in order.
page_append :
    (k : ℕ) (ts : List TailedEvent) (c : Collected)
    → note_page (drop k ts) (note_page (take k ts) c) ≡ note_page ts c
page_append k ts c =
    sym (note_page-append (take k ts) (drop k ts) c)
    ∙ ap (λ xs. note_page xs c) (take-append-drop k ts)

-- With more rounds than rows that are left, the pages of at least one event note all of them.
collect-rest :
    (fuel k : ℕ) (rows : List TailedEvent) (from : ℕ) (rest : List TailedEvent) (c : Collected)
    → beyond from rows ≡ rest
    → Ascends from rest
    → length rest < fuel
    → collect fuel (suc k) rows from c ≡ done (note_page rest c)
unfolding collect
collect-rest zero k rows from rest c e a h = absurd (omega arith)
collect-rest (suc fuel) k rows from [] c e a h = rw (collect, e) refl
collect-rest (suc fuel) k rows from (t ∷ ts) c e (a, b) h =
    let last = last_seq t.global_seq (take k ts) in
    let noted = note t.event t.event.kind c in
    elim (Bool-cases (ltb (suc (length (take k ts))) (suc k))) [
      | inl f ↦
          rw (collect, e, f)
            (ap done (
              subst (λ xs. note_page xs (note_page (take k ts) noted) ≡ note_page ts noted)
                (drop-short k ts (omega (arith, ltb→lt (suc (length (take k ts))) (suc k) f)))
                (page_append k ts noted)))
      | inr f ↦
          rw (collect, e, f)
            (collect-rest fuel k rows last (drop k ts) (note_page (take k ts) noted)
                (sym (
                    beyond-beyond from last rows
                      (omega (arith, last_seq-bound k t.global_seq ts b)))
                  ∙ ap (beyond last) e
                  ∙ beyond-last_seq (suc k) from (t ∷ ts) (a, b))
                (drop-Ascends k t.global_seq ts b) (omega (arith, length-drop k ts))
              ∙ ap done (page_append k ts noted))
    ]

length-numbered :
    (global : ℕ → ℕ) (n : ℕ) (es : List Event) → length (numbered global n es) ≡ length es
unfolding numbered
length-numbered global n [] = refl
length-numbered global n (e ∷ es) = ap suc (length-numbered global (suc n) es)

-- The first pass ends, and notes every event of the store, in order.
pub collect-numbered :
    (global : ℕ → ℕ)
    → (0 < global 0)
    → ((n : ℕ) → global n < global (suc n))
    → (store : List Event) (k : ℕ) (c : Collected)
    → collect (suc (length store)) (suc k) (numbered global 0 store) 0 c
      ≡ done (note_page (numbered global 0 store) c)
collect-numbered global positive up store k c =
    let rows = numbered global 0 store in
    let rises = numbered-Ascends global up 0 0 store positive in
    collect-rest (suc (length store)) k rows 0 rows c (beyond-Ascends 0 rows rises) rises
      (omega (arith, length-numbered global 0 store))
