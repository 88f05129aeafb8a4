-- ===== src/Config/Dag/Counts.antt =====
-- Lists of texts counted: how often each occurs, and sums over a list.
use zymi_core.Config.Dag.{filter}
use zymi_core.Prelude.{
  ℕ, suc, ◌+◌, ◌≤◌, ◌<◌, ◌≡◌, refl, ◌⊎◌, inl, inr, Bool, true, false, List, [], ◌∷◌, ◌++◌,
  if◌then◌else◌, ltb, length, Text, text_eq, text_eq_iff, arith, tests, Bool-cases,
}

unfoldable pub occurrences : Text → List Text → ℕ
occurrences v [] = 0
occurrences v (x ∷ xs) = if text_eq v x then suc (occurrences v xs) else occurrences v xs

unfoldable pub total : (Text → ℕ) → List Text → ℕ
total f [] = 0
total f (x ∷ xs) = f x + total f xs

pub text_eq_refl : (v : Text) → text_eq v v ≡ true
text_eq_refl v = (text_eq_iff v v).1 refl

pub occurrences-append :
    (v : Text) (xs ys : List Text) → occurrences v (xs ++ ys) ≡ occurrences v xs + occurrences v ys
unfolding occurrences
occurrences-append v [] ys = omega arith
occurrences-append v (x ∷ xs) ys = elim (Bool-cases (text_eq v x)) [
  | inl e ↦ rw e (omega (arith, occurrences-append v xs ys))
  | inr e ↦ rw e (occurrences-append v xs ys)
]

pub total-append : (f : Text → ℕ) (xs ys : List Text) → total f (xs ++ ys) ≡ total f xs + total f ys
unfolding total
total-append f [] ys = omega arith
total-append f (x ∷ xs) ys = omega (arith, total-append f xs ys)

unfoldable pub remove : Text → List Text → List Text
remove x [] = []
remove x (y ∷ ys) = if text_eq x y then ys else y ∷ remove x ys

pub occurrences-nil : (v : Text) → occurrences v [] ≡ 0
unfolding occurrences
occurrences-nil v = refl

-- One more under a test.
ite_suc : (b : Bool) (n : ℕ) → (if b then suc n else n) ≡ n + (if b then 1 else 0)
ite_suc true n = omega arith
ite_suc false n = omega arith

pub occurrences-cons :
    (v x : Text) (xs : List Text)
    → occurrences v (x ∷ xs) ≡ occurrences v xs + (if text_eq v x then 1 else 0)
unfolding occurrences
occurrences-cons v x xs = ite_suc (text_eq v x) (occurrences v xs)

pub occurrences_self : (v : Text) (xs : List Text) → occurrences v (v ∷ xs) ≡ suc (occurrences v xs)
unfolding occurrences
occurrences_self v xs = rw (text_eq_refl v) refl

pub eq_of : (x y : Text) → text_eq x y ≡ true → x ≡ y
eq_of x y h = (text_eq_iff x y).0 h

-- What a test at its own head leaves.
occurs_in_tail :
    (x y : Text) (ys : List Text)
    → text_eq x y ≡ false
    → 0 < occurrences x (y ∷ ys)
    → 0 < occurrences x ys
unfolding occurrences
occurs_in_tail x y ys e h = rw e at h

occurrences-remove :
    (x v : Text) (ys : List Text)
    → 0 < occurrences x ys
    → occurrences v ys ≡ occurrences v (remove x ys) + (if text_eq v x then 1 else 0)
unfolding remove
occurrences-remove x v [] h = absurd (omega (arith, occurrences-nil x))
occurrences-remove x v (y ∷ ys) h = elim (Bool-cases (text_eq x y)) [
  | inl e ↦ rw (e, eq_of x y e) (occurrences-cons v y ys)
  | inr e ↦ rw e (
      omega (
        arith,
        occurrences-cons v y ys,
        occurrences-cons v y (remove x ys),
        occurrences-remove x v ys (occurs_in_tail x y ys e h),
      ))
]

total-remove :
    (f : Text → ℕ) (x : Text) (ys : List Text)
    → 0 < occurrences x ys
    → total f ys ≡ f x + total f (remove x ys)
unfolding remove total
total-remove f x [] h = absurd (omega (arith, occurrences-nil x))
total-remove f x (y ∷ ys) h = elim (Bool-cases (text_eq x y)) [
  | inl e ↦ rw (e, eq_of x y e) refl
  | inr e ↦ rw e (omega (arith, total-remove f x ys (occurs_in_tail x y ys e h)))
]

-- Every text occurs in `xs` at most as often as in `ys`.
abbrev pub Sub : List Text → List Text → Type 0
Sub xs ys = (v : Text) → occurrences v xs ≤ occurrences v ys

-- A sum over a list is at most the sum over a list that holds it.
pub total-Sub : (f : Text → ℕ) (xs ys : List Text) → Sub xs ys → total f xs ≤ total f ys
unfolding total
total-Sub f [] ys h = omega arith
total-Sub f (x ∷ xs) ys h =
    let here = occurs_head x xs ys h in
    let later =
      total-Sub f xs (remove x ys)
        (λ v. omega (arith, h v, occurrences-cons v x xs, occurrences-remove x v ys here)) in
    omega (arith, total-remove f x ys here)
  where
    occurs_head : (x : Text) (xs ys : List Text) → Sub (x ∷ xs) ys → 0 < occurrences x ys
    occurs_head x xs ys h = omega (arith, h x, occurrences_self x xs)

pub total-Same :
    (f : Text → ℕ) (xs ys : List Text)
    → ((v : Text) → occurrences v xs ≡ occurrences v ys)
    → total f xs ≡ total f ys
total-Same f xs ys h = omega (
  arith,
  total-Sub f xs ys (λ v. omega (arith, h v)),
  total-Sub f ys xs (λ v. omega (arith, h v)),
)

pub total-one : (xs : List Text) → total (λ _. 1) xs ≡ length xs
unfolding total
total-one [] = refl
total-one (x ∷ xs) = omega (arith, total-one xs)

pub length-Sub : (xs ys : List Text) → Sub xs ys → length xs ≤ length ys
length-Sub xs ys h = omega (arith, total-Sub (λ _. 1) xs ys h, total-one xs, total-one ys)

-- `others v` counts what is not `v`.
abbrev others : Text → Text → ℕ
others v u = if text_eq v u then 0 else 1

length-others : (v : Text) (xs : List Text) → length xs ≡ occurrences v xs + total (others v) xs
unfolding total
length-others v [] = omega (arith, occurrences-nil v)
length-others v (x ∷ xs) = elim (Bool-cases (text_eq v x)) [
  | inl e ↦ rw e (omega (arith, length-others v xs, rw e at (occurrences-cons v x xs)))
  | inr e ↦ rw e (omega (arith, length-others v xs, rw e at (occurrences-cons v x xs)))
]

-- A list held by one of its own length holds the same.
pub Sub-same_length :
    (xs ys : List Text)
    → Sub xs ys
    → length ys ≤ length xs
    → (v : Text) → occurrences v xs ≡ occurrences v ys
Sub-same_length xs ys h l v =
    omega (arith, h v, length-others v xs, length-others v ys, total-Sub (others v) xs ys h)

-- At the head of a list, and past it.
module _ (p : Text → Bool) (y v : Text) (ys : List Text)
    (h : occurrences v (filter p ys) ≡ (if p v then occurrences v ys else 0)) where
  filter-head :
      text_eq v y ≡ true
      → occurrences v (filter p (y ∷ ys)) ≡ (if p v then occurrences v (y ∷ ys) else 0)
  unfolding filter
  filter-head t = elim (Bool-cases (p y)) [
    | inl e ↦
        rw (eq_of v y t, e)
          (omega (
            arith,
            occurrences_self y (filter p ys),
            occurrences_self y ys,
            rw (eq_of v y t, e) at h,
          ))
    | inr e ↦ rw (eq_of v y t, e) (rw (eq_of v y t, e) at h)
  ]

  filter-tail :
      text_eq v y ≡ false
      → occurrences v (filter p (y ∷ ys)) ≡ (if p v then occurrences v (y ∷ ys) else 0)
  unfolding filter occurrences
  filter-tail t = elim (Bool-cases (p y)) [ inl e ↦ rw (e, t) h | inr e ↦ rw (e, t) h ]

pub occurrences-filter :
    (p : Text → Bool) (v : Text) (ys : List Text)
    → occurrences v (filter p ys) ≡ (if p v then occurrences v ys else 0)
unfolding filter
occurrences-filter p v [] = elim (Bool-cases (p v)) [
  | inl e ↦ rw e refl
  | inr e ↦ rw e (occurrences-nil v)
]
occurrences-filter p v (y ∷ ys) = elim (Bool-cases (text_eq v y)) [
  | inl t ↦ filter-head p y v ys (occurrences-filter p v ys) t
  | inr t ↦ filter-tail p y v ys (occurrences-filter p v ys) t
]

-- The members of `ys` that count.
abbrev counting : (Text → ℕ) → List Text → List Text
counting f ys = filter (λ y. ltb 0 (f y)) ys

total-counting : (f : Text → ℕ) (ys : List Text) → total f (counting f ys) ≡ total f ys
unfolding total filter
total-counting f [] = refl
total-counting f (y ∷ ys) = elim (Bool-cases (ltb 0 (f y))) [
  | inl e ↦ rw e (omega (arith, total-counting f ys))
  | inr e ↦ rw e (ground (arith, total-counting f ys))
]

-- A text that counts and occurs more often in `ys`, or none among `zs`.
abbrev pub More : (Text → ℕ) → List Text → List Text → Type 0
More f xs ys = (u : Text) × (0 < f u) × (occurrences u xs < occurrences u ys)

-- None among `zs` that counts occurs more often.
abbrev NoMore : (Text → ℕ) → List Text → List Text → List Text → Type 0
NoMore f xs ys zs =
    (u : Text) → 0 < occurrences u zs → 0 < f u → occurrences u ys ≤ occurrences u xs

NoMore-cons :
    (f : Text → ℕ) (xs ys : List Text) (z : Text) (zs : List Text)
    → NoMore f xs ys zs
    → (0 < f z → occurrences z ys ≤ occurrences z xs)
    → NoMore f xs ys (z ∷ zs)
NoMore-cons f xs ys z zs n b = λ u h k. elim (Bool-cases (text_eq u z)) [
  | inl e ↦ rw (eq_of u z e) (b (rw (eq_of u z e) at k))
  | inr e ↦ n u (occurs_in_tail u z zs e h) k
]

seek : (f : Text → ℕ) (xs ys zs : List Text) → More f xs ys ⊎ NoMore f xs ys zs
seek f xs ys [] = inr (λ u h k. absurd (omega (arith, occurrences-nil u)))
seek f xs ys (z ∷ zs) = elim (seek f xs ys zs) [
  | inl m ↦ inl m
  | inr n ↦ elim (Bool-cases (ltb 0 (f z))) [
    | inr e ↦ inr (NoMore-cons f xs ys z zs n (λ k. absurd (ground arith)))
    | inl e ↦ elim (Bool-cases (ltb (occurrences z xs) (occurrences z ys))) [
      | inl l ↦ inl (z, ground arith, ground arith)
      | inr l ↦ inr (NoMore-cons f xs ys z zs n (λ k. ground arith))
    ]
  ]
]

NoMore-Sub : (f : Text → ℕ) (xs ys : List Text) → NoMore f xs ys ys → Sub (counting f ys) xs
NoMore-Sub f xs ys n v = elim (Bool-cases (ltb 0 (f v))) [
  | inr e ↦ omega (arith, rw e at (occurrences-filter (λ y. ltb 0 (f y)) v ys))
  | inl e ↦ elim (Bool-cases (ltb 0 (occurrences v ys))) [
    | inl o ↦ omega (
      tests,
      rw e at (occurrences-filter (λ y. ltb 0 (f y)) v ys),
      n v (omega tests) (omega tests),
    )
    | inr o ↦ ground (arith, rw e at (occurrences-filter (λ y. ltb 0 (f y)) v ys))
  ]
]

-- Where the sum is more, some text that counts occurs more often.
pub total_increase : (f : Text → ℕ) (xs ys : List Text) → total f xs < total f ys → More f xs ys
total_increase f xs ys h = elim (seek f xs ys ys) [
  | inl m ↦ m
  | inr n ↦
      absurd
        (omega (arith, total-Sub f (counting f ys) xs (NoMore-Sub f xs ys n), total-counting f ys))
]
