-- ===== src/Esaa/Paths/Within.antt =====
-- What a path within an allowed directory is: that it lies below the directory, wherever both lead.
use zymi_core.Prelude.{
  ◌≡◌, ◌↔◌, refl, sym, subst, ap, ap₂, ◌∙◌, inl, inr, Bool, true, false, List, [], ◌∷◌, ◌++◌,
  reverse, starts_with, if◌then◌else◌, arith, Bool-cases, Text, text_eq, text_eq_iff, split_on,
  length, leb, length-append,
}
use mathlib.Core.List.{reverse-reverse, reverse-append}
use zymi_core.Esaa.Paths.{
  is_dot, is_dots, ascend, add_component, add_components, is_abs, normalize_components, zip_equal,
  is_within,
}
use zymi_core.Esaa.Paths.Resolve.{kept, lead-kept, IsKept, add_component-IsKept, lead, resolve}

zip_equal-append : (d s : List Text) → zip_equal (d ++ s) d ≡ true
unfolding zip_equal
zip_equal-append [] [] = refl
zip_equal-append [] (x ∷ s) = refl
zip_equal-append (t ∷ d) s = rw ((text_eq_iff t t).1 refl) (zip_equal-append d s)

zip_equal→ :
    (t d : List Text)
    → leb (length d) (length t) ≡ true
    → zip_equal t d ≡ true
    → (s : List Text) × (t ≡ d ++ s)
unfolding zip_equal
zip_equal→ t [] l h = (t, refl)
zip_equal→ [] (y ∷ d) l h = ground arith
zip_equal→ (x ∷ t) (y ∷ d) l h = elim (Bool-cases (text_eq x y)) [
  | inl e ↦
      let (s, q) = zip_equal→ t d (ground arith) (rw e at h) in
      (s, ap₂ ◌∷◌ ((text_eq_iff x y).0 e) q)
  | inr e ↦ ground arith
]

leb-append : (d s : List Text) → leb (length d) (length (d ++ s)) ≡ true
leb-append d s = ground (arith, length-append d s)

-- A list of components is within another iff it continues it.
pub is_within_iff : (t d : List Text) → (is_within t d ≡ true) ↔ ((s : List Text) × (t ≡ d ++ s))
unfolding is_within
is_within_iff t d = (
  (λ h. zip_equal→ t d (ground arith) (ground arith)),
  λ (s, q). rw q (rw (leb-append d s) (zip_equal-append d s)),
)

AllDots : List Text → Type 0
AllDots [] = Unit
AllDots (t ∷ out) = (is_dots t ≡ true) × AllDots out

-- Each `..` that is kept comes before every name.
IsLed : List Text → Type 0
IsLed [] = Unit
IsLed (t ∷ out) = (is_dots t ≡ true → AllDots out) × IsLed out

ascend-IsLed : (abs : Bool) (out : List Text) → IsLed out → IsLed (ascend abs out)
unfolding ascend IsLed AllDots
ascend-IsLed true [] k = tt
ascend-IsLed false [] k = ((λ e. tt), tt)
ascend-IsLed abs (t ∷ out) k = elim (Bool-cases (is_dots t)) [
  | inl e ↦ elim (Bool-cases abs) [ inl a ↦ rw (e, a) k | inr a ↦ rw (e, a) ((λ f. (e, k.0 e)), k) ]
  | inr e ↦ rw e k.1
]

add_component-IsLed :
    (abs : Bool) (comp : Text) (out : List Text) → IsLed out → IsLed (add_component abs comp out)
unfolding add_component IsLed
add_component-IsLed abs comp out k = elim (Bool-cases (is_dot comp)) [
  | inl e ↦ rw e k
  | inr e ↦ elim (Bool-cases (is_dots comp)) [
    | inl d ↦ rw (e, d) (ascend-IsLed abs out k)
    | inr d ↦ rw (e, d) ((λ f. cc), k)
  ]
]

add_components-Is :
    (abs : Bool) (comps out : List Text)
    → IsKept abs out
    → IsLed out
    → IsKept abs (add_components abs comps out) × IsLed (add_components abs comps out)
unfolding add_components
add_components-Is abs [] out k l = (k, l)
add_components-Is abs (comp ∷ comps) out k l =
    add_components-Is abs comps (add_component abs comp out) (add_component-IsKept abs comp out k)
      (add_component-IsLed abs comp out l)

-- A directory that its components, its end first, pin down: an absolute one, or one that ends in a
-- name.
abbrev pub IsPinned : Bool → List Text → Type 0
IsPinned true out = Unit
IsPinned false [] = true ≡ false
IsPinned false (t ∷ out) = is_dots t ≡ false

not-AllDots :
    (below : List Text) (t : Text) (out : List Text) → AllDots (below ++ t ∷ out) → is_dots t ≡ true
unfolding AllDots
not-AllDots [] t out k = k.0
not-AllDots (x ∷ below) t out k = not-AllDots below t out k.1

name-below :
    (abs : Bool) (t : Text) (below out : List Text)
    → IsKept abs (t ∷ (below ++ out))
    → IsLed (t ∷ (below ++ out))
    → IsPinned abs out
    → is_dots t ≡ false
unfolding IsLed
name-below true t below out k l p = let (a, b, c) = k in b refl
name-below false t below [] k l p = cc
name-below false t below (x ∷ out) k l p = elim (Bool-cases (is_dots t)) [
  | inl e ↦ let q : is_dots x ≡ true = not-AllDots below x out (l.0 e) in cc
  | inr e ↦ e
]

lead-below :
    (abs : Bool) (start below out : List Text)
    → IsKept abs (below ++ out)
    → IsLed (below ++ out)
    → IsPinned abs out
    → lead start (below ++ out) ≡ below ++ lead start out
unfolding lead IsLed
lead-below abs start [] out k l p = refl
lead-below abs start (t ∷ below) out k l p =
    let (a, b, c) = k in
    let e : is_dots t ≡ false = name-below abs t below out k l p in
    rw (a, e) (ap (λ q. t ∷ q) (lead-below abs start below out c l.1 p))

kept-below : (path dir s : List Text) → reverse path ≡ reverse dir ++ s → path ≡ reverse s ++ dir
kept-below path dir s q =
    sym (reverse-reverse path)
    ∙ ap reverse q
    ∙ reverse-append (reverse dir) s
    ∙ ap (λ r. reverse s ++ r) (reverse-reverse dir)

-- A path within a directory of its own kind leads below the directory, from every working
-- directory, whatever `.` and `..` stand in the two: if the directory is absolute, or is relative
-- and normalizes to components that end in a name.
pub is_within-below :
    (cwd : List Text) (path dir : Text)
    → is_abs path ≡ is_abs dir
    → IsPinned (is_abs dir) (reverse (normalize_components dir))
    → is_within (normalize_components path) (normalize_components dir) ≡ true
    → (below : List Text) × resolve cwd (is_abs path) (split_on b'/' [] path)
        ≡ below ++ resolve cwd (is_abs dir) (split_on b'/' [] dir)
unfolding normalize_components kept starts_with IsLed
is_within-below cwd path dir e p h =
    let (s, q) = (is_within_iff (normalize_components path) (normalize_components dir)).0 h in
    let b : kept path ≡ reverse s ++ kept dir = kept-below (kept path) (kept dir) s q in
    let (k, l) = add_components-Is (is_abs path) (split_on b'/' [] path) [] tt tt in
    let start : List Text = if is_abs path then [] else cwd in
    (
      reverse s,
      sym (lead-kept cwd path)
          ∙ ap (lead start) b
          ∙ lead-below (is_abs path) start (reverse s) (kept dir) (subst (IsKept (is_abs path)) b k)
              (subst IsLed b l)
              (subst (λ a. IsPinned a (kept dir)) (sym e)
                (subst (IsPinned (is_abs dir)) (reverse-reverse (kept dir)) p))
          ∙ ap (λ (a : Bool). reverse s ++ lead (if a then [] else cwd) (kept dir)) e
          ∙ ap (λ (r : List Text). reverse s ++ r) (lead-kept cwd dir),
    )

-- A relative directory that normalizes to nothing, `./` for one, contains every path. So does
-- an allowed directory `/`, though it is written as absolute.
pub is_within-empty :
    (path dir : Text)
    → normalize_components dir ≡ []
    → is_within (normalize_components path) (normalize_components dir) ≡ true
is_within-empty path dir e =
    rw e ((is_within_iff (normalize_components path) []).1 (normalize_components path, refl))
