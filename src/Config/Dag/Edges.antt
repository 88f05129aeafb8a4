-- ===== src/Config/Dag/Edges.antt =====
-- config/dag.rs: the set of step ids, and the two maps that are built from the steps.
use zymi_core.Prelude.{
  ℕ, suc, ◌+◌, ◌≤◌, ◌<◌, ◌≡◌, refl, ap, sym, ◌∙◌, inl, inr, Bool, true, false, List, [], ◌∷◌, ◌++◌,
  ltb, if◌then◌else◌, Text, text_eq, arith, tests, ltb→lt, Bool-cases,
}
use zymi_core.Config.Pipeline.{PipelineStep}
use zymi_core.Config.Dag.{
  contains_text, collect_set, ids_of, step_ids, put, Graph, empty_graph, add_dep, add_deps,
  add_steps,
}
use zymi_core.Config.Dag.Counts.{
  occurrences, occurrences-nil, occurrences-cons, occurrences_self, occurrences-append, total,
  eq_of,
}

pub contains_text_lem : (xs : List Text) (v : Text) → contains_text xs v ≡ ltb 0 (occurrences v xs)
unfolding contains_text occurrences
contains_text_lem [] v = refl
contains_text_lem (x ∷ xs) v = elim (Bool-cases (text_eq v x)) [
  | inl e ↦ rw e (ground arith)
  | inr e ↦ rw e (contains_text_lem xs v)
]

not_positive : (n : ℕ) → ltb 0 n ≡ false → n ≡ 0
not_positive n h = ground arith

pub contained : (xs : List Text) (v : Text) → contains_text xs v ≡ true → 0 < occurrences v xs
contained xs v h = omega (tests, ltb→lt 0 (occurrences v xs) (sym (contains_text_lem xs v) ∙ h))

pub absent : (xs : List Text) (v : Text) → contains_text xs v ≡ false → occurrences v xs ≡ 0
absent xs v h = not_positive (occurrences v xs) (sym (contains_text_lem xs v) ∙ h)

abbrev pub Once : List Text → Type 0
Once xs = (v : Text) → occurrences v xs ≤ 1

-- What is inserted into a set.
pub insert-Once :
    (seen : List Text) (x : Text)
    → Once seen
    → Once (if contains_text seen x then seen else seen ++ x ∷ [])
insert-Once seen x h v = elim (Bool-cases (contains_text seen x)) [
  | inl e ↦ rw e (h v)
  | inr e ↦ rw e (elim (Bool-cases (text_eq v x)) [
    | inl t ↦ rw (eq_of v x t) (
        omega (
          arith,
          occurrences-append x seen (x ∷ []),
          occurrences_self x [],
          occurrences-nil x,
          absent seen x e,
        ))
    | inr t ↦ omega (
      arith,
      h v,
      occurrences-append v seen (x ∷ []),
      rw t at (occurrences-cons v x []),
      occurrences-nil v,
    )
  ])
]

insert-holds :
    (seen : List Text) (x : Text)
    → 0 < occurrences x (if contains_text seen x then seen else seen ++ x ∷ [])
insert-holds seen x = elim (Bool-cases (contains_text seen x)) [
  | inl e ↦ rw e (contained seen x e)
  | inr e ↦ rw e (omega (arith, occurrences-append x seen (x ∷ []), occurrences_self x []))
]

collect_set-Once : (seen xs : List Text) → Once seen → Once (collect_set seen xs)
unfolding collect_set
collect_set-Once seen [] h = h
collect_set-Once seen (x ∷ xs) h =
    collect_set-Once (if contains_text seen x then seen else seen ++ x ∷ []) xs
      (insert-Once seen x h)

collect_set-keeps :
    (seen xs : List Text) (v : Text) → occurrences v seen ≤ occurrences v (collect_set seen xs)
unfolding collect_set
collect_set-keeps seen [] v = omega arith
collect_set-keeps seen (x ∷ xs) v = elim (Bool-cases (contains_text seen x)) [
  | inl e ↦ rw e (collect_set-keeps seen xs v)
  | inr e ↦
      rw e
        (omega (arith, collect_set-keeps (seen ++ x ∷ []) xs v, occurrences-append v seen (x ∷ [])))
]

-- Whatever is collected is in the set.
collect_set-holds :
    (seen xs : List Text) (v : Text)
    → 0 < occurrences v xs
    → 0 < occurrences v (collect_set seen xs)
unfolding collect_set
collect_set-holds seen [] v h = absurd (omega (arith, occurrences-nil v))
collect_set-holds seen (x ∷ xs) v h = elim (Bool-cases (text_eq v x)) [
  | inl t ↦ rw (eq_of v x t) (
      omega (
        arith,
        insert-holds seen x,
        collect_set-keeps (if contains_text seen x then seen else seen ++ x ∷ []) xs x,
      ))
  | inr t ↦
      collect_set-holds (if contains_text seen x then seen else seen ++ x ∷ []) xs v
        (omega (arith, rw t at (occurrences-cons v x xs)))
]

pub step_ids-holds :
    (steps : List PipelineStep) (v : Text)
    → 0 < occurrences v (ids_of steps)
    → 0 < occurrences v (step_ids steps)
unfolding step_ids
step_ids-holds steps v h = collect_set-holds [] (ids_of steps) v h

pub step_ids-Once : (steps : List PipelineStep) → Once (step_ids steps)
unfolding step_ids
step_ids-Once steps = collect_set-Once [] (ids_of steps) (λ v. omega (arith, occurrences-nil v))

-- A number that counts under a test.
unfoldable pub if_so : Bool → ℕ → ℕ
if_so true n = n
if_so false n = 0

pub if_so-true : (b : Bool) (n : ℕ) → b ≡ true → if_so b n ≡ n
unfolding if_so
if_so-true b n e = rw e refl

pub if_so-false : (b : Bool) (n : ℕ) → b ≡ false → if_so b n ≡ 0
unfolding if_so
if_so-false b n e = rw e refl

if_so-zero : (b : Bool) → if_so b 0 ≡ 0
unfolding if_so
if_so-zero true = refl
if_so-zero false = refl

pub occurrences-if_so :
    (v x : Text) (xs : List Text)
    → occurrences v (x ∷ xs) ≡ occurrences v xs + if_so (text_eq v x) 1
unfolding if_so
occurrences-if_so v x xs = elim (Bool-cases (text_eq v x)) [
  | inl e ↦ rw e (rw e at (occurrences-cons v x xs))
  | inr e ↦ rw e (rw e at (occurrences-cons v x xs))
]

-- How often the steps of id `v` list `u` among their dependencies.
unfoldable pub needs : List PipelineStep → Text → Text → ℕ
needs [] v u = 0
needs (s ∷ steps) v u = if_so (text_eq v s.id) (occurrences u s.depends_on) + needs steps v u

-- The degree of a node counts the edges to it, and only nodes have edges to them.
abbrev pub IsGraph : List Text → Graph → Type 0
IsGraph ids g = ((v : Text) → g.in_degree v ≡ total (λ u. occurrences v (g.dependents u)) ids)

pub empty_graph-IsGraph : (ids : List Text) → IsGraph ids empty_graph
unfolding total
empty_graph-IsGraph [] v = refl
empty_graph-IsGraph (x ∷ ids) v = omega (arith, empty_graph-IsGraph ids v, occurrences-nil v)

pub text_eq_sym : (a b : Text) → text_eq a b ≡ text_eq b a
unfolding text_eq
text_eq_sym [] [] = refl
text_eq_sym [] (b ∷ t) = refl
text_eq_sym (a ∷ s) [] = refl
text_eq_sym (a ∷ s) (b ∷ t) = ground (arith, text_eq_sym s t)

-- One edge more, from `dep` to `id`.
module _ (id dep : Text) (d : Text → List Text) where
  abbrev entered : Text → List Text
  entered = put dep (d dep ++ id ∷ []) d

  occurrences-entered :
      (v u : Text)
      → occurrences v (entered u)
        ≡ occurrences v (d u) + if_so (text_eq u dep) (if_so (text_eq v id) 1)
  unfolding if_so
  occurrences-entered v u = elim (Bool-cases (text_eq u dep)) [
    | inl t ↦
        rw (t, eq_of u dep t)
          (omega (
            arith,
            occurrences-append v (d dep) (id ∷ []),
            occurrences-if_so v id [],
            occurrences-nil v,
          ))
    | inr t ↦ rw t (omega arith)
  ]

  total-entered :
      (v : Text) (ids : List Text)
      → total (λ u. occurrences v (entered u)) ids
        ≡ total (λ u. occurrences v (d u)) ids + if_so (text_eq v id) (occurrences dep ids)
  unfolding total
  total-entered v [] = elim (Bool-cases (text_eq v id)) [
    | inl e ↦ omega (arith, occurrences-nil dep, if_so-true (text_eq v id) (occurrences dep []) e)
    | inr e ↦ omega (arith, if_so-false (text_eq v id) (occurrences dep []) e)
  ]
  total-entered v (u ∷ ids) = elim (Bool-cases (text_eq v id)) [
    | inl e ↦ omega (
      arith,
      total-entered v ids,
      occurrences-entered v u,
      rw (text_eq_sym dep u) at (occurrences-if_so dep u ids),
      if_so-true (text_eq v id) (occurrences dep (u ∷ ids)) e,
      if_so-true (text_eq v id) (occurrences dep ids) e,
      ap (if_so (text_eq u dep)) (if_so-true (text_eq v id) 1 e),
    )
    | inr e ↦ omega (
      arith,
      total-entered v ids,
      occurrences-entered v u,
      if_so-false (text_eq v id) (occurrences dep (u ∷ ids)) e,
      if_so-false (text_eq v id) (occurrences dep ids) e,
      ap (if_so (text_eq u dep)) (if_so-false (text_eq v id) 1 e),
      if_so-zero (text_eq u dep),
    )
  ]

-- What a step's dependencies add: edges from those that are known.
known_needs : List Text → Text → Text → List Text → Text → ℕ
known_needs ids id v deps u =
    if_so (contains_text ids u) (if_so (text_eq v id) (occurrences u deps))

in_degree-entered :
    (ids : List Text) (id dep : Text) (g : Graph)
    → Once ids
    → IsGraph ids g
    → (v : Text) → contains_text ids dep ≡ true
    → put id (g.in_degree id + 1) g.in_degree v
      ≡ total (λ u. occurrences v (entered id dep g.dependents u)) ids
in_degree-entered ids id dep g o h v e = elim (Bool-cases (text_eq v id)) [
  | inl t ↦ rw t (
      omega (
        arith,
        total-entered id dep g.dependents v ids,
        if_so-true (text_eq v id) (occurrences dep ids) t,
        h v,
        o dep,
        contained ids dep e,
        ap g.in_degree (eq_of v id t),
      ))
  | inr t ↦ rw t (
      omega (
        arith,
        total-entered id dep g.dependents v ids,
        if_so-false (text_eq v id) (occurrences dep ids) t,
        h v,
      ))
]

add_dep-IsGraph :
    (ids : List Text) (id dep : Text) (g : Graph)
    → Once ids
    → IsGraph ids g
    → IsGraph ids (add_dep ids id dep g)
unfolding add_dep
add_dep-IsGraph ids id dep g o h v = elim (Bool-cases (contains_text ids dep)) [
  | inl e ↦ rw e (in_degree-entered ids id dep g o h v e)
  | inr e ↦ rw e (h v)
]

if_so-nested : (a b : Bool) (n : ℕ) → n ≡ 0 → if_so a (if_so b n) ≡ 0
if_so-nested a b n e = ap (λ m. if_so a (if_so b m)) e ∙ ap (if_so a) (if_so-zero b) ∙ if_so-zero a

known_needs-nil : (ids : List Text) (id v u : Text) → known_needs ids id v [] u ≡ 0
unfolding known_needs
known_needs-nil ids id v u =
    if_so-nested (contains_text ids u) (text_eq v id) (occurrences u []) (occurrences-nil u)

known_needs-single :
    (ids : List Text) (id v dep u : Text)
    → known_needs ids id v (dep ∷ []) u
      ≡ if_so (contains_text ids dep) (if_so (text_eq u dep) (if_so (text_eq v id) 1))
unfolding known_needs if_so
known_needs-single ids id v dep u = elim (Bool-cases (text_eq u dep)) [
  | inl t ↦
      rw (t, eq_of u dep t)
        (ap (λ n. if_so (contains_text ids dep) (if_so (text_eq v id) n))
          (occurrences_self dep [] ∙ ap suc (occurrences-nil dep)))
  | inr t ↦ rw t (
      if_so-nested (contains_text ids u) (text_eq v id) (occurrences u (dep ∷ [])) (
        omega
          (arith, occurrences-if_so u dep [], occurrences-nil u, if_so-false (text_eq u dep) 1 t))
      ∙ sym (if_so-zero (contains_text ids dep)))
]

add_dep-dependents :
    (ids : List Text) (id dep : Text) (g : Graph) (v u : Text)
    → occurrences v ((add_dep ids id dep g).dependents u)
      ≡ occurrences v (g.dependents u) + known_needs ids id v (dep ∷ []) u
unfolding add_dep
add_dep-dependents ids id dep g v u = elim (Bool-cases (contains_text ids dep)) [
  | inl e ↦ rw e (
      omega (
        arith,
        occurrences-entered id dep g.dependents v u,
        known_needs-single ids id v dep u,
        if_so-true (contains_text ids dep) (if_so (text_eq u dep) (if_so (text_eq v id) 1)) e,
      ))
  | inr e ↦ rw e (
      omega (
        arith,
        known_needs-single ids id v dep u,
        if_so-false (contains_text ids dep) (if_so (text_eq u dep) (if_so (text_eq v id) 1)) e,
      ))
]

if_so-plus : (b : Bool) (m n : ℕ) → if_so b (m + n) ≡ if_so b m + if_so b n
unfolding if_so
if_so-plus true m n = refl
if_so-plus false m n = omega arith

known_needs-cons :
    (ids : List Text) (id v dep : Text) (deps : List Text) (u : Text)
    → known_needs ids id v (dep ∷ deps) u
      ≡ known_needs ids id v (dep ∷ []) u + known_needs ids id v deps u
unfolding known_needs
known_needs-cons ids id v dep deps u =
    let one = occurrences u (dep ∷ []) in
    let rest = occurrences u deps in
    ap (λ n. if_so (contains_text ids u) (if_so (text_eq v id) n))
      (occurrences-append u (dep ∷ []) deps)
    ∙ ap (if_so (contains_text ids u)) (if_so-plus (text_eq v id) one rest)
    ∙ if_so-plus (contains_text ids u) (if_so (text_eq v id) one) (if_so (text_eq v id) rest)

add_deps-dependents :
    (ids : List Text) (id : Text) (deps : List Text) (g : Graph) (v u : Text)
    → occurrences v ((add_deps ids id deps g).dependents u)
      ≡ occurrences v (g.dependents u) + known_needs ids id v deps u
unfolding add_deps
add_deps-dependents ids id [] g v u = omega (arith, known_needs-nil ids id v u)
add_deps-dependents ids id (dep ∷ deps) g v u = omega (
  arith,
  add_deps-dependents ids id deps (add_dep ids id dep g) v u,
  add_dep-dependents ids id dep g v u,
  known_needs-cons ids id v dep deps u,
)

add_deps-IsGraph :
    (ids : List Text) (id : Text) (deps : List Text) (g : Graph)
    → Once ids
    → IsGraph ids g
    → IsGraph ids (add_deps ids id deps g)
unfolding add_deps
add_deps-IsGraph ids id [] g o h = h
add_deps-IsGraph ids id (dep ∷ deps) g o h =
    add_deps-IsGraph ids id deps (add_dep ids id dep g) o (add_dep-IsGraph ids id dep g o h)

pub add_steps-IsGraph :
    (ids : List Text) (steps : List PipelineStep) (g : Graph)
    → Once ids
    → IsGraph ids g
    → IsGraph ids (add_steps ids steps g)
unfolding add_steps
add_steps-IsGraph ids [] g o h = h
add_steps-IsGraph ids (s ∷ steps) g o h =
    add_steps-IsGraph ids steps (add_deps ids s.id s.depends_on g) o
      (add_deps-IsGraph ids s.id s.depends_on g o h)

-- The dependents of a node are the steps that list it, where it is a step itself.
pub add_steps-dependents :
    (ids : List Text) (steps : List PipelineStep) (g : Graph) (v u : Text)
    → occurrences v ((add_steps ids steps g).dependents u)
      ≡ occurrences v (g.dependents u) + if_so (contains_text ids u) (needs steps v u)
unfolding add_steps needs known_needs
add_steps-dependents ids [] g v u = omega (arith, if_so-zero (contains_text ids u))
add_steps-dependents ids (s ∷ steps) g v u = omega (
  arith,
  add_steps-dependents ids steps (add_deps ids s.id s.depends_on g) v u,
  add_deps-dependents ids s.id s.depends_on g v u,
  if_so-plus (contains_text ids u) (if_so (text_eq v s.id) (occurrences u s.depends_on))
      (needs steps v u),
)
