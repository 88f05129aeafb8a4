-- ===== src/Config/Validate/Valid.antt =====
-- config/validate.rs: what `validate_pipeline_refs` accepts.
use zymi_core.Prelude.{
  ◌≡◌, refl, ◌⊎◌, ◌↔◌, inl, inr, Bool, true, false, not, Option, none, some, List, [], ◌∷◌, ◌++◌,
  All, Text, codes, text_eq, is_empty, arith, Bool-cases, snoc_append, append-nil,
}
use zymi_core.Config.Error.{ConfigResult, ok, err, ◌>>◌}
use zymi_core.Config.Pipeline.{
  PipelineStepKind, PipelineStep, PipelineOutput, PipelineConfig, agent, tool, ask, any_of,
}
use zymi_core.Config.Dag.{contains_text, step_ids}
use zymi_core.Config.Dag.Counts.{occurrences-nil, occurrences-append, occurrences_self}
use zymi_core.Config.Dag.Edges.{Once, insert-Once, contained}
use zymi_core.Config.Refs.{extract_step_refs, collect_when_refs, collect_step_refs}
use zymi_core.Config.Validate.{
  AgentConfig, ToolNameResolver, require, keys, check_refs, check_deps, check_when_refs,
  check_any_of, check_output, check_when, check_kind, check_steps, validate_pipeline_refs, parsed,
}
use zymi_core.Config.When

abbrev Passes : ConfigResult (Unit {0}) → Type 0
Passes m = m ≡ ok tt

require_iff :
    (b : Bool) (message help path : Text) → Passes (require b message help path) ↔ (b ≡ true)
unfolding require
require_iff true m h p = (λ _. refl, λ _. refl)
require_iff false m h p = (λ e. cc, λ e. cc)

then_iff : (m k : ConfigResult (Unit {0})) → Passes (m >> k) ↔ (Passes m × Passes k)
then_iff (ok tt) k = (λ e. (refl, e), λ e. e.1)
then_iff (err x) k = (λ e. cc, λ e. cc)

-- Equivalences of the parts make one of the whole.
pair_iff {ℓ} : {A B C D : Type ℓ} → (A ↔ B) → (C ↔ D) → (A × C) ↔ (B × D)
pair_iff f g = (λ (a, c). (f.0 a, g.0 c), λ (b, d). (f.1 b, g.1 d))

iff_trans {ℓ} : {A B C : Type ℓ} → (A ↔ B) → (B ↔ C) → A ↔ C
iff_trans f g = (λ a. g.0 (f.0 a), λ c. f.1 (g.1 c))

-- A check before others.
checked_iff :
    {P Q : Type 0} (m k : ConfigResult (Unit {0}))
    → (Passes m ↔ P)
    → (Passes k ↔ Q)
    → Passes (m >> k) ↔ (P × Q)
checked_iff m k f g = iff_trans (then_iff m k) (pair_iff f g)

not_iff : (b : Bool) → (not b ≡ true) ↔ (b ≡ false)
not_iff true = (λ h. cc, λ h. cc)
not_iff false = (λ _. refl, λ _. refl)

-- The predicates of a valid pipeline, of which `ids` are the steps.
module _ (ids : List Text) where
  abbrev pub AreSteps : List Text → Type 0
  AreSteps others = All (λ other. contains_text ids other ≡ true) others

  -- Another step that a template refers to is a dependency, and a step.
  abbrev pub IsReferable : PipelineStep → Text → Type 0
  IsReferable s other =
      (text_eq other s.id ≡ true)
      ⊎ ((contains_text s.depends_on other ≡ true) × (contains_text ids other ≡ true))

  abbrev pub IsWhenValid : PipelineStep → Option Text → Type 0
  IsWhenValid s none = Unit
  IsWhenValid s (some expr) =
      (is_empty s.depends_on ≡ false)
      × ((When.parse_only expr ≡ When.ok tt)
          × All
              (λ other.
                (contains_text ids other ≡ true) × (contains_text s.depends_on other ≡ true))
              (collect_when_refs expr))

  abbrev pub IsOutputValid : Option PipelineOutput → Type 0
  IsOutputValid none = Unit
  IsOutputValid (some (PipelineOutput.step s)) = contains_text ids s ≡ true
  IsOutputValid (some (any_of steps)) = (is_empty steps ≡ false) × (AreSteps steps × Once steps)

  module _ (agents : List (Text × AgentConfig)) (known : ToolNameResolver) where
    abbrev pub IsKindValid : PipelineStep → PipelineStepKind → Type 0
    IsKindValid s (agent a task) = contains_text (keys agents) a ≡ true
    IsKindValid s (tool t args) =
        (known.knows t ≡ true) × All (IsReferable s) (collect_step_refs args)
    IsKindValid s (ask prompt channel) = All (IsReferable s) (extract_step_refs prompt [])

    -- What a step names exists, and what its templates read is among its dependencies.
    abbrev pub IsStepValid : PipelineStep → Type 0
    IsStepValid s = IsKindValid s s.kind × (AreSteps s.depends_on × IsWhenValid s s.when)

Once-snoc :
    (seen : List Text) (id : Text)
    → Once seen
    → contains_text seen id ≡ false
    → Once (seen ++ id ∷ [])
Once-snoc seen id o e = rw e at (insert-Once seen id o)

-- What occurs once in a list is not among what stands before it.
Once-absent :
    (seen : List Text) (id : Text) (more : List Text)
    → Once (seen ++ id ∷ more)
    → contains_text seen id ≡ false
Once-absent seen id more o = elim (Bool-cases (contains_text seen id)) [
  | inl e ↦ absurd (
      omega (
        arith,
        o id,
        contained seen id e,
        occurrences-append id seen (id ∷ more),
        occurrences_self id more,
      ))
  | inr e ↦ e
]

-- A round of the loop over `any_of`.
any_of_step :
    (P Q : Type 0) (seen : List Text) (id : Text) (more : List Text)
    (m n k : ConfigResult (Unit {0}))
    → (Passes m ↔ P)
    → (Passes n ↔ (contains_text seen id ≡ false))
    → (contains_text seen id ≡ false → Passes k ↔ (Q × Once ((seen ++ id ∷ []) ++ more)))
    → Passes (m >> (n >> k)) ↔ ((P × Q) × Once (seen ++ id ∷ more))
any_of_step P Q seen id more m n k f g h = (
  (λ e.
      let (a, b) = (then_iff m (n >> k)).0 e in
      let (c, d) = (then_iff n k).0 b in
      let (q, o) = (h (g.0 c)).0 d in ((f.0 a, q), rw (snoc_append seen id more) o)),
  λ ((p, q), o).
      let new = Once-absent seen id more o in
      (then_iff m (n >> k)).1
        (f.1 p, (then_iff n k).1 (g.1 new, (h new).1 (q, rw (snoc_append seen id more) at o))),
)

module _ (iterate : List Text → List Text) (path : Text) (ids : List Text) where
  check_refs_iff :
      (word place : Text) (s : PipelineStep) (others : List Text)
      → Passes (check_refs iterate word place path ids s others) ↔ All (IsReferable ids s) others
  unfolding check_refs
  check_refs_iff word place s [] = (λ _. tt, λ _. refl)
  check_refs_iff word place s (other ∷ others) =
      let later = check_refs_iff word place s others in
      elim (Bool-cases (text_eq other s.id)) [
        | inl e ↦ rw e (λ h. (inl refl, later.0 h), λ h. later.1 (h.1))
        | inr e ↦ rw e (
            iff_trans
              (checked_iff _ _ (require_iff (contains_text s.depends_on other) _ _ _)
                (checked_iff _ _ (require_iff (contains_text ids other) _ _ _) later))
              (
                (λ (a, (b, c)). (inr (a, b), c)),
                λ (r, c). elim r [ inl t ↦ cc | inr (a, b) ↦ (a, (b, c)) ],
              ))
      ]

  check_deps_iff :
      (s : PipelineStep) (deps : List Text)
      → Passes (check_deps iterate path ids s deps) ↔ AreSteps ids deps
  unfolding check_deps
  check_deps_iff s [] = (λ _. tt, λ _. refl)
  check_deps_iff s (dep ∷ deps) =
      checked_iff _ _ (require_iff (contains_text ids dep) _ _ _) (check_deps_iff s deps)

  check_when_refs_iff :
      (s : PipelineStep) (others : List Text)
      → Passes (check_when_refs iterate path ids s others)
        ↔ All
            (λ other. (contains_text ids other ≡ true) × (contains_text s.depends_on other ≡ true))
            others
  unfolding check_when_refs
  check_when_refs_iff s [] = (λ _. tt, λ _. refl)
  check_when_refs_iff s (other ∷ others) =
      iff_trans
        (checked_iff _ _ (require_iff (contains_text ids other) _ _ _) (
          checked_iff _ _ (require_iff (contains_text s.depends_on other) _ _ _)
            (check_when_refs_iff s others)))
        ((λ (a, (b, c)). ((a, b), c)), λ ((a, b), c). (a, (b, c)))

  -- With what was seen before.
  check_any_of_iff :
      (seen more : List Text)
      → Once seen
      → Passes (check_any_of iterate path ids seen more) ↔ (AreSteps ids more × Once (seen ++ more))
  unfolding check_any_of
  check_any_of_iff seen [] o = ((λ _. (tt, rw (append-nil seen) o)), λ _. refl)
  check_any_of_iff seen (id ∷ more) o =
      any_of_step (contains_text ids id ≡ true) (AreSteps ids more) seen id more _ _ _
        (require_iff (contains_text ids id) _ _ _)
        (iff_trans (require_iff (not (contains_text seen id)) _ _ _)
          (not_iff (contains_text seen id)))
        (λ e. check_any_of_iff (seen ++ id ∷ []) more (Once-snoc seen id o e))

  check_output_iff :
      (output : Option PipelineOutput)
      → Passes (check_output iterate path ids output) ↔ IsOutputValid ids output
  unfolding check_output
  check_output_iff none = (λ _. tt, λ _. refl)
  check_output_iff (some (PipelineOutput.step s)) = require_iff (contains_text ids s) _ _ _
  check_output_iff (some (any_of steps)) =
      checked_iff _ _
        (iff_trans (require_iff (not (is_empty steps)) _ _ _) (not_iff (is_empty steps)))
        (check_any_of_iff [] steps (λ v. omega (arith, occurrences-nil v)))

  module _ (show_when_error : When.WhenExprError → Text) where
    parsed_iff :
        (s : PipelineStep) (m : When.Result (Unit {0}))
        → Passes (parsed iterate show_when_error path s m) ↔ (m ≡ When.ok tt)
    parsed_iff s (When.ok tt) = (λ _. refl, λ _. refl)
    parsed_iff s (When.err e) = (λ h. cc, λ h. cc)
    parsed_iff s When.out_of_fuel = (λ h. cc, λ h. cc)

    check_when_iff :
        (s : PipelineStep) (when : Option Text)
        → Passes (check_when iterate show_when_error path ids s when) ↔ IsWhenValid ids s when
    unfolding check_when
    check_when_iff s none = (λ _. tt, λ _. refl)
    check_when_iff s (some expr) =
        checked_iff _ _
          (iff_trans (require_iff (not (is_empty s.depends_on)) _ _ _)
            (not_iff (is_empty s.depends_on)))
          (checked_iff _ _ (parsed_iff s (When.parse_only expr))
            (check_when_refs_iff s (collect_when_refs expr)))

    module _ (agents : List (Text × AgentConfig)) (known : ToolNameResolver) where
      check_kind_iff :
          (s : PipelineStep) (kind : PipelineStepKind)
          → Passes (check_kind iterate show_when_error agents known path ids s kind)
            ↔ IsKindValid ids agents known s kind
      unfolding check_kind
      check_kind_iff s (agent a task) = require_iff (contains_text (keys agents) a) _ _ _
      check_kind_iff s (tool t args) =
          checked_iff _ _ (require_iff (known.knows t) _ _ _)
            (check_refs_iff (codes "tool") (codes " in args") s (collect_step_refs args))
      check_kind_iff s (ask prompt channel) =
          check_refs_iff (codes "ask") (codes " in its prompt") s (extract_step_refs prompt [])

      check_steps_iff :
          (steps : List PipelineStep)
          → Passes (check_steps iterate show_when_error agents known path ids steps)
            ↔ All (IsStepValid ids agents known) steps
      unfolding check_steps
      check_steps_iff [] = (λ _. tt, λ _. refl)
      check_steps_iff (s ∷ steps) =
          iff_trans
            (checked_iff _ _ (check_kind_iff s s.kind) (
              checked_iff _ _ (check_deps_iff s s.depends_on)
                (checked_iff _ _ (check_when_iff s s.when) (check_steps_iff steps))))
            ((λ (a, (b, (c, d))). ((a, (b, c)), d)), λ ((a, (b, c)), d). (a, (b, (c, d))))

module _ (iterate : List Text → List Text) (show_when_error : When.WhenExprError → Text)
    (agents : List (Text × AgentConfig)) (known : ToolNameResolver) where
  pub validate_pipeline_refs_iff :
      (pipeline : PipelineConfig)
      → (validate_pipeline_refs iterate show_when_error agents known pipeline ≡ ok tt) ↔ (
          All (IsStepValid (step_ids pipeline.steps) agents known) pipeline.steps
          × IsOutputValid (step_ids pipeline.steps) pipeline.output)
  unfolding validate_pipeline_refs
  validate_pipeline_refs_iff pipeline =
      let path = codes "pipelines/" ++ pipeline.name ++ codes ".yml" in
      let ids = step_ids pipeline.steps in
      checked_iff _ _ (check_steps_iff iterate path ids show_when_error agents known pipeline.steps)
        (check_output_iff iterate path ids pipeline.output)
