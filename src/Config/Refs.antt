-- ===== src/Config/Refs.antt =====
-- config/when_expr.rs and config/validate.rs: the references `${steps.<id>.output}` in a text and in
-- a YAML value. A text cut from the front stands for the byte offset.
pub mod Fuel
use zymi_core.Prelude.{
  ℕ, zero, suc, ◌||◌, Option, none, some, List, [], ◌∷◌, ◌++◌, ◌==◌, if◌then◌else◌, length, Text,
  codes, text_eq, strip_prefix, is_empty,
}
use zymi_core.Config.Pipeline.{
  YamlValue, YamlValues, YamlMembers, null, boolean, number, sequence, mapping, no_values,
  value_then, no_members, member_then,
}
use zymi_core.Config.Dag.{contains_text}

-- `split_once` on a character; `find` and the slices on both sides of what it finds.
unfoldable pub split_at : ℕ → Text → Option (Text × Text)
split_at q [] = none
split_at q (c ∷ s) =
    if c == q
    then some ([], s)
    else (elim (split_at q s) [ none ↦ none | some (before, after) ↦ some (c ∷ before, after) ])

unfoldable pub strip_suffix : Text → Text → Option Text
strip_suffix [] suffix = if is_empty suffix then some [] else none
strip_suffix (c ∷ s) suffix =
    if text_eq (c ∷ s) suffix
    then some []
    else (elim (strip_suffix s suffix) [ none ↦ none | some t ↦ some (c ∷ t) ])

abbrev pub open_ref : Text
open_ref = codes "${steps."

-- `inner`, what stands between `${steps.` and `}`.
unfoldable pub push_ref : Text → List Text → List Text
unfolding strip_suffix contains_text
push_ref inner out = elim (strip_suffix inner (codes ".output")) [
  | none ↦ out
  | some id ↦ if is_empty id || contains_text out id then out else out ++ id ∷ []
]

-- The scan, on fuel: a round passes a character at least.
unfoldable pub extract_from : ℕ → Text → List Text → List Text
unfolding split_at push_ref
extract_from zero s out = out
extract_from (suc fuel) [] out = out
extract_from (suc fuel) (c ∷ s) out =
    let next = extract_from fuel s out in
    elim (strip_prefix (c ∷ s) open_ref) [
      | none ↦ next
      | some rest ↦ elim (split_at b'}' rest) [
        | none ↦ next
        | some (inner, after) ↦ extract_from fuel after (push_ref inner out)
      ]
    ]

unfoldable pub extract_step_refs : Text → List Text → List Text
unfolding extract_from
extract_step_refs s out = extract_from (length s) s out

-- The one of `when_expr`: its set `seen` holds what `out` holds.
unfoldable pub collect_when_refs : Text → List Text
unfolding extract_from
collect_when_refs expr = extract_from (length expr) expr []

unfoldable mutual
  unfolding extract_step_refs

  pub walk_step_refs : YamlValue → List Text → List Text
  walk_step_refs (YamlValue.string s) out = extract_step_refs s out
  walk_step_refs (sequence seq) out = walk_values seq out
  walk_step_refs (mapping map) out = walk_members map out
  walk_step_refs null out = out
  walk_step_refs (boolean b) out = out
  walk_step_refs (number n) out = out

  pub walk_values : YamlValues → List Text → List Text
  walk_values no_values out = out
  walk_values (value_then v vs) out = walk_values vs (walk_step_refs v out)

  pub walk_members : YamlMembers → List Text → List Text
  walk_members no_members out = out
  walk_members (member_then k v ms) out = walk_members ms (walk_step_refs v (walk_step_refs k out))

unfoldable pub collect_step_refs : YamlValue → List Text
unfolding walk_step_refs
collect_step_refs value = walk_step_refs value []
