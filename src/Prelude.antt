-- ===== src/Prelude.antt =====
-- Names that every module shares: the libraries', passed on, with Boolean tests and lists
-- measured by native numbers, and outcomes of Rust code that may panic.
mod Tests
mod Lists
mod Outcomes
mod Texts
mod TextLaws
mod Quantifiers
mod Maps
pub use Tests.*
pub use Quantifiers.*
pub use Lists.*
pub use Maps.{
  lookup-insert_entry, lookup-remove_entry, Distinct, insert_entry-Distinct, Distinct-All,
}
unfoldable pub use Maps.{lookup, insert_entry, remove_entry}
pub use TextLaws.*
pub use Outcomes.*
pub use Texts.{Text, codes, is_some, text_eq_iff}
unfoldable pub use Texts.{
  text_eq, is_whitespace, to_ascii_lowercase, trim_start, trim_end, trim, is_empty, strip_prefix,
  starts_with, contains, push_kept, split_on, join_with, len_utf8, byte_len, floor_slice,
}
pub use Prim.Native.Nat.{ℕ, zero, suc, ◌+◌, ◌-◌, ◌*◌, ◌^◌, ◌≤◌, ◌<◌, min}
pub use mathlib.Core.Path.{◌≡◌, refl, sym, ap, ap₂, ◌∙◌, subst, fun_ext, ◌≡⟨◌⟩◌, ◌∎}
pub use mathlib.Core.Logic.{◌≢◌, ◌↔◌, ◌⊎◌, inl, inr}
pub use mathlib.Core.Bool.{Bool, true, false, not, ◌&&◌, ◌||◌}
pub use mathlib.Core.Option.{Option, none, some}
pub use mathlib.Core.List.{List, [], ◌∷◌, ◌++◌, map, append_assoc, append-nil, reverse}
pub use native.Mathlib.Omega.{arith}
unfoldable pub use native.Mathlib.Decide.{dec_lt, ℕ_discrete}
