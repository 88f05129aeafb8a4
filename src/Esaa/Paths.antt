-- ===== src/Esaa/Paths.antt =====
-- esaa/contracts.rs, the lexical treatment of paths. The vector `out` is held with its end first.
pub mod Resolve
pub mod Within
use zymi_core.Prelude.{
  ℕ, ◌+◌, Bool, true, false, not, ◌&&◌, ◌||◌, List, [], ◌∷◌, ◌++◌, reverse, leb, if◌then◌else◌,
  length, Text, codes, text_eq, starts_with, split_on, join_with,
}

abbrev pub is_dot : Text → Bool
is_dot comp = text_eq comp [] || text_eq comp (codes ".")

abbrev pub is_dots : Text → Bool
is_dots comp = text_eq comp (codes "..")

-- The arm for `..`: `out.pop()`, a push of `..`, or nothing.
unfoldable pub ascend : Bool → List Text → List Text
ascend is_abs [] = if is_abs then [] else codes ".." ∷ []
ascend is_abs (top ∷ out) =
    if is_dots top then (if is_abs then top ∷ out else codes ".." ∷ top ∷ out) else out

-- One round of the loop over the components.
unfoldable pub add_component : Bool → Text → List Text → List Text
add_component is_abs comp out =
    if is_dot comp then out else if is_dots comp then ascend is_abs out else comp ∷ out

unfoldable pub add_components : Bool → List Text → List Text → List Text
add_components is_abs [] out = out
add_components is_abs (comp ∷ comps) out =
    add_components is_abs comps (add_component is_abs comp out)

abbrev pub is_abs : Text → Bool
is_abs path = starts_with path (codes "/")

unfoldable pub normalize_components : Text → List Text
normalize_components path = reverse (add_components (is_abs path) (split_on b'/' [] path) [])

-- `normalize_string`.
unfoldable pub normalize_string : Text → Text
normalize_string path =
    (if is_abs path then codes "/" else []) ++ join_with b'/' (normalize_components path)

-- `iter().zip(…).all(|(a, b)| a == b)`.
unfoldable pub zip_equal : List Text → List Text → Bool
zip_equal [] ys = true
zip_equal (x ∷ xs) [] = true
zip_equal (x ∷ xs) (y ∷ ys) = text_eq x y && zip_equal xs ys

unfoldable pub is_within : List Text → List Text → Bool
is_within target dir = leb (length dir) (length target) && zip_equal target dir
