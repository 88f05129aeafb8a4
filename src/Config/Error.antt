-- ===== src/Config/Error.antt =====
-- config/error.rs: the errors of loading a project, and results that may be one.
use zymi_core.Prelude.{List, Text}

-- A path is its text.
pub data ConfigError : Type 0 where
  io : (path source : Text) → ConfigError
  parse : (path source detail : Text) → ConfigError
  validation : (message help path : Text) → ConfigError
  unresolved_variable : (var path : Text) → ConfigError
  cyclic_dependency : (pipeline : Text) → (cycle : List Text) → ConfigError
  duplicate_name : (kind name first second : Text) → ConfigError
  unsupported_store_url : (url : Text) → ConfigError

pub data ConfigResult {ℓ} (A : Type ℓ) : Type ℓ where
  ok : A → ConfigResult A
  err : ConfigError → ConfigResult A

infixl 5 ◌>>=◌ ◌>>◌
abbrev pub ◌>>=◌ {ℓ κ} :
    {A : Type ℓ} {B : Type κ} → ConfigResult A → (A → ConfigResult B) → ConfigResult B
ok a >>= f = f a
err e >>= f = err e

abbrev pub ◌>>◌ {ℓ} : {B : Type ℓ} → ConfigResult (Unit {0}) → ConfigResult B → ConfigResult B
m >> k = m >>= λ _. k
