-- ===== src/Policy/Danger/Root.antt =====
-- `rm -rf /` in every spelling of its flags and every order of its tokens.
use zymi_core.Prelude.{◌≡◌, ◌&&◌, ◌||◌, List, ◌∷◌, Text, codes, text_eq}
use zymi_core.Policy.Command.{ascii_lower, long_flag_map, normalize_tokens}
use zymi_core.Policy.Command.Flags.{any, gives_flag, gives_arg, normalize_tokens_lem}
use zymi_core.Policy.Danger.{removes_root}

-- A command is found to remove the root directory exactly when its base is `rm`, in any case, some
-- token gives the flag `r`, some token the flag `f`, and some token is `/` or `/*`.
pub removes_root_lem :
    (base : Text) (tokens : List Text)
    → let m = long_flag_map (ascii_lower base) in
      removes_root (normalize_tokens (base ∷ tokens)) ≡ (
        text_eq (ascii_lower base) (codes "rm")
        && any (gives_flag m b'r') tokens
        && any (gives_flag m b'f') tokens
        && (any (gives_arg m (codes "/")) tokens || any (gives_arg m (codes "/*")) tokens))
unfolding removes_root
removes_root_lem base tokens =
    let (b, r, slash) = normalize_tokens_lem base tokens b'r' (codes "/") in
    let (b', f, star) = normalize_tokens_lem base tokens b'f' (codes "/*") in
    rw (b, r, f, slash, star)
