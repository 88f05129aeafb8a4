-- ===== src/Policy/Docker/Escape.antt =====
-- A bind mount of a sensitive host path is found, and where the search panics.
use zymi_core.Prelude.{
  ℕ, suc, ◌≤◌, ◌≡◌, refl, ◌∙◌, true, ◌||◌, List, [], ◌∷◌, ◌++◌, arith, length, done, fault, panic,
  Text, codes,
}
use zymi_core.Policy.Subshell.Balance.{Lacks}
use zymi_core.Policy.Docker.{
  FlagKind, volume, mount, flag_sources, all_sources, volume_flags, mount_flags,
  extract_mount_sources, normalize_path, is_sensitive_path, any_sensitive, has_sensitive_mount,
}
use zymi_core.Policy.Docker.Mounts.{
  after_first-skip, length-after_first, IsAscii, IsAscii-after_first, IsHost, flag_loop-round,
  flag_loop-done, flag_loop-panic, sources-host,
}

any_sensitive-append :
    (xs ys : List Text) → any_sensitive (xs ++ ys) ≡ (any_sensitive xs || any_sensitive ys)
unfolding any_sensitive
any_sensitive-append [] ys = refl
any_sensitive-append (x ∷ xs) ys = ground (arith, any_sensitive-append xs ys)

module _ (kind : FlagKind) (cmd : Text) where
  all_sources-cons :
      (flag : Text) (flags : List Text) {r rs : List Text}
      → flag_sources kind cmd flag ≡ done r
      → all_sources kind cmd flags ≡ done rs
      → all_sources kind cmd (flag ∷ flags) ≡ done (r ++ rs)
  unfolding all_sources
  all_sources-cons flag flags h k = rw (h, k)

  all_sources-done :
      (flags : List Text) → IsAscii cmd → (r : List Text) × (all_sources kind cmd flags ≡ done r)
  unfolding all_sources flag_sources
  all_sources-done [] a = ([], refl)
  all_sources-done (flag ∷ flags) a =
      let (r, h) = flag_loop-done kind flag (suc (length cmd)) cmd a (omega arith) in
      let (rs, hs) = all_sources-done flags a in (r ++ rs, all_sources-cons flag flags h hs)

has_sensitive_mount-of :
    (cmd : Text) {vs ms : List Text}
    → all_sources volume cmd volume_flags ≡ done vs
    → all_sources mount cmd mount_flags ≡ done ms
    → has_sensitive_mount cmd ≡ done (any_sensitive (vs ++ ms))
unfolding has_sensitive_mount extract_mount_sources
has_sensitive_mount-of cmd v m = rw (v, m)

-- The text of a command up to a `-v` flag, and its argument.
abbrev pub mounting : Text → Text → Text → Text
mounting start host rest = start ++ (codes "-v " ++ (host ++ b':' ∷ rest))

-- In an ASCII command, a `-v` flag that no earlier dash precedes, with a host path that is
-- sensitive once its quotes are stripped, is always found.
pub has_sensitive_mount-volume :
    (start rest : Text) (c : ℕ) (host : Text)
    → let cmd = mounting start (c ∷ host) rest in
      IsAscii cmd
      → Lacks b'-' start
      → IsHost (c ∷ host)
      → is_sensitive_path (normalize_path (c ∷ host)) ≡ true
      → has_sensitive_mount cmd ≡ done true
unfolding flag_sources any_sensitive
has_sensitive_mount-volume start rest c host ascii lacks h sensitive =
    let cmd = mounting start (c ∷ host) rest in
    let argument = c ∷ (host ++ b':' ∷ rest) in
    let found = after_first-skip b'-' (codes "v ") start argument lacks in
    let (b, bs) = IsAscii-after_first cmd (codes "-v ") ascii found in
    let (more, m) =
      flag_loop-done volume (codes "-v ") (length cmd) (host ++ b':' ∷ rest) bs
        (omega (arith, length-after_first cmd (codes "-v ") found)) in
    let first : flag_sources volume cmd (codes "-v ") ≡ done ((c ∷ host) ∷ more) =
      flag_loop-round volume (codes "-v ") (length cmd) cmd c (host ++ b':' ∷ rest) found b m
      ∙ rw (sources-host c host rest h) in
    let (vs, v) =
      all_sources-done volume cmd (codes "-v=" ∷ codes "--volume " ∷ codes "--volume=" ∷ [])
        ascii in
    let (ms, k) = all_sources-done mount cmd mount_flags ascii in
    has_sensitive_mount-of cmd (all_sources-cons volume cmd (codes "-v ") _ first v) k
    ∙ rw sensitive

-- Where no dash stands before a `-v` flag, and the character right behind the one space after it is
-- more than one byte wide, the search goes on inside that character, and panics.
pub has_sensitive_mount-panic :
    (start rest : Text) (c : ℕ)
    → Lacks b'-' start
    → 128 ≤ c
    → has_sensitive_mount (start ++ (codes "-v " ++ c ∷ rest)) ≡ fault panic
unfolding has_sensitive_mount extract_mount_sources all_sources flag_sources
has_sensitive_mount-panic start rest c lacks wide =
    let cmd = start ++ (codes "-v " ++ c ∷ rest) in
    let found = after_first-skip b'-' (codes "v ") start (c ∷ rest) lacks in
    rw (flag_loop-panic volume (codes "-v ") (length cmd) cmd c rest found wide)
