-- ===== src/Policy/Fragments.antt =====
-- policy.rs, `collect_all_fragments`: a command taken apart into all that has to be checked, by a
-- work queue. `fault out_of_fuel` says that the queue did not run empty in the rounds given.
pub mod Ends
use zymi_core.Prelude.{
  ℕ, zero, suc, ◌+◌, ◌-◌, ◌*◌, ◌^◌, Bool, true, false, not, ◌||◌, Option, none, some, List, [], ◌∷◌,
  ◌++◌, leb, if◌then◌else◌, length, Outcome, done, fault, panic, out_of_fuel, ◌>>=◌, Text, text_eq,
}
use zymi_core.Policy.Split.{split_compound_commands}
use zymi_core.Policy.Subshell.{extract_subshells}
use zymi_core.Policy.ShellWrapper.{RegexCrate, extract_shell_c_arg}

-- `MAX_FRAGMENT_DEPTH`.
abbrev pub max_fragment_depth : ℕ
max_fragment_depth = 10

-- Whether the set or list holds the text.
unfoldable pub holds : List Text → Text → Bool
holds [] s = false
holds (t ∷ ts) s = text_eq t s || holds ts s

-- The variables of the loop. The head of `queue` is the end of the vector, where `pop` takes.
pub record Work : Type 0 where
  pub seen : List Text
  pub result : List Text
  pub queue : List (Text × ℕ)

-- `if !seen.contains(&body) { queue.push((body, depth + 1)) }`.
unfoldable pub push_unseen : ℕ → Text → Work → Work
unfolding holds
push_unseen depth body w =
    if holds w.seen body then w else record w { queue = (body, depth + 1) ∷ w.queue }

unfoldable pub push_bodies : ℕ → List Text → Work → Work
unfolding push_unseen
push_bodies depth [] w = w
push_bodies depth (body ∷ bodies) w = push_bodies depth bodies (push_unseen depth body w)

abbrev pub push_inner : ℕ → Option Text → Work → Work
push_inner depth none w = w
push_inner depth (some inner) w = push_unseen depth inner w

-- `if seen.insert(…) { result.push(…) }`, after the test.
unfoldable pub record_fragment : Text → Work → Work
record_fragment s w = record w { seen = s ∷ w.seen; result = w.result ++ s ∷ [] }

-- The body of the loop over the sub-commands of one command.
unfoldable pub visit_sub : RegexCrate → ℕ → Text → Work → Outcome Work
unfolding push_bodies record_fragment holds extract_shell_c_arg extract_subshells
visit_sub rx depth sub w = if holds w.seen sub then done w else do
  let w' = push_bodies depth (extract_subshells sub) (record_fragment sub w)
  inner ← extract_shell_c_arg rx sub
  done (push_inner depth inner w')

unfoldable pub visit_subs : RegexCrate → ℕ → List Text → Work → Outcome Work
unfolding visit_sub
visit_subs rx depth [] w = done w
visit_subs rx depth (sub ∷ subs) w = do w' ← visit_sub rx depth sub w; visit_subs rx depth subs w'

-- One popped entry of the queue.
unfoldable pub visit : RegexCrate → Text → ℕ → Work → Outcome Work
unfolding visit_subs split_compound_commands record_fragment holds
visit rx cmd depth w =
    if leb max_fragment_depth depth
    then done (if holds w.seen cmd then w else record_fragment cmd w)
    else visit_subs rx depth (split_compound_commands cmd) w

unfoldable pub collect_loop :
    RegexCrate → ℕ → List Text → List Text → List (Text × ℕ) → Outcome (List Text)
unfolding visit
collect_loop rx fuel seen result [] = done result
collect_loop rx zero seen result (_ ∷ _) = fault out_of_fuel
collect_loop rx (suc fuel) seen result ((cmd, depth) ∷ queue) = do
  w ← visit rx cmd depth (record { seen = seen; result = result; queue = queue })
  collect_loop rx fuel w.seen w.result w.queue

-- Rounds that are enough for an entry of the queue: each round on a command of length n puts in
-- entries of no more than 2n characters, one level deeper (Fragments/Ends).
unfoldable pub rounds : Text → ℕ → ℕ
rounds cmd depth = (length cmd + 1) * 3 ^ (max_fragment_depth - depth)

unfoldable pub collect_all_fragments : RegexCrate → Text → Outcome (List Text)
unfolding collect_loop rounds
collect_all_fragments rx command = collect_loop rx (rounds command 0) [] [] ((command, 0) ∷ [])
