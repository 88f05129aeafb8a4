-- ===== src/Policy/Fragments/Ends.antt =====
-- `collect_all_fragments` ends: its queue runs empty within the rounds that the model gives it.
use zymi_core.Prelude.{
  ℕ, zero, suc, ◌+◌, ◌-◌, ◌*◌, ◌^◌, ◌≤◌, ◌<◌, ◌≡◌, ◌≢◌, refl, ap, ◌∙◌, false, Option, none, some,
  List, [], ◌∷◌, leb, if◌then◌else◌, arith, Bool-cases, inl, inr, length, Outcome, done, fault,
  panic, out_of_fuel, ◌>>=◌, Text,
}
use native.Mathlib.Nat.{mul-le-mul_left, mul-le-mul_right, one-le-pow, pow-suc}
use zymi_core.Policy.Split.{split_compound_commands}
use zymi_core.Policy.Split.Size.{total, total-split_compound_commands}
use zymi_core.Policy.Subshell.{extract_subshells}
use zymi_core.Policy.Subshell.Fuel.{weight, weight-extract_subshells}
use zymi_core.Policy.ShellWrapper.{RegexCrate, extract_shell_c_arg}
use zymi_core.Policy.ShellWrapper.Panic.{
  CapturesPart, extract_shell_c_arg-length, extract_shell_c_arg-ne-out_of_fuel,
}
use zymi_core.Policy.Fragments.{
  max_fragment_depth, holds, Work, push_unseen, push_bodies, push_inner, record_fragment, visit_sub,
  visit_subs, visit, collect_loop, rounds, collect_all_fragments,
}

-- The rounds that a queue still wants.
load : List (Text × ℕ) → ℕ
load [] = 0
load ((cmd, depth) ∷ queue) = rounds cmd depth + load queue

-- A step that did not panic leaves no more than `n` rounds to do.
abbrev Within : ℕ → Outcome Work → Type 0
Within n (done w) = load w.queue ≤ n
Within n (fault panic) = Unit
Within n (fault out_of_fuel) = ⊥

Within-bind :
    (n m : ℕ) (r : Outcome Work) (f : Work → Outcome Work)
    → Within n r
    → ((w : Work) → load w.queue ≤ n → Within m (f w))
    → Within m (r >>= f)
Within-bind n m (done w) f h k = k w h
Within-bind n m (fault panic) f h k = tt
Within-bind n m (fault out_of_fuel) f h k = h

load-record_fragment : (s : Text) (w : Work) → load (record_fragment s w).queue ≡ load w.queue
unfolding record_fragment
load-record_fragment s w = refl

-- `k` is what a character costs one level below `depth`.
module _ (depth k : ℕ) (cost : (s : Text) → rounds s (depth + 1) ≡ (length s + 1) * k) where
  load-push_unseen :
      (s : Text) (w : Work) → load (push_unseen depth s w).queue ≤ load w.queue + (length s + 1) * k
  unfolding push_unseen load
  load-push_unseen s w = ground (arith, cost s)

  load-push_bodies :
      (ss : List Text) (w : Work)
      → load (push_bodies depth ss w).queue ≤ load w.queue + weight ss * k
  unfolding push_bodies
  load-push_bodies [] w = omega arith
  load-push_bodies (s ∷ ss) w =
      omega (arith, load-push_unseen s w, load-push_bodies ss (push_unseen depth s w))

  mul_mono : (a b : ℕ) → a ≤ b → a * k ≤ b * k
  mul_mono a b h = grind arith

  module _ (rx : RegexCrate) (part : CapturesPart rx) where
    inner-Within :
        (sub : Text) (w : Work) (r : Outcome (Option Text))
        → extract_shell_c_arg rx sub ≡ r
        → Within (load w.queue + length sub * k) (do inner ← r; done (push_inner depth inner w))
    inner-Within sub w (done none) e = omega arith
    inner-Within sub w (done (some inner)) e = omega (
      arith,
      load-push_unseen inner w,
      mul_mono (length inner + 1) (length sub)
          (omega (arith, extract_shell_c_arg-length rx sub part e)),
    )
    inner-Within sub w (fault panic) e = tt
    inner-Within sub w (fault out_of_fuel) e = extract_shell_c_arg-ne-out_of_fuel rx sub e

    Within-mono : (n m : ℕ) (r : Outcome Work) → Within n r → n ≤ m → Within m r
    Within-mono n m (done w) h l = omega arith
    Within-mono n m (fault panic) h l = tt
    Within-mono n m (fault out_of_fuel) h l = h

    visit_sub-Within :
        (sub : Text) (w : Work)
        → Within (load w.queue + 2 * (length sub * k)) (visit_sub rx depth sub w)
    unfolding visit_sub
    visit_sub-Within sub w = elim (Bool-cases (holds w.seen sub)) [
      | inl e ↦ rw e (omega arith)
      | inr e ↦
          let w' = push_bodies depth (extract_subshells sub) (record_fragment sub w) in
          rw e (
            Within-mono (load w'.queue + length sub * k) _ _
              (inner-Within sub w' (extract_shell_c_arg rx sub) refl)
              (omega (
                arith,
                load-push_bodies (extract_subshells sub) (record_fragment sub w),
                load-record_fragment sub w,
                mul_mono (weight (extract_subshells sub)) (length sub)
                    (weight-extract_subshells sub),
              )))
    ]

    visit_subs-Within :
        (subs : List Text) (w : Work)
        → Within (load w.queue + 2 * (total subs * k)) (visit_subs rx depth subs w)
    unfolding visit_subs
    visit_subs-Within [] w = omega arith
    visit_subs-Within (sub ∷ subs) w =
        Within-bind _ _ (visit_sub rx depth sub w) (visit_subs rx depth subs)
          (visit_sub-Within sub w)
          λ w' h.
            Within-mono _ _ (visit_subs rx depth subs w') (visit_subs-Within subs w') (omega arith)

pub rounds-pos : (cmd : Text) (depth : ℕ) → 0 < rounds cmd depth
unfolding rounds
rounds-pos cmd depth = omega (
  arith,
  mul-le-mul_left (length cmd + 1) (one-le-pow (max_fragment_depth - depth) 3 (omega arith)),
)

rounds_lem :
    (cmd : Text) (depth : ℕ)
    → rounds cmd depth ≡ (length cmd + 1) * 3 ^ (max_fragment_depth - depth)
unfolding rounds
rounds_lem cmd depth = refl

pow_below :
    (depth : ℕ)
    → leb max_fragment_depth depth ≡ false
    → 3 ^ (max_fragment_depth - depth) ≡ 3 ^ (max_fragment_depth - (depth + 1)) * 3
pow_below depth e =
    let lower : depth < max_fragment_depth = ground arith in
    let one_less : max_fragment_depth - depth ≡ suc (max_fragment_depth - (depth + 1)) =
      omega arith in
    ap (◌^◌ 3) one_less ∙ pow-suc 3 (max_fragment_depth - (depth + 1))

-- What the sub-commands of a command cost stays below what the command was counted for.
rounds-below :
    (cmd : Text) (depth t : ℕ)
    → leb max_fragment_depth depth ≡ false
    → t ≤ length cmd
    → 2 * (t * 3 ^ (max_fragment_depth - (depth + 1))) < rounds cmd depth
rounds-below cmd depth t e h =
    let k = 3 ^ (max_fragment_depth - (depth + 1)) in
    rw (rounds_lem cmd depth, pow_below depth e)
      (omega (
        arith,
        mul-le-mul_right k h,
        one-le-pow (max_fragment_depth - (depth + 1)) 3 (omega arith),
      ))

load_at_limit :
    (cmd : Text) (w : Work)
    → load (if holds w.seen cmd then w else record_fragment cmd w).queue ≤ load w.queue
load_at_limit cmd w = ground (arith, load-record_fragment cmd w)

module _ (rx : RegexCrate) (part : CapturesPart rx) where
  -- Each round lowers what is left to do.
  visit-Within :
      (cmd : Text) (depth : ℕ) (w : Work)
      → (n : ℕ) × (Within n (visit rx cmd depth w)) × (n < load w.queue + rounds cmd depth)
  unfolding visit
  visit-Within cmd depth w = elim (Bool-cases (leb max_fragment_depth depth)) [
    | inl e ↦ (load w.queue, rw e (load_at_limit cmd w), omega (arith, rounds-pos cmd depth))
    | inr e ↦ (
      load w.queue
          + 2 * (total (split_compound_commands cmd) * 3 ^ (max_fragment_depth - (depth + 1))),
      rw e (
          visit_subs-Within depth (3 ^ (max_fragment_depth - (depth + 1)))
            (λ s. rounds_lem s (depth + 1)) rx part (split_compound_commands cmd) w),
      omega (
        arith,
        rounds-below cmd depth (total (split_compound_commands cmd)) e
            (total-split_compound_commands cmd),
      ),
    )
  ]

  visit_cases :
      (fuel n : ℕ) (r : Outcome Work) (f : Work → Outcome (List Text))
      → Within n r
      → n ≤ fuel
      → ((w : Work) → load w.queue ≤ fuel → f w ≢ fault out_of_fuel)
      → (r >>= f) ≢ fault out_of_fuel
  visit_cases fuel n (done w) f h l k = k w (omega arith)
  visit_cases fuel n (fault panic) f h l k = λ e. cc
  visit_cases fuel n (fault out_of_fuel) f h l k = absurd h

  collect_loop-ne-out_of_fuel :
      (fuel : ℕ) (seen result : List Text) (queue : List (Text × ℕ))
      → load queue ≤ fuel
      → collect_loop rx fuel seen result queue ≢ fault out_of_fuel
  unfolding collect_loop load
  collect_loop-ne-out_of_fuel zero seen result [] h = λ e. cc
  collect_loop-ne-out_of_fuel (suc fuel) seen result [] h = λ e. cc
  collect_loop-ne-out_of_fuel zero seen result ((cmd, depth) ∷ queue) h =
      absurd (omega (arith, rounds-pos cmd depth))
  collect_loop-ne-out_of_fuel (suc fuel) seen result ((cmd, depth) ∷ queue) h =
      let w : Work = record { seen = seen; result = result; queue = queue } in
      let (n, within, less) = visit-Within cmd depth w in
      visit_cases fuel n (visit rx cmd depth w) _ within (omega arith)
        λ w' l. collect_loop-ne-out_of_fuel fuel w'.seen w'.result w'.queue l

-- With a crate whose captures are proper parts of the text, the work queue of
-- `collect_all_fragments` runs empty within the rounds given, for every command.
pub collect_all_fragments-ends :
    (rx : RegexCrate) (command : Text)
    → CapturesPart rx
    → collect_all_fragments rx command ≢ fault out_of_fuel
unfolding collect_all_fragments load
collect_all_fragments-ends rx command part =
    collect_loop-ne-out_of_fuel rx part (rounds command 0) [] [] ((command, 0) ∷ []) (omega arith)
