-- ===== src/Policy/Engine/Merge.antt =====
-- The order of decisions: Deny above RequireApproval above Allow.
use Prim.Native.Nat.{max}
use zymi_core.Prelude.{ℕ, ◌≡◌, refl, ◌≤◌, arith}
use zymi_core.Policy.Engine.{PolicyDecision, allowed, needs_approval, denied, merge_decisions}

unfoldable pub rank : PolicyDecision → ℕ
rank allowed = 0
rank needs_approval = 1
rank (denied r) = 2

rank-merge_decisions : (a b : PolicyDecision) → rank (merge_decisions a b) ≡ max (rank a) (rank b)
unfolding rank merge_decisions
rank-merge_decisions (denied r) allowed = refl
rank-merge_decisions (denied r) needs_approval = refl
rank-merge_decisions (denied r) (denied q) = refl
rank-merge_decisions allowed allowed = refl
rank-merge_decisions allowed needs_approval = refl
rank-merge_decisions allowed (denied q) = refl
rank-merge_decisions needs_approval allowed = refl
rank-merge_decisions needs_approval needs_approval = refl
rank-merge_decisions needs_approval (denied q) = refl

merge_decisions_assoc :
    (a b c : PolicyDecision)
    → merge_decisions (merge_decisions a b) c ≡ merge_decisions a (merge_decisions b c)
unfolding merge_decisions
merge_decisions_assoc (denied r) b c = refl
merge_decisions_assoc allowed (denied r) c = refl
merge_decisions_assoc needs_approval (denied r) c = refl
merge_decisions_assoc allowed allowed c = ground arith
merge_decisions_assoc allowed needs_approval c = ground arith
merge_decisions_assoc needs_approval allowed c = ground arith
merge_decisions_assoc needs_approval needs_approval c = ground arith

keep_first : (a b : PolicyDecision) → rank b ≤ rank a → merge_decisions a b ≡ a
unfolding merge_decisions rank
keep_first (denied r) b h = refl
keep_first allowed allowed h = refl
keep_first allowed needs_approval h = absurd (omega arith)
keep_first allowed (denied r) h = absurd (omega arith)
keep_first needs_approval allowed h = refl
keep_first needs_approval needs_approval h = refl
keep_first needs_approval (denied r) h = absurd (omega arith)

-- Merging is associative and keeps the more restrictive of two decisions, the first where they are
-- equally restrictive, so a denial's reason is the first one given.
pub merge_decisions_lem :
    (a b c : PolicyDecision)
    → (merge_decisions (merge_decisions a b) c ≡ merge_decisions a (merge_decisions b c))
      × (rank (merge_decisions a b) ≡ max (rank a) (rank b))
      × (rank b ≤ rank a → merge_decisions a b ≡ a)
merge_decisions_lem a b c = (merge_decisions_assoc a b c, rank-merge_decisions a b, keep_first a b)
