-- ===== src/PullImage/Measure.antt =====
-- How much work is left on the nodes of a PrePullImage: the transitions that a node can still make.
use kwarm.Base.{ℕ, ◌+◌, ◌-◌, ◌*◌, ◌^◌, ◌≤◌, ◌<◌, ◌≡◌, ◌⊎◌, inl, inr, List, [], ◌∷◌, All, arith, ap}
use kwarm.Api.{NodeStatus, NodePullStatus}
use kwarm.PullImage.Census.{is_pending, is_pulling, tally}
use kwarm.PullImage.Steps.{NodeStep, stay, start, finish, retry, fail}

abbrev pub work_of : ℕ → NodePullStatus → ℕ → ℕ
work_of max NodePullStatus.pending retries = 2 * (max - retries) + 2
work_of max NodePullStatus.pulling retries = 2 * (max - retries) + 1
work_of max _ retries = 0

abbrev pub work : ℕ → NodeStatus → ℕ
work max n = work_of max n.status n.retry_count

unfoldable pub total_work : ℕ → List NodeStatus → ℕ
total_work max [] = 0
total_work max (n ∷ ns) = work max n + total_work max ns

-- No node has had more retries than `max`.
abbrev pub IsBelow : ℕ → List NodeStatus → Type 0
IsBelow max = All (λ n. n.retry_count ≤ max)

-- A step keeps the retries below, and it takes from the work that is left, or the node stays.
pub step-work :
    (max : ℕ) (n m : NodeStatus)
    → max < 2 ^ 31
    → n.retry_count ≤ max
    → NodeStep max n m
    → (m.retry_count ≤ max) × ((m ≡ n) ⊎ (work max m + 1 ≤ work max n))
step-work max n m small h (stay e) = (ground arith, inl e)
step-work max n m small h (start a b e f) = ground arith
step-work max n m small h (finish a b e f) = ground arith
step-work max n m small h (retry a b e f g) = ground arith
step-work max n m small h (fail a b e f g) = ground arith

pub step-work-le :
    (max : ℕ) (n m : NodeStatus)
    → max < 2 ^ 31
    → n.retry_count ≤ max
    → NodeStep max n m
    → work max m ≤ work max n
step-work-le max n m small h st = elim (step-work max n m small h st).1 [
  | inl e ↦ ground (arith, ap (work max) e)
  | inr l ↦ omega arith
]

-- No work is left exactly when no node is pending or pulling.
pub tally-le-work :
    (max : ℕ) (ns : List NodeStatus)
    → (tally is_pending ns + tally is_pulling ns ≤ total_work max ns)
      × (tally is_pending ns + tally is_pulling ns ≡ 0 → total_work max ns ≡ 0)
unfolding tally total_work
tally-le-work max [] = omega arith
tally-le-work max (n ∷ ns) = ground (arith, tally-le-work max ns)
