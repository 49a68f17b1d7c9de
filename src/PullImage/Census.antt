-- ===== src/PullImage/Census.antt =====
-- What the statuses of the nodes say: how many are in each state, the phase that this asks for,
-- and the slots of the rate limiter that the pulling nodes hold.
use kwarm.Base.{ℕ, ◌+◌, String, List, [], ◌∷◌, ltb, if◌then◌else◌}
use kwarm.Api.{NodeStatus, NodePullStatus, PrePullImagePhase}

abbrev pub is_pending : NodePullStatus → ℕ
is_pending NodePullStatus.pending = 1
is_pending _ = 0

abbrev pub is_pulling : NodePullStatus → ℕ
is_pulling NodePullStatus.pulling = 1
is_pulling _ = 0

abbrev pub is_completed : NodePullStatus → ℕ
is_completed NodePullStatus.completed = 1
is_completed _ = 0

abbrev pub is_failed : NodePullStatus → ℕ
is_failed NodePullStatus.failed = 1
is_failed _ = 0

-- The phase that the statuses of the nodes ask for: unchanged while a node waits or pulls, then
-- failed if a node has failed, and else completed.
unfoldable pub phase_for : PrePullImagePhase → ℕ → ℕ → PrePullImagePhase
phase_for old open_nodes failed_nodes =
    if ltb 0 open_nodes
    then old
    else if ltb 0 failed_nodes
    then PrePullImagePhase.failed
    else PrePullImagePhase.completed

-- How many nodes have a status, by its indicator.
unfoldable pub tally : (NodePullStatus → ℕ) → List NodeStatus → ℕ
tally f [] = 0
tally f (ns ∷ rest) = f ns.status + tally f rest

-- One slot for a node that is pulling.
abbrev pub hold : NodePullStatus → String → List String → List String
hold NodePullStatus.pulling node slots = node ∷ slots
hold _ node slots = slots

-- The slots of the pulling nodes, before those of others.
unfoldable pub held : List NodeStatus → List String → List String
held [] others = others
held (ns ∷ rest) others = hold ns.status ns.node (held rest others)
