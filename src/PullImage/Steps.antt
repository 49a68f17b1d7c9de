-- ===== src/PullImage/Steps.antt =====
-- How one node moves: the transitions that a pass of `handleInProgress` can make, how often a pull is
-- started, and when the controller asks to be called again.
use kwarm.Base.{
  ℕ, ◌+◌, ◌^◌, ◌≤◌, ◌<◌, ◌≡◌, refl, ◌⊎◌, true, false, String, List, [], ◌∷◌, inc32, slt32, arith,
}
use kwarm.Api.{PrePullImage, NodeStatus, NodePullStatus}
use kwarm.Cluster.{Sys, Client, Library}
use kwarm.PullImage.Census.{is_pending, is_pulling}
use kwarm.PullImage.Handlers.{advance, fresh_node, no_tally}
use kwarm.PullImage.Summary.{advance_nodes}
use kwarm.PullImage.Node.{
  Tally, visit, visit_all, visit_pending, visit_pulling, start_pull_job, check_job_status, judge,
}

-- One node from `n` to `m`, with `max` as `maxAttempts`.
pub data NodeStep (max : ℕ) (n m : NodeStatus) : Type 0 where
  stay : m ≡ n → NodeStep max n m
  start :
      n.status ≡ NodePullStatus.pending
      → m.status ≡ NodePullStatus.pulling
      → m.node ≡ n.node
      → m.retry_count ≡ n.retry_count
      → NodeStep max n m
  finish :
      n.status ≡ NodePullStatus.pulling
      → m.status ≡ NodePullStatus.completed
      → m.node ≡ n.node
      → m.retry_count ≡ n.retry_count
      → NodeStep max n m
  retry :
      n.status ≡ NodePullStatus.pulling
      → m.status ≡ NodePullStatus.pending
      → m.node ≡ n.node
      → m.retry_count ≡ inc32 n.retry_count
      → slt32 n.retry_count max ≡ true
      → NodeStep max n m
  fail :
      n.status ≡ NodePullStatus.pulling
      → m.status ≡ NodePullStatus.failed
      → m.node ≡ n.node
      → m.retry_count ≡ n.retry_count
      → slt32 n.retry_count max ≡ false
      → NodeStep max n m

-- The nodes keep their places, and each makes one step.
abbrev pub StepAll : ℕ → List NodeStatus → List NodeStatus → Type 0
StepAll max [] [] = Unit
StepAll max (n ∷ ns) (m ∷ ms) = NodeStep max n m × StepAll max ns ms
StepAll max _ _ = ⊥

-- A node that leaves nothing to ask for: done, or started just now.
abbrev pub IsQuiet : NodeStatus → NodeStatus → Type 0
IsQuiet n m =
    ((n.status ≡ NodePullStatus.pending) × (m.status ≡ NodePullStatus.pulling))
    ⊎ (is_pending m.status + is_pulling m.status ≡ 0)

abbrev pub QuietAll : List NodeStatus → List NodeStatus → Type 0
QuietAll [] [] = Unit
QuietAll (n ∷ ns) (m ∷ ms) = IsQuiet n m × QuietAll ns ms
QuietAll _ _ = ⊥

module _ {W : Type 0} (client : Client W) (lib : Library) where
  pub visit-NodeStep :
      (ppi : PrePullImage) (ns : NodeStatus) (t : Tally) (s : Sys W) (st : NodePullStatus)
      → ns.status ≡ st
      → NodeStep ppi.spec.retry.max_attempts ns (visit client lib ppi ns t s).0.0
  unfolding visit visit_pending visit_pulling start_pull_job check_job_status judge
  visit-NodeStep ppi ns t s NodePullStatus.pending e = grind (arith, stay, start)
  visit-NodeStep ppi ns t s NodePullStatus.pulling e = grind (arith, stay, finish, retry, fail)
  visit-NodeStep ppi ns t s _ e = grind (arith, stay)

  visit_all-StepAll :
      (ppi : PrePullImage) (nodes : List NodeStatus) (t : Tally) (s : Sys W)
      → StepAll ppi.spec.retry.max_attempts nodes (visit_all client lib ppi nodes t s).0.0
  unfolding visit_all
  visit_all-StepAll ppi [] t s = tt
  visit_all-StepAll ppi (ns ∷ rest) t s =
      let r = visit client lib ppi ns t s in
      (visit-NodeStep ppi ns t s ns.status refl, visit_all-StepAll ppi rest r.0.1 r.1)

  -- `handleInProgress` keeps the list of the nodes, and each node stays as it is or makes one
  -- transition: pending to pulling, pulling to completed, pulling back to pending with one retry more
  -- while the count is below `maxAttempts`, or pulling to failed when it is not.
  pub advance-StepAll :
      (ppi : PrePullImage) (s : Sys W)
      → StepAll ppi.spec.retry.max_attempts ppi.status.node_status
          (advance client lib ppi s).0.0.node_status
  advance-StepAll ppi s =
      rw (advance_nodes client lib ppi s) (visit_all-StepAll ppi ppi.status.node_status no_tally s)

  visit-IsQuiet :
      (ppi : PrePullImage) (ns : NodeStatus) (t : Tally) (s : Sys W) (st : NodePullStatus)
      → ns.status ≡ st
      → (visit client lib ppi ns t s).0.1.needs_requeue ≡ false
      → (t.needs_requeue ≡ false) × IsQuiet ns (visit client lib ppi ns t s).0.0
  unfolding visit visit_pending visit_pulling start_pull_job check_job_status judge
  visit-IsQuiet ppi ns t s NodePullStatus.pending e h = ground arith
  visit-IsQuiet ppi ns t s NodePullStatus.pulling e h = ground arith
  visit-IsQuiet ppi ns t s _ e h = ground arith

  visit_all-QuietAll :
      (ppi : PrePullImage) (nodes : List NodeStatus) (t : Tally) (s : Sys W)
      → (visit_all client lib ppi nodes t s).0.1.needs_requeue ≡ false
      → (t.needs_requeue ≡ false) × QuietAll nodes (visit_all client lib ppi nodes t s).0.0
  unfolding visit_all
  visit_all-QuietAll ppi [] t s h = (h, tt)
  visit_all-QuietAll ppi (ns ∷ rest) t s h =
      let r = visit client lib ppi ns t s in
      let later = visit_all-QuietAll ppi rest r.0.1 r.1 h in
      let now = visit-IsQuiet ppi ns t s ns.status refl later.0 in (now.0, (now.1, later.1))

  -- Where `handleInProgress` does not ask to be called again, each node is neither pending nor pulling
  -- any more, or it has gone from pending to pulling in this very pass.
  pub advance-QuietAll :
      (ppi : PrePullImage) (s : Sys W)
      → (advance client lib ppi s).0.1 ≡ false
      → QuietAll ppi.status.node_status (advance client lib ppi s).0.0.node_status
  advance-QuietAll ppi s h =
      rw (advance_nodes client lib ppi s)
        (visit_all-QuietAll ppi ppi.status.node_status no_tally s (unfold advance in h)).1

-- 1 for a step that starts a pull.
abbrev pub starts : NodePullStatus → NodePullStatus → ℕ
starts NodePullStatus.pending NodePullStatus.pulling = 1
starts _ _ = 0

-- The passes over one node since `handlePending` made its entry, with the number of pulls started.
pub data History (max : ℕ) (name : String) : NodeStatus → ℕ → Type 0 where
  fresh : History max name (fresh_node name) 0
  pass :
      {n m : NodeStatus} {c d : ℕ}
      → History max name n c
      → NodeStep max n m
      → d ≡ c + starts n.status m.status
      → History max name m d

record Attempts (max : ℕ) (n : NodeStatus) (c : ℕ) : Type 0 where
  retries : n.retry_count ≤ max
  started : c + is_pending n.status ≡ n.retry_count + 1
  last : n.status ≡ NodePullStatus.failed → n.retry_count ≡ max

step-Attempts :
    (max c d : ℕ) (n m : NodeStatus)
    → max < 2 ^ 31
    → Attempts max n c
    → NodeStep max n m
    → d ≡ c + starts n.status m.status
    → Attempts max m d
step-Attempts max c d n m small h (stay e) p = ground arith
step-Attempts max c d n m small h (start a b e f) p = ground arith
step-Attempts max c d n m small h (finish a b e f) p = ground arith
step-Attempts max c d n m small h (retry a b e f g) p = ground arith
step-Attempts max c d n m small h (fail a b e f g) p = ground arith

History-Attempts :
    {max : ℕ} {name : String} {c : ℕ} {n : NodeStatus}
    → max < 2 ^ 31
    → History max name n c
    → Attempts max n c
History-Attempts small fresh = ground arith
History-Attempts {max} small (pass {n = n} {m = m} {c = c} {d = d} h st e) =
    step-Attempts max c d n m small (History-Attempts small h) st e

-- The bounds of `Attempts`, from the history of a node.
pub attempts_bounded :
    {max c : ℕ} {name : String} {n : NodeStatus}
    → max < 2 ^ 31
    → History max name n c
    → (n.retry_count ≤ max) × (c ≤ max + 1)
attempts_bounded small h = omega (arith, History-Attempts small h)

pub failed_after_all :
    {max c : ℕ} {name : String} {n : NodeStatus}
    → max < 2 ^ 31
    → History max name n c
    → n.status ≡ NodePullStatus.failed
    → (n.retry_count ≡ max) × (c ≡ max + 1)
failed_after_all small h e = ground (arith, History-Attempts small h)
