-- ===== src/PullImage/Restarts.antt =====
-- The limiter is made anew when the operator starts (cmd/main.go), while the statuses are stored: what
-- is left of its limits after restarts.
use kwarm.Base.{ℕ, suc, ◌+◌, ◌*◌, ◌≤◌, ◌≡◌, length, String, List, [], ℤ, arith}
use kwarm.Api.{PrePullImage}
use kwarm.Cluster.{Sys, Client, Library}
use kwarm.RateLimiter.{RateLimiter, new_rate_limiter}
use kwarm.RateLimiter.Slots.{count}
use kwarm.RateLimiter.Views.{Within-view, Covers, Covers-view}
use kwarm.PullImage.Fleet.{FleetRun, FleetRun_keeps, FleetRun-limits, new-Within, slots_of}

-- A new limiter misses at most the slots of the pulls that run.
new-Covers :
    (r : RateLimiter) (slots : List String)
    → Covers (length slots) (λ node. count node slots) r slots
new-Covers r slots = record { total = omega arith; each = λ node. omega arith }

module _ {W : Type 0} (client : Client W) (lib : Library) (a b : ℤ) where
  -- The runs of the operator so far, after a number of restarts; a restart may find any system.
  pub data Epochs : ℕ → List PrePullImage → Sys W → Type 0 where
    first :
        {ps : List PrePullImage} {s s' : Sys W}
        → s.limiter ≡ new_rate_limiter a b
        → FleetRun client lib [] s ps s'
        → Epochs 0 ps s'
    again :
        {k : ℕ} {ps qs : List PrePullImage} {s t t' : Sys W}
        → Epochs k ps s
        → t.limiter ≡ new_rate_limiter a b
        → FleetRun client lib ps t qs t'
        → Epochs (suc k) qs t'

  -- One run adds at most the limits to what is pulling at its start.
  run_adds :
      {ps : List PrePullImage} {s : Sys W} {qs : List PrePullImage} {s' : Sys W}
      → s.limiter ≡ new_rate_limiter a b
      → FleetRun client lib ps s qs s'
      → (length (slots_of qs [])
          ≤ (new_rate_limiter a b).max_concurrent_pulls + length (slots_of ps []))
        × ((node : String)
            → count node (slots_of qs [])
              ≤ (new_rate_limiter a b).max_pulls_per_node + count node (slots_of ps []))
  run_adds {ps} {s} {qs} {s'} e run =
      let covers =
        FleetRun_keeps client lib Covers-view (new-Covers s.limiter (slots_of ps [])) run in
      let within = FleetRun_keeps client lib Within-view (new-Within a b s.limiter e) run in
      (
        omega (arith, covers.total, within.valid.within, within.concurrent_kept),
        λ node.
            omega (arith, covers.each node, within.valid.each_within node, within.per_node_kept),
      )

  -- After `k` restarts of the operator, at any time and with the statuses kept, over runs of
  -- reconciles as in Fleet: in all resources together at most `k + 1` times the cluster-wide limit of
  -- nodes is stored as pulling, and on each node at most `k + 1` times the limit per node.
  pub Epochs-limits :
      {k : ℕ} {ps : List PrePullImage} {s : Sys W}
      → Epochs k ps s
      → (length (slots_of ps []) ≤ (k + 1) * (new_rate_limiter a b).max_concurrent_pulls)
        × ((node : String)
            → count node (slots_of ps []) ≤ (k + 1) * (new_rate_limiter a b).max_pulls_per_node)
  Epochs-limits (first e run) =
      let now = FleetRun-limits client lib a b e run in
      (omega (arith, now.0), λ node. omega (arith, now.1 node))
  Epochs-limits (again before e run) =
      let old = Epochs-limits before in
      let now = run_adds e run in
      (omega (arith, old.0, now.0), λ node. omega (arith, old.1 node, now.1 node))
