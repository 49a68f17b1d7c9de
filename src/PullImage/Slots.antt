-- ===== src/PullImage/Slots.antt =====
-- The rate limiter holds a slot for each node that is pulling, and for no other.
use kwarm.Base.{◌+◌, ◌≡◌, refl, String, List, [], ◌∷◌, arith}
use kwarm.Metrics.{
  raised, lowered, record_pull_duration, increment_active_pulls, decrement_active_pulls,
  increment_pulls_total, set_queue_depth,
}
use kwarm.Api.{PrePullImage, NodeStatus, NodePullStatus}
use kwarm.Cluster.{Sys, Client, Library}
use kwarm.RateLimiter.Slots.{Holds}
use kwarm.PullImage.Census.{held, is_pulling, tally}
use kwarm.PullImage.Handlers.{advance, no_tally}
use kwarm.RateLimiter.Views.{Holds-view}
use kwarm.PullImage.Keeps.{settle_limiter, advance_keeps}
use kwarm.PullImage.Summary.{advance_nodes}
use kwarm.PullImage.Node.{
  Tally, visit, visit_all, visit_pending, visit_pulling, start_pull_job, check_job_status, judge,
}

module _ {W : Type 0} (client : Client W) (lib : Library) where
  -- If the limiter holds the slots of the nodes that are stored as pulling, and any others, then
  -- after `handleInProgress` has visited the nodes it holds the same others and the slots of the
  -- nodes that the new status has as pulling: none is leaked and none given back twice.
  pub advance-Holds :
      (ppi : PrePullImage) (s : Sys W) (others : List String)
      → Holds s.limiter (held ppi.status.node_status others)
      → let r = advance client lib ppi s in Holds r.1.limiter (held r.0.0.node_status others)
  advance-Holds ppi s others h = advance_keeps client lib Holds-view ppi s others h

  -- The gauge of the active pulls.
  visit_gauge :
      (ppi : PrePullImage) (ns : NodeStatus) (t : Tally) (s : Sys W) (st : NodePullStatus)
      → ns.status ≡ st
      → let r = visit client lib ppi ns t s in
        raised r.1.metrics + lowered s.metrics + is_pulling ns.status
        ≡ raised s.metrics + lowered r.1.metrics + is_pulling r.0.0.status
  unfolding visit visit_pending visit_pulling start_pull_job check_job_status judge raised lowered
      record_pull_duration increment_active_pulls decrement_active_pulls increment_pulls_total
  visit_gauge ppi ns t s NodePullStatus.pending e = ground arith
  visit_gauge ppi ns t s NodePullStatus.pulling e = ground arith
  visit_gauge ppi ns t s _ e = ground arith

  visit_all_gauge :
      (ppi : PrePullImage) (nodes : List NodeStatus) (t : Tally) (s : Sys W)
      → let r = visit_all client lib ppi nodes t s in
        raised r.1.metrics + lowered s.metrics + tally is_pulling nodes
        ≡ raised s.metrics + lowered r.1.metrics + tally is_pulling r.0.0
  unfolding visit_all tally
  visit_all_gauge ppi [] t s = refl
  visit_all_gauge ppi (ns ∷ rest) t s =
      let r = visit client lib ppi ns t s in
      omega (arith, visit_gauge ppi ns t s ns.status refl, visit_all_gauge ppi rest r.0.1 r.1)

  -- Over a run of `handleInProgress` before its update, the gauge of the active pulls rises by the
  -- number of the pulling nodes after less the number before.
  pub advance_gauge :
      (ppi : PrePullImage) (s : Sys W)
      → let r = advance client lib ppi s in
        raised r.1.metrics + lowered s.metrics + tally is_pulling ppi.status.node_status
        ≡ raised s.metrics + lowered r.1.metrics + tally is_pulling r.0.0.node_status
  unfolding advance raised lowered set_queue_depth
  advance_gauge ppi s =
      rw ((settle_limiter client lib ppi _ _).1, advance_nodes client lib ppi s)
        (visit_all_gauge ppi ppi.status.node_status no_tally s)
