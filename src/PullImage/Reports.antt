-- ===== src/PullImage/Reports.antt =====
-- What is reported of failures, and what is not.
use kwarm.Base.{ℕ, ◌≡◌, refl, ◌⊎◌, String, List, [], ◌∷◌, arith, ap, ◌∙◌}
use kwarm.Api.{PrePullImage, NodeStatus, NodePullStatus}
use kwarm.Metrics.{MetricCall, reconcile_total_inc, reconcile_duration_observe, record_reconcile}
use kwarm.Cluster.{Sys, Client, Library}
use kwarm.PullImage.Node.{
  Tally, visit, visit_all, visit_pending, visit_pulling, start_pull_job, check_job_status, judge,
}
use kwarm.PullImage.Handlers.{reconcile}
use kwarm.Puller.{pull_job, create_pull_job}

-- The resource with another `backoffSeconds`.
abbrev with_backoff : PrePullImage → ℕ → PrePullImage
with_backoff ppi seconds =
    let spec = ppi.spec in
    let retry = spec.retry in
    record ppi { spec = record spec { retry = record retry { backoff_seconds = seconds } } }

module _ {W : Type 0} (client : Client W) (lib : Library) where
  -- When the pull on a node has failed, the new status has either no error text or the text
  -- "max retries exceeded": the job's own failure message is never kept.
  pub failure_message_lost :
      (ppi : PrePullImage) (ns : NodeStatus) (t : Tally) (s : Sys W)
      → ns.status ≡ NodePullStatus.pulling
      → let m = (visit client lib ppi ns t s).0.0 in
        ((m.status ≡ NodePullStatus.pulling) × (m.error ≡ ns.error))
        ⊎ ((m.status ≡ NodePullStatus.completed) × (m.error ≡ ns.error))
        ⊎ ((m.status ≡ NodePullStatus.pending) × (m.error ≡ ""))
        ⊎ ((m.status ≡ NodePullStatus.failed) × (m.error ≡ "max retries exceeded"))
  unfolding visit visit_pulling check_job_status judge
  failure_message_lost ppi ns t s e = ground arith

  pending_backoff :
      (ppi : PrePullImage) (seconds : ℕ) (ns : NodeStatus) (t : Tally) (s : Sys W)
      → visit_pending client lib (with_backoff ppi seconds) ns t s
        ≡ visit_pending client lib ppi ns t s
  unfolding visit_pending start_pull_job create_pull_job pull_job
  pending_backoff ppi seconds ns t s = refl

  pulling_backoff :
      (ppi : PrePullImage) (seconds : ℕ) (ns : NodeStatus) (t : Tally) (s : Sys W)
      → visit_pulling client lib (with_backoff ppi seconds) ns t s
        ≡ visit_pulling client lib ppi ns t s
  unfolding visit_pulling judge
  pulling_backoff ppi seconds ns t s = refl

  visit_backoff :
      (ppi : PrePullImage) (seconds : ℕ) (ns : NodeStatus) (t : Tally) (s : Sys W)
      → visit client lib (with_backoff ppi seconds) ns t s ≡ visit client lib ppi ns t s
  unfolding visit
  visit_backoff ppi seconds ns t s =
      ground (arith, pending_backoff ppi seconds ns t s, pulling_backoff ppi seconds ns t s)

  -- A pass over the nodes does the same whatever `backoffSeconds` is: no retry waits for it.
  visit_all_backoff :
      (ppi : PrePullImage) (seconds : ℕ) (nodes : List NodeStatus) (t : Tally) (s : Sys W)
      → visit_all client lib (with_backoff ppi seconds) nodes t s
        ≡ visit_all client lib ppi nodes t s
  unfolding visit_all
  visit_all_backoff ppi seconds [] t s = refl
  visit_all_backoff ppi seconds (ns ∷ rest) t s =
      let r = visit client lib ppi ns t s in
      ap next (visit_backoff ppi seconds ns t s)
      ∙ ap (λ (q : (List NodeStatus × Tally) × Sys W). ((r.0.0 ∷ q.0.0, q.0.1), q.1))
          (visit_all_backoff ppi seconds rest r.0.1 r.1)
    where
      next : (NodeStatus × Tally) × Sys W → (List NodeStatus × Tally) × Sys W
      next r =
          let q = visit_all client lib (with_backoff ppi seconds) rest r.0.1 r.1 in
          ((r.0.0 ∷ q.0.0, q.0.1), q.1)

  -- Every reconcile is counted as a success, also one that returns an error: the last two calls of the
  -- metrics are the count under "success" and the duration, before all that the handler recorded.
  pub reconcile_counts_success :
      (namespace name : String) (s : Sys W)
      → (start end : ℕ) × (m : List MetricCall) × ((reconcile client lib namespace name s).1.metrics
          ≡ reconcile_duration_observe "prepullimage" start end
            ∷ (reconcile_total_inc "prepullimage" "success" ∷ m))
  unfolding reconcile record_reconcile
  reconcile_counts_success namespace name s = (_, _, _, refl)
