-- ===== src/PullImage/Node.antt =====
-- prepullimage_controller.go: `startPullJob`, `checkJobStatus` and the loop of `handleInProgress`.
use kwarm.Base.{
  ℕ, Bool, true, String, List, [], ◌∷◌, Option, none, some, concat, inc32, slt32, if◌then◌else◌,
}
use kwarm.Kube.{Job}
use kwarm.Api.{PrePullImage, NodeStatus, NodePullStatus}
use kwarm.Metrics.{
  record_pull_duration, increment_active_pulls, decrement_active_pulls, increment_pulls_total,
}
use kwarm.Cluster.{
  ApiError, Reason, Outcome, ok, err, Client, Library, Event, M, ◌>>=◌, ◌>>◌, return, call, measure,
  emit, acquire_slot, release_slot,
}
use kwarm.Puller.{
  PullState, get_job_status, get_job_failure_message, generate_job_name, create_pull_job, get_job,
  delete_job,
}

-- `pending, pulling, completed, failed` (int32) and `needsRequeue`
pub record Tally : Type 0 where
  pub pending : ℕ
  pub pulling : ℕ
  pub completed : ℕ
  pub failed : ℕ
  pub needs_requeue : Bool

abbrev pub requeue : Tally → Tally
requeue t = record t { needs_requeue = true }

abbrev pub add_pending : Tally → Tally
add_pending t = record t { pending = inc32 t.pending }

abbrev pub add_pulling : Tally → Tally
add_pulling t = record t { pulling = inc32 t.pulling }

abbrev pub add_completed : Tally → Tally
add_completed t = record t { completed = inc32 t.completed }

abbrev pub add_failed : Tally → Tally
add_failed t = record t { failed = inc32 t.failed }

-- `r.Recorder.Event(ppi, …)`
abbrev pub ppi_event : PrePullImage → String → String → String → Event
ppi_event ppi kind reason message = record {
  namespace = ppi.meta.namespace;
  name = ppi.meta.name;
  kind = kind;
  reason = reason;
  message = message;
}

-- The fields that `startPullJob` writes.
abbrev pub started : NodeStatus → String → ℕ → NodeStatus
started ns job_name now = record ns {
  job_name = job_name;
  status = NodePullStatus.pulling;
  started_at = some now;
}

-- The status of a node whose job failed, before and after the last retry.
abbrev pub retried : NodeStatus → NodeStatus
retried ns = record ns {
  retry_count = inc32 ns.retry_count;
  status = NodePullStatus.pending;
  error = "";
}

abbrev pub given_up : NodeStatus → ℕ → NodeStatus
given_up ns now = record ns {
  status = NodePullStatus.failed;
  completed_at = some now;
  error = "max retries exceeded";
}

-- The error text that `checkJobStatus` writes into the status.
abbrev pub noted : PullState → Job → NodeStatus → NodeStatus
noted PullState.failed job ns = record ns { error = get_job_failure_message (some job) }
noted _ job ns = ns

module _ {W : Type 0} (client : Client W) (lib : Library) where
  unfoldable pub start_pull_job : PrePullImage → NodeStatus → M W (NodeStatus × Option ApiError)
  unfolding create_pull_job
  start_pull_job ppi ns = do
    created ← create_pull_job client lib ppi ns.node
    elim created [
      | ok job ↦ do now ← call client.now; return (started ns job.meta.name now, none)
      | err e ↦ elim e.reason [
        | Reason.already_exists ↦ do
          now ← call client.now
          return (started ns (generate_job_name lib ppi.meta.name ns.node) now, none)
        | _ ↦ return (ns, some e)
      ]
    ]

  unfoldable pub check_job_status : NodeStatus → M W (NodeStatus × Outcome PullState)
  unfolding get_job
  check_job_status ns = do
    got ← get_job client ns.job_name
    elim got [
      | ok job ↦ return (noted (get_job_status (some job)) job ns, ok (get_job_status (some job)))
      | err e ↦ elim e.reason [
        | Reason.not_found ↦ return (ns, ok PullState.failed)
        | _ ↦ return (ns, err e)
      ]
    ]

  -- The slot is taken: start the job, or put the slot back.
  unfoldable pub start_acquired : PrePullImage → NodeStatus → Tally → M W (NodeStatus × Tally)
  start_acquired ppi ns t = do
    (ns', failure) ← start_pull_job ppi ns
    elim failure [
      | none ↦ do measure increment_active_pulls; return (ns', add_pulling t)
      | some e ↦ do release_slot ns'.node; return (ns', requeue (add_pending t))
    ]

  -- `case NodePullStatusPending`
  unfoldable pub visit_pending : PrePullImage → NodeStatus → Tally → M W (NodeStatus × Tally)
  unfolding start_acquired
  visit_pending ppi ns t = do
    acquired ← acquire_slot ns.node
    if acquired then start_acquired ppi ns t else return (ns, requeue (add_pending t))

  -- The job has succeeded.
  unfoldable pub succeed : PrePullImage → NodeStatus → Tally → M W (NodeStatus × Tally)
  succeed ppi ns t = do
    now ← call client.now
    let done = record ns { status = NodePullStatus.completed; completed_at = some now }
    ns' ← elim ns.started_at [
      | none ↦ return done
      | some since ↦ do
        measure (record_pull_duration ppi.spec.image ns.node "success" since now)
        return (record done { duration = lib.elapsed_string since now })
    ]
    release_slot ns.node
    measure decrement_active_pulls
    measure (increment_pulls_total "success")
    return (ns', add_completed t)

  -- The job has failed, and there are attempts left.
  unfoldable pub retry_pull : NodeStatus → Tally → M W (NodeStatus × Tally)
  unfolding delete_job
  retry_pull ns t = do
    _ ← delete_job client ns.job_name
    release_slot ns.node
    measure decrement_active_pulls
    return (retried ns, requeue (add_pending t))

  -- The job has failed for the last time.
  unfoldable pub give_up : PrePullImage → NodeStatus → Tally → M W (NodeStatus × Tally)
  give_up ppi ns t = do
    now ← call client.now
    release_slot ns.node
    measure decrement_active_pulls
    measure (increment_pulls_total "failed")
    emit (
        ppi_event ppi "Warning" "PullFailed" (
          concat (
            "Failed to pull image on node " ∷ (ns.node ∷ (": " ∷ ((given_up ns now).error ∷ []))))))
    return (given_up ns now, add_failed t)

  -- The inner `switch` on the job's status.
  unfoldable pub judge :
      PrePullImage → NodeStatus → Tally → Outcome PullState → M W (NodeStatus × Tally)
  unfolding succeed retry_pull give_up
  judge ppi ns t (err e) = return (ns, requeue (add_pulling t))
  judge ppi ns t (ok PullState.succeeded) = succeed ppi ns t
  judge ppi ns t (ok PullState.failed) =
      if slt32 ns.retry_count ppi.spec.retry.max_attempts then retry_pull ns t else give_up ppi ns t
  judge ppi ns t (ok _) = return (ns, requeue (add_pulling t))

  -- `case NodePullStatusPulling`
  unfoldable pub visit_pulling : PrePullImage → NodeStatus → Tally → M W (NodeStatus × Tally)
  visit_pulling ppi ns t = do (ns', checked) ← check_job_status ns; judge ppi ns' t checked

  -- One round of the loop: the `switch` on the node's status.
  visit_case : NodePullStatus → PrePullImage → NodeStatus → Tally → M W (NodeStatus × Tally)
  visit_case NodePullStatus.pending ppi ns t = visit_pending ppi ns t
  visit_case NodePullStatus.pulling ppi ns t = visit_pulling ppi ns t
  visit_case NodePullStatus.completed ppi ns t = return (ns, add_completed t)
  visit_case NodePullStatus.failed ppi ns t = return (ns, add_failed t)
  visit_case (NodePullStatus.other _) ppi ns t = return (ns, t)

  unfoldable pub visit : PrePullImage → NodeStatus → Tally → M W (NodeStatus × Tally)
  unfolding visit_case
  visit ppi ns t = visit_case ns.status ppi ns t

  unfoldable pub visit_all : PrePullImage → List NodeStatus → Tally → M W (List NodeStatus × Tally)
  visit_all ppi [] t = return ([], t)
  visit_all ppi (ns ∷ rest) t = do
    (ns', t') ← visit ppi ns t
    (rest', t'') ← visit_all ppi rest t'
    return (ns' ∷ rest', t'')
