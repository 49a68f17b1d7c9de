-- ===== src/PullImage/Handlers/Reconcile.antt =====
-- prepullimage_controller.go: `handleCompleted`, `handleFailed` and `Reconcile`.
use kwarm.Base.{ℕ, ◌+◌, ◌-◌, String, none, some, ltb, if◌then◌else◌}
use kwarm.Api.{PrePullImage, PrePullImagePhase}
use kwarm.Metrics.{record_reconcile}
use kwarm.Cluster.{
  Reason, ok, err, Client, Library, Reply, finished, requeue_now, requeue_in, failing, M, ◌>>=◌,
  ◌>>◌, return, call, measure,
}
use kwarm.PullImage.Handlers.Status.{finalizer_name, completed_ttl}
use kwarm.PullImage.Handlers.Pending.{handle_deletion, handle_pending}
use kwarm.PullImage.Handlers.Progress.{handle_in_progress}

module _ {W : Type 0} (client : Client W) (lib : Library) where
  delete_expired : PrePullImage → M W Reply
  delete_expired ppi = do
    deleted ← call (client.delete_prepullimage ppi)
    elim deleted [ ok _ ↦ return finished | err e ↦ return (failing e) ]

  -- `time.Since(completion) > CompletedTTL`, without a difference that could be negative.
  unfoldable pub expire : PrePullImage → ℕ → M W Reply
  unfolding delete_expired
  expire ppi completion = do
    now ← call client.now
    let left = requeue_in (completion + completed_ttl - now)
    if ltb (completion + completed_ttl) now then delete_expired ppi else return left

  unfoldable pub handle_completed : PrePullImage → M W Reply
  unfolding expire
  handle_completed ppi = elim ppi.status.completion_time [
    | none ↦ return (requeue_in completed_ttl)
    | some completion ↦ expire ppi completion
  ]

  unfoldable pub handle_failed : PrePullImage → M W Reply
  unfolding handle_completed
  handle_failed ppi = handle_completed ppi

  -- The `switch` on the phase.
  unfoldable pub handle_phase : PrePullImagePhase → PrePullImage → M W Reply
  unfolding handle_failed
  handle_phase PrePullImagePhase.unset ppi = handle_pending client lib ppi
  handle_phase PrePullImagePhase.pending ppi = handle_pending client lib ppi
  handle_phase PrePullImagePhase.in_progress ppi = handle_in_progress client lib ppi
  handle_phase PrePullImagePhase.completed ppi = handle_completed ppi
  handle_phase PrePullImagePhase.failed ppi = handle_failed ppi
  handle_phase (PrePullImagePhase.other _) ppi = return finished

  unfoldable pub add_finalizer : PrePullImage → M W Reply
  add_finalizer ppi = do
    let meta = ppi.meta
    let finalizers = lib.add_finalizer meta.finalizers finalizer_name
    updated ←
        call (
          client.update_prepullimage
            (record ppi { meta = record meta { finalizers = finalizers } }))
    elim updated [ ok _ ↦ return requeue_now | err e ↦ return (failing e) ]

  -- `Reconcile` once the resource has been read.
  unfoldable pub reconcile_found : PrePullImage → M W Reply
  unfolding add_finalizer
  reconcile_found ppi = elim ppi.meta.deletion_timestamp [
    | some _ ↦ handle_deletion client lib ppi
    | none ↦
        if lib.contains_finalizer ppi.meta.finalizers finalizer_name
        then handle_phase ppi.status.phase ppi
        else add_finalizer ppi
  ]

  unfoldable pub reconcile : String → String → M W Reply
  reconcile namespace name = do
    start ← call client.now
    got ← call (client.get_prepullimage namespace name)
    reply ← elim got [
      | ok ppi ↦ reconcile_found ppi
      | err e ↦ elim e.reason [ Reason.not_found ↦ return finished | _ ↦ return (failing e) ]
    ]
    end ← call client.now
    measure (record_reconcile "prepullimage" "success" start end)
    return reply
