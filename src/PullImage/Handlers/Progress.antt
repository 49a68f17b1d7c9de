-- ===== src/PullImage/Handlers/Progress.antt =====
-- prepullimage_controller.go: `handleInProgress` around its loop, and `updatePhaseMetrics`.
use kwarm.Base.{
  ℕ, Bool, ◌&&◌, String, [], ◌∷◌, some, concat, decimal32, slt32, eqb, if◌then◌else◌, Counts,
}
use kwarm.Api.{PrePullImage, PrePullImagePhase, PrePullImageStatus, PullSummary}
use kwarm.Metrics.{set_queue_depth, set_prepullimages_by_phase}
use kwarm.Cluster.{
  ok, err, Client, Library, Reply, finished, requeue_in, failing, M, ◌>>=◌, ◌>>◌, return, call,
  measure, emit,
}
use kwarm.PullImage.Node.{ppi_event, visit_all}
use kwarm.PullImage.Handlers.Status.{
  default_requeue_delay, with_status, summary_of, no_tally, count_phases, no_phases, set_condition,
}

module _ {W : Type 0} (client : Client W) (lib : Library) where
  -- `float64` of the counts; Go visits the map in any order.
  unfoldable pub set_phases : Counts → M W (Unit {0})
  set_phases [] = return tt
  set_phases ((phase, count) ∷ rest) = do
    measure (set_prepullimages_by_phase phase count)
    set_phases rest

  unfoldable pub update_phase_metrics : M W (Unit {0})
  unfolding set_phases
  update_phase_metrics = do
    listed ← call client.list_prepullimages
    elim listed [ ok ppis ↦ set_phases (count_phases ppis no_phases) | err e ↦ return tt ]

  -- "<n>/<total> nodes …"
  abbrev of_total : String → ℕ → PullSummary → String → String
  of_total text n summary more =
      concat (text ∷ (decimal32 n ∷ ("/" ∷ (decimal32 summary.total ∷ (more ∷ [])))))

  -- No node is left, and some failed.
  unfoldable pub close_failed : PrePullImage → PrePullImageStatus → M W PrePullImageStatus
  close_failed ppi st = do
    st' ←
        set_condition client lib ppi (record st { phase = PrePullImagePhase.failed }) "False"
          "Failed" (of_total "Pull failed on " st.summary.failed st.summary " nodes")
    emit (
        ppi_event ppi "Warning" "PullPartiallyFailed" (
          of_total "Image pulled to " st.summary.completed st.summary
            (concat (" nodes, " ∷ (decimal32 st.summary.failed ∷ (" failed" ∷ []))))))
    return st'

  -- No node is left, and none failed.
  unfoldable pub close_completed : PrePullImage → PrePullImageStatus → M W PrePullImageStatus
  close_completed ppi st = do
    let message =
        concat
          ("Image pulled to all " ∷ (decimal32 st.summary.completed ∷ (" nodes successfully" ∷ [])))
    st' ←
        set_condition client lib ppi (record st { phase = PrePullImagePhase.completed }) "True"
          "Completed" message
    emit (ppi_event ppi "Normal" "PullCompleted" message)
    return st'

  unfoldable pub close : PrePullImage → PrePullImageStatus → M W PrePullImageStatus
  unfolding close_failed close_completed
  close ppi st = do
    now ← call client.now
    let st' = record st { completion_time = some now }
    if slt32 0 st.summary.failed then close_failed ppi st' else close_completed ppi st'

  unfoldable pub settle : PrePullImage → PrePullImageStatus → M W PrePullImageStatus
  unfolding close
  settle ppi st =
      if eqb st.summary.pending 0 && eqb st.summary.pulling 0
      then close ppi st
      else set_condition client lib ppi st "False" "InProgress"
          (of_total "" st.summary.completed st.summary " nodes completed")

  -- `handleInProgress` up to the update of the status: the status to store, and `needsRequeue`.
  unfoldable pub advance : PrePullImage → M W (PrePullImageStatus × Bool)
  advance ppi = do
    (nodes, t) ← visit_all client lib ppi ppi.status.node_status no_tally
    measure (set_queue_depth t.pending)
    let st = ppi.status
    st' ← settle ppi (record st { node_status = nodes; summary = summary_of nodes t })
    return (st', t.needs_requeue)

  unfoldable pub handle_in_progress : PrePullImage → M W Reply
  handle_in_progress ppi = do
    (st, needs_requeue) ← advance ppi
    updated ← call (client.update_prepullimage_status (with_status ppi st))
    elim updated [
      | err e ↦ return (failing e)
      | ok _ ↦ do
        update_phase_metrics
        return (if needs_requeue then requeue_in default_requeue_delay else finished)
    ]
