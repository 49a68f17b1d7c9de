-- ===== src/PullImage/Handlers/Pending.antt =====
-- prepullimage_controller.go: `handleDeletion`, `handlePending` and `getTargetNodes`.
use kwarm.Base.{String, List, [], ◌∷◌, none, some, length, concat, decimal, to_int32, if◌then◌else◌}
use kwarm.Api.{
  PrePullImage, PrePullImagePhase, PrePullImageStatus, NodeStatus, NodePullStatus, PullSummary,
}
use kwarm.Metrics.{decrement_active_pulls}
use kwarm.Cluster.{
  Outcome, ok, err, NodeFilter, all_nodes, matching_selector, Client, Library, Reply, finished,
  requeue_now, failing, M, ◌>>=◌, ◌>>◌, return, call, measure, emit, release_slot,
}
use kwarm.Nodes.{ready_names}
use kwarm.Puller.{cleanup_jobs_for_prepullimage}
use kwarm.PullImage.Node.{ppi_event}
use kwarm.PullImage.Handlers.Status.{finalizer_name, with_status, fresh_nodes, set_condition}

module _ {W : Type 0} (client : Client W) (lib : Library) where
  unfoldable pub list_ready : NodeFilter → M W (Outcome (List String))
  list_ready filter = do
    listed ← call (client.list_nodes filter)
    elim listed [ ok nodes ↦ return (ok (ready_names nodes)) | err e ↦ return (err e) ]

  unfoldable pub select_nodes : PrePullImage → M W (Outcome (List String))
  unfolding list_ready
  select_nodes ppi = elim ppi.spec.nodes.selector [
    | none ↦ list_ready all_nodes
    | some selector ↦ elim (lib.selector_error selector) [
      | some e ↦ return (err e)
      | none ↦ list_ready (matching_selector selector)
    ]
  ]

  unfoldable pub get_target_nodes : PrePullImage → M W (Outcome (List String))
  unfolding select_nodes
  get_target_nodes ppi = elim ppi.spec.nodes.names [
    | [] ↦ select_nodes ppi
    | name ∷ names ↦ return (ok (name ∷ names))
  ]

  -- The loop of `handleDeletion`.
  unfoldable pub release_pulling : List NodeStatus → M W (Unit {0})
  release_pulling [] = return tt
  release_pulling (ns ∷ rest) = elim ns.status [
    | NodePullStatus.pulling ↦ do
      release_slot ns.node
      measure decrement_active_pulls
      release_pulling rest
    | _ ↦ release_pulling rest
  ]

  -- The body of `handleDeletion`, where the finalizer is there.
  unfoldable pub tear_down : PrePullImage → M W Reply
  tear_down ppi = do
    _ ← release_pulling ppi.status.node_status
    _ ← cleanup_jobs_for_prepullimage client ppi.meta.name
    let meta = ppi.meta
    let finalizers = lib.remove_finalizer meta.finalizers finalizer_name
    updated ←
        call (
          client.update_prepullimage
            (record ppi { meta = record meta { finalizers = finalizers } }))
    elim updated [ ok _ ↦ return finished | err e ↦ return (failing e) ]

  unfoldable pub handle_deletion : PrePullImage → M W Reply
  unfolding tear_down
  handle_deletion ppi =
      if lib.contains_finalizer ppi.meta.finalizers finalizer_name
      then tear_down ppi
      else return finished

  -- `handlePending` with no target node: the status to store.
  unfoldable pub empty_status : PrePullImage → M W PrePullImageStatus
  empty_status ppi = do
    let st = ppi.status
    set_condition client lib ppi (record st { phase = PrePullImagePhase.completed }) "True"
        "NoNodes" "No target nodes found"

  unfoldable pub complete_without_nodes : PrePullImage → M W Reply
  complete_without_nodes ppi = do
    st ← empty_status ppi
    updated ← call (client.update_prepullimage_status (with_status ppi st))
    elim updated [ ok _ ↦ return finished | err e ↦ return (failing e) ]

  -- `handlePending` with target nodes: the status to store.
  unfoldable pub initial_status : PrePullImage → List String → M W PrePullImageStatus
  initial_status ppi names = do
    now ← call client.now
    let st = ppi.status
    let summary : PullSummary = record {
      total = to_int32 (length names);
      pending = to_int32 (length names);
      pulling = 0;
      completed = 0;
      failed = 0;
    }
    set_condition client lib ppi
        (record st {
          node_status = fresh_nodes names;
          summary = summary;
          phase = PrePullImagePhase.in_progress;
          start_time = some now;
        })
        "False" "InProgress" "Pull operation in progress"

  unfoldable pub begin : PrePullImage → List String → M W Reply
  begin ppi names = do
    st ← initial_status ppi names
    updated ← call (client.update_prepullimage_status (with_status ppi st))
    elim updated [
      | ok _ ↦ do
        emit (
            ppi_event ppi "Normal" "PullStarted"
              (concat ("Started pulling image to " ∷ (decimal (length names) ∷ (" nodes" ∷ [])))))
        return requeue_now
      | err e ↦ return (failing e)
    ]

  unfoldable pub handle_pending : PrePullImage → M W Reply
  unfolding complete_without_nodes begin
  handle_pending ppi = do
    targets ← get_target_nodes ppi
    elim targets [
      | err e ↦ return (failing e)
      | ok [] ↦ complete_without_nodes ppi
      | ok (name ∷ names) ↦ begin ppi (name ∷ names)
    ]
