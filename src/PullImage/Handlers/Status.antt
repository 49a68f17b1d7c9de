-- ===== src/PullImage/Handlers/Status.antt =====
-- prepullimage_controller.go: the constants, the parts of a status, the counts of the phases, and
-- `setCondition`.
use kwarm.Base.{
  ℕ, ◌+◌, ◌*◌, ◌^◌, false, String, List, [], ◌∷◌, none, length, to_int32, Counts, get, put,
}
use kwarm.Kube.{Condition}
use kwarm.Api.{
  PrePullImage, PrePullImagePhase, PrePullImageStatus, NodeStatus, NodePullStatus, PullSummary,
}
use kwarm.Cluster.{Client, Library, M, ◌>>=◌, return, call}
use kwarm.PullImage.Node.{Tally}

abbrev pub finalizer_name : String
finalizer_name = "kwarm.io/finalizer"

-- nanoseconds
abbrev pub default_requeue_delay : ℕ
default_requeue_delay = 5 * 10 ^ 9

abbrev pub completed_ttl : ℕ
completed_ttl = 3600 * 10 ^ 9

abbrev pub with_status : PrePullImage → PrePullImageStatus → PrePullImage
with_status ppi st = record ppi { status = st }

-- An entry of the status that `handlePending` makes.
abbrev pub fresh_node : String → NodeStatus
fresh_node name = record {
  node = name;
  status = NodePullStatus.pending;
  started_at = none;
  completed_at = none;
  duration = "";
  error = "";
  retry_count = 0;
  job_name = "";
}

unfoldable pub fresh_nodes : List String → List NodeStatus
fresh_nodes [] = []
fresh_nodes (name ∷ names) = fresh_node name ∷ fresh_nodes names

abbrev pub summary_of : List NodeStatus → Tally → PullSummary
summary_of nodes t = record {
  total = to_int32 (length nodes);
  pending = t.pending;
  pulling = t.pulling;
  completed = t.completed;
  failed = t.failed;
}

abbrev pub no_tally : Tally
no_tally = record { pending = 0; pulling = 0; completed = 0; failed = 0; needs_requeue = false }

-- `string(phase)`, where an empty phase counts as pending.
unfoldable pub phase_name : PrePullImagePhase → String
phase_name PrePullImagePhase.unset = "Pending"
phase_name PrePullImagePhase.pending = "Pending"
phase_name PrePullImagePhase.in_progress = "InProgress"
phase_name PrePullImagePhase.completed = "Completed"
phase_name PrePullImagePhase.failed = "Failed"
phase_name (PrePullImagePhase.other text) = text

unfoldable pub count_phases : List PrePullImage → Counts → Counts
count_phases [] m = m
count_phases (ppi ∷ ppis) m =
    count_phases ppis
      (put (phase_name ppi.status.phase) (get (phase_name ppi.status.phase) m + 1) m)

abbrev pub no_phases : Counts
no_phases = ("Pending", 0) ∷ (("InProgress", 0) ∷ (("Completed", 0) ∷ (("Failed", 0) ∷ [])))

module _ {W : Type 0} (client : Client W) (lib : Library) where
  -- `setCondition`, on the status that is being built.
  unfoldable pub set_condition :
      PrePullImage → PrePullImageStatus → String → String → String → M W PrePullImageStatus
  set_condition ppi st status reason message = do
    now ← call client.now
    let condition : Condition = record {
      kind = "Ready";
      status = status;
      observed_generation = ppi.meta.generation;
      last_transition_time = now;
      reason = reason;
      message = message;
    }
    return (record st { conditions = lib.set_status_condition st.conditions condition })
