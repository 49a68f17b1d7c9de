-- ===== src/Examples/Pulls.antt =====
-- The controller of PrePullImages at concrete inputs.
use kwarm.Base.{
  ℕ, inl, inr, count_p, ◌+◌, ◌%◌, ◌^◌, ◌≡◌, ◌<◌, refl, ◌⊎◌, [], ◌∷◌, none, some, map, length, arith,
  get, pos, String, List, Elem, ◌↔◌, ◌≢◌,
}
use kwarm.Api.{PrePullImage, PrePullImagePhase, NodeStatus, NodePullStatus}
use kwarm.Metrics.{raised, lowered, phase_gauge}
use kwarm.Cluster.{ok, err, Sys, failing, finished, requeue_in}
use kwarm.RateLimiter.Slots.{Holds, count}
use kwarm.Puller.{create_pull_job}
use kwarm.PullImage.Census.{held, is_pending, is_pulling, is_completed, is_failed, tally, phase_for}
use kwarm.RateLimiter.{try_acquire, new_rate_limiter}
use kwarm.PullImage.Node.{visit, visit_all, visit_pending, start_pull_job}
use kwarm.PullImage.Handlers.{
  advance, no_tally, initial_status, empty_status, get_target_nodes, handle_completed,
  handle_in_progress, tear_down, with_status, completed_ttl, update_phase_metrics,
}
use kwarm.PullImage.Summary.{advance_summary, advance_phase}
use kwarm.PullImage.Slots.{advance-Holds, advance_gauge}
use kwarm.PullImage.Steps.{StepAll, QuietAll, advance-StepAll, advance-QuietAll}
use kwarm.PullImage.Passes.{
  passes_from, IsBounded, IsExhausted, passes-IsBounded, passes-IsExhausted,
}
use kwarm.PullImage.Lifecycle.{
  initial_status_lem, tear_down-Holds, in_progress_twice, no_nodes_never_expires,
  handle_completed_follow_up,
}
use kwarm.PullImage.Phases.{is_in_phase, phase_gauge-update_phase_metrics}
use kwarm.PullImage.Targets.{AreListed, get_target_nodes-targets}
use kwarm.Nodes.Ready.{IsTarget}
use kwarm.Nodes.{ready_names, is_node_ready}
use kwarm.Kube.{Node}
use kwarm.PullImage.Reports.{failure_message_lost}
use kwarm.Examples.World.{
  World, client, refusing, conflict, lib, image, finished_image, sys, node_in,
}

sys-Holds : Holds sys.limiter (held image.status.node_status [])
unfolding held get count
sys-Holds = record { total = refl; each = λ k. refl }

advance-Holds_example :
    let r = advance client lib image sys in Holds r.1.limiter (held r.0.0.node_status [])
advance-Holds_example = advance-Holds client lib image sys [] sys-Holds

advance_gauge_example :
    let r = advance client lib image sys in
    raised r.1.metrics + lowered sys.metrics + tally is_pulling image.status.node_status
    ≡ raised sys.metrics + lowered r.1.metrics + tally is_pulling r.0.0.node_status
advance_gauge_example = advance_gauge client lib image sys

advance_summary_example :
    let st = (advance client lib image sys).0.0 in
    (st.summary.total ≡ length st.node_status % 2 ^ 32)
    × (st.summary.pending ≡ tally is_pending st.node_status % 2 ^ 32)
    × (st.summary.pulling ≡ tally is_pulling st.node_status % 2 ^ 32)
    × (st.summary.completed ≡ tally is_completed st.node_status % 2 ^ 32)
    × (st.summary.failed ≡ tally is_failed st.node_status % 2 ^ 32)
    × (length st.node_status ≡ length image.status.node_status)
advance_summary_example = advance_summary client lib image sys

advance_phase_example :
    let st = (advance client lib image sys).0.0 in
    st.phase
    ≡ phase_for image.status.phase
        (tally is_pending st.node_status + tally is_pulling st.node_status)
        (tally is_failed st.node_status)
advance_phase_example = advance_phase client lib image sys (omega arith)

advance-StepAll_example :
    StepAll 1 image.status.node_status (advance client lib image sys).0.0.node_status
advance-StepAll_example = advance-StepAll client lib image sys

-- One node that is started in this pass.
abbrev starting : PrePullImage
starting =
    let st = image.status in
    record image {
      status = record st { node_status = node_in NodePullStatus.pending "node-1" 0 ∷ [] };
    }

advance-QuietAll_example :
    QuietAll starting.status.node_status (advance client lib starting sys).0.0.node_status
unfolding advance visit_all visit visit_pending start_pull_job create_pull_job try_acquire get
advance-QuietAll_example = advance-QuietAll client lib starting sys refl

abbrev late : Sys World
late = record sys { world = record { clock = 7200000000000; jobs = []; stored = none } }

-- Three passes over two nodes, with one retry; the last two at a later time.
passes-IsBounded_example :
    let r =
      passes_from client lib image ("node-1" ∷ ("node-2" ∷ [])) sys (sys ∷ (late ∷ (late ∷ []))) in
    IsBounded 1 ("node-1" ∷ ("node-2" ∷ [])) r.0 r.1
passes-IsBounded_example =
    passes-IsBounded client lib image ("node-1" ∷ ("node-2" ∷ [])) sys (sys ∷ (late ∷ (late ∷ [])))
      (omega arith)

passes-IsExhausted_example :
    let r =
      passes_from client lib image ("node-1" ∷ ("node-2" ∷ [])) sys (sys ∷ (late ∷ (late ∷ []))) in
    IsExhausted 1 r.0 r.1
passes-IsExhausted_example =
    passes-IsExhausted client lib image ("node-1" ∷ ("node-2" ∷ [])) sys
      (sys ∷ (late ∷ (late ∷ []))) (omega arith)

initial_status_lem_example :
    let st = (initial_status client lib image ("node-1" ∷ ("node-2" ∷ [])) sys).0 in
    (st.phase ≡ PrePullImagePhase.in_progress)
    × (map (λ (n : NodeStatus). n.node) st.node_status ≡ "node-1" ∷ ("node-2" ∷ []))
    × (tally is_pending st.node_status ≡ 2)
    × (st.summary.pending ≡ tally is_pending st.node_status % 2 ^ 32)
    × (st.summary.total ≡ st.summary.pending)
    × (held st.node_status [] ≡ [])
initial_status_lem_example = initial_status_lem client lib image ("node-1" ∷ ("node-2" ∷ [])) [] sys

tear_down-Holds_example :
    let r = tear_down client lib image sys in
    Holds r.1.limiter []
    × (raised r.1.metrics ≡ raised sys.metrics)
    × (lowered r.1.metrics ≡ lowered sys.metrics + tally is_pulling image.status.node_status)
tear_down-Holds_example = tear_down-Holds client lib image [] sys sys-Holds

-- An image for one node, which waits, and a limiter with room for two pulls on it.
abbrev waiting_image : PrePullImage
waiting_image =
    let st = image.status in
    record image {
      status = record st { node_status = node_in NodePullStatus.pending "node-1" 0 ∷ [] };
    }

abbrev empty_sys : Sys World
empty_sys = record sys { limiter = new_rate_limiter (pos 10) (pos 2) }

empty_sys-Holds : Holds empty_sys.limiter []
unfolding new_rate_limiter get count
empty_sys-Holds = record { total = refl; each = λ k. refl }

abbrev refused_once : Sys World
refused_once = (handle_in_progress refusing lib waiting_image empty_sys).1

in_progress_twice_example :
    let first = advance refusing lib waiting_image empty_sys in
    let second = advance refusing lib waiting_image refused_once in
    ((handle_in_progress refusing lib waiting_image empty_sys).0 ≡ failing conflict)
    × Holds
        (handle_in_progress refusing lib waiting_image refused_once).1.limiter
        (held second.0.0.node_status (held first.0.0.node_status []))
unfolding tally
in_progress_twice_example =
    in_progress_twice refusing lib waiting_image [] empty_sys refused_once conflict refl refl
      empty_sys-Holds refl

no_nodes_never_expires_example :
    let st = (empty_status client lib image sys).0 in
    (st.phase ≡ PrePullImagePhase.completed)
    × (handle_completed client lib (with_status image st) sys ≡ (requeue_in completed_ttl, sys))
no_nodes_never_expires_example = no_nodes_never_expires client lib image sys sys refl

-- A call an hour less one nanosecond after the completion, and one that comes just after the end of
-- the hour.
abbrev before_end : Sys World
before_end = record sys { world = record { clock = 39 + completed_ttl; jobs = []; stored = none } }

abbrev after_end : Sys World
after_end = record sys { world = record { clock = 41 + completed_ttl; jobs = []; stored = none } }

handle_completed_follow_up_example :
    let early = handle_completed client lib finished_image before_end in
    let late = handle_completed client lib finished_image after_end in
    let now = client.now after_end.world in
    let d = client.delete_prepullimage finished_image now.1 in
    let delay : ℕ = 1 in
    (0 < early.0.requeue_after)
    × (early.0.error ≡ none)
    × (early.1 ≡ record before_end { world = (client.now before_end.world).1 })
    × (((delay ≡ 0) × (late ≡ (finished, record after_end { world = now.1 })))
        ⊎ ((0 < delay)
            × (late ≡ (
              (elim d.0 [ ok _ ↦ finished | err x ↦ failing x ]),
              record after_end { world = d.1 },
            ))))
unfolding handle_completed
handle_completed_follow_up_example =
    handle_completed_follow_up client lib finished_image 40 1 before_end after_end refl
      (omega arith) refl

failure_message_lost_example :
    let ns = node_in NodePullStatus.pulling "node-2" 0 in
    let t = no_tally in
    let m = (visit client lib image ns t sys).0.0 in
    ((m.status ≡ NodePullStatus.pulling) × (m.error ≡ ns.error))
    ⊎ ((m.status ≡ NodePullStatus.completed) × (m.error ≡ ns.error))
    ⊎ ((m.status ≡ NodePullStatus.pending) × (m.error ≡ ""))
    ⊎ ((m.status ≡ NodePullStatus.failed) × (m.error ≡ "max retries exceeded"))
failure_message_lost_example =
    failure_message_lost client lib image (node_in NodePullStatus.pulling "node-2" 0) no_tally sys
      refl

abbrev stored_sys : Sys World
stored_sys = record sys { world = record { clock = 100; jobs = []; stored = some image } }

phase_gauge-update_phase_metrics_example :
    phase_gauge "InProgress" (update_phase_metrics client lib stored_sys).1.metrics
    ≡ some (count_p (is_in_phase "InProgress") (image ∷ []))
phase_gauge-update_phase_metrics_example =
    phase_gauge-update_phase_metrics client lib "InProgress" (image ∷ []) stored_sys refl
      (inr (inl refl))

-- An image for every node.
abbrev image_for_all : PrePullImage
image_for_all =
    let spec = image.spec in
    record image { spec = record spec { nodes = record { selector = none; names = [] } } }

get_target_nodes-targets_example :
    ((image_for_all.spec.nodes.names ≢ [])
      × ("node-1" ∷ ("node-2" ∷ []) ≡ image_for_all.spec.nodes.names))
    ⊎ ((image_for_all.spec.nodes.names ≡ [])
        × (nodes : List Node) × AreListed client lib image_for_all sys.world nodes
        × ((name : String) → Elem name ("node-1" ∷ ("node-2" ∷ [])) ↔ IsTarget name nodes))
unfolding get_target_nodes ready_names is_node_ready
get_target_nodes-targets_example =
    get_target_nodes-targets client lib image_for_all sys ("node-1" ∷ ("node-2" ∷ [])) refl
