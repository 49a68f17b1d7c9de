-- ===== src/Examples/Fleets.antt =====
-- Resources that share the limiter, at a concrete run.
use kwarm.Base.{◌+◌, ◌*◌, ◌≤◌, refl, String, [], ◌∷◌, length, pos, negsuc, get}
use kwarm.Api.{PrePullImage}
use kwarm.Cluster.{Sys}
use kwarm.RateLimiter.{new_rate_limiter, try_acquire}
use kwarm.RateLimiter.Slots.{count}
use kwarm.Puller.{create_pull_job}
use kwarm.PullImage.Node.{visit, visit_all, visit_pending, start_pull_job}
use kwarm.PullImage.Handlers
use kwarm.PullImage.Handlers.{
  with_status, begin, initial_status, handle_in_progress, advance, update_phase_metrics,
}
use kwarm.PullImage.Fleet.{FleetRun, done, next, begun, worked, slots_of, FleetRun-limits}
use kwarm.PullImage.Restarts.{Epochs, first, again, Epochs-limits}
use kwarm.Examples.World.{World, client, lib, image, sys}

-- One slot in all, and two on each node.
abbrev fresh_sys : Sys World
fresh_sys = record sys { limiter = new_rate_limiter (pos 1) (negsuc 0) }

-- The resource after `handlePending`, and the system then.
abbrev begun_image : PrePullImage
begun_image =
    with_status image (initial_status client lib image ("node-1" ∷ ("node-2" ∷ [])) fresh_sys).0

abbrev begun_sys : Sys World
begun_sys = (begin client lib image ("node-1" ∷ ("node-2" ∷ [])) fresh_sys).1

one_begun : FleetRun client lib [] fresh_sys (begun_image ∷ []) begun_sys
unfolding begin
one_begun = next done (begun image ("node-1" ∷ ("node-2" ∷ [])) [] fresh_sys refl)

begun_then_worked :
    FleetRun client lib [] fresh_sys
      (with_status begun_image (advance client lib begun_image begun_sys).0.0 ∷ [])
      (handle_in_progress client lib begun_image begun_sys).1
unfolding handle_in_progress advance visit_all visit visit_pending start_pull_job create_pull_job
    try_acquire get begin initial_status Handlers.set_condition Handlers.fresh_nodes
    new_rate_limiter
begun_then_worked = next one_begun (worked begun_image [] begun_sys refl)

FleetRun-limits_example :
    let ps = with_status begun_image (advance client lib begun_image begun_sys).0.0 ∷ [] in
    (length (slots_of ps []) ≤ (new_rate_limiter (pos 1) (negsuc 0)).max_concurrent_pulls)
    × ((node : String)
        → count node (slots_of ps []) ≤ (new_rate_limiter (pos 1) (negsuc 0)).max_pulls_per_node)
FleetRun-limits_example = FleetRun-limits client lib (pos 1) (negsuc 0) refl begun_then_worked

-- The operator starts again while a node is pulling.
abbrev restarted_sys : Sys World
restarted_sys = record (handle_in_progress client lib begun_image begun_sys).1 {
  limiter = new_rate_limiter (pos 1) (negsuc 0);
}

begun_then_restarted :
    Epochs client lib
      (pos 1)
      (negsuc 0)
      1
      (with_status begun_image (advance client lib begun_image begun_sys).0.0 ∷ [])
      restarted_sys
begun_then_restarted = again (first refl begun_then_worked) refl done

Epochs-limits_example :
    let ps = with_status begun_image (advance client lib begun_image begun_sys).0.0 ∷ [] in
    (length (slots_of ps []) ≤ (1 + 1) * (new_rate_limiter (pos 1) (negsuc 0)).max_concurrent_pulls)
    × ((node : String)
        → count node (slots_of ps [])
          ≤ (1 + 1) * (new_rate_limiter (pos 1) (negsuc 0)).max_pulls_per_node)
Epochs-limits_example = Epochs-limits client lib (pos 1) (negsuc 0) begun_then_restarted
