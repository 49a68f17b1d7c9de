-- ===== src/PullImage/Lifecycle.antt =====
-- The life of a PrePullImage outside the loop over its nodes: the start, the end, and errors.
use kwarm.Base.{
  ℕ, ◌+◌, ◌%◌, ◌^◌, ◌≤◌, ◌<◌, ◌≡◌, ◌⊎◌, inl, inr, refl, sym, subst, ap, String, List, [], ◌∷◌, none,
  some, map, length, arith,
}
use kwarm.Api.{PrePullImage, PrePullImagePhase, NodeStatus}
use kwarm.Metrics.{raised, lowered, active_pulls_dec, decrement_active_pulls}
use kwarm.Cluster.{ApiError, ok, err, Sys, Client, Library, failing, finished, requeue_in}
use kwarm.Puller.Status.{cleanup_local}
use kwarm.RateLimiter.{release}
use kwarm.RateLimiter.Slots.{Holds}
use kwarm.PullImage.Census.{held, is_pending, is_pulling, tally}
use kwarm.PullImage.Handlers.{
  with_status, completed_ttl, advance, handle_in_progress, fresh_nodes, initial_status,
  set_condition, empty_status, handle_completed, release_pulling, tear_down,
}
use kwarm.RateLimiter.Views.{Holds-view}
use kwarm.PullImage.Keeps.{tear_down_keeps, handle_in_progress_limiter}
use kwarm.PullImage.Slots.{advance-Holds}

within-cases : (m n : ℕ) → (m ≤ n) ⊎ (n < m)
within-cases m n = omega arith

fresh_nodes_pending : (names : List String) → tally is_pending (fresh_nodes names) ≡ length names
unfolding tally fresh_nodes
fresh_nodes_pending [] = refl
fresh_nodes_pending (name ∷ names) = omega (arith, fresh_nodes_pending names)

pub held-fresh_nodes :
    (names : List String) (others : List String) → held (fresh_nodes names) others ≡ others
unfolding held fresh_nodes
held-fresh_nodes [] others = refl
held-fresh_nodes (name ∷ names) others = held-fresh_nodes names others

-- Nodes of which none pulls hold no slot.
held-idle :
    (nodes : List NodeStatus) (others : List String)
    → tally is_pulling nodes ≡ 0
    → held nodes others ≡ others
unfolding held tally
held-idle [] others h = refl
held-idle (ns ∷ rest) others h = ground (arith, held-idle rest others)

fresh_nodes_names :
    (names : List String) → map (λ (n : NodeStatus). n.node) (fresh_nodes names) ≡ names
unfolding fresh_nodes
fresh_nodes_names [] = refl
fresh_nodes_names (name ∷ names) = ap (◌∷◌ name) (fresh_nodes_names names)

module _ {W : Type 0} (client : Client W) (lib : Library) where
  -- The status that `handlePending` stores is in progress and has the target nodes in their order,
  -- each pending; the summary counts them, as an int32; no node of it holds a slot.
  pub initial_status_lem :
      (ppi : PrePullImage) (names others : List String) (s : Sys W)
      → let st = (initial_status client lib ppi names s).0 in
        (st.phase ≡ PrePullImagePhase.in_progress)
        × (map (λ (n : NodeStatus). n.node) st.node_status ≡ names)
        × (tally is_pending st.node_status ≡ length names)
        × (st.summary.pending ≡ tally is_pending st.node_status % 2 ^ 32)
        × (st.summary.total ≡ st.summary.pending)
        × (held st.node_status others ≡ others)
  unfolding initial_status set_condition
  initial_status_lem ppi names others s = (
    refl,
    fresh_nodes_names names,
    fresh_nodes_pending names,
    ap (λ n. n % 2 ^ 32) (sym (fresh_nodes_pending names)),
    refl,
    held-fresh_nodes names others,
  )

  release_pulling_gauge :
      (nodes : List NodeStatus) (s : Sys W)
      → let r = release_pulling client lib nodes s in
        (raised r.1.metrics ≡ raised s.metrics)
        × (lowered r.1.metrics ≡ lowered s.metrics + tally is_pulling nodes)
  unfolding release_pulling tally raised lowered decrement_active_pulls
  release_pulling_gauge [] s = (refl, omega arith)
  release_pulling_gauge (ns ∷ rest) s = ground (
    arith,
    release_pulling_gauge rest s,
    release_pulling_gauge rest
        (record s { limiter = release s.limiter ns.node; metrics = active_pulls_dec ∷ s.metrics }),
  )

  tear_down_gauge :
      (ppi : PrePullImage) (s : Sys W)
      → let r = tear_down client lib ppi s in
        (raised r.1.metrics ≡ raised s.metrics)
        × (lowered r.1.metrics ≡ lowered s.metrics + tally is_pulling ppi.status.node_status)
  unfolding tear_down
  tear_down_gauge ppi s = ground (
    arith,
    release_pulling_gauge ppi.status.node_status s,
    cleanup_local client ppi.meta.name (release_pulling client lib ppi.status.node_status s).1,
  )

  -- The deletion of a PrePullImage with the finalizer gives back exactly the slots of its pulling
  -- nodes, and lowers the gauge once for each, whether the clean-up of the jobs and the update
  -- succeed or not.
  pub tear_down-Holds :
      (ppi : PrePullImage) (others : List String) (s : Sys W)
      → Holds s.limiter (held ppi.status.node_status others)
      → let r = tear_down client lib ppi s in
        Holds r.1.limiter others
        × (raised r.1.metrics ≡ raised s.metrics)
        × (lowered r.1.metrics ≡ lowered s.metrics + tally is_pulling ppi.status.node_status)
  tear_down-Holds ppi others s h =
      let gauge = tear_down_gauge ppi s in
      (tear_down_keeps client lib Holds-view ppi others s h, gauge.0, gauge.1)

  in_progress_error :
      (ppi : PrePullImage) (s : Sys W) (e : ApiError)
      → let r = advance client lib ppi s in
        (client.update_prepullimage_status (with_status ppi r.0.0) r.1.world).0 ≡ err e
        → (handle_in_progress client lib ppi s).0 ≡ failing e
  unfolding handle_in_progress
  in_progress_error ppi s e refused = ground (arith, refused)

  -- A resource of which no node pulls, and whose new status `handleInProgress` cannot store: it returns
  -- the error. When it is called again for the resource with the statuses as they were, with the
  -- limiter as it was left, the limiter holds, besides the others' slots, a slot for each node that
  -- pulls after the first call and another for each node that pulls after the second.
  pub in_progress_twice :
      (ppi : PrePullImage) (others : List String) (s t : Sys W) (e : ApiError)
      → let first = advance client lib ppi s in
        let second = advance client lib ppi t in
        (client.update_prepullimage_status (with_status ppi first.0.0) first.1.world).0 ≡ err e
        → tally is_pulling ppi.status.node_status ≡ 0
        → Holds s.limiter others
        → t.limiter ≡ (handle_in_progress client lib ppi s).1.limiter
        → ((handle_in_progress client lib ppi s).0 ≡ failing e)
          × Holds
              (handle_in_progress client lib ppi t).1.limiter
              (held second.0.0.node_status (held first.0.0.node_status others))
  in_progress_twice ppi others s t e refused none_pulls h l =
      let nodes = ppi.status.node_status in
      let first = held (advance client lib ppi s).0.0.node_status others in
      let once : Holds (advance client lib ppi s).1.limiter first =
        advance-Holds client lib ppi s others
          (subst (Holds s.limiter) (sym (held-idle nodes others none_pulls)) h) in
      let start : Holds t.limiter (held nodes first) =
        rw (l, handle_in_progress_limiter client lib ppi s, held-idle nodes first none_pulls)
          once in
      (
        in_progress_error ppi s e refused,
        rw (handle_in_progress_limiter client lib ppi t)
            (advance-Holds client lib ppi t first start),
      )

  -- An image that was completed with no node has no completion time, and so it is never deleted: at
  -- every call, at whatever time, the handler changes nothing and asks for a call in an hour.
  pub no_nodes_never_expires :
      (ppi : PrePullImage) (s t : Sys W)
      → ppi.status.completion_time ≡ none
      → let st = (empty_status client lib ppi s).0 in
        (st.phase ≡ PrePullImagePhase.completed)
        × (handle_completed client lib (with_status ppi st) t ≡ (requeue_in completed_ttl, t))
  unfolding empty_status set_condition handle_completed
  no_nodes_never_expires ppi s t h = ground arith

  -- Up to one hour after its completion a finished image is not deleted, and the handler asks to be
  -- called when that hour is over.
  handle_completed_early :
      (ppi : PrePullImage) (completion : ℕ) (s : Sys W)
      → ppi.status.completion_time ≡ some completion
      → (client.now s.world).0 ≤ completion + completed_ttl
      → let r = handle_completed client lib ppi s in
        ((client.now s.world).0 + r.0.requeue_after ≡ completion + completed_ttl)
        × (r.0.error ≡ none)
        × (r.1 ≡ record s { world = (client.now s.world).1 })
  unfolding handle_completed
  handle_completed_early ppi completion s e h = ground arith

  -- At the end of the hour it is not deleted, and the handler asks for no call.
  handle_completed_at_end :
      (ppi : PrePullImage) (completion : ℕ) (s : Sys W)
      → ppi.status.completion_time ≡ some completion
      → (client.now s.world).0 ≡ completion + completed_ttl
      → handle_completed client lib ppi s ≡ (finished, record s { world = (client.now s.world).1 })
  unfolding handle_completed
  handle_completed_at_end ppi completion s e h = ground arith

  -- More than one hour after its completion the handler deletes a finished image, and returns the
  -- error of the deletion if there is one.
  handle_completed_late :
      (ppi : PrePullImage) (completion : ℕ) (s : Sys W)
      → ppi.status.completion_time ≡ some completion
      → completion + completed_ttl < (client.now s.world).0
      → let d = client.delete_prepullimage ppi (client.now s.world).1 in
        handle_completed client lib ppi s
        ≡ ((elim d.0 [ ok _ ↦ finished | err x ↦ failing x ]), record s { world = d.1 })
  unfolding handle_completed
  handle_completed_late ppi completion s e h = ground arith

  -- Less than an hour after its completion a finished image is not deleted, and the handler asks to be
  -- called after some time. A call that comes exactly then does not delete it either, and asks for no
  -- other call; a call that comes later deletes it, and returns the error of the deletion if there is
  -- one.
  pub handle_completed_follow_up :
      (ppi : PrePullImage) (completion delay : ℕ) (s t : Sys W)
      → ppi.status.completion_time ≡ some completion
      → (client.now s.world).0 < completion + completed_ttl
      → (client.now t.world).0
        ≡ (client.now s.world).0 + (handle_completed client lib ppi s).0.requeue_after + delay
      → let early = handle_completed client lib ppi s in
        let late = handle_completed client lib ppi t in
        let now = client.now t.world in
        let d = client.delete_prepullimage ppi now.1 in
        (0 < early.0.requeue_after)
        × (early.0.error ≡ none)
        × (early.1 ≡ record s { world = (client.now s.world).1 })
        × (((delay ≡ 0) × (late ≡ (finished, record t { world = now.1 })))
            ⊎ ((0 < delay)
                × (late ≡ (
                  (elim d.0 [ ok _ ↦ finished | err x ↦ failing x ]),
                  record t { world = d.1 },
                ))))
  handle_completed_follow_up ppi completion delay s t e early called =
      let r = handle_completed_early ppi completion s e (omega (arith, early)) in
      (
        omega (arith, early, r.0),
        r.1,
        r.2,
        elim (within-cases delay 0) [
          | inl none_later ↦ inl (
            omega (arith, none_later),
            handle_completed_at_end ppi completion t e (omega (arith, r.0, called, none_later)),
          )
          | inr later ↦
              inr (
                later,
                handle_completed_late ppi completion t e (omega (arith, r.0, called, later)),
              )
        ],
      )
