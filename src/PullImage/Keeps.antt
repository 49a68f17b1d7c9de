-- ===== src/PullImage/Keeps.antt =====
-- The handlers of prepullimage_controller.go change the limiter by its own calls only, and hold a slot
-- for each node that is pulling: a view of the limiter that its calls keep is kept by them.
use kwarm.Base.{◌+◌, ◌≡◌, refl, sym, length, String, List, [], ◌∷◌, Counts, inl, inr, arith}
use kwarm.Metrics.{decrement_active_pulls}
use kwarm.Api.{PrePullImage, PrePullImageStatus, NodeStatus, NodePullStatus}
use kwarm.Cluster.{Sys, Client, Library, Outcome-cases}
use kwarm.RateLimiter.{RateLimiter, try_acquire, release}
use kwarm.RateLimiter.Slots.{count}
use kwarm.RateLimiter.Views.{SlotView}
use kwarm.Puller.Status.{cleanup_local}
use kwarm.PullImage.Census.{hold, held, is_pulling, tally}
use kwarm.PullImage.Handlers.{
  with_status, advance, settle, set_condition, no_tally, begin, initial_status, release_pulling,
  tear_down, set_phases, update_phase_metrics, handle_in_progress, count_phases, no_phases,
}
use kwarm.PullImage.Summary.{advance_nodes}
use kwarm.PullImage.Node.{
  Tally, visit, visit_all, visit_pending, visit_pulling, start_pull_job, check_job_status, judge,
}

-- The slots of pulling nodes, by their number.
pub length-held :
    (nodes : List NodeStatus) (others : List String)
    → length (held nodes others) ≡ tally is_pulling nodes + length others
unfolding held tally
length-held [] others = omega arith
length-held (ns ∷ rest) others = ground (arith, length-held rest others)

pub count-held :
    (k : String) (nodes : List NodeStatus) (others : List String)
    → count k (held nodes others) ≡ count k (held nodes []) + count k others
unfolding held count
count-held k [] others = omega arith
count-held k (ns ∷ rest) others = ground (arith, count-held k rest others)

length-held-hold :
    (rest : List NodeStatus) (st : NodePullStatus) (node : String) (others : List String)
    → length (held rest (hold st node others)) ≡ length (hold st node (held rest others))
length-held-hold rest st node others =
    ground (arith, length-held rest others, length-held rest (hold st node others))

count-held-hold :
    (k : String) (rest : List NodeStatus) (st : NodePullStatus) (node : String)
    (others : List String)
    → count k (held rest (hold st node others)) ≡ count k (hold st node (held rest others))
unfolding count
count-held-hold k rest st node others =
    ground (arith, count-held k rest others, count-held k rest (hold st node others))

module _ {W : Type 0} (client : Client W) (lib : Library) where
  pub settle_limiter :
      (ppi : PrePullImage) (st : PrePullImageStatus) (s : Sys W)
      → ((settle client lib ppi st s).1.limiter ≡ s.limiter)
        × ((settle client lib ppi st s).1.metrics ≡ s.metrics)
  unfolding settle set_condition
  settle_limiter ppi st s = ground arith

  pub begin_limiter :
      (ppi : PrePullImage) (names : List String) (s : Sys W)
      → (begin client lib ppi names s).1.limiter ≡ s.limiter
  unfolding begin initial_status set_condition
  begin_limiter ppi names s = ground arith

  set_phases_limiter : (m : Counts) (s : Sys W) → (set_phases client lib m s).1.limiter ≡ s.limiter
  unfolding set_phases
  set_phases_limiter [] s = refl
  set_phases_limiter ((k, n) ∷ m) s = set_phases_limiter m _

  update_phase_metrics_limiter :
      (s : Sys W) → (update_phase_metrics client lib s).1.limiter ≡ s.limiter
  unfolding update_phase_metrics
  update_phase_metrics_limiter s = elim (Outcome-cases (client.list_prepullimages s.world).0) [
    | inl (ppis, e) ↦ ground (
      arith,
      set_phases_limiter (count_phases ppis no_phases)
          (record s { world = (client.list_prepullimages s.world).1 }),
    )
    | inr (x, e) ↦ ground arith
  ]

  pub handle_in_progress_limiter :
      (ppi : PrePullImage) (s : Sys W)
      → (handle_in_progress client lib ppi s).1.limiter ≡ (advance client lib ppi s).1.limiter
  unfolding handle_in_progress
  handle_in_progress_limiter ppi s =
      let r = advance client lib ppi s in
      let w = (client.update_prepullimage_status (with_status ppi r.0.0) r.1.world).1 in
      ground (arith, update_phase_metrics_limiter (record r.1 { world = w }))

  module _ {P : RateLimiter → List String → Type 0} (view : SlotView P) where
    visit_keeps :
        (ppi : PrePullImage) (ns : NodeStatus) (t : Tally) (s : Sys W) (slots : List String)
        (st : NodePullStatus)
        → ns.status ≡ st
        → P s.limiter (hold ns.status ns.node slots)
        → let r = visit client lib ppi ns t s in P r.1.limiter (hold r.0.0.status r.0.0.node slots)
    unfolding visit visit_pending visit_pulling start_pull_job check_job_status judge
    visit_keeps ppi ns t s slots NodePullStatus.pending e h = ground (
      arith,
      view.granted s.limiter ns.node slots,
      view.refused s.limiter ns.node slots,
      view.released (try_acquire s.limiter ns.node).0 ns.node slots,
    )
    visit_keeps ppi ns t s slots NodePullStatus.pulling e h =
        ground (arith, view.released s.limiter ns.node slots)
    visit_keeps ppi ns t s slots _ e h = ground arith

    visit_all_keeps :
        (ppi : PrePullImage) (nodes : List NodeStatus) (t : Tally) (s : Sys W)
        (others : List String)
        → P s.limiter (held nodes others)
        → let r = visit_all client lib ppi nodes t s in P r.1.limiter (held r.0.0 others)
    unfolding visit_all held
    visit_all_keeps ppi [] t s others h = h
    visit_all_keeps ppi (ns ∷ rest) t s others h =
        let r = visit client lib ppi ns t s in
        let q = visit_all client lib ppi rest r.0.1 r.1 in
        view.same q.1.limiter _ _ (length-held-hold q.0.0 r.0.0.status r.0.0.node others)
          (λ k. count-held-hold k q.0.0 r.0.0.status r.0.0.node others)
          (visit_all_keeps ppi rest r.0.1 r.1 (hold r.0.0.status r.0.0.node others) (
            view.same r.1.limiter _ _ (sym (length-held-hold rest r.0.0.status r.0.0.node others))
              (λ k. sym (count-held-hold k rest r.0.0.status r.0.0.node others))
              (visit_keeps ppi ns t s (held rest others) ns.status refl h)))

    pub advance_keeps :
        (ppi : PrePullImage) (s : Sys W) (others : List String)
        → P s.limiter (held ppi.status.node_status others)
        → let r = advance client lib ppi s in P r.1.limiter (held r.0.0.node_status others)
    unfolding advance
    advance_keeps ppi s others h =
        rw ((settle_limiter ppi _ _).0, advance_nodes client lib ppi s)
          (visit_all_keeps ppi ppi.status.node_status no_tally s others h)

    release_pulling_keeps :
        (nodes : List NodeStatus) (others : List String) (s : Sys W)
        → P s.limiter (held nodes others)
        → P (release_pulling client lib nodes s).1.limiter others
    unfolding release_pulling held
    release_pulling_keeps [] others s h = h
    release_pulling_keeps (ns ∷ rest) others s h = ground (
      arith,
      view.released s.limiter ns.node (held rest others),
      release_pulling_keeps rest others s,
      release_pulling_keeps rest others (record s {
        limiter = release s.limiter ns.node;
        metrics = decrement_active_pulls s.metrics;
      }),
    )

    pub tear_down_keeps :
        (ppi : PrePullImage) (others : List String) (s : Sys W)
        → P s.limiter (held ppi.status.node_status others)
        → P (tear_down client lib ppi s).1.limiter others
    unfolding tear_down
    tear_down_keeps ppi others s h = ground (
      arith,
      release_pulling_keeps ppi.status.node_status others s h,
      cleanup_local client ppi.meta.name (release_pulling client lib ppi.status.node_status s).1,
    )
