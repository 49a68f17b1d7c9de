-- ===== src/PullImage/Fleet.antt =====
-- Several PrePullImages that share the rate limiter: the reconciles of prepullimage_controller.go one
-- after the other, as the controller's single worker makes them, each with its updates accepted.
use kwarm.Base.{◌+◌, ◌≤◌, ◌≡◌, refl, sym, length, String, List, [], ◌∷◌, none, ℤ, arith}
use kwarm.Api.{PrePullImage, NodeStatus}
use kwarm.Cluster.{Sys, Client, Library}
use kwarm.RateLimiter.{RateLimiter, new_rate_limiter}
use kwarm.RateLimiter.Bounds.{new-IsValid}
use kwarm.RateLimiter.Slots.{new-Holds, count}
use kwarm.RateLimiter.Views.{SlotView, Within, Holds-view, Within-view}
use kwarm.PullImage.Keeps.{
  length-held, count-held, begin_limiter, handle_in_progress_limiter, advance_keeps,
  tear_down_keeps,
}
use kwarm.PullImage.Census.{held}
use kwarm.PullImage.Handlers.{
  with_status, advance, handle_in_progress, begin, initial_status, tear_down,
}
use kwarm.PullImage.Lifecycle.{initial_status_lem}

-- The slots of all pulling nodes of the stored resources.
unfoldable pub slots_of : List PrePullImage → List String → List String
slots_of [] others = others
slots_of (ppi ∷ ppis) others = held ppi.status.node_status (slots_of ppis others)

length-slots_of :
    (ppis : List PrePullImage) (others : List String)
    → length (slots_of ppis others) ≡ length (slots_of ppis []) + length others
unfolding slots_of
length-slots_of [] others = omega arith
length-slots_of (ppi ∷ ppis) others = omega (
  arith,
  length-held ppi.status.node_status (slots_of ppis others),
  length-held ppi.status.node_status (slots_of ppis []),
  length-slots_of ppis others,
)

count-slots_of :
    (k : String) (ppis : List PrePullImage) (others : List String)
    → count k (slots_of ppis others) ≡ count k (slots_of ppis []) + count k others
unfolding slots_of count
count-slots_of k [] others = omega arith
count-slots_of k (ppi ∷ ppis) others = omega (
  arith,
  count-held k ppi.status.node_status (slots_of ppis others),
  count-held k ppi.status.node_status (slots_of ppis []),
  count-slots_of k ppis others,
)

-- A slot of one resource may be listed before or after those of the others.
pub length-swap :
    (nodes : List NodeStatus) (ppis : List PrePullImage) (others : List String)
    → length (held nodes (slots_of ppis others)) ≡ length (slots_of ppis (held nodes others))
length-swap nodes ppis others = omega (
  arith,
  length-held nodes (slots_of ppis others),
  length-held nodes others,
  length-slots_of ppis others,
  length-slots_of ppis (held nodes others),
)

pub count-swap :
    (nodes : List NodeStatus) (ppis : List PrePullImage) (others : List String) (k : String)
    → count k (held nodes (slots_of ppis others)) ≡ count k (slots_of ppis (held nodes others))
count-swap nodes ppis others k = omega (
  arith,
  count-held k nodes (slots_of ppis others),
  count-held k nodes others,
  count-slots_of k ppis others,
  count-slots_of k ppis (held nodes others),
)

pub new-Within :
    (a b : ℤ) (r : RateLimiter)
    → r ≡ new_rate_limiter a b
    → Within (new_rate_limiter a b).max_concurrent_pulls (new_rate_limiter a b).max_pulls_per_node r
new-Within a b r e =
    rw e (record { valid = new-IsValid a b; concurrent_kept = refl; per_node_kept = refl })

module _ {W : Type 0} (client : Client W) (lib : Library) where
  -- One reconcile of one of the resources, with no error, or anything that leaves the limiter alone.
  pub data FleetStep : List PrePullImage → Sys W → List PrePullImage → Sys W → Type 0 where
    begun :
        (ppi : PrePullImage) (names : List String) (ps : List PrePullImage) (s : Sys W)
        → (begin client lib ppi names s).0.error ≡ none
        → FleetStep ps s
            (with_status ppi (initial_status client lib ppi names s).0 ∷ ps)
            (begin client lib ppi names s).1
    worked :
        (ppi : PrePullImage) (ps : List PrePullImage) (s : Sys W)
        → (handle_in_progress client lib ppi s).0.error ≡ none
        → FleetStep
            (ppi ∷ ps)
            s
            (with_status ppi (advance client lib ppi s).0.0 ∷ ps)
            (handle_in_progress client lib ppi s).1
    deleted :
        (ppi : PrePullImage) (ps : List PrePullImage) (s : Sys W)
        → (tear_down client lib ppi s).0.error ≡ none
        → FleetStep (ppi ∷ ps) s ps (tear_down client lib ppi s).1
    elsewhere :
        (ps : List PrePullImage) (s s' : Sys W) → s'.limiter ≡ s.limiter → FleetStep ps s ps s'
    later :
        (ppi : PrePullImage) (ps qs : List PrePullImage) (s s' : Sys W)
        → FleetStep ps s qs s'
        → FleetStep (ppi ∷ ps) s (ppi ∷ qs) s'

  pub data FleetRun (ps : List PrePullImage) (s : Sys W) : List PrePullImage → Sys W → Type 0 where
    done : FleetRun ps s ps s
    next :
        {qs rs : List PrePullImage} {t u : Sys W}
        → FleetRun ps s qs t
        → FleetStep qs t rs u
        → FleetRun ps s rs u

  FleetStep_keeps :
      {P : RateLimiter → List String → Type 0} {ps qs : List PrePullImage} {s s' : Sys W}
      → SlotView P
      → FleetStep ps s qs s'
      → (others : List String) → P s.limiter (slots_of ps others)
      → P s'.limiter (slots_of qs others)
  unfolding slots_of
  FleetStep_keeps {P} view (begun ppi names ps s e) others h =
      rw
        (
          begin_limiter client lib ppi names s,
          (initial_status_lem client lib ppi names (slots_of ps others) s).5,
        )
        h
  FleetStep_keeps {P} view (worked ppi ps s e) others h =
      rw (handle_in_progress_limiter client lib ppi s)
        (advance_keeps client lib view ppi s (slots_of ps others) h)
  FleetStep_keeps {P} view (deleted ppi ps s e) others h =
      tear_down_keeps client lib view ppi (slots_of ps others) s h
  FleetStep_keeps {P} view (elsewhere ps s s' e) others h = rw e h
  FleetStep_keeps {P} view (later ppi ps qs s s' st) others h =
      view.same s'.limiter _ _ (sym (length-swap ppi.status.node_status qs others))
        (λ k. sym (count-swap ppi.status.node_status qs others k))
        (FleetStep_keeps view st (held ppi.status.node_status others) (
          view.same s.limiter _ _ (length-swap ppi.status.node_status ps others)
            (count-swap ppi.status.node_status ps others) h))

  pub FleetRun_keeps :
      {P : RateLimiter → List String → Type 0} {ps : List PrePullImage} {s : Sys W}
      {qs : List PrePullImage} {s' : Sys W}
      → SlotView P
      → P s.limiter (slots_of ps [])
      → FleetRun ps s qs s'
      → P s'.limiter (slots_of qs [])
  FleetRun_keeps view h done = h
  FleetRun_keeps view h (next run st) = FleetStep_keeps view st [] (FleetRun_keeps view h run)

  -- From a start with a new limiter and no resource, over any reconciles of any resources one after
  -- the other that return no error, and any other steps that leave the limiter alone: in all
  -- resources together no more nodes are stored as pulling than the cluster-wide limit, and no node
  -- is stored as pulling more often than the limit per node.
  pub FleetRun-limits :
      (a b : ℤ) {ps : List PrePullImage} {s s' : Sys W}
      → s.limiter ≡ new_rate_limiter a b
      → FleetRun [] s ps s'
      → (length (slots_of ps []) ≤ (new_rate_limiter a b).max_concurrent_pulls)
        × ((node : String)
            → count node (slots_of ps []) ≤ (new_rate_limiter a b).max_pulls_per_node)
  unfolding slots_of
  FleetRun-limits a b {ps} {s} {s'} e run =
      let holds = FleetRun_keeps Holds-view (rw e (new-Holds a b)) run in
      let within = FleetRun_keeps Within-view (new-Within a b s.limiter e) run in
      (
        omega (arith, holds.total, within.valid.within, within.concurrent_kept),
        λ node. omega (arith, holds.each node, within.valid.each_within node, within.per_node_kept),
      )
