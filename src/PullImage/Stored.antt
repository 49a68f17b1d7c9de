-- ===== src/PullImage/Stored.antt =====
-- A PrePullImage in the API server: what the controller relies on, and what its handlers leave stored.
use kwarm.Base.{false, ◌≡◌, refl, ◌∙◌, inl, inr, String, List, [], ◌∷◌, Option, some, Counts, arith}
use kwarm.Kube.{Job}
use kwarm.Api.{PrePullImage, PrePullImageStatus, NodeStatus, NodePullStatus}
use kwarm.Cluster.{same_key, Outcome, ok, err, Outcome-cases, Sys, Client, Library}
use kwarm.Puller.{operator_namespace, pull_job, create_pull_job, get_job, delete_job}
use kwarm.PullImage.Node.{
  Tally, visit, visit_all, visit_pending, visit_pulling, start_pull_job, check_job_status, judge,
}
use kwarm.PullImage.Handlers.{
  with_status, advance, settle, set_condition, no_tally, begin, initial_status, set_phases,
  update_phase_metrics, handle_in_progress, count_phases, no_phases, add_finalizer, finalizer_name,
  reconcile_found, reconcile,
}

abbrev pub IsAccepted : {A : Type 0} → Outcome A → Type 0
IsAccepted (ok _) = Unit
IsAccepted (err _) = ⊥

-- `image_at` is a view of the world: the PrePullImage with a namespace and a name. A read shows it. An
-- update of a stored resource is accepted: one of the resource stores it with the old status, and one
-- of the status stores it with the new one; both leave the other keys. The other calls of the
-- controller change none.
pub record ImageStore {W : Type 0} (client : Client W) : Type 0 where
  pub image_at : String → String → W → Option PrePullImage
  pub get_shows :
      (ns name : String) (w : W) (p : PrePullImage)
      → image_at ns name w ≡ some p
      → (client.get_prepullimage ns name w).0 ≡ ok p
  pub update_stores :
      (p q : PrePullImage) (w : W)
      → image_at q.meta.namespace q.meta.name w ≡ some p
      → q.status ≡ p.status
      → image_at q.meta.namespace q.meta.name (client.update_prepullimage q w).1 ≡ some q
  pub status_stores :
      (p : PrePullImage) (st : PrePullImageStatus) (w : W)
      → image_at p.meta.namespace p.meta.name w ≡ some p
      → let r = client.update_prepullimage_status (with_status p st) w in
        IsAccepted r.0 × (image_at p.meta.namespace p.meta.name r.1 ≡ some (with_status p st))
  pub update_keeps :
      (q : PrePullImage) (k l : String) (w : W)
      → same_key q.meta.namespace q.meta.name k l ≡ false
      → image_at k l (client.update_prepullimage q w).1 ≡ image_at k l w
  pub status_keeps :
      (q : PrePullImage) (k l : String) (w : W)
      → same_key q.meta.namespace q.meta.name k l ≡ false
      → image_at k l (client.update_prepullimage_status q w).1 ≡ image_at k l w
  pub now_keeps : (k l : String) (w : W) → image_at k l (client.now w).1 ≡ image_at k l w
  pub get_keeps :
      (k l ns name : String) (w : W)
      → image_at k l (client.get_prepullimage ns name w).1 ≡ image_at k l w
  pub list_keeps :
      (k l : String) (w : W) → image_at k l (client.list_prepullimages w).1 ≡ image_at k l w
  pub get_job_keeps :
      (k l ns name : String) (w : W) → image_at k l (client.get_job ns name w).1 ≡ image_at k l w
  pub create_job_keeps :
      (k l : String) (job : Job) (w : W) → image_at k l (client.create_job job w).1 ≡ image_at k l w
  pub delete_job_keeps :
      (k l ns name : String) (w : W) → image_at k l (client.delete_job ns name w).1 ≡ image_at k l w

module _ {W : Type 0} (client : Client W) (lib : Library) (store : ImageStore client) where
  open store use {image_at}

  -- A visit of a node, and a pass over all, store no PrePullImage.
  visit_keeps_image :
      (ppi : PrePullImage) (ns : NodeStatus) (t : Tally) (s : Sys W) (k l : String)
      (st : NodePullStatus)
      → ns.status ≡ st
      → image_at k l (visit client lib ppi ns t s).1.world ≡ image_at k l s.world
  unfolding visit visit_pending visit_pulling start_pull_job check_job_status judge create_pull_job
      get_job delete_job
  visit_keeps_image ppi ns t s k l NodePullStatus.pending e =
      let job = pull_job lib ppi ns.node in
      ground (
        arith,
        store.create_job_keeps k l job s.world,
        store.now_keeps k l (client.create_job job s.world).1,
      )
  visit_keeps_image ppi ns t s k l NodePullStatus.pulling e =
      let w = (client.get_job operator_namespace ns.job_name s.world).1 in
      ground (
        arith,
        store.get_job_keeps k l operator_namespace ns.job_name s.world,
        store.now_keeps k l w,
        store.delete_job_keeps k l operator_namespace ns.job_name w,
      )
  visit_keeps_image ppi ns t s k l _ e = ground arith

  visit_all_keeps_image :
      (ppi : PrePullImage) (nodes : List NodeStatus) (t : Tally) (s : Sys W) (k l : String)
      → image_at k l (visit_all client lib ppi nodes t s).1.world ≡ image_at k l s.world
  unfolding visit_all
  visit_all_keeps_image ppi [] t s k l = refl
  visit_all_keeps_image ppi (ns ∷ rest) t s k l =
      let r = visit client lib ppi ns t s in
      visit_all_keeps_image ppi rest r.0.1 r.1 k l ∙ visit_keeps_image ppi ns t s k l ns.status refl

  settle_keeps_image :
      (ppi : PrePullImage) (st : PrePullImageStatus) (s : Sys W) (k l : String)
      → image_at k l (settle client lib ppi st s).1.world ≡ image_at k l s.world
  unfolding settle set_condition
  settle_keeps_image ppi st s k l =
      ground (arith, store.now_keeps k l s.world, store.now_keeps k l (client.now s.world).1)

  pub advance_keeps_image :
      (ppi : PrePullImage) (s : Sys W) (k l : String)
      → image_at k l (advance client lib ppi s).1.world ≡ image_at k l s.world
  unfolding advance
  advance_keeps_image ppi s k l =
      settle_keeps_image ppi _ _ k l
      ∙ visit_all_keeps_image ppi ppi.status.node_status no_tally s k l

  set_phases_world : (m : Counts) (s : Sys W) → (set_phases client lib m s).1.world ≡ s.world
  unfolding set_phases
  set_phases_world [] s = refl
  set_phases_world ((k, n) ∷ m) s = set_phases_world m _

  pub update_phase_metrics_keeps_image :
      (s : Sys W) (k l : String)
      → image_at k l (update_phase_metrics client lib s).1.world ≡ image_at k l s.world
  unfolding update_phase_metrics
  update_phase_metrics_keeps_image s k l =
      elim (Outcome-cases (client.list_prepullimages s.world).0) [
        | inl (ppis, e) ↦ ground (
          arith,
          store.list_keeps k l s.world,
          set_phases_world (count_phases ppis no_phases)
              (record s { world = (client.list_prepullimages s.world).1 }),
        )
        | inr (x, e) ↦ ground (arith, store.list_keeps k l s.world)
      ]

  -- What the handlers leave stored.
  pub handle_in_progress_stores :
      (p : PrePullImage) (s : Sys W)
      → image_at p.meta.namespace p.meta.name s.world ≡ some p
      → image_at p.meta.namespace p.meta.name (handle_in_progress client lib p s).1.world
        ≡ some (with_status p (advance client lib p s).0.0)
  unfolding handle_in_progress
  handle_in_progress_stores p s e =
      let r = advance client lib p s in
      let u = client.update_prepullimage_status (with_status p r.0.0) r.1.world in
      ground (
        arith,
        store.status_stores p r.0.0 r.1.world
            (advance_keeps_image p s p.meta.namespace p.meta.name ∙ e),
        update_phase_metrics_keeps_image (record r.1 { world = u.1 }) p.meta.namespace p.meta.name,
      )

  pub initial_status_keeps_image :
      (p : PrePullImage) (names : List String) (s : Sys W) (k l : String)
      → image_at k l (initial_status client lib p names s).1.world ≡ image_at k l s.world
  unfolding initial_status set_condition
  initial_status_keeps_image p names s k l =
      ground (arith, store.now_keeps k l s.world, store.now_keeps k l (client.now s.world).1)

  pub begin_stores :
      (p : PrePullImage) (names : List String) (s : Sys W)
      → image_at p.meta.namespace p.meta.name s.world ≡ some p
      → image_at p.meta.namespace p.meta.name (begin client lib p names s).1.world
        ≡ some (with_status p (initial_status client lib p names s).0)
  unfolding begin
  begin_stores p names s e =
      let r = initial_status client lib p names s in
      ground (
        arith,
        store.status_stores p r.0 r.1.world
            (initial_status_keeps_image p names s p.meta.namespace p.meta.name ∙ e),
      )

  -- The resource with the controller's finalizer.
  abbrev pub guarded : PrePullImage → PrePullImage
  guarded p =
      let meta = p.meta in
      record p {
        meta = record meta { finalizers = lib.add_finalizer meta.finalizers finalizer_name };
      }

  pub add_finalizer_stores :
      (p : PrePullImage) (s : Sys W)
      → image_at p.meta.namespace p.meta.name s.world ≡ some p
      → (image_at p.meta.namespace p.meta.name (add_finalizer client lib p s).1.world
          ≡ some (guarded p))
        × ((add_finalizer client lib p s).1.limiter ≡ s.limiter)
  unfolding add_finalizer
  add_finalizer_stores p s e = ground (arith, store.update_stores p (guarded p) s.world e refl)

  -- The system in which `Reconcile` has read the resource.
  abbrev pub when_read : String → String → Sys W → Sys W
  when_read ns name s = record s {
    world = (client.get_prepullimage ns name (client.now s.world).1).1;
  }

  when_read-image :
      (ns name : String) (s : Sys W)
      → image_at ns name (when_read ns name s).world ≡ image_at ns name s.world
  when_read-image ns name s =
      store.get_keeps ns name ns name (client.now s.world).1 ∙ store.now_keeps ns name s.world

  -- `Reconcile` leaves the limiter and the resource as its inner part does.
  pub reconcile-stored :
      (ns name : String) (p : PrePullImage) (s : Sys W)
      → image_at ns name s.world ≡ some p
      → let r = (reconcile client lib ns name s).1 in
        let t = (reconcile_found client lib p (when_read ns name s)).1 in
        (image_at ns name (when_read ns name s).world ≡ some p)
        × (r.limiter ≡ t.limiter)
        × (image_at ns name r.world ≡ image_at ns name t.world)
  unfolding reconcile
  reconcile-stored ns name p s e =
      let w = (client.now s.world).1 in
      let got = store.get_shows ns name w p (store.now_keeps ns name s.world ∙ e) in
      let t = (reconcile_found client lib p (when_read ns name s)).1 in
      (
        when_read-image ns name s ∙ e,
        ground (arith, got),
        ground (arith, got, store.now_keeps ns name t.world),
      )
