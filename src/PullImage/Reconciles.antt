-- ===== src/PullImage/Reconciles.antt =====
-- The reconciles of one PrePullImage, one after the other, each from what is stored.
use kwarm.Base.{
  ℕ, zero, suc, ◌≡◌, refl, ap, ◌∙◌, ◌⊎◌, inl, inr, true, false, String, List, ◌∷◌, none, some,
  arith,
}
use kwarm.Api.{PrePullImage, PrePullImagePhase}
use kwarm.Cluster.{Sys, Client, Library}
use kwarm.PullImage.Handlers.{
  with_status, advance, handle_in_progress, initial_status, begin, handle_pending, get_target_nodes,
  add_finalizer, finalizer_name, handle_phase, reconcile_found, reconcile,
}
use kwarm.PullImage.Keeps.{begin_limiter}
use kwarm.PullImage.Stored.{
  ImageStore, guarded, when_read, reconcile-stored, handle_in_progress_stores, begin_stores,
  add_finalizer_stores,
}

abbrev pub IsClosed : PrePullImagePhase → Type 0
IsClosed phase = (phase ≡ PrePullImagePhase.completed) ⊎ (phase ≡ PrePullImagePhase.failed)

-- Not started yet.
abbrev pub IsNew : PrePullImagePhase → Type 0
IsNew phase = (phase ≡ PrePullImagePhase.unset) ⊎ (phase ≡ PrePullImagePhase.pending)

module _ {W : Type 0} (client : Client W) (lib : Library) where
  -- A number of calls of `Reconcile` for one key.
  unfoldable pub reconciles : ℕ → String → String → Sys W → Sys W
  reconciles zero ns name s = s
  reconciles (suc n) ns name s = reconciles n ns name (reconcile client lib ns name s).1

  -- The resource is not being deleted, and has the finalizer.
  abbrev pub IsGuarded : PrePullImage → Type 0
  IsGuarded p =
      (p.meta.deletion_timestamp ≡ none)
      × (lib.contains_finalizer p.meta.finalizers finalizer_name ≡ true)

  pub found-guarded :
      (p : PrePullImage) (s : Sys W)
      → IsGuarded p
      → reconcile_found client lib p s ≡ handle_phase client lib p.status.phase p s
  unfolding reconcile_found
  found-guarded p s g = ground (arith, g.0, g.1)

  pub found-unguarded :
      (p : PrePullImage) (s : Sys W)
      → p.meta.deletion_timestamp ≡ none
      → lib.contains_finalizer p.meta.finalizers finalizer_name ≡ false
      → reconcile_found client lib p s ≡ add_finalizer client lib p s
  unfolding reconcile_found
  found-unguarded p s d g = ground (arith, d, g)

  pub found-in_progress :
      (p : PrePullImage) (s : Sys W)
      → IsGuarded p
      → p.status.phase ≡ PrePullImagePhase.in_progress
      → reconcile_found client lib p s ≡ handle_in_progress client lib p s
  found-in_progress p s g e =
      found-guarded p s g
      ∙ ap (λ phase. handle_phase client lib phase p s) e
      ∙ (unfold handle_phase in refl)

  pub phase-pending :
      (p : PrePullImage) (s : Sys W)
      → IsNew p.status.phase
      → handle_phase client lib p.status.phase p s ≡ handle_pending client lib p s
  phase-pending p s (inl e) =
      ap (λ phase. handle_phase client lib phase p s) e ∙ (unfold handle_phase in refl)
  phase-pending p s (inr e) =
      ap (λ phase. handle_phase client lib phase p s) e ∙ (unfold handle_phase in refl)

  pub pending-begin :
      (p : PrePullImage) (node : String) (nodes : List String) (s : Sys W)
      → p.spec.nodes.names ≡ node ∷ nodes
      → handle_pending client lib p s ≡ begin client lib p (node ∷ nodes) s
  unfolding handle_pending get_target_nodes
  pending-begin p node nodes s e = ground (arith, e)

  module _ (store : ImageStore client) where
    open store use {image_at}

    -- One reconcile of a resource in progress, of a new one with named nodes, and of one that has no
    -- finalizer yet.
    pub reconcile-in_progress :
        (p : PrePullImage) (s : Sys W)
        → let ns = p.meta.namespace in
          let name = p.meta.name in
          image_at ns name s.world ≡ some p
          → IsGuarded p
          → p.status.phase ≡ PrePullImagePhase.in_progress
          → let t = when_read client lib store ns name s in
            let r = (reconcile client lib ns name s).1 in
            (image_at ns name r.world ≡ some (with_status p (advance client lib p t).0.0))
            × (r.limiter ≡ (handle_in_progress client lib p t).1.limiter)
    reconcile-in_progress p s e g phase =
        let t = when_read client lib store p.meta.namespace p.meta.name s in
        let inner = reconcile-stored client lib store p.meta.namespace p.meta.name p s e in
        let same = found-in_progress p t g phase in
        (
          inner.2
              ∙ ap (λ (r : _ × Sys W). image_at p.meta.namespace p.meta.name r.1.world) same
              ∙ handle_in_progress_stores client lib store p t inner.0,
          inner.1 ∙ ap (λ (r : _ × Sys W). r.1.limiter) same,
        )

    pub reconcile-new :
        (p : PrePullImage) (node : String) (nodes : List String) (s : Sys W)
        → let ns = p.meta.namespace in
          let name = p.meta.name in
          image_at ns name s.world ≡ some p
          → IsGuarded p
          → IsNew p.status.phase
          → p.spec.nodes.names ≡ node ∷ nodes
          → let t = when_read client lib store ns name s in
            let r = (reconcile client lib ns name s).1 in
            (image_at ns name r.world
              ≡ some (with_status p (initial_status client lib p (node ∷ nodes) t).0))
            × (r.limiter ≡ s.limiter)
    reconcile-new p node nodes s e g new names =
        let t = when_read client lib store p.meta.namespace p.meta.name s in
        let inner = reconcile-stored client lib store p.meta.namespace p.meta.name p s e in
        let same =
          found-guarded p t g ∙ phase-pending p t new ∙ pending-begin p node nodes t names in
        (
          inner.2
              ∙ ap (λ (r : _ × Sys W). image_at p.meta.namespace p.meta.name r.1.world) same
              ∙ begin_stores client lib store p (node ∷ nodes) t inner.0,
          inner.1
              ∙ ap (λ (r : _ × Sys W). r.1.limiter) same
              ∙ begin_limiter client lib p (node ∷ nodes) t,
        )

    pub reconcile-unguarded :
        (p : PrePullImage) (s : Sys W)
        → let ns = p.meta.namespace in
          let name = p.meta.name in
          image_at ns name s.world ≡ some p
          → p.meta.deletion_timestamp ≡ none
          → lib.contains_finalizer p.meta.finalizers finalizer_name ≡ false
          → let r = (reconcile client lib ns name s).1 in
            (image_at ns name r.world ≡ some (guarded client lib store p)) × (r.limiter ≡ s.limiter)
    reconcile-unguarded p s e d g =
        let t = when_read client lib store p.meta.namespace p.meta.name s in
        let inner = reconcile-stored client lib store p.meta.namespace p.meta.name p s e in
        let same = found-unguarded p t d g in
        let stored = add_finalizer_stores client lib store p t inner.0 in
        (
          inner.2
              ∙ ap (λ (r : _ × Sys W). image_at p.meta.namespace p.meta.name r.1.world) same
              ∙ stored.0,
          inner.1 ∙ ap (λ (r : _ × Sys W). r.1.limiter) same ∙ stored.1,
        )
