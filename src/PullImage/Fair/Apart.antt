-- ===== src/PullImage/Fair/Apart.antt =====
-- A turn of one resource leaves what is stored under other keys.
use kwarm.Base.{ℕ, ◌≡◌, ◌∙◌, ap, inl, inr, false, String, ◌∷◌, some}
use kwarm.Api.{PrePullImage}
use kwarm.Cluster.{same_key, Sys, Client, Library}
use kwarm.PullImage.Handlers.{reconcile_found, reconcile}
use kwarm.PullImage.Stored.{ImageStore, when_read}
use kwarm.PullImage.Reconciles.{
  found-unguarded, found-in_progress, found-guarded, phase-pending, pending-begin,
}
use kwarm.PullImage.Others.{
  handle_in_progress_others, begin_others, add_finalizer_others, reconcile_others,
}
use kwarm.PullImage.Fair.Stage.{
  Stage, unguarded, waiting, working, closed, turn, turn-open, turn-closed,
}
use kwarm.PullImage.Fair.Turn.{Ready}

module _ {W : Type 0} (client : Client W) (lib : Library) (store : ImageStore client) where
  open store use {image_at}

  -- The inner part of the reconcile leaves the other keys, and so does the turn.
  by_inner :
      (p : PrePullImage) (s : Sys W) (k l : String) (r : _ × Sys W)
      → image_at p.meta.namespace p.meta.name s.world ≡ some p
      → turn client lib store p.meta.namespace p.meta.name s
        ≡ (reconcile client lib p.meta.namespace p.meta.name s).1
      → let t = when_read client lib store p.meta.namespace p.meta.name s in
        reconcile_found client lib p t ≡ r
        → image_at k l r.1.world ≡ image_at k l t.world
        → image_at k l (turn client lib store p.meta.namespace p.meta.name s).world
          ≡ image_at k l s.world
  by_inner p s k l r stored open_turn inner kept =
      ap (λ (x : Sys W). image_at k l x.world) open_turn
      ∙ reconcile_others client lib store p.meta.namespace p.meta.name k l p s stored
          (ap (λ (x : _ × Sys W). image_at k l x.1.world) inner ∙ kept)

  pub turn_others :
      (p : PrePullImage) (n : ℕ) (s : Sys W) (k l : String)
      → Ready client lib store p n s.world
      → Stage client lib p n
      → same_key p.meta.namespace p.meta.name k l ≡ false
      → image_at k l (turn client lib store p.meta.namespace p.meta.name s).world
        ≡ image_at k l s.world
  turn_others p n s k l r (unguarded node nodes w d g) other =
      let ns = p.meta.namespace in
      let name = p.meta.name in
      let t = when_read client lib store ns name s in
      by_inner p s k l _ r.stored (turn-open client lib store ns name p s r.stored (inr w.new))
        (found-unguarded client lib p t d g) (add_finalizer_others client lib store p t k l other)
  turn_others p n s k l r (waiting node nodes w g) other =
      let ns = p.meta.namespace in
      let name = p.meta.name in
      let t = when_read client lib store ns name s in
      by_inner p s k l _ r.stored (turn-open client lib store ns name p s r.stored (inr w.new))
        (found-guarded client lib p t g
          ∙ phase-pending client lib p t w.new
          ∙ pending-begin client lib p node nodes t w.named)
        (begin_others client lib store p (node ∷ nodes) t k l other)
  turn_others p n s k l r (working e g below few) other =
      let ns = p.meta.namespace in
      let name = p.meta.name in
      let t = when_read client lib store ns name s in
      by_inner p s k l _ r.stored (turn-open client lib store ns name p s r.stored (inl e))
        (found-in_progress client lib p t g e)
        (handle_in_progress_others client lib store p t k l other)
  turn_others p n s k l r (closed c idle) other =
      ap (λ (x : Sys W). image_at k l x.world)
        (turn-closed client lib store p.meta.namespace p.meta.name p s r.stored c)
