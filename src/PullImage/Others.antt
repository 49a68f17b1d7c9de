-- ===== src/PullImage/Others.antt =====
-- A reconcile of one PrePullImage stores nothing under the keys of the others.
use kwarm.Base.{◌≡◌, ◌∙◌, false, String, List, some, arith}
use kwarm.Api.{PrePullImage}
use kwarm.Cluster.{same_key, Sys, Client, Library}
use kwarm.PullImage.Handlers.{
  with_status, advance, handle_in_progress, begin, initial_status, add_finalizer, reconcile_found,
  reconcile,
}
use kwarm.PullImage.Stored.{
  ImageStore, guarded, when_read, advance_keeps_image, update_phase_metrics_keeps_image,
  initial_status_keeps_image,
}

module _ {W : Type 0} (client : Client W) (lib : Library) (store : ImageStore client) where
  open store use {image_at}

  pub handle_in_progress_others :
      (p : PrePullImage) (s : Sys W) (k l : String)
      → same_key p.meta.namespace p.meta.name k l ≡ false
      → image_at k l (handle_in_progress client lib p s).1.world ≡ image_at k l s.world
  unfolding handle_in_progress
  handle_in_progress_others p s k l other =
      let r = advance client lib p s in
      let q = with_status p r.0.0 in
      let u = client.update_prepullimage_status q r.1.world in
      ground (
        arith,
        store.status_keeps q k l r.1.world other,
        advance_keeps_image client lib store p s k l,
        update_phase_metrics_keeps_image client lib store (record r.1 { world = u.1 }) k l,
      )

  pub begin_others :
      (p : PrePullImage) (names : List String) (s : Sys W) (k l : String)
      → same_key p.meta.namespace p.meta.name k l ≡ false
      → image_at k l (begin client lib p names s).1.world ≡ image_at k l s.world
  unfolding begin
  begin_others p names s k l other =
      let r = initial_status client lib p names s in
      ground (
        arith,
        store.status_keeps (with_status p r.0) k l r.1.world other,
        initial_status_keeps_image client lib store p names s k l,
      )

  pub add_finalizer_others :
      (p : PrePullImage) (s : Sys W) (k l : String)
      → same_key p.meta.namespace p.meta.name k l ≡ false
      → image_at k l (add_finalizer client lib p s).1.world ≡ image_at k l s.world
  unfolding add_finalizer
  add_finalizer_others p s k l other =
      ground (arith, store.update_keeps (guarded client lib store p) k l s.world other)

  -- The reads around the inner part store nothing.
  pub reconcile_others :
      (ns name k l : String) (p : PrePullImage) (s : Sys W)
      → image_at ns name s.world ≡ some p
      → let t = when_read client lib store ns name s in
        image_at k l (reconcile_found client lib p t).1.world ≡ image_at k l t.world
        → image_at k l (reconcile client lib ns name s).1.world ≡ image_at k l s.world
  unfolding reconcile
  reconcile_others ns name k l p s e kept =
      let w = (client.now s.world).1 in
      let got = store.get_shows ns name w p (store.now_keeps ns name s.world ∙ e) in
      let t = (reconcile_found client lib p (when_read client lib store ns name s)).1 in
      ground (
        arith,
        got,
        kept,
        store.now_keeps k l t.world,
        store.get_keeps k l ns name w,
        store.now_keeps k l s.world,
      )
