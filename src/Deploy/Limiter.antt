-- ===== src/Deploy/Limiter.antt =====
-- The deployment controller leaves the rate limiter alone.
use kwarm.Base.{◌≡◌, refl, ◌∙◌, inl, inr, String, List, [], ◌∷◌, Option, none, some, arith}
use kwarm.Kube.{StringMap, Deployment}
use kwarm.Api.{PrePullImage, PrePullPolicy}
use kwarm.Cluster.{Outcome, Outcome-cases, ok, err, Sys, Client, Library}
use kwarm.Deploy.Images.{
  generate_prepullimage_name, extract_images, get_last_images, find_changed_images,
}
use kwarm.Deploy.Handlers.{
  build_prepullimage, create_new, replace, create_prepullimage, create_all, pull_triggered,
  update_last_images_annotation, pull_changed, get_matching_policy, get_target_nodes, refresh,
  reconcile_changed, reconcile_found,
}

module _ {W : Type 0} (client : Client W) (lib : Library) where
  create_new_limiter :
      (p : PrePullImage) (s : Sys W) → (create_new client lib p s).1.limiter ≡ s.limiter
  unfolding create_new
  create_new_limiter p s = ground arith

  replace_limiter :
      (old p : PrePullImage) (s : Sys W) → (replace client lib old p s).1.limiter ≡ s.limiter
  unfolding replace
  replace_limiter old p s = ground (
    arith,
    create_new_limiter p (record s { world = (client.delete_prepullimage old s.world).1 }),
  )

  create_prepullimage_limiter :
      (d : Deployment) (policy : PrePullPolicy) (image : String) (targets : List String) (s : Sys W)
      → (create_prepullimage client lib d policy image targets s).1.limiter ≡ s.limiter
  unfolding create_prepullimage
  create_prepullimage_limiter d policy image targets s =
      let name = generate_prepullimage_name lib d.meta.name image in
      let t = record s { world = (client.get_prepullimage d.meta.namespace name s.world).1 } in
      let ppi = build_prepullimage lib d policy image targets in
      elim (Outcome-cases (client.get_prepullimage d.meta.namespace name s.world).0) [
        | inl (old, e) ↦ ground (arith, e, replace_limiter old ppi t)
        | inr (x, e) ↦ ground (arith, e, create_new_limiter ppi t)
      ]

  create_all_limiter :
      (d : Deployment) (policy : PrePullPolicy) (images targets : List String) (s : Sys W)
      → (create_all client lib d policy images targets s).1.limiter ≡ s.limiter
  unfolding create_all
  create_all_limiter d policy [] targets s = refl
  create_all_limiter d policy (image ∷ images) targets s =
      let t = (create_prepullimage client lib d policy image targets s).1 in
      ground (
        arith,
        create_prepullimage_limiter d policy image targets s,
        create_all_limiter d policy images targets
            (record t { events = pull_triggered d image ∷ t.events }),
      )

  annotation_limiter :
      (d : Deployment) (images : StringMap) (s : Sys W)
      → (update_last_images_annotation client lib d images s).1.limiter ≡ s.limiter
  unfolding update_last_images_annotation
  annotation_limiter d images s = ground arith

  pub pull_changed_limiter :
      (d : Deployment) (policy : PrePullPolicy) (changed targets : List String) (s : Sys W)
      → (pull_changed client lib d policy changed targets s).1.limiter ≡ s.limiter
  unfolding pull_changed
  pull_changed_limiter d policy changed targets s =
      let r = create_all client lib d policy changed targets s in
      ground (
        arith,
        create_all_limiter d policy changed targets s,
        annotation_limiter d (extract_images d) r.1,
      )

  refresh_limiter : (d : Deployment) (s : Sys W) → (refresh client lib d s).1.limiter ≡ s.limiter
  unfolding refresh
  refresh_limiter d s = ground (arith, annotation_limiter d (extract_images d) s)

  reads_limiter :
      (d : Deployment) (policy : PrePullPolicy) (s : Sys W)
      → ((get_matching_policy client lib d s).1.limiter ≡ s.limiter)
        × ((get_target_nodes client lib policy s).1.limiter ≡ s.limiter)
  unfolding get_matching_policy get_target_nodes
  reads_limiter d policy s = (ground arith, ground arith)

  reconcile_changed_limiter :
      (d : Deployment) (policy : PrePullPolicy) (changed : List String) (s : Sys W)
      (o : Outcome (List String))
      → (get_target_nodes client lib policy s).0 ≡ o
      → (reconcile_changed client lib d policy changed s).1.limiter ≡ s.limiter
  unfolding reconcile_changed
  reconcile_changed_limiter d policy changed s (err x) e =
      ground (arith, e, reads_limiter d policy s)
  reconcile_changed_limiter d policy changed s (ok []) e =
      ground (arith, e, reads_limiter d policy s)
  reconcile_changed_limiter d policy changed s (ok (name ∷ names)) e = ground (
    arith,
    e,
    reads_limiter d policy s,
    pull_changed_limiter d policy changed (name ∷ names) (get_target_nodes client lib policy s).1,
  )

  matched_limiter :
      (d : Deployment) (s : Sys W) (o : Outcome (Option PrePullPolicy)) (changed : List String)
      → (get_matching_policy client lib d s).0 ≡ o
      → find_changed_images (get_last_images lib d) (extract_images d) ≡ changed
      → (reconcile_found client lib d s).1.limiter ≡ (get_matching_policy client lib d s).1.limiter
  unfolding reconcile_found
  matched_limiter d s (err x) changed e c = ground (arith, e)
  matched_limiter d s (ok none) changed e c = ground (arith, e)
  matched_limiter d s (ok (some policy)) [] e c =
      ground (arith, e, c, refresh_limiter d (get_matching_policy client lib d s).1)
  matched_limiter d s (ok (some policy)) (image ∷ images) e c =
      let s' = (get_matching_policy client lib d s).1 in
      ground (arith, e, c, reconcile_changed_limiter d policy (image ∷ images) s' _ refl)

  pub reconcile_found_limiter :
      (d : Deployment) (s : Sys W) → (reconcile_found client lib d s).1.limiter ≡ s.limiter
  unfolding get_matching_policy
  reconcile_found_limiter d s = matched_limiter d s _ _ refl refl ∙ ground arith
