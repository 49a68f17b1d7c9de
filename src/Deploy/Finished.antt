-- ===== src/Deploy/Finished.antt =====
-- `Reconcile` of deployment_controller.go as a whole, where images have changed.
use kwarm.Base.{
  ◌≡◌, refl, sym, subst, ap, ◌∙◌, inl, inr, ◌⊎◌, String, List, [], ◌∷◌, Elem, Option, none, some,
  arith,
}
use kwarm.Kube.{StringMap, Deployment}
use kwarm.Api.{PrePullImage, PrePullPolicy}
use kwarm.Cluster.{ok, Outcome-cases, Reply, Sys, Client, Library}
use kwarm.Deploy.Images.{
  extract_images, get_last_images, find_changed_images, generate_prepullimage_name, annotate,
}
use kwarm.Deploy.Handlers.{
  create_all, update_last_images_annotation, pull_changed, reconcile_changed, reconcile_found,
  get_matching_policy, get_target_nodes, node_filter,
}
use kwarm.Deploy.Storage.{Storage}
use kwarm.Deploy.Rounds.{
  stored, NamesApart, Round, create_all-Makes, image_round, IsNew, absent_round,
}

list-cases : (l : List String) → (l ≡ []) ⊎ ((x : String) × (xs : List String) × (l ≡ x ∷ xs))
list-cases [] = inl refl
list-cases (x ∷ xs) = inr (x, xs, refl)

module _ {W : Type 0} (client : Client W) (lib : Library)
    {image_at : String → String → W → Option PrePullImage} (storage : Storage client image_at) where
  annotation_keeps :
      (d : Deployment) (images : StringMap) (k l : String) (s : Sys W)
      → image_at k l (update_last_images_annotation client lib d images s).1.world
        ≡ image_at k l s.world
  unfolding update_last_images_annotation
  annotation_keeps d images k l s = elim (Outcome-cases (lib.marshal images)) [
    | inl (text, e) ↦ ground (arith, storage.update_deployment_keeps (annotate d text) k l s.world)
    | inr (x, e) ↦ ground arith
  ]

  pull_changed-create_all :
      (d : Deployment) (policy : PrePullPolicy) (changed targets : List String) (s : Sys W)
      → (pull_changed client lib d policy changed targets s).0.error ≡ none
      → let r = create_all client lib d policy changed targets s in
        (r.0 ≡ none)
        × ((pull_changed client lib d policy changed targets s).1
            ≡ (update_last_images_annotation client lib d (extract_images d) r.1).1)
  unfolding pull_changed
  pull_changed-create_all d policy changed targets s e = ground arith

  -- With a policy and nodes, a reconcile of changed images is `pull_changed`.
  reconcile_found-changed :
      (d : Deployment) (policy : PrePullPolicy) (node image : String) (nodes images : List String)
      (s : Sys W)
      → find_changed_images (get_last_images lib d) (extract_images d) ≡ image ∷ images
      → (get_matching_policy client lib d s).0 ≡ ok (some policy)
      → let s' = (get_matching_policy client lib d s).1 in
        (get_target_nodes client lib policy s').0 ≡ ok (node ∷ nodes)
        → reconcile_found client lib d s
          ≡ pull_changed client lib d policy
              (image ∷ images)
              (node ∷ nodes)
              (get_target_nodes client lib policy s').1
  unfolding reconcile_found reconcile_changed
  reconcile_found-changed d policy node image nodes images s c p t = ground arith

  -- The reads before the loop store nothing.
  matching_world :
      (d : Deployment) (s : Sys W)
      → (get_matching_policy client lib d s).1.world ≡ (client.list_policies s.world).1
  unfolding get_matching_policy
  matching_world d s = elim (Outcome-cases (client.list_policies s.world).0) [
    | inl (ps, e) ↦ ground (arith, e)
    | inr (x, e) ↦ ground (arith, e)
  ]

  targets_keep :
      (policy : PrePullPolicy) (k l : String) (s : Sys W)
      → image_at k l (get_target_nodes client lib policy s).1.world ≡ image_at k l s.world
  unfolding get_target_nodes
  targets_keep policy k l s =
      let f = node_filter client lib policy.spec.node_selector.match_labels in
      let kept = storage.list_nodes_keeps f k l s.world in
      elim (Outcome-cases (client.list_nodes f s.world).0) [
        | inl (ns, e) ↦ ground (arith, e, kept)
        | inr (x, e) ↦ ground (arith, e, kept)
      ]

  reads_keep :
      (d : Deployment) (policy : PrePullPolicy) (k l : String) (s : Sys W)
      → let s' = (get_matching_policy client lib d s).1 in
        image_at k l (get_target_nodes client lib policy s').1.world ≡ image_at k l s.world
  reads_keep d policy k l s =
      targets_keep policy k l (get_matching_policy client lib d s).1
      ∙ ap (image_at k l) (matching_world d s)
      ∙ storage.list_policies_keeps k l s.world

  module _ (d : Deployment) (policy : PrePullPolicy) (node : String) (nodes : List String)
      (s : Sys W) where
    abbrev pub changed_images : List String
    changed_images = find_changed_images (get_last_images lib d) (extract_images d)

    -- What a round makes of the resource for an image holds after the whole reconcile.
    reconcile_found-Makes :
        {Needs Makes : String → Option PrePullImage → Type 0} (image : String)
        → Round client lib storage d policy (node ∷ nodes) Needs Makes
        → NamesApart client lib storage d policy (node ∷ nodes) changed_images
        → ((i : String)
            → Elem i changed_images
            → Needs i (stored client lib storage d policy (node ∷ nodes) i s.world))
        → (get_matching_policy client lib d s).0 ≡ ok (some policy)
        → (get_target_nodes client lib policy (get_matching_policy client lib d s).1).0
          ≡ ok (node ∷ nodes)
        → (reconcile_found client lib d s).0.error ≡ none
        → Elem image changed_images
        → Makes image (
            stored client lib storage d policy
              (node ∷ nodes)
              image
              (reconcile_found client lib d s).1.world)
    reconcile_found-Makes {Needs} {Makes} image round apart needs p t e found =
        elim (list-cases changed_images) [
          | inl none_changed ↦ absurd (subst (Elem image) none_changed found)
          | inr (i, is, c) ↦
              let ns = d.meta.namespace in
              let name = generate_prepullimage_name lib d.meta.name in
              let s' =
                (get_target_nodes client lib policy (get_matching_policy client lib d s).1).1 in
              let r = create_all client lib d policy changed_images (node ∷ nodes) s' in
              let same =
                reconcile_found-changed d policy node i nodes is s c p t
                ∙ ap (λ l. pull_changed client lib d policy l (node ∷ nodes) s') (sym c) in
              let made =
                pull_changed-create_all d policy changed_images (node ∷ nodes) s'
                  (ap (λ (q : Reply × Sys W). q.0.error) (sym same) ∙ e) in
              subst (Makes image)
                (sym (
                  ap (λ (q : Reply × Sys W). image_at ns (name image) q.1.world) same
                  ∙ ap (λ (x : Sys W). image_at ns (name image) x.world) made.1
                  ∙ annotation_keeps d (extract_images d) ns (name image) r.1))
                (create_all-Makes client lib storage d policy (node ∷ nodes) round changed_images s'
                  apart
                  (λ j q. subst (Needs j) (sym (reads_keep d policy ns (name j) s)) (needs j q))
                  made.0 image found)
        ]

    -- Where a policy matches the deployment, it has a ready node, and no two changed images share a
    -- generated name: a reconcile that ends without an error leaves, for every changed image, a
    -- PrePullImage with this image under the generated name in the deployment's namespace. The API
    -- server stores what is created, reads show it, and a call for one key leaves the others.
    pub reconcile_found_stores :
        (image : String)
        → NamesApart client lib storage d policy (node ∷ nodes) changed_images
        → (get_matching_policy client lib d s).0 ≡ ok (some policy)
        → (get_target_nodes client lib policy (get_matching_policy client lib d s).1).0
          ≡ ok (node ∷ nodes)
        → (reconcile_found client lib d s).0.error ≡ none
        → Elem image changed_images
        → (q : PrePullImage) × (image_at d.meta.namespace
              (generate_prepullimage_name lib d.meta.name image)
              (reconcile_found client lib d s).1.world
            ≡ some q)
          × (q.spec.image ≡ image)
    reconcile_found_stores image apart p t e found =
        reconcile_found-Makes image (image_round client lib storage d policy (node ∷ nodes)) apart
          (λ i q. tt) p t e found

    -- Where nothing was stored for the changed images, it is a new one for the policy's ready nodes.
    pub reconcile_found_creates :
        (image : String)
        → NamesApart client lib storage d policy (node ∷ nodes) changed_images
        → ((i : String)
            → Elem i changed_images
            → stored client lib storage d policy (node ∷ nodes) i s.world ≡ none)
        → (get_matching_policy client lib d s).0 ≡ ok (some policy)
        → (get_target_nodes client lib policy (get_matching_policy client lib d s).1).0
          ≡ ok (node ∷ nodes)
        → (reconcile_found client lib d s).0.error ≡ none
        → Elem image changed_images
        → IsNew client lib storage d policy (node ∷ nodes) image (
            image_at d.meta.namespace
              (generate_prepullimage_name lib d.meta.name image)
              (reconcile_found client lib d s).1.world)
    reconcile_found_creates image apart absent p t e found =
        reconcile_found-Makes image (absent_round client lib storage d policy (node ∷ nodes)) apart
          (λ i q. inl (absent i q)) p t e found
