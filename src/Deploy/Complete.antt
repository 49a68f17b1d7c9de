-- ===== src/Deploy/Complete.antt =====
-- A reconcile of a deployment that ends without an error has a PrePullImage for each changed image.
use text.Mathlib.TextEquality.{eq_iff}
use kwarm.Base.{
  ◌≡◌, sym, subst, ap, ◌∙◌, inl, inr, ◌⊎◌, false, Bool-cases, String, List, Option, none, some,
  str_eq, arith,
}
use kwarm.Kube.{Deployment}
use kwarm.Api.{PrePullImage, PrePullPolicy}
use kwarm.Cluster.{ApiError, Outcome-cases, Reason-cases, Sys, Client, Library}
use kwarm.Deploy.Images.{generate_prepullimage_name}
use kwarm.Deploy.Handlers.{build_prepullimage, create_new, replace, create_prepullimage}
use kwarm.Deploy.Create
use kwarm.Cluster.{same_key}
use kwarm.Deploy.Storage.{IsCreated, Storage}

module _ {W : Type 0} (client : Client W) (lib : Library)
    {image_at : String → String → W → Option PrePullImage} (storage : Storage client image_at) where
  -- A resource that was created from this one is there.
  abbrev pub IsThere : PrePullImage → Option PrePullImage → Type 0
  IsThere p o = (q : PrePullImage) × (o ≡ some q) × IsCreated p q

  create_new_keeps :
      (p : PrePullImage) (k l : String) (s : Sys W)
      → same_key p.meta.namespace p.meta.name k l ≡ false
      → image_at k l (create_new client lib p s).1.world ≡ image_at k l s.world
  unfolding create_new
  create_new_keeps p k l s other = ground (arith, storage.create_keeps p k l s.world other)

  create_new_stores :
      (p : PrePullImage) (s : Sys W)
      → (create_new client lib p s).0 ≡ none
      → IsThere p (image_at p.meta.namespace p.meta.name (create_new client lib p s).1.world)
  unfolding create_new
  create_new_stores p s e = elim (Outcome-cases (client.create_prepullimage p s.world).0) [
    | inl (q, c) ↦
        let stored = storage.create_stores p q s.world c in
        (q, ground (arith, stored.0, c), stored.1)
    | inr (x, c) ↦ absurd (ground (arith, c, e))
  ]

  replace_keeps :
      (old p : PrePullImage) (k l : String) (s : Sys W)
      → same_key old.meta.namespace old.meta.name k l ≡ false
      → same_key p.meta.namespace p.meta.name k l ≡ false
      → image_at k l (replace client lib old p s).1.world ≡ image_at k l s.world
  unfolding replace
  replace_keeps old p k l s gone other = ground (
    arith,
    storage.delete_keeps old k l s.world gone,
    create_new_keeps p k l (record s { world = (client.delete_prepullimage old s.world).1 }) other,
  )

  replace_stores :
      (old p : PrePullImage) (s : Sys W)
      → (replace client lib old p s).0 ≡ none
      → IsThere p (image_at p.meta.namespace p.meta.name (replace client lib old p s).1.world)
  replace_stores old p s e = elim (Outcome-cases (client.delete_prepullimage old s.world).0) [
    | inl (u, c) ↦
        let s' = record s { world = (client.delete_prepullimage old s.world).1 } in
        let same : replace client lib old p s ≡ create_new client lib p s' =
          unfold replace in ground (arith, c) in
        subst
          (λ (r : Option ApiError × Sys W).
            IsThere p (image_at p.meta.namespace p.meta.name r.1.world))
          (sym same)
          (create_new_stores p s' (ap (λ (r : Option ApiError × Sys W). r.0) (sym same) ∙ e))
    | inr (x, c) ↦ absurd (unfold replace in ground (arith, c, e))
  ]

  -- `createPrePullImage` touches one key.
  pub create_prepullimage_keeps :
      (d : Deployment) (policy : PrePullPolicy) (image : String) (targets : List String)
      (k l : String) (s : Sys W)
      → same_key d.meta.namespace (generate_prepullimage_name lib d.meta.name image) k l ≡ false
      → image_at k l (create_prepullimage client lib d policy image targets s).1.world
        ≡ image_at k l s.world
  unfolding create_prepullimage build_prepullimage
  create_prepullimage_keeps d policy image targets k l s other =
      let ns = d.meta.namespace in
      let name = generate_prepullimage_name lib d.meta.name image in
      let w = (client.get_prepullimage ns name s.world).1 in
      let ppi = build_prepullimage lib d policy image targets in
      let kept = storage.get_keeps ns name k l s.world in
      elim (Outcome-cases (client.get_prepullimage ns name s.world).0) [
        | inl (old, e) ↦ ground (
          arith,
          kept,
          storage.get_shows ns name s.world old e,
          replace_keeps old ppi k l (record s { world = w }),
        )
        | inr (x, e) ↦ ground (arith, kept, create_new_keeps ppi k l (record s { world = w }) other)
      ]

  -- With no error: the image was there before and is kept, or a resource for it was created.
  pub create_prepullimage-cases :
      (d : Deployment) (policy : PrePullPolicy) (image : String) (targets : List String) (s : Sys W)
      → let ns = d.meta.namespace in
        let name = generate_prepullimage_name lib d.meta.name image in
        let r = create_prepullimage client lib d policy image targets s in
        r.0 ≡ none
        → ((old : PrePullImage) × (image_at ns name s.world ≡ some old)
            × (image_at ns name r.1.world ≡ some old)
            × (old.spec.image ≡ image))
          ⊎ IsThere (build_prepullimage lib d policy image targets) (image_at ns name r.1.world)
  unfolding build_prepullimage
  create_prepullimage-cases d policy image targets s e =
      let ns = d.meta.namespace in
      let name = generate_prepullimage_name lib d.meta.name image in
      let ppi = build_prepullimage lib d policy image targets in
      let t = record s { world = (client.get_prepullimage ns name s.world).1 } in
      let found = λ (r : Option ApiError × Sys W). IsThere ppi (image_at ns name r.1.world) in
      let fails = λ (r : Option ApiError × Sys W). r.0 in
      elim (Outcome-cases (client.get_prepullimage ns name s.world).0) [
        | inl (old, g) ↦ elim (Bool-cases (str_eq old.spec.image image)) [
          | inl same ↦
              let shown = (storage.get_shows ns name s.world old g).0 in
              inl (
                old,
                shown,
                ap (λ (r : Option ApiError × Sys W). image_at ns name r.1.world)
                      (Create.create-present client lib d policy image targets s old g same)
                    ∙ storage.get_keeps ns name ns name s.world
                    ∙ shown,
                (eq_iff old.spec.image image).0 same,
              )
          | inr other ↦
              let eq = Create.create-changed client lib d policy image targets s old g other in
              inr (subst found (sym eq) (replace_stores old ppi t (ap fails (sym eq) ∙ e)))
        ]
        | inr (x, g) ↦ elim (Reason-cases x.reason) [
          | inl missing ↦
              let eq = Create.create-absent client lib d policy image targets s x g missing in
              inr (subst found (sym eq) (create_new_stores ppi t (ap fails (sym eq) ∙ e)))
          | inr broken ↦
              absurd (Create.create-failed client lib d policy image targets s x g broken e)
        ]
      ]
