-- ===== src/Deploy/Create.antt =====
-- What a successful creation leaves behind, and how the two controllers meet.
use text.Mathlib.TextEquality.{eq_iff}
use kwarm.Base.{
  ◌≡◌, refl, sym, subst, ◌≢◌, inl, inr, true, false, Bool-cases, String, List, ◌∷◌, Option, none,
  str_eq, arith,
}
use kwarm.Kube.{Deployment}
use kwarm.Api.{PrePullImage, PrePullPolicy}
use kwarm.Cluster.{
  ApiError, Reason, Outcome, ok, err, Outcome-cases, Reason-cases, Sys, Client, Library,
}
use kwarm.PullImage.Handlers
use kwarm.Deploy.Images.{generate_prepullimage_name}
use kwarm.Deploy.Handlers.{build_prepullimage, create_new, replace, create_prepullimage}

module _ {W : Type 0} (client : Client W) (lib : Library) where
  -- The nodes that the deployment controller has chosen for an image are the nodes that the
  -- controller of PrePullImages pulls it onto: it asks the cluster for no others.
  pub targets_kept :
      (d : Deployment) (policy : PrePullPolicy) (image node : String) (nodes : List String)
      (s : Sys W)
      → Handlers.get_target_nodes client lib
          (build_prepullimage lib d policy image (node ∷ nodes))
          s
        ≡ (ok (node ∷ nodes), s)
  unfolding Handlers.get_target_nodes build_prepullimage
  targets_kept d policy image node nodes s = refl

  -- A resource with this image is found under the name.
  abbrev pub IsStored : String → String → String → W → Type 0
  IsStored ns name image w =
      (p : PrePullImage) × ((client.get_prepullimage ns name w).0 ≡ ok p) × (p.spec.image ≡ image)

  -- A read leaves what the next read finds.
  abbrev pub KeepsReads : Type 0
  KeepsReads =
      (ns name : String) (w : W) (p : PrePullImage)
      → (client.get_prepullimage ns name w).0 ≡ ok p
      → (client.get_prepullimage ns name (client.get_prepullimage ns name w).1).0 ≡ ok p

  -- What was created is found under its name, with its image.
  abbrev pub FindsCreated : Type 0
  FindsCreated =
      (p q : PrePullImage) (w : W)
      → (client.create_prepullimage p w).0 ≡ ok q
      → IsStored p.meta.namespace p.meta.name p.spec.image (client.create_prepullimage p w).1

  -- A call that ends without an error leaves the resource stored.
  abbrev Stores : String → String → String → Option ApiError × Sys W → Type 0
  Stores ns name image r = r.0 ≡ none → IsStored ns name image r.1.world

  create_new-Stores :
      (p : PrePullImage) (s : Sys W)
      → FindsCreated
      → Stores p.meta.namespace p.meta.name p.spec.image (create_new client lib p s)
  create_new-Stores p s creates = elim (Outcome-cases (client.create_prepullimage p s.world).0) [
    | inl (q, e) ↦
        subst (Stores p.meta.namespace p.meta.name p.spec.image) (sym (made q e))
          (λ _. creates p q s.world e)
    | inr (x, e) ↦ λ h. absurd (failed x e h)
  ]
    where
      made :
          (q : PrePullImage)
          → (client.create_prepullimage p s.world).0 ≡ ok q
          → create_new client lib p s
            ≡ (none, record s { world = (client.create_prepullimage p s.world).1 })
      made q e = unfold create_new in ground arith

      failed :
          (x : ApiError)
          → (client.create_prepullimage p s.world).0 ≡ err x
          → (create_new client lib p s).0 ≢ none
      failed x e = unfold create_new in ground arith

  replace-Stores :
      (old p : PrePullImage) (s : Sys W)
      → FindsCreated
      → Stores p.meta.namespace p.meta.name p.spec.image (replace client lib old p s)
  replace-Stores old p s creates = elim (Outcome-cases (client.delete_prepullimage old s.world).0) [
    | inl (u, e) ↦
        subst (Stores p.meta.namespace p.meta.name p.spec.image) (sym (deleted u e))
          (create_new-Stores p _ creates)
    | inr (x, e) ↦ λ h. absurd (failed x e h)
  ]
    where
      deleted :
          (u : Unit {0})
          → (client.delete_prepullimage old s.world).0 ≡ ok u
          → replace client lib old p s
            ≡ create_new client lib p
                (record s { world = (client.delete_prepullimage old s.world).1 })
      deleted u e = unfold replace in ground arith

      failed :
          (x : ApiError)
          → (client.delete_prepullimage old s.world).0 ≡ err x
          → (replace client lib old p s).0 ≢ none
      failed x e = unfold replace in ground arith

  module _ (d : Deployment) (policy : PrePullPolicy) (image : String) (targets : List String)
      (s : Sys W) where
    -- The name that is asked for, what was found under it, the resource to store, and what is to hold.
    abbrev pub name : String
    name = generate_prepullimage_name lib d.meta.name image

    abbrev pub got : Outcome PrePullImage
    got = (client.get_prepullimage d.meta.namespace name s.world).0

    abbrev pub after_get : Sys W
    after_get = record s { world = (client.get_prepullimage d.meta.namespace name s.world).1 }

    abbrev pub ppi : PrePullImage
    ppi = build_prepullimage lib d policy image targets

    abbrev Good : Option ApiError × Sys W → Type 0
    Good = Stores d.meta.namespace name image

    pub create-present :
        (old : PrePullImage)
        → got ≡ ok old
        → str_eq old.spec.image image ≡ true
        → create_prepullimage client lib d policy image targets s ≡ (none, after_get)
    unfolding create_prepullimage
    create-present old e same = ground arith

    pub create-changed :
        (old : PrePullImage)
        → got ≡ ok old
        → str_eq old.spec.image image ≡ false
        → create_prepullimage client lib d policy image targets s
          ≡ replace client lib old ppi after_get
    unfolding create_prepullimage
    create-changed old e other = ground arith

    pub create-absent :
        (x : ApiError)
        → got ≡ err x
        → x.reason ≡ Reason.not_found
        → create_prepullimage client lib d policy image targets s
          ≡ create_new client lib ppi after_get
    unfolding create_prepullimage
    create-absent x e missing = ground arith

    pub create-failed :
        (x : ApiError)
        → got ≡ err x
        → x.reason ≢ Reason.not_found
        → (create_prepullimage client lib d policy image targets s).0 ≢ none
    unfolding create_prepullimage
    create-failed x e broken = ground arith

    -- Where reads change nothing that is read, and what was created is found, `createPrePullImage`
    -- returns no error only if afterwards the deployment's namespace has a PrePullImage for this image
    -- under the generated name.
    pub create_prepullimage-IsStored :
        KeepsReads
        → FindsCreated
        → (create_prepullimage client lib d policy image targets s).0 ≡ none
        → IsStored d.meta.namespace
            (generate_prepullimage_name lib d.meta.name image)
            image
            (create_prepullimage client lib d policy image targets s).1.world
    unfolding build_prepullimage
    create_prepullimage-IsStored reads creates = elim (Outcome-cases got) [
      | inl (old, e) ↦ elim (Bool-cases (str_eq old.spec.image image)) [
        | inl same ↦
            subst Good (sym (create-present old e same))
              (λ _. (old, reads _ _ s.world old e, (eq_iff _ _).0 same))
        | inr other ↦
            subst Good (sym (create-changed old e other)) (replace-Stores old ppi after_get creates)
      ]
      | inr (x, e) ↦ elim (Reason-cases x.reason) [
        | inl missing ↦
            subst Good (sym (create-absent x e missing)) (create_new-Stores ppi after_get creates)
        | inr broken ↦ λ h. absurd (create-failed x e broken h)
      ]
    ]
