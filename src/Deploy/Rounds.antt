-- ===== src/Deploy/Rounds.antt =====
-- The loop of the deployment controller over the changed images: what each round makes of the resource
-- for its image holds at the end.
use text.Mathlib.TextEquality.{eq_iff}
use kwarm.Base.{
  ◌≡◌, refl, sym, subst, ap, ◌∙◌, ◌⊎◌, inl, inr, Bool-cases, String, List, [], ◌∷◌, Elem, Option,
  none, some, str_eq, arith,
}
use kwarm.Kube.{Deployment}
use kwarm.Api.{PrePullImage, PrePullPolicy}
use kwarm.Cluster.{ApiError, Sys, Client, Library}
use kwarm.Deploy.Images.{generate_prepullimage_name}
use kwarm.Deploy.Handlers.{build_prepullimage, create_prepullimage, create_all, pull_triggered}
use kwarm.Deploy.Storage.{Storage}
use kwarm.Deploy.Complete.{IsThere, create_prepullimage_keeps, create_prepullimage-cases}

module _ {W : Type 0} (client : Client W) (lib : Library)
    {image_at : String → String → W → Option PrePullImage} (storage : Storage client image_at)
    (d : Deployment) (policy : PrePullPolicy) (targets : List String) where
  abbrev pub name_of : String → String
  name_of image = generate_prepullimage_name lib d.meta.name image

  -- The resource that is stored for an image.
  abbrev pub stored : String → W → Option PrePullImage
  stored image w = image_at d.meta.namespace (name_of image) w

  -- The images of a list have names of their own.
  abbrev pub NamesApart : List String → Type 0
  NamesApart images = (i j : String) → Elem i images → Elem j images → name_of i ≡ name_of j → i ≡ j

  -- The system after the round for one image.
  abbrev after : String → Sys W → Sys W
  after image s =
      let s' = (create_prepullimage client lib d policy image targets s).1 in
      record s' { events = pull_triggered d image ∷ s'.events }

  create_all-round :
      (image : String) (images : List String) (s : Sys W)
      → (create_all client lib d policy (image ∷ images) targets s).0 ≡ none
      → ((create_prepullimage client lib d policy image targets s).0 ≡ none)
        × (create_all client lib d policy (image ∷ images) targets s
            ≡ create_all client lib d policy images targets (after image s))
  unfolding create_all
  create_all-round image images s e = ground arith

  -- What a round needs of the resource for its image, and what it makes of it.
  pub record Round (Needs Makes : String → Option PrePullImage → Type 0) : Type 0 where
    pub again : (image : String) (o : Option PrePullImage) → Makes image o → Needs image o
    pub makes :
        (image : String) (s : Sys W)
        → Needs image (stored image s.world)
        → (create_prepullimage client lib d policy image targets s).0 ≡ none
        → Makes image
            (stored image (create_prepullimage client lib d policy image targets s).1.world)

  module _ {Needs Makes : String → Option PrePullImage → Type 0} (round : Round Needs Makes) where
    -- The round of another image, or of the same, keeps what is needed and what is made.
    round_keeps :
        (P : String → Option PrePullImage → Type 0)
        → ((i : String) (o : Option PrePullImage) → P i o → Needs i o)
        → ((i : String) (o : Option PrePullImage) → Makes i o → P i o)
        → (image other : String) (s : Sys W) → (name_of other ≡ name_of image → other ≡ image)
        → (create_prepullimage client lib d policy other targets s).0 ≡ none
        → P image (stored image s.world)
        → P image (stored image (after other s).world)
    round_keeps P to from image other s apart e h =
        elim (Bool-cases (str_eq (name_of other) (name_of image))) [
          | inl same ↦
              let eq = apart ((eq_iff (name_of other) (name_of image)).0 same) in
              subst (λ i. P i (stored i (after other s).world)) eq
                (from other _ (
                  round.makes other s
                    (subst (λ i. Needs i (stored i s.world)) (sym eq) (to image _ h)) e))
          | inr different ↦
              subst (P image)
                (sym (
                  create_prepullimage_keeps client lib storage d policy other targets
                    d.meta.namespace (name_of image) s (ground (arith, different))))
                h
        ]

    create_all-keeps :
        (image : String) (images : List String) (s : Sys W)
        → ((other : String) → Elem other images → name_of other ≡ name_of image → other ≡ image)
        → (create_all client lib d policy images targets s).0 ≡ none
        → Makes image (stored image s.world)
        → Makes image (stored image (create_all client lib d policy images targets s).1.world)
    create_all-keeps image [] s apart e h = unfold create_all in h
    create_all-keeps image (other ∷ images) s apart e h =
        let next = create_all-round other images s e in
        subst (λ (r : Option ApiError × Sys W). Makes image (stored image r.1.world)) (sym next.1)
          (create_all-keeps image images (after other s) (λ o p. apart o (inr p))
            (ap (λ (r : Option ApiError × Sys W). r.0) (sym next.1) ∙ e)
            (round_keeps Makes round.again (λ i o m. m) image other s (apart other (inl refl))
              next.0 h))

    -- A loop without an error has made it for every image.
    pub create_all-Makes :
        (images : List String) (s : Sys W)
        → NamesApart images
        → ((i : String) → Elem i images → Needs i (stored i s.world))
        → (create_all client lib d policy images targets s).0 ≡ none
        → (image : String) → Elem image images
        → Makes image (stored image (create_all client lib d policy images targets s).1.world)
    create_all-Makes [] s apart needs e image found = absurd found
    create_all-Makes (other ∷ images) s apart needs e image found =
        let next = create_all-round other images s e in
        let e' = ap (λ (r : Option ApiError × Sys W). r.0) (sym next.1) ∙ e in
        let goal = λ (r : Option ApiError × Sys W). Makes image (stored image r.1.world) in
        elim found [
          | inl same ↦ subst goal (sym next.1) (
              create_all-keeps image images (after other s)
                (λ o p n. apart o image (inr p) (inl same) n) e'
                (subst (λ i. Makes i (stored i (after other s).world)) same
                  (round.makes other s (needs other (inl refl)) next.0)))
          | inr later ↦ subst goal (sym next.1) (
              create_all-Makes images (after other s) (λ i j p q. apart i j (inr p) (inr q))
                (λ i p.
                  round_keeps Needs (λ i o n. n) round.again i other s
                    (apart other i (inl refl) (inr p)) next.0 (needs i (inr p)))
                e' image later)
        ]

  -- Whatever was stored, afterwards there is a resource with the image.
  abbrev pub HasImage : String → Option PrePullImage → Type 0
  HasImage image o = (q : PrePullImage) × (o ≡ some q) × (q.spec.image ≡ image)

  pub image_round : Round (λ _ _. Unit {0}) HasImage
  unfolding build_prepullimage
  image_round = record {
    again = λ image o m. tt;
    makes = λ image s n e.
        elim (create_prepullimage-cases client lib storage d policy image targets s e) [
          | inl (old, was, is, same) ↦ (old, is, same)
          | inr (q, is, c) ↦ (q, is, ap (λ spec. spec.image) c.same_spec)
        ];
  }

  -- Where nothing was stored, afterwards there is a resource that was created for these nodes.
  abbrev pub IsNew : String → Option PrePullImage → Type 0
  IsNew image = IsThere client lib storage (build_prepullimage lib d policy image targets)

  pub absent_round : Round (λ image o. (o ≡ none) ⊎ IsNew image o) IsNew
  absent_round = record {
    again = λ image o m. inr m;
    makes = λ image s n e.
        elim (create_prepullimage-cases client lib storage d policy image targets s e) [
          | inr created ↦ created
          | inl (old, was, is, same) ↦ elim n [
            | inl nothing ↦ absurd (ground (arith, was, nothing))
            | inr (q, there, c) ↦ (q, is ∙ sym was ∙ there, c)
          ]
        ];
  }
