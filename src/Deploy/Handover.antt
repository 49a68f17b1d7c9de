-- ===== src/Deploy/Handover.antt =====
-- How the two controllers meet: the life of a PrePullImage from the change of an image to its end.
use kwarm.Base.{
  ℕ, ◌+◌, ◌*◌, ◌^◌, ◌≤◌, ◌<◌, ◌≡◌, refl, sym, subst, ap, ◌∙◌, inl, true, String, List, [], ◌∷◌,
  Elem, length, some, none, arith,
}
use kwarm.Kube.{Deployment}
use kwarm.Api.{PrePullImage, PrePullPolicy}
use kwarm.Cluster.{ok, Sys, Client, Library}
use kwarm.RateLimiter.Bounds.{IsValid}
use kwarm.RateLimiter.Slots.{Holds}
use kwarm.PullImage.Effort.{EndsJobs, MakesJobs}
use kwarm.PullImage.Stored.{ImageStore}
use kwarm.PullImage.Reconciles.{IsClosed, reconciles}
use kwarm.PullImage.Termination.{Closes, reconciles-IsClosed}
use kwarm.Deploy.Images.{
  generate_prepullimage_name, find_changed_images, get_last_images, extract_images,
}
use kwarm.Deploy.Handlers.{
  default_retry, build_prepullimage, get_matching_policy, get_target_nodes, reconcile_found,
}
use kwarm.Deploy.Storage.{IsCreated, Storage}
use kwarm.Deploy.Rounds.{NamesApart}
use kwarm.Deploy.Finished.{reconcile_found_creates}
use kwarm.Deploy.Limiter.{reconcile_found_limiter}

module _ {W : Type 0} (client : Client W) (lib : Library) (store : ImageStore client) where
  open store use {image_at}

  pub max_attempts-build :
      (d : Deployment) (policy : PrePullPolicy) (image : String) (targets : List String)
      → policy.spec.retry.max_attempts < 2 ^ 31
      → let p = build_prepullimage lib d policy image targets in
        (p.spec.retry.max_attempts ≡ (default_retry policy.spec.retry).max_attempts)
        × (p.spec.retry.max_attempts < 2 ^ 31)
  unfolding build_prepullimage default_retry
  max_attempts-build d policy image targets small = (refl, ground arith)

  -- A resource that the API server made of the one that the deployment controller asked for.
  created-IsClosed :
      (d : Deployment) (policy : PrePullPolicy) (image node : String) (nodes : List String)
      (q : PrePullImage) (s : Sys W)
      → policy.spec.retry.max_attempts < 2 ^ 31
      → length (node ∷ nodes) < 2 ^ 31
      → EndsJobs client lib
      → MakesJobs client lib
      → ((l : List String) (x : String) → lib.contains_finalizer (lib.add_finalizer l x) x ≡ true)
      → IsCreated (build_prepullimage lib d policy image (node ∷ nodes)) q
      → image_at q.meta.namespace q.meta.name s.world ≡ some q
      → IsValid s.limiter
      → Holds s.limiter []
      → Closes client lib store
          (2 + length (node ∷ nodes) * (2 * ((default_retry policy.spec.retry).max_attempts + 1)))
          q.meta.namespace
          q.meta.name
          s
  created-IsClosed d policy image node nodes q s small few ends makes adds c there v h =
      let p = build_prepullimage lib d policy image (node ∷ nodes) in
      let retry = max_attempts-build d policy image (node ∷ nodes) small in
      let same = ap (λ spec. spec.retry.max_attempts) c.same_spec in
      subst
        (λ max.
          Closes client lib store (2 + length (node ∷ nodes) * (2 * (max + 1))) q.meta.namespace
            q.meta.name s)
        (same ∙ retry.0)
        (reconciles-IsClosed client lib store q node nodes s
          (subst (λ n. n < 2 ^ 31) (sym same) retry.1) few ends makes adds there c.not_deleted
          (inl c.no_phase)
          (ap (λ spec. spec.nodes.names) c.same_spec ∙ (unfold build_prepullimage in refl)) v h)

  -- From the change of an image to the end of its pull: where a policy matches the deployment, it
  -- has a ready node, no two changed images share a generated name, nothing is stored under these
  -- names, and the reconcile of the deployment ends without an error: the PrePullImage of each
  -- changed image is closed, as completed or failed, at some time within two reconciles of it and
  -- twice the attempts more for each node, where the attempts are one more than the policy's
  -- `maxAttempts`, or than 3 if it is 0. No slot is held before, nothing but this resource is
  -- reconciled after, each job that is asked for has ended or is gone, each job that is created is
  -- there afterwards, the API server stores what it is given, a finalizer that is added is found,
  -- `maxAttempts` is not negative, and there are fewer than 2 ^ 31 nodes.
  pub changed-IsClosed :
      (storage : Storage client image_at) (d : Deployment) (policy : PrePullPolicy) (node : String)
      (nodes : List String) (s : Sys W) (image : String)
      → policy.spec.retry.max_attempts < 2 ^ 31
      → length (node ∷ nodes) < 2 ^ 31
      → EndsJobs client lib
      → MakesJobs client lib
      → ((l : List String) (x : String) → lib.contains_finalizer (lib.add_finalizer l x) x ≡ true)
      → let changed = find_changed_images (get_last_images lib d) (extract_images d) in
        let ns = d.meta.namespace in
        let name = generate_prepullimage_name lib d.meta.name image in
        NamesApart client lib storage d policy (node ∷ nodes) changed
        → ((i : String)
            → Elem i changed
            → image_at ns (generate_prepullimage_name lib d.meta.name i) s.world ≡ none)
        → (get_matching_policy client lib d s).0 ≡ ok (some policy)
        → (get_target_nodes client lib policy (get_matching_policy client lib d s).1).0
          ≡ ok (node ∷ nodes)
        → (reconcile_found client lib d s).0.error ≡ none
        → Elem image changed
        → IsValid s.limiter
        → Holds s.limiter []
        → (k : ℕ) × (q : PrePullImage) × (k
            ≤ 2
              + length (node ∷ nodes) * (2 * ((default_retry policy.spec.retry).max_attempts + 1)))
          × (image_at ns name
                (reconciles client lib k ns name (reconcile_found client lib d s).1).world
              ≡ some q)
          × IsClosed q.status.phase
  changed-IsClosed storage d policy node nodes s image small few ends makes adds apart absent p t e
        found v h =
      let ns = d.meta.namespace in
      let name = generate_prepullimage_name lib d.meta.name image in
      let s' = (reconcile_found client lib d s).1 in
      let new =
        reconcile_found_creates client lib storage d policy node nodes s image apart absent p t e
          found in
      let kept = reconcile_found_limiter client lib d s in
      let q = new.0 in
      let c = new.2 in
      let same_ns : q.meta.namespace ≡ ns =
        c.same_namespace ∙ (unfold build_prepullimage in refl) in
      let same_name : q.meta.name ≡ name = c.same_name ∙ (unfold build_prepullimage in refl) in
      let bound =
        2 + length (node ∷ nodes) * (2 * ((default_retry policy.spec.retry).max_attempts + 1)) in
      let there =
        ap (λ k. image_at k q.meta.name s'.world) same_ns
        ∙ ap (λ l. image_at ns l s'.world) same_name
        ∙ new.1 in
      subst (λ k. Closes client lib store bound k name s') same_ns
        (subst (λ l. Closes client lib store bound q.meta.namespace l s') same_name
          (created-IsClosed d policy image node nodes q s' small few ends makes adds c there
            (subst IsValid (sym kept) v) (subst (λ r. Holds r []) (sym kept) h)))
