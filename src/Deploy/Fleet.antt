-- ===== src/Deploy/Fleet.antt =====
-- All images of a deployment that have changed, from the change to the end of their pulls.
use kwarm.Base.{
  ℕ, ◌+◌, ◌*◌, ◌^◌, ◌≤◌, ◌<◌, ◌≡◌, refl, sym, subst, ap, ap₂, ◌∙◌, inl, inr, true, String, List, [],
  ◌∷◌, All, Elem, map, length, some, none, arith,
}
use kwarm.Kube.{Deployment}
use kwarm.Api.{PrePullImage, PrePullPolicy}
use kwarm.Cluster.{ok, Sys, Client, Library}
use kwarm.RateLimiter.Bounds.{IsValid}
use kwarm.RateLimiter.Slots.{Holds}
use kwarm.PullImage.Census.{is_pulling, tally}
use kwarm.PullImage.Effort.{EndsJobs, MakesJobs}
use kwarm.PullImage.Stored.{ImageStore}
use kwarm.PullImage.Reconciles.{IsClosed}
use kwarm.PullImage.Fair.Stage.{fresh_work}
use kwarm.PullImage.Fair.Round.{Key, key, keys_of, KeysApart}
use kwarm.PullImage.Fair.Rounds.{rounds, rounds_for, IsQueued, rounds-IsClosed}
use kwarm.Deploy.Images.{
  generate_prepullimage_name, find_changed_images, get_last_images, extract_images,
}
use kwarm.Deploy.Handlers.{
  default_retry, build_prepullimage, get_matching_policy, get_target_nodes, reconcile_found,
}
use kwarm.Deploy.Storage.{IsCreated, Storage}
use kwarm.Deploy.Complete.{IsThere}
use kwarm.Deploy.Rounds.{NamesApart}
use kwarm.Deploy.Finished.{reconcile_found_creates}
use kwarm.Deploy.Limiter.{reconcile_found_limiter}
use kwarm.Deploy.Handover.{max_attempts-build}

module _ {W : Type 0} (client : Client W) (lib : Library) (store : ImageStore client)
    (storage : Storage client store.image_at) (d : Deployment) (policy : PrePullPolicy)
    (node : String) (nodes : List String) where
  open store use {image_at}

  -- The key of the resource for an image.
  abbrev pub key_for : String → Key
  key_for image = (d.meta.namespace, generate_prepullimage_name lib d.meta.name image)

  -- The rounds that are enough for the nodes of one image.
  abbrev pub rounds_each : ℕ
  rounds_each =
      3 + length (node ∷ nodes) * (2 * ((default_retry policy.spec.retry).max_attempts + 1))

  created-IsQueued :
      (image : String) (q : PrePullImage) (w : W)
      → policy.spec.retry.max_attempts < 2 ^ 31
      → length (node ∷ nodes) < 2 ^ 31
      → IsCreated (build_prepullimage lib d policy image (node ∷ nodes)) q
      → image_at d.meta.namespace (generate_prepullimage_name lib d.meta.name image) w ≡ some q
      → IsQueued client lib store w q
        × (key q ≡ key_for image)
        × (3 + fresh_work q q.spec.nodes.names ≡ rounds_each)
  unfolding build_prepullimage tally
  created-IsQueued image q w small few c there =
      let retry = max_attempts-build client lib store d policy image (node ∷ nodes) small in
      let same = ap (λ spec. spec.retry.max_attempts) c.same_spec in
      let named = ap (λ spec. spec.nodes.names) c.same_spec in
      (
        record {
          node = node;
          nodes = nodes;
          is_waiting = record {
            new = inl c.no_phase;
            named = named;
            few = few;
            idle = ap (tally is_pulling) c.no_nodes;
          };
          not_deleted = c.not_deleted;
          small = omega (arith, same, retry.1);
          stored = ap₂ (λ k l. image_at k l w) c.same_namespace c.same_name ∙ there;
        },
        ap₂ (λ a b. (a, b)) c.same_namespace c.same_name,
        ap₂ (λ l m. 3 + length l * (2 * (m + 1))) named (same ∙ retry.0),
      )

  created_each-IsQueued :
      (images : List String) (w : W)
      → policy.spec.retry.max_attempts < 2 ^ 31
      → length (node ∷ nodes) < 2 ^ 31
      → ((i : String)
          → Elem i images
          → IsThere client lib storage
              (build_prepullimage lib d policy i (node ∷ nodes))
              (image_at d.meta.namespace (generate_prepullimage_name lib d.meta.name i) w))
      → (qs : List PrePullImage) × All (IsQueued client lib store w) qs
        × (keys_of qs ≡ map key_for images)
        × (rounds_for qs ≡ length images * rounds_each)
  unfolding rounds_for
  created_each-IsQueued [] w small few there = ([], tt, refl, omega arith)
  created_each-IsQueued (i ∷ is) w small few there =
      let q = there i (inl refl) in
      let one = created-IsQueued i q.0 w small few q.2 q.1 in
      let rest = created_each-IsQueued is w small few (λ j f. there j (inr f)) in
      (q.0 ∷ rest.0, (one.0, rest.1), ap₂ (◌∷◌) one.1 rest.2, omega (arith, one.2, rest.3))

  key_for-mem :
      (image : String) (images : List String)
      → Elem image images
      → Elem (key_for image) (map key_for images)
  key_for-mem image [] found = absurd found
  key_for-mem image (i ∷ is) (inl same) = inl (ap key_for same)
  key_for-mem image (i ∷ is) (inr later) = inr (key_for-mem image is later)

  -- Where a policy matches the deployment, it has a ready node, no two changed images share a generated
  -- name, nothing is stored under these names, and the reconcile of the deployment ends without an
  -- error: the PrePullImages of the changed images, listed once each, are all closed, as completed or
  -- failed, after rounds that reconcile each of them once, unless it is closed, by a number of rounds
  -- that is for each image three and twice the attempts for each node, where the attempts are one more
  -- than the policy's `maxAttempts`, or than 3 if it is 0. No slot is held before, no other resource is
  -- reconciled, each job that is asked for has ended or is gone, each job that is created is there
  -- afterwards, the API server stores what it is given, a finalizer that is added is found,
  -- `maxAttempts` is not negative, and there are fewer than 2 ^ 31 nodes.
  pub all_changed-IsClosed :
      (s : Sys W) (images : List String) (n : ℕ)
      → policy.spec.retry.max_attempts < 2 ^ 31
      → length (node ∷ nodes) < 2 ^ 31
      → EndsJobs client lib
      → MakesJobs client lib
      → ((l : List String) (x : String) → lib.contains_finalizer (lib.add_finalizer l x) x ≡ true)
      → let changed = find_changed_images (get_last_images lib d) (extract_images d) in
        NamesApart client lib storage d policy (node ∷ nodes) changed
        → ((i : String)
            → Elem i changed
            → image_at d.meta.namespace (generate_prepullimage_name lib d.meta.name i) s.world
              ≡ none)
        → (get_matching_policy client lib d s).0 ≡ ok (some policy)
        → (get_target_nodes client lib policy (get_matching_policy client lib d s).1).0
          ≡ ok (node ∷ nodes)
        → (reconcile_found client lib d s).0.error ≡ none
        → ((i : String) → Elem i images → Elem i changed)
        → KeysApart (map key_for images)
        → IsValid s.limiter
        → Holds s.limiter []
        → length images * rounds_each ≤ n
        → (image : String) → Elem image images
        → (q : PrePullImage) × (image_at d.meta.namespace
              (generate_prepullimage_name lib d.meta.name image)
              (rounds client lib store n
                (map key_for images)
                (reconcile_found client lib d s).1).world
            ≡ some q)
          × IsClosed q.status.phase
  all_changed-IsClosed s images n small few ends makes adds apart absent p t e within keys v h
        enough image found =
      let s' = (reconcile_found client lib d s).1 in
      let kept = reconcile_found_limiter client lib d s in
      let all = created_each-IsQueued images s'.world small few (λ i f.
        reconcile_found_creates client lib storage d policy node nodes s i apart absent p t e
          (within i f)) in
      subst
        (λ ks.
          (q : PrePullImage) × (image_at d.meta.namespace
              (generate_prepullimage_name lib d.meta.name image)
              (rounds client lib store n ks s').world
            ≡ some q)
          × IsClosed q.status.phase)
        all.2
        (rounds-IsClosed client lib store ends makes adds all.0 n s' all.1
          (subst KeysApart (sym all.2) keys) (subst IsValid (sym kept) v)
          (subst (λ r. Holds r []) (sym kept) h) (omega (arith, all.3, enough)) (key_for image)
          (subst (Elem (key_for image)) (sym all.2) (key_for-mem image images found)))
