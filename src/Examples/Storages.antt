-- ===== src/Examples/Storages.antt =====
-- A deployment whose images have changed.
use text.Mathlib.TextEquality.{eq_iff}
use kwarm.Base.{
  map, pos, ◌≡◌, refl, sym, subst, ap, ◌∙◌, ◌≢◌, inl, inr, String, [], ◌∷◌, Elem, none, some, find,
  truncate, assign, arith,
}
use kwarm.Cluster.{ok}
use kwarm.Deploy.Images.{
  generate_prepullimage_name, find_changed_images, get_last_images, extract_images, store_images,
}
use kwarm.Deploy.Match.{deployment_matches_policy, contains}
use kwarm.Nodes.{ready_names, is_node_ready}
use kwarm.Deploy.Handlers.{
  reconcile_found, reconcile_changed, pull_changed, create_all, create_prepullimage, create_new,
  get_matching_policy, first_match, get_target_nodes, build_prepullimage,
  update_last_images_annotation, default_retry,
}
use kwarm.Api.{PrePullImage}
use kwarm.RateLimiter.Bounds.{new-IsValid}
use kwarm.RateLimiter.Slots.{new-Holds}
use kwarm.PullImage.Reconciles.{IsClosed}
use kwarm.Deploy.Finished.{reconcile_found_stores}
use kwarm.Deploy.Fleet.{key_for, all_changed-IsClosed}
use kwarm.PullImage.Fair.Round.{KeysApart}
use kwarm.PullImage.Fair.Rounds.{rounds}
use kwarm.Examples.World.{shop, policy}
use kwarm.Examples.Store.{lookup, images, storing_ends, storing, storage, plain, empty_store}

names_ne :
    generate_prepullimage_name plain "shop" "web:2" ≢ generate_prepullimage_name plain "shop" "db:1"
unfolding generate_prepullimage_name truncate
names_ne p = ground (arith, eq_iff "shop-web:2" "shop-db:1", p)

changed_images :
    find_changed_images (get_last_images plain shop) (extract_images shop) ≡ "web:2" ∷ ("db:1" ∷ [])
unfolding find_changed_images get_last_images extract_images assign store_images find
changed_images = refl

named :
    {x i : String}
    → x ≡ i
    → generate_prepullimage_name plain "shop" x ≡ generate_prepullimage_name plain "shop" i
named = ap (generate_prepullimage_name plain "shop")

apart :
    (i j : String)
    → Elem i ("web:2" ∷ ("db:1" ∷ []))
    → Elem j ("web:2" ∷ ("db:1" ∷ []))
    → generate_prepullimage_name plain "shop" i ≡ generate_prepullimage_name plain "shop" j
    → i ≡ j
apart i j (inl a) (inl b) e = cc
apart i j (inl a) (inr (inl b)) e = absurd (names_ne (named a ∙ e ∙ sym (named b)))
apart i j (inr (inl a)) (inl b) e = absurd (names_ne (named b ∙ sym e ∙ sym (named a)))
apart i j (inr (inl a)) (inr (inl b)) e = cc
apart i j (inl a) (inr (inr b)) e = absurd b
apart i j (inr (inl a)) (inr (inr b)) e = absurd b
apart i j (inr (inr a)) b e = absurd a

matching_policy : (get_matching_policy storing plain shop empty_store).0 ≡ ok (some policy)
unfolding get_matching_policy first_match deployment_matches_policy contains
matching_policy = refl

target_nodes :
    (get_target_nodes storing plain policy (get_matching_policy storing plain shop empty_store).1).0
    ≡ ok ("node-1" ∷ ("node-2" ∷ []))
unfolding get_matching_policy first_match deployment_matches_policy contains get_target_nodes
    ready_names is_node_ready
target_nodes = refl

reconciled : (reconcile_found storing plain shop empty_store).0.error ≡ none
unfolding get_matching_policy first_match deployment_matches_policy contains get_target_nodes
    ready_names is_node_ready find_changed_images get_last_images extract_images assign store_images
    find reconcile_found reconcile_changed pull_changed create_all create_prepullimage create_new
    lookup generate_prepullimage_name truncate build_prepullimage update_last_images_annotation
reconciled = refl

reconcile_found_stores_example :
    (q : PrePullImage) × (lookup "shop"
        (generate_prepullimage_name plain "shop" "db:1")
        (reconcile_found storing plain shop empty_store).1.world
      ≡ some q)
    × (q.spec.image ≡ "db:1")
reconcile_found_stores_example =
    reconcile_found_stores storing plain storage shop policy "node-1" ("node-2" ∷ []) empty_store
      "db:1"
      (λ i j a b. apart i j (subst (Elem i) changed_images a) (subst (Elem j) changed_images b))
      matching_policy target_nodes reconciled
      (subst (Elem "db:1") (sym changed_images) (inr (inl refl)))

keys_apart : KeysApart (
    map
      (key_for storing plain images storage shop policy "node-1" ("node-2" ∷ []))
      ("web:2" ∷ ("db:1" ∷ [])))
unfolding generate_prepullimage_name truncate
keys_apart = ((refl, tt), (tt, tt))

-- The policy leaves the attempts to the default of three: nineteen rounds for each image are enough.
all_changed-IsClosed_example :
    (q : PrePullImage) × (lookup "shop"
        (generate_prepullimage_name plain "shop" "db:1")
        (rounds storing plain images 38
          (map
            (key_for storing plain images storage shop policy "node-1" ("node-2" ∷ []))
            ("web:2" ∷ ("db:1" ∷ [])))
          (reconcile_found storing plain shop empty_store).1).world
      ≡ some q)
    × IsClosed q.status.phase
unfolding lookup default_retry
all_changed-IsClosed_example =
    all_changed-IsClosed storing plain images storage shop policy "node-1" ("node-2" ∷ [])
      empty_store ("web:2" ∷ ("db:1" ∷ [])) 38 (omega arith) (omega arith) storing_ends
      (λ job w. tt) (λ l x. refl)
      (λ i j a b. apart i j (subst (Elem i) changed_images a) (subst (Elem j) changed_images b))
      (λ i found. refl) matching_policy target_nodes reconciled
      (λ i found. subst (Elem i) (sym changed_images) found) keys_apart
      (new-IsValid (pos 2) (pos 1)) (new-Holds (pos 2) (pos 1)) (omega arith) "db:1"
      (inr (inl refl))
