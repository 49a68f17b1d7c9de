-- ===== src/Deploy/Idle.antt =====
-- deployment_controller.go: a reconcile of a deployment whose images were seen before.
use text.Mathlib.TextEquality.{eq_iff}
use kwarm.Base.{◌≡◌, refl, ◌≢◌, inl, inr, true, String, [], ◌∷◌, some, find, Elem, arith}
use kwarm.Kube.{StringMap, Deployment}
use kwarm.Cluster.{ok, err, Outcome-cases, Sys, Client, Library, finished, failing}
use kwarm.Deploy.Images.{
  extract_images, get_last_images, find_changed_images, images_equal, agrees, annotate,
}
use kwarm.Deploy.Changes.{
  annotated_unchanged, extract_images-IsMap, find-Elem, get_last_images-annotate,
}
use kwarm.Deploy.Handlers.{get_matching_policy, refresh, reconcile_found}

agrees-found :
    (a b : StringMap) → ((k v : String) → Elem (k, v) a → find k b ≡ some v) → agrees a b ≡ true
unfolding agrees
agrees-found [] b f = refl
agrees-found ((k, v) ∷ a) b f =
    ground (arith, f k v (inl refl), eq_iff v v, agrees-found a b (λ j w e. f j w (inr e)))

images_equal-same :
    (d : Deployment) → images_equal (some (extract_images d)) (extract_images d) ≡ true
unfolding images_equal
images_equal-same d = ground (
  arith,
  agrees-found (extract_images d) (extract_images d)
      (λ k v e. find-Elem k v (extract_images d) (extract_images-IsMap d) e),
)

module _ {W : Type 0} (client : Client W) (lib : Library) where
  unchanged-finished :
      (d : Deployment) (s : Sys W)
      → find_changed_images (get_last_images lib d) (extract_images d) ≡ []
      → images_equal (get_last_images lib d) (extract_images d) ≡ true
      → reconcile_found client lib d s ≡ (
        (elim (client.list_policies s.world).0 [ ok _ ↦ finished | err e ↦ failing e ]),
        record s { world = (client.list_policies s.world).1 },
      )
  unfolding reconcile_found get_matching_policy refresh
  unchanged-finished d s c e = elim (Outcome-cases (client.list_policies s.world).0) [
    | inl (ps, q) ↦ ground arith
    | inr (x, q) ↦ ground arith
  ]

  -- Once the annotation holds the JSON text of the deployment's current images, and that text decodes
  -- to them, a reconcile of the deployment lists the policies and does nothing else: it creates no
  -- resource and updates nothing, and its only error is that of the listing.
  pub reconcile_found-annotate :
      (d : Deployment) (text : String) (s : Sys W)
      → text ≢ ""
      → lib.unmarshal text ≡ ok (some (extract_images d))
      → reconcile_found client lib (annotate d text) s ≡ (
        (elim (client.list_policies s.world).0 [ ok _ ↦ finished | err e ↦ failing e ]),
        record s { world = (client.list_policies s.world).1 },
      )
  unfolding annotate extract_images
  reconcile_found-annotate d text s t u =
      unchanged-finished (annotate d text) s
        (annotated_unchanged lib d text (extract_images d) t u (λ name. refl))
        (rw (get_last_images-annotate lib d text (extract_images d) t u)
          (images_equal-same (annotate d text)))
