-- ===== src/Examples/Deploys.antt =====
-- The controllers of deployments and policies at concrete inputs.
use text.Mathlib.TextEquality.{eq_iff}
use kwarm.Base.{
  ◌*◌, ◌^◌, ◌%◌, ◌≡◌, ◌≢◌, ◌↔◌, refl, inl, inr, concat, String, [], ◌∷◌, some, Elem, find, assign,
  count_p, arith,
}
use kwarm.Kube.{Container}
use kwarm.Api.{PrePullPolicy}
use kwarm.Cluster.{ok, err, requeue_in, finished, failing}
use kwarm.Deploy.Images.{extract_images, get_last_images, find_changed_images, annotate}
use kwarm.Deploy.Match.{contains, deployment_matches_policy}
use kwarm.Deploy.Changes.{find_changed_images-mem, annotated_unchanged}
use kwarm.Deploy.Recorded.{IsRecorded}
use kwarm.Deploy.Current.{image_of, init_container_hides}
use kwarm.Deploy.Handlers.{reconcile_found}
use kwarm.Deploy.Idle.{reconcile_found-annotate}
use kwarm.Policy
use kwarm.Policy.{count_matching_deployments, counted_status}
use kwarm.Policy.Report.{watched_gauge, watched_gauge-reconcile_found}
use kwarm.Policy.Count.{count_matching_deployments-count, namespace_counted_twice}
use kwarm.Examples.World.{client, lib, shop, container, policy, sys}

find_changed_images-mem_example :
    Elem "web:2" (find_changed_images (get_last_images lib shop) (extract_images shop))
    ↔ ((name : String) × (image_of shop name ≡ some "web:2") × (¬ IsRecorded lib shop name "web:2"))
find_changed_images-mem_example = find_changed_images-mem lib shop "web:2"

braces_ne : ◌≢◌ {A = String} "{}" ""
braces_ne p = ground (arith, eq_iff "{}" "")

annotated_unchanged_example :
    let d = annotate shop "{}" in
    find_changed_images (get_last_images lib d) (extract_images d) ≡ []
unfolding extract_images assign
annotated_unchanged_example =
    annotated_unchanged lib shop "{}" (("web", "web:2") ∷ (("init-db", "db:1") ∷ [])) braces_ne refl
      (λ name. refl)

reconcile_found-annotate_example : reconcile_found client lib (annotate shop "{}") sys ≡ (
  (elim (client.list_policies sys.world).0 [ ok _ ↦ finished | err e ↦ failing e ]),
  record sys { world = (client.list_policies sys.world).1 },
)
unfolding extract_images assign
reconcile_found-annotate_example = reconcile_found-annotate client lib shop "{}" sys braces_ne refl

-- The init container "db" hides the container "init-db".
init_container_hides_example :
    (j : Container) × Elem j shop.init_containers
    × (concat ("init-" ∷ (j.name ∷ [])) ≡ "init-db")
    × (find "init-db" (extract_images shop) ≡ some j.image)
init_container_hides_example =
    init_container_hides shop (container "init-db" "cache:1") (container "db" "db:1")
      (inr (inl refl)) (inl refl) refl

count_matching_deployments-count_example :
    (count_matching_deployments client lib policy sys).0
    ≡ ok (count_p (λ d. deployment_matches_policy lib d policy) (shop ∷ []))
unfolding contains
count_matching_deployments-count_example =
    count_matching_deployments-count client lib policy (shop ∷ []) sys (λ at w. refl)
      (refl, refl, tt)

-- The policy lists its namespace twice.
abbrev doubled : PrePullPolicy
doubled =
    let spec = policy.spec in
    record policy {
      spec = record spec {
        selector = record {
          match_labels = ("app", "shop") ∷ [];
          namespaces = "shop" ∷ ("shop" ∷ []);
        };
      };
    }

namespace_counted_twice_example :
    (count_matching_deployments client lib doubled sys).0
    ≡ ok (2 * count_p (λ d. deployment_matches_policy lib d doubled) (shop ∷ []))
namespace_counted_twice_example =
    namespace_counted_twice client lib doubled "shop" (shop ∷ []) sys (λ at w. refl) refl refl

watched_gauge-reconcile_found_example :
    let n = count_p (λ d. deployment_matches_policy lib d policy) (shop ∷ []) in
    let c =
      counted_status client lib policy n (count_matching_deployments client lib policy sys).1 in
    let u = client.update_policy_status (record policy { status = c.0 }) c.1.world in
    let r = Policy.reconcile_found client lib policy sys in
    (c.0.watched_deployments ≡ n % 2 ^ 32)
    × (r.1.world ≡ u.1)
    × (r.0 ≡ (elim u.0 [ ok _ ↦ requeue_in (300 * 10 ^ 9) | err x ↦ failing x ]))
    × (watched_gauge r.1.metrics ≡ (elim u.0 [ ok _ ↦ some n | err _ ↦ watched_gauge sys.metrics ]))
unfolding contains
watched_gauge-reconcile_found_example =
    watched_gauge-reconcile_found client lib policy (shop ∷ []) sys (λ at w. refl) (refl, refl, tt)
