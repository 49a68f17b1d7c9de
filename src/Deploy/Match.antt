-- ===== src/Deploy/Match.antt =====
-- Which deployments a policy selects: `deploymentMatchesPolicy` of deployment_controller.go, and
-- `deploymentMatchesSelector` and the count of prepullpolicy_controller.go.
use kwarm.Base.{Bool, true, false, String, List, [], ◌∷◌, str_eq, if◌then◌else◌}
use kwarm.Kube.{Deployment}
use kwarm.Api.{PolicySelector, PrePullPolicy}
use kwarm.Cluster.{Library}

-- `len(l) == 0`
abbrev pub is_empty : {A : Type 0} → List A → Bool
is_empty [] = true
is_empty (_ ∷ _) = false

-- The loop over the namespaces, up to its `break`.
unfoldable pub contains : List String → String → Bool
contains [] ns = false
contains (n ∷ rest) ns = if str_eq n ns then true else contains rest ns

unfoldable pub deployment_matches_selector : Library → Deployment → PolicySelector → Bool
deployment_matches_selector lib d selector =
    if is_empty selector.match_labels
    then false
    else lib.selector_matches selector.match_labels d.meta.labels

unfoldable pub deployment_matches_policy : Library → Deployment → PrePullPolicy → Bool
deployment_matches_policy lib d policy =
    let selector = policy.spec.selector in
    let labels =
      if is_empty selector.match_labels
      then false
      else lib.selector_matches selector.match_labels d.meta.labels in
    if is_empty selector.namespaces
    then labels
    else if contains selector.namespaces d.meta.namespace
    then labels
    else false
