-- ===== src/Policy/Report.antt =====
-- What a reconcile of a policy reports.
use kwarm.Base.{
  ℕ, ◌+◌, ◌*◌, ◌^◌, ◌%◌, ◌≡◌, refl, inl, inr, String, List, [], ◌∷◌, Option, none, some, count_p,
  arith,
}
use kwarm.Kube.{Deployment}
use kwarm.Api.{PolicySelector, PrePullPolicy}
use kwarm.Metrics.{Metrics, watched_deployments_set, set_watched_deployments}
use kwarm.Cluster.{ok, err, Outcome-cases, requeue_in, failing, Sys, Client, Library}
use kwarm.Deploy.Match.{deployment_matches_selector, deployment_matches_policy}
use kwarm.Policy.{
  scope, count_matching_deployments, count_from, set_condition, counted_status, report_count,
  reconcile_found,
}
use kwarm.Policy.Count.{restrict, IsProper, count_matching_deployments-count}

-- What the gauge of the watched deployments shows: the number that was set last.
unfoldable pub watched_gauge : Metrics → Option ℕ
watched_gauge [] = none
watched_gauge (watched_deployments_set count ∷ m) = some count
watched_gauge (_ ∷ m) = watched_gauge m

module _ {W : Type 0} (client : Client W) (lib : Library) where
  count_from_metrics :
      (selector : PolicySelector) (namespaces : List String) (count : ℕ) (s : Sys W)
      → (count_from client lib selector namespaces count s).1.metrics ≡ s.metrics
  unfolding count_from
  count_from_metrics selector [] count s = refl
  count_from_metrics selector (ns ∷ rest) count s =
      let r = client.list_deployments (scope ns) s.world in
      elim (Outcome-cases r.0) [
        | inl (ds, e) ↦ ground (
          arith,
          count_from_metrics selector rest
              (count + count_p (λ d. deployment_matches_selector lib d selector) ds)
              (record s { world = r.1 }),
        )
        | inr (x, e) ↦ ground arith
      ]

  count_matching_deployments_metrics :
      (policy : PrePullPolicy) (s : Sys W)
      → (count_matching_deployments client lib policy s).1.metrics ≡ s.metrics
  unfolding count_matching_deployments
  count_matching_deployments_metrics policy s = count_from_metrics policy.spec.selector _ 0 s

  reconcile_found-counted :
      (policy : PrePullPolicy) (n : ℕ) (s : Sys W)
      → (count_matching_deployments client lib policy s).0 ≡ ok n
      → reconcile_found client lib policy s
        ≡ report_count client lib policy n (count_matching_deployments client lib policy s).1
  unfolding reconcile_found
  reconcile_found-counted policy n s e = ground (arith, e)

  report_count-watched :
      (policy : PrePullPolicy) (n : ℕ) (m : Metrics) (t : Sys W)
      → t.metrics ≡ m
      → let c = counted_status client lib policy n t in
        let u = client.update_policy_status (record policy { status = c.0 }) c.1.world in
        let r = report_count client lib policy n t in
        (c.0.watched_deployments ≡ n % 2 ^ 32)
        × (r.1.world ≡ u.1)
        × (r.0 ≡ (elim u.0 [ ok _ ↦ requeue_in (300 * 10 ^ 9) | err x ↦ failing x ]))
        × (watched_gauge r.1.metrics ≡ (elim u.0 [ ok _ ↦ some n | err _ ↦ watched_gauge m ]))
  unfolding report_count counted_status set_condition set_watched_deployments watched_gauge
  report_count-watched policy n m t kept =
      let c = counted_status client lib policy n t in
      elim (Outcome-cases
        (client.update_policy_status (record policy { status = c.0 }) c.1.world).0) [
          | inl (q, e) ↦ ground (arith, e)
          | inr (x, e) ↦ ground (arith, e, kept)
        ]

  -- Where a listing of one namespace gives its deployments and a listing of all gives all, and the
  -- policy lists no namespace twice and no empty one, a reconcile hands to the API server a status
  -- with the number of the deployments that the deployment controller would match with this policy,
  -- modulo 2 ^ 32. When this is accepted, the one gauge of the watched deployments shows this number,
  -- whatever it showed before, and the next reconcile is due after five minutes; otherwise the error
  -- is returned and the gauge stays.
  pub watched_gauge-reconcile_found :
      (policy : PrePullPolicy) (all : List Deployment) (s : Sys W)
      → ((at : Option String) (w : W) → (client.list_deployments at w).0 ≡ ok (restrict at all))
      → IsProper policy.spec.selector.namespaces
      → let n = count_p (λ d. deployment_matches_policy lib d policy) all in
        let c =
          counted_status client lib policy n (count_matching_deployments client lib policy s).1 in
        let u = client.update_policy_status (record policy { status = c.0 }) c.1.world in
        let r = reconcile_found client lib policy s in
        (c.0.watched_deployments ≡ n % 2 ^ 32)
        × (r.1.world ≡ u.1)
        × (r.0 ≡ (elim u.0 [ ok _ ↦ requeue_in (300 * 10 ^ 9) | err x ↦ failing x ]))
        × (watched_gauge r.1.metrics
            ≡ (elim u.0 [ ok _ ↦ some n | err _ ↦ watched_gauge s.metrics ]))
  watched_gauge-reconcile_found policy all s served proper =
      let n = count_p (λ d. deployment_matches_policy lib d policy) all in
      let counted = count_matching_deployments-count client lib policy all s served proper in
      let kept = count_matching_deployments_metrics policy s in
      rw (reconcile_found-counted policy n s counted) (
        report_count-watched policy n s.metrics (count_matching_deployments client lib policy s).1
          kept)
