-- ===== src/Policy.antt =====
-- internal/controller/prepullpolicy_controller.go: the controller that counts the deployments of a
-- policy.
pub mod Count
pub mod Report
use kwarm.Base.{
  ℕ, ◌+◌, ◌*◌, ◌^◌, Bool, true, false, String, List, [], ◌∷◌, Option, none, some, str_eq, to_int32,
  if◌then◌else◌, count_p,
}
use kwarm.Kube.{Condition, Deployment}
use kwarm.Api.{PolicySelector, PrePullPolicy, PrePullPolicyStatus}
use kwarm.Metrics.{set_watched_deployments, record_reconcile}
use kwarm.Cluster.{
  ApiError, Reason, Outcome, ok, err, Client, Library, Reply, finished, requeue_in, failing, M,
  ◌>>=◌, ◌>>◌, return, call, measure,
}
use kwarm.Deploy.Match.{is_empty, deployment_matches_selector}

-- `if ns != "" { … client.InNamespace(ns) }`
abbrev pub scope : String → Option String
scope ns = if str_eq ns "" then none else some ns

-- The namespaces to search; "" stands for all.
abbrev pub searched : PolicySelector → List String
searched selector = if is_empty selector.namespaces then "" ∷ [] else selector.namespaces

module _ {W : Type 0} (client : Client W) (lib : Library) where
  -- The loop of `countMatchingDeployments`, with `count` so far.
  unfoldable pub count_from : PolicySelector → List String → ℕ → M W (Outcome ℕ)
  count_from selector [] count = return (ok count)
  count_from selector (ns ∷ rest) count = do
    listed ← call (client.list_deployments (scope ns))
    elim listed [
      | err e ↦ return (err e)
      | ok ds ↦
          count_from selector rest
            (count + count_p (λ d. deployment_matches_selector lib d selector) ds)
    ]

  unfoldable pub count_matching_deployments : PrePullPolicy → M W (Outcome ℕ)
  count_matching_deployments policy =
      count_from policy.spec.selector (searched policy.spec.selector) 0

  unfoldable pub set_condition :
      PrePullPolicy → PrePullPolicyStatus → String → String → String → M W PrePullPolicyStatus
  set_condition policy st status reason message = do
    now ← call client.now
    let condition : Condition = record {
      kind = "Ready";
      status = status;
      observed_generation = policy.meta.generation;
      last_transition_time = now;
      reason = reason;
      message = message;
    }
    return (record st { conditions = lib.set_status_condition st.conditions condition })

  -- The count has failed: the condition says so, and the error is returned.
  unfoldable pub report_error : PrePullPolicy → ApiError → M W Reply
  report_error policy e = do
    st ← set_condition policy policy.status "False" "Error" e.message
    _ ← call (client.update_policy_status (record policy { status = st }))
    return (failing e)

  -- The status to store after a count.
  unfoldable pub counted_status : PrePullPolicy → ℕ → M W PrePullPolicyStatus
  counted_status policy count = do
    now ← call client.now
    let st = policy.status
    set_condition policy
        (record st { watched_deployments = to_int32 count; last_updated = some now }) "True"
        "Reconciled" "Policy is active"

  unfoldable pub report_count : PrePullPolicy → ℕ → M W Reply
  report_count policy count = do
    st ← counted_status policy count
    updated ← call (client.update_policy_status (record policy { status = st }))
    elim updated [
      | err e ↦ return (failing e)
      | ok _ ↦ do measure (set_watched_deployments count); return (requeue_in (300 * 10 ^ 9))
    ]

  unfoldable pub reconcile_found : PrePullPolicy → M W Reply
  reconcile_found policy = do
    counted ← count_matching_deployments policy
    elim counted [ ok count ↦ report_count policy count | err e ↦ report_error policy e ]

  unfoldable pub reconcile : String → M W Reply
  reconcile name = do
    start ← call client.now
    got ← call (client.get_policy name)
    reply ← elim got [
      | ok policy ↦ reconcile_found policy
      | err e ↦ elim e.reason [ Reason.not_found ↦ return finished | _ ↦ return (failing e) ]
    ]
    end ← call client.now
    measure (record_reconcile "prepullpolicy" "success" start end)
    return reply
