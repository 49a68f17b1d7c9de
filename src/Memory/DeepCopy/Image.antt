-- ===== src/Memory/DeepCopy/Image.antt =====
-- api/v1alpha1/zz_generated.deepcopy.go, the PrePullImage: `DeepCopyInto`, which copies the struct and
-- then what its pointers, slices and maps refer to, and `DeepCopy` of every type.
use kwarm.Base.{Option, none, some}
use kwarm.Api.{PullSummary, RetryPolicy}
use kwarm.Memory.Copier.{Mem, Place, ◌>>=◌, return, into_new, each}
use kwarm.Memory.Types
use kwarm.Memory.Types.{External, in_memory}

-- A pointer that may be nil.
abbrev pub Pointer : Type 0 → Type 0
Pointer A = Option (Place A)

-- The copy of a `*metav1.Time` that may be nil.
abbrev pub optional : {A : Type 0} → (A → Mem A) → Option A → Mem (Option A)
optional into none = return none
optional into (some x) = do y ← into x; return (some y)

module _ (X : External) where
  unfoldable pub pull_summary_deep_copy_into : PullSummary → Mem PullSummary
  pull_summary_deep_copy_into x = return x

  abbrev pub pull_summary_deep_copy : Pointer PullSummary → Mem (Pointer PullSummary)
  pull_summary_deep_copy = into_new pull_summary_deep_copy_into

  unfoldable pub retry_policy_deep_copy_into : RetryPolicy → Mem RetryPolicy
  retry_policy_deep_copy_into x = return x

  abbrev pub retry_policy_deep_copy : Pointer RetryPolicy → Mem (Pointer RetryPolicy)
  retry_policy_deep_copy = into_new retry_policy_deep_copy_into

  unfoldable pub node_target_selector_deep_copy_into :
      Types.NodeTargetSelector (in_memory X) → Mem (Types.NodeTargetSelector (in_memory X))
  node_target_selector_deep_copy_into x = do
    new_selector ← into_new X.label_selector_deep_copy.copy x.selector
    new_names ← into_new return x.names
    return (record x { selector = new_selector; names = new_names })

  abbrev pub node_target_selector_deep_copy :
      Pointer (Types.NodeTargetSelector (in_memory X))
      → Mem (Pointer (Types.NodeTargetSelector (in_memory X)))
  node_target_selector_deep_copy = into_new node_target_selector_deep_copy_into

  unfoldable pub prepull_image_spec_deep_copy_into :
      Types.PrePullImageSpec (in_memory X) → Mem (Types.PrePullImageSpec (in_memory X))
  prepull_image_spec_deep_copy_into x = do
    new_nodes ← node_target_selector_deep_copy_into x.nodes
    new_image_pull_secrets ← into_new return x.image_pull_secrets
    new_resources ← X.resources_deep_copy.copy x.resources
    return (record x {
      nodes = new_nodes;
      image_pull_secrets = new_image_pull_secrets;
      resources = new_resources;
    })

  abbrev pub prepull_image_spec_deep_copy :
      Pointer (Types.PrePullImageSpec (in_memory X))
      → Mem (Pointer (Types.PrePullImageSpec (in_memory X)))
  prepull_image_spec_deep_copy = into_new prepull_image_spec_deep_copy_into

  unfoldable pub node_status_deep_copy_into :
      Types.NodeStatus (in_memory X) → Mem (Types.NodeStatus (in_memory X))
  node_status_deep_copy_into x = do
    new_started_at ← optional X.time_deep_copy.copy x.started_at
    new_completed_at ← optional X.time_deep_copy.copy x.completed_at
    return (record x { started_at = new_started_at; completed_at = new_completed_at })

  abbrev pub node_status_deep_copy :
      Pointer (Types.NodeStatus (in_memory X)) → Mem (Pointer (Types.NodeStatus (in_memory X)))
  node_status_deep_copy = into_new node_status_deep_copy_into

  unfoldable pub prepull_image_status_deep_copy_into :
      Types.PrePullImageStatus (in_memory X) → Mem (Types.PrePullImageStatus (in_memory X))
  prepull_image_status_deep_copy_into x = do
    new_node_status ← into_new (each node_status_deep_copy_into) x.node_status
    new_conditions ← into_new (each X.condition_deep_copy.copy) x.conditions
    new_start_time ← optional X.time_deep_copy.copy x.start_time
    new_completion_time ← optional X.time_deep_copy.copy x.completion_time
    return (record x {
      node_status = new_node_status;
      conditions = new_conditions;
      start_time = new_start_time;
      completion_time = new_completion_time;
    })

  abbrev pub prepull_image_status_deep_copy :
      Pointer (Types.PrePullImageStatus (in_memory X))
      → Mem (Pointer (Types.PrePullImageStatus (in_memory X)))
  prepull_image_status_deep_copy = into_new prepull_image_status_deep_copy_into

  unfoldable pub prepull_image_deep_copy_into :
      Types.PrePullImage (in_memory X) → Mem (Types.PrePullImage (in_memory X))
  prepull_image_deep_copy_into x = do
    new_meta ← X.object_meta_deep_copy.copy x.meta
    new_spec ← prepull_image_spec_deep_copy_into x.spec
    new_status ← prepull_image_status_deep_copy_into x.status
    return (record x { meta = new_meta; spec = new_spec; status = new_status })

  abbrev pub prepull_image_deep_copy :
      Pointer (Types.PrePullImage (in_memory X)) → Mem (Pointer (Types.PrePullImage (in_memory X)))
  prepull_image_deep_copy = into_new prepull_image_deep_copy_into

  unfoldable pub prepull_image_list_deep_copy_into :
      Types.PrePullImageList (in_memory X) → Mem (Types.PrePullImageList (in_memory X))
  prepull_image_list_deep_copy_into x = do
    new_meta ← X.list_meta_deep_copy.copy x.meta
    new_items ← into_new (each prepull_image_deep_copy_into) x.items
    return (record x { meta = new_meta; items = new_items })

  abbrev pub prepull_image_list_deep_copy :
      Pointer (Types.PrePullImageList (in_memory X))
      → Mem (Pointer (Types.PrePullImageList (in_memory X)))
  prepull_image_list_deep_copy = into_new prepull_image_list_deep_copy_into
