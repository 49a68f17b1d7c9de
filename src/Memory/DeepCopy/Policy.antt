-- ===== src/Memory/DeepCopy/Policy.antt =====
-- api/v1alpha1/zz_generated.deepcopy.go, the PrePullPolicy: `DeepCopyInto` and `DeepCopy` of every type.
use kwarm.Base.{[], ◌∷◌, assign}
use kwarm.Kube.{StringMap}
use kwarm.Memory.Copier.{Mem, ◌>>=◌, return, into_new, each}
use kwarm.Memory.Types
use kwarm.Memory.Types.{External, in_memory}
use kwarm.Memory.DeepCopy.Image.{Pointer, optional}

-- `for key, val := range *in { (*out)[key] = val }`
unfoldable pub copy_entries : StringMap → Mem StringMap
copy_entries [] = return []
copy_entries ((key, val) ∷ entries) = do out ← copy_entries entries; return (assign key val out)

module _ (X : External) where
  unfoldable pub policy_selector_deep_copy_into :
      Types.PolicySelector (in_memory X) → Mem (Types.PolicySelector (in_memory X))
  policy_selector_deep_copy_into x = do
    new_match_labels ← into_new copy_entries x.match_labels
    new_namespaces ← into_new return x.namespaces
    return (record x { match_labels = new_match_labels; namespaces = new_namespaces })

  abbrev pub policy_selector_deep_copy :
      Pointer (Types.PolicySelector (in_memory X))
      → Mem (Pointer (Types.PolicySelector (in_memory X)))
  policy_selector_deep_copy = into_new policy_selector_deep_copy_into

  unfoldable pub node_selector_deep_copy_into :
      Types.NodeSelector (in_memory X) → Mem (Types.NodeSelector (in_memory X))
  node_selector_deep_copy_into x = do
    new_match_labels ← into_new copy_entries x.match_labels
    return (record x { match_labels = new_match_labels })

  abbrev pub node_selector_deep_copy :
      Pointer (Types.NodeSelector (in_memory X)) → Mem (Pointer (Types.NodeSelector (in_memory X)))
  node_selector_deep_copy = into_new node_selector_deep_copy_into

  unfoldable pub image_pull_secrets_config_deep_copy_into :
      Types.ImagePullSecretsConfig (in_memory X) → Mem (Types.ImagePullSecretsConfig (in_memory X))
  image_pull_secrets_config_deep_copy_into x = do
    new_additional ← into_new return x.additional
    return (record x { additional = new_additional })

  abbrev pub image_pull_secrets_config_deep_copy :
      Pointer (Types.ImagePullSecretsConfig (in_memory X))
      → Mem (Pointer (Types.ImagePullSecretsConfig (in_memory X)))
  image_pull_secrets_config_deep_copy = into_new image_pull_secrets_config_deep_copy_into

  unfoldable pub prepull_policy_spec_deep_copy_into :
      Types.PrePullPolicySpec (in_memory X) → Mem (Types.PrePullPolicySpec (in_memory X))
  prepull_policy_spec_deep_copy_into x = do
    new_selector ← policy_selector_deep_copy_into x.selector
    new_node_selector ← node_selector_deep_copy_into x.node_selector
    new_resources ← X.resources_deep_copy.copy x.resources
    new_image_pull_secrets ← image_pull_secrets_config_deep_copy_into x.image_pull_secrets
    return (record x {
      selector = new_selector;
      node_selector = new_node_selector;
      resources = new_resources;
      image_pull_secrets = new_image_pull_secrets;
    })

  abbrev pub prepull_policy_spec_deep_copy :
      Pointer (Types.PrePullPolicySpec (in_memory X))
      → Mem (Pointer (Types.PrePullPolicySpec (in_memory X)))
  prepull_policy_spec_deep_copy = into_new prepull_policy_spec_deep_copy_into

  unfoldable pub prepull_policy_status_deep_copy_into :
      Types.PrePullPolicyStatus (in_memory X) → Mem (Types.PrePullPolicyStatus (in_memory X))
  prepull_policy_status_deep_copy_into x = do
    new_last_updated ← optional X.time_deep_copy.copy x.last_updated
    new_conditions ← into_new (each X.condition_deep_copy.copy) x.conditions
    return (record x { last_updated = new_last_updated; conditions = new_conditions })

  abbrev pub prepull_policy_status_deep_copy :
      Pointer (Types.PrePullPolicyStatus (in_memory X))
      → Mem (Pointer (Types.PrePullPolicyStatus (in_memory X)))
  prepull_policy_status_deep_copy = into_new prepull_policy_status_deep_copy_into

  unfoldable pub prepull_policy_deep_copy_into :
      Types.PrePullPolicy (in_memory X) → Mem (Types.PrePullPolicy (in_memory X))
  prepull_policy_deep_copy_into x = do
    new_meta ← X.object_meta_deep_copy.copy x.meta
    new_spec ← prepull_policy_spec_deep_copy_into x.spec
    new_status ← prepull_policy_status_deep_copy_into x.status
    return (record x { meta = new_meta; spec = new_spec; status = new_status })

  abbrev pub prepull_policy_deep_copy :
      Pointer (Types.PrePullPolicy (in_memory X))
      → Mem (Pointer (Types.PrePullPolicy (in_memory X)))
  prepull_policy_deep_copy = into_new prepull_policy_deep_copy_into

  unfoldable pub prepull_policy_list_deep_copy_into :
      Types.PrePullPolicyList (in_memory X) → Mem (Types.PrePullPolicyList (in_memory X))
  prepull_policy_list_deep_copy_into x = do
    new_meta ← X.list_meta_deep_copy.copy x.meta
    new_items ← into_new (each prepull_policy_deep_copy_into) x.items
    return (record x { meta = new_meta; items = new_items })

  abbrev pub prepull_policy_list_deep_copy :
      Pointer (Types.PrePullPolicyList (in_memory X))
      → Mem (Pointer (Types.PrePullPolicyList (in_memory X)))
  prepull_policy_list_deep_copy = into_new prepull_policy_list_deep_copy_into
