-- ===== src/Memory/Copied/Policy.antt =====
-- The copies of a PrePullPolicy and of its parts: each struct keeps what it says, and the copy has memory of
-- its own.
use kwarm.Base.{refl}
use kwarm.Memory.Copier.{IsCopy}
use kwarm.Memory.Parts.{
  assigned-IsCopy, copy_entries-IsCopy, both-IsCopy, optional-IsCopy, into_new-IsCopy, each-IsCopy,
  fields-IsCopy,
}
use kwarm.Memory.Types.{External}
use kwarm.Memory.Layout.Policy.{
  policy_selector_layout, policy_selector_with, node_selector_layout, node_selector_with,
  image_pull_secrets_config_layout, image_pull_secrets_config_with, prepull_policy_spec_layout,
  prepull_policy_spec_with, prepull_policy_status_layout, prepull_policy_status_with,
  prepull_policy_layout, prepull_policy_with, prepull_policy_list_layout, prepull_policy_list_with,
}
use kwarm.Memory.DeepCopy.Policy.{
  policy_selector_deep_copy_into, node_selector_deep_copy_into,
  image_pull_secrets_config_deep_copy_into, prepull_policy_spec_deep_copy_into,
  prepull_policy_status_deep_copy_into, prepull_policy_deep_copy_into,
  prepull_policy_list_deep_copy_into,
}

module _ (X : External) where
  pub policy_selector_deep_copy_into-IsCopy :
      IsCopy (policy_selector_layout X) (policy_selector_deep_copy_into X)
  unfolding policy_selector_deep_copy_into
  policy_selector_deep_copy_into-IsCopy =
      fields-IsCopy
        (both-IsCopy (into_new-IsCopy copy_entries-IsCopy) (into_new-IsCopy assigned-IsCopy))
        (policy_selector_with X) (λ a x. record x { match_labels = a.0; namespaces = a.1 })
        (λ a x. refl) (λ v a x. refl)

  pub node_selector_deep_copy_into-IsCopy :
      IsCopy (node_selector_layout X) (node_selector_deep_copy_into X)
  unfolding node_selector_deep_copy_into
  node_selector_deep_copy_into-IsCopy =
      fields-IsCopy (into_new-IsCopy copy_entries-IsCopy) (node_selector_with X)
        (λ a x. record x { match_labels = a }) (λ a x. refl) (λ v a x. refl)

  pub image_pull_secrets_config_deep_copy_into-IsCopy :
      IsCopy (image_pull_secrets_config_layout X) (image_pull_secrets_config_deep_copy_into X)
  unfolding image_pull_secrets_config_deep_copy_into
  image_pull_secrets_config_deep_copy_into-IsCopy =
      fields-IsCopy (into_new-IsCopy assigned-IsCopy) (image_pull_secrets_config_with X)
        (λ a x. record x { additional = a }) (λ a x. refl) (λ v a x. refl)

  pub prepull_policy_spec_deep_copy_into-IsCopy :
      IsCopy (prepull_policy_spec_layout X) (prepull_policy_spec_deep_copy_into X)
  unfolding prepull_policy_spec_deep_copy_into
  prepull_policy_spec_deep_copy_into-IsCopy =
      fields-IsCopy
        (both-IsCopy policy_selector_deep_copy_into-IsCopy (
          both-IsCopy node_selector_deep_copy_into-IsCopy (
            both-IsCopy X.resources_deep_copy.correct
              image_pull_secrets_config_deep_copy_into-IsCopy)))
        (prepull_policy_spec_with X)
        (λ a x. record x {
          selector = a.0;
          node_selector = a.1.0;
          resources = a.1.1.0;
          image_pull_secrets = a.1.1.1;
        })
        (λ a x. refl) (λ v a x. refl)

  pub prepull_policy_status_deep_copy_into-IsCopy :
      IsCopy (prepull_policy_status_layout X) (prepull_policy_status_deep_copy_into X)
  unfolding prepull_policy_status_deep_copy_into
  prepull_policy_status_deep_copy_into-IsCopy =
      fields-IsCopy
        (both-IsCopy (optional-IsCopy X.time_deep_copy.correct)
          (into_new-IsCopy (each-IsCopy X.condition_deep_copy.correct)))
        (prepull_policy_status_with X) (λ a x. record x { last_updated = a.0; conditions = a.1 })
        (λ a x. refl) (λ v a x. refl)

  pub prepull_policy_deep_copy_into-IsCopy :
      IsCopy (prepull_policy_layout X) (prepull_policy_deep_copy_into X)
  unfolding prepull_policy_deep_copy_into
  prepull_policy_deep_copy_into-IsCopy =
      fields-IsCopy
        (both-IsCopy X.object_meta_deep_copy.correct (
          both-IsCopy prepull_policy_spec_deep_copy_into-IsCopy
            prepull_policy_status_deep_copy_into-IsCopy))
        (prepull_policy_with X) (λ a x. record x { meta = a.0; spec = a.1.0; status = a.1.1 })
        (λ a x. refl) (λ v a x. refl)

  pub prepull_policy_list_deep_copy_into-IsCopy :
      IsCopy (prepull_policy_list_layout X) (prepull_policy_list_deep_copy_into X)
  unfolding prepull_policy_list_deep_copy_into
  prepull_policy_list_deep_copy_into-IsCopy =
      fields-IsCopy
        (both-IsCopy X.list_meta_deep_copy.correct
          (into_new-IsCopy (each-IsCopy prepull_policy_deep_copy_into-IsCopy)))
        (prepull_policy_list_with X) (λ a x. record x { meta = a.0; items = a.1 }) (λ a x. refl)
        (λ v a x. refl)
