-- ===== src/Memory/Copied/Image.antt =====
-- The copies of a PrePullImage and of its parts: each struct keeps what it says, and the copy has memory of
-- its own.
use kwarm.Base.{refl}
use kwarm.Memory.Copier.{IsCopy}
use kwarm.Memory.Parts.{
  assigned-IsCopy, both-IsCopy, optional-IsCopy, into_new-IsCopy, each-IsCopy, fields-IsCopy,
}
use kwarm.Memory.Types.{External}
use kwarm.Memory.Layout.Image.{
  node_target_selector_layout, node_target_selector_with, prepull_image_spec_layout,
  prepull_image_spec_with, node_status_layout, node_status_with, prepull_image_status_layout,
  prepull_image_status_with, prepull_image_layout, prepull_image_with, prepull_image_list_layout,
  prepull_image_list_with,
}
use kwarm.Memory.DeepCopy.Image.{
  node_target_selector_deep_copy_into, prepull_image_spec_deep_copy_into,
  node_status_deep_copy_into, prepull_image_status_deep_copy_into, prepull_image_deep_copy_into,
  prepull_image_list_deep_copy_into,
}

module _ (X : External) where
  pub node_target_selector_deep_copy_into-IsCopy :
      IsCopy (node_target_selector_layout X) (node_target_selector_deep_copy_into X)
  unfolding node_target_selector_deep_copy_into
  node_target_selector_deep_copy_into-IsCopy =
      fields-IsCopy
        (both-IsCopy (into_new-IsCopy X.label_selector_deep_copy.correct)
          (into_new-IsCopy assigned-IsCopy))
        (node_target_selector_with X) (λ a x. record x { selector = a.0; names = a.1 })
        (λ a x. refl) (λ v a x. refl)

  pub prepull_image_spec_deep_copy_into-IsCopy :
      IsCopy (prepull_image_spec_layout X) (prepull_image_spec_deep_copy_into X)
  unfolding prepull_image_spec_deep_copy_into
  prepull_image_spec_deep_copy_into-IsCopy =
      fields-IsCopy
        (both-IsCopy node_target_selector_deep_copy_into-IsCopy
          (both-IsCopy (into_new-IsCopy assigned-IsCopy) X.resources_deep_copy.correct))
        (prepull_image_spec_with X)
        (λ a x. record x { nodes = a.0; image_pull_secrets = a.1.0; resources = a.1.1 })
        (λ a x. refl) (λ v a x. refl)

  pub node_status_deep_copy_into-IsCopy :
      IsCopy (node_status_layout X) (node_status_deep_copy_into X)
  unfolding node_status_deep_copy_into
  node_status_deep_copy_into-IsCopy =
      fields-IsCopy
        (both-IsCopy (optional-IsCopy X.time_deep_copy.correct)
          (optional-IsCopy X.time_deep_copy.correct))
        (node_status_with X) (λ a x. record x { started_at = a.0; completed_at = a.1 })
        (λ a x. refl) (λ v a x. refl)

  pub prepull_image_status_deep_copy_into-IsCopy :
      IsCopy (prepull_image_status_layout X) (prepull_image_status_deep_copy_into X)
  unfolding prepull_image_status_deep_copy_into
  prepull_image_status_deep_copy_into-IsCopy =
      fields-IsCopy
        (both-IsCopy (into_new-IsCopy (each-IsCopy node_status_deep_copy_into-IsCopy)) (
          both-IsCopy (into_new-IsCopy (each-IsCopy X.condition_deep_copy.correct)) (
            both-IsCopy (optional-IsCopy X.time_deep_copy.correct)
              (optional-IsCopy X.time_deep_copy.correct))))
        (prepull_image_status_with X)
        (λ a x. record x {
          node_status = a.0;
          conditions = a.1.0;
          start_time = a.1.1.0;
          completion_time = a.1.1.1;
        })
        (λ a x. refl) (λ v a x. refl)

  pub prepull_image_deep_copy_into-IsCopy :
      IsCopy (prepull_image_layout X) (prepull_image_deep_copy_into X)
  unfolding prepull_image_deep_copy_into
  prepull_image_deep_copy_into-IsCopy =
      fields-IsCopy
        (both-IsCopy X.object_meta_deep_copy.correct (
          both-IsCopy prepull_image_spec_deep_copy_into-IsCopy
            prepull_image_status_deep_copy_into-IsCopy))
        (prepull_image_with X) (λ a x. record x { meta = a.0; spec = a.1.0; status = a.1.1 })
        (λ a x. refl) (λ v a x. refl)

  pub prepull_image_list_deep_copy_into-IsCopy :
      IsCopy (prepull_image_list_layout X) (prepull_image_list_deep_copy_into X)
  unfolding prepull_image_list_deep_copy_into
  prepull_image_list_deep_copy_into-IsCopy =
      fields-IsCopy
        (both-IsCopy X.list_meta_deep_copy.correct
          (into_new-IsCopy (each-IsCopy prepull_image_deep_copy_into-IsCopy)))
        (prepull_image_list_with X) (λ a x. record x { meta = a.0; items = a.1 }) (λ a x. refl)
        (λ v a x. refl)
