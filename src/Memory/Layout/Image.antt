-- ===== src/Memory/Layout/Image.antt =====
-- The layouts of a PrePullImage and of its parts.
use kwarm.Base.{String, List, Option}
use kwarm.Memory.Copier.{Layout}
use kwarm.Memory.Layout.{assigned, both, perhaps, pointed, elements, fields}
use kwarm.Memory.Types
use kwarm.Memory.Types.{External, in_memory, as_value}

module _ (X : External) where
  abbrev pub node_target_selector_with :
      Option X.label_selector_value × Option (List String)
      → Types.NodeTargetSelector (in_memory X)
      → Types.NodeTargetSelector (as_value X)
  node_target_selector_with v x = record { selector = v.0; names = v.1 }

  abbrev pub node_target_selector_layout :
      Layout (Types.NodeTargetSelector (in_memory X)) (Types.NodeTargetSelector (as_value X))
  node_target_selector_layout =
      fields (both (pointed X.label_selector_deep_copy.layout) (pointed assigned))
        (λ x. (x.selector, x.names)) node_target_selector_with

  abbrev pub prepull_image_spec_with :
      Types.NodeTargetSelector (as_value X) × (Option (List String) × X.resources_value)
      → Types.PrePullImageSpec (in_memory X)
      → Types.PrePullImageSpec (as_value X)
  prepull_image_spec_with v x = record {
    image = x.image;
    image_digest = x.image_digest;
    nodes = v.0;
    image_pull_secrets = v.1.0;
    resources = v.1.1;
    retry = x.retry;
    timeout = x.timeout;
  }

  abbrev pub prepull_image_spec_layout :
      Layout (Types.PrePullImageSpec (in_memory X)) (Types.PrePullImageSpec (as_value X))
  prepull_image_spec_layout =
      fields
        (both node_target_selector_layout (both (pointed assigned) X.resources_deep_copy.layout))
        (λ x. (x.nodes, (x.image_pull_secrets, x.resources))) prepull_image_spec_with

  abbrev pub node_status_with :
      Option X.time_value × Option X.time_value
      → Types.NodeStatus (in_memory X)
      → Types.NodeStatus (as_value X)
  node_status_with v x = record {
    node = x.node;
    status = x.status;
    started_at = v.0;
    completed_at = v.1;
    duration = x.duration;
    error = x.error;
    retry_count = x.retry_count;
    job_name = x.job_name;
  }

  abbrev pub node_status_layout :
      Layout (Types.NodeStatus (in_memory X)) (Types.NodeStatus (as_value X))
  node_status_layout =
      fields (both (perhaps X.time_deep_copy.layout) (perhaps X.time_deep_copy.layout))
        (λ x. (x.started_at, x.completed_at)) node_status_with

  abbrev pub prepull_image_status_with :
      Option (List (Types.NodeStatus (as_value X)))
        × (Option (List X.condition_value) × (Option X.time_value × Option X.time_value))
      → Types.PrePullImageStatus (in_memory X)
      → Types.PrePullImageStatus (as_value X)
  prepull_image_status_with v x = record {
    phase = x.phase;
    node_status = v.0;
    summary = x.summary;
    conditions = v.1.0;
    start_time = v.1.1.0;
    completion_time = v.1.1.1;
  }

  abbrev pub prepull_image_status_layout :
      Layout (Types.PrePullImageStatus (in_memory X)) (Types.PrePullImageStatus (as_value X))
  prepull_image_status_layout =
      fields
        (both (pointed (elements node_status_layout)) (
          both (pointed (elements X.condition_deep_copy.layout))
            (both (perhaps X.time_deep_copy.layout) (perhaps X.time_deep_copy.layout))))
        (λ x. (x.node_status, (x.conditions, (x.start_time, x.completion_time))))
        prepull_image_status_with

  abbrev pub prepull_image_with :
      X.object_meta_value
        × (Types.PrePullImageSpec (as_value X) × Types.PrePullImageStatus (as_value X))
      → Types.PrePullImage (in_memory X)
      → Types.PrePullImage (as_value X)
  prepull_image_with v x = record {
    type_meta = x.type_meta;
    meta = v.0;
    spec = v.1.0;
    status = v.1.1;
  }

  abbrev pub prepull_image_layout :
      Layout (Types.PrePullImage (in_memory X)) (Types.PrePullImage (as_value X))
  prepull_image_layout =
      fields
        (both X.object_meta_deep_copy.layout
          (both prepull_image_spec_layout prepull_image_status_layout))
        (λ x. (x.meta, (x.spec, x.status))) prepull_image_with

  abbrev pub prepull_image_list_with :
      X.list_meta_value × Option (List (Types.PrePullImage (as_value X)))
      → Types.PrePullImageList (in_memory X)
      → Types.PrePullImageList (as_value X)
  prepull_image_list_with v x = record { type_meta = x.type_meta; meta = v.0; items = v.1 }

  abbrev pub prepull_image_list_layout :
      Layout (Types.PrePullImageList (in_memory X)) (Types.PrePullImageList (as_value X))
  prepull_image_list_layout =
      fields (both X.list_meta_deep_copy.layout (pointed (elements prepull_image_layout)))
        (λ x. (x.meta, x.items)) prepull_image_list_with
