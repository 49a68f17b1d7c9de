-- ===== src/Memory/Layout/Policy.antt =====
-- The layouts of a PrePullPolicy and of its parts.
use kwarm.Base.{String, List, Option}
use kwarm.Memory.Copier.{Layout}
use kwarm.Memory.Layout.{assigned, entries, both, perhaps, pointed, elements, fields}
use kwarm.Memory.Types
use kwarm.Memory.Types.{External, in_memory, as_value}

module _ (X : External) where
  abbrev pub policy_selector_with :
      Option (String → Option String) × Option (List String)
      → Types.PolicySelector (in_memory X)
      → Types.PolicySelector (as_value X)
  policy_selector_with v x = record { match_labels = v.0; namespaces = v.1 }

  abbrev pub policy_selector_layout :
      Layout (Types.PolicySelector (in_memory X)) (Types.PolicySelector (as_value X))
  policy_selector_layout =
      fields (both (pointed entries) (pointed assigned)) (λ x. (x.match_labels, x.namespaces))
        policy_selector_with

  abbrev pub node_selector_with :
      Option (String → Option String)
      → Types.NodeSelector (in_memory X)
      → Types.NodeSelector (as_value X)
  node_selector_with v x = record { match_labels = v }

  abbrev pub node_selector_layout :
      Layout (Types.NodeSelector (in_memory X)) (Types.NodeSelector (as_value X))
  node_selector_layout = fields (pointed entries) (λ x. x.match_labels) node_selector_with

  abbrev pub image_pull_secrets_config_with :
      Option (List String)
      → Types.ImagePullSecretsConfig (in_memory X)
      → Types.ImagePullSecretsConfig (as_value X)
  image_pull_secrets_config_with v x = record { inherit = x.inherit; additional = v }

  abbrev pub image_pull_secrets_config_layout :
      Layout
        (Types.ImagePullSecretsConfig (in_memory X))
        (Types.ImagePullSecretsConfig (as_value X))
  image_pull_secrets_config_layout =
      fields (pointed assigned) (λ x. x.additional) image_pull_secrets_config_with

  abbrev pub prepull_policy_spec_with :
      Types.PolicySelector (as_value X)
        × (Types.NodeSelector (as_value X)
            × (X.resources_value × Types.ImagePullSecretsConfig (as_value X)))
      → Types.PrePullPolicySpec (in_memory X)
      → Types.PrePullPolicySpec (as_value X)
  prepull_policy_spec_with v x = record {
    selector = v.0;
    node_selector = v.1.0;
    resources = v.1.1.0;
    retry = x.retry;
    timeout = x.timeout;
    image_pull_secrets = v.1.1.1;
  }

  abbrev pub prepull_policy_spec_layout :
      Layout (Types.PrePullPolicySpec (in_memory X)) (Types.PrePullPolicySpec (as_value X))
  prepull_policy_spec_layout =
      fields
        (both policy_selector_layout (
          both node_selector_layout
            (both X.resources_deep_copy.layout image_pull_secrets_config_layout)))
        (λ x. (x.selector, (x.node_selector, (x.resources, x.image_pull_secrets))))
        prepull_policy_spec_with

  abbrev pub prepull_policy_status_with :
      Option X.time_value × Option (List X.condition_value)
      → Types.PrePullPolicyStatus (in_memory X)
      → Types.PrePullPolicyStatus (as_value X)
  prepull_policy_status_with v x = record {
    watched_deployments = x.watched_deployments;
    last_updated = v.0;
    conditions = v.1;
  }

  abbrev pub prepull_policy_status_layout :
      Layout (Types.PrePullPolicyStatus (in_memory X)) (Types.PrePullPolicyStatus (as_value X))
  prepull_policy_status_layout =
      fields
        (both (perhaps X.time_deep_copy.layout) (pointed (elements X.condition_deep_copy.layout)))
        (λ x. (x.last_updated, x.conditions)) prepull_policy_status_with

  abbrev pub prepull_policy_with :
      X.object_meta_value
        × (Types.PrePullPolicySpec (as_value X) × Types.PrePullPolicyStatus (as_value X))
      → Types.PrePullPolicy (in_memory X)
      → Types.PrePullPolicy (as_value X)
  prepull_policy_with v x = record {
    type_meta = x.type_meta;
    meta = v.0;
    spec = v.1.0;
    status = v.1.1;
  }

  abbrev pub prepull_policy_layout :
      Layout (Types.PrePullPolicy (in_memory X)) (Types.PrePullPolicy (as_value X))
  prepull_policy_layout =
      fields
        (both X.object_meta_deep_copy.layout
          (both prepull_policy_spec_layout prepull_policy_status_layout))
        (λ x. (x.meta, (x.spec, x.status))) prepull_policy_with

  abbrev pub prepull_policy_list_with :
      X.list_meta_value × Option (List (Types.PrePullPolicy (as_value X)))
      → Types.PrePullPolicyList (in_memory X)
      → Types.PrePullPolicyList (as_value X)
  prepull_policy_list_with v x = record { type_meta = x.type_meta; meta = v.0; items = v.1 }

  abbrev pub prepull_policy_list_layout :
      Layout (Types.PrePullPolicyList (in_memory X)) (Types.PrePullPolicyList (as_value X))
  prepull_policy_list_layout =
      fields (both X.list_meta_deep_copy.layout (pointed (elements prepull_policy_layout)))
        (λ x. (x.meta, x.items)) prepull_policy_list_with
