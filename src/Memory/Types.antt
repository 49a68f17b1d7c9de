-- ===== src/Memory/Types.antt =====
-- The custom resources of api/v1alpha1 once more, by how their memory is read: as Go has it, where a
-- pointer, a slice or a map is nil or a place with an address, and with the addresses forgotten.
use kwarm.Base.{ℕ, Bool, String, List, Option}
use kwarm.Kube.{StringMap}
use kwarm.Api.{PrePullImagePhase, NodePullStatus, PullSummary, RetryPolicy}
use kwarm.Memory.Copier.{Place, Copier}

-- The types of other packages: `metav1.TypeMeta`, which is copied by assignment, and
-- `metav1.ObjectMeta`, `metav1.ListMeta`, `corev1.ResourceRequirements`, `metav1.LabelSelector`,
-- `*metav1.Time` where it is not nil, and `metav1.Condition`, in memory and without addresses, each
-- with its own deep copy, which reads the same and holds new addresses only.
pub record External : Type 1 where
  pub type_meta : Type 0
  pub object_meta : Type 0
  pub object_meta_value : Type 0
  pub list_meta : Type 0
  pub list_meta_value : Type 0
  pub resources : Type 0
  pub resources_value : Type 0
  pub label_selector : Type 0
  pub label_selector_value : Type 0
  pub time : Type 0
  pub time_value : Type 0
  pub condition : Type 0
  pub condition_value : Type 0
  pub object_meta_deep_copy : Copier object_meta object_meta_value
  pub list_meta_deep_copy : Copier list_meta list_meta_value
  pub resources_deep_copy : Copier resources resources_value
  pub label_selector_deep_copy : Copier label_selector label_selector_value
  pub time_deep_copy : Copier time time_value
  pub condition_deep_copy : Copier condition condition_value

-- A way to read memory: what is at the end of a pointer or a slice, what a map of strings is, and
-- the types of other packages.
pub record Reading : Type 1 where
  pub place : Type 0 → Type 0
  pub string_map : Type 0
  pub type_meta : Type 0
  pub object_meta : Type 0
  pub list_meta : Type 0
  pub resources : Type 0
  pub label_selector : Type 0
  pub time : Type 0
  pub condition : Type 0

abbrev pub in_memory : External → Reading
in_memory x = record {
  place = Place;
  string_map = StringMap;
  type_meta = x.type_meta;
  object_meta = x.object_meta;
  list_meta = x.list_meta;
  resources = x.resources;
  label_selector = x.label_selector;
  time = x.time;
  condition = x.condition;
}

-- A map of strings is what its keys find.
abbrev pub as_value : External → Reading
as_value x = record {
  place = λ A. A;
  string_map = String → Option String;
  type_meta = x.type_meta;
  object_meta = x.object_meta_value;
  list_meta = x.list_meta_value;
  resources = x.resources_value;
  label_selector = x.label_selector_value;
  time = x.time_value;
  condition = x.condition_value;
}

module _ (R : Reading) where
  pub record NodeTargetSelector : Type 0 where
    pub selector : Option (R.place R.label_selector)
    pub names : Option (R.place (List String))

  -- A `LocalObjectReference` is its name.
  pub record PrePullImageSpec : Type 0 where
    pub image : String
    pub image_digest : String
    pub nodes : NodeTargetSelector
    pub image_pull_secrets : Option (R.place (List String))
    pub resources : R.resources
    pub retry : RetryPolicy
    pub timeout : String

  pub record NodeStatus : Type 0 where
    pub node : String
    pub status : NodePullStatus
    pub started_at : Option R.time
    pub completed_at : Option R.time
    pub duration : String
    pub error : String
    pub retry_count : ℕ  -- int32
    pub job_name : String

  pub record PrePullImageStatus : Type 0 where
    pub phase : PrePullImagePhase
    pub node_status : Option (R.place (List NodeStatus))
    pub summary : PullSummary
    pub conditions : Option (R.place (List R.condition))
    pub start_time : Option R.time
    pub completion_time : Option R.time

  pub record PrePullImage : Type 0 where
    pub type_meta : R.type_meta
    pub meta : R.object_meta
    pub spec : PrePullImageSpec
    pub status : PrePullImageStatus

  pub record PrePullImageList : Type 0 where
    pub type_meta : R.type_meta
    pub meta : R.list_meta
    pub items : Option (R.place (List PrePullImage))

  pub record PolicySelector : Type 0 where
    pub match_labels : Option (R.place R.string_map)
    pub namespaces : Option (R.place (List String))

  pub record NodeSelector : Type 0 where
    pub match_labels : Option (R.place R.string_map)

  pub record ImagePullSecretsConfig : Type 0 where
    pub inherit : Bool
    pub additional : Option (R.place (List String))

  pub record PrePullPolicySpec : Type 0 where
    pub selector : PolicySelector
    pub node_selector : NodeSelector
    pub resources : R.resources
    pub retry : RetryPolicy
    pub timeout : String
    pub image_pull_secrets : ImagePullSecretsConfig

  pub record PrePullPolicyStatus : Type 0 where
    pub watched_deployments : ℕ  -- int32
    pub last_updated : Option R.time
    pub conditions : Option (R.place (List R.condition))

  pub record PrePullPolicy : Type 0 where
    pub type_meta : R.type_meta
    pub meta : R.object_meta
    pub spec : PrePullPolicySpec
    pub status : PrePullPolicyStatus

  pub record PrePullPolicyList : Type 0 where
    pub type_meta : R.type_meta
    pub meta : R.list_meta
    pub items : Option (R.place (List PrePullPolicy))
