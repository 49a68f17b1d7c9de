-- ===== src/Api.antt =====
-- api/v1alpha1: the PrePullImage and the PrePullPolicy resources. A phase or a status is a Go string, so each type has a
-- constructor for the texts that are not among the constants.
use kwarm.Base.{ℕ, Bool, String, List, Option}
use kwarm.Kube.{StringMap, ObjectMeta, ResourceRequirements, LabelSelector, Condition}

-- `unset` is the empty text.
pub data PrePullImagePhase : Type 0 where
  unset pending in_progress completed failed : PrePullImagePhase
  other : String → PrePullImagePhase

pub data NodePullStatus : Type 0 where
  pending pulling completed failed : NodePullStatus
  other : String → NodePullStatus

pub record RetryPolicy : Type 0 where
  pub max_attempts : ℕ  -- int32
  pub backoff_seconds : ℕ  -- int32

pub record NodeTargetSelector : Type 0 where
  pub selector : Option LabelSelector
  pub names : List String

pub record PrePullImageSpec : Type 0 where
  pub image : String
  pub image_digest : String
  pub nodes : NodeTargetSelector
  pub image_pull_secrets : List String
  pub resources : ResourceRequirements
  pub retry : RetryPolicy
  pub timeout : String

pub record NodeStatus : Type 0 where
  pub node : String
  pub status : NodePullStatus
  pub started_at : Option ℕ
  pub completed_at : Option ℕ
  pub duration : String
  pub error : String
  pub retry_count : ℕ  -- int32
  pub job_name : String

-- All five are int32.
pub record PullSummary : Type 0 where
  pub total : ℕ
  pub pending : ℕ
  pub pulling : ℕ
  pub completed : ℕ
  pub failed : ℕ

pub record PrePullImageStatus : Type 0 where
  pub phase : PrePullImagePhase
  pub node_status : List NodeStatus
  pub summary : PullSummary
  pub conditions : List Condition
  pub start_time : Option ℕ
  pub completion_time : Option ℕ

pub record PrePullImage : Type 0 where
  pub meta : ObjectMeta
  pub spec : PrePullImageSpec
  pub status : PrePullImageStatus

pub record PolicySelector : Type 0 where
  pub match_labels : StringMap
  pub namespaces : List String

pub record NodeSelector : Type 0 where
  pub match_labels : StringMap

pub record ImagePullSecretsConfig : Type 0 where
  pub inherit : Bool
  pub additional : List String

pub record PrePullPolicySpec : Type 0 where
  pub selector : PolicySelector
  pub node_selector : NodeSelector
  pub resources : ResourceRequirements
  pub retry : RetryPolicy
  pub timeout : String
  pub image_pull_secrets : ImagePullSecretsConfig

pub record PrePullPolicyStatus : Type 0 where
  pub watched_deployments : ℕ  -- int32
  pub last_updated : Option ℕ
  pub conditions : List Condition

pub record PrePullPolicy : Type 0 where
  pub meta : ObjectMeta
  pub spec : PrePullPolicySpec
  pub status : PrePullPolicyStatus
