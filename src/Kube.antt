-- ===== src/Kube.antt =====
-- The objects of the Kubernetes API (k8s.io/api, k8s.io/apimachinery) that the program reads or
-- writes, with the fields that it uses. A map from strings is a list of pairs, and a nil map or
-- slice is the empty one, but in `ResourceRequirements`, where the code tells them apart.
-- A time is a number of nanoseconds, an `int32` its bit pattern.
use kwarm.Base.{ℕ, Bool, String, List, Option, ℤ}

abbrev pub StringMap : Type 0
StringMap = List (String × String)

pub record OwnerReference : Type 0 where
  pub api_version : String
  pub kind : String
  pub name : String
  pub uid : String
  pub controller : Bool
  pub block_owner_deletion : Bool

pub record ObjectMeta : Type 0 where
  pub name : String
  pub namespace : String
  pub uid : String
  pub generation : ℕ
  pub labels : StringMap
  pub annotations : StringMap
  pub finalizers : List String
  pub deletion_timestamp : Option ℕ
  pub owner_references : List OwnerReference

pub record ResourceRequirements : Type 0 where
  pub requests : Option StringMap
  pub limits : Option StringMap

pub record LabelSelector : Type 0 where
  pub match_labels : StringMap
  pub match_expressions : List (String × String × List String)

pub record Condition : Type 0 where
  pub kind : String
  pub status : String
  pub observed_generation : ℕ
  pub last_transition_time : ℕ
  pub reason : String
  pub message : String

pub record NodeCondition : Type 0 where
  pub kind : String
  pub status : String

pub record Node : Type 0 where
  pub name : String
  pub conditions : List NodeCondition
  pub unschedulable : Bool

pub record JobCondition : Type 0 where
  pub kind : String
  pub status : String
  pub message : String

pub record JobStatus : Type 0 where
  pub active : ℕ
  pub succeeded : ℕ
  pub failed : ℕ
  pub conditions : List JobCondition

pub record Container : Type 0 where
  pub name : String
  pub image : String
  pub command : List String
  pub resources : ResourceRequirements

pub record PodTemplate : Type 0 where
  pub labels : StringMap
  pub node_selector : StringMap
  pub toleration_operators : List String
  pub restart_policy : String
  pub containers : List Container
  pub image_pull_secrets : List String

pub record JobSpec : Type 0 where
  pub ttl_seconds_after_finished : ℕ
  pub backoff_limit : ℕ
  pub active_deadline_seconds : ℤ
  pub template : PodTemplate

pub record Job : Type 0 where
  pub meta : ObjectMeta
  pub spec : JobSpec
  pub status : JobStatus

pub record Deployment : Type 0 where
  pub meta : ObjectMeta
  -- of the pod template
  pub containers : List Container
  pub init_containers : List Container
  pub image_pull_secrets : List String
