-- ===== src/Puller.antt =====
-- internal/puller/job.go: the jobs that pull an image onto a node.
pub mod Cleanup
pub mod Names
pub mod Status
use Prim.Native.String.{slice}
use kwarm.Base.{
  ℕ, suc, ◌*◌, ◌^◌, Bool, true, false, ◌&&◌, String, List, [], ◌∷◌, Option, none, some, concat,
  truncate, str_eq, slt32, if◌then◌else◌, ℤ, pos,
}
use kwarm.Kube.{
  StringMap, ObjectMeta, Container, PodTemplate, JobSpec, JobStatus, JobCondition, Job,
}
use kwarm.Api.{PrePullImage}
use kwarm.Cluster.{ApiError, wrap, Outcome, ok, err, Client, Library, M, ◌>>=◌, return, call}

abbrev pub job_name_prefix : String
job_name_prefix = "kwarm-pull"

abbrev pub label_prepullimage : String
label_prepullimage = "kwarm.io/prepullimage"

abbrev pub label_node : String
label_node = "kwarm.io/node"

abbrev pub label_managed_by : String
label_managed_by = "app.kubernetes.io/managed-by"

abbrev pub operator_namespace : String
operator_namespace = "kwarm-system"

abbrev pub default_ttl_seconds_after_finished : ℕ
default_ttl_seconds_after_finished = 300

unfoldable pub hash_node_name : Library → String → String
hash_node_name lib node = slice (lib.sha256_hex node) 0 8

unfoldable pub generate_job_name : Library → String → String → String
generate_job_name lib ppi_name node =
    truncate 63
      (concat (job_name_prefix ∷ ("-" ∷ (ppi_name ∷ ("-" ∷ (hash_node_name lib node ∷ []))))))

-- 10 minutes, in nanoseconds, where the timeout does not parse.
parsed_timeout : Option ℤ → ℤ
parsed_timeout none = pos (600 * 10 ^ 9)
parsed_timeout (some d) = d

pull_labels : String → String → StringMap
pull_labels ppi_name node =
    (label_prepullimage, ppi_name) ∷ ((label_node, node) ∷ ((label_managed_by, "kwarm") ∷ []))

pull_template : PrePullImage → String → PodTemplate
unfolding pull_labels
pull_template ppi node = record {
  labels = pull_labels ppi.meta.name node;
  node_selector = ("kubernetes.io/hostname", node) ∷ [];
  toleration_operators = "Exists" ∷ [];
  restart_policy = "Never";
  containers =
      record {
        name = "pull";
        image = ppi.spec.image;
        command = "sh" ∷ ("-c" ∷ ("echo 'Image pulled successfully' && exit 0" ∷ []));
        resources = ppi.spec.resources;
      }
      ∷ [];
  image_pull_secrets = ppi.spec.image_pull_secrets;
}

-- The `Job` that `CreatePullJob` hands to the client.
unfoldable pub pull_job : Library → PrePullImage → String → Job
unfolding pull_labels pull_template parsed_timeout
pull_job lib ppi node = record {
  meta = record {
    name = generate_job_name lib ppi.meta.name node;
    namespace = operator_namespace;
    uid = "";
    generation = 0;
    labels = pull_labels ppi.meta.name node;
    annotations =
        ("kwarm.io/prepullimage-namespace", ppi.meta.namespace)
        ∷ (("kwarm.io/prepullimage-name", ppi.meta.name)
            ∷ (("kwarm.io/prepullimage-uid", ppi.meta.uid) ∷ []));
    finalizers = [];
    deletion_timestamp = none;
    owner_references = [];
  };
  spec = record {
    ttl_seconds_after_finished = default_ttl_seconds_after_finished;
    backoff_limit = 0;
    active_deadline_seconds =
        lib.int64_seconds (parsed_timeout (lib.parse_duration ppi.spec.timeout));
    template = pull_template ppi node;
  };
  status = record { active = 0; succeeded = 0; failed = 0; conditions = [] };
}

-- What `GetJobStatus` answers.
pub data PullState : Type 0 where
  pending running succeeded failed : PullState

unfoldable pub get_job_status : Option Job → PullState
get_job_status none = pending
get_job_status (some job) =
    if slt32 0 job.status.succeeded
    then succeeded
    else if slt32 0 job.status.failed
    then failed
    else if slt32 0 job.status.active
    then running
    else pending

first_failure : List JobCondition → String
first_failure [] = "unknown failure"
first_failure (c ∷ cs) =
    if str_eq c.kind "Failed" && str_eq c.status "True" then c.message else first_failure cs

unfoldable pub get_job_failure_message : Option Job → String
unfolding first_failure
get_job_failure_message none = ""
get_job_failure_message (some job) = first_failure job.status.conditions

module _ {W : Type 0} (client : Client W) where
  unfoldable pub create_pull_job : Library → PrePullImage → String → M W (Outcome Job)
  create_pull_job lib ppi node = do
    created ← call (client.create_job (pull_job lib ppi node))
    elim created [ ok job ↦ return (ok job) | err e ↦ return (err (wrap "failed to create job" e)) ]

  unfoldable pub get_job : String → M W (Outcome Job)
  get_job name = call (client.get_job operator_namespace name)

  unfoldable pub delete_job : String → M W (Outcome (Unit {0}))
  delete_job name = call (client.delete_job operator_namespace name)

  unfoldable pub list_jobs_for_prepullimage : String → M W (Outcome (List Job))
  list_jobs_for_prepullimage ppi_name =
      call (client.list_jobs operator_namespace ((label_prepullimage, ppi_name) ∷ []))

  -- The loop of `CleanupJobsForPrePullImage`: it stops at the first error.
  unfoldable pub delete_jobs : List Job → M W (Option ApiError)
  unfolding delete_job
  delete_jobs [] = return none
  delete_jobs (job ∷ jobs) = do
    deleted ← delete_job job.meta.name
    elim deleted [ ok _ ↦ delete_jobs jobs | err e ↦ return (some e) ]

  unfoldable pub cleanup_jobs_for_prepullimage : String → M W (Option ApiError)
  unfolding delete_jobs list_jobs_for_prepullimage
  cleanup_jobs_for_prepullimage ppi_name = do
    listed ← list_jobs_for_prepullimage ppi_name
    elim listed [ ok jobs ↦ delete_jobs jobs | err e ↦ return (some e) ]
