-- ===== src/Examples/World.antt =====
-- A cluster in memory: a clock, the jobs, and one PrePullImage.
use kwarm.Base.{
  ℕ, ◌+◌, true, false, String, List, [], ◌∷◌, Option, none, some, str_eq, if◌then◌else◌, pos,
}
use kwarm.Kube.{ObjectMeta, Job, Node, Container, ResourceRequirements, Deployment}
use kwarm.Api.{PrePullImage, PrePullImagePhase, NodeStatus, NodePullStatus, PrePullPolicy}
use kwarm.Cluster.{ApiError, Reason, Outcome, ok, err, Client, Library, Sys}
use kwarm.RateLimiter.{new_rate_limiter}
use kwarm.Policy.Count.{restrict}

pub record World : Type 0 where
  pub clock : ℕ
  pub jobs : List Job
  pub stored : Option PrePullImage

abbrev pub missing : ApiError
missing = record { reason = Reason.not_found; message = "not found" }

abbrev pub conflict : ApiError
conflict = record { reason = Reason.other_reason; message = "conflict" }

abbrev pub or_missing : {A : Type 0} → Option A → Outcome A
or_missing none = err missing
or_missing (some a) = ok a

unfoldable pub job_named : String → List Job → Option Job
job_named name [] = none
job_named name (j ∷ js) = if str_eq j.meta.name name then some j else job_named name js

unfoldable pub without_job : String → List Job → List Job
without_job name [] = []
without_job name (j ∷ js) =
    let rest = without_job name js in if str_eq j.meta.name name then rest else j ∷ rest

abbrev pub plain_meta : String → ObjectMeta
plain_meta name = record {
  name = name;
  namespace = "shop";
  uid = "uid";
  generation = 1;
  labels = ("app", name) ∷ [];
  annotations = [];
  finalizers = "kwarm.io/finalizer" ∷ [];
  deletion_timestamp = none;
  owner_references = [];
}

abbrev pub no_resources : ResourceRequirements
no_resources = record { requests = none; limits = none }

abbrev pub container : String → String → Container
container name image = record { name = name; image = image; command = []; resources = no_resources }

abbrev pub shop : Deployment
shop = record {
  meta = plain_meta "shop";
  containers = container "web" "web:2" ∷ (container "init-db" "cache:1" ∷ []);
  init_containers = container "db" "db:1" ∷ [];
  image_pull_secrets = "registry" ∷ [];
}

abbrev pub ready_node : String → Node
ready_node name = record {
  name = name;
  conditions = record { kind = "Ready"; status = "True" } ∷ [];
  unschedulable = false;
}

abbrev pub policy : PrePullPolicy
policy = record {
  meta = plain_meta "policy";
  spec = record {
    selector = record { match_labels = ("app", "shop") ∷ []; namespaces = "shop" ∷ [] };
    node_selector = record { match_labels = [] };
    resources = no_resources;
    retry = record { max_attempts = 0; backoff_seconds = 0 };
    timeout = "";
    image_pull_secrets = record { inherit = true; additional = [] };
  };
  status = record { watched_deployments = 0; last_updated = none; conditions = [] };
}

abbrev pub client : Client World
client = record {
  now = λ w. (w.clock, record w { clock = w.clock + 1 });
  get_prepullimage = λ ns name w. (or_missing w.stored, w);
  list_prepullimages = λ w. (ok (elim w.stored [ none ↦ [] | some p ↦ p ∷ [] ]), w);
  update_prepullimage = λ p w. (ok p, w);
  update_prepullimage_status = λ p w. (ok p, w);
  create_prepullimage = λ p w. (ok p, record w { stored = some p });
  delete_prepullimage = λ p w. (ok tt, record w { stored = none });
  list_nodes = λ f w. (ok (ready_node "node-1" ∷ (ready_node "node-2" ∷ [])), w);
  get_job = λ ns name w. (or_missing (job_named name w.jobs), w);
  list_jobs = λ ns labels w. (ok w.jobs, w);
  create_job = λ j w. (ok j, record w { jobs = j ∷ w.jobs });
  delete_job = λ ns name w. (ok tt, record w { jobs = without_job name w.jobs });
  get_deployment = λ ns name w. (ok shop, w);
  list_deployments = λ at w. (ok (restrict at (shop ∷ [])), w);
  update_deployment = λ d w. (ok d, w);
  get_policy = λ name w. (err missing, w);
  list_policies = λ w. (ok (policy ∷ []), w);
  update_policy_status = λ p w. (ok p, w);
}

-- The same with an API server that refuses every update of a status.
abbrev pub refusing : Client World
refusing = record client { update_prepullimage_status = λ p w. (err conflict, w) }

abbrev pub lib : Library
lib = record {
  sha256_hex = λ text. if str_eq text "node-1" then "1111111111111111" else "2222222222222222";
  parse_duration = λ text. some (pos 600000000000);
  int64_seconds = λ d. pos 600;
  elapsed_string = λ since now. "1s";
  contains_finalizer = λ l f. true;
  add_finalizer = λ l f. f ∷ l;
  remove_finalizer = λ l f. [];
  set_status_condition = λ l c. c ∷ [];
  selector_error = λ s. none;
  selector_matches = λ s labels. true;
  marshal = λ m. ok "{}";
  unmarshal = λ text. ok (some (("web", "web:2") ∷ (("init-db", "db:1") ∷ [])));
  must_parse = λ text. text;
  apps_group_version = "apps/v1";
}

abbrev pub node_in : NodePullStatus → String → ℕ → NodeStatus
node_in st node retries = record {
  node = node;
  status = st;
  started_at = none;
  completed_at = none;
  duration = "";
  error = "";
  retry_count = retries;
  job_name = "job-of-node";
}

-- One node waits, and one pulls with a job that is gone.
abbrev pub image : PrePullImage
image = record {
  meta = plain_meta "web-22222222";
  spec = record {
    image = "web:2";
    image_digest = "";
    nodes = record { selector = none; names = "node-1" ∷ ("node-2" ∷ []) };
    image_pull_secrets = [];
    resources = no_resources;
    retry = record { max_attempts = 1; backoff_seconds = 30 };
    timeout = "10m";
  };
  status = record {
    phase = PrePullImagePhase.in_progress;
    node_status =
        node_in NodePullStatus.pending "node-1" 0
        ∷ (node_in NodePullStatus.pulling "node-2" 0 ∷ []);
    summary = record { total = 2; pending = 1; pulling = 1; completed = 0; failed = 0 };
    conditions = [];
    start_time = some 5;
    completion_time = none;
  };
}

abbrev pub finished_image : PrePullImage
finished_image =
    let st = image.status in
    record image {
      status = record st { phase = PrePullImagePhase.completed; completion_time = some 40 };
    }

-- The limiter holds one slot, for "node-2".
abbrev pub limiter_of_node_2 : kwarm.RateLimiter.RateLimiter
limiter_of_node_2 = record {
  max_concurrent_pulls = 2;
  max_pulls_per_node = 1;
  current_pulls = 1;
  node_current_pulls = ("node-2", 1) ∷ [];
}

abbrev pub sys : Sys World
sys = record {
  limiter = limiter_of_node_2;
  metrics = [];
  events = [];
  world = record { clock = 100; jobs = []; stored = none };
}

abbrev pub done_job : Job
done_job = record {
  meta = plain_meta "job-of-node";
  spec = record {
    ttl_seconds_after_finished = 300;
    backoff_limit = 0;
    active_deadline_seconds = pos 600;
    template = record {
      labels = [];
      node_selector = [];
      toleration_operators = [];
      restart_policy = "Never";
      containers = [];
      image_pull_secrets = [];
    };
  };
  status = record { active = 0; succeeded = 1; failed = 0; conditions = [] };
}
