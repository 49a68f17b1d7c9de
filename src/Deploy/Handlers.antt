-- ===== src/Deploy/Handlers.antt =====
-- deployment_controller.go: the reconciler, and the calls that it makes on the cluster.
use kwarm.Base.{
  true, String, List, [], ◌∷◌, ◌++◌, Option, none, some, concat, str_eq, eqb, if◌then◌else◌,
}
use kwarm.Kube.{StringMap, ResourceRequirements, Deployment}
use kwarm.Api.{PrePullImage, PrePullImagePhase, PrePullPolicy, RetryPolicy}
use kwarm.Metrics.{record_reconcile}
use kwarm.Cluster.{
  ApiError, wrap, Reason, Outcome, ok, err, NodeFilter, all_nodes, matching_labels, Client, Library,
  Reply, Event, finished, failing, M, ◌>>=◌, ◌>>◌, return, call, measure, emit,
}
use kwarm.Nodes.{ready_names}
use kwarm.Deploy.Images.{
  extract_images, get_last_images, find_changed_images, images_equal, annotate,
  generate_prepullimage_name,
}
use kwarm.Deploy.Match.{is_empty, deployment_matches_policy}

-- Build resources: the defaults stand in for nil maps.
unfoldable pub default_resources : Library → ResourceRequirements → ResourceRequirements
default_resources lib r = record {
  requests = elim r.requests [
    | some m ↦ some m
    | none ↦ some (("memory", lib.must_parse "64Mi") ∷ (("cpu", lib.must_parse "100m") ∷ []))
  ];
  limits = elim r.limits [
    | some m ↦ some m
    | none ↦ some (("memory", lib.must_parse "256Mi") ∷ (("cpu", lib.must_parse "500m") ∷ []))
  ];
}

-- Build retry policy: 0 stands for the default.
unfoldable pub default_retry : RetryPolicy → RetryPolicy
default_retry r = record {
  max_attempts = if eqb r.max_attempts 0 then 3 else r.max_attempts;
  backoff_seconds = if eqb r.backoff_seconds 0 then 30 else r.backoff_seconds;
}

-- The resource that `createPrePullImage` hands to the client.
unfoldable pub build_prepullimage :
    Library → Deployment → PrePullPolicy → String → List String → PrePullImage
unfolding default_resources default_retry
build_prepullimage lib d policy image targets = record {
  meta = record {
    name = generate_prepullimage_name lib d.meta.name image;
    namespace = d.meta.namespace;
    uid = "";
    generation = 0;
    labels = ("kwarm.io/deployment", d.meta.name) ∷ (("kwarm.io/policy", policy.meta.name) ∷ []);
    annotations = [];
    finalizers = [];
    deletion_timestamp = none;
    owner_references =
        record {
          api_version = lib.apps_group_version;
          kind = "Deployment";
          name = d.meta.name;
          uid = d.meta.uid;
          controller = true;
          block_owner_deletion = true;
        }
        ∷ [];
  };
  spec = record {
    image = image;
    image_digest = "";
    nodes = record { selector = none; names = targets };
    image_pull_secrets =
        (if policy.spec.image_pull_secrets.inherit then d.image_pull_secrets else [])
        ++ policy.spec.image_pull_secrets.additional;
    resources = default_resources lib policy.spec.resources;
    retry = default_retry policy.spec.retry;
    timeout = if str_eq policy.spec.timeout "" then "10m" else policy.spec.timeout;
  };
  status = record {
    phase = PrePullImagePhase.unset;
    node_status = [];
    summary = record { total = 0; pending = 0; pulling = 0; completed = 0; failed = 0 };
    conditions = [];
    start_time = none;
    completion_time = none;
  };
}

-- The loop of `getMatchingPolicy`.
unfoldable pub first_match : Library → Deployment → List PrePullPolicy → Option PrePullPolicy
first_match lib d [] = none
first_match lib d (policy ∷ rest) =
    if deployment_matches_policy lib d policy then some policy else first_match lib d rest

-- `r.Recorder.Event(deployment, …)`
abbrev pub pull_triggered : Deployment → String → Event
pull_triggered d image = record {
  namespace = d.meta.namespace;
  name = d.meta.name;
  kind = "Normal";
  reason = "PrePullTriggered";
  message = concat ("Image pre-pull initiated for " ∷ (image ∷ []));
}

module _ {W : Type 0} (client : Client W) (lib : Library) where
  unfoldable pub get_matching_policy : Deployment → M W (Outcome (Option PrePullPolicy))
  get_matching_policy d = do
    listed ← call client.list_policies
    elim listed [ ok policies ↦ return (ok (first_match lib d policies)) | err e ↦ return (err e) ]

  pub node_filter : StringMap → NodeFilter
  node_filter match_labels =
      if is_empty match_labels then all_nodes else matching_labels match_labels

  unfoldable pub get_target_nodes : PrePullPolicy → M W (Outcome (List String))
  unfolding node_filter
  get_target_nodes policy = do
    listed ← call (client.list_nodes (node_filter policy.spec.node_selector.match_labels))
    elim listed [ ok nodes ↦ return (ok (ready_names nodes)) | err e ↦ return (err e) ]

  unfoldable pub update_last_images_annotation : Deployment → StringMap → M W (Option ApiError)
  update_last_images_annotation d images = elim (lib.marshal images) [
    | err e ↦ return (some e)
    | ok text ↦ do
      updated ← call (client.update_deployment (annotate d text))
      elim updated [ ok _ ↦ return none | err e ↦ return (some e) ]
  ]

  unfoldable pub create_new : PrePullImage → M W (Option ApiError)
  create_new ppi = do
    created ← call (client.create_prepullimage ppi)
    elim created [
      | ok _ ↦ return none
      | err e ↦ return (some (wrap "failed to create PrePullImage" e))
    ]

  unfoldable pub replace : PrePullImage → PrePullImage → M W (Option ApiError)
  replace existing ppi = do
    deleted ← call (client.delete_prepullimage existing)
    elim deleted [ ok _ ↦ create_new ppi | err e ↦ return (some e) ]

  unfoldable pub create_prepullimage :
      Deployment → PrePullPolicy → String → List String → M W (Option ApiError)
  create_prepullimage d policy image targets = do
    let ppi = build_prepullimage lib d policy image targets
    got ← call (
        client.get_prepullimage d.meta.namespace (generate_prepullimage_name lib d.meta.name image))
    elim got [
      | ok existing ↦ if str_eq existing.spec.image image then return none else replace existing ppi
      | err e ↦ elim e.reason [ Reason.not_found ↦ create_new ppi | _ ↦ return (some e) ]
    ]

  -- The loop over the changed images: it stops at the first error.
  unfoldable pub create_all :
      Deployment → PrePullPolicy → List String → List String → M W (Option ApiError)
  create_all d policy [] targets = return none
  create_all d policy (image ∷ images) targets = do
    failure ← create_prepullimage d policy image targets
    elim failure [
      | some e ↦ return (some e)
      | none ↦ do emit (pull_triggered d image); create_all d policy images targets
    ]

  reply_to : Option ApiError → Reply
  reply_to none = finished
  reply_to (some e) = failing e

  -- No image has changed.
  unfoldable pub refresh : Deployment → M W Reply
  unfolding reply_to
  refresh d =
      if images_equal (get_last_images lib d) (extract_images d)
      then return finished
      else (update_last_images_annotation d (extract_images d) >>= λ failure.
          return (reply_to failure))

  -- Some image has changed, and there are nodes.
  unfoldable pub pull_changed : Deployment → PrePullPolicy → List String → List String → M W Reply
  unfolding reply_to
  pull_changed d policy changed targets = do
    failure ← create_all d policy changed targets
    elim failure [
      | some e ↦ return (failing e)
      | none ↦ do
        failure' ← update_last_images_annotation d (extract_images d)
        return (reply_to failure')
    ]

  unfoldable pub reconcile_changed : Deployment → PrePullPolicy → List String → M W Reply
  reconcile_changed d policy changed = do
    targets ← get_target_nodes policy
    elim targets [
      | err e ↦ return (failing e)
      | ok [] ↦ return finished
      | ok (name ∷ names) ↦ pull_changed d policy changed (name ∷ names)
    ]

  -- `Reconcile` once the deployment has been read.
  unfoldable pub reconcile_found : Deployment → M W Reply
  reconcile_found d = do
    matched ← get_matching_policy d
    elim matched [
      | err e ↦ return (failing e)
      | ok none ↦ return finished
      | ok (some policy) ↦ elim (find_changed_images (get_last_images lib d) (extract_images d)) [
        | [] ↦ refresh d
        | image ∷ images ↦ reconcile_changed d policy (image ∷ images)
      ]
    ]

  unfoldable pub reconcile : String → String → M W Reply
  reconcile namespace name = do
    start ← call client.now
    got ← call (client.get_deployment namespace name)
    reply ← elim got [
      | ok d ↦ reconcile_found d
      | err e ↦ elim e.reason [ Reason.not_found ↦ return finished | _ ↦ return (failing e) ]
    ]
    end ← call client.now
    measure (record_reconcile "deployment" "success" start end)
    return reply
