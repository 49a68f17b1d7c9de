-- ===== src/Examples/Store.antt =====
-- A cluster that stores PrePullImages by key, where every job has succeeded when it is looked at.
use text.Mathlib.TextEquality.{eq_iff}
use kwarm.Base.{
  ◌≡◌, refl, inl, subst, ◌∙◌, ap, false, String, List, [], ◌∷◌, Option, none, some, pos,
  if◌then◌else◌, arith,
}
use kwarm.Api.{PrePullImage, PrePullImagePhase}
use kwarm.Cluster.{ok, err, Client, Library, Sys}
use kwarm.RateLimiter.{new_rate_limiter}
use kwarm.Policy.Count.{restrict}
use kwarm.Cluster.{same_key}
use kwarm.Deploy.Storage.{IsCreated, Storage}
use kwarm.PullImage.Handlers.{with_status}
use kwarm.PullImage.Stored.{ImageStore}
use kwarm.PullImage.Effort.{EndsJobs}
use kwarm.Puller.{get_job_status}
use kwarm.Examples.World.{done_job, missing, or_missing, shop, policy, ready_node, lib}

abbrev pub Stored : Type 0
Stored = List PrePullImage

unfoldable pub lookup : String → String → Stored → Option PrePullImage
lookup ns name [] = none
lookup ns name (p ∷ ps) =
    if same_key p.meta.namespace p.meta.name ns name then some p else lookup ns name ps

unfoldable pub without : String → String → Stored → Stored
without ns name [] = []
without ns name (p ∷ ps) =
    let rest = without ns name ps in
    if same_key p.meta.namespace p.meta.name ns name then rest else p ∷ rest

pub lookup-shows :
    (ns name : String) (w : Stored) (p : PrePullImage)
    → lookup ns name w ≡ some p
    → (p.meta.namespace ≡ ns) × (p.meta.name ≡ name)
unfolding lookup
lookup-shows ns name [] p e = absurd (cc)
lookup-shows ns name (q ∷ w) p e =
    ground (arith, lookup-shows ns name w p, eq_iff q.meta.namespace ns, eq_iff q.meta.name name)

pub lookup-without :
    (ns name k l : String) (w : Stored)
    → same_key ns name k l ≡ false
    → lookup k l (without ns name w) ≡ lookup k l w
unfolding lookup without
lookup-without ns name k l [] other = refl
lookup-without ns name k l (q ∷ w) other =
    ground (
      arith,
      lookup-without ns name k l w other,
      eq_iff q.meta.namespace ns,
      eq_iff q.meta.name name,
    )

-- What is stored for a resource to create.
abbrev pub made : PrePullImage → PrePullImage
made p =
    let meta = p.meta in
    let st = p.status in
    record p {
      meta = record meta { uid = "uid"; deletion_timestamp = none };
      status = record st { phase = PrePullImagePhase.unset; node_status = [] };
    }

abbrev pub put_image : PrePullImage → Stored → Stored
put_image p w = p ∷ without p.meta.namespace p.meta.name w

-- The clock stands still, and only the calls for PrePullImages change the world as it is.
abbrev pub storing : Client Stored
storing = record {
  now = λ w. (100, w);
  get_prepullimage = λ ns name w. (or_missing (lookup ns name w), w);
  list_prepullimages = λ w. (ok w, w);
  update_prepullimage = λ p w. (ok p, put_image p w);
  update_prepullimage_status = λ p w. (ok p, put_image p w);
  create_prepullimage = λ p w. (ok (made p), made p ∷ w);
  delete_prepullimage = λ p w. (ok tt, without p.meta.namespace p.meta.name w);
  list_nodes = λ f w. (ok (ready_node "node-1" ∷ (ready_node "node-2" ∷ [])), w);
  get_job = λ ns name w. (ok done_job, w);
  list_jobs = λ ns labels w. (ok [], w);
  create_job = λ j w. (ok j, w);
  delete_job = λ ns name w. (ok tt, w);
  get_deployment = λ ns name w. (ok shop, w);
  list_deployments = λ at w. (ok (restrict at (shop ∷ [])), w);
  update_deployment = λ d w. (ok d, w);
  get_policy = λ name w. (err missing, w);
  list_policies = λ w. (ok (policy ∷ []), w);
  update_policy_status = λ p w. (ok p, w);
}

pub lookup-newest :
    (p : PrePullImage) (w : Stored) → lookup p.meta.namespace p.meta.name (p ∷ w) ≡ some p
unfolding lookup
lookup-newest p w =
    ground (arith, eq_iff p.meta.namespace p.meta.namespace, eq_iff p.meta.name p.meta.name)

pub or_missing-ok : (o : Option PrePullImage) (p : PrePullImage) → or_missing o ≡ ok p → o ≡ some p
or_missing-ok none p e = absurd (cc)
or_missing-ok (some q) p e = ground arith

pub ok_inj : (p q : PrePullImage) → ok p ≡ ok q → p ≡ q
ok_inj p q e = cc

pub made-IsCreated : (p : PrePullImage) → IsCreated p (made p)
made-IsCreated p = record {
  same_spec = refl;
  same_namespace = refl;
  same_name = refl;
  not_deleted = refl;
  no_phase = refl;
  no_nodes = refl;
}

pub create-keeps :
    (p : PrePullImage) (k l : String) (w : Stored)
    → same_key p.meta.namespace p.meta.name k l ≡ false
    → lookup k l (p ∷ w) ≡ lookup k l w
unfolding lookup
create-keeps p k l w other = ground arith

pub put-keeps :
    (p : PrePullImage) (k l : String) (w : Stored)
    → same_key p.meta.namespace p.meta.name k l ≡ false
    → lookup k l (put_image p w) ≡ lookup k l w
put-keeps p k l w other =
    create-keeps p k l (without p.meta.namespace p.meta.name w) other
    ∙ lookup-without p.meta.namespace p.meta.name k l w other

abbrev pub storage : Storage storing lookup
storage = record {
  get_shows = λ ns name w p e.
      let found = or_missing-ok (lookup ns name w) p e in
      let key = lookup-shows ns name w p found in (found, key.0, key.1);
  get_keeps = λ ns name k l w. refl;
  create_stores = λ p q w e.
      let same = ok_inj (made p) q e in
      (lookup-newest (made p) w ∙ ap some same, subst (IsCreated p) same (made-IsCreated p));
  create_keeps = λ p k l w other. create-keeps (made p) k l w other;
  delete_keeps = λ p k l w other. lookup-without p.meta.namespace p.meta.name k l w other;
  update_deployment_keeps = λ d k l w. refl;
  list_policies_keeps = λ k l w. refl;
  list_nodes_keeps = λ f k l w. refl;
}

abbrev pub images : ImageStore storing
images = record {
  image_at = lookup;
  get_shows = λ ns name w p e. ap or_missing e;
  update_stores = λ p q w e same. lookup-newest q (without q.meta.namespace q.meta.name w);
  status_stores =
      λ p st w e. (tt, lookup-newest (with_status p st) (without p.meta.namespace p.meta.name w));
  update_keeps = λ q k l w other. put-keeps q k l w other;
  status_keeps = λ q k l w other. put-keeps q k l w other;
  now_keeps = λ k l w. refl;
  get_keeps = λ k l ns name w. refl;
  list_keeps = λ k l w. refl;
  get_job_keeps = λ k l ns name w. refl;
  create_job_keeps = λ k l job w. refl;
  delete_job_keeps = λ k l ns name w. refl;
}

-- A library that leaves a text as it is where sha256 takes a hash of it.
abbrev pub plain : Library
plain = record lib { sha256_hex = λ text. text }

-- No PrePullImage is stored yet.
abbrev pub empty_store : Sys Stored
empty_store = record {
  limiter = new_rate_limiter (pos 2) (pos 1);
  metrics = [];
  events = [];
  world = [];
}

pub storing_ends : EndsJobs storing lib
unfolding get_job_status
storing_ends name w = inl refl
