-- ===== src/Deploy/Storage.antt =====
-- What the deployment controller relies on of the API server: the PrePullImages that are stored.
use kwarm.Base.{[], ◌≡◌, false, String, Option, none, some}
use kwarm.Kube.{Deployment}
use kwarm.Api.{PrePullImage, PrePullImagePhase}
use kwarm.Cluster.{same_key, NodeFilter, Client, ok}

-- What the API server stores for a resource that it is asked to create: it has the same key and
-- specification and no status yet, and it is not being deleted.
pub record IsCreated (p q : PrePullImage) : Type 0 where
  pub same_spec : q.spec ≡ p.spec
  pub same_namespace : q.meta.namespace ≡ p.meta.namespace
  pub same_name : q.meta.name ≡ p.meta.name
  pub not_deleted : q.meta.deletion_timestamp ≡ none
  pub no_phase : q.status.phase ≡ PrePullImagePhase.unset
  pub no_nodes : q.status.node_status ≡ []

-- `image_at` is a view of the world: the PrePullImage with a namespace and a name. A read shows it, what
-- is created is there, and a call for one key leaves the others.
pub record Storage {W : Type 0} (client : Client W)
    (image_at : String → String → W → Option PrePullImage) : Type 0 where
  pub get_shows :
      (ns name : String) (w : W) (p : PrePullImage)
      → (client.get_prepullimage ns name w).0 ≡ ok p
      → (image_at ns name w ≡ some p) × (p.meta.namespace ≡ ns) × (p.meta.name ≡ name)
  pub get_keeps :
      (ns name k l : String) (w : W)
      → image_at k l (client.get_prepullimage ns name w).1 ≡ image_at k l w
  pub create_stores :
      (p q : PrePullImage) (w : W)
      → (client.create_prepullimage p w).0 ≡ ok q
      → (image_at p.meta.namespace p.meta.name (client.create_prepullimage p w).1 ≡ some q)
        × IsCreated p q
  pub create_keeps :
      (p : PrePullImage) (k l : String) (w : W)
      → same_key p.meta.namespace p.meta.name k l ≡ false
      → image_at k l (client.create_prepullimage p w).1 ≡ image_at k l w
  pub delete_keeps :
      (p : PrePullImage) (k l : String) (w : W)
      → same_key p.meta.namespace p.meta.name k l ≡ false
      → image_at k l (client.delete_prepullimage p w).1 ≡ image_at k l w
  pub update_deployment_keeps :
      (d : Deployment) (k l : String) (w : W)
      → image_at k l (client.update_deployment d w).1 ≡ image_at k l w
  pub list_policies_keeps :
      (k l : String) (w : W) → image_at k l (client.list_policies w).1 ≡ image_at k l w
  pub list_nodes_keeps :
      (f : NodeFilter) (k l : String) (w : W)
      → image_at k l (client.list_nodes f w).1 ≡ image_at k l w
