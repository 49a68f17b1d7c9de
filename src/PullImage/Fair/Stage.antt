-- ===== src/PullImage/Fair/Stage.antt =====
-- How far a PrePullImage is, by the number of reconciles that it may still need, and a turn: one
-- reconcile of a resource that is not closed yet.
use kwarm.Base.{
  ℕ, ◌+◌, ◌*◌, ◌^◌, ◌<◌, ◌≡◌, ◌⊎◌, inl, inr, false, String, List, ◌∷◌, length, none, some, arith,
}
use kwarm.Api.{PrePullImage, PrePullImagePhase}
use kwarm.Cluster.{Sys, Client, Library}
use kwarm.PullImage.Census.{is_pulling, tally}
use kwarm.PullImage.Measure.{total_work, IsBelow}
use kwarm.PullImage.Handlers.{finalizer_name, reconcile}
use kwarm.PullImage.Stored.{ImageStore}
use kwarm.PullImage.Reconciles.{IsClosed, IsNew, IsGuarded}

-- The work on a number of nodes that are all pending.
abbrev pub fresh_work : PrePullImage → List String → ℕ
fresh_work p names = length names * (2 * (p.spec.retry.max_attempts + 1))

-- New with named nodes, and no node pulls.
pub record IsWaiting (p : PrePullImage) (node : String) (nodes : List String) : Type 0 where
  pub new : IsNew p.status.phase
  pub named : p.spec.nodes.names ≡ node ∷ nodes
  pub few : length (node ∷ nodes) < 2 ^ 31
  pub idle : tally is_pulling p.status.node_status ≡ 0

module _ {W : Type 0} (client : Client W) (lib : Library) where
  -- Without the finalizer, with it, in progress, and closed.
  pub data Stage (p : PrePullImage) : ℕ → Type 0 where
    unguarded :
        (node : String) (nodes : List String)
        → IsWaiting p node nodes
        → p.meta.deletion_timestamp ≡ none
        → lib.contains_finalizer p.meta.finalizers finalizer_name ≡ false
        → Stage p (3 + fresh_work p (node ∷ nodes))
    waiting :
        (node : String) (nodes : List String)
        → IsWaiting p node nodes
        → IsGuarded client lib p
        → Stage p (2 + fresh_work p (node ∷ nodes))
    working :
        p.status.phase ≡ PrePullImagePhase.in_progress
        → IsGuarded client lib p
        → IsBelow p.spec.retry.max_attempts p.status.node_status
        → length p.status.node_status < 2 ^ 31
        → Stage p (1 + total_work p.spec.retry.max_attempts p.status.node_status)
    closed : IsClosed p.status.phase → tally is_pulling p.status.node_status ≡ 0 → Stage p 0

  module _ (store : ImageStore client) where
    open store use {image_at}

    unfoldable pub turn : String → String → Sys W → Sys W
    turn ns name s = elim (image_at ns name s.world) [
      | none ↦ s
      | some p ↦ elim p.status.phase [
        | PrePullImagePhase.completed ↦ s
        | PrePullImagePhase.failed ↦ s
        | _ ↦ (reconcile client lib ns name s).1
      ]
    ]

    pub turn-open :
        (ns name : String) (p : PrePullImage) (s : Sys W)
        → image_at ns name s.world ≡ some p
        → (p.status.phase ≡ PrePullImagePhase.in_progress) ⊎ IsNew p.status.phase
        → turn ns name s ≡ (reconcile client lib ns name s).1
    unfolding turn
    turn-open ns name p s e (inl i) = ground (arith, e, i)
    turn-open ns name p s e (inr (inl i)) = ground (arith, e, i)
    turn-open ns name p s e (inr (inr i)) = ground (arith, e, i)

    pub turn-closed :
        (ns name : String) (p : PrePullImage) (s : Sys W)
        → image_at ns name s.world ≡ some p
        → IsClosed p.status.phase
        → turn ns name s ≡ s
    unfolding turn
    turn-closed ns name p s e (inl c) = ground (arith, e, c)
    turn-closed ns name p s e (inr c) = ground (arith, e, c)
