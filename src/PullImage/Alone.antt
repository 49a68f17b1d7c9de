-- ===== src/PullImage/Alone.antt =====
-- What a reconcile leaves of a resource that is alone: the work that is left, and the phase.
use kwarm.Base.{
  ℕ, zero, suc, ◌+◌, ◌*◌, ◌^◌, ◌≤◌, ◌<◌, ◌≡◌, refl, subst, ap, ◌∙◌, ◌⊎◌, inl, inr, String, List, [],
  ◌∷◌, length, arith,
}
use kwarm.Api.{PrePullImage, PrePullImagePhase, NodeStatus}
use kwarm.Cluster.{Sys, Client, Library}
use kwarm.RateLimiter.{RateLimiter}
use kwarm.RateLimiter.Bounds.{IsValid}
use kwarm.RateLimiter.Slots.{Holds}
use kwarm.PullImage.Census.{held, is_pending, is_pulling, is_failed, tally, phase_for}
use kwarm.PullImage.Handlers.{
  with_status, advance, no_tally, handle_in_progress, initial_status, set_condition, fresh_nodes,
}
use kwarm.PullImage.Summary.{advance_nodes, advance_phase, advance_summary}
use kwarm.PullImage.Slots.{advance-Holds}
use kwarm.RateLimiter.Views.{Within-view}
use kwarm.PullImage.Keeps.{handle_in_progress_limiter, advance_keeps}
use kwarm.PullImage.Lifecycle.{held-fresh_nodes}
use kwarm.PullImage.Reconciles.{IsClosed}
use kwarm.PullImage.Measure.{total_work, IsBelow, tally-le-work}
use kwarm.PullImage.Effort.{EndsJobs, MakesJobs, visit_all-work, visit_all-starts}

abbrev pub open_nodes : List NodeStatus → ℕ
open_nodes nodes = tally is_pending nodes + tally is_pulling nodes

held-idle : (nodes : List NodeStatus) → tally is_pulling nodes ≡ 0 → held nodes [] ≡ []
unfolding held tally
held-idle [] h = refl
held-idle (ns ∷ rest) h = ground (arith, held-idle rest)

pub phase_for-IsClosed :
    (failed_nodes n : ℕ) → n ≡ 0 → IsClosed (phase_for PrePullImagePhase.in_progress n failed_nodes)
unfolding phase_for
phase_for-IsClosed failed_nodes n h = ground arith

pub phase_for_open :
    (failed_nodes n : ℕ)
    → 0 < n
    → phase_for PrePullImagePhase.in_progress n failed_nodes ≡ PrePullImagePhase.in_progress
unfolding phase_for
phase_for_open failed_nodes n h = ground arith

pub open-cases : (n : ℕ) → (n ≡ 0) ⊎ (0 < n)
open-cases zero = inl refl
open-cases (suc n) = inr (omega arith)

pub fresh-IsBelow : (max : ℕ) (names : List String) → IsBelow max (fresh_nodes names)
unfolding fresh_nodes
fresh-IsBelow max [] = tt
fresh-IsBelow max (name ∷ names) = (omega arith, fresh-IsBelow max names)

pub length-fresh_nodes : (names : List String) → length (fresh_nodes names) ≡ length names
unfolding fresh_nodes
length-fresh_nodes [] = refl
length-fresh_nodes (name ∷ names) = ap suc (length-fresh_nodes names)

pub work-fresh_nodes :
    (max : ℕ) (names : List String)
    → total_work max (fresh_nodes names) ≡ length names * (2 * (max + 1))
unfolding fresh_nodes total_work
work-fresh_nodes max [] = omega arith
work-fresh_nodes max (name ∷ names) = omega (arith, work-fresh_nodes max names)

-- What holds between the reconciles of a resource that is alone.
pub record Alone (ppi : PrePullImage) (r : RateLimiter) : Type 0 where
  pub below : IsBelow ppi.spec.retry.max_attempts ppi.status.node_status
  pub few : length ppi.status.node_status < 2 ^ 31
  pub valid : IsValid r
  pub holds : Holds r (held ppi.status.node_status [])

module _ {W : Type 0} (client : Client W) (lib : Library) where
  pub pass-Alone :
      (ppi : PrePullImage) (s : Sys W)
      → ppi.spec.retry.max_attempts < 2 ^ 31
      → EndsJobs client lib
      → Alone ppi s.limiter
      → Alone
          (with_status ppi (advance client lib ppi s).0.0)
          (handle_in_progress client lib ppi s).1.limiter
  pass-Alone ppi s small ends h = record {
    below =
        rw (advance_nodes client lib ppi s)
          (visit_all-work client lib ppi ppi.status.node_status no_tally s small h.below ends).0;
    few = omega (arith, (advance_summary client lib ppi s).5, h.few);
    valid =
        rw (handle_in_progress_limiter client lib ppi s)
          (advance_keeps client lib Within-view ppi s []
            (record { valid = h.valid; concurrent_kept = refl; per_node_kept = refl })).valid;
    holds =
        rw (handle_in_progress_limiter client lib ppi s)
          (advance-Holds client lib ppi s [] h.holds);
  }

  pub pass_works :
      (ppi : PrePullImage) (s : Sys W)
      → ppi.spec.retry.max_attempts < 2 ^ 31
      → EndsJobs client lib
      → MakesJobs client lib
      → Alone ppi s.limiter
      → let max = ppi.spec.retry.max_attempts in
        let left = total_work max (advance client lib ppi s).0.0.node_status in
        left + 1 ≤ total_work max ppi.status.node_status ⊎ (left ≡ 0)
  pass_works ppi s small ends makes h =
      let max = ppi.spec.retry.max_attempts in
      let nodes = ppi.status.node_status in
      let left = visit_all-work client lib ppi nodes no_tally s small h.below ends in
      rw (advance_nodes client lib ppi s) (elim (open-cases (tally is_pulling nodes)) [
        | inr busy ↦ inl (omega (arith, left.1))
        | inl idle ↦ elim (open-cases (tally is_pending nodes)) [
          | inl done ↦ inr (omega (arith, left.1, (tally-le-work max nodes).1 (omega arith)))
          | inr waits ↦ inl (
              visit_all-starts client lib ppi nodes no_tally s small h.below ends makes h.valid
                (subst (Holds s.limiter) (held-idle nodes idle) h.holds) idle waits)
        ]
      ])

  -- The phase after a pass, by the nodes that are still open.
  pub next_phase :
      (ppi : PrePullImage) (s : Sys W)
      → length ppi.status.node_status < 2 ^ 31
      → ppi.status.phase ≡ PrePullImagePhase.in_progress
      → let st = (advance client lib ppi s).0.0 in
        st.phase
        ≡ phase_for PrePullImagePhase.in_progress
            (open_nodes st.node_status)
            (tally is_failed st.node_status)
  next_phase ppi s few e =
      let nodes = (advance client lib ppi s).0.0.node_status in
      advance_phase client lib ppi s few
      ∙ ap (λ old. phase_for old (open_nodes nodes) (tally is_failed nodes)) e

  pub fresh-Alone :
      (ppi : PrePullImage) (names : List String) (s : Sys W)
      → length names < 2 ^ 31
      → IsValid s.limiter
      → Holds s.limiter []
      → Alone (with_status ppi (initial_status client lib ppi names s).0) s.limiter
  unfolding initial_status set_condition
  fresh-Alone ppi names s few v h = record {
    below = fresh-IsBelow ppi.spec.retry.max_attempts names;
    few = rw (length-fresh_nodes names) few;
    valid = v;
    holds = rw (held-fresh_nodes names []) h;
  }
