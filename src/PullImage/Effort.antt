-- ===== src/PullImage/Effort.antt =====
-- What one pass over the nodes takes from the work that is left, when the jobs end and no other
-- resource holds a slot.
use kwarm.Base.{
  ℕ, ◌+◌, ◌^◌, ◌≤◌, ◌<◌, ◌≡◌, refl, ◌⊎◌, inl, inr, true, String, List, [], ◌∷◌, some, arith, ap,
  sym, subst, ◌∙◌,
}
use kwarm.Kube.{Job}
use kwarm.Api.{PrePullImage, NodeStatus, NodePullStatus}
use kwarm.Cluster.{Outcome, ok, err, Reason, Sys, Client, Library}
use kwarm.RateLimiter.{RateLimiter, try_acquire}
use kwarm.RateLimiter.Bounds.{IsValid}
use kwarm.RateLimiter.Slots.{Holds, count, has_room, try_acquire_granted}
use kwarm.Puller.{PullState, get_job_status, operator_namespace, create_pull_job, get_job, pull_job}
use kwarm.PullImage.Census.{is_pending, is_pulling, tally}
use kwarm.PullImage.Steps.{visit-NodeStep}
use kwarm.PullImage.Measure.{work, total_work, IsBelow, step-work}
use kwarm.PullImage.Node.{
  Tally, visit, visit_all, visit_pending, visit_pulling, start_pull_job, check_job_status, judge,
}

-- The job that was asked for has ended, or it is gone.
abbrev pub IsEnded : Outcome Job → Type 0
IsEnded (ok job) =
    (get_job_status (some job) ≡ PullState.succeeded)
    ⊎ (get_job_status (some job) ≡ PullState.failed)
IsEnded (err e) = e.reason ≡ Reason.not_found

-- The job that was to be made is there.
abbrev pub IsMade : Outcome Job → Type 0
IsMade (ok job) = Unit
IsMade (err e) = e.reason ≡ Reason.already_exists

leaves-work :
    (max : ℕ) (n m : NodeStatus) (st : NodePullStatus)
    → n.status ≡ st
    → (m ≡ n) ⊎ (work max m + 1 ≤ work max n)
    → (n.status ≡ NodePullStatus.pulling → is_pulling m.status ≡ 0)
    → work max m + is_pulling n.status ≤ work max n
leaves-work max n m NodePullStatus.pulling e (inl same) f =
    ground (arith, f e, ap (λ (x : NodeStatus). is_pulling x.status) same)
leaves-work max n m _ e (inl same) f = ground (arith, ap (work max) same)
leaves-work max n m _ e (inr less) f = ground arith

enters-work :
    (max : ℕ) (n m : NodeStatus)
    → n.status ≡ NodePullStatus.pending
    → m.status ≡ NodePullStatus.pulling
    → (m ≡ n) ⊎ (work max m + 1 ≤ work max n)
    → work max m + 1 ≤ work max n
enters-work max n m p q (inl same) = ground (arith, ap (λ (x : NodeStatus). x.status) same)
enters-work max n m p q (inr less) = less

pending-cases : (st : NodePullStatus) → (st ≡ NodePullStatus.pending) ⊎ (is_pending st ≡ 0)
pending-cases NodePullStatus.pending = inl refl
pending-cases _ = inr refl

room :
    (r : RateLimiter) (node : String)
    → IsValid r
    → has_room r.max_concurrent_pulls r.max_pulls_per_node node [] ≡ true
unfolding has_room count
room r node v = ground arith

module _ {W : Type 0} (client : Client W) (lib : Library) where
  abbrev pub EndsJobs : Type 0
  EndsJobs = (name : String) (w : W) → IsEnded (client.get_job operator_namespace name w).0

  abbrev pub MakesJobs : Type 0
  MakesJobs = (job : Job) (w : W) → IsMade (client.create_job job w).0

  visit-ended :
      (ppi : PrePullImage) (ns : NodeStatus) (t : Tally) (s : Sys W)
      → ns.status ≡ NodePullStatus.pulling
      → IsEnded (client.get_job operator_namespace ns.job_name s.world).0
      → is_pulling (visit client lib ppi ns t s).0.0.status ≡ 0
  unfolding visit visit_pulling check_job_status judge get_job
  visit-ended ppi ns t s e h = ground arith

  visit-granted :
      (ppi : PrePullImage) (ns : NodeStatus) (t : Tally) (s : Sys W)
      → ns.status ≡ NodePullStatus.pending
      → IsMade (client.create_job (pull_job lib ppi ns.node) s.world).0
      → (try_acquire s.limiter ns.node).1 ≡ true
      → (visit client lib ppi ns t s).0.0.status ≡ NodePullStatus.pulling
  unfolding visit visit_pending start_pull_job create_pull_job
  visit-granted ppi ns t s e made g = ground arith

  -- A visit keeps the retries below and adds no work; from a pulling node it takes some.
  visit-work :
      (ppi : PrePullImage) (ns : NodeStatus) (t : Tally) (s : Sys W)
      → ppi.spec.retry.max_attempts < 2 ^ 31
      → ns.retry_count ≤ ppi.spec.retry.max_attempts
      → EndsJobs
      → let max = ppi.spec.retry.max_attempts in
        let m = (visit client lib ppi ns t s).0.0 in
        (m.retry_count ≤ max) × (work max m + is_pulling ns.status ≤ work max ns)
  visit-work ppi ns t s small below ends =
      let m = (visit client lib ppi ns t s).0.0 in
      let moved =
        step-work ppi.spec.retry.max_attempts ns m small below
          (visit-NodeStep client lib ppi ns t s ns.status refl) in
      (
        moved.0,
        leaves-work ppi.spec.retry.max_attempts ns m ns.status refl moved.1
            (λ e. visit-ended ppi ns t s e (ends ns.job_name s.world)),
      )

  -- One pass takes from the work at least one for each pulling node.
  pub visit_all-work :
      (ppi : PrePullImage) (nodes : List NodeStatus) (t : Tally) (s : Sys W)
      → ppi.spec.retry.max_attempts < 2 ^ 31
      → IsBelow ppi.spec.retry.max_attempts nodes
      → EndsJobs
      → let max = ppi.spec.retry.max_attempts in
        let ms = (visit_all client lib ppi nodes t s).0.0 in
        IsBelow max ms × (total_work max ms + tally is_pulling nodes ≤ total_work max nodes)
  unfolding visit_all total_work tally
  visit_all-work ppi [] t s small below ends = (tt, omega arith)
  visit_all-work ppi (ns ∷ rest) t s small below ends =
      let r = visit client lib ppi ns t s in
      let now = visit-work ppi ns t s small below.0 ends in
      let later = visit_all-work ppi rest r.0.1 r.1 small below.1 ends in
      ((now.0, later.0), omega (arith, now.1, later.1))

  -- A pending node is granted a slot when nobody holds one, and is then pulling.
  visit-starts :
      (ppi : PrePullImage) (ns : NodeStatus) (t : Tally) (s : Sys W)
      → ppi.spec.retry.max_attempts < 2 ^ 31
      → ns.retry_count ≤ ppi.spec.retry.max_attempts
      → MakesJobs
      → IsValid s.limiter
      → Holds s.limiter []
      → ns.status ≡ NodePullStatus.pending
      → let max = ppi.spec.retry.max_attempts in
        work max (visit client lib ppi ns t s).0.0 + 1 ≤ work max ns
  visit-starts ppi ns t s small below makes v h e =
      let granted = try_acquire_granted s.limiter ns.node [] h ∙ room s.limiter ns.node v in
      enters-work ppi.spec.retry.max_attempts ns (visit client lib ppi ns t s).0.0 e
        (visit-granted ppi ns t s e (makes (pull_job lib ppi ns.node) s.world) granted)
        (step-work ppi.spec.retry.max_attempts ns (visit client lib ppi ns t s).0.0 small below
          (visit-NodeStep client lib ppi ns t s ns.status refl)).1

  -- A node that is neither pending nor pulling is left alone.
  visit-idle :
      (ppi : PrePullImage) (ns : NodeStatus) (t : Tally) (s : Sys W) (st : NodePullStatus)
      → ns.status ≡ st
      → is_pending ns.status + is_pulling ns.status ≡ 0
      → ((visit client lib ppi ns t s).0.0 ≡ ns) × ((visit client lib ppi ns t s).1 ≡ s)
  unfolding visit
  visit-idle ppi ns t s st e h = ground arith

  -- When nobody holds a slot, a pass with a pending node starts a pull.
  pub visit_all-starts :
      (ppi : PrePullImage) (nodes : List NodeStatus) (t : Tally) (s : Sys W)
      → ppi.spec.retry.max_attempts < 2 ^ 31
      → IsBelow ppi.spec.retry.max_attempts nodes
      → EndsJobs
      → MakesJobs
      → IsValid s.limiter
      → Holds s.limiter []
      → tally is_pulling nodes ≡ 0
      → 0 < tally is_pending nodes
      → let max = ppi.spec.retry.max_attempts in
        total_work max (visit_all client lib ppi nodes t s).0.0 + 1 ≤ total_work max nodes
  unfolding visit_all total_work tally
  visit_all-starts ppi [] t s small below ends makes v h idle some_pending = absurd (omega arith)
  visit_all-starts ppi (ns ∷ rest) t s small below ends makes v h idle some_pending =
      let max = ppi.spec.retry.max_attempts in
      let r = visit client lib ppi ns t s in
      let later = visit_all-work ppi rest r.0.1 r.1 small below.1 ends in
      elim (pending-cases ns.status) [
        | inl e ↦ omega (arith, visit-starts ppi ns t s small below.0 makes v h e, later.1)
        | inr e ↦
            let same = visit-idle ppi ns t s ns.status refl (omega arith) in
            let starts =
              visit_all-starts ppi rest r.0.1 r.1 small below.1 ends makes
                (subst (λ (x : Sys W). IsValid x.limiter) (sym same.1) v)
                (subst (λ (x : Sys W). Holds x.limiter []) (sym same.1) h) (omega arith)
                (omega arith) in
            omega (arith, starts, ap (work max) same.0)
      ]
