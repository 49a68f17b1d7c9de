-- ===== src/PullImage/Fair/Turn.antt =====
-- What a turn leaves of its resource, of the limiter, and of the number of reconciles still needed.
use kwarm.Base.{
  ℕ, ◌+◌, ◌^◌, ◌≤◌, ◌<◌, ◌≡◌, refl, sym, subst, ◌∙◌, inl, inr, true, String, List, [], ◌∷◌, length,
  some, arith,
}
use kwarm.Api.{PrePullImage, PrePullImagePhase, NodeStatus}
use kwarm.Cluster.{Sys, Client, Library}
use kwarm.RateLimiter.Bounds.{IsValid}
use kwarm.RateLimiter.Slots.{Holds}
use kwarm.RateLimiter.Views.{Within-view}
use kwarm.PullImage.Census.{held, is_pulling, tally}
use kwarm.PullImage.Measure.{total_work, IsBelow, tally-le-work}
use kwarm.PullImage.Effort.{EndsJobs, MakesJobs, visit_all-work}
use kwarm.PullImage.Handlers.{
  with_status, advance, no_tally, initial_status, reconcile, handle_in_progress, set_condition,
  finalizer_name, fresh_nodes,
}
use kwarm.PullImage.Summary.{advance_nodes, advance_summary}
use kwarm.PullImage.Slots.{advance-Holds}
use kwarm.PullImage.Keeps.{handle_in_progress_limiter, advance_keeps}
use kwarm.PullImage.Lifecycle.{initial_status_lem}
use kwarm.PullImage.Stored.{ImageStore, when_read, guarded}
use kwarm.PullImage.Reconciles.{
  IsClosed, IsGuarded, reconcile-in_progress, reconcile-new, reconcile-unguarded,
}
use kwarm.PullImage.Alone.{
  Alone, open_nodes, phase_for-IsClosed, phase_for_open, open-cases, work-fresh_nodes, pass_works,
  next_phase, fresh-IsBelow, length-fresh_nodes,
}
use kwarm.PullImage.Fair.Stage.{
  fresh_work, IsWaiting, Stage, unguarded, waiting, working, closed, turn, turn-open, turn-closed,
}

abbrev pub pulling : PrePullImage → ℕ
pulling p = tally is_pulling p.status.node_status

pub held_idle :
    (nodes : List NodeStatus) (others : List String)
    → tally is_pulling nodes ≡ 0
    → held nodes others ≡ others
unfolding held tally
held_idle [] others h = refl
held_idle (ns ∷ rest) others h = ground (arith, held_idle rest others)

fresh_idle : (names : List String) → tally is_pulling (fresh_nodes names) ≡ 0
unfolding fresh_nodes tally
fresh_idle [] = refl
fresh_idle (name ∷ names) = omega (arith, fresh_idle names)

module _ {W : Type 0} (client : Client W) (lib : Library) (store : ImageStore client) where
  open store use {image_at}

  -- What `handlePending` stores.
  fresh_quiet :
      (p : PrePullImage) (node : String) (nodes : List String) (s : Sys W)
      → pulling (with_status p (initial_status client lib p (node ∷ nodes) s).0) ≡ 0
  unfolding initial_status set_condition
  fresh_quiet p node nodes s = fresh_idle (node ∷ nodes)

  fresh-Stage :
      (p : PrePullImage) (node : String) (nodes : List String) (s : Sys W)
      → IsWaiting p node nodes
      → IsGuarded client lib p
      → Stage client lib
          (with_status p (initial_status client lib p (node ∷ nodes) s).0)
          (1 + fresh_work p (node ∷ nodes))
  unfolding initial_status set_condition
  fresh-Stage p node nodes s w g =
      let q = with_status p (initial_status client lib p (node ∷ nodes) s).0 in
      subst (λ n. Stage client lib q (1 + n))
        (work-fresh_nodes p.spec.retry.max_attempts (node ∷ nodes))
        (working (initial_status_lem client lib p (node ∷ nodes) [] s).0 g
          (fresh-IsBelow p.spec.retry.max_attempts (node ∷ nodes))
          (rw (length-fresh_nodes (node ∷ nodes)) w.few))

  -- The resource is stored, at a stage, and its `maxAttempts` is not negative.
  pub record Ready (p : PrePullImage) (n : ℕ) (w : W) : Type 0 where
    pub stage : Stage client lib p n
    pub small : p.spec.retry.max_attempts < 2 ^ 31
    pub stored : image_at p.meta.namespace p.meta.name w ≡ some p

  -- After a turn of `p` at stage `n`: the limiter holds the slots of the resource and those of others,
  -- at least one reconcile less is needed for each node that was pulling, and one less when no slot
  -- was held.
  pub record Turned (p : PrePullImage) (n : ℕ) (others : List String) (s' : Sys W) : Type 0 where
    pub now : PrePullImage
    pub left : ℕ
    pub same_namespace : now.meta.namespace ≡ p.meta.namespace
    pub same_name : now.meta.name ≡ p.meta.name
    pub ready : Ready now left s'.world
    pub valid : IsValid s'.limiter
    pub holds : Holds s'.limiter (held now.status.node_status others)
    pub less : left + pulling p ≤ n
    pub works : others ≡ [] → pulling p ≡ 0 → 0 < n → left + 1 ≤ n

  module _ (ends : EndsJobs client lib) (makes : MakesJobs client lib) where
    pass-Turned :
        (p : PrePullImage) (others : List String) (t s' : Sys W)
        → p.spec.retry.max_attempts < 2 ^ 31
        → p.status.phase ≡ PrePullImagePhase.in_progress
        → IsGuarded client lib p
        → IsBelow p.spec.retry.max_attempts p.status.node_status
        → length p.status.node_status < 2 ^ 31
        → IsValid t.limiter
        → Holds t.limiter (held p.status.node_status others)
        → image_at p.meta.namespace p.meta.name s'.world
          ≡ some (with_status p (advance client lib p t).0.0)
        → s'.limiter ≡ (handle_in_progress client lib p t).1.limiter
        → Turned p (1 + total_work p.spec.retry.max_attempts p.status.node_status) others s'
    pass-Turned p others t s' small e g below few v h stored limiter =
        let max = p.spec.retry.max_attempts in
        let nodes = p.status.node_status in
        let st = (advance client lib p t).0.0 in
        let q = with_status p st in
        let work =
          subst
            (λ ms.
              IsBelow max ms × (total_work max ms + tally is_pulling nodes ≤ total_work max nodes))
            (sym (advance_nodes client lib p t))
            (visit_all-work client lib p nodes no_tally t small below ends) in
        let phase = next_phase client lib p t few e in
        let same = limiter ∙ handle_in_progress_limiter client lib p t in
        let valid' =
          subst IsValid (sym same)
            (advance_keeps client lib Within-view p t others
              (record { valid = v; concurrent_kept = refl; per_node_kept = refl })).valid in
        let holds' =
          subst (λ r. Holds r (held st.node_status others)) (sym same)
            (advance-Holds client lib p t others h) in
        let alone : others ≡ [] → Alone p t.limiter = λ none_else. record {
          below = below;
          few = few;
          valid = v;
          holds = subst (λ o. Holds t.limiter (held nodes o)) none_else h;
        } in
        elim (open-cases (open_nodes st.node_status)) [
          | inl done ↦ record {
            now = q;
            left = 0;
            same_namespace = refl;
            same_name = refl;
            ready = record {
              stage =
                  closed (subst IsClosed (sym phase) (phase_for-IsClosed _ _ done))
                    (omega (arith, done));
              small = small;
              stored = stored;
            };
            valid = valid';
            holds = holds';
            less = omega (arith, work.1);
            works = λ a b c. omega arith;
          }
          | inr more ↦ record {
            now = q;
            left = 1 + total_work max st.node_status;
            same_namespace = refl;
            same_name = refl;
            ready = record {
              stage =
                  working (phase ∙ phase_for_open _ _ more) g work.0
                    (omega (arith, (advance_summary client lib p t).5, few));
              small = small;
              stored = stored;
            };
            valid = valid';
            holds = holds';
            less = omega (arith, work.1);
            works = λ a b c. elim (pass_works client lib p t small ends makes (alone a)) [
              | inl less ↦ omega (arith, less)
              | inr gone ↦ absurd (omega (arith, gone, (tally-le-work max st.node_status).0, more))
            ];
          }
        ]

    -- A resource that starts to wait, or to pull, holds no slot before or after.
    quiet-Turned :
        (p q : PrePullImage) (n m : ℕ) (others : List String) (s s' : Sys W)
        → q.meta.namespace ≡ p.meta.namespace
        → q.meta.name ≡ p.meta.name
        → Ready q m s'.world
        → m + 1 ≤ n
        → pulling p ≡ 0
        → pulling q ≡ 0
        → s'.limiter ≡ s.limiter
        → IsValid s.limiter
        → Holds s.limiter (held p.status.node_status others)
        → Turned p n others s'
    quiet-Turned p q n m others s s' a b ready less idle quiet same v h = record {
      now = q;
      left = m;
      same_namespace = a;
      same_name = b;
      ready = ready;
      valid = subst IsValid (sym same) v;
      holds =
          subst (λ o. Holds s'.limiter o)
            (held_idle p.status.node_status others idle
              ∙ sym (held_idle q.status.node_status others quiet))
            (subst (λ r. Holds r (held p.status.node_status others)) (sym same) h);
      less = omega (arith, less, idle);
      works = λ c d e. less;
    }

    pub turn-Turned :
        (p : PrePullImage) (n : ℕ) (others : List String) (s : Sys W)
        → ((l : List String) (x : String) → lib.contains_finalizer (lib.add_finalizer l x) x ≡ true)
        → Ready p n s.world
        → Stage client lib p n
        → IsValid s.limiter
        → Holds s.limiter (held p.status.node_status others)
        → Turned p n others (turn client lib store p.meta.namespace p.meta.name s)
    turn-Turned p n others s adds r (unguarded node nodes w d g) v h =
        let ns = p.meta.namespace in
        let name = p.meta.name in
        let next = reconcile-unguarded client lib store p s r.stored d g in
        subst (Turned p n others)
          (sym (turn-open client lib store ns name p s r.stored (inr w.new)))
          (quiet-Turned p (guarded client lib store p) _ _ others s
            (reconcile client lib ns name s).1 refl refl
            (record {
              stage =
                  waiting node nodes
                    (record { new = w.new; named = w.named; few = w.few; idle = w.idle })
                    (d, adds p.meta.finalizers finalizer_name);
              small = r.small;
              stored = next.0;
            })
            (omega arith) w.idle w.idle next.1 v h)
    turn-Turned p n others s adds r (waiting node nodes w g) v h =
        let ns = p.meta.namespace in
        let name = p.meta.name in
        let t = when_read client lib store ns name s in
        let next = reconcile-new client lib store p node nodes s r.stored g w.new w.named in
        let q = with_status p (initial_status client lib p (node ∷ nodes) t).0 in
        subst (Turned p n others)
          (sym (turn-open client lib store ns name p s r.stored (inr w.new)))
          (quiet-Turned p q _ _ others s (reconcile client lib ns name s).1 refl refl
            (record { stage = fresh-Stage p node nodes t w g; small = r.small; stored = next.0 })
            (omega arith) w.idle (fresh_quiet p node nodes t) next.1 v h)
    turn-Turned p n others s adds r (working e g below few) v h =
        let ns = p.meta.namespace in
        let name = p.meta.name in
        let t = when_read client lib store ns name s in
        let next = reconcile-in_progress client lib store p s r.stored g e in
        subst (Turned p n others) (sym (turn-open client lib store ns name p s r.stored (inl e))) (
          pass-Turned p others t (reconcile client lib ns name s).1 r.small e g below few v h next.0
            next.1)
    turn-Turned p n others s adds r (closed c idle) v h =
        subst (Turned p n others)
          (sym (turn-closed client lib store p.meta.namespace p.meta.name p s r.stored c))
          (record {
            now = p;
            left = 0;
            same_namespace = refl;
            same_name = refl;
            ready = r;
            valid = v;
            holds = h;
            less = omega (arith, idle);
            works = λ a b z. absurd (omega arith);
          })
