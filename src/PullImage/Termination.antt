-- ===== src/PullImage/Termination.antt =====
-- The reconciles of one PrePullImage end: with jobs that end, and no other resource at work, the
-- controller closes the resource.
use kwarm.Base.{
  ℕ, zero, suc, ◌+◌, ◌*◌, ◌^◌, ◌≤◌, ◌<◌, ◌≡◌, sym, subst, ◌∙◌, inl, inr, String, List, [], ◌∷◌,
  length, arith, some, none, Bool-cases, true,
}
use kwarm.Api.{PrePullImage, PrePullImagePhase}
use kwarm.Cluster.{Sys, Client, Library}
use kwarm.RateLimiter.Bounds.{IsValid}
use kwarm.RateLimiter.Slots.{Holds}
use kwarm.PullImage.Handlers.{
  with_status, advance, initial_status, set_condition, reconcile, finalizer_name,
}
use kwarm.PullImage.Lifecycle.{initial_status_lem}
use kwarm.PullImage.Stored.{ImageStore, when_read, guarded}
use kwarm.PullImage.Reconciles.{
  IsClosed, IsNew, IsGuarded, reconciles, reconcile-in_progress, reconcile-new, reconcile-unguarded,
}
use kwarm.PullImage.Measure.{total_work, tally-le-work}
use kwarm.PullImage.Effort.{EndsJobs, MakesJobs}
use kwarm.PullImage.Alone.{
  Alone, open_nodes, phase_for-IsClosed, phase_for_open, open-cases, work-fresh_nodes, pass-Alone,
  pass_works, next_phase, fresh-Alone,
}

module _ {W : Type 0} (client : Client W) (lib : Library) (store : ImageStore client) where
  open store use {image_at}

  -- At most `n` reconciles close the stored resource.
  abbrev pub Closes : ℕ → String → String → Sys W → Type 0
  Closes n ns name s =
      (k : ℕ) × (q : PrePullImage) × (k ≤ n)
      × (image_at ns name (reconciles client lib k ns name s).world ≡ some q)
      × IsClosed q.status.phase

  Closes-now :
      (n : ℕ) (ns name : String) (p : PrePullImage) (s : Sys W)
      → image_at ns name s.world ≡ some p
      → IsClosed p.status.phase
      → Closes n ns name s
  unfolding reconciles
  Closes-now n ns name p s e c = (0, p, omega arith, e, c)

  Closes-later :
      (n : ℕ) (ns name : String) (s : Sys W)
      → Closes n ns name (reconcile client lib ns name s).1
      → Closes (suc n) ns name s
  unfolding reconciles
  Closes-later n ns name s c = (suc c.0, c.1, omega (arith, c.2), c.3, c.4)

  in_progress-Closes :
      (n : ℕ) (ppi : PrePullImage) (s : Sys W)
      → ppi.spec.retry.max_attempts < 2 ^ 31
      → EndsJobs client lib
      → MakesJobs client lib
      → image_at ppi.meta.namespace ppi.meta.name s.world ≡ some ppi
      → IsGuarded client lib ppi
      → Alone ppi s.limiter
      → ppi.status.phase ≡ PrePullImagePhase.in_progress
      → 0 < n
      → total_work ppi.spec.retry.max_attempts ppi.status.node_status ≤ n
      → Closes n ppi.meta.namespace ppi.meta.name s
  in_progress-Closes zero ppi s small ends makes stored g h e pos enough = absurd (omega arith)
  in_progress-Closes (suc n) ppi s small ends makes stored g h e pos enough =
      let ns = ppi.meta.namespace in
      let name = ppi.meta.name in
      let t = when_read client lib store ns name s in
      let st = (advance client lib ppi t).0.0 in
      let s' = (reconcile client lib ns name s).1 in
      let next = reconcile-in_progress client lib store ppi s stored g e in
      let left = tally-le-work ppi.spec.retry.max_attempts st.node_status in
      let phase = next_phase client lib ppi t h.few e in
      Closes-later n ns name s (elim (open-cases (open_nodes st.node_status)) [
        | inl done ↦
            Closes-now n ns name (with_status ppi st) s' next.0
              (subst IsClosed (sym phase) (phase_for-IsClosed _ _ done))
        | inr more ↦ elim (pass_works client lib ppi t small ends makes h) [
          | inl less ↦
              in_progress-Closes n (with_status ppi st) s' small ends makes next.0 g
                (subst (Alone (with_status ppi st)) (sym next.1)
                  (pass-Alone client lib ppi t small ends h))
                (phase ∙ phase_for_open _ _ more) (omega (arith, left.0)) (omega arith)
          | inr gone ↦ absurd (omega (arith, left.0))
        ]
      ])

  new-Closes :
      (ppi : PrePullImage) (node : String) (nodes : List String) (s : Sys W)
      → ppi.spec.retry.max_attempts < 2 ^ 31
      → length (node ∷ nodes) < 2 ^ 31
      → EndsJobs client lib
      → MakesJobs client lib
      → image_at ppi.meta.namespace ppi.meta.name s.world ≡ some ppi
      → IsGuarded client lib ppi
      → IsNew ppi.status.phase
      → ppi.spec.nodes.names ≡ node ∷ nodes
      → IsValid s.limiter
      → Holds s.limiter []
      → Closes
          (suc (length (node ∷ nodes) * (2 * (ppi.spec.retry.max_attempts + 1))))
          ppi.meta.namespace
          ppi.meta.name
          s
  unfolding initial_status set_condition
  new-Closes ppi node nodes s small few ends makes stored g new names v h =
      let t = when_read client lib store ppi.meta.namespace ppi.meta.name s in
      let next = reconcile-new client lib store ppi node nodes s stored g new names in
      let work = work-fresh_nodes ppi.spec.retry.max_attempts (node ∷ nodes) in
      Closes-later _ ppi.meta.namespace ppi.meta.name s (
        in_progress-Closes _ (with_status ppi (initial_status client lib ppi (node ∷ nodes) t).0)
          (reconcile client lib ppi.meta.namespace ppi.meta.name s).1 small ends makes next.0 g
          (subst (Alone _) (sym next.1) (fresh-Alone client lib ppi (node ∷ nodes) t few v h))
          (initial_status_lem client lib ppi (node ∷ nodes) [] t).0 (omega arith)
          (omega (arith, work)))

  Closes-by :
      (n m : ℕ) (ns name : String) (s : Sys W) → n ≤ m → Closes n ns name s → Closes m ns name s
  Closes-by n m ns name s h c = (c.0, c.1, omega (arith, h, c.2), c.3, c.4)

  -- A new PrePullImage with named nodes that is stored and not being deleted, and is the only one
  -- reconciled, is closed, as completed or failed, at some time within two reconciles and twice
  -- `maxAttempts + 1` more for each node: where no slot of the limiter is held, each job that is
  -- asked for has ended or is gone, each job that is created is there afterwards, the API server
  -- stores what it is given, a finalizer that is added is found, `maxAttempts` is not negative, and
  -- there are fewer than 2 ^ 31 nodes.
  pub reconciles-IsClosed :
      (ppi : PrePullImage) (node : String) (nodes : List String) (s : Sys W)
      → ppi.spec.retry.max_attempts < 2 ^ 31
      → length (node ∷ nodes) < 2 ^ 31
      → EndsJobs client lib
      → MakesJobs client lib
      → ((l : List String) (x : String) → lib.contains_finalizer (lib.add_finalizer l x) x ≡ true)
      → image_at ppi.meta.namespace ppi.meta.name s.world ≡ some ppi
      → ppi.meta.deletion_timestamp ≡ none
      → IsNew ppi.status.phase
      → ppi.spec.nodes.names ≡ node ∷ nodes
      → IsValid s.limiter
      → Holds s.limiter []
      → (k : ℕ) × (q : PrePullImage) × (k
          ≤ 2 + length (node ∷ nodes) * (2 * (ppi.spec.retry.max_attempts + 1)))
        × (image_at ppi.meta.namespace ppi.meta.name
              (reconciles client lib k ppi.meta.namespace ppi.meta.name s).world
            ≡ some q)
        × IsClosed q.status.phase
  reconciles-IsClosed ppi node nodes s small few ends makes adds stored d new names v h =
      let ns = ppi.meta.namespace in
      let name = ppi.meta.name in
      let found = lib.contains_finalizer ppi.meta.finalizers finalizer_name in
      elim (Bool-cases found) [
        | inl there ↦
            Closes-by _ _ ns name s (omega arith)
              (new-Closes ppi node nodes s small few ends makes stored (d, there) new names v h)
        | inr gone ↦
            let next = reconcile-unguarded client lib store ppi s stored d gone in
            Closes-by _ _ ns name s (omega arith) (
              Closes-later _ ns name s (
                new-Closes (guarded client lib store ppi) node nodes
                  (reconcile client lib ns name s).1 small few ends makes next.0
                  (d, adds ppi.meta.finalizers finalizer_name) new names
                  (subst IsValid (sym next.1) v) (subst (λ r. Holds r []) (sym next.1) h)))
      ]
