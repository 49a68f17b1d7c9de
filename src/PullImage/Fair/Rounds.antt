-- ===== src/PullImage/Fair/Rounds.antt =====
-- The rounds of several PrePullImages that share the rate limiter come to an end.
use kwarm.Base.{
  ℕ, zero, suc, ◌+◌, ◌^◌, ◌≤◌, ◌<◌, ◌≡◌, refl, sym, subst, ap, ◌∙◌, inl, inr, true, Bool-cases,
  String, List, [], ◌∷◌, All, Elem, none, some, arith,
}
use kwarm.Api.{PrePullImage}
use kwarm.Cluster.{Sys, Client, Library}
use kwarm.RateLimiter.Bounds.{IsValid}
use kwarm.RateLimiter.Slots.{Holds}
use kwarm.PullImage.Effort.{EndsJobs, MakesJobs}
use kwarm.PullImage.Handlers.{finalizer_name}
use kwarm.PullImage.Stored.{ImageStore}
use kwarm.PullImage.Reconciles.{IsClosed}
use kwarm.PullImage.Alone.{open-cases}
use kwarm.PullImage.Fleet.{slots_of}
use kwarm.PullImage.Fair.Stage.{fresh_work, IsWaiting, Stage, unguarded, waiting, working, closed}
use kwarm.PullImage.Fair.Turn.{Ready}
use kwarm.PullImage.Fair.Round.{
  Key, keys_of, KeysApart, Items, resources, needed, pulling_all, slots_idle, round, AllReady,
  Rounded, round-Rounded,
}

-- The rounds that are enough for a list of new resources.
unfoldable pub rounds_for : List PrePullImage → ℕ
rounds_for [] = 0
rounds_for (p ∷ ps) = 3 + fresh_work p p.spec.nodes.names + rounds_for ps

module _ {W : Type 0} (client : Client W) (lib : Library) (store : ImageStore client) where
  open store use {image_at}

  unfoldable pub rounds : ℕ → List Key → Sys W → Sys W
  rounds zero ks s = s
  rounds (suc n) ks s = rounds n ks (round client lib store ks s)

  -- New with named nodes, stored, and not being deleted.
  pub record IsQueued (w : W) (p : PrePullImage) : Type 0 where
    pub node : String
    pub nodes : List String
    pub is_waiting : IsWaiting p node nodes
    pub not_deleted : p.meta.deletion_timestamp ≡ none
    pub small : p.spec.retry.max_attempts < 2 ^ 31
    pub stored : image_at p.meta.namespace p.meta.name w ≡ some p

  queued-Ready :
      (p : PrePullImage) (w : W)
      → IsQueued w p
      → (n : ℕ) × (n ≤ 3 + fresh_work p p.spec.nodes.names) × Ready client lib store p n w
  queued-Ready p w q =
      let enough = ap (fresh_work p) q.is_waiting.named in
      elim (Bool-cases (lib.contains_finalizer p.meta.finalizers finalizer_name)) [
        | inl there ↦ (
          2 + fresh_work p (q.node ∷ q.nodes),
          omega (arith, enough),
          record {
            stage = waiting q.node q.nodes q.is_waiting (q.not_deleted, there);
            small = q.small;
            stored = q.stored;
          },
        )
        | inr gone ↦ (
          3 + fresh_work p (q.node ∷ q.nodes),
          omega (arith, enough),
          record {
            stage = unguarded q.node q.nodes q.is_waiting q.not_deleted gone;
            small = q.small;
            stored = q.stored;
          },
        )
      ]

  queued-AllReady :
      (ps : List PrePullImage) (w : W)
      → All (IsQueued w) ps
      → (is : Items) × (resources is ≡ ps)
        × (needed is ≤ rounds_for ps)
        × AllReady client lib store is w
  unfolding needed rounds_for
  queued-AllReady [] w q = ([], refl, omega arith, tt)
  queued-AllReady (p ∷ ps) w q =
      let one = queued-Ready p w q.0 in
      let rest = queued-AllReady ps w q.1 in
      ((p, one.0) ∷ rest.0, ap (◌∷◌ p) rest.1, omega (arith, one.1, rest.2), (one.2, rest.3))

  queued-idle : (ps : List PrePullImage) (w : W) → All (IsQueued w) ps → pulling_all ps ≡ 0
  unfolding pulling_all
  queued-idle [] w q = refl
  queued-idle (p ∷ ps) w q = omega (arith, q.0.is_waiting.idle, queued-idle ps w q.1)

  zero-IsClosed :
      (p : PrePullImage) (n : ℕ) → n ≡ 0 → Stage client lib p n → IsClosed p.status.phase
  zero-IsClosed p n e (unguarded node nodes w d g) = absurd (omega (arith, e))
  zero-IsClosed p n e (waiting node nodes w g) = absurd (omega (arith, e))
  zero-IsClosed p n e (working f g below few) = absurd (omega (arith, e))
  zero-IsClosed p n e (closed c idle) = c

  all-IsClosed :
      (is : Items) (w : W) (k : Key)
      → AllReady client lib store is w
      → needed is ≡ 0
      → Elem k (keys_of (resources is))
      → (q : PrePullImage) × (image_at k.0 k.1 w ≡ some q) × IsClosed q.status.phase
  unfolding needed
  all-IsClosed [] w k all e found = absurd found
  all-IsClosed (i ∷ is) w k all e (inl same) = (
    i.0,
    subst (λ (j : Key). image_at j.0 j.1 w ≡ some i.0) same all.0.stored,
    zero-IsClosed i.0 i.1 (omega (arith, e)) all.0.stage,
  )
  all-IsClosed (i ∷ is) w k all e (inr later) = all-IsClosed is w k all.1 (omega (arith, e)) later

  module _ (ends : EndsJobs client lib) (makes : MakesJobs client lib)
      (adds : (l : List String) (x : String)
        → lib.contains_finalizer (lib.add_finalizer l x) x ≡ true) where
    -- Each round takes at least one from what is needed, until it is none.
    rounds-done :
        (n : ℕ) (ks : List Key) (is : Items) (s : Sys W)
        → keys_of (resources is) ≡ ks
        → KeysApart ks
        → AllReady client lib store is s.world
        → IsValid s.limiter
        → Holds s.limiter (slots_of (resources is) [])
        → needed is ≤ n
        → (k : Key) → Elem k ks
        → (q : PrePullImage) × (image_at k.0 k.1 (rounds n ks s).world ≡ some q)
          × IsClosed q.status.phase
    unfolding rounds
    rounds-done zero ks is s same apart all v h enough k found =
        all-IsClosed is s.world k all (omega (arith, enough)) (subst (Elem k) (sym same) found)
    rounds-done (suc n) ks is s same apart all v h enough k found =
        let s' = round client lib store ks s in
        let r =
          subst (λ l. Rounded client lib store is [] s (round client lib store l s)) same
            (round-Rounded client lib store ends makes adds is [] s
              (subst KeysApart (sym same) apart) all v h) in
        let fewer : needed r.nows ≤ n = elim (open-cases (pulling_all (resources is))) [
          | inr busy ↦ omega (arith, r.less, enough, busy)
          | inl idle ↦ elim (open-cases (needed is)) [
            | inl done ↦ omega (arith, r.less, done)
            | inr more ↦ omega (arith, r.works refl idle more, enough)
          ]
        ] in
        rounds-done n ks r.nows s' (r.same_keys ∙ same) apart r.ready r.valid r.holds fewer k found

    -- Several new PrePullImages with named nodes are stored under different keys, none is being
    -- deleted, and no slot of the limiter is held, whose limits are any. In rounds that reconcile each
    -- of them once, unless it is closed, each is closed, as completed or failed, after a number of
    -- rounds that is the sum, over all of them, of three and of twice `maxAttempts + 1` for each of its
    -- nodes: none is starved. Each job that
    -- is asked for has ended or is gone, each job that is created is there afterwards, the API server
    -- stores what it is given, a finalizer that is added is found, `maxAttempts` is not negative, and
    -- each has fewer than 2 ^ 31 nodes.
    pub rounds-IsClosed :
        (ps : List PrePullImage) (n : ℕ) (s : Sys W)
        → All (IsQueued s.world) ps
        → KeysApart (keys_of ps)
        → IsValid s.limiter
        → Holds s.limiter []
        → rounds_for ps ≤ n
        → (k : Key) → Elem k (keys_of ps)
        → (q : PrePullImage) × (image_at k.0 k.1 (rounds n (keys_of ps) s).world ≡ some q)
          × IsClosed q.status.phase
    rounds-IsClosed ps n s queued apart v h enough k found =
        let start = queued-AllReady ps s.world queued in
        let slots =
          ap (λ l. slots_of l []) start.1 ∙ slots_idle ps [] (queued-idle ps s.world queued) in
        rounds-done n (keys_of ps) start.0 s (ap keys_of start.1) apart start.3 v
          (subst (Holds s.limiter) (sym slots) h) (omega (arith, start.2, enough)) k found
