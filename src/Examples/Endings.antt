-- ===== src/Examples/Endings.antt =====
-- The end of the work on one resource, at a concrete cluster.
use kwarm.Base.{none, inl, ◌≤◌, ◌≡◌, refl, inr, some, [], ◌∷◌, pos, negsuc, arith}
use kwarm.Api.{PrePullImage, PrePullImagePhase}
use kwarm.Cluster.{Sys}
use kwarm.RateLimiter.{new_rate_limiter}
use kwarm.RateLimiter.Bounds.{new-IsValid}
use kwarm.RateLimiter.Slots.{new-Holds}
use kwarm.PullImage.Reconciles.{IsClosed, reconciles}
use kwarm.PullImage.Termination.{reconciles-IsClosed}
use kwarm.PullImage.Census.{tally}
use kwarm.PullImage.Fair.Rounds.{rounds, rounds_for, rounds-IsClosed}
use kwarm.Examples.World.{plain_meta, lib, image}
use kwarm.Examples.Store.{Stored, lookup, images, storing, storing_ends}

abbrev waiting : PrePullImage
waiting =
    let st = image.status in
    record image { status = record st { phase = PrePullImagePhase.pending; node_status = [] } }

abbrev holding : PrePullImage → Sys Stored
holding p = record {
  limiter = new_rate_limiter (pos 1) (negsuc 0);
  metrics = [];
  events = [];
  world = p ∷ [];
}

-- Two nodes and one retry: ten reconciles are enough.
reconciles-IsClosed_example :
    (k : _) × (q : PrePullImage) × (k ≤ 10)
    × (lookup "shop" "web-22222222"
          (reconciles storing lib k "shop" "web-22222222" (holding waiting)).world
        ≡ some q)
    × IsClosed q.status.phase
unfolding lookup
reconciles-IsClosed_example =
    reconciles-IsClosed storing lib images waiting "node-1" ("node-2" ∷ []) (holding waiting)
      (omega arith) (omega arith) storing_ends (λ job w. tt) (λ l x. refl) refl refl (inr refl) refl
      (new-IsValid (pos 1) (negsuc 0)) (new-Holds (pos 1) (negsuc 0))

-- A second resource, on one of the nodes.
abbrev waiting_too : PrePullImage
waiting_too =
    let spec = waiting.spec in
    record waiting {
      meta = plain_meta "db-11111111";
      spec = record spec {
        image = "db:1";
        nodes = record { selector = none; names = "node-1" ∷ [] };
      };
    }

abbrev both : Sys Stored
both = let s = holding waiting in record s { world = waiting ∷ (waiting_too ∷ []) }

-- The two share one slot; eighteen rounds are enough.
rounds-IsClosed_example :
    (q : PrePullImage) × (lookup "shop" "db-11111111"
        (rounds storing lib images 18
          (("shop", "web-22222222") ∷ (("shop", "db-11111111") ∷ []))
          both).world
      ≡ some q)
    × IsClosed q.status.phase
unfolding lookup rounds_for tally
rounds-IsClosed_example =
    rounds-IsClosed storing lib images storing_ends (λ job w. tt) (λ l x. refl)
      (waiting ∷ (waiting_too ∷ [])) 18 both
      (
        record {
          node = "node-1";
          nodes = "node-2" ∷ [];
          is_waiting = record { new = inr refl; named = refl; few = omega arith; idle = refl };
          not_deleted = refl;
          small = omega arith;
          stored = refl;
        },
        (
          record {
            node = "node-1";
            nodes = [];
            is_waiting = record { new = inr refl; named = refl; few = omega arith; idle = refl };
            not_deleted = refl;
            small = omega arith;
            stored = refl;
          },
          tt,
        ),
      )
      ((refl, tt), (tt, tt)) (new-IsValid (pos 1) (negsuc 0)) (new-Holds (pos 1) (negsuc 0))
      (omega arith) ("shop", "db-11111111") (inr (inl refl))
