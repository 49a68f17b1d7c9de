-- ===== src/RateLimiter/Bounds.antt =====
-- The limits hold at every moment, whatever the callers do.
use text.Mathlib.TextEquality.{eq_iff}
use kwarm.Base.{
  ℕ, ◌+◌, ◌-◌, ◌≤◌, ◌<◌, ◌≡◌, String, List, [], ◌∷◌, str_eq, if◌then◌else◌, arith, ℤ, pos, negsuc,
}
use kwarm.Base.{
  Counts, get, put, get-put, get-delete, IsOccupied, put-IsOccupied, delete-IsOccupied, delete-put,
}
use kwarm.RateLimiter.{
  RateLimiter, new_rate_limiter, positive_or, try_acquire, release, release_node, Call, acquires,
  releases, step, run,
}

pub record IsValid (r : RateLimiter) : Type 0 where
  pub concurrent_pos : 0 < r.max_concurrent_pulls
  pub per_node_pos : 0 < r.max_pulls_per_node
  pub within : r.current_pulls ≤ r.max_concurrent_pulls
  pub each_within : (node : String) → get node r.node_current_pulls ≤ r.max_pulls_per_node
  pub occupied : IsOccupied r.node_current_pulls

positive_or-pos : (n : ℤ) (d : ℕ) → 0 < d → 0 < positive_or n d
unfolding positive_or
positive_or-pos (pos n) d h = ground arith
positive_or-pos (negsuc n) d h = h

pub new-IsValid : (a b : ℤ) → IsValid (new_rate_limiter a b)
unfolding new_rate_limiter get
new-IsValid a b = record {
  concurrent_pos = positive_or-pos a 10 (omega arith);
  per_node_pos = positive_or-pos b 2 (omega arith);
  within = omega arith;
  each_within = λ _. omega arith;
  occupied = tt;
}

try_acquire-IsValid : (r : RateLimiter) (n : String) → IsValid r → IsValid (try_acquire r n).0
unfolding try_acquire
try_acquire-IsValid r n v = record {
  concurrent_pos = ground arith;
  per_node_pos = ground arith;
  within = ground arith;
  each_within = λ k. ground (
    arith,
    v.each_within k,
    eq_iff n k,
    get-put n k (get n r.node_current_pulls + 1) r.node_current_pulls,
  );
  occupied = ground (arith, put-IsOccupied n (get n r.node_current_pulls + 1) r.node_current_pulls);
}

-- `Release` lowers the node's count and no other.
pub get-release_node :
    (n k : String) (m : Counts)
    → get k (release_node n m) ≡ (if str_eq n k then get n m - 1 else get k m)
unfolding release_node
get-release_node n k m = ground (
  arith,
  eq_iff n k,
  eq_iff n n,
  get-put n k (get n m - 1) m,
  get-put n n (get n m - 1) m,
  get-delete n k m,
  get-delete n k (put n (get n m - 1) m),
)

release_node-IsOccupied : (n : String) (m : Counts) → IsOccupied m → IsOccupied (release_node n m)
unfolding release_node
release_node-IsOccupied n m h = ground (
  arith,
  eq_iff n n,
  get-put n n (get n m - 1) m,
  delete-put n (get n m - 1) m,
  put-IsOccupied n (get n m - 1) m,
  delete-IsOccupied n m,
)

release-IsValid : (r : RateLimiter) (n : String) → IsValid r → IsValid (release r n)
unfolding release
release-IsValid r n v = record {
  concurrent_pos = v.concurrent_pos;
  per_node_pos = v.per_node_pos;
  within = ground arith;
  each_within = λ k.
      ground (arith, v.each_within k, v.each_within n, get-release_node n k r.node_current_pulls);
  occupied = release_node-IsOccupied n r.node_current_pulls v.occupied;
}

pub step-IsValid : (r : RateLimiter) (c : Call) → IsValid r → IsValid (step r c)
unfolding step
step-IsValid r (acquires n) v = try_acquire-IsValid r n v
step-IsValid r (releases n) v = release-IsValid r n v

run-IsValid : (r : RateLimiter) (cs : List Call) → IsValid r → IsValid (run r cs)
unfolding run
run-IsValid r [] v = v
run-IsValid r (c ∷ cs) v = run-IsValid (step r c) cs (step-IsValid r c v)

-- From any limits that a caller asks for, after any calls in any order, the total is at most the
-- cluster-wide limit, each node's count is at most the limit per node, both limits are positive,
-- and the map stores no node whose count is 0.
pub run-new-IsValid : (a b : ℤ) (cs : List Call) → IsValid (run (new_rate_limiter a b) cs)
run-new-IsValid a b cs = run-IsValid (new_rate_limiter a b) cs (new-IsValid a b)
