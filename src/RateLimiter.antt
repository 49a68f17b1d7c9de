-- ===== src/RateLimiter.antt =====
-- internal/ratelimiter/ratelimiter.go. The mutex makes each method one step on the state, so a
-- method is a function to the new state. The two limits are positive once `new` has run, and the
-- counters stay between 0 and the limits, so they are plain numbers: an increment is made only
-- below a limit, which is a Go `int`, and cannot overflow.
pub mod Bounds
pub mod Slots
pub mod Views
use kwarm.Base.{
  ℕ, suc, ◌+◌, ◌-◌, Bool, true, false, String, List, [], ◌∷◌, ltb, leb, if◌then◌else◌, ℤ, pos,
  negsuc, Counts, get, put, delete,
}

pub record RateLimiter : Type 0 where
  pub max_concurrent_pulls : ℕ
  pub max_pulls_per_node : ℕ
  pub current_pulls : ℕ
  pub node_current_pulls : Counts

-- `if n <= 0 { n = d }`
positive_or : ℤ → ℕ → ℕ
positive_or (pos n) d = if leb n 0 then d else n
positive_or (negsuc _) d = d

unfoldable pub new_rate_limiter : ℤ → ℤ → RateLimiter
unfolding positive_or
new_rate_limiter max_concurrent max_per_node = record {
  max_concurrent_pulls = positive_or max_concurrent 10;
  max_pulls_per_node = positive_or max_per_node 2;
  current_pulls = 0;
  node_current_pulls = [];
}

unfoldable pub try_acquire : RateLimiter → String → RateLimiter × Bool
try_acquire r node =
    if leb r.max_concurrent_pulls r.current_pulls
    then (r, false)
    else if leb r.max_pulls_per_node (get node r.node_current_pulls)
    then (r, false)
    else (
      record r {
        current_pulls = r.current_pulls + 1;
        node_current_pulls = put node (get node r.node_current_pulls + 1) r.node_current_pulls;
      },
      true,
    )

-- The second and the third `if` of `Release`, on the map.
pub release_node : String → Counts → Counts
release_node node m =
    let m' = if ltb 0 (get node m) then put node (get node m - 1) m else m in
    if leb (get node m') 0 then delete node m' else m'

unfoldable pub release : RateLimiter → String → RateLimiter
unfolding release_node
release r node = record r {
  current_pulls = if ltb 0 r.current_pulls then r.current_pulls - 1 else r.current_pulls;
  node_current_pulls = release_node node r.node_current_pulls;
}

pub current_pulls_for_node : RateLimiter → String → ℕ
current_pulls_for_node r node = get node r.node_current_pulls

-- One call of the shared limiter.
pub data Call : Type 0 where
  acquires releases : String → Call

unfoldable pub step : RateLimiter → Call → RateLimiter
step r (acquires node) = (try_acquire r node).0
step r (releases node) = release r node

-- The calls in the order in which they take the mutex.
unfoldable pub run : RateLimiter → List Call → RateLimiter
run r [] = r
run r (c ∷ cs) = run (step r c) cs
