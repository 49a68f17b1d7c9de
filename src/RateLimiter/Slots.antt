-- ===== src/RateLimiter/Slots.antt =====
-- The limiter against its specification: the list of the slots that are held, an entry for each
-- pull, where only the multiset matters.
use text.Mathlib.TextEquality.{eq_iff}
use kwarm.Base.{
  ℕ, suc, ◌+◌, ◌-◌, ◌≤◌, ◌<◌, ◌≡◌, refl, Bool, true, false, ◌&&◌, String, List, [], ◌∷◌, ap₂, sym,
  subst, ◌∙◌, length, str_eq, ltb, if◌then◌else◌, arith, ℤ,
}
use kwarm.Base.{get, get-put}
use kwarm.RateLimiter.Bounds.{IsValid, run-new-IsValid, get-release_node}
use kwarm.RateLimiter.{
  RateLimiter, new_rate_limiter, try_acquire, release, current_pulls_for_node, Call, acquires,
  releases, step, run,
}

-- How many of the slots are on the node.
unfoldable pub count : String → List String → ℕ
count n [] = 0
count n (h ∷ hs) = let rest = count n hs in if str_eq h n then suc rest else rest

-- One slot of the node given back.
unfoldable pub remove : String → List String → List String
remove n [] = []
remove n (h ∷ hs) = let rest = remove n hs in if str_eq h n then hs else h ∷ rest

-- The limiter's counters describe these slots.
pub record Holds (r : RateLimiter) (slots : List String) : Type 0 where
  pub total : r.current_pulls ≡ length slots
  pub each : (node : String) → get node r.node_current_pulls ≡ count node slots

pub new-Holds : (a b : ℤ) → Holds (new_rate_limiter a b) []
unfolding new_rate_limiter get count
new-Holds a b = record { total = refl; each = λ _. refl }

-- Only the multiset of the slots matters.
pub Holds-same :
    (r : RateLimiter) (slots more : List String)
    → length slots ≡ length more
    → ((k : String) → count k slots ≡ count k more)
    → Holds r slots
    → Holds r more
Holds-same r slots more l c h = record { total = h.total ∙ l; each = λ k. h.each k ∙ c k }

pub count-remove :
    (n k : String) (hs : List String)
    → count k (remove n hs) ≡ (if str_eq n k then count n hs - 1 else count k hs)
unfolding count remove
count-remove n k [] = ground arith
count-remove n k (h ∷ hs) = ground (arith, eq_iff n k, eq_iff h n, eq_iff h k, count-remove n k hs)

pub length-remove :
    (n : String) (hs : List String) → 0 < count n hs → length (remove n hs) + 1 ≡ length hs
unfolding count remove
length-remove n [] h = absurd (omega arith)
length-remove n (k ∷ hs) h = ground (arith, length-remove n hs)

remove_absent : (n : String) (hs : List String) → count n hs ≡ 0 → remove n hs ≡ hs
unfolding count remove
remove_absent n [] h = refl
remove_absent n (k ∷ hs) h = ground (arith, remove_absent n hs)

-- May the node have one more slot, under these limits?
unfoldable pub has_room : ℕ → ℕ → String → List String → Bool
has_room max_total max_node n slots = ltb (length slots) max_total && ltb (count n slots) max_node

try_acquire-Holds :
    (r : RateLimiter) (n : String) (slots : List String) (ok : Bool)
    → has_room r.max_concurrent_pulls r.max_pulls_per_node n slots ≡ ok
    → Holds r slots
    → Holds (try_acquire r n).0 (if ok then n ∷ slots else slots)
unfolding try_acquire has_room count
try_acquire-Holds r n slots ok e h = record {
  total = ground (arith, h.each n);
  each = λ k. ground (
    arith,
    h.each k,
    h.each n,
    eq_iff n k,
    get-put n k (get n r.node_current_pulls + 1) r.node_current_pulls,
  );
}

pub try_acquire_granted :
    (r : RateLimiter) (n : String) (slots : List String)
    → Holds r slots
    → (try_acquire r n).1 ≡ has_room r.max_concurrent_pulls r.max_pulls_per_node n slots
unfolding try_acquire has_room
try_acquire_granted r n slots h = ground (arith, h.each n)

pub release-Holds :
    (r : RateLimiter) (n : String) (slots : List String)
    → Holds r slots
    → 0 < count n slots
    → Holds (release r n) (remove n slots)
unfolding release
release-Holds r n slots h p = record {
  total = ground (arith, length-remove n slots);
  each = λ k. ground (
    arith,
    h.each k,
    h.each n,
    count-remove n k slots,
    get-release_node n k r.node_current_pulls,
  );
}

-- What is granted is added, what is refused changes nothing, and what was just added can be given
-- back.
pub granted-Holds :
    (r : RateLimiter) (n : String) (slots : List String)
    → (try_acquire r n).1 ≡ true
    → Holds r slots
    → Holds (try_acquire r n).0 (n ∷ slots)
granted-Holds r n slots e h =
    try_acquire-Holds r n slots true (sym (try_acquire_granted r n slots h) ∙ e) h

pub refused-Holds :
    (r : RateLimiter) (n : String) (slots : List String)
    → (try_acquire r n).1 ≡ false
    → Holds r slots
    → Holds (try_acquire r n).0 slots
refused-Holds r n slots e h =
    try_acquire-Holds r n slots false (sym (try_acquire_granted r n slots h) ∙ e) h

remove-cons : (n : String) (slots : List String) → remove n (n ∷ slots) ≡ slots
unfolding remove
remove-cons n slots = ground (arith, eq_iff n n)

count-cons : (n : String) (slots : List String) → 0 < count n (n ∷ slots)
unfolding count
count-cons n slots = ground (arith, eq_iff n n)

pub released-Holds :
    (r : RateLimiter) (n : String) (slots : List String)
    → Holds r (n ∷ slots)
    → Holds (release r n) slots
released-Holds r n slots h =
    subst (Holds (release r n)) (remove-cons n slots)
      (release-Holds r n (n ∷ slots) h (count-cons n slots))

-- What a call does to the slots, by the specification.
unfoldable pub slots_after : ℕ → ℕ → List String → Call → List String
slots_after a b slots (acquires n) = if has_room a b n slots then n ∷ slots else slots
slots_after a b slots (releases n) = remove n slots

unfoldable pub run_slots : ℕ → ℕ → List String → List Call → List String
run_slots a b slots [] = slots
run_slots a b slots (c ∷ cs) = run_slots a b (slots_after a b slots c) cs

-- Every release gives back a slot that is held.
abbrev pub IsBalanced : ℕ → ℕ → List String → List Call → Type 0
IsBalanced a b slots [] = Unit {0}
IsBalanced a b slots (acquires n ∷ cs) = IsBalanced a b (slots_after a b slots (acquires n)) cs
IsBalanced a b slots (releases n ∷ cs) =
    (0 < count n slots) × IsBalanced a b (slots_after a b slots (releases n)) cs

pub step_limits :
    (r : RateLimiter) (c : Call)
    → ((step r c).max_concurrent_pulls ≡ r.max_concurrent_pulls)
      × ((step r c).max_pulls_per_node ≡ r.max_pulls_per_node)
unfolding step try_acquire release
step_limits r (acquires n) = ground arith
step_limits r (releases n) = ground arith

run-Holds :
    (a b : ℕ) (r : RateLimiter) (slots : List String) (cs : List Call)
    → r.max_concurrent_pulls ≡ a
    → r.max_pulls_per_node ≡ b
    → Holds r slots
    → IsBalanced a b slots cs
    → Holds (run r cs) (run_slots a b slots cs)
unfolding run run_slots
run-Holds a b r slots [] p q h d = h
run-Holds a b r slots (acquires n ∷ cs) p q h d =
    run-Holds a b (step r (acquires n)) (slots_after a b slots (acquires n)) cs
      ((step_limits r (acquires n)).0 ∙ p) ((step_limits r (acquires n)).1 ∙ q) taken d
  where
    taken : Holds (step r (acquires n)) (slots_after a b slots (acquires n))
    taken =
        unfold step slots_after in
        try_acquire-Holds r n slots _ (ap₂ (λ u v. has_room u v n slots) p q) h
run-Holds a b r slots (releases n ∷ cs) p q h d =
    run-Holds a b (step r (releases n)) (slots_after a b slots (releases n)) cs
      ((step_limits r (releases n)).0 ∙ p) ((step_limits r (releases n)).1 ∙ q) given d.1
  where
    given : Holds (step r (releases n)) (slots_after a b slots (releases n))
    given = unfold step slots_after in release-Holds r n slots h d.0

run_limits :
    (r : RateLimiter) (cs : List Call)
    → ((run r cs).max_concurrent_pulls ≡ r.max_concurrent_pulls)
      × ((run r cs).max_pulls_per_node ≡ r.max_pulls_per_node)
unfolding run
run_limits r [] = (refl, refl)
run_limits r (c ∷ cs) = (
  (run_limits (step r c) cs).0 ∙ (step_limits r c).0,
  (run_limits (step r c) cs).1 ∙ (step_limits r c).1,
)

-- From a new limiter, over any calls in which every release gives back a slot that is held, the
-- limiter's counters describe the slots of the specification, in all and on each node, and these
-- never exceed the limits: not in all, and not on any node.
pub run-new-Holds :
    (a b : ℤ) (cs : List Call)
    → IsBalanced
        (new_rate_limiter a b).max_concurrent_pulls
        (new_rate_limiter a b).max_pulls_per_node
        []
        cs
    → let slots =
        run_slots
          (new_rate_limiter a b).max_concurrent_pulls
          (new_rate_limiter a b).max_pulls_per_node
          []
          cs in
      Holds (run (new_rate_limiter a b) cs) slots
      × (length slots ≤ (new_rate_limiter a b).max_concurrent_pulls)
      × ((node : String) → count node slots ≤ (new_rate_limiter a b).max_pulls_per_node)
run-new-Holds a b cs d = (
  held,
  omega (arith, held.total, valid.within, (run_limits r cs).0),
  λ n. omega (arith, held.each n, valid.each_within n, (run_limits r cs).1),
)
  where
    r : RateLimiter
    r = new_rate_limiter a b

    held : Holds (run r cs) (run_slots r.max_concurrent_pulls r.max_pulls_per_node [] cs)
    held = run-Holds _ _ r [] cs refl refl (new-Holds a b) d

    valid : IsValid (run r cs)
    valid = run-new-IsValid a b cs

-- When all slots of the limiter are held, a release of a node that holds none lowers the total and
-- leaves the count of each node that has room: a pull on such a node, refused before, is then let in
-- beyond the cluster-wide limit.
pub release_unheld :
    (r : RateLimiter) (n k : String) (slots : List String)
    → Holds r slots
    → count n slots ≡ 0
    → length slots ≡ r.max_concurrent_pulls
    → 0 < r.max_concurrent_pulls
    → count k slots < r.max_pulls_per_node
    → ((release r n).current_pulls + 1 ≡ length slots)
      × (current_pulls_for_node (release r n) k ≡ count k slots)
      × ((try_acquire r k).1 ≡ false)
      × ((try_acquire (release r n) k).1 ≡ true)
unfolding release try_acquire current_pulls_for_node
release_unheld r n k slots h free full p room =
    ground (arith, h.each k, h.each n, eq_iff n k, get-release_node n k r.node_current_pulls)
