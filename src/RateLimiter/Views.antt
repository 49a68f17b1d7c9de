-- ===== src/RateLimiter/Views.antt =====
-- What the handlers rely on: a relation between the limiter and the slots that are held, which the
-- limiter's own calls keep.
use text.Mathlib.TextEquality.{eq_iff}
use kwarm.Base.{ℕ, ◌+◌, ◌≤◌, ◌≡◌, ◌∙◌, length, true, false, String, List, ◌∷◌, get, get-put, arith}
use kwarm.RateLimiter.{RateLimiter, acquires, releases, step, try_acquire, release}
use kwarm.RateLimiter.Bounds.{IsValid, step-IsValid, get-release_node}
use kwarm.RateLimiter.Slots.{
  Holds, Holds-same, granted-Holds, refused-Holds, released-Holds, count, step_limits,
}

-- The order of the slots is free, a granted slot is added, a refused call changes nothing, and a
-- release takes one slot away.
pub record SlotView (P : RateLimiter → List String → Type 0) : Type 0 where
  pub same :
      (r : RateLimiter) (slots more : List String)
      → length slots ≡ length more
      → ((k : String) → count k slots ≡ count k more)
      → P r slots
      → P r more
  pub granted :
      (r : RateLimiter) (n : String) (slots : List String)
      → (try_acquire r n).1 ≡ true
      → P r slots
      → P (try_acquire r n).0 (n ∷ slots)
  pub refused :
      (r : RateLimiter) (n : String) (slots : List String)
      → (try_acquire r n).1 ≡ false
      → P r slots
      → P (try_acquire r n).0 slots
  pub released :
      (r : RateLimiter) (n : String) (slots : List String) → P r (n ∷ slots) → P (release r n) slots

-- The counters describe the slots.
pub Holds-view : SlotView Holds
Holds-view = record {
  same = Holds-same;
  granted = granted-Holds;
  refused = refused-Holds;
  released = released-Holds;
}

-- A valid limiter with these limits, whatever the slots are.
pub record Within (concurrent per_node : ℕ) (r : RateLimiter) : Type 0 where
  pub valid : IsValid r
  pub concurrent_kept : r.max_concurrent_pulls ≡ concurrent
  pub per_node_kept : r.max_pulls_per_node ≡ per_node

module _ {a b : ℕ} where
  try_acquire-Within :
      (r : RateLimiter) (n : String) → Within a b r → Within a b (try_acquire r n).0
  unfolding step
  try_acquire-Within r n h = record {
    valid = step-IsValid r (acquires n) h.valid;
    concurrent_kept = (step_limits r (acquires n)).0 ∙ h.concurrent_kept;
    per_node_kept = (step_limits r (acquires n)).1 ∙ h.per_node_kept;
  }

  release-Within : (r : RateLimiter) (n : String) → Within a b r → Within a b (release r n)
  unfolding step
  release-Within r n h = record {
    valid = step-IsValid r (releases n) h.valid;
    concurrent_kept = (step_limits r (releases n)).0 ∙ h.concurrent_kept;
    per_node_kept = (step_limits r (releases n)).1 ∙ h.per_node_kept;
  }

  pub Within-view : SlotView (λ r slots. Within a b r)
  Within-view = record {
    same = λ r slots more l c h. h;
    granted = λ r n slots e h. try_acquire-Within r n h;
    refused = λ r n slots e h. try_acquire-Within r n h;
    released = λ r n slots h. release-Within r n h;
  }

-- The counters miss at most some slots: `missing` in all, and `missing_at` on a node.
pub record Covers (missing : ℕ) (missing_at : String → ℕ) (r : RateLimiter) (slots : List String)
    : Type 0 where
  pub total : length slots ≤ r.current_pulls + missing
  pub each : (node : String) → count node slots ≤ get node r.node_current_pulls + missing_at node

module _ {u : ℕ} {us : String → ℕ} where
  granted-Covers :
      (r : RateLimiter) (n : String) (slots : List String)
      → (try_acquire r n).1 ≡ true
      → Covers u us r slots
      → Covers u us (try_acquire r n).0 (n ∷ slots)
  unfolding try_acquire count
  granted-Covers r n slots e h = record {
    total = ground (arith, h.total);
    each = λ k. ground (
      arith,
      h.each k,
      eq_iff n k,
      get-put n k (get n r.node_current_pulls + 1) r.node_current_pulls,
    );
  }

  refused-Covers :
      (r : RateLimiter) (n : String) (slots : List String)
      → (try_acquire r n).1 ≡ false
      → Covers u us r slots
      → Covers u us (try_acquire r n).0 slots
  unfolding try_acquire
  refused-Covers r n slots e h = record {
    total = ground (arith, h.total);
    each = λ k. ground (arith, h.each k);
  }

  released-Covers :
      (r : RateLimiter) (n : String) (slots : List String)
      → Covers u us r (n ∷ slots)
      → Covers u us (release r n) slots
  unfolding release count
  released-Covers r n slots h = record {
    total = ground (arith, h.total);
    each = λ k. ground (arith, h.each k, eq_iff n k, get-release_node n k r.node_current_pulls);
  }

  pub Covers-view : SlotView (Covers u us)
  Covers-view = record {
    same = λ r slots more l c h. record {
      total = omega (arith, h.total);
      each = λ k. omega (arith, h.each k, c k);
    };
    granted = granted-Covers;
    refused = refused-Covers;
    released = released-Covers;
  }
