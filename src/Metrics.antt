-- ===== src/Metrics.antt =====
-- internal/metrics/metrics.go. Prometheus keeps the collectors, so the model keeps the calls that
-- the program makes on them, the newest first. A duration is given by its two ends.
use kwarm.Base.{ℕ, suc, String, List, [], ◌∷◌, Option, none, some, str_eq, if◌then◌else◌}

pub data MetricCall : Type 0 where
  active_pulls_inc active_pulls_dec : MetricCall
  queue_depth_set : ℕ → MetricCall
  pulls_total_inc : String → MetricCall
  prepullimages_by_phase_set : String → ℕ → MetricCall
  watched_deployments_set : ℕ → MetricCall
  reconcile_total_inc : String → String → MetricCall
  reconcile_duration_observe : String → ℕ → ℕ → MetricCall
  pull_duration_observe : String → String → String → ℕ → ℕ → MetricCall

abbrev pub Metrics : Type 0
Metrics = List MetricCall

unfoldable pub record_pull_duration : String → String → String → ℕ → ℕ → Metrics → Metrics
record_pull_duration image node status started ended m =
    pull_duration_observe image node status started ended ∷ m

unfoldable pub increment_active_pulls : Metrics → Metrics
increment_active_pulls m = active_pulls_inc ∷ m

unfoldable pub decrement_active_pulls : Metrics → Metrics
decrement_active_pulls m = active_pulls_dec ∷ m

unfoldable pub set_queue_depth : ℕ → Metrics → Metrics
set_queue_depth depth m = queue_depth_set depth ∷ m

unfoldable pub increment_pulls_total : String → Metrics → Metrics
increment_pulls_total status m = pulls_total_inc status ∷ m

unfoldable pub set_prepullimages_by_phase : String → ℕ → Metrics → Metrics
set_prepullimages_by_phase phase count m = prepullimages_by_phase_set phase count ∷ m

unfoldable pub set_watched_deployments : ℕ → Metrics → Metrics
set_watched_deployments count m = watched_deployments_set count ∷ m

unfoldable pub record_reconcile : String → String → ℕ → ℕ → Metrics → Metrics
record_reconcile controller result started ended m =
    reconcile_duration_observe controller started ended
    ∷ (reconcile_total_inc controller result ∷ m)

-- How often the gauge of the active pulls was raised, and lowered.
unfoldable pub raised : Metrics → ℕ
raised [] = 0
raised (active_pulls_inc ∷ m) = suc (raised m)
raised (_ ∷ m) = raised m

unfoldable pub lowered : Metrics → ℕ
lowered [] = 0
lowered (active_pulls_dec ∷ m) = suc (lowered m)
lowered (_ ∷ m) = lowered m

-- What the gauge of a phase shows: the number that was set last.
unfoldable pub phase_gauge : String → Metrics → Option ℕ
phase_gauge phase [] = none
phase_gauge phase (prepullimages_by_phase_set set count ∷ m) =
    if str_eq set phase then some count else phase_gauge phase m
phase_gauge phase (_ ∷ m) = phase_gauge phase m
