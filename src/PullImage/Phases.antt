-- ===== src/PullImage/Phases.antt =====
-- prepullimage_controller.go: `updatePhaseMetrics`.
use text.Mathlib.TextEquality.{eq_iff}
use kwarm.Base.{
  ◌+◌, Bool, ◌≡◌, refl, String, List, [], ◌∷◌, none, some, str_eq, count_p, Elem, Counts, get, put,
  get-put, find, find-put, put-IsMap, find-IsAbsent, IsMap, arith, ap,
}
use kwarm.Api.{PrePullImage, PrePullImagePhase}
use kwarm.Metrics.{prepullimages_by_phase_set, phase_gauge, set_prepullimages_by_phase}
use kwarm.Cluster.{ok, Sys, Client, Library}
use kwarm.PullImage.Handlers.{phase_name, count_phases, no_phases, set_phases, update_phase_metrics}

-- The phases of a PrePullImage, by their names.
abbrev pub the_phases : List String
the_phases = "Pending" ∷ ("InProgress" ∷ ("Completed" ∷ ("Failed" ∷ [])))

-- Whether a phase has a name: the empty one has that of the pending phase.
abbrev has_name : String → PrePullImagePhase → Bool
has_name name PrePullImagePhase.unset = str_eq "Pending" name
has_name name PrePullImagePhase.pending = str_eq "Pending" name
has_name name PrePullImagePhase.in_progress = str_eq "InProgress" name
has_name name PrePullImagePhase.completed = str_eq "Completed" name
has_name name PrePullImagePhase.failed = str_eq "Failed" name
has_name name (PrePullImagePhase.other text) = str_eq text name

abbrev pub is_in_phase : String → PrePullImage → Bool
is_in_phase phase ppi = has_name phase ppi.status.phase

phase_name-has_name :
    (name : String) (phase : PrePullImagePhase)
    → str_eq (phase_name phase) name ≡ has_name name phase
unfolding phase_name
phase_name-has_name name PrePullImagePhase.unset = refl
phase_name-has_name name PrePullImagePhase.pending = refl
phase_name-has_name name PrePullImagePhase.in_progress = refl
phase_name-has_name name PrePullImagePhase.completed = refl
phase_name-has_name name PrePullImagePhase.failed = refl
phase_name-has_name name (PrePullImagePhase.other text) = refl

get-count_phases :
    (phase : String) (ppis : List PrePullImage) (m : Counts)
    → get phase (count_phases ppis m) ≡ get phase m + count_p (is_in_phase phase) ppis
unfolding count_phases count_p
get-count_phases phase [] m = omega arith
get-count_phases phase (ppi ∷ ppis) m =
    let name = phase_name ppi.status.phase in
    ground (
      arith,
      eq_iff name phase,
      phase_name-has_name phase ppi.status.phase,
      get-put name phase (get name m + 1) m,
      get-count_phases phase ppis (put name (get name m + 1) m),
    )

count_phases-IsMap : (ppis : List PrePullImage) (m : Counts) → IsMap m → IsMap (count_phases ppis m)
unfolding count_phases
count_phases-IsMap [] m h = h
count_phases-IsMap (ppi ∷ ppis) m h = count_phases-IsMap ppis _ (put-IsMap _ _ m h)

-- A phase that the map has keeps its entry.
find-count_phases :
    (phase : String) (ppis : List PrePullImage) (m : Counts)
    → find phase m ≡ some (get phase m)
    → find phase (count_phases ppis m) ≡ some (get phase (count_phases ppis m))
unfolding count_phases
find-count_phases phase [] m h = h
find-count_phases phase (ppi ∷ ppis) m h =
    let name = phase_name ppi.status.phase in
    find-count_phases phase ppis (put name (get name m + 1) m) (
      ground (arith, find-put name phase (get name m + 1) m, get-put name phase (get name m + 1) m))

find-no_phases : (phase : String) → Elem phase the_phases → find phase no_phases ≡ some 0
unfolding find
find-no_phases phase e = ground (
  arith,
  eq_iff "Pending" phase,
  eq_iff "InProgress" phase,
  eq_iff "Completed" phase,
  eq_iff "Failed" phase,
)

get-no_phases : (phase : String) → get phase no_phases ≡ 0
unfolding get
get-no_phases phase = ground arith

no_phases-IsMap : IsMap no_phases
no_phases-IsMap = ((refl, (refl, (refl, tt))), ((refl, (refl, tt)), ((refl, tt), (tt, tt))))

module _ {W : Type 0} (client : Client W) (lib : Library) where
  set_phases-gauge :
      (phase : String) (m : Counts) (s : Sys W)
      → IsMap m
      → phase_gauge phase (set_phases client lib m s).1.metrics
        ≡ (elim (find phase m) [ none ↦ phase_gauge phase s.metrics | some n ↦ some n ])
  unfolding set_phases phase_gauge set_prepullimages_by_phase find
  set_phases-gauge phase [] s h = refl
  set_phases-gauge phase ((j, n) ∷ m) s h = ground (
    arith,
    eq_iff j phase,
    find-IsAbsent j m h.0,
    set_phases-gauge phase m (record s { metrics = prepullimages_by_phase_set j n ∷ s.metrics })
        h.1,
  )

  set_phases-count :
      (phase : String) (ppis : List PrePullImage) (s : Sys W)
      → Elem phase the_phases
      → phase_gauge phase (set_phases client lib (count_phases ppis no_phases) s).1.metrics
        ≡ some (count_p (is_in_phase phase) ppis)
  set_phases-count phase ppis s e =
      rw
        (
          set_phases-gauge phase (count_phases ppis no_phases) s
              (count_phases-IsMap ppis no_phases no_phases-IsMap),
          find-count_phases phase ppis no_phases
              (rw (get-no_phases phase) (find-no_phases phase e)),
          get-count_phases phase ppis no_phases,
          get-no_phases phase,
        )
        (ap some (omega arith))

  -- Where the resources are listed, `updatePhaseMetrics` leaves the gauge of each of the four phases at
  -- the number of the resources in it; a resource without a phase counts as pending.
  pub phase_gauge-update_phase_metrics :
      (phase : String) (ppis : List PrePullImage) (s : Sys W)
      → (client.list_prepullimages s.world).0 ≡ ok ppis
      → Elem phase the_phases
      → phase_gauge phase (update_phase_metrics client lib s).1.metrics
        ≡ some (count_p (is_in_phase phase) ppis)
  unfolding update_phase_metrics
  phase_gauge-update_phase_metrics phase ppis s listed e = ground (
    arith,
    listed,
    set_phases-count phase ppis (record s { world = (client.list_prepullimages s.world).1 }) e,
  )
