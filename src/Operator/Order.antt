-- ===== src/Operator/Order.antt =====
-- The order of the start: what has been called when `main` ends, and with which exit code.
use kwarm.Base.{ℕ, ◌≡◌, refl, sym, subst, ap, ◌⊎◌, inl, inr, String, List, [], ◌∷◌, ◌++◌, arith}
use kwarm.Cluster.{ApiError, Outcome, ok, err, Outcome-cases}
use kwarm.RateLimiter.{new_rate_limiter}
use kwarm.Operator.Options.{Flags, ManagerOptions, manager_options}
use kwarm.Operator.Start.{
  Registration, Runtime, prepullpolicy_setup, deployment_setup, prepullimage_setup, main,
}

pub data StartCall : Type 0 where
  config_call start_call : StartCall
  manager_call : ManagerOptions → StartCall
  complete_call : Registration → StartCall
  healthz_call readyz_call : String → StartCall

-- An answer may depend on all calls so far, the newest first.
abbrev pub Answer : Type 0
Answer = List StartCall → StartCall → Outcome (Unit {0})

-- The manager that answers so, and keeps the calls.
abbrev pub recording : Answer → Runtime (List StartCall)
recording answer = record {
  get_config = λ w. (answer w config_call, config_call ∷ w);
  new_manager = λ o w. (answer w (manager_call o), manager_call o ∷ w);
  complete = λ r w. (answer w (complete_call r), complete_call r ∷ w);
  add_healthz_check = λ n w. (answer w (healthz_call n), healthz_call n ∷ w);
  add_readyz_check = λ n w. (answer w (readyz_call n), readyz_call n ∷ w);
  start = λ w. (answer w start_call, start_call ∷ w);
}

-- The manager, the three controllers with one rate limiter of the flags' limits, the two checks, and
-- only then the start.
abbrev pub plan : Flags → List StartCall
plan f =
    config_call
    ∷ (manager_call (manager_options f)
        ∷ (complete_call prepullpolicy_setup
            ∷ (complete_call (deployment_setup "kwarm-deployment-controller")
                ∷ (complete_call (
                      prepullimage_setup "kwarm-prepullimage-controller"
                        (new_rate_limiter f.max_concurrent_pulls f.max_pulls_per_node))
                    ∷ (healthz_call "healthz" ∷ (readyz_call "readyz" ∷ (start_call ∷ [])))))))

-- Calls made after those of a list, the newest first.
abbrev pub onto : List StartCall → List StartCall → List StartCall
onto [] w = w
onto (c ∷ cs) w = onto cs (c ∷ w)

-- All of the calls were accepted.
abbrev pub IsGranted : Answer → List StartCall → Type 0
IsGranted answer [] = Unit
IsGranted answer (c ∷ w) = (answer w c ≡ ok tt) × IsGranted answer w

-- The newest call was refused, and all before it were accepted.
abbrev pub IsRefused : Answer → List StartCall → Type 0
IsRefused answer [] = ⊥
IsRefused answer (c ∷ w) = ((e : ApiError) × (answer w c ≡ err e)) × IsGranted answer w

follow : Answer → List StartCall → List StartCall → ℕ × List StartCall
follow answer [] w = (0, w)
follow answer (c ∷ cs) w = elim (answer w c) [
  | ok _ ↦ follow answer cs (c ∷ w)
  | err _ ↦ (1, c ∷ w)
]

main-follow :
    (answer : Answer) (f : Flags) → main (recording answer) f [] ≡ follow answer (plan f) []
unfolding main follow
main-follow answer f = refl

-- What a run of calls leaves: the calls that were made and those that were not.
abbrev Follows : Answer → List StartCall → List StartCall → ℕ × List StartCall → Type 0
Follows answer cs w r =
    (made rest : List StartCall) × (made ++ rest ≡ cs)
    × (r.1 ≡ onto made w)
    × (((r.0 ≡ 0) × (rest ≡ []) × IsGranted answer r.1) ⊎ ((r.0 ≡ 1) × IsRefused answer r.1))

follow-ok :
    (answer : Answer) (c : StartCall) (cs w : List StartCall) (u : Unit {0})
    → answer w c ≡ ok u
    → follow answer (c ∷ cs) w ≡ follow answer cs (c ∷ w)
unfolding follow
follow-ok answer c cs w u e = ground arith

follow-err :
    (answer : Answer) (c : StartCall) (cs w : List StartCall) (x : ApiError)
    → answer w c ≡ err x
    → follow answer (c ∷ cs) w ≡ (1, c ∷ w)
unfolding follow
follow-err answer c cs w x e = ground arith

follow-Follows :
    (answer : Answer) (cs w : List StartCall)
    → IsGranted answer w
    → Follows answer cs w (follow answer cs w)
follow-Follows answer [] w granted =
    unfold follow in ([], [], refl, refl, inl (refl, refl, granted))
follow-Follows answer (c ∷ cs) w granted = elim (Outcome-cases (answer w c)) [
  | inl (u, e) ↦
      let later = follow-Follows answer cs (c ∷ w) (e, granted) in
      subst (Follows answer (c ∷ cs) w) (sym (follow-ok answer c cs w u e))
        (c ∷ later.0, later.1, ap (◌∷◌ c) later.2, later.3, later.4)
  | inr (x, e) ↦
      subst (Follows answer (c ∷ cs) w) (sym (follow-err answer c cs w x e))
        (c ∷ [], cs, refl, refl, inr (refl, ((x, e), granted)))
]

-- Whatever the manager answers, `main` makes the calls of the plan in their order. Either it has made
-- them all, each was accepted, and the exit code is 0; or it has made some of them, the last of these
-- was refused, all before it were accepted, and the exit code is 1.
pub main_follows_plan :
    (answer : Answer) (f : Flags)
    → let r = main (recording answer) f [] in
      (made rest : List StartCall) × (made ++ rest ≡ plan f)
      × (r.1 ≡ onto made [])
      × (((r.0 ≡ 0) × (rest ≡ []) × IsGranted answer r.1) ⊎ ((r.0 ≡ 1) × IsRefused answer r.1))
main_follows_plan answer f = rw (main-follow answer f) (follow-Follows answer (plan f) [] tt)
