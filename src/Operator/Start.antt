-- ===== src/Operator/Start.antt =====
-- cmd/main.go from the manager on, and the three `SetupWithManager`. The manager is controller-runtime's:
-- each call of it is answered by a parameter.
use kwarm.Base.{ℕ, String, List, [], ◌∷◌, Option, none, some}
use kwarm.Cluster.{Outcome, ok, err}
use kwarm.RateLimiter.{RateLimiter, new_rate_limiter}
use kwarm.Operator.Options.{Flags, ManagerOptions, manager_options}

pub data Kind : Type 0 where
  prepullpolicy_kind deployment_kind prepullimage_kind job_kind : Kind

-- What a builder of controller-runtime is told: `For`, `Owns`, `Named`, and the reconciler's own
-- event recorder and rate limiter.
pub record Registration : Type 0 where
  pub watched : Kind
  pub owned : List Kind
  pub name : String
  pub recorder : Option String
  pub rate_limiter : Option RateLimiter

abbrev pub prepullpolicy_setup : Registration
prepullpolicy_setup = record {
  watched = prepullpolicy_kind;
  owned = [];
  name = "prepullpolicy";
  recorder = none;
  rate_limiter = none;
}

abbrev pub deployment_setup : String → Registration
deployment_setup recorder = record {
  watched = deployment_kind;
  owned = [];
  name = "deployment";
  recorder = some recorder;
  rate_limiter = none;
}

abbrev pub prepullimage_setup : String → RateLimiter → Registration
prepullimage_setup recorder limiter = record {
  watched = prepullimage_kind;
  owned = job_kind ∷ [];
  name = "prepullimage";
  recorder = some recorder;
  rate_limiter = some limiter;
}

-- The manager's answers. `get_config` is `GetConfigOrDie`, which exits by itself where it fails.
pub record Runtime (W : Type 0) : Type 0 where
  pub get_config : W → Outcome (Unit {0}) × W
  pub new_manager : ManagerOptions → W → Outcome (Unit {0}) × W
  pub complete : Registration → W → Outcome (Unit {0}) × W
  pub add_healthz_check : String → W → Outcome (Unit {0}) × W
  pub add_readyz_check : String → W → Outcome (Unit {0}) × W
  pub start : W → Outcome (Unit {0}) × W

-- `if err := …; err != nil { os.Exit(1) }`, and the rest of `main`: an exit code and the world.
infixr 4 ◌or_exit◌
abbrev pub ◌or_exit◌ : {W : Type 0} → (W → Outcome (Unit {0}) × W) → (W → ℕ × W) → W → ℕ × W
◌or_exit◌ step rest w = elim (step w).0 [ ok _ ↦ rest (step w).1 | err _ ↦ (1, (step w).1) ]

module _ {W : Type 0} (runtime : Runtime W) where
  unfoldable pub main : Flags → W → ℕ × W
  main f =
      let limiter = new_rate_limiter f.max_concurrent_pulls f.max_pulls_per_node in
      runtime.get_config
      or_exit runtime.new_manager (manager_options f)
      or_exit runtime.complete prepullpolicy_setup
      or_exit runtime.complete (deployment_setup "kwarm-deployment-controller")
      or_exit runtime.complete (prepullimage_setup "kwarm-prepullimage-controller" limiter)
      or_exit runtime.add_healthz_check "healthz"
      or_exit runtime.add_readyz_check "readyz"
      or_exit runtime.start
      or_exit λ w. (0, w)
