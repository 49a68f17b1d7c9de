-- ===== src/Cluster.antt =====
-- What the program runs in: the API server behind the controller-runtime client, the functions of
-- other packages that it calls, and the state that the controllers share. The client and the
-- functions are parameters; a state of the outside world has the type `W`.
use kwarm.Base.{
  ◌&&◌, str_eq, true, false, none, some, ◌≡◌, ◌≢◌, refl, ◌⊎◌, inl, inr, ℕ, ℤ, Bool, String, List,
  ◌∷◌, Option, concat,
}
use kwarm.Kube.{StringMap, LabelSelector, Condition, Node, Job, Deployment}
use kwarm.Api.{PrePullImage, PrePullPolicy}
use kwarm.Metrics.{Metrics}
use kwarm.RateLimiter
use kwarm.RateLimiter.{RateLimiter}

pub data Reason : Type 0 where
  not_found already_exists other_reason : Reason

pub record ApiError : Type 0 where
  pub reason : Reason
  pub message : String

-- `fmt.Errorf("<text>: %w", err)`; `apierrors` looks through the wrapping.
abbrev pub wrap : String → ApiError → ApiError
wrap text e = record e { message = concat (text ∷ (": " ∷ (e.message ∷ List.[]))) }

pub data Outcome {ℓ} (A : Type ℓ) : Type ℓ where
  ok : A → Outcome A
  err : ApiError → Outcome A

pub Outcome-cases {ℓ} :
    {A : Type ℓ} (o : Outcome A) → ((a : A) × (o ≡ ok a)) ⊎ ((e : ApiError) × (o ≡ err e))
Outcome-cases (ok a) = inl (a, refl)
Outcome-cases (err e) = inr (e, refl)

pub Reason-cases : (r : Reason) → (r ≡ Reason.not_found) ⊎ (r ≢ Reason.not_found)
Reason-cases Reason.not_found = inl refl
Reason-cases Reason.already_exists = inr (λ e. cc)
Reason-cases Reason.other_reason = inr (λ e. cc)

-- Whether two namespaces and names are one key.
abbrev pub same_key : String → String → String → String → Bool
same_key ns name ns' name' = str_eq ns ns' && str_eq name name'

pub data NodeFilter : Type 0 where
  all_nodes : NodeFilter
  matching_labels : StringMap → NodeFilter
  matching_selector : LabelSelector → NodeFilter

-- A call answers, and leaves the world in a new state.
pub record Client (W : Type 0) : Type 0 where
  pub now : W → ℕ × W
  pub get_prepullimage : String → String → W → Outcome PrePullImage × W
  pub list_prepullimages : W → Outcome (List PrePullImage) × W
  pub update_prepullimage : PrePullImage → W → Outcome PrePullImage × W
  pub update_prepullimage_status : PrePullImage → W → Outcome PrePullImage × W
  pub create_prepullimage : PrePullImage → W → Outcome PrePullImage × W
  pub delete_prepullimage : PrePullImage → W → Outcome (Unit {0}) × W
  pub list_nodes : NodeFilter → W → Outcome (List Node) × W
  pub get_job : String → String → W → Outcome Job × W
  pub list_jobs : String → StringMap → W → Outcome (List Job) × W
  pub create_job : Job → W → Outcome Job × W
  -- with background propagation
  pub delete_job : String → String → W → Outcome (Unit {0}) × W
  pub get_deployment : String → String → W → Outcome Deployment × W
  -- in one namespace, or in all
  pub list_deployments : Option String → W → Outcome (List Deployment) × W
  pub update_deployment : Deployment → W → Outcome Deployment × W
  pub get_policy : String → W → Outcome PrePullPolicy × W
  pub list_policies : W → Outcome (List PrePullPolicy) × W
  pub update_policy_status : PrePullPolicy → W → Outcome PrePullPolicy × W

-- Pure functions of other packages.
pub record Library : Type 0 where
  -- `fmt.Sprintf("%x", sha256.Sum256([]byte(s)))`
  pub sha256_hex : String → String
  -- `time.ParseDuration`, in nanoseconds
  pub parse_duration : String → Option ℤ
  -- `int64(d.Seconds())`
  pub int64_seconds : ℤ → ℤ
  -- `ended.Sub(started).String()`
  pub elapsed_string : ℕ → ℕ → String
  -- `controllerutil`
  pub contains_finalizer : List String → String → Bool
  pub add_finalizer : List String → String → List String
  pub remove_finalizer : List String → String → List String
  -- `meta.SetStatusCondition`
  pub set_status_condition : List Condition → Condition → List Condition
  -- the error of `metav1.LabelSelectorAsSelector`, if it has one
  pub selector_error : LabelSelector → Option ApiError
  -- `labels.SelectorFromSet(selector).Matches(set)`
  pub selector_matches : StringMap → StringMap → Bool
  -- `encoding/json` on a `map[string]string`; `none` is the nil map that `null` decodes to
  pub marshal : StringMap → Outcome String
  pub unmarshal : String → Outcome (Option StringMap)
  -- `resource.MustParse`, a quantity by its canonical text
  pub must_parse : String → String
  -- `appsv1.SchemeGroupVersion.String()`
  pub apps_group_version : String

-- `Recorder.Event`
pub record Event : Type 0 where
  pub namespace : String
  pub name : String
  pub kind : String
  pub reason : String
  pub message : String

-- The limiter and the metrics live in the process, all else is behind the client.
pub record Sys (W : Type 0) : Type 0 where
  pub limiter : RateLimiter
  pub metrics : Metrics
  pub events : List Event
  pub world : W

-- The program's steps: functions from a state to a result and the next state.
abbrev pub M : Type 0 → Type 0 → Type 0
M W A = Sys W → A × Sys W

infixl 5 ◌>>=◌ ◌>>◌
abbrev pub ◌>>=◌ : {W A B : Type 0} → M W A → (A → M W B) → M W B
◌>>=◌ m f s = f (m s).0 (m s).1

abbrev pub ◌>>◌ : {W A B : Type 0} → M W A → M W B → M W B
◌>>◌ m k s = k (m s).1

abbrev pub return : {W A : Type 0} → A → M W A
return a s = (a, s)

-- One call of the client.
abbrev pub call : {W A : Type 0} → (W → A × W) → M W A
call f s = ((f s.world).0, record s { world = (f s.world).1 })

-- A change of the metrics.
abbrev pub measure : {W : Type 0} → (Metrics → Metrics) → M W (Unit {0})
measure f s = (tt, record s { metrics = f s.metrics })

abbrev pub emit : {W : Type 0} → Event → M W (Unit {0})
emit e s = (tt, record s { events = e ∷ s.events })

abbrev pub acquire_slot : {W : Type 0} → String → M W Bool
acquire_slot node s = (
  (RateLimiter.try_acquire s.limiter node).1,
  record s { limiter = (RateLimiter.try_acquire s.limiter node).0 },
)

abbrev pub release_slot : {W : Type 0} → String → M W (Unit {0})
release_slot node s = (tt, record s { limiter = RateLimiter.release s.limiter node })

-- `ctrl.Result` and the error that a handler returns; 0 stands for no `RequeueAfter`.
pub record Reply : Type 0 where
  pub requeue : Bool
  pub requeue_after : ℕ
  pub error : Option ApiError

abbrev pub finished : Reply
finished = record { requeue = false; requeue_after = 0; error = none }

abbrev pub requeue_now : Reply
requeue_now = record { requeue = true; requeue_after = 0; error = none }

abbrev pub requeue_in : ℕ → Reply
requeue_in d = record { requeue = false; requeue_after = d; error = none }

abbrev pub failing : ApiError → Reply
failing e = record { requeue = false; requeue_after = 0; error = some e }
