-- ===== src/Examples/Jobs.antt =====
-- Jobs by their labels, in memory, and the clean-up of those of one PrePullImage.
use text.Mathlib.TextEquality.{eq_iff}
use kwarm.Base.{
  ◌≡◌, refl, subst, Bool-cases, inl, inr, Bool, true, false, false≢true, ◌&&◌, ◌||◌, String, List,
  [], ◌∷◌, Elem, none, some, find, str_eq, if◌then◌else◌, arith,
}
use kwarm.Kube.{StringMap, Job}
use kwarm.Cluster.{ok, Client, Sys}
use kwarm.Puller.{delete_jobs, label_prepullimage, cleanup_jobs_for_prepullimage}
use kwarm.Puller.Cleanup.{job_names, JobStore, labels_of, cleanup_jobs_for_prepullimage-removed}
use kwarm.Examples.World.{World, client, done_job, without_job, sys}

-- Every label that is asked for is there.
unfoldable carries : StringMap → StringMap → Bool
carries [] labels = true
carries ((k, v) ∷ asked) labels =
    let rest = carries asked labels in
    elim (find k labels) [ some u ↦ str_eq u v && rest | none ↦ false ]

unfoldable labelled : StringMap → List Job → List Job
labelled asked [] = []
labelled asked (j ∷ js) =
    let rest = labelled asked js in if carries asked j.meta.labels then j ∷ rest else rest

unfoldable is_there : StringMap → String → List Job → Bool
is_there asked name [] = false
is_there asked name (j ∷ js) =
    let rest = is_there asked name js in
    (str_eq j.meta.name name && carries asked j.meta.labels) || rest

picked :
    (b later : Bool) (j : Job) (name : String) (rest : List Job)
    → ((str_eq j.meta.name name && b) || later) ≡ true
    → (later ≡ true → Elem name (job_names rest))
    → Elem name (job_names (if b then j ∷ rest else rest))
picked true later j name rest h f = elim (Bool-cases (str_eq j.meta.name name)) [
  | inl same ↦ inl ((eq_iff j.meta.name name).0 same)
  | inr other ↦ inr (f (ground (arith, h, other)))
]
picked false later j name rest h f = f (ground (arith, h))

ok_inj : {A : Type 0} (a b : A) → ok a ≡ ok b → a ≡ b
ok_inj a b e = cc

is_there-labelled :
    (asked : StringMap) (name : String) (js : List Job)
    → is_there asked name js ≡ true
    → Elem name (job_names (labelled asked js))
unfolding is_there labelled
is_there-labelled asked name [] h = absurd (false≢true h)
is_there-labelled asked name (j ∷ js) h =
    picked (carries asked j.meta.labels) _ j name (labelled asked js) h
      (is_there-labelled asked name js)

without-gone :
    (asked : StringMap) (name : String) (js : List Job)
    → is_there asked name (without_job name js) ≡ false
unfolding is_there without_job
without-gone asked name [] = refl
without-gone asked name (j ∷ js) = ground (arith, without-gone asked name js)

without-keeps :
    (asked : StringMap) (name other : String) (js : List Job)
    → is_there asked other (without_job name js) ≡ true
    → is_there asked other js ≡ true
unfolding is_there without_job
without-keeps asked name other [] h = h
without-keeps asked name other (j ∷ js) h = ground (arith, without-keeps asked name other js)

-- The cluster of `World`, with a listing by labels.
abbrev labelling : Client World
labelling = record client { list_jobs = λ ns labels w. (ok (labelled labels w.jobs), w) }

abbrev jobs : JobStore labelling
jobs = record {
  has_job = λ ns labels name w. is_there labels name w.jobs;
  list_shows = λ ns labels name w js e h.
      subst (λ l. Elem name (job_names l)) (ok_inj _ js e) (is_there-labelled labels name w.jobs h);
  list_keeps = λ ns labels name w h. h;
  delete_removes = λ ns labels name w u e. without-gone labels name w.jobs;
  delete_keeps = λ ns labels name other w h. without-keeps labels name other w.jobs h;
}

abbrev job_for : String → String → Job
job_for ppi_name name =
    let meta = done_job.meta in
    record done_job {
      meta = record meta { name = name; labels = (label_prepullimage, ppi_name) ∷ [] };
    }

-- Two jobs of "web" and one of another PrePullImage.
abbrev busy : Sys World
busy =
    let w = sys.world in
    record sys {
      world = record w { jobs = job_for "web" "a" ∷ (job_for "db" "b" ∷ (job_for "web" "c" ∷ [])) };
    }

cleanup_jobs_for_prepullimage-removed_example :
    is_there (labels_of "web") "a" (cleanup_jobs_for_prepullimage labelling "web" busy).1.world.jobs
    ≡ false
unfolding cleanup_jobs_for_prepullimage delete_jobs labelled carries find
cleanup_jobs_for_prepullimage-removed_example =
    cleanup_jobs_for_prepullimage-removed labelling jobs "web" "a" busy refl
