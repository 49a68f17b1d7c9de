-- ===== src/Puller/Cleanup.antt =====
-- What `CleanupJobsForPrePullImage` leaves of the jobs.
use kwarm.Base.{
  ◌≡◌, sym, ap, ◌∙◌, inl, inr, Bool, true, false, false≢true, Bool-cases, String, List, [], ◌∷◌,
  Elem, Option, none, map, arith,
}
use kwarm.Kube.{StringMap, Job}
use kwarm.Cluster.{ApiError, ok, Outcome-cases, Sys, Client}
use kwarm.Puller.{
  operator_namespace, label_prepullimage, delete_jobs, list_jobs_for_prepullimage,
  cleanup_jobs_for_prepullimage,
}

abbrev pub job_names : List Job → List String
job_names = map (λ (j : Job). j.meta.name)

-- The labels that the jobs of a PrePullImage are listed by.
abbrev pub labels_of : String → StringMap
labels_of ppi_name = (label_prepullimage, ppi_name) ∷ []

-- `has_job` says of a world whether a namespace has a job with some labels and a name. A listing by
-- labels shows all of them, and makes none; a job that was deleted is gone, and a deletion makes none.
pub record JobStore {W : Type 0} (client : Client W) : Type 0 where
  pub has_job : String → StringMap → String → W → Bool
  pub list_shows :
      (ns : String) (labels : StringMap) (name : String) (w : W) (jobs : List Job)
      → (client.list_jobs ns labels w).0 ≡ ok jobs
      → has_job ns labels name w ≡ true
      → Elem name (job_names jobs)
  pub list_keeps :
      (ns : String) (labels : StringMap) (name : String) (w : W)
      → has_job ns labels name (client.list_jobs ns labels w).1 ≡ true
      → has_job ns labels name w ≡ true
  pub delete_removes :
      (ns : String) (labels : StringMap) (name : String) (w : W) (u : Unit {0})
      → (client.delete_job ns name w).0 ≡ ok u
      → has_job ns labels name (client.delete_job ns name w).1 ≡ false
  pub delete_keeps :
      (ns : String) (labels : StringMap) (name other : String) (w : W)
      → has_job ns labels other (client.delete_job ns name w).1 ≡ true
      → has_job ns labels other w ≡ true

module _ {W : Type 0} (client : Client W) (store : JobStore client) where
  open store use {has_job}

  -- A deletion without an error goes on to the next job.
  delete_jobs-next :
      (job : Job) (jobs : List Job) (s : Sys W)
      → (delete_jobs client (job ∷ jobs) s).0 ≡ none
      → let d = client.delete_job operator_namespace job.meta.name s.world in
        (d.0 ≡ ok tt)
        × (delete_jobs client (job ∷ jobs) s ≡ delete_jobs client jobs (record s { world = d.1 }))
  unfolding delete_jobs
  delete_jobs-next job jobs s e =
      elim (Outcome-cases (client.delete_job operator_namespace job.meta.name s.world).0) [
        | inl (u, d) ↦ (d, ground (arith, d))
        | inr (x, d) ↦ absurd (ground (arith, d, e))
      ]

  -- Deletions without an error leave a job only if it was there and not among those to delete.
  delete_jobs-left :
      (jobs : List Job) (labels : StringMap) (name : String) (s : Sys W)
      → (delete_jobs client jobs s).0 ≡ none
      → has_job operator_namespace labels name (delete_jobs client jobs s).1.world ≡ true
      → (has_job operator_namespace labels name s.world ≡ true) × ¬ Elem name (job_names jobs)
  delete_jobs-left [] labels name s e there = (unfold delete_jobs in there, λ x. x)
  delete_jobs-left (job ∷ jobs) labels name s e there =
      let s' = record s {
        world = (client.delete_job operator_namespace job.meta.name s.world).1;
      } in
      let next = delete_jobs-next job jobs s e in
      let later =
        delete_jobs-left jobs labels name s'
          (ap (λ (r : Option ApiError × Sys W). r.0) (sym next.1) ∙ e)
          (ap (λ (r : Option ApiError × Sys W). has_job operator_namespace labels name r.1.world)
              (sym next.1)
            ∙ there) in
      (
        store.delete_keeps operator_namespace labels job.meta.name name s.world later.0,
        λ (x : Elem name (job_names (job ∷ jobs))). elim x [
          | inr rest ↦ later.1 rest
          | inl same ↦ false≢true (
              sym (store.delete_removes operator_namespace labels job.meta.name s.world tt next.0)
              ∙ ap (λ n. has_job operator_namespace labels n s'.world) same
              ∙ later.0)
        ],
      )

  cleanup-listed :
      (ppi_name : String) (s : Sys W)
      → (cleanup_jobs_for_prepullimage client ppi_name s).0 ≡ none
      → let l = client.list_jobs operator_namespace (labels_of ppi_name) s.world in
        (jobs : List Job) × (l.0 ≡ ok jobs)
        × (cleanup_jobs_for_prepullimage client ppi_name s
            ≡ delete_jobs client jobs (record s { world = l.1 }))
  unfolding cleanup_jobs_for_prepullimage list_jobs_for_prepullimage
  cleanup-listed ppi_name s e =
      elim (Outcome-cases (client.list_jobs operator_namespace (labels_of ppi_name) s.world).0) [
        | inl (jobs, l) ↦ (jobs, l, ground (arith, l))
        | inr (x, l) ↦ absurd (ground (arith, l, e))
      ]

  -- Where a listing shows every job with its labels and a job that was deleted is gone: a clean-up that
  -- ends without an error leaves in the operator's namespace no job with the label of the PrePullImage,
  -- whatever the name of the job.
  pub cleanup_jobs_for_prepullimage-removed :
      (ppi_name name : String) (s : Sys W)
      → (cleanup_jobs_for_prepullimage client ppi_name s).0 ≡ none
      → has_job operator_namespace
          (labels_of ppi_name)
          name
          (cleanup_jobs_for_prepullimage client ppi_name s).1.world
        ≡ false
  cleanup_jobs_for_prepullimage-removed ppi_name name s e =
      let labels = labels_of ppi_name in
      let l = client.list_jobs operator_namespace labels s.world in
      let found = cleanup-listed ppi_name s e in
      let after = (delete_jobs client found.0 (record s { world = l.1 })).1.world in
      ap (λ (r : Option ApiError × Sys W). has_job operator_namespace labels name r.1.world) found.2
      ∙ elim (Bool-cases (has_job operator_namespace labels name after)) [
        | inr gone ↦ gone
        | inl there ↦
            let left =
              delete_jobs-left found.0 labels name (record s { world = l.1 })
                (ap (λ (r : Option ApiError × Sys W). r.0) (sym found.2) ∙ e) there in
            absurd (
              left.1 (
                store.list_shows operator_namespace labels name s.world found.0 found.1
                  (store.list_keeps operator_namespace labels name s.world left.0)))
      ]
