-- ===== src/Puller/Status.antt =====
-- What is read off a job.
use kwarm.Base.{◌≡◌, refl, inl, inr, String, List, [], ◌∷◌, some, slt32, true, false, ◌↔◌, arith}
use kwarm.Kube.{Job}
use kwarm.Cluster.{Client, Sys, Outcome-cases}
use kwarm.Puller.{
  get_job_status, failed, delete_jobs, cleanup_jobs_for_prepullimage, operator_namespace,
  label_prepullimage,
}

-- A job counts as failed exactly when it has a failed pod and no pod that succeeded.
pub get_job_status-failed_iff :
    (job : Job)
    → (get_job_status (some job) ≡ failed)
      ↔ ((slt32 0 job.status.succeeded ≡ false) × (slt32 0 job.status.failed ≡ true))
unfolding get_job_status
get_job_status-failed_iff job = (λ h. ground arith, λ h. ground arith)

module _ {W : Type 0} (client : Client W) where
  delete_jobs_local :
      (jobs : List Job) (s : Sys W)
      → ((delete_jobs client jobs s).1.limiter ≡ s.limiter)
        × ((delete_jobs client jobs s).1.metrics ≡ s.metrics)
  unfolding delete_jobs
  delete_jobs_local [] s = (refl, refl)
  delete_jobs_local (job ∷ jobs) s = ground (
    arith,
    delete_jobs_local jobs
        (record s { world = (client.delete_job operator_namespace job.meta.name s.world).1 }),
  )

  pub cleanup_local :
      (name : String) (s : Sys W)
      → ((cleanup_jobs_for_prepullimage client name s).1.limiter ≡ s.limiter)
        × ((cleanup_jobs_for_prepullimage client name s).1.metrics ≡ s.metrics)
  unfolding cleanup_jobs_for_prepullimage
  cleanup_local name s =
      elim (Outcome-cases
        (client.list_jobs operator_namespace ((label_prepullimage, name) ∷ []) s.world).0) [
          | inl (jobs, e) ↦ ground (
            arith,
            delete_jobs_local jobs (record s {
              world =
                  (client.list_jobs operator_namespace ((label_prepullimage, name) ∷ []) s.world).1;
            }),
          )
          | inr (e, q) ↦ ground arith
        ]
