-- ===== src/Store/Steps.antt =====
-- Each operation on existing jobs of internal/store/store.go makes only steps of the relation,
-- whichever calls of the system fail.
use worldbisect.Prelude.{
  ℕ, ◌+◌, ◌<◌, String, ◌≡◌, refl, inl, inr, false, some, List, [], ◌∷◌, ◌||◌, not, arith, leb,
  str_eq, Bool-cases,
}
use worldbisect.Prelude.Exec.{Moves-pure, Moves-bind, Moves-bind_at}
use worldbisect.Prelude.Files.{lookup}
use worldbisect.Model.{Job, JobState, queued}
use worldbisect.Store.Disk.{Disk}
use worldbisect.Store.AuditLog.{AuditCodec}
use worldbisect.Store.JobFiles.{
  job_file, is_queued, is_running, is_terminal, claimed_job, claim_job, claim_from, claim_next_job,
  heartbeat_job, complete_job, expired_job, holds_lease, requeue_from, requeue_expired_jobs,
  job_names,
}
use worldbisect.Store.Lifecycle.{
  Transition, claim, heartbeat, complete, requeue, give_up, JobsEvolve, JobsEvolve-preorder,
  SameJobs-preorder, SameJobs-JobsEvolve, append_audit-SameJobs, job_names-SameJobs,
  write_job-Evolves, Evolves-if, read_job-bind, write_job-then,
}

module _ (now : ℕ) where
  pub heartbeat_job-Evolves :
      (m lease : ℕ) (id worker : String) (d : Disk)
      → JobsEvolve m d (heartbeat_job now id worker lease d).1
  unfolding heartbeat_job
  heartbeat_job-Evolves m lease id worker d = read_job-bind (job_file id) _ d λ job e found.
      Evolves-if (not (is_running job.state) || not (str_eq job.lease_owner worker)) _ _ e
        (λ _. (JobsEvolve-preorder m).reflexive e)
        (λ owned.
          write_job-Evolves (job_file id) job _ e found
            (heartbeat (ground arith) (ground arith) refl refl))

  expired_job-Transition :
      (m : ℕ) (job : Job) → holds_lease now job ≡ false → Transition m job (expired_job now m job)
  expired_job-Transition m job h = elim (Bool-cases (leb m job.attempts)) [
    | inl spent ↦ rw spent (give_up (ground arith) (ground arith) refl refl refl refl)
    | inr left ↦ rw left (requeue (ground arith) (ground arith) refl refl refl refl)
  ]

  requeue_from-Evolves :
      (m : ℕ) (files : List String) (count : ℕ) (d : Disk)
      → JobsEvolve m d (requeue_from now m files count d).1
  unfolding requeue_from
  requeue_from-Evolves m [] count d = (JobsEvolve-preorder m).reflexive d
  requeue_from-Evolves m (name ∷ files) count d = read_job-bind name _ d λ job e found.
      Evolves-if (holds_lease now job) _ _ e (λ _. requeue_from-Evolves m files count e)
        (λ expired.
          write_job-then name job (expired_job now m job) _ e found
            (expired_job-Transition m job expired)
            (λ u t. requeue_from-Evolves m files (count + 1) t))

  pub requeue_expired_jobs-Evolves :
      (m : ℕ) (d : Disk) → JobsEvolve m d (requeue_expired_jobs now m d).1
  unfolding requeue_expired_jobs
  requeue_expired_jobs-Evolves m d =
      Moves-bind_at (JobsEvolve-preorder m) job_names _ d
        (SameJobs-JobsEvolve (job_names-SameJobs.at d))
        (λ files _. requeue_from-Evolves m files 0 _)

module _ (codec : AuditCodec) (now : ℕ) where
  claim_job-Evolves :
      (m lease : ℕ) (worker name : String) (job : Job) (d : Disk)
      → lookup name d.jobs ≡ some job
      → job.state ≡ queued
      → job.attempts < m
      → JobsEvolve m d (claim_job codec now worker lease name job d).1
  unfolding claim_job
  claim_job-Evolves m lease worker name job d found waiting room =
      write_job-then name job (claimed_job worker lease now job) _ d found
        (claim waiting room refl refl)
        λ u e. SameJobs-JobsEvolve (
          (Moves-bind SameJobs-preorder _ _ (append_audit-SameJobs codec now _ _ _ _ _ _)
              (λ v. Moves-pure SameJobs-preorder _)).at
            e)

  claim_from-Evolves :
      (m lease : ℕ) (worker : String) (files : List String) (d : Disk)
      → JobsEvolve m d (claim_from codec now worker lease m files d).1
  unfolding claim_from
  claim_from-Evolves m lease worker [] d = (JobsEvolve-preorder m).reflexive d
  claim_from-Evolves m lease worker (name ∷ files) d = read_job-bind name _ d λ job e found.
      Evolves-if (not (is_queued job.state) || leb m job.attempts) _ _ e
        (λ _. claim_from-Evolves m lease worker files e)
        (λ ready. claim_job-Evolves m lease worker name job e found (ground arith) (ground arith))

  pub claim_next_job-Evolves :
      (m lease : ℕ) (worker : String) (d : Disk)
      → JobsEvolve m d (claim_next_job codec now worker lease m d).1
  unfolding claim_next_job
  claim_next_job-Evolves m lease worker d =
      Moves-bind_at (JobsEvolve-preorder m) job_names _ d
        (SameJobs-JobsEvolve (job_names-SameJobs.at d))
        (λ files _. claim_from-Evolves m lease worker files _)

  pub complete_job-Evolves :
      (m : ℕ) (id worker : String) (state : JobState) (result_ref message : String) (d : Disk)
      → JobsEvolve m d (complete_job codec now id worker state result_ref message d).1
  unfolding complete_job
  complete_job-Evolves m id worker state result_ref message d =
      read_job-bind (job_file id) _ d λ job e found.
        Evolves-if (not (is_running job.state) || not (str_eq job.lease_owner worker)) _ _ e
          (λ _. (JobsEvolve-preorder m).reflexive e)
          (λ owned.
            Evolves-if (not (is_terminal state)) _ _ e (λ _. (JobsEvolve-preorder m).reflexive e)
              (λ final.
                write_job-then (job_file id) job _ _ e found
                  (complete (ground arith) (ground arith) refl refl refl)
                  (λ u t.
                    SameJobs-JobsEvolve ((append_audit-SameJobs codec now _ _ _ _ _ _).at t))))
