-- ===== src/Store/Recovery.antt =====
-- The job of a dead worker is run again: `RequeueExpiredJobs` and then `ClaimNextJob` of
-- internal/store/store.go.
use worldbisect.Prelude.{
  ℕ, ◌+◌, ◌<◌, String, ◌≡◌, refl, ap, ◌∙◌, inl, inr, true, false, Option, none, some, List, [], ◌∷◌,
  arith, leb, ltb, str_eq, Bool-cases, All,
}
use text.Mathlib.TextPositions.{eq_refl}
use worldbisect.Prelude.Exec.{ok}
use worldbisect.Prelude.Files.{
  Files, lookup, insert, lookup-insert, names, insert_name, sort_names, str_le,
}
use worldbisect.Model.{Job}
use worldbisect.Store.Disk.{Disk, fails}
use worldbisect.Store.AuditLog.{AuditCodec}
use worldbisect.Store.JobFiles.{
  expired_job, holds_lease, requeue_from, requeue_expired_jobs, job_names, claim_next_job,
}
use worldbisect.Store.Calm.{io_calm, read_job_calm, write_job_calm}
use worldbisect.Store.Claim.{is_claimable, IsClaim, CompleteClaim, claim_next_job-CompleteClaim}
use worldbisect.Store.Requeue.{settled, requeue_expired_jobs-settled}

abbrev IsThere : Files Job → String → Type 0
IsThere jobs name = (job : Job) × (lookup name jobs ≡ some job)

All-insert_name :
    (P : String → Type 0) (x : String) (xs : List String)
    → P x
    → All P xs
    → All P (insert_name x xs)
unfolding insert_name
All-insert_name P x [] p h = (p, tt)
All-insert_name P x (y ∷ ys) p h = elim (Bool-cases (str_le x y)) [
  | inl e ↦ rw (e, All) (p, h)
  | inr e ↦ rw (e, All) (h.0, All-insert_name P x ys p h.1)
]

All-sort_names : (P : String → Type 0) (xs : List String) → All P xs → All P (sort_names xs)
unfolding sort_names
All-sort_names P [] h = tt
All-sort_names P (x ∷ xs) h = All-insert_name P x (sort_names xs) h.0 (All-sort_names P xs h.1)

IsThere-cons :
    (file : String) (job : Job) (jobs : Files Job) (name : String)
    → IsThere jobs name
    → IsThere ((file, job) ∷ jobs) name
unfolding lookup
IsThere-cons file job jobs name (j, h) = elim (Bool-cases (str_eq file name)) [
  | inl e ↦ rw e (job, refl)
  | inr e ↦ rw e (j, h)
]

All-cons :
    (file : String) (job : Job) (jobs : Files Job) (xs : List String)
    → All (IsThere jobs) xs
    → All (IsThere ((file, job) ∷ jobs)) xs
All-cons file job jobs [] h = tt
All-cons file job jobs (x ∷ xs) h =
    (IsThere-cons file job jobs x h.0, All-cons file job jobs xs h.1)

names-IsThere : (jobs : Files Job) → All (IsThere jobs) (names jobs)
unfolding names lookup
names-IsThere [] = tt
names-IsThere ((file, job) ∷ jobs) =
    ((job, rw (eq_refl file) refl), All-cons file job jobs (names jobs) (names-IsThere jobs))

All-insert :
    (name : String) (job : Job) (jobs : Files Job) (xs : List String)
    → All (IsThere jobs) xs
    → All (IsThere (insert name job jobs)) xs
All-insert name job jobs [] h = tt
All-insert name job jobs (x ∷ xs) ((j, p), h) = (
  elim (Bool-cases (str_eq name x)) [
    | inl e ↦ (job, lookup-insert name x job jobs ∙ rw e refl)
    | inr e ↦ (j, lookup-insert name x job jobs ∙ rw e p)
  ],
  All-insert name job jobs xs h,
)

module _ (now m : ℕ) where
  requeue_from-returns :
      (files : List String) (count : ℕ) (d : Disk)
      → d.faults ≡ []
      → All (IsThere d.jobs) files
      → (n : ℕ) × ((requeue_from now m files count d).0 ≡ ok n)
        × ((requeue_from now m files count d).1.faults ≡ [])
  unfolding requeue_from
  requeue_from-returns [] count d calm there = (count, refl, calm)
  requeue_from-returns (name ∷ files) count d calm ((job, found), there) =
      elim (Bool-cases (holds_lease now job)) [
        | inl e ↦
            rw (read_job_calm name d job calm found, e)
              (requeue_from-returns files count d calm there)
        | inr e ↦
            rw
              (
                read_job_calm name d job calm found,
                e,
                write_job_calm name (expired_job now m job) d calm,
              )
              (requeue_from-returns files (count + 1)
                (record d { jobs = insert name (expired_job now m job) d.jobs }) calm
                (All-insert name (expired_job now m job) d.jobs files there))
      ]

  requeue_expired_jobs-returns :
      (d : Disk)
      → d.faults ≡ []
      → (n : ℕ) × ((requeue_expired_jobs now m d).0 ≡ ok n)
        × ((requeue_expired_jobs now m d).1.faults ≡ [])
  unfolding requeue_expired_jobs job_names
  requeue_expired_jobs-returns d calm = rw (io_calm d calm) (
      requeue_from-returns (sort_names (names d.jobs)) 0 d calm
        (All-sort_names (IsThere d.jobs) (names d.jobs) (names-IsThere d.jobs)))

-- A claim that returns without an error finds a job, when one can be claimed.
claims_some :
    (codec : AuditCodec) (now max_attempts lease : ℕ) (worker name : String) (job : Job) (d : Disk)
    (o : Option Job)
    → d.faults ≡ []
    → lookup name d.jobs ≡ some job
    → is_claimable max_attempts job ≡ true
    → (claim_next_job codec now worker lease max_attempts d).0 ≡ ok o
    → (found : Job) × (o ≡ some found)
      × IsClaim now max_attempts lease worker d.jobs
          (claim_next_job codec now worker lease max_attempts d).1
          found
claims_some codec now m lease worker name job d o calm there ready h =
    by_result o (claim_next_job-CompleteClaim codec now m lease worker d o h)
  where
    by_result :
        (o : Option Job)
        → CompleteClaim now m lease worker d o (claim_next_job codec now worker lease m d).1
        → (found : Job) × (o ≡ some found)
          × IsClaim now m lease worker d.jobs (claim_next_job codec now worker lease m d).1 found
    by_result (some j) c = (j, refl, c)
    by_result none (inl failed) = cc (ap (fails 0) calm, failed)
    by_result none (inr c) = absurd (cc (c name job there, ready))

expired_job-claimable :
    (now m : ℕ) (job : Job)
    → holds_lease now job ≡ false
    → job.attempts < m
    → is_claimable m (settled now m job) ≡ true
expired_job-claimable now m job free room =
    let left : leb m job.attempts ≡ false = ground arith in
    let fits : ltb job.attempts m ≡ true = ground arith in rw (free, left, fits) refl

-- No job is lost with its worker: when a running job's lease has run out and it has attempts left, and
-- no call of the system fails, `requeue_expired_jobs` returns a count, and then any claim that returns
-- without an error takes up a job that was queued with attempts left, as this one is now.
pub abandoned_job_claimed :
    (codec : AuditCodec) (now later max_attempts lease : ℕ) (worker name : String) (job : Job)
    (d : Disk) (o : Option Job)
    → d.faults ≡ []
    → lookup name d.jobs ≡ some job
    → holds_lease now job ≡ false
    → job.attempts < max_attempts
    → let d1 = (requeue_expired_jobs now max_attempts d).1 in
      (claim_next_job codec later worker lease max_attempts d1).0 ≡ ok o
      → (count : ℕ) × ((requeue_expired_jobs now max_attempts d).0 ≡ ok count)
        × (lookup name d1.jobs ≡ some (expired_job now max_attempts job))
        × (found : Job) × (o ≡ some found)
        × IsClaim later max_attempts lease worker d1.jobs
            (claim_next_job codec later worker lease max_attempts d1).1
            found
abandoned_job_claimed codec now later m lease worker name job d o calm there free room h =
    let (count, runs, still) = requeue_expired_jobs-returns now m d calm in
    let settled_there =
      requeue_expired_jobs-settled now m count d name job (ap (fails 0) calm) runs there in
    let (taken, is_taken, claim) =
      claims_some codec later m lease worker name (settled now m job) _ o still settled_there
        (expired_job-claimable now m job free room) h in
    (count, runs, settled_there ∙ ap some (rw free refl), taken, is_taken, claim)
