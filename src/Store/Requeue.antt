-- ===== src/Store/Requeue.antt =====
-- `RequeueExpiredJobs` of internal/store/store.go: the jobs of dead workers come back.
use worldbisect.Prelude.{
  ℕ, ◌+◌, String, ◌≡◌, refl, sym, ap, ◌∙◌, subst, ◌⊎◌, inl, inr, true, false, some, List, [], ◌∷◌,
  leb, str_eq, eq_iff, Bool-cases, if◌then◌else◌,
}
use mathlib.Core.Option.{some-injective}
use worldbisect.Prelude.Exec.{ok, Ensures, Ensures-bind, Ensures-if, Ensures-pure}
use worldbisect.Prelude.Files.{
  Files, lookup, insert, lookup-insert, Member, first, later, Member-sort_names, names-lookup,
}
use worldbisect.Model.{Job}
use worldbisect.Store.Disk.{Disk, fails, read_job, write_job}
use worldbisect.Store.JobFiles.{
  expired_job, holds_lease, requeue_from, requeue_expired_jobs, job_names,
}
use worldbisect.Store.Lifecycle.{read_job-SameJobs, read_job-ok, job_names-SameJobs}
use worldbisect.Store.Enqueue.{write_job-stored}
use worldbisect.Store.Claim.{job_names-ok}

-- A job after the reaper has come by: released, if its lease has run out.
abbrev pub settled : ℕ → ℕ → Job → Job
settled now max_attempts job = if holds_lease now job then job else expired_job now max_attempts job

module _ (now m : ℕ) where
  expired-holds : (job : Job) → holds_lease now (expired_job now m job) ≡ true
  expired-holds job = elim (Bool-cases (leb m job.attempts)) [
    | inl p ↦ rw p refl
    | inr p ↦ rw p refl
  ]

  settled-held : (job : Job) → holds_lease now job ≡ true → settled now m job ≡ job
  settled-held job h = rw h refl

  settled-free :
      (job : Job) → holds_lease now job ≡ false → settled now m job ≡ expired_job now m job
  settled-free job h = ap (λ b. if b then job else expired_job now m job) h

  -- What becomes of a job file when the names in `files` are visited.
  abbrev Visited : List String → Files Job → Files Job → Type 0
  Visited files before after =
      (name : String) (job : Job)
      → lookup name before ≡ some job
      → (lookup name after ≡ some (settled now m job))
        ⊎ ((lookup name after ≡ some job) × (Member name files → ⊥))

  -- A name that is not the one just visited.
  pass :
      {P Q : Type 0} (name n : String) (files : List String)
      → str_eq name n ≡ false
      → P ⊎ (Q × (Member n files → ⊥))
      → P ⊎ (Q × (Member n (name ∷ files) → ⊥))
  pass name n files other (inl p) = inl p
  pass name n files other (inr (q, missed)) =
      inr (
        q,
        λ h. elim h [ first p ↦ cc (sym other ∙ (eq_iff name n).1 (sym p)) | later r ↦ missed r ],
      )

  either : {P Q R : Type 0} → (Q → P) → P ⊎ (Q × R) → P
  either f (inl p) = p
  either f (inr (q, r)) = f q

  same_job :
      (name n : String) (job0 job : Job) (before : Files Job)
      → name ≡ n
      → lookup name before ≡ some job0
      → lookup n before ≡ some job
      → job0 ≡ job
  same_job name n job0 job before e p q =
      some-injective _ _ (sym p ∙ ap (λ k. lookup k before) e ∙ q)

  keep_name :
      (name : String) (job0 : Job) (files : List String) (before after : Files Job)
      → lookup name before ≡ some job0
      → holds_lease now job0 ≡ true
      → Visited files before after
      → Visited (name ∷ files) before after
  keep_name name job0 files before after found0 held ih n job found =
      elim (Bool-cases (str_eq name n)) [
        | inr e ↦ pass name n files e (ih n job found)
        | inl e ↦
            let mine = same_job name n job0 job before ((eq_iff name n).0 e) found0 found in
            inl (
              either
                (λ q.
                  q
                  ∙ ap some
                      (sym (settled-held job (subst (λ j. holds_lease now j ≡ true) mine held))))
                (ih n job found))
      ]

  settle_name :
      (name : String) (job0 : Job) (files : List String) (before middle after : Files Job)
      → lookup name before ≡ some job0
      → holds_lease now job0 ≡ false
      → middle ≡ insert name (expired_job now m job0) before
      → Visited files middle after
      → Visited (name ∷ files) before after
  settle_name name job0 files before middle after found0 free written ih n job found =
      elim (Bool-cases (str_eq name n)) [
        | inr e ↦
            pass name n files e
              (ih n job (ap (lookup n) written ∙ lookup-insert name n _ before ∙ rw e found))
        | inl e ↦
            let mine = same_job name n job0 job before ((eq_iff name n).0 e) found0 found in
            let now_there : lookup n middle ≡ some (expired_job now m job0) =
              ap (lookup n) written ∙ lookup-insert name n _ before ∙ rw e refl in
            let goal : expired_job now m job0 ≡ settled now m job =
              sym (settled-free job0 free) ∙ ap (settled now m) mine in
            let visited = ih n (expired_job now m job0) now_there in
            inl (
              either (λ q. q)
                (elim visited [
                  | inl p ↦
                      inl (p ∙ ap some (settled-held (expired_job now m job0) (expired-holds job0)))
                  | inr q ↦ inr q
                ])
              ∙ ap some goal)
      ]

  requeue_from-Visited :
      (files : List String) (count : ℕ) (d : Disk)
      → Ensures (requeue_from now m files count) d (λ _ e. Visited files d.jobs e.jobs)
  unfolding requeue_from
  requeue_from-Visited [] count d =
      Ensures-pure count d (λ _ e. Visited [] d.jobs e.jobs)
        (λ n job found. inr (found, λ h. elim h [ ]))
  requeue_from-Visited (name ∷ files) count d =
      Ensures-bind (read_job name) _ d (λ _ e. Visited (name ∷ files) d.jobs e.jobs)
        (λ job r.
          let e : Disk = (read_job name d).1 in
          let same : e.jobs ≡ d.jobs = (read_job-SameJobs name).at d in
          let found : lookup name d.jobs ≡ some job = read_job-ok name d r in
          Ensures-if (holds_lease now job) _ _ e (λ _ t. Visited (name ∷ files) d.jobs t.jobs)
            (λ held k h.
              keep_name name job files d.jobs (requeue_from now m files count e).1.jobs found held (
                subst (λ j. Visited files j (requeue_from now m files count e).1.jobs) same
                  (requeue_from-Visited files count e k h)))
            (λ free.
              Ensures-bind (write_job name (expired_job now m job)) _ e
                (λ _ t. Visited (name ∷ files) d.jobs t.jobs)
                (λ u s k h.
                  settle_name name job files d.jobs _ _ found free
                    (write_job-stored name (expired_job now m job) e s
                      ∙ ap (insert name (expired_job now m job)) same)
                    (requeue_from-Visited files (count + 1) _ k h))))

pub requeue_expired_jobs-settled :
    (now max_attempts count : ℕ) (d : Disk) (name : String) (job : Job)
    → fails 0 d.faults ≡ false
    → (requeue_expired_jobs now max_attempts d).0 ≡ ok count
    → lookup name d.jobs ≡ some job
    → lookup name (requeue_expired_jobs now max_attempts d).1.jobs
      ≡ some (settled now max_attempts job)
unfolding requeue_expired_jobs
requeue_expired_jobs-settled now m count d name job works h found =
    Ensures-bind job_names (λ files. requeue_from now m files 0) d
      (λ _ e. lookup name e.jobs ≡ some (settled now m job))
      (λ files listed k g.
        let same : (job_names d).1.jobs ≡ d.jobs = job_names-SameJobs.at d in
        elim (requeue_from-Visited now m files 0 (job_names d).1 k g name job
          (ap (lookup name) same ∙ found)) [
            | inl e ↦ e
            | inr (e, missed) ↦ elim (job_names-ok d listed) [
              | inl failed ↦ cc (works, failed)
              | inr all ↦ absurd (
                  missed (
                    subst (Member name) all (Member-sort_names _ (names-lookup name d.jobs found))))
            ]
          ])
      count h
