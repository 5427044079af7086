-- ===== src/Store/Claim.antt =====
-- What `ClaimNextJob` of internal/store/store.go returns.
use worldbisect.Prelude.{
  ℕ, ◌<◌, String, ◌≡◌, refl, sym, ap, ◌∙◌, subst, ◌⊎◌, inl, inr, Bool, true, false, Option, none,
  some, List, [], ◌∷◌, ◌||◌, ◌&&◌, not, arith, leb, ltb,
}
use worldbisect.Prelude.Exec.{ok, ok-injective, Ensures, Ensures-bind, Ensures-if, Ensures-pure}
use worldbisect.Prelude.Files.{
  Files, lookup, lookup-insert_self, Member, first, later, Member-sort_names, names-lookup, names,
  sort_names,
}
use mathlib.Core.Option.{some-injective}
use worldbisect.Model.{Job, queued, Detail}
use worldbisect.Store.Disk.{Disk, fails, io, read_job, write_job}
use worldbisect.Store.AuditLog.{AuditCodec, append_audit}
use worldbisect.Store.JobFiles.{
  is_queued, claimed_job, claim_job, claim_from, claim_next_job, job_names,
}
use worldbisect.Store.Lifecycle.{
  append_audit-SameJobs, read_job-SameJobs, read_job-ok, job_names-SameJobs,
}
use worldbisect.Store.Enqueue.{write_job-stored}

-- The claimed job was queued with attempts left, and its file now holds the returned job, owned by
-- the worker under a lease from now on and with one attempt more.
pub record IsClaim (now max_attempts lease : ℕ) (worker : String) (jobs : Files Job) (d' : Disk)
    (job : Job) : Type 0 where
  pub name : String
  pub before : Job
  pub was_there : lookup name jobs ≡ some before
  pub was_queued : before.state ≡ queued
  pub had_attempts : before.attempts < max_attempts
  pub is_claimed : job ≡ claimed_job worker lease now before
  pub is_stored : lookup name d'.jobs ≡ some job

-- Waiting with attempts left.
abbrev pub is_claimable : ℕ → Job → Bool
is_claimable max_attempts job = is_queued job.state && ltb job.attempts max_attempts

-- What a result of `ClaimNextJob` says: a claim, or that none of the listed files can be claimed.
abbrev pub ClaimResult : ℕ → ℕ → ℕ → String → List String → Files Job → Option Job → Disk → Type 0
ClaimResult now max_attempts lease worker files jobs (some job) d' =
    IsClaim now max_attempts lease worker jobs d' job
ClaimResult now max_attempts lease worker files jobs none d' =
    (name : String) (job : Job)
    → Member name files
    → lookup name jobs ≡ some job
    → is_claimable max_attempts job ≡ false

-- The same, over all files that there are, unless the first call of the system, which lists them,
-- fails.
abbrev pub CompleteClaim : ℕ → ℕ → ℕ → String → Disk → Option Job → Disk → Type 0
CompleteClaim now max_attempts lease worker d (some job) d' =
    IsClaim now max_attempts lease worker d.jobs d' job
CompleteClaim now max_attempts lease worker d none d' =
    (fails 0 d.faults ≡ true)
    ⊎ ((name : String) (job : Job)
        → lookup name d.jobs ≡ some job
        → is_claimable max_attempts job ≡ false)

module _ (codec : AuditCodec) (now max_attempts lease : ℕ) (worker : String)
    (jobs : Files Job) where
  abbrev ResultOf : List String → Option Job → Disk → Type 0
  ResultOf files = ClaimResult now max_attempts lease worker files jobs

  claim_job-IsClaim :
      (name : String) (before : Job) (d : Disk) (files : List String)
      → d.jobs ≡ jobs
      → lookup name jobs ≡ some before
      → before.state ≡ queued
      → before.attempts < max_attempts
      → Ensures (claim_job codec now worker lease name before) d (ResultOf files)
  unfolding claim_job
  claim_job-IsClaim name before d files same found waiting room =
      let job : Job = claimed_job worker lease now before in
      let audit =
        append_audit codec now worker "job-claimed" "job" job.id ""
          (("attempt", Detail.number job.attempts) ∷ []) in
      Ensures-bind (write_job name job) _ d (ResultOf files) λ u written.
        Ensures-bind audit _ _ (ResultOf files) λ v audited.
          Ensures-pure (some job) _ (ResultOf files) (record {
            name = name;
            before = before;
            was_there = found;
            was_queued = waiting;
            had_attempts = room;
            is_claimed = refl;
            is_stored =
                ap (lookup name) (
                  (append_audit-SameJobs codec now worker "job-claimed" "job" job.id "" _).at _
                  ∙ write_job-stored name job d written)
                ∙ lookup-insert_self name job d.jobs;
          })

  widen :
      (name : String) (files : List String) (job : Job) (o : Option Job) (d' : Disk)
      → is_claimable max_attempts job ≡ false
      → lookup name jobs ≡ some job
      → ResultOf files o d'
      → ResultOf (name ∷ files) o d'
  widen name files job (some j) d' busy found r = r
  widen name files job none d' busy found r = λ n j m there. elim m [
    | first p ↦
        subst (λ k. is_claimable max_attempts k ≡ false)
          (some-injective _ _ (sym found ∙ ap (λ k. lookup k jobs) (sym p) ∙ there)) busy
    | later q ↦ r n j q there
  ]

  claim_from-ClaimResult :
      (files : List String) (d : Disk)
      → d.jobs ≡ jobs
      → Ensures (claim_from codec now worker lease max_attempts files) d (ResultOf files)
  unfolding claim_from
  claim_from-ClaimResult [] d same = Ensures-pure none d (ResultOf []) (λ n j m. elim m [ ])
  claim_from-ClaimResult (name ∷ files) d same =
      Ensures-bind (read_job name) _ d (ResultOf (name ∷ files)) λ job h.
        let same' = (read_job-SameJobs name).at d ∙ same in
        let found = ap (lookup name) (sym same) ∙ read_job-ok name d h in
        Ensures-if (not (is_queued job.state) || leb max_attempts job.attempts) _ _ _
          (ResultOf (name ∷ files))
          (λ busy o e.
            widen name files job o _ (ground arith) found
              (claim_from-ClaimResult files _ same' o e))
          (λ ready.
            claim_job-IsClaim name job _ (name ∷ files) same' found (ground arith) (ground arith))

  complete_claim :
      (d : Disk) (files : List String) (o : Option Job) (d' : Disk)
      → d.jobs ≡ jobs
      → (fails 0 d.faults ≡ true) ⊎ (sort_names (names jobs) ≡ files)
      → ResultOf files o d'
      → CompleteClaim now max_attempts lease worker d o d'
  complete_claim d files (some job) d' same listed r =
      subst (λ j. IsClaim now max_attempts lease worker j d' job) (sym same) r
  complete_claim d files none d' same (inl failed) r = inl failed
  complete_claim d files none d' same (inr listed) r = inr (λ n j there.
      let found = subst (λ k. lookup n k ≡ some j) same there in
      r n j (subst (Member n) listed (Member-sort_names _ (names-lookup n jobs found))) found)

-- The names are those of the files, unless the listing fails.
pub job_names-ok :
    (d : Disk) {files : List String}
    → (job_names d).0 ≡ ok files
    → (fails 0 d.faults ≡ true) ⊎ (sort_names (names d.jobs) ≡ files)
unfolding job_names io
job_names-ok d {files = files} h = go d.faults h
  where
    go :
        (faults : List Bool)
        → (job_names (record d { faults = faults })).0 ≡ ok files
        → (fails 0 faults ≡ true) ⊎ (sort_names (names d.jobs) ≡ files)
    go [] h = inr (ok-injective h)
    go (true ∷ rest) h = inl refl
    go (false ∷ rest) h = inr (ok-injective h)

-- A claim that returns without an error returns a job exactly if one can be claimed, as far as the
-- directory could be listed: a returned job was queued with attempts left, and its file now holds it
-- as running, owned by the worker, with a lease from now on and one attempt more; if none is
-- returned, no job file is queued with attempts left, or the first call of the system, which lists
-- the files, failed.
pub claim_next_job-CompleteClaim :
    (codec : AuditCodec) (now max_attempts lease : ℕ) (worker : String) (d : Disk) (o : Option Job)
    → (claim_next_job codec now worker lease max_attempts d).0 ≡ ok o
    → CompleteClaim now max_attempts lease worker d o
        (claim_next_job codec now worker lease max_attempts d).1
unfolding claim_next_job
claim_next_job-CompleteClaim codec now max_attempts lease worker d =
    Ensures-bind job_names _ d (CompleteClaim now max_attempts lease worker d) λ files listed o e.
      complete_claim codec now max_attempts lease worker d.jobs d files o _ refl
        (job_names-ok d listed)
        (claim_from-ClaimResult codec now max_attempts lease worker d.jobs files _
          (job_names-SameJobs.at d) o e)
