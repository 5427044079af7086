-- ===== src/Store/Calm.antt =====
-- Calls of the system on the job files of internal/store/store.go, when none of them fails.
use worldbisect.Prelude.{String, ◌≡◌, none, some, [], arith}
use worldbisect.Prelude.Exec.{ok, err}
use worldbisect.Prelude.Files.{lookup, insert}
use worldbisect.Model.{Job}
use worldbisect.Store.Disk.{Disk, not_exist, io, read_job, write_job}

pub io_calm : (d : Disk) → d.faults ≡ [] → io d ≡ (ok tt, d)
unfolding io
io_calm d calm = ground arith

pub read_job_calm :
    (name : String) (d : Disk) (job : Job)
    → d.faults ≡ []
    → lookup name d.jobs ≡ some job
    → read_job name d ≡ (ok job, d)
unfolding read_job
read_job_calm name d job calm found = ground (arith, io_calm d calm)

pub read_job_absent :
    (name : String) (d : Disk)
    → d.faults ≡ []
    → lookup name d.jobs ≡ none
    → read_job name d ≡ (err not_exist, d)
unfolding read_job
read_job_absent name d calm found = ground (arith, io_calm d calm)

pub write_job_calm :
    (name : String) (job : Job) (d : Disk)
    → d.faults ≡ []
    → write_job name job d ≡ (ok tt, record d { jobs = insert name job d.jobs })
unfolding write_job
write_job_calm name job d calm = ground (arith, io_calm d calm)
