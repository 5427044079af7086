-- ===== src/Store/Disk.antt =====
-- The state of the store, and calls of the operating system that may fail.
use worldbisect.Prelude.{ℕ, zero, suc, String, true, false, Option, none, some, List, [], ◌∷◌, Bool}
use worldbisect.Prelude.Exec.{ok, err, Exec, ◌>>◌}
use worldbisect.Prelude.Files.{Files, lookup, insert, erase}
use worldbisect.Model.{Job, IdempotencyRecord, AuditEvent, Experiment}

pub data StoreError : Type 0 where
  io_error not_exist decode_error encode_error idempotency_conflict key_required lease_not_owned
        invalid_state invalid_identifier entry_too_large line_too_long :
      StoreError

-- A line of audit/events.jsonl, as it is read: the event that it decodes to (other texts decode to the
-- same event), one that does not decode, with the error, or one that no scanner takes, of 4 MiB or
-- more.
pub data AuditLine : Type 0 where
  event : AuditEvent → AuditLine
  malformed : String → AuditLine
  oversized : AuditLine

-- What a failing write of a line leaves of it: nothing, a part, or all of it without its newline.
pub data Tear : Type 0 where
  nothing part unterminated : Tear

pub record CacheEntry : Type 0 where
  pub key : String
  pub complete : Bool
  pub experiment : Experiment

-- A file of experiment-cache; `none` is one that does not decode.
pub record CacheFile : Type 0 where
  pub entry : Option CacheEntry
  pub size : ℕ

-- `audit_whole` is whether the log is empty or ends in a newline, and `tears` says what the next
-- failing writes to it leave.
pub record Disk : Type 0 where
  pub jobs : Files Job
  pub idempotency : Files IdempotencyRecord
  pub audit : List AuditLine
  pub audit_whole : Bool
  pub tears : List Tear
  pub cache : Files CacheFile
  pub faults : List Bool

abbrev pub Io : Type 0 → Type 0
Io A = Exec Disk StoreError A

-- One call of the operating system that changes no file by itself.
unfoldable pub io : Io (Unit {0})
io d = elim d.faults [
  | [] ↦ (ok tt, d)
  | true ∷ rest ↦ (err io_error, record d { faults = rest })
  | false ∷ rest ↦ (ok tt, record d { faults = rest })
]

-- Whether the call of this number, from 0 on, is one that fails.
abbrev pub fails : ℕ → List Bool → Bool
fails n [] = false
fails zero (b ∷ rest) = b
fails (suc n) (b ∷ rest) = fails n rest

-- `readJSON` of a file of the jobs directory.
unfoldable pub read_job : String → Io Job
read_job name = do
  io
  λ d. elim (lookup name d.jobs) [ none ↦ (err not_exist, d) | some job ↦ (ok job, d) ]

-- `writeJSONAtomic` of such a file.
unfoldable pub write_job : String → Job → Io (Unit {0})
write_job name job = do io; λ d. (ok tt, record d { jobs = insert name job d.jobs })

unfoldable pub remove_job : String → Io (Unit {0})
remove_job name = do io; λ d. (ok tt, record d { jobs = erase name d.jobs })

unfoldable pub write_idempotency : String → IdempotencyRecord → Io (Unit {0})
write_idempotency name r = do
  io
  λ d. (ok tt, record d { idempotency = insert name r d.idempotency })
