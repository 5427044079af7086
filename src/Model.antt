-- ===== src/Model.antt =====
-- internal/model/model.go and the parts of internal/model/helpers.go that are about records.
-- Times are counted from the zero time, so 0 stands for it and `IsZero` is a test with 0. Texts of a
-- fixed vocabulary that a file may spoil keep a constructor for any other text.
use worldbisect.Prelude.{ℤ, ℕ, String, Bool, Option, List, ◌&&◌, ◌||◌, str_eq, ◌==◌}
use worldbisect.Prelude.Files.{Files}

pub data ProofStatus : Type 0 where
  proven supported correlated unproven : ProofStatus

pub data JobState : Type 0 where
  queued running succeeded failed : JobState
  unrecognised : String → JobState

pub record Job : Type 0 where
  pub schema_version : ℕ
  pub id : String
  pub type : String
  pub state : JobState
  pub payload : String
  pub principal : String
  pub created_at : ℕ
  pub updated_at : ℕ
  pub lease_owner : String
  pub lease_expires : ℕ
  pub heartbeat_at : ℕ
  pub attempts : ℕ
  pub result_ref : String
  pub error : String

pub record IdempotencyRecord : Type 0 where
  pub schema_version : ℕ
  pub principal_fingerprint : String
  pub route : String
  pub key : String
  pub request_digest : String
  pub job_id : String
  pub created_at : ℕ

-- The values that the program puts into the `details` map of an event.
pub data Detail : Type 0 where
  text : String → Detail
  number : ℕ → Detail
  state : JobState → Detail
  status : ProofStatus → Detail

pub record AuditEvent : Type 0 where
  pub version : ℕ
  pub sequence : ℕ
  pub timestamp : ℕ
  pub actor : String
  pub action : String
  pub entity_type : String
  pub entity_id : String
  pub request_id : String
  pub details : List (String × Detail)
  pub previous_hash : String
  pub hash : String

pub record AuditVerification : Type 0 where
  pub valid : Bool
  pub entries : ℕ
  pub error : String

pub record WorkspaceEntry : Type 0 where
  pub path : String
  pub type : String
  pub mode : ℕ
  pub size : ℕ
  pub digest : String
  pub blob_digest : String
  pub link_target : String

pub record WorkspaceManifest : Type 0 where
  pub root : String
  pub entries : List WorkspaceEntry
  pub total_files : ℕ
  pub total_bytes : ℕ
  pub digest : String

unfoldable pub supported_entry : WorkspaceEntry → Bool
supported_entry e = str_eq e.type "file" || str_eq e.type "dir" || str_eq e.type "symlink"

unfoldable pub equal_entry : WorkspaceEntry → WorkspaceEntry → Bool
equal_entry e f =
    str_eq e.path f.path
    && str_eq e.type f.type
    && e.mode == f.mode
    && str_eq e.digest f.digest
    && str_eq e.blob_digest f.blob_digest
    && str_eq e.link_target f.link_target

pub data FactorType : Type 0 where
  environment workspace : FactorType

pub record Factor : Type 0 where
  pub id : String
  pub type : FactorType
  pub key : String
  pub good_present : Bool
  pub bad_present : Bool
  pub good_value : String
  pub bad_value : String
  pub good_entry : WorkspaceEntry
  pub bad_entry : WorkspaceEntry
  pub intervenable : Bool

pub record SecretEvidence : Type 0 where
  pub name : String
  pub fingerprint : String

pub record HostEvidence : Type 0 where
  pub os : String
  pub arch : String
  pub kernel : String
  pub hostname : String
  pub mount_digest : String
  pub resource_digest : String
  pub security_digest : String

-- `none` is the nil pointer.
pub record Oracle : Type 0 where
  pub kind : String
  pub expected_exit_code : Option ℤ
  pub pattern : String
  pub file : String
  pub digest : String

pub record OracleResult : Type 0 where
  pub passed : Bool
  pub detail : String

pub record ProcessResult : Type 0 where
  pub exit_code : ℤ
  pub signal : String
  pub timed_out : Bool
  pub stdout : String
  pub stderr : String
  pub output_truncated : Bool

pub record CommandSpec : Type 0 where
  pub arguments : List String
  pub directory : String
  pub environment : Files String
  pub timeout_ms : ℕ

pub record Capture : Type 0 where
  pub id : String
  pub command : CommandSpec
  pub oracle : Oracle
  pub workspace : WorkspaceManifest
  pub host : HostEvidence
  pub secret_evidence : List SecretEvidence
  pub consulted_paths : List String

pub record Experiment : Type 0 where
  pub id : String
  pub kind : String
  pub cache_hit : Bool
  pub base_capture_id : String
  pub source_capture_id : String
  pub factor_ids : List String
  pub result : Option ProcessResult
  pub oracle_result : OracleResult
  pub error : String

pub record Analysis : Type 0 where
  pub id : String
  pub good_capture_id : String
  pub bad_capture_id : String
  pub factors : List Factor
  pub causal_factors : List String
  pub experiments : List Experiment
  pub status : ProofStatus
  pub forward_verified : Bool
  pub reverse_verified : Bool
  pub minimal_in_model : Bool
  pub repetitions : ℕ
  pub experiment_budget : ℕ
  pub evidence_boundaries : List String
  pub limitations : List String
