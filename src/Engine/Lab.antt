-- ===== src/Engine/Lab.antt =====
-- What the engine calls, and what it passes around.
use worldbisect.Prelude.{ℕ, String, Bool, Option, List}
use worldbisect.Prelude.Files.{Files}
use worldbisect.Model.{
  Capture, Factor, WorkspaceEntry, WorkspaceManifest, Oracle, OracleResult, ProcessResult,
  Experiment, Analysis,
}

pub record RunRequest : Type 0 where
  pub command : List String
  pub directory : String
  pub environment : Files String
  pub timeout_ms : ℕ
  pub max_output_bytes : ℕ

pub record ProgressEvent : Type 0 where
  pub experiment_id : String
  pub kind : String
  pub cache_hit : Bool

pub record Lab (W : Type 0) : Type 0 where
  -- `ctx.Err()`
  pub cancelled : W → Option String
  pub new_id : String → W → String × W
  pub cache_key : Capture → Capture → String → List String → List Factor → String → String
  -- Only a complete entry is found.
  pub load_cache : String → W → Option Experiment × W
  pub save_cache : String → Experiment → W → W
  pub make_temp : W → (Option String × String) × W
  pub remove_all : String → W → W
  pub materialize : String → WorkspaceManifest → W → Option String × W
  pub apply : String → String → WorkspaceEntry → Bool → W → Option String × W
  -- The process result, if there was a process, and the error.
  pub run : RunRequest → W → (Option ProcessResult × Option String) × W
  pub evaluate : Oracle → ProcessResult → String → W → OracleResult × W
  pub notify : ProgressEvent → W → W
  pub save_analysis : Analysis → W → Option String × W
  pub append_audit : Analysis → W → Option String × W

pub record Request : Type 0 where
  pub good : Option Capture
  pub bad : Option Capture
  pub command : List String
  pub repetitions : ℕ
  pub max_experiments : ℕ
  pub max_factors : ℕ
  pub max_output_bytes : ℕ

-- The three results of `runWorld`: the record, whether the oracle passed, and the error.
pub record WorldRun : Type 0 where
  pub experiment : Experiment
  pub passed : Bool
  pub error : Option String
