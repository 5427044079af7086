-- ===== src/Oracle.antt =====
-- internal/oracle/oracle.go: `Evaluate` decides from a process result and the workspace whether a
-- run passed. The regular expressions, the paths and the file system are a `Host`.
pub mod Closed
use Prim.Native.String.{◌++◌ as append}
use text.Mathlib.Text.{starts_with}
use worldbisect.Prelude.{
  String, Bool, true, false, Option, none, some, ◌||◌, ◌&&◌, not, str_eq, same_int, if◌then◌else◌,
}
use worldbisect.Prelude.Exec.{Result, ok, err}
use worldbisect.Prelude.{ℤ}
use worldbisect.Model.{Oracle, OracleResult, ProcessResult}

pub record Host : Type 0 where
  -- `regexp.MatchString`; the error is that of a pattern that does not compile.
  pub match : String → String → Result String Bool
  pub is_absolute : String → Bool
  -- `filepath.Clean`, on a system whose separator is the slash.
  pub clean : String → String
  pub join : String → String → String
  -- SHA-256 of a file's content in hexadecimal, or the error of reading it.
  pub file_digest : String → Result String String
  pub integer : ℤ → String

module _ (host : Host) where
  unfoldable pub safe_workspace_path : String → String → Result String String
  safe_workspace_path root relative =
      let clean = host.clean relative in
      if str_eq relative "" || host.is_absolute relative
      then err "oracle file must be relative"
      else if str_eq clean "." || str_eq clean ".." || starts_with clean "../"
      then err "oracle file escapes workspace"
      else ok (host.join root clean)

  abbrev pub refuse : String → OracleResult
  refuse detail = record { passed = false; detail = detail }

  abbrev pub truth : Bool → String
  truth true = "true"
  truth false = "false"

  unfoldable pub exit_result : Option ℤ → ProcessResult → OracleResult
  exit_result none result = refuse "expected exit code missing"
  exit_result (some expected) result = record {
    passed = not result.timed_out && same_int result.exit_code expected;
    detail =
        append "exit="
          (append (host.integer result.exit_code) (append " expected=" (host.integer expected)));
  }

  unfoldable pub match_result : Result String Bool → String → OracleResult
  match_result (err e) detail = refuse e
  match_result (ok matched) detail = record { passed = matched; detail = detail }

  unfoldable pub digest_result : Oracle → Result String String → OracleResult
  digest_result spec (err e) = refuse e
  digest_result spec (ok actual) = record {
    passed = str_eq actual spec.digest;
    detail = append "file sha256=" actual;
  }

  unfoldable pub file_result : Oracle → Result String String → OracleResult
  unfolding digest_result
  file_result spec (err e) = refuse e
  file_result spec (ok path) = digest_result spec (host.file_digest path)

  unfoldable pub evaluate : Oracle → ProcessResult → String → OracleResult
  unfolding exit_result match_result file_result safe_workspace_path
  evaluate spec result workspace =
      if str_eq spec.kind "exit"
      then exit_result spec.expected_exit_code result
      else if str_eq spec.kind "timeout"
      then record {
        passed = result.timed_out;
        detail = append "timed_out=" (truth result.timed_out);
      }
      else if str_eq spec.kind "stdout_regex"
      then match_result (host.match spec.pattern result.stdout) "stdout regex evaluated"
      else if str_eq spec.kind "stderr_regex"
      then match_result (host.match spec.pattern result.stderr) "stderr regex evaluated"
      else if str_eq spec.kind "file_digest"
      then file_result spec (safe_workspace_path workspace spec.file)
      else refuse "unsupported oracle"
