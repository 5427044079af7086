-- ===== src/Samples/Outcomes.antt =====
-- An oracle of internal/oracle/oracle.go that compares the digest of a file of the workspace.
use Prim.Native.String.{◌++◌ as append}
use worldbisect.Prelude.{pos, refl, true, false, none}
use worldbisect.Prelude.Exec.{ok}
use worldbisect.Model.{Oracle, ProcessResult}
use worldbisect.Oracle.{
  Host, safe_workspace_path, exit_result, match_result, digest_result, file_result, evaluate,
}
use worldbisect.Oracle.Closed.{Justified, evaluate-Justified}

unfoldable host : Host
host = record {
  match = λ pattern text. ok false;
  is_absolute = λ path. false;
  clean = λ path. path;
  join = λ root path. append root (append "/" path);
  file_digest = λ path. ok path;
  integer = λ n. "";
}

abbrev spec : Oracle
spec = record {
  kind = "file_digest";
  expected_exit_code = none;
  pattern = "";
  file = "out.txt";
  digest = "/w/out.txt";
}

abbrev killed : ProcessResult
killed = record {
  exit_code = pos 137;
  signal = "killed";
  timed_out = true;
  stdout = "";
  stderr = "";
  output_truncated = false;
}

evaluate-Justified_example : Justified host spec killed "/w"
unfolding evaluate safe_workspace_path exit_result match_result digest_result file_result host
evaluate-Justified_example = evaluate-Justified host spec killed "/w" refl
