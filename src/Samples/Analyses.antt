-- ===== src/Samples/Analyses.antt =====
-- `Compare` and `Analyze` (internal/experiment) on two captures that differ in two variables, in a lab
-- whose command succeeds unless the variable MODE is "bad".
use worldbisect.Prelude.{
  pos, same_int, ℕ, suc, ◌≤◌, String, ◌≡◌, refl, Bool, true, false, Option, none, some, List, [],
  ◌∷◌, arith, length, All, str_eq,
}
use worldbisect.Prelude.Files.{Files, lookup, insert, erase, names, sort_names}
use worldbisect.Model.{WorkspaceManifest, HostEvidence, Capture, Analysis, proven}
use worldbisect.Compare.{
  HashText, compare, factor_id, environment_differences, workspace_differences,
  environment_difference, workspace_difference, sorted_keys, collect, entry_map, sort_factors,
  limit_factors, unique_sorted, evidence_boundaries, host_digest, secret_key, secret_name,
  is_redacted_value,
}
use worldbisect.Ddmin.{ddmin, split, subtract}
use worldbisect.Compare.Genuine.{IsGenuine, compare-IsGenuine, length-compare}
use worldbisect.Engine.Lab.{Lab, Request}
use worldbisect.Engine.World.{apply_factor, apply_factors, judge_run, run_in, run_fresh, run_world}
use worldbisect.Engine.Trials.{
  baseline_from, verify_baseline, factor_by_id, trial_from, run_intervention, forward, backward,
  repair_test, minimality_from,
}
use worldbisect.Engine.Stages.{
  Ending, ended, crashed, ids_of, normalize, finish, stop_on, conclude, after_backward,
  after_minimize, after_ddmin,
}
use worldbisect.Engine.Analyze.{
  analyze_captures, analyze_plan, after_good_baseline, after_bad_baseline, minimize, plan_of,
  start_of, compared,
}
use worldbisect.Engine.Evidence.Proof.{IsBacked}
use worldbisect.Engine.Evidence.Proven.{analyze_captures-proven}

abbrev no_workspace : WorkspaceManifest
no_workspace = record { root = "/w"; entries = []; total_files = 0; total_bytes = 0; digest = "" }

abbrev host : HostEvidence
host = record {
  os = "linux";
  arch = "amd64";
  kernel = "6";
  hostname = "h";
  mount_digest = "m";
  resource_digest = "r";
  security_digest = "s";
}

unfoldable pub capture_of : String → Files String → Capture
capture_of id env = record {
  id = id;
  command = record {
    arguments = "make" ∷ [];
    directory = "/w";
    environment = env;
    timeout_ms = 1000;
  };
  oracle = record {
    kind = "exit";
    expected_exit_code = some (pos 0);
    pattern = "";
    file = "";
    digest = "";
  };
  workspace = no_workspace;
  host = host;
  secret_evidence = [];
  consulted_paths = "/w/Makefile" ∷ [];
}

abbrev pub good : Capture
good = capture_of "cap_good" (("COLOR", "red") ∷ ("MODE", "good") ∷ [])

abbrev pub bad : Capture
bad = capture_of "cap_bad" (("COLOR", "blue") ∷ ("MODE", "bad") ∷ [])

abbrev is_bad : Option String → Bool
is_bad none = false
is_bad (some v) = str_eq v "bad"

-- The state counts the processes.
unfoldable lab : Lab ℕ
lab = record {
  cancelled = λ w. none;
  new_id = λ prefix w. (prefix, w);
  cache_key = λ base source g command selected kind. "";
  load_cache = λ key w. (none, w);
  save_cache = λ key x w. w;
  make_temp = λ w. ((none, "/tmp/x"), w);
  remove_all = λ root w. w;
  materialize = λ root manifest w. (none, w);
  apply = λ root key entry present w. (none, w);
  run = λ q w. (
    (
      some (record {
        exit_code = elim (is_bad (lookup "MODE" q.environment)) [ true ↦ pos 1 | false ↦ pos 0 ];
        signal = "";
        timed_out = false;
        stdout = "";
        stderr = "";
        output_truncated = false;
      }),
      none,
    ),
    suc w,
  );
  evaluate =
      λ o result root w. (record { passed = same_int result.exit_code (pos 0); detail = "" }, w);
  notify = λ event w. w;
  save_analysis = λ a w. (none, w);
  append_audit = λ a w. (none, w);
}

unfoldable short_hash : HashText
short_hash s = s

unfoldable digest_strings : List String → String
digest_strings xs = ""

abbrev request : Request
request = record {
  good = some good;
  bad = some bad;
  command = [];
  repetitions = 2;
  max_experiments = 40;
  max_factors = 0;
  max_output_bytes = 0;
}

abbrev ending : Ending
ending = (analyze_captures lab short_hash digest_strings request good bad 0).0

abbrev no_analysis : Analysis
no_analysis = record {
  id = "";
  good_capture_id = "";
  bad_capture_id = "";
  factors = [];
  causal_factors = [];
  experiments = [];
  status = proven;
  forward_verified = false;
  reverse_verified = false;
  minimal_in_model = false;
  repetitions = 0;
  experiment_budget = 0;
  evidence_boundaries = [];
  limitations = [];
}

abbrev analysis_of : Ending → Analysis
analysis_of crashed = no_analysis
analysis_of (ended none e) = no_analysis
analysis_of (ended (some a) e) = a

compare-IsGenuine_example :
    All (IsGenuine short_hash good bad) (compare short_hash digest_strings good bad 1).0
compare-IsGenuine_example = compare-IsGenuine short_hash digest_strings good bad 1

length-compare_example : length (compare short_hash digest_strings good bad 1).0 ≤ 1
length-compare_example = length-compare short_hash digest_strings good bad 1 (omega arith)

-- The variable MODE alone is named.
named_cause : (analysis_of ending).causal_factors ≡ factor_id short_hash "env" "MODE" ∷ []
unfolding compare factor_id environment_differences workspace_differences environment_difference
    workspace_difference sorted_keys collect entry_map sort_factors limit_factors unique_sorted
    evidence_boundaries host_digest secret_key secret_name is_redacted_value ddmin split subtract
    apply_factor apply_factors judge_run run_in run_fresh run_world baseline_from verify_baseline
    factor_by_id trial_from run_intervention forward backward repair_test minimality_from normalize
    finish stop_on conclude after_backward after_minimize after_ddmin analyze_captures analyze_plan
    after_good_baseline after_bad_baseline minimize plan_of start_of compared lookup insert erase
    names sort_names capture_of lab short_hash digest_strings
named_cause = refl

analyze_captures-proven_example :
    IsBacked lab
      (plan_of short_hash digest_strings request good bad)
      (ids_of (compared short_hash digest_strings request good bad).0)
      (analysis_of ending)
unfolding compare factor_id environment_differences workspace_differences environment_difference
    workspace_difference sorted_keys collect entry_map sort_factors limit_factors unique_sorted
    evidence_boundaries host_digest secret_key secret_name is_redacted_value ddmin split subtract
    apply_factor apply_factors judge_run run_in run_fresh run_world baseline_from verify_baseline
    factor_by_id trial_from run_intervention forward backward repair_test minimality_from normalize
    finish stop_on conclude after_backward after_minimize after_ddmin analyze_captures analyze_plan
    after_good_baseline after_bad_baseline minimize plan_of start_of compared lookup insert erase
    names sort_names capture_of lab short_hash digest_strings
analyze_captures-proven_example =
    analyze_captures-proven lab short_hash digest_strings request good bad 0 (analysis_of ending)
      none refl refl
