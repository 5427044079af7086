-- ===== src/Engine/World.antt =====
-- `runWorld` of internal/experiment/engine.go.
use worldbisect.Prelude.{
  ℕ, String, Bool, true, false, Option, none, some, List, [], ◌∷◌, str_eq, not, if◌then◌else◌,
}
use worldbisect.Prelude.Files.{Files, insert, erase}
use worldbisect.Model.{
  Capture, Factor, environment, workspace, OracleResult, ProcessResult, Experiment,
}
use worldbisect.Engine.Lab.{Lab, WorldRun}

abbrev pub no_oracle_result : OracleResult
no_oracle_result = record { passed = false; detail = "" }

abbrev pub no_experiment : Experiment
no_experiment = record {
  id = "";
  kind = "";
  cache_hit = false;
  base_capture_id = "";
  source_capture_id = "";
  factor_ids = [];
  result = none;
  oracle_result = no_oracle_result;
  error = "";
}

abbrev pub broken_run : String → WorldRun
broken_run e = record { experiment = no_experiment; passed = false; error = some e }

-- The arguments that the runs of one analysis share.
pub record Setting : Type 0 where
  pub good_id : String
  pub command : List String
  pub max_output : ℕ

module _ {W : Type 0} (lab : Lab W) where
  -- One round of the loop over `selected`; `use_good` is `base.ID != goodCaptureID`.
  unfoldable pub apply_factor :
      Bool → String → Factor → Files String → W → (Option String × Files String) × W
  unfolding insert erase
  apply_factor use_good root f env w = elim f.type [
    | environment ↦ (
      (
        none,
        (if (if use_good then f.good_present else f.bad_present)
            then insert f.key (if use_good then f.good_value else f.bad_value) env
            else erase f.key env),
      ),
      w,
    )
    | workspace ↦
        (let (e, w') =
            lab.apply root f.key (if use_good then f.good_entry else f.bad_entry)
              (if use_good then f.good_present else f.bad_present) w in
          ((e, env), w'))
  ]

  unfoldable pub apply_factors :
      Bool → String → List Factor → Files String → W → (Option String × Files String) × W
  apply_factors use_good root [] env w = ((none, env), w)
  apply_factors use_good root (f ∷ fs) env w =
      let ((e, env'), w') = apply_factor use_good root f env w in
      elim e [ some x ↦ ((some x, env'), w') | none ↦ apply_factors use_good root fs env' w' ]

  -- The result of the runner, evaluated and recorded.
  unfoldable pub judge_run :
      Capture
      → Capture
      → List String
      → String
      → String
      → String
      → (Option ProcessResult × Option String)
      → W
      → WorldRun × W
  judge_run base source factor_ids kind key root (none, run_err) w =
      let (identifier, w1) = lab.new_id "exp" w in
      let blank : Experiment = record {
        id = identifier;
        kind = kind;
        cache_hit = false;
        base_capture_id = base.id;
        source_capture_id = source.id;
        factor_ids = factor_ids;
        result = none;
        oracle_result = no_oracle_result;
        error = "";
      } in
      elim run_err [
        | some e ↦
            (record { experiment = record blank { error = e }; passed = false; error = some e }, w1)
        | none ↦ (
          record { experiment = blank; passed = false; error = none },
          lab.notify (record { experiment_id = identifier; kind = kind; cache_hit = false }) w1,
        )
      ]
  judge_run base source factor_ids kind key root (some result, run_err) w =
      let (identifier, w1) = lab.new_id "exp" w in
      let (oracle_result, w2) = lab.evaluate base.oracle result root w1 in
      let experiment : Experiment = record {
        id = identifier;
        kind = kind;
        cache_hit = false;
        base_capture_id = base.id;
        source_capture_id = source.id;
        factor_ids = factor_ids;
        result = some result;
        oracle_result = oracle_result;
        error = elim run_err [ none ↦ "" | some e ↦ e ];
      } in
      let w3 = if result.timed_out then w2 else lab.save_cache key experiment w2 in
      (
        record { experiment = experiment; passed = oracle_result.passed; error = none },
        lab.notify (record { experiment_id = identifier; kind = kind; cache_hit = false }) w3,
      )

  -- The part of `runWorld` in a temporary directory `root`.
  unfoldable pub run_in :
      Setting
      → Capture
      → Capture
      → List Factor
      → List String
      → String
      → String
      → String
      → W
      → WorldRun × W
  run_in setting base source selected factor_ids kind key root w =
      let (failed, w1) = lab.materialize root base.workspace w in
      elim failed [
        | some e ↦ (broken_run e, w1)
        | none ↦
            (let ((unapplied, env), w2) =
                apply_factors (not (str_eq base.id setting.good_id)) root selected
                  base.command.environment w1 in
              elim unapplied [
                | some e ↦ (broken_run e, w2)
                | none ↦
                    (let (result, w3) =
                        lab.run
                          (record {
                            command = setting.command;
                            directory = root;
                            environment = env;
                            timeout_ms = base.command.timeout_ms;
                            max_output_bytes = setting.max_output;
                          })
                          w2 in
                      judge_run base source factor_ids kind key root result w3)
              ])
      ]

  -- `runWorld` when the cache has no entry. The directory is removed at the end.
  unfoldable pub run_fresh :
      Setting → Capture → Capture → List Factor → List String → String → String → W → WorldRun × W
  run_fresh setting base source selected factor_ids kind key w =
      let ((failed, root), w1) = lab.make_temp w in
      elim failed [
        | some e ↦ (broken_run e, w1)
        | none ↦
            (let (outcome, w2) = run_in setting base source selected factor_ids kind key root w1 in
              (outcome, lab.remove_all root w2))
      ]

  unfoldable pub run_world :
      Setting → Capture → Capture → List Factor → List String → String → W → WorldRun × W
  run_world setting base source selected factor_ids kind w =
      let key = lab.cache_key base source setting.good_id setting.command selected kind in
      let (cached, w1) = lab.load_cache key w in
      elim cached [
        | none ↦ run_fresh setting base source selected factor_ids kind key w1
        | some entry ↦
            (let (identifier, w2) = lab.new_id "exp" w1 in
              (
                record {
                  experiment = record entry {
                    id = identifier;
                    cache_hit = true;
                    base_capture_id = base.id;
                    source_capture_id = source.id;
                    factor_ids = factor_ids;
                  };
                  passed = entry.oracle_result.passed;
                  error = none;
                },
                lab.notify
                    (record { experiment_id = identifier; kind = entry.kind; cache_hit = true }) w2,
              ))
      ]
