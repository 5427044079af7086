-- ===== src/Engine/Analyze.antt =====
-- `Analyze` of internal/experiment/engine.go up to the minimisation.
use Prim.Native.String.{◌++◌ as append}
use worldbisect.Prelude.{
  ℕ, zero, suc, ◌-◌, ◌*◌, String, true, false, Option, none, some, List, [], ◌∷◌, leb, length,
}
use worldbisect.Model.{Capture, Factor, Experiment, Analysis, unproven}
use worldbisect.Compare.{HashText, compare}
use worldbisect.Ddmin.{ddmin}
use worldbisect.Engine.Lab.{Lab, Request}
use worldbisect.Engine.Trials.{verify_baseline, factor_by_id, Plan, repair_test}
use worldbisect.Engine.Stages.{
  Ending, add_records, add_limitation, finish, finish_interrupted, stop_on, after_ddmin, ids_of,
  ended,
}

module _ {W : Type 0} (lab : Lab W) where
  module _ (plan : Plan) where
    -- From the two baselines on.
    unfoldable pub minimize : Analysis → W → Ending × W
    minimize a w = elim a.factors [
      | [] ↦ finish lab (add_limitation a "no supported intervenable differences were found") none w
      | f ∷ fs ↦ elim (leb plan.max_experiments (length a.experiments)) [
        | true ↦
            finish lab (add_limitation a "experiment budget exhausted by baseline verification")
              none w
        | false ↦
            after_ddmin lab plan a
              (ddmin (repair_test lab plan) (ids_of (f ∷ fs))
                (plan.max_experiments - length a.experiments) (w, a.experiments))
              w
      ]
    ]

    unfoldable pub after_bad_baseline : Analysis → List Experiment × Option String → W → Ending × W
    after_bad_baseline a (records, error) w =
        let a1 = add_records a records in
        elim error [
          | some e ↦ stop_on lab a1 (add_limitation a1 (append "bad baseline is not stable: " e)) w
          | none ↦ minimize a1 w
        ]

    unfoldable pub after_good_baseline : Analysis → List Experiment × Option String → W → Ending × W
    after_good_baseline a (records, error) w =
        let a1 = add_records a records in
        elim error [
          | some e ↦ stop_on lab a1 (add_limitation a1 (append "good baseline is not stable: " e)) w
          | none ↦
              (let (result, w1) =
                  verify_baseline lab plan.setting plan.bad false plan.repetitions w in
                after_bad_baseline a1 result w1)
        ]

    unfoldable pub analyze_plan : Analysis → W → Ending × W
    analyze_plan a w = elim (lab.cancelled w) [
      | some e ↦ finish_interrupted lab a e w
      | none ↦
          (let (result, w1) = verify_baseline lab plan.setting plan.good true plan.repetitions w in
            after_good_baseline a result w1)
    ]

-- A setting of zero or less means the default.
abbrev pub default : ℕ → ℕ → ℕ
default zero d = d
default (suc n) d = suc n

-- The command that both worlds run.
abbrev pub command_of : Request → Capture → List String
command_of request bad = elim request.command [ [] ↦ bad.command.arguments | x ∷ xs ↦ x ∷ xs ]

unfoldable pub compared :
    HashText → (List String → String) → Request → Capture → Capture → List Factor × List String
compared short_hash digest_strings request good bad =
    compare short_hash digest_strings good bad (default request.max_factors 512)

-- What the stages of `Analyze` share, from the request and the two captures.
unfoldable pub plan_of : HashText → (List String → String) → Request → Capture → Capture → Plan
unfolding factor_by_id
plan_of short_hash digest_strings request good bad = record {
  setting = record {
    good_id = good.id;
    command = command_of request bad;
    max_output = default request.max_output_bytes (8 * 1048576);
  };
  good = good;
  bad = bad;
  factors = factor_by_id (compared short_hash digest_strings request good bad).0 [];
  repetitions = default request.repetitions 3;
  max_experiments = default request.max_experiments 128;
}

-- The analysis as `Analyze` first builds it.
unfoldable pub start_of :
    HashText → (List String → String) → Request → Capture → Capture → String → Analysis
start_of short_hash digest_strings request good bad identifier =
    let (factors, boundaries) = compared short_hash digest_strings request good bad in
    record {
      id = identifier;
      good_capture_id = good.id;
      bad_capture_id = bad.id;
      factors = factors;
      causal_factors = [];
      experiments = [];
      status = unproven;
      forward_verified = false;
      reverse_verified = false;
      minimal_in_model = false;
      repetitions = default request.repetitions 3;
      experiment_budget = default request.max_experiments 128;
      evidence_boundaries = boundaries;
      limitations = [];
    }

module _ {W : Type 0} (lab : Lab W) where
  -- `Analyze` with both captures at hand.
  unfoldable pub analyze_captures :
      HashText → (List String → String) → Request → Capture → Capture → W → Ending × W
  analyze_captures short_hash digest_strings request good bad w =
      let (identifier, w1) = lab.new_id "ana" w in
      analyze_plan lab (plan_of short_hash digest_strings request good bad)
        (start_of short_hash digest_strings request good bad identifier) w1

  unfoldable pub analyze : HashText → (List String → String) → Request → W → Ending × W
  analyze short_hash digest_strings request w = elim request.good [
    | none ↦ (ended none (some "good and bad captures are required"), w)
    | some good ↦ elim request.bad [
      | none ↦ (ended none (some "good and bad captures are required"), w)
      | some bad ↦ analyze_captures short_hash digest_strings request good bad w
    ]
  ]
