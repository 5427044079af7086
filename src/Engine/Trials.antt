-- ===== src/Engine/Trials.antt =====
-- `verifyBaseline`, `runIntervention` and `verifyMinimality` of internal/experiment/engine.go.
use Prim.Native.String.{◌++◌ as append}
use worldbisect.Prelude.{
  ℕ, zero, suc, ◌+◌, String, Bool, true, false, Option, none, some, List, [], ◌∷◌, ◌++◌, leb, not,
  map, length,
}
use worldbisect.Prelude.Files.{Files, lookup, insert}
use worldbisect.Model.{Capture, Factor, environment, Experiment}
use worldbisect.Compare.{decimal, no_entry}
use worldbisect.Ddmin.{Verdict, verdict, failure}
use worldbisect.Engine.Lab.{Lab}
use worldbisect.Engine.World.{Setting, run_world}

-- `fmt.Errorf("repetition %d expected oracle=%t got %t", ...)`
abbrev pub bool_text : Bool → String
bool_text true = "true"
bool_text false = "false"

unfoldable pub unexpected : ℕ → Bool → Bool → String
unfolding decimal
unexpected index expected passed = append "repetition " (
    append (decimal (index + 1)) (
      append " expected oracle=" (append (bool_text expected) (append " got " (bool_text passed)))))

abbrev pub same_bool : Bool → Bool → Bool
same_bool true b = b
same_bool false b = not b

module _ {W : Type 0} (lab : Lab W) where
  -- The loop of `verifyBaseline`, by the repetitions left: the records and the error.
  unfoldable pub baseline_from :
      Setting → Capture → Bool → ℕ → ℕ → W → (List Experiment × Option String) × W
  unfolding unexpected
  baseline_from setting c expected zero index w = (([], none), w)
  baseline_from setting c expected (suc left) index w =
      let (r, w1) = run_world lab setting c c [] [] "baseline" w in
      elim r.error [
        | some e ↦ ((r.experiment ∷ [], some e), w1)
        | none ↦ elim (same_bool r.passed expected) [
          | false ↦ ((r.experiment ∷ [], some (unexpected index expected r.passed)), w1)
          | true ↦
              (let ((records, error), w2) = baseline_from setting c expected left (index + 1) w1 in
                ((r.experiment ∷ records, error), w2))
        ]
      ]

  unfoldable pub verify_baseline :
      Setting → Capture → Bool → ℕ → W → (List Experiment × Option String) × W
  verify_baseline setting c expected repetitions w =
      baseline_from setting c expected repetitions 0 w

-- The three results of `runIntervention`.
pub record Trial : Type 0 where
  pub records : List Experiment
  pub passes : Bool
  pub error : Option String

-- `factorByID`, and its zero value for a missing key.
unfoldable pub factor_by_id : List Factor → Files Factor → Files Factor
unfolding insert
factor_by_id [] m = m
factor_by_id (f ∷ fs) m = factor_by_id fs (insert f.id f m)

abbrev pub no_factor : Factor
no_factor = record {
  id = "";
  type = environment;
  key = "";
  good_present = false;
  bad_present = false;
  good_value = "";
  bad_value = "";
  good_entry = no_entry;
  bad_entry = no_entry;
  intervenable = false;
}

abbrev pub factor_or_zero : Option Factor → Factor
factor_or_zero none = no_factor
factor_or_zero (some f) = f

-- What the stages of one analysis share.
pub record Plan : Type 0 where
  pub setting : Setting
  pub good : Capture
  pub bad : Capture
  pub factors : Files Factor
  pub repetitions : ℕ
  pub max_experiments : ℕ

module _ {W : Type 0} (lab : Lab W) (plan : Plan) where
  -- The loop of `runIntervention`, by the repetitions left.
  unfoldable pub trial_from :
      Capture → Capture → List Factor → List String → Bool → ℕ → W → Trial × W
  trial_from base source selected ids expected zero w =
      (record { records = []; passes = true; error = none }, w)
  trial_from base source selected ids expected (suc left) w =
      let (r, w1) = run_world lab plan.setting base source selected ids "intervention" w in
      elim r.error [
        | some e ↦ (record { records = r.experiment ∷ []; passes = false; error = some e }, w1)
        | none ↦ elim (same_bool r.passed expected) [
          | false ↦ (record { records = r.experiment ∷ []; passes = false; error = none }, w1)
          | true ↦
              (let (rest, w2) = trial_from base source selected ids expected left w1 in
                (record rest { records = r.experiment ∷ rest.records }, w2))
        ]
      ]

  unfoldable pub run_intervention : Capture → Capture → List String → Bool → W → Trial × W
  unfolding lookup
  run_intervention base source ids expected w =
      trial_from base source (map (λ i. factor_or_zero (lookup i plan.factors)) ids) ids expected
        plan.repetitions w

  -- Bad world with the good side's factors: does it pass?
  unfoldable pub forward : List String → W → Trial × W
  forward ids w = run_intervention plan.bad plan.good ids true w

  -- Good world with the bad side's factors: does it fail?
  unfoldable pub backward : List String → W → Trial × W
  backward ids w = run_intervention plan.good plan.bad ids false w

  -- The closure that `Analyze` gives to `DDMin`; `analysis.Experiments` is part of its state.
  unfoldable pub repair_test :
      List String → W × List Experiment → Verdict String × (W × List Experiment)
  repair_test ids (w, experiments) =
      let (t, w1) = forward ids w in
      (
        elim t.error [ some e ↦ failure e | none ↦ verdict t.passes ],
        (w1, experiments ++ t.records),
      )

  -- The loop of `verifyMinimality`; `before` and `after` are the parts of `minimized` around the
  -- index, and `records` what has been recorded so far.
  unfoldable pub minimality_from :
      List String → List String → List Experiment → W → (Bool × List Experiment × Option String) × W
  minimality_from before [] records w = ((true, records, none), w)
  minimality_from before (x ∷ after) records w =
      elim (leb plan.max_experiments (length records + length plan.good.command.arguments)) [
        | true ↦ ((false, records, some "experiment budget exhausted"), w)
        | false ↦ elim (before ++ after) [
          | [] ↦ minimality_from (before ++ x ∷ []) after records w
          | y ∷ ys ↦
              (let (t, w1) = forward (y ∷ ys) w in
                elim t.error [
                  | some e ↦ ((false, records ++ t.records, some e), w1)
                  | none ↦ elim t.passes [
                    | true ↦ ((false, records ++ t.records, none), w1)
                    | false ↦ minimality_from (before ++ x ∷ []) after (records ++ t.records) w1
                  ]
                ])
        ]
      ]
