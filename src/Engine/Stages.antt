-- ===== src/Engine/Stages.antt =====
-- The end of `Analyze` of internal/experiment/engine.go, from the minimisation on, and `finish`.
use Prim.Native.String.{◌++◌ as append}
use worldbisect.Prelude.{
  ◌+◌, String, Bool, true, false, Option, none, some, List, [], ◌∷◌, ◌++◌, ltb, map, length,
}
use worldbisect.Prelude.Files.{sort_names}
use worldbisect.Model.{Factor, Factor, Experiment, Analysis, proven, supported}
use worldbisect.Compare.{sort_factors}
use worldbisect.Ddmin.{
  DdError, budget_exhausted, test_failed, Outcome, returned, panicked, out_of_fuel,
}
use worldbisect.Engine.Lab.{Lab}
use worldbisect.Engine.Trials.{Trial, Plan, backward, minimality_from}

-- How `Analyze` ends: with its two results, or by a crash of `DDMin`.
pub data Ending : Type 0 where
  ended : Option Analysis → Option String → Ending
  crashed : Ending

abbrev pub add_records : Analysis → List Experiment → Analysis
add_records a records = record a { experiments = a.experiments ++ records }

abbrev pub add_limitation : Analysis → String → Analysis
add_limitation a text = record a { limitations = a.limitations ++ text ∷ [] }

-- `Analysis.Normalize`
unfoldable pub normalize : Analysis → Analysis
unfolding sort_factors sort_names
normalize a = record a {
  factors = sort_factors a.factors;
  causal_factors = sort_names a.causal_factors;
  evidence_boundaries = sort_names a.evidence_boundaries;
  limitations = sort_names a.limitations;
}

abbrev pub as_supported : Analysis → List String → Analysis
as_supported a ids = record a { status = supported; causal_factors = ids }

abbrev pub as_proven : Analysis → List String → Analysis
as_proven a ids = record a {
  status = proven;
  causal_factors = ids;
  forward_verified = true;
  reverse_verified = true;
  minimal_in_model = true;
}

-- `minimizeErr.Error()`
abbrev pub ddmin_text : DdError String → String
ddmin_text budget_exhausted = "experiment budget exhausted"
ddmin_text (test_failed e) = e

abbrev pub ids_of : List Factor → List String
ids_of = map (λ (f : Factor). f.id)

module _ {W : Type 0} (lab : Lab W) where
  unfoldable pub finish : Analysis → Option String → W → Ending × W
  unfolding normalize
  finish analysis error w =
      let a = normalize analysis in
      let (unsaved, w1) = lab.save_analysis a w in
      elim unsaved [
        | some e ↦ (ended none (some e), w1)
        | none ↦
            (let (unaudited, w2) = lab.append_audit a w1 in
              elim unaudited [
                | some e ↦ (ended none (some e), w2)
                | none ↦ (ended (some a) error, w2)
              ])
      ]

  unfoldable pub finish_interrupted : Analysis → String → W → Ending × W
  finish_interrupted a e w =
      finish
        (add_limitation a
          "analysis cancelled; completed experiments were retained and can be reused by the experiment cache")
        (some e) w

  -- What follows an error: interrupted, or `fallback` finished.
  unfoldable pub stop_on : Analysis → Analysis → W → Ending × W
  stop_on a fallback w = elim (lab.cancelled w) [
    | some e ↦ finish_interrupted a e w
    | none ↦ finish fallback none w
  ]

  module _ (plan : Plan) where
    -- After `verifyMinimality`.
    unfoldable pub conclude :
        Analysis → List String → Bool × List Experiment × Option String → W → Ending × W
    conclude a ids (minimal, records, some e) w =
        let a1 = add_records a records in
        stop_on a1
          (as_supported (add_limitation a1 (append "minimality verification incomplete: " e)) ids) w
    conclude a ids (false, records, none) w =
        finish
          (add_limitation (as_supported (add_records a records) ids)
            "strict subset also caused the intervention outcome")
          none w
    conclude a ids (true, records, none) w = finish (as_proven (add_records a records) ids) none w

    -- From the reverse intervention on.
    unfoldable pub after_backward : Analysis → List String → Trial → W → Ending × W
    after_backward a ids t w =
        let a1 = add_records a t.records in
        elim t.error [
          | some e ↦ stop_on a1 (add_limitation a1 (append "reverse verification failed: " e)) w
          | none ↦ elim t.passes [
            | false ↦
                finish
                  (add_limitation (as_supported a1 ids)
                    "bad-to-good intervention repaired the failure but reverse intervention did not reproduce it")
                  none w
            | true ↦
                (let (result, w1) = minimality_from lab plan [] ids [] w in
                  conclude a1 ids result w1)
          ]
        ]

    unfoldable pub after_minimize : Analysis → List String → W → Ending × W
    after_minimize a [] w = finish (add_limitation a "no factor set repaired the bad world") none w
    after_minimize a (x ∷ ids) w =
        elim (ltb plan.max_experiments (length a.experiments + plan.repetitions)) [
          | true ↦
              finish (add_limitation a "experiment budget does not permit reverse verification")
                none w
          | false ↦ (let (t, w1) = backward lab plan (x ∷ ids) w in after_backward a (x ∷ ids) t w1)
        ]

    unfoldable pub after_ddmin : Analysis → Outcome (W × List Experiment) String → W → Ending × W
    after_ddmin a panicked w = (crashed, w)
    after_ddmin a out_of_fuel w = (crashed, w)
    after_ddmin a (returned m) w =
        let a1 = record a { experiments = m.state.1 } in
        elim m.error [
          | some e ↦ stop_on a1 (add_limitation a1 (ddmin_text e)) m.state.0
          | none ↦ after_minimize a1 m.current m.state.0
        ]
