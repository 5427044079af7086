-- ===== src/Engine/Evidence/Proven.antt =====
-- A result of `Analyze` with the status PROVEN has the evidence that the status stands for.
use worldbisect.Prelude.{
  ◌-◌, String, ◌≡◌, ◌≢◌, refl, subst, inl, inr, true, false, Option, none, some, List, ◌∷◌,
  Bool-cases, Option-cases, List-cases, leb, length, ◌++◌,
}
use worldbisect.Model.{Capture, Experiment, Analysis, proven}
use worldbisect.Compare.{HashText}
use worldbisect.Ddmin.Result.{ddmin-IsReduction}
use worldbisect.Engine.Lab.{Lab, Request}
use worldbisect.Engine.Trials.{verify_baseline, baseline_from, Plan, repair_test}
use worldbisect.Engine.Stages.{ended, add_records, finish_interrupted, ids_of}
use worldbisect.Engine.Analyze.{
  minimize, after_bad_baseline, after_good_baseline, analyze_plan, analyze_captures, plan_of,
  start_of, compared,
}
use worldbisect.Engine.Evidence.Log.{appended, IsStable, IsStable-Grows, baseline-IsStable}
use worldbisect.Engine.Evidence.Proof.{
  Baselines, Sound, IsBacked, quiet, stop_on-Sound, after_ddmin-Sound,
}

module _ {W : Type 0} (lab : Lab W) where
  module _ (plan : Plan) where
    minimize-Sound :
        (a : Analysis) (w : W)
        → a.status ≢ proven
        → Baselines lab plan a.experiments
        → Sound (IsBacked lab plan (ids_of a.factors)) (minimize lab plan a w).0
    unfolding minimize
    minimize-Sound a w h base = elim (List-cases a.factors) [
      | inl p ↦ simp (p, minimize) (quiet lab _ _ none w h)
      | inr (f, fs, p) ↦ elim (Bool-cases (leb plan.max_experiments (length a.experiments))) [
        | inl q ↦ simp (p, q, minimize) (quiet lab _ _ none w h)
        | inr q ↦
            simp (p, q, minimize)
              (after_ddmin-Sound lab plan (ids_of (f ∷ fs)) a
                (plan.max_experiments - length a.experiments) _ w h base
                (ddmin-IsReduction (repair_test lab plan) (ids_of (f ∷ fs))
                  (plan.max_experiments - length a.experiments) (w, a.experiments)))
      ]
    ]

    after_bad_baseline-Sound :
        (a : Analysis) (result : List Experiment × Option String) (w : W)
        → a.status ≢ proven
        → IsStable lab plan plan.good true a.experiments
        → (result.1 ≡ none → IsStable lab plan plan.bad false (a.experiments ++ result.0))
        → Sound (IsBacked lab plan (ids_of a.factors)) (after_bad_baseline lab plan a result w).0
    unfolding after_bad_baseline
    after_bad_baseline-Sound a (records, some e) w h good bad = stop_on-Sound lab _ _ _ w h h
    after_bad_baseline-Sound a (records, none) w h good bad =
        minimize-Sound (add_records a records) w h (record {
          good_stable =
              IsStable-Grows lab plan plan.good true (appended a.experiments records) good;
          bad_stable = bad refl;
        })

    after_good_baseline-Sound :
        (a : Analysis) (result : List Experiment × Option String) (w : W)
        → a.status ≢ proven
        → (result.1 ≡ none → IsStable lab plan plan.good true (a.experiments ++ result.0))
        → Sound (IsBacked lab plan (ids_of a.factors)) (after_good_baseline lab plan a result w).0
    unfolding after_good_baseline verify_baseline
    after_good_baseline-Sound a (records, some e) w h good = stop_on-Sound lab _ _ _ w h h
    after_good_baseline-Sound a (records, none) w h good =
        let (result, w1) = baseline_from lab plan.setting plan.bad false plan.repetitions 0 w in
        after_bad_baseline-Sound (add_records a records) result w1 h (good refl)
          (baseline-IsStable lab plan plan.bad false (a.experiments ++ records) w)

    analyze_plan-Sound :
        (a : Analysis) (w : W)
        → a.status ≢ proven
        → Sound (IsBacked lab plan (ids_of a.factors)) (analyze_plan lab plan a w).0
    unfolding analyze_plan verify_baseline finish_interrupted
    analyze_plan-Sound a w h = elim (Option-cases (lab.cancelled w)) [
      | inr (e, p) ↦ rw (p, analyze_plan) (quiet lab _ _ _ w h)
      | inl p ↦
          let (result, w1) = baseline_from lab plan.setting plan.good true plan.repetitions 0 w in
          rw (p, analyze_plan)
            (after_good_baseline-Sound a result w1 h
              (baseline-IsStable lab plan plan.good true a.experiments w))
    ]

  analyze_captures-Sound :
      (short_hash : HashText) (digest_strings : List String → String) (request : Request)
      (good bad : Capture) (w : W)
      → Sound
          (IsBacked lab
            (plan_of short_hash digest_strings request good bad)
            (ids_of (compared short_hash digest_strings request good bad).0))
          (analyze_captures lab short_hash digest_strings request good bad w).0
  unfolding analyze_captures start_of
  analyze_captures-Sound short_hash digest_strings request good bad w =
      let (identifier, w1) = lab.new_id "ana" w in
      analyze_plan-Sound (plan_of short_hash digest_strings request good bad)
        (start_of short_hash digest_strings request good bad identifier) w1 (λ h. cc)

-- For any behaviour of the lab, that is of the disk, the processes, the oracle, the cache and
-- cancellation: when `Analyze` of two captures returns a result whose status is PROVEN, the result's
-- own experiments hold, as consecutive records, the baselines of the good capture, all of which
-- passed, and of the bad one, all of which failed; and its causal factors are the sorted ids of a
-- subsequence of the compared factors such that it is all of them or a trial on the bad world with
-- exactly these factors of the good one, in which every repetition passed, is among the
-- experiments; so is a trial of it on the good world in which every repetition failed; and so is,
-- for every nonempty set that it leaves with one factor dropped, a trial on the bad world that ran
-- without an error and has a run of exactly that set which failed.
pub analyze_captures-proven :
    {W : Type 0} (lab : Lab W) (short_hash : HashText) (digest_strings : List String → String)
    (request : Request) (good bad : Capture) (w : W) (r : Analysis) (e : Option String)
    → (analyze_captures lab short_hash digest_strings request good bad w).0 ≡ ended (some r) e
    → r.status ≡ proven
    → IsBacked lab
        (plan_of short_hash digest_strings request good bad)
        (ids_of (compared short_hash digest_strings request good bad).0)
        r
analyze_captures-proven lab short_hash digest_strings request good bad w r e runs claims =
    subst
      (Sound (
        IsBacked lab (plan_of short_hash digest_strings request good bad)
          (ids_of (compared short_hash digest_strings request good bad).0)))
      runs (analyze_captures-Sound lab short_hash digest_strings request good bad w) claims
