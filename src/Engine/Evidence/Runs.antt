-- ===== src/Engine/Evidence/Runs.antt =====
-- What a trial or a baseline that passes has run.
use worldbisect.Prelude.{
  ℕ, zero, ◌⊎◌, suc, ◌+◌, String, ◌≡◌, refl, sym, ap, subst, Bool, true, false, Option, none, some,
  List, [], ◌∷◌, not, str_eq, Bool-cases, Option-cases, inl, inr, length, All,
}
use worldbisect.Model.{Capture, Factor, Experiment, ProcessResult}
use worldbisect.Engine.Lab.{Lab, WorldRun}
use worldbisect.Engine.World.{Setting, apply_factors, judge_run, run_in, run_fresh, run_world}
use worldbisect.Engine.Trials.{same_bool, baseline_from, Plan, trial_from}

-- The record of a run on `base` with these factors of `source`, in which the oracle answered so.
pub record IsRunOf (base source : Capture) (ids : List String) (answer : Bool) (x : Experiment)
    : Type 0 where
  pub base_is : x.base_capture_id ≡ base.id
  pub source_is : x.source_capture_id ≡ source.id
  pub factors_are : x.factor_ids ≡ ids
  pub answered : x.oracle_result.passed ≡ answer

-- A run without an error passed as its record says.
abbrev Says : Capture → Capture → List String → WorldRun → Type 0
Says base source ids r = r.error ≡ none → IsRunOf base source ids r.passed r.experiment

module _ {W : Type 0} (lab : Lab W) where
  judge_run-Says :
      (base source : Capture) (ids : List String) (kind key root : String)
      (outcome : Option ProcessResult × Option String) (w : W)
      → Says base source ids (judge_run lab base source ids kind key root outcome w).0
  unfolding judge_run
  judge_run-Says base source ids kind key root (none, none) w =
      λ h. record { base_is = refl; source_is = refl; factors_are = refl; answered = refl }
  judge_run-Says base source ids kind key root (none, some e) w = λ h. cc
  judge_run-Says base source ids kind key root (some result, e) w =
      λ h. record { base_is = refl; source_is = refl; factors_are = refl; answered = refl }

  run_in-Says :
      (setting : Setting) (base source : Capture) (selected : List Factor) (ids : List String)
      (kind key root : String) (w : W)
      → Says base source ids (run_in lab setting base source selected ids kind key root w).0
  unfolding run_in
  run_in-Says setting base source selected ids kind key root w =
      let (failed, w1) = lab.materialize root base.workspace w in
      elim (Option-cases failed) [
        | inr (e, p) ↦ rw (p, run_in) (λ h. cc)
        | inl p ↦
            let ((unapplied, env), w2) =
              apply_factors lab (not (str_eq base.id setting.good_id)) root selected
                base.command.environment w1 in
            elim (Option-cases unapplied) [
              | inr (e, q) ↦ rw (p, q, run_in) (λ h. cc)
              | inl q ↦ rw (p, q, run_in) (judge_run-Says base source ids kind key root _ _)
            ]
      ]

  run_fresh-Says :
      (setting : Setting) (base source : Capture) (selected : List Factor) (ids : List String)
      (kind key : String) (w : W)
      → Says base source ids (run_fresh lab setting base source selected ids kind key w).0
  unfolding run_fresh
  run_fresh-Says setting base source selected ids kind key w =
      let ((failed, root), w1) = lab.make_temp w in
      elim (Option-cases failed) [
        | inr (e, p) ↦ rw (p, run_fresh) (λ h. cc)
        | inl p ↦ rw (p, run_fresh) (run_in-Says setting base source selected ids kind key root w1)
      ]

  run_world-Says :
      (setting : Setting) (base source : Capture) (selected : List Factor) (ids : List String)
      (kind : String) (w : W)
      → Says base source ids (run_world lab setting base source selected ids kind w).0
  unfolding run_world
  run_world-Says setting base source selected ids kind w =
      let key = lab.cache_key base source setting.good_id setting.command selected kind in
      let (cached, w1) = lab.load_cache key w in
      elim (Option-cases cached) [
        | inl p ↦ rw (p, run_world) (run_fresh-Says setting base source selected ids kind key w1)
        | inr (e, p) ↦
            rw (p, run_world)
              (λ h. record {
                base_is = refl;
                source_is = refl;
                factors_are = refl;
                answered = refl;
              })
      ]

-- As many records as repetitions, each of such a run with the expected answer.
pub record IsConfirmed (base source : Capture) (ids : List String) (expected : Bool)
    (repetitions : ℕ) (records : List Experiment) : Type 0 where
  pub all_run : length records ≡ repetitions
  pub all_agree : All (IsRunOf base source ids expected) records

-- Some record of the list is one.
abbrev pub Any : (Experiment → Type 0) → List Experiment → Type 0
Any P [] = ⊥
Any P (x ∷ xs) = P x ⊎ Any P xs

same_bool-eq : (p q : Bool) → same_bool p q ≡ true → p ≡ q
same_bool-eq true q h = sym h
same_bool-eq false false h = refl
same_bool-eq false true h = cc

same_bool-not : (p q : Bool) → same_bool p q ≡ false → p ≡ not q
same_bool-not true true h = cc
same_bool-not true false h = refl
same_bool-not false true h = refl
same_bool-not false false h = cc

no_records :
    (base source : Capture) (ids : List String) (expected : Bool)
    → IsConfirmed base source ids expected 0 []
no_records base source ids expected = record { all_run = refl; all_agree = tt }

module _ {W : Type 0} (lab : Lab W) (base source : Capture) (ids : List String)
    (expected : Bool) where
  IsConfirmed-cons :
      (r : WorldRun) (n : ℕ) (xs : List Experiment)
      → Says base source ids r
      → r.error ≡ none
      → same_bool r.passed expected ≡ true
      → IsConfirmed base source ids expected n xs
      → IsConfirmed base source ids expected (suc n) (r.experiment ∷ xs)
  IsConfirmed-cons r n xs says clean same c = record {
    all_run = ap suc c.all_run;
    all_agree = (
      subst (λ b. IsRunOf base source ids b r.experiment) (same_bool-eq r.passed expected same)
          (says clean),
      c.all_agree,
    );
  }

  module _ (plan : Plan) (selected : List Factor) where
    -- A trial that passes was confirmed in every repetition.
    pub trial_from-IsConfirmed :
        (left : ℕ) (w : W)
        → (trial_from lab plan base source selected ids expected left w).0.passes ≡ true
        → IsConfirmed base source ids expected left
            (trial_from lab plan base source selected ids expected left w).0.records
    unfolding trial_from
    trial_from-IsConfirmed zero w = λ h. no_records base source ids expected
    trial_from-IsConfirmed (suc left) w =
        let (r, w1) = run_world lab plan.setting base source selected ids "intervention" w in
        let says : Says base source ids r =
          run_world-Says lab plan.setting base source selected ids "intervention" w in
        elim (Option-cases r.error) [
          | inr (e, p) ↦ rw (p, trial_from) (λ h. cc)
          | inl p ↦ elim (Bool-cases (same_bool r.passed expected)) [
            | inr q ↦ rw (p, q, trial_from) (λ h. cc)
            | inl q ↦
                rw (p, q, trial_from)
                  (λ h. IsConfirmed-cons r left _ says p q (trial_from-IsConfirmed left w1 h))
          ]
        ]

    -- A trial that does not pass, with no error, has a record of the other answer.
    pub trial_from-refuted :
        (left : ℕ) (w : W)
        → (trial_from lab plan base source selected ids expected left w).0.error ≡ none
        → (trial_from lab plan base source selected ids expected left w).0.passes ≡ false
        → Any
            (IsRunOf base source ids (not expected))
            (trial_from lab plan base source selected ids expected left w).0.records
    unfolding trial_from
    trial_from-refuted zero w = λ clean h. cc
    trial_from-refuted (suc left) w =
        let (r, w1) = run_world lab plan.setting base source selected ids "intervention" w in
        let says : Says base source ids r =
          run_world-Says lab plan.setting base source selected ids "intervention" w in
        elim (Option-cases r.error) [
          | inr (e, p) ↦ rw (p, trial_from) (λ clean h. cc)
          | inl p ↦ elim (Bool-cases (same_bool r.passed expected)) [
            | inr q ↦
                rw (p, q, trial_from)
                  (λ clean h. inl (
                    subst (λ b. IsRunOf base source ids b r.experiment)
                      (same_bool-not r.passed expected q) (says p)))
            | inl q ↦ rw (p, q, trial_from) (λ clean h. inr (trial_from-refuted left w1 clean h))
          ]
        ]

-- A baseline without an error was confirmed in every repetition.
pub baseline_from-IsConfirmed :
    {W : Type 0} (lab : Lab W) (setting : Setting) (c : Capture) (expected : Bool) (left index : ℕ)
    (w : W)
    → (baseline_from lab setting c expected left index w).0.1 ≡ none
    → IsConfirmed c c [] expected left (baseline_from lab setting c expected left index w).0.0
unfolding baseline_from
baseline_from-IsConfirmed lab setting c expected zero index w = λ h. no_records c c [] expected
baseline_from-IsConfirmed lab setting c expected (suc left) index w =
    let (r, w1) = run_world lab setting c c [] [] "baseline" w in
    let says : Says c c [] r = run_world-Says lab setting c c [] [] "baseline" w in
    elim (Option-cases r.error) [
      | inr (e, p) ↦ rw (p, baseline_from) (λ h. cc)
      | inl p ↦ elim (Bool-cases (same_bool r.passed expected)) [
        | inr q ↦ rw (p, q, baseline_from) (λ h. cc)
        | inl q ↦
            rw (p, q, baseline_from)
              (λ h.
                IsConfirmed-cons lab c c [] expected r left _ says p q
                  (baseline_from-IsConfirmed lab setting c expected left (index + 1) w1 h))
      ]
    ]
