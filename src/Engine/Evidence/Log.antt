-- ===== src/Engine/Evidence/Log.antt =====
-- The log of an analysis, `analysis.Experiments` (internal/experiment/engine.go), and the trials whose
-- records it holds.
use mathlib.Core.List.{append_assoc, append-nil}
use worldbisect.Prelude.{
  String, ◌≡◌, refl, inl, inr, Bool, true, false, none, List, [], ◌++◌, Option-cases,
}
use worldbisect.Model.{Capture, Experiment}
use worldbisect.Ddmin.{Verdict, verdict}
use worldbisect.Ddmin.Calls.{Calls, done, call, Called}
use worldbisect.Engine.Lab.{Lab}
use worldbisect.Engine.Trials.{
  baseline_from, Plan, run_intervention, forward, backward, repair_test,
}
use worldbisect.Engine.Evidence.Runs.{
  Any, IsRunOf, IsConfirmed, trial_from-IsConfirmed, trial_from-refuted, baseline_from-IsConfirmed,
}

-- The log holds these records, one after the other.
pub record IsPart (records log : List Experiment) : Type 0 where
  pub before : List Experiment
  pub after : List Experiment
  pub is : log ≡ before ++ (records ++ after)

-- The log has only been appended to.
pub record Grows (log later : List Experiment) : Type 0 where
  pub more : List Experiment
  pub is : later ≡ log ++ more

pub Grows-refl : (log : List Experiment) → Grows log log
Grows-refl log = record { more = []; is = simp append-nil }

pub Grows-trans : {a b c : List Experiment} → Grows a b → Grows b c → Grows a c
Grows-trans g h = record { more = g.more ++ h.more; is = simp (h.is, g.is, append_assoc) }

pub appended : (log records : List Experiment) → Grows log (log ++ records)
appended log records = record { more = records; is = refl }

pub IsPart-end : (log records : List Experiment) → IsPart records (log ++ records)
IsPart-end log records = record { before = log; after = []; is = simp append-nil }

pub IsPart-Grows :
    {records log later : List Experiment}
    → IsPart records log
    → Grows log later
    → IsPart records later
IsPart-Grows p g = record {
  before = p.before;
  after = p.after ++ g.more;
  is = simp (g.is, p.is, append_assoc);
}

module _ {W : Type 0} (lab : Lab W) (plan : Plan) where
  -- The log holds a run of baselines of this capture, in which every repetition gave the expected
  -- outcome.
  abbrev pub IsStable : Capture → Bool → List Experiment → Type 0
  IsStable c expected log =
      (w : W) × IsPart (baseline_from lab plan.setting c expected plan.repetitions 0 w).0.0 log
      × IsConfirmed c c [] expected plan.repetitions
          (baseline_from lab plan.setting c expected plan.repetitions 0 w).0.0

  -- The log holds a trial of these factors on the bad world, in which every repetition passed.
  abbrev pub Repairs : List Experiment → List String → Type 0
  Repairs log ids =
      (w : W) × IsPart (forward lab plan ids w).0.records log
      × IsConfirmed plan.bad plan.good ids true plan.repetitions (forward lab plan ids w).0.records

  -- It holds such a trial that ran without an error, and has a record of a run that failed.
  abbrev pub DoesNotRepair : List Experiment → List String → Type 0
  DoesNotRepair log ids =
      (w : W) × IsPart (forward lab plan ids w).0.records log
      × ((forward lab plan ids w).0.error ≡ none)
      × Any (IsRunOf plan.bad plan.good ids false) (forward lab plan ids w).0.records

  -- It holds a trial of the bad side's factors on the good world, in which every repetition failed.
  abbrev pub Reproduces : List Experiment → List String → Type 0
  Reproduces log ids =
      (w : W) × IsPart (backward lab plan ids w).0.records log
      × IsConfirmed plan.good plan.bad ids false plan.repetitions
          (backward lab plan ids w).0.records

  pub IsStable-Grows :
      {log later : List Experiment} (c : Capture) (expected : Bool)
      → Grows log later
      → IsStable c expected log
      → IsStable c expected later
  IsStable-Grows c expected g (w, part, ok) = (w, IsPart-Grows part g, ok)

  pub Repairs-Grows :
      {log later : List Experiment} (ids : List String)
      → Grows log later
      → Repairs log ids
      → Repairs later ids
  Repairs-Grows ids g (w, part, ok) = (w, IsPart-Grows part g, ok)

  pub DoesNotRepair-Grows :
      {log later : List Experiment} (ids : List String)
      → Grows log later
      → DoesNotRepair log ids
      → DoesNotRepair later ids
  DoesNotRepair-Grows ids g (w, part, clean, ok) = (w, IsPart-Grows part g, clean, ok)

  pub Reproduces-Grows :
      {log later : List Experiment} (ids : List String)
      → Grows log later
      → Reproduces log ids
      → Reproduces later ids
  Reproduces-Grows ids g (w, part, ok) = (w, IsPart-Grows part g, ok)

  pub baseline-IsStable :
      (c : Capture) (expected : Bool) (log : List Experiment) (w : W)
      → (baseline_from lab plan.setting c expected plan.repetitions 0 w).0.1 ≡ none
      → IsStable c expected
          (log ++ (baseline_from lab plan.setting c expected plan.repetitions 0 w).0.0)
  baseline-IsStable c expected log w h = (
    w,
    IsPart-end log _,
    baseline_from-IsConfirmed lab plan.setting c expected plan.repetitions 0 w h,
  )

  pub forward-Repairs :
      (ids : List String) (log : List Experiment) (w : W)
      → (forward lab plan ids w).0.passes ≡ true
      → Repairs (log ++ (forward lab plan ids w).0.records) ids
  unfolding forward run_intervention
  forward-Repairs ids log w h = (
    w,
    IsPart-end log _,
    trial_from-IsConfirmed lab plan.bad plan.good ids true plan _ plan.repetitions w h,
  )

  pub forward-DoesNotRepair :
      (ids : List String) (log : List Experiment) (w : W)
      → (forward lab plan ids w).0.error ≡ none
      → (forward lab plan ids w).0.passes ≡ false
      → DoesNotRepair (log ++ (forward lab plan ids w).0.records) ids
  unfolding forward run_intervention
  forward-DoesNotRepair ids log w clean h = (
    w,
    IsPart-end log _,
    clean,
    trial_from-refuted lab plan.bad plan.good ids true plan _ plan.repetitions w clean h,
  )

  pub backward-Reproduces :
      (ids : List String) (log : List Experiment) (w : W)
      → (backward lab plan ids w).0.passes ≡ true
      → Reproduces (log ++ (backward lab plan ids w).0.records) ids
  unfolding backward run_intervention
  backward-Reproduces ids log w h = (
    w,
    IsPart-end log _,
    trial_from-IsConfirmed lab plan.good plan.bad ids false plan _ plan.repetitions w h,
  )

  -- The closure that is given to `DDMin` only appends to the log.
  repair_test-Grows :
      (c : List String) (s : W × List Experiment) → Grows s.1 (repair_test lab plan c s).1.1
  unfolding repair_test
  repair_test-Grows c (w, log) = appended log _

  pub Calls-Grows : {t s : W × List Experiment} → Calls (repair_test lab plan) t s → Grows s.1 t.1
  Calls-Grows {t} {s} done = Grows-refl s.1
  Calls-Grows {t} {s} (call c p) = Grows-trans (repair_test-Grows c s) (Calls-Grows p)

  verdict-same : (p q : Bool) → ◌≡◌ {A = Verdict String} (verdict p) (verdict q) → p ≡ q
  verdict-same p q h = cc

  test-Repairs :
      (c : List String) (s : W × List Experiment)
      → (repair_test lab plan c s).0 ≡ verdict true
      → Repairs (repair_test lab plan c s).1.1 c
  unfolding repair_test
  test-Repairs c (w, log) =
      let (t, w1) = forward lab plan c w in
      elim (Option-cases t.error) [
        | inr (e, p) ↦ rw (p, repair_test) (λ h. cc)
        | inl p ↦ rw (p, repair_test) (λ h. forward-Repairs c log w (verdict-same t.passes true h))
      ]

  test-DoesNotRepair :
      (c : List String) (s : W × List Experiment)
      → (repair_test lab plan c s).0 ≡ verdict false
      → DoesNotRepair (repair_test lab plan c s).1.1 c
  unfolding repair_test
  test-DoesNotRepair c (w, log) =
      let (t, w1) = forward lab plan c w in
      elim (Option-cases t.error) [
        | inr (e, p) ↦ rw (p, repair_test) (λ h. cc)
        | inl p ↦
            rw (p, repair_test)
              (λ h. forward-DoesNotRepair c log w p (verdict-same t.passes false h))
      ]

  -- What a call of the closure has left in the log is there at the end.
  pub Called-Repairs :
      (c : List String) (s t : W × List Experiment)
      → Called (repair_test lab plan) s t c (verdict true)
      → Repairs t.1 c
  Called-Repairs c s t h = Repairs-Grows c (Calls-Grows h.since) (test-Repairs c h.at h.verdict_is)

  pub Called-DoesNotRepair :
      (c : List String) (s t : W × List Experiment)
      → Called (repair_test lab plan) s t c (verdict false)
      → DoesNotRepair t.1 c
  Called-DoesNotRepair c s t h =
      DoesNotRepair-Grows c (Calls-Grows h.since) (test-DoesNotRepair c h.at h.verdict_is)
