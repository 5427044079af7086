-- ===== src/Engine/Evidence/Proof.antt =====
-- What a result of `Analyze` with the status PROVEN rests on.
use worldbisect.Prelude.{
  ℕ, ◌+◌, String, ◌≡◌, ◌≢◌, refl, ◌⊎◌, inl, inr, Bool, true, false, Option, none, some, List, [],
  ◌∷◌, ◌++◌, Bool-cases, Option-cases, ltb, length, IsSubsequence,
}
use worldbisect.Prelude.Files.{sort_names}
use worldbisect.Model.{Experiment, Analysis, proven}
use worldbisect.Ddmin.Calls.{Called}
use worldbisect.Ddmin.{Minimized, verdict, Outcome, returned, panicked, out_of_fuel}
use worldbisect.Ddmin.Result.{IsReduction, Returns}
use worldbisect.Engine.Lab.{Lab}
use worldbisect.Engine.Trials.{Plan, Trial, backward, minimality_from, repair_test}
use worldbisect.Engine.Stages.{
  Ending, ended, crashed, add_records, normalize, finish, finish_interrupted, stop_on, conclude,
  after_backward, after_minimize, after_ddmin, as_proven,
}
use worldbisect.Engine.Evidence.Log.{
  Grows, Grows-refl, Grows-trans, appended, IsStable, IsStable-Grows, Repairs, Repairs-Grows,
  Reproduces, Reproduces-Grows, backward-Reproduces, Calls-Grows, Called-Repairs,
}
use worldbisect.Engine.Evidence.Drops.{NoneDroppable, minimality_from-NoneDroppable}

-- A result that claims a proof has the property.
abbrev pub Sound : (Analysis → Type 0) → Ending → Type 0
Sound Q crashed = Unit
Sound Q (ended none e) = Unit
Sound Q (ended (some r) e) = r.status ≡ proven → Q r

normal : (b : Analysis) → (normalize b).causal_factors ≡ sort_names b.causal_factors
unfolding normalize
normal b = refl

module _ {W : Type 0} (lab : Lab W) where
  -- The factor set was minimised out of the items, and the log holds what was tried on it.
  pub record IsCause (plan : Plan) (items : List String) (log : List Experiment) (ids : List String)
      : Type 0 where
    pub subsequence : IsSubsequence ids items
    pub repairs : (ids ≡ items) ⊎ Repairs lab plan log ids
    pub reproduces : Reproduces lab plan log ids
    pub none_droppable : NoneDroppable lab plan log [] ids

  -- The result names the cause that its own experiments support.
  pub record IsBacked (plan : Plan) (items : List String) (r : Analysis) : Type 0 where
    pub good_stable : IsStable lab plan plan.good true r.experiments
    pub bad_stable : IsStable lab plan plan.bad false r.experiments
    pub ids : List String
    pub cause : IsCause plan items r.experiments ids
    pub named : r.causal_factors ≡ sort_names ids

  -- What the log holds when the baselines are confirmed.
  pub record Baselines (plan : Plan) (log : List Experiment) : Type 0 where
    pub good_stable : IsStable lab plan plan.good true log
    pub bad_stable : IsStable lab plan plan.bad false log

  pub Baselines-Grows :
      (plan : Plan) {log later : List Experiment}
      → Baselines plan log
      → Grows log later
      → Baselines plan later
  Baselines-Grows plan b g = record {
    good_stable = IsStable-Grows lab plan plan.good true g b.good_stable;
    bad_stable = IsStable-Grows lab plan plan.bad false g b.bad_stable;
  }

  finish-Sound :
      (Q : Analysis → Type 0) (a : Analysis) (e : Option String) (w : W)
      → (a.status ≡ proven → Q (normalize a))
      → Sound Q (finish lab a e w).0
  unfolding finish normalize
  finish-Sound Q a e w h =
      let (unsaved, w1) = lab.save_analysis (normalize a) w in
      let (unaudited, w2) = lab.append_audit (normalize a) w1 in
      elim (Option-cases unsaved) [
        | inr (x, p) ↦ rw (p, Sound) tt
        | inl p ↦ elim (Option-cases unaudited) [
          | inr (x, q) ↦ rw (p, q, Sound) tt
          | inl q ↦ rw (p, q, Sound) h
        ]
      ]

  module _ (Q : Analysis → Type 0) where
    -- An analysis that claims nothing ends soundly.
    pub quiet :
        (a : Analysis) (e : Option String) (w : W)
        → a.status ≢ proven
        → Sound Q (finish lab a e w).0
    quiet a e w h = finish-Sound Q a e w (λ p. absurd (h p))

    pub stop_on-Sound :
        (a b : Analysis) (w : W)
        → a.status ≢ proven
        → b.status ≢ proven
        → Sound Q (stop_on lab a b w).0
    unfolding stop_on finish_interrupted
    stop_on-Sound a b w h k = elim (Option-cases (lab.cancelled w)) [
      | inl p ↦ rw (p, stop_on) (quiet b none w k)
      | inr (e, p) ↦ rw (p, stop_on) (quiet _ _ w h)
    ]

  module _ (plan : Plan) (items : List String) where
    abbrev Backed : Analysis → Type 0
    Backed = IsBacked plan items

    conclude-Sound :
        (a : Analysis) (ids : List String) (result : Bool × List Experiment × Option String) (w : W)
        → a.status ≢ proven
        → Baselines plan a.experiments
        → (result.0 ≡ true → IsCause plan items (a.experiments ++ result.1) ids)
        → Sound Backed (conclude lab plan a ids result w).0
    unfolding conclude normalize
    conclude-Sound a ids (minimal, records, some e) w h base cause =
        stop_on-Sound Backed _ _ w h (λ p. cc)
    conclude-Sound a ids (false, records, none) w h base cause = quiet Backed _ none w (λ p. cc)
    conclude-Sound a ids (true, records, none) w h base cause =
        let later = Baselines-Grows plan base (appended a.experiments records) in
        finish-Sound Backed (as_proven (add_records a records) ids) none w (λ _. record {
          good_stable = later.good_stable;
          bad_stable = later.bad_stable;
          ids = ids;
          cause = cause refl;
          named = normal (as_proven (add_records a records) ids);
        })

    still_repaired :
        {log later : List Experiment} (ids : List String)
        → Grows log later
        → (ids ≡ items) ⊎ Repairs lab plan log ids
        → (ids ≡ items) ⊎ Repairs lab plan later ids
    still_repaired ids g (inl e) = inl e
    still_repaired ids g (inr r) = inr (Repairs-Grows lab plan ids g r)

    after_backward-Sound :
        (a : Analysis) (ids : List String) (t : Trial) (w : W)
        → a.status ≢ proven
        → IsSubsequence ids items
        → Baselines plan a.experiments
        → (ids ≡ items) ⊎ Repairs lab plan a.experiments ids
        → (t.passes ≡ true → Reproduces lab plan (a.experiments ++ t.records) ids)
        → Sound Backed (after_backward lab plan a ids t w).0
    unfolding after_backward
    after_backward-Sound a ids t w h sub base repaired back = elim (Option-cases t.error) [
      | inr (e, p) ↦ rw (p) (stop_on-Sound Backed _ _ w h h)
      | inl p ↦ elim (Bool-cases t.passes) [
        | inr q ↦ rw (p, q) (quiet Backed _ none w (λ k. cc))
        | inl q ↦
            let (result, w1) = minimality_from lab plan [] ids [] w in
            rw (p, q)
              (conclude-Sound (add_records a t.records) ids result w1 h
                (Baselines-Grows plan base (appended a.experiments t.records))
                (λ m. record {
                  subsequence = sub;
                  repairs =
                      still_repaired ids
                        (Grows-trans (appended a.experiments t.records) (appended _ result.1))
                        repaired;
                  reproduces = Reproduces-Grows lab plan ids (appended _ result.1) (back q);
                  none_droppable =
                      minimality_from-NoneDroppable lab plan (a.experiments ++ t.records) _ [] ids
                        [] w (Grows-refl _) m;
                }))
      ]
    ]

    after_minimize-Sound :
        (a : Analysis) (ids : List String) (w : W)
        → a.status ≢ proven
        → IsSubsequence ids items
        → Baselines plan a.experiments
        → (ids ≡ items) ⊎ Repairs lab plan a.experiments ids
        → Sound Backed (after_minimize lab plan a ids w).0
    unfolding after_minimize
    after_minimize-Sound a [] w h sub base repaired = quiet Backed _ none w h
    after_minimize-Sound a (x ∷ ids) w h sub base repaired =
        elim (Bool-cases (ltb plan.max_experiments (length a.experiments + plan.repetitions))) [
          | inl p ↦ rw (p, after_minimize) (quiet Backed _ none w h)
          | inr p ↦
              let (t, w1) = backward lab plan (x ∷ ids) w in
              rw (p, after_minimize)
                (after_backward-Sound a (x ∷ ids) t w1 h sub base repaired
                  (backward-Reproduces lab plan (x ∷ ids) a.experiments w))
        ]

    pub after_ddmin-Sound :
        (a : Analysis) (budget : ℕ) (o : Outcome (W × List Experiment) String) (w : W)
        → a.status ≢ proven
        → Baselines plan a.experiments
        → Returns (IsReduction (repair_test lab plan) (w, a.experiments) items budget) o
        → Sound Backed (after_ddmin lab plan a o w).0
    unfolding after_ddmin
    after_ddmin-Sound a budget panicked w h base r = tt
    after_ddmin-Sound a budget out_of_fuel w h base r = tt
    after_ddmin-Sound a budget (returned m) w h base r = elim (Option-cases m.error) [
      | inr (e, p) ↦ rw (p) (stop_on-Sound Backed _ _ m.state.0 h h)
      | inl p ↦ rw (p) (
          after_minimize-Sound _ m.current m.state.0 h r.subsequence
            (Baselines-Grows plan base (Calls-Grows lab plan r.calls)) (in_the_log m r.repaired))
    ]
      where
        in_the_log :
            (m : Minimized (W × List Experiment) String)
            → (m.current ≡ items)
              ⊎ Called (repair_test lab plan) (w, a.experiments) m.state m.current (verdict true)
            → (m.current ≡ items) ⊎ Repairs lab plan m.state.1 m.current
        in_the_log m (inl e) = inl e
        in_the_log m (inr c) = inr (Called-Repairs lab plan m.current (w, a.experiments) m.state c)
