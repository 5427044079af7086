-- ===== src/Engine/Evidence/Drops.antt =====
-- What `verifyMinimality` (internal/experiment/engine.go) has tried when it says yes.
use mathlib.Core.List.{append_assoc}
use worldbisect.Prelude.{
  ◌+◌, String, ◌≡◌, ◌≢◌, sym, ap, ◌∙◌, subst, inl, inr, true, List, [], ◌∷◌, ◌++◌, leb, Bool-cases,
  Option-cases, List-cases, length,
}
use worldbisect.Model.{Experiment}
use worldbisect.Engine.Lab.{Lab}
use worldbisect.Engine.Trials.{Plan, forward, minimality_from}
use worldbisect.Engine.Evidence.Log.{
  Grows, Grows-refl, Grows-trans, appended, DoesNotRepair, DoesNotRepair-Grows,
  forward-DoesNotRepair,
}

in_log :
    (log records new all : List Experiment)
    → Grows (records ++ new) all
    → Grows ((log ++ records) ++ new) (log ++ all)
in_log log records new all g = record { more = g.more; is = simp (g.is, append_assoc) }

module _ {W : Type 0} (lab : Lab W) (plan : Plan) where
  -- The log holds failed trials of all of `before ++ after` but one factor of `after`.
  abbrev pub NoneDroppable : List Experiment → List String → List String → Type 0
  NoneDroppable log before after =
      (xs : List String) (x : String) (ys : List String)
      → after ≡ xs ++ x ∷ ys
      → before ++ (xs ++ ys) ≢ []
      → DoesNotRepair lab plan log (before ++ (xs ++ ys))

  extend :
      (log : List Experiment) (before : List String) (x : String) (after : List String)
      → (before ++ after ≢ [] → DoesNotRepair lab plan log (before ++ after))
      → NoneDroppable log (before ++ x ∷ []) after
      → NoneDroppable log before (x ∷ after)
  extend log before x after first rest [] y ys e nonempty =
      let same : after ≡ ys = ap tail e in
      subst (λ l. DoesNotRepair lab plan log (before ++ l)) same
        (first (subst (λ l. before ++ l ≢ []) (sym same) nonempty))
    where
      tail : List String → List String
      tail [] = []
      tail (z ∷ zs) = zs
  extend log before x after first rest (z ∷ xs) y ys e nonempty =
      let shift : (before ++ x ∷ []) ++ (xs ++ ys) ≡ before ++ (x ∷ (xs ++ ys)) =
        append_assoc before (x ∷ []) (xs ++ ys) in
      let head_same : x ≡ z = ap (head x) e in
      let moved : (before ++ x ∷ []) ++ (xs ++ ys) ≡ before ++ (z ∷ (xs ++ ys)) =
        shift ∙ ap (λ (k : String). before ++ (k ∷ (xs ++ ys))) head_same in
      subst (DoesNotRepair lab plan log) moved
        (rest xs y ys (ap tail e) (subst (λ l. l ≢ []) (sym moved) nonempty))
    where
      tail : List String → List String
      tail [] = []
      tail (k ∷ ks) = ks

      head : String → List String → String
      head d [] = d
      head d (k ∷ ks) = k

  -- `verifyMinimality` only appends to its records.
  minimality_from-Grows :
      (before after : List String) (records : List Experiment) (w : W)
      → Grows records (minimality_from lab plan before after records w).0.1
  unfolding minimality_from
  minimality_from-Grows before [] records w = Grows-refl records
  minimality_from-Grows before (x ∷ after) records w =
      elim (Bool-cases
        (leb plan.max_experiments (length records + length plan.good.command.arguments))) [
          | inl full ↦ rw (full, minimality_from) (Grows-refl records)
          | inr room ↦ elim (List-cases (before ++ after)) [
            | inl empty ↦
                rw (room, empty, minimality_from)
                  (minimality_from-Grows (before ++ x ∷ []) after records w)
            | inr (y, ys, split) ↦
                let (t, w1) = forward lab plan (y ∷ ys) w in
                elim (Option-cases t.error) [
                  | inr (e, p) ↦ rw (room, split, p, minimality_from) (appended records t.records)
                  | inl p ↦ elim (Bool-cases t.passes) [
                    | inl q ↦ rw (room, split, p, q, minimality_from) (appended records t.records)
                    | inr q ↦
                        rw (room, split, p, q, minimality_from)
                          (Grows-trans (appended records t.records) (
                            minimality_from-Grows (before ++ x ∷ []) after (records ++ t.records)
                              w1))
                  ]
                ]
          ]
        ]

  no_split :
      (xs : List String) (x : String) (ys : List String)
      → ◌≡◌ {A = List String} [] (xs ++ x ∷ ys)
      → ⊥
  no_split [] x ys e = cc
  no_split (z ∷ xs) x ys e = cc

  -- In a log that holds its records, a positive answer has tried to drop each factor.
  pub minimality_from-NoneDroppable :
      (log all : List Experiment) (before after : List String) (records : List Experiment) (w : W)
      → Grows (log ++ (minimality_from lab plan before after records w).0.1) all
      → (minimality_from lab plan before after records w).0.0 ≡ true
      → NoneDroppable all before after
  unfolding minimality_from
  minimality_from-NoneDroppable log all before [] records w =
      λ g h xs x ys e. absurd (no_split xs x ys e)
  minimality_from-NoneDroppable log all before (x ∷ after) records w =
      elim (Bool-cases
        (leb plan.max_experiments (length records + length plan.good.command.arguments))) [
          | inl full ↦ rw (full, minimality_from) (λ g h. cc)
          | inr room ↦ elim (List-cases (before ++ after)) [
            | inl empty ↦
                rw (room, empty, minimality_from)
                  (λ g h.
                    extend all before x after (λ nonempty. absurd (nonempty empty))
                      (minimality_from-NoneDroppable log all (before ++ x ∷ []) after records w g
                        h))
            | inr (y, ys, split) ↦
                let (t, w1) = forward lab plan (y ∷ ys) w in
                elim (Option-cases t.error) [
                  | inr (e, p) ↦ rw (room, split, p, minimality_from) (λ g h. cc)
                  | inl p ↦ elim (Bool-cases t.passes) [
                    | inl q ↦ rw (room, split, p, q, minimality_from) (λ g h. cc)
                    | inr q ↦
                        rw (room, split, p, q, minimality_from)
                          (λ g h.
                            extend all before x after
                              (λ _. subst (DoesNotRepair lab plan all) (sym split) (
                                DoesNotRepair-Grows lab plan (y ∷ ys)
                                  (Grows-trans
                                    (in_log log records t.records _ (
                                      minimality_from-Grows (before ++ x ∷ []) after
                                        (records ++ t.records) w1))
                                    g)
                                  (forward-DoesNotRepair lab plan (y ∷ ys) (log ++ records) w p q)))
                              (minimality_from-NoneDroppable log all (before ++ x ∷ []) after
                                (records ++ t.records) w1 g h))
                  ]
                ]
          ]
        ]
