-- ===== src/Hub/Reports/Newest.antt =====
-- `List` of internal/hub/store.go: the newest reports first.
use mathlib.Core.List.{Perm}
use mathlib.Core.List.Perm
use worldbisect.Prelude.{
  ℕ, zero, suc, ◌≤◌, ◌≡◌, refl, sym, subst, inl, inr, true, false, List, [], ◌∷◌, ◌++◌, length,
  take, drop, arith, Bool-cases, ap, ◌∙◌, min, length-take,
}
use worldbisect.Prelude.Exec.{ok, pure, ok-injective}
use worldbisect.Prelude.Weights.{AreDistinct}
use worldbisect.Prelude.Posts.{Post-bind}
use worldbisect.Hub.Submission.{Host}
use worldbisect.Hub.Reports.{
  Report, Folder, comes_before, insert_report, sort_reports, load, list_reports,
}
use worldbisect.Hub.Reports.Shelf.{shelf}
use worldbisect.Hub.Reports.Loads.{Loads, load-Loads}

-- The first report is no newer than this time.
abbrev pub IsBelow : ℕ → List Report → Type 0
IsBelow time [] = Unit
IsBelow time (r ∷ rs) = r.created_at ≤ time

-- No report is newer than the one before it.
abbrev pub IsNewestFirst : List Report → Type 0
IsNewestFirst [] = Unit
IsNewestFirst (r ∷ rs) = IsBelow r.created_at rs × IsNewestFirst rs

before_or_after :
    (x r : Report)
    → (comes_before x r ≡ true → r.created_at ≤ x.created_at)
      × (comes_before x r ≡ false → x.created_at ≤ r.created_at)
before_or_after x r = (λ h. ground (arith, h), λ h. ground (arith, h))

insert_report-IsBelow :
    (time : ℕ) (r : Report) (xs : List Report)
    → IsBelow time xs
    → r.created_at ≤ time
    → IsBelow time (insert_report r xs)
unfolding insert_report
insert_report-IsBelow time r [] b le = le
insert_report-IsBelow time r (x ∷ xs) b le = elim (Bool-cases (comes_before x r)) [
  | inl e ↦ rw e b
  | inr e ↦ rw e le
]

insert_report-IsNewestFirst :
    (r : Report) (xs : List Report) → IsNewestFirst xs → IsNewestFirst (insert_report r xs)
unfolding insert_report
insert_report-IsNewestFirst r [] s = (tt, tt)
insert_report-IsNewestFirst r (x ∷ xs) s = elim (Bool-cases (comes_before x r)) [
  | inl e ↦
      rw (e, IsNewestFirst)
        (
          insert_report-IsBelow x.created_at r xs s.0 ((before_or_after x r).0 e),
          insert_report-IsNewestFirst r xs s.1,
        )
  | inr e ↦ rw (e, IsNewestFirst) ((before_or_after x r).1 e, s)
]

insert_report-Perm : (r : Report) (xs : List Report) → Perm (insert_report r xs) (r ∷ xs)
unfolding insert_report
insert_report-Perm r [] = Perm.refl (r ∷ [])
insert_report-Perm r (x ∷ xs) = elim (Bool-cases (comes_before x r)) [
  | inl e ↦ rw e (Perm.trans (Perm.cons x (insert_report-Perm r xs)) (Perm.swap r x xs))
  | inr e ↦ rw e (Perm.refl (r ∷ x ∷ xs))
]

sort_reports-IsNewestFirst : (rs : List Report) → IsNewestFirst (sort_reports rs)
unfolding sort_reports
sort_reports-IsNewestFirst [] = tt
sort_reports-IsNewestFirst (r ∷ rs) =
    insert_report-IsNewestFirst r (sort_reports rs) (sort_reports-IsNewestFirst rs)

length-insert_report :
    (r : Report) (xs : List Report) → length (insert_report r xs) ≡ suc (length xs)
unfolding insert_report
length-insert_report r [] = refl
length-insert_report r (x ∷ xs) = elim (Bool-cases (comes_before x r)) [
  | inl e ↦ rw e (ap suc (length-insert_report r xs))
  | inr e ↦ rw e refl
]

length-sort_reports : (rs : List Report) → length (sort_reports rs) ≡ length rs
unfolding sort_reports
length-sort_reports [] = refl
length-sort_reports (r ∷ rs) =
    length-insert_report r (sort_reports rs) ∙ ap suc (length-sort_reports rs)

sort_reports-Perm : (rs : List Report) → Perm (sort_reports rs) rs
unfolding sort_reports
sort_reports-Perm [] = Perm.refl []
sort_reports-Perm (r ∷ rs) =
    Perm.trans (insert_report-Perm r (sort_reports rs)) (Perm.cons r (sort_reports-Perm rs))

take-append-drop : {A : Type 0} (n : ℕ) (xs : List A) → take n xs ++ drop n xs ≡ xs
take-append-drop zero xs = refl
take-append-drop (suc n) [] = refl
take-append-drop (suc n) (x ∷ xs) = ap (λ (r : List _). x ∷ r) (take-append-drop n xs)

module _ (host : Host) (encoded : Report → ℕ) (retention : ℕ) where
  -- These reports and some others are the whole shelf; no report is newer than one before it, also
  -- among the others, and there are others only after a hundred.
  pub record AreNewest (whole rs : List Report) : Type 0 where
    pub others : List Report
    pub all : Perm (rs ++ others) whole
    pub ordered : IsNewestFirst (rs ++ others)
    pub bounded : length rs ≡ min 100 (length whole)

  -- What `List` returns, in a directory with one file per name, are the newest hundred of the reports
  -- that are not over at the first reading of the clock, or all of them, newest first.
  pub list_reports-AreNewest :
      (d : Folder) (rs : List Report)
      → AreDistinct d.files
      → (list_reports host encoded retention d).0 ≡ ok rs
      → AreNewest (shelf retention (d.clock 0) d.files) rs
  unfolding list_reports
  list_reports-AreNewest d rs distinct e =
      Post-bind (load host encoded retention) (λ qs. pure (take 100 (sort_reports qs))) d
        (λ r u. Loads host encoded retention (d.clock 0) d.files d.files r u.files)
        (λ r u. (qs : List Report) → r ≡ ok qs → AreNewest (shelf retention (d.clock 0) d.files) qs)
        (load-Loads host encoded retention d distinct) (λ x t p qs q. ground (arith, q))
        (λ ws t p qs q.
          let same = take-append-drop 100 (sort_reports ws) in
          let newest : AreNewest ws (take 100 (sort_reports ws)) = record {
            others = drop 100 (sort_reports ws);
            all = subst (λ z. Perm z ws) (sym same) (sort_reports-Perm ws);
            ordered = subst IsNewestFirst (sym same) (sort_reports-IsNewestFirst ws);
            bounded = length-take 100 (sort_reports ws) ∙ ap (min 100) (length-sort_reports ws);
          } in
          subst (λ z. AreNewest z qs) (p.answer ws refl).0
            (subst (AreNewest ws) (ok-injective q) newest))
        rs e
