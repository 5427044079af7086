-- ===== src/Hub/Reports/Writes.antt =====
-- `atomicWrite` of internal/hub/store.go: the shelf before, or the shelf with the new file's report.
use worldbisect.Prelude.{
  ℕ, String, ◌≡◌, refl, sym, ap, subst, ◌∙◌, ◌⊎◌, inl, inr, Bool, true, false, none, List, [], ◌∷◌,
  ◌++◌, str_eq, arith, eq_iff,
}
use worldbisect.Prelude.Exec.{Result, ok, err, fail, ◌>>=◌, ◌>>◌}
use worldbisect.Prelude.Files.{lookup, erase, insert, lookup-erase, lookup-insert}
use worldbisect.Prelude.Weights.{AreDistinct, erase-AreDistinct, insert-AreDistinct}
use worldbisect.Prelude.Posts.{Post, Post-bind, Post-attempt}
use worldbisect.Hub.Submission.{Host}
use worldbisect.Hub.Reports.{
  Report, ReportFile, Folder, HubError, is_temporary, add, io, on_files, drop_temporary,
  atomic_write,
}
use worldbisect.Hub.Reports.Shelf.{
  ReportFiles, live, shelf, shelf-insert_temporary, shelf-erase_temporary, shelf-insert_new,
}
use worldbisect.Hub.Reports.Loads.{is_breakdown, io-then, io-last}

module _ (host : Host) (encoded : Report → ℕ) (retention : ℕ) where
  -- The same reports at every time.
  abbrev pub AreAlike : ReportFiles → ReportFiles → Type 0
  AreAlike before after = (now : ℕ) → shelf retention now after ≡ shelf retention now before

  -- The reports before and then the file's.
  abbrev pub IsGrown : String → ReportFile → ReportFiles → ReportFiles → Type 0
  IsGrown name f before after =
      (now : ℕ)
      → shelf retention now after ≡ shelf retention now before ++ add (live retention now name f) []

  abbrev IsStored :
      String → ReportFile → ReportFiles → Result HubError (Unit {0}) → ReportFiles → Type 0
  IsStored name f before (ok _) after = IsGrown name f before after
  IsStored name f before (err e) after =
      (is_breakdown e ≡ true) × (AreAlike before after ⊎ IsGrown name f before after)

  -- What `atomicWrite` leaves.
  abbrev pub IsWritten :
      String → ReportFile → ReportFiles → Result HubError (Unit {0}) → ReportFiles → Type 0
  IsWritten name f before r after = IsStored name f before r after × AreDistinct after

  drop_temporary-AreAlike :
      (temporary : String) (d : Folder)
      → is_temporary temporary ≡ true
      → AreDistinct d.files
      → Post
          (drop_temporary host encoded retention temporary)
          d
          (λ r u. (r ≡ ok tt) × AreAlike d.files u.files × AreDistinct u.files)
  unfolding drop_temporary io
  drop_temporary-AreAlike temporary d t distinct = go d.faults
    where
      go :
          (faults : List Bool)
          → Post
              (drop_temporary host encoded retention temporary)
              (record d { faults = faults })
              (λ r u. (r ≡ ok tt) × AreAlike d.files u.files × AreDistinct u.files)
      go [] = (
        refl,
        λ now. shelf-erase_temporary retention now temporary d.files t,
        erase-AreDistinct temporary d.files distinct,
      )
      go (true ∷ rest) = (refl, λ now. refl, distinct)
      go (false ∷ rest) = (
        refl,
        λ now. shelf-erase_temporary retention now temporary d.files t,
        erase-AreDistinct temporary d.files distinct,
      )

  -- The files are as they were, and an error is a breakdown.
  abbrev IsQuiet : ReportFiles → Result HubError (Unit {0}) → ReportFiles → (ℕ → ℕ) → Type 0
  IsQuiet before r after clock =
      (after ≡ before) × ((e : HubError) → r ≡ err e → is_breakdown e ≡ true)

  four_calls : (d : Folder) → Post (do io; io; io; io) d (λ r u. IsQuiet d.files r u.files u.clock)
  unfolding is_breakdown
  four_calls d =
      let Q = IsQuiet d.files in
      io-then _ d Q (refl, λ e p. ground (arith, p))
        λ t p _.
          io-then _ t Q (p, λ e q. ground (arith, q))
            λ u q _.
              io-then _ u Q (q ∙ p, λ e q. ground (arith, q))
                λ v s _.
                  io-last v Q (s ∙ q ∙ p, λ e q. ground (arith, q))
                    (s ∙ q ∙ p, λ e q. ground (arith, q))

  module _ (temporary name : String) (f : ReportFile) (t : is_temporary temporary ≡ true)
      (n : is_temporary name ≡ false) (before : ReportFiles) (absent : lookup name before ≡ none)
      (distinct : AreDistinct before) where
    -- The file is renamed.
    renamed :
        (files : ReportFiles)
        → files ≡ insert temporary (record f { content = none }) before
        → IsGrown name f before (insert name f (erase temporary files))
          × AreDistinct (insert name f (erase temporary files))
    renamed files p =
        let g = record f { content = none } in
        let other : str_eq temporary name ≡ false = ground (arith, t, n, eq_iff temporary name) in
        let after = insert temporary g before in
        let free : lookup name (erase temporary after) ≡ none =
          rw
            (lookup-erase temporary name after, other, lookup-insert temporary name g before, other)
            absent in
        let two = λ (now : ℕ).
          shelf-insert_new retention now name f (erase temporary after) free
          ∙ ap (λ z. z ++ add (live retention now name f) [])
              (shelf-erase_temporary retention now temporary after t
                ∙ shelf-insert_temporary retention now temporary g before t) in
        subst
          (λ z.
            IsGrown name f before (insert name f (erase temporary z))
            × AreDistinct (insert name f (erase temporary z)))
          (sym p)
          (
            two,
            insert-AreDistinct name f (erase temporary after) (
                erase-AreDistinct temporary after (insert-AreDistinct temporary g before distinct)),
          )

  pub atomic_write-IsWritten :
      (temporary name : String) (f : ReportFile) (d : Folder)
      → is_temporary temporary ≡ true
      → is_temporary name ≡ false
      → lookup name d.files ≡ none
      → AreDistinct d.files
      → Post
          (atomic_write host encoded retention temporary name f)
          d
          (λ r u. IsWritten name f d.files r u.files)
  unfolding atomic_write is_breakdown
  atomic_write-IsWritten temporary name f d t n absent distinct =
      let Q = λ (r : Result HubError (Unit {0})) (after : ReportFiles) (clock : ℕ → ℕ).
        IsWritten name f d.files r after in
      let g = record f { content = none } in
      io-then _ d Q ((refl, inl (λ now. refl)), distinct)
        λ u p _.
          let held : insert temporary g u.files ≡ insert temporary g d.files =
            ap (insert temporary g) p in
          Post-attempt (do io; io; io; io)
            (λ e. drop_temporary host encoded retention temporary >>= λ _. fail e)
            (λ _. on_files (λ files. insert name f (erase temporary files)) >>= λ _. io >>= λ _. io)
            (record u { files = insert temporary g u.files })
            (λ r v. IsQuiet (insert temporary g u.files) r v.files v.clock)
            (λ r v. IsWritten name f d.files r v.files)
            (four_calls (record u { files = insert temporary g u.files }))
            (λ e v q.
              let files : v.files ≡ insert temporary g d.files = q.0 ∙ held in
              Post-bind (drop_temporary host encoded retention temporary) (λ _. fail e) v
                (λ r w. (r ≡ ok tt) × AreAlike v.files w.files × AreDistinct w.files)
                (λ r w. IsWritten name f d.files r w.files)
                (drop_temporary-AreAlike temporary v t
                  (subst AreDistinct (sym files) (insert-AreDistinct temporary g d.files distinct)))
                (λ x w r. ground (arith, r.0))
                (λ _ w r.
                  let alike = λ (now : ℕ).
                    r.1 now
                    ∙ ap (shelf retention now) files
                    ∙ shelf-insert_temporary retention now temporary g d.files t in
                  ((q.1 e refl, inl alike), r.2)))
            (λ _ v q.
              let good =
                renamed temporary name f t n d.files absent distinct v.files (q.0 ∙ held) in
              io-then _ (record v { files = insert name f (erase temporary v.files) }) Q
                ((refl, inr good.0), good.1)
                λ w s _.
                  let good' = subst (λ z. IsGrown name f d.files z × AreDistinct z) (sym s) good in
                  io-last w Q ((refl, inr good'.0), good'.1) (good'.0, good'.1))
