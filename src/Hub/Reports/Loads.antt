-- ===== src/Hub/Reports/Loads.antt =====
-- `load` of internal/hub/store.go: what it returns is the shelf, and what it removes is not on it.
use mathlib.Core.Option.{some-injective}
use text.Mathlib.TextLemmas.{cons-append}
use worldbisect.Prelude.{
  ℕ, suc, ◌+◌, String, ◌≡◌, refl, sym, ap, subst, ◌∙◌, inl, inr, Bool, true, false, Option, none,
  some, List, [], ◌∷◌, ◌||◌, not, ltb, ◌==◌, length, str_eq, arith, Bool-cases, Option-cases,
  eq_iff,
}
use worldbisect.Prelude.Exec.{Result, ok, err, pure, ◌>>=◌, ok-injective}
use worldbisect.Prelude.Files.{lookup, erase}
use worldbisect.Prelude.Weights.{AreDistinct}
use worldbisect.Prelude.Posts.{Post, Post-bind, Post-if, Post-option}
use worldbisect.Hub.Trail.{is_expired}
use worldbisect.Hub.Submission.{Host, id_pattern, cut_suffix, valid_submission, valid_publisher}
use worldbisect.Hub.Reports.{
  Report, ReportFile, Folder, HubError, io_failed, Desk, minute, is_temporary, file_name, add, io,
  load_report, read_report, load_file, load_files, load, private_dir, on_files,
}
use worldbisect.Hub.Reports.Shelf.{
  ReportFiles, IsNamed, AreNamed, AreWithin, erase-AreWithin, AreWithin-refl, live, shelf, IsDead,
  Sheds, same, gone,
}

-- An error of the system or of what is stored, as opposed to an answer to the request.
unfoldable pub is_breakdown : HubError → Bool
is_breakdown HubError.io_failed = true
is_breakdown HubError.corrupt = true
is_breakdown HubError.too_many = true
is_breakdown HubError.too_large = true
is_breakdown e = false

-- A call that may fail, and then the rest, where only the files and the clock matter.
pub io-then :
    {A : Type 0} (f : Unit {0} → Desk A) (d : Folder)
    (Q : Result HubError A → ReportFiles → (ℕ → ℕ) → Type 0)
    → Q (err io_failed) d.files d.clock
    → ((t : Folder)
        → t.files ≡ d.files
        → t.clock ≡ d.clock
        → Post (f tt) t (λ r u. Q r u.files u.clock))
    → Post (io >>= f) d (λ r u. Q r u.files u.clock)
unfolding io
io-then f d Q bad good = go d.faults
  where
    go :
        (faults : List Bool)
        → Post (io >>= f) (record d { faults = faults }) (λ r u. Q r u.files u.clock)
    go [] = good (record d { faults = [] }) refl refl
    go (true ∷ rest) = bad
    go (false ∷ rest) = good (record d { faults = rest }) refl refl

-- A call that may fail, at the end.
pub io-last :
    (d : Folder) (Q : Result HubError (Unit {0}) → ReportFiles → (ℕ → ℕ) → Type 0)
    → Q (err io_failed) d.files d.clock
    → Q (ok tt) d.files d.clock
    → Post io d (λ r u. Q r u.files u.clock)
unfolding io
io-last d Q bad good = go d.faults
  where
    go : (faults : List Bool) → Post io (record d { faults = faults }) (λ r u. Q r u.files u.clock)
    go [] = good
    go (true ∷ rest) = bad
    go (false ∷ rest) = good

module _ (host : Host) (encoded : Report → ℕ) (retention : ℕ) where
  -- What one turn of the loop does to the files.
  pub data Loaded (now : ℕ) (name : String) (f : ReportFile) (files : ReportFiles)
      : Result HubError (Option Report) → ReportFiles → Type 0 where
    failed :
        {e : HubError} {after : ReportFiles}
        → is_breakdown e ≡ true
        → after ≡ files
        → Loaded now name f files (err e) after
    kept :
        {o : Option Report} {after : ReportFiles}
        → o ≡ live retention now name f
        → IsNamed name f
        → after ≡ files
        → Loaded now name f files (ok o) after
    dropped :
        {after : ReportFiles}
        → IsDead retention now name f
        → IsNamed name f
        → after ≡ erase name files
        → Loaded now name f files (ok none) after

  -- A turn from a state with the same files.
  abbrev TurnOf :
      ℕ → String → ReportFile → ReportFiles → Result HubError (Option Report) → Folder → Type 0
  TurnOf now name f files r u = Loaded now name f files r u.files

  remove-Loaded :
      (now : ℕ) (name : String) (f : ReportFile) (files : ReportFiles) (d : Folder)
      → d.files ≡ files
      → IsDead retention now name f
      → IsNamed name f
      → Post ((io >>= λ _. on_files (erase name)) >>= λ _. pure none) d (TurnOf now name f files)
  unfolding io erase is_breakdown
  remove-Loaded now name f files d here dead named = go d.faults
    where
      go :
          (faults : List Bool)
          → Post
              ((io >>= λ _. on_files (erase name)) >>= λ _. pure none)
              (record d { faults = faults })
              (TurnOf now name f files)
      go [] = dropped dead named (ap (erase name) here)
      go (true ∷ rest) = failed refl here
      go (false ∷ rest) = dropped dead named (ap (erase name) here)

  cut_suffix-file_name :
      (name id : String) → cut_suffix ".json" name ≡ some id → name ≡ file_name id
  unfolding cut_suffix
  cut_suffix-file_name String.[] id h = ground (arith, h)
  cut_suffix-file_name (String.◌∷◌ c s) id h = elim (Option-cases (cut_suffix ".json" s)) [
    | inl e ↦
        let step : (str_eq (String.◌∷◌ c s) ".json" ≡ true) × (some "" ≡ some id) =
          (ground (arith, h, e), ground (arith, h, e)) in
        (eq_iff (String.◌∷◌ c s) ".json").0 step.0 ∙ ap file_name (some-injective _ _ step.1)
    | inr (r, e) ↦
        let step : some (String.◌∷◌ c r) ≡ some id = ground (arith, h, e) in
        ap (String.◌∷◌ c) (cut_suffix-file_name s r e)
        ∙ sym (cons-append c r ".json")
        ∙ ap file_name (some-injective _ _ step)
  ]

  load_report-Loaded :
      (now : ℕ) (name id : String) (f : ReportFile) (r : Report) (files : ReportFiles) (d : Folder)
      → d.files ≡ files
      → is_temporary name ≡ false
      → f.content ≡ some r
      → name ≡ file_name id
      → Post (load_report host encoded retention now name id r) d (TurnOf now name f files)
  unfolding load_report live is_breakdown
  load_report-Loaded now name id f r files d here t c p =
      let after = record d { clock = λ n. d.clock (suc n) } in
      let Q = TurnOf now name f files in
      Post-if after Q
        (not (str_eq r.id id) || r.created_at == 0 || ltb (d.clock 0 + minute) r.created_at) _ _
        (λ _. failed refl here)
        λ good.
          let named : IsNamed name f = λ r' c' _. ground (arith, p, c, c', good, eq_iff r.id id) in
          Post-if after Q (not (valid_submission host r.submission)) _ _ (λ _. failed refl here)
            λ _.
              Post-if after Q (not (valid_publisher host r.publisher r.submission)) _ _
                (λ _. failed refl here)
                λ _.
                  Post-if after Q (is_expired retention now r.created_at) _ _
                    (λ over.
                      remove-Loaded now name f files after here
                        (λ later le.
                          let over' : is_expired retention later r.created_at ≡ true =
                            ground (arith, over, le) in
                          rw (t, c, over') refl)
                        named)
                    (λ over. kept (rw (t, c, over) refl) named here)

  read_report-Loaded :
      (now : ℕ) (name id : String) (f : ReportFile) (files : ReportFiles) (d : Folder)
      → d.files ≡ files
      → is_temporary name ≡ false
      → name ≡ file_name id
      → Post (read_report host encoded retention now name id f) d (TurnOf now name f files)
  unfolding read_report is_breakdown
  read_report-Loaded now name id f files d here t p =
      let Q = λ (r : Result HubError (Option Report)) (after : ReportFiles) (clock : ℕ → ℕ).
        Loaded now name f files r after in
      io-then _ d Q (failed refl here) λ d₁ s₁ _.
        io-then _ d₁ Q (failed refl (s₁ ∙ here)) λ d₂ s₂ _.
          io-then _ d₂ Q (failed refl (s₂ ∙ s₁ ∙ here)) λ d₃ s₃ _.
            let held = s₃ ∙ s₂ ∙ s₁ ∙ here in
            Post-if d₃ (TurnOf now name f files) (ltb 65536 f.size) _ _ (λ _. failed refl held)
              λ _.
                Post-option d₃ (TurnOf now name f files) f.content _ _ (λ _. failed refl held)
                  λ r c. load_report-Loaded now name id f r files d₃ held t c p

  load_file-Loaded :
      (now : ℕ) (name : String) (f : ReportFile) (d : Folder)
      → Post (load_file host encoded retention now name f) d (TurnOf now name f d.files)
  unfolding load_file live is_breakdown
  load_file-Loaded now name f d =
      let Q = λ (r : Result HubError (Option Report)) (after : ReportFiles) (clock : ℕ → ℕ).
        Loaded now name f d.files r after in
      io-then _ d Q (failed refl refl) λ d₁ here _.
        Post-if d₁ (TurnOf now name f d.files) (not f.is_private) _ _ (λ _. failed refl here)
          λ _.
            Post-if d₁ (TurnOf now name f d.files) (is_temporary name) _ _
              (λ t.
                remove-Loaded now name f d.files d₁ here (λ later le. rw t refl)
                  (λ r c not_t. ground (arith, t, not_t)))
              λ t.
                Post-option d₁ (TurnOf now name f d.files) (cut_suffix ".json" name) _ _
                  (λ _. failed refl here)
                  λ id e.
                    Post-if d₁ (TurnOf now name f d.files) (not (host.matches id_pattern id)) _ _
                      (λ _. failed refl here)
                      λ _.
                        read_report-Loaded now name id f d.files d₁ here t
                          (cut_suffix-file_name name id e)

  -- What the loop of `load` does, over the entries that it still has to visit.
  pub record Loads (now : ℕ) (todo files : ReportFiles) (r : Result HubError (List Report))
      (after : ReportFiles) : Type 0 where
    pub sheds : Sheds retention now files after
    pub answer : (rs : List Report) → r ≡ ok rs → (rs ≡ shelf retention now todo) × AreNamed todo
    pub breaks : (e : HubError) → r ≡ err e → is_breakdown e ≡ true

  -- A turn and then the others.
  cons-Loads :
      (now : ℕ) (name : String) (f : ReportFile) (rest : ReportFiles)
      (files middle after : ReportFiles) (o : Option Report) (r : Result HubError (List Report))
      → o ≡ live retention now name f
      → IsNamed name f
      → (Sheds retention now middle after → Sheds retention now files after)
      → Loads now rest middle r after
      → (s : Result HubError (List Report)) → ((e : HubError) → r ≡ err e → s ≡ err e)
      → ((rs : List Report) → r ≡ ok rs → s ≡ ok (add o rs))
      → Loads now ((name, f) ∷ rest) files s after
  unfolding shelf
  cons-Loads now name f rest files middle after o (err e) l named more loads s bad good = record {
    sheds = more loads.sheds;
    answer = λ rs p. ground (arith, p, bad e refl);
    breaks = λ x p. ground (arith, p, bad e refl, loads.breaks e refl);
  }
  cons-Loads now name f rest files middle after o (ok rs) l named more loads s bad good =
      let a = loads.answer rs refl in
      record {
        sheds = more loads.sheds;
        answer = λ qs p.
            let both : add o rs ≡ qs = ok-injective (sym (good rs refl) ∙ p) in
            (
              sym both ∙ ap (add o) a.0 ∙ ap (λ x. add x (shelf retention now rest)) l,
              (named, a.1),
            );
        breaks = λ x p. ground (arith, p, good rs refl);
      }

  module _ (now : ℕ) (name : String) (f : ReportFile) (rest : ReportFiles) (d : Folder)
      (absent : lookup name rest ≡ none) (within : AreWithin ((name, f) ∷ rest) d.files)
      (next : (t : Folder)
        → AreWithin rest t.files
        → Post
            (load_files host encoded retention now rest)
            t
            (λ r u. Loads now rest t.files r u.files)) where
    abbrev Whole : Result HubError (List Report) → Folder → Type 0
    Whole r u = Loads now ((name, f) ∷ rest) d.files r u.files

    others :
        (o : Option Report) (t : Folder)
        → o ≡ live retention now name f
        → IsNamed name f
        → ((after : ReportFiles)
            → Sheds retention now t.files after
            → Sheds retention now d.files after)
        → AreWithin rest t.files
        → Post (load_files host encoded retention now rest >>= λ rs. pure (add o rs)) t Whole
    others o t l named more w =
        Post-bind (load_files host encoded retention now rest) (λ rs. pure (add o rs)) t
          (λ r u. Loads now rest t.files r u.files) Whole (next t w)
          (λ e u p.
            cons-Loads now name f rest d.files t.files u.files o (err e) l named (more u.files) p
              (err e) (λ x q. ground (arith, q)) (λ rs q. ground (arith, q)))
          (λ rs u p.
            cons-Loads now name f rest d.files t.files u.files o (ok rs) l named (more u.files) p
              (ok (add o rs)) (λ x q. ground (arith, q))
              (λ qs q. ap (λ z. ok (add o z)) (ok-injective q)))

    stopped :
        {e : HubError} (t : Folder) → Loaded now name f d.files (err e) t.files → Whole (err e) t
    stopped t (failed b p) = record {
      sheds = subst (Sheds retention now d.files) (sym p) same;
      answer = λ rs q. ground (arith, q);
      breaks = λ x q. ground (arith, b, q);
    }

    turned :
        {o : Option Report} (t : Folder)
        → Loaded now name f d.files (ok o) t.files
        → Post (load_files host encoded retention now rest >>= λ rs. pure (add o rs)) t Whole
    turned t (kept l named p) =
        others _ t l named (λ after s. subst (λ z. Sheds retention now z after) p s)
          (subst (AreWithin rest) (sym p) within.1)
    turned t (dropped dead named p) =
        others none t (sym (dead now (omega arith))) named
          (λ after s. gone name f within.0 dead (subst (λ z. Sheds retention now z after) p s))
          (subst (AreWithin rest) (sym p) (erase-AreWithin name rest d.files absent within.1))

  load_files-Loads :
      (now : ℕ) (todo : ReportFiles) (d : Folder)
      → AreDistinct todo
      → AreWithin todo d.files
      → Post
          (load_files host encoded retention now todo)
          d
          (λ r u. Loads now todo d.files r u.files)
  unfolding load_files shelf
  load_files-Loads now [] d distinct within = record {
    sheds = same;
    answer = λ rs e. (ok-injective (sym e), tt);
    breaks = λ e p. ground (arith, p);
  }
  load_files-Loads now ((name, f) ∷ rest) d distinct within =
      let next =
        λ (t : Folder) (w : AreWithin rest t.files). load_files-Loads now rest t distinct.1 w in
      Post-bind (load_file host encoded retention now name f)
        (λ o. load_files host encoded retention now rest >>= λ rs. pure (add o rs)) d
        (TurnOf now name f d.files) (λ r u. Loads now ((name, f) ∷ rest) d.files r u.files)
        (load_file-Loaded now name f d)
        (λ e t p. stopped now name f rest d distinct.0 within next t p)
        (λ o t p. turned now name f rest d distinct.0 within next t p)

  -- The files and the clock are untouched, and an error is a breakdown.
  abbrev IsQuiet : {A : Type 0} → Folder → Result HubError A → ReportFiles → (ℕ → ℕ) → Type 0
  IsQuiet d r files clock =
      (files ≡ d.files) × (clock ≡ d.clock) × ((e : HubError) → r ≡ err e → is_breakdown e ≡ true)

  private_dir-IsQuiet : (d : Folder) → Post private_dir d (λ r u. IsQuiet d r u.files u.clock)
  unfolding private_dir is_breakdown
  private_dir-IsQuiet d =
      io-then _ d (IsQuiet d) (refl, refl, λ e p. ground (arith, p))
        λ t f c.
          io-then _ t (IsQuiet d) (f, c, λ e p. ground (arith, p))
            λ u f' c'. elim (Bool-cases u.is_private) [
              | inl b ↦ rw (b) (f' ∙ f, c' ∙ c, λ e p. ground (arith, p))
              | inr b ↦ rw (b) (f' ∙ f, c' ∙ c, λ e p. ground (arith, p))
            ]

  -- `load`, as a whole.
  pub load-Loads :
      (d : Folder)
      → AreDistinct d.files
      → Post (load host encoded retention) d (λ r u. Loads (d.clock 0) d.files d.files r u.files)
  unfolding load private_dir is_breakdown
  load-Loads d distinct =
      let Q = λ (r : Result HubError (List Report)) (after : ReportFiles) (clock : ℕ → ℕ).
        Loads (d.clock 0) d.files d.files r after in
      let broken : (e : HubError) (after : ReportFiles)
          → is_breakdown e ≡ true
          → after ≡ d.files
          → Loads (d.clock 0) d.files d.files (err e) after =
        λ e after b p. record {
          sheds = subst (Sheds retention (d.clock 0) d.files) (sym p) same;
          answer = λ rs q. ground (arith, q);
          breaks = λ x q. ground (arith, b, q);
        } in
      Post-bind private_dir _ d (λ r u. IsQuiet d r u.files u.clock) (λ r u. Q r u.files u.clock)
        (private_dir-IsQuiet d) (λ e t p. broken e t.files (p.2 e refl) p.0)
        λ _ t p. io-then _ t Q (broken _ t.files refl p.0) λ u f c.
          io-then _ u Q (broken _ u.files refl (f ∙ p.0)) λ v f' c'.
            Post-if v (λ r w. Q r w.files w.clock) (ltb 1016 (length v.files)) _ _
              (λ _. broken _ v.files refl (f' ∙ f ∙ p.0))
              (λ _.
                let here = f' ∙ f ∙ p.0 in
                let loads =
                  load_files-Loads (v.clock 0) v.files (record v { clock = λ n. v.clock (suc n) })
                    (subst AreDistinct (sym here) distinct)
                    (AreWithin-refl v.files (subst AreDistinct (sym here) distinct)) in
                let Of = λ (clock : ℕ → ℕ) (files : ReportFiles).
                  Loads (clock 0) files files
                    (load_files host encoded retention (v.clock 0) v.files
                      (record v { clock = λ n. v.clock (suc n) })).0
                    (load_files host encoded retention (v.clock 0) v.files
                      (record v { clock = λ n. v.clock (suc n) })).1.files in
                subst (Of d.clock) here (subst (λ clock. Of clock v.files) (c' ∙ c ∙ p.1) loads))
