-- ===== src/Hub/Reports/Requests.antt =====
-- The requests of internal/hub/store.go on one workspace, and what they mean for the shelf of its
-- reports.
use worldbisect.Prelude.{
  ℕ, suc, ◌≤◌, String, ◌≡◌, refl, sym, ap, subst, ◌∙◌, ◌⊎◌, inl, inr, true, false, Option, none,
  some, List, [], ◌∷◌, ◌++◌, ltb, leb, if◌then◌else◌, length, take, arith, Bool-cases, Option-cases,
}
use worldbisect.Prelude.Exec.{Result, ok, err, pure, ◌>>=◌}
use worldbisect.Prelude.Files.{lookup, erase, lookup-erase}
use worldbisect.Prelude.Weights.{AreDistinct, erase-AreDistinct}
use worldbisect.Prelude.Posts.{Post, Post-bind, Post-assoc}
use worldbisect.Hub.Trail.{is_expired}
use worldbisect.Hub.Submission.{Host, Submission, PublisherIdentity}
use worldbisect.Hub.Reports.{
  Report, ReportFile, Folder, HubError, not_found, quota, Desk, is_temporary, file_name,
  sort_reports, find_report, load, list_reports, get_report, delete_report, create_report,
  atomic_write, io, remove, add,
}
use worldbisect.Hub.Reports.Shelf.{
  ReportFiles, AreNamed, live, shelf, without, Sheds, Sheds-AreDistinct, Sheds-AreNamed,
  shelf-Sheds, shelf-erase_named, same, gone,
}
use worldbisect.Hub.Reports.Loads.{is_breakdown, io-then, load-Loads, Loads}
use worldbisect.Hub.Reports.Writes.{IsWritten, IsGrown, atomic_write-IsWritten}

pub data DeskRequest : Type 0 where
  list : DeskRequest
  get delete : String → DeskRequest
  create : ℕ → String → String → Submission → Option PublisherIdentity → DeskRequest

pub data Answer : Type 0 where
  reports : List Report → Answer
  report : Report → Answer
  done : Answer

-- The report that a request creates at a time.
abbrev pub created : String → Submission → Option PublisherIdentity → ℕ → Report
created random submission publisher now = record {
  id = random;
  created_at = now;
  publisher = publisher;
  submission = submission;
}

-- A new identifier is none of those in use and does not look like a temporary file's name, and
-- `os.CreateTemp` keeps to its prefix.
abbrev pub IsFresh : DeskRequest → ReportFiles → Type 0
IsFresh (create max_reports random temporary submission publisher) files =
    (lookup (file_name random) files ≡ none)
    × (is_temporary (file_name random) ≡ false)
    × (is_temporary temporary ≡ true)
IsFresh request files = Unit

module _ (host : Host) (encoded : Report → ℕ) (retention : ℕ) where
  abbrev pub serve : DeskRequest → Desk Answer
  serve list = list_reports host encoded retention >>= λ rs. pure (reports rs)
  serve (get id) = get_report host encoded retention id >>= λ r. pure (report r)
  serve (delete id) = delete_report host encoded retention id >>= λ _. pure done
  serve (create max_reports random temporary submission publisher) =
      create_report host encoded retention max_reports random temporary submission publisher
      >>= λ r. pure (report r)

  -- The reply that the reports on the shelf call for.
  abbrev pub Replies : DeskRequest → List Report → Result HubError Answer → Type 0
  Replies list shelf r = r ≡ ok (reports (take 100 (sort_reports shelf)))
  Replies (get id) shelf r =
      r ≡ elim (find_report id shelf) [ none ↦ err not_found | some x ↦ ok (report x) ]
  Replies (delete id) shelf r =
      r ≡ elim (find_report id shelf) [ none ↦ err not_found | some x ↦ ok done ]
  Replies (create max_reports random temporary submission publisher) shelf r =
      ((leb max_reports (length shelf) ≡ true) × (r ≡ err quota))
      ⊎ ((leb max_reports (length shelf) ≡ false)
          × (now : ℕ) × (r ≡ ok (report (created random submission publisher now))))

  -- A report, if its time is not over.
  abbrev pub still : ℕ → Report → List Report
  still now r = if is_expired retention now r.created_at then [] else r ∷ []

  -- The shelf before and after a request with this reply, both seen at a later time. A request that
  -- breaks down may have come to its end.
  abbrev pub Changes : DeskRequest → Result HubError Answer → ℕ → List Report → List Report → Type 0
  Changes list r later before after = after ≡ before
  Changes (get id) r later before after = after ≡ before
  Changes (delete id) (ok a) later before after = after ≡ without id before
  Changes (delete id) (err e) later before after =
      (after ≡ before) ⊎ ((is_breakdown e ≡ true) × (after ≡ without id before))
  Changes (create m random t submission publisher) (ok (report r)) later before after =
      after ≡ before ++ still later r
  Changes (create m random t submission publisher) (ok a) later before after = ⊥
  Changes (create m random t submission publisher) (err e) later before after =
      (after ≡ before)
      ⊎ ((is_breakdown e ≡ true)
          × (now : ℕ) × (after ≡ before ++ still later (created random submission publisher now)))

  record Meets (request : DeskRequest) (d : Folder) (r : Result HubError Answer)
      (after : ReportFiles) : Type 0 where
    -- The reply, or a breakdown.
    pub reply :
        Replies request (shelf retention (d.clock 0) d.files) r
        ⊎ ((e : HubError) × (r ≡ err e) × (is_breakdown e ≡ true))
    pub change :
        (later : ℕ)
        → d.clock 0 ≤ later
        → Changes request r later (shelf retention later d.files) (shelf retention later after)
    pub distinct : AreDistinct after

  abbrev Ref : DeskRequest → Folder → Result HubError Answer → Folder → Type 0
  Ref request d r u = Meets request d r u.files

  -- Where nothing changes, whatever the reply.
  stays :
      (request : DeskRequest) (e : HubError) (later : ℕ) (before after : List Report)
      → after ≡ before
      → Changes request (err e) later before after
  stays list e later before after p = p
  stays (get id) e later before after p = p
  stays (delete id) e later before after p = inl p
  stays (create m random t submission publisher) e later before after p = inl p

  -- What `load` leaves behind when it succeeds.
  record HasLoaded (d : Folder) (rs : List Report) (files : ReportFiles) : Type 0 where
    found : rs ≡ shelf retention (d.clock 0) d.files
    named : AreNamed files
    distinct : AreDistinct files
    sheds : Sheds retention (d.clock 0) d.files files
    alike :
        (later : ℕ)
        → d.clock 0 ≤ later
        → shelf retention later files ≡ shelf retention later d.files

  load-then :
      (request : DeskRequest) (k : List Report → Desk Answer) (d : Folder)
      → AreDistinct d.files
      → ((rs : List Report) (t : Folder) → HasLoaded d rs t.files → Post (k rs) t (Ref request d))
      → Post (load host encoded retention >>= k) d (Ref request d)
  load-then request k d distinct good =
      Post-bind (load host encoded retention) k d
        (λ r u. Loads host encoded retention (d.clock 0) d.files d.files r u.files) (Ref request d)
        (load-Loads host encoded retention d distinct)
        (λ e t p. record {
          reply = inr (e, refl, p.breaks e refl);
          change = λ later le.
              stays request e later _ _ (shelf-Sheds retention p.sheds distinct later le);
          distinct = Sheds-AreDistinct retention p.sheds distinct;
        })
        (λ rs t p.
          let a = p.answer rs refl in
          good rs t record {
            found = a.0;
            named = Sheds-AreNamed retention p.sheds a.1;
            distinct = Sheds-AreDistinct retention p.sheds distinct;
            sheds = p.sheds;
            alike = λ later le. shelf-Sheds retention p.sheds distinct later le;
          })

  list-Meets : (d : Folder) → AreDistinct d.files → Post (serve list) d (Ref list d)
  unfolding list_reports
  list-Meets d distinct = Post-assoc (load host encoded retention) _ _ d (Ref list d) (
      load-then list _ d distinct λ rs t h. record {
        reply = inl (ap (λ z. ok (reports (take 100 (sort_reports z)))) h.found);
        change = h.alike;
        distinct = h.distinct;
      })

  get-Meets :
      (id : String) (d : Folder) → AreDistinct d.files → Post (serve (get id)) d (Ref (get id) d)
  unfolding get_report
  get-Meets id d distinct = Post-assoc (load host encoded retention) _ _ d (Ref (get id) d) (
      load-then (get id) _ d distinct λ rs t h. elim (Option-cases (find_report id rs)) [
        | inl e ↦ rw e record {
          reply = inl (rw (sym h.found, e) refl);
          change = h.alike;
          distinct = h.distinct;
        }
        | inr (r, e) ↦ rw e record {
          reply = inl (rw (sym h.found, e) refl);
          change = h.alike;
          distinct = h.distinct;
        }
      ])

  -- The report is there, and its file is removed.
  removed :
      (id : String) (d : Folder) (rs : List Report) (t : Folder) (r : Report)
      → HasLoaded d rs t.files
      → find_report id rs ≡ some r
      → Post
          ((remove (file_name id) >>= λ _. io >>= λ _. io) >>= λ _. pure done)
          t
          (Ref (delete id) d)
  unfolding is_breakdown
  removed id d rs t r h e =
      let Q = λ (r : Result HubError Answer) (after : ReportFiles) (clock : ℕ → ℕ).
        Meets (delete id) d r after in
      let without_file = λ (later : ℕ) (le : d.clock 0 ≤ later).
        shelf-erase_named retention later id t.files h.named ∙ ap (without id) (h.alike later le) in
      let left = erase-AreDistinct (file_name id) t.files h.distinct in
      let broken : (after : ReportFiles)
          → after ≡ erase (file_name id) t.files
          → Meets (delete id) d (err HubError.io_failed) after =
        λ after p. record {
          reply = inr (_, refl, refl);
          change = λ later le. inr (refl, ap (shelf retention later) p ∙ without_file later le);
          distinct = subst AreDistinct (sym p) left;
        } in
      Post-assoc (remove (file_name id)) _ _ t (Ref (delete id) d) (
        Post-assoc io _ _ t (Ref (delete id) d) (
          io-then _ t Q
            record {
              reply = inr (_, refl, refl);
              change = λ later le. inl (h.alike later le);
              distinct = h.distinct;
            }
            λ u p _.
              let gone = ap (erase (file_name id)) p in
              Post-assoc io (λ _. io) (λ _. pure done)
                (record u { files = erase (file_name id) u.files }) (Ref (delete id) d)
                (io-then _ (record u { files = erase (file_name id) u.files }) Q (broken _ gone)
                  λ v q _. io-then _ v Q (broken _ (q ∙ gone)) λ w s _. record {
                    reply = inl (rw (sym h.found, e) refl);
                    change = λ later le.
                        ap (shelf retention later) (s ∙ q ∙ gone) ∙ without_file later le;
                    distinct = subst AreDistinct (sym (s ∙ q ∙ gone)) left;
                  })))

  delete-Meets :
      (id : String) (d : Folder)
      → AreDistinct d.files
      → Post (serve (delete id)) d (Ref (delete id) d)
  unfolding delete_report is_breakdown
  delete-Meets id d distinct = Post-assoc (load host encoded retention) _ _ d (Ref (delete id) d) (
      load-then (delete id) _ d distinct λ rs t h. elim (Option-cases (find_report id rs)) [
        | inl e ↦ rw e record {
          reply = inl (rw (sym h.found, e) refl);
          change = λ later le. inl (h.alike later le);
          distinct = h.distinct;
        }
        | inr (r, e) ↦ rw e (removed id d rs t r h e)
      ])

  Sheds-absent :
      {now : ℕ} {files rest : ReportFiles} (name : String)
      → Sheds retention now files rest
      → lookup name files ≡ none
      → lookup name rest ≡ none
  Sheds-absent name same h = h
  Sheds-absent name (gone {files} other f found dead more) h =
      Sheds-absent name more (ground (arith, lookup-erase other name files, h))

  module _ (max_reports : ℕ) (random temporary : String) (submission : Submission)
      (publisher : Option PublisherIdentity) (d : Folder) where
    abbrev request : DeskRequest
    request = create max_reports random temporary submission publisher

    abbrev file_of : ℕ → ReportFile
    file_of now = record {
      is_private = true;
      size = encoded (created random submission publisher now);
      content = some (created random submission publisher now);
    }

    live-created :
        (now later : ℕ)
        → IsFresh request d.files
        → add (live retention later (file_name random) (file_of now)) []
          ≡ still later (created random submission publisher now)
    unfolding live
    live-created now later fresh = elim (Bool-cases (is_expired retention later now)) [
      | inl e ↦ rw (fresh.1, e) refl
      | inr e ↦ rw (fresh.1, e) refl
    ]

    grown :
        (now later : ℕ) (t u : ReportFiles)
        → IsFresh request d.files
        → shelf retention later t ≡ shelf retention later d.files
        → IsGrown host encoded retention (file_name random) (file_of now) t u
        → shelf retention later u
          ≡ shelf retention later d.files ++ still later (created random submission publisher now)
    grown now later t u fresh alike g =
        g later
        ∙ ap (λ z. shelf retention later t ++ z) (live-created now later fresh)
        ∙ ap (λ z. z ++ still later (created random submission publisher now)) alike

    -- The report is written.
    stored :
        (now : ℕ) (rs : List Report) (t : Folder)
        → HasLoaded d rs t.files
        → leb max_reports (length rs) ≡ false
        → IsFresh request d.files
        → Post
            (atomic_write host encoded retention temporary (file_name random) (file_of now) >>= λ _.
              pure (report (created random submission publisher now)))
            t
            (Ref request d)
    stored now rs t h below fresh =
        Post-bind (atomic_write host encoded retention temporary (file_name random) (file_of now))
          (λ _. pure (report (created random submission publisher now))) t
          (λ r u.
            IsWritten host encoded retention (file_name random) (file_of now) t.files r u.files)
          (Ref request d)
          (atomic_write-IsWritten host encoded retention temporary (file_name random) (file_of now)
            t fresh.2 fresh.1 (Sheds-absent (file_name random) h.sheds fresh.0) h.distinct)
          (λ e u w. record {
            reply = inr (e, refl, w.0.0);
            change = λ later le. elim w.0.1 [
              | inl a ↦ inl (a later ∙ h.alike later le)
              | inr g ↦ inr (w.0.0, now, grown now later t.files u.files fresh (h.alike later le) g)
            ];
            distinct = w.1;
          })
          (λ _ u w. record {
            reply =
                inl
                  (inr (subst (λ z. leb max_reports (length z) ≡ false) h.found below, now, refl));
            change = λ later le. grown now later t.files u.files fresh (h.alike later le) w.0;
            distinct = w.1;
          })

    broken :
        (e : HubError) (rs : List Report) (after : ReportFiles)
        → is_breakdown e ≡ true
        → HasLoaded d rs after
        → Meets request d (err e) after
    broken e rs after b h = record {
      reply = inr (e, refl, b);
      change = λ later le. inl (h.alike later le);
      distinct = h.distinct;
    }

    create-Meets :
        AreDistinct d.files → IsFresh request d.files → Post (serve request) d (Ref request d)
    unfolding create_report is_breakdown
    create-Meets distinct fresh =
        let Q = λ (r : Result HubError Answer) (after : ReportFiles) (clock : ℕ → ℕ).
          Meets request d r after in
        Post-assoc (load host encoded retention) _ _ d (Ref request d) (
          load-then request _ d distinct λ rs t h. elim (Bool-cases (leb max_reports (length rs))) [
            | inl full ↦ rw full record {
              reply = inl (inl (subst (λ z. leb max_reports (length z) ≡ true) h.found full, refl));
              change = λ later le. inl (h.alike later le);
              distinct = h.distinct;
            }
            | inr below ↦ rw below (
                Post-assoc io _ _ t (Ref request d) (
                  io-then _ t Q (broken _ rs t.files refl h) λ u p _.
                    let h' = subst (HasLoaded d rs) (sym p) h in
                    elim (Bool-cases
                      (ltb 65536 (encoded (created random submission publisher (u.clock 0))))) [
                        | inl long ↦ rw long (broken _ rs u.files refl h')
                        | inr short ↦ rw short (
                            Post-assoc
                              (atomic_write host encoded retention temporary (file_name random)
                                (file_of (u.clock 0)))
                              _ _ (record u { clock = λ n. u.clock (suc n) }) (Ref request d)
                              (stored (u.clock 0) rs (record u { clock = λ n. u.clock (suc n) }) h'
                                below fresh))
                      ]))
          ])

  -- The reply is the one that the reports on the shelf call for, or a breakdown; the shelf of a later
  -- time is as the reply says; and each file still has a name of its own.
  abbrev pub Refines : DeskRequest → Folder → ℕ → Result HubError Answer → ReportFiles → Type 0
  Refines request d later r after =
      (Replies request (shelf retention (d.clock 0) d.files) r
        ⊎ ((e : HubError) × (r ≡ err e) × (is_breakdown e ≡ true)))
      × Changes request r later (shelf retention later d.files) (shelf retention later after)
      × AreDistinct after

  serve-Meets :
      (request : DeskRequest) (d : Folder)
      → AreDistinct d.files
      → IsFresh request d.files
      → Meets request d (serve request d).0 (serve request d).1.files
  serve-Meets list d distinct fresh = list-Meets d distinct
  serve-Meets (get id) d distinct fresh = get-Meets id d distinct
  serve-Meets (delete id) d distinct fresh = delete-Meets id d distinct
  serve-Meets (create max_reports random temporary submission publisher) d distinct fresh =
      create-Meets max_reports random temporary submission publisher d distinct fresh

  -- In a directory with one file per name, where a new identifier is fresh, a request to list, get,
  -- delete or create gets the reply that the reports on the shelf at the first reading of the clock
  -- call for, or an error of the system or of what is stored. At every time from that reading on, the
  -- shelf after the request is the shelf before it, without the report that was deleted and with
  -- the one that was created. After such an error a deletion or a creation may have been carried out
  -- or not. The directory still has one file per name.
  pub serve-Refines :
      (request : DeskRequest) (d : Folder)
      → AreDistinct d.files
      → IsFresh request d.files
      → (later : ℕ) → d.clock 0 ≤ later
      → Refines request d later (serve request d).0 (serve request d).1.files
  serve-Refines request d distinct fresh later le =
      let m = serve-Meets request d distinct fresh in (m.reply, m.change later le, m.distinct)
