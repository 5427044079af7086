-- ===== src/Hub/Trail/Reload.antt =====
-- Opening the directory of an intact log of internal/hub/audit.go.
use worldbisect.Prelude.{
  ℕ, ◌+◌, ◌≤◌, ◌<◌, String, ◌≡◌, refl, sym, ap, ◌∙◌, subst, inl, inr, ◌⊎◌, Bool, true, false, some,
  List, [], ◌∷◌, ◌||◌, ltb, ◌==◌, eq_iff, if◌then◌else◌, arith, Bool-cases, length,
}
use worldbisect.Prelude.Exec.{Result, ok, err, ◌>>◌}
use worldbisect.Prelude.Posts.{Post, Post-bind, Post-attempt}
use worldbisect.Hub.Trail.{
  Entry, Segment, State, SegmentFile, Stray, TrailError, io_failed, AuditLog, Trail, find, io,
}
use worldbisect.Hub.Trail.Checkpoint.{
  has_number, names_of, sound_file, visit_segments, reaches_head, clean_files, clean_strays,
  clean_directory, adopt, decoded, load_and_verify, begin_log, begin_if_new, take_directory,
  open_audit, first_state, days,
}
use worldbisect.Hub.Trail.Chain.{SegmentFiles, IsChain}
use worldbisect.Hub.Trail.Intact.{IsIntact, AreNamed}

-- Whether some of these calls fail.
abbrev pub has_fault : List Bool → Bool
has_fault [] = false
has_fault (b ∷ rest) = b || has_fault rest

-- The second log after some calls that changed no file.
record Like (a b : AuditLog) : Type 0 where
  checkpoint_is : b.directory.checkpoint ≡ a.directory.checkpoint
  segments_are : b.directory.segments ≡ a.directory.segments
  strays_are : b.directory.strays ≡ a.directory.strays
  faults_left : has_fault b.directory.faults ≡ true → has_fault a.directory.faults ≡ true

-- An error is that of a call that failed, and no file has changed.
abbrev Survives :
    {A : Type 0} → AuditLog → (A → AuditLog → Type 0) → Result TrailError A → AuditLog → Type 0
Survives a P (ok v) b = P v b
Survives a P (err e) b = (e ≡ io_failed) × (has_fault a.directory.faults ≡ true) × Like a b

io-Survives : (a b : AuditLog) → Like a b → Post io b (Survives a (λ _. Like a))
unfolding io
io-Survives a b l = go b.directory.faults l.faults_left
  where
    kept :
        (faults : List Bool)
        → (has_fault faults ≡ true → has_fault a.directory.faults ≡ true)
        → Like a (record b { directory = record b.directory { faults = faults } })
    kept faults h = record {
      checkpoint_is = l.checkpoint_is;
      segments_are = l.segments_are;
      strays_are = l.strays_are;
      faults_left = h;
    }

    go :
        (faults : List Bool)
        → (has_fault faults ≡ true → has_fault a.directory.faults ≡ true)
        → Post io
            (record b { directory = record b.directory { faults = faults } })
            (Survives a (λ _. Like a))
    go [] h = kept [] h
    go (true ∷ rest) h = (refl, h refl, kept rest (λ _. h refl))
    go (false ∷ rest) h = kept rest h

-- The rule for `io; f`.
after_io :
    {A : Type 0} (a b : AuditLog) (f : Trail A) (P : A → AuditLog → Type 0)
    → Like a b
    → ((c : AuditLog) → Like a c → Post f c (Survives a P))
    → Post (do io; f) b (Survives a P)
after_io a b f P l next =
    Post-bind io (λ _. f) b (Survives a (λ _. Like a)) (Survives a P) (io-Survives a b l)
      (λ e t h. h) (λ u c k. next c k)

module _ (digest : Entry → String) (encoded : Entry → ℕ) (is_digest : String → Bool) where
  AreNamed-rest :
      (k : ℕ) (v : SegmentFile) (rest : SegmentFiles) (segments : List Segment)
      → AreNamed digest encoded is_digest ((k, v) ∷ rest) segments
      → AreNamed digest encoded is_digest rest segments
  unfolding find
  AreNamed-rest k v rest segments named n f found = elim (Bool-cases (k == n)) [
    | inl e ↦ named n v (rw e refl)
    | inr e ↦ named n f (rw e found)
  ]

  clean_files-named :
      (s : State) (part : SegmentFiles) (a : AuditLog)
      → AreNamed digest encoded is_digest part s.segments
      → clean_files digest encoded is_digest s part a ≡ (ok tt, a)
  unfolding clean_files find
  clean_files-named s [] a named = refl
  clean_files-named s ((k, v) ∷ rest) a named =
      let same : (k == k) ≡ true = ground arith in
      let here : has_number k (names_of digest encoded is_digest s.segments) ≡ true =
        named k v (rw same refl) in
      rw here (clean_files-named s rest a (AreNamed-rest k v rest s.segments named))

  clean_strays-none :
      (strays : List Stray) (a : AuditLog)
      → strays ≡ []
      → clean_strays digest encoded is_digest strays a
        ≡ (ok tt, record a { directory = record a.directory { strays = [] } })
  unfolding clean_strays
  clean_strays-none [] a e = refl
  clean_strays-none (x ∷ rest) a e = cc

  -- The loop over the segments accepts a chain.
  IsChain-visited :
      (a b : AuditLog) (segments : List Segment) (q : ℕ) (p : String) (h : ℕ) (hh : String)
      (seen : List ℕ)
      → Like a b
      → IsChain digest encoded is_digest a.directory.segments segments q p h hh
      → ((m : ℕ) → q < m → has_number m seen ≡ false)
      → Post
          (visit_segments digest encoded is_digest segments q p seen)
          b
          (Survives a (λ r c. (r.0 ≡ h) × (r.1 ≡ hh) × Like a c))
  unfolding visit_segments
  IsChain-visited a b [] q p h hh seen like c below = (c.0, c.1, like)
  IsChain-visited a b (s ∷ rest) q p h hh seen like (l, c) below =
      let here : (s.name == q + 1) ≡ true = ground (arith, l.named) in
      let new : has_number s.name seen ≡ false = below s.name (omega (arith, l.named)) in
      let later : (m : ℕ) → s.last_sequence < m → has_number m (s.name ∷ seen) ≡ false =
        λ m after. ground (arith, below m (omega (arith, l.grows)), l.grows, l.named) in
      rw (here, new, l.dated)
        (after_io a b _ _ like λ b1 l1. after_io a b1 _ _ l1 λ b2 l2. after_io a b2 _ _ l2 λ b3 l3.
          let sound : sound_file digest encoded is_digest s q p (find s.name b3.directory.segments)
              ≡ true =
            rw (l3.segments_are, l.there) l.sound in
          rw sound
            (IsChain-visited a b3 rest s.last_sequence s.last_hash h hh (s.name ∷ seen) l3 c later))

  -- The directory of an intact log has nothing to clean.
  clean_directory-nothing :
      (a b : AuditLog)
      → Like a b
      → IsIntact digest encoded is_digest a
      → length a.directory.segments ≤ 38
      → Post (clean_directory digest encoded is_digest a.state) b (Survives a (λ _. Like a))
  unfolding clean_directory
  clean_directory-nothing a b like i few = after_io a b _ _ like λ b1 l1.
      after_io a b1 _ _ l1 λ b2 l2.
        let tidy : b2.directory.strays ≡ [] = l2.strays_are ∙ i.tidy in
        let small : ltb 40 (length b2.directory.segments + length b2.directory.strays + 2) ≡ false =
          ground (arith, ap length tidy, ap length l2.segments_are) in
        let named : AreNamed digest encoded is_digest b2.directory.segments a.state.segments =
          subst (λ files. AreNamed digest encoded is_digest files a.state.segments)
            (sym l2.segments_are) i.explained in
        rw
          (
            small,
            clean_files-named a.state b2.directory.segments b2 named,
            clean_strays-none b2.directory.strays b2 tidy,
          )
          (record {
            checkpoint_is = l2.checkpoint_is;
            segments_are = l2.segments_are;
            strays_are = sym i.tidy;
            faults_left = l2.faults_left;
          })

  -- The log that takes over the checkpoint of `a`.
  abbrev Reopened : AuditLog → Unit {0} → AuditLog → Type 0
  Reopened a u b =
      (b.state ≡ a.state)
      × (b.directory.segments ≡ a.directory.segments)
      × IsIntact digest encoded is_digest b

  Like-IsIntact :
      (a b : AuditLog)
      → Like a b
      → IsIntact digest encoded is_digest a
      → IsIntact digest encoded is_digest (record b { state = a.state })
  Like-IsIntact a b l i = record {
    committed = l.checkpoint_is ∙ i.committed;
    valid = i.valid;
    chain =
        subst
          (λ files.
            IsChain digest encoded is_digest files a.state.segments a.state.anchor_sequence
              a.state.anchor_hash a.state.head_sequence a.state.head_hash)
          (sym l.segments_are) i.chain;
    explained =
        subst (λ files. AreNamed digest encoded is_digest files a.state.segments)
          (sym l.segments_are) i.explained;
    tidy = l.strays_are ∙ i.tidy;
  }

  adopt-Reopened :
      (a b : AuditLog)
      → Like a b
      → IsIntact digest encoded is_digest a
      → length a.directory.segments ≤ 38
      → Post (adopt digest encoded is_digest a.state) b (Survives a (Reopened a))
  unfolding adopt
  adopt-Reopened a b like i few = rw i.valid (
      Post-bind
        (visit_segments digest encoded is_digest a.state.segments a.state.anchor_sequence
          a.state.anchor_hash [])
        _ b
        (Survives a (λ r c. (r.0 ≡ a.state.head_sequence) × (r.1 ≡ a.state.head_hash) × Like a c))
        (Survives a (Reopened a)) (IsChain-visited a b _ _ _ _ _ [] like i.chain (λ m h. refl))
        (λ e t h. h)
        (λ r c (sequence, hash, l).
          let reached : reaches_head digest encoded is_digest a.state r ≡ true =
            ground (arith, sequence, (eq_iff r.1 a.state.head_hash).1 hash) in
          rw reached (
            Post-bind (clean_directory digest encoded is_digest a.state) _ c
              (Survives a (λ _. Like a)) (Survives a (Reopened a))
              (clean_directory-nothing a c l i few) (λ e t h. h)
              (λ u d k. (refl, k.segments_are, Like-IsIntact a d k i)))))

  load_and_verify-Reopened :
      (a b : AuditLog)
      → Like a b
      → IsIntact digest encoded is_digest a
      → length a.directory.segments ≤ 38
      → Post (load_and_verify digest encoded is_digest) b (Survives a (Reopened a))
  unfolding load_and_verify decoded
  load_and_verify-Reopened a b like i few = after_io a b _ _ like λ b1 l1.
      after_io a b1 _ _ l1 λ b2 l2. after_io a b2 _ _ l2 λ b3 l3.
        let there : b3.directory.checkpoint ≡ some (some a.state) =
          l3.checkpoint_is ∙ i.committed in
        simp there (adopt-Reopened a b3 l3 i few)

  begin_if_new-committed :
      (a b : AuditLog)
      → Like a b
      → IsIntact digest encoded is_digest a
      → Post (begin_if_new digest encoded is_digest) b (Survives a (λ _. Like a))
  unfolding begin_if_new begin_log
  begin_if_new-committed a b like i =
      Post-attempt io _ _ b (Survives a (λ _. Like a)) (Survives a (λ _. Like a))
        (io-Survives a b like) (λ e t h. h.2)
        (λ u c l.
          let there : c.directory.checkpoint ≡ some (some a.state) =
            l.checkpoint_is ∙ i.committed in
          simp there l)

  take_directory-Like :
      (a b : AuditLog)
      → Like a b
      → Post (take_directory digest encoded is_digest) b (Survives a (λ _. Like a))
  unfolding take_directory
  take_directory-Like a b like = after_io a b _ _ like λ b1 l1.
      after_io a b1 _ _ l1
        λ b2 l2. after_io a b2 _ _ l2 λ b3 l3. after_io a b3 _ _ l3 (λ b4 l4. io-Survives a b4 l4)

  -- The log of `a` is there again with the same files, or a call failed and no file has changed.
  abbrev pub IsOpened : AuditLog → Result TrailError (Unit {0}) × AuditLog → Type 0
  IsOpened a (result, b) =
      ((result ≡ ok tt)
        × (b.state ≡ a.state)
        × (b.directory.segments ≡ a.directory.segments)
        × IsIntact digest encoded is_digest b)
      ⊎ ((result ≡ err io_failed)
          × (has_fault a.directory.faults ≡ true)
          × (b.directory.checkpoint ≡ a.directory.checkpoint)
          × (b.directory.segments ≡ a.directory.segments))

  -- When an intact log is closed, or its process dies, and its directory has at most 38 segment files,
  -- then `open_audit` with a retention of at most 30 days (0 stands for 7) either finds the directory in
  -- agreement with the checkpoint and opens an intact log with the same state, whose segment files are
  -- as before, or one of the calls of the system fails, it returns the error of that call, and the
  -- checkpoint and the segment files are as before.
  pub open_audit-IsIntact :
      (retention_days : ℕ) (a : AuditLog)
      → IsIntact digest encoded is_digest a
      → retention_days ≤ 30
      → length a.directory.segments ≤ 38
      → IsOpened a (open_audit digest encoded is_digest retention_days a.directory)
  unfolding open_audit
  open_audit-IsIntact retention_days a i range few =
      let n = if retention_days == 0 then 7 else retention_days in
      let in_range : (ltb n 1 || ltb 30 n) ≡ false = ground arith in
      let b : AuditLog = record {
        state = first_state digest encoded is_digest;
        retention = days digest encoded is_digest n;
        is_closed = false;
        fault = false;
        directory = a.directory;
      } in
      let same : Like a b = record {
        checkpoint_is = refl;
        segments_are = refl;
        strays_are = refl;
        faults_left = λ h. h;
      } in
      rw in_range (
        outcome _ _ (
          Post-bind (take_directory digest encoded is_digest) _ b (Survives a (λ _. Like a))
            (Survives a (Reopened a)) (take_directory-Like a b same) (λ e t h. h)
            (λ u c l.
              Post-bind (begin_if_new digest encoded is_digest) _ c (Survives a (λ _. Like a))
                (Survives a (Reopened a)) (begin_if_new-committed a c l i) (λ e t h. h)
                (λ v d k. load_and_verify-Reopened a d k i few))))
    where
      outcome :
          (result : Result TrailError (Unit {0})) (b : AuditLog)
          → Survives a (Reopened a) result b
          → IsOpened a (result, b)
      outcome (ok u) b h = inl (refl, h.0, h.1, h.2)
      outcome (err e) b (p, f, l) = inr (ap err p, f, l.checkpoint_is, l.segments_are)
