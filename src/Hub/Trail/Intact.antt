-- ===== src/Hub/Trail/Intact.antt =====
-- `Append` and `PurgeExpired` of internal/hub/audit.go keep the directory in agreement with the
-- committed checkpoint, or latch a fault.
use worldbisect.Prelude.{
  ℕ, ◌+◌, ◌*◌, ◌≤◌, String, ◌≡◌, refl, sym, ap, ◌∙◌, subst, inl, inr, Bool, true, false, Option,
  none, some, List, [], ◌∷◌, ◌++◌, ◌||◌, leb, ◌==◌, if◌then◌else◌, arith, Bool-cases, Option-cases,
  length,
}
use mathlib.Core.Option.{some-injective}
use worldbisect.Prelude.Exec.{◌>>=◌, ◌>>◌, Ensures, Ensures-bind}
use worldbisect.Hub.Trail.{
  Entry, Segment, State, SegmentFile, AuditLog, find, last_segment, advance, pruned, commit,
  open_segment, write_line, replace, with_line, prune_segments,
}
use worldbisect.Hub.Trail.Checkpoint.{has_number, names_of, valid_state, valid_hash}
use worldbisect.Hub.Trail.Chain.{SegmentFiles, IsChain, IsChain-le, find-replace_absent, find-end}
use worldbisect.Hub.Trail.Growth.{IsNext, IsChain-advance}
use worldbisect.Hub.Trail.Pruning.{remove_all, find-remove_all, prune_segments-IsPruned}
use worldbisect.Hub.Trail.Calls.{IsAt, open_segment-Present, write_line-written, commit-committed}

module _ (digest : Entry → String) (encoded : Entry → ℕ) (is_digest : String → Bool) where
  -- Every segment file is one that the segments name.
  abbrev pub AreNamed : SegmentFiles → List Segment → Type 0
  AreNamed files segments =
      (n : ℕ) (f : SegmentFile)
      → find n files ≡ some f
      → has_number n (names_of digest encoded is_digest segments) ≡ true

  -- The directory holds the checkpoint of this state and the files that it names, and these are the
  -- chain from its anchor to its head.
  pub record IsIntact (a : AuditLog) : Type 0 where
    pub committed : a.directory.checkpoint ≡ some (some a.state)
    pub valid : valid_state digest encoded is_digest a.state ≡ true
    pub chain :
        IsChain digest encoded is_digest a.directory.segments a.state.segments
          a.state.anchor_sequence a.state.anchor_hash a.state.head_sequence a.state.head_hash
    pub explained : AreNamed a.directory.segments a.state.segments
    pub tidy : a.directory.strays ≡ []

  abbrev pub HasHead : ℕ → String → AuditLog → Type 0
  HasHead h hh b = IsIntact b × (b.state.head_sequence ≡ h) × (b.state.head_hash ≡ hh)

  AreNamed-pruned :
      (files : SegmentFiles) (segments kept : List Segment) (removed : List ℕ)
      → AreNamed files segments
      → ((n : ℕ)
          → has_number n (names_of digest encoded is_digest segments)
            ≡ (has_number n removed || has_number n (names_of digest encoded is_digest kept)))
      → AreNamed (remove_all removed files) kept
  AreNamed-pruned files segments kept removed named split n f found =
      elim (Bool-cases (has_number n removed)) [
        | inl gone ↦
            let away : find n (remove_all removed files) ≡ none =
              find-remove_all n removed files ∙ ap (λ b. if b then none else find n files) gone in
            cc (away, found)
        | inr here ↦
            let kept_there : find n files ≡ some f =
              sym
                (find-remove_all n removed files ∙ ap (λ b. if b then none else find n files) here)
              ∙ found in
            cc (split n, named n f kept_there, here)
      ]

  -- What a state and the files say, wherever they are.
  record Agreement (s : State) (files : SegmentFiles) : Type 0 where
    fine : valid_state digest encoded is_digest s ≡ true
    chain :
        IsChain digest encoded is_digest files s.segments s.anchor_sequence s.anchor_hash
          s.head_sequence s.head_hash
    named : AreNamed files s.segments

  IsAt-IsIntact :
      (s : State) (files : SegmentFiles) (a : AuditLog)
      → IsAt s (some (some s)) files [] a
      → Agreement s files
      → HasHead s.head_sequence s.head_hash a
  IsAt-IsIntact s files a i g = (
    record {
      committed = i.checkpoint_is ∙ ap (λ k. some (some k)) (sym i.state_is);
      valid = subst (λ k. valid_state digest encoded is_digest k ≡ true) (sym i.state_is) g.fine;
      chain =
          subst
            (λ (k : State).
              IsChain digest encoded is_digest a.directory.segments k.segments k.anchor_sequence
                k.anchor_hash k.head_sequence k.head_hash)
            (sym i.state_is)
            (subst
              (λ k.
                IsChain digest encoded is_digest k s.segments s.anchor_sequence s.anchor_hash
                  s.head_sequence s.head_hash)
              (sym i.files_are) g.chain);
      explained =
          subst (λ (k : State). AreNamed a.directory.segments k.segments) (sym i.state_is)
            (subst (λ k. AreNamed k s.segments) (sym i.files_are) g.named);
      tidy = i.strays_are;
    },
    ap (λ (k : State). k.head_sequence) i.state_is,
    ap (λ (k : State). k.head_hash) i.state_is,
  )

  -- The end of both operations.
  pub commits_pruned :
      (s next : State) (c : Option (Option State)) (files : SegmentFiles) (now : ℕ) (a : AuditLog)
      → IsAt s c files [] a
      → IsChain digest encoded is_digest files next.segments next.anchor_sequence next.anchor_hash
          next.head_sequence next.head_hash
      → (next.version == 1) ≡ true
      → valid_hash digest encoded is_digest next.anchor_sequence next.anchor_hash ≡ true
      → valid_hash digest encoded is_digest next.head_sequence next.head_hash ≡ true
      → AreNamed files next.segments
      → let (kept, removed) = pruned a.retention now next in
        Ensures (commit kept removed) a (λ _ b. HasHead next.head_sequence next.head_hash b)
  unfolding pruned
  commits_pruned s next c files now a i chain version anchor head named =
      let result =
        prune_segments a.retention now next.segments next.anchor_sequence next.anchor_hash in
      let p =
        prune_segments-IsPruned digest encoded is_digest a.retention now files next.segments
          next.anchor_sequence next.anchor_hash next.head_sequence next.head_hash chain anchor in
      let kept : State = record next {
        anchor_sequence = result.0.0;
        anchor_hash = result.0.1;
        segments = result.1;
      } in
      λ u h.
        let j = commit-committed s kept c [] result.2 files a i u h in
        let fits : leb (length result.1) 16 ≡ true = ground (arith, p.fits) in
        let below : leb result.0.0 next.head_sequence ≡ true =
          ground (arith, IsChain-le digest encoded is_digest _ result.1 _ _ _ _ p.chain) in
        IsAt-IsIntact kept (remove_all result.2 files) _ j (record {
          fine = rw (version, fits, below, p.hashed) head;
          chain = p.chain;
          named = AreNamed-pruned files next.segments result.1 result.2 named p.split;
        })

  pub names_of-advance :
      (segments : List Segment) (q : ℕ) (hash : String)
      → names_of digest encoded is_digest (advance segments q hash)
        ≡ names_of digest encoded is_digest segments
  unfolding advance
  names_of-advance [] q hash = refl
  names_of-advance (s ∷ []) q hash = refl
  names_of-advance (s ∷ t ∷ rest) q hash =
      ap (λ (r : List ℕ). s.name ∷ r) (names_of-advance (t ∷ rest) q hash)

  has_number-end :
      (n : ℕ) (segments : List Segment) (s : Segment)
      → has_number n (names_of digest encoded is_digest (segments ++ s ∷ []))
        ≡ (has_number n (names_of digest encoded is_digest segments) || s.name == n)
  has_number-end n [] s = ground arith
  has_number-end n (t ∷ rest) s = ground (arith, has_number-end n rest s)

  pub AreNamed-replace :
      (k : ℕ) (v : SegmentFile) (files : SegmentFiles) (segments : List Segment)
      → AreNamed files segments
      → AreNamed (replace k v files) segments
  AreNamed-replace k v files segments named n f found = elim (Option-cases (find n files)) [
    | inr (w, p) ↦ named n w p
    | inl p ↦ cc (found, find-replace_absent n k v files p)
  ]

  pub AreNamed-end :
      (s : Segment) (v : SegmentFile) (files : SegmentFiles) (segments : List Segment)
      → find s.name files ≡ none
      → AreNamed files segments
      → AreNamed (files ++ (s.name, v) ∷ []) (segments ++ s ∷ [])
  AreNamed-end s v files segments absent named n f found =
      has_number-end n segments s ∙ elim (Bool-cases (s.name == n)) [
        | inl e ↦ ground arith
        | inr e ↦
            let old : find n files ≡ some f =
              ap (λ b. if b then some v else find n files) (sym e)
              ∙ sym (find-end n s.name v files absent)
              ∙ found in
            ground (arith, named n f old)
      ]

  module _ (now later : ℕ) (e : Entry) (a : AuditLog) (intact : IsIntact a)
      (next : IsNext digest encoded is_digest a.state.head_sequence a.state.head_hash e)
      (short : encoded e ≤ 4096) where
    abbrev pub Stored : Unit {0} → AuditLog → Type 0
    Stored u b = HasHead e.sequence e.hash b

    abbrev pub checkpoint : Option (Option State)
    checkpoint = some (some a.state)

    abbrev pub files : SegmentFiles
    files = a.directory.segments

    -- From the segments with the new end on.
    pub commits_next :
        (segments : List Segment) (written : SegmentFiles) (b : AuditLog)
        → IsAt a.state checkpoint written [] b
        → IsChain digest encoded is_digest written segments a.state.anchor_sequence
            a.state.anchor_hash e.sequence e.hash
        → AreNamed written segments
        → let (kept, removed) = pruned b.retention later (record a.state {
          segments = segments;
          head_sequence = e.sequence;
          head_hash = e.hash;
        }) in
          Ensures (commit kept removed) b Stored
    commits_next segments written b i chain named =
        commits_pruned a.state
          (record a.state { segments = segments; head_sequence = e.sequence; head_hash = e.hash })
          checkpoint written later b i chain (ground (arith, intact.valid))
          (ground (arith, intact.valid)) (rw (after_zero) next.hashed) named
      where
        after_zero : (e.sequence == 0) ≡ false
        after_zero = ground (arith, next.follows_on)

    pub in_current :
        (g : Segment) (f : SegmentFile) (b : AuditLog)
        → last_segment a.state.segments ≡ some g
        → find g.name files ≡ some f
        → f.size + encoded e ≤ 256 * 1024
        → IsAt a.state checkpoint files [] b
        → Ensures
            (do
              f ← open_segment false g.name
              write_line g.name e (encoded e) f
              λ c.
                  let (kept, removed) = pruned c.retention later (record a.state {
                    segments = advance a.state.segments e.sequence e.hash;
                    head_sequence = e.sequence;
                    head_hash = e.hash;
                  }) in
                  commit kept removed c)
            b
            Stored
    in_current g f b last found fits i =
        Ensures-bind (open_segment false g.name) _ b Stored (λ f' r.
          let (there, j) = open_segment-Present a.state checkpoint [] g.name files b i f' r in
          let same : f ≡ f' = some-injective _ _ (sym found ∙ there) in
          let fits' : f'.size + encoded e ≤ 256 * 1024 =
            subst (λ (k : SegmentFile). k.size + encoded e ≤ 256 * 1024) same fits in
          Ensures-bind (write_line g.name e (encoded e) f') _ _ Stored (λ u w.
            commits_next (advance a.state.segments e.sequence e.hash)
              (replace g.name (with_line e (encoded e) f') files) _
              (write_line-written a.state checkpoint [] g.name e (encoded e) f' files _ j u w)
              (IsChain-advance digest encoded is_digest files a.state.segments g _ _ _ _ f' e
                (encoded e) intact.chain last there next fits')
              (λ n v h.
                ap (has_number n) (names_of-advance a.state.segments e.sequence e.hash)
                ∙ AreNamed-replace g.name (with_line e (encoded e) f') files a.state.segments
                    intact.explained n v h)))
