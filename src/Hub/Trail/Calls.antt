-- ===== src/Hub/Trail/Calls.antt =====
-- The calls of the system in internal/hub/audit.go: what each leaves when it returns no error.
use worldbisect.Prelude.{
  ℕ, ◌+◌, ◌≤◌, String, ◌≡◌, refl, sym, ap, ◌∙◌, subst, inl, inr, Bool, true, false, Option, none,
  some, List, [], ◌∷◌, ◌++◌, ◌||◌, not, ltb, arith, Bool-cases, Option-cases,
}
use worldbisect.Prelude.Exec.{◌>>◌, ok-injective, Ensures, Ensures-bind, Ensures-attempt}
use worldbisect.Hub.Trail.{
  Entry, Segment, State, SegmentFile, Stray, AuditLog, Trail, find, remove, replace, io, on_files,
  remove_files, write_checkpoint, commit, with_line, empty_segment, open_segment, write_line,
  starts_segment, segment_bytes, is_expired,
}
use worldbisect.Hub.Trail.Chain.{SegmentFiles}
use worldbisect.Hub.Trail.Pruning.{remove_all}

-- The log with its state and the contents of its directory.
pub record IsAt (state : State) (checkpoint : Option (Option State)) (files : SegmentFiles)
    (strays : List Stray) (a : AuditLog) : Type 0 where
  pub state_is : a.state ≡ state
  pub checkpoint_is : a.directory.checkpoint ≡ checkpoint
  pub files_are : a.directory.segments ≡ files
  pub strays_are : a.directory.strays ≡ strays

module _ (s : State) (c : Option (Option State)) (t : List Stray) where
  io-IsAt : (files : SegmentFiles) (a : AuditLog) → IsAt s c files t a → IsAt s c files t (io a).1
  unfolding io
  io-IsAt files a i = record {
    state_is = ground (arith, i.state_is);
    checkpoint_is = ground (arith, i.checkpoint_is);
    files_are = ground (arith, i.files_are);
    strays_are = ground (arith, i.strays_are);
  }

  -- The rule for `io; f`.
  pub after_io :
      {A : Type 0} (files : SegmentFiles) (f : Trail A) (a : AuditLog) (Q : A → AuditLog → Type 0)
      → IsAt s c files t a
      → ((b : AuditLog) → IsAt s c files t b → Ensures f b Q)
      → Ensures (do io; f) a Q
  after_io files f a Q i h = Ensures-bind io (λ _. f) a Q (λ _ _. h (io a).1 (io-IsAt files a i))

  io_ends :
      (files : SegmentFiles) (a : AuditLog)
      → IsAt s c files t a
      → Ensures io a (λ _ b. IsAt s c files t b)
  io_ends files a i = λ _ _. io-IsAt files a i

  on_files-IsAt :
      (f : SegmentFiles → SegmentFiles) (files : SegmentFiles) (a : AuditLog)
      → IsAt s c files t a
      → IsAt s c (f files) t (on_files f a).1
  on_files-IsAt f files a i = record {
    state_is = i.state_is;
    checkpoint_is = i.checkpoint_is;
    files_are = ap f i.files_are;
    strays_are = i.strays_are;
  }

  abbrev pub Created : ℕ → SegmentFiles → SegmentFile → AuditLog → Type 0
  Created name files f b =
      (f ≡ empty_segment)
      × (find name files ≡ none)
      × IsAt s c (files ++ (name, empty_segment) ∷ []) t b

  pub open_segment-Created :
      (name : ℕ) (files : SegmentFiles) (a : AuditLog)
      → IsAt s c files t a
      → Ensures (open_segment true name) a (Created name files)
  unfolding open_segment
  open_segment-Created name files a i = after_io files _ a (Created name files) i (λ b j.
      elim (Option-cases (find name b.directory.segments)) [
        | inr (f, p) ↦ rw p (λ g h. cc)
        | inl p ↦ rw p (λ g h. (
          sym (ok-injective h),
          subst (λ k. find name k ≡ none) j.files_are p,
          record {
            state_is = j.state_is;
            checkpoint_is = j.checkpoint_is;
            files_are = ap (λ k. k ++ (name, empty_segment) ∷ []) j.files_are;
            strays_are = j.strays_are;
          },
        ))
      ])

  abbrev pub Present : ℕ → SegmentFiles → SegmentFile → AuditLog → Type 0
  Present name files f b = (find name files ≡ some f) × IsAt s c files t b

  pub open_segment-Present :
      (name : ℕ) (files : SegmentFiles) (a : AuditLog)
      → IsAt s c files t a
      → Ensures (open_segment false name) a (Present name files)
  unfolding open_segment
  open_segment-Present name files a i = after_io files _ a (Present name files) i (λ b j.
      elim (Option-cases (find name b.directory.segments)) [
        | inl p ↦ rw p (λ g h. cc)
        | inr (f, p) ↦ rw p (λ g h.
            (subst (λ k. find name k ≡ some g) j.files_are (p ∙ ap some (ok-injective h)), j))
      ])

  pub write_line-written :
      (name : ℕ) (e : Entry) (bytes : ℕ) (f : SegmentFile) (files : SegmentFiles) (a : AuditLog)
      → IsAt s c files t a
      → Ensures
          (write_line name e bytes f)
          a
          (λ _ b. IsAt s c (replace name (with_line e bytes f) files) t b)
  unfolding write_line
  write_line-written name e bytes f files a i =
      Ensures-attempt io _ _ a (λ _ b. IsAt s c (replace name (with_line e bytes f) files) t b)
        (λ x r u h. cc)
        (λ u r.
          io_ends (replace name (with_line e bytes f) files) _
            (on_files-IsAt (replace name (with_line e bytes f)) files _ (io-IsAt files a i)))

  pub remove_files-removed :
      (names : List ℕ) (files : SegmentFiles) (a : AuditLog)
      → IsAt s c files t a
      → Ensures (remove_files names) a (λ _ b. IsAt s c (remove_all names files) t b)
  unfolding remove_files
  remove_files-removed [] files a i = λ _ _. i
  remove_files-removed (n ∷ rest) files a i =
      after_io files _ a (λ _ b. IsAt s c (remove_all (n ∷ rest) files) t b) i
        (λ b j. remove_files-removed rest (remove n files) _ (on_files-IsAt (remove n) files b j))

module _ (digest : Entry → String) (encoded : Entry → ℕ) (s : State) (c : Option (Option State))
    (t : List Stray) where
  -- The current segment takes the line, or a new one is needed.
  abbrev pub Placed : SegmentFiles → ℕ → Option Segment → Bool → Type 0
  Placed files bytes last true = Unit
  Placed files bytes last false =
      (g : Segment) × (f : SegmentFile) × (last ≡ some g)
      × (find g.name files ≡ some f)
      × (f.size + bytes ≤ segment_bytes)

  abbrev pub PlacedAt : SegmentFiles → ℕ → Option Segment → Bool → AuditLog → Type 0
  PlacedAt files bytes last fresh b = Placed files bytes last fresh × IsAt s c files t b

  pub starts_segment-PlacedAt :
      (now bytes : ℕ) (last : Option Segment) (files : SegmentFiles) (a : AuditLog)
      → IsAt s c files t a
      → Ensures (starts_segment digest encoded now bytes last) a (PlacedAt files bytes last)
  unfolding starts_segment
  starts_segment-PlacedAt now bytes none files a i =
      λ fresh h. (subst (Placed files bytes none) (ok-injective h) tt, i)
  starts_segment-PlacedAt now bytes (some g) files a i =
      after_io s c t files _ a (PlacedAt files bytes (some g)) i (λ b j.
        elim (Option-cases (find g.name b.directory.segments)) [
          | inl p ↦ rw p (λ fresh h. cc)
          | inr (f, p) ↦ elim (Bool-cases (not f.is_private)) [
            | inl q ↦ rw (p, q) (λ fresh h. cc)
            | inr q ↦
                rw (p, q)
                  (λ fresh h. (
                    subst (Placed files bytes (some g)) (ok-injective h)
                        (placed b.retention f (subst (λ k. find g.name k ≡ some f) j.files_are p)),
                    j,
                  ))
          ]
        ])
    where
      placed :
          (retention : ℕ) (f : SegmentFile)
          → find g.name files ≡ some f
          → Placed files bytes
              (some g)
              (ltb segment_bytes (f.size + bytes) || is_expired retention now g.created_at)
      placed retention f found =
          elim (Bool-cases
            (ltb segment_bytes (f.size + bytes) || is_expired retention now g.created_at)) [
              | inl e ↦ rw (e, Placed) tt
              | inr e ↦ rw (e, Placed) (g, f, refl, found, ground arith)
            ]

write_checkpoint-written :
    (s next : State) (c : Option (Option State)) (t : List Stray) (files : SegmentFiles)
    (a : AuditLog)
    → IsAt s c files t a
    → Ensures (write_checkpoint next) a (λ _ b. IsAt s (some (some next)) files t b)
unfolding write_checkpoint
write_checkpoint-written s next c t files a i =
    after_io s c t files _ a (λ _ b. IsAt s (some (some next)) files t b) i
      (λ b j. io_ends s (some (some next)) t files _ (record {
        state_is = j.state_is;
        checkpoint_is = refl;
        files_are = j.files_are;
        strays_are = j.strays_are;
      }))

-- A checkpoint that is committed is the log's state, and its pruned files are gone.
pub commit-committed :
    (s next : State) (c : Option (Option State)) (t : List Stray) (removed : List ℕ)
    (files : SegmentFiles) (a : AuditLog)
    → IsAt s c files t a
    → Ensures
        (commit next removed)
        a
        (λ _ b. IsAt next (some (some next)) (remove_all removed files) t b)
unfolding commit
commit-committed s next c t removed files a i =
    Ensures-bind (write_checkpoint next) _ a
      (λ _ b. IsAt next (some (some next)) (remove_all removed files) t b)
      (λ u r.
        let j = write_checkpoint-written s next c t files a i u r in
        let b : AuditLog = record ((write_checkpoint next a).1) { state = next } in
        Ensures-bind (remove_files removed) _ b
          (λ _ d. IsAt next (some (some next)) (remove_all removed files) t d)
          (λ v q. io_ends next (some (some next)) t (remove_all removed files) _ (
            remove_files-removed next (some (some next)) t removed files b
              (record {
                state_is = refl;
                checkpoint_is = j.checkpoint_is;
                files_are = j.files_are;
                strays_are = j.strays_are;
              })
              v q)))
