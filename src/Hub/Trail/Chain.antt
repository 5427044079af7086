-- ===== src/Hub/Trail/Chain.antt =====
-- The chain of segments behind a checkpoint of internal/hub/audit.go, and how it grows and is pruned.
use worldbisect.Prelude.{
  ℕ, ◌+◌, ◌≤◌, ◌<◌, String, ◌≡◌, refl, sym, ap, ◌∙◌, subst, inl, inr, Bool, true, false, Option,
  none, some, List, [], ◌∷◌, ◌++◌, leb, ◌==◌, eq_iff, if◌then◌else◌, arith, Bool-cases,
}
use mathlib.Core.Option.{some-injective}
use worldbisect.Hub.Trail.{
  Entry, Segment, Line, entry, malformed, SegmentFile, find, remove, replace, segment_bytes,
  with_line,
}
use worldbisect.Hub.Trail.Checkpoint.{follows, check_lines, ends_at, is_empty, sound_file}

abbrev pub SegmentFiles : Type 0
SegmentFiles = List (ℕ × SegmentFile)

module _ {V : Type 0} where
  pub find-replace :
      (n k : ℕ) (v : V) (files : List (ℕ × V))
      → find n (replace k v files)
        ≡ (if k == n then (elim (find n files) [ none ↦ none | some w ↦ some v ]) else find n files)
  unfolding find replace
  find-replace n k v [] = ground arith
  find-replace n k v ((j, w) ∷ files) = ground (arith, find-replace n k v files)

  pub find-replace_absent :
      (n k : ℕ) (v : V) (files : List (ℕ × V))
      → find n files ≡ none
      → find n (replace k v files) ≡ none
  unfolding find replace
  find-replace_absent n k v [] h = refl
  find-replace_absent n k v ((j, w) ∷ files) h = ground (arith, find-replace_absent n k v files)

  pub find-remove :
      (n k : ℕ) (files : List (ℕ × V))
      → find n (remove k files) ≡ (if k == n then none else find n files)
  unfolding find remove
  find-remove n k [] = ground arith
  find-remove n k ((j, w) ∷ files) = ground (arith, find-remove n k files)

  pub find-end :
      (n k : ℕ) (v : V) (files : List (ℕ × V))
      → find k files ≡ none
      → find n (files ++ (k, v) ∷ []) ≡ (if k == n then some v else find n files)
  unfolding find
  find-end n k v [] fresh = refl
  find-end n k v ((j, w) ∷ files) fresh = ground (arith, find-end n k v files)

module _ (digest : Entry → String) (encoded : Entry → ℕ) (is_digest : String → Bool) where
  -- A segment in its place, with a sound file.
  pub record Link (files : SegmentFiles) (s : Segment) (sequence : ℕ) (previous : String)
      : Type 0 where
    pub named : s.name ≡ sequence + 1
    pub dated : (s.created_at == 0) ≡ false
    pub grows : sequence < s.last_sequence
    pub hashed : is_digest s.last_hash ≡ true
    pub file : SegmentFile
    pub there : find s.name files ≡ some file
    pub sound : sound_file digest encoded is_digest s sequence previous (some file) ≡ true

  -- The segments lead from the first point to the second.
  abbrev pub IsChain : SegmentFiles → List Segment → ℕ → String → ℕ → String → Type 0
  IsChain files [] q p h hh = (q ≡ h) × (p ≡ hh)
  IsChain files (s ∷ rest) q p h hh =
      Link files s q p × IsChain files rest s.last_sequence s.last_hash h hh

  pub IsChain-le :
      (files : SegmentFiles) (segments : List Segment) (q : ℕ) (p : String) (h : ℕ) (hh : String)
      → IsChain files segments q p h hh
      → q ≤ h
  IsChain-le files [] q p h hh c = omega (arith, c.0)
  IsChain-le files (s ∷ rest) q p h hh (l, c) =
      omega (arith, l.grows, IsChain-le files rest s.last_sequence s.last_hash h hh c)

  -- A change of other files does not matter.
  pub IsChain-frame :
      (files files' : SegmentFiles) (segments : List Segment) (q : ℕ) (p : String) (h : ℕ)
      (hh : String)
      → ((n : ℕ) → q < n → n ≤ h → find n files' ≡ find n files)
      → IsChain files segments q p h hh
      → IsChain files' segments q p h hh
  IsChain-frame files files' [] q p h hh same c = c
  IsChain-frame files files' (s ∷ rest) q p h hh same (l, c) =
      let up = IsChain-le files rest s.last_sequence s.last_hash h hh c in
      (
        record {
          named = l.named;
          dated = l.dated;
          grows = l.grows;
          hashed = l.hashed;
          file = l.file;
          there = same s.name (omega (arith, l.named)) (omega (arith, l.named, l.grows)) ∙ l.there;
          sound = l.sound;
        },
        IsChain-frame files files' rest s.last_sequence s.last_hash h hh
            (λ n a b. same n (omega (arith, l.grows)) b) c,
      )

  pub IsChain-end :
      (files : SegmentFiles) (segments : List Segment) (s : Segment) (q : ℕ) (p : String) (h : ℕ)
      (hh : String)
      → IsChain files segments q p h hh
      → Link files s h hh
      → IsChain files (segments ++ s ∷ []) q p s.last_sequence s.last_hash
  IsChain-end files [] s q p h hh (e, f) l = (
    subst (λ k. Link files s k p) (sym e) (subst (λ k. Link files s h k) (sym f) l),
    (refl, refl),
  )
  IsChain-end files (t ∷ rest) s q p h hh (k, c) l =
      (k, IsChain-end files rest s t.last_sequence t.last_hash h hh c l)

  same_point :
      (q : ℕ) (p : String) (h : ℕ) (hh : String)
      → ◌≡◌ {A = Option (ℕ × String)} (some (q, p)) (some (h, hh))
      → (q ≡ h) × (p ≡ hh)
  same_point q p h hh e =
      let pair : ◌≡◌ {A = ℕ × String} (q, p) (h, hh) = some-injective _ _ e in
      (ap (λ x. x.0) pair, ap (λ x. x.1) pair)

  check_lines-end :
      (lines : List Line) (e : Entry) (q : ℕ) (p : String) (h : ℕ) (hh : String)
      → check_lines digest encoded is_digest lines q p ≡ some (h, hh)
      → follows digest encoded is_digest h hh e ≡ true
      → check_lines digest encoded is_digest (lines ++ entry e ∷ []) q p ≡ some (e.sequence, e.hash)
  unfolding check_lines
  check_lines-end [] e q p h hh c f =
      let (a, b) = same_point q p h hh c in
      let same : follows digest encoded is_digest q p e ≡ true = rw (a, b) f in rw same refl
  check_lines-end (malformed ∷ lines) e q p h hh c f = cc
  check_lines-end (entry x ∷ lines) e q p h hh c f =
      elim (Bool-cases (follows digest encoded is_digest q p x)) [
        | inl y ↦ rw y (check_lines-end lines e x.sequence x.hash h hh (rw y at c) f)
        | inr n ↦ cc (rw n at c)
      ]

  -- Where the lines of a sound file end.
  pub ends_at-point :
      (s : Segment) (o : Option (ℕ × String))
      → ends_at digest encoded is_digest s o ≡ true
      → o ≡ some (s.last_sequence, s.last_hash)
  ends_at-point s none h = cc
  ends_at-point s (some (q, p)) h =
      let a : q ≡ s.last_sequence = ground arith in
      let b : p ≡ s.last_hash = (eq_iff p s.last_hash).0 (ground arith) in rw (a, b) refl

  -- The segment with the entry's end.
  abbrev pub ended : Segment → Entry → Segment
  ended s e = record s { last_sequence = e.sequence; last_hash = e.hash }

  ends_at-ended :
      (s : Segment) (e : Entry)
      → ends_at digest encoded is_digest (ended s e) (some (e.sequence, e.hash)) ≡ true
  ends_at-ended s e = ground (arith, eq_iff e.hash e.hash)

  is_empty-end :
      (lines : List Line) (x : Line) → is_empty digest encoded is_digest (lines ++ x ∷ []) ≡ false
  is_empty-end [] x = refl
  is_empty-end (y ∷ lines) x = refl

  -- A line that follows the end of a sound file leaves a sound file.
  pub sound_file-with_line :
      (s : Segment) (f : SegmentFile) (e : Entry) (q : ℕ) (p : String) (bytes : ℕ)
      → f.is_private ≡ true
      → f.is_whole ≡ true
      → f.size + bytes ≤ segment_bytes
      → check_lines digest encoded is_digest f.lines q p ≡ some (s.last_sequence, s.last_hash)
      → follows digest encoded is_digest s.last_sequence s.last_hash e ≡ true
      → sound_file digest encoded is_digest (ended s e) q p (some (with_line e bytes f)) ≡ true
  sound_file-with_line s f e q p bytes private whole fits lines next =
      let small : leb (f.size + bytes) segment_bytes ≡ true = ground arith in
      rw
        (
          private,
          small,
          whole,
          is_empty-end f.lines (entry e),
          check_lines-end f.lines e q p _ _ lines next,
        )
        (ends_at-ended s e)
