-- ===== src/Hub/Trail/Growth.antt =====
-- How the segments of internal/hub/audit.go grow by an entry, and how they are pruned.
use worldbisect.Prelude.{
  ℕ, ◌+◌, ◌≤◌, ◌<◌, String, ◌≡◌, refl, sym, ap, ◌∙◌, subst, Bool, true, false, none, some, List, [],
  ◌∷◌, ◌++◌, ◌==◌, arith,
}
use mathlib.Core.Option.{some-injective}
use worldbisect.Hub.Trail.{
  Entry, Segment, SegmentFile, find, replace, last_segment, advance, segment_bytes, with_line,
  empty_segment,
}
use worldbisect.Hub.Trail.Checkpoint.{follows, check_lines, sound_file}
use worldbisect.Hub.Trail.Chain.{
  SegmentFiles, Link, IsChain, IsChain-frame, IsChain-end, find-replace, find-end, ends_at-point,
  ended, sound_file-with_line,
}

module _ (digest : Entry → String) (encoded : Entry → ℕ) (is_digest : String → Bool) where
  last_after :
      (files : SegmentFiles) (segments : List Segment) (s : Segment) (q : ℕ) (p : String) (h : ℕ)
      (hh : String)
      → IsChain digest encoded is_digest files segments q p h hh
      → last_segment segments ≡ some s
      → q < s.name
  unfolding last_segment
  last_after files [] s q p h hh c e = cc
  last_after files (t ∷ []) s q p h hh (l, c) e =
      let same : t.name ≡ s.name = ap (λ (k : Segment). k.name) (some-injective _ _ e) in
      omega (arith, l.named, same)
  last_after files (t ∷ u ∷ rest) s q p h hh (l, c) e =
      omega (arith, l.grows, last_after files (u ∷ rest) s t.last_sequence t.last_hash h hh c e)

  -- The next entry, at the end of a chain.
  pub record IsNext (h : ℕ) (hh : String) (e : Entry) : Type 0 where
    pub follows_on : follows digest encoded is_digest h hh e ≡ true
    pub hashed : is_digest e.hash ≡ true

  IsNext-sequence : (h : ℕ) (hh : String) (e : Entry) → IsNext h hh e → e.sequence ≡ h + 1
  IsNext-sequence h hh e n = ground (arith, n.follows_on)

  grown-Link :
      (files : SegmentFiles) (s : Segment) (q : ℕ) (p : String) (f : SegmentFile) (e : Entry)
      (bytes : ℕ)
      → Link digest encoded is_digest files s q p
      → find s.name files ≡ some f
      → IsNext s.last_sequence s.last_hash e
      → f.size + bytes ≤ segment_bytes
      → Link digest encoded is_digest
          (replace s.name (with_line e bytes f) files)
          (ended digest encoded is_digest s e)
          q
          p
  grown-Link files s q p f e bytes l found n fits =
      let mine : l.file ≡ f = some-injective _ _ (sym l.there ∙ found) in
      let sound : sound_file digest encoded is_digest s q p (some f) ≡ true =
        subst (λ g. sound_file digest encoded is_digest s q p (some g) ≡ true) mine l.sound in
      let lines =
        ends_at-point digest encoded is_digest s (check_lines digest encoded is_digest f.lines q p)
          (ground arith) in
      record {
        named = l.named;
        dated = l.dated;
        grows = omega (arith, l.grows, IsNext-sequence _ _ e n);
        hashed = n.hashed;
        file = with_line e bytes f;
        there = find-replace s.name s.name (with_line e bytes f) files ∙ ground (arith, found);
        sound =
            sound_file-with_line digest encoded is_digest s f e q p bytes (ground arith)
              (ground arith) fits lines n.follows_on;
      }

  -- The current segment takes the entry.
  pub IsChain-advance :
      (files : SegmentFiles) (segments : List Segment) (s : Segment) (q : ℕ) (p : String) (h : ℕ)
      (hh : String) (f : SegmentFile) (e : Entry) (bytes : ℕ)
      → IsChain digest encoded is_digest files segments q p h hh
      → last_segment segments ≡ some s
      → find s.name files ≡ some f
      → IsNext h hh e
      → f.size + bytes ≤ segment_bytes
      → IsChain digest encoded is_digest
          (replace s.name (with_line e bytes f) files)
          (advance segments e.sequence e.hash)
          q
          p
          e.sequence
          e.hash
  unfolding last_segment advance
  IsChain-advance files [] s q p h hh f e bytes c last found n fits = cc
  IsChain-advance files (t ∷ []) s q p h hh f e bytes (l, c) last found n fits =
      let same : t ≡ s = some-injective _ _ last in
      let there : find t.name files ≡ some f =
        subst (λ k. find (Segment.name k) files ≡ some f) (sym same) found in
      let next : IsNext t.last_sequence t.last_hash e =
        subst (λ k. IsNext k t.last_hash e) (sym c.0) (subst (λ k. IsNext h k e) (sym c.1) n) in
      subst
        (λ (k : Segment).
          IsChain digest encoded is_digest (replace k.name (with_line e bytes f) files)
            (ended digest encoded is_digest t e ∷ []) q p e.sequence e.hash)
        same (grown-Link files t q p f e bytes l there next fits, (refl, refl))
  IsChain-advance files (t ∷ u ∷ rest) s q p h hh f e bytes (l, c) last found n fits =
      let after = last_after files (u ∷ rest) s t.last_sequence t.last_hash h hh c last in
      let other : (s.name == t.name) ≡ false = ground (arith, l.named, l.grows) in
      (
        record {
          named = l.named;
          dated = l.dated;
          grows = l.grows;
          hashed = l.hashed;
          file = l.file;
          there = find-replace t.name s.name (with_line e bytes f) files ∙ rw other l.there;
          sound = l.sound;
        },
        IsChain-advance files (u ∷ rest) s t.last_sequence t.last_hash h hh f e bytes c last found n
            fits,
      )

  pub fresh_file :
      (files : SegmentFiles) (segments : List Segment) (q : ℕ) (p : String) (h : ℕ) (hh : String)
      (s : Segment) (e : Entry) (bytes : ℕ)
      → IsChain digest encoded is_digest files segments q p h hh
      → IsNext h hh e
      → s.name ≡ e.sequence
      → s.created_at ≡ e.time
      → find s.name files ≡ none
      → bytes ≤ segment_bytes
      → IsChain digest encoded is_digest
          (replace s.name (with_line e bytes empty_segment) (files ++ (s.name, empty_segment) ∷ []))
          (segments ++ ended digest encoded is_digest s e ∷ [])
          q
          p
          e.sequence
          e.hash
  unfolding check_lines
  fresh_file files segments q p h hh s e bytes c n named dated absent fits =
      let opened : SegmentFiles = files ++ (s.name, empty_segment) ∷ [] in
      let written : SegmentFiles = replace s.name (with_line e bytes empty_segment) opened in
      let number : e.sequence ≡ h + 1 = IsNext-sequence h hh e n in
      let found : find s.name opened ≡ some empty_segment =
        find-end s.name s.name empty_segment files absent ∙ ground arith in
      let first : check_lines digest encoded is_digest [] h hh ≡ some (h, hh) = refl in
      IsChain-end digest encoded is_digest written segments (ended digest encoded is_digest s e) q p
        h hh
        (IsChain-frame digest encoded is_digest files written segments q p h hh
          (λ k above below.
            let other : (s.name == k) ≡ false = ground arith in
            find-replace k s.name (with_line e bytes empty_segment) opened
            ∙ rw other (find-end k s.name empty_segment files absent ∙ rw other refl))
          c)
        (record {
          named = named ∙ number;
          dated = ground (arith, n.follows_on);
          grows = omega (arith, number);
          hashed = n.hashed;
          file = with_line e bytes empty_segment;
          there =
              find-replace s.name s.name (with_line e bytes empty_segment) opened
              ∙ ground (arith, found);
          sound =
              sound_file-with_line digest encoded is_digest
                (record s { last_sequence = h; last_hash = hh }) empty_segment e h hh bytes refl
                refl (omega arith) first n.follows_on;
        })

pub last_segment-end :
    (segments : List Segment) (s : Segment) → last_segment (segments ++ s ∷ []) ≡ some s
unfolding last_segment
last_segment-end [] s = refl
last_segment-end (t ∷ []) s = refl
last_segment-end (t ∷ u ∷ rest) s = last_segment-end (u ∷ rest) s

pub advance-end :
    (segments : List Segment) (s : Segment) (sequence : ℕ) (hash : String)
    → advance (segments ++ s ∷ []) sequence hash
      ≡ segments ++ record s { last_sequence = sequence; last_hash = hash } ∷ []
unfolding advance
advance-end [] s sequence hash = refl
advance-end (t ∷ []) s sequence hash = refl
advance-end (t ∷ u ∷ rest) s sequence hash =
    ap (λ (r : List Segment). t ∷ r) (advance-end (u ∷ rest) s sequence hash)
