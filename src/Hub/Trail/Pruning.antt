-- ===== src/Hub/Trail/Pruning.antt =====
-- `pruned` of internal/hub/audit.go: what stays is a chain from the new anchor.
use worldbisect.Prelude.{
  ℕ, ◌≤◌, String, ◌≡◌, refl, ◌∙◌, inl, inr, Bool, true, false, none, List, [], ◌∷◌, ◌||◌, ltb, ◌==◌,
  if◌then◌else◌, arith, Bool-cases, length,
}
use worldbisect.Hub.Trail.{Entry, Segment, find, remove, prune_segments, max_segments, is_expired}
use worldbisect.Hub.Trail.Checkpoint.{has_number, names_of, valid_hash}
use worldbisect.Hub.Trail.Chain.{SegmentFiles, IsChain, IsChain-frame, find-remove}

-- The files without those of these names.
abbrev pub remove_all : List ℕ → SegmentFiles → SegmentFiles
remove_all [] files = files
remove_all (n ∷ rest) files = remove_all rest (remove n files)

pub find-remove_all :
    (n : ℕ) (names : List ℕ) (files : SegmentFiles)
    → find n (remove_all names files) ≡ (if has_number n names then none else find n files)
find-remove_all n [] files = refl
find-remove_all n (k ∷ rest) files =
    ground (arith, find-remove_all n rest (remove k files), find-remove n k files)

module _ (digest : Entry → String) (encoded : Entry → ℕ) (is_digest : String → Bool)
    (retention now : ℕ) where
  -- What the loop of `pruned` returns, of a chain.
  pub record IsPruned (files : SegmentFiles) (segments : List Segment) (q : ℕ) (p : String) (h : ℕ)
      (hh : String) (result : (ℕ × String) × List Segment × List ℕ) : Type 0 where
    pub chain :
        IsChain digest encoded is_digest
          (remove_all result.2 files)
          result.1
          result.0.0
          result.0.1
          h
          hh
    pub forward : q ≤ result.0.0
    pub hashed : valid_hash digest encoded is_digest result.0.0 result.0.1 ≡ true
    pub fits : length result.1 ≤ max_segments
    pub split :
        (n : ℕ)
        → has_number n (names_of digest encoded is_digest segments)
          ≡ (has_number n result.2 || has_number n (names_of digest encoded is_digest result.1))

  pub prune_segments-IsPruned :
      (files : SegmentFiles) (segments : List Segment) (q : ℕ) (p : String) (h : ℕ) (hh : String)
      → IsChain digest encoded is_digest files segments q p h hh
      → valid_hash digest encoded is_digest q p ≡ true
      → IsPruned files segments q p h hh (prune_segments retention now segments q p)
  unfolding prune_segments
  prune_segments-IsPruned files [] q p h hh c v = record {
    chain = c;
    forward = omega arith;
    hashed = v;
    fits = omega arith;
    split = λ n. refl;
  }
  prune_segments-IsPruned files (s ∷ rest) q p h hh (l, c) v =
      elim (Bool-cases
        (ltb max_segments (length (s ∷ rest)) || is_expired retention now s.created_at)) [
          | inr stay ↦ rw (stay) (record {
            chain = (l, c);
            forward = omega arith;
            hashed = v;
            fits = ground arith;
            split = λ n. refl;
          })
          | inl out ↦
              let nonzero : (s.last_sequence == 0) ≡ false = ground (arith, l.grows) in
              let r =
                prune_segments-IsPruned (remove s.name files) rest s.last_sequence s.last_hash h hh
                  (IsChain-frame digest encoded is_digest files (remove s.name files) rest
                    s.last_sequence s.last_hash h hh
                    (λ n above below.
                      let other : (s.name == n) ≡ false = ground (arith, l.named, l.grows) in
                      find-remove n s.name files ∙ rw other refl)
                    c)
                  (rw nonzero l.hashed) in
              rw (out) (record {
                chain = r.chain;
                forward = omega (arith, l.grows, r.forward);
                hashed = r.hashed;
                fits = r.fits;
                split = λ n. ground (arith, r.split n);
              })
        ]
