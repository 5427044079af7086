-- ===== src/Store/CacheBounds.antt =====
-- `pruneExperimentCacheLocked` of internal/store/experiment_cache.go: what it leaves of the cache.
use worldbisect.Prelude.{
  Bool, ℕ, ◌+◌, ◌-◌, ◌≤◌, String, ◌≡◌, refl, sym, ap, ◌∙◌, subst, ◌⊎◌, inl, inr, true, false, some,
  List, [], ◌∷◌, ◌||◌, leb, ltb, str_eq, eq_iff, arith, Bool-cases, Option-cases,
}
use worldbisect.Prelude.Exec.{◌>>◌, Ensures, Ensures-bind, Ensures-pure, ok-injective}
use worldbisect.Prelude.Files.{
  lookup, erase, names, sort_names, Member, first, later, names-lookup, Member-sort_names,
  lookup-erase,
}
use worldbisect.Prelude.Weights.{
  AreDistinct, weight, shares, share_found, erase-AreDistinct, weight-erase, shares-AreDistinct,
  weight-only,
}
use worldbisect.Store.Disk.{fails, CacheFile, Disk, Io, io}
use worldbisect.Store.CacheFiles.{
  max_experiment_cache_bytes, cache_file, size_of, remove_cache, cache_names, total_from,
  prune_from, prune,
}

abbrev pub size : CacheFile → ℕ
size f = f.size

io-cache : (d : Disk) → (io d).1.cache ≡ d.cache
unfolding io
io-cache d = ground arith

-- After a call that went well, the files of the cache are as before.
pub after_io :
    {A : Type 0} (f : Io A) (d : Disk) (Q : A → Disk → Type 0)
    → ((e : Disk) → e.cache ≡ d.cache → Ensures f e Q)
    → Ensures (do io; f) d Q
after_io f d Q h = Ensures-bind io (λ _. f) d Q (λ _ _. h (io d).1 (io-cache d))

abbrev HasSize : String → Disk → ℕ → Disk → Type 0
HasSize name d n e =
    (f : CacheFile) × (lookup name d.cache ≡ some f) × (f.size ≡ n) × (e.cache ≡ d.cache)

size_of-HasSize : (name : String) (d : Disk) → Ensures (size_of name) d (HasSize name d)
unfolding size_of
size_of-HasSize name d = after_io _ d (HasSize name d) (λ e same.
    elim (Option-cases (lookup name e.cache)) [
      | inl p ↦ rw p (λ n h. cc)
      | inr (f, p) ↦
          rw p (λ n h. (f, subst (λ c. lookup name c ≡ some f) same p, ok-injective h, same))
    ])

cache_names-sorted :
    (d : Disk)
    → fails 0 d.faults ≡ false
    → Ensures cache_names d (λ xs e. (xs ≡ sort_names (names d.cache)) × (e.cache ≡ d.cache))
unfolding cache_names io
cache_names-sorted d works = go d.faults works
  where
    go :
        (faults : List Bool)
        → fails 0 faults ≡ false
        → Ensures cache_names
            (record d { faults = faults })
            (λ xs e. (xs ≡ sort_names (names d.cache)) × (e.cache ≡ d.cache))
    go [] w xs h = (sym (ok-injective h), refl)
    go (true ∷ rest) w xs h = cc w
    go (false ∷ rest) w xs h = (sym (ok-injective h), refl)

total_from-shares :
    (xs : List String) (total : ℕ) (d : Disk)
    → Ensures
        (total_from xs total)
        d
        (λ n e. (n ≡ total + shares size d.cache xs) × (e.cache ≡ d.cache))
unfolding total_from
total_from-shares [] total d = λ n h. (omega (arith, ok-injective h), refl)
total_from-shares (name ∷ rest) total d =
    Ensures-bind (size_of name) (λ k. total_from rest (total + k)) d
      (λ n e. (n ≡ total + shares size d.cache (name ∷ rest)) × (e.cache ≡ d.cache))
      (λ k r n h.
        let (f, found, is, same) = size_of-HasSize name d k r in
        let (eq, same2) = total_from-shares rest (total + k) (size_of name d).1 n h in
        let moved : shares size (size_of name d).1.cache rest ≡ shares size d.cache rest =
          ap (λ c. shares size c rest) same in
        (omega (arith, eq, moved, is, share_found size d.cache name found), same2 ∙ same))

remove_cache-erase :
    (name : String) (d : Disk) → Ensures (remove_cache name) d (λ _ e. e.cache ≡ erase name d.cache)
unfolding remove_cache
remove_cache-erase name d =
    after_io _ d (λ _ e. e.cache ≡ erase name d.cache) (λ e same _ h. ap (erase name) same)

-- What holds between the steps of the pruning loop, with the names that are left.
record IsPruning (own : String) (file : CacheFile) (rest : List String) (total : ℕ) (d : Disk)
    : Type 0 where
  distinct : AreDistinct d.cache
  counted : total ≡ weight size d.cache
  kept : lookup own d.cache ≡ some file
  covered :
      (total ≤ max_experiment_cache_bytes)
      ⊎ ((n : String) (f : CacheFile) → lookup n d.cache ≡ some f → (n ≡ own) ⊎ Member n rest)

-- A name that is the own file's, or is gone, need not be visited any more.
narrow :
    {n name own : String} {rest : List String}
    → (n ≡ name → n ≡ own)
    → (n ≡ own) ⊎ Member n (name ∷ rest)
    → (n ≡ own) ⊎ Member n rest
narrow h (inl p) = inl p
narrow h (inr (first p)) = inl (h p)
narrow h (inr (later m)) = inr m

module _ (preserve : String) (file : CacheFile) where
  abbrev pub own : String
  own = cache_file preserve

  -- A name that the loop passes over, since nothing is left to remove or it is the own file's.
  skip_name :
      (name : String) (rest : List String) (total : ℕ) (d : Disk)
      → (leb total max_experiment_cache_bytes || str_eq name own) ≡ true
      → IsPruning own file (name ∷ rest) total d
      → IsPruning own file rest total d
  skip_name name rest total d test i = record {
    distinct = i.distinct;
    counted = i.counted;
    kept = i.kept;
    covered = still_covered (Bool-cases (leb total max_experiment_cache_bytes)) i.covered;
  }
    where
      still_covered :
          (leb total max_experiment_cache_bytes ≡ true)
            ⊎ (leb total max_experiment_cache_bytes ≡ false)
          → (total ≤ max_experiment_cache_bytes)
            ⊎ ((n : String) (f : CacheFile)
                → lookup n d.cache ≡ some f
                → (n ≡ own) ⊎ Member n (name ∷ rest))
          → (total ≤ max_experiment_cache_bytes)
            ⊎ ((n : String) (f : CacheFile) → lookup n d.cache ≡ some f → (n ≡ own) ⊎ Member n rest)
      still_covered (inl p) c = inl (ground arith)
      still_covered (inr p) (inl c) = inl c
      still_covered (inr p) (inr c) =
          inr (λ n f q. narrow (λ same. same ∙ (eq_iff name own).0 (ground arith)) (c n f q))

  remove_name :
      (name : String) (rest : List String) (total : ℕ) (d e : Disk) (f : CacheFile)
      → (leb total max_experiment_cache_bytes || str_eq name own) ≡ false
      → lookup name d.cache ≡ some f
      → e.cache ≡ erase name d.cache
      → IsPruning own file (name ∷ rest) total d
      → IsPruning own file rest (total - f.size) e
  remove_name name rest total d e f test found erased i = record {
    distinct = rw erased (erase-AreDistinct name d.cache i.distinct);
    counted =
        rw erased (omega (arith, weight-erase size name f d.cache i.distinct found, i.counted));
    kept = rw erased (ground (arith, lookup-erase name own d.cache, i.kept));
    covered = still_covered i.covered;
  }
    where
      still_covered :
          (total ≤ max_experiment_cache_bytes)
            ⊎ ((n : String) (g : CacheFile)
                → lookup n d.cache ≡ some g
                → (n ≡ own) ⊎ Member n (name ∷ rest))
          → (total - f.size ≤ max_experiment_cache_bytes)
            ⊎ ((n : String) (g : CacheFile) → lookup n e.cache ≡ some g → (n ≡ own) ⊎ Member n rest)
      still_covered (inl c) = inl (omega arith)
      still_covered (inr c) = inr (λ n g q.
          let there : lookup n (erase name d.cache) ≡ some g =
            subst (λ m. lookup n m ≡ some g) erased q in
          narrow (λ same. ground (arith, lookup-erase name n d.cache, eq_iff name n))
            (c n g (ground (arith, lookup-erase name n d.cache))))

  prune_from-IsPruning :
      (rest : List String) (total : ℕ) (d : Disk)
      → IsPruning own file rest total d
      → Ensures (prune_from preserve rest total) d (λ left e. IsPruning own file [] left e)
  unfolding prune_from
  prune_from-IsPruning [] total d i =
      Ensures-pure total d (λ left e. IsPruning own file [] left e) i
  prune_from-IsPruning (name ∷ rest) total d i =
      elim (Bool-cases (leb total max_experiment_cache_bytes || str_eq name own)) [
        | inl p ↦ rw p (prune_from-IsPruning rest total d (skip_name name rest total d p i))
        | inr p ↦ rw p (
            Ensures-bind (size_of name) _ d (λ left e. IsPruning own file [] left e)
              (λ k r.
                let (f, found, is, same) = size_of-HasSize name d k r in
                let e : Disk = (size_of name d).1 in
                Ensures-bind (remove_cache name) _ e (λ left e. IsPruning own file [] left e)
                  (λ u s. prune_from-IsPruning rest (total - k) (remove_cache name e).1 (
                    subst (λ n. IsPruning own file rest (total - n) (remove_cache name e).1) is
                      (remove_name name rest total d (remove_cache name e).1 f p found
                        (remove_cache-erase name e u s ∙ ap (erase name) same) i)))))
      ]

  -- What `prune` leaves.
  pub record IsWithin (d : Disk) : Type 0 where
    pub distinct : AreDistinct d.cache
    pub bounded : weight size d.cache ≤ max_experiment_cache_bytes
    pub stored : lookup own d.cache ≡ some file

  IsPruning-IsWithin :
      (left : ℕ) (d : Disk)
      → file.size ≤ max_experiment_cache_bytes
      → IsPruning own file [] left d
      → (left ≤ max_experiment_cache_bytes) × IsWithin d
  IsPruning-IsWithin left d small i = (
    omega (arith, fits, i.counted),
    record { distinct = i.distinct; bounded = fits; stored = i.kept },
  )
    where
      bound :
          (left ≤ max_experiment_cache_bytes)
            ⊎ ((n : String) (f : CacheFile) → lookup n d.cache ≡ some f → (n ≡ own) ⊎ Member n [])
          → weight size d.cache ≤ max_experiment_cache_bytes
      bound (inl c) = omega (arith, i.counted)
      bound (inr c) = omega (
        arith,
        weight-only size own file d.cache i.distinct i.kept
            (λ n f q. elim (c n f q) [ inl e ↦ e | inr m ↦ elim m [ ] ]),
      )

      fits : weight size d.cache ≤ max_experiment_cache_bytes
      fits = bound i.covered

  start-IsPruning :
      (d e : Disk) (paths : List String) (total : ℕ)
      → AreDistinct d.cache
      → lookup own d.cache ≡ some file
      → paths ≡ sort_names (names d.cache)
      → e.cache ≡ d.cache
      → total ≡ 0 + shares size d.cache paths
      → IsPruning own file paths total e
  start-IsPruning d e paths total distinct found listed same summed = record {
    distinct = rw same distinct;
    counted = rw same (
        summed
        ∙ omega (arith, ap (shares size d.cache) listed, shares-AreDistinct size d.cache distinct));
    kept = rw same found;
    covered = inr (λ n f q. inr (
        subst (Member n) (sym listed) (
          Member-sort_names (names d.cache)
            (names-lookup n d.cache (subst (λ c. lookup n c ≡ some f) same q)))));
  }

  pub prune-IsWithin :
      (d : Disk)
      → fails 0 d.faults ≡ false
      → file.size ≤ max_experiment_cache_bytes
      → AreDistinct d.cache
      → lookup own d.cache ≡ some file
      → Ensures (prune preserve) d (λ _ e. IsWithin e)
  unfolding prune
  prune-IsWithin d works small distinct found =
      Ensures-bind cache_names _ d (λ _ e. IsWithin e)
        (λ paths r.
          let d1 : Disk = (cache_names d).1 in
          let (listed, same1) = cache_names-sorted d works paths r in
          Ensures-bind (total_from paths 0) _ d1 (λ _ e. IsWithin e)
            (λ total s.
              let d2 : Disk = (total_from paths 0 d1).1 in
              let (summed, same2) = total_from-shares paths 0 d1 total s in
              Ensures-bind (prune_from preserve paths total) _ d2 (λ _ e. IsWithin e)
                (λ left t.
                  let (fits, within) =
                    IsPruning-IsWithin left (prune_from preserve paths total d2).1 small (
                      prune_from-IsPruning paths total d2
                        (start-IsPruning d d2 paths total distinct found listed (same2 ∙ same1)
                          (subst (λ c. total ≡ 0 + shares size c paths) same1 summed))
                        left t) in
                  let enough : ltb max_experiment_cache_bytes left ≡ false = ground arith in
                  rw enough (λ _ _. within))))
