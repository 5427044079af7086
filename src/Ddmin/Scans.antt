-- ===== src/Ddmin/Scans.antt =====
-- The two loops in a round of `DDMin` (internal/experiment/ddmin.go): what they called.
use worldbisect.Prelude.{
  ℕ, ◌+◌, ◌≤◌, ◌<◌, String, ◌≡◌, refl, sym, subst, ◌⊎◌, inl, inr, true, false, List, [], ◌∷◌, arith,
  leb, Bool-cases, length, All, List-cases, IsSubsequence,
}
use worldbisect.Ddmin.{
  Verdict, verdict, failure, Scan, reduced, none_passed, stopped, judge, scan_chunks,
  scan_complements, subtract,
}
use worldbisect.Ddmin.Calls.{Calls, done, Calls-trans, once, Called, Called-before}
use worldbisect.Ddmin.Subtract.{subtract-IsSubsequence}

module _ {S E : Type 0} (test : List String → S → Verdict E × S) (budget : ℕ) where
  -- What a scan from `s` with `e` experiments leads to.
  abbrev pub Post : ℕ → S → (List String → S → Type 0) → (ℕ → S → Type 0) → Scan S E → Type 0
  Post e s P Q (reduced c e' t) = (e < e') × (e' ≤ budget) × Calls test t s × P c t
  Post e s P Q (none_passed e' t) = (e ≤ e') × (e' ≤ budget) × Calls test t s × Q e' t
  Post e s P Q (stopped x e' t) = (e' ≤ budget) × Calls test t s

  Post-weaken :
      {s u : S} {P P' : List String → S → Type 0} {Q Q' : ℕ → S → Type 0} (e e' : ℕ) (r : Scan S E)
      → e ≤ e'
      → Calls test u s
      → ((c : List String) (t : S) → P c t → P' c t)
      → ((k : ℕ) (t : S) → Calls test t u → Q k t → Q' k t)
      → Post e' u P Q r
      → Post e s P' Q' r
  Post-weaken e e' (reduced c k t) le p f g (a, b, q, h) =
      (omega arith, b, Calls-trans test p q, f c t h)
  Post-weaken e e' (none_passed k t) le p f g (a, b, q, h) =
      (omega arith, b, Calls-trans test p q, g k t q h)
  Post-weaken e e' (stopped x k t) le p f g (b, q) = (b, Calls-trans test p q)

  judge-Post :
      {s : S} (P : List String → S → Type 0) (Q : ℕ → S → Type 0) (e : ℕ) (c : List String)
      (v : Verdict E × S) (next : S → Scan S E)
      → e < budget
      → Calls test v.1 s
      → (v.0 ≡ verdict true → P c v.1)
      → (v.0 ≡ verdict false → Post e s P Q (next v.1))
      → Post e s P Q (judge test budget c (e + 1) v next)
  judge-Post P Q e c (verdict true, t) next h p pass fail = (omega arith, omega arith, p, pass refl)
  judge-Post P Q e c (verdict false, t) next h p pass fail = fail refl
  judge-Post P Q e c (failure x, t) next h p pass fail = (omega arith, p)

  -- A candidate that passed, and is part of the current items.
  abbrev pub Smaller : S → List String → List String → S → Type 0
  Smaller s current c t = Called test s t c (verdict true) × IsSubsequence c current

  pub Smaller-before :
      {s u : S} (current c : List String) (t : S)
      → Calls test u s
      → Smaller u current c t
      → Smaller s current c t
  Smaller-before current c t p (called, sub) = (Called-before test p called, sub)

  -- The test was called right here.
  run_here :
      (c : List String) (s t : S) {v : Verdict E}
      → (test c s).0 ≡ v
      → Calls test t (test c s).1
      → Called test s t c v
  run_here c s t h p = record { at = s; before = done; verdict_is = h; since = p }

  pub scan_chunks-Post :
      (current : List String) (chunks : List (List String)) (e : ℕ) (s : S)
      → All (λ c. IsSubsequence c current) chunks
      → e ≤ budget
      → Post e s
          (Smaller s current)
          (λ k t. k ≡ e + length chunks)
          (scan_chunks test budget chunks e s)
  unfolding scan_chunks
  scan_chunks-Post current [] e s subs fits = (omega arith, fits, done, omega arith)
  scan_chunks-Post current (chunk ∷ chunks) e s subs fits = elim (Bool-cases (leb budget e)) [
    | inl p ↦ rw (p, Post) (fits, done)
    | inr p ↦
        rw (p, Post)
          (judge-Post _ _ e chunk (test chunk s) _ (ground arith) (once test chunk s)
            (λ h. (run_here chunk s _ h done, subs.0))
            (λ h.
              Post-weaken e (e + 1) _ (omega arith) (once test chunk s)
                (λ c t. Smaller-before current c t (once test chunk s)) (λ k t q h. omega arith)
                (scan_chunks-Post current chunks (e + 1) (test chunk s).1 subs.1 (ground arith))))
  ]

  -- A complement that the second scan has tried: it was empty and skipped, or its test failed.
  abbrev pub Tried : S → S → List String → List String → Type 0
  Tried s t current chunk =
      (subtract current chunk ≡ []) ⊎ Called test s t (subtract current chunk) (verdict false)

  pub Tried-before :
      {s u : S} (t : S) (current : List String) (chunks : List (List String))
      → Calls test u s
      → All (Tried u t current) chunks
      → All (Tried s t current) chunks
  Tried-before t current [] p h = tt
  Tried-before t current (chunk ∷ chunks) p (inl e, h) = (inl e, Tried-before t current chunks p h)
  Tried-before t current (chunk ∷ chunks) p (inr c, h) =
      (inr (Called-before test p c), Tried-before t current chunks p h)

  pub scan_complements-Post :
      (current : List String) (chunks : List (List String)) (e : ℕ) (s : S)
      → e ≤ budget
      → Post e s
          (Smaller s current)
          (λ k t. All (Tried s t current) chunks)
          (scan_complements test budget current chunks e s)
  unfolding scan_complements
  scan_complements-Post current [] e s fits = (omega arith, fits, done, tt)
  scan_complements-Post current (chunk ∷ chunks) e s fits =
      elim (List-cases (subtract current chunk)) [
        | inl p ↦
            rw (p, Post)
              (Post-weaken e e _ (omega arith) done (λ c t h. h) (λ k t q h. (inl p, h))
                (scan_complements-Post current chunks e s fits))
        | inr (x, r, p) ↦
            let u = (test (x ∷ r) s).1 in
            elim (Bool-cases (leb budget e)) [
              | inl full ↦ rw (p, full, Post) (fits, done)
              | inr room ↦
                  rw (p, room, Post)
                    (judge-Post _ _ e (x ∷ r) (test (x ∷ r) s) _ (ground arith)
                      (once test (x ∷ r) s)
                      (λ h. (
                        run_here (x ∷ r) s _ h done,
                        subst (λ l. IsSubsequence l current) p
                            (subtract-IsSubsequence current chunk),
                      ))
                      (λ h.
                        Post-weaken e (e + 1) _ (omega arith) (once test (x ∷ r) s)
                          (λ c t. Smaller-before current c t (once test (x ∷ r) s))
                          (λ k t q tried. (
                            inr (
                                subst (λ l. Called test s t l (verdict false)) (sym p)
                                  (run_here (x ∷ r) s t h q)),
                            Tried-before t current chunks (once test (x ∷ r) s) tried,
                          ))
                          (scan_complements-Post current chunks (e + 1) u (ground arith))))
            ]
      ]
