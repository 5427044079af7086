-- ===== src/Ddmin/Result.antt =====
-- What a call of `DDMin` (internal/experiment/ddmin.go) returns, by the loops of its rounds.
use worldbisect.Prelude.{
  ℕ, zero, suc, ◌+◌, ◌-◌, ◌≤◌, ◌<◌, min, max, String, ◌≡◌, refl, sym, ap, ◌∙◌, subst, ◌≢◌, ◌⊎◌, inl,
  inr, true, false, Option, none, some, List, [], ◌∷◌, ◌++◌, arith, ltb, leb, Bool-cases, length,
  All, IsSubsequence, IsSubsequence-refl, IsSubsequence-trans, length-append,
}
use worldbisect.Ddmin.{
  DdError, Verdict, verdict, Scan, reduced, none_passed, stopped, Minimized, Outcome, returned,
  panicked, out_of_fuel, after_chunks, after_complements, round, ddmin_loop, ddmin, subtract,
}
use worldbisect.Ddmin.Split.{Chunks, split-Chunks, singles}
use worldbisect.Ddmin.Subtract.{subtract_one}
use worldbisect.Ddmin.Calls.{Calls, done, Calls-trans, Called, Called-before, Called-since}
use worldbisect.Ddmin.Scans.{
  Post, Smaller, Smaller-before, Tried, Tried-before, scan_chunks-Post, scan_complements-Post,
}

-- `current` stops having the property as soon as one item is dropped.
abbrev pub OneMinimal : (List String → Type 0) → List String → Type 0
OneMinimal Failed current =
    (xs : List String) (x : String) (ys : List String)
    → current ≡ xs ++ x ∷ ys
    → All (λ y. x ≢ y) xs
    → Failed (xs ++ ys)

-- What the result of a call from the state `s` says of the calls of the test that it made.
pub record IsReduction {S E : Type 0} (test : List String → S → Verdict E × S) (s : S)
    (items : List String) (budget : ℕ) (m : Minimized S E) : Type 0 where
  pub within_budget : m.experiments ≤ budget
  pub subsequence : IsSubsequence m.current items
  pub calls : Calls test m.state s
  pub repaired : (m.current ≡ items) ⊎ Called test s m.state m.current (verdict true)
  pub minimal :
      m.error ≡ none
      → 2 ≤ length m.current
      → OneMinimal (λ c. Called test s m.state c (verdict false)) m.current

-- The call returns, and its result has the property.
abbrev pub Returns : {S E : Type 0} → (Minimized S E → Type 0) → Outcome S E → Type 0
Returns P (returned m) = P m
Returns P panicked = ⊥
Returns P out_of_fuel = ⊥

singles_at :
    (P : List String → Type 0) (xs : List String) (x : String) (ys : List String)
    → All P (singles (xs ++ x ∷ ys))
    → P (x ∷ [])
singles_at P [] x ys h = h.0
singles_at P (y ∷ xs) x ys h = singles_at P xs x ys h.1

-- When all complements of the finest split have failed, no single item can be dropped.
Tried-OneMinimal :
    {S E : Type 0} (test : List String → S → Verdict E × S) (budget : ℕ) (s t : S)
    (current : List String)
    → 2 ≤ length current
    → All (Tried test budget s t current) (singles current)
    → OneMinimal (λ c. Called test s t c (verdict false)) current
Tried-OneMinimal test budget s t current long tried xs x ys e fresh = conclude (
    singles_at (Tried test budget s t current) xs x ys
      (subst (λ c. All (Tried test budget s t current) (singles c)) e tried))
  where
    left : subtract current (x ∷ []) ≡ xs ++ ys
    left = ap (λ c. subtract c (x ∷ [])) e ∙ subtract_one x xs ys fresh

    size : length current ≡ length (xs ++ ys) + 1
    size = ap length e ∙ omega (arith, length-append xs (x ∷ ys), length-append xs ys)

    conclude : Tried test budget s t current (x ∷ []) → Called test s t (xs ++ ys) (verdict false)
    conclude (inl empty) = absurd (omega (arith, ap length (sym left ∙ empty), size))
    conclude (inr fails) = subst (λ c. Called test s t c (verdict false)) left fails

module _ {S E : Type 0} (test : List String → S → Verdict E × S) (budget : ℕ) (start : S) where
  module _ (items : List String) where
    -- What holds at the head of each round.
    record Inv (current : List String) (n e : ℕ) (s : S) : Type 0 where
      granular : 2 ≤ n
      within : e ≤ budget
      sub : IsSubsequence current items
      path : Calls test s start
      holds : (current ≡ items) ⊎ Called test start s current (verdict true)

    abbrev Good : Minimized S E → Type 0
    Good = IsReduction test start items budget

    later_holds :
        (current : List String) (s t : S)
        → Calls test t s
        → (current ≡ items) ⊎ Called test start s current (verdict true)
        → (current ≡ items) ⊎ Called test start t current (verdict true)
    later_holds current s t p (inl e) = inl e
    later_holds current s t p (inr c) = inr (Called-since test c p)

    -- A stop that claims no minimality.
    stop-Good :
        (current : List String) (n e : ℕ) (x : Option (DdError E)) (s : S)
        → Inv current n e s
        → (x ≡ none
            → 2 ≤ length current
            → OneMinimal (λ c. Called test start s c (verdict false)) current)
        → Good (record { current = current; experiments = e; error = x; state = s })
    stop-Good current n e x s inv min = record {
      within_budget = inv.within;
      subsequence = inv.sub;
      calls = inv.path;
      repaired = inv.holds;
      minimal = min;
    }

    module _ (current : List String) (n e : ℕ) (chunks : List (List String))
        (next : List String → ℕ → ℕ → S → Outcome S E) (s : S) (inv : Inv current n e s)
        (ch : Chunks current n chunks) (long : 2 ≤ length current)
        (go_on : (c : List String) (k e' : ℕ) (t : S)
          → Inv c k e' t
          → e < e'
          → Returns Good (next c k e' t)) where
      reduced-Inv :
          (c : List String) (e' : ℕ) (t : S)
          → e' ≤ budget
          → Calls test t s
          → Smaller test budget s current c t
          → Inv c (max 2 (n - 1)) e' t
      reduced-Inv c e' t fits p (called, sub) = record {
        granular = omega arith;
        within = fits;
        sub = IsSubsequence-trans inv.sub sub;
        path = Calls-trans test inv.path p;
        holds = inr (Called-before test inv.path called);
      }

      later : (k e' : ℕ) (t : S) → 2 ≤ k → e' ≤ budget → Calls test t s → Inv current k e' t
      later k e' t g b p = record {
        granular = g;
        within = b;
        sub = inv.sub;
        path = Calls-trans test inv.path p;
        holds = later_holds current s t p inv.holds;
      }

      after_complements-Good :
          (e1 : ℕ) (u : S) (r : Scan S E)
          → e < e1
          → Calls test u s
          → Post test budget e1 u
              (Smaller test budget u current)
              (λ k t. All (Tried test budget u t current) chunks)
              r
          → Returns Good (after_complements test budget current n next r)
      after_complements-Good e1 u (reduced c e' t) h q (a, b, p, small) =
          go_on c _ e' t
            (reduced-Inv c e' t b (Calls-trans test q p)
              (Smaller-before test budget current c t q small))
            (omega arith)
      after_complements-Good e1 u (stopped x e' t) h q (b, p) =
          stop-Good current n e' (some x) t (later n e' t inv.granular b (Calls-trans test q p))
            (λ k. cc)
      after_complements-Good e1 u (none_passed e' t) h q (a, b, p, tried) =
          elim (Bool-cases (leb (length current) n)) [
            | inl finest ↦
                rw (finest, Returns)
                  (stop-Good current n e' none t
                    (later n e' t inv.granular b (Calls-trans test q p))
                    (λ _ _. Tried-OneMinimal test budget start t current long (
                      subst (All (Tried test budget start t current)) (ch.finest (ground arith)) (
                        Tried-before test budget t current chunks (Calls-trans test inv.path q)
                          tried))))
            | inr coarse ↦
                rw (coarse, Returns)
                  (go_on current _ e' t
                    (later _ e' t (omega (arith, inv.granular)) b (Calls-trans test q p))
                    (omega arith))
          ]

      after_chunks-Good :
          (r : Scan S E)
          → Post test budget e s (Smaller test budget s current) (λ k t. k ≡ e + length chunks) r
          → Returns Good (after_chunks test budget current n chunks next r)
      after_chunks-Good (reduced c e' t) (a, b, p, small) =
          go_on c _ e' t (reduced-Inv c e' t b p small) (omega arith)
      after_chunks-Good (stopped x e' t) (b, p) =
          stop-Good current n e' (some x) t (later n e' t inv.granular b p) (λ k. cc)
      after_chunks-Good (none_passed e' t) (a, b, p, all) =
          after_complements-Good e' t _ (omega (arith, ch.counted, inv.granular)) p
            (scan_complements-Post test budget current chunks e' t b)

    round-Good :
        (current : List String) (n e : ℕ) (s : S) (next : List String → ℕ → ℕ → S → Outcome S E)
        → Inv current n e s
        → 2 ≤ length current
        → ((c : List String) (k e' : ℕ) (t : S)
            → Inv c k e' t
            → e < e'
            → Returns Good (next c k e' t))
        → (chunks : List (List String)) × Chunks current n chunks
        → Returns Good (round test budget current n e s next)
    round-Good current n e s next inv long go_on (chunks, ch) =
        rw (ch.runs, Returns)
          (after_chunks-Good current n e chunks next s inv ch long go_on _
            (scan_chunks-Post test budget current chunks e s ch.subsequences inv.within))

    ddmin_loop-Good :
        (fuel : ℕ) (current : List String) (n e : ℕ) (s : S)
        → Inv current n e s
        → budget < fuel + e
        → Returns Good (ddmin_loop test budget fuel current n e s)
    unfolding ddmin_loop
    ddmin_loop-Good zero current n e s inv enough = absurd (omega arith)
    ddmin_loop-Good (suc fuel) current n e s inv enough =
        elim (Bool-cases (ltb (length current) 2)) [
          | inl short ↦
              rw (short, Returns) (stop-Good current n e none s inv (λ _ l. absurd (ground arith)))
          | inr long ↦ elim (Bool-cases (leb budget e)) [
            | inl full ↦ rw (long, full, Returns) (stop-Good current n e _ s inv (λ k. cc))
            | inr room ↦
                rw (long, room, Returns)
                  (round-Good current n e s (ddmin_loop test budget fuel) inv (ground arith)
                    (λ c k e' t i lt. ddmin_loop-Good fuel c k e' t i (omega arith))
                    (split-Chunks current n (ground arith) (omega (arith, inv.granular))))
          ]
        ]

-- The call returns, and its result has all the properties of `IsReduction`.
pub ddmin-IsReduction :
    {S E : Type 0} (test : List String → S → Verdict E × S) (items : List String) (budget : ℕ)
    (s : S)
    → Returns (IsReduction test s items budget) (ddmin test items budget s)
unfolding ddmin
ddmin-IsReduction test [] budget s = record {
  within_budget = omega arith;
  subsequence = IsSubsequence-refl [];
  calls = done;
  repaired = inl refl;
  minimal = λ _ l. absurd (omega arith);
}
ddmin-IsReduction test (x ∷ xs) budget s =
    ddmin_loop-Good test budget s (x ∷ xs) (suc budget) (x ∷ xs) 2 0 s
      (record {
        granular = omega arith;
        within = omega arith;
        sub = IsSubsequence-refl (x ∷ xs);
        path = done;
        holds = inl refl;
      })
      (omega arith)
