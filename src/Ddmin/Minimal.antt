-- ===== src/Ddmin/Minimal.antt =====
-- What `DDMin` (internal/experiment/ddmin.go) promises its caller, for any test function.
use worldbisect.Prelude.{
  ℕ, ◌≤◌, String, ◌≡◌, refl, subst, ◌⊎◌, true, false, none, List, length, IsSubsequence,
}
use worldbisect.Ddmin.{Verdict, verdict, Minimized, Outcome, returned, panicked, out_of_fuel, ddmin}
use worldbisect.Ddmin.Calls.{Calls, Called}
use worldbisect.Ddmin.Result.{IsReduction, Returns, OneMinimal, ddmin-IsReduction}

unfold_returned :
    {S E : Type 0} (P : Minimized S E → Type 0) (o : Outcome S E)
    → Returns P o
    → (m : Minimized S E) × (o ≡ returned m) × P m
unfold_returned P (returned m) h = (m, refl, h)
unfold_returned P panicked h = absurd h
unfold_returned P out_of_fuel h = absurd h

-- Whatever the test function does, `ddmin` returns, neither out of fuel nor by a panic: with at most
-- `budget` experiments, in a state that calls of the test have led to, and with a subsequence of the
-- items that is all the items, or that one of these calls was on, with a positive verdict.
pub ddmin-returns :
    {S E : Type 0} (test : List String → S → Verdict E × S) (items : List String) (budget : ℕ)
    (s : S)
    → (m : Minimized S E) × (ddmin test items budget s ≡ returned m)
      × (m.experiments ≤ budget)
      × IsSubsequence m.current items
      × Calls test m.state s
      × ((m.current ≡ items) ⊎ Called test s m.state m.current (verdict true))
ddmin-returns test items budget s =
    let (m, runs, r) =
      unfold_returned (IsReduction test s items budget) (ddmin test items budget s)
        (ddmin-IsReduction test items budget s) in
    (m, runs, r.within_budget, r.subsequence, r.calls, r.repaired)

-- When `ddmin` returns two items or more and no error, then dropping any single item gives a list
-- that one of its calls of the test was on, with a negative verdict.
pub ddmin-OneMinimal :
    {S E : Type 0} (test : List String → S → Verdict E × S) (items : List String) (budget : ℕ)
    (s : S) (m : Minimized S E)
    → ddmin test items budget s ≡ returned m
    → m.error ≡ none
    → 2 ≤ length m.current
    → OneMinimal (λ c. Called test s m.state c (verdict false)) m.current
ddmin-OneMinimal test items budget s m runs clean long =
    let r : IsReduction test s items budget m =
      subst (Returns (IsReduction test s items budget)) runs
        (ddmin-IsReduction test items budget s) in
    r.minimal clean long
