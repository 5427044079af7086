-- ===== src/Samples/Reduction.antt =====
-- `DDMin` of internal/experiment/ddmin.go on four items of which two are needed.
use worldbisect.Prelude.{
  ℕ, suc, arith, ◌≤◌, String, ◌≡◌, refl, ◌⊎◌, Bool, true, false, ◌&&◌, none, List, [], ◌∷◌, ◌||◌,
  str_eq, IsSubsequence,
}
use worldbisect.Ddmin.{
  Verdict, verdict, Minimized, Outcome, returned, panicked, out_of_fuel, ddmin, split, subtract,
}
use worldbisect.Ddmin.Calls.{Calls, Called}
use worldbisect.Ddmin.Result.{OneMinimal}
use worldbisect.Ddmin.Minimal.{ddmin-returns, ddmin-OneMinimal}

abbrev items : List String
items = "a" ∷ "b" ∷ "c" ∷ "d" ∷ []

abbrev contains : String → List String → Bool
contains x [] = false
contains x (y ∷ ys) = str_eq x y || contains x ys

-- The test counts its calls.
unfoldable needs_a_and_d : List String → ℕ → Verdict String × ℕ
needs_a_and_d c n = (verdict (contains "a" c && contains "d" c), suc n)

abbrev no_result : Minimized ℕ String
no_result = record { current = []; experiments = 0; error = none; state = 0 }

abbrev result_of : Outcome ℕ String → Minimized ℕ String
result_of (returned m) = m
result_of panicked = no_result
result_of out_of_fuel = no_result

abbrev result : Minimized ℕ String
result = result_of (ddmin needs_a_and_d items 40 0)

reduced_items : result.current ≡ "a" ∷ "d" ∷ []
unfolding ddmin split subtract needs_a_and_d
reduced_items = refl

ddmin-returns_example :
    (m : Minimized ℕ String) × (ddmin needs_a_and_d items 40 0 ≡ returned m)
    × (m.experiments ≤ 40)
    × IsSubsequence m.current items
    × Calls needs_a_and_d m.state 0
    × ((m.current ≡ items) ⊎ Called needs_a_and_d 0 m.state m.current (verdict true))
ddmin-returns_example = ddmin-returns needs_a_and_d items 40 0

ddmin-OneMinimal_example :
    OneMinimal (λ c. Called needs_a_and_d 0 result.state c (verdict false)) result.current
unfolding ddmin split subtract needs_a_and_d
ddmin-OneMinimal_example = ddmin-OneMinimal needs_a_and_d items 40 0 result refl refl (omega arith)
