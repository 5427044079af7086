-- ===== src/Prelude/Lists.antt =====
-- Lists measured and indexed by native numbers, under the library's names; Go slices `s[a:b]`.
use Prim.Native.Nat.{ℕ, zero, suc, ◌+◌, ◌-◌, ◌≤◌, min}
use mathlib.Core.Path.{◌≡◌, refl, ap}
use mathlib.Core.Logic.{◌⊎◌, inl, inr}
use mathlib.Core.List.{List, [], ◌∷◌, ◌++◌}
use native.Mathlib.Nat.{zero-add, suc-add}
use native.Mathlib.Omega.{arith}

module _ {ℓ} {A : Type ℓ} where
  abbrev pub length : List A → ℕ
  length [] = 0
  length (x ∷ xs) = suc (length xs)

  abbrev pub take : ℕ → List A → List A
  take zero xs = []
  take (suc n) [] = []
  take (suc n) (x ∷ xs) = x ∷ take n xs

  abbrev pub drop : ℕ → List A → List A
  drop zero xs = xs
  drop (suc n) [] = []
  drop (suc n) (x ∷ xs) = drop n xs

  abbrev pub flatten : List (List A) → List A
  flatten [] = []
  flatten (x ∷ xs) = x ++ flatten xs

  pub length-append : (xs ys : List A) → length (xs ++ ys) ≡ length xs + length ys
  length-append [] ys = omega arith
  length-append (x ∷ xs) ys = omega (arith, length-append xs ys)

module _ {ℓ} {A : Type ℓ} where
  -- `s[a:b]`
  abbrev pub slice : List A → ℕ → ℕ → List A
  slice xs a b = take (b - a) (drop a xs)

  -- A predicate that holds of each item.
  abbrev pub All {κ} : (A → Type κ) → List A → Type κ
  All P [] = Unit
  All P (x ∷ xs) = P x × All P xs

  -- Order-preserving selection of items.
  pub data IsSubsequence : List A → List A → Type ℓ where
    done : IsSubsequence [] []
    skip : {xs ys : List A} (y : A) → IsSubsequence xs ys → IsSubsequence xs (y ∷ ys)
    keep : {xs ys : List A} (y : A) → IsSubsequence xs ys → IsSubsequence (y ∷ xs) (y ∷ ys)

module _ {ℓ} {A : Type ℓ} where
  pub length-take : (n : ℕ) (xs : List A) → length (take n xs) ≡ min n (length xs)
  length-take zero xs = omega arith
  length-take (suc n) [] = omega arith
  length-take (suc n) (x ∷ xs) = omega (arith, length-take n xs)

  pub length-drop : (n : ℕ) (xs : List A) → length (drop n xs) ≡ length xs - n
  length-drop zero xs = omega arith
  length-drop (suc n) [] = omega arith
  length-drop (suc n) (x ∷ xs) = omega (arith, length-drop n xs)

  pub take_all : (n : ℕ) (xs : List A) → length xs ≤ n → take n xs ≡ xs
  take_all zero [] h = refl
  take_all zero (x ∷ xs) h = absurd (omega arith)
  take_all (suc n) [] h = refl
  take_all (suc n) (x ∷ xs) h = ap (λ (r : List A). x ∷ r) (take_all n xs (omega arith))

  pub take-append-take : (a b : ℕ) (xs : List A) → take a xs ++ take b (drop a xs) ≡ take (a + b) xs
  take-append-take zero b xs = rw zero-add
  take-append-take (suc a) zero [] = rw suc-add
  take-append-take (suc a) (suc b) [] = rw suc-add
  take-append-take (suc a) b (x ∷ xs) =
      rw suc-add (ap (λ (r : List A). x ∷ r) (take-append-take a b xs))

  pub drop-drop : (a b : ℕ) (xs : List A) → drop a (drop b xs) ≡ drop (b + a) xs
  drop-drop a zero xs = rw zero-add
  drop-drop zero (suc b) [] = rw suc-add
  drop-drop (suc a) (suc b) [] = rw suc-add
  drop-drop a (suc b) (x ∷ xs) = rw suc-add (drop-drop a b xs)

  pub IsSubsequence-refl : (xs : List A) → IsSubsequence xs xs
  IsSubsequence-refl [] = done
  IsSubsequence-refl (x ∷ xs) = keep x (IsSubsequence-refl xs)

  pub IsSubsequence-nil : (xs : List A) → IsSubsequence [] xs
  IsSubsequence-nil [] = done
  IsSubsequence-nil (x ∷ xs) = skip x (IsSubsequence-nil xs)

  pub IsSubsequence-trans :
      {ys zs : List A}
      → IsSubsequence ys zs
      → {xs : List A} → IsSubsequence xs ys
      → IsSubsequence xs zs
  IsSubsequence-trans done p = p
  IsSubsequence-trans (skip z q) p = skip z (IsSubsequence-trans q p)
  IsSubsequence-trans (keep z q) (skip y p) = skip z (IsSubsequence-trans q p)
  IsSubsequence-trans (keep z q) (keep y p) = keep z (IsSubsequence-trans q p)

  pub IsSubsequence-take : (n : ℕ) (xs : List A) → IsSubsequence (take n xs) xs
  IsSubsequence-take zero xs = IsSubsequence-nil xs
  IsSubsequence-take (suc n) [] = done
  IsSubsequence-take (suc n) (x ∷ xs) = keep x (IsSubsequence-take n xs)

  pub IsSubsequence-drop : (n : ℕ) (xs : List A) → IsSubsequence (drop n xs) xs
  IsSubsequence-drop zero xs = IsSubsequence-refl xs
  IsSubsequence-drop (suc n) [] = done
  IsSubsequence-drop (suc n) (x ∷ xs) = skip x (IsSubsequence-drop n xs)

  pub length-IsSubsequence : {xs ys : List A} → IsSubsequence xs ys → length xs ≤ length ys
  length-IsSubsequence done = omega arith
  length-IsSubsequence (skip y p) = omega (arith, length-IsSubsequence p)
  length-IsSubsequence (keep y p) = omega (arith, length-IsSubsequence p)

-- To split on a computed list and keep the equation.
pub List-cases {ℓ} :
    {A : Type ℓ} (xs : List A) → (xs ≡ []) ⊎ ((x : A) × (r : List A) × (xs ≡ x ∷ r))
List-cases [] = inl refl
List-cases (x ∷ r) = inr (x, r, refl)
