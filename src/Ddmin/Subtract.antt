-- ===== src/Ddmin/Subtract.antt =====
-- `subtract` of internal/experiment/ddmin.go: multiset difference that keeps the order.
use worldbisect.Prelude.{
  ℕ, ◌+◌, ◌-◌, String, ◌≡◌, refl, ap, ◌≢◌, List, [], ◌∷◌, ◌++◌, arith, ltb, str_eq, eq_iff,
  if◌then◌else◌, All, IsSubsequence, done, skip, keep, Bool-cases, inl, inr,
}
use worldbisect.Ddmin.{Counts, count_items, keep_uncounted, subtract}

-- How often a text occurs.
abbrev pub count : String → List String → ℕ
count a [] = 0
count a (x ∷ xs) = if str_eq a x then count a xs + 1 else count a xs

count_items_lem :
    (items : List String) (set : Counts) (a : String)
    → count_items items set a ≡ set a + count a items
unfolding count_items
count_items_lem [] set a = omega arith
count_items_lem (x ∷ xs) set a =
    ground (arith, count_items_lem xs (λ key. if str_eq key x then set key + 1 else set key) a)

count-keep_uncounted :
    (items : List String) (set : Counts) (a : String)
    → count a (keep_uncounted items set) ≡ count a items - set a
unfolding keep_uncounted
count-keep_uncounted [] set a = omega arith
count-keep_uncounted (x ∷ xs) set a = ground (
  arith,
  eq_iff a x,
  count-keep_uncounted xs set a,
  count-keep_uncounted xs (λ key. if str_eq key x then set key - 1 else set key) a,
)

-- Every item is left as often as it occurs more often in `all` than in `subset`.
pub count-subtract :
    (all subset : List String) (a : String)
    → count a (subtract all subset) ≡ count a all - count a subset
unfolding subtract
count-subtract all subset a = omega (
  arith,
  count-keep_uncounted all (count_items subset (λ key. 0)) a,
  count_items_lem subset (λ key. 0) a,
)

keep_uncounted-IsSubsequence :
    (items : List String) (set : Counts) → IsSubsequence (keep_uncounted items set) items
unfolding keep_uncounted
keep_uncounted-IsSubsequence [] set = done
keep_uncounted-IsSubsequence (x ∷ xs) set = elim (Bool-cases (ltb 0 (set x))) [
  | inl p ↦ rw p (skip x (keep_uncounted-IsSubsequence xs _))
  | inr p ↦ rw p (keep x (keep_uncounted-IsSubsequence xs set))
]

pub subtract-IsSubsequence : (all subset : List String) → IsSubsequence (subtract all subset) all
unfolding subtract
subtract-IsSubsequence all subset = keep_uncounted-IsSubsequence all _

keep_uncounted-zero :
    (items : List String) (set : Counts)
    → ((a : String) → set a ≡ 0)
    → keep_uncounted items set ≡ items
unfolding keep_uncounted
keep_uncounted-zero [] set h = refl
keep_uncounted-zero (x ∷ xs) set h =
    rw (h x) (ap (λ (r : List String). x ∷ r) (keep_uncounted-zero xs set h))

keep_uncounted-one :
    (x : String) (xs ys : List String) (set : Counts)
    → ((a : String) → set a ≡ (if str_eq a x then 1 else 0))
    → All (λ y. x ≢ y) xs
    → keep_uncounted (xs ++ x ∷ ys) set ≡ xs ++ ys
unfolding keep_uncounted
keep_uncounted-one x [] ys set h fresh =
    let one : set x ≡ 1 = ground (arith, h x, eq_iff x x) in
    rw one (keep_uncounted-zero ys _ (λ a. ground (arith, h a)))
keep_uncounted-one x (y ∷ xs) ys set h fresh =
    let absent : set y ≡ 0 = ground (arith, h y, eq_iff y x, fresh.0) in
    rw absent (ap (λ (r : List String). y ∷ r) (keep_uncounted-one x xs ys set h fresh.1))

-- Subtracting one item drops its first occurrence.
pub subtract_one :
    (x : String) (xs ys : List String)
    → All (λ y. x ≢ y) xs
    → subtract (xs ++ x ∷ ys) (x ∷ []) ≡ xs ++ ys
unfolding subtract
subtract_one x xs ys fresh = keep_uncounted-one x xs ys _ (λ a. ground arith) fresh
