-- ===== src/Prelude/Files.antt =====
-- A directory of typed files: an association list from file names to contents.
use Prim.Native.Nat.{Ordering}
use Prim.Native.String.{String, compare}
use mathlib.Core.Path.{◌≡◌, refl, sym}
use mathlib.Core.Logic.{inl, inr}
use mathlib.Core.Bool.{Bool, true, false}
use mathlib.Core.Option.{Option, none, some}
use mathlib.Core.List.{List, [], ◌∷◌}
use native.Mathlib.Omega.{arith}
use text.Mathlib.Text.{◌==◌}
use text.Mathlib.TextEquality.{eq_iff}
use text.Mathlib.TextPositions.{eq_refl}
use worldbisect.Prelude.Tests.{Bool-cases, if◌then◌else◌}

abbrev pub Files : Type 0 → Type 0
Files V = List (String × V)

module _ {V : Type 0} where
  -- What reading the file of this name gives.
  unfoldable pub lookup : String → Files V → Option V
  lookup name [] = none
  lookup name ((file, content) ∷ rest) = if file == name then some content else lookup name rest

  unfoldable pub erase : String → Files V → Files V
  erase name [] = []
  erase name ((file, content) ∷ rest) =
      if file == name then erase name rest else (file, content) ∷ erase name rest

  -- Writing a file creates it, after the others, or replaces its content.
  unfoldable pub insert : String → V → Files V → Files V
  insert name content [] = (name, content) ∷ []
  insert name content ((file, old) ∷ rest) =
      if file == name then (file, content) ∷ rest else (file, old) ∷ insert name content rest

  unfoldable pub names : Files V → List String
  names [] = []
  names ((file, content) ∷ rest) = file ∷ names rest

  pub lookup-erase :
      (name other : String) (files : Files V)
      → lookup other (erase name files) ≡ (if name == other then none else lookup other files)
  unfolding lookup erase
  lookup-erase name other [] = ground arith
  lookup-erase name other ((file, content) ∷ rest) =
      ground (
        arith,
        lookup-erase name other rest,
        eq_iff file name,
        eq_iff file other,
        eq_iff name other,
      )

  pub lookup-insert :
      (name other : String) (content : V) (files : Files V)
      → lookup other (insert name content files)
        ≡ (if name == other then some content else lookup other files)
  unfolding lookup insert
  lookup-insert name other content [] = refl
  lookup-insert name other content ((file, old) ∷ rest) = ground (
    arith,
    lookup-insert name other content rest,
    eq_iff name other,
    eq_iff file name,
    eq_iff file other,
  )

  pub lookup-insert_self :
      (name : String) (content : V) (files : Files V)
      → lookup name (insert name content files) ≡ some content
  lookup-insert_self name content files = simp (lookup-insert, eq_refl)

-- Go orders texts by their bytes.
abbrev pub str_le : String → String → Bool
str_le a b = elim (compare a b) [ Ordering.gt ↦ false | _ ↦ true ]

unfoldable pub insert_name : String → List String → List String
insert_name x [] = x ∷ []
insert_name x (y ∷ ys) = if str_le x y then x ∷ y ∷ ys else y ∷ insert_name x ys

-- `sort.Strings`
unfoldable pub sort_names : List String → List String
unfolding insert_name
sort_names [] = []
sort_names (x ∷ xs) = insert_name x (sort_names xs)

-- The name occurs in the list.
pub data Member (x : String) : List String → Type 0 where
  first : {y : String} {ys : List String} → x ≡ y → Member x (y ∷ ys)
  later : {y : String} {ys : List String} → Member x ys → Member x (y ∷ ys)

Member-insert_name :
    {x : String} (y : String) {xs : List String} → Member x (y ∷ xs) → Member x (insert_name y xs)
unfolding insert_name
Member-insert_name y {xs = []} m = m
Member-insert_name y {xs = z ∷ xs} m = elim (Bool-cases (str_le y z)) [
  | inl e ↦ rw e m
  | inr e ↦ rw e (swap m (λ q. Member-insert_name y q))
]
  where
    swap :
        {x : String}
        → Member x (y ∷ z ∷ xs)
        → (Member x (y ∷ xs) → Member x (insert_name y xs))
        → Member x (z ∷ insert_name y xs)
    swap (first p) go = later (go (first p))
    swap (later (first p)) go = first p
    swap (later (later q)) go = later (go (later q))

-- Sorting loses no name.
pub Member-sort_names : {x : String} (xs : List String) → Member x xs → Member x (sort_names xs)
unfolding sort_names
Member-sort_names [] q = elim q [ ]
Member-sort_names (y ∷ ys) (first p) = Member-insert_name y (first p)
Member-sort_names (y ∷ ys) (later q) = Member-insert_name y (later (Member-sort_names ys q))

-- A file that is there is listed.
pub names-lookup :
    {V : Type 0} (k : String) (m : Files V) {v : V} → lookup k m ≡ some v → Member k (names m)
unfolding lookup names
names-lookup k [] h = cc
names-lookup k ((j, w) ∷ m) h = elim (Bool-cases (j == k)) [
  | inl e ↦ first (sym ((eq_iff j k).0 e))
  | inr e ↦ later (names-lookup k m (rw e at h))
]
