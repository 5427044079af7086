-- ===== src/Prelude/Weights.antt =====
-- A directory in which no name stands twice, and the sum of a measure over its files.
use Prim.Native.Nat.{ℕ, ◌+◌}
use Prim.Native.String.{String}
use mathlib.Core.Path.{◌≡◌, refl, ap, ◌∙◌, subst}
use mathlib.Core.Logic.{inl, inr}
use mathlib.Core.Bool.{false}
use mathlib.Core.Option.{none, some}
use mathlib.Core.List.{List, [], ◌∷◌}
use native.Mathlib.Omega.{arith}
use text.Mathlib.Text.{◌==◌}
use text.Mathlib.TextEquality.{eq_iff}
use text.Mathlib.TextPositions.{eq_refl}
use worldbisect.Prelude.Tests.{Bool-cases}
use worldbisect.Prelude.Files.{
  Files, lookup, erase, insert, names, insert_name, sort_names, str_le, lookup-erase,
}

-- No name stands twice.
abbrev pub AreDistinct : {V : Type 0} → Files V → Type 0
AreDistinct [] = Unit
AreDistinct ((file, content) ∷ rest) = (lookup file rest ≡ none) × AreDistinct rest

module _ {V : Type 0} where
  lookup-erase_absent :
      (name other : String) (files : Files V)
      → lookup other files ≡ none
      → lookup other (erase name files) ≡ none
  lookup-erase_absent name other files h = ground (arith, lookup-erase name other files)

  lookup-insert_absent :
      (name other : String) (content : V) (files : Files V)
      → (other == name) ≡ false
      → lookup other files ≡ none
      → lookup other (insert name content files) ≡ none
  unfolding lookup insert
  lookup-insert_absent name other content [] p h =
      ground (arith, eq_iff name other, eq_iff other name)
  lookup-insert_absent name other content ((file, old) ∷ rest) p h = ground (
    arith,
    eq_iff file other,
    eq_iff file name,
    eq_iff other name,
    lookup-insert_absent name other content rest p,
  )

  pub erase-AreDistinct :
      (name : String) (files : Files V) → AreDistinct files → AreDistinct (erase name files)
  unfolding erase
  erase-AreDistinct name [] h = tt
  erase-AreDistinct name ((file, content) ∷ rest) h = elim (Bool-cases (file == name)) [
    | inl e ↦ rw (e, AreDistinct) (erase-AreDistinct name rest h.1)
    | inr e ↦
        rw (e, AreDistinct)
          (lookup-erase_absent name file rest h.0, erase-AreDistinct name rest h.1)
  ]

  pub insert-AreDistinct :
      (name : String) (content : V) (files : Files V)
      → AreDistinct files
      → AreDistinct (insert name content files)
  unfolding insert lookup
  insert-AreDistinct name content [] h = (refl, tt)
  insert-AreDistinct name content ((file, old) ∷ rest) h = elim (Bool-cases (file == name)) [
    | inl e ↦ rw (e, AreDistinct) h
    | inr e ↦
        rw (e, AreDistinct)
          (
            lookup-insert_absent name file content rest e h.0,
            insert-AreDistinct name content rest h.1,
          )
  ]

  module _ (size : V → ℕ) where
    -- The sum over the files.
    abbrev pub weight : Files V → ℕ
    weight [] = 0
    weight ((file, content) ∷ rest) = size content + weight rest

    -- What a name adds to it.
    abbrev pub share : Files V → String → ℕ
    share files name = elim (lookup name files) [ none ↦ 0 | some v ↦ size v ]

    pub share_found :
        (files : Files V) (name : String) {v : V}
        → lookup name files ≡ some v
        → share files name ≡ size v
    share_found files name h = ap (λ o. elim o as (λ _. ℕ) [ none ↦ 0 | some v ↦ size v ]) h

    -- The sum over a list of names.
    abbrev pub shares : Files V → List String → ℕ
    shares files [] = 0
    shares files (name ∷ rest) = share files name + shares files rest

    erase_absent :
        (name : String) (files : Files V) → lookup name files ≡ none → erase name files ≡ files
    unfolding lookup erase
    erase_absent name [] h = refl
    erase_absent name ((file, content) ∷ rest) h = ground (arith, erase_absent name rest)

    pub weight-erase :
        (name : String) (content : V) (files : Files V)
        → AreDistinct files
        → lookup name files ≡ some content
        → weight (erase name files) + size content ≡ weight files
    unfolding lookup erase
    weight-erase name content [] d h = cc
    weight-erase name content ((file, old) ∷ rest) d h = elim (Bool-cases (file == name)) [
      | inl e ↦
          let same : old ≡ content = cc (rw e at h) in
          let gone : erase name rest ≡ rest =
            erase_absent name rest
              (subst (λ k. lookup k rest ≡ none) ((eq_iff file name).0 e) d.0) in
          rw (e, gone, same) (omega arith)
      | inr e ↦ rw e (omega (arith, weight-erase name content rest d.1 (rw e at h)))
    ]

    shares-insert_name :
        (files : Files V) (x : String) (xs : List String)
        → shares files (insert_name x xs) ≡ share files x + shares files xs
    unfolding insert_name
    shares-insert_name files x [] = refl
    shares-insert_name files x (y ∷ ys) = elim (Bool-cases (str_le x y)) [
      | inl e ↦ rw e refl
      | inr e ↦ rw e (omega (arith, shares-insert_name files x ys))
    ]

    shares-sort_names :
        (files : Files V) (xs : List String) → shares files (sort_names xs) ≡ shares files xs
    unfolding sort_names
    shares-sort_names files [] = refl
    shares-sort_names files (x ∷ xs) =
        omega (arith, shares-insert_name files x (sort_names xs), shares-sort_names files xs)

    -- Each entry is what its name finds in the directory.
    abbrev AreFound : Files V → Files V → Type 0
    AreFound files [] = Unit
    AreFound files ((file, content) ∷ rest) =
        (lookup file files ≡ some content) × AreFound files rest

    AreFound-cons :
        (file : String) (content : V) (files part : Files V)
        → lookup file files ≡ none
        → AreFound files part
        → AreFound ((file, content) ∷ files) part
    unfolding lookup
    AreFound-cons file content files [] fresh h = tt
    AreFound-cons file content files ((other, v) ∷ part) fresh h = (
      ground (arith, eq_iff file other, h.0, fresh),
      AreFound-cons file content files part fresh h.1,
    )

    AreDistinct-AreFound : (files : Files V) → AreDistinct files → AreFound files files
    unfolding lookup
    AreDistinct-AreFound [] d = tt
    AreDistinct-AreFound ((file, content) ∷ rest) d = (
      rw (eq_refl file) refl,
      AreFound-cons file content rest rest d.0 (AreDistinct-AreFound rest d.1),
    )

    shares-names :
        (files part : Files V) → AreFound files part → shares files (names part) ≡ weight part
    unfolding names
    shares-names files [] h = refl
    shares-names files ((file, content) ∷ part) h =
        omega (arith, share_found files file h.0, shares-names files part h.1)

    -- Each file counts once, in whatever order the names are read.
    pub shares-AreDistinct :
        (files : Files V)
        → AreDistinct files
        → shares files (sort_names (names files)) ≡ weight files
    shares-AreDistinct files d =
        shares-sort_names files (names files)
        ∙ shares-names files files (AreDistinct-AreFound files d)

    -- A directory that holds only this file weighs no more than it.
    pub weight-only :
        (own : String) (content : V) (files : Files V)
        → AreDistinct files
        → lookup own files ≡ some content
        → ((n : String) (v : V) → lookup n files ≡ some v → n ≡ own)
        → weight files ≡ size content
    unfolding lookup
    weight-only own content [] d h only = cc
    weight-only own content ((file, v) ∷ rest) d h only =
        let mine : file ≡ own = only file v (rw (eq_refl file) refl) in
        let same : v ≡ content = ground (arith, eq_iff file own) in
        let none_left : weight rest ≡ 0 = empty rest (λ n w g.
          let k : n ≡ own = only n w (ground (arith, eq_iff file n, d.0)) in ground (arith, d.0)) in
        rw same (omega arith)
      where
        empty :
            (rest : Files V) → ((n : String) (w : V) → lookup n rest ≡ some w → ⊥) → weight rest ≡ 0
        empty [] h = refl
        empty ((n, w) ∷ rest) h = absurd (h n w (rw (eq_refl n) refl))
