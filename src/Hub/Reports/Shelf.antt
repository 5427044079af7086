-- ===== src/Hub/Reports/Shelf.antt =====
-- The reports that a directory holds at a time, whatever else is in it.
use text.Mathlib.TextEquality.{eq_iff}
use text.Mathlib.TextLemmas.{append_cancel_right}
use worldbisect.Prelude.{
  ℕ, ◌≤◌, String, ◌≡◌, refl, sym, ap, subst, ◌∙◌, inl, inr, true, false, Option, none, some, List,
  [], ◌∷◌, ◌++◌, str_eq, if◌then◌else◌, arith, Bool-cases, Option-cases,
}
use worldbisect.Prelude.Files.{Files, lookup, erase, insert, lookup-erase}
use worldbisect.Prelude.Weights.{AreDistinct, erase-AreDistinct}
use worldbisect.Hub.Trail.{is_expired}
use worldbisect.Hub.Reports.{Report, ReportFile, is_temporary, file_name, add}

abbrev pub ReportFiles : Type 0
ReportFiles = Files ReportFile

-- The reports without those of this identifier.
unfoldable pub without : String → List Report → List Report
without id [] = []
without id (r ∷ rs) = if str_eq r.id id then without id rs else r ∷ without id rs

-- A report stands in the file that its identifier names.
abbrev pub IsNamed : String → ReportFile → Type 0
IsNamed name f =
    (r : Report) → f.content ≡ some r → is_temporary name ≡ false → name ≡ file_name r.id

abbrev pub AreNamed : ReportFiles → Type 0
AreNamed [] = Unit
AreNamed ((name, f) ∷ rest) = IsNamed name f × AreNamed rest

-- The files of the first list are in the second.
abbrev pub AreWithin : ReportFiles → ReportFiles → Type 0
AreWithin [] files = Unit
AreWithin ((name, f) ∷ rest) files = (lookup name files ≡ some f) × AreWithin rest files

pub erase-AreWithin :
    (name : String) (todo files : ReportFiles)
    → lookup name todo ≡ none
    → AreWithin todo files
    → AreWithin todo (erase name files)
unfolding lookup
erase-AreWithin name [] files absent w = tt
erase-AreWithin name ((other, f) ∷ rest) files absent w = (
  ground (arith, lookup-erase name other files, eq_iff name other, eq_iff other name, w.0),
  erase-AreWithin name rest files (ground (arith, absent)) w.1,
)

AreWithin-cons :
    (name : String) (f : ReportFile) (todo files : ReportFiles)
    → lookup name todo ≡ none
    → AreWithin todo files
    → AreWithin todo ((name, f) ∷ files)
unfolding lookup
AreWithin-cons name f [] files absent w = tt
AreWithin-cons name f ((other, g) ∷ rest) files absent w = (
  ground (arith, eq_iff name other, eq_iff other name, w.0),
  AreWithin-cons name f rest files (ground (arith, absent)) w.1,
)

pub AreWithin-refl : (files : ReportFiles) → AreDistinct files → AreWithin files files
unfolding lookup
AreWithin-refl [] d = tt
AreWithin-refl ((name, f) ∷ rest) d = (
  ground (arith, eq_iff name name),
  AreWithin-cons name f rest rest d.0 (AreWithin-refl rest d.1),
)

pub erase-AreNamed :
    (name : String) (files : ReportFiles) → AreNamed files → AreNamed (erase name files)
unfolding erase
erase-AreNamed name [] n = tt
erase-AreNamed name ((other, f) ∷ rest) n = elim (Bool-cases (str_eq other name)) [
  | inl e ↦ rw (e, AreNamed) (erase-AreNamed name rest n.1)
  | inr e ↦ rw (e, AreNamed) (n.0, erase-AreNamed name rest n.1)
]

module _ (retention : ℕ) where
  -- The report that a file holds, if it is one that is not over at this time.
  unfoldable pub live : ℕ → String → ReportFile → Option Report
  live now name f = if is_temporary name then none else elim f.content [
    | none ↦ none
    | some r ↦ if is_expired retention now r.created_at then none else some r
  ]

  unfoldable pub shelf : ℕ → ReportFiles → List Report
  unfolding live
  shelf now [] = []
  shelf now ((name, f) ∷ rest) = add (live now name f) (shelf now rest)

  -- Nothing of the file is left from this time on.
  abbrev pub IsDead : ℕ → String → ReportFile → Type 0
  IsDead now name f = (later : ℕ) → now ≤ later → live later name f ≡ none

  -- Some dead files are removed, one after the other.
  pub data Sheds (now : ℕ) : ReportFiles → ReportFiles → Type 0 where
    same : {files : ReportFiles} → Sheds now files files
    gone :
        {files rest : ReportFiles} (name : String) (f : ReportFile)
        → lookup name files ≡ some f
        → IsDead now name f
        → Sheds now (erase name files) rest
        → Sheds now files rest

  shelf-erase_absent :
      (now : ℕ) (name : String) (files : ReportFiles)
      → lookup name files ≡ none
      → shelf now (erase name files) ≡ shelf now files
  unfolding shelf lookup erase
  shelf-erase_absent now name [] h = refl
  shelf-erase_absent now name ((other, f) ∷ rest) h =
      ground (arith, shelf-erase_absent now name rest)

  shelf-erase_dead :
      (now later : ℕ) (name : String) (f : ReportFile) (files : ReportFiles)
      → AreDistinct files
      → lookup name files ≡ some f
      → live later name f ≡ none
      → shelf later (erase name files) ≡ shelf later files
  unfolding shelf lookup erase
  shelf-erase_dead now later name f [] d h e = refl
  shelf-erase_dead now later name f ((other, g) ∷ rest) d h e =
      elim (Bool-cases (str_eq other name)) [
        | inl p ↦
            let same_name : other ≡ name = (eq_iff other name).0 p in
            let dead : live later other g ≡ none = ground (arith, p, h, e, same_name) in
            rw (p, dead)
              (shelf-erase_absent later name rest (subst (λ n. lookup n rest ≡ none) same_name d.0))
        | inr p ↦
            rw (p, shelf)
              (ap (add (live later other g))
                (shelf-erase_dead now later name f rest d.1 (ground (arith, p, h)) e))
      ]

  pub Sheds-AreDistinct :
      {now : ℕ} {files rest : ReportFiles}
      → Sheds now files rest
      → AreDistinct files
      → AreDistinct rest
  Sheds-AreDistinct same d = d
  Sheds-AreDistinct (gone {files} name f h e more) d =
      Sheds-AreDistinct more (erase-AreDistinct name files d)

  pub Sheds-AreNamed :
      {now : ℕ} {files rest : ReportFiles} → Sheds now files rest → AreNamed files → AreNamed rest
  Sheds-AreNamed same n = n
  Sheds-AreNamed (gone {files} name f h e more) n =
      Sheds-AreNamed more (erase-AreNamed name files n)

  pub shelf-Sheds :
      {now : ℕ} {files rest : ReportFiles}
      → Sheds now files rest
      → AreDistinct files
      → (later : ℕ) → now ≤ later
      → shelf later rest ≡ shelf later files
  shelf-Sheds same d later le = refl
  shelf-Sheds {now = now} (gone {files} name f h e more) d later le =
      shelf-Sheds more (erase-AreDistinct name files d) later le
      ∙ shelf-erase_dead now later name f files d h (e later le)

  -- A file with a name for temporary files is not on the shelf.
  pub shelf-insert_temporary :
      (now : ℕ) (name : String) (f : ReportFile) (files : ReportFiles)
      → is_temporary name ≡ true
      → shelf now (insert name f files) ≡ shelf now files
  unfolding shelf live insert
  shelf-insert_temporary now name f [] t = rw t refl
  shelf-insert_temporary now name f ((other, g) ∷ rest) t = elim (Bool-cases (str_eq other name)) [
    | inl p ↦
        let h : is_temporary other ≡ true =
          subst (λ n. is_temporary n ≡ true) (sym ((eq_iff other name).0 p)) t in
        rw (p, shelf, live, h) refl
    | inr p ↦ rw (p, shelf) (ap (add (live now other g)) (shelf-insert_temporary now name f rest t))
  ]

  pub shelf-erase_temporary :
      (now : ℕ) (name : String) (files : ReportFiles)
      → is_temporary name ≡ true
      → shelf now (erase name files) ≡ shelf now files
  unfolding shelf live erase
  shelf-erase_temporary now name [] t = refl
  shelf-erase_temporary now name ((other, g) ∷ rest) t = elim (Bool-cases (str_eq other name)) [
    | inl p ↦
        let h : is_temporary other ≡ true =
          subst (λ n. is_temporary n ≡ true) (sym ((eq_iff other name).0 p)) t in
        rw (p, h) (shelf-erase_temporary now name rest t)
    | inr p ↦ rw (p, shelf) (ap (add (live now other g)) (shelf-erase_temporary now name rest t))
  ]

  -- A new file comes after the others.
  pub shelf-insert_new :
      (now : ℕ) (name : String) (f : ReportFile) (files : ReportFiles)
      → lookup name files ≡ none
      → shelf now (insert name f files) ≡ shelf now files ++ add (live now name f) []
  unfolding shelf insert lookup
  shelf-insert_new now name f [] h = refl
  shelf-insert_new now name f ((other, g) ∷ rest) h = elim (Bool-cases (str_eq other name)) [
    | inl p ↦ ground (arith, p, h)
    | inr p ↦
        rw (p, shelf)
          (ap (add (live now other g)) (shelf-insert_new now name f rest (ground (arith, p, h)))
            ∙ add-append (live now other g) (shelf now rest) _)
  ]
    where
      add-append : (o : Option Report) (xs ys : List Report) → add o (xs ++ ys) ≡ add o xs ++ ys
      add-append none xs ys = refl
      add-append (some r) xs ys = refl

  live-IsNamed :
      (now : ℕ) (name : String) (f : ReportFile) (r : Report)
      → IsNamed name f
      → live now name f ≡ some r
      → name ≡ file_name r.id
  unfolding live
  live-IsNamed now name f r n l =
      let held : (is_temporary name ≡ false) × (f.content ≡ some r) =
        (ground arith, ground arith) in
      n r held.1 held.0

  -- The file of an identifier holds its report alone.
  pub shelf-erase_named :
      (now : ℕ) (id : String) (files : ReportFiles)
      → AreNamed files
      → shelf now (erase (file_name id) files) ≡ without id (shelf now files)
  unfolding shelf erase without
  shelf-erase_named now id [] n = refl
  shelf-erase_named now id ((name, f) ∷ rest) n = elim (Option-cases (live now name f)) [
    | inl l ↦
        let left = shelf-erase_named now id rest n.1 in
        elim (Bool-cases (str_eq name (file_name id))) [
          | inl p ↦ rw (p, l) left
          | inr p ↦ rw (p, shelf, l) left
        ]
    | inr (r, l) ↦
        let named = live-IsNamed now name f r n.0 l in
        let left = shelf-erase_named now id rest n.1 in
        elim (Bool-cases (str_eq r.id id)) [
          | inl p ↦
              let p' : str_eq name (file_name id) ≡ true =
                (eq_iff name (file_name id)).1 (named ∙ ap file_name ((eq_iff r.id id).0 p)) in
              rw (p', l, without, p) left
          | inr p ↦
              let p' : str_eq name (file_name id) ≡ false = ground (
                arith,
                p,
                named,
                eq_iff r.id id,
                eq_iff name (file_name id),
                append_cancel_right r.id id ".json",
              ) in
              rw (p', shelf, l, without, p) (ap (add (some r)) left)
        ]
  ]
