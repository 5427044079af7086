-- ===== src/Ddmin.antt =====
-- internal/experiment/ddmin.go: delta debugging over the identifiers of the factors.
-- The test function is a parameter. In the program it is a closure that appends to the analysis,
-- so it takes and returns a state.
pub mod Split
pub mod Subtract
pub mod Calls
pub mod Scans
pub mod Result
pub mod Minimal
use worldbisect.Prelude.{
  ℕ, zero, suc, ◌+◌, ◌-◌, ◌*◌, ◌/◌, ◌%◌, min, max, String, Bool, true, false, Option, none, some,
  List, [], ◌∷◌, ltb, leb, ◌==◌, str_eq, if◌then◌else◌, length, slice,
}

-- `set[item]` of the map in `subtract`.
abbrev pub Counts : Type 0
Counts = String → ℕ

-- The first loop of `subtract`: `set[item]++`.
pub count_items : List String → Counts → Counts
count_items [] set = set
count_items (item ∷ items) set =
    count_items items (λ key. if str_eq key item then set key + 1 else set key)

-- The second loop of `subtract`.
pub keep_uncounted : List String → Counts → List String
keep_uncounted [] set = []
keep_uncounted (item ∷ items) set =
    let used = keep_uncounted items (λ key. if str_eq key item then set key - 1 else set key) in
    let rest = keep_uncounted items set in if ltb 0 (set item) then used else item ∷ rest

unfoldable pub subtract : List String → List String → List String
unfolding count_items keep_uncounted
subtract all subset = keep_uncounted all (count_items subset (λ key. 0))

-- The chunk before the others; `none` is a panic.
abbrev pub before_chunks : List String → Option (List (List String)) → Option (List (List String))
before_chunks chunk none = none
before_chunks chunk (some chunks) = some (chunk ∷ chunks)

-- The loop of `split`, by the number of parts that are left. `none` is a panic: of `items[start:end]`
-- when the end is past the items, as if their capacity were their length.
unfoldable pub split_from : List String → ℕ → ℕ → ℕ → ℕ → ℕ → Option (List (List String))
split_from items base remainder zero index start = some []
split_from items base remainder (suc left) index start =
    let size = if ltb index remainder then base + 1 else base in
    let rest = split_from items base remainder left (index + 1) (start + size) in
    if ltb (length items) (start + size)
    then none
    else before_chunks (slice items start (start + size)) rest

-- `none` is a panic, also that of the division by zero of `len(items) / parts`.
unfoldable pub split : List String → ℕ → Option (List (List String))
unfolding split_from
split items parts =
    let n = if ltb (length items) parts then length items else parts in
    if n == 0 then none else split_from items (length items / n) (length items % n) n 0 0

pub data DdError (E : Type 0) : Type 0 where
  budget_exhausted : DdError E
  test_failed : E → DdError E

-- What the test function returns: `(passes, nil)` or an error.
pub data Verdict (E : Type 0) : Type 0 where
  verdict : Bool → Verdict E
  failure : E → Verdict E

-- How one of the two `for _, chunk := range chunks` loops ends.
pub data Scan (S E : Type 0) : Type 0 where
  reduced : List String → ℕ → S → Scan S E
  none_passed : ℕ → S → Scan S E
  stopped : DdError E → ℕ → S → Scan S E

-- The three results of `DDMin`, and the state that the test function left.
pub record Minimized (S E : Type 0) : Type 0 where
  pub current : List String
  pub experiments : ℕ
  pub error : Option (DdError E)
  pub state : S

pub data Outcome (S E : Type 0) : Type 0 where
  returned : Minimized S E → Outcome S E
  panicked : Outcome S E
  out_of_fuel : Outcome S E

module _ {S E : Type 0} (test : List String → S → Verdict E × S) (budget : ℕ) where
  -- One call of the test function in a loop whose remaining rounds are `next`.
  abbrev pub judge : List String → ℕ → Verdict E × S → (S → Scan S E) → Scan S E
  judge candidate experiments (verdict true, s) next = reduced candidate experiments s
  judge candidate experiments (verdict false, s) next = next s
  judge candidate experiments (failure e, s) next = stopped (test_failed e) experiments s

  pub scan_chunks : List (List String) → ℕ → S → Scan S E
  scan_chunks [] experiments s = none_passed experiments s
  scan_chunks (chunk ∷ chunks) experiments s = elim (leb budget experiments) [
    | true ↦ stopped budget_exhausted experiments s
    | false ↦ judge chunk (experiments + 1) (test chunk s) (scan_chunks chunks (experiments + 1))
  ]

  pub scan_complements : List String → List (List String) → ℕ → S → Scan S E
  scan_complements current [] experiments s = none_passed experiments s
  scan_complements current (chunk ∷ chunks) experiments s = elim (subtract current chunk) [
    | [] ↦ scan_complements current chunks experiments s
    | item ∷ items ↦ elim (leb budget experiments) [
      | true ↦ stopped budget_exhausted experiments s
      | false ↦
          judge (item ∷ items) (experiments + 1) (test (item ∷ items) s)
            (scan_complements current chunks (experiments + 1))
    ]
  ]

  -- The body of the outer loop: both scans, then the new granularity. `next` is the loop's next
  -- round, on the new `current`, `n`, `experiments` and state.
  abbrev pub after_complements :
      List String → ℕ → (List String → ℕ → ℕ → S → Outcome S E) → Scan S E → Outcome S E
  after_complements current n next (reduced smaller experiments s) =
      next smaller (max 2 (n - 1)) experiments s
  after_complements current n next (stopped e experiments s) =
      returned (record { current = current; experiments = experiments; error = some e; state = s })
  after_complements current n next (none_passed experiments s) = elim (leb (length current) n) [
    | true ↦
        returned (record { current = current; experiments = experiments; error = none; state = s })
    | false ↦ next current (min (length current) (n * 2)) experiments s
  ]

  abbrev pub after_chunks :
      List String
      → ℕ
      → List (List String)
      → (List String → ℕ → ℕ → S → Outcome S E)
      → Scan S E
      → Outcome S E
  after_chunks current n chunks next (reduced smaller experiments s) =
      next smaller (max 2 (n - 1)) experiments s
  after_chunks current n chunks next (stopped e experiments s) =
      returned (record { current = current; experiments = experiments; error = some e; state = s })
  after_chunks current n chunks next (none_passed experiments s) =
      after_complements current n next (scan_complements current chunks experiments s)

  abbrev pub round : List String → ℕ → ℕ → S → (List String → ℕ → ℕ → S → Outcome S E) → Outcome S E
  round current n experiments s next = elim (split current n) [
    | none ↦ panicked
    | some chunks ↦ after_chunks current n chunks next (scan_chunks chunks experiments s)
  ]

  -- `for len(current) >= 2`, on fuel.
  pub ddmin_loop : ℕ → List String → ℕ → ℕ → S → Outcome S E
  unfolding scan_chunks scan_complements
  ddmin_loop zero current n experiments s = out_of_fuel
  ddmin_loop (suc fuel) current n experiments s = elim (ltb (length current) 2) [
    | true ↦
        returned (record { current = current; experiments = experiments; error = none; state = s })
    | false ↦ elim (leb budget experiments) [
      | true ↦ returned (record {
        current = current;
        experiments = experiments;
        error = some budget_exhausted;
        state = s;
      })
      | false ↦ round current n experiments s (ddmin_loop fuel)
    ]
  ]

-- Each round of the loop makes an experiment, and there are at most `budget` of them.
unfoldable pub ddmin :
    {S E : Type 0} → (List String → S → Verdict E × S) → List String → ℕ → S → Outcome S E
unfolding ddmin_loop
ddmin test [] budget s =
    returned (record { current = []; experiments = 0; error = none; state = s })
ddmin test (item ∷ items) budget s = ddmin_loop test budget (suc budget) (item ∷ items) 2 0 s
