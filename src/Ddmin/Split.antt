-- ===== src/Ddmin/Split.antt =====
-- `split` of internal/experiment/ddmin.go: the chunks are a partition of the items.
use worldbisect.Prelude.{
  ℕ, zero, suc, ◌+◌, ◌-◌, ◌*◌, ◌/◌, ◌%◌, ◌≤◌, ◌<◌, min, String, ◌≡◌, refl, sym, ap, ◌∙◌, some,
  false, List, [], ◌∷◌, ◌++◌, map, arith, ltb, ◌==◌, if◌then◌else◌, length, take, drop, flatten,
  slice, All, IsSubsequence, take_all, take-append-take, drop-drop, IsSubsequence-trans,
  IsSubsequence-take, IsSubsequence-drop,
}
use native.Mathlib.Nat.{div_self, mod_self}
use worldbisect.Ddmin.{split_from, split}

-- The chunks, without the test of their ends.
unfoldable chunks_from : List String → ℕ → ℕ → ℕ → ℕ → ℕ → List (List String)
chunks_from items base remainder zero index start = []
chunks_from items base remainder (suc left) index start =
    let size = if ltb index remainder then base + 1 else base in
    slice items start (start + size)
    ∷ chunks_from items base remainder left (index + 1) (start + size)

-- Where chunk `index` begins.
abbrev offset : ℕ → ℕ → ℕ → ℕ
offset base remainder index = index * base + min index remainder

offset_next :
    (base remainder index : ℕ)
    → offset base remainder index + (if ltb index remainder then base + 1 else base)
      ≡ offset base remainder (index + 1)
offset_next base remainder index = ground arith

slice-append :
    (items : List String) (a b c : ℕ)
    → a ≤ b
    → b ≤ c
    → slice items a b ++ slice items b c ≡ slice items a c
slice-append items a b c p q =
    let jump : drop b items ≡ drop (b - a) (drop a items) =
      sym (drop-drop (b - a) a items ∙ ap (λ (k : ℕ). drop k items) (omega arith)) in
    let joined : take (b - a) (drop a items) ++ take (c - b) (drop (b - a) (drop a items))
        ≡ take (b - a + (c - b)) (drop a items) =
      take-append-take (b - a) (c - b) (drop a items) in
    rw jump (joined ∙ ap (λ (k : ℕ). take k (drop a items)) (omega arith))

flatten-chunks_from :
    (items : List String) (base remainder left index start stop : ℕ)
    → start ≡ offset base remainder index
    → stop ≡ offset base remainder (index + left)
    → (start ≤ stop)
      × (flatten (chunks_from items base remainder left index start) ≡ slice items start stop)
unfolding chunks_from
flatten-chunks_from items base remainder zero index start stop p q =
    let same : stop ≡ start = q ∙ ap (offset base remainder) (omega arith) ∙ sym p in
    let none_left : stop - start ≡ 0 = omega arith in (omega arith, rw none_left refl)
flatten-chunks_from items base remainder (suc left) index start stop p q =
    let size : ℕ = if ltb index remainder then base + 1 else base in
    let next : start + size ≡ offset base remainder (index + 1) =
      ap (λ (k : ℕ). k + size) p ∙ offset_next base remainder index in
    let (fits, rest) =
      flatten-chunks_from items base remainder left (index + 1) (start + size) stop next
        (q ∙ ap (offset base remainder) (omega arith)) in
    (omega arith, rw rest (slice-append items start (start + size) stop (omega arith) fits))

-- No chunk ends past the items.
split_from-chunks_from :
    (items : List String) (base remainder left index start : ℕ)
    → start ≡ offset base remainder index
    → length items ≡ offset base remainder (index + left)
    → (start ≤ length items)
      × (split_from items base remainder left index start
          ≡ some (chunks_from items base remainder left index start))
unfolding split_from chunks_from
split_from-chunks_from items base remainder zero index start p q =
    let same : length items ≡ start = q ∙ ap (offset base remainder) (omega arith) ∙ sym p in
    (omega arith, refl)
split_from-chunks_from items base remainder (suc left) index start p q =
    let size : ℕ = if ltb index remainder then base + 1 else base in
    let next : start + size ≡ offset base remainder (index + 1) =
      ap (λ (k : ℕ). k + size) p ∙ offset_next base remainder index in
    let (fits, rest) =
      split_from-chunks_from items base remainder left (index + 1) (start + size) next
        (q ∙ ap (offset base remainder) (omega arith)) in
    let inside : ltb (length items) (start + size) ≡ false = ground (arith, fits) in
    (omega (arith, fits), rw (inside, rest) refl)

chunks_from-subsequences :
    (items : List String) (base remainder left index start : ℕ)
    → All (λ c. IsSubsequence c items) (chunks_from items base remainder left index start)
unfolding chunks_from
chunks_from-subsequences items base remainder zero index start = tt
chunks_from-subsequences items base remainder (suc left) index start = (
  IsSubsequence-trans (IsSubsequence-drop start items) (IsSubsequence-take _ _),
  chunks_from-subsequences items base remainder left (index + 1) _,
)

length-chunks_from :
    (items : List String) (base remainder left index start : ℕ)
    → length (chunks_from items base remainder left index start) ≡ left
unfolding chunks_from
length-chunks_from items base remainder zero index start = refl
length-chunks_from items base remainder (suc left) index start =
    ap suc (length-chunks_from items base remainder left (index + 1) _)

abbrev pub singles : List String → List (List String)
singles = map (λ x. x ∷ [])

chunks_from-singles :
    (items rest : List String) (index : ℕ)
    → drop index items ≡ rest
    → chunks_from items 1 0 (length rest) index index ≡ singles rest
unfolding chunks_from
chunks_from-singles items [] index h = refl
chunks_from-singles items (x ∷ rest) index h =
    let plain : ltb index 0 ≡ false = ground arith in
    let one : index + 1 - index ≡ 1 = omega arith in
    let next : drop (index + 1) items ≡ rest = sym (drop-drop 1 index items) ∙ ap (drop 1) h in
    rw (plain, one, h)
      (ap (λ (r : List (List String)). (x ∷ []) ∷ r)
        (chunks_from-singles items rest (index + 1) next))

offset_end : (l n : ℕ) → 0 < n → l ≡ offset (l / n) (l % n) (0 + n)
offset_end l n h = grind arith

chunks_from-finest :
    (items : List String) (n : ℕ)
    → 0 < n
    → n ≡ length items
    → chunks_from items (length items / n) (length items % n) n 0 0 ≡ singles items
chunks_from-finest items n h e =
    let base : length items / n ≡ 1 = rw (← e) (div_self h) in
    let remainder : length items % n ≡ 0 = rw (← e) (mod_self n) in
    rw (base, remainder, e) (chunks_from-singles items items 0 refl)

-- What the loop of `DDMin` uses of a call of `split`.
pub record Chunks (items : List String) (parts : ℕ) (chunks : List (List String)) : Type 0 where
  pub runs : split items parts ≡ some chunks
  pub partition : flatten chunks ≡ items
  pub counted : length chunks ≡ min parts (length items)
  pub subsequences : All (λ c. IsSubsequence c items) chunks
  pub finest : length items ≤ parts → chunks ≡ singles items

pub split-Chunks :
    (items : List String) (parts : ℕ)
    → 0 < length items
    → 0 < parts
    → (chunks : List (List String)) × Chunks items parts chunks
unfolding split
split-Chunks items parts p q =
    let n : ℕ = if ltb (length items) parts then length items else parts in
    let n_min : n ≡ min parts (length items) = ground arith in
    let positive : (n == 0) ≡ false = ground arith in
    let base : ℕ = length items / n in
    let remainder : ℕ = length items % n in
    let (_, flat) =
      flatten-chunks_from items base remainder n 0 0 (length items) (omega arith)
        (offset_end (length items) n (omega arith)) in
    (
      chunks_from items base remainder n 0 0,
      record {
        runs =
            rw positive
              (split_from-chunks_from items base remainder n 0 0 (omega arith)
                (offset_end (length items) n (omega arith))).1;
        partition = flat ∙ take_all (length items - 0) items (omega arith);
        counted = length-chunks_from items base remainder n 0 0 ∙ n_min;
        subsequences = chunks_from-subsequences items base remainder n 0 0;
        finest = λ h. chunks_from-finest items n (omega arith) (omega arith);
      },
    )
