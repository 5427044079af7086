-- ===== src/Compare/Genuine.antt =====
-- The factors that `Compare` of internal/experiment/compare.go returns are differences that it may
-- intervene on.
use worldbisect.Prelude.{
  ℕ, zero, suc, ◌≤◌, ◌<◌, String, ◌≡◌, ◌≢◌, refl, sym, ap, ◌∙◌, Bool, true, false, Option, none,
  some, List, [], ◌∷◌, ◌++◌, ◌&&◌, ◌||◌, not, arith, ltb, str_eq, eq_iff, Bool-cases, inl, inr,
  if◌then◌else◌, length, take, All, length-take,
}
use worldbisect.Prelude.Files.{lookup, names, str_le}
use worldbisect.Model.{
  Capture, Factor, FactorType, environment, workspace, WorkspaceEntry, supported_entry, equal_entry,
}
use worldbisect.Compare.{
  HashText, factor_id, is_redacted_value, secret_key, text_of, entry_of, present, bool_eq,
  entry_map, Difference, same, boundary, factor, environment_difference, workspace_difference,
  add_difference, collect, insert_factor, sort_factors, limit_factors, evidence_boundaries, compare,
  sorted_keys, environment_differences, workspace_differences,
}

-- A value that is there or not, as a factor records it.
abbrev recorded {ℓ} : {A : Type ℓ} → Bool → A → Option A
recorded true a = some a
recorded false a = none

-- An environment variable that differs and that no side holds as a secret.
pub record IsEnvironmentFactor (short_hash : HashText) (good bad : Capture) (f : Factor)
    : Type 0 where
  pub identified : f.id ≡ factor_id short_hash "env" f.key
  pub good_side : lookup f.key good.command.environment ≡ recorded f.good_present f.good_value
  pub bad_side : lookup f.key bad.command.environment ≡ recorded f.bad_present f.bad_value
  pub differs : lookup f.key good.command.environment ≢ lookup f.key bad.command.environment
  pub good_plain : is_redacted_value f.good_value ≡ false
  pub bad_plain : is_redacted_value f.bad_value ≡ false
  pub good_open : secret_key good f.key ≡ false
  pub bad_open : secret_key bad f.key ≡ false

-- A workspace object that differs and whose type is supported on each side that has it.
pub record IsWorkspaceFactor (short_hash : HashText) (good bad : Capture) (f : Factor)
    : Type 0 where
  pub identified : f.id ≡ factor_id short_hash "workspace" f.key
  pub good_side : lookup f.key (entry_map good.workspace) ≡ recorded f.good_present f.good_entry
  pub bad_side : lookup f.key (entry_map bad.workspace) ≡ recorded f.bad_present f.bad_entry
  pub differs : (f.good_present && f.bad_present && equal_entry f.good_entry f.bad_entry) ≡ false
  pub good_supported : f.good_present ≡ true → supported_entry f.good_entry ≡ true
  pub bad_supported : f.bad_present ≡ true → supported_entry f.bad_entry ≡ true

abbrev pub IsOfType : HashText → Capture → Capture → FactorType → Factor → Type 0
IsOfType short_hash good bad environment f = IsEnvironmentFactor short_hash good bad f
IsOfType short_hash good bad workspace f = IsWorkspaceFactor short_hash good bad f

abbrev pub IsGenuine : HashText → Capture → Capture → Factor → Type 0
IsGenuine short_hash good bad f = IsOfType short_hash good bad f.type f × (f.intervenable ≡ true)

-- A difference makes a genuine factor, if it makes one.
abbrev Yields : (Factor → Type 0) → Difference → Type 0
Yields P same = Unit
Yields P (boundary b) = Unit
Yields P (factor f) = P f

bool_eq_refl : (b : Bool) → bool_eq b b ≡ true
bool_eq_refl true = refl
bool_eq_refl false = refl

recorded-text : (o : Option String) → o ≡ recorded (present o) (text_of o)
recorded-text none = refl
recorded-text (some v) = refl

recorded-entry : (o : Option WorkspaceEntry) → o ≡ recorded (present o) (entry_of o)
recorded-entry none = refl
recorded-entry (some e) = refl

Yields-if :
    (P : Factor → Type 0) (b : Bool) (x y : Difference)
    → (b ≡ true → Yields P x)
    → (b ≡ false → Yields P y)
    → Yields P (if b then x else y)
Yields-if P true x y h k = h refl
Yields-if P false x y h k = k refl

all_false :
    (a b c d : Bool)
    → (a || b || c || d) ≡ false
    → (a ≡ false) × (b ≡ false) × (c ≡ false) × (d ≡ false)
all_false a b c d h = ground arith

both_supported :
    (p s q t : Bool)
    → ((p && not s) || (q && not t)) ≡ false
    → (p ≡ true → s ≡ true) × (q ≡ true → t ≡ true)
both_supported p s q t h = ground arith

equal_options :
    (g b : Option String)
    → g ≡ b
    → (str_eq (text_of g) (text_of b) && bool_eq (present g) (present b)) ≡ true
equal_options g b e =
    let texts : str_eq (text_of g) (text_of b) ≡ true =
      (eq_iff (text_of g) (text_of b)).1 (ap text_of e) in
    let kinds : bool_eq (present g) (present b) ≡ true =
      ap (λ o. bool_eq (present g) (present o)) (sym e) ∙ bool_eq_refl (present g) in
    ground arith

module _ (short_hash : HashText) (good bad : Capture) where
  abbrev Genuine : Factor → Type 0
  Genuine = IsGenuine short_hash good bad

  environment_difference-Yields :
      (key : String) → Yields Genuine (environment_difference short_hash good bad key)
  unfolding environment_difference
  environment_difference-Yields key =
      let g = lookup key good.command.environment in
      let b = lookup key bad.command.environment in
      Yields-if Genuine (str_eq (text_of g) (text_of b) && bool_eq (present g) (present b)) _ _
        (λ _. tt)
        λ unequal.
          Yields-if Genuine
            (is_redacted_value (text_of g)
              || is_redacted_value (text_of b)
              || secret_key good key
              || secret_key bad key)
            _ _ (λ _. tt)
            λ plain.
              let (a, c, d, e) = all_false _ _ _ _ plain in
              (
                record {
                  identified = refl;
                  good_side = recorded-text g;
                  bad_side = recorded-text b;
                  differs = λ same. cc (sym (equal_options g b same) ∙ unequal);
                  good_plain = a;
                  bad_plain = c;
                  good_open = d;
                  bad_open = e;
                },
                refl,
              )

  workspace_difference-Yields :
      (path : String) → Yields Genuine (workspace_difference short_hash good bad path)
  unfolding workspace_difference
  workspace_difference-Yields path =
      let g = lookup path (entry_map good.workspace) in
      let b = lookup path (entry_map bad.workspace) in
      Yields-if Genuine (present g && present b && equal_entry (entry_of g) (entry_of b)) _ _
        (λ _. tt)
        λ unequal.
          Yields-if Genuine
            ((present g && not (supported_entry (entry_of g)))
              || (present b && not (supported_entry (entry_of b))))
            _ _ (λ _. tt)
            λ fine.
              let (p, q) =
                both_supported (present g) (supported_entry (entry_of g)) (present b)
                  (supported_entry (entry_of b)) fine in
              (
                record {
                  identified = refl;
                  good_side = recorded-entry g;
                  bad_side = recorded-entry b;
                  differs = unequal;
                  good_supported = p;
                  bad_supported = q;
                },
                refl,
              )

module _ (P : Factor → Type 0) where
  add_difference-All :
      (x : Difference) (r : List Factor × List String)
      → Yields P x
      → All P r.0
      → All P (add_difference x r).0
  add_difference-All same r y h = h
  add_difference-All (boundary b) r y h = h
  add_difference-All (factor f) r y h = (y, h)

  collect-All :
      (difference : String → Difference)
      → ((key : String) → Yields P (difference key))
      → (keys : List String) → All P (collect difference keys).0
  unfolding collect
  collect-All difference y [] = tt
  collect-All difference y (key ∷ keys) =
      add_difference-All (difference key) (collect difference keys) (y key)
        (collect-All difference y keys)

  All-append : (xs ys : List Factor) → All P xs → All P ys → All P (xs ++ ys)
  All-append [] ys h k = k
  All-append (x ∷ xs) ys h k = (h.0, All-append xs ys h.1 k)

  All-take : (n : ℕ) (xs : List Factor) → All P xs → All P (take n xs)
  All-take zero xs h = tt
  All-take (suc n) [] h = tt
  All-take (suc n) (x ∷ xs) h = (h.0, All-take n xs h.1)

  All-insert_factor : (f : Factor) (fs : List Factor) → P f → All P fs → All P (insert_factor f fs)
  unfolding insert_factor
  All-insert_factor f [] p h = (p, tt)
  All-insert_factor f (g ∷ gs) p h = elim (Bool-cases (str_le f.id g.id)) [
    | inl e ↦ rw (e, All) (p, h)
    | inr e ↦ rw (e, All) (h.0, All-insert_factor f gs p h.1)
  ]

  All-sort_factors : (fs : List Factor) → All P fs → All P (sort_factors fs)
  unfolding sort_factors
  All-sort_factors [] h = tt
  All-sort_factors (f ∷ fs) h = All-insert_factor f (sort_factors fs) h.0 (All-sort_factors fs h.1)

  limit_factors-All :
      (m : ℕ) (fs : List Factor) (bs : List String) → All P fs → All P (limit_factors m fs bs).0
  unfolding limit_factors
  limit_factors-All m fs bs h = elim (Bool-cases (ltb 0 m && ltb m (length fs))) [
    | inl e ↦ rw (e, All) (All-take m fs h)
    | inr e ↦ rw (e, All) h
  ]

module _ (short_hash : HashText) (good bad : Capture) where
  environment_differences-All :
      All (IsGenuine short_hash good bad) (environment_differences short_hash good bad).0
  unfolding environment_differences
  environment_differences-All =
      collect-All (IsGenuine short_hash good bad) (environment_difference short_hash good bad)
        (environment_difference-Yields short_hash good bad)
        (sorted_keys (names good.command.environment) (names bad.command.environment))

  workspace_differences-All :
      All (IsGenuine short_hash good bad) (workspace_differences short_hash good bad).0
  unfolding workspace_differences
  workspace_differences-All =
      collect-All (IsGenuine short_hash good bad) (workspace_difference short_hash good bad)
        (workspace_difference-Yields short_hash good bad)
        (sorted_keys (names (entry_map good.workspace)) (names (entry_map bad.workspace)))

limit_factors-length :
    (m : ℕ) (fs : List Factor) (bs : List String) → 0 < m → length (limit_factors m fs bs).0 ≤ m
unfolding limit_factors
limit_factors-length m fs bs h = elim (Bool-cases (ltb 0 m && ltb m (length fs))) [
  | inl e ↦ rw e (omega (arith, length-take {0} m fs))
  | inr e ↦ rw e (fits e)
]
  where
    fits : (ltb 0 m && ltb m (length fs)) ≡ false → length fs ≤ m
    fits e = ground arith

-- Every factor that `compare` returns is a difference of the two captures that may be intervened on:
-- its identifier, its values on both sides and their presence are those of the captures, the sides
-- differ at its key, an environment variable is neither redacted nor listed as a secret on either
-- side, and a workspace object is of a supported type wherever it is present.
pub compare-IsGenuine :
    (short_hash : HashText) (digest_strings : List String → String) (good bad : Capture)
    (max_factors : ℕ)
    → All (IsGenuine short_hash good bad) (compare short_hash digest_strings good bad max_factors).0
unfolding compare
compare-IsGenuine short_hash digest_strings good bad max_factors =
    let P = IsGenuine short_hash good bad in
    let env = environment_differences short_hash good bad in
    let files = workspace_differences short_hash good bad in
    limit_factors-All P max_factors (sort_factors (env.0 ++ files.0))
      (env.1 ++ files.1 ++ evidence_boundaries digest_strings good bad)
      (All-sort_factors P (env.0 ++ files.0) (
        All-append P env.0 files.0 (environment_differences-All short_hash good bad)
          (workspace_differences-All short_hash good bad)))

-- With a limit there are no more factors than the limit.
pub length-compare :
    (short_hash : HashText) (digest_strings : List String → String) (good bad : Capture)
    (max_factors : ℕ)
    → 0 < max_factors
    → length (compare short_hash digest_strings good bad max_factors).0 ≤ max_factors
unfolding compare
length-compare short_hash digest_strings good bad max_factors h =
    limit_factors-length max_factors _
      ((environment_differences short_hash good bad).1
        ++ (workspace_differences short_hash good bad).1
        ++ evidence_boundaries digest_strings good bad)
      h
