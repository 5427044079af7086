-- ===== src/Hub/Authority.antt =====
-- What a principal of internal/hub/access.go may do under a validated configuration.
use worldbisect.Prelude.{
  ℕ, String, ◌≡◌, refl, sym, ap, subst, inl, inr, Bool, true, false, Option, none, some, List, [],
  ◌∷◌, ◌||◌, ◌&&◌, not, ltb, ◌==◌, str_eq, eq_iff, arith, length, All, Bool-cases,
}
use worldbisect.Prelude.Exec.{Result, ok, err}
use worldbisect.Hub.Access.{
  Subject, Key, Config, Principal, contains, membership_scopes, key_scopes, within_role,
  validate_key, validate_keys, validate_scopes, or_else, with_sets, validate_access,
  validate_subjects, validate_memberships, expired, principal_from, principal_for_key, member_key,
  bad_quarantine, bad_days,
}

pub data Listed {ℓ} {A : Type ℓ} (x : A) : List A → Type ℓ where
  first : {xs : List A} → Listed x (x ∷ xs)
  later : {y : A} {xs : List A} → Listed x xs → Listed x (y ∷ xs)

-- The scopes are granted in the workspace by the role of the subject's membership.
abbrev pub Granted : Config → String → String → List String → Type 0
Granted c subject workspace scopes =
    All (λ s. contains s (membership_scopes c.memberships subject workspace) ≡ true) scopes

module _ (matches : String → Bool) where
  within_role-All :
      (id : String) (granted scopes : List String)
      → within_role matches id granted scopes ≡ none
      → All (λ s. contains s granted ≡ true) scopes
  unfolding within_role
  within_role-All id granted [] h = tt
  within_role-All id granted (s ∷ ss) h = elim (Bool-cases (contains s granted)) [
    | inl p ↦ (p, within_role-All id granted ss (rw p at h))
    | inr p ↦ cc (rw p at h)
  ]

  or_else-none : (a b : Option String) → or_else matches a b ≡ none → (a ≡ none) × (b ≡ none)
  or_else-none none b h = (refl, h)
  or_else-none (some e) b h = cc

  -- An accepted credential stays within its membership, and the checks after it pass.
  validate_key-Granted :
      (c : Config) (subjects memberships ids : List String) (key : Key) (next : Option String)
      → validate_key matches c subjects memberships ids key next ≡ none
      → Granted c key.subject_id key.workspace (key_scopes key) × (next ≡ none)
  unfolding validate_key
  validate_key-Granted c subjects memberships ids key next h =
      elim (Bool-cases
        (not (matches key.id) || contains key.id ids || not (contains key.subject_id subjects))) [
          | inl p ↦ cc (rw p at h)
          | inr p ↦
              elim (Bool-cases
                (not (contains (member_key matches key.subject_id key.workspace) memberships))) [
                  | inl q ↦ cc (rw (p, q) at h)
                  | inr q ↦ elim (Bool-cases (ltb 3 (length key.scopes))) [
                    | inl r ↦ cc (rw (p, q, r) at h)
                    | inr r ↦
                        let (_, rest) =
                          or_else-none (validate_scopes matches key.scopes []) _
                            (rw (p, q, r) at h) in
                        let (within, passes) = or_else-none _ next rest in
                        (within_role-All key.id _ (key_scopes key) within, passes)
                  ]
                ]
        ]

  validate_keys-Granted :
      (c : Config) (subjects memberships : List String) (keys : List Key) (ids : List String)
      (key : Key)
      → (c.version == 1) ≡ false
      → validate_keys matches c subjects memberships keys ids ≡ none
      → Listed key keys
      → Granted c key.subject_id key.workspace (key_scopes key)
  unfolding validate_keys
  validate_keys-Granted c subjects memberships [] ids key v2 h l = elim l [ ]
  validate_keys-Granted c subjects memberships (k ∷ keys) ids key v2 h first =
      (validate_key-Granted c subjects memberships ids key _ (rw v2 at h)).0
  validate_keys-Granted c subjects memberships (k ∷ keys) ids key v2 h (later l) =
      validate_keys-Granted c subjects memberships keys (k.id ∷ ids) key v2
        (validate_key-Granted c subjects memberships ids k _ (rw v2 at h)).1 l

  with_sets-none :
      (r : Result String (List String)) (next : List String → Option String)
      → with_sets matches r next ≡ none
      → (set : List String) × (next set ≡ none)
  with_sets-none (err e) next h = cc
  with_sets-none (ok set) next h = (set, h)

  validate_access-Granted :
      (c : Config) (key : Key)
      → (c.version == 1) ≡ false
      → validate_access matches c ≡ none
      → Listed key c.keys
      → Granted c key.subject_id key.workspace (key_scopes key)
  unfolding validate_access
  validate_access-Granted c key v2 h l =
      elim (Bool-cases (bad_quarantine matches c.version c.ci_quarantine_until)) [
        | inl p ↦ cc (rw p at h)
        | inr p ↦ elim (Bool-cases (bad_days matches c.audit_retention_days)) [
          | inl q ↦ cc (rw (p, q) at h)
          | inr q ↦
              elim (Bool-cases (ltb 100 (length c.subjects) || ltb 200 (length c.memberships))) [
                | inl r ↦ cc (rw (p, q, r) at h)
                | inr r ↦ sets (rw (p, q, r, v2) at h)
              ]
        ]
      ]
    where
      sets :
          with_sets matches (validate_subjects matches c.subjects []) (λ subjects.
            with_sets matches
              (validate_memberships matches subjects c.memberships [])
              (λ memberships. validate_keys matches c subjects memberships c.keys []))
            ≡ none
          → Granted c key.subject_id key.workspace (key_scopes key)
      sets k =
          let (subjects, inner) =
            with_sets-none (validate_subjects matches c.subjects [])
              (λ (subjects : List String).
                with_sets matches (validate_memberships matches subjects c.memberships [])
                  (λ memberships. validate_keys matches c subjects memberships c.keys []))
              k in
          let (memberships, keys) =
            with_sets-none (validate_memberships matches subjects c.memberships [])
              (λ memberships. validate_keys matches c subjects memberships c.keys []) inner in
          validate_keys-Granted c subjects memberships c.keys [] key v2 keys l

-- The principal is an enabled subject of the configuration, its credential has not expired, and its
-- scopes are granted to that subject in the credential's workspace.
pub record IsAuthorised (c : Config) (key : Key) (now : ℕ) (p : Principal) : Type 0 where
  pub subject : Subject
  pub listed : Listed subject c.subjects
  pub enabled : subject.disabled ≡ false
  pub is_subject : p.subject_id ≡ subject.id
  pub same_workspace : p.workspace ≡ key.workspace
  pub unexpired : expired now key.expires_at ≡ false
  pub granted : Granted c p.subject_id p.workspace p.scopes

abbrev principal_or : Principal → Option Principal → Principal
principal_or d none = d
principal_or d (some p) = p

principal_from-IsAuthorised :
    (c : Config) (key : Key) (now : ℕ) (subjects : List Subject) (p : Principal)
    → expired now key.expires_at ≡ false
    → Granted c key.subject_id key.workspace (key_scopes key)
    → ((s : Subject) → Listed s subjects → Listed s c.subjects)
    → principal_from c key subjects ≡ some p
    → IsAuthorised c key now p
unfolding principal_from
principal_from-IsAuthorised c key now [] p fresh granted inside h = cc
principal_from-IsAuthorised c key now (s ∷ ss) p fresh granted inside h =
    elim (Bool-cases (
      str_eq s.id key.subject_id
      && not s.disabled
      && ltb 0 (length (membership_scopes c.memberships s.id key.workspace)))) [
        | inr q ↦
            principal_from-IsAuthorised c key now ss p fresh granted (λ x l. inside x (later l))
              (rw q at h)
        | inl q ↦
            let enabled : s.disabled ≡ false = ground arith in
            let same : key.subject_id ≡ s.id =
              sym ((eq_iff s.id key.subject_id).0 (ground arith)) in
            subst (IsAuthorised c key now) (ap (principal_or p) (rw q at h)) (record {
              subject = s;
              listed = inside s first;
              enabled = enabled;
              is_subject = refl;
              same_workspace = refl;
              unexpired = fresh;
              granted = subst (λ i. Granted c i key.workspace (key_scopes key)) same granted;
            })
      ]

-- Under a configuration of version 2 that passes validation, a credential of it gives a principal
-- only for an enabled subject and before it expires, in the credential's workspace, and only with
-- scopes that the role of the subject's membership in that workspace grants.
pub principal_for_key-IsAuthorised :
    (matches : String → Bool) (digest_prefix : String → String) (c : Config) (key : Key) (now : ℕ)
    (p : Principal)
    → (c.version == 1) ≡ false
    → validate_access matches c ≡ none
    → Listed key c.keys
    → principal_for_key digest_prefix c key now ≡ some p
    → IsAuthorised c key now p
unfolding principal_for_key
principal_for_key-IsAuthorised matches digest_prefix c key now p v2 valid l h =
    elim (Bool-cases (str_eq key.token_sha256 "")) [
      | inl q ↦ cc (rw q at h)
      | inr q ↦ elim (Bool-cases (expired now key.expires_at)) [
        | inl r ↦ cc (rw (q, r) at h)
        | inr r ↦
            principal_from-IsAuthorised c key now c.subjects p r
              (validate_access-Granted matches c key v2 valid l) (λ s k. k) (rw (q, r, v2) at h)
      ]
    ]
