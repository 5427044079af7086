-- ===== src/Prelude/Exec.antt =====
-- Code that reads and writes a state and may return an error. What was written before the error
-- stays written, so the state comes back beside the error too.
use mathlib.Core.Path.{◌≡◌, refl, ap, subst}
use mathlib.Core.Bool.{Bool, true, false}
use worldbisect.Prelude.Tests.{if◌then◌else◌}

pub data Result {ℓ κ} (E : Type ℓ) (A : Type κ) : Type (ℓ ⊔ κ) where
  ok : A → Result E A
  err : E → Result E A

abbrev pub Exec : Type 0 → Type 0 → Type 0 → Type 0
Exec S E A = S → Result E A × S

module _ {S E A : Type 0} where
  abbrev pub pure : A → Exec S E A
  pure a s = (ok a, s)

  abbrev pub fail : E → Exec S E A
  fail e s = (err e, s)

module _ {S E A B : Type 0} where
  abbrev pub follow : Result E A → (A → Exec S E B) → Exec S E B
  follow (ok a) f s = f a s
  follow (err e) f s = (err e, s)

  infixl 5 ◌>>=◌ ◌>>◌
  abbrev pub ◌>>=◌ : Exec S E A → (A → Exec S E B) → Exec S E B
  ◌>>=◌ m f s = let r = m s in follow r.0 f r.1

  abbrev pub ◌>>◌ : Exec S E A → Exec S E B → Exec S E B
  m >> n = m >>= λ _. n

  abbrev pub branch : Result E A → (E → Exec S E B) → (A → Exec S E B) → Exec S E B
  branch (ok a) bad good s = good a s
  branch (err e) bad good s = bad e s

  -- `if err := m; err != nil { bad }`, and `good` otherwise.
  abbrev pub attempt : Exec S E A → (E → Exec S E B) → (A → Exec S E B) → Exec S E B
  attempt m bad good s = let r = m s in branch r.0 bad good r.1

value_or : {E A : Type 0} → A → Result E A → A
value_or d (ok a) = a
value_or d (err e) = d

-- What holds of the result and of the state after `m`, if it succeeds.
abbrev pub Ensures : {S E A : Type 0} → Exec S E A → S → (A → S → Type 0) → Type 0
Ensures {A = A} m s Q = (a : A) → (m s).0 ≡ ok a → Q a (m s).1

pub ok-injective : {E A : Type 0} {a b : A} → ◌≡◌ {A = Result E A} (ok a) (ok b) → a ≡ b
unfolding value_or
ok-injective {a = a} e = ap (value_or a) e

module _ {S E : Type 0} where
  pub Ensures-bind :
      {A B : Type 0} (m : Exec S E A) (f : A → Exec S E B) (s : S) (Q : B → S → Type 0)
      → ((a : A) → (m s).0 ≡ ok a → Ensures (f a) (m s).1 Q)
      → Ensures (m >>= f) s Q
  Ensures-bind m f s Q h = go (m s).0 refl
    where
      go :
          (r : Result E _)
          → (m s).0 ≡ r
          → (b : _) → (follow r f (m s).1).0 ≡ ok b
          → Q b (follow r f (m s).1).1
      go (ok a) e b k = h a e b k
      go (err x) e b k = cc

  pub Ensures-attempt :
      {A B : Type 0} (m : Exec S E A) (bad : E → Exec S E B) (good : A → Exec S E B) (s : S)
      (Q : B → S → Type 0)
      → ((e : E) → (m s).0 ≡ err e → Ensures (bad e) (m s).1 Q)
      → ((a : A) → (m s).0 ≡ ok a → Ensures (good a) (m s).1 Q)
      → Ensures (attempt m bad good) s Q
  Ensures-attempt m bad good s Q hb hg = go (m s).0 refl
    where
      go :
          (r : Result E _)
          → (m s).0 ≡ r
          → (b : _) → (branch r bad good (m s).1).0 ≡ ok b
          → Q b (branch r bad good (m s).1).1
      go (ok a) e b k = hg a e b k
      go (err x) e b k = hb x e b k

  pub Ensures-pure :
      {A : Type 0} (a : A) (s : S) (Q : A → S → Type 0) → Q a s → Ensures (pure {E = E} a) s Q
  unfolding value_or
  Ensures-pure a s Q q b e = subst (λ x. Q x s) (ap (value_or a) e) q

  pub Ensures-fail :
      {A : Type 0} (x : E) (s : S) (Q : A → S → Type 0) → Ensures (fail {A = A} x) s Q
  Ensures-fail x s Q b e = cc

  pub Ensures-if :
      {A : Type 0} (b : Bool) (f g : Exec S E A) (s : S) (Q : A → S → Type 0)
      → (b ≡ true → Ensures f s Q)
      → (b ≡ false → Ensures g s Q)
      → Ensures (if b then f else g) s Q
  Ensures-if true f g s Q hf hg = hf refl
  Ensures-if false f g s Q hf hg = hg refl

-- The state after `m` is related to the state before, whether `m` returns or fails.
pub record Moves {S E A : Type 0} (R : S → S → Type 0) (m : Exec S E A) : Type 0 where
  pub at : (s : S) → R s (m s).1

-- Relations that a sequence of steps keeps.
pub record IsPreorder {S : Type 0} (R : S → S → Type 0) : Type 0 where
  pub reflexive : (s : S) → R s s
  pub transitive : (s t u : S) → R s t → R t u → R s u

module _ {S E : Type 0} {R : S → S → Type 0} (p : IsPreorder R) where
  pub Moves-pure : {A : Type 0} (a : A) → Moves R (pure {S = S} {E = E} a)
  Moves-pure a = record { at = p.reflexive }

  pub Moves-fail : {A : Type 0} (e : E) → Moves R (fail {S = S} {A = A} e)
  Moves-fail e = record { at = p.reflexive }

  -- The continuation may use where its argument came from.
  pub Moves-bind_at :
      {A B : Type 0} (m : Exec S E A) (f : A → Exec S E B) (s : S)
      → R s (m s).1
      → ((a : A) → (m s).0 ≡ ok a → R (m s).1 (f a (m s).1).1)
      → R s ((m >>= f) s).1
  Moves-bind_at m f s hm hf = go (m s).0 refl
    where
      go : (r : Result E _) → (m s).0 ≡ r → R s (follow r f (m s).1).1
      go (ok a) e = p.transitive s (m s).1 _ hm (hf a e)
      go (err x) e = hm

  pub Moves-bind :
      {A B : Type 0} (m : Exec S E A) (f : A → Exec S E B)
      → Moves R m
      → ((a : A) → Moves R (f a))
      → Moves R (m >>= f)
  Moves-bind m f hm hf = record {
    at = λ s. Moves-bind_at m f s (hm.at s) (λ a _. (hf a).at (m s).1);
  }

  pub Moves-attempt_at :
      {A B : Type 0} (m : Exec S E A) (bad : E → Exec S E B) (good : A → Exec S E B) (s : S)
      → R s (m s).1
      → ((e : E) → (m s).0 ≡ err e → R (m s).1 (bad e (m s).1).1)
      → ((a : A) → (m s).0 ≡ ok a → R (m s).1 (good a (m s).1).1)
      → R s (attempt m bad good s).1
  Moves-attempt_at m bad good s hm hb hg = go (m s).0 refl
    where
      go : (r : Result E _) → (m s).0 ≡ r → R s (branch r bad good (m s).1).1
      go (ok a) e = p.transitive s (m s).1 _ hm (hg a e)
      go (err x) e = p.transitive s (m s).1 _ hm (hb x e)

-- A property of the state after a bind, whether its first part returns or fails.
pub after-bind :
    {S E A B : Type 0} (P : S → Type 0) (m : Exec S E A) (f : A → Exec S E B) (s : S)
    → P (m s).1
    → ((a : A) → (m s).0 ≡ ok a → P (f a (m s).1).1)
    → P ((m >>= f) s).1
after-bind P m f s bad good = go (m s).0 refl
  where
    go : (r : Result _ _) → (m s).0 ≡ r → P (follow r f (m s).1).1
    go (ok a) e = good a e
    go (err x) e = bad
