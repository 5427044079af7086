-- ===== src/Prelude/Posts.antt =====
-- What holds of the result and of the state after a program, whether it succeeds or fails.
use mathlib.Core.Path.{◌≡◌, refl}
use mathlib.Core.Bool.{Bool, true, false}
use mathlib.Core.Option.{Option, none, some}
use worldbisect.Prelude.Tests.{if◌then◌else◌}
use worldbisect.Prelude.Exec.{Result, ok, err, Exec, branch, follow, attempt, ◌>>=◌}

abbrev pub Post : {S E A : Type 0} → Exec S E A → S → (Result E A → S → Type 0) → Type 0
Post m s Q = Q (m s).0 (m s).1

module _ {S E A B : Type 0} where
  pub Post-bind :
      (m : Exec S E A) (f : A → Exec S E B) (s : S) (P : Result E A → S → Type 0)
      (Q : Result E B → S → Type 0)
      → Post m s P
      → ((e : E) (t : S) → P (err e) t → Q (err e) t)
      → ((a : A) (t : S) → P (ok a) t → Post (f a) t Q)
      → Post (m >>= f) s Q
  Post-bind m f s P Q p bad good = go (m s).0 (m s).1 p
    where
      go : (r : Result E A) (t : S) → P r t → Q (follow r f t).0 (follow r f t).1
      go (ok a) t h = good a t h
      go (err e) t h = bad e t h

  pub Post-attempt :
      (m : Exec S E A) (f : E → Exec S E B) (g : A → Exec S E B) (s : S)
      (P : Result E A → S → Type 0) (Q : Result E B → S → Type 0)
      → Post m s P
      → ((e : E) (t : S) → P (err e) t → Post (f e) t Q)
      → ((a : A) (t : S) → P (ok a) t → Post (g a) t Q)
      → Post (attempt m f g) s Q
  Post-attempt m f g s P Q p bad good = go (m s).0 (m s).1 p
    where
      go : (r : Result E A) (t : S) → P r t → Q (branch r f g t).0 (branch r f g t).1
      go (ok a) t h = good a t h
      go (err e) t h = bad e t h

module _ {S E A : Type 0} (s : S) (Q : Result E A → S → Type 0) where
  pub Post-if :
      (b : Bool) (m n : Exec S E A)
      → (b ≡ true → Post m s Q)
      → (b ≡ false → Post n s Q)
      → Post (if b then m else n) s Q
  Post-if true m n on_true on_false = on_true refl
  Post-if false m n on_true on_false = on_false refl

  pub Post-option :
      {V : Type 0} (o : Option V) (m : Exec S E A) (f : V → Exec S E A)
      → (o ≡ none → Post m s Q)
      → ((v : V) → o ≡ some v → Post (f v) s Q)
      → Post (elim o [ none ↦ m | some v ↦ f v ]) s Q
  Post-option none m f absent present = absent refl
  Post-option (some v) m f absent present = present v refl

pub Post-assoc :
    {S E A B C : Type 0} (m : Exec S E A) (f : A → Exec S E B) (g : B → Exec S E C) (s : S)
    (Q : Result E C → S → Type 0)
    → Post (m >>= λ a. f a >>= g) s Q
    → Post ((m >>= f) >>= g) s Q
Post-assoc {E = E} {A = A} m f g s Q = go (m s).0 (m s).1
  where
    go :
        (r : Result E A) (t : _)
        → Q (follow r (λ a. f a >>= g) t).0 (follow r (λ a. f a >>= g) t).1
        → Q
            (follow (follow r f t).0 g (follow r f t).1).0
            (follow (follow r f t).0 g (follow r f t).1).1
    go (ok a) t h = h
    go (err e) t h = h
