-- ===== src/Exec.antt =====
-- Python code that reads and writes a state and may raise: what was written before a raise stays
-- written, so the state comes back beside the exception too.

use mathlib.Core.Path.{◌≡◌, subst}

pub data Result {ℓ} (E A : Type ℓ) : Type ℓ where
  ok : A → Result E A
  err : E → Result E A

abbrev pub Exec {ℓ} : Type ℓ → Type ℓ → Type ℓ → Type ℓ
Exec S E A = S → Result E A × S

module _ {ℓ} {S E A : Type ℓ} where
  abbrev pub pure : A → Exec S E A
  pure a s = (ok a, s)

  abbrev pub raise : E → Exec S E A
  raise e s = (err e, s)

  abbrev pub lift : Result E A → Exec S E A
  lift r s = (r, s)

-- What follows a computation: one continuation for its value, one for its exception.
module _ {ℓ} {S E A F B : Type ℓ} where
  abbrev pub resume : Result E A → (A → Exec S F B) → (E → Exec S F B) → Exec S F B
  resume (ok a) f g s = f a s
  resume (err e) f g s = g e s

  -- `try: a = m` with `except Exception as e: g(e)`, and then `f(a)` outside the `try`
  unfoldable pub try_then : Exec S E A → (A → Exec S F B) → (E → Exec S F B) → Exec S F B
  try_then m f g s = let (r, s') = m s in resume r f g s'

module _ {ℓ} {S E A B : Type ℓ} where
  infixl 10 ◌>>=◌ ◌>>◌
  unfoldable pub ◌>>=◌ : Exec S E A → (A → Exec S E B) → Exec S E B
  unfolding try_then
  m >>= f = try_then m f raise

  unfoldable pub ◌>>◌ : Exec S E A → Exec S E B → Exec S E B
  unfolding ◌>>=◌
  m >> k = m >>= λ _. k

-- What holds of the value and the state, if the code returns.
abbrev pub Ensures {ℓ κ} : {S E A : Type ℓ} → (A → S → Type κ) → Result E A × S → Type κ
Ensures P (ok a, s) = P a s
Ensures P (err e, s) = Unit

module _ {ℓ κ} {S E A B : Type ℓ} (P : B → S → Type κ) where
  ensured :
      (r : Result E A × S) (f : A → Exec S E B) (Q : A → S → Type κ)
      → Ensures Q r
      → ((a : A) (s : S) → Q a s → Ensures P (f a s))
      → Ensures P (resume r.0 f raise r.1)
  ensured (ok a, s) f Q q h = h a s q
  ensured (err e, s) f Q q h = tt

  pub Ensures-bind :
      (m : Exec S E A) (f : A → Exec S E B) (s : S) (Q : A → S → Type κ)
      → Ensures Q (m s)
      → ((a : A) (s' : S) → Q a s' → Ensures P (f a s'))
      → Ensures P ((m >>= f) s)
  unfolding ◌>>=◌
  Ensures-bind m f s Q = ensured (m s) f Q

-- What is promised of every result is promised of the one that comes.
pub Ensures-ok {ℓ κ} :
    {S E A : Type ℓ} (P : A → S → Type κ) (r : Result E A × S) {a : A} {s : S}
    → Ensures P r
    → r ≡ (ok a, s)
    → P a s
Ensures-ok P r h e = subst (Ensures P) e h

-- nothing is asked of a value
pub Ensures-any {ℓ} : {S E A : Type ℓ} (r : Result E A × S) → Ensures (λ _ _. Unit {0}) r
Ensures-any (ok a, s) = tt
Ensures-any (err e, s) = tt

pub Ensures-imp {ℓ κ ι} :
    {S E A : Type ℓ} {P : A → S → Type κ} {Q : A → S → Type ι} (r : Result E A × S)
    → ((a : A) (s : S) → P a s → Q a s)
    → Ensures P r
    → Ensures Q r
Ensures-imp (ok a, s) f h = f a s h
Ensures-imp (err e, s) f h = tt

-- What holds of the value and the state, or of the exception and the state.
abbrev pub Leads {ℓ κ} :
    {S E A : Type ℓ} → (A → S → Type κ) → (E → S → Type κ) → Result E A × S → Type κ
Leads Q R (ok a, s) = Q a s
Leads Q R (err e, s) = R e s

module _ {ℓ κ} {S E A F B : Type ℓ} (P : B → S → Type κ) where
  tried :
      (r : Result E A × S) (f : A → Exec S F B) (g : E → Exec S F B) (Q : A → S → Type κ)
      (R : E → S → Type κ)
      → Leads Q R r
      → ((a : A) (s : S) → Q a s → Ensures P (f a s))
      → ((e : E) (s : S) → R e s → Ensures P (g e s))
      → Ensures P (resume r.0 f g r.1)
  tried (ok a, s) f g Q R q h k = h a s q
  tried (err e, s) f g Q R q h k = k e s q

  pub Ensures-try :
      (m : Exec S E A) (f : A → Exec S F B) (g : E → Exec S F B) (s : S) (Q : A → S → Type κ)
      (R : E → S → Type κ)
      → Leads Q R (m s)
      → ((a : A) (s' : S) → Q a s' → Ensures P (f a s'))
      → ((e : E) (s' : S) → R e s' → Ensures P (g e s'))
      → Ensures P (try_then m f g s)
  unfolding try_then
  Ensures-try m f g s Q R = tried (m s) f g Q R

module _ {ℓ κ} {S E A B : Type ℓ} (P : B → S → Type κ) (R : E → S → Type κ) where
  led :
      (r : Result E A × S) (f : A → Exec S E B) (Q : A → S → Type κ)
      → Leads Q R r
      → ((a : A) (s : S) → Q a s → Leads P R (f a s))
      → Leads P R (resume r.0 f raise r.1)
  led (ok a, s) f Q q h = h a s q
  led (err e, s) f Q q h = q

  pub Leads-bind :
      (m : Exec S E A) (f : A → Exec S E B) (s : S) (Q : A → S → Type κ)
      → Leads Q R (m s)
      → ((a : A) (s' : S) → Q a s' → Leads P R (f a s'))
      → Leads P R ((m >>= f) s)
  unfolding ◌>>=◌
  Leads-bind m f s Q = led (m s) f Q

module _ {ℓ κ} {S E A F B : Type ℓ} (P : B → S → Type κ) (T : F → S → Type κ) where
  tried_or :
      (r : Result E A × S) (f : A → Exec S F B) (g : E → Exec S F B)
      → ((a : A) (s : S) → Leads P T (f a s))
      → ((e : E) (s : S) → Leads P T (g e s))
      → Leads P T (resume r.0 f g r.1)
  tried_or (ok a, s) f g h k = h a s
  tried_or (err e, s) f g h k = k e s

  -- whatever the tried code does
  pub Leads-try :
      (m : Exec S E A) (f : A → Exec S F B) (g : E → Exec S F B) (s : S)
      → ((a : A) (s' : S) → Leads P T (f a s'))
      → ((e : E) (s' : S) → Leads P T (g e s'))
      → Leads P T (try_then m f g s)
  unfolding try_then
  Leads-try m f g s = tried_or (m s) f g

-- What is promised of every outcome is promised of the one that comes.
module _ {ℓ κ} {S E A : Type ℓ} (Q : A → S → Type κ) (R : E → S → Type κ) where
  pub Leads-ok : (r : Result E A × S) {a : A} {s : S} → Leads Q R r → r ≡ (ok a, s) → Q a s
  Leads-ok r h e = subst (Leads Q R) e h

  pub Leads-err : (r : Result E A × S) {x : E} {s : S} → Leads Q R r → r ≡ (err x, s) → R x s
  Leads-err r h e = subst (Leads Q R) e h

-- What holds of the state is left to hold, whether the code returns or raises.
module _ {ℓ κ} {S : Type ℓ} (P : S → Type κ) where
  abbrev pub Keeps : {E A : Type ℓ} → Exec S E A → Type (ℓ ⊔ κ)
  Keeps m = (s : S) → P s → P (m s).1

  module _ {E A B : Type ℓ} where
    kept_on :
        (r : Result E A × S) (f : A → Exec S E B)
        → P r.1
        → ((a : A) → Keeps (f a))
        → P (resume r.0 f raise r.1).1
    kept_on (ok a, s) f h k = k a s h
    kept_on (err e, s) f h k = h

    pub Keeps-after :
        (m : Exec S E A) (f : A → Exec S E B) (s : S)
        → P (m s).1
        → ((a : A) → Keeps (f a))
        → P ((m >>= f) s).1
    unfolding ◌>>=◌
    Keeps-after m f s = kept_on (m s) f

    pub Keeps-bind :
        (m : Exec S E A) (f : A → Exec S E B) → Keeps m → ((a : A) → Keeps (f a)) → Keeps (m >>= f)
    Keeps-bind m f h k s p = Keeps-after m f s (h s p) k
