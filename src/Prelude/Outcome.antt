-- ===== src/Prelude/Outcome.antt =====
-- The outcome of a Go function: a value, a returned error, or a run-time panic.
use mathlib.Core.Path.{◌≡◌, refl}
use mathlib.Core.Option.{Option, none, some}

pub data Run {ℓ} (A : Type ℓ) : Type ℓ where
  ok : A → Run A
  err : Run A
  panic : Run A

infixl 5 ◌>>=◌
abbrev pub ◌>>=◌ {ℓ κ} : {A : Type ℓ} {B : Type κ} → Run A → (A → Run B) → Run B
ok a >>= f = f a
err >>= f = err
panic >>= f = panic

-- An access that panics where there is nothing.
abbrev pub must {ℓ} : {A : Type ℓ} → Option A → Run A
must none = panic
must (some a) = ok a

-- An access that returns an error where there is nothing.
abbrev pub or_err {ℓ} : {A : Type ℓ} → Option A → Run A
or_err none = err
or_err (some a) = ok a

-- The call ends with a value that satisfies P.
abbrev pub Returns {ℓ} : {A : Type ℓ} → (A → Type 0) → Run A → Type 0
Returns P (ok a) = P a
Returns P err = ⊥
Returns P panic = ⊥

pub Returns-bind {ℓ κ} :
    {A : Type ℓ} {B : Type κ} (P : A → Type 0) (Q : B → Type 0) (m : Run A) (f : A → Run B)
    → Returns P m
    → ((a : A) → P a → Returns Q (f a))
    → Returns Q (m >>= f)
Returns-bind P Q (ok a) f p h = h a p
Returns-bind P Q err f p h = absurd p
Returns-bind P Q panic f p h = absurd p

-- Two things hold of what a call ends with.
pub Returns-both {ℓ} :
    {A : Type ℓ} (P Q : A → Type 0) (m : Run A)
    → Returns P m
    → Returns Q m
    → Returns (λ a. P a × Q a) m
Returns-both P Q (ok a) p q = (p, q)
Returns-both P Q err p q = absurd p
Returns-both P Q panic p q = absurd p

-- What a call ends with satisfies what follows from P.
pub Returns-map {ℓ} :
    {A : Type ℓ} (P Q : A → Type 0) (m : Run A) → ((a : A) → P a → Q a) → Returns P m → Returns Q m
Returns-map P Q (ok a) f p = f a p
Returns-map P Q err f p = p
Returns-map P Q panic f p = p

pub >>=_assoc {ℓ κ μ} :
    {A : Type ℓ} {B : Type κ} {C : Type μ} (m : Run A) (f : A → Run B) (g : B → Run C)
    → ((m >>= f) >>= g) ≡ (m >>= λ a. f a >>= g)
>>=_assoc (ok a) f g = refl
>>=_assoc err f g = refl
>>=_assoc panic f g = refl

-- Two continuations that agree may be exchanged.
pub >>=_cong {ℓ κ} :
    {A : Type ℓ} {B : Type κ} (m : Run A) (f g : A → Run B)
    → ((a : A) → f a ≡ g a)
    → (m >>= f) ≡ (m >>= g)
>>=_cong (ok a) f g h = h a
>>=_cong err f g h = refl
>>=_cong panic f g h = refl
