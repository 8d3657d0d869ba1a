-- ===== src/Common/Result.antt =====
-- A value or an error, for Go's pairs of a result and an `error`.
use mathlib.Core.Path.{◌≡◌, refl, subst}

pub data Result {ℓ κ} (E : Type ℓ) (A : Type κ) : Type (ℓ ⊔ κ) where
  ok : A → Result E A
  err : E → Result E A

infixl 5 ◌>>=◌
abbrev pub ◌>>=◌ {ℓ κ ι} :
    {E : Type ℓ} {A : Type κ} {B : Type ι} → Result E A → (A → Result E B) → Result E B
ok a >>= f = f a
err e >>= f = err e

-- Where a chain gives a value, its first part gives one, and the rest goes on from there.
pub >>=-eq-ok {ℓ κ ι} :
    {E : Type ℓ} {A : Type κ} {B : Type ι} (first : Result E A) (next : A → Result E B) {result : B}
    → (first >>= next) ≡ ok result
    → (given : A) × (first ≡ ok given) × (next given ≡ ok result)
>>=-eq-ok (ok given) next e = (given, refl, e)
>>=-eq-ok (err _) next e = cc

abbrev pub with_error {ℓ κ ι} :
    {E : Type ℓ} {F : Type κ} {A : Type ι} → (E → F) → Result E A → Result F A
with_error f (ok a) = ok a
with_error f (err e) = err (f e)

-- What holds of the value, if there is one.
abbrev pub Yields {ℓ κ ι} : {E : Type ℓ} {A : Type κ} → (A → Type ι) → Result E A → Type ι
Yields P (ok a) = P a
Yields P (err e) = Unit

pub Yields-bind {ℓ κ ι μ ν} :
    {E : Type ℓ} {A : Type κ} {B : Type ι} (P : A → Type μ) (Q : B → Type ν) (m : Result E A)
    (f : A → Result E B)
    → Yields P m
    → ((a : A) → P a → Yields Q (f a))
    → Yields Q (m >>= f)
Yields-bind P Q (ok a) f h k = k a h
Yields-bind P Q (err e) f h k = tt

-- The value itself, as the result of the call.
pub Yields-self {ℓ κ} : {E : Type ℓ} {A : Type κ} (m : Result E A) → Yields (λ a. m ≡ ok a) m
Yields-self (ok a) = refl
Yields-self (err e) = tt

pub Yields-with_error {ℓ κ ι μ} :
    {E : Type ℓ} {F : Type κ} {A : Type ι} (P : A → Type μ) (f : E → F) (m : Result E A)
    → Yields P m
    → Yields P (with_error f m)
Yields-with_error P f (ok a) h = h
Yields-with_error P f (err e) h = tt

pub Yields-eq {ℓ κ ι} :
    {E : Type ℓ} {A : Type κ} (P : A → Type ι) (m : Result E A) {a : A}
    → Yields P m
    → m ≡ ok a
    → P a
Yields-eq P m h e = subst (Yields P) e h

pub Yields-then {ℓ κ ι ν} :
    {E : Type ℓ} {A : Type κ} {B : Type ι} (Q : B → Type ν) (m : Result E A) (f : A → Result E B)
    → ((a : A) → Yields Q (f a))
    → Yields Q (m >>= f)
Yields-then Q (ok a) f k = k a
Yields-then Q (err e) f k = tt

pub with_error-eq-ok {ℓ κ ι} :
    {E : Type ℓ} {F : Type κ} {A : Type ι} (f : E → F) (m : Result E A) {a : A}
    → with_error f m ≡ ok a
    → m ≡ ok a
with_error-eq-ok f (ok a) h = cc
with_error-eq-ok f (err e) h = cc

pub Yields-mono {ℓ κ ι μ} :
    {E : Type ℓ} {A : Type κ} (P : A → Type ι) (Q : A → Type μ) (m : Result E A)
    → Yields P m
    → ((a : A) → P a → Q a)
    → Yields Q m
Yields-mono P Q (ok a) h f = f a h
Yields-mono P Q (err e) h f = tt
