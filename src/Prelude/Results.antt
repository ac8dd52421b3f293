-- ===== src/Prelude/Results.antt =====
-- A Go result `(T, error)`: a value, or an error of the caller's type.
use mathlib.Core.Path.{◌≡◌, refl}
use mathlib.Core.Logic.{◌↔◌, ◌⊎◌, inl, inr}
use mathlib.Core.Option.{Option, none, some}

pub data Result {ℓ} (E A : Type ℓ) : Type ℓ where
  ok : A → Result E A
  err : E → Result E A

infixl 5 ◌>>=◌
abbrev pub ◌>>=◌ {ℓ} : {E A B : Type ℓ} → Result E A → (A → Result E B) → Result E B
ok value >>= next = next value
err e >>= next = err e

-- `if err != nil { return nil, e }`
abbrev pub or_else {ℓ} : {E A : Type ℓ} → Option A → E → Result E A
or_else none e = err e
or_else (some a) e = ok a

-- `fmt.Errorf("...: %w", err)`
abbrev pub wrap_err {ℓ} : {E E' A : Type ℓ} → (E → E') → Result E A → Result E' A
wrap_err f (ok a) = ok a
wrap_err f (err e) = err (f e)

-- The parts of a chain that succeeds.
pub >>=-eq-ok {ℓ} :
    {E A B : Type ℓ} {last : B} (first : Result E A) (next : A → Result E B)
    → (first >>= next) ≡ ok last
    → (value : A) × (first ≡ ok value) × (next value ≡ ok last)
>>=-eq-ok (err e) next chain = cc
>>=-eq-ok (ok value) next chain = (value, refl, chain)

pub Result-cases {ℓ} :
    {E A : Type ℓ} (r : Result E A) → ((e : E) × (r ≡ err e)) ⊎ ((a : A) × (r ≡ ok a))
Result-cases (err e) = inl (e, refl)
Result-cases (ok a) = inr (a, refl)

-- Where the last step of a chain cannot fail, the first has failed.
pub >>=-eq-err {ℓ} :
    {E A B : Type ℓ} (first : Result E A) (f : A → B) {e : E}
    → (first >>= λ a. ok (f a)) ≡ err e
    → first ≡ err e
>>=-eq-err (err e) f chain = cc
>>=-eq-err (ok value) f chain = cc

pub or_else-eq-ok_iff {ℓ} :
    {E A : Type ℓ} (o : Option A) (e : E) (a : A) → (or_else o e ≡ ok a) ↔ (o ≡ some a)
or_else-eq-ok_iff none e a = (λ p. cc, λ p. cc)
or_else-eq-ok_iff (some b) e a = (λ p. cc, λ p. cc)

pub wrap_err-eq-ok_iff {ℓ} :
    {E E' A : Type ℓ} (f : E → E') (r : Result E A) (a : A) → (wrap_err f r ≡ ok a) ↔ (r ≡ ok a)
wrap_err-eq-ok_iff f (ok b) a = (λ p. cc, λ p. cc)
wrap_err-eq-ok_iff f (err e) a = (λ p. cc, λ p. cc)
