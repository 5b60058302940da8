-- ===== src/Prelude/Outcome.antt =====
-- Rust's `Result`, with the `?` operator as bind.
use mathlib.Core.Path.{◌≡◌, refl}
use mathlib.Core.Bool.{Bool, true, false}
use amt.Prelude.Tests.{if◌then◌else◌}
use mathlib.Core.Logic.{◌⊎◌, inl, inr}
use mathlib.Core.Option.{Option, none, some}

pub data Result {ℓ κ} (E : Type κ) (A : Type ℓ) : Type (ℓ ⊔ κ) where
  ok : A → Result E A
  err : E → Result E A

infixl 5 ◌>>=◌ ◌>>◌
abbrev pub ◌>>=◌ {ℓ κ μ} :
    {E : Type κ} {A : Type ℓ} {B : Type μ} → Result E A → (A → Result E B) → Result E B
err failure >>= next = err failure
ok value >>= next = next value

abbrev pub ◌>>◌ {ℓ κ} : {E : Type κ} {B : Type ℓ} → Result E (Unit {0}) → Result E B → Result E B
first >> then_this = first >>= λ _. then_this

-- A guard clause: the error where the test fails.
abbrev pub guard {κ} : {E : Type κ} → Bool → E → Result E (Unit {0})
guard false failure = err failure
guard true failure = ok tt

abbrev pub ok_or {ℓ κ} : {E : Type κ} {A : Type ℓ} → Option A → E → Result E A
ok_or none e = err e
ok_or (some a) e = ok a

-- `?` through a `From` conversion of the error.
abbrev pub map_err {ℓ κ μ} :
    {E : Type κ} {F : Type μ} {A : Type ℓ} → (E → F) → Result E A → Result F A
map_err f (ok a) = ok a
map_err f (err e) = err (f e)

pub Result-cases {ℓ κ} :
    {E : Type κ} {A : Type ℓ} (r : Result E A) → ((a : A) × (r ≡ ok a)) ⊎ ((e : E) × (r ≡ err e))
Result-cases (ok a) = inl (a, refl)
Result-cases (err e) = inr (e, refl)

-- Inversion of a successful bind, and of a failed one.
pub >>=-eq-ok {ℓ κ μ} :
    {E : Type κ} {A : Type ℓ} {B : Type μ} (first : Result E A) (next : A → Result E B) {b : B}
    → (first >>= next) ≡ ok b
    → (value : A) × (first ≡ ok value) × (next value ≡ ok b)
>>=-eq-ok (err failure) next h = cc
>>=-eq-ok (ok value) next h = (value, refl, h)

pub >>=-eq-err {ℓ κ μ} :
    {E : Type κ} {A : Type ℓ} {B : Type μ} (m : Result E A) (f : A → Result E B) {e : E}
    → (m >>= f) ≡ err e
    → (m ≡ err e) ⊎ ((a : A) × (m ≡ ok a) × (f a ≡ err e))
>>=-eq-err (ok a) f h = inr (a, refl, h)
>>=-eq-err (err e) f h = inl (cc)

-- Inversion of a successful early return.
pub refuse-eq-ok {ℓ κ} :
    {E : Type κ} {A : Type ℓ} (test : Bool) (e : E) (r : Result E A) {a : A}
    → (if test then err e else r) ≡ ok a
    → (test ≡ false) × (r ≡ ok a)
refuse-eq-ok false e r h = (refl, h)
refuse-eq-ok true e r h = cc
