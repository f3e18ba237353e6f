-- ===== src/Prelude/Fallible.antt =====
-- A Go pair of a value and an error, of which exactly one counts.
use mathlib.Core.Path.{◌≡◌, refl}
use mathlib.Core.Bool.{Bool, true, false}
use mathlib.Core.Option.{Option, none, some}
use native.Mathlib.Omega.{arith}
use clientkit.Prelude.Callback.{Call, returned, panicked}

pub data Result {ℓ κ} (E : Type ℓ) (A : Type κ) : Type (ℓ ⊔ κ) where
  ok : A → Result E A
  err : E → Result E A

infixl 5 ◌>>=◌ ◌>>◌
abbrev pub ◌>>=◌ {ℓ κ μ} :
    {E : Type ℓ} {A : Type κ} {B : Type μ} → Result E A → (A → Result E B) → Result E B
ok a >>= f = f a
err e >>= f = err e

abbrev pub ◌>>◌ {ℓ κ} : {E : Type ℓ} {B : Type κ} → Result E (Unit {0}) → Result E B → Result E B
m >> k = m >>= λ _. k

-- `if bad { return …, e }`.
abbrev pub refuse_if {ℓ} : {E : Type ℓ} → Bool → E → Result E (Unit {0})
refuse_if true e = err e
refuse_if false e = ok tt

-- The value of a call that a deferred recover turns into an error.
abbrev pub or_panic {ℓ κ} : {E : Type ℓ} {A : Type κ} → Call A → E → Result E A
or_panic (returned a) e = ok a
or_panic panicked e = err e

-- `if err := …; err != nil { return …, wrap(err) }`.
abbrev pub refuse_error {ℓ κ} : {D : Type ℓ} {E : Type κ} → Option D → (D → E) → Result E (Unit {0})
refuse_error none wrap = ok tt
refuse_error (some d) wrap = err (wrap d)

pub >>=-eq-ok {ℓ κ μ} :
    {E : Type ℓ} {A : Type κ} {B : Type μ} (first : Result E A) (next : A → Result E B) {result : B}
    → (first >>= next) ≡ ok result
    → (value : A) × (first ≡ ok value) × (next value ≡ ok result)
>>=-eq-ok (err error) next h = cc
>>=-eq-ok (ok value) next h = (value, refl, h)

pub or_panic-eq-ok {ℓ κ} :
    {E : Type ℓ} {A : Type κ} (m : Call A) (e : E) {a : A} → or_panic m e ≡ ok a → m ≡ returned a
or_panic-eq-ok (returned b) e h = ground arith
or_panic-eq-ok panicked e h = cc

pub refuse_error-eq-ok {ℓ κ} :
    {D : Type ℓ} {E : Type κ} (o : Option D) (wrap : D → E) {u : Unit {0}}
    → refuse_error o wrap ≡ ok u
    → o ≡ none
refuse_error-eq-ok none wrap h = refl
refuse_error-eq-ok (some d) wrap h = cc

pub refuse_if-eq-ok {ℓ} :
    {E : Type ℓ} (b : Bool) (e : E) {u : Unit {0}} → refuse_if b e ≡ ok u → b ≡ false
refuse_if-eq-ok true e h = cc
refuse_if-eq-ok false e h = refl
