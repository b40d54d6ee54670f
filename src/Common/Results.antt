-- ===== src/Common/Results.antt =====
-- Code that may raise: the exception is a value of the model's own type.
use mathlib.Core.Path.{◌≡◌, refl}
use mathlib.Core.Bool.{Bool, true, false}

-- A call that raises `e`, or that returns `a`.
pub data Result {ℓ κ} (E : Type ℓ) (A : Type κ) : Type (ℓ ⊔ κ) where
  err : (e : E) → Result E A
  ok : (a : A) → Result E A

-- `if test: raise e`
abbrev pub raise_if {ℓ} : {E : Type ℓ} → (test : Bool) → (e : E) → Result E (Unit {0})
raise_if false e = ok tt
raise_if true e = err e

-- The statements after a call run on what it returns.
infixl 5 ◌>>=◌
abbrev pub ◌>>=◌ {κ ℓ ι} :
    {A : Type κ} {E : Type ℓ} {B : Type ι} → Result E A → (A → Result E B) → Result E B
err exn >>= next = err exn
ok res >>= next = next res

infixl 5 ◌>>◌
abbrev pub ◌>>◌ {ℓ κ} : {E : Type ℓ} {B : Type κ} → Result E (Unit {0}) → Result E B → Result E B
first >> second = first >>= λ done. second

-- A check that is passed, and what follows it.
pub raise_if-eq-ok {ℓ κ} :
    {E : Type ℓ} {B : Type κ} (test : Bool) (e : E) (next : Result E B) {b : B}
    → (raise_if test e >> next) ≡ ok b
    → (test ≡ false) × (next ≡ ok b)
raise_if-eq-ok false e next h = (refl, h)
raise_if-eq-ok true e next h = cc

-- A sequence returns only where both its parts do.
pub >>=-eq-ok {ℓ κ ι} :
    {E : Type ℓ} {A : Type κ} {B : Type ι} (call : Result E A) (next : A → Result E B) {res : B}
    → (call >>= next) ≡ ok res
    → (arg : A) × (call ≡ ok arg) × (next arg ≡ ok res)
>>=-eq-ok (err exn) next done = cc
>>=-eq-ok (ok arg) next done = (arg, refl, done)
