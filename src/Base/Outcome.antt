-- ===== src/Base/Outcome.antt =====
-- `Result` of the source, with its error type, and the combinators that the code uses.
use mathlib.Core.Path.{◌≡◌, refl}
use mathlib.Core.Bool.{Bool, true, false}
use mathlib.Core.Option.{Option, none, some}

pub data Result {ℓ} (E : Type ℓ) (A : Type ℓ) : Type ℓ where
  ok : A → Result E A
  err : E → Result E A

infixl 5 ◌>>=◌ ◌>>◌
abbrev pub ◌>>=◌ {ℓ} : {E A B : Type ℓ} → Result E A → (A → Result E B) → Result E B
ok value >>= next = next value
err error >>= _ = err error

abbrev pub ◌>>◌ : {E B : Type 0} → Result E (Unit {0}) → Result E B → Result E B
ok _ >> next = next
err error >> _ = err error

-- `if !b { return Err(e) }`
abbrev pub require : {E : Type 0} → Bool → E → Result E (Unit {0})
require true e = ok tt
require false e = err e

abbrev pub map_err {ℓ} : {E F A : Type ℓ} → Result E A → F → Result F A
map_err (ok a) f = ok a
map_err (err _) f = err f

abbrev pub ok_or {ℓ} : {E A : Type ℓ} → Option A → E → Result E A
ok_or (some a) e = ok a
ok_or none e = err e

-- `option.map(f).transpose()`
abbrev pub traverse {ℓ} : {E A B : Type ℓ} → (A → Result E B) → Option A → Result E (Option B)
traverse f none = ok none
traverse f (some a) = f a >>= λ b. ok (some b)

abbrev pub is_some {ℓ} : {A : Type ℓ} → Option A → Bool
is_some (some _) = true
is_some none = false

abbrev pub is_none {ℓ} : {A : Type ℓ} → Option A → Bool
is_none (some _) = false
is_none none = true

abbrev pub is_some_and {ℓ} : {A : Type ℓ} → Option A → (A → Bool) → Bool
is_some_and (some a) p = p a
is_some_and none p = false

-- Inversion of a successful bind, in the form that a chain of steps is taken apart with.
pub from-bind {ℓ κ} :
    {E A B : Type ℓ} {C : Type κ} (m : Result E A) (f : A → Result E B) {b : B}
    → (m >>= f) ≡ ok b
    → ((a : A) → m ≡ ok a → f a ≡ ok b → C)
    → C
from-bind (ok a) f h k = k a refl h
from-bind (err e) f h k = cc h

pub from-then {κ} :
    {E B : Type 0} {C : Type κ} (m : Result E (Unit {0})) (k : Result E B) {b : B}
    → (m >> k) ≡ ok b
    → (k ≡ ok b → C)
    → C
from-then (ok a) k h c = c h
from-then (err e) k h c = cc h

-- The same inversion as a pair.
pub >>=-eq-ok {ℓ} :
    {E A B : Type ℓ} {result : B} (m : Result E A) (next : A → Result E B)
    → (m >>= next) ≡ ok result
    → (value : A) × (m ≡ ok value) × (next value ≡ ok result)
>>=-eq-ok m next h = from-bind m next h (λ value here rest. (value, here, rest))

-- Inversion of a step that returns nothing.
pub >>-eq-ok :
    {E B : Type 0} (m : Result E (Unit {0})) (k : Result E B) {b : B}
    → (m >> k) ≡ ok b
    → (m ≡ ok tt) × (k ≡ ok b)
>>-eq-ok (ok _) k h = (refl, h)
>>-eq-ok (err e) k h = cc

-- Inversion of a guard.
pub require-eq-ok : {E : Type 0} (b : Bool) (e : E) → require b e ≡ ok tt → b ≡ true
require-eq-ok true e h = refl
require-eq-ok false e h = cc
