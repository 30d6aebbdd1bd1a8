-- ===== src/Gateway/Dispatch/Moves.antt =====
-- Actions whose every outcome is related to the world that they start from, for the relations that
-- the journal and the gateway of src/gateway are proved by.
use kapsel.Base.{Result, ok, err, refl}
use kapsel.Gateway.Types.{G, GatewayError}
use kapsel.Gateway.Journal.Store.{World, Run, Act, ◌>>=◌, ◌>>◌, lift, return, on_error, convert}
use kapsel.Gateway.Dispatch.{
  Grows, Grows-refl, Grows-trans, Grows-IsWithin, IsWithin, Holds, continue-Holds, Holds-weaken,
}
use kapsel.Gateway.Dispatch.Replace.{Reads, Reads-Grows, Reads-trans}

unfoldable pub Moves : {E A : Type 0} → (World → World → Type 0) → Run E A → Type 0
Moves R m = (w : World) → Holds (R w) (λ _ v. R w v) (m w)

module _ (R : World → World → Type 0) (R-refl : (w : World) → R w w)
    (R-trans : (u v w : World) → R u v → R v w → R u w) where
  pub lift-Moves : {E A : Type 0} (r : Result E A) → Moves R (lift r)
  unfolding Moves lift
  lift-Moves (ok value) w = R-refl w
  lift-Moves (err error) w = R-refl w

  pub return-Moves : (E : Type 0) {A : Type 0} (value : A) → Moves R (return {E = E} value)
  unfolding Moves return
  return-Moves E value w = R-refl w

  pub bind-Moves :
      {E A B : Type 0} (m : Run E A) (f : A → Run E B)
      → Moves R m
      → ((value : A) → Moves R (f value))
      → Moves R (m >>= f)
  unfolding Moves ◌>>=◌
  bind-Moves m f h k w =
      continue-Holds (R w) (λ _ v. R w v) (λ _ v. R w v) (m w) f (h w)
        (λ value v r.
          Holds-weaken (R v) (R w) (λ _ u. R v u) (λ _ u. R w u) (f value v) (λ u. R-trans w v u r)
            (λ _ u. R-trans w v u r) (k value v))

  pub then-Moves :
      {E B : Type 0} (m : Run E (Unit {0})) (k : Run E B) → Moves R m → Moves R k → Moves R (m >> k)
  unfolding Moves ◌>>=◌ ◌>>◌
  then-Moves m k h g = bind-Moves m (λ _. k) h (λ _. g)

pub on_error-Moves :
    {E A : Type 0} (R : World → World → Type 0) (f : GatewayError → E) (m : Act A)
    → Moves R m
    → Moves R (on_error f m)
unfolding Moves
on_error-Moves {A = A} R f m h w = convert_case (m w) (h w)
  where
    convert_case :
        (out : G A × World)
        → Holds (R w) (λ _ v. R w v) out
        → Holds (R w) (λ _ v. R w v) (convert f out)
    convert_case (ok value, v) k = k
    convert_case (err error, v) k = k

-- An action that reads: the rows and the requests stay.
abbrev pub Reading : {E A : Type 0} → Run E A → Type 0
Reading m = Moves Reads m

-- An action that sends nothing and loses no attempt.
abbrev pub Growing : {E A : Type 0} → Run E A → Type 0
Growing m = Moves Grows m

-- An action that leaves every request covered by an attempt.
abbrev pub Covers : World → World → Type 0
Covers w v = IsWithin w → IsWithin v

abbrev pub Covering : {E A : Type 0} → Run E A → Type 0
Covering m = Moves Covers m

pub Reads-refl : (w : World) → Reads w w
Reads-refl w = record { rows = refl; sent = refl; git = refl }

Covers-trans : (u v w : World) → Covers u v → Covers v w → Covers u w
Covers-trans u v w f g h = g (f h)

pub Reading-lift : {E A : Type 0} (r : Result E A) → Reading (lift r)
Reading-lift r = lift-Moves Reads Reads-refl Reads-trans r

pub Reading-return : (E : Type 0) {A : Type 0} (value : A) → Reading (return {E = E} value)
Reading-return E value = return-Moves Reads Reads-refl Reads-trans E value

pub Reading-bind :
    {E A B : Type 0} (m : Run E A) (f : A → Run E B)
    → Reading m
    → ((value : A) → Reading (f value))
    → Reading (m >>= f)
Reading-bind m f h k = bind-Moves Reads Reads-refl Reads-trans m f h k

pub Reading-then :
    {E B : Type 0} (m : Run E (Unit {0})) (k : Run E B) → Reading m → Reading k → Reading (m >> k)
Reading-then m k h g = then-Moves Reads Reads-refl Reads-trans m k h g

pub Growing-lift : {E A : Type 0} (r : Result E A) → Growing (lift r)
Growing-lift r = lift-Moves Grows Grows-refl Grows-trans r

pub Growing-return : (E : Type 0) {A : Type 0} (value : A) → Growing (return {E = E} value)
Growing-return E value = return-Moves Grows Grows-refl Grows-trans E value

pub Growing-bind :
    {E A B : Type 0} (m : Run E A) (f : A → Run E B)
    → Growing m
    → ((value : A) → Growing (f value))
    → Growing (m >>= f)
Growing-bind m f h k = bind-Moves Grows Grows-refl Grows-trans m f h k

pub Growing-then :
    {E B : Type 0} (m : Run E (Unit {0})) (k : Run E B) → Growing m → Growing k → Growing (m >> k)
Growing-then m k h g = then-Moves Grows Grows-refl Grows-trans m k h g

pub Covering-lift : {E A : Type 0} (r : Result E A) → Covering (lift r)
Covering-lift r = lift-Moves Covers (λ w h. h) Covers-trans r

pub Covering-return : (E : Type 0) {A : Type 0} (value : A) → Covering (return {E = E} value)
Covering-return E value = return-Moves Covers (λ w h. h) Covers-trans E value

pub Covering-bind :
    {E A B : Type 0} (m : Run E A) (f : A → Run E B)
    → Covering m
    → ((value : A) → Covering (f value))
    → Covering (m >>= f)
Covering-bind m f h k = bind-Moves Covers (λ w h. h) Covers-trans m f h k

pub Covering-then :
    {E B : Type 0} (m : Run E (Unit {0})) (k : Run E B)
    → Covering m
    → Covering k
    → Covering (m >> k)
Covering-then m k h g = then-Moves Covers (λ w h. h) Covers-trans m k h g

pub Reading-Growing : {E A : Type 0} (m : Run E A) → Reading m → Growing m
unfolding Moves
Reading-Growing m h w =
    Holds-weaken (Reads w) (Grows w) (λ _ v. Reads w v) (λ _ v. Grows w v) (m w) (Reads-Grows w)
      (λ _. Reads-Grows w) (h w)

pub Growing-Covering : {E A : Type 0} (m : Run E A) → Growing m → Covering m
unfolding Moves
Growing-Covering m h w =
    Holds-weaken (Grows w) (Covers w) (λ _ v. Grows w v) (λ _ v. Covers w v) (m w)
      (Grows-IsWithin w) (λ _. Grows-IsWithin w) (h w)

pub Reading-Covering : {E A : Type 0} (m : Run E A) → Reading m → Covering m
Reading-Covering m h = Growing-Covering m (Reading-Growing m h)

pub Covering-on_error :
    {E A : Type 0} (f : GatewayError → E) (m : Act A) → Covering m → Covering (on_error f m)
Covering-on_error f m h = on_error-Moves Covers f m h
