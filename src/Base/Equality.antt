-- ===== src/Base/Equality.antt =====
-- Boolean tests. `==` decides equality by the instance of its type, as `PartialEq` does in the source.
use Prim.Native.Nat.{ℕ, compare, Ordering}
use mathlib.Core.Path.{◌≡◌, refl, ap}
use mathlib.Core.Logic.{◌⊎◌, inl, inr}
use mathlib.Core.Bool.{Bool, true, false}
use mathlib.Core.Option.{Option, none, some}
use mathlib.Core.List.{List, [], ◌∷◌}
use native.Mathlib.Omega.{arith}

infix 1 if◌then◌else◌
abbrev pub if◌then◌else◌ {ℓ} : {A : Type ℓ} → Bool → A → A → A
if true then x else y = x
if false then x else y = y

abbrev pub leb : ℕ → ℕ → Bool
leb a b = elim (compare a b) [ Ordering.gt ↦ false | _ ↦ true ]

abbrev pub ltb : ℕ → ℕ → Bool
ltb a b = elim (compare a b) [ Ordering.lt ↦ true | _ ↦ false ]

pub record Eq {ℓ} (A : Type ℓ) : Type ℓ where
  pub beq : A → A → Bool
  pub beq_sound : (a b : A) → beq a b ≡ true → a ≡ b
  pub beq_refl : (a : A) → beq a a ≡ true

infix 50 ◌==◌ ◌!=◌
abbrev pub ◌==◌ {ℓ} : {A : Type ℓ} ⦃e : Eq A⦄ → A → A → Bool
◌==◌ ⦃e⦄ = e.beq

abbrev pub ◌!=◌ {ℓ} : {A : Type ℓ} ⦃e : Eq A⦄ → A → A → Bool
a != b = if a == b then false else true

pub Bool-cases : (b : Bool) → (b ≡ true) ⊎ (b ≡ false)
Bool-cases true = inl refl
Bool-cases false = inr refl

abbrev nat_beq : ℕ → ℕ → Bool
nat_beq a b = elim (compare a b) [ Ordering.eq ↦ true | _ ↦ false ]

pub nat_beq_sound : (a b : ℕ) → nat_beq a b ≡ true → a ≡ b
nat_beq_sound a b h = ground arith

pub nat_beq_refl : (a : ℕ) → nat_beq a a ≡ true
nat_beq_refl a = ground arith

instance abbrev pub nat_eq : Eq ℕ
nat_eq = record { beq = nat_beq; beq_sound = nat_beq_sound; beq_refl = nat_beq_refl }

abbrev bool_beq : Bool → Bool → Bool
bool_beq true b = b
bool_beq false true = false
bool_beq false false = true

pub bool_beq_sound : (a b : Bool) → bool_beq a b ≡ true → a ≡ b
bool_beq_sound a b h = ground arith

pub bool_beq_refl : (a : Bool) → bool_beq a a ≡ true
bool_beq_refl a = ground arith

instance abbrev pub bool_eq : Eq Bool
bool_eq = record { beq = bool_beq; beq_sound = bool_beq_sound; beq_refl = bool_beq_refl }

module _ {ℓ} {A : Type ℓ} ⦃e : Eq A⦄ where
  abbrev list_beq : List A → List A → Bool
  list_beq [] [] = true
  list_beq (x ∷ xs) (y ∷ ys) = let rest = list_beq xs ys in if x == y then rest else false
  list_beq _ _ = false

  pub list_beq_sound : (xs ys : List A) → list_beq xs ys ≡ true → xs ≡ ys
  list_beq_sound [] [] h = refl
  list_beq_sound [] (y ∷ ys) h = cc
  list_beq_sound (x ∷ xs) [] h = cc
  list_beq_sound (x ∷ xs) (y ∷ ys) h = elim (Bool-cases (x == y)) [
    | inl p ↦ cc (e.beq_sound x y p, list_beq_sound xs ys (rw p at h))
    | inr p ↦ cc (h, p)
  ]

  pub list_beq_refl : (xs : List A) → list_beq xs xs ≡ true
  list_beq_refl [] = refl
  list_beq_refl (x ∷ xs) = rw (e.beq_refl x) (list_beq_refl xs)

  instance abbrev pub list_eq : Eq (List A)
  list_eq = record { beq = list_beq; beq_sound = list_beq_sound; beq_refl = list_beq_refl }

  abbrev option_beq : Option A → Option A → Bool
  option_beq none none = true
  option_beq (some x) (some y) = x == y
  option_beq _ _ = false

  pub option_beq_sound : (a b : Option A) → option_beq a b ≡ true → a ≡ b
  option_beq_sound none none h = refl
  option_beq_sound none (some y) h = cc
  option_beq_sound (some x) none h = cc
  option_beq_sound (some x) (some y) h = ap some (e.beq_sound x y h)

  pub option_beq_refl : (a : Option A) → option_beq a a ≡ true
  option_beq_refl none = refl
  option_beq_refl (some x) = e.beq_refl x

  instance abbrev pub option_eq : Eq (Option A)
  option_eq = record { beq = option_beq; beq_sound = option_beq_sound; beq_refl = option_beq_refl }

-- A test from a decision of equality.
module _ {ℓ} {A : Type ℓ} (d : Discrete A) where
  abbrev dec_beq : A → A → Bool
  dec_beq a b = elim (d a b) [ yes _ ↦ true | no _ ↦ false ]

  pub dec_beq_sound : (a b : A) → dec_beq a b ≡ true → a ≡ b
  dec_beq_sound a b h =
      elim (d a b) as (λ v. elim v [ yes _ ↦ true | no _ ↦ false ] ≡ true → a ≡ b) [
        | yes p ↦ λ _. p
        | no n ↦ λ q. cc
      ]
        h

  pub dec_beq_refl : (a : A) → dec_beq a a ≡ true
  dec_beq_refl a = elim (d a a) as (λ v. elim v [ yes _ ↦ true | no _ ↦ false ] ≡ true) [
    | yes p ↦ refl
    | no n ↦ absurd (n refl)
  ]

  abbrev pub eq_by : Eq A
  eq_by = record { beq = dec_beq; beq_sound = dec_beq_sound; beq_refl = dec_beq_refl }
