-- ===== src/Base/Counts.antt =====
-- A list as the slots of a table: a write to one slot, what holds of every slot, and how many slots
-- pass a test.
use Prim.Native.Nat.{ℕ, zero, suc, ◌+◌, ◌≤◌}
use mathlib.Core.Path.{◌≡◌, refl}
use mathlib.Core.Bool.{Bool, true, false}
use mathlib.Core.Option.{some}
use mathlib.Core.List.{List, [], ◌∷◌, ◌++◌}
use mathlib.Core.Logic.{inl, inr}
use native.Mathlib.Omega.{arith}
use kapsel.Base.Equality.{Bool-cases, if◌then◌else◌}
use kapsel.Base.Lists.{get_elem?}

abbrev pub bit : Bool → ℕ
bit b = if b then 1 else 0

module _ {ℓ} {A : Type ℓ} where
  -- A write out of bounds changes nothing.
  abbrev pub set : List A → ℕ → A → List A
  set [] i v = []
  set (x ∷ xs) zero v = v ∷ xs
  set (x ∷ xs) (suc i) v = x ∷ set xs i v

  unfoldable pub count_if : (A → Bool) → List A → ℕ
  count_if p [] = 0
  count_if p (x ∷ xs) = bit (p x) + count_if p xs

  pub count_if-snoc :
      (p : A → Bool) (xs : List A) (x : A) → count_if p (xs ++ x ∷ []) ≡ count_if p xs + bit (p x)
  unfolding count_if
  count_if-snoc p [] x = omega arith
  count_if-snoc p (y ∷ xs) x = omega (arith, count_if-snoc p xs x)

  pub count_if-set :
      (p : A → Bool) (xs : List A) (k : ℕ) (x y : A)
      → get_elem? xs k ≡ some x
      → count_if p (set xs k y) + bit (p x) ≡ count_if p xs + bit (p y)
  unfolding count_if
  count_if-set p [] k x y h = cc h
  count_if-set p (z ∷ xs) zero x y h = let e : z ≡ x = cc h in rw e (omega arith)
  count_if-set p (z ∷ xs) (suc k) x y h = omega (arith, count_if-set p xs k x y h)

  pub count_if-pos :
      (p : A → Bool) (xs : List A) (k : ℕ) (x : A)
      → get_elem? xs k ≡ some x
      → p x ≡ true
      → 1 ≤ count_if p xs
  unfolding count_if
  count_if-pos p [] k x h t = cc h
  count_if-pos p (z ∷ xs) zero x h t = let e : z ≡ x = cc h in rw e (rw t (omega arith))
  count_if-pos p (z ∷ xs) (suc k) x h t = omega (arith, count_if-pos p xs k x h t)

module _ {ℓ κ} {A : Type ℓ} (P : A → Type κ) where
  abbrev pub All : List A → Type κ
  All [] = Unit
  All (x ∷ xs) = P x × All xs

  pub All-snoc : (xs : List A) (x : A) → All xs → P x → All (xs ++ x ∷ [])
  All-snoc [] x h hx = (hx, tt)
  All-snoc (y ∷ xs) x h hx = (h.0, All-snoc xs x h.1 hx)

  pub All-set : (xs : List A) (k : ℕ) (y : A) → All xs → P y → All (set xs k y)
  All-set [] k y h hy = tt
  All-set (x ∷ xs) zero y h hy = (hy, h.1)
  All-set (x ∷ xs) (suc k) y h hy = (h.0, All-set xs k y h.1 hy)

  pub All-get_elem? : (xs : List A) (k : ℕ) (x : A) → All xs → get_elem? xs k ≡ some x → P x
  All-get_elem? [] k x h e = cc e
  All-get_elem? (z ∷ xs) zero x h e = let q : z ≡ x = cc e in rw (← q) h.0
  All-get_elem? (z ∷ xs) (suc k) x h e = All-get_elem? xs k x h.1 e

pub All-mono {ℓ κ} :
    {A : Type ℓ} (P Q : A → Type κ) (xs : List A) → ((x : A) → P x → Q x) → All P xs → All Q xs
All-mono P Q [] f h = tt
All-mono P Q (x ∷ xs) f h = (f x h.0, All-mono P Q xs f h.1)

pub All-both {ℓ κ} :
    {A : Type ℓ} (P Q : A → Type κ) (xs : List A) → All P xs → All Q xs → All (λ x. P x × Q x) xs
All-both P Q [] h k = tt
All-both P Q (x ∷ xs) h k = ((h.0, k.0), All-both P Q xs h.1 k.1)

pub All-count_if_zero {ℓ} :
    {A : Type ℓ} (p : A → Bool) (xs : List A) → count_if p xs ≡ 0 → All (λ x. p x ≡ false) xs
unfolding count_if
All-count_if_zero p [] h = tt
All-count_if_zero p (x ∷ xs) h = elim (Bool-cases (p x)) [
  | inl t ↦ let one : bit (p x) ≡ 1 = rw t refl in absurd (omega (arith, one, h))
  | inr f ↦ (f, All-count_if_zero p xs (omega (arith, h)))
]

-- A test that implies another counts no more.
pub count_if_mono {ℓ} :
    {A : Type ℓ} (p q : A → Bool) (xs : List A)
    → All (λ x. p x ≡ true → q x ≡ true) xs
    → count_if p xs ≤ count_if q xs
unfolding count_if
count_if_mono p q [] h = omega arith
count_if_mono p q (x ∷ xs) h = elim (Bool-cases (p x)) [
  | inl t ↦ rw t (rw (h.0 t) (omega (arith, count_if_mono p q xs h.1)))
  | inr f ↦ rw f (omega (arith, count_if_mono p q xs h.1))
]

pub count_if-All-false {ℓ} :
    {A : Type ℓ} (p : A → Bool) (xs : List A) → All (λ x. p x ≡ false) xs → count_if p xs ≡ 0
unfolding count_if
count_if-All-false p [] h = refl
count_if-All-false p (x ∷ xs) h = rw (h.0) (omega (arith, count_if-All-false p xs h.1))
