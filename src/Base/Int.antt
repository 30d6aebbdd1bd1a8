-- ===== src/Base/Int.antt =====
-- Signed integers (`i64`, `i32`, SQLite INTEGER) over the native numbers.
use Prim.Native.Nat.{ℕ}
use mathlib.Core.Path.{◌≡◌, ap}
use mathlib.Core.Bool.{Bool, true, false}
use kapsel.Base.Equality.{Eq, ◌==◌, nat_eq, leb}

-- `negsuc n` is -(n + 1).
pub data ℤ : Type 0 where
  pos : ℕ → ℤ
  negsuc : ℕ → ℤ

abbrev int_beq : ℤ → ℤ → Bool
int_beq (pos a) (pos b) = a == b
int_beq (negsuc a) (negsuc b) = a == b
int_beq _ _ = false

pub int_beq_sound : (a b : ℤ) → int_beq a b ≡ true → a ≡ b
int_beq_sound (pos a) (pos b) h = ap pos (nat_eq.beq_sound a b h)
int_beq_sound (pos a) (negsuc b) h = cc
int_beq_sound (negsuc a) (pos b) h = cc
int_beq_sound (negsuc a) (negsuc b) h = ap negsuc (nat_eq.beq_sound a b h)

pub int_beq_refl : (a : ℤ) → int_beq a a ≡ true
int_beq_refl (pos a) = nat_eq.beq_refl a
int_beq_refl (negsuc a) = nat_eq.beq_refl a

instance abbrev pub int_eq : Eq ℤ
int_eq = record { beq = int_beq; beq_sound = int_beq_sound; beq_refl = int_beq_refl }

abbrev pub is_negative : ℤ → Bool
is_negative (pos _) = false
is_negative (negsuc _) = true

-- `a <= b`
abbrev pub leb_ℤ : ℤ → ℤ → Bool
leb_ℤ (pos a) (pos b) = leb a b
leb_ℤ (pos a) (negsuc b) = false
leb_ℤ (negsuc a) (pos b) = true
leb_ℤ (negsuc a) (negsuc b) = leb b a
