-- ===== src/Base/Octets.antt =====
-- Byte strings. A `String` or `&str` of the source is the list of its UTF-8 bytes.
use Prim.Native.Nat.{ℕ, zero, suc, ◌+◌, ◌-◌, ◌*◌, ◌/◌, ◌%◌, ◌^◌, ◌<◌}
use Prim.Native.Char.{code}
use Prim.Native.String.{String}
use mathlib.Core.Path.{◌≡◌, refl}
use mathlib.Core.Bool.{Bool, true, ◌&&◌, ◌||◌}
use mathlib.Core.List.{List, [], ◌∷◌, ◌++◌}
use native.Mathlib.Nat.{pow-suc, add-zero, zero-add}
use mathlib.Core.Path.{◌∙◌}
use mathlib.Core.List.{append-nil, append_assoc}
use native.Mathlib.Omega.{arith}
use kapsel.Base.Equality.{if◌then◌else◌, leb, ltb, ◌==◌, nat_eq, list_eq}
use mathlib.Core.Option.{Option, none, some}
use kapsel.Base.Lists.{length, all, take, drop, length-append}

abbrev pub Bytes : Type 0
Bytes = List ℕ

abbrev pub Text : Type 0
Text = List ℕ

-- The bytes of an ASCII literal.
abbrev pub text : String → Bytes
text String.[] = []
text (String.◌∷◌ c s) = code c ∷ text s

abbrev pub is_ascii_byte : ℕ → Bool
is_ascii_byte b = ltb b 128

abbrev pub is_ascii : Bytes → Bool
is_ascii = all is_ascii_byte

abbrev pub is_ascii_digit : ℕ → Bool
is_ascii_digit b = leb b'0' b && leb b b'9'

abbrev pub is_ascii_lowercase : ℕ → Bool
is_ascii_lowercase b = leb b'a' b && leb b b'z'

abbrev pub is_ascii_uppercase : ℕ → Bool
is_ascii_uppercase b = leb b'A' b && leb b b'Z'

abbrev pub is_ascii_alphanumeric : ℕ → Bool
is_ascii_alphanumeric b = is_ascii_digit b || is_ascii_lowercase b || is_ascii_uppercase b

-- `n.to_be_bytes()` for a `w`-byte unsigned integer, from its last byte.
unfoldable pub to_be_bytes : ℕ → ℕ → Bytes
to_be_bytes zero n = []
to_be_bytes (suc w) n = to_be_bytes w (n / 256) ++ (n % 256) ∷ []

-- `uN::from_be_bytes(bytes)`, reading on from `acc`.
unfoldable pub from_be : ℕ → Bytes → ℕ
from_be acc [] = acc
from_be acc (b ∷ bs) = from_be (acc * 256 + b) bs

unfoldable pub from_be_bytes : Bytes → ℕ
unfolding from_be
from_be_bytes bs = from_be 0 bs

-- `&bytes[first..end]`, where `first <= end <= bytes.len()`.
abbrev pub slice : Bytes → ℕ → ℕ → Bytes
slice bytes first end = take (end - first) (drop first bytes)

-- One more than `usize::MAX` on the 64-bit targets of the program.
abbrev pub usize_modulus : ℕ
usize_modulus = 2 ^ 64

-- `a.checked_add(b)` on `usize`.
abbrev pub checked_add : ℕ → ℕ → Option ℕ
checked_add a b = if ltb (a + b) usize_modulus then some (a + b) else none

-- `u8::checked_add`.
abbrev pub checked_add_u8 : ℕ → ℕ → Option ℕ
checked_add_u8 a b = if ltb (a + b) 256 then some (a + b) else none

abbrev pub is_byte : ℕ → Bool
is_byte b = ltb b 256

pub length-to_be_bytes : (w n : ℕ) → length (to_be_bytes w n) ≡ w
unfolding to_be_bytes
length-to_be_bytes zero n = refl
length-to_be_bytes (suc w) n = omega (
  arith,
  length-append (to_be_bytes w (n / 256)) ((n % 256) ∷ []),
  length-to_be_bytes w (n / 256),
)

from_be-append : (acc b : ℕ) (xs : Bytes) → from_be acc (xs ++ b ∷ []) ≡ from_be acc xs * 256 + b
unfolding from_be
from_be-append acc b [] = refl
from_be-append acc b (x ∷ xs) = from_be-append (acc * 256 + x) b xs

div_below_pow : (w n : ℕ) → n < 256 ^ suc w → n / 256 < 256 ^ w
div_below_pow w n h = let e = pow-suc 256 w in omega arith

-- Decoding undoes encoding of a number that fits the width.
pub from_be_bytes-to_be_bytes : (w n : ℕ) → n < 256 ^ w → from_be_bytes (to_be_bytes w n) ≡ n
unfolding to_be_bytes from_be_bytes
from_be_bytes-to_be_bytes zero n h = omega arith
from_be_bytes-to_be_bytes (suc w) n h =
    rw (from_be-append 0 (n % 256) (to_be_bytes w (n / 256)))
      (omega (arith, from_be_bytes-to_be_bytes w (n / 256) (div_below_pow w n h)))

to_be_bytes-from_be :
    (w acc : ℕ) (xs : Bytes)
    → all is_byte xs ≡ true
    → to_be_bytes (w + length xs) (from_be acc xs) ≡ to_be_bytes w acc ++ xs
unfolding from_be to_be_bytes
to_be_bytes-from_be w acc [] h = rw (add-zero, append-nil)
to_be_bytes-from_be w acc (x ∷ xs) h =
    let small : x < 256 = ground arith in
    let shift : w + suc (length xs) ≡ suc w + length xs = omega arith in
    let high : (acc * 256 + x) / 256 ≡ acc = omega arith in
    let low : (acc * 256 + x) % 256 ≡ x = omega arith in
    rw shift (
      to_be_bytes-from_be (suc w) (acc * 256 + x) xs (ground arith)
      ∙ rw (high, low) (append_assoc (to_be_bytes w acc) (x ∷ []) xs))

-- Encoding undoes decoding of bytes, at the width that they have.
pub to_be_bytes-from_be_bytes :
    (xs : Bytes) → all is_byte xs ≡ true → to_be_bytes (length xs) (from_be_bytes xs) ≡ xs
unfolding from_be_bytes to_be_bytes
to_be_bytes-from_be_bytes xs h = rw zero-add at (to_be_bytes-from_be 0 0 xs h)

pub text_sound : (a b : Text) → a == b ≡ true → a ≡ b
text_sound a b h = list_eq.beq_sound a b h

pub text_refl : (a : Text) → a == a ≡ true
text_refl a = list_eq.beq_refl a
