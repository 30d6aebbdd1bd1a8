-- ===== src/Authority/Frame.antt =====
-- The fixed-order record framing of crates/kapsel-authority/src/record.rs: a tag byte, four
-- big-endian length bytes and the value.
pub mod RoundTrip
pub mod Canonical
use kapsel.Base.{
  ℕ, ◌+◌, ◌^◌, ◌≡◌, Bool, true, false, Option, some, none, [], ◌∷◌, ◌++◌, ◌&&◌, Bytes, Result, ok,
  err, ◌>>=◌, ◌>>◌, require, ok_or, length, get_elem?, starts_with, slice, checked_add,
  checked_add_u8, to_be_bytes, from_be_bytes, leb, ltb, ◌==◌, ◌!=◌, nat_eq, option_eq,
  if◌then◌else◌, is_some_and,
}

pub data FrameError : Type 0 where
  bad_length length_conversion header header_conversion order : FrameError

-- The test of `push` on the end of the encoded record.
abbrev fits : Bytes → Bytes → ℕ → Bool
fits output value maximum_bytes = elim (checked_add (length output) 5) [
  | none ↦ false
  | some header_end ↦
      is_some_and (checked_add header_end (length value)) (λ end. leb end maximum_bytes)
]

unfoldable pub push : Bytes → ℕ → Bytes → ℕ → Result FrameError Bytes
push output tag value maximum_bytes = do
  require (ltb (length value) (2 ^ 32)) bad_length
  require (fits output value maximum_bytes) bad_length
  ok (output ++ tag ∷ (to_be_bytes 4 (length value) ++ value))

pub record Records : Type 0 where
  pub bytes : Bytes
  pub offset : ℕ
  pub next_tag : ℕ

unfoldable pub new : Bytes → Bytes → Result FrameError Records
new bytes magic =
    if starts_with bytes magic
    then ok (record { bytes = bytes; offset = length magic; next_tag = 1 })
    else err header

unfoldable pub take : ℕ → Records → Result FrameError (Bytes × Records)
take expected_tag r = do
  require (expected_tag == r.next_tag) order
  header_end ← ok_or (checked_add r.offset 5) bad_length
  require (leb header_end (length r.bytes) && get_elem? r.bytes r.offset == some expected_tag)
      header
  let value_length = from_be_bytes (slice r.bytes (r.offset + 1) header_end)
  value_end ← ok_or (checked_add header_end value_length) bad_length
  require (leb value_end (length r.bytes)) header
  next_tag ← ok_or (checked_add_u8 r.next_tag 1) order
  ok (slice r.bytes header_end value_end, record r { offset = value_end; next_tag = next_tag })

unfoldable pub finish : Records → Result FrameError (Unit {0})
finish r = require (r.offset == length r.bytes) header
