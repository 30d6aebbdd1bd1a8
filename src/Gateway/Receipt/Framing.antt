-- ===== src/Gateway/Receipt/Framing.antt =====
-- The record framing and the field codecs of src/gateway/receipt/mod.rs.
use kapsel.Base.{
  ℕ, ◌+◌, ◌-◌, ◌^◌, ℤ, pos, negsuc, Bool, false, not, Option, none, some, [], ◌∷◌, ◌++◌, ◌&&◌, ◌||◌,
  Bytes, Text, Result, ok, err, ◌>>=◌, ◌>>◌, require, ok_or, length, get_elem?, starts_with, slice,
  checked_add, checked_add_u8, to_be_bytes, from_be_bytes, leb, ltb, ◌==◌, nat_eq, option_eq,
  if◌then◌else◌, is_some_and, is_empty, is_ascii, all,
}
use kapsel.Authority.Grammar.{identity_is_valid, is_lower_hex}
use kapsel.Gateway.Types.{ReceiptError, limit_exceeded, invalid_value, invalid_record}
use kapsel.Gateway.Facts.{kubernetes_fact_bytes_max}

abbrev pub E : Type 0 → Type 0
E A = Result ReceiptError A

abbrev pub text_bytes_max : ℕ
text_bytes_max = 512

unfoldable pub validate_text : Text → Bool → E (Unit {0})
validate_text value allow_empty =
    require
      (not (
        (not allow_empty && is_empty value)
        || not (leb (length value) text_bytes_max)
        || not (is_ascii value)))
      invalid_value

unfoldable pub validate_key_id : Text → E (Unit {0})
validate_key_id value = require (identity_is_valid value) invalid_value

unfoldable pub validate_digest : Text → E (Unit {0})
validate_digest value = require (length value == 64 && all is_lower_hex value) invalid_value

unfoldable pub validate_kubernetes_fact : Text → E (Unit {0})
validate_kubernetes_fact value =
    require
      (not (
        is_empty value
        || not (leb (length value) kubernetes_fact_bytes_max)
        || not (is_ascii value)))
      invalid_value

unfoldable pub push : Bytes → ℕ → Bytes → ℕ → E Bytes
push output tag value maximum_bytes = do
  require (ltb (length value) (2 ^ 32)) limit_exceeded
  require
      (is_some_and (checked_add (length output) 5) (λ header_end.
        is_some_and (checked_add header_end (length value)) (λ end. leb end maximum_bytes)))
      limit_exceeded
  ok (output ++ tag ∷ (to_be_bytes 4 (length value) ++ value))

unfoldable pub push_text : Bytes → ℕ → Text → ℕ → E Bytes
push_text output tag value maximum_bytes = do
  validate_text value false
  push output tag value maximum_bytes

unfoldable pub push_optional_text : Bytes → ℕ → Option Text → ℕ → E Bytes
push_optional_text output tag (some value) maximum_bytes = do
  validate_text value false
  push output tag value maximum_bytes
push_optional_text output tag none maximum_bytes = push output tag [] maximum_bytes

-- Two's complement at `w` bytes.
unfoldable pub signed_to_be_bytes : ℕ → ℤ → Bytes
signed_to_be_bytes w (pos n) = to_be_bytes w n
signed_to_be_bytes w (negsuc n) = to_be_bytes w (256 ^ w - 1 - n)

unfoldable pub signed_from_be_bytes : ℕ → Bytes → ℤ
signed_from_be_bytes w bytes =
    let n = from_be_bytes bytes in if ltb (n + n) (256 ^ w) then pos n else negsuc (256 ^ w - 1 - n)

-- `value.unwrap_or(-1)`
abbrev unwrap_or_minus_one : Option ℤ → ℤ
unwrap_or_minus_one none = negsuc 0
unwrap_or_minus_one (some z) = z

unfoldable pub push_i64 : Bytes → ℕ → Option ℤ → ℕ → E Bytes
push_i64 output tag value maximum_bytes =
    push output tag (signed_to_be_bytes 8 (unwrap_or_minus_one value)) maximum_bytes

unfoldable pub push_i32 : Bytes → ℕ → Option ℤ → ℕ → E Bytes
push_i32 output tag value maximum_bytes =
    push output tag (signed_to_be_bytes 4 (unwrap_or_minus_one value)) maximum_bytes

pub record Records : Type 0 where
  pub input : Bytes
  pub offset : ℕ
  pub next_tag : ℕ
  pub maximum_text_bytes : ℕ

unfoldable pub new : Bytes → Bytes → ℕ → E Records
new input magic maximum_text_bytes =
    if starts_with input magic
    then ok (record {
      input = input;
      offset = length magic;
      next_tag = 1;
      maximum_text_bytes = maximum_text_bytes;
    })
    else err invalid_record

-- The four length bytes convert to an array without error, since they are a slice of four.
unfoldable pub take : ℕ → Records → E (Bytes × Records)
take expected_tag r = do
  require (expected_tag == r.next_tag) invalid_record
  header_end ← ok_or (checked_add r.offset 5) limit_exceeded
  require (leb header_end (length r.input)) invalid_record
  require (get_elem? r.input r.offset == some expected_tag) invalid_record
  let value_length = from_be_bytes (slice r.input (r.offset + 1) header_end)
  value_end ← ok_or (checked_add header_end value_length) limit_exceeded
  require (leb value_end (length r.input)) invalid_record
  next_tag ← ok_or (checked_add_u8 r.next_tag 1) invalid_record
  ok (slice r.input header_end value_end, record r { offset = value_end; next_tag = next_tag })

unfoldable pub take_text : ℕ → Records → E (Text × Records)
take_text expected_tag r = do
  (bytes, r') ← take expected_tag r
  require (leb (length bytes) r.maximum_text_bytes) limit_exceeded
  require (is_ascii bytes) invalid_value
  ok (bytes, r')

unfoldable pub finish : Records → E (Unit {0})
finish r = require (r.offset == length r.input) invalid_record

unfoldable pub bounded : Bytes → ℕ → E (Unit {0})
bounded input maximum_bytes = require (leb (length input) maximum_bytes) limit_exceeded

abbrev optional_number : ℤ → E (Option ℤ)
optional_number (pos n) = ok (some (pos n))
optional_number (negsuc n) = if n == 0 then ok none else err invalid_value

unfoldable pub decode_generation : Bytes → E (Option ℤ)
decode_generation value = do
  require (length value == 8) invalid_value
  optional_number (signed_from_be_bytes 8 value)

unfoldable pub decode_replica_count : Bytes → E (Option ℤ)
decode_replica_count value = do
  require (length value == 4) invalid_value
  optional_number (signed_from_be_bytes 4 value)

unfoldable pub empty_as_none : Text → Option Text
empty_as_none value = if is_empty value then none else some value
