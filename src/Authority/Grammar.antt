-- ===== src/Authority/Grammar.antt =====
-- The request grammar of crates/kapsel-authority/src/lib.rs: identities, DNS labels and subdomains,
-- immutable image references. `&str::split` and `split_once` are written out.
pub mod Shape
pub mod Subdomain
pub mod Image
use kapsel.Base.{
  ℕ, Bool, true, false, Option, none, some, List, [], ◌∷◌, ◌&&◌, ◌||◌, not, Text, text, length, all,
  is_empty, head?, get_last?, drop, starts_with, is_ascii, is_ascii_digit, is_ascii_lowercase,
  is_ascii_alphanumeric, is_some_and, leb, ◌==◌, nat_eq, if◌then◌else◌,
}

unfoldable pub is_ascii_lowercase_or_digit : ℕ → Bool
is_ascii_lowercase_or_digit byte = is_ascii_lowercase byte || is_ascii_digit byte

abbrev pub is_identity_byte : ℕ → Bool
is_identity_byte byte =
    is_ascii_alphanumeric byte || byte == b'.' || byte == b'_' || byte == b':' || byte == b'-'

unfoldable pub identity_is_valid : Text → Bool
identity_is_valid value =
    not (is_empty value) && leb (length value) 128 && all is_identity_byte value

abbrev pub is_label_byte : ℕ → Bool
unfolding is_ascii_lowercase_or_digit
is_label_byte byte = is_ascii_lowercase_or_digit byte || byte == b'-'

unfoldable pub dns_label_is_valid : Text → Bool
unfolding is_ascii_lowercase_or_digit
dns_label_is_valid bytes =
    not (is_empty bytes)
    && leb (length bytes) 63
    && is_some_and (head? bytes) is_ascii_lowercase_or_digit
    && is_some_and (get_last? bytes) is_ascii_lowercase_or_digit
    && all is_label_byte bytes

-- One more byte before the first piece.
abbrev pub prepend : ℕ → List Text → List Text
prepend x [] = (x ∷ []) ∷ []
prepend x (p ∷ ps) = (x ∷ p) ∷ ps

-- `value.split(separator)`
unfoldable pub split : ℕ → Text → List Text
split separator [] = [] ∷ []
split separator (x ∷ xs) =
    let rest = split separator xs in if x == separator then [] ∷ rest else prepend x rest

unfoldable pub dns_subdomain_is_valid : Text → Bool
unfolding dns_label_is_valid split
dns_subdomain_is_valid value =
    not (is_empty value) && leb (length value) 253 && all dns_label_is_valid (split b'.' value)

abbrev pub is_image_name_byte : ℕ → Bool
unfolding is_ascii_lowercase_or_digit
is_image_name_byte byte =
    is_ascii_lowercase_or_digit byte || byte == b'.' || byte == b'_' || byte == b'-'

unfoldable pub image_name_component_is_valid : Text → Bool
unfolding is_ascii_lowercase_or_digit
image_name_component_is_valid bytes =
    not (is_empty bytes)
    && is_some_and (head? bytes) is_ascii_lowercase_or_digit
    && is_some_and (get_last? bytes) is_ascii_lowercase_or_digit
    && all is_image_name_byte bytes

abbrev pub before : ℕ → Option (Text × Text) → Option (Text × Text)
before x none = none
before x (some (name, rest)) = some (x ∷ name, rest)

-- `value.split_once(pattern)`, at the first occurrence.
unfoldable pub split_once : Text → Text → Option (Text × Text)
split_once pattern [] = if is_empty pattern then some ([], []) else none
split_once pattern (x ∷ xs) =
    let rest = split_once pattern xs in
    if starts_with (x ∷ xs) pattern
    then some ([], drop (length pattern) (x ∷ xs))
    else before x rest

abbrev pub is_lower_hex : ℕ → Bool
is_lower_hex byte = is_ascii_digit byte || (leb b'a' byte && leb byte b'f')

abbrev pub contains : ℕ → Text → Bool
contains c xs = not (all (λ x. not (x == c)) xs)

abbrev pub digest_marker : Text
digest_marker = text "@sha256:"

abbrev image_parts_are_valid : Option (Text × Text) → Bool
unfolding image_name_component_is_valid split
image_parts_are_valid none = false
image_parts_are_valid (some (name, digest)) =
    if contains b'@' name
    then false
    else length digest == 64
      && all is_lower_hex digest
      && all image_name_component_is_valid (split b'/' name)

unfoldable pub immutable_image_is_valid : Text → Bool
unfolding image_parts_are_valid split_once
immutable_image_is_valid value =
    if is_empty value || not (leb (length value) 512) || not (is_ascii value)
    then false
    else image_parts_are_valid (split_once digest_marker value)
