-- ===== src/Authority/Tests.antt =====
-- Concrete inputs for the theorems about crates/kapsel-authority.
use kapsel.Base.{
  ◌≡◌, ◌<◌, ◌^◌, ◌↔◌, refl, true, some, [], ◌∷◌, ◌++◌, Bytes, Text, text, ok, length, arith, all,
  is_byte, to_be_bytes, from_be_bytes, ◌==◌, nat_eq, list_eq,
}
use kapsel.Authority.Frame
use kapsel.Authority.Frame.{Records}
use kapsel.Authority.Frame.RoundTrip.{frame, behind, At, take-frame}
use kapsel.Authority.Frame.Canonical.{IsReader, Taken, take-Taken}
use kapsel.Authority.Grammar.{
  identity_is_valid, dns_label_is_valid, dns_subdomain_is_valid, immutable_image_is_valid,
}
use kapsel.Authority.Grammar.Subdomain.{IsSubdomain, dns_subdomain_is_valid-iff-IsSubdomain}
use kapsel.Authority.Grammar.Image.{IsImage, immutable_image_is_valid-iff-IsImage}
use kapsel.Authority.Grant.{
  ExactAuthorization, Crypto, validate, target_is_valid, parse_statement, sign_authorization_grant,
  verify_authorization_grant, digest_hex, ValidatedAuthorizationGrant, AuthorizationTrust,
  validate_trust, new_records, take_record, take_ascii_text, finish_exact, signature_input,
  grant_purpose, snapshot_purpose,
}
use kapsel.Authority.Grant.Statement.{statement_bytes, frames}
use kapsel.Authority.Grant.Reading.{parse-statement_bytes}
use kapsel.Authority.Grant.Signing.{envelope, IsCrypto, verify-sign_authorization_grant}
use kapsel.Authority.Grant.Sound.{parse_statement_sound}
use kapsel.Authority.Grant.Verified.{IsAuthentic, verify_authorization_grant_sound}

abbrev zeros : Bytes
zeros = 0 ∷ 0 ∷ 0 ∷ 0 ∷ 0 ∷ 0 ∷ 0 ∷ 0 ∷ 0 ∷ 0 ∷ 0 ∷ 0 ∷ 0 ∷ 0 ∷ 0 ∷ 0 ∷ []

-- A signature that repeats nothing of the message but its length, under the seed as the key.
abbrev test_signature : Bytes → Bytes → Bytes
test_signature seed message =
    zeros
    ++ zeros
    ++ zeros
    ++ 0 ∷ 0 ∷ 0 ∷ 0 ∷ 0 ∷ 0 ∷ 0 ∷ 0 ∷ 0 ∷ 0 ∷ 0 ∷ 0 ∷ 0 ∷ 0 ∷ 0 ∷ length message ∷ []

abbrev test_crypto : Crypto
test_crypto = record {
  public_key = λ seed. seed;
  key_is_valid = λ key. true;
  sign = test_signature;
  verify_strict = λ key message signature. signature == test_signature key message;
  sha256 = λ bytes. zeros ++ zeros;
}

test_crypto-IsCrypto : IsCrypto test_crypto
test_crypto-IsCrypto = record {
  length-sign = λ seed message. refl;
  public_key_is_valid = λ seed. refl;
  verify-sign = λ seed message. list_eq.beq_refl (test_signature seed message);
}

abbrev test_image : Text
test_image =
    text "registry/app@sha256:0123456789abcdef0123456789abcdef0123456789abcdef0123456789abcdef"

abbrev test_authorization : ExactAuthorization
test_authorization = record {
  approved_target = some (record { uid = text "uid-1"; resource_version = text "41" });
  authorization_id = text "auth-1";
  operation_id = text "op-1";
  namespace = text "prod";
  deployment = text "web.api";
  container = text "main";
  immutable_image_digest = test_image;
}

test_is_valid : validate test_authorization ≡ ok tt
unfolding validate target_is_valid identity_is_valid dns_label_is_valid dns_subdomain_is_valid
    immutable_image_is_valid
test_is_valid = refl

test_key_is_valid : identity_is_valid (text "key-1") ≡ true
unfolding identity_is_valid
test_key_is_valid = refl

abbrev test_trust : AuthorizationTrust
test_trust = record { key_id = text "key-1"; public_key = zeros }

verify-sign_authorization_grant_example :
    (grant : Bytes) × (sign_authorization_grant test_crypto test_authorization zeros (text "key-1")
      ≡ ok grant)
    × (verify_authorization_grant test_crypto grant test_trust
        ≡ ok (record {
          authorization = test_authorization;
          signer_key_id = text "key-1";
          grant_digest = digest_hex test_crypto grant;
        }))
verify-sign_authorization_grant_example =
    verify-sign_authorization_grant test_crypto test_crypto-IsCrypto test_authorization zeros
      (text "key-1") test_is_valid test_key_is_valid

test_statement_is_short : length (statement_bytes test_authorization) < 2 ^ 63
unfolding frames to_be_bytes
test_statement_is_short = omega arith

parse-statement_bytes_example :
    parse_statement (statement_bytes test_authorization) ≡ ok test_authorization
parse-statement_bytes_example =
    parse-statement_bytes test_authorization test_is_valid test_statement_is_short

test_statement_octets : all is_byte (statement_bytes test_authorization) ≡ true
unfolding frames to_be_bytes
test_statement_octets = refl

parse_statement_sound_example :
    (statement_bytes test_authorization ≡ statement_bytes test_authorization)
    × (validate test_authorization ≡ ok tt)
parse_statement_sound_example =
    parse_statement_sound (statement_bytes test_authorization) test_authorization
      test_statement_octets
      (parse-statement_bytes test_authorization test_is_valid test_statement_is_short)

dns_subdomain_is_valid-iff-IsSubdomain_example :
    (dns_subdomain_is_valid (text "web.api") ≡ true) ↔ IsSubdomain (text "web.api")
dns_subdomain_is_valid-iff-IsSubdomain_example =
    dns_subdomain_is_valid-iff-IsSubdomain (text "web.api")

immutable_image_is_valid-iff-IsImage_example :
    (immutable_image_is_valid test_image ≡ true) ↔ IsImage test_image
immutable_image_is_valid-iff-IsImage_example = immutable_image_is_valid-iff-IsImage test_image

abbrev test_statement : Bytes
test_statement = statement_bytes test_authorization

abbrev test_grant : Bytes
test_grant =
    envelope true (text "key-1") test_statement
      (test_signature zeros (signature_input snapshot_purpose test_statement))

abbrev test_verified : ValidatedAuthorizationGrant
test_verified = record {
  authorization = test_authorization;
  signer_key_id = text "key-1";
  grant_digest = digest_hex test_crypto test_grant;
}

test_grant_octets : all is_byte test_grant ≡ true
unfolding frames to_be_bytes signature_input
test_grant_octets = refl

test_grant_verifies :
    verify_authorization_grant test_crypto test_grant test_trust ≡ ok test_verified
unfolding verify_authorization_grant validate_trust new_records Frame.new take_record
    take_ascii_text finish_exact Frame.take Frame.finish parse_statement signature_input
    grant_purpose frames to_be_bytes from_be_bytes validate target_is_valid identity_is_valid
    dns_label_is_valid dns_subdomain_is_valid immutable_image_is_valid
test_grant_verifies = refl

verify_authorization_grant_sound_example :
    IsAuthentic test_crypto test_trust test_grant test_verified
verify_authorization_grant_sound_example =
    verify_authorization_grant_sound test_crypto test_trust test_grant test_verified
      test_grant_octets test_grant_verifies

-- A reader before the frame of "ab" and one more byte.
abbrev test_records : Records
test_records = record { bytes = 9 ∷ (frame 1 (97 ∷ 98 ∷ []) ++ 7 ∷ []); offset = 1; next_tag = 1 }

test_records-At : At 1 (frame 1 (97 ∷ 98 ∷ []) ++ 7 ∷ []) test_records
unfolding to_be_bytes
test_records-At = record { next = refl; remaining = refl; inside = refl; addressable = omega arith }

take-frame_example :
    Frame.take 1 test_records
    ≡ ok (97 ∷ 98 ∷ [], behind 1 (97 ∷ 98 ∷ []) (7 ∷ []) test_records test_records-At)
take-frame_example =
    take-frame 1 (97 ∷ 98 ∷ []) (7 ∷ []) test_records test_records-At (omega arith) (omega arith)

abbrev test_behind : Records
test_behind = record { bytes = 9 ∷ (frame 1 (97 ∷ 98 ∷ []) ++ 7 ∷ []); offset = 8; next_tag = 2 }

test_taken : Frame.take 1 test_records ≡ ok (97 ∷ 98 ∷ [], test_behind)
unfolding Frame.take to_be_bytes from_be_bytes
test_taken = refl

test_records-IsReader : IsReader test_records
unfolding to_be_bytes
test_records-IsReader = record { inside = omega arith; octets = refl }

take-Taken_example : Taken 1 (97 ∷ 98 ∷ []) test_records test_behind
take-Taken_example =
    take-Taken 1 (97 ∷ 98 ∷ []) test_records test_behind test_records-IsReader test_taken
