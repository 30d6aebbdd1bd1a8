-- ===== src/Authority/Grant.antt =====
-- Authorization grants of crates/kapsel-authority/src/lib.rs: the exact authorization, its canonical
-- statement, signing and verification. Ed25519 and SHA-256 are the parameter `Crypto`.
pub mod Fields
pub mod Statement
pub mod Reading
pub mod Signing
pub mod Sound
pub mod Verified
use kapsel.Base.{
  ℕ, Bool, true, false, Option, none, some, List, [], ◌∷◌, ◌++◌, ◌&&◌, not, String, Bytes, Text,
  text, Result, ok, err, ◌>>=◌, ◌>>◌, require, map_err, length, all, is_empty, is_some, is_some_and,
  is_ascii, starts_with, leb, ◌==◌, ◌!=◌, nat_eq, list_eq, if◌then◌else◌, bool_eq, ◌+◌, ◌-◌, ◌/◌,
  ◌%◌,
}
use kapsel.Authority.Grammar.{
  identity_is_valid, dns_label_is_valid, dns_subdomain_is_valid, immutable_image_is_valid,
}
use kapsel.Authority.Frame
use kapsel.Authority.Frame.{Records}

abbrev pub grant_statement_magic : Bytes
grant_statement_magic = text "KAPSEL-KAP0038-K8S-GRANT-STATEMENT-V1" ++ 0 ∷ []

abbrev pub signed_grant_magic : Bytes
signed_grant_magic = text "KAPSEL-KAP0038-K8S-GRANT-V1" ++ 0 ∷ []

abbrev pub snapshot_statement_magic : Bytes
snapshot_statement_magic = text "KAPSEL-KAP0038-K8S-GRANT-STATEMENT-V2" ++ 0 ∷ []

abbrev pub snapshot_grant_magic : Bytes
snapshot_grant_magic = text "KAPSEL-KAP0038-K8S-GRANT-V2" ++ 0 ∷ []

abbrev pub snapshot_purpose : Text
snapshot_purpose = text "kapsel.kap0038.kubernetes-set-deployment-image-grant.v2"

abbrev pub legacy_grant_purpose : Text
legacy_grant_purpose = text "kapsel.kap0038.kubernetes-set-deployment-image-grant.v1"

abbrev pub signed_grant_bytes_max : ℕ
signed_grant_bytes_max = 4096

abbrev pub grant_statement_bytes_max : ℕ
grant_statement_bytes_max = 2048

abbrev pub grant_text_bytes_max : ℕ
grant_text_bytes_max = 512

pub data AuthorizationInputField : Type 0 where
  authorization_id operation_id namespace deployment container immutable_image_digest :
      AuthorizationInputField

pub data AuthorizationGrantError : Type 0 where
  invalid : AuthorizationGrantError
  invalid_input : AuthorizationInputField → AuthorizationGrantError
  untrusted : AuthorizationGrantError

pub record ApprovedTarget : Type 0 where
  pub uid : Text
  pub resource_version : Text

abbrev pub is_opaque_value : Text → Bool
is_opaque_value value = not (is_empty value) && leb (length value) 128 && is_ascii value

unfoldable pub target_is_valid : ApprovedTarget → Bool
target_is_valid target = is_opaque_value target.uid && is_opaque_value target.resource_version

pub record ExactAuthorization : Type 0 where
  pub approved_target : Option ApprovedTarget
  pub authorization_id : Text
  pub operation_id : Text
  pub namespace : Text
  pub deployment : Text
  pub container : Text
  pub immutable_image_digest : Text

abbrev pub R : Type 0 → Type 0
R A = Result AuthorizationGrantError A

unfoldable pub validate : ExactAuthorization → R (Unit {0})
validate a = do
  require (not (is_some_and a.approved_target (λ t. not (target_is_valid t)))) invalid
  require (identity_is_valid a.authorization_id) (invalid_input authorization_id)
  require (identity_is_valid a.operation_id) (invalid_input operation_id)
  require (dns_label_is_valid a.namespace) (invalid_input namespace)
  require (dns_subdomain_is_valid a.deployment) (invalid_input deployment)
  require (dns_label_is_valid a.container) (invalid_input container)
  require (immutable_image_is_valid a.immutable_image_digest) (invalid_input immutable_image_digest)

unfoldable pub append_grant_record : Bytes → ℕ → Bytes → ℕ → R Bytes
append_grant_record output tag value maximum_bytes =
    map_err (Frame.push output tag value maximum_bytes) invalid

-- The loops that append one record for each tag.
unfoldable pub append_grant_records : ℕ → Bytes → List (ℕ × Bytes) → R Bytes
append_grant_records maximum_bytes output [] = ok output
append_grant_records maximum_bytes output ((tag, value) ∷ rs) =
    append_grant_record output tag value maximum_bytes >>= λ next.
    append_grant_records maximum_bytes next rs

abbrev pub statement_fields : ExactAuthorization → List (ℕ × Bytes)
statement_fields a =
    (1, a.authorization_id)
    ∷ (2, a.operation_id)
    ∷ (3, a.namespace)
    ∷ (4, a.deployment)
    ∷ (5, a.container)
    ∷ (6, a.immutable_image_digest)
    ∷ []

abbrev pub target_fields : Option ApprovedTarget → List (ℕ × Bytes)
target_fields none = []
target_fields (some target) = (7, target.uid) ∷ (8, target.resource_version) ∷ []

unfoldable pub encode_statement : ExactAuthorization → R Bytes
encode_statement a = do
  let magic = if is_some a.approved_target then snapshot_statement_magic else grant_statement_magic
  output ← append_grant_records grant_statement_bytes_max magic (statement_fields a)
  append_grant_records grant_statement_bytes_max output (target_fields a.approved_target)

unfoldable pub new_records : Bytes → Bytes → R Records
new_records bytes magic = map_err (Frame.new bytes magic) invalid

unfoldable pub take_record : ℕ → Records → R (Bytes × Records)
take_record expected_tag r = map_err (Frame.take expected_tag r) invalid

-- `String::from_utf8` accepts ASCII.
unfoldable pub take_ascii_text : ℕ → Records → R (Text × Records)
take_ascii_text expected_tag r = do
  (value, r') ← take_record expected_tag r
  require (not (is_empty value) && leb (length value) grant_text_bytes_max && is_ascii value)
      invalid
  ok (value, r')

unfoldable pub finish_exact : Records → R (Unit {0})
finish_exact r = map_err (Frame.finish r) invalid

abbrev pub take_target : Bool → Records → R (Option ApprovedTarget × Records)
take_target false r = ok (none, r)
take_target true r = do
  (uid, r7) ← take_ascii_text 7 r
  (resource_version, r8) ← take_ascii_text 8 r7
  ok (some (record { uid = uid; resource_version = resource_version }), r8)

unfoldable pub parse_statement : Bytes → R ExactAuthorization
parse_statement bytes = do
  let snapshot_bound = starts_with bytes snapshot_statement_magic
  r0 ←
      new_records bytes (if snapshot_bound then snapshot_statement_magic else grant_statement_magic)
  (id, r1) ← take_ascii_text 1 r0
  (operation, r2) ← take_ascii_text 2 r1
  (ns, r3) ← take_ascii_text 3 r2
  (name, r4) ← take_ascii_text 4 r3
  (container_name, r5) ← take_ascii_text 5 r4
  (image, r6) ← take_ascii_text 6 r5
  (target, r7) ← take_target snapshot_bound r6
  finish_exact r7
  let a : ExactAuthorization = record {
    approved_target = target;
    authorization_id = id;
    operation_id = operation;
    namespace = ns;
    deployment = name;
    container = container_name;
    immutable_image_digest = image;
  }
  validate a
  ok a

unfoldable pub grant_purpose : Bytes → Text
grant_purpose statement =
    if starts_with statement snapshot_statement_magic
    then snapshot_purpose
    else legacy_grant_purpose

unfoldable pub signature_input : Text → Bytes → Bytes
signature_input purpose statement = purpose ++ 0 ∷ statement

-- The signature scheme (ed25519-dalek) and SHA-256 (sha2).
pub record Crypto : Type 0 where
  pub public_key : Bytes → Bytes
  pub key_is_valid : Bytes → Bool
  pub sign : Bytes → Bytes → Bytes
  pub verify_strict : Bytes → Bytes → Bytes → Bool
  pub sha256 : Bytes → Bytes

abbrev hex_digit : ℕ → ℕ
hex_digit n = if leb n 9 then b'0' + n else b'a' + (n - 10)

-- `{byte:02x}` for each byte.
unfoldable pub hex : Bytes → Text
hex [] = []
hex (b ∷ bs) = hex_digit (b / 16) ∷ hex_digit (b % 16) ∷ hex bs

pub record AuthorizationTrust : Type 0 where
  pub key_id : Text
  pub public_key : Bytes

pub record ValidatedAuthorizationGrant : Type 0 where
  pub authorization : ExactAuthorization
  pub signer_key_id : Text
  pub grant_digest : Text

module _ (c : Crypto) where
  unfoldable pub digest_hex : Bytes → Text
  unfolding hex
  digest_hex bytes = hex (c.sha256 bytes)

  unfoldable pub sign_grant_statement : Bytes → Bytes → Text → Bytes → Text → R Bytes
  sign_grant_statement statement magic purpose seed key_id =
      append_grant_records signed_grant_bytes_max magic (
        (1, purpose)
        ∷ (2, key_id)
        ∷ (3, statement)
        ∷ (4, c.sign seed (signature_input purpose statement))
        ∷ [])

  unfoldable pub sign_authorization_grant : ExactAuthorization → Bytes → Text → R Bytes
  sign_authorization_grant authorization seed key_id = do
    validate authorization
    require (identity_is_valid key_id) invalid
    statement ← encode_statement authorization
    sign_grant_statement statement
        (if is_some authorization.approved_target then snapshot_grant_magic else signed_grant_magic)
        (grant_purpose statement) seed key_id

  unfoldable pub validate_trust : AuthorizationTrust → R (Unit {0})
  validate_trust trust = do
    require (identity_is_valid trust.key_id) invalid
    require (c.key_is_valid trust.public_key) invalid

  unfoldable pub verify_authorization_grant :
      Bytes → AuthorizationTrust → R ValidatedAuthorizationGrant
  verify_authorization_grant bytes trust = do
    validate_trust trust
    require (leb (length bytes) signed_grant_bytes_max) invalid
    let snapshot_bound = starts_with bytes snapshot_grant_magic
    let expected_purpose = if snapshot_bound then snapshot_purpose else legacy_grant_purpose
    r0 ← new_records bytes (if snapshot_bound then snapshot_grant_magic else signed_grant_magic)
    (purpose, r1) ← take_record 1 r0
    require (purpose == expected_purpose) invalid
    (key_id, r2) ← take_ascii_text 2 r1
    require (identity_is_valid key_id) invalid
    (statement, r3) ← take_record 3 r2
    require (leb (length statement) grant_statement_bytes_max) invalid
    (signature, r4) ← take_record 4 r3
    require (length signature == 64) invalid
    finish_exact r4
    a ← parse_statement statement
    require (is_some a.approved_target == snapshot_bound) invalid
    require (key_id == trust.key_id) untrusted
    require (c.key_is_valid trust.public_key) invalid
    require
        (c.verify_strict trust.public_key (signature_input (grant_purpose statement) statement)
          signature)
        untrusted
    ok (record { authorization = a; signer_key_id = key_id; grant_digest = digest_hex bytes })
