-- ===== src/Gateway/Receipt/Envelope.antt =====
-- Signing, parsing and inspecting receipt envelopes, of src/gateway/receipt/mod.rs.
use kapsel.Base.{
  ℤ, Bool, not, [], ◌∷◌, ◌++◌, ◌||◌, Bytes, Text, text, ok, ◌>>=◌, ◌>>◌, require, ◌==◌, ◌!=◌,
  nat_eq, list_eq, bool_eq, if◌then◌else◌, is_some, starts_with, leb_ℤ, length,
}
use kapsel.Authority.Grant.{Crypto}
use kapsel.Gateway.Types.{ReceiptStatement, invalid_value, bad_signature}
use kapsel.Gateway.Receipt.Framing
use kapsel.Gateway.Receipt.Framing.{
  E, Records, push, push_text, take, take_text, bounded, finish, validate_key_id,
}
use kapsel.Gateway.Receipt.Statement.{
  InspectionLimits, default_limits, validate_limits, snapshot_statement_magic, receipt_bytes_max,
  encode, parse,
}

abbrev pub receipt_magic : Bytes
receipt_magic = text "KAPSEL-KAP0038-K8S-RECEIPT-V2" ++ 0 ∷ []

abbrev pub snapshot_receipt_magic : Bytes
snapshot_receipt_magic = text "KAPSEL-KAP0038-K8S-RECEIPT-V3" ++ 0 ∷ []

abbrev pub snapshot_purpose : Text
snapshot_purpose = text "kapsel.kap0038.kubernetes-effect-receipt.v3"

abbrev pub receipt_purpose : Text
receipt_purpose = text "kapsel.kap0038.kubernetes-effect-receipt.v2"

unfoldable pub statement_purpose : Bytes → Text
statement_purpose statement =
    if starts_with statement snapshot_statement_magic then snapshot_purpose else receipt_purpose

unfoldable pub receipt_signature_input : Text → Bytes → Bytes
receipt_signature_input purpose statement = purpose ++ 0 ∷ statement

pub record ReceiptEnvelope : Type 0 where
  pub accepted_purpose : Text
  pub key_id : Text
  pub statement_bytes : Bytes
  pub statement : ReceiptStatement
  pub signature : Bytes

pub record ReceiptTrust : Type 0 where
  pub key_id : Text
  pub public_key : Bytes
  pub accepted_purpose : Text
  pub not_before_unix_s : ℤ
  pub not_after_unix_s : ℤ

pub data InspectionStatus : Type 0 where
  structure_rejected signature_rejected untrusted inspected : InspectionStatus

unfoldable pub parse_envelope :
    Bytes → Bytes → Text → InspectionLimits → (Bytes → E ReceiptStatement) → E ReceiptEnvelope
parse_envelope receipt magic purpose limits parse_statement = do
  validate_limits limits
  bounded receipt limits.receipt_bytes
  r0 ← Framing.new receipt magic limits.text_bytes
  (v1, r1) ← take_text 1 r0
  require (v1 == purpose) invalid_value
  (key, r2) ← take_text 2 r1
  validate_key_id key
  (bytes, r3) ← take 3 r2
  s ← parse_statement bytes
  (sig, r4) ← take 4 r3
  require (length sig == 64) invalid_value
  finish r4
  ok (record {
    accepted_purpose = purpose;
    key_id = key;
    statement_bytes = bytes;
    statement = s;
    signature = sig;
  })

-- The statement parser that `parse_receipt_envelope` hands on.
abbrev parse_bound : Bool → InspectionLimits → Bytes → E ReceiptStatement
parse_bound snapshot_bound limits bytes = do
  s ← parse bytes limits
  require (is_some s.approved_target == snapshot_bound) invalid_value
  ok s

unfoldable pub parse_receipt_envelope : Bytes → InspectionLimits → E ReceiptEnvelope
unfolding parse_envelope
parse_receipt_envelope receipt limits =
    let snapshot_bound = starts_with receipt snapshot_receipt_magic in
    parse_envelope receipt (if snapshot_bound then snapshot_receipt_magic else receipt_magic)
      (if snapshot_bound then snapshot_purpose else receipt_purpose) limits
      (parse_bound snapshot_bound limits)

unfoldable pub decode_frozen_receipt : Bytes → E (Text × ReceiptStatement)
unfolding parse_receipt_envelope default_limits
decode_frozen_receipt receipt = do
  envelope ← parse_receipt_envelope receipt default_limits
  ok (envelope.key_id, envelope.statement)

module _ (c : Crypto) where
  unfoldable pub sign_envelope : Bytes → Bytes → Text → Bytes → Text → E Bytes
  sign_envelope statement magic purpose seed key_id = do
    let signature = c.sign seed (receipt_signature_input purpose statement)
    o1 ← push_text magic 1 purpose receipt_bytes_max
    o2 ← push_text o1 2 key_id receipt_bytes_max
    o3 ← push o2 3 statement receipt_bytes_max
    push o3 4 signature receipt_bytes_max

  unfoldable pub sign_statement : ReceiptStatement → Bytes → Text → E Bytes
  unfolding sign_envelope
  sign_statement statement seed key_id = do
    validate_key_id key_id
    bytes ← encode statement
    sign_envelope bytes
        (if is_some statement.approved_target then snapshot_receipt_magic else receipt_magic)
        (statement_purpose bytes) seed key_id

  unfoldable pub authenticate : ReceiptEnvelope → ReceiptTrust → ℤ → E InspectionStatus
  authenticate e trust time = do
    require (c.key_is_valid trust.public_key) invalid_value
    require
        (c.verify_strict trust.public_key
          (receipt_signature_input e.accepted_purpose e.statement_bytes) e.signature)
        bad_signature
    let trust_rejects_signer =
        trust.accepted_purpose != e.accepted_purpose
        || trust.key_id != e.key_id
        || not (leb_ℤ trust.not_before_unix_s time)
        || leb_ℤ trust.not_after_unix_s time
    ok (if trust_rejects_signer then untrusted else inspected)
