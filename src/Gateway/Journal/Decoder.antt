-- ===== src/Gateway/Journal/Decoder.antt =====
-- src/gateway/journal/mod.rs and records.rs: the decoder of a retained row into a validated phase.
use kapsel.Base.{
  ℕ, ℤ, pos, Bool, true, false, not, Option, none, some, ◌&&◌, ◌||◌, Bytes, Text, Result, ok, err,
  ◌>>=◌, ◌>>◌, require, map_err, ok_or, ◌==◌, ◌!=◌, nat_eq, list_eq, option_eq, int_eq, bool_eq,
  if◌then◌else◌, is_some, is_none, is_some_and, leb, length, all,
}
use kapsel.Authority.Grant.{ApprovedTarget, target_is_valid, Crypto, digest_hex}
use kapsel.Gateway.Types.{
  G, GatewayError, OperationState, requested, authorized, not_attempted, apply_started,
  receiver_observed, finalized, TargetRejection, OperationResult, ReceiptStatement, ReceiptError,
  validate_identity, invalid_persisted_state, receipt_digest_mismatch, receipt, authorization_id,
  write_strategy, state_eq, rejection_eq, result_eq,
}
use kapsel.Gateway.Facts.{ValidatedTargetIdentity, try_from_target, validate_outcome}
use kapsel.Gateway.Receipt.Statement.{receipt_bytes_max}
use kapsel.Gateway.Receipt.Envelope.{decode_frozen_receipt}
use kapsel.Gateway.Journal.Phases.{
  FrozenReceipt, RequestFacts, AuthorizationFacts, AttemptFacts, ApplyResponseFacts,
  LoadedOperation, requested_phase, authorized_phase, not_attempted_phase, apply_started_phase,
  receiver_observed_phase, finalized_phase, approved_eq, statement_eq, ApplyStartedOperation,
  AuthorizedOperation, ReceiverObservedOperation,
}

unfoldable pub snapshot_target : Option Text → Option Text → G (Option ApprovedTarget)
snapshot_target none none = ok none
snapshot_target (some uid) (some resource_version) = do
  let target : ApprovedTarget = record { uid = uid; resource_version = resource_version }
  require (target_is_valid target) invalid_persisted_state
  ok (some target)
snapshot_target _ _ = err invalid_persisted_state

unfoldable pub decode_sql_bool : ℤ → G Bool
decode_sql_bool value =
    if value == pos 0
    then ok false
    else if value == pos 1
    then ok true
    else err invalid_persisted_state

abbrev is_digest_byte : ℕ → Bool
is_digest_byte byte = (leb 48 byte && leb byte 57) || (leb 97 byte && leb byte 102)

unfoldable pub try_from_digest : Text → G Text
try_from_digest value =
    if length value == 64 && all is_digest_byte value then ok value else err invalid_persisted_state

unfoldable pub validate_snapshot_authorization :
    Option Text → Option Text → Option Text → G (Option AuthorizationFacts)
unfolding try_from_digest
validate_snapshot_authorization none none none = ok none
validate_snapshot_authorization (some id) (some signer) (some digest) = do
  map_err (validate_identity authorization_id id) invalid_persisted_state
  map_err (validate_identity authorization_id signer) invalid_persisted_state
  digest' ← try_from_digest digest
  ok (some (record { authorization_id = id; signer_key_id = signer; grant_digest = digest' }))
validate_snapshot_authorization _ _ _ = err invalid_persisted_state

abbrev attempt_target : Option Text → Option Text → Option Text → G (Option ValidatedTargetIdentity)
attempt_target (some strategy) (some uid) (some resource_version) =
    if strategy == write_strategy
    then (do
      target ←
          map_err
            (try_from_target (record { deployment_uid = uid; resource_version = resource_version }))
            invalid_persisted_state
      ok (some target))
    else err invalid_persisted_state
attempt_target none none none = ok none
attempt_target _ _ _ = err invalid_persisted_state

abbrev attempt_response :
    OperationState
    → ValidatedTargetIdentity
    → Option Bool
    → Option ℤ
    → Option Text
    → G (Option ApplyResponseFacts)
attempt_response state target none generation none =
    if state != apply_started || is_none generation then ok none else err invalid_persisted_state
attempt_response state target (some accepted) generation (some resource_version) = do
  map_err
      (validate_outcome (record {
        accepted = accepted;
        requested_generation = generation;
        deployment_uid = some target.deployment_uid;
        resource_version = some resource_version;
      }))
      invalid_persisted_state
  ok (
      some (record {
        accepted = accepted;
        requested_generation = generation;
        resource_version = resource_version;
      }))
attempt_response _ _ _ _ _ = err invalid_persisted_state

abbrev attempt_facts :
    OperationState
    → Option Bool
    → Option ℤ
    → Option Text
    → Option ValidatedTargetIdentity
    → G (Option AttemptFacts)
attempt_facts state accepted generation version none =
    if is_none accepted && is_none generation && is_none version
    then ok none
    else err invalid_persisted_state
attempt_facts state accepted generation version (some target) = do
  response ← attempt_response state target accepted generation version
  ok (some (record { target = target; response = response }))

unfoldable pub validate_snapshot_attempt_facts :
    OperationState
    → Option Text
    → Option Text
    → Option Text
    → Option Bool
    → Option ℤ
    → Option Text
    → G (Option AttemptFacts)
validate_snapshot_attempt_facts state strategy uid resource_version accepted generation
      apply_version =
    attempt_target strategy uid resource_version
    >>= attempt_facts state accepted generation apply_version

-- The closing `match` over the state, with its guards.
abbrev no_receiver :
    Option OperationResult → Option ReceiptStatement → Option FrozenReceipt → Bool → Bool
no_receiver result receiver frozen present =
    is_none result && is_none receiver && is_none frozen && not present

unfoldable pub phase_of :
    OperationState
    → Bool
    → RequestFacts
    → Option AuthorizationFacts
    → Option TargetRejection
    → Option AttemptFacts
    → Option OperationResult
    → Option ReceiptStatement
    → Option FrozenReceipt
    → Bool
    → G LoadedOperation
phase_of requested attempted request authorization rejection attempt result receiver frozen
      present =
    do
      require
          (not attempted
            && is_none rejection
            && is_none attempt
            && no_receiver result receiver frozen present)
          invalid_persisted_state
      ok (requested_phase (record { request = request }))
phase_of authorized attempted request authorization rejection attempt result receiver frozen
      present =
    do
      require
          (not attempted
            && is_some authorization
            && is_none rejection
            && is_none attempt
            && no_receiver result receiver frozen present)
          invalid_persisted_state
      grant ← ok_or authorization invalid_persisted_state
      ok (authorized_phase (record { request = request; authorization = grant }))
phase_of not_attempted attempted request authorization rejection attempt result receiver frozen
      present =
    do
      require
          (not attempted
            && is_some authorization
            && is_some rejection
            && is_none attempt
            && no_receiver result receiver frozen present)
          invalid_persisted_state
      grant ← ok_or authorization invalid_persisted_state
      reason ← ok_or rejection invalid_persisted_state
      let held : AuthorizedOperation = record { request = request; authorization = grant }
      ok (not_attempted_phase (record { authorized = held; rejection = reason }))
phase_of apply_started attempted request authorization rejection attempt result receiver frozen
      present =
    do
      require
          (is_some authorization
            && is_none rejection
            && attempted
            && is_some attempt
            && no_receiver result receiver frozen present)
          invalid_persisted_state
      grant ← ok_or authorization invalid_persisted_state
      facts ← ok_or attempt invalid_persisted_state
      let held : AuthorizedOperation = record { request = request; authorization = grant }
      ok (apply_started_phase (record { authorized = held; attempt = facts }))
phase_of receiver_observed attempted request authorization rejection attempt result receiver frozen
      present =
    do
      require
          (is_some authorization
            && is_none rejection
            && attempted
            && is_some attempt
            && is_some result
            && is_some receiver
            && is_none frozen)
          invalid_persisted_state
      grant ← ok_or authorization invalid_persisted_state
      facts ← ok_or attempt invalid_persisted_state
      statement ← ok_or receiver invalid_persisted_state
      let held : AuthorizedOperation = record { request = request; authorization = grant }
      let started : ApplyStartedOperation = record { authorized = held; attempt = facts }
      ok (receiver_observed_phase (record { apply_started = started; statement = statement }))
phase_of finalized attempted request authorization rejection attempt result receiver frozen
      present =
    do
      require
          (is_some authorization
            && is_none rejection
            && attempted
            && is_some attempt
            && is_some result
            && is_some receiver
            && is_some frozen)
          invalid_persisted_state
      grant ← ok_or authorization invalid_persisted_state
      facts ← ok_or attempt invalid_persisted_state
      statement ← ok_or receiver invalid_persisted_state
      kept ← ok_or frozen invalid_persisted_state
      let held : AuthorizedOperation = record { request = request; authorization = grant }
      let started : ApplyStartedOperation = record { authorized = held; attempt = facts }
      let observed : ReceiverObservedOperation = record {
        apply_started = started;
        statement = statement;
      }
      ok (finalized_phase (record { receiver_observed = observed; receipt = kept }))

abbrev pub result_of : Option ReceiptStatement → Option OperationResult
result_of none = none
result_of (some statement) = some statement.result

-- `if let Some(approved) = &request.approved_target`
abbrev pub approval_is_kept :
    RequestFacts → Option AuthorizationFacts → Option AttemptFacts → Option ApprovedTarget → Bool
approval_is_kept request authorization attempt none = true
approval_is_kept request authorization attempt (some approved) = not (
    is_none authorization
    || is_some_and attempt (λ a.
      a.target.deployment_uid != approved.uid
      || a.target.resource_version != approved.resource_version)
    || (is_some attempt && request.preflight_target != some approved))

abbrev pub with_receipt_error : {A : Type 0} → Result ReceiptError A → Result GatewayError A
with_receipt_error (ok value) = ok value
with_receipt_error (err error) = err (receipt error)

-- `decode_frozen_receipt(..).map_err(GatewayError::Receipt)`
abbrev pub frozen_parts : Bytes → G (Text × ReceiptStatement)
frozen_parts bytes = with_receipt_error (decode_frozen_receipt bytes)

module _ (c : Crypto) where
  unfoldable pub validate_frozen_receipt : FrozenReceipt → G FrozenReceipt
  validate_frozen_receipt r = do
    require (not (not (leb (length r.bytes) receipt_bytes_max) || digest_hex c r.bytes != r.digest))
        receipt_digest_mismatch
    map_err (validate_identity authorization_id r.key_id) invalid_persisted_state
    ok r

  unfoldable pub snapshot_frozen_receipt :
      Text
      → Option Text
      → Option Bytes
      → Option Text
      → Option ReceiptStatement
      → G (Option FrozenReceipt)
  unfolding validate_frozen_receipt
  snapshot_frozen_receipt operation_id none none none statement = ok none
  snapshot_frozen_receipt operation_id (some digest) (some bytes) (some key_id) statement = do
    kept ←
        validate_frozen_receipt
          (record { operation_id = operation_id; digest = digest; bytes = bytes; key_id = key_id })
    expected ← ok_or statement invalid_persisted_state
    (embedded_key_id, embedded_statement) ← frozen_parts kept.bytes
    require (not (embedded_key_id != kept.key_id || embedded_statement != expected))
        invalid_persisted_state
    ok (some kept)
  snapshot_frozen_receipt _ _ _ _ _ = err invalid_persisted_state
