-- ===== src/Gateway/Journal/Rows.antt =====
-- src/gateway/journal/mod.rs: `SnapshotRow`, `ReceiptRow` and the decoding of a raw record.
use kapsel.Base.{
  ℤ, Bool, not, Option, none, some, List, [], ◌∷◌, ◌&&◌, ◌||◌, Bytes, Text, ok, ◌>>=◌, ◌>>◌,
  require, map_err, ok_or, traverse, ◌==◌, ◌!=◌, nat_eq, list_eq, option_eq, if◌then◌else◌, is_some,
  is_none, all, text,
}
use kapsel.Authority.Grant.{Crypto}
use kapsel.Gateway.Types.{
  G, OperationState, requested, authorized, not_attempted, TargetRejection, stale_approval,
  ReceiptStatement, try_from_request, invalid_persisted_state, state_from_sql, result_from_sql,
  rejection_from_sql, state_eq, rejection_eq, result_eq,
}
use kapsel.Gateway.Receipt.Statement
use kapsel.Gateway.Journal.Record
use kapsel.Gateway.Journal.Record.{
  Column, Record, has_value, get_text, get_optional_text, get_integer, get_optional_integer,
  get_optional_i32, get_optional_blob,
}
use kapsel.Gateway.Journal.Phases.{RequestFacts, LoadedOperation, approved_eq}
use kapsel.Gateway.Journal.Decoder.{
  snapshot_target, decode_sql_bool, validate_snapshot_authorization,
  validate_snapshot_attempt_facts, phase_of, result_of, approval_is_kept, snapshot_frozen_receipt,
}

pub record SnapshotRow : Type 0 where
  pub approved_uid : Option Text
  pub approved_resource_version : Option Text
  pub preflight_uid : Option Text
  pub preflight_resource_version : Option Text
  pub operation_id : Text
  pub namespace : Text
  pub deployment : Text
  pub container : Text
  pub immutable_image_digest : Text
  pub state : Text
  pub result : Option Text
  pub target_rejection : Option Text
  pub authorization_id : Option Text
  pub authorization_signer_key_id : Option Text
  pub authorization_grant_digest : Option Text
  pub write_strategy : Option Text
  pub apply_attempted : ℤ
  pub target_uid : Option Text
  pub target_resource_version : Option Text
  pub apply_accepted : Option ℤ
  pub requested_generation : Option ℤ
  pub apply_resource_version : Option Text
  pub receiver_facts_present : Bool
  pub receipt_digest : Option Text
  pub receipt_bytes : Option Bytes
  pub receipt_key_id : Option Text

-- The facts about a stale approval and a preflight target that the decoder wants.
abbrev pub preflight_is_allowed : OperationState → RequestFacts → Option TargetRejection → Bool
preflight_is_allowed state request rejection =
    not (
      rejection == some stale_approval
      && (is_none request.approved_target
          || is_none request.preflight_target
          || request.approved_target == request.preflight_target))
    && not (
        state == not_attempted
        && rejection != some stale_approval
        && is_some request.preflight_target)

unfoldable pub into_operation : Crypto → SnapshotRow → Option ReceiptStatement → G LoadedOperation
unfolding decode_sql_bool
into_operation c row statement = do
  state ← state_from_sql row.state
  attempted ← decode_sql_bool row.apply_attempted
  accepted ← traverse decode_sql_bool row.apply_accepted
  approved ← snapshot_target row.approved_uid row.approved_resource_version
  preflight ← snapshot_target row.preflight_uid row.preflight_resource_version
  require (not (is_some preflight && (state == requested || state == authorized)))
      invalid_persisted_state
  valid ←
      map_err
        (try_from_request (record {
          operation_id = row.operation_id;
          namespace = row.namespace;
          deployment = row.deployment;
          container = row.container;
          immutable_image_digest = row.immutable_image_digest;
        }))
        invalid_persisted_state
  let request : RequestFacts = record {
    approved_target = approved;
    preflight_target = preflight;
    request = valid;
  }
  result ← traverse result_from_sql row.result
  rejection ← traverse rejection_from_sql row.target_rejection
  authorization ←
      validate_snapshot_authorization row.authorization_id row.authorization_signer_key_id
        row.authorization_grant_digest
  attempt ←
      validate_snapshot_attempt_facts state row.write_strategy row.target_uid
        row.target_resource_version accepted row.requested_generation row.apply_resource_version
  require (approval_is_kept request authorization attempt approved) invalid_persisted_state
  require (preflight_is_allowed state request rejection) invalid_persisted_state
  require (result_of statement == result) invalid_persisted_state
  frozen ←
      snapshot_frozen_receipt c valid.operation_id row.receipt_digest row.receipt_bytes
        row.receipt_key_id statement
  phase_of state attempted request authorization rejection attempt result statement frozen
      row.receiver_facts_present

pub record ReceiptRow : Type 0 where
  pub approved_uid : Option Text
  pub approved_resource_version : Option Text
  pub operation_id : Text
  pub authorization_id : Option Text
  pub authorization_signer_key_id : Option Text
  pub authorization_grant_digest : Option Text
  pub namespace : Text
  pub deployment : Text
  pub container : Text
  pub immutable_image_digest : Text
  pub write_strategy : Option Text
  pub target_uid : Option Text
  pub target_resource_version : Option Text
  pub receiver_uid : Option Text
  pub observed_image : Option Text
  pub observed_operation_marker : Option Text
  pub current_generation : Option ℤ
  pub requested_generation : Option ℤ
  pub observed_generation : Option ℤ
  pub observed_resource_version : Option Text
  pub desired_replicas : Option ℤ
  pub updated_replicas : Option ℤ
  pub available_replicas : Option ℤ
  pub unavailable_replicas : Option ℤ
  pub rollout_condition_type : Option Text
  pub rollout_condition_status : Option Text
  pub rollout_condition_reason : Option Text
  pub result : Text

unfoldable pub into_statement : ReceiptRow → G ReceiptStatement
into_statement row = do
  approved ← snapshot_target row.approved_uid row.approved_resource_version
  authorization_id ← ok_or row.authorization_id invalid_persisted_state
  signer ← ok_or row.authorization_signer_key_id invalid_persisted_state
  digest ← ok_or row.authorization_grant_digest invalid_persisted_state
  strategy ← ok_or row.write_strategy invalid_persisted_state
  uid ← ok_or row.target_uid invalid_persisted_state
  version ← ok_or row.target_resource_version invalid_persisted_state
  result ← result_from_sql row.result
  let statement : ReceiptStatement = record {
    approved_target = approved;
    operation_id = row.operation_id;
    authorization_id = authorization_id;
    authorization_signer_key_id = signer;
    authorization_grant_digest = digest;
    namespace = row.namespace;
    deployment = row.deployment;
    container = row.container;
    immutable_image_digest = row.immutable_image_digest;
    write_strategy = strategy;
    target_uid = uid;
    target_resource_version = version;
    receiver_uid = row.receiver_uid;
    observed_image = row.observed_image;
    observed_operation_marker = row.observed_operation_marker;
    current_generation = row.current_generation;
    requested_generation = row.requested_generation;
    observed_generation = row.observed_generation;
    observed_resource_version = row.observed_resource_version;
    desired_replicas = row.desired_replicas;
    updated_replicas = row.updated_replicas;
    available_replicas = row.available_replicas;
    unavailable_replicas = row.unavailable_replicas;
    rollout_condition_type = row.rollout_condition_type;
    rollout_condition_status = row.rollout_condition_status;
    rollout_condition_reason = row.rollout_condition_reason;
    result = result;
  }
  map_err (Statement.validate statement) invalid_persisted_state
  ok statement

abbrev receiver_columns : List Column
receiver_columns =
    Record.receiver_uid ∷ Record.receiver_image ∷ Record.receiver_operation_marker
    ∷ Record.current_generation ∷ Record.observed_generation ∷ Record.receiver_resource_version
    ∷ Record.desired_replicas ∷ Record.updated_replicas ∷ Record.available_replicas
    ∷ Record.unavailable_replicas ∷ Record.rollout_condition_type ∷ Record.rollout_condition_status
    ∷ Record.rollout_condition_reason ∷ []

-- `.iter().any(|field| record.has_value(field))`
unfoldable pub receiver_facts : Record → Bool
receiver_facts r = not (all (λ column. not (has_value r column)) receiver_columns)

unfoldable pub snapshot_row : Record → G SnapshotRow
snapshot_row r = do
  v1 ← get_optional_text r Record.approved_uid
  v2 ← get_optional_text r Record.approved_resource_version
  v3 ← get_optional_text r Record.preflight_uid
  v4 ← get_optional_text r Record.preflight_resource_version
  v5 ← get_text r Record.operation_id
  v6 ← get_text r Record.namespace
  v7 ← get_text r Record.deployment
  v8 ← get_text r Record.container
  v9 ← get_text r Record.immutable_image_digest
  v10 ← get_text r Record.state
  v11 ← get_optional_text r Record.result
  v12 ← get_optional_text r Record.target_rejection
  v13 ← get_optional_text r Record.authorization_id
  v14 ← get_optional_text r Record.authorization_signer_key_id
  v15 ← get_optional_text r Record.authorization_grant_digest
  v16 ← get_optional_text r Record.write_strategy
  v17 ← get_integer r Record.apply_attempted
  v18 ← get_optional_text r Record.target_uid
  v19 ← get_optional_text r Record.target_resource_version
  v20 ← get_optional_integer r Record.apply_accepted
  v21 ← get_optional_integer r Record.requested_generation
  v22 ← get_optional_text r Record.apply_resource_version
  v23 ← get_optional_text r Record.receipt_digest
  v24 ← get_optional_blob r Record.receipt_bytes
  v25 ← get_optional_text r Record.receipt_key_id
  ok (record {
    approved_uid = v1;
    approved_resource_version = v2;
    preflight_uid = v3;
    preflight_resource_version = v4;
    operation_id = v5;
    namespace = v6;
    deployment = v7;
    container = v8;
    immutable_image_digest = v9;
    state = v10;
    result = v11;
    target_rejection = v12;
    authorization_id = v13;
    authorization_signer_key_id = v14;
    authorization_grant_digest = v15;
    write_strategy = v16;
    apply_attempted = v17;
    target_uid = v18;
    target_resource_version = v19;
    apply_accepted = v20;
    requested_generation = v21;
    apply_resource_version = v22;
    receipt_digest = v23;
    receipt_bytes = v24;
    receipt_key_id = v25;
    receiver_facts_present = receiver_facts r;
  })

unfoldable pub receipt_row : Record → G ReceiptRow
receipt_row r = do
  v1 ← get_optional_text r Record.approved_uid
  v2 ← get_optional_text r Record.approved_resource_version
  v3 ← get_text r Record.operation_id
  v4 ← get_optional_text r Record.authorization_id
  v5 ← get_optional_text r Record.authorization_signer_key_id
  v6 ← get_optional_text r Record.authorization_grant_digest
  v7 ← get_text r Record.namespace
  v8 ← get_text r Record.deployment
  v9 ← get_text r Record.container
  v10 ← get_text r Record.immutable_image_digest
  v11 ← get_optional_text r Record.write_strategy
  v12 ← get_optional_text r Record.target_uid
  v13 ← get_optional_text r Record.target_resource_version
  v14 ← get_optional_text r Record.receiver_uid
  v15 ← get_optional_text r Record.receiver_image
  v16 ← get_optional_text r Record.receiver_operation_marker
  v17 ← get_optional_integer r Record.current_generation
  v18 ← get_optional_integer r Record.requested_generation
  v19 ← get_optional_integer r Record.observed_generation
  v20 ← get_optional_text r Record.receiver_resource_version
  v21 ← get_optional_i32 r Record.desired_replicas
  v22 ← get_optional_i32 r Record.updated_replicas
  v23 ← get_optional_i32 r Record.available_replicas
  v24 ← get_optional_i32 r Record.unavailable_replicas
  v25 ← get_optional_text r Record.rollout_condition_type
  v26 ← get_optional_text r Record.rollout_condition_status
  v27 ← get_optional_text r Record.rollout_condition_reason
  v28 ← get_text r Record.result
  ok (record {
    approved_uid = v1;
    approved_resource_version = v2;
    operation_id = v3;
    authorization_id = v4;
    authorization_signer_key_id = v5;
    authorization_grant_digest = v6;
    namespace = v7;
    deployment = v8;
    container = v9;
    immutable_image_digest = v10;
    write_strategy = v11;
    target_uid = v12;
    target_resource_version = v13;
    receiver_uid = v14;
    observed_image = v15;
    observed_operation_marker = v16;
    current_generation = v17;
    requested_generation = v18;
    observed_generation = v19;
    observed_resource_version = v20;
    desired_replicas = v21;
    updated_replicas = v22;
    available_replicas = v23;
    unavailable_replicas = v24;
    rollout_condition_type = v25;
    rollout_condition_status = v26;
    rollout_condition_reason = v27;
    result = v28;
  })

unfoldable pub decode_statement : Record → SnapshotRow → G (Option ReceiptStatement)
unfolding receipt_row into_statement
decode_statement r row =
    if row.state == text "receiver_observed" || row.state == text "finalized"
    then (do retained ← receipt_row r; statement ← into_statement retained; ok (some statement))
    else ok none

-- `records::decode`, whose statement is read in the last two states only.
unfoldable pub decode : Crypto → Record → G LoadedOperation
unfolding snapshot_row receipt_row into_statement into_operation
decode c r = do
  row ← snapshot_row r
  statement ← decode_statement r row
  into_operation c row statement
