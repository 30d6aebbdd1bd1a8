-- ===== src/Gateway/Receipt/Statement.antt =====
-- The receipt statement of src/gateway/receipt/mod.rs: its validation, encoding and parsing.
use kapsel.Base.{
  ℕ, ℤ, Bool, true, false, not, Option, none, some, List, [], ◌∷◌, ◌++◌, ◌||◌, Bytes, Text, text,
  ok, err, ◌>>=◌, ◌>>◌, require, map_err, ◌==◌, ◌!=◌, nat_eq, list_eq, if◌then◌else◌, is_some,
  is_some_and, starts_with, leb,
}
use kapsel.Authority.Grant.{ApprovedTarget, target_is_valid}
use kapsel.Gateway.Types.{
  ReceiptStatement, limit_exceeded, invalid_value, SetDeploymentImageRequest, OperationResult,
  succeeded, failed, unknown, validate_identity, validate_dns_label, validate_dns_subdomain,
  validate_immutable_image, try_from_request, write_strategy, result_eq, operation_id,
  authorization_id, namespace, deployment, container,
}
use kapsel.Gateway.Facts.{ApplyOutcome, ReceiverObservation, validate_observation, classify}
use kapsel.Gateway.Receipt.Framing
use kapsel.Gateway.Receipt.Framing.{
  E, Records, validate_digest, validate_kubernetes_fact, push, push_text, push_optional_text,
  push_i64, push_i32, take, take_text, decode_generation, decode_replica_count, empty_as_none,
  bounded, finish,
}

abbrev pub statement_magic : Bytes
statement_magic = text "KAPSEL-KAP0038-K8S-STATEMENT-V2" ++ 0 ∷ []

abbrev pub snapshot_statement_magic : Bytes
snapshot_statement_magic = text "KAPSEL-KAP0038-K8S-STATEMENT-V3" ++ 0 ∷ []

abbrev pub non_claims : Text
non_claims =
    text
      "no-exactly-once;no-causation;no-kubernetes-truth;no-complete-capture;no-witnessing;not-production"

abbrev pub receipt_bytes_max : ℕ
receipt_bytes_max = 16384

abbrev pub statement_bytes_max : ℕ
statement_bytes_max = 8192

abbrev pub trust_bytes_max : ℕ
trust_bytes_max = 1024

pub record InspectionLimits : Type 0 where
  pub receipt_bytes : ℕ
  pub statement_bytes : ℕ
  pub trust_bytes : ℕ
  pub text_bytes : ℕ

unfoldable pub default_limits : InspectionLimits
default_limits = record {
  receipt_bytes = receipt_bytes_max;
  statement_bytes = statement_bytes_max;
  trust_bytes = trust_bytes_max;
  text_bytes = Framing.text_bytes_max;
}

unfoldable pub validate_limits : InspectionLimits → E (Unit {0})
validate_limits l =
    require
      (not (
        l.receipt_bytes == 0
        || not (leb l.receipt_bytes receipt_bytes_max)
        || l.statement_bytes == 0
        || not (leb l.statement_bytes statement_bytes_max)
        || l.trust_bytes == 0
        || not (leb l.trust_bytes trust_bytes_max)
        || l.text_bytes == 0
        || not (leb l.text_bytes Framing.text_bytes_max)))
      limit_exceeded

unfoldable pub statement_request : ReceiptStatement → SetDeploymentImageRequest
statement_request s = record {
  operation_id = s.operation_id;
  namespace = s.namespace;
  deployment = s.deployment;
  container = s.container;
  immutable_image_digest = s.immutable_image_digest;
}

unfoldable pub statement_outcome : ReceiptStatement → ApplyOutcome
statement_outcome s = record {
  accepted = false;
  requested_generation = s.requested_generation;
  deployment_uid = some s.target_uid;
  resource_version = some s.target_resource_version;
}

unfoldable pub statement_observation : ReceiptStatement → ReceiverObservation
statement_observation s = record {
  deployment_uid = s.receiver_uid;
  resource_version = s.observed_resource_version;
  current_generation = s.current_generation;
  observed_generation = s.observed_generation;
  image = s.observed_image;
  operation_marker = s.observed_operation_marker;
  desired_replicas = s.desired_replicas;
  updated_replicas = s.updated_replicas;
  available_replicas = s.available_replicas;
  unavailable_replicas = s.unavailable_replicas;
  rollout_condition_type = s.rollout_condition_type;
  rollout_condition_status = s.rollout_condition_status;
  rollout_condition_reason = s.rollout_condition_reason;
}

-- The loop over the facts that are there.
unfoldable pub validate_facts : List (Option Text) → E (Unit {0})
validate_facts [] = ok tt
validate_facts (none ∷ rest) = validate_facts rest
validate_facts (some value ∷ rest) = validate_kubernetes_fact value >> validate_facts rest

abbrev check_image : Option Text → E (Unit {0})
check_image none = ok tt
check_image (some image) = map_err (validate_immutable_image image) invalid_value

unfoldable pub validate : ReceiptStatement → E (Unit {0})
unfolding statement_request statement_outcome statement_observation
validate s = do
  map_err (validate_identity operation_id s.operation_id) invalid_value
  map_err (validate_identity authorization_id s.authorization_id) invalid_value
  map_err (validate_identity authorization_id s.authorization_signer_key_id) invalid_value
  validate_digest s.authorization_grant_digest
  require
      (not (
        is_some_and s.approved_target (λ target.
          not (target_is_valid target)
          || target.uid != s.target_uid
          || target.resource_version != s.target_resource_version)))
      invalid_value
  map_err (validate_dns_label namespace s.namespace) invalid_value
  map_err (validate_dns_subdomain deployment s.deployment) invalid_value
  map_err (validate_dns_label container s.container) invalid_value
  map_err (validate_immutable_image s.immutable_image_digest) invalid_value
  require (s.write_strategy == write_strategy) invalid_value
  validate_facts (
      some s.target_uid
      ∷ some s.target_resource_version
      ∷ s.receiver_uid
      ∷ s.observed_operation_marker
      ∷ s.observed_resource_version
      ∷ s.rollout_condition_type
      ∷ s.rollout_condition_status
      ∷ s.rollout_condition_reason
      ∷ [])
  check_image s.observed_image
  map_err (validate_observation (statement_observation s)) invalid_value
  request ← map_err (try_from_request (statement_request s)) invalid_value
  require (classify (statement_observation s) request (statement_outcome s) == s.result)
      invalid_value

unfoldable pub as_receipt_bytes : OperationResult → Bytes
as_receipt_bytes succeeded = text "SUCCEEDED"
as_receipt_bytes failed = text "FAILED"
as_receipt_bytes unknown = text "UNKNOWN"

unfoldable pub from_receipt_bytes : Bytes → E OperationResult
from_receipt_bytes value =
    if value == text "SUCCEEDED"
    then ok succeeded
    else if value == text "FAILED"
    then ok failed
    else if value == text "UNKNOWN"
    then ok unknown
    else err invalid_value

-- The loop over the required texts.
unfoldable pub push_texts : Bytes → List (ℕ × Text) → E Bytes
push_texts output [] = ok output
push_texts output ((tag, value) ∷ rest) =
    push_text output tag value statement_bytes_max >>= λ next. push_texts next rest

abbrev push_target : Bytes → Option ApprovedTarget → E Bytes
push_target output none = ok output
push_target output (some approved) = do
  o28 ← push_text output 28 approved.uid statement_bytes_max
  push_text o28 29 approved.resource_version statement_bytes_max

unfoldable pub encode : ReceiptStatement → E Bytes
encode s = do
  validate s
  let magic = if is_some s.approved_target then snapshot_statement_magic else statement_magic
  o11 ← push_texts magic (
      (1, s.operation_id)
      ∷ (2, s.authorization_id)
      ∷ (3, s.authorization_signer_key_id)
      ∷ (4, s.authorization_grant_digest)
      ∷ (5, s.namespace)
      ∷ (6, s.deployment)
      ∷ (7, s.container)
      ∷ (8, s.immutable_image_digest)
      ∷ (9, s.write_strategy)
      ∷ (10, s.target_uid)
      ∷ (11, s.target_resource_version)
      ∷ [])
  o12 ← push_optional_text o11 12 s.receiver_uid statement_bytes_max
  o13 ← push_optional_text o12 13 s.observed_image statement_bytes_max
  o14 ← push_optional_text o13 14 s.observed_operation_marker statement_bytes_max
  o15 ← push_i64 o14 15 s.current_generation statement_bytes_max
  o16 ← push_i64 o15 16 s.requested_generation statement_bytes_max
  o17 ← push_i64 o16 17 s.observed_generation statement_bytes_max
  o18 ← push_optional_text o17 18 s.observed_resource_version statement_bytes_max
  o19 ← push_i32 o18 19 s.desired_replicas statement_bytes_max
  o20 ← push_i32 o19 20 s.updated_replicas statement_bytes_max
  o21 ← push_i32 o20 21 s.available_replicas statement_bytes_max
  o22 ← push_i32 o21 22 s.unavailable_replicas statement_bytes_max
  o23 ← push_optional_text o22 23 s.rollout_condition_type statement_bytes_max
  o24 ← push_optional_text o23 24 s.rollout_condition_status statement_bytes_max
  o25 ← push_optional_text o24 25 s.rollout_condition_reason statement_bytes_max
  o26 ← push o25 26 (as_receipt_bytes s.result) statement_bytes_max
  o27 ← push o26 27 non_claims statement_bytes_max
  push_target o27 s.approved_target

abbrev take_target : Bool → Records → E (Option ApprovedTarget × Records)
take_target false r = ok (none, r)
take_target true r = do
  (uid, r28) ← take_text 28 r
  (resource_version, r29) ← take_text 29 r28
  ok (some (record { uid = uid; resource_version = resource_version }), r29)

-- `decode_generation(records.take(tag)?)?` and the like.
abbrev take_generation : ℕ → Records → E (Option ℤ × Records)
take_generation tag r = do
  (value, r') ← take tag r
  number ← decode_generation value
  ok (number, r')

abbrev take_replicas : ℕ → Records → E (Option ℤ × Records)
take_replicas tag r = do
  (value, r') ← take tag r
  number ← decode_replica_count value
  ok (number, r')

unfoldable pub parse : Bytes → InspectionLimits → E ReceiptStatement
parse input limits = do
  validate_limits limits
  bounded input limits.statement_bytes
  let snapshot_bound = starts_with input snapshot_statement_magic
  r0 ←
      Framing.new input (if snapshot_bound then snapshot_statement_magic else statement_magic)
        limits.text_bytes
  (v1, r1) ← take_text 1 r0
  (v2, r2) ← take_text 2 r1
  (v3, r3) ← take_text 3 r2
  (v4, r4) ← take_text 4 r3
  (v5, r5) ← take_text 5 r4
  (v6, r6) ← take_text 6 r5
  (v7, r7) ← take_text 7 r6
  (v8, r8) ← take_text 8 r7
  (v9, r9) ← take_text 9 r8
  (v10, r10) ← take_text 10 r9
  (v11, r11) ← take_text 11 r10
  (v12, r12) ← take_text 12 r11
  (v13, r13) ← take_text 13 r12
  (v14, r14) ← take_text 14 r13
  (v15, r15) ← take_generation 15 r14
  (v16, r16) ← take_generation 16 r15
  (v17, r17) ← take_generation 17 r16
  (v18, r18) ← take_text 18 r17
  (v19, r19) ← take_replicas 19 r18
  (v20, r20) ← take_replicas 20 r19
  (v21, r21) ← take_replicas 21 r20
  (v22, r22) ← take_replicas 22 r21
  (v23, r23) ← take_text 23 r22
  (v24, r24) ← take_text 24 r23
  (v25, r25) ← take_text 25 r24
  (v26, r26) ← take 26 r25
  parsed_result ← from_receipt_bytes v26
  (v27, r27) ← take 27 r26
  require (v27 == non_claims) invalid_value
  (target, r29) ← take_target snapshot_bound r27
  finish r29
  let s : ReceiptStatement = record {
    approved_target = target;
    operation_id = v1;
    authorization_id = v2;
    authorization_signer_key_id = v3;
    authorization_grant_digest = v4;
    namespace = v5;
    deployment = v6;
    container = v7;
    immutable_image_digest = v8;
    write_strategy = v9;
    target_uid = v10;
    target_resource_version = v11;
    receiver_uid = empty_as_none v12;
    observed_image = empty_as_none v13;
    observed_operation_marker = empty_as_none v14;
    current_generation = v15;
    requested_generation = v16;
    observed_generation = v17;
    observed_resource_version = empty_as_none v18;
    desired_replicas = v19;
    updated_replicas = v20;
    available_replicas = v21;
    unavailable_replicas = v22;
    rollout_condition_type = empty_as_none v23;
    rollout_condition_status = empty_as_none v24;
    rollout_condition_reason = empty_as_none v25;
    result = parsed_result;
  }
  validate s
  ok s
