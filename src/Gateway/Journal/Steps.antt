-- ===== src/Gateway/Journal/Steps.antt =====
-- src/gateway/journal/mod.rs: the writes that move one operation from phase to phase.
use kapsel.Base.{
  ℤ, pos, not, Option, none, some, ◌||◌, Text, text, require, map_err, ◌==◌, ◌!=◌, nat_eq, list_eq,
  option_eq, if◌then◌else◌, is_none,
}
use kapsel.Authority.Grant.{ApprovedTarget, digest_hex}
use kapsel.Gateway.Types.{
  G, requested, authorized, not_attempted, apply_started, receiver_observed, finalized,
  TargetRejection, AuthorizedRequest, OperationResult, invalid_persisted_state, invalid_transition,
  invalid_kubernetes_fact, state_as_sql, rejection_as_sql, result_as_sql, write_strategy, state_eq,
}
use kapsel.Gateway.Facts.{
  ApplyOutcome, ReceiverObservation, ValidatedTargetIdentity, try_from_target, validate_outcome,
  validate_observation, classify, requested_generation,
}
use kapsel.Gateway.Journal.Record
use kapsel.Gateway.Journal.Record.{
  Record, text_value, integer, blob, set, set_optional, empty, get_optional_text,
}
use kapsel.Gateway.Journal.Phases.{
  FrozenReceipt, requested_phase, authorized_phase, apply_started_phase, receiver_observed_phase,
  RequestedOperation, AuthorizedOperation, ApplyStartedOperation, ReceiverObservedOperation,
  DispatchPermission, approved_eq, statement_eq, request_eq, authorized_request, started_request,
  observed_operation_id, classification_outcome,
}
use kapsel.Gateway.Journal.Decoder.{frozen_parts}
use kapsel.Gateway.Journal.Store.{Env, Act, ◌>>=◌, ◌>>◌, return, lift, replace}
use kapsel.Gateway.Journal.Writes.{existing_submission, bound_record}

abbrev pub approved_uid_of : Option ApprovedTarget → Option Text
approved_uid_of none = none
approved_uid_of (some target) = some target.uid

abbrev pub approved_version_of : Option ApprovedTarget → Option Text
approved_version_of none = none
approved_version_of (some target) = some target.resource_version

unfoldable pub requested_record : AuthorizedRequest → Record
requested_record a =
    let r1 = set Record.namespace (text_value a.request.namespace) (empty a.request.operation_id) in
    let r2 = set Record.deployment (text_value a.request.deployment) r1 in
    let r3 = set Record.container (text_value a.request.container) r2 in
    let r4 = set Record.immutable_image_digest (text_value a.request.immutable_image) r3 in
    let r5 = set Record.state (text_value (state_as_sql requested)) r4 in
    let r6 =
      set Record.authorization_id (text_value a.authorization.authorization.authorization_id) r5 in
    let r7 = set Record.authorization_signer_key_id (text_value a.authorization.signer_key_id) r6 in
    let r8 = set Record.authorization_grant_digest (text_value a.authorization.grant_digest) r7 in
    let r9 = set Record.signed_authorization_grant (blob a.authorization.signed_grant) r8 in
    let r10 =
      set_optional Record.approved_uid text_value
        (approved_uid_of a.authorization.authorization.approved_target) r9 in
    set_optional Record.approved_resource_version text_value
      (approved_version_of a.authorization.authorization.approved_target) r10

unfoldable pub authorized_row : AuthorizedRequest → Record → Record
authorized_row a r =
    let r1 = set Record.state (text_value (state_as_sql authorized)) r in
    let r2 =
      set Record.authorization_id (text_value a.authorization.authorization.authorization_id) r1 in
    let r3 = set Record.authorization_signer_key_id (text_value a.authorization.signer_key_id) r2 in
    set Record.authorization_grant_digest (text_value a.authorization.grant_digest) r3

unfoldable pub rejected_row : TargetRejection → Record → Record
rejected_row rejection r =
    set Record.target_rejection (text_value (rejection_as_sql rejection))
      (set Record.state (text_value (state_as_sql not_attempted)) r)

unfoldable pub stale_row : ValidatedTargetIdentity → Record → Record
stale_row observed r =
    let r1 = set Record.state (text_value (text "not_attempted")) r in
    let r2 = set Record.target_rejection (text_value (text "stale_approval")) r1 in
    let r3 = set Record.preflight_uid (text_value observed.deployment_uid) r2 in
    set Record.preflight_resource_version (text_value observed.resource_version) r3

unfoldable pub started_row : ValidatedTargetIdentity → Record → Record
started_row target r =
    let r1 = set Record.state (text_value (state_as_sql apply_started)) r in
    let r2 = set Record.write_strategy (text_value write_strategy) r1 in
    let r3 = set Record.apply_attempted (integer (pos 1)) r2 in
    let r4 = set Record.target_uid (text_value target.deployment_uid) r3 in
    let r5 = set Record.preflight_uid (text_value target.deployment_uid) r4 in
    let r6 = set Record.target_resource_version (text_value target.resource_version) r5 in
    set Record.preflight_resource_version (text_value target.resource_version) r6

unfoldable pub outcome_row : ApplyOutcome → Record → Record
outcome_row outcome r =
    let r1 = set Record.apply_accepted (integer (pos (if outcome.accepted then 1 else 0))) r in
    let r2 = set_optional Record.requested_generation integer outcome.requested_generation r1 in
    set_optional Record.apply_resource_version text_value outcome.resource_version r2

unfoldable pub observed_row : ReceiverObservation → OperationResult → Option ℤ → Record → Record
observed_row o result generation r =
    let r1 = set Record.state (text_value (state_as_sql receiver_observed)) r in
    let r2 = set_optional Record.receiver_uid text_value o.deployment_uid r1 in
    let r3 = set_optional Record.receiver_image text_value o.image r2 in
    let r4 = set_optional Record.receiver_operation_marker text_value o.operation_marker r3 in
    let r5 = set_optional Record.current_generation integer o.current_generation r4 in
    let r6 = set_optional Record.observed_generation integer o.observed_generation r5 in
    let r7 = set_optional Record.receiver_resource_version text_value o.resource_version r6 in
    let r8 = set_optional Record.desired_replicas integer o.desired_replicas r7 in
    let r9 = set_optional Record.updated_replicas integer o.updated_replicas r8 in
    let r10 = set_optional Record.available_replicas integer o.available_replicas r9 in
    let r11 = set_optional Record.unavailable_replicas integer o.unavailable_replicas r10 in
    let r12 = set Record.result (text_value (result_as_sql result)) r11 in
    let r13 = set_optional Record.requested_generation integer generation r12 in
    let r14 = set_optional Record.rollout_condition_type text_value o.rollout_condition_type r13 in
    let r15 =
      set_optional Record.rollout_condition_status text_value o.rollout_condition_status r14 in
    set_optional Record.rollout_condition_reason text_value o.rollout_condition_reason r15

unfoldable pub finalized_row : FrozenReceipt → Record → Record
finalized_row kept r =
    let r1 = set Record.state (text_value (state_as_sql finalized)) r in
    let r2 = set Record.receipt_digest (text_value kept.digest) r1 in
    let r3 = set Record.receipt_bytes (blob kept.bytes) r2 in
    set Record.receipt_key_id (text_value kept.key_id) r3

abbrev pub approved_identity : ApprovedTarget → G ValidatedTargetIdentity
approved_identity approved =
    map_err
      (try_from_target
        (record { deployment_uid = approved.uid; resource_version = approved.resource_version }))
      invalid_persisted_state

module _ (e : Env) where
  unfoldable pub insert_requested : AuthorizedRequest → Act (Unit {0})
  unfolding requested_record
  insert_requested a = replace e none (requested_record a)

  unfoldable pub mark_authorized : RequestedOperation → AuthorizedRequest → Act (Unit {0})
  unfolding authorized_row
  mark_authorized operation a = do
    lift (require (operation.request.request == a.request) invalid_transition)
    existing ← existing_submission e a
    lift (require (existing == some requested) invalid_transition)
    r ← bound_record e operation.request.request.operation_id (requested_phase operation)
    replace e (some r) (authorized_row a r)

  unfoldable pub mark_not_attempted : AuthorizedOperation → TargetRejection → Act (Unit {0})
  unfolding rejected_row authorized_request
  mark_not_attempted operation rejection = do
    r ← bound_record e (authorized_request operation).operation_id (authorized_phase operation)
    replace e (some r) (rejected_row rejection r)

  unfoldable pub mark_stale_approval :
      AuthorizedOperation → ValidatedTargetIdentity → Act (Unit {0})
  unfolding stale_row authorized_request
  mark_stale_approval operation observed = do
    r ← bound_record e (authorized_request operation).operation_id (authorized_phase operation)
    replace e (some r) (stale_row observed r)

  unfoldable pub mark_apply_started : AuthorizedOperation → ValidatedTargetIdentity → Act (Unit {0})
  unfolding started_row authorized_request
  mark_apply_started operation target = do
    r ← bound_record e (authorized_request operation).operation_id (authorized_phase operation)
    replace e (some r) (started_row target r)

  unfoldable pub start :
      AuthorizedOperation → ValidatedTargetIdentity → Act (Option DispatchPermission)
  unfolding mark_apply_started
  start operation target = do
    mark_apply_started operation target
    return (some (record { request = authorized_request operation; target = target }))

  -- The target that an approval fixes, or the observed one.
  unfoldable pub begin_at :
      AuthorizedOperation
      → ValidatedTargetIdentity
      → Option ApprovedTarget
      → Act (Option DispatchPermission)
  unfolding start mark_stale_approval
  begin_at operation observed none = start operation observed
  begin_at operation observed (some approved) =
      if observed.deployment_uid != approved.uid
        || observed.resource_version != approved.resource_version
      then mark_stale_approval operation observed >> return none
      else lift (approved_identity approved) >>= λ target. start operation target

  unfoldable pub begin_attempt :
      AuthorizedOperation → ValidatedTargetIdentity → Act (Option DispatchPermission)
  unfolding begin_at
  begin_attempt operation observed = do
    _ ← bound_record e (authorized_request operation).operation_id (authorized_phase operation)
    begin_at operation observed operation.request.approved_target

  unfoldable pub record_apply_outcome : ApplyStartedOperation → ApplyOutcome → Act (Unit {0})
  unfolding outcome_row started_request
  record_apply_outcome operation outcome = do
    lift (validate_outcome outcome)
    r ← bound_record e (started_request operation).operation_id (apply_started_phase operation)
    target_uid ← lift (get_optional_text r Record.target_uid)
    lift (
        require
          (not (
            is_none target_uid
            || outcome.deployment_uid != target_uid
            || is_none outcome.resource_version))
          invalid_kubernetes_fact)
    replace e (some r) (outcome_row outcome r)

  unfoldable pub freeze_observation : ApplyStartedOperation → ReceiverObservation → Act (Unit {0})
  unfolding observed_row started_request classification_outcome
  freeze_observation operation observation = do
    lift (validate_observation observation)
    let outcome = classification_outcome operation
    let result = classify observation (started_request operation) outcome
    let generation = requested_generation observation (started_request operation) outcome
    r ← bound_record e (started_request operation).operation_id (apply_started_phase operation)
    replace e (some r) (observed_row observation result generation r)

  unfoldable pub commit_receipt : ReceiverObservedOperation → FrozenReceipt → Act (Unit {0})
  unfolding finalized_row observed_operation_id
  commit_receipt operation kept = do
    lift (require (kept.operation_id == observed_operation_id operation) invalid_transition)
    r ← bound_record e (observed_operation_id operation) (receiver_observed_phase operation)
    (key_id, statement) ← lift (frozen_parts kept.bytes)
    lift (
        require
          (not (
            statement != operation.statement
            || key_id != kept.key_id
            || digest_hex e.crypto kept.bytes != kept.digest))
          invalid_persisted_state)
    replace e (some r) (finalized_row kept r)
