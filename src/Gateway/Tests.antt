-- ===== src/Gateway/Tests.antt =====
-- Concrete inputs for the theorems about src/gateway.
pub mod Loop
pub mod Histories
use kapsel.Base.{
  ℕ_discrete, pos, ◌≡◌, ◌≤◌, ◌↔◌, refl, true, false, Option, some, none, List, [], ◌∷◌, ◌++◌, Bytes,
  Text, text, ok, arith, ◌==◌, nat_eq, list_eq, if◌then◌else◌, ◌>>=◌,
}
use kapsel.Base.{Result, err}
use kapsel.Authority.Grant.{
  AuthorizationGrantError, sign_authorization_grant, Crypto, AuthorizationTrust, target_is_valid,
}
use kapsel.Authority.Grammar.{
  identity_is_valid, dns_label_is_valid, dns_subdomain_is_valid, immutable_image_is_valid,
}
use kapsel.Gateway.Types.{
  apply_started, succeeded, failed, SetDeploymentImageRequest, ValidatedRequest, AuthorizedRequest,
  state_from_sql, state_as_sql, result_from_sql, result_as_sql, try_from_request, validate_identity,
  validate_dns_label, validate_dns_subdomain, validate_immutable_image, state_eq,
  OperationState-discrete, rejection_eq, TargetRejection-discrete, result_eq,
  OperationResult-discrete,
}
use kapsel.Gateway.Types.Spelling.{state_from_sql-as_sql, result_from_sql-as_sql}
use kapsel.Gateway.Facts.{TargetIdentity, ApplyOutcome, ReceiverObservation, classify}
use kapsel.Gateway.Facts.Classification.{
  IsEstablished, IsAvailable, HasFailed, classify-eq-succeeded, classify-eq-failed,
}
use kapsel.Gateway.Journal.Record
use kapsel.Gateway.Journal.Record.{
  Record, text_value, get_text, get_optional_text, get_integer, get_optional_integer,
  get_optional_blob, has_value, set, set_optional, index, empty,
}
use kapsel.Gateway.Journal.Phases.{
  AuthorizedOperation, authorized_phase, loaded_state, approved_eq, ApprovedTarget-discrete,
}
use kapsel.Gateway.Journal.Decoder.{
  snapshot_target, decode_sql_bool, try_from_digest, validate_snapshot_authorization,
  validate_snapshot_attempt_facts, phase_of, snapshot_frozen_receipt,
}
use kapsel.Gateway.Journal.Rows.{
  decode, snapshot_row, into_operation, receiver_facts, decode_statement,
}
use kapsel.Gateway.Journal.Store.{Env, World, committed, acknowledgement_lost, acquired, replace}
use kapsel.Gateway.Journal.Steps.{requested_record, authorized_row, begin_attempt}
use kapsel.Gateway.Reconcile.{ReceiptSettings}
use kapsel.Gateway.Dispatch.{IsWithin, Grows, Holds, attempted, sends}
use kapsel.Gateway.Dispatch.Replace.{Written, replace-Holds}
use kapsel.Gateway.Dispatch.Decoded.{is_attempted, decode-eq-ok}
use kapsel.Gateway.Dispatch.Transitions.{Begun, begin_attempt-Holds}
use kapsel.Gateway.Dispatch.Permission.{IsPermitted, begin_attempt-IsPermitted}
use kapsel.Gateway.Journal.Store
use kapsel.Gateway.Journal.Steps.{begin_at, start, mark_apply_started, started_row}
use kapsel.Gateway.Journal.Writes.{bound_record}
use kapsel.Gateway.Facts.{
  ValidatedTargetIdentity, try_from_target, validate_target, validate_required_fact,
}
use kapsel.Gateway.Journal.Record.{same_values, value_eq, Value-discrete}
use kapsel.Gateway.Journal.Phases.{
  loaded_eq, LoadedOperation-discrete, authorized_request, DispatchPermission,
}
use kapsel.Gateway.Journal.Capacity.{retained, world_after, replace-capacity}
use kapsel.Gateway.Journal.Store.{
  identity_capacity, read, bounded_row, persisted_values_within_bounds, written_rows,
  update_changed_columns, changed_one, commit, commit_as, tick, field_limit, ◌>>◌, lift, return,
}
use kapsel.Gateway.Passing.Entry.{Pass, reconcile, submit, restart, history}
use kapsel.Gateway.Dispatch.History.{history-sends, history-IsWithin}

abbrev pub eight : Bytes
eight = 0 ∷ 0 ∷ 0 ∷ 0 ∷ 0 ∷ 0 ∷ 0 ∷ 0 ∷ []

abbrev test_crypto : Crypto
test_crypto = record {
  public_key = λ seed. seed;
  key_is_valid = λ key. true;
  sign = λ seed message. eight ++ eight ++ eight ++ eight ++ eight ++ eight ++ eight ++ eight;
  verify_strict = λ key message signature. true;
  sha256 = λ bytes. eight ++ eight ++ eight ++ eight;
}

abbrev test_target : TargetIdentity
test_target = record { deployment_uid = text "uid-1"; resource_version = text "41" }

abbrev test_outcome : ApplyOutcome
test_outcome = record {
  accepted = true;
  requested_generation = some (pos 7);
  deployment_uid = some (text "uid-1");
  resource_version = some (text "42");
}

abbrev test_image : Text
test_image =
    text "registry/app@sha256:0123456789abcdef0123456789abcdef0123456789abcdef0123456789abcdef"

abbrev test_observation : Text → Text → Option Text → ReceiverObservation
test_observation condition status reason = record {
  deployment_uid = some (text "uid-1");
  resource_version = some (text "43");
  current_generation = some (pos 7);
  observed_generation = some (pos 8);
  image = some test_image;
  operation_marker = some (text "op-1");
  desired_replicas = some (pos 3);
  updated_replicas = some (pos 3);
  available_replicas = some (pos 3);
  unavailable_replicas = some (pos 0);
  rollout_condition_type = some condition;
  rollout_condition_status = some status;
  rollout_condition_reason = reason;
}

-- The acknowledgement of one commit is lost.
abbrev pub test_env : Env
test_env = record {
  crypto = test_crypto;
  real_length = λ _. 24;
  reads = λ _. true;
  commits = λ clock. if clock == 9 then acknowledgement_lost else committed;
  locks = λ _. acquired;
  unlocks = λ _. true;
  identify = λ _ request. ok test_target;
  apply = λ _ request target. some test_outcome;
  observe = λ _ request outcome. some (test_observation (text "Available") (text "True") none);
}

abbrev pub test_request : SetDeploymentImageRequest
test_request = record {
  operation_id = text "op-1";
  namespace = text "prod";
  deployment = text "web.api";
  container = text "main";
  immutable_image_digest = test_image;
}

abbrev test_valid : ValidatedRequest
test_valid = record {
  operation_id = text "op-1";
  namespace = text "prod";
  deployment = text "web.api";
  container = text "main";
  immutable_image = test_image;
}

abbrev pub test_world : World
test_world = record { rows = []; git = []; clock = 0; sent = []; acknowledged = []; held = false }

abbrev pub test_trust : List AuthorizationTrust
test_trust = record { key_id = text "key-1"; public_key = eight ++ eight ++ eight ++ eight } ∷ []

abbrev pub test_settings : ReceiptSettings
test_settings = record {
  signing_seed = eight ++ eight ++ eight ++ eight;
  key_id = text "receipt-1";
}

abbrev pub test_authorized : AuthorizedRequest
test_authorized = record {
  request = test_valid;
  authorization = record {
    authorization = record {
      approved_target = some (record { uid = text "uid-1"; resource_version = text "41" });
      authorization_id = text "auth-1";
      operation_id = text "op-1";
      namespace = text "prod";
      deployment = text "web.api";
      container = text "main";
      immutable_image_digest = test_image;
    };
    signer_key_id = text "key-1";
    grant_digest = text "0000000000000000000000000000000000000000000000000000000000000000";
    signed_grant = eight;
  };
}

abbrev grant_bytes : Result AuthorizationGrantError Bytes → Bytes
grant_bytes (ok bytes) = bytes
grant_bytes (err _) = []

-- A grant for the test request.
abbrev pub test_grant : Bytes
test_grant = grant_bytes (
    sign_authorization_grant test_env.crypto test_authorized.authorization.authorization
      (eight ++ eight ++ eight ++ eight) (text "key-1"))

abbrev pub test_passes : List Pass
test_passes =
    submit test_env test_trust test_request test_grant
    ∷ reconcile test_env test_trust test_request test_grant true (some test_settings)
    ∷ restart
    ∷ reconcile test_env test_trust test_request test_grant true (some test_settings)
    ∷ []

history-sends_example : sends (text "op-1") (history test_passes test_world).sent ≤ 1
history-sends_example = history-sends test_passes test_world (text "op-1") refl

test_world-IsWithin : IsWithin test_world
unfolding IsWithin sends
test_world-IsWithin id = omega arith

history-IsWithin_example : IsWithin (history test_passes test_world)
history-IsWithin_example = history-IsWithin test_passes test_world test_world-IsWithin

abbrev pub test_row : Record
unfolding requested_record authorized_row
test_row = authorized_row test_authorized (requested_record test_authorized)

abbrev test_operation : AuthorizedOperation
test_operation = record {
  request = record {
    approved_target = some (record { uid = text "uid-1"; resource_version = text "41" });
    preflight_target = none;
    request = test_valid;
  };
  authorization = record {
    authorization_id = text "auth-1";
    signer_key_id = text "key-1";
    grant_digest = text "0000000000000000000000000000000000000000000000000000000000000000";
  };
}

test_row_decodes : decode test_crypto test_row ≡ ok (authorized_phase test_operation)
unfolding requested_record authorized_row test_row decode decode_statement snapshot_row
    into_operation receiver_facts snapshot_target decode_sql_bool try_from_digest
    validate_snapshot_authorization validate_snapshot_attempt_facts phase_of snapshot_frozen_receipt
    get_text get_optional_text get_integer get_optional_integer get_optional_blob has_value set
    set_optional index empty state_from_sql state_as_sql try_from_request validate_identity
    validate_dns_label validate_dns_subdomain validate_immutable_image identity_is_valid
    dns_label_is_valid dns_subdomain_is_valid immutable_image_is_valid target_is_valid state_eq
    OperationState-discrete rejection_eq TargetRejection-discrete result_eq OperationResult-discrete
    approved_eq ApprovedTarget-discrete
test_row_decodes = refl

decode-eq-ok_example :
    (attempted test_row
      ≡ (if is_attempted (loaded_state (authorized_phase test_operation)) then 1 else 0))
    × ((get_text test_row Record.state >>= state_from_sql)
        ≡ ok (loaded_state (authorized_phase test_operation)))
decode-eq-ok_example =
    decode-eq-ok test_crypto test_row (authorized_phase test_operation) test_row_decodes

abbrev test_image_observation : ReceiverObservation
test_image_observation = test_observation (text "Available") (text "True") none

classify-eq-succeeded_example :
    (classify test_image_observation test_valid test_outcome ≡ succeeded) ↔ (
      IsEstablished test_image_observation test_valid test_outcome
      × IsAvailable test_image_observation)
classify-eq-succeeded_example = classify-eq-succeeded test_image_observation test_valid test_outcome

abbrev test_late_observation : ReceiverObservation
test_late_observation =
    test_observation (text "Progressing") (text "False") (some (text "ProgressDeadlineExceeded"))

classify-eq-failed_example : (classify test_late_observation test_valid test_outcome ≡ failed) ↔ (
    IsEstablished test_late_observation test_valid test_outcome × HasFailed test_late_observation)
classify-eq-failed_example = classify-eq-failed test_late_observation test_valid test_outcome

state_from_sql-as_sql_example : state_from_sql (state_as_sql apply_started) ≡ ok apply_started
state_from_sql-as_sql_example = state_from_sql-as_sql apply_started

result_from_sql-as_sql_example : result_from_sql (result_as_sql failed) ≡ ok failed
result_from_sql-as_sql_example = result_from_sql-as_sql failed

-- The authorized row of the operation is retained.
abbrev pub test_retained : World
unfolding test_row
test_retained = record {
  rows = test_row ∷ [];
  git = [];
  clock = 3;
  sent = [];
  acknowledged = [];
  held = true;
}

begin_attempt-Holds_example :
    Holds
      (Grows test_retained)
      (λ permission v. Begun test_env test_retained permission v)
      (begin_attempt test_env test_operation
        (record { deployment_uid = text "uid-1"; resource_version = text "41" })
        test_retained)
begin_attempt-Holds_example =
    begin_attempt-Holds test_env test_operation
      (record { deployment_uid = text "uid-1"; resource_version = text "41" }) test_retained

test_row_id : test_row.values Record.operation_id ≡ text_value (text "op-1")
unfolding test_row requested_record authorized_row set set_optional index empty
test_row_id = refl

abbrev test_next : Record
unfolding set test_row
test_next = set Record.write_strategy (text_value (text "other")) test_row

test_next_id : test_next.values Record.operation_id ≡ text_value (text "op-1")
unfolding test_next test_row requested_record authorized_row set set_optional index empty
test_next_id = refl

test_next-attempted : attempted test_row ≤ attempted test_next
unfolding test_next test_row requested_record authorized_row set set_optional index empty
test_next-attempted = omega arith

replace-Holds_example :
    Holds
      (Grows test_retained)
      (Written test_env (text "op-1") test_next test_retained)
      (replace test_env (some test_row) test_next test_retained)
replace-Holds_example =
    replace-Holds test_env (text "op-1") test_next test_row test_retained test_row_id test_next_id
      test_next-attempted

abbrev test_observed : ValidatedTargetIdentity
test_observed = record { deployment_uid = text "uid-1"; resource_version = text "41" }

abbrev test_permission : DispatchPermission
test_permission = record { request = test_valid; target = test_observed }

test_begins :
    (begin_attempt test_env test_operation test_observed test_retained).0
    ≡ ok (some test_permission)
unfolding requested_record authorized_row test_row decode decode_statement snapshot_row
    into_operation receiver_facts snapshot_target decode_sql_bool try_from_digest
    validate_snapshot_authorization validate_snapshot_attempt_facts phase_of snapshot_frozen_receipt
    get_text get_optional_text get_integer get_optional_integer get_optional_blob has_value set
    set_optional index empty state_from_sql state_as_sql try_from_request validate_identity
    validate_dns_label validate_dns_subdomain validate_immutable_image identity_is_valid
    dns_label_is_valid dns_subdomain_is_valid immutable_image_is_valid target_is_valid state_eq
    OperationState-discrete rejection_eq TargetRejection-discrete result_eq OperationResult-discrete
    approved_eq ApprovedTarget-discrete begin_attempt begin_at start mark_apply_started bound_record
    read bounded_row persisted_values_within_bounds replace written_rows update_changed_columns
    same_values changed_one commit commit_as tick started_row Store.◌>>=◌ ◌>>◌ lift return loaded_eq
    LoadedOperation-discrete value_eq Value-discrete field_limit authorized_request try_from_target
    validate_target validate_required_fact test_retained ℕ_discrete
test_begins = refl

begin_attempt-IsPermitted_example : IsPermitted test_operation test_observed test_permission
begin_attempt-IsPermitted_example =
    begin_attempt-IsPermitted test_env test_operation test_observed test_retained test_permission
      test_begins

test_retained_within : retained test_retained ≤ identity_capacity
unfolding test_retained
test_retained_within = omega arith

replace-capacity_example :
    retained (world_after (replace test_env (some test_row) test_next test_retained))
    ≤ identity_capacity
replace-capacity_example =
    replace-capacity test_env (some test_row) test_next test_retained test_retained_within
