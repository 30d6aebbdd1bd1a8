-- ===== src/Gateway/Tests/Loop.antt =====
-- A run of the reconciliation loop of src/gateway/mod.rs from a signed grant to a frozen receipt.
use kapsel.Authority.Frame
use kapsel.Authority.Grant
use kapsel.Gateway.Journal.Writes
use kapsel.Authority.Grammar.{
  dns_label_is_valid, dns_subdomain_is_valid, identity_is_valid, immutable_image_is_valid,
}
use kapsel.Authority.Grant.{
  append_grant_record, append_grant_records, digest_hex, encode_statement, finish_exact,
  grant_purpose, hex, new_records, parse_statement, sign_authorization_grant, sign_grant_statement,
  signature_input, take_ascii_text, take_record, target_is_valid, validate_trust,
  verify_authorization_grant,
}
use kapsel.Base.{from_be, from_be_bytes, ok, refl, some, text, to_be_bytes, ℕ, ℕ_discrete, ◌≡◌}
use kapsel.Gateway.Dispatch.{sends}
use kapsel.Gateway.Facts.{
  available_condition, observation_is_complete, observation_result, progress_deadline_exceeded,
  requested_generation, requested_generation_for, to_adapter_target, try_from_target,
  unknown_observation, validate_observation, validate_optional_fact, validate_outcome,
  validate_required_fact, validate_target,
}
use kapsel.Gateway.Journal.Decoder.{
  decode_sql_bool, phase_of, snapshot_frozen_receipt, snapshot_target, try_from_digest,
  validate_frozen_receipt, validate_snapshot_attempt_facts, validate_snapshot_authorization,
}
use kapsel.Gateway.Journal.Phases.{
  ApprovedTarget-discrete, LoadedOperation-discrete, ReceiptStatement-discrete,
  ValidatedRequest-discrete, approved_eq, authorized_request, classification_outcome, loaded_eq,
  loaded_rejection, loaded_result, loaded_state, observed_operation_id, request_facts,
  started_request, targets,
}
use kapsel.Gateway.Journal.Record.{
  Value-discrete, empty, get_integer, get_optional_blob, get_optional_i32, get_optional_integer,
  get_optional_text, get_text, has_value, index, same_values, set, set_optional, value_eq,
}
use kapsel.Gateway.Journal.Rows.{
  decode, decode_statement, into_operation, into_statement, receipt_row, receiver_facts,
  snapshot_row,
}
use kapsel.Gateway.Journal.Steps.{
  authorized_row, begin_at, begin_attempt, commit_receipt, finalized_row, freeze_observation,
  insert_requested, mark_apply_started, mark_authorized, mark_not_attempted, mark_stale_approval,
  observed_row, outcome_row, record_apply_outcome, rejected_row, requested_record, stale_row, start,
  started_row,
}
use kapsel.Gateway.Journal.Store.{
  World, bounded_row, changed_one, commit, commit_as, counts, field_limit, insert_row, lift,
  persisted_values_within_bounds, read, read_collision, replace, require_admission, return, tick,
  update_changed_columns, written_rows, ◌>>=◌, ◌>>◌,
}
use kapsel.Gateway.Journal.Writes.{
  authorized_operation, authorized_record_case, bound_record, existing_submission, retained_record,
}
use kapsel.Gateway.Receipt.Framing.{
  bounded, decode_generation, decode_replica_count, empty_as_none, finish, new, push, push_i32,
  push_i64, push_optional_text, push_text, signed_from_be_bytes, signed_to_be_bytes, take,
  take_text, validate_digest, validate_key_id, validate_kubernetes_fact, validate_text,
}
use kapsel.Gateway.Receipt.Statement.{
  as_receipt_bytes, default_limits, encode, from_receipt_bytes, parse, push_texts,
  statement_observation, statement_outcome, statement_request, validate, validate_facts,
  validate_limits,
}
use kapsel.Gateway.Reconcile.{
  apply, build_receipt, dispatch, finalize_locked_operation_receipt_once, identify,
  mark_requested_authorized, observe, observe_attempt, run_locked_operation_once, run_phase,
  submit_authorized, submit_found, with_permission, with_target,
}
use kapsel.Gateway.Types.{
  OperationResult-discrete, OperationState-discrete, TargetRejection-discrete,
  authorization_matches, bind, rejection_as_sql, rejection_eq, rejection_from_sql, result_eq,
  state_as_sql, state_eq, state_from_sql, to_adapter_request, try_from_request, validate_dns_label,
  validate_dns_subdomain, validate_identity, validate_immutable_image,
}
use kapsel.Gateway.Types.{result_as_sql, result_from_sql}
use kapsel.Gateway.Facts.{classify}
use kapsel.Gateway.Receipt.Envelope.{sign_statement, statement_purpose, decode_frozen_receipt}
use kapsel.Gateway.Journal.Phases.{statement_eq, request_eq}
use kapsel.Gateway.Tests.{test_env, test_trust, test_request, test_world, test_grant, test_settings}
use kapsel.Authority.Grant.{AuthorizationGrantError}
use kapsel.Gateway.Types.{ReconciliationError}
use kapsel.Gateway.Custody.{bind_authorization, verify_grant_with}
use kapsel.Gateway.Reconcile.{Outcome, finished}
use kapsel.Gateway.Journal.Phases.{finalized_phase}
use kapsel.Gateway.Admission.{reconcile_locked_with_adapter, reconcile_loop, round, advance}
use kapsel.Gateway.Rounds.{Ends}
use kapsel.Gateway.Rounds.Enough.{Settled, reconcile_locked_with_adapter-Settled}
use kapsel.Base.{Bool, true, false, Result}

-- The journal after a submission, under the worker lock.
abbrev test_submitted : World
test_submitted =
    record (submit_authorized test_env test_trust test_request test_grant
      (record test_world { clock = 20 })).1 { held = true }

abbrev test_reconcile : Result ReconciliationError Outcome × World
test_reconcile =
    reconcile_locked_with_adapter test_env test_trust test_request test_grant true
      (some test_settings) test_submitted

abbrev ends_finalized : Result ReconciliationError Outcome → Bool
ends_finalized (ok (finished (some (finalized_phase _)))) = true
ends_finalized _ = false

abbrev observed_reconcile : Result ReconciliationError Outcome × World → Bool × ℕ
observed_reconcile (outcome, w) = (ends_finalized outcome, sends (text "op-1") w.sent)

test_reconciles : observed_reconcile test_reconcile ≡ (true, 1)
unfolding requested_record authorized_row decode decode_statement snapshot_row into_operation
    receiver_facts snapshot_target decode_sql_bool try_from_digest validate_snapshot_authorization
    validate_snapshot_attempt_facts phase_of snapshot_frozen_receipt get_text get_optional_text
    get_integer get_optional_integer get_optional_blob has_value set set_optional index empty
    state_from_sql state_as_sql try_from_request validate_identity validate_dns_label
    validate_dns_subdomain validate_immutable_image identity_is_valid dns_label_is_valid
    dns_subdomain_is_valid immutable_image_is_valid target_is_valid state_eq OperationState-discrete
    rejection_eq TargetRejection-discrete result_eq OperationResult-discrete approved_eq
    ApprovedTarget-discrete begin_attempt begin_at start mark_apply_started bound_record read
    bounded_row persisted_values_within_bounds replace written_rows update_changed_columns
    same_values changed_one commit commit_as tick started_row ◌>>=◌ ◌>>◌ lift return loaded_eq
    LoadedOperation-discrete value_eq Value-discrete field_limit authorized_request try_from_target
    validate_target validate_required_fact ℕ_discrete dispatch observe_attempt with_permission
    with_target run_phase run_locked_operation_once build_receipt
    finalize_locked_operation_receipt_once mark_requested_authorized submit_found submit_authorized
    retained_record authorized_record_case authorized_operation existing_submission rejected_row
    stale_row outcome_row observed_row finalized_row insert_requested mark_authorized
    mark_not_attempted mark_stale_approval record_apply_outcome freeze_observation commit_receipt
    into_statement receipt_row validate_frozen_receipt validate_optional_fact to_adapter_target
    validate_outcome unknown_observation validate_observation requested_generation_for
    available_condition progress_deadline_exceeded observation_result observation_is_complete
    ReceiptStatement-discrete ValidatedRequest-discrete started_request observed_operation_id
    classification_outcome request_facts targets loaded_result loaded_rejection to_adapter_request
    authorization_matches bind rejection_as_sql rejection_from_sql default_limits validate_limits
    statement_request statement_outcome statement_observation validate_facts validate
    as_receipt_bytes from_receipt_bytes push_texts encode parse validate_text validate_key_id
    validate_digest validate_kubernetes_fact push push_text push_optional_text signed_to_be_bytes
    signed_from_be_bytes push_i64 push_i32 new take take_text finish bounded decode_generation
    decode_replica_count empty_as_none counts require_admission insert_row read_collision
    get_optional_i32 append_grant_record append_grant_records encode_statement new_records
    take_record take_ascii_text finish_exact parse_statement grant_purpose signature_input hex
    digest_hex sign_grant_statement sign_authorization_grant validate_trust
    verify_authorization_grant to_be_bytes from_be from_be_bytes identify apply observe
    requested_generation loaded_state sends result_as_sql classify result_from_sql sign_statement
    statement_purpose decode_frozen_receipt statement_eq bind_authorization verify_grant_with
    reconcile_locked_with_adapter reconcile_loop round advance kapsel.Authority.Grant.validate
    kapsel.Authority.Frame.push kapsel.Authority.Frame.new kapsel.Authority.Frame.take
    kapsel.Authority.Frame.finish kapsel.Gateway.Journal.Writes.operation request_eq
test_reconciles = refl

reconcile_locked_with_adapter-Settled_example :
    Ends (Settled test_env test_request.operation_id) test_reconcile
reconcile_locked_with_adapter-Settled_example =
    reconcile_locked_with_adapter-Settled test_env test_trust test_request test_grant true
      (some test_settings) test_submitted
