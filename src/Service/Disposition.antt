-- ===== src/Service/Disposition.antt =====
-- src/application/service/disposition.rs, and the errors of src/application/service.rs: what a
-- caller is told about an operation, from its retained state and from what this process knows.
use kapsel.Base.{Bool, Option, none, some, Result, ok, err, if◌then◌else◌, Text, text}
use kapsel.Gateway.Types.{
  OperationState, requested, authorized, not_attempted, apply_started, receiver_observed, finalized,
  OperationResult, succeeded, failed, unknown, TargetRejection, GatewayError, database,
  journal_file, worker_lock, journal_backup, journal_backup_mismatch, missing_journal_history,
  unsupported_journal_version, invalid_input, untrusted_authorization_grant,
  invalid_persisted_state, git_receiver_unavailable, kubernetes_target_observation,
  kubernetes_apply, kubernetes_receiver_observation, ReconciliationError, submission, advancement,
  completion, blocked, receiver_unavailable, signing_unavailable, worker_contention,
}

pub data ServiceError : Type 0 where
  configuration invalid_request authority_unavailable storage_missing storage_invalid : ServiceError
  storage_unavailable operation_failure : ServiceError

pub data OperationStatus : Type 0 where
  not_found in_progress : OperationStatus
  was_not_attempted : TargetRejection → OperationStatus
  has_succeeded has_failed is_unknown : OperationStatus

pub data ExecutionCondition : Type 0 where
  preflight_unavailable receiver_is_unavailable signing_is_unavailable : ExecutionCondition
  worker_is_contended completion_blocked operation_blocked : ExecutionCondition

pub data ExecutionObservation : Type 0 where
  unobserved active other_worker : ExecutionObservation
  stopped : ExecutionCondition → ExecutionObservation

pub data ExecutionDisposition : Type 0 where
  complete admission_unconfirmed is_active waiting_for_worker : ExecutionDisposition
  resume_required : Option ExecutionCondition → ExecutionDisposition
  operator_required : ExecutionCondition → ExecutionDisposition

pub data ServiceStop : Type 0 where
  finished : ServiceStop
  stop_blocked : ExecutionCondition → ServiceStop

pub data ServiceAdmission : Type 0 where
  is_admitted : OperationState → ServiceAdmission
  is_busy is_full : ServiceAdmission

unfoldable pub finished_status : Option OperationResult → Result ServiceError OperationStatus
finished_status (some succeeded) = ok has_succeeded
finished_status (some failed) = ok has_failed
finished_status (some unknown) = ok is_unknown
finished_status none = err operation_failure

unfoldable pub rejected_status : Option TargetRejection → Result ServiceError OperationStatus
rejected_status (some rejection) = ok (was_not_attempted rejection)
rejected_status none = err operation_failure

unfoldable pub status_of :
    OperationState
    → Option TargetRejection
    → Option OperationResult
    → Result ServiceError OperationStatus
unfolding finished_status rejected_status
status_of requested rejection result = ok in_progress
status_of authorized rejection result = ok in_progress
status_of apply_started rejection result = ok in_progress
status_of receiver_observed rejection result = ok in_progress
status_of not_attempted rejection result = rejected_status rejection
status_of finalized rejection result = finished_status result

-- The arm of an unfinished operation.
unfoldable pub project_unfinished : ExecutionObservation → ExecutionDisposition
project_unfinished unobserved = resume_required none
project_unfinished active = is_active
project_unfinished other_worker = waiting_for_worker
project_unfinished (stopped worker_is_contended) = resume_required (some worker_is_contended)
project_unfinished (stopped preflight_unavailable) = resume_required (some preflight_unavailable)
project_unfinished (stopped condition) = operator_required condition

unfoldable pub project : OperationStatus → ExecutionObservation → ExecutionDisposition
unfolding project_unfinished
project not_found observation = admission_unconfirmed
project (was_not_attempted _) observation = complete
project has_succeeded observation = complete
project has_failed observation = complete
project is_unknown observation = complete
project in_progress observation = project_unfinished observation

unfoldable pub next_action : ExecutionDisposition → Text
next_action complete = text "inspect_result"
next_action admission_unconfirmed = text "read_same_id"
next_action is_active = text "wait"
next_action waiting_for_worker = text "wait_then_select_same_id"
next_action (resume_required _) = text "select_same_id"
next_action (operator_required _) = text "contact_operator"

unfoldable pub action_owner : ExecutionDisposition → Text
action_owner (operator_required _) = text "operator"
action_owner _ = text "caller"

unfoldable pub condition_of : ExecutionDisposition → Option ExecutionCondition
condition_of (resume_required condition) = condition
condition_of (operator_required condition) = some condition
condition_of _ = none

-- `ServiceStop::observation`
unfoldable pub stop_observation : Result ServiceError ServiceStop → ExecutionObservation
stop_observation (ok finished) = unobserved
stop_observation (ok (stop_blocked condition)) = stopped condition
stop_observation (err _) = stopped operation_blocked

-- Whether a database error is one of corruption is the first argument.
unfoldable pub map_gateway_error : Bool → GatewayError → ServiceError
map_gateway_error corrupt untrusted_authorization_grant = authority_unavailable
map_gateway_error corrupt (invalid_input field) = invalid_request
map_gateway_error corrupt missing_journal_history = storage_missing
map_gateway_error corrupt invalid_persisted_state = storage_invalid
map_gateway_error corrupt unsupported_journal_version = storage_invalid
map_gateway_error corrupt journal_backup_mismatch = storage_invalid
map_gateway_error corrupt database = if corrupt then storage_invalid else storage_unavailable
map_gateway_error corrupt journal_file = storage_unavailable
map_gateway_error corrupt journal_backup = storage_unavailable
map_gateway_error corrupt worker_lock = storage_unavailable
map_gateway_error corrupt _ = operation_failure

unfoldable pub classify_advancement : Bool → GatewayError → Result ServiceError ServiceStop
unfolding map_gateway_error
classify_advancement corrupt kubernetes_target_observation = ok (stop_blocked preflight_unavailable)
classify_advancement corrupt kubernetes_apply = ok (stop_blocked receiver_is_unavailable)
classify_advancement corrupt kubernetes_receiver_observation =
    ok (stop_blocked receiver_is_unavailable)
classify_advancement corrupt git_receiver_unavailable = ok (stop_blocked receiver_is_unavailable)
classify_advancement corrupt error = err (map_gateway_error corrupt error)

unfoldable pub classify_stop : Bool → ReconciliationError → Result ServiceError ServiceStop
unfolding classify_advancement map_gateway_error
classify_stop corrupt (blocked signing_unavailable) = ok (stop_blocked signing_is_unavailable)
classify_stop corrupt (blocked worker_contention) = ok (stop_blocked worker_is_contended)
classify_stop corrupt (blocked receiver_unavailable) = ok (stop_blocked receiver_is_unavailable)
classify_stop corrupt completion = ok (stop_blocked completion_blocked)
classify_stop corrupt (submission error) = err (map_gateway_error corrupt error)
classify_stop corrupt (advancement error) = classify_advancement corrupt error
