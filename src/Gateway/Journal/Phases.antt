-- ===== src/Gateway/Journal/Phases.antt =====
-- src/gateway/journal/mod.rs: the validated phases of an operation and what each phase gives.
use kapsel.Base.{ℤ, Bool, Option, none, some, Bytes, Text, Eq, eq_by, is_some_and, ℕ_discrete}
use kapsel.Authority.Grant.{ApprovedTarget}
use kapsel.Gateway.Types.{
  OperationState, requested, authorized, not_attempted, apply_started, receiver_observed, finalized,
  ReceiptStatement, TargetRejection, OperationResult, ValidatedRequest,
}
use kapsel.Gateway.Facts.{ApplyOutcome, ValidatedTargetIdentity}

pub record FrozenReceipt : Type 0 where
  pub operation_id : Text
  pub digest : Text
  pub bytes : Bytes
  pub key_id : Text

pub record RequestFacts : Type 0 where
  pub approved_target : Option ApprovedTarget
  pub preflight_target : Option ApprovedTarget
  pub request : ValidatedRequest

pub record AuthorizationFacts : Type 0 where
  pub authorization_id : Text
  pub signer_key_id : Text
  pub grant_digest : Text

pub record ApplyResponseFacts : Type 0 where
  pub accepted : Bool
  pub requested_generation : Option ℤ
  pub resource_version : Text

pub record AttemptFacts : Type 0 where
  pub target : ValidatedTargetIdentity
  pub response : Option ApplyResponseFacts

pub record RequestedOperation : Type 0 where
  pub request : RequestFacts

pub record AuthorizedOperation : Type 0 where
  pub request : RequestFacts
  pub authorization : AuthorizationFacts

pub record NotAttemptedOperation : Type 0 where
  pub authorized : AuthorizedOperation
  pub rejection : TargetRejection

pub record ApplyStartedOperation : Type 0 where
  pub authorized : AuthorizedOperation
  pub attempt : AttemptFacts

pub record ReceiverObservedOperation : Type 0 where
  pub apply_started : ApplyStartedOperation
  pub statement : ReceiptStatement

pub record FinalizedOperation : Type 0 where
  pub receiver_observed : ReceiverObservedOperation
  pub receipt : FrozenReceipt

pub data LoadedOperation : Type 0 where
  requested_phase : RequestedOperation → LoadedOperation
  authorized_phase : AuthorizedOperation → LoadedOperation
  not_attempted_phase : NotAttemptedOperation → LoadedOperation
  apply_started_phase : ApplyStartedOperation → LoadedOperation
  receiver_observed_phase : ReceiverObservedOperation → LoadedOperation
  finalized_phase : FinalizedOperation → LoadedOperation

pub record DispatchPermission : Type 0 where
  pub request : ValidatedRequest
  pub target : ValidatedTargetIdentity

pub record ObservedTarget : Type 0 where
  pub uid : Option Text
  pub resource_version : Option Text

pub record OperationTargets : Type 0 where
  pub approved_target : Option ApprovedTarget
  pub attempt_target : Option ApprovedTarget
  pub observed_target : Option ObservedTarget

unfoldable pub ApprovedTarget-discrete : Discrete ApprovedTarget
ApprovedTarget-discrete = hlevel (ℕ_discrete)

unfoldable pub ReceiptStatement-discrete : Discrete ReceiptStatement
ReceiptStatement-discrete = hlevel (ℕ_discrete)

unfoldable pub LoadedOperation-discrete : Discrete LoadedOperation
LoadedOperation-discrete = hlevel (ℕ_discrete)

unfoldable pub ValidatedRequest-discrete : Discrete ValidatedRequest
ValidatedRequest-discrete = hlevel (ℕ_discrete)

instance unfoldable pub approved_eq : Eq ApprovedTarget
unfolding ApprovedTarget-discrete
approved_eq = eq_by ApprovedTarget-discrete

instance unfoldable pub statement_eq : Eq ReceiptStatement
unfolding ReceiptStatement-discrete
statement_eq = eq_by ReceiptStatement-discrete

instance unfoldable pub loaded_eq : Eq LoadedOperation
unfolding LoadedOperation-discrete
loaded_eq = eq_by LoadedOperation-discrete

instance unfoldable pub request_eq : Eq ValidatedRequest
unfolding ValidatedRequest-discrete
request_eq = eq_by ValidatedRequest-discrete

unfoldable pub authorized_request : AuthorizedOperation → ValidatedRequest
authorized_request operation = operation.request.request

unfoldable pub started_request : ApplyStartedOperation → ValidatedRequest
unfolding authorized_request
started_request operation = authorized_request operation.authorized

unfoldable pub observed_operation_id : ReceiverObservedOperation → Text
unfolding started_request
observed_operation_id operation = (started_request operation.apply_started).operation_id

abbrev response_generation : Option ApplyResponseFacts → Option ℤ
response_generation none = none
response_generation (some response) = response.requested_generation

abbrev response_version : Text → Option ApplyResponseFacts → Text
response_version retained none = retained
response_version retained (some response) = response.resource_version

unfoldable pub classification_outcome : ApplyStartedOperation → ApplyOutcome
classification_outcome operation = record {
  accepted = is_some_and operation.attempt.response (λ response. response.accepted);
  requested_generation = response_generation operation.attempt.response;
  deployment_uid = some operation.attempt.target.deployment_uid;
  resource_version =
      some (response_version operation.attempt.target.resource_version operation.attempt.response);
}

unfoldable pub loaded_state : LoadedOperation → OperationState
loaded_state (requested_phase _) = requested
loaded_state (authorized_phase _) = authorized
loaded_state (not_attempted_phase _) = not_attempted
loaded_state (apply_started_phase _) = apply_started
loaded_state (receiver_observed_phase _) = receiver_observed
loaded_state (finalized_phase _) = finalized

unfoldable pub request_facts : LoadedOperation → RequestFacts
request_facts (requested_phase operation) = operation.request
request_facts (authorized_phase operation) = operation.request
request_facts (not_attempted_phase operation) = operation.authorized.request
request_facts (apply_started_phase operation) = operation.authorized.request
request_facts (receiver_observed_phase operation) = operation.apply_started.authorized.request
request_facts (finalized_phase operation) =
    operation.receiver_observed.apply_started.authorized.request

abbrev loaded_attempt : LoadedOperation → Option AttemptFacts
loaded_attempt (apply_started_phase operation) = some operation.attempt
loaded_attempt (receiver_observed_phase operation) = some operation.apply_started.attempt
loaded_attempt (finalized_phase operation) = some operation.receiver_observed.apply_started.attempt
loaded_attempt _ = none

abbrev loaded_statement : LoadedOperation → Option ReceiptStatement
loaded_statement (receiver_observed_phase operation) = some operation.statement
loaded_statement (finalized_phase operation) = some operation.receiver_observed.statement
loaded_statement _ = none

abbrev observed_target_of : Option ApprovedTarget → Option ReceiptStatement → Option ObservedTarget
observed_target_of preflight (some statement) = some (record {
  uid = statement.receiver_uid;
  resource_version = statement.observed_resource_version;
})
observed_target_of (some target) none =
    some (record { uid = some target.uid; resource_version = some target.resource_version })
observed_target_of none none = none

abbrev attempt_target_of : Option AttemptFacts → Option ApprovedTarget
attempt_target_of none = none
attempt_target_of (some attempt) = some (record {
  uid = attempt.target.deployment_uid;
  resource_version = attempt.target.resource_version;
})

unfoldable pub targets : LoadedOperation → OperationTargets
unfolding request_facts
targets operation = record {
  approved_target = (request_facts operation).approved_target;
  attempt_target = attempt_target_of (loaded_attempt operation);
  observed_target =
      observed_target_of (request_facts operation).preflight_target (loaded_statement operation);
}

unfoldable pub loaded_result : LoadedOperation → Option OperationResult
loaded_result (receiver_observed_phase operation) = some operation.statement.result
loaded_result (finalized_phase operation) = some operation.receiver_observed.statement.result
loaded_result _ = none

unfoldable pub loaded_rejection : LoadedOperation → Option TargetRejection
loaded_rejection (not_attempted_phase operation) = some operation.rejection
loaded_rejection _ = none
