-- ===== src/Gateway/Types.antt =====
-- The shared types of src/gateway/mod.rs, with the receipt statement of src/gateway/receipt/mod.rs
-- that errors can carry, and the SQL spelling of the enumerations from src/gateway/journal/mod.rs.
pub mod Spelling
use kapsel.Base.{
  ℕ, ℤ, Bool, true, false, Option, none, some, Bytes, Text, text, Result, ok, err, ◌>>=◌, ◌>>◌,
  require, ◌==◌, nat_eq, list_eq, ◌&&◌, if◌then◌else◌, Eq, eq_by, ℕ_discrete, map_err, int_eq,
  option_eq,
}
use kapsel.Authority.Grammar.{
  identity_is_valid, dns_label_is_valid, dns_subdomain_is_valid, immutable_image_is_valid,
}
use kapsel.Authority.Grant.{ApprovedTarget, ExactAuthorization}

pub data InputField : Type 0 where
  operation_id authorization_id namespace deployment container immutable_image_digest : InputField

pub data OperationState : Type 0 where
  requested authorized not_attempted apply_started receiver_observed finalized : OperationState

pub data TargetRejection : Type 0 where
  deployment_not_found container_not_found invalid_target stale_approval git_stale_ref
        git_invalid_objects :
      TargetRejection

pub data TargetReadError : Type 0 where
  transient : TargetReadError
  permanent : TargetRejection → TargetReadError

pub data OperationResult : Type 0 where
  succeeded failed unknown : OperationResult

pub data SubmissionResult : Type 0 where
  created : SubmissionResult
  existing : OperationState → SubmissionResult

pub data AdmissionDecision : Type 0 where
  admitted : OperationState → AdmissionDecision
  busy full : AdmissionDecision

pub data ReconciliationBlockage : Type 0 where
  receiver_unavailable signing_unavailable worker_contention : ReconciliationBlockage

unfoldable pub OperationState-discrete : Discrete OperationState
OperationState-discrete = hlevel

unfoldable pub TargetRejection-discrete : Discrete TargetRejection
TargetRejection-discrete = hlevel

unfoldable pub OperationResult-discrete : Discrete OperationResult
OperationResult-discrete = hlevel

instance unfoldable pub state_eq : Eq OperationState
unfolding OperationState-discrete
state_eq = eq_by OperationState-discrete

instance unfoldable pub rejection_eq : Eq TargetRejection
unfolding TargetRejection-discrete
rejection_eq = eq_by TargetRejection-discrete

instance unfoldable pub result_eq : Eq OperationResult
unfolding OperationResult-discrete
result_eq = eq_by OperationResult-discrete

abbrev pub write_strategy : Text
write_strategy = text "conditional-strategic-merge-patch"

pub record ReceiptStatement : Type 0 where
  pub approved_target : Option ApprovedTarget
  pub operation_id : Text
  pub authorization_id : Text
  pub authorization_signer_key_id : Text
  pub authorization_grant_digest : Text
  pub namespace : Text
  pub deployment : Text
  pub container : Text
  pub immutable_image_digest : Text
  pub write_strategy : Text
  pub target_uid : Text
  pub target_resource_version : Text
  pub receiver_uid : Option Text
  pub observed_image : Option Text
  pub observed_operation_marker : Option Text
  pub current_generation : Option ℤ
  pub requested_generation : Option ℤ
  pub observed_generation : Option ℤ
  pub observed_resource_version : Option Text
  pub desired_replicas : Option ℤ
  pub updated_replicas : Option ℤ
  pub available_replicas : Option ℤ
  pub unavailable_replicas : Option ℤ
  pub rollout_condition_type : Option Text
  pub rollout_condition_status : Option Text
  pub rollout_condition_reason : Option Text
  pub result : OperationResult

pub data ReceiptError : Type 0 where
  limit_exceeded invalid_value invalid_record bad_signature : ReceiptError
  untrusted_signer : ReceiptStatement → ReceiptError

-- The errors of SQLite and the operating system are kept without their text.
pub data GatewayError : Type 0 where
  database journal_file worker_lock journal_backup journal_backup_mismatch : GatewayError
  missing_journal_history unsupported_journal_version : GatewayError
  invalid_input : InputField → GatewayError
  invalid_authorization_grant untrusted_authorization_grant authorization_mismatch : GatewayError
  operation_identity_conflict invalid_persisted_state invalid_transition : GatewayError
  git_receiver_unavailable kubernetes_target_observation kubernetes_apply : GatewayError
  kubernetes_receiver_observation invalid_kubernetes_fact injected_fault journal_full : GatewayError
  receipt : ReceiptError → GatewayError
  receipt_digest_mismatch : GatewayError

pub data ReconciliationError : Type 0 where
  submission advancement : GatewayError → ReconciliationError
  completion : ReconciliationError
  blocked : ReconciliationBlockage → ReconciliationError

abbrev pub G : Type 0 → Type 0
G A = Result GatewayError A

pub record SetDeploymentImageRequest : Type 0 where
  pub operation_id : Text
  pub namespace : Text
  pub deployment : Text
  pub container : Text
  pub immutable_image_digest : Text

pub record ValidatedRequest : Type 0 where
  pub operation_id : Text
  pub namespace : Text
  pub deployment : Text
  pub container : Text
  pub immutable_image : Text

unfoldable pub validate_identity : InputField → Text → G (Unit {0})
validate_identity field value = require (identity_is_valid value) (invalid_input field)

unfoldable pub validate_dns_label : InputField → Text → G (Unit {0})
validate_dns_label field value = require (dns_label_is_valid value) (invalid_input field)

unfoldable pub validate_dns_subdomain : InputField → Text → G (Unit {0})
validate_dns_subdomain field value = require (dns_subdomain_is_valid value) (invalid_input field)

unfoldable pub validate_immutable_image : Text → G (Unit {0})
validate_immutable_image value =
    require (immutable_image_is_valid value) (invalid_input immutable_image_digest)

unfoldable pub try_from_request : SetDeploymentImageRequest → G ValidatedRequest
unfolding validate_identity validate_dns_label validate_dns_subdomain validate_immutable_image
try_from_request r = do
  validate_identity operation_id r.operation_id
  validate_dns_label namespace r.namespace
  validate_dns_subdomain deployment r.deployment
  validate_dns_label container r.container
  validate_immutable_image r.immutable_image_digest
  ok (record {
    operation_id = r.operation_id;
    namespace = r.namespace;
    deployment = r.deployment;
    container = r.container;
    immutable_image = r.immutable_image_digest;
  })

unfoldable pub to_adapter_request : ValidatedRequest → SetDeploymentImageRequest
to_adapter_request v = record {
  operation_id = v.operation_id;
  namespace = v.namespace;
  deployment = v.deployment;
  container = v.container;
  immutable_image_digest = v.immutable_image;
}

pub record VerifiedAuthorization : Type 0 where
  pub authorization : ExactAuthorization
  pub signer_key_id : Text
  pub grant_digest : Text
  pub signed_grant : Bytes

pub record AuthorizedRequest : Type 0 where
  pub request : ValidatedRequest
  pub authorization : VerifiedAuthorization

unfoldable pub authorization_matches : ExactAuthorization → ValidatedRequest → Bool
authorization_matches a r =
    a.operation_id == r.operation_id
    && a.namespace == r.namespace
    && a.deployment == r.deployment
    && a.container == r.container
    && a.immutable_image_digest == r.immutable_image

unfoldable pub bind : ValidatedRequest → VerifiedAuthorization → G AuthorizedRequest
unfolding authorization_matches
bind request authorization =
    if authorization_matches authorization.authorization request
    then ok (record { request = request; authorization = authorization })
    else err authorization_mismatch

unfoldable pub state_as_sql : OperationState → Text
state_as_sql requested = text "requested"
state_as_sql authorized = text "authorized"
state_as_sql not_attempted = text "not_attempted"
state_as_sql apply_started = text "apply_started"
state_as_sql receiver_observed = text "receiver_observed"
state_as_sql finalized = text "finalized"

unfoldable pub state_from_sql : Text → G OperationState
state_from_sql value =
    if value == text "requested"
    then ok requested
    else if value == text "authorized"
    then ok authorized
    else if value == text "not_attempted"
    then ok not_attempted
    else if value == text "apply_started"
    then ok apply_started
    else if value == text "receiver_observed"
    then ok receiver_observed
    else if value == text "finalized"
    then ok finalized
    else err invalid_persisted_state

unfoldable pub rejection_as_sql : TargetRejection → Text
rejection_as_sql deployment_not_found = text "deployment_not_found"
rejection_as_sql container_not_found = text "container_not_found"
rejection_as_sql invalid_target = text "invalid_target"
rejection_as_sql stale_approval = text "stale_approval"
rejection_as_sql git_stale_ref = text "git_stale_ref"
rejection_as_sql git_invalid_objects = text "git_invalid_objects"

unfoldable pub rejection_from_sql : Text → G TargetRejection
rejection_from_sql value =
    if value == text "deployment_not_found"
    then ok deployment_not_found
    else if value == text "container_not_found"
    then ok container_not_found
    else if value == text "invalid_target"
    then ok invalid_target
    else if value == text "stale_approval"
    then ok stale_approval
    else err invalid_persisted_state

unfoldable pub result_as_sql : OperationResult → Text
result_as_sql succeeded = text "SUCCEEDED"
result_as_sql failed = text "FAILED"
result_as_sql unknown = text "UNKNOWN"

unfoldable pub result_from_sql : Text → G OperationResult
result_from_sql value =
    if value == text "SUCCEEDED"
    then ok succeeded
    else if value == text "FAILED"
    then ok failed
    else if value == text "UNKNOWN"
    then ok unknown
    else err invalid_persisted_state
