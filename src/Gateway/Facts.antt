-- ===== src/Gateway/Facts.antt =====
-- src/gateway/kubernetes/facts.rs: bounded Kubernetes facts and the classification of a receiver
-- observation. `i64` and `i32` values are integers.
pub mod Classification
use kapsel.Base.{
  ℕ, ℤ, pos, Bool, true, false, not, Option, none, some, List, [], ◌∷◌, ◌&&◌, ◌||◌, Text, text,
  Result, ok, err, ◌>>=◌, ◌>>◌, require, ◌==◌, ◌!=◌, nat_eq, int_eq, bool_eq, list_eq, option_eq,
  map_err, length, is_empty, is_ascii, is_some, is_some_and, is_negative, leb, leb_ℤ, if◌then◌else◌,
}
use kapsel.Gateway.Types.{
  G, GatewayError, OperationResult, succeeded, failed, unknown, SetDeploymentImageRequest,
  ValidatedRequest, validate_immutable_image, invalid_kubernetes_fact, result_eq,
}

abbrev pub kubernetes_fact_bytes_max : ℕ
kubernetes_fact_bytes_max = 128

abbrev is_fact : Text → Bool
is_fact value =
    not
      (is_empty value || not (leb (length value) kubernetes_fact_bytes_max) || not (is_ascii value))

unfoldable pub validate_required_fact : Text → G (Unit {0})
validate_required_fact value = require (is_fact value) invalid_kubernetes_fact

unfoldable pub validate_optional_fact : Option Text → G (Unit {0})
validate_optional_fact value =
    require (not (is_some_and value (λ v. not (is_fact v)))) invalid_kubernetes_fact

pub record TargetIdentity : Type 0 where
  pub deployment_uid : Text
  pub resource_version : Text

unfoldable pub validate_target : TargetIdentity → G (Unit {0})
unfolding validate_required_fact
validate_target t = do
  validate_required_fact t.deployment_uid
  validate_required_fact t.resource_version

pub record ValidatedTargetIdentity : Type 0 where
  pub deployment_uid : Text
  pub resource_version : Text

unfoldable pub try_from_target : TargetIdentity → G ValidatedTargetIdentity
unfolding validate_target
try_from_target t = do
  validate_target t
  ok (record { deployment_uid = t.deployment_uid; resource_version = t.resource_version })

unfoldable pub to_adapter_target : ValidatedTargetIdentity → TargetIdentity
to_adapter_target t = record {
  deployment_uid = t.deployment_uid;
  resource_version = t.resource_version;
}

pub record ApplyOutcome : Type 0 where
  pub accepted : Bool
  pub requested_generation : Option ℤ
  pub deployment_uid : Option Text
  pub resource_version : Option Text

unfoldable pub validate_outcome : ApplyOutcome → G (Unit {0})
unfolding validate_optional_fact
validate_outcome o = do
  validate_optional_fact o.deployment_uid
  validate_optional_fact o.resource_version
  require (not (is_some_and o.requested_generation is_negative)) invalid_kubernetes_fact

pub record ReceiverObservation : Type 0 where
  pub deployment_uid : Option Text
  pub resource_version : Option Text
  pub current_generation : Option ℤ
  pub observed_generation : Option ℤ
  pub image : Option Text
  pub operation_marker : Option Text
  pub desired_replicas : Option ℤ
  pub updated_replicas : Option ℤ
  pub available_replicas : Option ℤ
  pub unavailable_replicas : Option ℤ
  pub rollout_condition_type : Option Text
  pub rollout_condition_status : Option Text
  pub rollout_condition_reason : Option Text

unfoldable pub unknown_observation : ReceiverObservation
unknown_observation = record {
  deployment_uid = none;
  resource_version = none;
  current_generation = none;
  observed_generation = none;
  image = none;
  operation_marker = none;
  desired_replicas = none;
  updated_replicas = none;
  available_replicas = none;
  unavailable_replicas = none;
  rollout_condition_type = none;
  rollout_condition_status = none;
  rollout_condition_reason = none;
}

abbrev validate_image : Option Text → G (Unit {0})
validate_image none = ok tt
validate_image (some image) = map_err (validate_immutable_image image) invalid_kubernetes_fact

unfoldable pub validate_observation : ReceiverObservation → G (Unit {0})
unfolding validate_optional_fact
validate_observation o = do
  validate_optional_fact o.deployment_uid
  validate_optional_fact o.resource_version
  validate_optional_fact o.operation_marker
  validate_optional_fact o.rollout_condition_type
  validate_optional_fact o.rollout_condition_status
  validate_optional_fact o.rollout_condition_reason
  let condition_type_present = is_some o.rollout_condition_type
  let condition_status_present = is_some o.rollout_condition_status
  let condition_reason_present = is_some o.rollout_condition_reason
  require
      (not (
        condition_type_present != condition_status_present
        || (not condition_type_present && condition_reason_present)))
      invalid_kubernetes_fact
  require
      (not (
        is_some_and o.current_generation is_negative
        || is_some_and o.observed_generation is_negative
        || is_some_and o.desired_replicas is_negative
        || is_some_and o.updated_replicas is_negative
        || is_some_and o.available_replicas is_negative
        || is_some_and o.unavailable_replicas is_negative))
      invalid_kubernetes_fact
  validate_image o.image

abbrev matches_operation : ReceiverObservation → Text → Text → Bool
matches_operation o operation_id image =
    o.operation_marker == some operation_id && o.image == some image

abbrev or_else {ℓ} : {A : Type ℓ} → Option A → Option A → Option A
or_else (some a) b = some a
or_else none b = b

unfoldable pub requested_generation_for :
    ReceiverObservation → Text → Text → ApplyOutcome → Option ℤ
requested_generation_for o operation_id image outcome =
    let operation_matches = matches_operation o operation_id image in
    let receiver_uid_matches =
      is_some outcome.deployment_uid && o.deployment_uid == outcome.deployment_uid in
    or_else outcome.requested_generation
      (if operation_matches && receiver_uid_matches then o.current_generation else none)

unfoldable pub available_condition : ReceiverObservation → Bool
available_condition o =
    o.rollout_condition_type == some (text "Available")
    && o.rollout_condition_status == some (text "True")

unfoldable pub progress_deadline_exceeded : ReceiverObservation → Bool
progress_deadline_exceeded o =
    o.rollout_condition_type == some (text "Progressing")
    && o.rollout_condition_status == some (text "False")
    && o.rollout_condition_reason == some (text "ProgressDeadlineExceeded")

unfoldable pub observation_result :
    ReceiverObservation → Text → Text → ApplyOutcome → OperationResult
observation_result o operation_id image outcome =
    let operation_matches = matches_operation o operation_id image in
    let replica_counts_establish_availability =
      is_some o.desired_replicas
      && o.updated_replicas == o.desired_replicas
      && o.available_replicas == o.desired_replicas
      && o.unavailable_replicas == some (pos 0) in
    let rollout_available = replica_counts_establish_availability && available_condition o in
    let receiver_establishes_requested_generation =
      is_some_and (requested_generation_for o operation_id image outcome) (λ requested.
        operation_matches
        && is_some outcome.deployment_uid
        && o.deployment_uid == outcome.deployment_uid
        && o.current_generation == some requested
        && is_some_and o.observed_generation (λ observed. leb_ℤ requested observed)) in
    if receiver_establishes_requested_generation && progress_deadline_exceeded o
    then failed
    else if receiver_establishes_requested_generation && rollout_available
    then succeeded
    else unknown

unfoldable pub observation_is_complete :
    ReceiverObservation → SetDeploymentImageRequest → ApplyOutcome → Bool
unfolding observation_result
observation_is_complete o request outcome =
    observation_result o request.operation_id request.immutable_image_digest outcome != unknown

unfoldable pub requested_generation :
    ReceiverObservation → ValidatedRequest → ApplyOutcome → Option ℤ
unfolding requested_generation_for
requested_generation o request outcome =
    requested_generation_for o request.operation_id request.immutable_image outcome

unfoldable pub classify : ReceiverObservation → ValidatedRequest → ApplyOutcome → OperationResult
unfolding observation_result
classify o request outcome =
    observation_result o request.operation_id request.immutable_image outcome
