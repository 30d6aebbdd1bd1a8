-- ===== src/Gateway/Reconcile.antt =====
-- src/gateway/mod.rs: submission, admission and the reconciliation of one operation. The test
-- faults are absent, as in production; a crash is an error of the environment at some tick.
use kapsel.Base.{
  Option, none, some, List, ◌∷◌, Bytes, Text, Result, ok, err, ok_or, map_err, if◌then◌else◌,
}
use kapsel.Authority.Grant.{AuthorizationTrust, digest_hex}
use kapsel.Gateway.Types.{
  G, OperationState, requested, not_attempted, receiver_observed, finalized, SubmissionResult,
  created, existing, TargetReadError, transient, permanent, SetDeploymentImageRequest,
  AuthorizedRequest, try_from_request, bind, to_adapter_request, invalid_persisted_state,
  invalid_transition, invalid_kubernetes_fact, kubernetes_target_observation, kubernetes_apply,
  kubernetes_receiver_observation, state_eq,
}
use kapsel.Gateway.Facts.{
  TargetIdentity, ApplyOutcome, ReceiverObservation, ValidatedTargetIdentity, try_from_target,
  to_adapter_target,
}
use kapsel.Gateway.Receipt.Envelope.{sign_statement}
use kapsel.Gateway.Custody.{verify_grant_with}
use kapsel.Gateway.Journal.Phases.{
  FrozenReceipt, LoadedOperation, requested_phase, authorized_phase, apply_started_phase,
  receiver_observed_phase, AuthorizedOperation, ApplyStartedOperation, ReceiverObservedOperation,
  DispatchPermission, authorized_request, started_request, observed_operation_id,
  classification_outcome,
}
use kapsel.Gateway.Journal.Decoder.{with_receipt_error}
use kapsel.Gateway.Journal.Store.{Env, Dispatch, Act, ◌>>=◌, ◌>>◌, return, lift, tick}
use kapsel.Gateway.Journal.Writes.{authorized_operation, existing_submission, operation}
use kapsel.Gateway.Journal.Steps.{
  insert_requested, mark_authorized, mark_not_attempted, begin_attempt, record_apply_outcome,
  freeze_observation, commit_receipt,
}

pub record ReceiptSettings : Type 0 where
  pub signing_seed : Bytes
  pub key_id : Text

-- What the loop returns, or that its fuel ran out.
pub data Outcome : Type 0 where
  out_of_fuel : Outcome
  finished : Option LoadedOperation → Outcome

-- The adapter's calls. `apply` consumes the permission and sends one request.
unfoldable pub identify :
    Env → SetDeploymentImageRequest → Act (Result TargetReadError TargetIdentity)
unfolding tick
identify e request w = (ok (e.identify w.clock request), tick w)

abbrev pub apply_reply : Option ApplyOutcome → G ApplyOutcome
apply_reply none = err kubernetes_apply
apply_reply (some outcome) = ok outcome

-- `DispatchPermission::into_payload`
abbrev pub into_payload : DispatchPermission → Dispatch
into_payload permission = record {
  request = to_adapter_request permission.request;
  target = to_adapter_target permission.target;
}

unfoldable pub apply : Env → DispatchPermission → Act ApplyOutcome
unfolding tick
apply e permission w = (
  apply_reply (e.apply w.clock (into_payload permission).request (into_payload permission).target),
  record (tick w) { sent = into_payload permission ∷ w.sent },
)

abbrev pub observed_reply : Option ReceiverObservation → G ReceiverObservation
observed_reply none = err kubernetes_receiver_observation
observed_reply (some observation) = ok observation

unfoldable pub observe : Env → SetDeploymentImageRequest → ApplyOutcome → Act ReceiverObservation
unfolding tick
observe e request outcome w = (observed_reply (e.observe w.clock request outcome), tick w)

abbrev pub owns_worker : Act (Unit {0})
owns_worker w = if w.held then (ok tt, w) else (err invalid_transition, w)

module _ (e : Env) where
  -- The identity of the target, or `none` after a rejection was committed.
  abbrev pub target_reply :
      AuthorizedOperation
      → Result TargetReadError TargetIdentity
      → Act (Option ValidatedTargetIdentity)
  target_reply operation (ok target) =
      lift (map_err (try_from_target target) invalid_kubernetes_fact) >>= λ valid.
      return (some valid)
  target_reply operation (err transient) = lift (err kubernetes_target_observation)
  target_reply operation (err (permanent rejection)) =
      mark_not_attempted e operation rejection >> return none

  unfoldable pub preflight_target :
      AuthorizedRequest → AuthorizedOperation → Act (Option ValidatedTargetIdentity)
  preflight_target a operation = do
    target_read ← identify e (to_adapter_request (authorized_request operation))
    found ← authorized_operation e a
    _ ← lift (ok_or found invalid_persisted_state)
    target_reply operation target_read

  abbrev pub as_started : Option LoadedOperation → G ApplyStartedOperation
  as_started (some (apply_started_phase operation)) = ok operation
  as_started _ = err invalid_persisted_state

  -- After the request: its outcome is recorded under a fresh read.
  abbrev pub recorded :
      AuthorizedRequest → ApplyStartedOperation → ApplyOutcome → Act ApplyStartedOperation
  recorded a started outcome = do
    after ← authorized_operation e a
    _ ← lift (ok_or after invalid_persisted_state)
    record_apply_outcome e started outcome
    found ← authorized_operation e a
    lift (as_started found)

  -- From a fresh permission to the recorded outcome of its one request.
  unfoldable pub dispatch : AuthorizedRequest → DispatchPermission → Act ApplyStartedOperation
  dispatch a permission = do
    before ← authorized_operation e a
    started ← lift (as_started before)
    outcome ← apply e permission
    recorded a started outcome

  -- The continuation that only attempted history reaches.
  unfoldable pub observe_attempt :
      AuthorizedRequest → ApplyStartedOperation → Act (Option OperationState)
  observe_attempt a attempted = do
    observation ←
        observe e (to_adapter_request (started_request attempted))
          (classification_outcome attempted)
    found ← authorized_operation e a
    _ ← lift (ok_or found invalid_persisted_state)
    freeze_observation e attempted observation
    return (some receiver_observed)

  unfoldable pub with_permission :
      AuthorizedRequest → Option DispatchPermission → Act (Option OperationState)
  unfolding dispatch observe_attempt
  with_permission a none = return (some not_attempted)
  with_permission a (some permission) = dispatch a permission >>= observe_attempt a

  unfoldable pub with_target :
      AuthorizedRequest
      → AuthorizedOperation
      → Option ValidatedTargetIdentity
      → Act (Option OperationState)
  unfolding with_permission
  with_target a operation none = return (some not_attempted)
  with_target a operation (some target) = begin_attempt e operation target >>= with_permission a

  unfoldable pub run_phase :
      AuthorizedRequest → Option LoadedOperation → Act (Option OperationState)
  unfolding with_target preflight_target observe_attempt
  run_phase a none = return none
  run_phase a (some (authorized_phase operation)) =
      preflight_target a operation >>= with_target a operation
  run_phase a (some (apply_started_phase operation)) = observe_attempt a operation
  run_phase a (some _) = return none

  unfoldable pub run_locked_operation_once : AuthorizedRequest → Act (Option OperationState)
  unfolding run_phase
  run_locked_operation_once a = do owns_worker; found ← authorized_operation e a; run_phase a found

  unfoldable pub build_receipt : ReceiverObservedOperation → ReceiptSettings → G FrozenReceipt
  build_receipt operation settings = frozen (
      with_receipt_error
        (sign_statement e.crypto operation.statement settings.signing_seed settings.key_id))
    where
      frozen : G Bytes → G FrozenReceipt
      frozen (err error) = err error
      frozen (ok bytes) = ok (record {
        operation_id = observed_operation_id operation;
        digest = digest_hex e.crypto bytes;
        bytes = bytes;
        key_id = settings.key_id;
      })

  unfoldable pub finalize_locked_operation_receipt_once :
      Option LoadedOperation → ReceiptSettings → Act (Option OperationState)
  unfolding build_receipt
  finalize_locked_operation_receipt_once (some (receiver_observed_phase operation)) settings = do
    kept ← lift (build_receipt operation settings)
    commit_receipt e operation kept
    return (some finalized)
  finalize_locked_operation_receipt_once _ settings = return none

  abbrev pub as_requested : AuthorizedRequest → LoadedOperation → Act (Unit {0})
  as_requested a (requested_phase operation) = mark_authorized e operation a
  as_requested a _ = lift (err invalid_transition)

  unfoldable pub mark_requested_authorized : AuthorizedRequest → Act (Unit {0})
  mark_requested_authorized a = do
    found ← operation e a.request.operation_id
    loaded ← lift (ok_or found invalid_persisted_state)
    as_requested a loaded

  unfoldable pub submit_found : AuthorizedRequest → Option OperationState → Act SubmissionResult
  unfolding mark_requested_authorized
  submit_found a none = insert_requested e a >> (mark_requested_authorized a >> return created)
  submit_found a (some requested) = mark_requested_authorized a >> return created
  submit_found a (some state) = return (existing state)

  module _ (authorities : List AuthorizationTrust) where
    unfoldable pub submit_authorized : SetDeploymentImageRequest → Bytes → Act SubmissionResult
    unfolding submit_found
    submit_authorized request signed_grant = do
      valid ← lift (try_from_request request)
      verified ← lift (verify_grant_with e.crypto authorities signed_grant)
      a ← lift (bind valid verified)
      found ← existing_submission e a
      submit_found a found
