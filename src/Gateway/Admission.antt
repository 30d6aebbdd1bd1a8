-- ===== src/Gateway/Admission.antt =====
-- src/gateway/mod.rs: the reconciliation loop under the worker lock, and admission before it.
-- The loop runs on fuel; every round that goes on moves the operation to a later phase.
use kapsel.Base.{
  ℕ, Bool, true, false, Option, none, some, List, ◌∷◌, Bytes, Result, ok, err, if◌then◌else◌,
  is_some, suc, zero,
}
use kapsel.Authority.Grant.{AuthorizationTrust}
use kapsel.Gateway.Types.{
  G, GatewayError, OperationState, requested, finalized, not_attempted, SetDeploymentImageRequest,
  AuthorizedRequest, AdmissionDecision, admitted, busy, full, ReconciliationError, submission,
  advancement, completion, blocked, receiver_unavailable, signing_unavailable, worker_contention,
  journal_full, worker_lock,
}
use kapsel.Gateway.Custody.{bind_authorization}
use kapsel.Gateway.Journal.Phases.{
  LoadedOperation, requested_phase, authorized_phase, not_attempted_phase, apply_started_phase,
  receiver_observed_phase, finalized_phase, loaded_state,
}
use kapsel.Gateway.Journal.Store.{
  Env, World, Lock, acquired, contended, failed, Run, Act, ◌>>=◌, ◌>>◌, return, lift, on_error,
  tick,
}
use kapsel.Gateway.Journal.Writes.{authorized_operation, existing_submission}
use kapsel.Gateway.Journal.Steps.{insert_requested}
use kapsel.Gateway.Reconcile.{
  ReceiptSettings, Outcome, out_of_fuel, finished, owns_worker, run_locked_operation_once,
  finalize_locked_operation_receipt_once, submit_authorized,
}

abbrev pub acknowledge : {E : Type 0} → AdmissionDecision → Run E (Unit {0})
acknowledge decision w = (ok tt, record w { acknowledged = decision ∷ w.acknowledged })

abbrev pub decision_of : Option OperationState → AdmissionDecision
decision_of none = busy
decision_of (some state) = admitted state

-- `try_lock` of the file that the slot holds.
abbrev pub lock_as : Lock → Act Bool
lock_as acquired w = (ok true, record w { held = true })
lock_as contended w = (ok false, w)
lock_as failed w = (err worker_lock, w)

abbrev is_full : GatewayError → Bool
is_full journal_full = true
is_full _ = false

-- A full journal is acknowledged as such; any other error is the submission's.
unfoldable pub refuse_admission : GatewayError → Run ReconciliationError (Option OperationState)
refuse_admission error =
    if is_full error then acknowledge full >> return none else lift (err (submission error))

-- More rounds than there are phases to move through.
abbrev pub rounds : ℕ
rounds = 4

module _ (e : Env) where
  -- An empty slot is a lock that this process holds already.
  unfoldable pub try_lock_worker : Act Bool
  unfolding tick
  try_lock_worker w = if w.held then (ok false, w) else lock_as (e.locks w.clock) (tick w)

  -- `drop(worker)`: a failed unlock leaves the slot empty.
  unfoldable pub release_worker : World → World
  unfolding tick
  release_worker w = if e.unlocks w.clock then record (tick w) { held = false } else tick w

  unfoldable pub released : {E A : Type 0} → Result E A × World → Result E A × World
  unfolding release_worker
  released (outcome, w) = (outcome, release_worker w)

  -- The lease is dropped with every outcome but an admission.
  unfoldable pub admit_outcome :
      G OperationState × World → Result ReconciliationError (Option OperationState) × World
  unfolding released
  admit_outcome (ok state, w) = (acknowledge (admitted state) >> return (some state)) w
  admit_outcome (err error, w) = released (refuse_admission error w)

  unfoldable pub admit_locked : Act OperationState → Run ReconciliationError (Option OperationState)
  unfolding admit_outcome
  admit_locked admit w = admit_outcome (admit w)

  abbrev pub after_lock :
      Option OperationState
      → Act OperationState
      → Bool
      → Run ReconciliationError (Option OperationState)
  after_lock existing admit true = admit_locked admit
  after_lock existing admit false =
      acknowledge (decision_of existing) >> lift (err (blocked worker_contention))

  -- Confirmed admission or definite refusal; `none` reaches no advancement.
  unfoldable pub admit_service_operation :
      Option OperationState → Act OperationState → Run ReconciliationError (Option OperationState)
  unfolding try_lock_worker
  admit_service_operation (some finalized) admit = acknowledge (admitted finalized) >> return none
  admit_service_operation (some not_attempted) admit =
      acknowledge (admitted not_attempted) >> return none
  admit_service_operation existing admit =
      on_error submission try_lock_worker >>= after_lock existing admit

  abbrev pub admit_found : AuthorizedRequest → Option OperationState → Act OperationState
  admit_found a (some state) = return state
  admit_found a none = insert_requested e a >> return requested

  abbrev pub admit_request : AuthorizedRequest → Act OperationState
  admit_request a = existing_submission e a >>= admit_found a

  module _ (authorities : List AuthorizationTrust) (request : SetDeploymentImageRequest)
      (signed_grant : Bytes) (adapter : Bool) (settings : Option ReceiptSettings) where
    abbrev pub run_adapter : AuthorizedRequest → Bool → Run ReconciliationError Bool
    run_adapter a false = lift (err (blocked receiver_unavailable))
    run_adapter a true =
        on_error advancement (run_locked_operation_once e a) >>= λ state. return (is_some state)

    abbrev pub run_signer : LoadedOperation → Option ReceiptSettings → Run ReconciliationError Bool
    run_signer loaded none = lift (err (blocked signing_unavailable))
    run_signer loaded (some keys) =
        on_error (λ _. completion) (finalize_locked_operation_receipt_once e (some loaded) keys)
        >>= λ state. return (is_some state)

    -- One round on a phase that is not terminal: whether it advanced.
    unfoldable pub advance : AuthorizedRequest → LoadedOperation → Run ReconciliationError Bool
    advance a (requested_phase _) =
        on_error submission (submit_authorized e authorities request signed_grant) >>= λ _.
        return true
    advance a (authorized_phase _) = run_adapter a adapter
    advance a (apply_started_phase _) = run_adapter a adapter
    advance a (receiver_observed_phase operation) =
        run_signer (receiver_observed_phase operation) settings
    advance a _ = return false

    -- `authorized_operation` of the gateway, after a round that did not advance.
    abbrev pub reread : Run ReconciliationError Outcome
    reread = on_error advancement (
        lift (bind_authorization e.crypto authorities request signed_grant) >>= λ a.
        authorized_operation e a >>= λ found. return (finished found))

    -- The next round after one that advanced.
    abbrev pub proceed : Run ReconciliationError Outcome → Bool → Run ReconciliationError Outcome
    proceed next true = next
    proceed next false = reread

    -- One turn of the loop on the operation that it read.
    unfoldable pub round :
        AuthorizedRequest
        → Run ReconciliationError Outcome
        → Option LoadedOperation
        → Run ReconciliationError Outcome
    unfolding advance
    round a next none = return (finished none)
    round a next (some (not_attempted_phase operation)) =
        return (finished (some (not_attempted_phase operation)))
    round a next (some (finalized_phase operation)) =
        return (finished (some (finalized_phase operation)))
    round a next (some loaded) = advance a loaded >>= proceed next

    unfoldable pub reconcile_loop : ℕ → AuthorizedRequest → Run ReconciliationError Outcome
    unfolding round
    reconcile_loop zero a = return out_of_fuel
    reconcile_loop (suc fuel) a =
        on_error advancement (authorized_operation e a) >>= round a (reconcile_loop fuel a)

    unfoldable pub reconcile_locked_with_adapter : Run ReconciliationError Outcome
    unfolding reconcile_loop
    reconcile_locked_with_adapter =
        on_error advancement owns_worker
        >> (on_error advancement
              (lift (bind_authorization e.crypto authorities request signed_grant))
            >>= reconcile_loop rounds)

    unfoldable pub reconcile_admitted : Option OperationState → Run ReconciliationError (Unit {0})
    unfolding reconcile_locked_with_adapter release_worker
    reconcile_admitted none w = (ok tt, w)
    reconcile_admitted (some _) w = released ((reconcile_locked_with_adapter >>= λ _. return tt) w)

    abbrev pub state_of : Option LoadedOperation → Option OperationState
    state_of none = none
    state_of (some loaded) = some (loaded_state loaded)

    unfoldable pub admit_and_reconcile : Run ReconciliationError (Unit {0})
    unfolding reconcile_admitted admit_service_operation
    admit_and_reconcile = do
      a ← on_error submission (lift (bind_authorization e.crypto authorities request signed_grant))
      existing ← on_error submission (authorized_operation e a)
      held ← admit_service_operation (state_of existing) (admit_request a)
      reconcile_admitted held
