-- ===== src/Gateway/Rounds/Passes.antt =====
-- What one pass of src/gateway/mod.rs and the signing of a receipt leave behind where they succeed.
use kapsel.Base.{Option, none, some, Text, ok, err, ◌≡◌, refl}
use kapsel.Gateway.Types.{G, OperationState, finalized, AuthorizedRequest}
use kapsel.Gateway.Facts.{ValidatedTargetIdentity}
use kapsel.Gateway.Journal.Phases.{
  LoadedOperation, requested_phase, authorized_phase, not_attempted_phase, apply_started_phase,
  receiver_observed_phase, finalized_phase, AuthorizedOperation, ApplyStartedOperation,
  ReceiverObservedOperation, DispatchPermission, authorized_request, started_request,
  observed_operation_id, request_facts,
}
use kapsel.Gateway.Journal.Store.{Env, World, ◌>>=◌, lift, return}
use kapsel.Gateway.Journal.Writes.{authorized_operation}
use kapsel.Gateway.Journal.Steps.{begin_attempt}
use kapsel.Gateway.Reconcile.{
  ReceiptSettings, as_started, dispatch, observe_attempt, with_permission, with_target, run_phase,
  run_locked_operation_once, finalize_locked_operation_receipt_once,
}
use kapsel.Gateway.Rounds.{rank, Ends, Ends-any, Ends-bind, Ends-check, Ends-then}
use kapsel.Gateway.Rounds.Columns.{InState, InState-Below}
use kapsel.Gateway.Rounds.Marks.{commit_receipt-InState}
use kapsel.Gateway.Dispatch.Replace.{Reads}
use kapsel.Gateway.Passing.Pass.{owns_worker-Reading}
use kapsel.Gateway.Rounds.Found.{
  Reading-Ends, Reads-Found, authorized_operation-again, Found, FoundIn, Found-id,
  authorized_operation-Found,
}
use kapsel.Gateway.Rounds.Advance.{
  Done, Rejected, observe_attempt-Done, preflight_target-Rejected, begin_at-Rejected,
  as_started-Found,
}

module _ (e : Env) where
  begin_attempt-Rejected :
      (id : Text) (operation : AuthorizedOperation) (observed : ValidatedTargetIdentity) (w : World)
      → (authorized_request operation).operation_id ≡ id
      → Ends (λ permission v. Rejected e id permission v) (begin_attempt e operation observed w)
  unfolding begin_attempt
  begin_attempt-Rejected id operation observed w same =
      Ends-bind (λ _ _. Unit {0}) (λ permission v. Rejected e id permission v) _ _ w (Ends-any _)
        λ r v _. begin_at-Rejected e id operation observed operation.request.approved_target v same

  abbrev Started : AuthorizedRequest → ApplyStartedOperation → World → Type 0
  Started a started w = Found e a.request.operation_id (apply_started_phase started) w

  -- A fresh read after the request finds the attempt.
  lookup-Started :
      (a : AuthorizedRequest) (w : World)
      → Ends (Started a) ((authorized_operation e a >>= λ found. lift (as_started e found)) w)
  unfolding lift
  lookup-Started a w =
      Ends-bind (λ found v. FoundIn e a.request.operation_id found v) (Started a) _ _ w
        (authorized_operation-Found e a w)
        λ found v f. reply_case found v f (as_started e found) refl
    where
      reply_case :
          (found : Option LoadedOperation) (v : World)
          → FoundIn e a.request.operation_id found v
          → (out : G ApplyStartedOperation) → as_started e found ≡ out
          → Ends (Started a) (out, v)
      reply_case found v f (ok started) h =
          as_started-Found e a.request.operation_id found started v h f
      reply_case found v f (err _) h = tt

  dispatch-Started :
      (a : AuthorizedRequest) (permission : DispatchPermission) (w : World)
      → Ends (Started a) (dispatch e a permission w)
  unfolding dispatch
  dispatch-Started a permission w =
      Ends-bind (λ _ _. Unit {0}) (Started a) _ _ w (Ends-any _)
        λ before v _. Ends-check (Started a) _ _ v λ started _.
          Ends-bind (λ _ _. Unit {0}) (Started a) _ _ v (Ends-any _)
            λ outcome u _.
              Ends-bind (λ _ _. Unit {0}) (Started a) _ _ u (Ends-any _)
                λ after t _. Ends-check (Started a) _ _ t λ _ _.
                  Ends-then (λ _ _. Unit {0}) (Started a) _ _ t (Ends-any _)
                    λ s _. lookup-Started a s

  abbrev Passed : AuthorizedRequest → Option OperationState → World → Type 0
  Passed a state w = Done e 1 a.request.operation_id state w

  with_permission-Done :
      (a : AuthorizedRequest) (permission : Option DispatchPermission) (w : World)
      → Rejected e a.request.operation_id permission w
      → Ends (Passed a) (with_permission e a permission w)
  unfolding with_permission return request_facts started_request authorized_request
  with_permission-Done a none w below = below
  with_permission-Done a (some permission) w _ =
      Ends-bind (Started a) (Passed a) _ _ w (dispatch-Started a permission w) λ started v f.
        observed started v (Found-id e a.request.operation_id (apply_started_phase started) v f)
    where
      observed :
          (started : ApplyStartedOperation) (v : World)
          → (request_facts (apply_started_phase started)).request.operation_id
            ≡ a.request.operation_id
          → Ends (Passed a) (observe_attempt e a started v)
      observed started v same = observe_attempt-Done e a started v same

  with_target-Done :
      (a : AuthorizedRequest) (operation : AuthorizedOperation)
      (target : Option ValidatedTargetIdentity) (w : World)
      → (authorized_request operation).operation_id ≡ a.request.operation_id
      → Rejected e a.request.operation_id target w
      → Ends (Passed a) (with_target e a operation target w)
  unfolding with_target return
  with_target-Done a operation none w same below = below
  with_target-Done a operation (some target) w same _ =
      Ends-bind (λ permission v. Rejected e a.request.operation_id permission v) (Passed a) _ _ w
        (begin_attempt-Rejected a.request.operation_id operation target w same)
        (with_permission-Done a)

  abbrev pub IsRunnable : LoadedOperation → Type 0
  IsRunnable (authorized_phase _) = Unit {0}
  IsRunnable (apply_started_phase _) = Unit {0}
  IsRunnable _ = ⊥

  run_phase-Done :
      (a : AuthorizedRequest) (loaded : LoadedOperation) (w : World)
      → IsRunnable loaded
      → Found e a.request.operation_id loaded w
      → Ends (Passed a) (run_phase e a (some loaded) w)
  unfolding run_phase request_facts started_request authorized_request
  run_phase-Done a (authorized_phase operation) w _ f =
      let same = Found-id e a.request.operation_id (authorized_phase operation) w f in
      Ends-bind (λ target v. Rejected e a.request.operation_id target v) (Passed a) _ _ w
        (preflight_target-Rejected e a operation w same)
        (λ target v h. with_target-Done a operation target v same h)
  run_phase-Done a (apply_started_phase operation) w _ f =
      observe_attempt-Done e a operation w
        (Found-id e a.request.operation_id (apply_started_phase operation) w f)
  run_phase-Done a (requested_phase _) w h f = absurd h
  run_phase-Done a (not_attempted_phase _) w h f = absurd h
  run_phase-Done a (receiver_observed_phase _) w h f = absurd h
  run_phase-Done a (finalized_phase _) w h f = absurd h

  -- A pass on an operation that is authorized or started, and succeeds, leaves it observed or rejected.
  pub run_locked_operation_once-Done :
      (a : AuthorizedRequest) (loaded : LoadedOperation) (w : World)
      → IsRunnable loaded
      → Found e a.request.operation_id loaded w
      → Ends (λ state v. Done e 1 a.request.operation_id state v) (run_locked_operation_once e a w)
  unfolding run_locked_operation_once
  run_locked_operation_once-Done a loaded w runs f =
      Ends-then (λ _ v. Reads w v) (Passed a) _ _ w (Reading-Ends _ w owns_worker-Reading)
        λ v r.
          Ends-bind (λ found u. (found ≡ some loaded) × Found e a.request.operation_id loaded u)
            (Passed a) _ _ v
            (authorized_operation-again e a loaded v
              (Reads-Found e a.request.operation_id loaded w v r f))
            λ found u (same, g). rw same (run_phase-Done a loaded u runs g)

  -- Signing left the row finalized.
  pub finalize-Done :
      (id : Text) (operation : ReceiverObservedOperation) (settings : ReceiptSettings) (w : World)
      → Found e id (receiver_observed_phase operation) w
      → Ends
          (λ state v. Done e 0 id state v)
          (finalize_locked_operation_receipt_once e
            (some (receiver_observed_phase operation))
            settings
            w)
  unfolding finalize_locked_operation_receipt_once return request_facts started_request
      authorized_request observed_operation_id rank
  finalize-Done id operation settings w f =
      let same : observed_operation_id operation ≡ id =
        Found-id e id (receiver_observed_phase operation) w f in
      Ends-check (λ state v. Done e 0 id state v) _ _ w
        λ kept _.
          Ends-then (λ _ v. InState (observed_operation_id operation) finalized v)
            (λ state v. Done e 0 id state v) _ _ w (commit_receipt-InState e operation kept w)
            λ v h. rw same at (InState-Below (observed_operation_id operation) finalized v h)
