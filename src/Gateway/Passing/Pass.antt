-- ===== src/Gateway/Passing/Pass.antt =====
-- One pass of src/gateway/mod.rs keeps to a relation that the journal's steps keep to.
use kapsel.Base.{List, ◌∷◌, Bool, true, false, Option, none, some, Result, ok, err, if◌then◌else◌}
use kapsel.Gateway.Types.{
  not_attempted, receiver_observed, AuthorizedRequest, TargetReadError, transient, permanent,
  SetDeploymentImageRequest, invalid_transition,
}
use kapsel.Gateway.Facts.{
  TargetIdentity, ValidatedTargetIdentity, ApplyOutcome, ReceiverObservation,
}
use kapsel.Gateway.Journal.Phases.{
  LoadedOperation, requested_phase, authorized_phase, not_attempted_phase, apply_started_phase,
  receiver_observed_phase, finalized_phase, AuthorizedOperation, ApplyStartedOperation,
  DispatchPermission,
}
use kapsel.Gateway.Journal.Store.{Env, World, Dispatch, ◌>>=◌, tick}
use kapsel.Gateway.Journal.Writes.{authorized_operation}
use kapsel.Gateway.Journal.Steps.{begin_attempt, freeze_observation}
use kapsel.Gateway.Reconcile.{
  identify, apply, apply_reply, into_payload, observe, observed_reply, target_reply,
  preflight_target, dispatch, observe_attempt, with_permission, with_target, run_phase, owns_worker,
  run_locked_operation_once,
}
use kapsel.Gateway.Dispatch.{Holds}
use kapsel.Gateway.Dispatch.Replace.{Reads, tick-Reads}
use kapsel.Gateway.Dispatch.Moves.{Moves, Reading, Reads-refl}
use kapsel.Gateway.Dispatch.Lifecycle.{authorized_operation-Reading}
use kapsel.Gateway.Passing.{
  IsPreorder, IsStepping, IsPassing, Passing-lift, Passing-return, Passing-bind, Passing-then,
  Passing-reads,
}

module _ (e : Env) where
  identify-Reading : (request : SetDeploymentImageRequest) → Reading (identify e request)
  unfolding identify Moves tick
  identify-Reading request w = tick-Reads w

  observe-Reading :
      (request : SetDeploymentImageRequest) (outcome : ApplyOutcome)
      → Reading (observe e request outcome)
  unfolding observe Moves
  observe-Reading request outcome w = reply_case (e.observe w.clock request outcome)
    where
      reply_case :
          (reply : Option ReceiverObservation)
          → Holds (Reads w) (λ _ u. Reads w u) (observed_reply reply, tick w)
      reply_case none = tick-Reads w
      reply_case (some _) = tick-Reads w

pub owns_worker-Reading : Reading owns_worker
unfolding Moves
owns_worker-Reading w = held_case w.held
  where
    held_case :
        (held : Bool)
        → Holds
            (Reads w)
            (λ _ v. Reads w v)
            (if held then (ok tt, w) else (err invalid_transition, w))
    held_case true = Reads-refl w
    held_case false = Reads-refl w

-- A request adds to what was sent, whatever the reply.
pub apply-Moves :
    (R : World → World → Type 0)
    → ((w : World) (sent : List Dispatch) → R w (record (tick w) { sent = sent }))
    → (e : Env) (permission : DispatchPermission) → Moves R (apply e permission)
unfolding Moves apply
apply-Moves R sending e permission w =
    reply_case (e.apply w.clock _ _) _ (sending w (into_payload permission ∷ w.sent))
  where
    reply_case :
        (reply : Option ApplyOutcome) (v : World)
        → R w v
        → Holds (R w) (λ _ u. R w u) (apply_reply reply, v)
    reply_case none v h = h
    reply_case (some outcome) v h = h

module _ (R : World → World → Type 0) (order : IsPreorder R) (e : Env) where
  lookup : (a : AuthorizedRequest) → Moves R (authorized_operation e a)
  lookup a = Passing-reads R order _ (authorized_operation-Reading e a)

  module _
      (freeze : (operation : ApplyStartedOperation) (observation : ReceiverObservation)
        → Moves R (freeze_observation e operation observation)) where
    pub observe_attempt-Moves :
        (a : AuthorizedRequest) (attempted : ApplyStartedOperation)
        → Moves R (observe_attempt e a attempted)
    unfolding observe_attempt
    observe_attempt-Moves a attempted =
        Passing-bind R order _ _ (Passing-reads R order _ (observe-Reading e _ _)) λ observation.
          Passing-bind R order _ _ (lookup a) λ found.
            Passing-bind R order _ _ (Passing-lift R order _) λ _.
              Passing-then R order _ _ (freeze attempted observation)
                (Passing-return R order _ (some receiver_observed))

-- The steps of an attempt make one.
module _ (R : World → World → Type 0) (steps : IsStepping R) (e : Env) (a : AuthorizedRequest) where
  dispatch-Moves : (permission : DispatchPermission) → Moves R (dispatch e a permission)
  unfolding dispatch
  dispatch-Moves permission = Passing-bind R steps.order _ _ (lookup R steps.order e a) λ before.
      Passing-bind R steps.order _ _ (Passing-lift R steps.order _) λ started.
        Passing-bind R steps.order _ _ (steps.applies e permission) λ outcome.
          Passing-bind R steps.order _ _ (lookup R steps.order e a) λ after.
            Passing-bind R steps.order _ _ (Passing-lift R steps.order _) λ _.
              Passing-then R steps.order _ _ (steps.records e started outcome) (
                Passing-bind R steps.order _ _ (lookup R steps.order e a)
                  λ found. Passing-lift R steps.order _)

  with_permission-Moves :
      (permission : Option DispatchPermission) → Moves R (with_permission e a permission)
  unfolding with_permission
  with_permission-Moves none = Passing-return R steps.order _ (some not_attempted)
  with_permission-Moves (some permission) =
      Passing-bind R steps.order _ _ (dispatch-Moves permission)
        (observe_attempt-Moves R steps.order e (steps.freeze e) a)

  pub attempt-Moves :
      (operation : AuthorizedOperation) (target : ValidatedTargetIdentity)
      → Moves R (begin_attempt e operation target >>= with_permission e a)
  attempt-Moves operation target =
      Passing-bind R steps.order _ _ (steps.begins e operation target) with_permission-Moves

module _ (R : World → World → Type 0) (passing : IsPassing R) (e : Env) where
  target_reply-Moves :
      (operation : AuthorizedOperation) (reply : Result TargetReadError TargetIdentity)
      → Moves R (target_reply e operation reply)
  target_reply-Moves operation (ok target) =
      Passing-bind R passing.order _ _ (Passing-lift R passing.order _)
        λ valid. Passing-return R passing.order _ (some valid)
  target_reply-Moves operation (err transient) = Passing-lift R passing.order _
  target_reply-Moves operation (err (permanent rejection)) =
      Passing-then R passing.order _ _ (passing.reject e operation rejection)
        (Passing-return R passing.order _ none)

  preflight_target-Moves :
      (a : AuthorizedRequest) (operation : AuthorizedOperation)
      → Moves R (preflight_target e a operation)
  unfolding preflight_target
  preflight_target-Moves a operation =
      Passing-bind R passing.order _ _ (Passing-reads R passing.order _ (identify-Reading e _))
        λ reply. Passing-bind R passing.order _ _ (lookup R passing.order e a) λ found.
          Passing-bind R passing.order _ _ (Passing-lift R passing.order _)
            λ _. target_reply-Moves operation reply

  with_target-Moves :
      (a : AuthorizedRequest) (operation : AuthorizedOperation)
      (target : Option ValidatedTargetIdentity)
      → Moves R (with_target e a operation target)
  unfolding with_target
  with_target-Moves a operation none = Passing-return R passing.order _ (some not_attempted)
  with_target-Moves a operation (some target) = passing.attempt e a operation target

  run_phase-Moves :
      (a : AuthorizedRequest) (found : Option LoadedOperation) → Moves R (run_phase e a found)
  unfolding run_phase
  run_phase-Moves a none = Passing-return R passing.order _ none
  run_phase-Moves a (some (authorized_phase operation)) =
      Passing-bind R passing.order _ _ (preflight_target-Moves a operation)
        (with_target-Moves a operation)
  run_phase-Moves a (some (apply_started_phase operation)) =
      observe_attempt-Moves R passing.order e (passing.freeze e) a operation
  run_phase-Moves a (some (requested_phase _)) = Passing-return R passing.order _ none
  run_phase-Moves a (some (not_attempted_phase _)) = Passing-return R passing.order _ none
  run_phase-Moves a (some (receiver_observed_phase _)) = Passing-return R passing.order _ none
  run_phase-Moves a (some (finalized_phase _)) = Passing-return R passing.order _ none

  pub run_locked_operation_once-Moves :
      (a : AuthorizedRequest) → Moves R (run_locked_operation_once e a)
  unfolding run_locked_operation_once
  run_locked_operation_once-Moves a =
      Passing-then R passing.order _ _ (Passing-reads R passing.order _ owns_worker-Reading)
        (Passing-bind R passing.order _ _ (lookup R passing.order e a) (run_phase-Moves a))
