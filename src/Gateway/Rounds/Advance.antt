-- ===== src/Gateway/Rounds/Advance.antt =====
-- What the steps of a pass of src/gateway/mod.rs leave behind where they succeed.
use kapsel.Base.{
  ℕ, Bool, true, false, Option, none, some, Text, Result, ok, err, ◌≡◌, ◌!=◌, ◌||◌, list_eq, nat_eq,
  if◌then◌else◌, ◌≤◌, arith,
}
use kapsel.Authority.Grant.{ApprovedTarget}
use kapsel.Gateway.Types.{
  OperationState, not_attempted, receiver_observed, AuthorizedRequest, TargetReadError, transient,
  permanent,
}
use kapsel.Gateway.Facts.{TargetIdentity, ValidatedTargetIdentity}
use kapsel.Gateway.Journal.Phases.{
  LoadedOperation, requested_phase, authorized_phase, not_attempted_phase, apply_started_phase,
  receiver_observed_phase, finalized_phase, AuthorizedOperation, ApplyStartedOperation,
  DispatchPermission, authorized_request, started_request,
}
use kapsel.Gateway.Journal.Store.{Env, World, ◌>>=◌, ◌>>◌, lift, return}
use kapsel.Gateway.Journal.Writes.{operation}
use kapsel.Gateway.Journal.Steps.{begin_at, start, mark_stale_approval, approved_identity}
use kapsel.Gateway.Reconcile.{target_reply, preflight_target, as_started, observe_attempt}
use kapsel.Gateway.Rounds.{rank, Below, Ends, Ends-any, Ends-bind, Ends-check, Ends-then}
use kapsel.Gateway.Rounds.Columns.{InState, InState-Below}
use kapsel.Gateway.Rounds.Marks.{
  mark_not_attempted-InState, mark_stale_approval-InState, freeze_observation-InState,
}
use kapsel.Gateway.Rounds.Found.{Found, FoundIn, Below-mono}

module _ (e : Env) where
  -- A pass returned a state, and left the row of at most this rank.
  abbrev pub Done : ℕ → Text → Option OperationState → World → Type 0
  Done n id none w = ⊥
  Done n id (some _) w = Below id n w

  pub InState-Done :
      (id other : Text) (state : OperationState) (w : World)
      → other ≡ id
      → rank state ≤ 1
      → InState other state w
      → Below id 1 w
  InState-Done id other state w same le h =
      Below-mono id (rank state) 1 w le (rw same at (InState-Below other state w h))

  -- What a step that may reject the target has done if it did.
  abbrev pub Rejected : {A : Type 0} → Text → Option A → World → Type 0
  Rejected id none w = Below id 1 w
  Rejected id (some _) w = Unit {0}

  pub observe_attempt-Done :
      (a : AuthorizedRequest) (attempted : ApplyStartedOperation) (w : World)
      → (started_request attempted).operation_id ≡ a.request.operation_id
      → Ends (λ state v. Done 1 a.request.operation_id state v) (observe_attempt e a attempted w)
  unfolding observe_attempt return rank
  observe_attempt-Done a attempted w same =
      let Q : Option OperationState → World → Type 0 =
        λ state v. Done 1 a.request.operation_id state v in
      Ends-bind (λ _ _. Unit {0}) Q _ _ w (Ends-any _)
        λ observation v _.
          Ends-bind (λ _ _. Unit {0}) Q _ _ v (Ends-any _)
            λ found u _. Ends-check Q _ _ u λ _ _.
              Ends-then
                (λ _ t. InState (started_request attempted).operation_id receiver_observed t) Q _ _
                u (freeze_observation-InState e attempted observation u)
                λ t h.
                  InState-Done a.request.operation_id (started_request attempted).operation_id
                    receiver_observed t same (omega arith) h

  target_reply-Rejected :
      (id : Text) (operation : AuthorizedOperation) (reply : Result TargetReadError TargetIdentity)
      (w : World)
      → (authorized_request operation).operation_id ≡ id
      → Ends (λ target v. Rejected id target v) (target_reply e operation reply w)
  unfolding return rank lift
  target_reply-Rejected id operation (ok target) w same =
      Ends-check (λ t v. Rejected id t v) _ _ w λ valid _. tt
  target_reply-Rejected id operation (err transient) w same = tt
  target_reply-Rejected id operation (err (permanent rejection)) w same =
      Ends-then (λ _ v. InState (authorized_request operation).operation_id not_attempted v)
        (λ t v. Rejected id t v) _ _ w (mark_not_attempted-InState e operation rejection w)
        λ v h.
          InState-Done id (authorized_request operation).operation_id not_attempted v same
            (omega arith) h

  pub preflight_target-Rejected :
      (a : AuthorizedRequest) (operation : AuthorizedOperation) (w : World)
      → (authorized_request operation).operation_id ≡ a.request.operation_id
      → Ends
          (λ target v. Rejected a.request.operation_id target v)
          (preflight_target e a operation w)
  unfolding preflight_target
  preflight_target-Rejected a operation w same =
      let Q : Option ValidatedTargetIdentity → World → Type 0 =
        λ target v. Rejected a.request.operation_id target v in
      Ends-bind (λ _ _. Unit {0}) Q _ _ w (Ends-any _)
        λ reply v _.
          Ends-bind (λ _ _. Unit {0}) Q _ _ v (Ends-any _)
            λ found u _.
              Ends-check Q _ _ u
                λ _ _. target_reply-Rejected a.request.operation_id operation reply u same

  start-Rejected :
      (id : Text) (operation : AuthorizedOperation) (target : ValidatedTargetIdentity) (w : World)
      → Ends (λ permission v. Rejected id permission v) (start e operation target w)
  unfolding start return
  start-Rejected id operation target w =
      Ends-then (λ _ _. Unit {0}) (λ permission v. Rejected id permission v) _ _ w (Ends-any _)
        λ v _. tt

  pub begin_at-Rejected :
      (id : Text) (operation : AuthorizedOperation) (observed : ValidatedTargetIdentity)
      (approved : Option ApprovedTarget) (w : World)
      → (authorized_request operation).operation_id ≡ id
      → Ends (λ permission v. Rejected id permission v) (begin_at e operation observed approved w)
  unfolding begin_at return rank
  begin_at-Rejected id operation observed none w same = start-Rejected id operation observed w
  begin_at-Rejected id operation observed (some approved) w same = begin_case (
      observed.deployment_uid != approved.uid
      || observed.resource_version != approved.resource_version)
    where
      Q : Option DispatchPermission → World → Type 0
      Q permission v = Rejected id permission v

      begin_case :
          (differs : Bool)
          → Ends Q (
              (if differs
                  then mark_stale_approval e operation observed >> return none
                  else lift (approved_identity approved) >>= λ target. start e operation target)
                w)
      begin_case true =
          Ends-then (λ _ v. InState (authorized_request operation).operation_id not_attempted v) Q _
            _ w (mark_stale_approval-InState e operation observed w)
            λ v h.
              InState-Done id (authorized_request operation).operation_id not_attempted v same
                (omega arith) h
      begin_case false = Ends-check Q _ _ w λ target _. start-Rejected id operation target w

  pub as_started-Found :
      (id : Text) (found : Option LoadedOperation) (started : ApplyStartedOperation) (w : World)
      → as_started e found ≡ ok started
      → FoundIn e id found w
      → Found e id (apply_started_phase started) w
  as_started-Found id none started w h f = cc h
  as_started-Found id (some (apply_started_phase operation)) started w h f =
      let same : operation ≡ started = cc h in rw (← same) f
  as_started-Found id (some (requested_phase _)) started w h f = cc h
  as_started-Found id (some (authorized_phase _)) started w h f = cc h
  as_started-Found id (some (not_attempted_phase _)) started w h f = cc h
  as_started-Found id (some (receiver_observed_phase _)) started w h f = cc h
  as_started-Found id (some (finalized_phase _)) started w h f = cc h
