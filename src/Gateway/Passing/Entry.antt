-- ===== src/Gateway/Passing/Entry.antt =====
-- The entries of src/gateway/mod.rs, and any history of them over one journal.
use kapsel.Base.{
  Bool, true, false, Option, none, some, List, [], ◌∷◌, Bytes, Result, ok, err, refl, if◌then◌else◌,
}
use kapsel.Authority.Grant.{AuthorizationTrust}
use kapsel.Gateway.Types.{
  G, GatewayError, OperationState, requested, authorized, not_attempted, apply_started,
  receiver_observed, finalized, AuthorizedRequest, SetDeploymentImageRequest, submission, admitted,
  full,
}
use kapsel.Gateway.Journal.Record.{value_eq}
use kapsel.Gateway.Journal.Store.{Env, World, Act, ◌>>=◌, ◌>>◌, lift, return, on_error}
use kapsel.Gateway.Reconcile.{ReceiptSettings, submit_authorized}
use kapsel.Gateway.Admission.{
  acknowledge, decision_of, try_lock_worker, admit_locked, refuse_admission, admit_outcome,
  after_lock, admit_service_operation, admit_found, admit_request, reconcile_locked_with_adapter,
  reconcile_admitted, admit_and_reconcile,
}
use kapsel.Gateway.Dispatch.{Holds, Holds-weaken}
use kapsel.Gateway.Dispatch.Moves.{Moves}
use kapsel.Gateway.Dispatch.Lifecycle.{authorized_operation-Reading, existing_submission-Reading}
use kapsel.Gateway.Passing.{
  IsPassing, Passing-lift, Passing-return, Passing-bind, Passing-then, Passing-reads,
  Passing-on_error,
}
use kapsel.Gateway.Passing.Service.{
  unmoved, acknowledge-Moves, released-Holds, try_lock_worker-Moves, reconcile_locked-Moves,
  submit_authorized-Moves,
}

-- One entry to the gateway: a service pass, a submission or a restart of the process, each with the
-- environment, the authorities and the signer that are configured then.
pub data Pass : Type 0 where
  reconcile :
      Env
      → List AuthorizationTrust
      → SetDeploymentImageRequest
      → Bytes
      → Bool
      → Option ReceiptSettings
      → Pass
  submit : Env → List AuthorizationTrust → SetDeploymentImageRequest → Bytes → Pass
  restart : Pass

abbrev pub world_after : {E A : Type 0} → Result E A × World → World
world_after (_, w) = w

unfoldable pub pass : Pass → World → World
pass (reconcile e authorities request signed_grant adapter settings) w =
    world_after (admit_and_reconcile e authorities request signed_grant adapter settings w)
pass (submit e authorities request signed_grant) w =
    world_after (submit_authorized e authorities request signed_grant w)
pass restart w = record w { held = false }

-- The first pass first.
unfoldable pub history : List Pass → World → World
unfolding pass
history [] w = w
history (p ∷ passes) w = history passes (pass p w)

module _ (R : World → World → Type 0) (passing : IsPassing R) where
  module _ (e : Env) where
    admit_request-Moves : (a : AuthorizedRequest) → Moves R (admit_request e a)
    admit_request-Moves a =
        Passing-bind R passing.order _ _
          (Passing-reads R passing.order _ (existing_submission-Reading e a)) admit_found-Moves
      where
        admit_found-Moves : (found : Option OperationState) → Moves R (admit_found e a found)
        admit_found-Moves none =
            Passing-then R passing.order _ _ (passing.inserts e a)
              (Passing-return R passing.order _ requested)
        admit_found-Moves (some state) = Passing-return R passing.order _ state

    refuse_admission-Moves : (error : GatewayError) → Moves R (refuse_admission error)
    unfolding refuse_admission
    refuse_admission-Moves error = full_case _
      where
        full_case :
            (is_full : Bool)
            → Moves {A = Option OperationState} R
                (if is_full then acknowledge full >> return none else lift (err (submission error)))
        full_case true =
            Passing-then R passing.order _ _ (acknowledge-Moves R passing _ full)
              (Passing-return R passing.order _ none)
        full_case false = Passing-lift R passing.order _

    admit_outcome-Holds :
        (w : World) (out : G OperationState × World)
        → Holds (R w) (λ _ v. R w v) out
        → Holds (R w) (λ _ v. R w v) (admit_outcome e out)
    unfolding admit_outcome Moves ◌>>◌ return
    admit_outcome-Holds w (ok state, v) h =
        passing.order.trans w v _ h (unmoved R passing v _ refl refl refl)
    admit_outcome-Holds w (err error, v) h = released-Holds R passing e w _ (
        Holds-weaken (R v) (R w) (λ _ u. R v u) (λ _ u. R w u) (refuse_admission error v)
          (λ u k. passing.order.trans w v u h k) (λ _ u k. passing.order.trans w v u h k)
          (refuse_admission-Moves error v))

    admit_locked-Moves :
        (admit : Act OperationState) → Moves R admit → Moves R (admit_locked e admit)
    unfolding admit_locked Moves
    admit_locked-Moves admit h w = admit_outcome-Holds w (admit w) (h w)

    after_lock-Moves :
        (existing : Option OperationState) (admit : Act OperationState) (held : Bool)
        → Moves R admit
        → Moves R (after_lock e existing admit held)
    after_lock-Moves existing admit true h = admit_locked-Moves admit h
    after_lock-Moves existing admit false h =
        Passing-then R passing.order _ _ (acknowledge-Moves R passing _ (decision_of existing))
          (Passing-lift R passing.order _)

    locked-Moves :
        (existing : Option OperationState) (admit : Act OperationState)
        → Moves R admit
        → Moves R (on_error submission (try_lock_worker e) >>= after_lock e existing admit)
    locked-Moves existing admit h =
        Passing-bind R passing.order _ _
          (Passing-on_error R _ _ (try_lock_worker-Moves R passing e))
          λ held. after_lock-Moves existing admit held h

    admit_service_operation-Moves :
        (existing : Option OperationState) (admit : Act OperationState)
        → Moves R admit
        → Moves R (admit_service_operation e existing admit)
    unfolding admit_service_operation
    admit_service_operation-Moves (some finalized) admit h =
        Passing-then R passing.order _ _ (acknowledge-Moves R passing _ (admitted finalized))
          (Passing-return R passing.order _ none)
    admit_service_operation-Moves (some not_attempted) admit h =
        Passing-then R passing.order _ _ (acknowledge-Moves R passing _ (admitted not_attempted))
          (Passing-return R passing.order _ none)
    admit_service_operation-Moves none admit h = locked-Moves none admit h
    admit_service_operation-Moves (some requested) admit h = locked-Moves (some requested) admit h
    admit_service_operation-Moves (some authorized) admit h = locked-Moves (some authorized) admit h
    admit_service_operation-Moves (some apply_started) admit h =
        locked-Moves (some apply_started) admit h
    admit_service_operation-Moves (some receiver_observed) admit h =
        locked-Moves (some receiver_observed) admit h

    module _ (authorities : List AuthorizationTrust) (request : SetDeploymentImageRequest)
        (signed_grant : Bytes) (adapter : Bool) (settings : Option ReceiptSettings) where
      reconcile_admitted-Moves :
          (held : Option OperationState)
          → Moves R (reconcile_admitted e authorities request signed_grant adapter settings held)
      unfolding reconcile_admitted Moves
      reconcile_admitted-Moves none w = unmoved R passing w w refl refl refl
      reconcile_admitted-Moves (some state) w = released-Holds R passing e w _ (
          Passing-bind R passing.order
            (reconcile_locked_with_adapter e authorities request signed_grant adapter settings)
            (λ _. return tt)
            (reconcile_locked-Moves R passing e authorities request signed_grant adapter settings)
            (λ _. Passing-return R passing.order _ tt) w)

      admit_and_reconcile-Moves :
          Moves R (admit_and_reconcile e authorities request signed_grant adapter settings)
      unfolding admit_and_reconcile
      admit_and_reconcile-Moves =
          Passing-bind R passing.order _ _ (Passing-on_error R _ _ (Passing-lift R passing.order _))
            λ a.
              Passing-bind R passing.order _ _
                (Passing-on_error R _ _
                  (Passing-reads R passing.order _ (authorized_operation-Reading e a)))
                λ existing.
                  Passing-bind R passing.order _ _
                    (admit_service_operation-Moves _ (admit_request e a) (admit_request-Moves a))
                    λ held. reconcile_admitted-Moves held

module _ (R : World → World → Type 0) (passing : IsPassing R) where
  Holds-after :
      {E A : Type 0} (w : World) (out : Result E A × World)
      → Holds (R w) (λ _ v. R w v) out
      → R w (world_after out)
  Holds-after w (ok value, v) h = h
  Holds-after w (err error, v) h = h

  pass-Moves : (p : Pass) (w : World) → R w (pass p w)
  unfolding pass Moves
  pass-Moves (reconcile e authorities request signed_grant adapter settings) w =
      Holds-after w _
        (admit_and_reconcile-Moves R passing e authorities request signed_grant adapter settings w)
  pass-Moves (submit e authorities request signed_grant) w =
      Holds-after w _ (submit_authorized-Moves R passing e authorities request signed_grant w)
  pass-Moves restart w = unmoved R passing w _ refl refl refl

  pub history-Moves : (passes : List Pass) (w : World) → R w (history passes w)
  unfolding history
  history-Moves [] w = unmoved R passing w w refl refl refl
  history-Moves (p ∷ passes) w =
      passing.order.trans w (pass p w) (history passes (pass p w)) (pass-Moves p w)
        (history-Moves passes (pass p w))
