-- ===== src/Gateway/Passing/Service.antt =====
-- Submission and the reconciliation loop of src/gateway/mod.rs keep to a relation that the steps keep to.
use kapsel.Base.{
  ℕ, zero, suc, Bool, true, false, Option, none, some, List, Bytes, Result, ok, err, ◌≡◌, refl,
  Bool-cases, inl, inr, if◌then◌else◌,
}
use kapsel.Authority.Grant.{AuthorizationTrust}
use kapsel.Gateway.Types.{
  OperationState, requested, authorized, not_attempted, apply_started, receiver_observed, finalized,
  AuthorizedRequest, SetDeploymentImageRequest, created, existing, ReconciliationError,
  AdmissionDecision,
}
use kapsel.Gateway.Journal.Phases.{
  LoadedOperation, requested_phase, authorized_phase, not_attempted_phase, apply_started_phase,
  receiver_observed_phase, finalized_phase,
}
use kapsel.Gateway.Journal.Store.{Env, World, Run, Lock, acquired, contended, failed, tick}
use kapsel.Gateway.Reconcile.{
  ReceiptSettings, Outcome, out_of_fuel, finished, finalize_locked_operation_receipt_once,
  as_requested, mark_requested_authorized, submit_found, submit_authorized,
}
use kapsel.Gateway.Admission.{
  acknowledge, lock_as, try_lock_worker, release_worker, released, run_adapter, run_signer, advance,
  reread, proceed, round, rounds, reconcile_loop, reconcile_locked_with_adapter,
}
use kapsel.Gateway.Dispatch.{Holds}
use kapsel.Gateway.Dispatch.Moves.{Moves}
use kapsel.Gateway.Dispatch.Lifecycle.{
  authorized_operation-Reading, existing_submission-Reading, operation-Reading,
}
use kapsel.Gateway.Passing.{
  IsPassing, Passing-lift, Passing-return, Passing-bind, Passing-then, Passing-reads,
  Passing-on_error,
}
use kapsel.Gateway.Passing.Pass.{owns_worker-Reading, run_locked_operation_once-Moves}

module _ (R : World → World → Type 0) (passing : IsPassing R) where
  -- Only the tables and the requests count.
  pub unmoved : (w v : World) → v.rows ≡ w.rows → v.sent ≡ w.sent → v.git ≡ w.git → R w v
  unmoved w v hr hs hg = passing.order.reads w v (record { rows = hr; sent = hs; git = hg })

  pub acknowledge-Moves :
      (E : Type 0) (decision : AdmissionDecision) → Moves R (acknowledge {E = E} decision)
  unfolding Moves
  acknowledge-Moves E decision w = unmoved w _ refl refl refl

  module _ (e : Env) where
    pub try_lock_worker-Moves : Moves R (try_lock_worker e)
    unfolding try_lock_worker Moves tick
    try_lock_worker-Moves w = held_case w.held
      where
        lock_case : (reply : Lock) → Holds (R w) (λ _ v. R w v) (lock_as reply (tick w))
        lock_case acquired = unmoved w _ refl refl refl
        lock_case contended = unmoved w _ refl refl refl
        lock_case failed = unmoved w _ refl refl refl

        held_case :
            (held : Bool)
            → Holds
                (R w)
                (λ _ v. R w v)
                (if held then (ok false, w) else lock_as (e.locks w.clock) (tick w))
        held_case true = unmoved w w refl refl refl
        held_case false = lock_case (e.locks w.clock)

    release-kept : (w v : World) → R w v → R w (release_worker e v)
    unfolding release_worker tick
    release-kept w v h = elim (Bool-cases (e.unlocks v.clock)) [
      | inl p ↦ rw p (passing.order.trans w v _ h (unmoved v _ refl refl refl))
      | inr q ↦ rw q (passing.order.trans w v _ h (unmoved v _ refl refl refl))
    ]

    pub released-Holds :
        {E A : Type 0} (w : World) (out : Result E A × World)
        → Holds (R w) (λ _ v. R w v) out
        → Holds (R w) (λ _ v. R w v) (released e out)
    unfolding released
    released-Holds w (ok value, v) h = release-kept w v h
    released-Holds w (err error, v) h = release-kept w v h

    mark_requested_authorized-Moves :
        (a : AuthorizedRequest) → Moves R (mark_requested_authorized e a)
    unfolding mark_requested_authorized
    mark_requested_authorized-Moves a =
        Passing-bind R passing.order _ _
          (Passing-reads R passing.order _ (operation-Reading e a.request.operation_id))
          λ found.
            Passing-bind R passing.order _ _ (Passing-lift R passing.order _) as_requested-Moves
      where
        as_requested-Moves : (loaded : LoadedOperation) → Moves R (as_requested e a loaded)
        as_requested-Moves (requested_phase held) = passing.authorizes e held a
        as_requested-Moves (authorized_phase _) = Passing-lift R passing.order _
        as_requested-Moves (not_attempted_phase _) = Passing-lift R passing.order _
        as_requested-Moves (apply_started_phase _) = Passing-lift R passing.order _
        as_requested-Moves (receiver_observed_phase _) = Passing-lift R passing.order _
        as_requested-Moves (finalized_phase _) = Passing-lift R passing.order _

    submit_found-Moves :
        (a : AuthorizedRequest) (found : Option OperationState) → Moves R (submit_found e a found)
    unfolding submit_found
    submit_found-Moves a none = Passing-then R passing.order _ _ (passing.inserts e a) (
        Passing-then R passing.order _ _ (mark_requested_authorized-Moves a)
          (Passing-return R passing.order _ created))
    submit_found-Moves a (some requested) =
        Passing-then R passing.order _ _ (mark_requested_authorized-Moves a)
          (Passing-return R passing.order _ created)
    submit_found-Moves a (some authorized) = Passing-return R passing.order _ (existing authorized)
    submit_found-Moves a (some not_attempted) =
        Passing-return R passing.order _ (existing not_attempted)
    submit_found-Moves a (some apply_started) =
        Passing-return R passing.order _ (existing apply_started)
    submit_found-Moves a (some receiver_observed) =
        Passing-return R passing.order _ (existing receiver_observed)
    submit_found-Moves a (some finalized) = Passing-return R passing.order _ (existing finalized)

    module _ (authorities : List AuthorizationTrust) where
      pub submit_authorized-Moves :
          (request : SetDeploymentImageRequest) (signed_grant : Bytes)
          → Moves R (submit_authorized e authorities request signed_grant)
      unfolding submit_authorized
      submit_authorized-Moves request signed_grant =
          Passing-bind R passing.order _ _ (Passing-lift R passing.order _) λ valid.
            Passing-bind R passing.order _ _ (Passing-lift R passing.order _) λ verified.
              Passing-bind R passing.order _ _ (Passing-lift R passing.order _) λ a.
                Passing-bind R passing.order _ _
                  (Passing-reads R passing.order _ (existing_submission-Reading e a))
                  (submit_found-Moves a)

      module _ (request : SetDeploymentImageRequest) (signed_grant : Bytes) (adapter : Bool)
          (settings : Option ReceiptSettings) where
        finalize-Moves :
            (loaded : Option LoadedOperation) (keys : ReceiptSettings)
            → Moves R (finalize_locked_operation_receipt_once e loaded keys)
        unfolding finalize_locked_operation_receipt_once
        finalize-Moves none keys = Passing-return R passing.order _ none
        finalize-Moves (some (requested_phase _)) keys = Passing-return R passing.order _ none
        finalize-Moves (some (authorized_phase _)) keys = Passing-return R passing.order _ none
        finalize-Moves (some (not_attempted_phase _)) keys = Passing-return R passing.order _ none
        finalize-Moves (some (apply_started_phase _)) keys = Passing-return R passing.order _ none
        finalize-Moves (some (receiver_observed_phase held)) keys =
            Passing-bind R passing.order _ _ (Passing-lift R passing.order _) λ kept.
              Passing-then R passing.order _ _ (passing.commits e held kept)
                (Passing-return R passing.order _ (some finalized))
        finalize-Moves (some (finalized_phase _)) keys = Passing-return R passing.order _ none

        run_adapter-Moves :
            (a : AuthorizedRequest) (present : Bool)
            → Moves R (run_adapter e authorities request signed_grant adapter settings a present)
        run_adapter-Moves a false = Passing-lift R passing.order _
        run_adapter-Moves a true =
            Passing-bind R passing.order _ _
              (Passing-on_error R _ _ (run_locked_operation_once-Moves R passing e a))
              λ state. Passing-return R passing.order _ _

        run_signer-Moves :
            (loaded : LoadedOperation) (keys : Option ReceiptSettings)
            → Moves R (run_signer e authorities request signed_grant adapter settings loaded keys)
        run_signer-Moves loaded none = Passing-lift R passing.order _
        run_signer-Moves loaded (some keys) =
            Passing-bind R passing.order _ _
              (Passing-on_error R _ _ (finalize-Moves (some loaded) keys))
              λ state. Passing-return R passing.order _ _

        advance-Moves :
            (a : AuthorizedRequest) (loaded : LoadedOperation)
            → Moves R (advance e authorities request signed_grant adapter settings a loaded)
        unfolding advance
        advance-Moves a (requested_phase _) =
            Passing-bind R passing.order _ _
              (Passing-on_error R _ _ (submit_authorized-Moves request signed_grant))
              λ _. Passing-return R passing.order _ true
        advance-Moves a (authorized_phase _) = run_adapter-Moves a adapter
        advance-Moves a (not_attempted_phase _) = Passing-return R passing.order _ false
        advance-Moves a (apply_started_phase _) = run_adapter-Moves a adapter
        advance-Moves a (receiver_observed_phase held) =
            run_signer-Moves (receiver_observed_phase held) settings
        advance-Moves a (finalized_phase _) = Passing-return R passing.order _ false

        reread-Moves : Moves R (reread e authorities request signed_grant adapter settings)
        reread-Moves = Passing-on_error R _ _ (
            Passing-bind R passing.order _ _ (Passing-lift R passing.order _) λ a.
              Passing-bind R passing.order _ _
                (Passing-reads R passing.order _ (authorized_operation-Reading e a))
                λ found. Passing-return R passing.order _ (finished found))

        proceed-Moves :
            (next : Run ReconciliationError Outcome) (advanced : Bool)
            → Moves R next
            → Moves R (proceed e authorities request signed_grant adapter settings next advanced)
        proceed-Moves next true h = h
        proceed-Moves next false h = reread-Moves

        round-Moves :
            (a : AuthorizedRequest) (next : Run ReconciliationError Outcome)
            (found : Option LoadedOperation)
            → Moves R next
            → Moves R (round e authorities request signed_grant adapter settings a next found)
        unfolding round
        round-Moves a next none h = Passing-return R passing.order _ (finished none)
        round-Moves a next (some (not_attempted_phase held)) h =
            Passing-return R passing.order _ (finished (some (not_attempted_phase held)))
        round-Moves a next (some (finalized_phase held)) h =
            Passing-return R passing.order _ (finished (some (finalized_phase held)))
        round-Moves a next (some (requested_phase held)) h =
            Passing-bind R passing.order _ _ (advance-Moves a (requested_phase held))
              λ advanced. proceed-Moves next advanced h
        round-Moves a next (some (authorized_phase held)) h =
            Passing-bind R passing.order _ _ (advance-Moves a (authorized_phase held))
              λ advanced. proceed-Moves next advanced h
        round-Moves a next (some (apply_started_phase held)) h =
            Passing-bind R passing.order _ _ (advance-Moves a (apply_started_phase held))
              λ advanced. proceed-Moves next advanced h
        round-Moves a next (some (receiver_observed_phase held)) h =
            Passing-bind R passing.order _ _ (advance-Moves a (receiver_observed_phase held))
              λ advanced. proceed-Moves next advanced h

        reconcile_loop-Moves :
            (fuel : ℕ) (a : AuthorizedRequest)
            → Moves R (reconcile_loop e authorities request signed_grant adapter settings fuel a)
        unfolding reconcile_loop
        reconcile_loop-Moves zero a = Passing-return R passing.order _ out_of_fuel
        reconcile_loop-Moves (suc fuel) a =
            Passing-bind R passing.order _ _
              (Passing-on_error R _ _
                (Passing-reads R passing.order _ (authorized_operation-Reading e a)))
              λ found. round-Moves a _ found (reconcile_loop-Moves fuel a)

        pub reconcile_locked-Moves :
            Moves R
              (reconcile_locked_with_adapter e authorities request signed_grant adapter settings)
        unfolding reconcile_locked_with_adapter
        reconcile_locked-Moves =
            Passing-then R passing.order _ _
              (Passing-on_error R _ _ (Passing-reads R passing.order _ owns_worker-Reading))
              (Passing-bind R passing.order _ _
                (Passing-on_error R _ _ (Passing-lift R passing.order _))
                (reconcile_loop-Moves rounds))
