-- ===== src/Gateway/Rounds/Submission.antt =====
-- What the submission of src/gateway/mod.rs leaves behind where it succeeds.
use kapsel.Base.{Option, none, some, List, Bytes, ok, ◌≡◌, refl, arith}
use kapsel.Authority.Grant.{AuthorizationTrust}
use kapsel.Gateway.Types.{
  G, OperationState, requested, authorized, not_attempted, apply_started, receiver_observed,
  finalized, AuthorizedRequest, SetDeploymentImageRequest, ValidatedRequest, VerifiedAuthorization,
  try_from_request, bind,
}
use kapsel.Gateway.Custody.{verify_grant_with, bind_authorization}
use kapsel.Gateway.Journal.Phases.{
  LoadedOperation, requested_phase, authorized_phase, not_attempted_phase, apply_started_phase,
  receiver_observed_phase, finalized_phase,
}
use kapsel.Gateway.Journal.Store.{Env, World, lift, return}
use kapsel.Gateway.Reconcile.{
  as_requested, mark_requested_authorized, submit_found, submit_authorized,
}
use kapsel.Gateway.Rounds.{
  rank, Below, Ends, Ends-any, Ends-bind, Ends-check, Ends-then, Ends-weaken,
}
use kapsel.Gateway.Rounds.Columns.{InState, InState-Below}
use kapsel.Gateway.Rounds.Marks.{mark_authorized-InState}
use kapsel.Gateway.Rounds.Found.{StateIn, existing_submission-StateIn, Below-mono}

ok_request : {a b : AuthorizedRequest} → ◌≡◌ {A = G AuthorizedRequest} (ok a) (ok b) → a ≡ b
ok_request h = cc h

module _ (e : Env) where
  -- The submission binds what the reconciliation bound.
  same_binding :
      (authorities : List AuthorizationTrust) (request : SetDeploymentImageRequest)
      (signed_grant : Bytes) (a b : AuthorizedRequest) (valid : ValidatedRequest)
      (verified : VerifiedAuthorization)
      → bind_authorization e.crypto authorities request signed_grant ≡ ok a
      → try_from_request request ≡ ok valid
      → verify_grant_with e.crypto authorities signed_grant ≡ ok verified
      → bind valid verified ≡ ok b
      → b ≡ a
  unfolding bind_authorization
  same_binding authorities request signed_grant a b valid verified bound h k m =
      let q : bind_authorization e.crypto authorities request signed_grant ≡ bind valid verified =
        rw k (rw h refl) in
      ok_request (cc (bound, q, m))

  as_requested-Below :
      (a : AuthorizedRequest) (loaded : LoadedOperation) (w : World)
      → Ends (λ _ v. Below a.request.operation_id 2 v) (as_requested e a loaded w)
  unfolding rank lift
  as_requested-Below a (requested_phase operation) w =
      Ends-weaken (λ _ v. InState a.request.operation_id authorized v)
        (λ _ v. Below a.request.operation_id 2 v) (as_requested e a (requested_phase operation) w)
        (mark_authorized-InState e operation a w)
        (λ _ v h. InState-Below a.request.operation_id authorized v h)
  as_requested-Below a (authorized_phase _) w = tt
  as_requested-Below a (not_attempted_phase _) w = tt
  as_requested-Below a (apply_started_phase _) w = tt
  as_requested-Below a (receiver_observed_phase _) w = tt
  as_requested-Below a (finalized_phase _) w = tt

  mark_requested_authorized-Below :
      (a : AuthorizedRequest) (w : World)
      → Ends (λ _ v. Below a.request.operation_id 2 v) (mark_requested_authorized e a w)
  unfolding mark_requested_authorized
  mark_requested_authorized-Below a w =
      Ends-bind (λ _ _. Unit {0}) (λ _ v. Below a.request.operation_id 2 v) _ _ w (Ends-any _)
        λ found v _.
          Ends-check (λ _ u. Below a.request.operation_id 2 u) _ _ v
            λ loaded _. as_requested-Below a loaded v

  submit_found-Below :
      (a : AuthorizedRequest) (state : Option OperationState) (w : World)
      → StateIn e a.request.operation_id state w
      → Ends (λ _ v. Below a.request.operation_id 2 v) (submit_found e a state w)
  unfolding submit_found return rank
  submit_found-Below a none w _ =
      Ends-then (λ _ _. Unit {0}) (λ _ v. Below a.request.operation_id 2 v) _ _ w (Ends-any _)
        λ v _.
          Ends-then (λ _ u. Below a.request.operation_id 2 u)
            (λ _ u. Below a.request.operation_id 2 u) _ _ v (mark_requested_authorized-Below a v)
            λ u h. h
  submit_found-Below a (some requested) w _ =
      Ends-then (λ _ u. Below a.request.operation_id 2 u) (λ _ u. Below a.request.operation_id 2 u)
        _ _ w (mark_requested_authorized-Below a w) λ u h. h
  submit_found-Below a (some authorized) w h = h
  submit_found-Below a (some apply_started) w h = h
  submit_found-Below a (some receiver_observed) w h =
      Below-mono a.request.operation_id 1 2 w (omega arith) h
  submit_found-Below a (some not_attempted) w h =
      Below-mono a.request.operation_id 0 2 w (omega arith) h
  submit_found-Below a (some finalized) w h =
      Below-mono a.request.operation_id 0 2 w (omega arith) h

  -- A submission that succeeds leaves the row authorized or later.
  pub submit_authorized-Below :
      (authorities : List AuthorizationTrust) (request : SetDeploymentImageRequest)
      (signed_grant : Bytes) (a : AuthorizedRequest) (w : World)
      → bind_authorization e.crypto authorities request signed_grant ≡ ok a
      → Ends
          (λ _ v. Below a.request.operation_id 2 v)
          (submit_authorized e authorities request signed_grant w)
  unfolding submit_authorized
  submit_authorized-Below authorities request signed_grant a w bound =
      let Q : _ → World → Type 0 = λ _ v. Below a.request.operation_id 2 v in
      Ends-check Q _ _ w λ valid h. Ends-check Q _ _ w λ verified k. Ends-check Q _ _ w λ b m.
        let same = same_binding authorities request signed_grant a b valid verified bound h k m in
        rw same (
          Ends-bind (λ state v. StateIn e a.request.operation_id state v) Q _ _ w
            (existing_submission-StateIn e a w) (submit_found-Below a))
