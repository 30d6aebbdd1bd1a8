-- ===== src/Gateway/Dispatch/Permission.antt =====
-- What `begin_attempt` of src/gateway/journal/mod.rs permits: the operation's own request, on the target that
-- its authorization fixes.
use kapsel.Base.{
  false, Option, none, some, ok, err, ◌≡◌, refl, Bool-cases, inl, inr, ◌||◌, ◌!=◌, list_eq, nat_eq,
  arith,
}
use mathlib.Core.Path.{subst}
use kapsel.Authority.Grant.{ApprovedTarget}
use kapsel.Gateway.Types.{G}
use kapsel.Gateway.Facts.{ValidatedTargetIdentity, try_from_target}
use kapsel.Gateway.Journal.Phases.{
  AuthorizedOperation, authorized_phase, DispatchPermission, authorized_request,
}
use kapsel.Gateway.Journal.Store.{World, Env, Act, continue, ◌>>=◌, ◌>>◌, lift, return}
use kapsel.Gateway.Journal.Writes.{bound_record}
use kapsel.Gateway.Journal.Steps.{
  begin_attempt, begin_at, start, mark_stale_approval, mark_apply_started, approved_identity,
}

-- The target is the observed one, and the approved one where there is an approval.
abbrev pub IsApproved :
    Option ApprovedTarget → ValidatedTargetIdentity → ValidatedTargetIdentity → Type 0
IsApproved none observed target = target ≡ observed
IsApproved (some approved) observed target =
    (target ≡ observed)
    × (observed.deployment_uid ≡ approved.uid)
    × (observed.resource_version ≡ approved.resource_version)

pub record IsPermitted (operation : AuthorizedOperation) (observed : ValidatedTargetIdentity)
    (permission : DispatchPermission) : Type 0 where
  pub request : permission.request ≡ authorized_request operation
  pub target : IsApproved operation.request.approved_target observed permission.target

-- What holds of a permission that an action returns.
abbrev Grants : (DispatchPermission → Type 0) → G (Option DispatchPermission) × World → Type 0
Grants P (ok (some permission), w) = P permission
Grants P (ok none, w) = Unit {0}
Grants P (err error, w) = Unit {0}

continue-Grants :
    {A : Type 0} (P : DispatchPermission → Type 0) (out : G A × World)
    (f : A → Act (Option DispatchPermission))
    → ((value : A) (w : World) → Grants P (f value w))
    → Grants P (continue out f)
continue-Grants P (ok value, w) f h = h value w
continue-Grants P (err error, w) f h = tt

permission_of :
    (given permission : DispatchPermission)
    → ◌≡◌ {A = G (Option DispatchPermission)} (ok (some given)) (ok (some permission))
    → given ≡ permission
permission_of given permission h = cc h

Grants-permission :
    (P : DispatchPermission → Type 0) (out : G (Option DispatchPermission) × World)
    (permission : DispatchPermission)
    → Grants P out
    → out.0 ≡ ok (some permission)
    → P permission
Grants-permission P (ok (some given), w) permission h e =
    let same : given ≡ permission = permission_of given permission e in subst P same h
Grants-permission P (ok none, w) permission h e = cc e
Grants-permission P (err error, w) permission h e = cc e

same_identity :
    (observed : ValidatedTargetIdentity) (approved : ApprovedTarget)
    → (observed.deployment_uid != approved.uid
        || observed.resource_version != approved.resource_version)
      ≡ false
    → (observed.deployment_uid ≡ approved.uid)
      × (observed.resource_version ≡ approved.resource_version)
same_identity observed approved h = (
  list_eq.beq_sound observed.deployment_uid approved.uid (ground arith),
  list_eq.beq_sound observed.resource_version approved.resource_version (ground arith),
)

approved_identity-eq-ok :
    (approved : ApprovedTarget) (observed target : ValidatedTargetIdentity)
    → observed.deployment_uid ≡ approved.uid
    → observed.resource_version ≡ approved.resource_version
    → approved_identity approved ≡ ok target
    → target ≡ observed
unfolding try_from_target
approved_identity-eq-ok approved observed target hu hv h = ground (arith, hu, hv)

module _ (e : Env) (operation : AuthorizedOperation) (observed : ValidatedTargetIdentity) where
  start-Grants :
      (target : ValidatedTargetIdentity) (w : World)
      → IsApproved operation.request.approved_target observed target
      → Grants (IsPermitted operation observed) (start e operation target w)
  unfolding start ◌>>◌ return
  start-Grants target w h =
      continue-Grants (IsPermitted operation observed) (mark_apply_started e operation target w) _
        (λ _ v. record { request = refl; target = h })

  stale-Grants :
      (w : World)
      → Grants
          (IsPermitted operation observed)
          ((mark_stale_approval e operation observed >> return none) w)
  unfolding ◌>>◌ return
  stale-Grants w =
      continue-Grants (IsPermitted operation observed) (mark_stale_approval e operation observed w)
        _ (λ _ v. tt)

  approved-Grants :
      (approved : ApprovedTarget) (out : G ValidatedTargetIdentity) (w : World)
      → operation.request.approved_target ≡ some approved
      → observed.deployment_uid ≡ approved.uid
      → observed.resource_version ≡ approved.resource_version
      → approved_identity approved ≡ out
      → Grants
          (IsPermitted operation observed)
          ((lift out >>= λ target. start e operation target) w)
  unfolding ◌>>=◌ lift
  approved-Grants approved (err error) w ha hu hv h = tt
  approved-Grants approved (ok target) w ha hu hv h =
      start-Grants target w
        (rw ha (approved_identity-eq-ok approved observed target hu hv h, hu, hv))

  begin_at-Grants :
      (approved : Option ApprovedTarget) (w : World)
      → operation.request.approved_target ≡ approved
      → Grants (IsPermitted operation observed) (begin_at e operation observed approved w)
  unfolding begin_at
  begin_at-Grants none w h = start-Grants observed w (rw h refl)
  begin_at-Grants (some approved) w h =
      elim (Bool-cases (
        observed.deployment_uid != approved.uid
        || observed.resource_version != approved.resource_version)) [
          | inl p ↦ rw p (stale-Grants w)
          | inr q ↦
              let (hu, hv) = same_identity observed approved q in
              rw q (approved-Grants approved (approved_identity approved) w h hu hv refl)
        ]

  -- A permission that `begin_attempt` returns is for the operation's own request, on the target that was
  -- observed, which is the approved target where the operation has one.
  pub begin_attempt-IsPermitted :
      (w : World) (permission : DispatchPermission)
      → (begin_attempt e operation observed w).0 ≡ ok (some permission)
      → IsPermitted operation observed permission
  unfolding begin_attempt ◌>>=◌
  begin_attempt-IsPermitted w permission h =
      Grants-permission (IsPermitted operation observed) (begin_attempt e operation observed w)
        permission
        (continue-Grants (IsPermitted operation observed)
          (bound_record e (authorized_request operation).operation_id (authorized_phase operation)
            w)
          _ (λ _ v. begin_at-Grants operation.request.approved_target v refl))
        h
