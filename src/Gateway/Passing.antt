-- ===== src/Gateway/Passing.antt =====
-- What a relation between worlds has to satisfy for every entry of src/gateway to keep to it: the
-- steps of the journal, and the reads.
pub mod Pass
pub mod Service
pub mod Entry
pub mod Writing
pub mod Capacity
use kapsel.Gateway.Types.{AuthorizedRequest, TargetRejection, GatewayError}
use kapsel.Gateway.Facts.{ApplyOutcome, ReceiverObservation, ValidatedTargetIdentity}
use kapsel.Gateway.Journal.Phases.{
  FrozenReceipt, RequestedOperation, AuthorizedOperation, ApplyStartedOperation,
  ReceiverObservedOperation, DispatchPermission,
}
use kapsel.Gateway.Journal.Store.{Env, World, Run, Act, ◌>>=◌, ◌>>◌, lift, return, on_error}
use kapsel.Gateway.Journal.Steps.{
  insert_requested, mark_authorized, mark_not_attempted, begin_attempt, record_apply_outcome,
  freeze_observation, commit_receipt,
}
use kapsel.Gateway.Reconcile.{apply, with_permission}
use kapsel.Gateway.Dispatch.{Holds, Holds-weaken}
use kapsel.Gateway.Dispatch.Replace.{Reads}
use kapsel.Gateway.Dispatch.Moves.{
  Moves, Reading, Reads-refl, lift-Moves, return-Moves, bind-Moves, then-Moves, on_error-Moves,
}
use kapsel.Base.{Result}

-- A preorder that holds between two worlds with the same tables and requests.
pub record IsPreorder (R : World → World → Type 0) : Type 0 where
  pub trans : (u v w : World) → R u v → R v w → R u w
  pub reads : (w v : World) → Reads w v → R w v

-- The steps that a pass makes, with the request that it sends as one of them.
pub record IsStepping (R : World → World → Type 0) : Type 0 where
  pub order : IsPreorder R
  pub reject :
      (e : Env) (operation : AuthorizedOperation) (rejection : TargetRejection)
      → Moves R (mark_not_attempted e operation rejection)
  pub freeze :
      (e : Env) (operation : ApplyStartedOperation) (observation : ReceiverObservation)
      → Moves R (freeze_observation e operation observation)
  pub begins :
      (e : Env) (operation : AuthorizedOperation) (target : ValidatedTargetIdentity)
      → Moves R (begin_attempt e operation target)
  pub applies : (e : Env) (permission : DispatchPermission) → Moves R (apply e permission)
  pub records :
      (e : Env) (operation : ApplyStartedOperation) (outcome : ApplyOutcome)
      → Moves R (record_apply_outcome e operation outcome)

-- The writes of the journal, with a whole attempt as one of them.
pub record IsPassing (R : World → World → Type 0) : Type 0 where
  pub order : IsPreorder R
  pub inserts : (e : Env) (a : AuthorizedRequest) → Moves R (insert_requested e a)
  pub authorizes :
      (e : Env) (operation : RequestedOperation) (a : AuthorizedRequest)
      → Moves R (mark_authorized e operation a)
  pub reject :
      (e : Env) (operation : AuthorizedOperation) (rejection : TargetRejection)
      → Moves R (mark_not_attempted e operation rejection)
  pub attempt :
      (e : Env) (a : AuthorizedRequest) (operation : AuthorizedOperation)
      (target : ValidatedTargetIdentity)
      → Moves R (begin_attempt e operation target >>= with_permission e a)
  pub freeze :
      (e : Env) (operation : ApplyStartedOperation) (observation : ReceiverObservation)
      → Moves R (freeze_observation e operation observation)
  pub commits :
      (e : Env) (operation : ReceiverObservedOperation) (kept : FrozenReceipt)
      → Moves R (commit_receipt e operation kept)

module _ (R : World → World → Type 0) (order : IsPreorder R) where
  pub still : (w : World) → R w w
  still w = order.reads w w (Reads-refl w)

  pub Passing-lift : {E A : Type 0} (r : Result E A) → Moves R (lift r)
  Passing-lift r = lift-Moves R still order.trans r

  pub Passing-return : (E : Type 0) {A : Type 0} (value : A) → Moves R (return {E = E} value)
  Passing-return E value = return-Moves R still order.trans E value

  pub Passing-bind :
      {E A B : Type 0} (m : Run E A) (f : A → Run E B)
      → Moves R m
      → ((value : A) → Moves R (f value))
      → Moves R (m >>= f)
  Passing-bind m f h k = bind-Moves R still order.trans m f h k

  pub Passing-then :
      {E B : Type 0} (m : Run E (Unit {0})) (k : Run E B) → Moves R m → Moves R k → Moves R (m >> k)
  Passing-then m k h g = then-Moves R still order.trans m k h g

  pub Passing-reads : {E A : Type 0} (m : Run E A) → Reading m → Moves R m
  unfolding Moves
  Passing-reads m h w =
      Holds-weaken (Reads w) (R w) (λ _ v. Reads w v) (λ _ v. R w v) (m w)
        (λ v r. order.reads w v r) (λ _ v r. order.reads w v r) (h w)

pub Passing-on_error :
    {E A : Type 0} (R : World → World → Type 0) (f : GatewayError → E) (m : Act A)
    → Moves R m
    → Moves R (on_error f m)
Passing-on_error R f m h = on_error-Moves R f m h
