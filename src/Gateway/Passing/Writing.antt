-- ===== src/Gateway/Passing/Writing.antt =====
-- The steps of src/gateway/journal/mod.rs keep to a relation that its guarded writes keep to.
use kapsel.Base.{
  Bool, true, false, Option, none, some, Text, ok, err, ◌≡◌, ◌||◌, ◌!=◌, list_eq, nat_eq,
  if◌then◌else◌,
}
use kapsel.Authority.Grant.{ApprovedTarget}
use kapsel.Gateway.Types.{
  G, OperationState, authorized, not_attempted, apply_started, receiver_observed, finalized,
  AuthorizedRequest, TargetRejection,
}
use kapsel.Gateway.Facts.{ApplyOutcome, ReceiverObservation, ValidatedTargetIdentity}
use kapsel.Gateway.Journal.Record
use kapsel.Gateway.Journal.Record.{Record}
use kapsel.Gateway.Journal.Phases.{
  FrozenReceipt, LoadedOperation, requested_phase, authorized_phase, apply_started_phase,
  receiver_observed_phase, RequestedOperation, AuthorizedOperation, ApplyStartedOperation,
  ReceiverObservedOperation, DispatchPermission, loaded_state,
}
use kapsel.Gateway.Journal.Store.{Env, World, Act, ◌>>=◌, ◌>>◌, lift, return, replace}
use kapsel.Gateway.Journal.Writes.{bound_record}
use kapsel.Gateway.Journal.Steps.{
  authorized_row, rejected_row, stale_row, started_row, outcome_row, observed_row, finalized_row,
  insert_requested, mark_authorized, mark_not_attempted, mark_stale_approval, mark_apply_started,
  start, begin_at, begin_attempt, record_apply_outcome, freeze_observation, commit_receipt,
  approved_identity,
}
use kapsel.Gateway.Reconcile.{apply}
use kapsel.Gateway.Dispatch.{Holds, continue-Holds, Holds-weaken}
use kapsel.Gateway.Dispatch.Replace.{Reads}
use kapsel.Gateway.Dispatch.Written.{
  authorized_row-Keeps, rejected_row-Keeps, stale_row-Keeps, outcome_row-Keeps, observed_row-Keeps,
  finalized_row-Keeps, started_row-values,
}
use kapsel.Gateway.Dispatch.Moves.{Moves}
use kapsel.Gateway.Dispatch.Lifecycle.{Bound, bound_record-Holds, existing_submission-Reading}
use kapsel.Gateway.Rounds.{Spells}
use kapsel.Gateway.Rounds.Marks.{
  authorized_row-HasState, rejected_row-HasState, stale_row-HasState, observed_row-HasState,
  finalized_row-HasState,
}
use kapsel.Gateway.Course.{Step, authorizes, rejects, starts, answers, observes, finalizes}
use kapsel.Gateway.Course.States.{HasState-Spells, started_row-HasState, outcome_row-Spells}
use kapsel.Gateway.Passing.{
  IsPreorder, IsStepping, IsPassing, Passing-lift, Passing-return, Passing-bind, Passing-then,
  Passing-reads, still,
}
use kapsel.Gateway.Passing.Pass.{attempt-Moves}

-- A relation that holds after an insertion, after a request, and after every guarded write that is a
-- move of the operation.
pub record IsWriting (R : World → World → Type 0) : Type 0 where
  pub order : IsPreorder R
  pub inserts : (e : Env) (a : AuthorizedRequest) → Moves R (insert_requested e a)
  pub applies : (e : Env) (permission : DispatchPermission) → Moves R (apply e permission)
  pub writes :
      (e : Env) (id : Text) (expected : LoadedOperation) (w v : World) (r next : Record)
      (t : OperationState)
      → Bound e id expected w v r
      → next.values Record.operation_id ≡ r.values Record.operation_id
      → (Spells r (loaded_state expected) → Spells next t)
      → Step (loaded_state expected) t
      → Holds (R v) (λ _ u. R v u) (replace e (some r) next v)

module _ (R : World → World → Type 0) (writing : IsWriting R) (e : Env) where
  module _ (id : Text) (expected : LoadedOperation) (f : Record → Record) (t : OperationState)
      (same : (r : Record) → (f r).values Record.operation_id ≡ r.values Record.operation_id)
      (spells : (r : Record) → Spells r (loaded_state expected) → Spells (f r) t)
      (step : Step (loaded_state expected) t) where
    -- A guarded write, with checks between the guard and the write.
    checked-Moves :
        (k : Record → Act (Unit {0}))
        → ((r : Record) (v : World)
            → Holds (R v) (λ _ u. R v u) (replace e (some r) (f r) v)
            → Holds (R v) (λ _ u. R v u) (k r v))
        → Moves R (bound_record e id expected >>= k)
    unfolding Moves ◌>>=◌
    checked-Moves k before w =
        continue-Holds (R w) (λ r v. Bound e id expected w v r) (λ _ v. R w v)
          (bound_record e id expected w) k
          (Holds-weaken (Reads w) (R w) (λ r v. Bound e id expected w v r)
            (λ r v. Bound e id expected w v r) (bound_record e id expected w)
            (λ v r. writing.order.reads w v r) (λ _ _ b. b) (bound_record-Holds e id expected w))
          (λ r v b.
            let reads = writing.order.reads w v b.reads in
            Holds-weaken (R v) (R w) (λ _ u. R v u) (λ _ u. R w u) (k r v)
              (λ u. writing.order.trans w v u reads) (λ _ u. writing.order.trans w v u reads)
              (before r v (writing.writes e id expected w v r (f r) t b (same r) (spells r) step)))

    guarded-Moves : Moves R (bound_record e id expected >>= λ r. replace e (some r) (f r))
    guarded-Moves = checked-Moves (λ r. replace e (some r) (f r)) (λ r v h. h)

  lifted :
      {A B : Type 0} (out : G A) (k : A → Act B) (v : World)
      → ((value : A) → Holds (R v) (λ _ u. R v u) (k value v))
      → Holds (R v) (λ _ u. R v u) ((lift out >>= k) v)
  unfolding lift ◌>>=◌
  lifted (ok value) k v h = h value
  lifted (err error) k v h = still R writing.order v

  required :
      {B : Type 0} (out : G (Unit {0})) (k : Act B) (v : World)
      → Holds (R v) (λ _ u. R v u) (k v)
      → Holds (R v) (λ _ u. R v u) ((lift out >> k) v)
  unfolding lift ◌>>◌
  required (ok value) k v h = h
  required (err error) k v h = still R writing.order v

  mark_authorized-Moves :
      (operation : RequestedOperation) (a : AuthorizedRequest)
      → Moves R (mark_authorized e operation a)
  unfolding mark_authorized loaded_state
  mark_authorized-Moves operation a =
      Passing-then R writing.order _ _ (Passing-lift R writing.order _) (
        Passing-bind R writing.order _ _
          (Passing-reads R writing.order _ (existing_submission-Reading e a))
          λ existing. Passing-then R writing.order _ _ (Passing-lift R writing.order _) (
            guarded-Moves _ (requested_phase operation) (authorized_row a) authorized
              (λ r. (authorized_row-Keeps a r).id)
              (λ r _. HasState-Spells authorized _ (authorized_row-HasState a r)) authorizes))

  mark_not_attempted-Moves :
      (operation : AuthorizedOperation) (rejection : TargetRejection)
      → Moves R (mark_not_attempted e operation rejection)
  unfolding mark_not_attempted loaded_state
  mark_not_attempted-Moves operation rejection =
      guarded-Moves _ (authorized_phase operation) (rejected_row rejection) not_attempted
        (λ r. (rejected_row-Keeps rejection r).id)
        (λ r _. HasState-Spells not_attempted _ (rejected_row-HasState rejection r)) rejects

  mark_stale_approval-Moves :
      (operation : AuthorizedOperation) (observed : ValidatedTargetIdentity)
      → Moves R (mark_stale_approval e operation observed)
  unfolding mark_stale_approval loaded_state
  mark_stale_approval-Moves operation observed =
      guarded-Moves _ (authorized_phase operation) (stale_row observed) not_attempted
        (λ r. (stale_row-Keeps observed r).id)
        (λ r _. HasState-Spells not_attempted _ (stale_row-HasState observed r)) rejects

  start-Moves :
      (operation : AuthorizedOperation) (target : ValidatedTargetIdentity)
      → Moves R (start e operation target)
  unfolding start mark_apply_started loaded_state
  start-Moves operation target =
      Passing-then R writing.order _ _
        (guarded-Moves _ (authorized_phase operation) (started_row target) apply_started
          (λ r. (started_row-values target r).0)
          (λ r _. HasState-Spells apply_started _ (started_row-HasState target r)) starts)
        (Passing-return R writing.order _ _)

  begin_at-Moves :
      (operation : AuthorizedOperation) (observed : ValidatedTargetIdentity)
      (approved : Option ApprovedTarget)
      → Moves R (begin_at e operation observed approved)
  unfolding begin_at
  begin_at-Moves operation observed none = start-Moves operation observed
  begin_at-Moves operation observed (some approved) = begin_case (
      observed.deployment_uid != approved.uid
      || observed.resource_version != approved.resource_version)
    where
      begin_case :
          (differs : Bool)
          → Moves {A = Option DispatchPermission} R (
              if differs
              then mark_stale_approval e operation observed >> return none
              else lift (approved_identity approved) >>= λ target. start e operation target)
      begin_case true =
          Passing-then R writing.order _ _ (mark_stale_approval-Moves operation observed)
            (Passing-return R writing.order _ none)
      begin_case false =
          Passing-bind R writing.order _ _ (Passing-lift R writing.order _) (start-Moves operation)

  bound_record-Moves :
      (id : Text) (expected : LoadedOperation) → Moves R (bound_record e id expected)
  unfolding Moves
  bound_record-Moves id expected w =
      Holds-weaken (Reads w) (R w) (λ r v. Bound e id expected w v r) (λ _ v. R w v)
        (bound_record e id expected w) (λ v r. writing.order.reads w v r)
        (λ r v b. writing.order.reads w v b.reads) (bound_record-Holds e id expected w)

  begin_attempt-Moves :
      (operation : AuthorizedOperation) (observed : ValidatedTargetIdentity)
      → Moves R (begin_attempt e operation observed)
  unfolding begin_attempt
  begin_attempt-Moves operation observed =
      Passing-bind R writing.order _ _ (bound_record-Moves _ _)
        λ _. begin_at-Moves operation observed operation.request.approved_target

  record_apply_outcome-Moves :
      (operation : ApplyStartedOperation) (outcome : ApplyOutcome)
      → Moves R (record_apply_outcome e operation outcome)
  unfolding record_apply_outcome loaded_state
  record_apply_outcome-Moves operation outcome =
      Passing-then R writing.order _ _ (Passing-lift R writing.order _) (
        checked-Moves _ (apply_started_phase operation) (outcome_row outcome) apply_started
          (λ r. (outcome_row-Keeps outcome r).id)
          (λ r h. outcome_row-Spells outcome r apply_started h) answers _
          (λ r v h. lifted _ _ v λ uid. required _ _ v h))

  freeze_observation-Moves :
      (operation : ApplyStartedOperation) (observation : ReceiverObservation)
      → Moves R (freeze_observation e operation observation)
  unfolding freeze_observation loaded_state
  freeze_observation-Moves operation observation =
      Passing-then R writing.order _ _ (Passing-lift R writing.order _) (
        guarded-Moves _ (apply_started_phase operation) (observed_row observation _ _)
          receiver_observed (λ r. (observed_row-Keeps observation _ _ r).id)
          (λ r _. HasState-Spells receiver_observed _ (observed_row-HasState observation _ _ r))
          observes)

  commit_receipt-Moves :
      (operation : ReceiverObservedOperation) (kept : FrozenReceipt)
      → Moves R (commit_receipt e operation kept)
  unfolding commit_receipt loaded_state
  commit_receipt-Moves operation kept =
      Passing-then R writing.order _ _ (Passing-lift R writing.order _) (
        checked-Moves _ (receiver_observed_phase operation) (finalized_row kept) finalized
          (λ r. (finalized_row-Keeps kept r).id)
          (λ r _. HasState-Spells finalized _ (finalized_row-HasState kept r)) finalizes _
          (λ r v h. lifted _ _ v λ (key_id, statement). required _ _ v h))

module _ (R : World → World → Type 0) (writing : IsWriting R) where
  IsWriting-IsStepping : IsStepping R
  IsWriting-IsStepping = record {
    order = writing.order;
    reject = mark_not_attempted-Moves R writing;
    freeze = freeze_observation-Moves R writing;
    begins = begin_attempt-Moves R writing;
    applies = writing.applies;
    records = record_apply_outcome-Moves R writing;
  }

  pub IsWriting-IsPassing : IsPassing R
  IsWriting-IsPassing = record {
    order = writing.order;
    inserts = writing.inserts;
    authorizes = mark_authorized-Moves R writing;
    reject = mark_not_attempted-Moves R writing;
    attempt = attempt-Moves R IsWriting-IsStepping;
    freeze = freeze_observation-Moves R writing;
    commits = commit_receipt-Moves R writing;
  }
