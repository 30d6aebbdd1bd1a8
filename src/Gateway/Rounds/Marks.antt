-- ===== src/Gateway/Rounds/Marks.antt =====
-- The state that each write of src/gateway/journal/mod.rs leaves its operation in.
use kapsel.Base.{
  arith, Bool, true, false, Option, none, some, Text, ◌≡◌, refl, ap, if◌then◌else◌, ◌==◌, nat_eq, ℤ,
  require-eq-ok,
}
use kapsel.Gateway.Types.{
  OperationState, authorized, not_attempted, receiver_observed, finalized, state_as_sql,
  AuthorizedRequest, TargetRejection, OperationResult, invalid_transition, ValidatedRequest,
}
use kapsel.Gateway.Facts.{ReceiverObservation, ValidatedTargetIdentity}
use kapsel.Gateway.Journal.Record
use kapsel.Gateway.Journal.Record.{Column, Record, Value, text_value, set, set_optional, index}
use kapsel.Gateway.Journal.Phases.{
  LoadedOperation, requested_phase, authorized_phase, apply_started_phase, receiver_observed_phase,
  RequestedOperation, AuthorizedOperation, ApplyStartedOperation, ReceiverObservedOperation,
  FrozenReceipt, authorized_request, started_request, observed_operation_id, request_eq,
}
use kapsel.Gateway.Journal.Store.{Env, World, Act, ◌>>=◌, replace}
use kapsel.Gateway.Journal.Writes.{bound_record}
use kapsel.Gateway.Journal.Steps.{
  authorized_row, rejected_row, stale_row, observed_row, finalized_row, mark_authorized,
  mark_not_attempted, mark_stale_approval, freeze_observation, commit_receipt,
}
use kapsel.Gateway.Dispatch.Replace.{Reads}
use kapsel.Gateway.Dispatch.Lifecycle.{Bound, bound_record-Holds}
use kapsel.Gateway.Dispatch.Written.{
  Keeps, authorized_row-Keeps, rejected_row-Keeps, stale_row-Keeps, observed_row-Keeps,
  finalized_row-Keeps,
}
use kapsel.Gateway.Rounds.{Ends, Ends-any, Ends-bind, Ends-weaken, Ends-check, Ends-guard}
use kapsel.Gateway.Rounds.Columns.{InState, replace-InState, Holds-Ends}

abbrev pub HasState : OperationState → Record → Type 0
HasState state r = r.values Record.state ≡ text_value (state_as_sql state)

abbrev pub is_not_state : Column → Bool
is_not_state field = if index Record.state == index field then false else true

pub set-HasState :
    (state : OperationState) (r : Record) (field : Column) (value : Value)
    → is_not_state field ≡ true
    → HasState state r
    → HasState state (set field value r)
unfolding set index
set-HasState state r field value h k = ground (arith, k)

pub set_optional-HasState :
    {A : Type 0} (state : OperationState) (r : Record) (field : Column) (into : A → Value)
    (value : Option A)
    → is_not_state field ≡ true
    → HasState state r
    → HasState state (set_optional field into value r)
unfolding set_optional
set_optional-HasState state r field into none h k = set-HasState state r field Record.null h k
set_optional-HasState state r field into (some value) h k =
    set-HasState state r field (into value) h k

pub authorized_row-HasState :
    (a : AuthorizedRequest) (r : Record) → HasState authorized (authorized_row a r)
unfolding authorized_row set index
authorized_row-HasState a r = refl

pub rejected_row-HasState :
    (rejection : TargetRejection) (r : Record) → HasState not_attempted (rejected_row rejection r)
unfolding rejected_row set index
rejected_row-HasState rejection r = refl

pub stale_row-HasState :
    (observed : ValidatedTargetIdentity) (r : Record)
    → HasState not_attempted (stale_row observed r)
unfolding stale_row set index state_as_sql
stale_row-HasState observed r = refl

pub finalized_row-HasState :
    (kept : FrozenReceipt) (r : Record) → HasState finalized (finalized_row kept r)
unfolding finalized_row set index
finalized_row-HasState kept r = refl

pub set_state-HasState :
    (state : OperationState) (r : Record)
    → HasState state (set Record.state (text_value (state_as_sql state)) r)
unfolding set index
set_state-HasState state r = refl

pub observed_row-HasState :
    (o : ReceiverObservation) (result : OperationResult) (generation : Option ℤ) (r : Record)
    → HasState receiver_observed (observed_row o result generation r)
unfolding observed_row index
observed_row-HasState o result generation r =
    search (set_optional-HasState, set-HasState, set_state-HasState) depth 20

module _ (e : Env) where
  -- A guarded write, with checks between the guard and the write.
  marked-InState :
      (id : Text) (expected : LoadedOperation) (f : Record → Record) (state : OperationState)
      (k : Record → Act (Unit {0}))
      → ((r : Record) → Keeps r (f r))
      → ((r : Record) → HasState state (f r))
      → ((r : Record) (v : World)
          → Ends (λ _ u. InState id state u) (replace e (some r) (f r) v)
          → Ends (λ _ u. InState id state u) (k r v))
      → (w : World) → Ends (λ _ v. InState id state v) ((bound_record e id expected >>= k) w)
  marked-InState id expected f state k keeps has before w =
      Ends-bind (λ r v. Bound e id expected w v r) (λ _ v. InState id state v)
        (bound_record e id expected) k w
        (Holds-Ends (Reads w) (λ r v. Bound e id expected w v r) (bound_record e id expected w)
          (bound_record-Holds e id expected w))
        (λ r v b.
          before r v (replace-InState e id r (f r) state b.id (rw (keeps r).id b.id) (has r) v))

  pub mark_authorized-InState :
      (operation : RequestedOperation) (a : AuthorizedRequest) (w : World)
      → Ends (λ _ v. InState a.request.operation_id authorized v) (mark_authorized e operation a w)
  unfolding mark_authorized
  mark_authorized-InState operation a w =
      Ends-guard (λ _ v. InState a.request.operation_id authorized v) _ _ w
        λ same.
          Ends-bind (λ _ _. Unit {0}) (λ _ v. InState a.request.operation_id authorized v) _ _ w
            (Ends-any _)
            λ existing v _.
              Ends-guard (λ _ v. InState a.request.operation_id authorized v) _ _ v
                λ _.
                  let same_id : operation.request.request ≡ a.request =
                    request_eq.beq_sound operation.request.request a.request (
                      require-eq-ok (operation.request.request == a.request) invalid_transition
                        same) in
                  let here = ap (λ (x : ValidatedRequest). x.operation_id) same_id in
                  Ends-weaken (λ _ u. InState operation.request.request.operation_id authorized u)
                    (λ _ u. InState a.request.operation_id authorized u) _
                    (marked-InState operation.request.request.operation_id
                      (requested_phase operation) (authorized_row a) authorized
                      (λ r. replace e (some r) (authorized_row a r)) (authorized_row-Keeps a)
                      (authorized_row-HasState a) (λ r u h. h) v)
                    (λ _ u h. rw here at h)

  pub mark_not_attempted-InState :
      (operation : AuthorizedOperation) (rejection : TargetRejection) (w : World)
      → Ends
          (λ _ v. InState (authorized_request operation).operation_id not_attempted v)
          (mark_not_attempted e operation rejection w)
  unfolding mark_not_attempted
  mark_not_attempted-InState operation rejection w =
      marked-InState (authorized_request operation).operation_id (authorized_phase operation)
        (rejected_row rejection) not_attempted _ (rejected_row-Keeps rejection)
        (rejected_row-HasState rejection) (λ r u h. h) w

  pub mark_stale_approval-InState :
      (operation : AuthorizedOperation) (observed : ValidatedTargetIdentity) (w : World)
      → Ends
          (λ _ v. InState (authorized_request operation).operation_id not_attempted v)
          (mark_stale_approval e operation observed w)
  unfolding mark_stale_approval
  mark_stale_approval-InState operation observed w =
      marked-InState (authorized_request operation).operation_id (authorized_phase operation)
        (stale_row observed) not_attempted _ (stale_row-Keeps observed)
        (stale_row-HasState observed) (λ r u h. h) w

  pub freeze_observation-InState :
      (operation : ApplyStartedOperation) (observation : ReceiverObservation) (w : World)
      → Ends
          (λ _ v. InState (started_request operation).operation_id receiver_observed v)
          (freeze_observation e operation observation w)
  unfolding freeze_observation
  freeze_observation-InState operation observation w =
      Ends-guard (λ _ v. InState (started_request operation).operation_id receiver_observed v) _ _ w
        λ _.
          marked-InState (started_request operation).operation_id (apply_started_phase operation)
            (observed_row observation _ _) receiver_observed _ (observed_row-Keeps observation _ _)
            (observed_row-HasState observation _ _) (λ r u h. h) w

  pub commit_receipt-InState :
      (operation : ReceiverObservedOperation) (kept : FrozenReceipt) (w : World)
      → Ends
          (λ _ v. InState (observed_operation_id operation) finalized v)
          (commit_receipt e operation kept w)
  unfolding commit_receipt
  commit_receipt-InState operation kept w =
      let Q : Unit {0} → World → Type 0 =
        λ _ v. InState (observed_operation_id operation) finalized v in
      Ends-guard Q _ _ w λ _.
        marked-InState (observed_operation_id operation) (receiver_observed_phase operation)
          (finalized_row kept) finalized _ (finalized_row-Keeps kept) (finalized_row-HasState kept)
          (λ r v h. Ends-check Q _ _ v λ (key_id, statement) _. Ends-guard Q _ _ v λ _. h) w
