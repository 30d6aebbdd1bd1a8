-- ===== src/Gateway/Dispatch/Transitions.antt =====
-- The writes of src/gateway/journal/mod.rs that move an operation from phase to phase: they lose no
-- attempt, and the start of an attempt turns an operation without one into one with one.
use kapsel.Base.{
  ℕ, Bool, true, false, Option, none, some, Text, ok, err, ◌≡◌, ◌≤◌, arith, if◌then◌else◌, ◌||◌,
  ◌!=◌, list_eq, nat_eq,
}
use kapsel.Authority.Grant.{ApprovedTarget}
use kapsel.Gateway.Types.{G, AuthorizedRequest, TargetRejection}
use kapsel.Gateway.Facts.{ApplyOutcome, ReceiverObservation, ValidatedTargetIdentity}
use kapsel.Gateway.Journal.Record
use kapsel.Gateway.Journal.Record.{Record, text_value}
use kapsel.Gateway.Journal.Phases.{
  FrozenReceipt, LoadedOperation, requested_phase, authorized_phase, apply_started_phase,
  receiver_observed_phase, RequestedOperation, AuthorizedOperation, ApplyStartedOperation,
  ReceiverObservedOperation, DispatchPermission, authorized_request, loaded_state,
}
use kapsel.Gateway.Journal.Rows.{decode}
use kapsel.Gateway.Journal.Store.{Env, World, Act, ◌>>=◌, ◌>>◌, lift, return, replace}
use kapsel.Gateway.Journal.Writes.{bound_record}
use kapsel.Gateway.Journal.Steps.{
  requested_record, authorized_row, rejected_row, stale_row, started_row, outcome_row, observed_row,
  finalized_row, insert_requested, mark_authorized, mark_not_attempted, mark_stale_approval,
  mark_apply_started, start, begin_at, begin_attempt, record_apply_outcome, freeze_observation,
  commit_receipt, approved_identity,
}
use kapsel.Gateway.Dispatch.{
  Grows, Grows-refl, Grows-trans, Holds, continue-Holds, Holds-weaken, attempted, attempts,
}
use kapsel.Gateway.Dispatch.Decoded.{decode-eq-ok, is_attempted}
use kapsel.Gateway.Dispatch.Written.{
  Keeps, Keeps-attempted, authorized_row-Keeps, rejected_row-Keeps, stale_row-Keeps,
  outcome_row-Keeps, observed_row-Keeps, finalized_row-Keeps, started_row-values,
  started_row-attempted, requested_record-id,
}
use kapsel.Gateway.Dispatch.Replace.{Reads, Reads-Grows, replace-Holds, insert-Holds}
use kapsel.Gateway.Dispatch.Moves.{
  Moves, Growing, Growing-lift, Growing-bind, Growing-then, Reading-Growing,
}
use kapsel.Gateway.Dispatch.Lifecycle.{Bound, bound_record-Holds, existing_submission-Reading}

lift-bind-Holds :
    {A B : Type 0} (out : G A) (k : A → Act B) (v : World)
    → ((value : A) → Holds (Grows v) (λ _ u. Grows v u) (k value v))
    → Holds (Grows v) (λ _ u. Grows v u) ((lift out >>= k) v)
unfolding lift ◌>>=◌
lift-bind-Holds (ok value) k v h = h value
lift-bind-Holds (err error) k v h = Grows-refl v

lift-then-Holds :
    {B : Type 0} (out : G (Unit {0})) (k : Act B) (v : World)
    → Holds (Grows v) (λ _ u. Grows v u) (k v)
    → Holds (Grows v) (λ _ u. Grows v u) ((lift out >> k) v)
unfolding lift ◌>>◌
lift-then-Holds (ok value) k v h = h
lift-then-Holds (err error) k v h = Grows-refl v

module _ (e : Env) where
  -- A guarded write: what its row keeps, and the attempts that it leaves for its operation.
  bound_replace-Holds :
      (id : Text) (expected : LoadedOperation) (f : Record → Record) (n : ℕ)
      → ((r : Record)
          → decode e.crypto r ≡ ok expected
          → ((f r).values Record.operation_id ≡ r.values Record.operation_id)
            × (attempted r ≤ attempted (f r))
            × (attempted r ≡ n))
      → (w : World)
      → Holds
          (Grows w)
          (λ _ v.
            Grows w v
            × (attempts id w.rows ≡ n)
            × ((r : Record) × (attempts id v.rows ≡ attempted (f r))))
          ((bound_record e id expected >>= λ r. replace e (some r) (f r)) w)
  unfolding ◌>>=◌ attempts
  bound_replace-Holds id expected f n keeps w =
      continue-Holds (Grows w) (λ r v. Bound e id expected w v r) _ (bound_record e id expected w) _
        (Holds-weaken (Reads w) (Grows w) (λ r v. Bound e id expected w v r)
          (λ r v. Bound e id expected w v r) (bound_record e id expected w) (Reads-Grows w)
          (λ _ _ b. b) (bound_record-Holds e id expected w))
        (λ r v b.
          let (same, le, count) = keeps r b.decoded in
          let grows = Reads-Grows w v b.reads in
          let before : attempts id w.rows ≡ n = rw (← b.reads.rows) (rw b.found count) in
          Holds-weaken (Grows v) (Grows w)
            (λ _ u. Grows v u × (attempts id u.rows ≡ attempted (f r))) _
            (replace e (some r) (f r) v) (λ u. Grows-trans w v u grows)
            (λ _ u (g, a). (Grows-trans w v u grows g, before, (r, a)))
            (replace-Holds e id (f r) r v b.id (rw same b.id) le))

  -- A guarded write of a row that keeps its identity and flag, with checks before the write.
  checked-Growing :
      (id : Text) (expected : LoadedOperation) (f : Record → Record) (k : Record → Act (Unit {0}))
      → ((r : Record) → Keeps r (f r))
      → ((r : Record) (v : World)
          → Holds (Grows v) (λ _ u. Grows v u) (replace e (some r) (f r) v)
          → Holds (Grows v) (λ _ u. Grows v u) (k r v))
      → Growing (bound_record e id expected >>= k)
  unfolding Moves ◌>>=◌
  checked-Growing id expected f k keeps before w =
      continue-Holds (Grows w) (λ r v. Bound e id expected w v r) _ (bound_record e id expected w) _
        (Holds-weaken (Reads w) (Grows w) (λ r v. Bound e id expected w v r)
          (λ r v. Bound e id expected w v r) (bound_record e id expected w) (Reads-Grows w)
          (λ _ _ b. b) (bound_record-Holds e id expected w))
        (λ r v b.
          let grows = Reads-Grows w v b.reads in
          Holds-weaken (Grows v) (Grows w) (λ _ u. Grows v u) (λ _ u. Grows w u) (k r v)
            (λ u. Grows-trans w v u grows) (λ _ u. Grows-trans w v u grows)
            (before r v (
              Holds-weaken (Grows v) (Grows v)
                (λ _ u. Grows v u × (attempts id u.rows ≡ attempted (f r))) (λ _ u. Grows v u)
                (replace e (some r) (f r) v) (λ _ g. g) (λ _ _ (g, _). g)
                (replace-Holds e id (f r) r v b.id (rw (keeps r).id b.id)
                  (Keeps-attempted r (f r) (keeps r))))))

  guarded-Growing :
      (id : Text) (expected : LoadedOperation) (f : Record → Record)
      → ((r : Record) → Keeps r (f r))
      → Growing (bound_record e id expected >>= λ r. replace e (some r) (f r))
  guarded-Growing id expected f keeps =
      checked-Growing id expected f (λ r. replace e (some r) (f r)) keeps (λ r v h. h)

  pub insert_requested-Growing : (a : AuthorizedRequest) → Growing (insert_requested e a)
  unfolding insert_requested Moves
  insert_requested-Growing a w =
      Holds-weaken (Grows w) (Grows w) _ (λ _ v. Grows w v) (replace e none (requested_record a) w)
        (λ _ g. g) (λ _ _ (g, _). g)
        (insert-Holds e a.request.operation_id (requested_record a) w (requested_record-id a))

  pub mark_authorized-Growing :
      (operation : RequestedOperation) (a : AuthorizedRequest)
      → Growing (mark_authorized e operation a)
  unfolding mark_authorized
  mark_authorized-Growing operation a = Growing-then _ _ (Growing-lift _) (
      Growing-bind _ _ (Reading-Growing _ (existing_submission-Reading e a)) λ existing.
        Growing-then _ _ (Growing-lift _) (
          guarded-Growing _ (requested_phase operation) (authorized_row a)
            (authorized_row-Keeps a)))

  pub mark_not_attempted-Growing :
      (operation : AuthorizedOperation) (rejection : TargetRejection)
      → Growing (mark_not_attempted e operation rejection)
  unfolding mark_not_attempted
  mark_not_attempted-Growing operation rejection =
      guarded-Growing _ (authorized_phase operation) (rejected_row rejection)
        (rejected_row-Keeps rejection)

  pub mark_stale_approval-Growing :
      (operation : AuthorizedOperation) (observed : ValidatedTargetIdentity)
      → Growing (mark_stale_approval e operation observed)
  unfolding mark_stale_approval
  mark_stale_approval-Growing operation observed =
      guarded-Growing _ (authorized_phase operation) (stale_row observed) (stale_row-Keeps observed)

  pub record_apply_outcome-Growing :
      (operation : ApplyStartedOperation) (outcome : ApplyOutcome)
      → Growing (record_apply_outcome e operation outcome)
  unfolding record_apply_outcome
  record_apply_outcome-Growing operation outcome = Growing-then _ _ (Growing-lift _) (
      checked-Growing _ (apply_started_phase operation) (outcome_row outcome) _
        (outcome_row-Keeps outcome) (λ r v h. lift-bind-Holds _ _ v λ uid. lift-then-Holds _ _ v h))

  pub commit_receipt-Growing :
      (operation : ReceiverObservedOperation) (kept : FrozenReceipt)
      → Growing (commit_receipt e operation kept)
  unfolding commit_receipt
  commit_receipt-Growing operation kept = Growing-then _ _ (Growing-lift _) (
      checked-Growing _ (receiver_observed_phase operation) (finalized_row kept) _
        (finalized_row-Keeps kept)
        (λ r v h. lift-bind-Holds _ _ v λ (key_id, statement). lift-then-Holds _ _ v h))

  pub freeze_observation-Growing :
      (operation : ApplyStartedOperation) (observation : ReceiverObservation)
      → Growing (freeze_observation e operation observation)
  unfolding freeze_observation
  freeze_observation-Growing operation observation = Growing-then _ _ (Growing-lift _) (
      guarded-Growing _ (apply_started_phase operation) (observed_row observation _ _)
        (observed_row-Keeps observation _ _))

  -- What a permission to send has behind it.
  pub record Fresh (w v : World) (permission : DispatchPermission) : Type 0 where
    pub grows : Grows w v
    pub before : attempts permission.request.operation_id w.rows ≡ 0
    pub after : attempts permission.request.operation_id v.rows ≡ 1

  abbrev pub Begun : World → Option DispatchPermission → World → Type 0
  Begun w none v = Grows w v
  Begun w (some permission) v = Fresh w v permission

  start-Holds :
      (operation : AuthorizedOperation) (target : ValidatedTargetIdentity) (w : World)
      → Holds (Grows w) (λ permission v. Begun w permission v) (start e operation target w)
  unfolding start mark_apply_started ◌>>=◌ ◌>>◌ return loaded_state is_attempted
  start-Holds operation target w =
      continue-Holds (Grows w)
        (λ _ v.
          Grows w v
          × (attempts (authorized_request operation).operation_id w.rows ≡ 0)
          × ((r : Record) × (attempts (authorized_request operation).operation_id v.rows
                ≡ attempted (started_row target r))))
        (λ permission v. Begun w permission v) (mark_apply_started e operation target w) _
        (bound_replace-Holds (authorized_request operation).operation_id
          (authorized_phase operation) (started_row target) 0
          (λ r h.
            let (counted, _) = decode-eq-ok e.crypto r (authorized_phase operation) h in
            let count : attempted r ≡ 0 = counted in
            let (same, _) = started_row-values target r in
            let one = started_row-attempted target r in (same, omega (arith, one, count), count))
          w)
        (λ _ v (g, before, (r, after)). record {
          grows = g;
          before = before;
          after = rw after (started_row-attempted target r);
        })

  stale-Holds :
      (operation : AuthorizedOperation) (observed : ValidatedTargetIdentity) (w : World)
      → Holds
          (Grows w)
          (λ permission v. Begun w permission v)
          ((mark_stale_approval e operation observed >> return none) w)
  unfolding Moves ◌>>◌ return
  stale-Holds operation observed w =
      continue-Holds (Grows w) (λ _ v. Grows w v) (λ permission v. Begun w permission v)
        (mark_stale_approval e operation observed w) _
        (mark_stale_approval-Growing operation observed w) (λ _ v g. g)

  approved-Holds :
      (operation : AuthorizedOperation) (out : G ValidatedTargetIdentity) (w : World)
      → Holds
          (Grows w)
          (λ permission v. Begun w permission v)
          ((lift out >>= λ target. start e operation target) w)
  unfolding ◌>>=◌ lift
  approved-Holds operation (err error) w = Grows-refl w
  approved-Holds operation (ok target) w = start-Holds operation target w

  begin_at-Holds :
      (operation : AuthorizedOperation) (observed : ValidatedTargetIdentity)
      (approved : Option ApprovedTarget) (w : World)
      → Holds
          (Grows w)
          (λ permission v. Begun w permission v)
          (begin_at e operation observed approved w)
  unfolding begin_at
  begin_at-Holds operation observed none w = start-Holds operation observed w
  begin_at-Holds operation observed (some approved) w = begin_case (
      observed.deployment_uid != approved.uid
      || observed.resource_version != approved.resource_version)
    where
      begin_case :
          (differs : Bool)
          → Holds
              (Grows w)
              (λ permission v. Begun w permission v)
              ((if differs
                  then mark_stale_approval e operation observed >> return none
                  else lift (approved_identity approved) >>= λ target. start e operation target)
                w)
      begin_case true = stale-Holds operation observed w
      begin_case false = approved-Holds operation (approved_identity approved) w

  Begun-after :
      (w v u : World) (permission : Option DispatchPermission)
      → Reads w v
      → Begun v permission u
      → Begun w permission u
  unfolding attempts
  Begun-after w v u none r b = Grows-trans w v u (Reads-Grows w v r) b
  Begun-after w v u (some permission) r b = record {
    grows = Grows-trans w v u (Reads-Grows w v r) b.grows;
    before = rw (← r.rows) b.before;
    after = b.after;
  }

  -- Whatever `begin_attempt` returns, no request was sent and no retained attempt was lost. When it
  -- returns a permission, no attempt was retained for the permission's operation before, and one is
  -- retained now.
  pub begin_attempt-Holds :
      (operation : AuthorizedOperation) (observed : ValidatedTargetIdentity) (w : World)
      → Holds
          (Grows w)
          (λ permission v. Begun w permission v)
          (begin_attempt e operation observed w)
  unfolding begin_attempt ◌>>=◌
  begin_attempt-Holds operation observed w =
      continue-Holds (Grows w)
        (λ r v.
          Bound e (authorized_request operation).operation_id (authorized_phase operation) w v r)
        (λ permission v. Begun w permission v)
        (bound_record e (authorized_request operation).operation_id (authorized_phase operation) w)
        _
        (Holds-weaken (Reads w) (Grows w)
          (λ r v.
            Bound e (authorized_request operation).operation_id (authorized_phase operation) w v r)
          (λ r v.
            Bound e (authorized_request operation).operation_id (authorized_phase operation) w v r)
          (bound_record e (authorized_request operation).operation_id (authorized_phase operation)
            w)
          (Reads-Grows w) (λ _ _ b. b)
          (bound_record-Holds e (authorized_request operation).operation_id
            (authorized_phase operation) w))
        (λ r v b.
          Holds-weaken (Grows v) (Grows w) (λ permission u. Begun v permission u)
            (λ permission u. Begun w permission u)
            (begin_at e operation observed operation.request.approved_target v)
            (λ u. Grows-trans w v u (Reads-Grows w v b.reads))
            (λ permission u. Begun-after w v u permission b.reads)
            (begin_at-Holds operation observed operation.request.approved_target v))
