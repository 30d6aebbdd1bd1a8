-- ===== src/Gateway/Dispatch/Written.antt =====
-- The rows that the writes of src/gateway/journal/mod.rs build: they keep the identity, and only the
-- start of an attempt sets the attempt flag.
use kapsel.Base.{
  pos, Bool, true, false, Option, none, some, ◌≡◌, ◌≤◌, ◌==◌, nat_eq, if◌then◌else◌, refl, arith, ℤ,
}
use kapsel.Gateway.Types.{AuthorizedRequest, TargetRejection, OperationResult}
use kapsel.Gateway.Facts.{ApplyOutcome, ReceiverObservation, ValidatedTargetIdentity}
use kapsel.Gateway.Journal.Record
use kapsel.Gateway.Journal.Record.{
  Column, Record, Value, integer, text_value, set, set_optional, index, value_eq, empty,
}
use kapsel.Gateway.Journal.Phases.{FrozenReceipt}
use kapsel.Gateway.Journal.Steps.{
  requested_record, authorized_row, rejected_row, stale_row, started_row, outcome_row, observed_row,
  finalized_row, approved_uid_of, approved_version_of,
}
use kapsel.Gateway.Dispatch.{attempted}

-- The identity and the attempt flag are those of another row.
pub record Keeps (r s : Record) : Type 0 where
  pub id : s.values Record.operation_id ≡ r.values Record.operation_id
  pub flag : s.values Record.apply_attempted ≡ r.values Record.apply_attempted

abbrev pub is_other : Column → Bool
is_other field =
    if index Record.operation_id == index field
    then false
    else if index Record.apply_attempted == index field
    then false
    else true

Keeps-refl : (r : Record) → Keeps r r
Keeps-refl r = record { id = refl; flag = refl }

Keeps-set :
    (r s : Record) (field : Column) (value : Value)
    → is_other field ≡ true
    → Keeps r s
    → Keeps r (set field value s)
unfolding set index
Keeps-set r s field value h k = record { id = ground (arith, k.id); flag = ground (arith, k.flag) }

Keeps-set_optional :
    {A : Type 0} (r s : Record) (field : Column) (into : A → Value) (value : Option A)
    → is_other field ≡ true
    → Keeps r s
    → Keeps r (set_optional field into value s)
unfolding set_optional
Keeps-set_optional r s field into none h k = Keeps-set r s field Record.null h k
Keeps-set_optional r s field into (some value) h k = Keeps-set r s field (into value) h k

pub authorized_row-Keeps : (a : AuthorizedRequest) (r : Record) → Keeps r (authorized_row a r)
unfolding authorized_row set index
authorized_row-Keeps a r = record { id = refl; flag = refl }

pub rejected_row-Keeps :
    (rejection : TargetRejection) (r : Record) → Keeps r (rejected_row rejection r)
unfolding rejected_row set index
rejected_row-Keeps rejection r = record { id = refl; flag = refl }

pub stale_row-Keeps :
    (observed : ValidatedTargetIdentity) (r : Record) → Keeps r (stale_row observed r)
unfolding stale_row set index
stale_row-Keeps observed r = record { id = refl; flag = refl }

pub finalized_row-Keeps : (kept : FrozenReceipt) (r : Record) → Keeps r (finalized_row kept r)
unfolding finalized_row set index
finalized_row-Keeps kept r = record { id = refl; flag = refl }

pub outcome_row-Keeps : (outcome : ApplyOutcome) (r : Record) → Keeps r (outcome_row outcome r)
unfolding outcome_row index
outcome_row-Keeps outcome r =
    Keeps-set_optional r _ Record.apply_resource_version _ outcome.resource_version refl (
      Keeps-set_optional r _ Record.requested_generation _ outcome.requested_generation refl
        (Keeps-set r r Record.apply_accepted _ refl (Keeps-refl r)))

pub observed_row-Keeps :
    (o : ReceiverObservation) (result : OperationResult) (generation : Option ℤ) (r : Record)
    → Keeps r (observed_row o result generation r)
unfolding observed_row index
observed_row-Keeps o result generation r =
    Keeps-set_optional r _ Record.rollout_condition_reason _ o.rollout_condition_reason refl (
      Keeps-set_optional r _ Record.rollout_condition_status _ o.rollout_condition_status refl (
        Keeps-set_optional r _ Record.rollout_condition_type _ o.rollout_condition_type refl (
          Keeps-set_optional r _ Record.requested_generation _ generation refl (
            Keeps-set r _ Record.result _ refl (
              Keeps-set_optional r _ Record.unavailable_replicas _ o.unavailable_replicas refl (
                Keeps-set_optional r _ Record.available_replicas _ o.available_replicas refl (
                  Keeps-set_optional r _ Record.updated_replicas _ o.updated_replicas refl (
                    Keeps-set_optional r _ Record.desired_replicas _ o.desired_replicas refl (
                      Keeps-set_optional r _ Record.receiver_resource_version _ o.resource_version
                        refl
                        (Keeps-set_optional r _ Record.observed_generation _ o.observed_generation
                          refl
                          (Keeps-set_optional r _ Record.current_generation _ o.current_generation
                            refl
                            (Keeps-set_optional r _ Record.receiver_operation_marker _
                              o.operation_marker refl
                              (Keeps-set_optional r _ Record.receiver_image _ o.image refl (
                                Keeps-set_optional r _ Record.receiver_uid _ o.deployment_uid refl
                                  (Keeps-set r r Record.state _ refl (Keeps-refl r))))))))))))))))

-- The one write that sets the flag.
pub started_row-values :
    (target : ValidatedTargetIdentity) (r : Record)
    → ((started_row target r).values Record.operation_id ≡ r.values Record.operation_id)
      × ((started_row target r).values Record.apply_attempted ≡ integer (pos 1))
unfolding started_row set index
started_row-values target r = (refl, refl)

pub started_row-attempted :
    (target : ValidatedTargetIdentity) (r : Record) → attempted (started_row target r) ≡ 1
started_row-attempted target r =
    let (_, e) = started_row-values target r in rw e (rw (value_eq.beq_refl (integer (pos 1))) refl)

pub requested_record-id :
    (a : AuthorizedRequest)
    → (requested_record a).values Record.operation_id ≡ text_value a.request.operation_id
unfolding requested_record set index empty
requested_record-id a =
    let k =
      Keeps-set_optional (empty a.request.operation_id) _ Record.approved_resource_version
        text_value (approved_version_of a.authorization.authorization.approved_target) refl
        (Keeps-set_optional (empty a.request.operation_id) _ Record.approved_uid text_value
          (approved_uid_of a.authorization.authorization.approved_target) refl
          (record { id = refl; flag = refl })) in
    k.id

pub Keeps-attempted : (r s : Record) → Keeps r s → attempted r ≤ attempted s
Keeps-attempted r s k = rw k.flag (omega arith)
