-- ===== src/Gateway/Journal/Writes.antt =====
-- src/gateway/journal/mod.rs: the reads and the guarded writes of one operation's row.
use kapsel.Base.{
  Bool, true, false, not, Option, none, some, ◌&&◌, ◌||◌, Bytes, Text, ok, err, require, ok_or,
  ◌==◌, ◌!=◌, nat_eq, list_eq, option_eq, is_none, is_some,
}
use kapsel.Gateway.Types.{
  G, OperationState, requested, AuthorizedRequest, invalid_persisted_state, invalid_transition,
  operation_identity_conflict, state_from_sql, state_eq,
}
use kapsel.Gateway.Journal.Record
use kapsel.Gateway.Journal.Record.{
  Column, Record, Value, text_value, integer, blob, set, set_optional, empty, get_text,
  get_optional_text, get_optional_blob,
}
use kapsel.Gateway.Journal.Phases.{
  LoadedOperation, approved_eq, statement_eq, loaded_eq, request_eq, loaded_state, request_facts,
}
use kapsel.Gateway.Journal.Rows.{decode}
use kapsel.Gateway.Journal.Store.{Env, Act, ◌>>=◌, ◌>>◌, return, lift, read, read_collision}

-- What the ownership read keeps of the row.
record Binding : Type 0 where
  namespace : Text
  deployment : Text
  container : Text
  image : Text
  authorization_id : Option Text
  signer : Option Text
  digest : Option Text
  state : Text
  signed_grant : Option Bytes

abbrev bind_text : {A : Type 0} → G A → (A → G Binding) → G Binding
bind_text (ok value) f = f value
bind_text (err error) f = err error

unfoldable retained_binding : Record → G Binding
retained_binding r = bind_text (get_text r Record.namespace) λ namespace.
    bind_text (get_text r Record.deployment) λ deployment.
      bind_text (get_text r Record.container) λ container.
        bind_text (get_text r Record.immutable_image_digest) λ image.
          bind_text (get_optional_text r Record.authorization_id) λ authorization_id.
            bind_text (get_optional_text r Record.authorization_signer_key_id) λ signer.
              bind_text (get_optional_text r Record.authorization_grant_digest) λ digest.
                bind_text (get_text r Record.state) λ state.
                  bind_text (get_optional_blob r Record.signed_authorization_grant) λ signed_grant.
                    ok (record {
                      namespace = namespace;
                      deployment = deployment;
                      container = container;
                      image = image;
                      authorization_id = authorization_id;
                      signer = signer;
                      digest = digest;
                      state = state;
                      signed_grant = signed_grant;
                    })

abbrev same_request : AuthorizedRequest → Binding → Bytes → Bool
same_request a b grant =
    grant == a.authorization.signed_grant
    && b.namespace == a.request.namespace
    && b.deployment == a.request.deployment
    && b.container == a.request.container
    && b.image == a.request.immutable_image

abbrev same_authority : AuthorizedRequest → Binding → Bool
same_authority a b =
    b.authorization_id == some a.authorization.authorization.authorization_id
    && b.signer == some a.authorization.signer_key_id
    && b.digest == some a.authorization.grant_digest

module _ (e : Env) where
  abbrev pub decode_loaded : Option Record → Act LoadedOperation
  decode_loaded none = lift (err invalid_persisted_state)
  decode_loaded (some r) = lift (decode e.crypto r)

  -- The case of a row: its binding, then the second read with its checks.
  unfoldable pub retained_record : AuthorizedRequest → Record → Act LoadedOperation
  unfolding retained_binding
  retained_record a r = do
    b ← lift (retained_binding r)
    grant ← lift (ok_or b.signed_grant invalid_persisted_state)
    lift (require (same_request a b grant) operation_identity_conflict)
    state ← lift (state_from_sql b.state)
    lift (
        require
          (not (
            state == requested
            && is_none b.authorization_id
            && is_some a.authorization.authorization.approved_target))
          operation_identity_conflict)
    lift (
        require
          (not ((state != requested || is_some b.authorization_id) && not (same_authority a b)))
          operation_identity_conflict)
    again ← read e a.request.operation_id
    loaded ← decode_loaded again
    lift (
        require
          ((request_facts loaded).approved_target == a.authorization.authorization.approved_target)
          operation_identity_conflict)
    lift (require (loaded_state loaded == state) invalid_persisted_state)
    return loaded

  abbrev pub refuse_collision : Bool → Act (Option LoadedOperation)
  refuse_collision true = lift (err operation_identity_conflict)
  refuse_collision false = return none

  unfoldable pub authorized_record_case :
      AuthorizedRequest → Option Record → Act (Option LoadedOperation)
  unfolding retained_record
  authorized_record_case a none = read_collision e a.request.operation_id >>= refuse_collision
  authorized_record_case a (some r) = retained_record a r >>= λ loaded. return (some loaded)

  -- `authorized_record_on`, in one transaction.
  unfoldable pub authorized_operation : AuthorizedRequest → Act (Option LoadedOperation)
  authorized_operation a = read e a.request.operation_id >>= authorized_record_case a

  abbrev pub state_of : Option LoadedOperation → Option OperationState
  state_of none = none
  state_of (some loaded) = some (loaded_state loaded)

  unfoldable pub existing_submission : AuthorizedRequest → Act (Option OperationState)
  unfolding authorized_operation
  existing_submission a = authorized_operation a >>= λ found. return (state_of found)

  abbrev pub decode_found : Option Record → Act (Option LoadedOperation)
  decode_found none = return none
  decode_found (some r) = lift (decode e.crypto r) >>= λ loaded. return (some loaded)

  unfoldable pub operation : Text → Act (Option LoadedOperation)
  operation id = read e id >>= decode_found

  -- The row that decodes to the phase in hand, or a refusal.
  unfoldable pub bound_record : Text → LoadedOperation → Act Record
  bound_record id expected = do
    found ← read e id
    r ← lift (ok_or found invalid_transition)
    loaded ← lift (decode e.crypto r)
    lift (require (loaded == expected) invalid_transition)
    return r
