-- ===== src/Gateway/Course/History.antt =====
-- Any history of the entries of src/gateway/mod.rs refines the course of each operation.
use kapsel.Base.{List, Text, some, ◌≡◌}
use kapsel.Gateway.Types.{OperationState, AuthorizedRequest, requested}
use kapsel.Gateway.Journal.Record
use kapsel.Gateway.Journal.Record.{Record, text_value}
use kapsel.Gateway.Journal.Phases.{LoadedOperation, loaded_state, DispatchPermission}
use kapsel.Gateway.Journal.Store.{Env, World, replace, tick}
use kapsel.Gateway.Journal.Steps.{insert_requested, requested_record}
use kapsel.Gateway.Reconcile.{apply}
use kapsel.Gateway.Dispatch.{Holds}
use kapsel.Gateway.Dispatch.Written.{requested_record-id}
use kapsel.Gateway.Dispatch.Moves.{Moves}
use kapsel.Gateway.Dispatch.Lifecycle.{Bound}
use kapsel.Gateway.Rounds.{Spells}
use kapsel.Gateway.Rounds.Columns.{decode-Spells}
use kapsel.Gateway.Passing.{IsPreorder}
use kapsel.Gateway.Passing.Pass.{apply-Moves}
use kapsel.Gateway.Passing.Writing.{IsWriting, IsWriting-IsPassing}
use kapsel.Gateway.Passing.Entry.{Pass, history, history-Moves}
use kapsel.Gateway.Course.{
  Step, standing, Reaches, stays, Reaches-trans, Follows, IsTerminal, Reaches-IsTerminal,
}
use kapsel.Gateway.Course.States.{HasState-Spells, requested_record-HasState}
use kapsel.Gateway.Course.Writes.{Reads-Follows}
use kapsel.Gateway.Course.Rows.{updating-Follows, inserting-Follows}

Follows-IsPreorder : IsPreorder Follows
unfolding Follows
Follows-IsPreorder = record {
  trans =
      λ u v w f g id. Reaches-trans (standing id u) (standing id v) (standing id w) (f id) (g id);
  reads = λ v w r id. Reads-Follows v w r id;
}

insert_requested-Follows : (e : Env) (a : AuthorizedRequest) → Moves Follows (insert_requested e a)
unfolding Moves insert_requested
insert_requested-Follows e a w =
    inserting-Follows e a.request.operation_id w (requested_record a) (requested_record-id a)
      (HasState-Spells requested (requested_record a) (requested_record-HasState a))

apply-Follows : (e : Env) (permission : DispatchPermission) → Moves Follows (apply e permission)
unfolding tick Follows standing
apply-Follows = apply-Moves Follows (λ w sent id. stays)

guarded-Follows :
    (e : Env) (id : Text) (expected : LoadedOperation) (w v : World) (r next : Record)
    (t : OperationState)
    → Bound e id expected w v r
    → next.values Record.operation_id ≡ r.values Record.operation_id
    → (Spells r (loaded_state expected) → Spells next t)
    → Step (loaded_state expected) t
    → Holds (Follows v) (λ _ u. Follows v u) (replace e (some r) next v)
guarded-Follows e id expected w v r next t b same spells step =
    let before = decode-Spells e expected r b.decoded in
    updating-Follows e id v r next (loaded_state expected) t b.id (cc (same, b.id)) b.found before
      (spells before) step

Follows-IsWriting : IsWriting Follows
Follows-IsWriting = record {
  order = Follows-IsPreorder;
  inserts = insert_requested-Follows;
  applies = apply-Follows;
  writes = guarded-Follows;
}

-- After any history of reconciliation passes, submissions and restarts, with any replies, failures, lost
-- commits and lost acknowledgements, what is retained of each operation is reached from what was
-- retained of it before by moves of its course only.
pub history-Reaches :
    (passes : List Pass) (w : World) (id : Text)
    → Reaches (standing id w) (standing id (history passes w))
unfolding Follows
history-Reaches passes w =
    history-Moves Follows (IsWriting-IsPassing Follows Follows-IsWriting) passes w

-- An operation that is finalized or not attempted stays so through any history.
pub history-IsTerminal :
    (passes : List Pass) (w : World) (id : Text)
    → IsTerminal (standing id w)
    → standing id (history passes w) ≡ standing id w
history-IsTerminal passes w id h =
    Reaches-IsTerminal (standing id w) (standing id (history passes w)) h
      (history-Reaches passes w id)
