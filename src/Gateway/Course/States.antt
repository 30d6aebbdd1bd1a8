-- ===== src/Gateway/Course/States.antt =====
-- The state that each row of src/gateway/journal/mod.rs spells when it is written.
use kapsel.Base.{true, Option, none, some, ◌≡◌, refl, nat_eq, arith}
use kapsel.Gateway.Types.{OperationState, requested, apply_started, state_as_sql, AuthorizedRequest}
use kapsel.Gateway.Types.Spelling.{state_from_sql-as_sql}
use kapsel.Gateway.Facts.{ApplyOutcome, ValidatedTargetIdentity}
use kapsel.Gateway.Journal.Record
use kapsel.Gateway.Journal.Record.{
  Column, Record, Value, text_value, set, set_optional, index, get_text, empty,
}
use kapsel.Gateway.Journal.Steps.{requested_record, started_row, outcome_row}
use kapsel.Gateway.Rounds.{Spells}
use kapsel.Gateway.Rounds.Columns.{text_value-get_text}
use kapsel.Gateway.Rounds.Marks.{
  HasState, is_not_state, set-HasState, set_optional-HasState, set_state-HasState,
}

pub HasState-Spells : (state : OperationState) (r : Record) → HasState state r → Spells r state
HasState-Spells state r h =
    let e = text_value-get_text r Record.state (state_as_sql state) h in
    rw e (state_from_sql-as_sql state)

pub started_row-HasState :
    (target : ValidatedTargetIdentity) (r : Record) → HasState apply_started (started_row target r)
unfolding started_row set index
started_row-HasState target r = refl

pub requested_record-HasState : (a : AuthorizedRequest) → HasState requested (requested_record a)
unfolding requested_record index
requested_record-HasState a =
    search (set_optional-HasState, set-HasState, set_state-HasState) depth 20

-- The state column is that of another row.
abbrev KeepsState : Record → Record → Type 0
KeepsState r s = s.values Record.state ≡ r.values Record.state

set-KeepsState :
    (r s : Record) (field : Column) (value : Value)
    → is_not_state field ≡ true
    → KeepsState r s
    → KeepsState r (set field value s)
unfolding set index
set-KeepsState r s field value h k = ground (arith, k)

set_optional-KeepsState :
    {A : Type 0} (r s : Record) (field : Column) (into : A → Value) (value : Option A)
    → is_not_state field ≡ true
    → KeepsState r s
    → KeepsState r (set_optional field into value s)
unfolding set_optional
set_optional-KeepsState r s field into none h k = set-KeepsState r s field Record.null h k
set_optional-KeepsState r s field into (some value) h k = set-KeepsState r s field (into value) h k

outcome_row-KeepsState :
    (outcome : ApplyOutcome) (r : Record) → KeepsState r (outcome_row outcome r)
unfolding outcome_row index
outcome_row-KeepsState outcome r =
    set_optional-KeepsState r _ Record.apply_resource_version _ outcome.resource_version refl (
      set_optional-KeepsState r _ Record.requested_generation _ outcome.requested_generation refl
        (set-KeepsState r r Record.apply_accepted _ refl refl))

pub outcome_row-Spells :
    (outcome : ApplyOutcome) (r : Record) (state : OperationState)
    → Spells r state
    → Spells (outcome_row outcome r) state
unfolding get_text
outcome_row-Spells outcome r state h = let e = outcome_row-KeepsState outcome r in rw e h
