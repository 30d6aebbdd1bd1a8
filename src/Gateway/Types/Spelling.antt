-- ===== src/Gateway/Types/Spelling.antt =====
-- Reading back what was written to the journal's text columns.
use kapsel.Base.{◌≡◌, refl, ok}
use kapsel.Gateway.Types.{
  OperationState, OperationResult, state_as_sql, state_from_sql, result_as_sql, result_from_sql,
  requested, succeeded,
}

-- Reading back the spelling of an operation state gives the state.
pub state_from_sql-as_sql : (s : OperationState) → state_from_sql (state_as_sql s) ≡ ok s
unfolding state_from_sql state_as_sql
state_from_sql-as_sql requested = refl
state_from_sql-as_sql _ = refl

-- Reading back the spelling of a result gives the result.
pub result_from_sql-as_sql : (s : OperationResult) → result_from_sql (result_as_sql s) ≡ ok s
unfolding result_from_sql result_as_sql
result_from_sql-as_sql succeeded = refl
result_from_sql-as_sql _ = refl
