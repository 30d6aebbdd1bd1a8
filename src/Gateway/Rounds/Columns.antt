-- ===== src/Gateway/Rounds/Columns.antt =====
-- The row that a conditional write of src/gateway/journal/records.rs leaves, and the state it spells.
use kapsel.Base.{◌>>=◌ as result_bind}
use kapsel.Base.{
  true, Option, none, some, List, Text, ok, err, ◌≡◌, refl, arith, Bool-cases, inl, inr, require,
  ap, Result, suc,
}
use kapsel.Gateway.Types.{G, OperationState, state_from_sql, state_as_sql, invalid_transition}
use kapsel.Gateway.Types.Spelling.{state_from_sql-as_sql}
use kapsel.Gateway.Journal.Record
use kapsel.Gateway.Journal.Record.{Record, Value, text_value, get_text, same_values, value_eq}
use kapsel.Gateway.Journal.Phases.{LoadedOperation, loaded_state, request_facts}
use kapsel.Gateway.Journal.Rows.{decode}
use kapsel.Gateway.Journal.Store.{
  Env, World, find, ◌>>=◌, ◌>>◌, lift, continue, read, replace, commit, commit_as, Commit,
  committed, lost, acknowledgement_lost, written_rows, same_retained, changed_row, update_rows,
  update_changed_columns,
}
use kapsel.Gateway.Dispatch.{Holds}
use kapsel.Gateway.Dispatch.Rows.{find-has_id, has_id_sound, find-update_rows, changed_row-values}
use kapsel.Gateway.Dispatch.Replace.{Reads, read-Holds, update_changed_columns-eq-ok}
use kapsel.Gateway.Dispatch.Decoded.{decode-eq-ok, decode-request_id}
use kapsel.Gateway.Rounds.{rank, Spells, spelling, Below, Ends, Ends-continue}

-- The retained row of an identity is in a state.
pub record InState (id : Text) (state : OperationState) (w : World) : Type 0 where
  pub row : Record
  pub found : find id w.rows ≡ some row
  pub value : row.values Record.state ≡ text_value (state_as_sql state)

pub text_value-get_text :
    (r : Record) (column : Record.Column) (t : Text)
    → r.values column ≡ text_value t
    → get_text r column ≡ ok t
unfolding get_text
text_value-get_text r column t h = rw h refl

ok_state : {s t : OperationState} → ◌≡◌ {A = G OperationState} (ok s) (ok t) → s ≡ t
ok_state h = cc h

ok_text : {s t : Text} → ◌≡◌ {A = G Text} (ok s) (ok t) → s ≡ t
ok_text h = cc h

spelling_bind :
    (out : G Text) (state : OperationState)
    → result_bind out state_from_sql ≡ ok state
    → spelling out ≡ ok state
spelling_bind (ok t) state h = h
spelling_bind (err error) state h = cc h

pub some_record : {r s : Record} → ◌≡◌ {A = Option Record} (some r) (some s) → r ≡ s
some_record h = cc h

pub InState-Below :
    (id : Text) (state : OperationState) (w : World) → InState id state w → Below id (rank state) w
InState-Below id state w h r other found spells =
    let same : r ≡ h.row = some_record (cc (found, h.found)) in
    let value : r.values Record.state ≡ text_value (state_as_sql state) =
      cc (h.value, ap (λ (x : Record). x.values Record.state) same) in
    let reads = text_value-get_text r Record.state (state_as_sql state) value in
    let spelled : state_from_sql (state_as_sql state) ≡ ok other = rw (reads, Spells) at spells in
    let e : state ≡ other = ok_state (cc (spelled, state_from_sql-as_sql state)) in
    rw e (omega arith)

-- What a decoded row spells is the state of its phase.
pub decode-Spells :
    (e : Env) (l : LoadedOperation) (r : Record)
    → decode e.crypto r ≡ ok l
    → Spells r (loaded_state l)
decode-Spells e l r decoded =
    let (_, spelled) = decode-eq-ok e.crypto r l decoded in
    spelling_bind (get_text r Record.state) (loaded_state l) spelled

pub decode-Below :
    (e : Env) (id : Text) (l : LoadedOperation) (r : Record) (w : World)
    → find id w.rows ≡ some r
    → decode e.crypto r ≡ ok l
    → Below id (rank (loaded_state l)) w
decode-Below e id l r w found decoded other state found' spells =
    let same : other ≡ r = some_record (cc (found, found')) in
    let reads = decode-Spells e l r decoded in
    let spells' : spelling (get_text r Record.state) ≡ ok state = rw same at spells in
    let e : loaded_state l ≡ state = ok_state (cc (reads, spells')) in rw e (omega arith)

-- The identity of a decoded row's request is the row's.
pub decoded-id :
    (e : Env) (id : Text) (l : LoadedOperation) (r : Record) (w : World)
    → find id w.rows ≡ some r
    → decode e.crypto r ≡ ok l
    → (request_facts l).request.operation_id ≡ id
decoded-id e id l r w found decoded =
    let key = has_id_sound id r (find-has_id id w.rows r found) in
    ok_text (
      cc (decode-request_id e.crypto r l decoded, text_value-get_text r Record.operation_id id key))

pub Holds-Ends :
    {E A : Type 0} (P : World → Type 0) (Q : A → World → Type 0) (out : Result E A × World)
    → Holds P Q out
    → Ends Q out
Holds-Ends P Q (ok value, w) h = h
Holds-Ends P Q (err _, w) h = tt

same_values-state :
    (r s : Record) → same_values r s ≡ true → r.values Record.state ≡ s.values Record.state
unfolding same_values
same_values-state r s h =
    value_eq.beq_sound (r.values Record.state) (s.values Record.state) (ground arith)

module _ (e : Env) (id : Text) (previous next : Record) (state : OperationState)
    (hp : previous.values Record.operation_id ≡ text_value id)
    (hn : next.values Record.operation_id ≡ text_value id)
    (hx : next.values Record.state ≡ text_value (state_as_sql state)) where
  updated-InState :
      (r : Record) (w : World)
      → find id w.rows ≡ some r
      → same_values r previous ≡ true
      → InState id state
          (record w { rows = update_rows id previous next w.rows; clock = suc w.clock })
  updated-InState r w hf same =
      let f = find-update_rows id id previous next w.rows hp hn (some r) hf in
      let value =
        changed_row-values previous next r Record.state (same_values-state r previous same) in
      record {
        row = changed_row previous next r;
        found = rw f (rw (find-has_id id w.rows r hf) refl);
        value = cc (value, hx);
      }

  commit-InState :
      (rows : List Record) (w : World)
      → InState id state (record w { rows = rows; clock = suc w.clock })
      → Ends (λ _ v. InState id state v) (commit e rows w)
  unfolding commit commit_as
  commit-InState rows w h = commit_case (e.commits w.clock)
    where
      commit_case : (c : Commit) → Ends (λ _ v. InState id state v) (commit_as c rows w)
      commit_case committed = h
      commit_case lost = tt
      commit_case acknowledgement_lost = tt

  written-InState :
      (retained : Option Record) (w : World)
      → find id w.rows ≡ retained
      → Ends
          (λ _ v. InState id state v)
          ((lift (require (same_retained retained (some previous)) invalid_transition)
              >> ((λ v. (written_rows (some previous) next id v, v)) >>= λ rows. commit e rows))
            w)
  unfolding written_rows ◌>>=◌ ◌>>◌ lift
  written-InState none w hf = tt
  written-InState (some r) w hf = elim (Bool-cases (same_values r previous)) [
    | inr q ↦ rw q tt
    | inl p ↦ rw p (updated_case p (update_changed_columns previous next id w.rows) refl)
  ]
    where
      updated_case :
          same_values r previous ≡ true
          → (out : G (List Record)) → update_changed_columns previous next id w.rows ≡ out
          → Ends (λ _ v. InState id state v) (continue (out, w) (λ rows. commit e rows))
      updated_case p (err error) h = tt
      updated_case p (ok rows) h =
          let e' = update_changed_columns-eq-ok previous next id w.rows rows h in
          commit-InState rows w (rw e' (updated-InState r w hf p))

  -- A conditional write that succeeds leaves the row in the state of the new one.
  pub replace-InState :
      (w : World) → Ends (λ _ v. InState id state v) (replace e (some previous) next w)
  unfolding replace get_text ◌>>=◌ ◌>>◌ lift
  replace-InState w = rw hn (
      Ends-continue (λ found v. Reads w v × (found ≡ find id w.rows)) (λ _ v. InState id state v)
        (read e id w) _
        (Holds-Ends (Reads w) (λ found v. Reads w v × (found ≡ find id w.rows)) (read e id w)
          (read-Holds e id w))
        (λ retained v (r, h). written-InState retained v (cc (r.rows, h))))
