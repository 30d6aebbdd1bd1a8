-- ===== src/Gateway/Course/Rows.antt =====
-- The rows that a conditional write of src/gateway/journal/records.rs computes lead on from the retained
-- ones when its new row is one move further.
use kapsel.Base.{
  true, Option, none, some, List, ◌∷◌, Text, ok, ◌≡◌, inl, inr, refl, Bool-cases, ap, if◌then◌else◌,
}
use kapsel.Gateway.Types.{OperationState, requested}
use kapsel.Gateway.Journal.Record
use kapsel.Gateway.Journal.Record.{Record, text_value, get_text}
use kapsel.Gateway.Journal.Store.{
  Env, World, find, has_id, update_rows, changed_row, written_rows, same_retained, replace,
}
use kapsel.Gateway.Dispatch.{Holds}
use kapsel.Gateway.Dispatch.Rows.{
  find-has_id, has_id_sound, find-update_rows, changed_row-values, text_value-injective,
}
use kapsel.Gateway.Dispatch.Replace.{update_changed_columns-eq-ok, insert_row-eq-ok}
use kapsel.Gateway.Rounds.{Spells}
use kapsel.Gateway.Course.{
  Step, standing, standing_of, submits, steps, Reaches, stays, later, Follows,
}
use kapsel.Gateway.Course.Writes.{replace-Follows}

module _ (id : Text) (r next : Record) (s t : OperationState) (rows : List Record)
    (hp : r.values Record.operation_id ≡ text_value id)
    (hn : next.values Record.operation_id ≡ text_value id) (found : find id rows ≡ some r)
    (before : Spells r s) (after : Spells next t) (step : Step s t) where
  changed-standing : standing_of (some (changed_row r next r)) ≡ some (ok t)
  unfolding get_text
  changed-standing = let e = changed_row-values r next r Record.state refl in rw e (rw after refl)

  updated-Reaches :
      (i : Text) (kept : Option Record)
      → find i rows ≡ kept
      → Reaches (standing_of kept) (standing_of (find i (update_rows id r next rows)))
  updated-Reaches i none h = rw (find-update_rows id i r next rows hp hn none h) stays
  updated-Reaches i (some k) h =
      let f = find-update_rows id i r next rows hp hn (some k) h in
      rw f (elim (Bool-cases (has_id id k)) [
        | inl p ↦
            let here = find-has_id i rows k h in
            let e : i ≡ id =
              text_value-injective i id (cc (has_id_sound i k here, has_id_sound id k p)) in
            let same : some k ≡ some r = cc (h, found, ap (λ x. find x rows) e) in moved k p same
        | inr q ↦ rw q stays
      ])
    where
      moved :
          (k : Record)
          → has_id id k ≡ true
          → some k ≡ some r
          → Reaches
              (standing_of (some k))
              (standing_of (some (if has_id id k then changed_row r next k else k)))
      moved k p same =
          let e : k ≡ r = cc same in
          rw p (rw e (rw changed-standing (rw before (later stays (steps step)))))

module _ (e : Env) (id : Text) (w : World) where
  -- A write of the next row over the retained one.
  pub updating-Follows :
      (r next : Record) (s t : OperationState)
      → r.values Record.operation_id ≡ text_value id
      → next.values Record.operation_id ≡ text_value id
      → find id w.rows ≡ some r
      → Spells r s
      → Spells next t
      → Step s t
      → Holds (Follows w) (λ _ v. Follows w v) (replace e (some r) next w)
  unfolding written_rows standing
  updating-Follows r next s t hp hn found before after step =
      replace-Follows e (some r) next id w hn λ v rows same _ h i.
        let e' = update_changed_columns-eq-ok r next id v.rows rows h in
        let k =
          updated-Reaches id r next s t w.rows hp hn found before after step i (find i w.rows)
            refl in
        rw e' (rw same k)

  -- A write of the first row.
  pub inserting-Follows :
      (next : Record)
      → next.values Record.operation_id ≡ text_value id
      → Spells next requested
      → Holds (Follows w) (λ _ v. Follows w v) (replace e none next w)
  unfolding written_rows standing
  inserting-Follows next hn after = replace-Follows e none next id w hn λ v rows same absent h i.
      let e' = insert_row-eq-ok next id v rows h in
      rw e' (rw same (inserted i (find id w.rows) refl absent))
    where
      inserted :
          (i : Text) (kept : Option Record)
          → find id w.rows ≡ kept
          → same_retained kept none ≡ true
          → Reaches (standing_of (find i w.rows)) (standing_of (find i (next ∷ w.rows)))
      inserted i (some r) h absent = cc absent
      inserted i none h absent = elim (Bool-cases (has_id i next)) [
        | inr q ↦ rw q stays
        | inl p ↦
            let e' : i ≡ id = text_value-injective i id (cc (has_id_sound i next p, hn)) in
            let gone : find i w.rows ≡ none = rw e' h in
            rw gone (rw p (rw after (later stays submits)))
      ]
