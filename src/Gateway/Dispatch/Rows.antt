-- ===== src/Gateway/Dispatch/Rows.antt =====
-- The conditional write of src/gateway/journal/records.rs keeps the attempts that the rows retain.
use kapsel.Base.{
  true, Option, none, some, List, [], ◌∷◌, Text, ◌≡◌, ◌≤◌, ◌==◌, list_eq, nat_eq, if◌then◌else◌,
  refl, arith, Bool-cases, inl, inr,
}
use kapsel.Gateway.Journal.Record
use kapsel.Gateway.Journal.Record.{
  Record, Value, integer, text_value, value_eq, same_values, get_text, current_columns,
}
use kapsel.Gateway.Journal.Store.{find, has_id, update_rows, changed_row}
use kapsel.Gateway.Dispatch.{attempted, attempts}

pub find-has_id :
    (id : Text) (rows : List Record) (r : Record) → find id rows ≡ some r → has_id id r ≡ true
find-has_id id [] r h = cc
find-has_id id (s ∷ rows) r h = elim (Bool-cases (has_id id s)) [
  | inl p ↦ let e = rw p at h in cc (e, p)
  | inr q ↦ find-has_id id rows r (rw q at h)
]

pub has_id_sound :
    (id : Text) (r : Record) → has_id id r ≡ true → r.values Record.operation_id ≡ text_value id
has_id_sound id r h = value_eq.beq_sound (r.values Record.operation_id) (text_value id) h

pub has_id_complete :
    (id : Text) (r : Record) → r.values Record.operation_id ≡ text_value id → has_id id r ≡ true
has_id_complete id r h = rw h (value_eq.beq_refl (text_value id))

-- A changed row has the new value wherever the old row and the retained one agree.
pub changed_row-values :
    (previous next r : Record) (column : Record.Column)
    → r.values column ≡ previous.values column
    → (changed_row previous next r).values column ≡ next.values column
changed_row-values previous next r column h =
    elim (Bool-cases (previous.values column == next.values column)) [
      | inl p ↦
          let e = value_eq.beq_sound (previous.values column) (next.values column) p in
          rw p (cc (h, e))
      | inr q ↦ rw q refl
    ]

same_values-id :
    (r s : Record)
    → same_values r s ≡ true
    → r.values Record.operation_id ≡ s.values Record.operation_id
unfolding same_values
same_values-id r s h =
    value_eq.beq_sound (r.values Record.operation_id) (s.values Record.operation_id) (ground arith)

same_values-attempted :
    (r s : Record)
    → same_values r s ≡ true
    → r.values Record.apply_attempted ≡ s.values Record.apply_attempted
unfolding same_values
same_values-attempted r s h =
    value_eq.beq_sound (r.values Record.apply_attempted) (s.values Record.apply_attempted)
      (ground arith)

-- The rewritten rows have the same identities, so that each lookup meets the row it met before.
abbrev rewritten : Text → Record → Record → Record → Record
rewritten id previous next r = if has_id id r then changed_row previous next r else r

rewritten-has_id :
    (id i : Text) (previous next r : Record)
    → previous.values Record.operation_id ≡ text_value id
    → next.values Record.operation_id ≡ text_value id
    → has_id i (rewritten id previous next r) ≡ has_id i r
rewritten-has_id id i previous next r hp hn = elim (Bool-cases (has_id id r)) [
  | inl p ↦
      let e = has_id_sound id r p in
      let e' = changed_row-values previous next r Record.operation_id (cc (e, hp)) in
      rw p (rw e' (rw e (rw hn refl)))
  | inr q ↦ rw q refl
]

pub find-update_rows :
    (id i : Text) (previous next : Record) (rows : List Record)
    → previous.values Record.operation_id ≡ text_value id
    → next.values Record.operation_id ≡ text_value id
    → (s : Option Record) → find i rows ≡ s
    → find i (update_rows id previous next rows)
      ≡ elim s [ none ↦ none | some r ↦ some (rewritten id previous next r) ]
find-update_rows id i previous next [] hp hn s h = rw (← h) refl
find-update_rows id i previous next (r ∷ rows) hp hn s h =
    let e = rewritten-has_id id i previous next r hp hn in
    elim (Bool-cases (has_id i r)) [
      | inl p ↦ let h' = rw p at h in rw e (rw p (rw (← h') refl))
      | inr q ↦ rw e (rw q (find-update_rows id i previous next rows hp hn s (rw q at h)))
    ]

pub text_value-injective : (i j : Text) → text_value i ≡ text_value j → i ≡ j
text_value-injective i j h = cc h

module _ (id : Text) (previous next r : Record) (rows : List Record)
    (hp : previous.values Record.operation_id ≡ text_value id)
    (hn : next.values Record.operation_id ≡ text_value id) (hf : find id rows ≡ some r)
    (same : same_values r previous ≡ true) where
  pub update_rows-attempts_id : attempts id (update_rows id previous next rows) ≡ attempted next
  unfolding attempts
  update_rows-attempts_id =
      let e = find-update_rows id id previous next rows hp hn (some r) hf in
      let v =
        changed_row-values previous next r Record.apply_attempted
          (same_values-attempted r previous same) in
      rw e (rw (find-has_id id rows r hf) (rw v refl))

  module _ (le : attempted previous ≤ attempted next) where
    update_rows-attempts_found :
        (i : Text) (s : Option Record)
        → find i rows ≡ s
        → attempts i rows ≤ attempts i (update_rows id previous next rows)
    unfolding attempts
    update_rows-attempts_found i none h = rw h (omega arith)
    update_rows-attempts_found i (some t) h = elim (Bool-cases (has_id id t)) [
      | inl p ↦
          let e : i ≡ id =
            text_value-injective i id
              (cc (has_id_sound i t (find-has_id i rows t h), has_id_sound id t p)) in
          let k = same_values-attempted r previous same in
          let a = update_rows-attempts_id in rw e (rw hf (rw k (rw a le)))
      | inr q ↦
          let f = find-update_rows id i previous next rows hp hn (some t) h in
          rw f (rw h (rw q (omega arith)))
    ]

    pub update_rows-attempts :
        (i : Text) → attempts i rows ≤ attempts i (update_rows id previous next rows)
    update_rows-attempts i = update_rows-attempts_found i (find i rows) refl
