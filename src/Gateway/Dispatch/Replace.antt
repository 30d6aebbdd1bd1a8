-- ===== src/Gateway/Dispatch/Replace.antt =====
-- `read` and `replace` of src/gateway/journal/records.rs: what is sent stays, attempts are kept.
use kapsel.Base.{
  ℕ, true, Option, none, some, List, ◌∷◌, Text, ok, err, ◌≡◌, ◌≤◌, refl, arith, require, Bool-cases,
  inl, inr,
}
use kapsel.Gateway.Types.{G, invalid_transition}
use kapsel.Gateway.Journal.Record
use kapsel.Gateway.Journal.Record.{Record, Value, text_value, get_text, same_values}
use kapsel.Gateway.Journal.Store.{
  Env, World, Commit, committed, lost, acknowledgement_lost, find, has_id, update_rows, insert_row,
  same_retained, written_rows, replace, read, bounded_row, tick, commit_as, commit,
  update_changed_columns, Act, lift, continue, ◌>>=◌, ◌>>◌, persisted_values_within_bounds,
  require_admission, changed_one,
}
use kapsel.Gateway.Dispatch.{
  attempted, attempts, Grows, Grows-refl, Grows-trans, Holds, continue-Holds, Holds-weaken,
}
use kapsel.Gateway.Dispatch.Rows.{
  text_value-injective, has_id_sound, has_id_complete, update_rows-attempts,
  update_rows-attempts_id,
}

-- A world whose tables and requests are those of `w`.
pub record Reads (w v : World) : Type 0 where
  pub rows : v.rows ≡ w.rows
  pub sent : v.sent ≡ w.sent
  pub git : v.git ≡ w.git

pub Reads-Grows : (w v : World) → Reads w v → Grows w v
unfolding attempts
Reads-Grows w v r = record { same_sent = r.sent; kept = λ id. rw r.rows (omega arith) }

pub Reads-trans : (u v w : World) → Reads u v → Reads v w → Reads u w
Reads-trans u v w f g = record {
  rows = cc (f.rows, g.rows);
  sent = cc (f.sent, g.sent);
  git = cc (f.git, g.git);
}

bounded_row-Holds :
    (e : Env) (found : Option Record) (w v : World)
    → Reads w v
    → Holds (Reads w) (λ result v'. Reads w v' × (result ≡ found)) (bounded_row e found, v)
unfolding bounded_row
bounded_row-Holds e none w v r = (r, refl)
bounded_row-Holds e (some x) w v r = elim (Bool-cases (persisted_values_within_bounds e x)) [
  | inl p ↦ rw p (r, refl)
  | inr q ↦ rw q r
]

pub tick-Reads : (w : World) → Reads w (tick w)
unfolding tick
tick-Reads w = record { rows = refl; sent = refl; git = refl }

pub read-Holds :
    (e : Env) (id : Text) (w : World)
    → Holds (Reads w) (λ found v. Reads w v × (found ≡ find id w.rows)) (read e id w)
unfolding read
read-Holds e id w = elim (Bool-cases (e.reads w.clock)) [
  | inl p ↦ rw p (bounded_row-Holds e (find id w.rows) w (tick w) (tick-Reads w))
  | inr q ↦ rw q (tick-Reads w)
]

-- The rows that a commit may leave: the old ones, or the new ones with or without its acknowledgement.
commit-Holds :
    (e : Env) (rows : List Record) (w : World) (n : ℕ) (id : Text)
    → ((i : Text) → attempts i w.rows ≤ attempts i rows)
    → attempts id rows ≡ n
    → Holds (Grows w) (λ _ v. Grows w v × (attempts id v.rows ≡ n)) (commit e rows w)
unfolding commit commit_as tick
commit-Holds e rows w n id le at = commit_case (e.commits w.clock)
  where
    commit_case :
        (c : Commit)
        → Holds (Grows w) (λ _ v. Grows w v × (attempts id v.rows ≡ n)) (commit_as c rows w)
    commit_case committed = (record { same_sent = refl; kept = le }, at)
    commit_case lost = record { same_sent = refl; kept = λ i. omega arith }
    commit_case acknowledgement_lost = record { same_sent = refl; kept = le }

pub update_changed_columns-eq-ok :
    (previous next : Record) (id : Text) (rows out : List Record)
    → update_changed_columns previous next id rows ≡ ok out
    → out ≡ update_rows id previous next rows
unfolding update_changed_columns changed_one
update_changed_columns-eq-ok previous next id rows out h = ground arith

pub insert_row-eq-ok :
    (next : Record) (id : Text) (w : World) (out : List Record)
    → insert_row next id w ≡ ok out
    → out ≡ next ∷ w.rows
unfolding insert_row require_admission
insert_row-eq-ok next id w out h = ground arith

inserted-attempts_id :
    (id : Text) (next : Record) (rows : List Record)
    → next.values Record.operation_id ≡ text_value id
    → attempts id (next ∷ rows) ≡ attempted next
unfolding attempts
inserted-attempts_id id next rows hn = rw (has_id_complete id next hn) refl

inserted-attempts :
    (id : Text) (next : Record) (rows : List Record)
    → next.values Record.operation_id ≡ text_value id
    → find id rows ≡ none
    → (i : Text) → attempts i rows ≤ attempts i (next ∷ rows)
unfolding attempts
inserted-attempts id next rows hn hf i = elim (Bool-cases (has_id i next)) [
  | inl p ↦
      let e : i ≡ id = text_value-injective i id (cc (has_id_sound i next p, hn)) in
      rw e (rw hf (omega arith))
  | inr q ↦ rw q (omega arith)
]

module _ (e : Env) (id : Text) (next : Record) where
  -- The part of `replace` after the retained row was read.
  abbrev written : Option Record → Option Record → Act (Unit {0})
  written expected retained =
      lift (require (same_retained retained expected) invalid_transition)
      >> ((λ w. (written_rows expected next id w, w)) >>= λ rows. commit e rows)

  abbrev pub Written : World → Unit {0} → World → Type 0
  Written w _ v = Grows w v × (attempts id v.rows ≡ attempted next)

  written-Holds :
      (previous : Record) (retained : Option Record) (w : World)
      → previous.values Record.operation_id ≡ text_value id
      → next.values Record.operation_id ≡ text_value id
      → attempted previous ≤ attempted next
      → find id w.rows ≡ retained
      → Holds (Grows w) (Written w) (written (some previous) retained w)
  unfolding written_rows ◌>>=◌ ◌>>◌ lift
  written-Holds previous none w hp hn le hf = Grows-refl w
  written-Holds previous (some r) w hp hn le hf = elim (Bool-cases (same_values r previous)) [
    | inr q ↦ rw q (Grows-refl w)
    | inl p ↦ rw p (updated_case p (update_changed_columns previous next id w.rows) refl)
  ]
    where
      updated_case :
          same_values r previous ≡ true
          → (out : G (List Record)) → update_changed_columns previous next id w.rows ≡ out
          → Holds (Grows w) (Written w) (continue (out, w) (λ rows. commit e rows))
      updated_case p (err error) h = Grows-refl w
      updated_case p (ok rows) h =
          let e' = update_changed_columns-eq-ok previous next id w.rows rows h in
          commit-Holds e rows w (attempted next) id
            (λ i. rw e' (update_rows-attempts id previous next r w.rows hp hn hf p le i))
            (rw e' (update_rows-attempts_id id previous next r w.rows hp hn hf p))

  -- A conditional write of a row under its own identity, whose attempt flag is not below that of the
  -- expected row, sends nothing and loses no retained attempt of any identity, whatever its outcome.
  -- When it succeeds, the row retained for the identity has the attempt flag of the new row.
  pub replace-Holds :
      (previous : Record) (w : World)
      → previous.values Record.operation_id ≡ text_value id
      → next.values Record.operation_id ≡ text_value id
      → attempted previous ≤ attempted next
      → Holds (Grows w) (Written w) (replace e (some previous) next w)
  unfolding replace get_text ◌>>=◌ ◌>>◌ lift
  replace-Holds previous w hp hn le = rw hn (
      continue-Holds (Grows w) (λ found v. Reads w v × (found ≡ find id w.rows)) (Written w)
        (read e id w) (written (some previous))
        (Holds-weaken (Reads w) (Grows w) (λ found v. Reads w v × (found ≡ find id w.rows))
          (λ found v. Reads w v × (found ≡ find id w.rows)) (read e id w) (Reads-Grows w)
          (λ _ _ k. k) (read-Holds e id w))
        (λ retained v (r, h).
          Holds-weaken (Grows v) (Grows w) (Written v) (Written w)
            (written (some previous) retained v) (λ u g. Grows-trans w v u (Reads-Grows w v r) g)
            (λ _ u (g, a). (Grows-trans w v u (Reads-Grows w v r) g, a))
            (written-Holds previous retained v hp hn le (cc (r.rows, h)))))

  inserted-Holds :
      (retained : Option Record) (w : World)
      → next.values Record.operation_id ≡ text_value id
      → find id w.rows ≡ retained
      → Holds (Grows w) (Written w) (written none retained w)
  unfolding written_rows ◌>>=◌ ◌>>◌ lift
  inserted-Holds (some r) w hn hf = Grows-refl w
  inserted-Holds none w hn hf = inserted_case (insert_row next id w) refl
    where
      inserted_case :
          (out : G (List Record))
          → insert_row next id w ≡ out
          → Holds (Grows w) (Written w) (continue (out, w) (λ rows. commit e rows))
      inserted_case (err error) h = Grows-refl w
      inserted_case (ok rows) h =
          let e' = insert_row-eq-ok next id w rows h in
          commit-Holds e rows w (attempted next) id
            (λ i. rw e' (inserted-attempts id next w.rows hn hf i))
            (rw e' (inserted-attempts_id id next w.rows hn))

  pub insert-Holds :
      (w : World)
      → next.values Record.operation_id ≡ text_value id
      → Holds (Grows w) (Written w) (replace e none next w)
  unfolding replace get_text ◌>>=◌ ◌>>◌ lift
  insert-Holds w hn = rw hn (
      continue-Holds (Grows w) (λ found v. Reads w v × (found ≡ find id w.rows)) (Written w)
        (read e id w) (written none)
        (Holds-weaken (Reads w) (Grows w) (λ found v. Reads w v × (found ≡ find id w.rows))
          (λ found v. Reads w v × (found ≡ find id w.rows)) (read e id w) (Reads-Grows w)
          (λ _ _ k. k) (read-Holds e id w))
        (λ retained v (r, h).
          Holds-weaken (Grows v) (Grows w) (Written v) (Written w) (written none retained v)
            (λ u g. Grows-trans w v u (Reads-Grows w v r) g)
            (λ _ u (g, a). (Grows-trans w v u (Reads-Grows w v r) g, a))
            (inserted-Holds retained v hn (cc (r.rows, h)))))
