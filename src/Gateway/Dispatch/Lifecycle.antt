-- ===== src/Gateway/Dispatch/Lifecycle.antt =====
-- The journal's reads and writes of src/gateway/journal/mod.rs send nothing and lose no attempt.
use kapsel.Base.{
  Bool, true, false, Option, none, some, Text, ok, err, ◌≡◌, refl, Bool-cases, inl, inr, require,
  ok_or, ◌==◌,
}
use kapsel.Gateway.Types.{G, AuthorizedRequest, invalid_transition}
use kapsel.Gateway.Journal.Record
use kapsel.Gateway.Journal.Record.{Record, text_value}
use kapsel.Gateway.Journal.Phases.{LoadedOperation, loaded_eq}
use kapsel.Gateway.Journal.Rows.{decode}
use kapsel.Gateway.Journal.Store.{Env, World, ◌>>=◌, ◌>>◌, lift, return, find, read, read_collision}
use kapsel.Gateway.Journal.Writes.{
  authorized_operation, retained_record, authorized_record_case, existing_submission, operation,
  bound_record, refuse_collision, decode_loaded, decode_found, state_of,
}
use kapsel.Gateway.Dispatch.{Holds, continue-Holds, Holds-weaken}
use kapsel.Gateway.Dispatch.Rows.{find-has_id, has_id_sound}
use kapsel.Gateway.Dispatch.Moves.{
  Moves, Reading, Reading-lift, Reading-return, Reading-bind, Reading-then,
}
use kapsel.Gateway.Dispatch.Replace.{Reads, read-Holds, tick-Reads}

module _ (e : Env) where
  pub read-Reading : (id : Text) → Reading (read e id)
  unfolding Moves
  read-Reading id w =
      Holds-weaken (Reads w) (Reads w) (λ found v. Reads w v × (found ≡ find id w.rows))
        (λ _ v. Reads w v) (read e id w) (λ _ r. r) (λ _ _ (r, _). r) (read-Holds e id w)

  pub read_collision-Reading : (id : Text) → Reading (read_collision e id)
  unfolding read_collision Moves
  read_collision-Reading id w = elim (Bool-cases (e.reads w.clock)) [
    | inl p ↦ rw p (tick-Reads w)
    | inr q ↦ rw q (tick-Reads w)
  ]

  decode_loaded-Reading : (found : Option Record) → Reading (decode_loaded e found)
  decode_loaded-Reading none = Reading-lift _
  decode_loaded-Reading (some r) = Reading-lift (decode e.crypto r)

  retained_record-Reading : (a : AuthorizedRequest) (r : Record) → Reading (retained_record e a r)
  unfolding retained_record
  retained_record-Reading a r = Reading-bind _ _ (Reading-lift _) λ b.
      Reading-bind _ _ (Reading-lift _) λ grant. Reading-then _ _ (Reading-lift _) (
        Reading-bind _ _ (Reading-lift _) λ state. Reading-then _ _ (Reading-lift _) (
          Reading-then _ _ (Reading-lift _) (
            Reading-bind _ _ (read-Reading a.request.operation_id) λ again.
              Reading-bind _ _ (decode_loaded-Reading again) λ loaded.
                Reading-then _ _ (Reading-lift _)
                  (Reading-then _ _ (Reading-lift _) (Reading-return _ loaded)))))

  refuse_collision-Reading : (found : Bool) → Reading (refuse_collision e found)
  refuse_collision-Reading true = Reading-lift _
  refuse_collision-Reading false = Reading-return _ none

  authorized_record_case-Reading :
      (a : AuthorizedRequest) (found : Option Record) → Reading (authorized_record_case e a found)
  unfolding authorized_record_case
  authorized_record_case-Reading a none =
      Reading-bind _ _ (read_collision-Reading a.request.operation_id) refuse_collision-Reading
  authorized_record_case-Reading a (some r) =
      Reading-bind _ _ (retained_record-Reading a r) λ loaded. Reading-return _ (some loaded)

  pub authorized_operation-Reading : (a : AuthorizedRequest) → Reading (authorized_operation e a)
  unfolding authorized_operation
  authorized_operation-Reading a =
      Reading-bind _ _ (read-Reading a.request.operation_id) (authorized_record_case-Reading a)

  pub existing_submission-Reading : (a : AuthorizedRequest) → Reading (existing_submission e a)
  unfolding existing_submission
  existing_submission-Reading a =
      Reading-bind _ _ (authorized_operation-Reading a) λ found. Reading-return _ (state_of e found)

  decode_found-Reading : (found : Option Record) → Reading (decode_found e found)
  decode_found-Reading none = Reading-return _ none
  decode_found-Reading (some r) =
      Reading-bind _ _ (Reading-lift (decode e.crypto r)) λ loaded. Reading-return _ (some loaded)

  pub operation-Reading : (id : Text) → Reading (operation e id)
  unfolding operation
  operation-Reading id = Reading-bind _ _ (read-Reading id) decode_found-Reading

  -- What `bound_record` has established of the row that it returns.
  pub record Bound (key : Text) (expected : LoadedOperation) (w v : World) (r : Record)
      : Type 0 where
    pub reads : Reads w v
    pub found : find key v.rows ≡ some r
    pub id : r.values Record.operation_id ≡ text_value key
    pub decoded : decode e.crypto r ≡ ok expected

  Bound-decoded :
      (id : Text) (expected : LoadedOperation) (w v : World) (r : Record)
      → Reads w v
      → find id v.rows ≡ some r
      → (out : G LoadedOperation) → decode e.crypto r ≡ out
      → Holds
          (Reads w)
          (λ r' u. Bound id expected w u r')
          ((lift out >>= λ loaded.
              lift (require (loaded == expected) invalid_transition) >> return r)
            v)
  unfolding lift return ◌>>=◌ ◌>>◌
  Bound-decoded id expected w v r h hf (err error) hd = h
  Bound-decoded id expected w v r h hf (ok loaded) hd = elim (Bool-cases (loaded == expected)) [
    | inr q ↦ rw q h
    | inl p ↦ rw p (record {
      reads = h;
      found = hf;
      id = has_id_sound id r (find-has_id id v.rows r hf);
      decoded = cc (hd, loaded_eq.beq_sound loaded expected p);
    })
  ]

  Bound-found :
      (id : Text) (expected : LoadedOperation) (w v : World) (found : Option Record)
      → Reads w v
      → found ≡ find id v.rows
      → Holds
          (Reads w)
          (λ r u. Bound id expected w u r)
          ((lift (ok_or found invalid_transition) >>= λ r. lift (decode e.crypto r) >>= λ loaded.
              lift (require (loaded == expected) invalid_transition) >> return r)
            v)
  unfolding lift ◌>>=◌ ◌>>◌ return
  Bound-found id expected w v none h hf = h
  Bound-found id expected w v (some r) h hf =
      Bound-decoded id expected w v r h (cc hf) (decode e.crypto r) refl

  pub bound_record-Holds :
      (id : Text) (expected : LoadedOperation) (w : World)
      → Holds (Reads w) (λ r v. Bound id expected w v r) (bound_record e id expected w)
  unfolding bound_record ◌>>=◌
  bound_record-Holds id expected w =
      continue-Holds (Reads w) (λ found v. Reads w v × (found ≡ find id w.rows))
        (λ r v. Bound id expected w v r) (read e id w) _ (read-Holds e id w)
        (λ found v (h, hf). Bound-found id expected w v found h (cc (h.rows, hf)))
