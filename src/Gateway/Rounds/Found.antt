-- ===== src/Gateway/Rounds/Found.antt =====
-- What the reads of src/gateway/journal/mod.rs return of the row of an identity.
use kapsel.Base.{
  Bool, true, false, Option, none, some, Text, ok, ◌≡◌, list_eq, nat_eq, ℕ, ◌≤◌, arith,
}
use kapsel.Gateway.Types.{G, OperationState, AuthorizedRequest}
use kapsel.Gateway.Journal.Record.{Record}
use kapsel.Gateway.Journal.Phases.{LoadedOperation, loaded_state, request_facts}
use kapsel.Gateway.Journal.Rows.{decode}
use kapsel.Gateway.Journal.Store.{Env, World, Run, ◌>>=◌, ◌>>◌, lift, return, find, read}
use kapsel.Gateway.Journal.Writes.{
  authorized_operation, authorized_record_case, retained_record, refuse_collision, decode_loaded,
  existing_submission, state_of,
}
use kapsel.Gateway.Dispatch.Replace.{Reads, read-Holds}
use kapsel.Gateway.Dispatch.Moves.{Moves, Reading}
use kapsel.Gateway.Dispatch.Lifecycle.{authorized_operation-Reading, read_collision-Reading}
use kapsel.Gateway.Rounds.{
  Ends-both, rank, Below, Ends, Ends-bind, Ends-check, Ends-guard, Ends-weaken,
}
use kapsel.Gateway.Rounds.Columns.{some_record, Holds-Ends, decode-Spells, decode-Below, decoded-id}

pub Below-mono : (id : Text) (m n : ℕ) (w : World) → m ≤ n → Below id m w → Below id n w
Below-mono id m n w le h r state found spells = omega (arith, h r state found spells, le)

pub Reading-Ends :
    {E A : Type 0} (m : Run E A) (w : World) → Reading m → Ends (λ _ v. Reads w v) (m w)
unfolding Moves
Reading-Ends m w h = Holds-Ends (Reads w) (λ _ v. Reads w v) (m w) (h w)

module _ (e : Env) where
  -- The row of an identity decodes to a phase.
  pub record Found (id : Text) (loaded : LoadedOperation) (w : World) : Type 0 where
    pub row : Record
    pub found : find id w.rows ≡ some row
    pub decoded : decode e.crypto row ≡ ok loaded

  -- The row of an identity decodes to a phase, or there is none.
  abbrev pub FoundIn : Text → Option LoadedOperation → World → Type 0
  FoundIn id none w = find id w.rows ≡ none
  FoundIn id (some loaded) w = Found id loaded w

  pub Found-Below :
      (id : Text) (loaded : LoadedOperation) (w : World)
      → Found id loaded w
      → Below id (rank (loaded_state loaded)) w
  Found-Below id loaded w f = decode-Below e id loaded f.row w f.found f.decoded

  pub Found-rank :
      (id : Text) (loaded : LoadedOperation) (n : ℕ) (w : World)
      → Found id loaded w
      → Below id n w
      → rank (loaded_state loaded) ≤ n
  Found-rank id loaded n w f below =
      below f.row (loaded_state loaded) f.found (decode-Spells e loaded f.row f.decoded)

  pub Found-id :
      (id : Text) (loaded : LoadedOperation) (w : World)
      → Found id loaded w
      → (request_facts loaded).request.operation_id ≡ id
  Found-id id loaded w f = decoded-id e id loaded f.row w f.found f.decoded

  read-Ends : (id : Text) (w : World) → Ends (λ found v. find id v.rows ≡ found) (read e id w)
  read-Ends id w =
      Ends-weaken (λ found v. Reads w v × (found ≡ find id w.rows))
        (λ found v. find id v.rows ≡ found) (read e id w)
        (Holds-Ends (Reads w) (λ found v. Reads w v × (found ≡ find id w.rows)) (read e id w)
          (read-Holds e id w))
        (λ found v (r, h). cc (r.rows, h))

  decode_loaded-Found :
      (id : Text) (again : Option Record) (first second : LoadedOperation → G (Unit {0}))
      (w : World)
      → find id w.rows ≡ again
      → Ends
          (λ loaded v. Found id loaded v)
          ((decode_loaded e again >>= λ loaded.
              lift (first loaded) >> (lift (second loaded) >> return loaded))
            w)
  unfolding return
  decode_loaded-Found id none first second w h =
      Ends-check (λ loaded v. Found id loaded v) _ _ w λ loaded absent. cc absent
  decode_loaded-Found id (some r) first second w h =
      Ends-check (λ loaded v. Found id loaded v) _ _ w
        λ loaded decoded.
          Ends-guard (λ loaded v. Found id loaded v) _ _ w
            λ _.
              Ends-guard (λ loaded v. Found id loaded v) _ _ w
                λ _. record { row = r; found = h; decoded = decoded }

  retained_record-Found :
      (a : AuthorizedRequest) (r : Record) (w : World)
      → Ends (λ loaded v. Found a.request.operation_id loaded v) (retained_record e a r w)
  unfolding retained_record
  retained_record-Found a r w =
      let Q : LoadedOperation → World → Type 0 =
        λ loaded v. Found a.request.operation_id loaded v in
      Ends-check Q _ _ w λ b _. Ends-check Q _ _ w λ grant _. Ends-guard Q _ _ w λ _.
        Ends-check Q _ _ w λ state _. Ends-guard Q _ _ w λ _. Ends-guard Q _ _ w λ _.
          Ends-bind (λ found v. find a.request.operation_id v.rows ≡ found) Q _ _ w
            (read-Ends a.request.operation_id w)
            λ again v h. decode_loaded-Found a.request.operation_id again _ _ v h

  pub authorized_operation-Found :
      (a : AuthorizedRequest) (w : World)
      → Ends (λ found v. FoundIn a.request.operation_id found v) (authorized_operation e a w)
  unfolding authorized_operation authorized_record_case return lift
  authorized_operation-Found a w =
      Ends-bind (λ found v. find a.request.operation_id v.rows ≡ found) Q _ _ w
        (read-Ends a.request.operation_id w) record_case
    where
      Q : Option LoadedOperation → World → Type 0
      Q found v = FoundIn a.request.operation_id found v

      refuse_case :
          (b : Bool) (v : World)
          → find a.request.operation_id v.rows ≡ none
          → Ends Q (refuse_collision e b v)
      refuse_case true v h = tt
      refuse_case false v h = h

      record_case :
          (found : Option Record) (v : World)
          → find a.request.operation_id v.rows ≡ found
          → Ends Q (authorized_record_case e a found v)
      record_case none v h =
          Ends-bind (λ _ u. Reads v u) Q _ _ v
            (Reading-Ends _ v (read_collision-Reading e a.request.operation_id))
            λ b u r. refuse_case b u (rw r.rows h)
      record_case (some r) v _ =
          Ends-bind (λ loaded u. Found a.request.operation_id loaded u) Q _ _ v
            (retained_record-Found a r v) λ loaded u f. f

  pub authorized_operation-FoundIn :
      (a : AuthorizedRequest) (w : World)
      → Ends
          (λ found v. FoundIn a.request.operation_id found v × Reads w v)
          (authorized_operation e a w)
  authorized_operation-FoundIn a w =
      Ends-both (λ found v. FoundIn a.request.operation_id found v) (λ _ v. Reads w v) _
        (authorized_operation-Found a w) (Reading-Ends _ w (authorized_operation-Reading e a))

  pub Reads-Found :
      (id : Text) (loaded : LoadedOperation) (w v : World)
      → Reads w v
      → Found id loaded w
      → Found id loaded v
  Reads-Found id loaded w v r f = record {
    row = f.row;
    found = rw r.rows f.found;
    decoded = f.decoded;
  }

  FoundIn-same :
      (id : Text) (found : Option LoadedOperation) (loaded : LoadedOperation) (w : World)
      → FoundIn id found w
      → Found id loaded w
      → found ≡ some loaded
  FoundIn-same id none loaded w h f = cc (h, f.found)
  FoundIn-same id (some other) loaded w h f =
      let same : h.row ≡ f.row = some_record (cc (h.found, f.found)) in
      let again : decode e.crypto f.row ≡ ok other = rw same at h.decoded in cc (again, f.decoded)

  -- A lookup of an operation that is found finds it again.
  pub authorized_operation-again :
      (a : AuthorizedRequest) (loaded : LoadedOperation) (w : World)
      → Found a.request.operation_id loaded w
      → Ends
          (λ found v. (found ≡ some loaded) × Found a.request.operation_id loaded v)
          (authorized_operation e a w)
  authorized_operation-again a loaded w f =
      Ends-weaken (λ found v. FoundIn a.request.operation_id found v × Reads w v)
        (λ found v. (found ≡ some loaded) × Found a.request.operation_id loaded v) _
        (authorized_operation-FoundIn a w)
        λ found v (h, r).
          let g = Reads-Found a.request.operation_id loaded w v r f in
          (FoundIn-same a.request.operation_id found loaded v h g, g)

  abbrev pub StateIn : Text → Option OperationState → World → Type 0
  StateIn id none w = Unit {0}
  StateIn id (some state) w = Below id (rank state) w

  pub existing_submission-StateIn :
      (a : AuthorizedRequest) (w : World)
      → Ends (λ state v. StateIn a.request.operation_id state v) (existing_submission e a w)
  unfolding existing_submission return
  existing_submission-StateIn a w =
      Ends-bind (λ found v. FoundIn a.request.operation_id found v)
        (λ state v. StateIn a.request.operation_id state v) _ _ w (authorized_operation-Found a w)
        found_case
    where
      found_case :
          (found : Option LoadedOperation) (v : World)
          → FoundIn a.request.operation_id found v
          → StateIn a.request.operation_id (state_of e found) v
      found_case none v f = tt
      found_case (some loaded) v f = Found-Below a.request.operation_id loaded v f
