-- ===== src/Gateway/Journal/Store.antt =====
-- src/gateway/journal/records.rs and capacity.rs: the two operation tables, reading a row, and the
-- conditional write of a row. What SQLite, the worker lock file and the receiver answer at each
-- tick of a clock is the parameter `Env`; a commit can be lost, and so can its acknowledgement.
use kapsel.Base.{
  ℕ, ℤ, pos, negsuc, Bool, true, false, not, Option, none, some, List, [], ◌∷◌, ◌&&◌, ◌||◌, Text,
  text, Result, ok, err, require, ◌==◌, nat_eq, list_eq, if◌then◌else◌, leb, ltb, length, all, ◌+◌,
  ◌/◌, ◌-◌, suc, zero,
}
use kapsel.Authority.Grant.{Crypto}
use kapsel.Gateway.Types.{
  G, GatewayError, AdmissionDecision, SetDeploymentImageRequest, TargetReadError,
  invalid_persisted_state, invalid_transition, operation_identity_conflict, journal_full, database,
}
use kapsel.Gateway.Facts.{TargetIdentity, ApplyOutcome, ReceiverObservation}
use kapsel.Gateway.Journal.Record
use kapsel.Gateway.Journal.Record.{
  Column, Record, Value, null, integer, real, text_value, blob, value_eq, get_text, same_values,
  current_columns, index,
}

pub data Commit : Type 0 where
  committed lost acknowledgement_lost : Commit

pub data Lock : Type 0 where
  acquired contended failed : Lock

pub record Env : Type 0 where
  pub crypto : Crypto
  pub real_length : ℕ → ℕ
  pub reads : ℕ → Bool
  pub commits : ℕ → Commit
  pub locks : ℕ → Lock
  pub unlocks : ℕ → Bool
  pub identify : ℕ → SetDeploymentImageRequest → Result TargetReadError TargetIdentity
  pub apply : ℕ → SetDeploymentImageRequest → TargetIdentity → Option ApplyOutcome
  pub observe : ℕ → SetDeploymentImageRequest → ApplyOutcome → Option ReceiverObservation

-- A mutation request that was sent to the receiver.
pub record Dispatch : Type 0 where
  pub request : SetDeploymentImageRequest
  pub target : TargetIdentity

-- The Kubernetes table, the identities and states of the Git table, the clock, the requests sent, the
-- admissions acknowledged, the last first, and whether this process holds the worker lock.
pub record World : Type 0 where
  pub rows : List Record
  pub git : List (Text × Text)
  pub clock : ℕ
  pub sent : List Dispatch
  pub acknowledged : List AdmissionDecision
  pub held : Bool

abbrev pub Run : Type 0 → Type 0 → Type 0
Run E A = World → Result E A × World

abbrev pub Act : Type 0 → Type 0
Act A = Run GatewayError A

abbrev pub continue : {E A B : Type 0} → Result E A × World → (A → Run E B) → Result E B × World
continue (ok value, w) f = f value w
continue (err error, w) f = (err error, w)

infixl 5 ◌>>=◌ ◌>>◌
unfoldable pub ◌>>=◌ : {E A B : Type 0} → Run E A → (A → Run E B) → Run E B
(m >>= f) w = continue (m w) f

unfoldable pub ◌>>◌ : {E B : Type 0} → Run E (Unit {0}) → Run E B → Run E B
(m >> k) w = continue (m w) (λ _. k)

unfoldable pub return : {E A : Type 0} → A → Run E A
return value w = (ok value, w)

unfoldable pub lift : {E A : Type 0} → Result E A → Run E A
lift outcome w = (outcome, w)

abbrev pub convert : {E A : Type 0} → (GatewayError → E) → G A × World → Result E A × World
convert f (ok value, w) = (ok value, w)
convert f (err error, w) = (err (f error), w)

abbrev pub on_error : {E A : Type 0} → (GatewayError → E) → Act A → Run E A
on_error f m w = convert f (m w)

unfoldable pub tick : World → World
tick w = record w { clock = suc w.clock }

abbrev pub with_rows : World → List Record → World
with_rows w rows = record w { rows = rows; clock = suc w.clock }

unfoldable pub field_limit : Column → ℕ
unfolding index
field_limit field = if index field == 8 then 4096 else 16384

-- The length of an integer in decimal; an `i64` has at most 19 digits.
abbrev digits : ℕ → ℕ → ℕ
digits zero n = 1
digits (suc fuel) n = if ltb n 10 then 1 else suc (digits fuel (n / 10))

abbrev integer_length : ℤ → ℕ
integer_length (pos n) = digits 19 n
integer_length (negsuc n) = suc (digits 19 (suc n))

-- `WHERE operation_id = ?1`
abbrev pub has_id : Text → Record → Bool
has_id id r = r.values Record.operation_id == text_value id

abbrev pub find : Text → List Record → Option Record
find id [] = none
find id (r ∷ rows) = if has_id id r then some r else find id rows

abbrev count_id : Text → List Record → ℕ
count_id id [] = 0
count_id id (r ∷ rows) = (if has_id id r then 1 else 0) + count_id id rows

-- `UPDATE .. SET` of the columns that differ.
abbrev pub changed_row : Record → Record → Record → Record
changed_row previous next r = record {
  values = λ column.
      if previous.values column == next.values column then r.values column else next.values column;
}

abbrev pub update_rows : Text → Record → Record → List Record → List Record
update_rows id previous next [] = []
update_rows id previous next (r ∷ rows) =
    (if has_id id r then changed_row previous next r else r) ∷ update_rows id previous next rows

unfoldable pub changed_one : ℕ → G (Unit {0})
changed_one changed = require (changed == 1) invalid_transition

abbrev pub assume_one : G (Unit {0}) → List Record → G (List Record)
assume_one (ok _) rows = ok rows
assume_one (err error) rows = err error

unfoldable pub update_changed_columns : Record → Record → Text → List Record → G (List Record)
unfolding same_values changed_one
update_changed_columns previous next id rows =
    if same_values previous next
    then err invalid_transition
    else assume_one (changed_one (count_id id rows)) (update_rows id previous next rows)

abbrev pub identity_capacity : ℕ
identity_capacity = (16384 - 256) / 32

abbrev pub unfinished_capacity : ℕ
unfinished_capacity = 32

abbrev is_unfinished : Text → Bool
is_unfinished state =
    state == text "requested"
    || state == text "authorized"
    || state == text "apply_started"
    || state == text "receiver_observed"

abbrev unfinished_value : Value → ℕ
unfinished_value (text_value state) = if is_unfinished state then 1 else 0
unfinished_value _ = 0

abbrev unfinished_rows : List Record → ℕ
unfinished_rows [] = 0
unfinished_rows (r ∷ rows) = unfinished_value (r.values Record.state) + unfinished_rows rows

abbrev unfinished_git : List (Text × Text) → ℕ
unfinished_git [] = 0
unfinished_git ((_, state) ∷ rows) = (if is_unfinished state then 1 else 0) + unfinished_git rows

-- `counts`: the identities that both tables retain, and those of them that are unfinished.
unfoldable pub counts : World → ℕ × ℕ
counts w = (length w.rows + length w.git, unfinished_rows w.rows + unfinished_git w.git)

unfoldable pub require_admission : World → G (Unit {0})
unfolding counts
require_admission w =
    let (retained, unfinished) = counts w in
    require (not (leb identity_capacity retained || leb unfinished_capacity unfinished))
      journal_full

abbrev pub git_has_id : Text → List (Text × Text) → Bool
git_has_id id [] = false
git_has_id id ((other, _) ∷ rows) = other == id || git_has_id id rows

-- The other table's identity, then the capacity, then `INSERT`.
unfoldable pub insert_row : Record → Text → World → G (List Record)
unfolding require_admission
insert_row next id w =
    if git_has_id id w.git
    then err operation_identity_conflict
    else assume_one (require_admission w) (next ∷ w.rows)

abbrev pub same_retained : Option Record → Option Record → Bool
same_retained none none = true
same_retained (some r) (some s) = same_values r s
same_retained _ _ = false

unfoldable pub written_rows : Option Record → Record → Text → World → G (List Record)
unfolding update_changed_columns
written_rows (some previous) next id w = update_changed_columns previous next id w.rows
written_rows none next id w = insert_row next id w

unfoldable pub commit_as : Commit → List Record → Act (Unit {0})
unfolding tick
commit_as committed rows w = (ok tt, with_rows w rows)
commit_as lost rows w = (err database, tick w)
commit_as acknowledgement_lost rows w = (err database, with_rows w rows)

module _ (e : Env) where
  abbrev value_length : Value → ℕ
  value_length null = 0
  value_length (integer value) = integer_length value
  value_length (real value) = e.real_length value
  value_length (text_value value) = length value
  value_length (blob value) = length value

  abbrev total_length : Record → List Column → ℕ
  total_length r [] = 0
  total_length r (column ∷ columns) = value_length (r.values column) + total_length r columns

  -- The bounds that the query computes beside the columns.
  unfoldable pub persisted_values_within_bounds : Record → Bool
  unfolding field_limit
  persisted_values_within_bounds r =
      all (λ column. leb (value_length (r.values column)) (field_limit column)) current_columns
      && leb (total_length r current_columns) 65536

  unfoldable pub bounded_row : Option Record → G (Option Record)
  unfolding persisted_values_within_bounds
  bounded_row none = ok none
  bounded_row (some r) =
      if persisted_values_within_bounds r then ok (some r) else err invalid_persisted_state

  unfoldable pub read : Text → Act (Option Record)
  unfolding tick
  read id w =
      if e.reads w.clock then (bounded_row (find id w.rows), tick w) else (err database, tick w)

  -- `SELECT EXISTS` over the Git table.
  unfoldable pub read_collision : Text → Act Bool
  unfolding tick
  read_collision id w =
      if e.reads w.clock then (ok (git_has_id id w.git), tick w) else (err database, tick w)

  unfoldable pub commit : List Record → Act (Unit {0})
  unfolding tick
  commit rows w = commit_as (e.commits w.clock) rows w

  unfoldable pub replace : Option Record → Record → Act (Unit {0})
  unfolding read
  replace expected next = do
    id ← lift (get_text next Record.operation_id)
    retained ← read id
    lift (require (same_retained retained expected) invalid_transition)
    rows ← λ w. (written_rows expected next id w, w)
    commit rows
