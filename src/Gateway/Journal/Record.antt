-- ===== src/Gateway/Journal/Record.antt =====
-- src/gateway/journal/records.rs and schema.rs: a raw row of the operations table. A record is
-- a function from the columns; a stored real keeps its bits and is compared by them.
use kapsel.Base.{
  ℕ, ℤ, pos, Bool, true, false, not, Option, none, some, List, [], ◌∷◌, Bytes, Text, ok, err, ◌==◌,
  nat_eq, list_eq, if◌then◌else◌, Eq, eq_by, all, leb_ℤ, ◌&&◌, negsuc, ℕ_discrete,
}
use kapsel.Gateway.Types.{G, invalid_persisted_state}

pub data Column : Type 0 where
  operation_id namespace deployment container immutable_image_digest : Column
  authorization_id authorization_signer_key_id authorization_grant_digest : Column
  signed_authorization_grant state write_strategy target_rejection : Column
  target_read_failures apply_attempted target_uid target_resource_version : Column
  apply_accepted requested_generation apply_resource_version receiver_uid : Column
  receiver_image receiver_operation_marker current_generation observed_generation : Column
  receiver_resource_version desired_replicas updated_replicas available_replicas : Column
  unavailable_replicas available_condition progress_deadline_exceeded result : Column
  receipt_digest receipt_bytes receipt_key_id rollout_condition_type : Column
  rollout_condition_status rollout_condition_reason approved_uid : Column
  approved_resource_version preflight_uid preflight_resource_version : Column

abbrev pub current_columns : List Column
current_columns =
    operation_id ∷ namespace ∷ deployment ∷ container ∷ immutable_image_digest ∷ authorization_id
    ∷ authorization_signer_key_id ∷ authorization_grant_digest ∷ signed_authorization_grant ∷ state
    ∷ write_strategy ∷ target_rejection ∷ target_read_failures ∷ apply_attempted ∷ target_uid
    ∷ target_resource_version ∷ apply_accepted ∷ requested_generation ∷ apply_resource_version
    ∷ receiver_uid ∷ receiver_image ∷ receiver_operation_marker ∷ current_generation
    ∷ observed_generation ∷ receiver_resource_version ∷ desired_replicas ∷ updated_replicas
    ∷ available_replicas ∷ unavailable_replicas ∷ available_condition ∷ progress_deadline_exceeded
    ∷ result ∷ receipt_digest ∷ receipt_bytes ∷ receipt_key_id ∷ rollout_condition_type
    ∷ rollout_condition_status ∷ rollout_condition_reason ∷ approved_uid ∷ approved_resource_version
    ∷ preflight_uid ∷ preflight_resource_version ∷ []

-- The position of a column in the table.
unfoldable pub index : Column → ℕ
index operation_id = 0
index namespace = 1
index deployment = 2
index container = 3
index immutable_image_digest = 4
index authorization_id = 5
index authorization_signer_key_id = 6
index authorization_grant_digest = 7
index signed_authorization_grant = 8
index state = 9
index write_strategy = 10
index target_rejection = 11
index target_read_failures = 12
index apply_attempted = 13
index target_uid = 14
index target_resource_version = 15
index apply_accepted = 16
index requested_generation = 17
index apply_resource_version = 18
index receiver_uid = 19
index receiver_image = 20
index receiver_operation_marker = 21
index current_generation = 22
index observed_generation = 23
index receiver_resource_version = 24
index desired_replicas = 25
index updated_replicas = 26
index available_replicas = 27
index unavailable_replicas = 28
index available_condition = 29
index progress_deadline_exceeded = 30
index result = 31
index receipt_digest = 32
index receipt_bytes = 33
index receipt_key_id = 34
index rollout_condition_type = 35
index rollout_condition_status = 36
index rollout_condition_reason = 37
index approved_uid = 38
index approved_resource_version = 39
index preflight_uid = 40
index preflight_resource_version = 41

pub data Value : Type 0 where
  null : Value
  integer : ℤ → Value
  real : ℕ → Value
  text_value : Text → Value
  blob : Bytes → Value

unfoldable pub Value-discrete : Discrete Value
Value-discrete = hlevel (ℕ_discrete)

instance unfoldable pub value_eq : Eq Value
unfolding Value-discrete
value_eq = eq_by Value-discrete

pub record Record : Type 0 where
  pub values : Column → Value

unfoldable pub set : Column → Value → Record → Record
unfolding index
set field value r = record {
  values = λ column. if index column == index field then value else r.values column;
}

unfoldable pub set_optional {ℓ} : {A : Type ℓ} → Column → (A → Value) → Option A → Record → Record
unfolding set
set_optional field into none r = set field null r
set_optional field into (some value) r = set field (into value) r

unfoldable pub empty : Text → Record
unfolding set
empty id = set apply_attempted (integer (pos 0)) (
    set target_read_failures (integer (pos 0))
      (set operation_id (text_value id) (record { values = λ _. null })))

abbrev is_null : Value → Bool
is_null null = true
is_null _ = false

unfoldable pub has_value : Record → Column → Bool
has_value r field = not (is_null (r.values field))

-- `PartialEq` of two rows.
unfoldable pub same_values : Record → Record → Bool
same_values r s = all (λ column. r.values column == s.values column) current_columns

-- `record.get::<T>(field)` for each type the journal reads.
abbrev as_text : Value → G Text
as_text (text_value value) = ok value
as_text _ = err invalid_persisted_state

abbrev as_optional_text : Value → G (Option Text)
as_optional_text null = ok none
as_optional_text (text_value value) = ok (some value)
as_optional_text _ = err invalid_persisted_state

abbrev pub as_integer : Value → G ℤ
as_integer (integer value) = ok value
as_integer _ = err invalid_persisted_state

abbrev as_optional_integer : Value → G (Option ℤ)
as_optional_integer null = ok none
as_optional_integer (integer value) = ok (some value)
as_optional_integer _ = err invalid_persisted_state

abbrev is_i32 : ℤ → Bool
is_i32 value = leb_ℤ (negsuc 2147483647) value && leb_ℤ value (pos 2147483647)

abbrev as_optional_i32 : Value → G (Option ℤ)
as_optional_i32 null = ok none
as_optional_i32 (integer value) =
    if is_i32 value then ok (some value) else err invalid_persisted_state
as_optional_i32 _ = err invalid_persisted_state

abbrev as_optional_blob : Value → G (Option Bytes)
as_optional_blob null = ok none
as_optional_blob (blob value) = ok (some value)
as_optional_blob _ = err invalid_persisted_state

unfoldable pub get_text : Record → Column → G Text
get_text r field = as_text (r.values field)

unfoldable pub get_optional_text : Record → Column → G (Option Text)
get_optional_text r field = as_optional_text (r.values field)

unfoldable pub get_integer : Record → Column → G ℤ
get_integer r field = as_integer (r.values field)

unfoldable pub get_optional_integer : Record → Column → G (Option ℤ)
get_optional_integer r field = as_optional_integer (r.values field)

unfoldable pub get_optional_i32 : Record → Column → G (Option ℤ)
get_optional_i32 r field = as_optional_i32 (r.values field)

unfoldable pub get_optional_blob : Record → Column → G (Option Bytes)
get_optional_blob r field = as_optional_blob (r.values field)
