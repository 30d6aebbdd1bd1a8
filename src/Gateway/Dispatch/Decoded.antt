-- ===== src/Gateway/Dispatch/Decoded.antt =====
-- What the decoder of src/gateway/journal/mod.rs has checked of a row that it accepts.
use kapsel.Base.{
  ℤ, pos, Bool, true, false, not, Option, Result, ok, err, sym, traverse, require, is_some, ◌&&◌,
  ◌||◌, option_eq, ◌≡◌, ◌==◌, if◌then◌else◌, refl, arith, ◌>>=◌, from-bind, from-then, map_err, ap,
  Bool-cases, inl, inr, int_eq,
}
use kapsel.Authority.Grant.{Crypto}
use kapsel.Gateway.Types.{
  ValidatedRequest, validate_identity, validate_dns_label, validate_dns_subdomain,
  validate_immutable_image, operation_id, namespace, deployment, container, GatewayError,
  OperationState, requested, authorized, not_attempted, apply_started, receiver_observed, finalized,
  ReceiptStatement, state_from_sql, result_from_sql, rejection_from_sql, try_from_request,
  invalid_persisted_state, SetDeploymentImageRequest, state_eq, result_eq, TargetRejection,
  OperationResult,
}
use kapsel.Gateway.Journal.Record
use kapsel.Gateway.Journal.Record.{
  Record, Value, null, real, blob, value_eq, as_integer, text_value, integer, get_text, get_integer,
  get_optional_text, get_optional_integer, get_optional_blob,
}
use kapsel.Gateway.Journal.Phases.{
  LoadedOperation, loaded_state, request_facts, RequestFacts, AuthorizationFacts, AttemptFacts,
  FrozenReceipt,
}
use kapsel.Gateway.Journal.Decoder.{
  phase_of, decode_sql_bool, snapshot_target, validate_snapshot_authorization,
  validate_snapshot_attempt_facts, snapshot_frozen_receipt, approval_is_kept, result_of,
}
use kapsel.Gateway.Journal.Rows.{
  SnapshotRow, preflight_is_allowed, snapshot_row, decode, into_operation, decode_statement,
}
use kapsel.Gateway.Dispatch.{attempted}

ok-injective : {E A : Type 0} {a b : A} → ◌≡◌ {A = Result E A} (ok a) (ok b) → a ≡ b
ok-injective h = cc h

-- The phases after an attempt.
unfoldable pub is_attempted : OperationState → Bool
is_attempted requested = false
is_attempted authorized = false
is_attempted not_attempted = false
is_attempted apply_started = true
is_attempted receiver_observed = true
is_attempted finalized = true

phase_of-eq-ok :
    (state : OperationState) (flag : Bool) (request : RequestFacts)
    (authorization : Option AuthorizationFacts) (rejection : Option TargetRejection)
    (attempt : Option AttemptFacts) (result : Option OperationResult)
    (receiver : Option ReceiptStatement) (frozen : Option FrozenReceipt) (present : Bool)
    (l : LoadedOperation)
    → phase_of state flag request authorization rejection attempt result receiver frozen present
      ≡ ok l
    → (loaded_state l ≡ state) × (is_attempted state ≡ flag) × (request_facts l ≡ request)
unfolding phase_of loaded_state is_attempted request_facts
phase_of-eq-ok requested flag request authorization rejection attempt result receiver frozen present
      l h =
    ground arith
phase_of-eq-ok authorized flag request authorization rejection attempt result receiver frozen
      present l h =
    ground arith
phase_of-eq-ok not_attempted flag request authorization rejection attempt result receiver frozen
      present l h =
    ground arith
phase_of-eq-ok apply_started flag request authorization rejection attempt result receiver frozen
      present l h =
    ground arith
phase_of-eq-ok receiver_observed flag request authorization rejection attempt result receiver frozen
      present l h =
    ground arith
phase_of-eq-ok finalized flag request authorization rejection attempt result receiver frozen present
      l h =
    ground arith

-- The flag, the state and the identity of an accepted row.
record Checked (r : Record) (l : LoadedOperation) (row : SnapshotRow) : Type 0 where
  state : state_from_sql row.state ≡ ok (loaded_state l)
  flag : decode_sql_bool row.apply_attempted ≡ ok (is_attempted (loaded_state l))
  id : (request_facts l).request.operation_id ≡ row.operation_id

abbrev row_request : SnapshotRow → SetDeploymentImageRequest
row_request row = record {
  operation_id = row.operation_id;
  namespace = row.namespace;
  deployment = row.deployment;
  container = row.container;
  immutable_image_digest = row.immutable_image_digest;
}

-- A validated request is of the identity that was given.
pub try_from_request-id :
    (q : SetDeploymentImageRequest) (v : ValidatedRequest)
    → try_from_request q ≡ ok v
    → v.operation_id ≡ q.operation_id
unfolding try_from_request
try_from_request-id q v h = from-then (validate_identity operation_id q.operation_id) _ h λ h1.
    from-then (validate_dns_label namespace q.namespace) _ h1 λ h2.
      from-then (validate_dns_subdomain deployment q.deployment) _ h2 λ h3.
        from-then (validate_dns_label container q.container) _ h3 λ h4.
          from-then (validate_immutable_image q.immutable_image_digest) _ h4 λ h5.
            let same = ok-injective h5 in ap (λ (x : ValidatedRequest). x.operation_id) (sym same)

valid_request-id :
    (q : SetDeploymentImageRequest) (v : ValidatedRequest)
    → map_err (try_from_request q) invalid_persisted_state ≡ ok v
    → v.operation_id ≡ q.operation_id
valid_request-id q v h = map_err_case (try_from_request q) refl h
  where
    map_err_case :
        (out : Result GatewayError ValidatedRequest)
        → try_from_request q ≡ out
        → map_err out invalid_persisted_state ≡ ok v
        → v.operation_id ≡ q.operation_id
    map_err_case (ok value) e h' = try_from_request-id q v (cc (e, h'))
    map_err_case (err error) e h' = cc h'

into_operation-Checked :
    (c : Crypto) (r : Record) (row : SnapshotRow) (statement : Option ReceiptStatement)
    (l : LoadedOperation)
    → into_operation c row statement ≡ ok l
    → Checked r l row
unfolding into_operation
into_operation-Checked c r row statement l h =
    from-bind (state_from_sql row.state) _ h λ state hs h1.
      from-bind (decode_sql_bool row.apply_attempted) _ h1 λ flag hf h2.
        from-bind (traverse decode_sql_bool row.apply_accepted) _ h2 λ accepted _ h3.
          from-bind (snapshot_target row.approved_uid row.approved_resource_version) _ h3
            λ approved _ h4.
              from-bind (snapshot_target row.preflight_uid row.preflight_resource_version) _ h4
                λ preflight _ h5.
                  from-then
                    (require
                      (not (is_some preflight && (state == requested || state == authorized)))
                      invalid_persisted_state)
                    _ h5
                    λ h6.
                      from-bind
                        (map_err (try_from_request (row_request row)) invalid_persisted_state) _ h6
                        λ valid hv h7.
                          from-bind (traverse result_from_sql row.result) _ h7 λ result _ h8.
                            from-bind (traverse rejection_from_sql row.target_rejection) _ h8
                              λ rejection _ h9.
                                from-bind (validate_snapshot_authorization _ _ _) _ h9
                                  λ authorization _ h10.
                                    from-bind
                                      (validate_snapshot_attempt_facts state _ _ _ accepted _ _) _
                                      h10
                                      λ attempt _ h11.
                                        let request : RequestFacts = record {
                                          approved_target = approved;
                                          preflight_target = preflight;
                                          request = valid;
                                        } in
                                        from-then
                                          (require
                                            (approval_is_kept request authorization attempt
                                              approved)
                                            invalid_persisted_state)
                                          _ h11
                                          λ h12.
                                            from-then
                                              (require
                                                (preflight_is_allowed state request rejection)
                                                invalid_persisted_state)
                                              _ h12
                                              λ h13.
                                                from-then
                                                  (require (result_of statement == result)
                                                    invalid_persisted_state)
                                                  _ h13
                                                  λ h14.
                                                    from-bind
                                                      (snapshot_frozen_receipt c _ _ _ _ statement)
                                                      _ h14
                                                      λ frozen _ h15.
                                                        let (ls, lf, lr) =
                                                          phase_of-eq-ok state flag request
                                                            authorization rejection attempt result
                                                            statement frozen _ l h15 in
                                                        record {
                                                          state = rw ls hs;
                                                          flag = rw ls (rw lf hf);
                                                          id = rw lr (
                                                            valid_request-id (row_request row) valid
                                                            hv);
                                                        }

-- The columns that a snapshot row is checked by.
snapshot_row-columns :
    (r : Record) (row : SnapshotRow)
    → snapshot_row r ≡ ok row
    → (get_text r Record.state ≡ ok row.state)
      × (get_integer r Record.apply_attempted ≡ ok row.apply_attempted)
      × (get_text r Record.operation_id ≡ ok row.operation_id)
unfolding snapshot_row
snapshot_row-columns r row h0 = from-bind (get_optional_text r Record.approved_uid) _ h0 λ v1 _ h1.
    from-bind (get_optional_text r Record.approved_resource_version) _ h1 λ v2 _ h2.
      from-bind (get_optional_text r Record.preflight_uid) _ h2 λ v3 _ h3.
        from-bind (get_optional_text r Record.preflight_resource_version) _ h3 λ v4 _ h4.
          from-bind (get_text r Record.operation_id) _ h4 λ v5 ei h5.
            from-bind (get_text r Record.namespace) _ h5 λ v6 _ h6.
              from-bind (get_text r Record.deployment) _ h6 λ v7 _ h7.
                from-bind (get_text r Record.container) _ h7 λ v8 _ h8.
                  from-bind (get_text r Record.immutable_image_digest) _ h8 λ v9 _ h9.
                    from-bind (get_text r Record.state) _ h9 λ v10 es h10.
                      from-bind (get_optional_text r Record.result) _ h10 λ v11 _ h11.
                        from-bind (get_optional_text r Record.target_rejection) _ h11 λ v12 _ h12.
                          from-bind (get_optional_text r Record.authorization_id) _ h12 λ v13 _ h13.
                            from-bind (get_optional_text r Record.authorization_signer_key_id) _ h13
                              λ v14 _ h14.
                                from-bind (get_optional_text r Record.authorization_grant_digest) _
                                  h14
                                  λ v15 _ h15.
                                    from-bind (get_optional_text r Record.write_strategy) _ h15
                                      λ v16 _ h16.
                                        from-bind (get_integer r Record.apply_attempted) _ h16
                                          λ v17 ea h17.
                                            from-bind (get_optional_text r Record.target_uid) _ h17
                                              λ v18 _ h18.
                                                from-bind
                                                  (get_optional_text r
                                                    Record.target_resource_version)
                                                  _ h18
                                                  λ v19 _ h19.
                                                    from-bind
                                                      (get_optional_integer r Record.apply_accepted)
                                                      _ h19
                                                      λ v20 _ h20.
                                                        from-bind
                                                          (get_optional_integer r
                                                            Record.requested_generation)
                                                          _ h20
                                                          λ v21 _ h21.
                                                            from-bind
                                                            (get_optional_text r
                                                            Record.apply_resource_version)
                                                            _ h21
                                                            λ v22 _ h22.
                                                            from-bind
                                                            (get_optional_text r
                                                            Record.receipt_digest)
                                                            _ h22
                                                            λ v23 _ h23.
                                                            from-bind
                                                            (get_optional_blob r
                                                            Record.receipt_bytes)
                                                            _ h23
                                                            λ v24 _ h24.
                                                            from-bind
                                                            (get_optional_text r
                                                            Record.receipt_key_id)
                                                            _ h24
                                                            λ v25 _ h25.
                                                            let same = ok-injective h25 in
                                                            (
                                                            cc (
                                                            es,
                                                            ap (λ (x : SnapshotRow). x.state) same,
                                                            ),
                                                            cc (
                                                            ea,
                                                            ap
                                                            (λ (x : SnapshotRow). x.apply_attempted)
                                                            same,
                                                            ),
                                                            cc (
                                                            ei,
                                                            ap (λ (x : SnapshotRow). x.operation_id)
                                                            same,
                                                            ),
                                                            )

get_integer-eq-ok :
    (r : Record) (column : Record.Column) (value : ℤ)
    → get_integer r column ≡ ok value
    → r.values column ≡ integer value
unfolding get_integer
get_integer-eq-ok r column value h = as_integer-eq-ok (r.values column) h
  where
    as_integer-eq-ok : (v : Value) → as_integer v ≡ ok value → v ≡ integer value
    as_integer-eq-ok null h' = cc h'
    as_integer-eq-ok (integer n) h' = cc h'
    as_integer-eq-ok (real n) h' = cc h'
    as_integer-eq-ok (text_value n) h' = cc h'
    as_integer-eq-ok (blob n) h' = cc h'

zero_flag : (value_eq.beq (integer (pos 0)) (integer (pos 1))) ≡ false
zero_flag = elim (Bool-cases (value_eq.beq (integer (pos 0)) (integer (pos 1)))) [
  | inl p ↦ absurd (integer_01 (value_eq.beq_sound (integer (pos 0)) (integer (pos 1)) p))
  | inr q ↦ q
]
  where
    integer_01 : integer (pos 0) ≡ integer (pos 1) → ⊥
    integer_01 h = cc h

flag-attempted :
    (r : Record) (value : ℤ) (flag : Bool)
    → get_integer r Record.apply_attempted ≡ ok value
    → decode_sql_bool value ≡ ok flag
    → attempted r ≡ (if flag then 1 else 0)
unfolding decode_sql_bool
flag-attempted r value flag hv hf =
    let e = get_integer-eq-ok r Record.apply_attempted value hv in
    elim (Bool-cases (value == pos 0)) [
      | inl p ↦
          let z : flag ≡ false = ok-injective {E = GatewayError} (cc (rw p at hf)) in
          rw e (rw (int_eq.beq_sound value (pos 0) p) (rw zero_flag (rw z refl)))
      | inr q ↦ elim (Bool-cases (value == pos 1)) [
        | inl p ↦
            let z : flag ≡ true = ok-injective {E = GatewayError} (cc (rw p at (rw q at hf))) in
            rw e (
              rw (int_eq.beq_sound value (pos 1) p)
                (rw (value_eq.beq_refl (integer (pos 1))) (rw z refl)))
        | inr p ↦ let h = rw p at (rw q at hf) in cc h
      ]
    ]

decode_statement-row :
    (c : Crypto) (r : Record) (l : LoadedOperation)
    → decode c r ≡ ok l
    → (row : SnapshotRow) × (statement : Option ReceiptStatement) × (snapshot_row r ≡ ok row)
      × (into_operation c row statement ≡ ok l)
unfolding decode
decode_statement-row c r l h =
    from-bind (snapshot_row r) _ h λ row hr h1.
      from-bind (decode_statement r row) _ h1 λ statement _ h2. (row, statement, hr, h2)

-- An accepted row is in the state that its text spells, and its attempt flag is set in exactly the
-- phases after an attempt: apply started, receiver observed and finalized.
pub decode-eq-ok :
    (c : Crypto) (r : Record) (l : LoadedOperation)
    → decode c r ≡ ok l
    → (attempted r ≡ (if is_attempted (loaded_state l) then 1 else 0))
      × ((get_text r Record.state >>= state_from_sql) ≡ ok (loaded_state l))
decode-eq-ok c r l h =
    let (row, statement, hr, hi) = decode_statement-row c r l h in
    let checked = into_operation-Checked c r row statement l hi in
    let (ht, ha, _) = snapshot_row-columns r row hr in
    (
      flag-attempted r row.apply_attempted (is_attempted (loaded_state l)) ha checked.flag,
      rw ht checked.state,
    )

-- Its request is of the identity that its key spells.
pub decode-request_id :
    (c : Crypto) (r : Record) (l : LoadedOperation)
    → decode c r ≡ ok l
    → get_text r Record.operation_id ≡ ok (request_facts l).request.operation_id
decode-request_id c r l h =
    let (row, statement, hr, hi) = decode_statement-row c r l h in
    let checked = into_operation-Checked c r row statement l hi in
    let (_, _, ht) = snapshot_row-columns r row hr in rw checked.id ht
