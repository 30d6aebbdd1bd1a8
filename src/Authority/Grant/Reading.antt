-- ===== src/Authority/Grant/Reading.antt =====
-- Parsing an encoded statement gives the authorization back.
use kapsel.Base.{
  ℕ, ◌+◌, ◌≤◌, ◌<◌, ◌^◌, ◌≡◌, refl, Option, none, some, Bytes, [], ◌++◌, arith, length, ok,
  starts_with, starts_with-append, length-append, drop-append, is_some, nat_eq,
}
use kapsel.Authority.Frame
use kapsel.Authority.Frame.{Records}
use kapsel.Authority.Frame.RoundTrip.{frame, At, behind, behind-At, take-frame}
use kapsel.Authority.Grant.{
  ExactAuthorization, ApprovedTarget, validate, parse_statement, take_ascii_text, take_record,
  take_target, new_records, finish_exact, snapshot_statement_magic, target_fields,
}
use kapsel.Authority.Grant.Fields.{IsText, TargetIsText, validate-IsWritable}
use kapsel.Authority.Grant.Statement.{frames, statement_bytes, magic_of}

abbrev pub reader : Bytes → Bytes → Records
reader magic rest = record { bytes = magic ++ rest; offset = length magic; next_tag = 1 }

-- A new reader stands behind the magic.
pub reader-At :
    (magic rest : Bytes) → length magic + length rest < 2 ^ 63 → At 1 rest (reader magic rest)
reader-At magic rest h = record {
  next = refl;
  remaining = drop-append magic rest;
  inside = length-append magic rest;
  addressable = omega (arith, length-append magic rest);
}

pub new_records-append :
    (magic rest : Bytes) → new_records (magic ++ rest) magic ≡ ok (reader magic rest)
unfolding new_records Frame.new
new_records-append magic rest = rw (starts_with-append magic rest)

module _ (tag : ℕ) (value rest : Bytes) (r : Records) (a : At tag (frame tag value ++ rest) r) where
  pub take_record-frame :
      tag < 255 → length value < 2 ^ 32 → take_record tag r ≡ ok (value, behind tag value rest r a)
  unfolding take_record
  take_record-frame t v = rw (take-frame tag value rest r a t v)

  pub take_ascii_text-frame :
      (bound : ℕ)
      → IsText bound value
      → bound ≤ 512
      → tag < 255
      → take_ascii_text tag r ≡ ok (value, behind tag value rest r a)
  unfolding take_ascii_text
  take_ascii_text-frame bound v b t =
      rw (take_record-frame t (omega (arith, v.short))) (ground (arith, v.full, v.short, v.ascii))

pub finish_exact-At : (tag : ℕ) (r : Records) → At tag [] r → finish_exact r ≡ ok tt
unfolding finish_exact Frame.finish
finish_exact-At tag r a = ground (arith, a.inside)

pub snapshot_bound_of_statement :
    (a : ExactAuthorization) (rest : Bytes)
    → starts_with (magic_of a ++ rest) snapshot_statement_magic ≡ is_some a.approved_target
snapshot_bound_of_statement a rest = ground arith

read_target :
    (t : Option ApprovedTarget) (r : Records)
    → TargetIsText t
    → At 7 (frames (target_fields t)) r
    → (r' : Records) × (n : ℕ) × (take_target (is_some t) r ≡ ok (t, r')) × At n [] r'
unfolding frames
read_target none r h a = (r, 7, refl, a)
read_target (some t) r h a =
    let b7 = behind 7 t.uid (frame 8 t.resource_version ++ []) r a in
    let a8 = behind-At 7 t.uid (frame 8 t.resource_version ++ []) r a in
    (
      behind 8 t.resource_version [] b7 a8,
      9,
      rw (
        take_ascii_text-frame 7 t.uid (frame 8 t.resource_version ++ []) r a 128 h.0 (omega arith)
            (omega arith),
        take_ascii_text-frame 8 t.resource_version [] b7 a8 128 h.1 (omega arith) (omega arith),
      ),
      behind-At 8 t.resource_version [] b7 a8,
    )

-- Parsing the encoding of a valid authorization, of fewer than 2^63 bytes, returns it.
pub parse-statement_bytes :
    (a : ExactAuthorization)
    → validate a ≡ ok tt
    → length (statement_bytes a) < 2 ^ 63
    → parse_statement (statement_bytes a) ≡ ok a
unfolding parse_statement frames
parse-statement_bytes a v small =
    let w = validate-IsWritable a v in
    let f6 = frames (target_fields a.approved_target) in
    let f5 = frame 6 a.immutable_image_digest ++ f6 in
    let f4 = frame 5 a.container ++ f5 in
    let f3 = frame 4 a.deployment ++ f4 in
    let f2 = frame 3 a.namespace ++ f3 in
    let f1 = frame 2 a.operation_id ++ f2 in
    let f0 = frame 1 a.authorization_id ++ f1 in
    let r0 = reader (magic_of a) f0 in
    let a0 = reader-At (magic_of a) f0 (omega (arith, small, length-append (magic_of a) f0)) in
    let r1 = behind 1 a.authorization_id f1 r0 a0 in
    let a1 = behind-At 1 a.authorization_id f1 r0 a0 in
    let r2 = behind 2 a.operation_id f2 r1 a1 in
    let a2 = behind-At 2 a.operation_id f2 r1 a1 in
    let r3 = behind 3 a.namespace f3 r2 a2 in
    let a3 = behind-At 3 a.namespace f3 r2 a2 in
    let r4 = behind 4 a.deployment f4 r3 a3 in
    let a4 = behind-At 4 a.deployment f4 r3 a3 in
    let r5 = behind 5 a.container f5 r4 a4 in
    let a5 = behind-At 5 a.container f5 r4 a4 in
    let r6 = behind 6 a.immutable_image_digest f6 r5 a5 in
    let a6 = behind-At 6 a.immutable_image_digest f6 r5 a5 in
    let (r7, n, e7, a7) = read_target a.approved_target r6 w.target a6 in
    rw (snapshot_bound_of_statement a f0) (
      rw (new_records-append (magic_of a) f0) (
        rw
          (take_ascii_text-frame 1 a.authorization_id f1 r0 a0 128 w.authorization_id (omega arith)
            (omega arith))
          (rw
            (take_ascii_text-frame 2 a.operation_id f2 r1 a1 128 w.operation_id (omega arith)
              (omega arith))
            (rw
              (take_ascii_text-frame 3 a.namespace f3 r2 a2 63 w.namespace (omega arith)
                (omega arith))
              (rw
                (take_ascii_text-frame 4 a.deployment f4 r3 a3 253 w.deployment (omega arith)
                  (omega arith))
                (rw
                  (take_ascii_text-frame 5 a.container f5 r4 a4 63 w.container (omega arith)
                    (omega arith))
                  (rw
                    (take_ascii_text-frame 6 a.immutable_image_digest f6 r5 a5 512 w.image
                      (omega arith) (omega arith))
                    (rw e7 (rw (finish_exact-At n r7 a7) (rw v))))))))))
