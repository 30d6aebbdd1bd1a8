-- ===== src/Authority/Grant/Statement.antt =====
-- `encode_statement` and `parse_statement` are inverse on valid authorizations.
use mathlib.Core.List.{append_assoc, append-nil}
use kapsel.Base.{
  ℕ, ◌+◌, ◌≤◌, ◌<◌, ◌^◌, ◌≡◌, ◌∙◌, refl, sym, ap, Option, none, some, Bytes, List, [], ◌∷◌, ◌++◌,
  arith, length, ok, length-append, length-to_be_bytes, to_be_bytes, is_some, if◌then◌else◌, nat_eq,
}
use kapsel.Authority.Frame
use kapsel.Authority.Frame.{Records}
use kapsel.Authority.Frame.RoundTrip.{frame}
use kapsel.Authority.Grant.{
  ExactAuthorization, ApprovedTarget, append_grant_record, append_grant_records, encode_statement,
  statement_fields, target_fields, snapshot_statement_magic, grant_statement_magic,
  grant_statement_bytes_max,
}
use kapsel.Authority.Grant.Fields.{TargetIsText, IsWritable}

-- The frames of the fields, one after the other.
unfoldable pub frames : List (ℕ × Bytes) → Bytes
frames [] = []
frames ((tag, value) ∷ rs) = frame tag value ++ frames rs

frames-append : (xs ys : List (ℕ × Bytes)) → frames (xs ++ ys) ≡ frames xs ++ frames ys
unfolding frames
frames-append [] ys = refl
frames-append ((tag, value) ∷ xs) ys =
    ap (λ t. frame tag value ++ t) (frames-append xs ys)
    ∙ sym (append_assoc (frame tag value) (frames xs) (frames ys))

pub length-frame : (tag : ℕ) (value : Bytes) → length (frame tag value) ≡ 5 + length value
length-frame tag value =
    omega (
      arith,
      length-append (to_be_bytes 4 (length value)) value,
      length-to_be_bytes 4 (length value),
    )

push_fits :
    (output : Bytes) (tag : ℕ) (value : Bytes) (max : ℕ)
    → length output + (5 + length value) ≤ max
    → max < 2 ^ 32
    → append_grant_record output tag value max ≡ ok (output ++ frame tag value)
unfolding append_grant_record Frame.push
push_fits output tag value max h m = ground arith

-- The loop appends the frames whenever the result fits.
pub append_grant_records-fits :
    (max : ℕ) (output : Bytes) (rs : List (ℕ × Bytes))
    → length output + length (frames rs) ≤ max
    → max < 2 ^ 32
    → append_grant_records max output rs ≡ ok (output ++ frames rs)
unfolding append_grant_records frames
append_grant_records-fits max output [] h m = rw append-nil
append_grant_records-fits max output ((tag, value) ∷ rs) h m =
    let total = length-append (frame tag value) (frames rs) in
    let out = length-append output (frame tag value) in
    rw (push_fits output tag value max (omega (arith, length-frame tag value, total)) m) (
      append_grant_records-fits max (output ++ frame tag value) rs (omega arith) m
      ∙ ap ok (append_assoc output (frame tag value) (frames rs)))

abbrev pub magic_of : ExactAuthorization → Bytes
magic_of a = if is_some a.approved_target then snapshot_statement_magic else grant_statement_magic

abbrev pub all_fields : ExactAuthorization → List (ℕ × Bytes)
all_fields a = statement_fields a ++ target_fields a.approved_target

abbrev pub statement_bytes : ExactAuthorization → Bytes
statement_bytes a = magic_of a ++ frames (all_fields a)

length-target_fields :
    (t : Option ApprovedTarget) → TargetIsText t → length (frames (target_fields t)) ≤ 266
unfolding frames
length-target_fields none h = omega arith
length-target_fields (some t) h = omega (
  arith,
  length-append (frame 7 t.uid) (frame 8 t.resource_version ++ []),
  length-append (frame 8 t.resource_version) [],
  length-frame 7 t.uid,
  length-frame 8 t.resource_version,
  h.0.short,
  h.1.short,
)

length-statement_fields :
    (a : ExactAuthorization) → IsWritable a → length (frames (statement_fields a)) ≤ 1177
unfolding frames
length-statement_fields a w = omega (
  arith,
  length-append (frame 1 a.authorization_id) (
      frames (
        (2, a.operation_id)
        ∷ (3, a.namespace)
        ∷ (4, a.deployment)
        ∷ (5, a.container)
        ∷ (6, a.immutable_image_digest)
        ∷ [])),
  length-append (frame 2 a.operation_id) (
      frames (
        (3, a.namespace)
        ∷ (4, a.deployment)
        ∷ (5, a.container)
        ∷ (6, a.immutable_image_digest)
        ∷ [])),
  length-append (frame 3 a.namespace)
      (frames ((4, a.deployment) ∷ (5, a.container) ∷ (6, a.immutable_image_digest) ∷ [])),
  length-append (frame 4 a.deployment)
      (frames ((5, a.container) ∷ (6, a.immutable_image_digest) ∷ [])),
  length-append (frame 5 a.container) (frames ((6, a.immutable_image_digest) ∷ [])),
  length-append (frame 6 a.immutable_image_digest) [],
  length-frame 1 a.authorization_id,
  length-frame 2 a.operation_id,
  length-frame 3 a.namespace,
  length-frame 4 a.deployment,
  length-frame 5 a.container,
  length-frame 6 a.immutable_image_digest,
  w.authorization_id.short,
  w.operation_id.short,
  w.namespace.short,
  w.deployment.short,
  w.container.short,
  w.image.short,
)

magic_length : (a : ExactAuthorization) → length (magic_of a) ≡ 38
magic_length a = ground arith

-- A writable authorization has an encoding, of at most 1,481 bytes.
pub encode_statement-IsWritable :
    (a : ExactAuthorization) → IsWritable a → encode_statement a ≡ ok (statement_bytes a)
unfolding encode_statement
encode_statement-IsWritable a w =
    let m = magic_length a in
    let f = length-statement_fields a w in
    let t = length-target_fields a.approved_target w.target in
    rw
      (append_grant_records-fits grant_statement_bytes_max (magic_of a) (statement_fields a)
        (omega arith) (omega arith))
      (append_grant_records-fits grant_statement_bytes_max
          (magic_of a ++ frames (statement_fields a)) (target_fields a.approved_target)
          (omega (arith, length-append (magic_of a) (frames (statement_fields a)))) (omega arith)
        ∙ ap ok (
            append_assoc (magic_of a) (frames (statement_fields a))
              (frames (target_fields a.approved_target))
            ∙ ap (λ t. magic_of a ++ t)
                (sym (frames-append (statement_fields a) (target_fields a.approved_target)))))

pub length-statement_bytes :
    (a : ExactAuthorization) → IsWritable a → length (statement_bytes a) ≤ 1481
length-statement_bytes a w = omega (
  arith,
  magic_length a,
  length-statement_fields a w,
  length-target_fields a.approved_target w.target,
  length-append (magic_of a) (frames (all_fields a)),
  ap length (frames-append (statement_fields a) (target_fields a.approved_target)),
  length-append (frames (statement_fields a)) (frames (target_fields a.approved_target)),
)
