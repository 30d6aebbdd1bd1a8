-- ===== src/Authority/Grant/Signing.antt =====
-- Signing a valid authorization always succeeds, and the grant verifies under the signer's key.
use kapsel.Base.{
  ◌+◌, ◌≤◌, ◌≡◌, refl, Bool, true, false, Bytes, Text, [], ◌∷◌, ◌++◌, arith, length, ok,
  starts_with, length-append, is_some, if◌then◌else◌, nat_eq, list_eq, bool_eq, leb,
}
use kapsel.Authority.Grammar.{identity_is_valid}
use kapsel.Authority.Frame.RoundTrip.{frame, behind, behind-At}
use kapsel.Authority.Grant.{
  ExactAuthorization, Crypto, AuthorizationTrust, validate, sign_authorization_grant,
  sign_grant_statement, verify_authorization_grant, validate_trust, digest_hex, signature_input,
  grant_purpose, snapshot_grant_magic, signed_grant_magic, snapshot_purpose, legacy_grant_purpose,
  signed_grant_bytes_max,
}
use kapsel.Authority.Grant.Fields.{validate-IsWritable, identity-IsText}
use kapsel.Authority.Grant.Statement.{
  frames, statement_bytes, encode_statement-IsWritable, append_grant_records-fits,
  length-statement_bytes, length-frame,
}
use kapsel.Authority.Grant.Reading.{
  reader, reader-At, new_records-append, take_record-frame, take_ascii_text-frame, finish_exact-At,
  parse-statement_bytes, snapshot_bound_of_statement,
}

-- What the code relies on: signatures have 64 bytes and verify under the signer's public key, which
-- is a valid key.
pub record IsCrypto (c : Crypto) : Type 0 where
  pub length-sign : (seed message : Bytes) → length (c.sign seed message) ≡ 64
  pub public_key_is_valid : (seed : Bytes) → c.key_is_valid (c.public_key seed) ≡ true
  pub verify-sign :
      (seed message : Bytes)
      → c.verify_strict (c.public_key seed) message (c.sign seed message) ≡ true

abbrev pub envelope_magic : Bool → Bytes
envelope_magic snapshot_bound = if snapshot_bound then snapshot_grant_magic else signed_grant_magic

abbrev pub envelope_purpose : Bool → Text
envelope_purpose snapshot_bound = if snapshot_bound then snapshot_purpose else legacy_grant_purpose

abbrev pub envelope : Bool → Text → Bytes → Bytes → Bytes
envelope snapshot_bound key_id statement signature =
    envelope_magic snapshot_bound
    ++ frames
        ((1, envelope_purpose snapshot_bound) ∷ (2, key_id) ∷ (3, statement) ∷ (4, signature) ∷ [])

starts_with-envelope :
    (b : Bool) (rest : Bytes) → starts_with (envelope_magic b ++ rest) snapshot_grant_magic ≡ b
starts_with-envelope true rest = refl
starts_with-envelope false rest = refl

length-envelope_magic : (b : Bool) → length (envelope_magic b) ≡ 28
length-envelope_magic true = refl
length-envelope_magic false = refl

length-envelope_purpose : (b : Bool) → length (envelope_purpose b) ≡ 55
length-envelope_purpose true = refl
length-envelope_purpose false = refl

length-frames :
    (b : Bool) (k s g : Bytes)
    → length (frames ((1, envelope_purpose b) ∷ (2, k) ∷ (3, s) ∷ (4, g) ∷ []))
      ≡ 75 + length k + length s + length g
unfolding frames
length-frames b k s g = omega (
  arith,
  length-append (frame 1 (envelope_purpose b)) (frame 2 k ++ (frame 3 s ++ (frame 4 g ++ []))),
  length-append (frame 2 k) (frame 3 s ++ (frame 4 g ++ [])),
  length-append (frame 3 s) (frame 4 g ++ []),
  length-append (frame 4 g) [],
  length-frame 1 (envelope_purpose b),
  length-frame 2 k,
  length-frame 3 s,
  length-frame 4 g,
  length-envelope_purpose b,
)

pub grant_purpose-statement_bytes :
    (a : ExactAuthorization)
    → grant_purpose (statement_bytes a) ≡ envelope_purpose (is_some a.approved_target)
unfolding grant_purpose
grant_purpose-statement_bytes a = rw (snapshot_bound_of_statement a)

module _ (c : Crypto) (laws : IsCrypto c) (a : ExactAuthorization) (seed : Bytes) (key_id : Text)
    (valid : validate a ≡ ok tt) (key : identity_is_valid key_id ≡ true) where
  abbrev bound : Bool
  bound = is_some a.approved_target

  abbrev signature : Bytes
  signature = c.sign seed (signature_input (envelope_purpose bound) (statement_bytes a))

  abbrev grant : Bytes
  grant = envelope bound key_id (statement_bytes a) signature

  grant_short : length grant ≤ 1776
  grant_short = omega (
    arith,
    length-append (envelope_magic bound) (
        frames (
          (1, envelope_purpose bound)
          ∷ (2, key_id)
          ∷ (3, statement_bytes a)
          ∷ (4, signature)
          ∷ [])),
    length-envelope_magic bound,
    length-frames bound key_id (statement_bytes a) signature,
    (identity-IsText key_id key).short,
    length-statement_bytes a (validate-IsWritable a valid),
    laws.length-sign seed (signature_input (envelope_purpose bound) (statement_bytes a)),
  )

  sign_lem : sign_authorization_grant c a seed key_id ≡ ok grant
  unfolding sign_authorization_grant sign_grant_statement
  sign_lem =
      rw (valid, key, encode_statement-IsWritable a (validate-IsWritable a valid))
        (rw (grant_purpose-statement_bytes a) (
          append_grant_records-fits signed_grant_bytes_max (envelope_magic bound)
            ((1, envelope_purpose bound)
              ∷ (2, key_id)
              ∷ (3, statement_bytes a)
              ∷ (4, signature)
              ∷ [])
            (omega (
              arith,
              grant_short,
              length-append (envelope_magic bound) (
                  frames (
                    (1, envelope_purpose bound)
                    ∷ (2, key_id)
                    ∷ (3, statement_bytes a)
                    ∷ (4, signature)
                    ∷ [])),
            ))
            (omega arith)))

  abbrev trust : AuthorizationTrust
  trust = record { key_id = key_id; public_key = c.public_key seed }

  verify_lem :
      verify_authorization_grant c grant trust
      ≡ ok (record { authorization = a; signer_key_id = key_id; grant_digest = digest_hex c grant })
  unfolding verify_authorization_grant validate_trust frames
  verify_lem =
      let statement = statement_bytes a in
      let f3 = frame 4 signature ++ [] in
      let f2 = frame 3 statement ++ f3 in
      let f1 = frame 2 key_id ++ f2 in
      let f0 = frame 1 (envelope_purpose bound) ++ f1 in
      let size = length-statement_bytes a (validate-IsWritable a valid) in
      let sig = laws.length-sign seed (signature_input (envelope_purpose bound) statement) in
      let r0 = reader (envelope_magic bound) f0 in
      let a0 =
        reader-At (envelope_magic bound) f0
          (omega (arith, grant_short, length-append (envelope_magic bound) f0)) in
      let r1 = behind 1 (envelope_purpose bound) f1 r0 a0 in
      let a1 = behind-At 1 (envelope_purpose bound) f1 r0 a0 in
      let r2 = behind 2 key_id f2 r1 a1 in
      let a2 = behind-At 2 key_id f2 r1 a1 in
      let r3 = behind 3 statement f3 r2 a2 in
      let a3 = behind-At 3 statement f3 r2 a2 in
      let r4 = behind 4 signature [] r3 a3 in
      let a4 = behind-At 4 signature [] r3 a3 in
      let fits : leb (length grant) signed_grant_bytes_max ≡ true = ground (arith, grant_short) in
      let fits_statement : leb (length statement) 2048 ≡ true = ground (arith, size) in
      let fits_signature : nat_eq.beq (length signature) 64 ≡ true = ground (arith, sig) in
      rw key (
        rw (laws.public_key_is_valid seed) (
          rw fits (
            rw (starts_with-envelope bound f0) (
              rw (new_records-append (envelope_magic bound) f0) (
                rw
                  (take_record-frame 1 (envelope_purpose bound) f1 r0 a0 (omega arith)
                    (omega (arith, length-envelope_purpose bound)))
                  (rw (list_eq.beq_refl (envelope_purpose bound)) (
                    rw
                      (take_ascii_text-frame 2 key_id f2 r1 a1 128 (identity-IsText key_id key)
                        (omega arith) (omega arith))
                      (rw key (
                        rw
                          (take_record-frame 3 statement f3 r2 a2 (omega arith)
                            (omega (arith, size)))
                          (rw fits_statement (
                            rw
                              (take_record-frame 4 signature [] r3 a3 (omega arith)
                                (omega (arith, sig)))
                              (rw fits_signature (
                                rw (finish_exact-At 5 r4 a4) (
                                  rw (parse-statement_bytes a valid (omega (arith, size))) (
                                    rw (bool_eq.beq_refl bound) (
                                      rw (list_eq.beq_refl key_id) (
                                        rw (grant_purpose-statement_bytes a) (
                                          rw (
                                            laws.verify-sign seed (
                                              signature_input (envelope_purpose bound)
                                                statement))))))))))))))))))))

-- With a signature scheme whose signatures have 64 bytes and verify under the public key of their
-- seed: a grant that is signed for a valid authorization, under a valid key identity, exists, and verifies
-- under that identity and the signer's public key, to the same authorization, key identity and
-- the digest of its bytes.
pub verify-sign_authorization_grant :
    (c : Crypto) (laws : IsCrypto c) (a : ExactAuthorization) (seed : Bytes) (key_id : Text)
    → validate a ≡ ok tt
    → identity_is_valid key_id ≡ true
    → (grant : Bytes) × (sign_authorization_grant c a seed key_id ≡ ok grant)
      × (verify_authorization_grant c grant
            (record { key_id = key_id; public_key = c.public_key seed })
          ≡ ok (record {
            authorization = a;
            signer_key_id = key_id;
            grant_digest = digest_hex c grant;
          }))
verify-sign_authorization_grant c laws a seed key_id valid key = (
  grant c laws a seed key_id valid key,
  sign_lem c laws a seed key_id valid key,
  verify_lem c laws a seed key_id valid key,
)
