-- ===== src/Authority/Grant/Verified.antt =====
-- A grant that verifies was signed over exactly the authorization that is returned.
use kapsel.Base.{
  ℕ, ◌≡◌, ◌∙◌, refl, ap, Bool, true, Bytes, [], ◌∷◌, ◌++◌, arith, length, ok, ◌>>=◌, ◌>>◌,
  >>=-eq-ok, >>-eq-ok, require-eq-ok, starts_with, is_some, nat_eq, list_eq, bool_eq, all, is_byte,
  all-append, require, to_be_bytes, ◌==◌,
}
use kapsel.Authority.Frame.RoundTrip.{frame}
use mathlib.Core.Path.{subst}
use kapsel.Authority.Frame.{Records}
use kapsel.Authority.Frame.Canonical.{unread, IsReader, all-drop}
use kapsel.Authority.Grant.{
  Crypto, AuthorizationTrust, ValidatedAuthorizationGrant, validate, parse_statement,
  verify_authorization_grant, validate_trust, finish_exact, R, invalid, untrusted, digest_hex,
  signature_input, grant_purpose, snapshot_grant_magic,
}
use kapsel.Authority.Grant.Statement.{frames, statement_bytes}
use kapsel.Authority.Grant.Signing.{
  grant_purpose-statement_bytes, envelope, envelope_magic, envelope_purpose,
}
use kapsel.Authority.Grant.Sound.{
  got, started, read_magic, Read-ascii_text, Read-any_record, parse_statement_sound, finished,
}

-- The bytes are the envelope of the canonical statement, with a signature that the trusted key
-- verifies.
pub record IsAuthentic (c : Crypto) (trust : AuthorizationTrust) (bytes : Bytes)
    (g : ValidatedAuthorizationGrant) : Type 0 where
  pub signature : Bytes
  pub bytes_lem :
      bytes
      ≡ envelope
          (is_some g.authorization.approved_target)
          trust.key_id
          (statement_bytes g.authorization)
          signature
  pub valid : validate g.authorization ≡ ok tt
  pub verified :
      c.verify_strict trust.public_key
        (signature_input
          (envelope_purpose (is_some g.authorization.approved_target))
          (statement_bytes g.authorization))
        signature
      ≡ true
  pub signer : g.signer_key_id ≡ trust.key_id
  pub digest : g.grant_digest ≡ digest_hex c bytes

value_octets :
    (tag : ℕ) (v u : Bytes) (r : Records)
    → IsReader r
    → unread r ≡ frame tag v ++ u
    → all is_byte v ≡ true
value_octets tag v u r i e =
    let whole = subst (λ t. all is_byte t ≡ true) e (all-drop is_byte r.offset r.bytes i.octets) in
    ground (
      arith,
      whole,
      all-append is_byte (to_be_bytes 4 (length v) ++ v) u,
      all-append is_byte (to_be_bytes 4 (length v)) v,
    )

abbrev envelope_end :
    (c : Crypto) (trust : AuthorizationTrust) (bytes : Bytes) (bound : Bool)
    (key_id statement signature : Bytes)
    → Records
    → R ValidatedAuthorizationGrant
envelope_end c trust bytes bound key_id statement signature r4 = do
  require (length signature == 64) invalid
  finish_exact r4
  a ← parse_statement statement
  require (is_some a.approved_target == bound) invalid
  require (key_id == trust.key_id) untrusted
  require (c.key_is_valid trust.public_key) invalid
  require
      (c.verify_strict trust.public_key (signature_input (grant_purpose statement) statement)
        signature)
      untrusted
  ok (record { authorization = a; signer_key_id = key_id; grant_digest = digest_hex c bytes })

record Ended (c : Crypto) (trust : AuthorizationTrust) (bytes : Bytes) (bound : Bool)
    (key_id statement signature : Bytes) (r4 : Records) (g : ValidatedAuthorizationGrant)
    : Type 0 where
  read_all : unread r4 ≡ []
  statement_lem : statement ≡ statement_bytes g.authorization
  valid : validate g.authorization ≡ ok tt
  bound_lem : is_some g.authorization.approved_target ≡ bound
  key_lem : key_id ≡ trust.key_id
  verified :
      c.verify_strict trust.public_key
        (signature_input (grant_purpose statement) statement)
        signature
      ≡ true
  signer : g.signer_key_id ≡ key_id
  digest : g.grant_digest ≡ digest_hex c bytes

end_sound :
    (c : Crypto) (trust : AuthorizationTrust) (bytes : Bytes) (bound : Bool)
    (key_id statement signature : Bytes) (r4 : Records) (g : ValidatedAuthorizationGrant)
    → all is_byte statement ≡ true
    → envelope_end c trust bytes bound key_id statement signature r4 ≡ ok g
    → Ended c trust bytes bound key_id statement signature r4 g
end_sound c trust bytes bound key_id statement signature r4 g b h =
    let (p1, h1) = >>-eq-ok (require (length signature == 64) invalid) _ h in
    let (p2, h2) = >>-eq-ok (finish_exact r4) _ h1 in
    let (a, e, h3) = >>=-eq-ok (parse_statement statement) _ h2 in
    let (p3, h4) = >>-eq-ok (require (is_some a.approved_target == bound) invalid) _ h3 in
    let (p4, h5) = >>-eq-ok (require (key_id == trust.key_id) untrusted) _ h4 in
    let (p5, h6) = >>-eq-ok (require (c.key_is_valid trust.public_key) invalid) _ h5 in
    let (p6, h7) =
      >>-eq-ok
        (require
          (c.verify_strict trust.public_key (signature_input (grant_purpose statement) statement)
            signature)
          untrusted)
        _ h6 in
    let parsed = parse_statement_sound statement a b e in
    let g_lem : g
        ≡ record { authorization = a; signer_key_id = key_id; grant_digest = digest_hex c bytes } =
      cc in
    rw g_lem (record {
      read_all = finished r4 p2;
      statement_lem = parsed.0;
      valid = parsed.1;
      bound_lem =
          bool_eq.beq_sound (is_some a.approved_target) bound
            (require-eq-ok (is_some a.approved_target == bound) invalid p3);
      key_lem =
          list_eq.beq_sound key_id trust.key_id
            (require-eq-ok (key_id == trust.key_id) untrusted p4);
      verified = require-eq-ok _ untrusted p6;
      signer = refl;
      digest = refl;
    })

-- The frames of an envelope that was read to its end.
envelope_of_reads :
    (v1 v2 v3 v4 u1 u2 u3 u4 u5 : Bytes)
    → u1 ≡ frame 1 v1 ++ u2
    → u2 ≡ frame 2 v2 ++ u3
    → u3 ≡ frame 3 v3 ++ u4
    → u4 ≡ frame 4 v4 ++ u5
    → u5 ≡ []
    → u1 ≡ frames ((1, v1) ∷ (2, v2) ∷ (3, v3) ∷ (4, v4) ∷ [])
unfolding frames
envelope_of_reads v1 v2 v3 v4 u1 u2 u3 u4 u5 p1 p2 p3 p4 p5 =
    p1
    ∙ ap (λ t. frame 1 v1 ++ t)
        (p2
          ∙ ap (λ t. frame 2 v2 ++ t)
              (p3 ∙ ap (λ t. frame 3 v3 ++ t) (p4 ∙ ap (λ t. frame 4 v4 ++ t) p5)))

-- A grant of octets that verifies is authentic: it is the envelope of the canonical statement of the
-- authorization that is returned, which is valid; the signature in it verifies under the trusted key;
-- the returned key identity is the trusted one and the digest is that of the bytes.
pub verify_authorization_grant_sound :
    (c : Crypto) (trust : AuthorizationTrust) (bytes : Bytes) (g : ValidatedAuthorizationGrant)
    → all is_byte bytes ≡ true
    → verify_authorization_grant c bytes trust ≡ ok g
    → IsAuthentic c trust bytes g
unfolding verify_authorization_grant
verify_authorization_grant_sound c trust bytes g b h =
    let bound = starts_with bytes snapshot_grant_magic in
    let (t, h0) = >>-eq-ok (validate_trust c trust) _ h in
    let (s, h1) = >>-eq-ok _ _ h0 in
    elim (read_magic bytes (envelope_magic bound) _ b h1) [
      | started r0 u0 i0 k0 ↦ elim (Read-any_record 1 r0 _ i0 k0) [
        | got v1 r1 u1 i1 k1 ↦
            let (p1, l1) = >>-eq-ok _ _ k1 in
            elim (Read-ascii_text 2 r1 _ i1 l1) [
              | got v2 r2 u2 i2 k2 ↦
                  let (p2, l2) = >>-eq-ok _ _ k2 in
                  elim (Read-any_record 3 r2 _ i2 l2) [
                    | got v3 r3 u3 i3 k3 ↦
                        let (p3, l3) = >>-eq-ok _ _ k3 in
                        elim (Read-any_record 4 r3 _ i3 l3) [
                          | got v4 r4 u4 i4 k4 ↦
                              let e : Ended c trust bytes bound v2 v3 v4 r4 g =
                                end_sound c trust bytes bound v2 v3 v4 r4 g
                                  (value_octets 3 v3 (unread r3) r2 i2 u3) k4 in
                              let purpose : v1 ≡ envelope_purpose bound =
                                list_eq.beq_sound v1 (envelope_purpose bound)
                                  (require-eq-ok (v1 == envelope_purpose bound) invalid p1) in
                              record {
                                signature = v4;
                                bytes_lem =
                                    u0
                                    ∙ ap (λ t. envelope_magic bound ++ t)
                                        (envelope_of_reads v1 v2 v3 v4 (unread r0) (unread r1)
                                          (unread r2) (unread r3) (unread r4) u1 u2 u3 u4
                                          e.read_all)
                                    ∙ rw (purpose, e.key_lem, e.statement_lem, e.bound_lem);
                                valid = e.valid;
                                verified =
                                    subst
                                      (λ p.
                                        c.verify_strict trust.public_key
                                          (signature_input p (statement_bytes g.authorization)) v4
                                        ≡ true)
                                      (grant_purpose-statement_bytes g.authorization)
                                      (subst
                                        (λ t.
                                          c.verify_strict trust.public_key
                                            (signature_input (grant_purpose t) t) v4
                                          ≡ true)
                                        e.statement_lem e.verified);
                                signer = e.signer ∙ e.key_lem;
                                digest = e.digest;
                              }
                        ]
                  ]
            ]
      ]
    ]
