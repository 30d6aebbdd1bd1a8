-- ===== src/Authority/Grant/Sound.antt =====
-- What a verified grant establishes about its bytes.
use mathlib.Core.List.{append_assoc, append-nil}
use kapsel.Base.{
  ℕ, ◌≡◌, ◌∙◌, refl, sym, ap, Bool, true, false, Option, none, some, Bytes, List, [], ◌∷◌, ◌++◌,
  arith, length, ok, err, Result, ◌>>=◌, >>=-eq-ok, >>-eq-ok, ◌>>◌, starts_with, length-append,
  is_some, if◌then◌else◌, nat_eq, list_eq, bool_eq, drop, all, is_byte, map_err, starts_with_sound,
  Bool-cases, inl, inr,
}
use kapsel.Authority.Frame
use kapsel.Authority.Frame.{Records}
use kapsel.Authority.Frame.RoundTrip.{frame}
use kapsel.Authority.Frame.Canonical.{IsReader, Taken, take-Taken, unread}
use kapsel.Authority.Grant.{
  ExactAuthorization, ApprovedTarget, R, validate, parse_statement, take_ascii_text, take_record,
  take_target, new_records, finish_exact, invalid, snapshot_statement_magic, grant_statement_magic,
  target_fields,
}
use kapsel.Authority.Grant.Statement.{frames, statement_bytes, magic_of, all_fields}

record-Taken :
    (tag : ℕ) (r : Records) (v : Bytes) (r' : Records)
    → IsReader r
    → take_record tag r ≡ ok (v, r')
    → Taken tag v r r'
unfolding take_record
record-Taken tag r v r' i h = take-Taken tag v r r' i (unwrap (Frame.take tag r) h)
  where
    unwrap :
        (m : Result Frame.FrameError (Bytes × Records))
        → map_err m invalid ≡ ok (v, r')
        → m ≡ ok (v, r')
    unwrap (ok x) e = cc
    unwrap (err x) e = cc

text-Taken :
    (tag : ℕ) (r : Records) (v : Bytes) (r' : Records)
    → IsReader r
    → take_ascii_text tag r ≡ ok (v, r')
    → Taken tag v r r'
unfolding take_ascii_text
text-Taken tag r v r' i h = record-Taken tag r v r' i (ground (arith, h))

-- The reader after a record reads the same bytes.
Taken-IsReader :
    (tag : ℕ) (v : Bytes) (r r' : Records) → IsReader r → Taken tag v r r' → IsReader r'
Taken-IsReader tag v r r' i t = record {
  inside = rw t.same_bytes t.inside;
  octets = rw t.same_bytes i.octets;
}

record Opened (bytes magic : Bytes) (r : Records) : Type 0 where
  whole : bytes ≡ magic ++ unread r
  reader : IsReader r

new_records-Opened :
    (bytes magic : Bytes) (r : Records)
    → all is_byte bytes ≡ true
    → new_records bytes magic ≡ ok r
    → Opened bytes magic r
unfolding new_records Frame.new
new_records-Opened bytes magic r b h = elim (Bool-cases (starts_with bytes magic)) [
  | inl e ↦
      let start = starts_with_sound bytes magic e in
      let r_lem : r ≡ record { bytes = bytes; offset = length magic; next_tag = 1 } =
        cc (rw e at h) in
      record {
        whole = rw r_lem start;
        reader = record {
          inside =
              rw r_lem
                (omega (arith, ap length start, length-append magic (drop (length magic) bytes)));
          octets = rw r_lem b;
        };
      }
  | inr e ↦ cc (rw e at h)
]

-- A record that was read as text, with the reader behind it.
module _ (tag : ℕ) (r : Records) (x : Bytes × Records) (i : IsReader r)
    (h : take_ascii_text tag r ≡ ok x) where
  read_text : unread r ≡ frame tag x.0 ++ unread x.1
  read_text = (text-Taken tag r x.0 x.1 i h).read

  next_text : IsReader x.1
  next_text = Taken-IsReader tag x.0 r x.1 i (text-Taken tag r x.0 x.1 i h)

module _ (tag : ℕ) (r : Records) (x : Bytes × Records) (i : IsReader r)
    (h : take_record tag r ≡ ok x) where
  read_record : unread r ≡ frame tag x.0 ++ unread x.1
  read_record = (record-Taken tag r x.0 x.1 i h).read

  next_record : IsReader x.1
  next_record = Taken-IsReader tag x.0 r x.1 i (record-Taken tag r x.0 x.1 i h)

drop-length {ℓ} : {A : Type ℓ} (xs : List A) → drop (length xs) xs ≡ []
drop-length [] = refl
drop-length (x ∷ xs) = drop-length xs

pub finished : (r : Records) → finish_exact r ≡ ok tt → unread r ≡ []
unfolding finish_exact Frame.finish
finished r h = let e : r.offset ≡ length r.bytes = ground arith in rw e (drop-length r.bytes)

-- One more record before those that were read.
frames_cons :
    (tag : ℕ) (v u u' w : Bytes) (rs : List (ℕ × Bytes))
    → u ≡ frame tag v ++ u'
    → u' ≡ frames rs ++ w
    → u ≡ frames ((tag, v) ∷ rs) ++ w
unfolding frames
frames_cons tag v u u' w rs p q =
    p ∙ ap (λ t. frame tag v ++ t) q ∙ sym (append_assoc (frame tag v) (frames rs) w)

frames_nil : (u : Bytes) → u ≡ frames [] ++ u
unfolding frames
frames_nil u = refl

read_target :
    (b : Bool) (r : Records) (x : Option ApprovedTarget × Records)
    → IsReader r
    → take_target b r ≡ ok x
    → (is_some x.0 ≡ b) × (unread r ≡ frames (target_fields x.0) ++ unread x.1)
read_target false r x i h = let e : x ≡ (none, r) = cc in rw e (refl, frames_nil (unread r))
read_target true r x i h =
    let (x7, e7, h7) = >>=-eq-ok (take_ascii_text 7 r) _ h in
    let (x8, e8, h8) = >>=-eq-ok (take_ascii_text 8 x7.1) _ h7 in
    let e : x ≡ (some (record { uid = x7.0; resource_version = x8.0 }), x8.1) = cc in
    let i7 = next_text 7 r x7 i e7 in
    rw e (
      refl,
      frames_cons 7 x7.0 (unread r) (unread x7.1) (unread x8.1) ((8, x8.0) ∷ [])
          (read_text 7 r x7 i e7)
          (frames_cons 8 x8.0 (unread x7.1) (unread x8.1) (unread x8.1) []
            (read_text 8 x7.1 x8 i7 e8) (frames_nil (unread x8.1))),
    )

-- A read that succeeded inside a run that succeeded with `a`.
pub data Read {A : Type 0} (tag : ℕ) (r : Records) (k : Bytes × Records → R A) (a : A)
    : Type 0 where
  got :
      (v : Bytes) (r' : Records)
      → unread r ≡ frame tag v ++ unread r'
      → IsReader r'
      → k (v, r') ≡ ok a
      → Read tag r k a

pub Read-ascii_text :
    {A : Type 0} (tag : ℕ) (r : Records) (k : Bytes × Records → R A) {a : A}
    → IsReader r
    → (take_ascii_text tag r >>= k) ≡ ok a
    → Read tag r k a
Read-ascii_text tag r k i h =
    let (x, e, rest) = >>=-eq-ok (take_ascii_text tag r) k h in
    got x.0 x.1 (read_text tag r x i e) (next_text tag r x i e) rest

pub Read-any_record :
    {A : Type 0} (tag : ℕ) (r : Records) (k : Bytes × Records → R A) {a : A}
    → IsReader r
    → (take_record tag r >>= k) ≡ ok a
    → Read tag r k a
Read-any_record tag r k i h =
    let (x, e, rest) = >>=-eq-ok (take_record tag r) k h in
    got x.0 x.1 (read_record tag r x i e) (next_record tag r x i e) rest

pub data Start {A : Type 0} (bytes magic : Bytes) (k : Records → R A) (a : A) : Type 0 where
  started :
      (r : Records) → bytes ≡ magic ++ unread r → IsReader r → k r ≡ ok a → Start bytes magic k a

pub read_magic :
    {A : Type 0} (bytes magic : Bytes) (k : Records → R A) {a : A}
    → all is_byte bytes ≡ true
    → (new_records bytes magic >>= k) ≡ ok a
    → Start bytes magic k a
read_magic bytes magic k b h =
    let (r, e, rest) = >>=-eq-ok (new_records bytes magic) k h in
    let o = new_records-Opened bytes magic r b e in started r o.whole o.reader rest

-- The end of `parse_statement`, from the target on.
abbrev make : Option ApprovedTarget → (v1 v2 v3 v4 v5 v6 : Bytes) → ExactAuthorization
make target v1 v2 v3 v4 v5 v6 = record {
  approved_target = target;
  authorization_id = v1;
  operation_id = v2;
  namespace = v3;
  deployment = v4;
  container = v5;
  immutable_image_digest = v6;
}

abbrev parse_end :
    (v1 v2 v3 v4 v5 v6 : Bytes) → Option ApprovedTarget × Records → R ExactAuthorization
parse_end v1 v2 v3 v4 v5 v6 (target, r7) = do
  finish_exact r7
  validate (make target v1 v2 v3 v4 v5 v6)
  ok (make target v1 v2 v3 v4 v5 v6)

end_sound :
    (b : Bool) (r6 : Records) (v1 v2 v3 v4 v5 v6 : Bytes) (a : ExactAuthorization)
    → IsReader r6
    → (take_target b r6 >>= parse_end v1 v2 v3 v4 v5 v6) ≡ ok a
    → (is_some a.approved_target ≡ b)
      × (unread r6 ≡ frames (target_fields a.approved_target))
      × (a ≡ make a.approved_target v1 v2 v3 v4 v5 v6)
      × (validate a ≡ ok tt)
end_sound b r6 v1 v2 v3 v4 v5 v6 a i h =
    let ((t, r7), e, rest) = >>=-eq-ok (take_target b r6) (parse_end v1 v2 v3 v4 v5 v6) h in
    let (done, rest2) = >>-eq-ok (finish_exact r7) _ rest in
    let (valid, same) = >>-eq-ok (validate (make t v1 v2 v3 v4 v5 v6)) _ rest2 in
    let (bound, read) = read_target b r6 (t, r7) i e in
    let a_lem : a ≡ make t v1 v2 v3 v4 v5 v6 = cc in
    rw a_lem
      (bound, read ∙ rw (finished r7 done) (append-nil (frames (target_fields t))), refl, valid)

magic_bound :
    (s : Bytes) (a : ExactAuthorization)
    → is_some a.approved_target ≡ starts_with s snapshot_statement_magic
    → (if starts_with s snapshot_statement_magic
        then snapshot_statement_magic
        else grant_statement_magic)
      ≡ magic_of a
magic_bound s a e = rw (← e)

frames_of_fields :
    (a : ExactAuthorization) (v1 v2 v3 v4 v5 v6 : Bytes)
    → make a.approved_target v1 v2 v3 v4 v5 v6 ≡ a
    → frame 1 v1
        ++ (frame 2 v2
            ++ (frame 3 v3
                ++ (frame 4 v4
                    ++ (frame 5 v5 ++ (frame 6 v6 ++ frames (target_fields a.approved_target))))))
      ≡ frames (all_fields a)
unfolding frames
frames_of_fields a v1 v2 v3 v4 v5 v6 e =
    ap
      (λ (x : ExactAuthorization).
        frame 1 x.authorization_id
        ++ (frame 2 x.operation_id
            ++ (frame 3 x.namespace
                ++ (frame 4 x.deployment
                    ++ (frame 5 x.container
                        ++ (frame 6 x.immutable_image_digest
                            ++ frames (target_fields a.approved_target)))))))
      e

-- A statement of octets that parses is the encoding of the authorization that is returned, which is
-- valid.
pub parse_statement_sound :
    (s : Bytes) (a : ExactAuthorization)
    → all is_byte s ≡ true
    → parse_statement s ≡ ok a
    → (s ≡ statement_bytes a) × (validate a ≡ ok tt)
unfolding parse_statement
parse_statement_sound s a b h =
    elim (read_magic s
      (if starts_with s snapshot_statement_magic
        then snapshot_statement_magic
        else grant_statement_magic)
      _ b h) [
        | started r0 u0 i0 h0 ↦ elim (Read-ascii_text 1 r0 _ i0 h0) [
          | got v1 r1 u1 i1 h1 ↦ elim (Read-ascii_text 2 r1 _ i1 h1) [
            | got v2 r2 u2 i2 h2 ↦ elim (Read-ascii_text 3 r2 _ i2 h2) [
              | got v3 r3 u3 i3 h3 ↦ elim (Read-ascii_text 4 r3 _ i3 h3) [
                | got v4 r4 u4 i4 h4 ↦ elim (Read-ascii_text 5 r4 _ i4 h4) [
                  | got v5 r5 u5 i5 h5 ↦ elim (Read-ascii_text 6 r5 _ i5 h5) [
                    | got v6 r6 u6 i6 h6 ↦
                        let (bound, u7, made, valid) =
                          end_sound (starts_with s snapshot_statement_magic) r6 v1 v2 v3 v4 v5 v6 a
                            i6 h6 in
                        (
                          u0
                              ∙ ap
                                  (λ t.
                                    (if starts_with s snapshot_statement_magic
                                      then snapshot_statement_magic
                                      else grant_statement_magic)
                                    ++ t)
                                  (u1
                                    ∙ ap (λ t. frame 1 v1 ++ t)
                                        (u2
                                          ∙ ap (λ t. frame 2 v2 ++ t)
                                              (u3
                                                ∙ ap (λ t. frame 3 v3 ++ t)
                                                    (u4
                                                      ∙ ap (λ t. frame 4 v4 ++ t)
                                                          (u5
                                                            ∙ ap (λ t. frame 5 v5 ++ t)
                                                            (u6 ∙ ap (λ t. frame 6 v6 ++ t) u7))))))
                              ∙ rw (magic_bound s a bound) (
                                  ap (λ t. magic_of a ++ t)
                                    (frames_of_fields a v1 v2 v3 v4 v5 v6 (sym made))),
                          valid,
                        )
                  ]
                ]
              ]
            ]
          ]
        ]
      ]
