-- ===== src/Authority/Frame/Canonical.antt =====
-- A record that was read is the frame of the value that was returned: framing is canonical.
use mathlib.Core.List.{append_assoc}
use kapsel.Base
use kapsel.Base.{
  ℕ, zero, suc, ◌+◌, ◌-◌, ◌^◌, ◌≡◌, ◌≤◌, ◌<◌, ◌∙◌, refl, sym, ap, Bool, true, false, Option, some,
  none, List, [], ◌∷◌, ◌++◌, ◌&&◌, Bytes, Result, ok, err, length, get_elem?, head?, slice,
  to_be_bytes, from_be_bytes, arith, drop, take-append-drop, length-take, all, is_byte,
  to_be_bytes-from_be_bytes,
}
use kapsel.Authority.Frame.{Records, take}
use kapsel.Authority.Frame.RoundTrip.{frame, drop-add, get_elem?-eq-head?}

-- The bytes that the reader has not passed.
abbrev pub unread : Records → Bytes
unread r = drop r.offset r.bytes

pub record IsReader (r : Records) : Type 0 where
  pub inside : r.offset ≤ length r.bytes
  pub octets : all is_byte r.bytes ≡ true

length-drop {ℓ} : {A : Type ℓ} (n : ℕ) (xs : List A) → length (drop n xs) ≡ length xs - n
length-drop zero xs = omega arith
length-drop (suc n) [] = omega arith
length-drop (suc n) (x ∷ xs) = omega (arith, length-drop n xs)

pub all-drop : (p : ℕ → Bool) (n : ℕ) (xs : Bytes) → all p xs ≡ true → all p (drop n xs) ≡ true
all-drop p zero xs h = h
all-drop p (suc n) [] h = h
all-drop p (suc n) (x ∷ xs) h = all-drop p n xs (ground arith)

all-take : (p : ℕ → Bool) (n : ℕ) (xs : Bytes) → all p xs ≡ true → all p (Base.take n xs) ≡ true
all-take p zero xs h = refl
all-take p (suc n) [] h = h
all-take p (suc n) (x ∷ xs) h = ground (arith, all-take p n xs (ground arith))

-- Bytes that begin with a tag and a length that they hold.
split_frame :
    (tag : ℕ) (d : Bytes)
    → head? d ≡ some tag
    → all is_byte d ≡ true
    → 5 + from_be_bytes (Base.take 4 (drop 1 d)) ≤ length d
    → d
      ≡ frame tag (Base.take (from_be_bytes (Base.take 4 (drop 1 d))) (drop 5 d))
        ++ drop (5 + from_be_bytes (Base.take 4 (drop 1 d))) d
split_frame tag [] h b n = cc
split_frame tag (x ∷ d) h b n =
    let size = from_be_bytes (Base.take 4 d) in
    let value = Base.take size (drop 4 d) in
    let rest : drop (5 + size) (x ∷ d) ≡ drop size (drop 4 d) = rw (drop-add 5 size (x ∷ d)) in
    let value_size : length value ≡ size =
      length-take size (drop 4 d) (omega (arith, length-drop 4 d, n)) in
    let four : length (Base.take 4 d) ≡ 4 = length-take 4 d (omega (arith, n)) in
    let head_bytes : to_be_bytes 4 size ≡ Base.take 4 d =
      rw four at
        (to_be_bytes-from_be_bytes (Base.take 4 d) (all-take is_byte 4 d (ground arith))) in
    let whole : (to_be_bytes 4 (length value) ++ value) ++ drop size (drop 4 d) ≡ d =
      rw (value_size, head_bytes)
        (append_assoc (Base.take 4 d) value (drop size (drop 4 d))
          ∙ ap (λ t. Base.take 4 d ++ t) (take-append-drop size (drop 4 d))
          ∙ take-append-drop 4 d) in
    rw rest (cc (h, whole))

pub record Taken (tag : ℕ) (value : Bytes) (r r' : Records) : Type 0 where
  pub expected : r.next_tag ≡ tag
  pub next : r'.next_tag ≡ tag + 1
  pub same_bytes : r'.bytes ≡ r.bytes
  pub inside : r'.offset ≤ length r.bytes
  pub read : unread r ≡ frame tag value ++ unread r'

module _ (tag : ℕ) (value : Bytes) (r r' : Records) (reader : IsReader r)
    (h : take tag r ≡ ok (value, r')) where
  abbrev size : ℕ
  size = from_be_bytes (slice r.bytes (r.offset + 1) (r.offset + 5))

  record Steps : Type 0 where
    expected : r.next_tag ≡ tag
    tag_here : get_elem? r.bytes r.offset ≡ some tag
    inside : r.offset + 5 + size ≤ length r.bytes
    value_lem : value ≡ slice r.bytes (r.offset + 5) (r.offset + 5 + size)
    reader_lem : r' ≡ record r { offset = r.offset + 5 + size; next_tag = r.next_tag + 1 }

  steps : Steps
  unfolding take
  steps = ground (arith, h)

  length_field : slice r.bytes (r.offset + 1) (r.offset + 5) ≡ Base.take 4 (drop 1 (unread r))
  length_field =
      let four : r.offset + 5 - (r.offset + 1) ≡ 4 = omega arith in
      rw (four, drop-add r.offset 1 r.bytes)

  value_field : value ≡ Base.take size (drop 5 (unread r))
  value_field =
      let n : r.offset + 5 + size - (r.offset + 5) ≡ size = omega arith in
      steps.value_lem ∙ rw (n, drop-add r.offset 5 r.bytes)

  left : unread r' ≡ drop (5 + size) (unread r)
  left =
      let reassoc : r.offset + 5 + size ≡ r.offset + (5 + size) = omega arith in
      rw (steps.reader_lem, reassoc) (drop-add r.offset (5 + size) r.bytes)

  -- When a reader inside a buffer of octets takes a value, it expected that tag, the bytes before it
  -- begin with the frame of the value, and the reader that is returned is inside the same buffer, expects
  -- the next tag and stands behind the frame.
  pub take-Taken : Taken tag value r r'
  take-Taken = record {
    expected = steps.expected;
    next = cc (steps.reader_lem, steps.expected);
    same_bytes = rw steps.reader_lem;
    inside = rw steps.reader_lem steps.inside;
    read =
        let room : 5 + size ≤ length (unread r) =
          omega (arith, length-drop r.offset r.bytes, steps.inside) in
        rw (value_field, left, length_field)
          (split_frame tag (unread r) (sym (get_elem?-eq-head? r.offset r.bytes) ∙ steps.tag_here)
            (all-drop is_byte r.offset r.bytes reader.octets) (rw length_field at room));
  }
