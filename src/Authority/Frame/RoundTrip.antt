-- ===== src/Authority/Frame/RoundTrip.antt =====
-- Reading a pushed record gives its value and leaves the reader behind it.
use kapsel.Base.{
  ℕ, zero, suc, ◌+◌, ◌-◌, ◌^◌, ◌≡◌, ◌≤◌, ◌<◌, refl, ap, Bool, true, false, Option, some, none, List,
  [], ◌∷◌, ◌++◌, ◌&&◌, Bytes, Result, ok, err, length, get_elem?, head?, slice, checked_add,
  checked_add_u8, to_be_bytes, from_be_bytes, arith, drop-append, take-append, length-append, drop,
  from_be_bytes-to_be_bytes, length-to_be_bytes,
}
use native.Mathlib.Nat.{suc-add, add-zero, zero-add}
use mathlib.Core.List.{append_assoc}
use kapsel.Base
use kapsel.Authority.Frame.{Records, take}

abbrev pub frame : ℕ → Bytes → Bytes
frame tag value = tag ∷ (to_be_bytes 4 (length value) ++ value)

-- The reader stands before `rest` and expects `tag` next.
pub record At (tag : ℕ) (rest : Bytes) (r : Records) : Type 0 where
  pub next : r.next_tag ≡ tag
  pub remaining : drop r.offset r.bytes ≡ rest
  pub inside : length r.bytes ≡ r.offset + length rest
  pub addressable : length r.bytes < 2 ^ 63

pub drop-add {ℓ} : {A : Type ℓ} (m n : ℕ) (xs : List A) → drop (m + n) xs ≡ drop n (drop m xs)
drop-add zero n xs = rw zero-add
drop-add (suc m) zero [] = rw add-zero
drop-add (suc m) (suc n) [] = rw suc-add
drop-add (suc m) n (x ∷ xs) = rw suc-add (drop-add m n xs)

pub get_elem?-eq-head? {ℓ} : {A : Type ℓ} (n : ℕ) (xs : List A) → get_elem? xs n ≡ head? (drop n xs)
get_elem?-eq-head? zero [] = refl
get_elem?-eq-head? zero (x ∷ xs) = refl
get_elem?-eq-head? (suc n) [] = refl
get_elem?-eq-head? (suc n) (x ∷ xs) = get_elem?-eq-head? n xs

drop-length_add : (n : ℕ) (xs ys : Bytes) → length xs ≡ n → drop n (xs ++ ys) ≡ ys
drop-length_add n xs ys e = rw (← e) (drop-append xs ys)

take-length_add : (n : ℕ) (xs ys : Bytes) → length xs ≡ n → Base.take n (xs ++ ys) ≡ xs
take-length_add n xs ys e = rw (← e) (take-append xs ys)

module _ (tag : ℕ) (value rest : Bytes) (r : Records) (a : At tag (frame tag value ++ rest) r) where
  length-frame : length (frame tag value ++ rest) ≡ 5 + length value + length rest
  length-frame = omega (
    arith,
    length-append (to_be_bytes 4 (length value) ++ value) rest,
    length-append (to_be_bytes 4 (length value)) value,
    length-to_be_bytes 4 (length value),
  )

  behind_tag : drop (r.offset + 1) r.bytes ≡ to_be_bytes 4 (length value) ++ (value ++ rest)
  behind_tag =
      rw (drop-add r.offset 1 r.bytes, a.remaining)
        (append_assoc (to_be_bytes 4 (length value)) value rest)

  behind_header : drop (r.offset + 5) r.bytes ≡ value ++ rest
  behind_header =
      let split : r.offset + 5 ≡ r.offset + 1 + 4 = omega arith in
      rw (split, drop-add (r.offset + 1) 4 r.bytes, behind_tag)
        (drop-length_add 4 (to_be_bytes 4 (length value)) (value ++ rest)
          (length-to_be_bytes 4 (length value)))

  behind_value : drop (r.offset + 5 + length value) r.bytes ≡ rest
  behind_value =
      rw (drop-add (r.offset + 5) (length value) r.bytes, behind_header) (drop-append value rest)

  tag_here : get_elem? r.bytes r.offset ≡ some tag
  tag_here = rw (get_elem?-eq-head? r.offset r.bytes, a.remaining)

  length_here : slice r.bytes (r.offset + 1) (r.offset + 5) ≡ to_be_bytes 4 (length value)
  length_here =
      let four : r.offset + 5 - (r.offset + 1) ≡ 4 = omega arith in
      rw (four, behind_tag)
        (take-length_add 4 (to_be_bytes 4 (length value)) (value ++ rest)
          (length-to_be_bytes 4 (length value)))

  value_here : slice r.bytes (r.offset + 5) (r.offset + 5 + length value) ≡ value
  value_here =
      let size : r.offset + 5 + length value - (r.offset + 5) ≡ length value = omega arith in
      rw (size, behind_header) (take-append value rest)

  abbrev pub behind : Records
  behind = record r { offset = r.offset + 5 + length value; next_tag = tag + 1 }

  pub behind-At : At (tag + 1) rest behind
  behind-At = record {
    next = refl;
    remaining = behind_value;
    inside = omega (arith, a.inside, length-frame);
    addressable = a.addressable;
  }

  -- A reader that expects a tag below 255 and stands before the frame of a value of fewer than 2^32
  -- bytes takes that value, and the reader that is returned stands behind the frame.
  pub take-frame : tag < 255 → length value < 2 ^ 32 → take tag r ≡ ok (value, behind)
  unfolding take
  take-frame t v =
      let n : r.next_tag ≡ tag = a.next in
      let decoded : from_be_bytes (slice r.bytes (r.offset + 1) (r.offset + 5)) ≡ length value =
        rw length_here (from_be_bytes-to_be_bytes 4 (length value) v) in
      ground (arith, n, a.inside, a.addressable, length-frame, tag_here, decoded, value_here)
