-- ===== src/Authority/Grammar/Image.antt =====
-- immutable_image_is_valid against a description without `split_once` and `split`.
use kapsel.Base.{
  starts_with_sound, ℕ, ◌≤◌, ◌≡◌, ◌∙◌, refl, Bool, true, false, List, [], ◌∷◌, ◌++◌, Text, arith,
  length, all, is_empty, ◌↔◌, not, ap, sym, text, Option, none, some, starts_with, drop, is_ascii,
  ◌==◌, nat_eq, Bool-cases, inl, inr, starts_with-append, drop-append, all-append, all_mono,
  is_ascii_byte,
}
use mathlib.Core.Path.{subst}
use kapsel.Authority.Grammar.{
  immutable_image_is_valid, image_parts_are_valid, image_name_component_is_valid, split, split_once,
  before, is_lower_hex, digest_marker, contains, is_image_name_byte, is_ascii_lowercase_or_digit,
}
use kapsel.Authority.Grammar.Shape.{join, all-join, join-split, split-join, lacks, split-ne-nil}

-- Path components joined by slashes, then "@sha256:" and 64 lowercase hexadecimal digits.
pub record IsImage (value : Text) : Type 0 where
  pub first : Text
  pub others : List Text
  pub digest : Text
  pub joined : value ≡ join b'/' (first ∷ others) ++ (digest_marker ++ digest)
  pub components : all image_name_component_is_valid (first ∷ others) ≡ true
  pub digest_length : length digest ≡ 64
  pub digest_hex : all is_lower_hex digest ≡ true
  pub short : length value ≤ 512

before-eq-some :
    (x : ℕ) (o : Option (Text × Text)) (name rest : Text)
    → before x o ≡ some (name, rest)
    → (tail : Text) × (name ≡ x ∷ tail) × (o ≡ some (tail, rest))
before-eq-some x none name rest h = cc
before-eq-some x (some (tail, r)) name rest h = (tail, ground (arith, h), ground (arith, h))

-- The two parts with the pattern between them are the whole text.
split_once_sound :
    (m value name rest : Text)
    → split_once m value ≡ some (name, rest)
    → is_empty m ≡ false
    → value ≡ name ++ (m ++ rest)
unfolding split_once
split_once_sound [] [] name rest h f = cc
split_once_sound (c ∷ m) [] name rest h f = cc
split_once_sound m (x ∷ xs) name rest h f = elim (Bool-cases (starts_with (x ∷ xs) m)) [
  | inl e ↦ found (rw e at h) (starts_with_sound (x ∷ xs) m e)
  | inr e ↦
      later (λ tail q. split_once_sound m xs tail rest q f)
        (before-eq-some x (split_once m xs) name rest (rw e at h))
]
  where
    found :
        ◌≡◌ {A = Option (Text × Text)} (some ([], drop (length m) (x ∷ xs))) (some (name, rest))
        → x ∷ xs ≡ m ++ drop (length m) (x ∷ xs)
        → x ∷ xs ≡ name ++ (m ++ rest)
    found p q =
        let e1 : [] ≡ name = cc in
        let e2 : drop (length m) (x ∷ xs) ≡ rest = cc in rw (← e1, ← e2) q

    later :
        ((tail : Text) → split_once m xs ≡ some (tail, rest) → xs ≡ tail ++ (m ++ rest))
        → (tail : Text) × (name ≡ x ∷ tail) × (split_once m xs ≡ some (tail, rest))
        → x ∷ xs ≡ name ++ (m ++ rest)
    later ih (tail, e, q) = rw e (ap (λ t. x ∷ t) (ih tail q))

-- The pattern is found after a text that lacks its first byte.
split_once-append :
    (c : ℕ) (m name rest : Text)
    → lacks c name ≡ true
    → split_once (c ∷ m) (name ++ ((c ∷ m) ++ rest)) ≡ some (name, rest)
unfolding split_once
split_once-append c m [] rest h = rw (starts_with-append (c ∷ m) rest, drop-append (c ∷ m) rest)
split_once-append c m (x ∷ name) rest h = elim (Bool-cases (x == c)) [
  | inl e ↦ cc (rw e at h)
  | inr e ↦ rw (e, split_once-append c m name rest (rw e at h))
]

module _ (x : ℕ) (h : is_image_name_byte x ≡ true) where
  name_byte_is_no_slash : not (x == b'/') ≡ true
  unfolding is_ascii_lowercase_or_digit
  name_byte_is_no_slash = ground arith

  name_byte_is_no_at : not (x == b'@') ≡ true
  unfolding is_ascii_lowercase_or_digit
  name_byte_is_no_at = ground arith

  name_byte_is_ascii : is_ascii_byte x ≡ true
  unfolding is_ascii_lowercase_or_digit
  name_byte_is_ascii = ground arith

hex_is_ascii : (x : ℕ) → is_lower_hex x ≡ true → is_ascii_byte x ≡ true
hex_is_ascii x h = ground arith

component_bytes :
    (xs : Text) → image_name_component_is_valid xs ≡ true → all is_image_name_byte xs ≡ true
unfolding image_name_component_is_valid
component_bytes xs h = ground arith

-- What holds of every byte of a component holds of every byte of the components.
components_all :
    (p : ℕ → Bool)
    → ((x : ℕ) → is_image_name_byte x ≡ true → p x ≡ true)
    → (ps : List Text) → all image_name_component_is_valid ps ≡ true
    → all (all p) ps ≡ true
components_all p step [] h = refl
components_all p step (c ∷ ps) h = ground (
  arith,
  all_mono step c (component_bytes c (ground arith)),
  components_all p step ps (ground arith),
)

IsImage-sound : (value : Text) → immutable_image_is_valid value ≡ true → IsImage value
unfolding immutable_image_is_valid
IsImage-sound value h = parts (split_once digest_marker value) refl (ground arith)
  where
    pieces :
        (name digest : Text) (ps : List Text)
        → split b'/' name ≡ ps
        → value ≡ name ++ (digest_marker ++ digest)
        → image_parts_are_valid (some (name, digest)) ≡ true
        → IsImage value
    pieces name digest [] e v g = absurd (split-ne-nil b'/' name e)
    pieces name digest (p ∷ ps) e v g = record {
      first = p;
      others = ps;
      digest = digest;
      joined = v ∙ ap (λ t. t ++ (digest_marker ++ digest)) (sym (rw e at (join-split b'/' name)));
      components = ground (arith, e);
      digest_length = ground arith;
      digest_hex = ground arith;
      short = ground arith;
    }

    parts :
        (o : Option (Text × Text))
        → split_once digest_marker value ≡ o
        → image_parts_are_valid o ≡ true
        → IsImage value
    parts none e g = cc
    parts (some (name, digest)) e g =
        pieces name digest (split b'/' name) refl
          (split_once_sound digest_marker value name digest e refl) g

is_empty-append : (xs : Text) (y : ℕ) (ys : Text) → is_empty (xs ++ y ∷ ys) ≡ false
is_empty-append [] y ys = refl
is_empty-append (x ∷ xs) y ys = refl

contains_of_lacks : (xs : Text) → lacks b'@' xs ≡ true → contains b'@' xs ≡ false
contains_of_lacks xs h = rw h

module _ (p : Text) (ps : List Text) (digest : Text)
    (components : all image_name_component_is_valid (p ∷ ps) ≡ true)
    (hex : all is_lower_hex digest ≡ true) where
  name_lacks_at : lacks b'@' (join b'/' (p ∷ ps)) ≡ true
  name_lacks_at =
      all-join (λ x. not (x == b'@')) b'/' (p ∷ ps) refl
        (components_all (λ x. not (x == b'@')) name_byte_is_no_at (p ∷ ps) components)

  found_parts :
      split_once digest_marker (join b'/' (p ∷ ps) ++ (digest_marker ++ digest))
      ≡ some (join b'/' (p ∷ ps), digest)
  found_parts = split_once-append b'@' (text "sha256:") (join b'/' (p ∷ ps)) digest name_lacks_at

  image_is_ascii : is_ascii (join b'/' (p ∷ ps) ++ (digest_marker ++ digest)) ≡ true
  image_is_ascii =
      let name =
        all-join is_ascii_byte b'/' (p ∷ ps) refl
          (components_all is_ascii_byte name_byte_is_ascii (p ∷ ps) components) in
      ground (
        arith,
        all-append is_ascii_byte (join b'/' (p ∷ ps)) (digest_marker ++ digest),
        name,
        all_mono hex_is_ascii digest hex,
      )

  name_pieces : split b'/' (join b'/' (p ∷ ps)) ≡ p ∷ ps
  name_pieces =
      split-join b'/' p ps
        (components_all (λ x. not (x == b'/')) name_byte_is_no_slash (p ∷ ps) components)

  parts_are_valid :
      length digest ≡ 64 → image_parts_are_valid (some (join b'/' (p ∷ ps), digest)) ≡ true
  unfolding image_parts_are_valid
  parts_are_valid h = rw (contains_of_lacks _ name_lacks_at) (rw (name_pieces, hex) (ground arith))

  image_is_valid :
      length digest ≡ 64
      → length (join b'/' (p ∷ ps) ++ (digest_marker ++ digest)) ≤ 512
      → immutable_image_is_valid (join b'/' (p ∷ ps) ++ (digest_marker ++ digest)) ≡ true
  unfolding immutable_image_is_valid
  image_is_valid h short =
      rw
        (
          found_parts,
          is_empty-append (join b'/' (p ∷ ps)) b'@' (text "sha256:" ++ digest),
          image_is_ascii,
        )
        (ground (arith, parts_are_valid h))

image_complete : (value : Text) → IsImage value → immutable_image_is_valid value ≡ true
image_complete value s =
    subst (λ v. immutable_image_is_valid v ≡ true) (sym s.joined)
      (image_is_valid s.first s.others s.digest s.components s.digest_hex s.digest_length
        (subst (λ v. length v ≤ 512) s.joined s.short))

-- A text is a valid immutable image reference exactly when it is valid path components joined by
-- slashes, followed by "@sha256:" and 64 lowercase hexadecimal digits, with at most 512 bytes in all.
pub immutable_image_is_valid-iff-IsImage :
    (value : Text) → (immutable_image_is_valid value ≡ true) ↔ IsImage value
immutable_image_is_valid-iff-IsImage value = (IsImage-sound value, image_complete value)
