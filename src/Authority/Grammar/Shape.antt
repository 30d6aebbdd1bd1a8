-- ===== src/Authority/Grammar/Shape.antt =====
-- What the validators accept, described without the scanning functions.
use kapsel.Base.{
  all-append, ℕ, ◌≡◌, ◌≢◌, refl, ap, ◌∙◌, Bool, true, List, [], ◌∷◌, ◌++◌, not, Text, arith, all,
  Bool-cases, ◌==◌, nat_eq, inl, inr,
}
use kapsel.Authority.Grammar.{
  dns_label_is_valid, split, prepend, is_label_byte, is_ascii_lowercase_or_digit,
}

-- The pieces with the separator between them.
abbrev pub join : ℕ → List Text → Text
join separator [] = []
join separator (p ∷ []) = p
join separator (p ∷ q ∷ ps) = p ++ separator ∷ join separator (q ∷ ps)

join-prepend : (c x : ℕ) (ps : List Text) → join c (prepend x ps) ≡ x ∷ join c ps
join-prepend c x [] = refl
join-prepend c x (p ∷ []) = refl
join-prepend c x (p ∷ q ∷ ps) = refl

pub split-ne-nil : (c : ℕ) (xs : Text) → split c xs ≢ []
unfolding split
split-ne-nil c [] h = cc
split-ne-nil c (x ∷ xs) h = elim (Bool-cases (x == c)) [
  | inl e ↦ cc (rw e at h)
  | inr e ↦ prepend-ne-nil (split c xs) (rw e at h)
]
  where
    prepend-ne-nil : (ps : List Text) → prepend x ps ≢ []
    prepend-ne-nil [] q = cc
    prepend-ne-nil (p ∷ ps) q = cc

join-cons-nil : (c : ℕ) (ps : List Text) → ps ≢ [] → join c ([] ∷ ps) ≡ c ∷ join c ps
join-cons-nil c [] h = absurd (h refl)
join-cons-nil c (p ∷ ps) h = refl

pub join-split : (c : ℕ) (xs : Text) → join c (split c xs) ≡ xs
unfolding split
join-split c [] = refl
join-split c (x ∷ xs) = elim (Bool-cases (x == c)) [
  | inl e ↦ rw e (
      join-cons-nil c (split c xs) (split-ne-nil c xs)
      ∙ cc (nat_eq.beq_sound x c e, join-split c xs))
  | inr e ↦ rw e (join-prepend c x (split c xs) ∙ ap (λ t. x ∷ t) (join-split c xs))
]

abbrev pub lacks : ℕ → Text → Bool
lacks c = all (λ x. not (x == c))

split-lacks : (c : ℕ) (xs : Text) → lacks c xs ≡ true → split c xs ≡ xs ∷ []
unfolding split
split-lacks c [] h = refl
split-lacks c (x ∷ xs) h = elim (Bool-cases (x == c)) [
  | inl e ↦ cc (rw e at h)
  | inr e ↦ rw (e, split-lacks c xs (rw e at h))
]

split-append : (c : ℕ) (p xs : Text) → lacks c p ≡ true → split c (p ++ c ∷ xs) ≡ p ∷ split c xs
unfolding split
split-append c [] xs h = rw (nat_eq.beq_refl c)
split-append c (x ∷ p) xs h = elim (Bool-cases (x == c)) [
  | inl e ↦ cc (rw e at h)
  | inr e ↦ rw (e, split-append c p xs (rw e at h))
]

-- Splitting undoes joining where no piece has the separator.
pub split-join :
    (c : ℕ) (p : Text) (ps : List Text)
    → all (lacks c) (p ∷ ps) ≡ true
    → split c (join c (p ∷ ps)) ≡ p ∷ ps
split-join c p [] h = split-lacks c p (ground arith)
split-join c p (q ∷ ps) h =
    rw (split-append c p (join c (q ∷ ps)) (ground arith))
      (ap (λ t. p ∷ t) (split-join c q ps (ground arith)))

label_byte_is_no_dot : (x : ℕ) → is_label_byte x ≡ true → not (x == b'.') ≡ true
unfolding is_ascii_lowercase_or_digit
label_byte_is_no_dot x h = ground arith

label_bytes_lack_dot : (xs : Text) → all is_label_byte xs ≡ true → lacks b'.' xs ≡ true
label_bytes_lack_dot [] h = refl
label_bytes_lack_dot (x ∷ xs) h = ground (arith, label_byte_is_no_dot x, label_bytes_lack_dot xs)

label_lacks_dot : (xs : Text) → dns_label_is_valid xs ≡ true → lacks b'.' xs ≡ true
unfolding dns_label_is_valid
label_lacks_dot xs h = label_bytes_lack_dot xs (ground arith)

pub labels_lack_dot :
    (ps : List Text) → all dns_label_is_valid ps ≡ true → all (lacks b'.') ps ≡ true
labels_lack_dot [] h = refl
labels_lack_dot (p ∷ ps) h = ground (arith, label_lacks_dot p, labels_lack_dot ps)

-- What holds of the separator and of every byte of every piece holds of every byte joined.
pub all-join :
    (p : ℕ → Bool) (c : ℕ) (ps : List Text)
    → p c ≡ true
    → all (all p) ps ≡ true
    → all p (join c ps) ≡ true
all-join p c [] q h = refl
all-join p c (x ∷ []) q h = ground arith
all-join p c (x ∷ y ∷ ps) q h =
    ground (arith, all-append p x (c ∷ join c (y ∷ ps)), all-join p c (y ∷ ps) q (ground arith))
