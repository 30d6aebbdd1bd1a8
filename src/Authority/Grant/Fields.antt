-- ===== src/Authority/Grant/Fields.antt =====
-- The fields of a valid authorization are short ASCII texts.
use kapsel.Base.{
  ℕ, ◌≤◌, ◌≡◌, true, false, Option, none, some, not, Text, List, [], ◌∷◌, arith, length, all,
  is_empty, is_ascii, is_ascii_byte, all_mono, refl, ok, sym, is_some_and,
}
use kapsel.Authority.Grammar.{
  identity_is_valid, dns_label_is_valid, dns_subdomain_is_valid, immutable_image_is_valid,
  is_identity_byte, is_label_byte, is_ascii_lowercase_or_digit,
}
use mathlib.Core.Path.{subst}
use kapsel.Authority.Grammar.Shape.{all-join}
use kapsel.Authority.Grammar.Subdomain.{dns_subdomain_is_valid-iff-IsSubdomain}
use kapsel.Authority.Grant.{ExactAuthorization, ApprovedTarget, validate, target_is_valid}

-- Not empty, ASCII and at most `bound` bytes.
pub record IsText (bound : ℕ) (value : Text) : Type 0 where
  pub full : is_empty value ≡ false
  pub short : length value ≤ bound
  pub ascii : is_ascii value ≡ true

identity_byte_is_ascii : (x : ℕ) → is_identity_byte x ≡ true → is_ascii_byte x ≡ true
identity_byte_is_ascii x h = ground arith

label_byte_is_ascii : (x : ℕ) → is_label_byte x ≡ true → is_ascii_byte x ≡ true
unfolding is_ascii_lowercase_or_digit
label_byte_is_ascii x h = ground arith

pub identity-IsText : (v : Text) → identity_is_valid v ≡ true → IsText 128 v
unfolding identity_is_valid
identity-IsText v h = record {
  full = ground arith;
  short = ground arith;
  ascii = all_mono identity_byte_is_ascii v (ground arith);
}

pub label-IsText : (v : Text) → dns_label_is_valid v ≡ true → IsText 63 v
unfolding dns_label_is_valid
label-IsText v h = record {
  full = ground arith;
  short = ground arith;
  ascii = all_mono label_byte_is_ascii v (ground arith);
}

labels_ascii : (ps : List Text) → all dns_label_is_valid ps ≡ true → all is_ascii ps ≡ true
labels_ascii [] h = refl
labels_ascii (p ∷ ps) h =
    ground (arith, (label-IsText p (ground arith)).ascii, labels_ascii ps (ground arith))

subdomain_full : (v : Text) → dns_subdomain_is_valid v ≡ true → is_empty v ≡ false
unfolding dns_subdomain_is_valid
subdomain_full v h = ground arith

pub subdomain-IsText : (v : Text) → dns_subdomain_is_valid v ≡ true → IsText 253 v
subdomain-IsText v h =
    let s = (dns_subdomain_is_valid-iff-IsSubdomain v).0 h in
    record {
      full = subdomain_full v h;
      short = s.short;
      ascii =
          subst (λ t. is_ascii t ≡ true) (sym s.joined)
            (all-join is_ascii_byte b'.' (s.first ∷ s.others) refl
              (labels_ascii (s.first ∷ s.others) s.labels));
    }

pub image-IsText : (v : Text) → immutable_image_is_valid v ≡ true → IsText 512 v
unfolding immutable_image_is_valid
image-IsText v h = record { full = ground arith; short = ground arith; ascii = ground arith }

abbrev pub TargetIsText : Option ApprovedTarget → Type 0
TargetIsText none = Unit
TargetIsText (some t) = IsText 128 t.uid × IsText 128 t.resource_version

-- What `validate` establishes of the lengths and bytes.
pub record IsWritable (a : ExactAuthorization) : Type 0 where
  pub target : TargetIsText a.approved_target
  pub authorization_id : IsText 128 a.authorization_id
  pub operation_id : IsText 128 a.operation_id
  pub namespace : IsText 63 a.namespace
  pub deployment : IsText 253 a.deployment
  pub container : IsText 63 a.container
  pub image : IsText 512 a.immutable_image_digest

target-IsText :
    (t : Option ApprovedTarget)
    → not (is_some_and t (λ t. not (target_is_valid t))) ≡ true
    → TargetIsText t
unfolding target_is_valid
target-IsText none h = tt
target-IsText (some t) h = (
  record { full = ground arith; short = ground arith; ascii = ground arith },
  record { full = ground arith; short = ground arith; ascii = ground arith },
)

pub validate-IsWritable : (a : ExactAuthorization) → validate a ≡ ok tt → IsWritable a
unfolding validate
validate-IsWritable a h = record {
  target = target-IsText a.approved_target (ground arith);
  authorization_id = identity-IsText a.authorization_id (ground arith);
  operation_id = identity-IsText a.operation_id (ground arith);
  namespace = label-IsText a.namespace (ground arith);
  deployment = subdomain-IsText a.deployment (ground arith);
  container = label-IsText a.container (ground arith);
  image = image-IsText a.immutable_image_digest (ground arith);
}
