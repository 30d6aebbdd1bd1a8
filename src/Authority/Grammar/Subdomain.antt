-- ===== src/Authority/Grammar/Subdomain.antt =====
-- dns_subdomain_is_valid against a description without `split`.
use kapsel.Base.{
  ◌≤◌, ◌≡◌, refl, true, false, List, [], ◌∷◌, Text, arith, length, all, is_empty, ◌↔◌, ap, sym,
}
use kapsel.Authority.Grammar.{dns_label_is_valid, dns_subdomain_is_valid, split}
use kapsel.Authority.Grammar.Shape.{join, join-split, split-join, labels_lack_dot, split-ne-nil}

-- One or more valid labels with dots between them, at most 253 bytes in all.
pub record IsSubdomain (value : Text) : Type 0 where
  pub first : Text
  pub others : List Text
  pub joined : value ≡ join b'.' (first ∷ others)
  pub labels : all dns_label_is_valid (first ∷ others) ≡ true
  pub short : length value ≤ 253

label_not_empty : (xs : Text) → dns_label_is_valid xs ≡ true → is_empty xs ≡ false
unfolding dns_label_is_valid
label_not_empty [] h = cc
label_not_empty (x ∷ xs) h = refl

join_not_empty :
    (p : Text) (ps : List Text) → is_empty p ≡ false → is_empty (join b'.' (p ∷ ps)) ≡ false
join_not_empty [] ps h = cc
join_not_empty (x ∷ p) [] h = refl
join_not_empty (x ∷ p) (q ∷ ps) h = refl

IsSubdomain-sound : (value : Text) → dns_subdomain_is_valid value ≡ true → IsSubdomain value
unfolding dns_subdomain_is_valid
IsSubdomain-sound value h = pieces (split b'.' value) refl
  where
    pieces : (ps : List Text) → split b'.' value ≡ ps → IsSubdomain value
    pieces [] e = absurd (split-ne-nil b'.' value e)
    pieces (p ∷ ps) e = record {
      first = p;
      others = ps;
      joined = sym (rw e at (join-split b'.' value));
      labels = ground (arith, e);
      short = ground arith;
    }

subdomain_complete : (value : Text) → IsSubdomain value → dns_subdomain_is_valid value ≡ true
unfolding dns_subdomain_is_valid
subdomain_complete value s =
    let lack = labels_lack_dot (s.first ∷ s.others) s.labels in
    let pieces = split-join b'.' s.first s.others lack in
    let full =
      join_not_empty s.first s.others (label_not_empty s.first (ground (arith, s.labels))) in
    ground (
      arith,
      s.joined,
      pieces,
      full,
      s.labels,
      s.short,
      ap (split b'.') s.joined,
      ap is_empty s.joined,
    )

-- A text is a valid DNS subdomain exactly when it is one or more valid labels joined by dots and
-- has at most 253 bytes.
pub dns_subdomain_is_valid-iff-IsSubdomain :
    (value : Text) → (dns_subdomain_is_valid value ≡ true) ↔ IsSubdomain value
dns_subdomain_is_valid-iff-IsSubdomain value = (IsSubdomain-sound value, subdomain_complete value)
