-- ===== src/Upstream/Url/Layouts.antt =====
-- Both ways of writing a provider's base URL.
use daigate.Prelude.{
  Text, ◌∷◌, ◌++◌, codes, text_eq, has_prefix, has_suffix, trim_prefix, trim_right, append_assoc,
  true, false, ◌≡◌, refl, sym, ◌∙◌, ap, drop_while,
}
use mathlib.Core.List.{reverse, reverse-append, reverse-reverse}
use daigate.Upstream.Url.{join_rooted, join_url}

reverse-v1 : (base : Text) → reverse (base ++ codes "/v1") ≡ b'1' ∷ b'v' ∷ b'/' ∷ reverse base
unfolding codes
reverse-v1 base = reverse-append base (codes "/v1")

trim_right-v1 : (base : Text) → trim_right (base ++ codes "/v1") b'/' ≡ base ++ codes "/v1"
unfolding trim_right drop_while
trim_right-v1 base =
    rw (reverse-v1 base)
      (ap reverse (sym (reverse-v1 base)) ∙ reverse-reverse (base ++ codes "/v1"))

has_suffix-v1 : (base : Text) → has_suffix (base ++ codes "/v1") (codes "/v1") ≡ true
unfolding has_suffix has_prefix codes
has_suffix-v1 base = rw (reverse-v1 base) refl

-- A base URL may end with /v1 or not: a path under /v1/ joined to either is the same URL. The base
-- without it does not end with a slash, nor with a /v1 of its own.
pub join_url-v1 :
    (base tail : Text)
    → trim_right base b'/' ≡ base
    → has_suffix base (codes "/v1") ≡ false
    → join_url (base ++ codes "/v1") (codes "/v1/" ++ tail) ≡ join_url base (codes "/v1/" ++ tail)
unfolding join_url join_rooted has_prefix trim_prefix text_eq codes
join_url-v1 base tail trimmed other =
    rw (trim_right-v1 base, has_suffix-v1 base, trimmed, other)
      (append_assoc base (codes "/v1") (b'/' ∷ tail))
