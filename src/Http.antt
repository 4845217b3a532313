-- ===== src/Http.antt =====
-- net/http: the headers of a request, as the program uses them, and the limit on its body
-- (internal/limits/limits.go). Keys are kept in the canonical form of
-- textproto.CanonicalMIMEHeaderKey, and a name is brought into it by every access.
use daigate.Prelude.{
  Text, Map, ℕ, ◌+◌, ◌-◌, ◌*◌, ◌^◌, List, [], ◌∷◌, ◌++◌, leb, ◌==◌, ◌&&◌, ◌||◌, not, if◌then◌else◌,
  Bool, true, all, Option, none, some, lookup, insert, delete, lookup-insert, lookup-delete,
  text_eq, ◌≡◌, arith,
}

-- limits.MaxRequestBody
abbrev pub max_request_body : ℕ
max_request_body = 32 * 2 ^ 20

abbrev pub Header : Type 0
Header = Map (List Text)

abbrev pub is_lower : ℕ → Bool
is_lower c = leb b'a' c && leb c b'z'

abbrev pub is_upper : ℕ → Bool
is_upper c = leb b'A' c && leb c b'Z'

-- A byte that may stand in a header name: letters, digits and !#$%&'*+-.^_`|~
unfoldable pub is_token : ℕ → Bool
is_token c =
    is_lower c
    || is_upper c
    || leb b'0' c && leb c b'9'
    || c == 0x21
    || leb 0x23 c && leb c 0x27
    || c == 0x2A
    || c == 0x2B
    || c == 0x2D
    || c == 0x2E
    || c == 0x5E
    || c == 0x5F
    || c == 0x60
    || c == 0x7C
    || c == 0x7E

canonical_from : Bool → Text → Text
canonical_from upper [] = []
canonical_from upper (c ∷ s) =
    (if upper && is_lower c then c - 32 else if not upper && is_upper c then c + 32 else c)
    ∷ canonical_from (c == b'-') s

-- textproto.CanonicalMIMEHeaderKey
unfoldable pub canonical_key : Text → Text
unfolding canonical_from is_token
canonical_key name = if all is_token name then canonical_from true name else name

abbrev pub first_value : Option (List Text) → Text
first_value none = []
first_value (some []) = []
first_value (some (v ∷ vs)) = v

-- Header.Get
unfoldable pub header_get : Header → Text → Text
header_get h name = first_value (lookup (canonical_key name) h)

-- Header.Set
unfoldable pub header_set : Text → Text → Header → Header
header_set name value h = insert (canonical_key name) (value ∷ []) h

abbrev pub all_values : Option (List Text) → List Text
all_values none = []
all_values (some vs) = vs

-- Header.Add
unfoldable pub header_add : Text → Text → Header → Header
header_add name value h =
    let key = canonical_key name in insert key (all_values (lookup key h) ++ value ∷ []) h

-- Header.Del
unfoldable pub header_del : Text → Header → Header
header_del name h = delete (canonical_key name) h

pub header_get-set :
    (h : Header) (name other value : Text)
    → header_get (header_set name value h) other
      ≡ (if text_eq (canonical_key name) (canonical_key other) then value else header_get h other)
unfolding header_get header_set
header_get-set h name other value =
    ground (arith, lookup-insert (canonical_key name) (canonical_key other) (value ∷ []) h)

pub header_get-del :
    (h : Header) (name other : Text)
    → header_get (header_del name h) other
      ≡ (if text_eq (canonical_key name) (canonical_key other) then [] else header_get h other)
unfolding header_get header_del
header_get-del h name other =
    ground (arith, lookup-delete (canonical_key name) (canonical_key other) h)
