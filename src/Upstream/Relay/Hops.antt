-- ===== src/Upstream/Relay/Hops.antt =====
-- Which headers of a response pass to the client.
use daigate.Prelude.{
  Text, drop_while, List, [], ◌∷◌, is_empty, any, text_eq, lookup, lookup-delete, codes, Bool, true,
  false, not, ◌||◌, ◌&&◌, if◌then◌else◌, none, ◌≡◌, refl, arith, Bool-cases, inl, inr,
}
use daigate.Http.{Header, canonical_key, header_get, header_del}
use daigate.Upstream.Relay.{
  hop_by_hop_headers, split_at, trim_string, del_listed, del_all, remove_hop_by_hop_headers,
}

-- A key that one of the names stands for.
abbrev pub is_named : List Text → Text → Bool
is_named names key = any (λ n. text_eq (canonical_key n) key) names

-- A key that a field of the Connection header names.
abbrev pub is_listed : List Text → Text → Bool
is_listed fields key =
    any (λ f. not (is_empty (trim_string f)) && text_eq (canonical_key (trim_string f)) key) fields

lookup-del_all :
    (names : List Text) (h : Header) (key : Text)
    → lookup key (del_all names h) ≡ (if is_named names key then none else lookup key h)
unfolding del_all header_del
lookup-del_all [] h key = refl
lookup-del_all (n ∷ names) h key =
    ground (arith, lookup-del_all names (header_del n h) key, lookup-delete (canonical_key n) key h)

lookup-del_listed :
    (fields : List Text) (h : Header) (key : Text)
    → lookup key (del_listed fields h) ≡ (if is_listed fields key then none else lookup key h)
unfolding del_listed header_del
lookup-del_listed [] h key = refl
lookup-del_listed (f ∷ fields) h key = elim (Bool-cases (is_empty (trim_string f))) [
  | inl nothing ↦ ground (arith, nothing, lookup-del_listed fields h key)
  | inr something ↦ ground (
    arith,
    something,
    lookup-del_listed fields (header_del (trim_string f) h) key,
    lookup-delete (canonical_key (trim_string f)) key h,
  )
]

-- An empty Connection header names nothing.
unlisted : (c key : Text) → is_empty c ≡ true → is_listed (split_at b',' c) key ≡ false
unfolding split_at trim_string drop_while
unlisted [] key h = refl
unlisted (x ∷ c) key h = cc

-- Of the headers of a response exactly those pass that are neither hop-by-hop headers nor named in
-- the first line of its Connection header, and they pass with their values. Further lines of that
-- header are not read, so what they alone name passes.
pub lookup-remove_hop_by_hop_headers :
    (h : Header) (key : Text)
    → lookup key (remove_hop_by_hop_headers h) ≡ (
        if is_named hop_by_hop_headers key
          || is_listed (split_at b',' (header_get h (codes "Connection"))) key
        then none
        else lookup key h)
unfolding remove_hop_by_hop_headers
lookup-remove_hop_by_hop_headers h key =
    let c = header_get h (codes "Connection") in
    elim (Bool-cases (is_empty c)) [
      | inr given ↦ ground (
        arith,
        given,
        lookup-del_all hop_by_hop_headers (del_listed (split_at b',' c) h) key,
        lookup-del_listed (split_at b',' c) h key,
      )
      | inl bare ↦
          ground (arith, bare, lookup-del_all hop_by_hop_headers h key, unlisted c key bare)
    ]
