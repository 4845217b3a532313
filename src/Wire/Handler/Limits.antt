-- ===== src/Wire/Handler/Limits.antt =====
-- The limit on the body of a request.
use daigate.Prelude.{
  Text, ℕ, zero, suc, ◌+◌, ◌≤◌, [], ◌∷◌, take, length, leb, ltb, has_prefix, codes, text_eq,
  if◌then◌else◌, ◌&&◌, ◌||◌, true, false, none, some, Result, ◌≡◌, ◌⊎◌, inl, inr, refl, ap, ◌∙◌,
  arith, Bool-cases,
}
use daigate.Http.{header_get, max_request_body}
use daigate.Catalog.Document.{Catalog}
use daigate.Catalog.Wires.{wire_openai_videos}
use daigate.Keyring.Keys.{Principal, KeyError}
use daigate.Wire.Engine.{Engine, method_get}
use daigate.Wire.Ingress.{with_auth}
use daigate.Wire.Ingress.Gate.{IsInert, with_auth-gate}
use daigate.Wire.Handler.{
  Body, Readers, Incoming, read_at_most, read_limited_body, read_model, read_multipart,
  read_ingress, request_of,
}

length-take : (n : ℕ) (xs : Text) → n ≤ length xs → length (take n xs) ≡ n
length-take zero xs h = refl
length-take (suc n) [] h = absurd (omega (arith, h))
length-take (suc n) (x ∷ xs) h = ap suc (length-take n xs (omega (arith, h)))

-- A body is read whole if it keeps to the limit and can be read to its end, and not at all otherwise.
pub read_limited_body_lem :
    (b : Body) (max : ℕ)
    → read_limited_body b max
      ≡ (if ltb max (length b.content) || b.fails then none else some b.content)
unfolding read_limited_body read_at_most
read_limited_body_lem b max = elim (Bool-cases (leb (max + 1) (length b.content))) [
  | inl long ↦
      let cut : length (take (max + 1) b.content) ≡ max + 1 =
        length-take (max + 1) b.content (ground (arith, long)) in
      let over : ltb max (length b.content) ≡ true = ground (arith, long) in
      let over' : ltb max (length (take (max + 1) b.content)) ≡ true = ground (arith, cut) in
      ground (arith, long, over, over')
  | inr short ↦
      let within : ltb max (length b.content) ≡ false = ground (arith, short) in
      ground (arith, short, within)
]

unread :
    (b : Body)
    → (ltb max_request_body (length b.content) || b.fails) ≡ true
    → read_limited_body b max_request_body ≡ none
unread b h = read_limited_body_lem b max_request_body ∙ ground (arith, h)

module _ (readers : Readers) where
  read_ingress-unread :
      (r : Incoming) (wire : Text)
      → (text_eq wire wire_openai_videos && text_eq r.method method_get) ≡ false
      → (ltb max_request_body (length r.body.content) || r.body.fails) ≡ true
      → read_ingress readers r wire ≡ none
  unfolding read_ingress read_model read_multipart
  read_ingress-unread r wire other bad =
      let unread = unread r.body bad in
      elim (Bool-cases
        (has_prefix (header_get r.headers (codes "Content-Type")) (codes "multipart/"))) [
          | inl parts ↦ rw (read_ingress, other, parts, read_multipart, unread) refl
          | inr plain ↦ rw (read_ingress, other, plain, read_model, unread) refl
        ]

  -- Unless it asks for a video, a request reaches no handler and moves no rotation counter but with
  -- a body of at most 32 MiB that is read to its end.
  pub with_auth-IsLimited :
      (verify : Text → Result KeyError Principal) (e : Engine) (cat : Catalog) (r : Incoming)
      (wire : Text)
      → (text_eq wire wire_openai_videos && text_eq r.method method_get) ≡ false
      → ((length r.body.content ≤ max_request_body) × (r.body.fails ≡ false))
        ⊎ IsInert cat (with_auth verify e cat (request_of readers r wire) wire)
  unfolding request_of
  with_auth-IsLimited verify e cat r wire other =
      elim (Bool-cases (ltb max_request_body (length r.body.content) || r.body.fails)) [
        | inr good ↦ inl (ground (arith, good), ground (arith, good))
        | inl bad ↦ elim (with_auth-gate verify e cat (request_of readers r wire) wire) [
          | inr inert ↦ inr inert
          | inl admitted ↦
              let missing = read_ingress-unread r wire other bad in
              absurd (ground (arith, missing, admitted.named))
        ]
      ]
