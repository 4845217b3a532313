-- ===== src/Credential/Policy/Caps.antt =====
-- The limits that minting a gateway key cannot leave.
use daigate.Prelude.{
  Text, ℕ, ◌≤◌, ◌<◌, List, [], ◌∷◌, is_empty, trim_space, ℤ, pos, negsuc, positive, zero, suc, true,
  false, Option, none, some, Option-cases, Bool-cases, ok, ◌≡◌, ◌≢◌, ◌⊎◌, inl, inr, refl, sym,
  arith, All, subst,
}
use daigate.Catalog.Document.{is_nil}
use daigate.Credential.Policy.{
  MintPolicy, capped, parse_ttl, scope_allowed, first_refused, resolve_scopes,
}

first_refused-eq-none :
    (requested allowlist : List Text)
    → first_refused requested allowlist ≡ none
    → All (λ s. scope_allowed s allowlist ≡ true) requested
unfolding first_refused
first_refused-eq-none [] allowlist h = tt
first_refused-eq-none (s ∷ requested) allowlist h = elim (Bool-cases (scope_allowed s allowlist)) [
  | inl fine ↦ (fine, first_refused-eq-none requested allowlist (ground (arith, fine, h)))
  | inr bad ↦ absurd (ground (arith, bad, h))
]

is_nil-cases : (l : List Text) → (is_nil l ≡ true) ⊎ (is_nil l ≡ false)
is_nil-cases l = Bool-cases (is_nil l)

nonempty_of : (l : List Text) → is_nil l ≡ false → l ≢ []
nonempty_of [] h e = cc
nonempty_of (x ∷ l) h e = cc

eq-nil_of : (l : List Text) → is_nil l ≡ true → l ≡ []
eq-nil_of [] h = refl
eq-nil_of (x ∷ l) h = cc

pub positive-pos : (d : ℤ) {n : ℕ} → positive d ≡ some n → 0 < n
positive-pos (pos zero) h = cc
positive-pos (pos (suc n)) h = ground (arith, h)
positive-pos (negsuc n) h = cc

-- Scopes that a policy may give for a request.
abbrev pub IsAllowed : MintPolicy → List Text → List Text → Type 0
IsAllowed p requested scopes =
    ((p.require_allowlist ≡ true) × (p.scopes ≢ []) × (scopes ≡ p.scopes))
    ⊎ ((scopes ≡ requested)
        × ((p.scopes ≡ [])
            ⊎ ((requested ≢ []) × All (λ s. scope_allowed s p.scopes ≡ true) scopes)))

-- The scopes of a minted key: the policy's own list, where the policy has one and requires it, and
-- otherwise the requested scopes, each of which the policy's list allows if it has one.
pub resolve_scopes-IsAllowed :
    (p : MintPolicy) (requested scopes : List Text)
    → resolve_scopes p requested ≡ ok scopes
    → IsAllowed p requested scopes
unfolding resolve_scopes
resolve_scopes-IsAllowed p requested scopes h = elim (Bool-cases p.require_allowlist) [
  | inl fixed ↦ elim (is_nil-cases p.scopes) [
    | inl nothing ↦ absurd (ground (arith, fixed, nothing, h))
    | inr something ↦
        inl (fixed, nonempty_of p.scopes something, ground (arith, fixed, something, h))
  ]
  | inr free ↦ elim (is_nil-cases p.scopes) [
    | inl nothing ↦ inr (ground (arith, free, nothing, h), inl (eq-nil_of p.scopes nothing))
    | inr something ↦ elim (is_nil-cases requested) [
      | inl bare ↦ absurd (ground (arith, free, something, bare, h))
      | inr asked ↦ elim (Option-cases (first_refused requested p.scopes)) [
        | inr (s, bad) ↦ absurd (ground (arith, free, something, asked, bad, h))
        | inl fine ↦
            let same : scopes ≡ requested = ground (arith, free, something, asked, fine, h) in
            inr (
              same,
              inr (
                nonempty_of requested asked,
                subst (All (λ s. scope_allowed s p.scopes ≡ true)) (sym same)
                    (first_refused-eq-none requested p.scopes fine),
              ),
            )
      ]
    ]
  ]
]

-- A ttl that is given in the request is positive and, under a cap, at most the cap.
pub parse_ttl-le :
    (parse : Text → Option ℤ) (raw : Text) (fallback max ttl : ℕ)
    → is_empty (trim_space raw) ≡ false
    → parse_ttl parse raw fallback max ≡ ok ttl
    → (0 < ttl) × (0 < max → ttl ≤ max)
unfolding parse_ttl capped
parse_ttl-le parse raw fallback max ttl given h = elim (Option-cases (parse raw)) [
  | inl unread ↦ absurd (ground (arith, given, unread, h))
  | inr (d, read) ↦ elim (Option-cases (positive d)) [
    | inl bad ↦ absurd (ground (arith, given, read, bad, h))
    | inr (n, good) ↦
        let made : capped max n ≡ ttl = ground (arith, given, read, good, h) in
        ground (arith, positive-pos d good, made)
  ]
]
