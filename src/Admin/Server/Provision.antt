-- ===== src/Admin/Server/Provision.antt =====
-- What a provision token may mint.
use daigate.Prelude.{
  Text, ℕ, ◌≤◌, ◌<◌, ◌*◌, [], text_eq_refl, is_empty, trim_space, true, false, Option, none, some,
  ok, ℤ, pos, positive, ◌≡◌, ◌⊎◌, refl, sym, arith, Bool-cases, Option-cases, Result-cases, inl,
  inr, subst,
}
use daigate.Keyring.Keys.{CreateCall, kind_issued}
use daigate.Http.{max_request_body}
use daigate.Config.{AdminConfig, MintPolicyConfig}
use daigate.Catalog.Document.{is_nil}
use daigate.Credential.Policy.{
  MintPolicy, hour, configured, default_provision_policy, provision_policy_from_config, parse_ttl,
  resolve_scopes,
}
use daigate.Credential.Policy.Caps.{parse_ttl-le, positive-pos}
use daigate.Admin.Auth.{role_provision}
use daigate.Admin.Server.{
  Codecs, Server, Vault, AdminRequest, AdminRefusal, Draw, refused, KeyRequest, created, create_key,
  policy_for, ttl_for, mint_call, call_with, bad_request,
}

-- A policy as the configuration gives it.
pub record IsFixed (p : MintPolicy) : Type 0 where
  pub capped : 0 < p.max_ttl
  pub scoped : is_nil p.scopes ≡ false
  pub required : p.require_allowlist ≡ true

configured-IsFixed :
    (parse : Text → Option ℤ) (cfg : MintPolicyConfig) (p : MintPolicy)
    → IsFixed p
    → IsFixed (configured parse cfg p)
unfolding configured
configured-IsFixed parse cfg p h = record {
  capped = elim (Bool-cases (is_empty cfg.max_ttl)) [
    | inl unset ↦ rw (configured, unset) h.capped
    | inr set ↦ elim (Option-cases (parse cfg.max_ttl)) [
      | inl unread ↦ rw (configured, set, unread) h.capped
      | inr (d, read) ↦ elim (Option-cases (positive d)) [
        | inl bad ↦ rw (configured, set, read, bad) h.capped
        | inr (n, good) ↦ rw (configured, set, read, good) (positive-pos d good)
      ]
    ]
  ];
  scoped = elim (Bool-cases (is_nil cfg.scopes)) [
    | inl unset ↦ rw (configured, unset) h.scoped
    | inr set ↦ rw (configured, set) set
  ];
  required = h.required;
}

provision_policy-IsFixed :
    (parse : Text → Option ℤ) (f : Option AdminConfig)
    → IsFixed (provision_policy_from_config parse f)
unfolding provision_policy_from_config
provision_policy-IsFixed parse f = chosen f
  where
    given : IsFixed default_provision_policy
    given = record { capped = omega arith; scoped = refl; required = refl }

    chosen : (o : Option AdminConfig) → IsFixed (provision_policy_from_config parse o)
    chosen none = given
    chosen (some cfg) = configured-IsFixed parse cfg.provision default_provision_policy given

-- The call of Create that a provision token may cause.
pub record IsProvisioned (p : MintPolicy) (req : KeyRequest) (draw : Draw) (call : CreateCall)
    : Type 0 where
  pub ttl : ℕ
  pub issued : call.kind ≡ kind_issued
  pub lives : call.ttl ≡ pos ttl
  pub positive : 0 < ttl
  pub bounded : (ttl ≤ p.max_ttl) ⊎ ((is_empty (trim_space req.ttl) ≡ true) × (ttl ≡ 24 * hour))
  pub fixed : call.scopes ≡ p.scopes
  pub named : call.name ≡ req.name
  pub random : call.tail ≡ draw.tail
  pub started : call.now_expiry ≡ draw.now_expiry

module _ (codecs : Codecs) {S K : Type 0} (server : Server S K) where
  policy_for-provision :
      IsFixed server.provision_policy
      → policy_for codecs server role_provision ≡ server.provision_policy
  unfolding policy_for
  policy_for-provision h = ground (arith, text_eq_refl role_provision, h.capped)

  -- The ttl of a key that is not static.
  ttl_for-bounded :
      (p : MintPolicy) (req : KeyRequest) {ttl : ℕ}
      → 0 < p.max_ttl
      → req.static ≡ false
      → ttl_for codecs server p req ≡ ok ttl
      → (0 < ttl)
        × ((ttl ≤ p.max_ttl) ⊎ ((is_empty (trim_space req.ttl) ≡ true) × (ttl ≡ 24 * hour)))
  unfolding ttl_for parse_ttl
  ttl_for-bounded p req {ttl} cap issued h = elim (Bool-cases (is_empty (trim_space req.ttl))) [
    | inl unset ↦
        let same : ttl ≡ 24 * hour = ground (arith, issued, unset, h) in
        (omega (arith, same), inr (unset, same))
    | inr set ↦
        let parsed : parse_ttl codecs.parse_duration req.ttl (24 * hour) p.max_ttl ≡ ok ttl =
          ground (arith, issued, h) in
        let (above, below) =
          parse_ttl-le codecs.parse_duration req.ttl (24 * hour) p.max_ttl ttl set parsed in
        (above, inl (below cap))
  ]

  mint_call-IsProvisioned :
      (req : KeyRequest) (draw : Draw) {call : CreateCall}
      → IsFixed server.provision_policy
      → mint_call codecs server role_provision req draw ≡ ok call
      → IsProvisioned server.provision_policy req draw call
  unfolding mint_call resolve_scopes
  mint_call-IsProvisioned req draw {call} fixed h =
      let p = server.provision_policy in
      let own = text_eq_refl role_provision in
      let policy = policy_for-provision fixed in
      elim (Bool-cases req.static) [
        | inl static ↦ absurd (ground (arith, own, static, h))
        | inr issued ↦ elim (Result-cases (ttl_for codecs server p req)) [
          | inr (e, failed) ↦ absurd (ground (arith, own, issued, policy, failed, h))
          | inl (ttl, lives) ↦
              let scopes : resolve_scopes p [] ≡ ok p.scopes =
                ground (arith, fixed.required, fixed.scoped) in
              let same : call_with req draw ttl p.scopes ≡ call =
                ground (arith, own, issued, policy, lives, scopes, h) in
              let (above, below) = ttl_for-bounded p req fixed.capped issued lives in
              subst (IsProvisioned p req draw) same (record {
                ttl = ttl;
                issued = rw issued refl;
                lives = refl;
                positive = above;
                bounded = below;
                fixed = refl;
                named = refl;
                random = refl;
                started = refl;
              })
        ]
      ]

  -- Whatever a provision token asks for, it is refused with nothing changed, or Create is called for
  -- an issued key with the scopes of the provision policy and a positive ttl: at most the policy's
  -- cap, or 24 hours where the request gives none. The policy is that of some configuration.
  pub create_key-IsProvisioned :
      (f : Option AdminConfig) (r : AdminRequest) (draw : Draw) (v : Vault S K)
      → server.provision_policy ≡ provision_policy_from_config codecs.parse_duration f
      → ((e : AdminRefusal) × (create_key codecs server role_provision r draw v ≡ (refused e, v)))
        ⊎ ((req : KeyRequest) × (call : CreateCall) × (codecs.decode_key max_request_body r.body
              ≡ some req)
            × IsProvisioned server.provision_policy req draw call
            × (create_key codecs server role_provision r draw v
                ≡ created v (server.key_store.create call v.keys)))
  unfolding create_key
  create_key-IsProvisioned f r draw v same =
      let fixed : IsFixed server.provision_policy =
        subst IsFixed (sym same) (provision_policy-IsFixed codecs.parse_duration f) in
      elim (Option-cases (codecs.decode_key max_request_body r.body)) [
        | inl bad ↦ inl (bad_request, rw (create_key, bad) refl)
        | inr (req, read) ↦ elim (Result-cases (mint_call codecs server role_provision req draw)) [
          | inr (e, failed) ↦ inl (e, rw (create_key, read, failed) refl)
          | inl (call, fine) ↦ inr (
            req,
            call,
            read,
            mint_call-IsProvisioned req draw {call = call} fixed fine,
            rw (create_key, read, fine) refl,
          )
        ]
      ]
