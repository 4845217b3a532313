-- ===== src/Wire/Compose/Stock.antt =====
-- The binary without linked adapters.
use daigate.Prelude.{
  Text, List, [], codes, text_eq, insert, Bool-cases, true, false, none, ok, err, ◌≡◌, ◌≢◌, ◌↔◌,
  inl, inr, refl, subst,
}
use daigate.Catalog.Wires.{protocol_matches_wire}
use daigate.Catalog.Routing.{Target}
use daigate.Wire.Dispatch.{Registry, new_registry, handler_for, register_chat}
use daigate.Wire.Passthrough.{Net, register}
use daigate.Wire.Passthrough.Served.{register-handles}
use daigate.Wire.Compose.{
  is_wanted, registry_empty, register_wanted, default_adapters, available_adapters, from_config,
  none_enabled,
}

-- With passthrough enabled FromConfig gives the registry that it fills, and fails otherwise.
from_config-wanted :
    (net : Net) (enable : List Text)
    → is_wanted net.lower enable (codes "passthrough") ≡ true
    → from_config net enable [] ≡ ok (register net new_registry)
unfolding from_config register_wanted available_adapters default_adapters registry_empty register
    register_chat insert text_eq codes
from_config-wanted net enable w = rw (from_config, register_wanted, w) refl

from_config-unwanted :
    (net : Net) (enable : List Text)
    → is_wanted net.lower enable (codes "passthrough") ≡ false
    → from_config net enable [] ≡ err none_enabled
unfolding from_config register_wanted available_adapters default_adapters registry_empty
from_config-unwanted net enable w = rw (from_config, register_wanted, w) refl

-- Without linked adapters FromConfig succeeds exactly if the operator has enabled passthrough, up to
-- case and spaces. Every registry that it gives has a handler for each target without an adapter whose protocol
-- fits its wire, unless the protocol is openai-compat-chat.
pub from_config-handles :
    (net : Net) (enable : List Text) (t : Target) (wire : Text)
    → protocol_matches_wire t.protocol wire ≡ true
    → text_eq t.protocol (codes "openai-compat-chat") ≡ false
    → t.adapter ≡ []
    → ((is_wanted net.lower enable (codes "passthrough") ≡ true)
        ↔ ((reg : Registry) × (from_config net enable [] ≡ ok reg)))
      × ((reg : Registry) → from_config net enable [] ≡ ok reg → handler_for reg wire t ≢ none)
from_config-handles net enable t wire h compat f =
    elim (Bool-cases (is_wanted net.lower enable (codes "passthrough"))) [
      | inl w ↦
          let made = from_config-wanted net enable w in
          (
            ((λ x. (register net new_registry, made)), (λ x. w)),
            (λ reg same.
                let e : register net new_registry ≡ reg = cc in
                subst (λ g. handler_for g wire t ≢ none) e
                  (register-handles net new_registry t wire h compat f)),
          )
      | inr u ↦
          let unlike = from_config-unwanted net enable u in
          (((λ w. cc), (λ x. let same = x.1 in cc)), (λ reg same. cc))
    ]
