-- ===== src/Catalog/Doctor.antt =====
-- The check of a catalog against the linked handlers: Catalog.RegisteredRoutes and Doctor
-- (catalog/catalog.go). The results are lists in some order, since Go collects map keys.
pub mod Clean
pub mod Targets
use daigate.Prelude.{
  Text, Map, List, [], ◌∷◌, ◌++◌, codes, is_empty, lookup, insert, keys, if◌then◌else◌, not, Bool,
  true, false,
}
use daigate.Catalog.Document.{Surface, Provider, Document}
use daigate.Catalog.Routing.{or_zero}

-- seenP and seenA
pub record Seen : Type 0 where
  pub protocols : Map Bool
  pub adapters : Map Bool

abbrev pub mark : Text → Map Bool → Map Bool
mark name seen = if is_empty name then seen else insert name true seen

see_surfaces : Map Surface → Seen → Seen
see_surfaces [] seen = seen
see_surfaces ((id, s) ∷ rest) seen =
    see_surfaces rest (record {
      protocols = mark s.protocol seen.protocols;
      adapters = mark s.adapter seen.adapters;
    })

see_provider : Provider → Seen → Seen
unfolding see_surfaces
see_provider p seen =
    let seen' = see_surfaces p.surfaces seen in
    record seen' { protocols = mark p.protocol seen'.protocols }

see_providers : Map Provider → Seen → Seen
unfolding see_provider
see_providers [] seen = seen
see_providers ((name, p) ∷ rest) seen = see_providers rest (see_provider p seen)

-- The protocols and the adapters that the catalog names.
unfoldable pub registered_routes : Document → List Text × List Text
unfolding see_providers
registered_routes doc =
    let seen = see_providers doc.providers (record { protocols = []; adapters = [] }) in
    (keys seen.protocols, keys seen.adapters)

abbrev pub registered : Map Bool → Text → Bool
registered handlers name = or_zero false (lookup name handlers)

missing : Text → Map Bool → List Text → List Text
missing kind handlers [] = []
missing kind handlers (name ∷ names) =
    let rest = missing kind handlers names in
    if not (registered handlers name) then (kind ++ name) ∷ rest else rest

unfoldable pub doctor : Document → Map Bool → Map Bool → List Text
unfolding registered_routes missing
doctor doc protocols adapters =
    let (protos, adpts) = registered_routes doc in
    missing (codes "protocol:") protocols protos ++ missing (codes "adapter:") adapters adpts
