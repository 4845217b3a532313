-- ===== src/Wire/Ingress/Own.antt =====
-- Which credential, which headers and which body a handler is called with (handleWire, wire/wire.go).
use daigate.Prelude.{Text, text_eq, lookup, if◌then◌else◌, none, some, ◌≡◌}
use daigate.Http.{canonical_key}
use daigate.Catalog.Document.{Catalog}
use daigate.Wire.Dispatch.{ForwardCall}
use daigate.Wire.Engine.{Request, Engine, attempt, header_catalog_modality, request_body}
use daigate.Wire.Engine.Failover.Own as Loop

-- A call carries the credential that the store gave for the profile of its own target, every header
-- of the request but X-Catalog-Modality, which it does not carry, and the request's body with the
-- model of its own target.
pub record IsOwn (e : Engine) (r : Request) (call : ForwardCall) : Type 0 where
  pub credential : e.get call.attempt call.target.credential_profile ≡ some call.material
  pub cleaned :
      (key : Text)
      → lookup key call.headers ≡ (
          if text_eq (canonical_key header_catalog_modality) key
          then none
          else lookup key r.headers)
  pub body : call.body ≡ request_body e.codec r.raw call.target.upstream_model
