-- ===== src/Wire/Compose.antt =====
-- The registry that the binary is composed with (compose/compose.go). An adapter is linked code: its
-- two methods are its name and what it does with a registry, with an error or the registry it leaves.
pub mod Stock
use daigate.Prelude.{
  Text, Map, List, [], ◌∷◌, any, codes, text_eq, trim_space, if◌then◌else◌, ◌&&◌, Bool, true, false,
  Result, ok, err,
}
use daigate.Credential.Inject.{Lower, to_lower}
use daigate.Wire.Dispatch.{Registry, new_registry}
use daigate.Wire.Passthrough.{Net, register}

pub record Adapter : Type 0 where
  pub name : Text
  pub register : Registry → Result Text Registry

-- The errors of FromConfig: the failure of an adapter's Register, with its name, and the check at
-- the end.
pub data ComposeError : Type 0 where
  register_failed : Text → Text → ComposeError
  none_enabled : ComposeError

-- passthrough.New
abbrev pub passthrough : Net → Adapter
passthrough net = record { name = codes "passthrough"; register = λ reg. ok (register net reg) }

unfoldable pub default_adapters : Net → List Adapter
default_adapters net = passthrough net ∷ []

-- The look into the map `want`.
unfoldable pub is_wanted : Lower → List Text → Text → Bool
is_wanted lower enable name =
    any (λ n. text_eq (to_lower lower (trim_space n)) (to_lower lower name)) enable

abbrev pub has_none : {V : Type 0} → Map V → Bool
has_none [] = true
has_none (e ∷ m) = false

-- registryEmpty, which does not count the transcription handlers.
unfoldable pub registry_empty : Registry → Bool
registry_empty reg =
    has_none reg.chat_handlers
    && has_none reg.embed_handlers
    && has_none reg.image_handlers
    && has_none reg.speech_handlers
    && has_none reg.video_handlers
    && has_none reg.image_adapters
    && has_none reg.speech_adapters
    && has_none reg.embed_adapters
    && has_none reg.video_adapters
    && has_none reg.chat_adapters

-- The loop over the available adapters.
unfoldable pub register_wanted :
    Lower → List Text → List Adapter → Registry → Result ComposeError Registry
unfolding is_wanted
register_wanted lower enable [] reg = ok reg
register_wanted lower enable (a ∷ others) reg =
    let skipped = register_wanted lower enable others reg in
    let taken : Result ComposeError Registry = elim (a.register reg) [
      | err cause ↦ err (register_failed a.name cause)
      | ok next ↦ register_wanted lower enable others next
    ] in
    if is_wanted lower enable a.name then taken else skipped

unfoldable pub available_adapters : Net → List Adapter → List Adapter
unfolding default_adapters
available_adapters net [] = default_adapters net
available_adapters net (a ∷ others) = a ∷ others

unfoldable pub from_config : Net → List Text → List Adapter → Result ComposeError Registry
unfolding register_wanted available_adapters registry_empty
from_config net enable available =
    elim (register_wanted net.lower enable (available_adapters net available) new_registry) [
      | err e ↦ err e
      | ok reg ↦ if registry_empty reg then err none_enabled else ok reg
    ]
