-- ===== src/Catalog/Doctor/Targets.antt =====
-- What a clean Doctor report gives for the targets of a resolved request.
use daigate.Prelude.{Text, Map, [], Bool, true, ◌≡◌}
use daigate.Catalog.Document.{PoolEntry, Document, Catalog}
use daigate.Catalog.Routing.{Target}
use daigate.Catalog.Resolve.Sound.{RoutesTo}
use daigate.Catalog.Doctor.{registered}
use daigate.Catalog.Doctor.Clean.{IsLinked}

-- A target, by the pool entry that has led to it: its protocol and its adapter are linked, where it
-- has them; if the entry names no surface, the target has no adapter and its protocol is registered.
pub record IsHandled (protocols adapters : Map Bool) (doc : Document) (model wire : Text)
    (t : Target) : Type 0 where
  pub entry : PoolEntry
  pub routed : RoutesTo doc model wire entry t
  pub linked_protocol : IsLinked protocols t.protocol
  pub linked_adapter : IsLinked adapters t.adapter
  pub registered_protocol :
      entry.surface ≡ [] → (t.adapter ≡ []) × (registered protocols t.protocol ≡ true)
