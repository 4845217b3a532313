-- ===== src/Wire/Engine/Failover/Own.antt =====
-- Which credential and which headers a handler is called with.
use daigate.Prelude.{
  ℕ, ◌+◌, List, [], ◌∷◌, Option, none, some, ◌≡◌, inl, inr, refl, sym, Bool-cases, All, All-append,
  subst,
}
use daigate.Catalog.Routing.{Target}
use daigate.Credential.Material.{Material}
use daigate.Wire.Dispatch.{ForwardCall, Exchange, answered, broken, Handler, handler_for}
use daigate.Wire.Engine.{Surroundings, Run, request_body, call_for, attempt}
use daigate.Wire.Engine.Failover.{
  calls_of, exchanged, handled, with_material, outcome, more_to_try, attempt_stop, attempt_more,
}

module _ (env : Surroundings) where
  -- A call carries the credential of its own target's profile, and the request's headers as the
  -- engine has cleaned them.
  abbrev pub IsOwn : ForwardCall → Type 0
  IsOwn call =
      (env.get call.attempt call.target.credential_profile ≡ some call.material)
      × (call.headers ≡ env.headers)
      × (call.body ≡ request_body env.codec env.raw call.target.upstream_model)

  exchanged-IsOwn :
      (call : ForwardCall) (x : Exchange) → IsOwn call → All IsOwn (calls_of (exchanged call x))
  unfolding exchanged
  exchanged-IsOwn call broken h = (h, tt)
  exchanged-IsOwn call (answered resp) h = (h, tt)

  handled-IsOwn :
      (i : ℕ) (t : Target) (mat : Material) (o : Option Handler)
      → env.get i t.credential_profile ≡ some mat
      → All IsOwn (calls_of (handled env i t mat o))
  unfolding handled call_for
  handled-IsOwn i t mat none e = tt
  handled-IsOwn i t mat (some forward) e =
      exchanged-IsOwn (call_for env i t mat) (forward (call_for env i t mat)) (e, refl, refl)

  with_material-IsOwn :
      (i : ℕ) (t : Target) (o : Option Material)
      → env.get i t.credential_profile ≡ o
      → All IsOwn (calls_of (with_material env i t o))
  unfolding with_material
  with_material-IsOwn i t none e = tt
  with_material-IsOwn i t (some mat) e =
      handled-IsOwn i t mat (handler_for env.registry env.wire t) e

  outcome-IsOwn : (i : ℕ) (t : Target) → All IsOwn (calls_of (outcome env i t))
  outcome-IsOwn i t =
      unfold outcome in with_material-IsOwn i t (env.get i t.credential_profile) refl

  -- Every handler is called with the credential that the store gave for the profile of the very
  -- target of the call, and with the cleaned headers; no credential crosses to another target.
  pub attempt-IsOwn : (i : ℕ) (ts : List Target) → All IsOwn (attempt env i ts).calls
  attempt-IsOwn i [] = unfold attempt in tt
  attempt-IsOwn i (t ∷ ts) =
      let own = outcome-IsOwn i t in
      let ih = attempt-IsOwn (i + 1) ts in
      elim (Bool-cases (more_to_try env i t ts)) [
        | inr no_more ↦
            subst (λ (r : Run). All IsOwn r.calls) (sym (attempt_stop env i t ts no_more)) own
        | inl more ↦
            subst (λ (r : Run). All IsOwn r.calls) (sym (attempt_more env i t ts more))
              (All-append IsOwn (calls_of (outcome env i t)) _ own ih)
      ]
