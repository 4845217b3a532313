-- ===== src/Wire/Engine/Failover.antt =====
-- The loop over a plan's targets: which of them are tried, and which answer the client receives.
pub mod Own
use daigate.Prelude.{
  Text, ℕ, zero, suc, ◌+◌, ◌<◌, List, [], ◌∷◌, ◌++◌, append_assoc, length, if◌then◌else◌, ◌&&◌,
  ◌||◌, not, Bool, true, false, Option, none, some, ◌≡◌, ◌≢◌, ◌⊎◌, inl, inr, refl, sym, ◌∙◌, ap,
  arith, Bool-cases, All, All-append, if_true, if_false, and_true, subst, Option-cases,
}
use daigate.Catalog.Document.{is_nil}
use daigate.Catalog.Routing.{Target}
use daigate.Credential.Material.{Material}
use daigate.Upstream.Retry.{retryable}
use daigate.Wire.Dispatch.{ForwardCall, Response, Exchange, answered, broken, Handler, handler_for}
use daigate.Wire.Engine.{
  Surroundings, Refusal, credential_unavailable, route_not_registered, upstream_error, Reply,
  refused, relayed, Run, call_for, attempt,
}

-- What one attempt gives, whatever is done about it.
pub data Outcome : Type 0 where
  no_credential no_handler : Outcome
  failed : ForwardCall → Outcome
  answer : ForwardCall → Response → Outcome

-- An outcome after which another member of the pool may be tried.
abbrev pub may_retry : Outcome → Bool
may_retry no_credential = true
may_retry no_handler = true
may_retry (failed call) = true
may_retry (answer call resp) = retryable resp.status false

abbrev pub reply_of : Outcome → Reply
reply_of no_credential = refused credential_unavailable
reply_of no_handler = refused route_not_registered
reply_of (failed call) = refused upstream_error
reply_of (answer call resp) = relayed resp

abbrev pub calls_of : Outcome → List ForwardCall
calls_of no_credential = []
calls_of no_handler = []
calls_of (failed call) = call ∷ []
calls_of (answer call resp) = call ∷ []

exchanged : ForwardCall → Exchange → Outcome
exchanged call broken = failed call
exchanged call (answered resp) = answer call resp

module _ (env : Surroundings) where
  handled : ℕ → Target → Material → Option Handler → Outcome
  handled i t mat none = no_handler
  handled i t mat (some forward) = let call = call_for env i t mat in exchanged call (forward call)

  with_material : ℕ → Target → Option Material → Outcome
  with_material i t none = no_credential
  with_material i t (some mat) = handled i t mat (handler_for env.registry env.wire t)

  -- The attempt at position `i`: the credential, the handler, the exchange.
  pub outcome : ℕ → Target → Outcome
  unfolding with_material handled exchanged
  outcome i t = with_material i t (env.get i t.credential_profile)

  -- One round of the loop, by its outcome.
  attempt_step :
      (i : ℕ) (t : Target) (ts : List Target)
      → attempt env i (t ∷ ts) ≡ (
          if env.failover && not (is_nil ts) && may_retry (outcome i t)
          then record {
            reply = (attempt env (i + 1) ts).reply;
            calls = calls_of (outcome i t) ++ (attempt env (i + 1) ts).calls;
          }
          else record { reply = some (reply_of (outcome i t)); calls = calls_of (outcome i t) })
  unfolding attempt outcome retryable
  attempt_step i t ts = ground arith

  abbrev pub more_to_try : ℕ → Target → List Target → Bool
  more_to_try i t ts = env.failover && not (is_nil ts) && may_retry (outcome i t)

  pub attempt_stop :
      (i : ℕ) (t : Target) (ts : List Target)
      → more_to_try i t ts ≡ false
      → attempt env i (t ∷ ts)
        ≡ record { reply = some (reply_of (outcome i t)); calls = calls_of (outcome i t) }
  attempt_stop i t ts h = attempt_step i t ts ∙ if_false (more_to_try i t ts) _ _ h

  pub attempt_more :
      (i : ℕ) (t : Target) (ts : List Target)
      → more_to_try i t ts ≡ true
      → attempt env i (t ∷ ts) ≡ record {
        reply = (attempt env (i + 1) ts).reply;
        calls = calls_of (outcome i t) ++ (attempt env (i + 1) ts).calls;
      }
  attempt_more i t ts h = attempt_step i t ts ∙ if_true (more_to_try i t ts) _ _ h

  abbrev pub AllRetried : ℕ → List Target → Type 0
  AllRetried i [] = Unit
  AllRetried i (t ∷ ts) = (may_retry (outcome i t) ≡ true) × AllRetried (i + 1) ts

  abbrev pub calls_from : ℕ → List Target → List ForwardCall
  calls_from i [] = []
  calls_from i (t ∷ ts) = calls_of (outcome i t) ++ calls_from (i + 1) ts

  -- How a run over `ts` went: the targets passed over, and the one that gave the answer.
  pub record IsTried (i : ℕ) (ts : List Target) (run : Run) : Type 0 where
    pub before : List Target
    pub last : Target
    pub after : List Target
    pub split : ts ≡ before ++ (last ∷ after)
    pub passed_over : AllRetried i before
    pub only_failover : (before ≡ []) ⊎ (env.failover ≡ true)
    pub stopped :
        (env.failover ≡ false)
        ⊎ ((after ≡ []) ⊎ (may_retry (outcome (i + length before) last) ≡ false))
    pub replied : run.reply ≡ some (reply_of (outcome (i + length before) last))
    pub called : run.calls ≡ calls_from i before ++ calls_of (outcome (i + length before) last)

  stopped_here :
      (i : ℕ) (t : Target) (ts : List Target)
      → (env.failover && not (is_nil ts) && may_retry (outcome i t)) ≡ false
      → IsTried i (t ∷ ts) (attempt env i (t ∷ ts))
  stopped_here i t ts h =
      let here : i + 0 ≡ i = omega arith in
      let step = attempt_stop i t ts h in
      record {
        before = [];
        last = t;
        after = ts;
        split = refl;
        passed_over = tt;
        only_failover = inl refl;
        stopped = rw here (halted ts (outcome i t) h);
        replied = rw here (ap (λ r. r.reply) step);
        called = rw here (ap (λ r. r.calls) step);
      }
    where
      halted :
          (us : List Target) (o : Outcome)
          → (env.failover && not (is_nil us) && may_retry o) ≡ false
          → (env.failover ≡ false) ⊎ ((us ≡ []) ⊎ (may_retry o ≡ false))
      halted [] o e = inr (inl refl)
      halted (u ∷ us) o e = elim (Bool-cases env.failover) [
        | inl f ↦ inr (inr (rw f at e))
        | inr f ↦ inl f
      ]

  -- A run over a plan with targets ends with exactly one answer. Every target before the one that
  -- gives the answer was passed over after an outcome that allows a retry, and only under failover;
  -- the run stops because there is no failover, or no further target, or because the outcome
  -- allows no retry; the handlers called are those of the targets tried, once each and in order.
  pub attempt-IsTried :
      (i : ℕ) (t : Target) (ts : List Target) → IsTried i (t ∷ ts) (attempt env i (t ∷ ts))
  attempt-IsTried i t [] = stopped_here i t [] (ground arith)
  attempt-IsTried i t (u ∷ us) =
      let ih = attempt-IsTried (i + 1) u us in
      elim (Bool-cases (env.failover && not (is_nil (u ∷ us)) && may_retry (outcome i t))) [
        | inr no_more ↦ stopped_here i t (u ∷ us) no_more
        | inl more ↦
            let step = attempt_more i t (u ∷ us) more in
            let here : i + suc (length ih.before) ≡ i + 1 + length ih.before = omega arith in
            record {
              before = t ∷ ih.before;
              last = ih.last;
              after = ih.after;
              split = ap (λ l. t ∷ l) ih.split;
              passed_over = (ground (arith, more), ih.passed_over);
              only_failover = inr (ground (arith, more));
              stopped = rw here ih.stopped;
              replied = rw here (ap (λ r. r.reply) step ∙ ih.replied);
              called = rw here (
                  ap (λ r. r.calls) step
                  ∙ ap (λ l. calls_of (outcome i t) ++ l) ih.called
                  ∙ sym (append_assoc (calls_of (outcome i t)) _ _));
            }
      ]

  -- Without failover the first target alone decides: its outcome is the answer, and no other
  -- target's handler is called.
  pub attempt-single :
      (i : ℕ) (t : Target) (ts : List Target)
      → env.failover ≡ false
      → ((attempt env i (t ∷ ts)).reply ≡ some (reply_of (outcome i t)))
        × ((attempt env i (t ∷ ts)).calls ≡ calls_of (outcome i t))
  attempt-single i t ts h = ground (arith, attempt_step i t ts)
