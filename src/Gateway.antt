-- ===== src/Gateway.antt =====
-- The draining of the gateway's process (gateway/gateway.go): track, the handler around both planes,
-- and Shutdown. The mutex makes the two ends of a request one step each; a request is a number here.
pub mod Drain
use daigate.Prelude.{
  ℕ, zero, suc, ◌+◌, List, [], ◌∷◌, ◌==◌, if◌then◌else◌, Bool, true, false, Option, none, some,
}

-- The fields `draining` and `active` of Gateway, the latter as the counter of the WaitGroup.
pub record Tracker : Type 0 where
  pub draining : Bool
  pub active : ℕ

unfoldable pub new_tracker : Tracker
new_tracker = record { draining = false; active = 0 }

-- WaitGroup.Done, with `none` for its panic on a negative counter.
unfoldable pub done : ℕ → Option ℕ
done zero = none
done (suc n) = some n

-- The part of track before it calls the next handler: whether it calls it, where the client gets
-- status 503 otherwise.
unfoldable pub track_enter : Tracker → Bool × Tracker
track_enter t = if t.draining then (false, t) else (true, record t { active = t.active + 1 })

-- The deferred call after the next handler.
unfoldable pub track_leave : Tracker → Option Tracker
unfolding done
track_leave t = elim (done t.active) [ none ↦ none | some n ↦ some (record t { active = n }) ]

-- The first step of Shutdown.
unfoldable pub start_drain : Tracker → Tracker
start_drain t = record t { draining = true }

-- A process: the tracker, the requests whose next handler runs, and all that reached it, the last
-- ones first.
pub record Process : Type 0 where
  pub tracker : Tracker
  pub running : List ℕ
  pub passed : List ℕ
  pub panicked : Bool

unfoldable pub new_process : Process
unfolding new_tracker
new_process = record { tracker = new_tracker; running = []; passed = []; panicked = false }

-- A request arrives, the next handler of a request returns, or Shutdown is called.
pub data ProcessEvent : Type 0 where
  arrive : ℕ → ProcessEvent
  finish : ℕ → ProcessEvent
  shutdown : ProcessEvent

-- The list without the first n, `none` where there is no n.
unfoldable pub take_out : ℕ → List ℕ → Option (List ℕ)
take_out n [] = none
take_out n (m ∷ ms) =
    let rest = take_out n ms in
    if m == n then some ms else elim rest [ none ↦ none | some others ↦ some (m ∷ others) ]

unfoldable pub begin_request : ℕ → Process → Process
unfolding track_enter
begin_request n p =
    let (admitted, t) = track_enter p.tracker in
    if admitted then record p { tracker = t; running = n ∷ p.running; passed = n ∷ p.passed } else p

-- A request that does not run does not finish.
unfoldable pub end_request : ℕ → Process → Process
unfolding track_leave take_out
end_request n p = elim (take_out n p.running) [
  | none ↦ p
  | some others ↦ elim (track_leave p.tracker) [
    | none ↦ record p { running = others; panicked = true }
    | some t ↦ record p { tracker = t; running = others }
  ]
]

unfoldable pub run_event : ProcessEvent → Process → Process
unfolding begin_request end_request start_drain
run_event (arrive n) p = begin_request n p
run_event (finish n) p = end_request n p
run_event shutdown p = record p { tracker = start_drain p.tracker }

unfoldable pub run_events : List ProcessEvent → Process → Process
unfolding run_event
run_events [] p = p
run_events (e ∷ es) p = run_events es (run_event e p)

-- The goroutine of Shutdown that waits for the WaitGroup while the events go on: the process as it is
-- when the wait is over, `none` where the events end before, which Shutdown logs as a timeout.
unfoldable pub wait_active : List ProcessEvent → Process → Option Process
unfolding run_event
wait_active [] p = if p.tracker.active == 0 then some p else none
wait_active (e ∷ es) p =
    let later = wait_active es (run_event e p) in if p.tracker.active == 0 then some p else later
