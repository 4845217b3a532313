-- ===== src/Tests/Processes.antt =====
-- The draining of a process (gateway/) with a request in flight.
use daigate.Prelude.{List, [], ◌∷◌, refl, some, ◌≡◌, ◌↔◌}
use daigate.Gateway.{
  Process, new_process, ProcessEvent, arrive, finish, shutdown, run_event, run_events, wait_active,
}
use daigate.Gateway.Drain.{IsOver, wait_active-IsOver}

-- One request is over and one in flight when Shutdown is called.
abbrev history : List ProcessEvent
history = arrive 1 ∷ arrive 2 ∷ finish 1 ∷ []

-- A late request is turned away, and the one in flight finishes.
abbrev afterwards : List ProcessEvent
afterwards = arrive 3 ∷ finish 2 ∷ []

abbrev stopped : Process
stopped = run_event shutdown (run_events history new_process)

stopped_running : stopped.running ≡ 2 ∷ []
unfolding run_events new_process
stopped_running = refl

stopped_passed : (run_events afterwards stopped).passed ≡ 2 ∷ 1 ∷ []
unfolding run_events new_process
stopped_passed = refl

wait_active-IsOver_example : ((run_events afterwards stopped).running ≡ []) ↔ (
    (q : Process) × (wait_active afterwards stopped ≡ some q)
    × IsOver (run_events history new_process).passed q)
wait_active-IsOver_example = wait_active-IsOver history afterwards
