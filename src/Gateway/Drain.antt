-- ===== src/Gateway/Drain.antt =====
-- What the shutdown of the gateway guarantees of the requests in flight.
use daigate.Prelude.{
  ℕ, suc, ◌+◌, List, [], ◌∷◌, length, ◌==◌, Bool-cases, Option-cases, true, false, some, ◌≡◌, ◌↔◌,
  ◌∙◌, ==_iff, inl, inr, refl, sym, subst, arith,
}
use daigate.Gateway.{
  new_tracker, done, track_enter, track_leave, start_drain, Process, new_process, ProcessEvent,
  arrive, finish, shutdown, take_out, begin_request, end_request, run_event, run_events,
  wait_active,
}

-- The counter is the number of the running requests, and no counter has panicked.
pub record IsCounted (p : Process) : Type 0 where
  pub counted : p.tracker.active ≡ length p.running
  pub calm : p.panicked ≡ false

length-take_out :
    (n : ℕ) (ms others : List ℕ) → take_out n ms ≡ some others → length ms ≡ 1 + length others
unfolding take_out
length-take_out n [] others h = cc
length-take_out n (m ∷ ms) others h = elim (Bool-cases (m == n)) [
  | inl e ↦ ground (arith, e, h)
  | inr e ↦ elim (Option-cases (take_out n ms)) [
    | inl missing ↦ ground (arith, e, h, missing)
    | inr (rest, found) ↦ ground (arith, e, h, found, length-take_out n ms rest found)
  ]
]

run_event-IsCounted : (e : ProcessEvent) (p : Process) → IsCounted p → IsCounted (run_event e p)
unfolding run_event begin_request end_request track_enter track_leave start_drain done
run_event-IsCounted (arrive n) p h = elim (Bool-cases p.tracker.draining) [
  | inl e ↦ simp (run_event, begin_request, track_enter, e) h
  | inr e ↦
      rw (run_event, begin_request, track_enter, e)
        (record { counted = omega (arith, h.counted); calm = h.calm })
]
run_event-IsCounted (finish n) p h = elim (Option-cases (take_out n p.running)) [
  | inl missing ↦ rw (run_event, end_request, missing) h
  | inr (others, found) ↦
      let e : p.tracker.active ≡ suc (length others) =
        omega (arith, h.counted, length-take_out n p.running others found) in
      rw (run_event, end_request, found, track_leave, e) (record { counted = refl; calm = h.calm })
]
run_event-IsCounted shutdown p h = record { counted = h.counted; calm = h.calm }

run_events-IsCounted :
    (es : List ProcessEvent) (p : Process) → IsCounted p → IsCounted (run_events es p)
unfolding run_events
run_events-IsCounted [] p h = h
run_events-IsCounted (e ∷ es) p h =
    run_events-IsCounted es (run_event e p) (run_event-IsCounted e p h)

-- A process that is draining: no request gets in any more, so `passed` stays.
record IsClosed (passed : List ℕ) (p : Process) : Type 0 where
  counted : IsCounted p
  closed : p.tracker.draining ≡ true
  kept : p.passed ≡ passed

run_event-IsClosed :
    (e : ProcessEvent) {passed : List ℕ} (p : Process)
    → IsClosed passed p
    → IsClosed passed (run_event e p) × (p.running ≡ [] → (run_event e p).running ≡ [])
unfolding run_event begin_request end_request track_enter track_leave start_drain done take_out
run_event-IsClosed e p h = (
  record {
    counted = run_event-IsCounted e p h.counted;
    closed = closed_next e;
    kept = kept_next e ∙ h.kept;
  },
  idle_next e,
)
  where
    closed_next : (e : ProcessEvent) → (run_event e p).tracker.draining ≡ true
    closed_next (arrive n) = ground (arith, h.closed)
    closed_next (finish n) = ground (arith, h.closed)
    closed_next shutdown = refl

    kept_next : (e : ProcessEvent) → (run_event e p).passed ≡ p.passed
    kept_next (arrive n) = ground (arith, h.closed)
    kept_next (finish n) = ground (arith, h.closed)
    kept_next shutdown = refl

    idle_next : (e : ProcessEvent) → p.running ≡ [] → (run_event e p).running ≡ []
    idle_next (arrive n) i = ground (arith, h.closed, i)
    idle_next (finish n) i = ground (arith, h.closed, i)
    idle_next shutdown i = i

run_events-IsClosed :
    (es : List ProcessEvent) {passed : List ℕ} (p : Process)
    → IsClosed passed p
    → IsClosed passed (run_events es p) × (p.running ≡ [] → (run_events es p).running ≡ [])
unfolding run_events
run_events-IsClosed [] p h = (h, λ i. i)
run_events-IsClosed (e ∷ es) p h =
    let (closed, idle) = run_event-IsClosed e p h in
    let (later, silent) = run_events-IsClosed es (run_event e p) closed in
    (later, λ i. silent (idle i))

run_events-idle :
    (es : List ProcessEvent) {passed : List ℕ} (p : Process)
    → IsClosed passed p
    → p.tracker.active ≡ 0
    → (run_events es p).running ≡ []
run_events-idle es p h z =
    (run_events-IsClosed es p h).1 (length-nil p.running (sym h.counted.counted ∙ z))
  where
    length-nil : (ms : List ℕ) → length ms ≡ 0 → ms ≡ []
    length-nil [] e = refl
    length-nil (m ∷ ms) e = absurd (omega (arith, e))

-- The wait ends in a closed process without a running request, and the requests in flight have
-- finished then.
wait_active_sound :
    (es : List ProcessEvent) {passed : List ℕ} (p q : Process)
    → IsClosed passed p
    → wait_active es p ≡ some q
    → IsClosed passed q × (q.tracker.active ≡ 0) × ((run_events es p).running ≡ [])
unfolding wait_active run_events
wait_active_sound [] p q h w =
    let z : p.tracker.active ≡ 0 = ground (arith, w) in
    let same : p ≡ q = ground (arith, w) in
    (subst (IsClosed _) same h, subst (λ r. r.tracker.active ≡ 0) same z, run_events-idle [] p h z)
wait_active_sound (e ∷ es) p q h w = elim (Bool-cases (p.tracker.active == 0)) [
  | inl e0 ↦
      let z = (==_iff p.tracker.active 0).0 e0 in
      let same : p ≡ q = ground (arith, e0, w) in
      (
        subst (IsClosed _) same h,
        subst (λ r. r.tracker.active ≡ 0) same z,
        run_events-idle (e ∷ es) p h z,
      )
  | inr e0 ↦
      wait_active_sound es (run_event e p) q (run_event-IsClosed e p h).0 (ground (arith, e0, w))
]

wait_active-ends :
    (es : List ProcessEvent) (p : Process)
    → IsCounted p
    → (run_events es p).running ≡ []
    → (q : Process) × (wait_active es p ≡ some q)
unfolding wait_active run_events
wait_active-ends [] p h i = (p, ground (arith, h.counted, i))
wait_active-ends (e ∷ es) p h i = elim (Bool-cases (p.tracker.active == 0)) [
  | inl z ↦ (p, ground (arith, z))
  | inr z ↦
      let (q, w) = wait_active-ends es (run_event e p) (run_event-IsCounted e p h) i in
      (q, ground (arith, z, w))
]

-- What the end of the wait gives: no request runs, none will, and none has reached its handler since
-- `passed` or will.
pub record IsOver (passed : List ℕ) (q : Process) : Type 0 where
  pub calm : q.panicked ≡ false
  pub silent : (later : List ProcessEvent) → (run_events later q).running ≡ []
  pub unreached : (later : List ProcessEvent) → (run_events later q).passed ≡ passed

-- When Shutdown is called after any history, its wait for the requests in flight ends within the
-- events that follow exactly if these finish every running request. When it has ended, no counter has
-- panicked, and whatever happens later no request runs and none beyond those that had reached their
-- handler before the call reaches it.
pub wait_active-IsOver :
    (history es : List ProcessEvent)
    → (let p = run_events history new_process in
        let s = run_event shutdown p in
        ((run_events es s).running ≡ [])
        ↔ ((q : Process) × (wait_active es s ≡ some q) × IsOver p.passed q))
unfolding new_process new_tracker run_event start_drain
wait_active-IsOver history es = (
  λ i.
      let (q, w) = wait_active-ends es s closed.counted i in
      let (c, z, i') = wait_active_sound es s q closed w in
      (
        q,
        w,
        record {
          calm = c.counted.calm;
          silent = λ later. run_events-idle later q c z;
          unreached = λ later. (run_events-IsClosed later q c).0.kept;
        },
      ),
  λ x. (wait_active_sound es s x.0 closed x.1).2,
)
  where
    p : Process
    p = run_events history new_process

    s : Process
    s = run_event shutdown p

    closed : IsClosed p.passed s
    closed = record {
      counted =
          run_event-IsCounted shutdown p
            (run_events-IsCounted history new_process (record { counted = refl; calm = refl }));
      closed = refl;
      kept = refl;
    }
