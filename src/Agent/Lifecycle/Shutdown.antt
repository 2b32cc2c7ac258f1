-- ===== src/Agent/Lifecycle/Shutdown.antt =====
-- When an agent ends: only when idle, and in the end always.
use csl.Prelude.{
  zero, inr, inl, Bool-cases, ap, arith, ◌++◌, ◌*◌, ◌<◌, ◌+◌, ◌≡◌, ◌≤◌, suc, List, ℕ, [], ◌∷◌,
}
use csl.Agent.Lifecycle.{
  idle_seconds, ended, IdleTracker, check_at, record_activity, request_at, idle_seconds,
  shutdown_due, Event, live_on,
}

-- The time of the last request among the events, or the one from which they start.
abbrev pub last_request : ℕ → List Event → ℕ
last_request start [] = start
last_request start ((request_at now) ∷ events) = last_request now events
last_request start ((check_at now running) ∷ events) = last_request start events

-- An agent that ends does so at a check that finds no job running, more than the timeout after the
-- last request before it; what comes afterwards plays no part.
pub live_on-ended :
    (t : IdleTracker) (events : List Event) {now : ℕ}
    → live_on t events ≡ ended now
    → (before : List Event) × (after : List Event) × (events ≡ before ++ (check_at now 0 ∷ after))
      × (last_request t.last_activity before + t.timeout < now)
unfolding live_on shutdown_due idle_seconds record_activity
live_on-ended t [] e = absurd (ground arith)
live_on-ended t ((request_at now) ∷ events) e =
    let (before, after, p, q) = live_on-ended (record_activity now t) events e in
    (request_at now ∷ before, after, ap (λ l. request_at now ∷ l) p, q)
live_on-ended t ((check_at at running) ∷ events) {now} e =
    elim (Bool-cases (shutdown_due at running t)) [
      | inl d ↦ ([], events, ground arith, ground arith)
      | inr d ↦
          let (before, after, p, q) = live_on-ended t events {now = now} (ground arith) in
          (check_at at running ∷ before, after, ap (λ l. check_at at running ∷ l) p, q)
    ]

-- The loop's checks from a time on, an interval apart, with no request and no running job.
unfoldable pub quiet : ℕ → ℕ → ℕ → List Event
quiet zero start interval = []
quiet (suc n) start interval = check_at start 0 ∷ quiet n (start + interval) interval

-- Without requests and running jobs, checks that go on past the timeout end the agent, at a check no
-- later than one interval behind it.
pub live_on-quiet :
    (n : ℕ) (t : IdleTracker) (start interval : ℕ)
    → start ≤ t.last_activity + t.timeout + interval
    → t.last_activity + t.timeout + interval < start + n * interval
    → (now : ℕ) × (live_on t (quiet n start interval) ≡ ended now)
      × (now ≤ t.last_activity + t.timeout + interval)
unfolding live_on quiet shutdown_due idle_seconds
live_on-quiet zero t start interval h k = absurd (omega arith)
live_on-quiet (suc n) t start interval h k = elim (Bool-cases (shutdown_due start 0 t)) [
  | inl d ↦ (start, ground arith, h)
  | inr d ↦
      let (now, p, q) =
        live_on-quiet n t (start + interval) interval (ground arith) (grind arith) in
      (now, ground arith, q)
]
