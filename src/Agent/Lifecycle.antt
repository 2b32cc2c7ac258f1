-- ===== src/Agent/Lifecycle.antt =====
-- control_station_lite/agent/lifecycle.py: the idle clock, and the loop that ends an idle agent. Times
-- are ticks of a clock that does not go back.
pub mod Shutdown
use csl.Prelude.{◌∷◌, [], ltb, if◌then◌else◌, ◌&&◌, List, nat_eq, ◌-◌, ℕ, Bool}

pub record IdleTracker : Type 0 where
  pub timeout : ℕ
  pub last_activity : ℕ

unfoldable pub record_activity : ℕ → IdleTracker → IdleTracker
record_activity now t = record t { last_activity = now }

unfoldable pub idle_seconds : ℕ → IdleTracker → ℕ
idle_seconds now t = now - t.last_activity

unfoldable pub shutdown_due : ℕ → ℕ → IdleTracker → Bool
unfolding idle_seconds
shutdown_due now running_persistent t =
    nat_eq running_persistent 0 && ltb t.timeout (idle_seconds now t)

-- What an agent lives through: a request comes in, or the loop of `run_loop` wakes up and finds so
-- many persistent jobs running.
pub data Event : Type 0 where
  request_at : ℕ → Event
  check_at : ℕ → ℕ → Event

-- The tracker while the loop runs, or the time at which `_trigger_shutdown` ended it.
pub data Life : Type 0 where
  alive : IdleTracker → Life
  ended : ℕ → Life

unfoldable pub live_on : IdleTracker → List Event → Life
live_on t [] = alive t
live_on t ((request_at now) ∷ events) = live_on (record_activity now t) events
live_on t ((check_at now running) ∷ events) =
    let rest = live_on t events in if shutdown_due now running t then ended now else rest
