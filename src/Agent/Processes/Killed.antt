-- ===== src/Agent/Processes/Killed.antt =====
-- What `kill` leaves of the jobs.
use csl.Prelude.{
  Text_Eq, lookup-insert, inr, text_eq_iff, inl, Option-cases, ◌==◌, if◌then◌else◌, lookup, arith,
  Text, ℕ, Bool, Option, none, some, false, ◌≡◌,
}
use csl.Agent.Processes.Manager.{save_state, kill, kill_record}
use csl.Agent.Processes.Records.{Processes, StateFormat, Os, ProcessRecord}
use csl.Shared.Models.{is_running}

-- The status of a job, as far as it is known, is that of a running one.
abbrev pub still_runs : Option ProcessRecord → Bool
still_runs none = false
still_runs (some r) = is_running r.status

kill_record-ended :
    (fmt : StateFormat) (os : Os) (now : ℕ) (r : ProcessRecord)
    → is_running (kill_record fmt os now r).1.status ≡ false
unfolding kill_record
kill_record-ended fmt os now r = ground arith

-- Whatever the operating system does, no job runs after it was killed, and jobs with other numbers run
-- afterwards exactly if they did before.
pub kill-ends :
    (fmt : StateFormat) (os : Os) (now : ℕ) (uuid : Text) (s : Processes fmt.Doc) (j : Text)
    → still_runs (lookup j (kill fmt os now uuid s).1.jobs)
      ≡ (if uuid == j then false else still_runs (lookup j s.jobs))
unfolding kill save_state
kill-ends fmt os now uuid s j = elim (Option-cases (lookup uuid s.jobs)) [
  | inl e ↦ ground (arith, text_eq_iff uuid j)
  | inr (r, e) ↦ ground (
    arith,
    kill_record-ended fmt os now r,
    lookup-insert uuid j (kill_record fmt os now r).1 s.jobs,
    text_eq_iff uuid j,
  )
]
