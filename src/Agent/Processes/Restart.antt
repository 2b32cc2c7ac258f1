-- ===== src/Agent/Processes/Restart.antt =====
-- A restart of the agent: what `save_state` writes is what `restore_state` finds.
use csl.Prelude.{
  ◌∙◌, ℕ, member-of-lookup, lookup-of-member, refl, if◌then◌else◌, Text, Text_Eq, true, false,
  Option, none, some, [], ◌∷◌, Dict, lookup, insert, unique, member, ◌≡◌, arith, text_eq_iff,
  lookup-insert,
}
use csl.Shared.Models.{is_running, running}
use csl.Agent.Processes.Records.{
  Os, ProcessRecord, JobEntry, to_entry, reattach, running_entries, restore_entries, StateFormat,
  Processes,
}
use csl.Agent.Processes.Manager.{save_state, load_running_state, restore_state}

-- The record of a job after a restart, if its process is alive.
abbrev pub restarted : Os → Text → Text → ℕ → Text → ℕ → Option ProcessRecord
restarted os uuid script_name pid log_path started_at =
    if os.pid_alive pid
    then some (record {
      job_uuid = uuid;
      script_name = script_name;
      process = record { pid = pid; reattached = true; returncode = none };
      log_path = log_path;
      started_at = started_at;
      status = running;
      ended_at = none;
      exit_code = none;
    })
    else none

abbrev pub after_restart : Os → Text → Option ProcessRecord → Option ProcessRecord
after_restart os uuid none = none
after_restart os uuid (some r) =
    if is_running r.status
    then restarted os uuid r.script_name r.process.pid r.log_path r.started_at
    else none

-- The entry of a job, if it runs.
abbrev entry_of : Option ProcessRecord → Option JobEntry
entry_of none = none
entry_of (some r) = if is_running r.status then some (to_entry r) else none

-- The record of an entry, if its process is alive.
abbrev survivor : Os → Text → Option JobEntry → Option ProcessRecord
survivor os uuid none = none
survivor os uuid (some e) = if os.pid_alive e.pid then some (reattach uuid e) else none

member-running_entries :
    (uuid : Text) (jobs : Dict Text ProcessRecord)
    → member uuid jobs ≡ false
    → lookup uuid (running_entries jobs) ≡ none
unfolding running_entries lookup member
member-running_entries uuid [] h = refl
member-running_entries uuid ((j, r) ∷ jobs) h = ground (arith, member-running_entries uuid jobs)

pub lookup-running_entries :
    (uuid : Text) (jobs : Dict Text ProcessRecord)
    → unique jobs ≡ true
    → lookup uuid (running_entries jobs) ≡ entry_of (lookup uuid jobs)
unfolding running_entries lookup unique
lookup-running_entries uuid [] u = refl
lookup-running_entries uuid ((j, r) ∷ jobs) u =
    ground (
      arith,
      text_eq_iff j uuid,
      member-running_entries uuid jobs,
      lookup-running_entries uuid jobs,
    )

unique-running_entries :
    (jobs : Dict Text ProcessRecord) → unique jobs ≡ true → unique (running_entries jobs) ≡ true
unfolding running_entries unique
unique-running_entries [] u = refl
unique-running_entries ((j, r) ∷ jobs) u = ground (
  arith,
  member-running_entries j jobs,
  member-of-lookup j (running_entries jobs),
  unique-running_entries jobs,
)

abbrev first_of : Option ProcessRecord → Option ProcessRecord → Option ProcessRecord
first_of (some r) o = some r
first_of none o = o

first_of-none : (o : Option ProcessRecord) → first_of o none ≡ o
first_of-none none = refl
first_of-none (some r) = refl

lookup-restore_entries :
    (os : Os) (uuid : Text) (entries : Dict Text JobEntry) (jobs : Dict Text ProcessRecord)
    → unique entries ≡ true
    → lookup uuid (restore_entries os entries jobs)
      ≡ first_of (survivor os uuid (lookup uuid entries)) (lookup uuid jobs)
unfolding restore_entries lookup unique
lookup-restore_entries os uuid [] jobs u = refl
lookup-restore_entries os uuid ((j, e) ∷ entries) jobs u =
    let next = if os.pid_alive e.pid then insert j (reattach j e) jobs else jobs in
    ground (
      arith,
      text_eq_iff j uuid,
      lookup-of-member j entries,
      lookup-insert j uuid (reattach j e) jobs,
      lookup-restore_entries os uuid entries next,
    )

survivor-entry_of :
    (os : Os) (uuid : Text) (o : Option ProcessRecord)
    → survivor os uuid (entry_of o) ≡ after_restart os uuid o
survivor-entry_of os uuid none = refl
survivor-entry_of os uuid (some r) = ground arith

-- After `save_state` and a restart of the agent, a job is known exactly if it ran and its process is
-- alive, and then with the script, the process number, the log and the start time that it had. The
-- jobs are those of a dictionary: no two with the same number.
pub restore_state-save_state :
    (fmt : StateFormat) (os : Os) (uuid : Text) (s : Processes fmt.Doc)
    → unique s.jobs ≡ true
    → lookup uuid (restore_state fmt os (save_state fmt s).state_path).jobs
      ≡ after_restart os uuid (lookup uuid s.jobs)
unfolding restore_state save_state load_running_state lookup
restore_state-save_state fmt os uuid s u =
    rw
      (
        fmt.parse-dump (running_entries s.jobs),
        lookup-restore_entries os uuid (running_entries s.jobs) []
            (unique-running_entries s.jobs u),
        lookup-running_entries uuid s.jobs u,
      )
      (first_of-none (survivor os uuid (entry_of (lookup uuid s.jobs)))
        ∙ survivor-entry_of os uuid (lookup uuid s.jobs))
