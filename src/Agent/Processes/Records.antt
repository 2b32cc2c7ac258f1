-- ===== src/Agent/Processes/Records.antt =====
-- Records of jobs, the operating system that runs them, and the entries of `running.json`
-- (control_station_lite/agent/process_manager.py and state.py).
use csl.Prelude.{
  ◌+◌, not, int_eq, ◌≡◌, if◌then◌else◌, ℕ, ℤ, pos, negsuc, Text, Text_Eq, Bool, true, Option, none,
  some, List, [], ◌∷◌, map, Dict, insert,
}
use csl.Shared.Models.{JobStatus, running, completed, failed, is_running, JobStatusResponse}

-- The operating system, as one call sees it: which processes are alive, which exit codes it has for
-- them, what `getpgid` finds before and after the grace period, whether a process ends within it,
-- and the exit code with which a process that is waited for ends.
pub record Os : Type 0 where
  pub is_windows : Bool
  pub pid_alive : ℕ → Bool
  pub exit_code : ℕ → Option ℤ
  pub has_group : ℕ → Bool
  pub ends_in_grace : ℕ → Bool
  pub has_group_later : ℕ → Bool
  pub wait_code : ℕ → ℤ

-- A `Popen`, or the `_ReattachedProcess` of a process that survived a restart.
pub record Process : Type 0 where
  pub pid : ℕ
  pub reattached : Bool
  pub returncode : Option ℤ

pub record ProcessRecord : Type 0 where
  pub job_uuid : Text
  pub script_name : Text
  pub process : Process
  pub log_path : Text
  pub started_at : ℕ
  pub status : JobStatus
  pub ended_at : Option ℕ
  pub exit_code : Option ℤ

-- state.py
pub record JobEntry : Type 0 where
  pub script_name : Text
  pub pid : ℕ
  pub log_path : Text
  pub started_at : ℕ

-- How pydantic and `json` write and read `running.json`.
pub record StateFormat : Type 1 where
  pub Doc : Type 0
  pub dump : Dict Text JobEntry → Doc
  pub parse : Doc → Option (Dict Text JobEntry)
  pub parse-dump : (entries : Dict Text JobEntry) → parse (dump entries) ≡ some entries

pub record Processes (Doc : Type 0) : Type 0 where
  pub jobs : Dict Text ProcessRecord
  pub state_path : Option Doc

-- `poll` of both kinds of process
unfoldable pub poll : Os → Process → Process
poll os p = elim p.returncode [
  | some code ↦ p
  | none ↦
      if p.reattached
      then (if not (os.pid_alive p.pid) then record p { returncode = some (negsuc 0) } else p)
      else record p { returncode = os.exit_code p.pid }
]

abbrev finish_status : ℤ → JobStatus
finish_status code = if int_eq code (pos 0) then completed else failed

-- `_poll_record`
unfoldable pub poll_record : Os → ℕ → ProcessRecord → ProcessRecord
unfolding poll
poll_record os now r =
    let p = poll os r.process in
    if not (is_running r.status) then r else elim p.returncode [
      | none ↦ record r { process = p }
      | some code ↦ record r {
        process = p;
        exit_code = some code;
        ended_at = some now;
        status = finish_status code;
      }
    ]

pub data Signal : Type 0 where
  sigterm sigkill taskkill : ℕ → Signal

-- `wait()`: the exit code of the process, or -1 for a reattached one
abbrev waited : Os → Process → Process
waited os p = elim p.returncode [
  | some code ↦ p
  | none ↦ record p { returncode = some (if p.reattached then negsuc 0 else os.wait_code p.pid) }
]

-- `_kill_process`: what is sent, and the process after it
unfoldable pub kill_process : Os → Process → List Signal × Process
kill_process os p =
    if os.is_windows
    then (taskkill p.pid ∷ [], if os.ends_in_grace p.pid then waited os p else p)
    else if not (os.has_group p.pid)
    then ([], waited os p)
    else if os.ends_in_grace p.pid
    then (sigterm p.pid ∷ [], waited os p)
    else if os.has_group_later p.pid
    then (sigterm p.pid ∷ sigkill p.pid ∷ [], waited os p)
    else (sigterm p.pid ∷ [], waited os p)

abbrev pub to_response : ProcessRecord → JobStatusResponse
to_response r = record {
  job_uuid = r.job_uuid;
  script_name = r.script_name;
  status = r.status;
  persistent = true;
  started_at = r.started_at;
  ended_at = r.ended_at;
  exit_code = r.exit_code;
}

abbrev pub to_entry : ProcessRecord → JobEntry
to_entry r = record {
  script_name = r.script_name;
  pid = r.process.pid;
  log_path = r.log_path;
  started_at = r.started_at;
}

-- The dictionary that `save_state` writes: the running jobs.
unfoldable pub running_entries : Dict Text ProcessRecord → Dict Text JobEntry
running_entries [] = []
running_entries ((uuid, r) ∷ jobs) =
    let rest = running_entries jobs in
    if is_running r.status then (uuid, to_entry r) ∷ rest else rest

abbrev pub reattach : Text → JobEntry → ProcessRecord
reattach uuid e = record {
  job_uuid = uuid;
  script_name = e.script_name;
  process = record { pid = e.pid; reattached = true; returncode = none };
  log_path = e.log_path;
  started_at = e.started_at;
  status = running;
  ended_at = none;
  exit_code = none;
}

-- The loop of `restore_state`.
unfoldable pub restore_entries :
    Os → Dict Text JobEntry → Dict Text ProcessRecord → Dict Text ProcessRecord
restore_entries os [] jobs = jobs
restore_entries os ((uuid, e) ∷ entries) jobs =
    restore_entries os entries
      (if os.pid_alive e.pid then insert uuid (reattach uuid e) jobs else jobs)

-- Every record polled, as by `list_jobs` and `running_count`.
unfoldable pub poll_all : Os → ℕ → Dict Text ProcessRecord → Dict Text ProcessRecord
poll_all os now = map (λ (uuid, r). (uuid, poll_record os now r))

unfoldable pub count_running : Dict Text ProcessRecord → ℕ
count_running [] = 0
count_running ((uuid, r) ∷ jobs) = (if is_running r.status then 1 else 0) + count_running jobs
