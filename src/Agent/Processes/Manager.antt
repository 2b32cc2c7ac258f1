-- ===== src/Agent/Processes/Manager.antt =====
-- The methods of `ProcessManager`. Each takes the operating system as it is during the call and the
-- time; a record that it changes is put back in its place.
use csl.Prelude.{
  not, if◌then◌else◌, ℕ, Text, Text_Eq, false, Option, none, some, List, [], map, Result, ok, err,
  Dict, lookup, insert,
}
use csl.Shared.Models.{running, killed, is_running, JobStatusResponse}
use csl.Agent.Processes.Records.{
  kill_process, restore_entries, count_running, Signal, running_entries, poll_record, to_response,
  poll_all, JobEntry, ProcessRecord, Processes, StateFormat, Os,
}

pub data JobNotFound : Type 0 where
  job_not_found : Text → JobNotFound

module _ (fmt : StateFormat) where
  unfoldable pub save_state : Processes fmt.Doc → Processes fmt.Doc
  save_state s = record s { state_path = some (fmt.dump (running_entries s.jobs)) }

  -- `load_running_state`
  unfoldable pub load_running_state : Option fmt.Doc → Dict Text JobEntry
  load_running_state none = []
  load_running_state (some d) = elim (fmt.parse d) [ none ↦ [] | some entries ↦ entries ]

  -- A new manager, `restore_state` included.
  unfoldable pub restore_state : Os → Option fmt.Doc → Processes fmt.Doc
  restore_state os file = record {
    jobs = restore_entries os (load_running_state file) [];
    state_path = file;
  }

  -- The part of `start` behind its checks: the process is there, with its number.
  unfoldable pub start_process :
      Text → Text → Text → ℕ → ℕ → Processes fmt.Doc → JobStatusResponse × Processes fmt.Doc
  start_process name job_uuid log_path pid now s =
      let r : ProcessRecord = record {
        job_uuid = job_uuid;
        script_name = name;
        process = record { pid = pid; reattached = false; returncode = none };
        log_path = log_path;
        started_at = now;
        status = running;
        ended_at = none;
        exit_code = none;
      } in
      (to_response r, save_state (record s { jobs = insert job_uuid r s.jobs }))

  -- The record of a job after `kill`, with what is sent.
  unfoldable pub kill_record : Os → ℕ → ProcessRecord → List Signal × ProcessRecord
  kill_record os now r =
      let polled = poll_record os now r in
      if not (is_running polled.status)
      then ([], polled)
      else let (sent, p) = kill_process os polled.process in
        (
          sent,
          record polled {
            process = p;
            status = killed;
            ended_at = some now;
            exit_code = p.returncode;
          },
        )

  unfoldable pub kill :
      Os
      → ℕ
      → Text
      → Processes fmt.Doc
      → Result JobNotFound (JobStatusResponse × List Signal) × Processes fmt.Doc
  unfolding kill_record
  kill os now uuid s = elim (lookup uuid s.jobs) [
    | none ↦ (err (job_not_found uuid), s)
    | some r ↦
        let (sent, r') = kill_record os now r in
        let s' = record s { jobs = insert uuid r' s.jobs } in
        (
          ok (to_response r', sent),
          if not (is_running (poll_record os now r).status) then s' else save_state s',
        )
  ]

  unfoldable pub get_status :
      Os → ℕ → Text → Processes fmt.Doc → Result JobNotFound JobStatusResponse × Processes fmt.Doc
  get_status os now uuid s = elim (lookup uuid s.jobs) [
    | none ↦ (err (job_not_found uuid), s)
    | some r ↦
        let r' = poll_record os now r in
        (ok (to_response r'), record s { jobs = insert uuid r' s.jobs })
  ]

  unfoldable pub list_jobs : Os → ℕ → Processes fmt.Doc → List JobStatusResponse × Processes fmt.Doc
  unfolding poll_all
  list_jobs os now s =
      let jobs = poll_all os now s.jobs in
      (map (λ (uuid, r). to_response r) jobs, record s { jobs = jobs })

  unfoldable pub running_count : Os → ℕ → Processes fmt.Doc → ℕ × Processes fmt.Doc
  unfolding poll_all
  running_count os now s =
      let jobs = poll_all os now s.jobs in (count_running jobs, record s { jobs = jobs })

  unfoldable pub get_log_path : Text → Processes fmt.Doc → Result JobNotFound Text
  get_log_path uuid s = elim (lookup uuid s.jobs) [
    | none ↦ err (job_not_found uuid)
    | some r ↦ ok r.log_path
  ]
