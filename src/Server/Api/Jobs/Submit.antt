-- ===== src/Server/Api/Jobs/Submit.antt =====
-- `submit_job` of control_station_lite/server/api/jobs.py.
use csl.Prelude.{lookup, ◌>>=◌, ◌>>◌, ℕ, Text, Text_Eq, codes, [], ◌∷◌, ◌++◌, some, ok, err, Result}
use csl.Shared.Models.{approved, JobRequest, JobStatusResponse}
use csl.Shared.ScriptMeta.{Numbers}
use csl.Agent.Approvals.Data.{Platform}
use csl.Agent.Params.{Params}
use csl.Agent.Runner as AgentRunner
use csl.Agent.Processes.Records.{StateFormat}
use csl.Agent.Api.Wire.{Agent}
use csl.Server.Auth.Sessions.{User, AuditRow, text_value, number_value, flag_value, record_audit}
use csl.Server.Core.Crypto.{Aead}
use csl.Server.Core.Errors.{
  HttpException, csl_exception, uncaught, validation_error, agent_unreachable,
}
use csl.Server.Core.Registry.Table.{ScriptRow}
use csl.Server.Core.ScriptSync.Sync.{TargetState, agent_state}
use csl.Server.Core.ScriptSync.Remote.{sync_script_over}
use csl.Server.Core.AgentClient as AgentClient
use csl.Server.Core.AgentClient.{
  ensure_agent_running, ClientError, Link, approval_error, agent_validation_error, no_start_command,
  agent_not_reachable, http_failure, ssh_failure,
}
use csl.Server.Api.Machines.{Machine, get_machine_or_404, assert_access}
use csl.Server.Api.Jobs.{JobTables, JobRow, approval_error_response, state_name}
use csl.Server.Api.Jobs.Client.{
  opened, SubmitJobIn, platform_name, script_of, script_or_404, Surroundings,
}

module _ (io : Platform) {nums : Numbers} (m : AgentRunner.Machine nums) (fmt : StateFormat)
    (aead : Aead) (dumps : Params nums.Number → Text)
    (w : Surroundings (Agent io.Doc fmt.Doc)) where
  -- The answer, the tables that are committed, and the agent.
  abbrev pub Answer : Type 0
  Answer = Result HttpException JobRow × JobTables × Agent io.Doc fmt.Doc

  abbrev audit_refusal : ℕ → Text → TargetState → User → AuditRow
  audit_refusal machine_id name resolved user =
      record_audit w.now (codes "job.submit") (codes "machine") (some (number_value machine_id))
        (codes "rejected") (some user.id)
        ((codes "script", text_value name)
          ∷ (codes "agent_state", text_value (state_name resolved))
          ∷ [])

  abbrev audit_submission : ℕ → Text → ScriptRow → User → AuditRow
  audit_submission machine_id name row user =
      record_audit w.now (codes "job.submit") (codes "job") (some (text_value w.job_uuid))
        (codes "success") (some user.id)
        ((codes "machine_id", number_value machine_id)
          ∷ (codes "script", text_value name)
          ∷ (codes "persistent", flag_value row.persistent)
          ∷ [])

  abbrev pub job_row :
      ℕ → SubmitJobIn (Params nums.Number) → ScriptRow → User → JobStatusResponse → JobRow
  job_row machine_id body row user r = record {
    job_uuid = w.job_uuid;
    machine_id = machine_id;
    script_id = some row.id;
    user_id = user.id;
    params_json = dumps body.params;
    status = r.status;
    persistent = row.persistent;
    started_at = r.started_at;
    ended_at = r.ended_at;
    exit_code = r.exit_code;
  }

  abbrev pub request_of :
      SubmitJobIn (Params nums.Number) → ScriptRow → JobRequest (Params nums.Number)
  request_of body row = record {
    job_uuid = w.job_uuid;
    script_name = body.script_name;
    params = body.params;
    persistent = row.persistent;
    expected_md5 = some row.md5;
  }

  -- The handlers of `submit_job`'s exceptions. After a refusal for approval the state is fetched again.
  unfoldable pub submit_failed :
      Text
      → ℕ
      → SubmitJobIn (Params nums.Number)
      → ScriptRow
      → ClientError
      → JobTables
      → Agent io.Doc fmt.Doc
      → Answer
  submit_failed auth machine_id body row agent_validation_error t a =
      (err (csl_exception 422 validation_error), t, a)
  submit_failed auth machine_id body row (approval_error state) t a =
      let (resolved, a', rows) =
        sync_script_over io m fmt w.link auth 8 machine_id (script_of body.script_name row) w.now a
          t.target_states in
      elim resolved [
        | err e ↦ (err uncaught, t, a')
        | ok s ↦ (err (approval_error_response s), record t { target_states = rows }, a')
      ]
  submit_failed auth machine_id body row no_start_command t a =
      (err (csl_exception 502 agent_unreachable), t, a)
  submit_failed auth machine_id body row agent_not_reachable t a =
      (err (csl_exception 502 agent_unreachable), t, a)
  submit_failed auth machine_id body row http_failure t a = (err uncaught, t, a)
  submit_failed auth machine_id body row ssh_failure t a = (err uncaught, t, a)

  -- The request to the agent, and the row of the job.
  unfoldable pub submit_synced :
      Text
      → ℕ
      → SubmitJobIn (Params nums.Number)
      → ScriptRow
      → User
      → JobTables
      → Agent io.Doc fmt.Doc
      → Answer
  submit_synced auth machine_id body row user t a =
      let (r, a') = AgentClient.submit_job io m fmt w.link auth 7 (request_of body row) a in
      elim r [
        | err e ↦ submit_failed auth machine_id body row e t a'
        | ok agent_resp ↦
            let j = job_row machine_id body row user agent_resp in
            (
              ok j,
              record t {
                jobs = t.jobs ++ (j ∷ []);
                audit_log =
                    t.audit_log ++ (audit_submission machine_id body.script_name row user ∷ []);
              },
              a',
            )
      ]

  -- What follows the synchronisation, which is committed.
  unfoldable pub submit_resolved :
      Text
      → ℕ
      → SubmitJobIn (Params nums.Number)
      → ScriptRow
      → User
      → TargetState
      → JobTables
      → Agent io.Doc fmt.Doc
      → Answer
  submit_resolved auth machine_id body row user (agent_state approved) t a =
      submit_synced auth machine_id body row user t a
  submit_resolved auth machine_id body row user resolved t a = (
    err (approval_error_response resolved),
    record t {
      audit_log = t.audit_log ++ (audit_refusal machine_id body.script_name resolved user ∷ []);
    },
    a,
  )

  -- The synchronisation, requests 5 and 6, and what follows it.
  unfoldable pub submit_awake :
      Text
      → ℕ
      → SubmitJobIn (Params nums.Number)
      → ScriptRow
      → User
      → JobTables
      → Agent io.Doc fmt.Doc
      → Answer
  submit_awake auth machine_id body row user t a =
      let (resolved, a', rows) =
        sync_script_over io m fmt w.link auth 5 machine_id (script_of body.script_name row) w.now a
          t.target_states in
      elim resolved [
        | err e ↦ (err uncaught, t, a')
        | ok s ↦
            submit_resolved auth machine_id body row user s (record t { target_states = rows }) a'
      ]

  -- The client, from its opening on.
  unfoldable pub submit_over :
      Text
      → ℕ
      → Machine
      → SubmitJobIn (Params nums.Number)
      → ScriptRow
      → User
      → JobTables
      → Agent io.Doc fmt.Doc
      → Answer
  submit_over auth machine_id machine body row user t a =
      let (up, a') = ensure_agent_running io m fmt w.link auth (platform_name machine.platform) a in
      elim up [
        | err e ↦ (err uncaught, t, a')
        | ok u ↦ submit_awake auth machine_id body row user t a'
      ]

  -- The machine, the row of the script and the authorization, for a user with access.
  unfoldable pub admission :
      ℕ
      → SubmitJobIn (Params nums.Number)
      → User
      → JobTables
      → Result HttpException (Machine × ScriptRow × Text)
  admission machine_id body user t = do
    machine ← get_machine_or_404 machine_id t.machines
    assert_access user machine_id t.user_machines
    row ← script_or_404 (lookup body.script_name t.scripts)
    auth ← opened aead w machine
    ok (machine, row, auth)

  unfoldable pub submit_job :
      ℕ → SubmitJobIn (Params nums.Number) → User → JobTables → Agent io.Doc fmt.Doc → Answer
  submit_job machine_id body user t a = elim (admission machine_id body user t) [
    | err e ↦ (err e, t, a)
    | ok (machine, row, auth) ↦ submit_over auth machine_id machine body row user t a
  ]
