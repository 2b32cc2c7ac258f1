-- ===== src/Server/Web/Run.antt =====
-- `run_submit` of control_station_lite/server/web/machines.py.
pub mod Guarded
use csl.Prelude.{
  List, Option, ℕ, Text, Dict, Text_Eq, codes, [], ◌∷◌, ◌++◌, none, some, true, false, ok, err,
  ◌>>=◌, ◌>>◌, lookup, Result,
}
use csl.Shared.Models.{approved, JobRequest, JobStatusResponse}
use csl.Shared.ScriptMeta.{Numbers}
use csl.Agent.Approvals.Data.{Platform}
use csl.Agent.Params.{Params}
use csl.Agent.Runner as AgentRunner
use csl.Agent.Processes.Records.{StateFormat}
use csl.Agent.Api.Wire.{Agent}
use csl.Server.Auth.Sessions.{User}
use csl.Server.Core.Crypto.{Aead}
use csl.Server.Core.Errors.{HttpException, uncaught}
use csl.Server.Core.Registry.Table.{ScriptRow}
use csl.Server.Core.ScriptSync.Sync.{TargetState, agent_state}
use csl.Server.Core.ScriptSync.Remote.{sync_script_over}
use csl.Server.Core.AgentClient as AgentClient
use csl.Server.Core.AgentClient.{
  ensure_agent_running, ClientError, approval_error, agent_validation_error, no_start_command,
  agent_not_reachable, http_failure, ssh_failure,
}
use csl.Server.Api.Machines.{Machine, get_machine_or_404, assert_access}
use csl.Server.Api.Jobs.{JobTables, JobRow}
use csl.Server.Api.Jobs.Client.{opened, platform_name, script_of, script_or_404, Surroundings}
use csl.Server.Web.Login.{Response, page, redirect_with_flash}
use csl.Server.Web.Form.{Builtins, Field, FormValue, form_params}

-- The handler of an AgentClientError; the other exceptions pass it.
unfoldable pub run_failed : ClientError → Result HttpException Response
run_failed (approval_error state) = ok (page 502 (codes "run_dialog.html"))
run_failed agent_validation_error = ok (page 502 (codes "run_dialog.html"))
run_failed no_start_command = ok (page 502 (codes "run_dialog.html"))
run_failed agent_not_reachable = ok (page 502 (codes "run_dialog.html"))
run_failed http_failure = err uncaught
run_failed ssh_failure = err uncaught

abbrev run_started : Text → Text → Response
run_started job_uuid name =
    redirect_with_flash (codes "/jobs/" ++ job_uuid) (codes "Job started: " ++ name)
      (codes "success") 303

module _ (io : Platform) {nums : Numbers} (m : AgentRunner.Machine nums) (fmt : StateFormat)
    (aead : Aead) (dumps : Params nums.Number → Text) (py : Builtins nums)
    (parse_params : Text → Option (List (Field nums.Number py.Any)))
    (w : Surroundings (Agent io.Doc fmt.Doc)) where
  -- The answer, the tables that are committed, and the agent.
  abbrev pub Ran : Type 0
  Ran = Result HttpException Response × JobTables × Agent io.Doc fmt.Doc

  abbrev or_nothing : Option (List (Field nums.Number py.Any)) → List (Field nums.Number py.Any)
  or_nothing none = []
  or_nothing (some fields) = fields

  -- `meta_params`: none without metadata, or where it does not parse.
  unfoldable pub meta_params : Option Text → List (Field nums.Number py.Any)
  meta_params none = []
  meta_params (some []) = []
  meta_params (some (c ∷ meta)) = or_nothing (parse_params (c ∷ meta))

  -- The request has no `expected_md5`.
  abbrev pub run_request : Text → Params nums.Number → ScriptRow → JobRequest (Params nums.Number)
  run_request script_name params row = record {
    job_uuid = w.job_uuid;
    script_name = script_name;
    params = params;
    persistent = row.persistent;
    expected_md5 = none;
  }

  abbrev pub run_row : ℕ → Params nums.Number → ScriptRow → User → JobStatusResponse → JobRow
  run_row machine_id params row user r = record {
    job_uuid = w.job_uuid;
    machine_id = machine_id;
    script_id = some row.id;
    user_id = user.id;
    params_json = dumps params;
    status = r.status;
    persistent = row.persistent;
    started_at = r.started_at;
    ended_at = r.ended_at;
    exit_code = r.exit_code;
  }

  unfoldable pub run_synced :
      Text
      → ℕ
      → Text
      → Params nums.Number
      → ScriptRow
      → User
      → JobTables
      → Agent io.Doc fmt.Doc
      → Ran
  run_synced auth machine_id script_name params row user t a =
      let (r, a') =
        AgentClient.submit_job io m fmt w.link auth 7 (run_request script_name params row) a in
      elim r [
        | err e ↦ (run_failed e, t, a')
        | ok agent_resp ↦ (
          ok (run_started w.job_uuid script_name),
          record t { jobs = t.jobs ++ (run_row machine_id params row user agent_resp ∷ []) },
          a',
        )
      ]

  -- What follows the synchronisation, which is committed.
  unfoldable pub run_resolved :
      Text
      → ℕ
      → Text
      → Params nums.Number
      → ScriptRow
      → User
      → TargetState
      → JobTables
      → Agent io.Doc fmt.Doc
      → Ran
  run_resolved auth machine_id script_name params row user (agent_state approved) t a =
      run_synced auth machine_id script_name params row user t a
  run_resolved auth machine_id script_name params row user resolved t a =
      (ok (page 409 (codes "run_dialog.html")), t, a)

  unfoldable pub run_awake :
      Text
      → ℕ
      → Text
      → Params nums.Number
      → ScriptRow
      → User
      → JobTables
      → Agent io.Doc fmt.Doc
      → Ran
  run_awake auth machine_id script_name params row user t a =
      let (resolved, a', rows) =
        sync_script_over io m fmt w.link auth 5 machine_id (script_of script_name row) w.now a
          t.target_states in
      elim resolved [
        | err e ↦ (run_failed e, t, a')
        | ok s ↦
            run_resolved auth machine_id script_name params row user s
              (record t { target_states = rows }) a'
      ]

  unfoldable pub run_over :
      Text
      → ℕ
      → Machine
      → Text
      → Params nums.Number
      → ScriptRow
      → User
      → JobTables
      → Agent io.Doc fmt.Doc
      → Ran
  run_over auth machine_id machine script_name params row user t a =
      let (up, a') = ensure_agent_running io m fmt w.link auth (platform_name machine.platform) a in
      elim up [
        | err e ↦ (run_failed e, t, a')
        | ok u ↦ run_awake auth machine_id script_name params row user t a'
      ]

  -- The machine, the script, the parameters of the form and the authorization.
  unfoldable pub run_admission :
      ℕ
      → Text
      → Dict Text FormValue
      → User
      → JobTables
      → Result HttpException (Machine × ScriptRow × Params nums.Number × Text)
  run_admission machine_id script_name form user t = do
    machine ← get_machine_or_404 machine_id t.machines
    assert_access user machine_id t.user_machines
    row ← script_or_404 (lookup script_name t.scripts)
    params ← form_params py form (meta_params row.meta_yaml) []
    auth ← opened aead w machine
    ok (machine, row, params, auth)

  unfoldable pub run_submit :
      ℕ → Text → Dict Text FormValue → User → JobTables → Agent io.Doc fmt.Doc → Ran
  run_submit machine_id script_name form user t a =
      elim (run_admission machine_id script_name form user t) [
        | err e ↦ (err e, t, a)
        | ok (machine, row, params, auth) ↦
            run_over auth machine_id machine script_name params row user t a
      ]
