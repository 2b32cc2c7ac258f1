-- ===== src/Server/Core/AgentClient.antt =====
-- control_station_lite/server/core/agent_client.py: the client of the API of an agent, with the agent
-- at the other end. A request reaches the agent, which answers it, or it does not reach it.
use csl.Prelude.{
  ℕ_Eq, ℕ, Text, none, some, zero, suc, true, false, ok, err, Bool, not, ◌==◌, if◌then◌else◌,
  Result, Option,
}
use csl.Shared.Models.{
  ApprovalState, ApprovalState_Eq, ScriptDescriptor, JobRequest, JobStatusResponse,
  StageScriptRequest,
}
use csl.Shared.ScriptMeta.{Numbers}
use csl.Shared.SshCommands.{wakeup_cmd}
use csl.Agent.Approvals.Data.{Platform}
use csl.Agent.Params.{Params}
use csl.Agent.Runner.{Machine}
use csl.Agent.Processes.Records.{StateFormat}
use csl.Agent.Api.Wire.{Agent, Moment, HttpError, message, approval_detail, validation_detail}
use csl.Agent.Api.App.{
  AgentRequest, Reply, dispatch, healthz, script_state, stage_script, submit, job_status, kill_job,
  script, staged, job,
}

-- The exceptions of the client, and those of `httpx`, which are none of its own.
pub data ClientError : Type 0 where
  approval_error : ApprovalState → ClientError
  agent_validation_error no_start_command agent_not_reachable : ClientError
  http_failure ssh_failure : ClientError

-- What a client meets: the requests that reach the agent, by their number, and the time at each;
-- whether the SSH connection for the start command opens, and what the service manager of the target
-- makes of the agent when the command is run.
pub record Link (State : Type 0) : Type 0 where
  pub arrives : ℕ → Bool
  pub moment : ℕ → Moment
  pub ssh_opens : Bool
  pub run_command : Text → State → State

-- The exceptions that `submit_job` makes of answers; `raise_for_status` raises the others.
unfoldable pub submit_error : HttpError → ClientError
submit_error e = elim e.detail [
  | approval_detail cause state ↦ if e.status == 409 then approval_error state else http_failure
  | validation_detail ↦ if e.status == 422 then agent_validation_error else http_failure
  | message ↦ http_failure
]

module _ (io : Platform) {nums : Numbers} (m : Machine nums) (fmt : StateFormat)
    (link : Link (Agent io.Doc fmt.Doc)) (authorization : Text) where
  -- The answer to request number `n`; none, if it does not reach the agent.
  unfoldable pub send :
      ℕ
      → AgentRequest (Params nums.Number)
      → Agent io.Doc fmt.Doc
      → Option (Result HttpError Reply) × Agent io.Doc fmt.Doc
  send n q a =
      let (r, a') = dispatch io m fmt (link.moment n) authorization q a in
      if link.arrives n then (some r, a') else (none, a)

  abbrev pub Called : Type 0 → Type 0
  Called A = Result ClientError A × Agent io.Doc fmt.Doc

  -- `_is_healthy`
  abbrev is_answer : Option (Result HttpError Reply) → Bool
  is_answer (some (ok r)) = true
  is_answer _ = false

  unfoldable pub is_healthy : ℕ → Agent io.Doc fmt.Doc → Bool × Agent io.Doc fmt.Doc
  is_healthy n a = let (r, a') = send n healthz a in (is_answer r, a')

  -- The loop over _WAKEUP_BACKOFF, so many delays from the end
  unfoldable pub await_agent : ℕ → ℕ → Agent io.Doc fmt.Doc → Called (Unit {0})
  await_agent zero n a = (err agent_not_reachable, a)
  await_agent (suc delays) n a =
      let (up, a') = is_healthy n a in
      let later = await_agent delays (suc n) a' in if up then (ok tt, a') else later

  -- The probes are the requests 0 to 4.
  unfoldable pub ensure_agent_running : Text → Agent io.Doc fmt.Doc → Called (Unit {0})
  ensure_agent_running platform a =
      let (up, a') = is_healthy 0 a in
      if up then (ok tt, a') else elim (wakeup_cmd platform) [
        | none ↦ (err no_start_command, a')
        | some cmd ↦
            if not link.ssh_opens
            then (err ssh_failure, a')
            else await_agent 4 1 (link.run_command cmd a')
      ]

  -- `model_validate` of an answer, which is of the kind that the endpoint gives
  abbrev as_script : Option (Result HttpError Reply) → Result ClientError ScriptDescriptor
  as_script (some (ok (script d))) = ok d
  as_script _ = err http_failure

  abbrev as_staged : Option (Result HttpError Reply) → Result ClientError ApprovalState
  as_staged (some (ok (staged name s))) = ok s
  as_staged _ = err http_failure

  abbrev pub as_job : Option (Result HttpError Reply) → Result ClientError JobStatusResponse
  as_job (some (ok (job r))) = ok r
  as_job _ = err http_failure

  abbrev pub as_submitted : Option (Result HttpError Reply) → Result ClientError JobStatusResponse
  as_submitted (some (ok (job r))) = ok r
  as_submitted (some (err e)) = err (submit_error e)
  as_submitted _ = err http_failure

  unfoldable pub get_script_state : ℕ → Text → Agent io.Doc fmt.Doc → Called ScriptDescriptor
  get_script_state n name a = let (r, a') = send n (script_state name) a in (as_script r, a')

  unfoldable pub stage : ℕ → Text → StageScriptRequest → Agent io.Doc fmt.Doc → Called ApprovalState
  stage n name body a = let (r, a') = send n (stage_script name body) a in (as_staged r, a')

  unfoldable pub submit_job :
      ℕ → JobRequest (Params nums.Number) → Agent io.Doc fmt.Doc → Called JobStatusResponse
  submit_job n body a = let (r, a') = send n (submit body) a in (as_submitted r, a')

  unfoldable pub get_job_status : ℕ → Text → Agent io.Doc fmt.Doc → Called JobStatusResponse
  get_job_status n job_uuid a = let (r, a') = send n (job_status job_uuid) a in (as_job r, a')

  unfoldable pub kill : ℕ → Text → Agent io.Doc fmt.Doc → Called JobStatusResponse
  kill n job_uuid a = let (r, a') = send n (kill_job job_uuid) a in (as_job r, a')
