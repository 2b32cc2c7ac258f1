-- ===== src/Agent/Api/App.antt =====
-- The application: the endpoints, and the middlewares in front of them.
use csl.Agent.Lifecycle.{idle_seconds}
use csl.Prelude.{
  Text_Eq, drop, ◌&&◌, member, take, ltb, not, all, text_eq, if◌then◌else◌, Bool, ℤ, Option, Result,
  Text, codes, [], ◌∷◌, none, some, ok, err,
}
use csl.Shared.Models.{
  ApprovalState, JobStatusResponse, ScriptDescriptor, JobRequest, AgentHealth, StageScriptRequest,
}
use csl.Agent.Approvals.Data.{Platform}
use csl.Agent.Api.Wire.{log_name, http_error, is_path_name, Moment, Agent, HttpError}
use csl.Shared.ScriptMeta.{Numbers}
use csl.Agent.Runner.{Machine}
use csl.Agent.Processes.Records.{StateFormat}
use csl.Agent.Params.{Params}
use csl.Agent.Processes.Manager.{kill, get_status, running_count, get_log_path}
use csl.Agent.Lifecycle.{record_activity}
use csl.Agent.Api.Jobs.{submit_job}
use csl.Agent.Approvals.Manager.{stage, get_state}

pub data AgentRequest (Params : Type 0) : Type 0 where
  healthz : AgentRequest Params
  script_state : Text → AgentRequest Params
  stage_script : Text → StageScriptRequest → AgentRequest Params
  submit : JobRequest Params → AgentRequest Params
  job_status : Text → AgentRequest Params
  kill_job : Text → AgentRequest Params
  stream_logs : Text → Option ℤ → AgentRequest Params

-- A stream is the log file that is followed and the number of lines to replay.
pub data Reply : Type 0 where
  health : AgentHealth → Reply
  script : ScriptDescriptor → Reply
  staged : Text → ApprovalState → Reply
  job : JobStatusResponse → Reply
  stream : Text → ℤ → Reply

abbrev reply_job : Result HttpError JobStatusResponse → Result HttpError Reply
reply_job (ok r) = ok (job r)
reply_job (err e) = err e

-- A number is given: that one, else the configured one.
abbrev given_or : Option ℤ → ℤ → ℤ
given_or none d = d
given_or (some n) d = n

-- "Bearer "
abbrev pub bearer : Text
bearer = codes "Bearer "

-- header[7:] if header.startswith("Bearer ") else ""
unfoldable pub provided_token : Text → Text
provided_token header = if text_eq (take 7 header) bearer then drop 7 header else []

abbrev pub is_ascii : Text → Bool
is_ascii = all (λ c. ltb c 128)

module _ (io : Platform) {nums : Numbers} (m : Machine nums) (fmt : StateFormat) where
  -- The path of the log, of a known job or of one that ran to its end.
  unfoldable pub log_of : Text → Agent io.Doc fmt.Doc → Result HttpError Text
  log_of job_uuid a = elim (get_log_path fmt job_uuid a.processes) [
    | ok path ↦ if not (member path a.logs) then err (http_error 404) else ok path
    | err e ↦
        if not (member (log_name job_uuid) a.logs)
        then err (http_error 404)
        else ok (log_name job_uuid)
  ]

  abbrev Answer : Type 0
  Answer = Result HttpError Reply × Agent io.Doc fmt.Doc

  unfoldable pub get_script_state : Text → Agent io.Doc fmt.Doc → Answer
  get_script_state name a =
      if not (is_path_name name)
      then (err (http_error 422), a)
      else (let (d, h) = get_state io name a.host in (ok (script d), record a { host = h }))

  unfoldable pub stage_endpoint : Moment → Text → StageScriptRequest → Agent io.Doc fmt.Doc → Answer
  stage_endpoint w name body a =
      if not (is_path_name name)
      then (err (http_error 422), a)
      else (let (r, h) = stage io name body.content body.md5 body.meta_yaml w.now a.host in
          (
            elim r [ err e ↦ err (http_error 409) | ok s ↦ ok (staged name s) ],
            record a { host = h },
          ))

  unfoldable pub endpoint :
      Moment → AgentRequest (Params nums.Number) → Agent io.Doc fmt.Doc → Answer
  endpoint w healthz a =
      let (n, s) = running_count fmt w.os w.now a.processes in
      (
        ok (
            health (record {
              running_persistent_jobs = n;
              idle_seconds = idle_seconds w.now a.tracker;
            })),
        record a { processes = s },
      )
  endpoint w (script_state name) a = get_script_state name a
  endpoint w (stage_script name body) a = stage_endpoint w name body a
  endpoint w (submit body) a = let (r, a') = submit_job io m fmt w body a in (reply_job r, a')
  endpoint w (job_status job_uuid) a =
      let (r, s) = get_status fmt w.os w.now job_uuid a.processes in
      (elim r [ err e ↦ err (http_error 404) | ok x ↦ ok (job x) ], record a { processes = s })
  endpoint w (kill_job job_uuid) a =
      let (r, s) = kill fmt w.os w.now job_uuid a.processes in
      (
        elim r [ err e ↦ err (http_error 404) | ok (x, sent) ↦ ok (job x) ],
        record a { processes = s },
      )
  endpoint w (stream_logs job_uuid tail) a = (
    elim (log_of job_uuid a) [
      | err e ↦ err e
      | ok path ↦ ok (stream path (given_or tail a.log_tail_lines))
    ],
    a,
  )

  -- `_ActivityMiddleware`, in front of the endpoint
  unfoldable pub activity :
      Moment → AgentRequest (Params nums.Number) → Agent io.Doc fmt.Doc → Answer
  activity w q a = endpoint w q (record a { tracker = record_activity w.now a.tracker })

  -- `_AuthMiddleware`, outermost. A request without the header has an empty one, and an empty token is
  -- none. `compare_digest` raises on texts that are not ASCII.
  unfoldable pub dispatch :
      Moment → Text → AgentRequest (Params nums.Number) → Agent io.Doc fmt.Doc → Answer
  dispatch w header q a = elim a.api_token [
    | none ↦ activity w q a
    | some [] ↦ activity w q a
    | some (c ∷ token) ↦
        if not (is_ascii (provided_token header) && is_ascii (c ∷ token))
        then (err (http_error 500), a)
        else if not (text_eq (provided_token header) (c ∷ token))
        then (err (http_error 401), a)
        else activity w q a
  ]
