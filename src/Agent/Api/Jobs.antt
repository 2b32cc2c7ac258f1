-- ===== src/Agent/Api/Jobs.antt =====
-- `submit_job` of control_station_lite/agent/main.py.
use csl.Prelude.{
  pos, opt_eq, Text_Eq, insert, not, int_eq, Option, if◌then◌else◌, ◌++◌, Result, Text, codes, [],
  none, some, false, ok, err,
}
use csl.Agent.Approvals.Data.{Platform}
use csl.Shared.ScriptMeta.{Numbers}
use csl.Agent.Runner.{run_script, ScriptResult, Machine}
use csl.Agent.Processes.Records.{StateFormat}
use csl.Shared.Models.{failed, completed, JobStatusResponse, JobRequest}
use csl.Agent.Api.Wire.{approval_detail, run_http_error, log_name, Agent, HttpError, Moment}
use csl.Agent.Params.{Params}
use csl.Agent.Approvals.Manager.{get_state}
use csl.Agent.Processes.Start.{start}

module _ (io : Platform) {nums : Numbers} (m : Machine nums) (fmt : StateFormat) where
  abbrev Reply : Type 0
  Reply = Result HttpError JobStatusResponse × Agent io.Doc fmt.Doc

  -- The check of `expected_md5`: the refusal, if there is one.
  unfoldable pub check_expected :
      JobRequest (Params nums.Number)
      → Agent io.Doc fmt.Doc
      → Option HttpError × Agent io.Doc fmt.Doc
  check_expected body a = elim body.expected_md5 [
    | none ↦ (none, a)
    | some e ↦
        let (descriptor, h) = get_state io body.script_name a.host in
        (
          if not (opt_eq descriptor.approved_md5 (some e))
              then some (record {
                status = 409;
                detail = approval_detail (codes "md5_mismatch") descriptor.state;
              })
              else none,
          record a { host = h },
        )
  ]

  -- A persistent job; its log file is made before the process, and empty.
  unfoldable pub submit_persistent :
      Moment → JobRequest (Params nums.Number) → Agent io.Doc fmt.Doc → Reply
  submit_persistent w body a =
      let log_path = log_name body.job_uuid in
      let (r, h, s) =
        start io m fmt body.script_name body.params body.job_uuid log_path w.spawn w.now a.host
          a.processes in
      elim r [
        | err e ↦ (err (run_http_error e), record a { host = h; processes = s })
        | ok started ↦ (
          ok started.response,
          record a { host = h; processes = s; logs = insert log_path [] a.logs },
        )
      ]

  -- What is written to the log of a job that has run to its end.
  abbrev log_text : ScriptResult → Text
  log_text r = r.stdout ++ (r.stderr ++ (if r.timed_out then codes "\n[timed out]\n" else []))

  -- Any other job runs to its end during the request.
  unfoldable pub submit_once :
      Moment → JobRequest (Params nums.Number) → Agent io.Doc fmt.Doc → Reply
  submit_once w body a =
      let (r, h) = run_script io m w.execute body.script_name body.params a.host in
      elim r [
        | err e ↦ (err (run_http_error e), record a { host = h })
        | ok result ↦ (
          ok (record {
            job_uuid = body.job_uuid;
            script_name = body.script_name;
            status = if int_eq result.exit_code (pos 0) then completed else failed;
            persistent = false;
            started_at = w.now;
            ended_at = some w.now;
            exit_code = some result.exit_code;
          }),
          record a { host = h; logs = insert (log_name body.job_uuid) (log_text result) a.logs },
        )
      ]

  unfoldable pub submit_job :
      Moment → JobRequest (Params nums.Number) → Agent io.Doc fmt.Doc → Reply
  submit_job w body a =
      let (refusal, a') = check_expected body a in
      elim refusal [
        | some e ↦ (err e, a')
        | none ↦ if body.persistent then submit_persistent w body a' else submit_once w body a'
      ]
