-- ===== src/Agent/Api/Executed.antt =====
-- What it means that the agent has executed a job, and when it has.
use csl.Prelude.{
  ℤ, negsuc, ◌++◌, [], codes, refl, ◌⊎◌, false, insert, lookup-insert, text_eq_iff, Result, none,
  inr, inl, true, ok, some, Dict, List, Text_Eq, lookup, arith, Text, ◌≡◌,
}
use csl.Agent.Approvals.Data.{Host, Platform}
use csl.Shared.ScriptMeta.{Numbers}
use csl.Agent.Runner.{
  ScriptResult, RunError, build_env, finished, expired, prepare, Outcome, run_script, Machine,
}
use csl.Agent.Processes.Records.{StateFormat, ProcessRecord}
use csl.Agent.Approvals.Manager.{get_state}
use csl.Agent.Api.Jobs.{submit_once, submit_persistent}
use csl.Agent.Params.{Params}
use csl.Shared.Models.{running, JobStatusResponse, JobRequest}
use csl.Agent.Api.Wire.{Agent, Moment, log_name}
use csl.Agent.Processes.Manager.{start_process, save_state}
use csl.Agent.Processes.Start.{start-prepared, is_ok, start}
use csl.Agent.Runner.Guards.{IsGuarded}

-- The exit code of a command, -1 after the time limit, and what its log then holds.
abbrev pub code_of : Outcome → ℤ
code_of (finished code out errs) = code
code_of (expired out errs) = negsuc 0

abbrev pub output_of : Outcome → Text
output_of (finished code out errs) = out ++ (errs ++ [])
output_of (expired out errs) = out ++ (errs ++ codes "\n[timed out]\n")

Outcome-cases :
    (o : Outcome)
    → ((code : ℤ) × (out : Text) × (errs : Text) × (o ≡ finished code out errs))
      ⊎ ((out : Text) × (errs : Text) × (o ≡ expired out errs))
Outcome-cases (finished code out errs) = inl (code, out, errs, refl)
Outcome-cases (expired out errs) = inr (out, errs, refl)

lookup-insert-same {ℓ} :
    {V : Type ℓ} (k : Text) (v : V) (d : Dict Text V) → lookup k (insert k v d) ≡ some v
lookup-insert-same k v d = ground (arith, lookup-insert k k v d, text_eq_iff k k)

module _ (io : Platform) {nums : Numbers} (m : Machine nums) (fmt : StateFormat) where
  -- The record of a persistent job that has just been started with a command.
  abbrev pub running_record : Moment → JobRequest (Params nums.Number) → List Text → ProcessRecord
  running_record w body command = record {
    job_uuid = body.job_uuid;
    script_name = body.script_name;
    process = record {
      pid = w.spawn command (build_env m body.params);
      reattached = false;
      returncode = none;
    };
    log_path = log_name body.job_uuid;
    started_at = w.now;
    status = running;
    ended_at = none;
    exit_code = none;
  }

  -- A job has been executed: its process is that of the command and is kept as running, or the
  -- command has run to its end, with the exit code of the answer and the output in the log.
  abbrev pub Executed :
      Moment
      → JobRequest (Params nums.Number)
      → List Text
      → JobStatusResponse
      → Agent io.Doc fmt.Doc
      → Type 0
  Executed w body command r after =
      let env = build_env m body.params in
      ((body.persistent ≡ true)
        × (lookup body.job_uuid after.processes.jobs ≡ some (running_record w body command)))
      ⊎ ((body.persistent ≡ false)
          × (r.exit_code ≡ some (code_of (w.execute command env)))
          × (lookup (log_name body.job_uuid) after.logs ≡ some (output_of (w.execute command env))))

  -- A file and a command for it that belong to an approved script, with parameters that pass, and
  -- what has become of them.
  abbrev pub RunsGuarded :
      Moment
      → JobRequest (Params nums.Number)
      → Host io.Doc
      → JobStatusResponse
      → Agent io.Doc fmt.Doc
      → Type 0
  RunsGuarded w body h r after =
      let (d, h') = get_state io body.script_name h in
      (script_file : Text) × (command : List Text) × IsGuarded m body.script_name body.params d
        h'.disk.scripts_dir script_file command
      × Executed w body command r after

  -- The same, of a file whose MD5 is the one given.
  abbrev pub RunsContent :
      Moment
      → JobRequest (Params nums.Number)
      → Host io.Doc
      → Text
      → JobStatusResponse
      → Agent io.Doc fmt.Doc
      → Type 0
  RunsContent w body h md5 r after =
      let (d, h') = get_state io body.script_name h in
      (script_file : Text) × (command : List Text) × (g : IsGuarded m body.script_name body.params d
        h'.disk.scripts_dir script_file command)
      × (m.md5 g.content ≡ md5)
      × Executed w body command r after

  -- What the checks hand over for a job.
  abbrev pub prepared_job :
      JobRequest (Params nums.Number) → Host io.Doc → Result RunError (Text × List Text)
  prepared_job body h =
      let (d, h') = get_state io body.script_name h in
      prepare m body.script_name body.params d h'.disk.scripts_dir

  run_script-prepared :
      (execute : List Text → Dict Text Text → Outcome) (name : Text) (params : Params nums.Number)
      (h : Host io.Doc) {x : ScriptResult}
      → (run_script io m execute name params h).0 ≡ ok x
      → is_ok
          (prepare m name params (get_state io name h).0 (get_state io name h).1.disk.scripts_dir)
        ≡ true
  unfolding run_script
  run_script-prepared execute name params h e = ground arith

  pub submit_persistent-prepared :
      (w : Moment) (body : JobRequest (Params nums.Number)) (a : Agent io.Doc fmt.Doc)
      {r : JobStatusResponse}
      → (submit_persistent io m fmt w body a).0 ≡ ok r
      → is_ok (prepared_job body a.host) ≡ true
  unfolding submit_persistent
  submit_persistent-prepared w body a e = grind (arith, start-prepared)

  pub submit_once-prepared :
      (w : Moment) (body : JobRequest (Params nums.Number)) (a : Agent io.Doc fmt.Doc)
      {r : JobStatusResponse}
      → (submit_once io m fmt w body a).0 ≡ ok r
      → is_ok (prepared_job body a.host) ≡ true
  unfolding submit_once
  submit_once-prepared w body a e = grind (arith, run_script-prepared)

  pub submit_persistent-Executed :
      (w : Moment) (body : JobRequest (Params nums.Number)) (a : Agent io.Doc fmt.Doc) {f : Text}
      {c : List Text} (r : JobStatusResponse)
      → body.persistent ≡ true
      → prepared_job body a.host ≡ ok (f, c)
      → Executed w body c r (submit_persistent io m fmt w body a).1
  unfolding submit_persistent start start_process save_state
  submit_persistent-Executed w body a {f} {c} r b p = inl (
    b,
    ground (arith, lookup-insert-same body.job_uuid (running_record w body c) a.processes.jobs),
  )

  pub submit_once-Executed :
      (w : Moment) (body : JobRequest (Params nums.Number)) (a : Agent io.Doc fmt.Doc) {f : Text}
      {c : List Text} {r : JobStatusResponse}
      → body.persistent ≡ false
      → prepared_job body a.host ≡ ok (f, c)
      → (submit_once io m fmt w body a).0 ≡ ok r
      → Executed w body c r (submit_once io m fmt w body a).1
  unfolding submit_once run_script
  submit_once-Executed w body a {f} {c} b p e =
      elim (Outcome-cases (w.execute c (build_env m body.params))) [
        | inl (code, out, errs, o) ↦ inr (
          b,
          ground arith,
          rw (submit_once, run_script, p, o) (lookup-insert-same (log_name body.job_uuid) _ a.logs),
        )
        | inr (out, errs, o) ↦ inr (
          b,
          ground arith,
          rw (submit_once, run_script, p, o) (lookup-insert-same (log_name body.job_uuid) _ a.logs),
        )
      ]
