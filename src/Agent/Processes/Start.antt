-- ===== src/Agent/Processes/Start.antt =====
-- `ProcessManager.start`, with the checks that it makes first, and what a started job can rely on.
use csl.Prelude.{
  text_eq_iff, lookup-insert, unique-insert, insert, ◌∙◌, ap, false, arith, Bool, Text_Eq, inr, inl,
  Result-cases, err, lookup, ok, true, unique, Result, Dict, ℕ, List, Text, none, some, ◌≡◌,
}
use csl.Shared.Models.{JobStatus, JobStatusResponse}
use csl.Agent.Approvals.Data.{Host, Platform}
use csl.Shared.ScriptMeta.{Numbers}
use csl.Agent.Processes.Records.{ProcessRecord, Processes, Os, StateFormat}
use csl.Agent.Runner.{build_env, prepare, RunError, Machine}
use csl.Agent.Params.{Params}
use csl.Agent.Approvals.Manager.{get_state}
use csl.Agent.Runner.Guards.{prepare-IsGuarded, IsGuarded}
use csl.Agent.Processes.Manager.{restore_state, start_process}
use csl.Agent.Processes.Restart.{restore_state-save_state, restarted, after_restart}

-- What starting a process comes to: the answer, and the command and environment of the process.
pub record Started : Type 0 where
  pub response : JobStatusResponse
  pub script_file : Text
  pub command : List Text
  pub env : Dict Text Text

module _ (io : Platform) {nums : Numbers} (m : Machine nums) (fmt : StateFormat) where
  -- The log file is that of the job, and the operating system gives the process of a command and
  -- its environment a number: `spawn` is its `Popen`.
  unfoldable pub start :
      Text
      → Params nums.Number
      → Text
      → Text
      → (List Text → Dict Text Text → ℕ)
      → ℕ
      → Host io.Doc
      → Processes fmt.Doc
      → Result RunError Started × Host io.Doc × Processes fmt.Doc
  start name params job_uuid log_path spawn now h s =
      let env = build_env m params in
      let (descriptor, h') = get_state io name h in
      elim (prepare m name params descriptor h'.disk.scripts_dir) [
        | err e ↦ (err e, h', s)
        | ok (script_file, command) ↦
            let (r, s') = start_process fmt name job_uuid log_path (spawn command env) now s in
            (
              ok (record { response = r; script_file = script_file; command = command; env = env }),
              h',
              s',
            )
      ]

abbrev pub is_ok : {E A : Type 0} → Result E A → Bool
is_ok (ok a) = true
is_ok (err e) = false

start_process-survives :
    (fmt : StateFormat) (os : Os) (name job_uuid log_path : Text) (pid now : ℕ)
    (s : Processes fmt.Doc)
    → unique s.jobs ≡ true
    → lookup job_uuid
        (restore_state fmt os
          (start_process fmt name job_uuid log_path pid now s).1.state_path).jobs
      ≡ restarted os job_uuid name pid log_path now
unfolding start_process
start_process-survives fmt os name job_uuid log_path pid now s u =
    let r : ProcessRecord = record {
      job_uuid = job_uuid;
      script_name = name;
      process = record { pid = pid; reattached = false; returncode = none };
      log_path = log_path;
      started_at = now;
      status = JobStatus.running;
      ended_at = none;
      exit_code = none;
    } in
    restore_state-save_state fmt os job_uuid (record s { jobs = insert job_uuid r s.jobs })
      (unique-insert job_uuid r s.jobs u)
    ∙ ap (after_restart os job_uuid) {y = some r}
        (ground (arith, lookup-insert job_uuid job_uuid r s.jobs, text_eq_iff job_uuid job_uuid))

module _ (io : Platform) {nums : Numbers} (m : Machine nums) (fmt : StateFormat) (name : Text)
    (params : Params nums.Number) (job_uuid log_path : Text)
    (spawn : List Text → Dict Text Text → ℕ) (now : ℕ) (h : Host io.Doc)
    (s : Processes fmt.Doc) where
  start-parts :
      {f : Text} {c : List Text} {x : Started}
      → prepare m name params (get_state io name h).0 (get_state io name h).1.disk.scripts_dir
        ≡ ok (f, c)
      → (start io m fmt name params job_uuid log_path spawn now h s).0 ≡ ok x
      → (x.script_file ≡ f) × (x.command ≡ c)
  unfolding start
  start-parts p e = ground arith

  start-processes :
      {f : Text} {c : List Text}
      → prepare m name params (get_state io name h).0 (get_state io name h).1.disk.scripts_dir
        ≡ ok (f, c)
      → (start io m fmt name params job_uuid log_path spawn now h s).2
        ≡ (start_process fmt name job_uuid log_path (spawn c (build_env m params)) now s).1
  unfolding start
  start-processes p = ground arith

  pub start-prepared :
      {x : Started}
      → (start io m fmt name params job_uuid log_path spawn now h s).0 ≡ ok x
      → is_ok
          (prepare m name params (get_state io name h).0 (get_state io name h).1.disk.scripts_dir)
        ≡ true
  unfolding start
  start-prepared e = ground arith

-- A job that `start` has started is one whose script was approved, with parameters that pass and a
-- file of the scripts directory that has the approved MD5, if the record of the script has one; its
-- process is that of the command for this file, with the parameters in its environment; and it
-- outlives a restart of the agent right afterwards exactly if its process does. The jobs are those of a dictionary: no two with the same number.
pub start-IsGuarded :
    (io : Platform) {nums : Numbers} (m : Machine nums) (fmt : StateFormat) (os : Os) (name : Text)
    (params : Params nums.Number) (job_uuid log_path : Text)
    (spawn : List Text → Dict Text Text → ℕ) (now : ℕ) (h : Host io.Doc) (s : Processes fmt.Doc)
    {x : Started}
    → unique s.jobs ≡ true
    → (start io m fmt name params job_uuid log_path spawn now h s).0 ≡ ok x
    → IsGuarded m name params
        (get_state io name h).0
        (get_state io name h).1.disk.scripts_dir
        x.script_file
        x.command
      × (lookup job_uuid
            (restore_state fmt os
              (start io m fmt name params job_uuid log_path spawn now h s).2.state_path).jobs
          ≡ restarted os job_uuid name (spawn x.command (build_env m params)) log_path now)
start-IsGuarded io m fmt os name params job_uuid log_path spawn now h s u e =
    let (descriptor, h') = get_state io name h in
    elim (Result-cases (prepare m name params descriptor h'.disk.scripts_dir)) [
      | inl ((f, c), p) ↦
          let (same_file, same_command) =
            start-parts io m fmt name params job_uuid log_path spawn now h s p e in
          (
            rw (same_file, same_command)
                (prepare-IsGuarded m name params descriptor h'.disk.scripts_dir p),
            rw same_command (
                ap (λ q. lookup job_uuid (restore_state fmt os q.state_path).jobs)
                  (start-processes io m fmt name params job_uuid log_path spawn now h s p)
                ∙ start_process-survives fmt os name job_uuid log_path
                    (spawn c (build_env m params)) now s u),
          )
      | inr (e', p) ↦
          absurd
            (ground (arith, start-prepared io m fmt name params job_uuid log_path spawn now h s e))
    ]
