-- ===== src/Server/Api/Jobs/Running.antt =====
-- `get_job`, `kill_job` and `list_jobs` of control_station_lite/server/api/jobs.py.
use csl.Prelude.{
  ℕ_Eq, ℕ, Text, Text_Eq, ◌==◌, codes, [], ◌∷◌, ◌++◌, List, none, some, true, ok, err, Bool, not,
  ◌&&◌, nat_eq, leb, opt_eq, Result, Option, if◌then◌else◌, lookup, filter, take, ◌>>=◌, ◌>>◌,
}
use csl.Shared.Models.{JobStatus, killed, JobStatusResponse}
use csl.Shared.ScriptMeta.{Numbers}
use csl.Agent.Approvals.Data.{Platform}
use csl.Agent.Runner as AgentRunner
use csl.Agent.Processes.Records.{StateFormat}
use csl.Agent.Api.Wire.{Agent}
use csl.Server.Auth.Sessions.{User, AuditRow, text_value, number_value, record_audit}
use csl.Server.Core.Crypto.{Aead}
use csl.Server.Core.Errors.{HttpException, http_exception, uncaught}
use csl.Server.Core.AgentClient as AgentClient
use csl.Server.Core.Reconciler.Pass.{is_active}
use csl.Server.Api.Machines.{find_machine, get_machine_or_404}
use csl.Server.Api.Jobs.{JobTables, JobRow, get_job_or_404}
use csl.Server.Api.Jobs.Client.{Surroundings, opened}

-- The row with a number, changed.
unfoldable pub change_job : Text → (JobRow → JobRow) → List JobRow → List JobRow
change_job uuid f [] = []
change_job uuid f (j ∷ jobs) = if j.job_uuid == uuid then f j ∷ jobs else j ∷ change_job uuid f jobs

unfoldable pub refreshed : JobStatusResponse → JobRow → JobRow
refreshed r j = record j { status = r.status; ended_at = r.ended_at; exit_code = r.exit_code }

unfoldable pub ended_by_kill : ℕ → JobRow → JobRow
ended_by_kill now j = record j { status = killed; ended_at = some now }

-- The rows in the order of `started_at`, the latest first; those of the same time stay in their order.
unfoldable pub insert_row : JobRow → List JobRow → List JobRow
insert_row j [] = j ∷ []
insert_row j (i ∷ jobs) =
    if leb i.started_at j.started_at then j ∷ i ∷ jobs else i ∷ insert_row j jobs

unfoldable pub order_by_started : List JobRow → List JobRow
order_by_started [] = []
order_by_started (j ∷ jobs) = insert_row j (order_by_started jobs)

abbrev status_place : JobStatus → ℕ
status_place JobStatus.pending = 0
status_place JobStatus.running = 1
status_place JobStatus.completed = 2
status_place JobStatus.failed = 3
status_place killed = 4

abbrev status_eq : JobStatus → JobStatus → Bool
status_eq s t = nat_eq (status_place s) (status_place t)

-- The conditions of the query, where they are given.
abbrev given {ℓ} : {A : Type ℓ} → (A → Bool) → Option A → Bool
given p none = true
given p (some x) = p x

unfoldable pub select_jobs : Option ℕ → Option ℕ → Option JobStatus → ℕ → List JobRow → List JobRow
select_jobs machine_id script_id status limit jobs = take limit (
    order_by_started (
      filter
        (λ j.
          given (λ i. nat_eq j.machine_id i) machine_id
          && given (λ s. status_eq j.status s) status
          && given (λ i. opt_eq j.script_id (some i)) script_id)
        jobs))

-- `limit` is between 1 and 500.
unfoldable pub list_jobs : Option ℕ → Option Text → Option JobStatus → ℕ → JobTables → List JobRow
list_jobs machine_id none status limit t = select_jobs machine_id none status limit t.jobs
list_jobs machine_id (some name) status limit t = elim (lookup name t.scripts) [
  | none ↦ []
  | some row ↦ select_jobs machine_id (some row.id) status limit t.jobs
]

module _ (io : Platform) {nums : Numbers} (m : AgentRunner.Machine nums) (fmt : StateFormat)
    (aead : Aead) (w : Surroundings (Agent io.Doc fmt.Doc)) where
  -- The answer of the agent of a job, or any exception on the way to it.
  unfoldable pub ask_agent :
      JobRow → JobTables → Agent io.Doc fmt.Doc → Option JobStatusResponse × Agent io.Doc fmt.Doc
  ask_agent j t a = elim (find_machine j.machine_id t.machines) [
    | none ↦ (none, a)
    | some machine ↦ elim (opened aead w machine) [
      | err e ↦ (none, a)
      | ok auth ↦
          let (r, a') = AgentClient.get_job_status io m fmt w.link auth 0 j.job_uuid a in
          (elim r [ err e ↦ none | ok x ↦ some x ], a')
    ]
  ]

  unfoldable pub get_job :
      Text
      → User
      → JobTables
      → Agent io.Doc fmt.Doc
      → Result HttpException JobRow × JobTables × Agent io.Doc fmt.Doc
  get_job uuid user t a = elim (get_job_or_404 uuid t.jobs) [
    | err e ↦ (err e, t, a)
    | ok j ↦
        let (answer, a') = ask_agent j t a in
        if not (is_active j.status) then (ok j, t, a) else elim answer [
          | none ↦ (ok j, t, a')
          | some r ↦
              (ok (refreshed r j), record t { jobs = change_job uuid (refreshed r) t.jobs }, a')
        ]
  ]

  abbrev audit_kill : Text → ℕ → User → AuditRow
  audit_kill uuid machine_id user =
      record_audit w.now (codes "job.kill") (codes "job") (some (text_value uuid)) (codes "success")
        (some user.id) ((codes "machine_id", number_value machine_id) ∷ [])

  -- The authorization for the agent of a job that can be killed.
  unfoldable pub killable : Text → JobTables → Result HttpException (JobRow × Text)
  killable uuid t = do
    j ← get_job_or_404 uuid t.jobs
    if not j.persistent then err (http_exception 400) else ok tt
    machine ← get_machine_or_404 j.machine_id t.machines
    auth ← opened aead w machine
    ok (j, auth)

  unfoldable pub kill_job :
      Text
      → User
      → JobTables
      → Agent io.Doc fmt.Doc
      → Result HttpException (Unit {0}) × JobTables × Agent io.Doc fmt.Doc
  kill_job uuid user t a = elim (killable uuid t) [
    | err e ↦ (err e, t, a)
    | ok (j, auth) ↦
        let (r, a') = AgentClient.kill io m fmt w.link auth 0 uuid a in
        elim r [
          | err e ↦ (err uncaught, t, a')
          | ok x ↦ (
            ok tt,
            record t {
              jobs = change_job uuid (ended_by_kill w.now) t.jobs;
              audit_log = t.audit_log ++ (audit_kill uuid j.machine_id user ∷ []);
            },
            a',
          )
        ]
  ]
