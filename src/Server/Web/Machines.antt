-- ===== src/Server/Web/Machines.antt =====
-- The other pages of control_station_lite/server/web/machines.py, and the dashboard of dashboard.py,
-- without the texts of the templates.
use csl.Prelude.{
  ℕ, Text, Dict, Text_Eq, codes, [], ◌∷◌, ◌++◌, none, some, false, ok, err, not, ◌&&◌, ◌==◌, nat_eq,
  ◌>>=◌, ◌>>◌, Result, Option, List, Bool, if◌then◌else◌, filter,
}
use csl.Shared.Models.{ApprovalState_Eq, absent}
use csl.Shared.ScriptMeta.{Numbers}
use csl.Agent.Approvals.Data.{Platform}
use csl.Agent.Runner as AgentRunner
use csl.Agent.Processes.Records.{StateFormat}
use csl.Agent.Api.Wire.{Agent}
use csl.Server.Auth.Sessions.{User}
use csl.Server.Core.Crypto.{Aead}
use csl.Server.Core.Errors.{HttpException, uncaught}
use csl.Server.Core.Registry.Table.{ScriptRow}
use csl.Server.Core.Reconciler.Pass.{is_active}
use csl.Server.Core.ScriptSync.Sync.{
  TargetState, agent_state, approved_stale, ScriptTargetState, row_of,
}
use csl.Server.Core.AgentClient as AgentClient
use csl.Server.Api.Machines.{
  Machine, list_machines, find_machine, get_machine_or_404, assert_access,
}
use csl.Server.Api.Jobs.{JobTables, JobRow, get_job_or_404}
use csl.Server.Api.Jobs.Client.{opened, Surroundings}
use csl.Server.Api.Jobs.Running.{change_job, ended_by_kill, order_by_started}
use csl.Server.Web.Login.{Response, html}
use csl.Server.Web.JobList.{machine_tables}
use csl.Server.Web.Badges.{is_client_error}

unfoldable pub dashboard : User → JobTables → List Machine
dashboard user t = list_machines user (machine_tables t)

-- A row of the list of scripts; `description` is left out.
pub record ScriptState : Type 0 where
  pub script : Text
  pub state : TargetState
  pub approved_md5 : Option Text
  pub pending_md5 : Option Text

abbrev never_staged : TargetState → Bool
never_staged (agent_state s) = s == absent
never_staged approved_stale = false

abbrev state_of_row : Text → Option ScriptTargetState → ScriptState
state_of_row name none = record {
  script = name;
  state = agent_state absent;
  approved_md5 = none;
  pending_md5 = none;
}
state_of_row name (some row) = record {
  script = name;
  state = row.state;
  approved_md5 = row.approved_md5;
  pending_md5 = row.pending_md5;
}

-- The loop over the scripts, in the order of the table.
unfoldable pub script_states :
    Bool → ℕ → Dict Text ScriptRow → List ScriptTargetState → List ScriptState
script_states show_all machine_id [] rows = []
script_states show_all machine_id ((name, script) ∷ scripts) rows =
    let s = state_of_row name (row_of machine_id script.id rows) in
    let rest = script_states show_all machine_id scripts rows in
    if not show_all && never_staged s.state then rest else s ∷ rest

-- The jobs that the page of a machine shows.
abbrev is_shown_job : ℕ → JobRow → Bool
is_shown_job machine_id j = nat_eq j.machine_id machine_id && j.persistent && is_active j.status

pub record MachineDetail : Type 0 where
  pub machine : Machine
  pub states : List ScriptState
  pub running_jobs : List JobRow

unfoldable pub machine_detail : ℕ → Bool → User → JobTables → Result HttpException MachineDetail
machine_detail machine_id show_all user t = do
  found ← get_machine_or_404 machine_id t.machines
  assert_access user machine_id t.user_machines
  ok (record {
    machine = found;
    states = script_states show_all machine_id t.scripts t.target_states;
    running_jobs = order_by_started (filter (is_shown_job machine_id) t.jobs);
  })

-- The job and its machine, without a look at who asks.
unfoldable pub job_detail : Text → JobTables → Result HttpException (JobRow × Option Machine)
job_detail job_uuid t = do
  job ← get_job_or_404 job_uuid t.jobs
  ok (job, find_machine job.machine_id t.machines)

-- The events of a log: the lines that came, a note if the stream broke off, and the end.
unfoldable pub log_events : List Text → Bool → List Text
log_events [] failed =
    (if failed then codes "data: [log not available]\n\n" ∷ [] else [])
    ++ (codes "event: end\ndata: done\n\n" ∷ [])
log_events (line ∷ lines) failed =
    (codes "data: " ++ line ++ codes "\n\n") ∷ log_events lines failed

module _ (io : Platform) {nums : Numbers} (m : AgentRunner.Machine nums) (fmt : StateFormat)
    (aead : Aead) (w : Surroundings (Agent io.Doc fmt.Doc)) where
  abbrev Killed : Type 0
  Killed = Result HttpException Response × JobTables × Agent io.Doc fmt.Doc

  abbrev kill_failed : AgentClient.ClientError → Result HttpException Response
  kill_failed e =
      if is_client_error e
      then ok (html (codes "<span class=\"badge badge-error\">Kill failed</span>"))
      else err uncaught

  -- The request, and the row.
  unfoldable pub kill_over : Text → Text → JobTables → Agent io.Doc fmt.Doc → Killed
  kill_over auth job_uuid t a =
      let (r, a') = AgentClient.kill io m fmt w.link auth 0 job_uuid a in
      elim r [
        | err e ↦ (kill_failed e, t, a')
        | ok answer ↦ (
          ok (html (codes "<span class=\"badge badge-killed\">Killed</span>")),
          record t { jobs = change_job job_uuid (ended_by_kill w.now) t.jobs },
          a',
        )
      ]

  unfoldable pub kill_on : Machine → Text → JobTables → Agent io.Doc fmt.Doc → Killed
  kill_on machine job_uuid t a = elim (opened aead w machine) [
    | err e ↦ (err e, t, a)
    | ok auth ↦ kill_over auth job_uuid t a
  ]

  unfoldable pub kill_job_web : Text → JobTables → Agent io.Doc fmt.Doc → Killed
  kill_job_web job_uuid t a = elim (job_detail job_uuid t) [
    | err e ↦ (err e, t, a)
    | ok (job, none) ↦
        (ok (html (codes "<span class=\"badge badge-error\">Machine not found</span>")), t, a)
    | ok (job, some machine) ↦ kill_on machine job_uuid t a
  ]
