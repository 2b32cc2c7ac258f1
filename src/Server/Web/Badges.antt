-- ===== src/Server/Web/Badges.antt =====
-- `script_state_badge`, `restage` and `sync_states` of control_station_lite/server/web/machines.py: the
-- states of the scripts on a machine, as the pages show them.
pub mod Shown
use csl.Prelude.{
  ℕ, Text, Dict, Text_Eq, codes, [], ◌∷◌, none, some, true, false, ok, err, suc, ◌>>=◌, ◌>>◌,
  lookup, Result, Option, List, Bool, nat_eq, if◌then◌else◌,
}
use csl.Shared.Models.{absent, ScriptDescriptor, StageScriptRequest}
use csl.Shared.ScriptMeta.{Numbers}
use csl.Agent.Approvals.Data.{Platform}
use csl.Agent.Params.{Params}
use csl.Agent.Runner as AgentRunner
use csl.Agent.Processes.Records.{StateFormat}
use csl.Agent.Api.Wire.{Agent}
use csl.Server.Auth.Sessions.{User}
use csl.Server.Core.Crypto.{Aead, decrypt}
use csl.Server.Core.Errors.{HttpException, uncaught}
use csl.Server.Core.Registry.Table.{ScriptRow}
use csl.Server.Core.ScriptSync.Sync.{
  TargetState, agent_state, ScriptTargetState, resolve, upsert_state, row_of,
}
use csl.Server.Core.AgentClient as AgentClient
use csl.Server.Core.AgentClient.{
  ensure_agent_running, get_script_state, ClientError, approval_error, agent_validation_error,
  no_start_command, agent_not_reachable, http_failure, ssh_failure,
}
use csl.Server.Api.Machines.{Machine, get_machine_or_404, assert_access}
use csl.Server.Api.Jobs.{JobTables}
use csl.Server.Api.Jobs.Client.{opened, decrypted, platform_name, Surroundings}

-- What the template of a badge is given; `agent_unreachable` is false where it is left out.
pub record Badge : Type 0 where
  pub script_id : ℕ
  pub state : TargetState
  pub approved_md5 : Option Text
  pub pending_md5 : Option Text
  pub agent_unreachable : Bool

abbrev pub no_badge : Badge
no_badge = record {
  script_id = 0;
  state = agent_state absent;
  approved_md5 = none;
  pending_md5 = none;
  agent_unreachable = false;
}

unfoldable pub cached_badge : ℕ → Option ScriptTargetState → Bool → Badge
cached_badge script_id none unreachable = record {
  script_id = script_id;
  state = agent_state absent;
  approved_md5 = none;
  pending_md5 = none;
  agent_unreachable = unreachable;
}
cached_badge script_id (some row) unreachable = record {
  script_id = script_id;
  state = row.state;
  approved_md5 = row.approved_md5;
  pending_md5 = row.pending_md5;
  agent_unreachable = unreachable;
}

abbrev pub fresh_badge : ℕ → TargetState → ScriptDescriptor → Badge
fresh_badge script_id state d = record {
  script_id = script_id;
  state = state;
  approved_md5 = d.approved_md5;
  pending_md5 = d.pending_md5;
  agent_unreachable = false;
}

-- What `except AgentClientError` catches.
unfoldable pub is_client_error : ClientError → Bool
is_client_error (approval_error state) = true
is_client_error agent_validation_error = true
is_client_error no_start_command = true
is_client_error agent_not_reachable = true
is_client_error http_failure = false
is_client_error ssh_failure = false

module _ (io : Platform) {nums : Numbers} (m : AgentRunner.Machine nums) (fmt : StateFormat)
    (aead : Aead) (w : Surroundings (Agent io.Doc fmt.Doc)) where
  abbrev pub Shown : Type 0
  Shown = Result HttpException Badge × JobTables × Agent io.Doc fmt.Doc

  -- The machine of a user with access; its key opens if the script is found.
  unfoldable pub badge_admission :
      ℕ → Text → User → JobTables → Result HttpException (Machine × Option ScriptRow)
  badge_admission machine_id script_name user t = do
    machine ← get_machine_or_404 machine_id t.machines
    assert_access user machine_id t.user_machines
    elim (lookup script_name t.scripts) [
      | none ↦ ok (machine, none)
      | some row ↦ do
        key ← decrypted (decrypt aead machine.ssh_key_encrypted w.master_key)
        ok (machine, some row)
    ]

  abbrev cached : ℕ → ScriptRow → Bool → JobTables → Badge
  cached machine_id row unreachable t =
      cached_badge row.id (row_of machine_id row.id t.target_states) unreachable

  -- The row of the state that the agent has told, and the badge of it.
  unfoldable pub refreshed_badge :
      ℕ → ScriptRow → TargetState → ScriptDescriptor → JobTables → Agent io.Doc fmt.Doc → Shown
  refreshed_badge machine_id row state d t a = (
    ok (fresh_badge row.id state d),
    record t { target_states = upsert_state machine_id row.id state d w.now t.target_states },
    a,
  )

  -- What is made of the answer to a look at the state: the row is left as it was without one.
  unfoldable pub told :
      ℕ → ScriptRow → Result ClientError ScriptDescriptor → JobTables → Badge × JobTables
  told machine_id row (err e) t = (cached machine_id row true t, t)
  told machine_id row (ok d) t = (
    fresh_badge row.id (resolve d row.md5) d,
    record t {
      target_states = upsert_state machine_id row.id (resolve d row.md5) d w.now t.target_states;
    },
  )

  -- The client of `script_state_badge`, which does not start the agent.
  unfoldable pub badge_over : Text → ℕ → Text → ScriptRow → JobTables → Agent io.Doc fmt.Doc → Shown
  badge_over auth machine_id script_name row t a =
      let (found, a') = get_script_state io m fmt w.link auth 0 script_name a in
      let (badge, t') = told machine_id row found t in (ok badge, t', a')

  unfoldable pub script_state_badge : ℕ → Text → User → JobTables → Agent io.Doc fmt.Doc → Shown
  script_state_badge machine_id script_name user t a =
      elim (badge_admission machine_id script_name user t) [
        | err e ↦ (err e, t, a)
        | ok (machine, none) ↦ (ok no_badge, t, a)
        | ok (machine, some row) ↦ elim (opened aead w machine) [
          | err e ↦ (ok (cached machine_id row true t), t, a)
          | ok auth ↦ badge_over auth machine_id script_name row t a
        ]
      ]

  unfoldable pub restage_failed :
      ℕ → ScriptRow → ClientError → JobTables → Agent io.Doc fmt.Doc → Shown
  restage_failed machine_id row e t a =
      if is_client_error e then (ok (cached machine_id row false t), t, a) else (err uncaught, t, a)

  abbrev pub stage_body : ScriptRow → StageScriptRequest
  stage_body row = record { content = row.content; md5 = row.md5; meta_yaml = row.meta_yaml }

  -- Requests 5 and 6: the staging, whose answer is not looked at, and the state after it.
  unfoldable pub restage_awake :
      Text → ℕ → Text → ScriptRow → JobTables → Agent io.Doc fmt.Doc → Shown
  restage_awake auth machine_id script_name row t a =
      let (answer, a') = AgentClient.stage io m fmt w.link auth 5 script_name (stage_body row) a in
      let (found, a'') = get_script_state io m fmt w.link auth 6 script_name a' in
      elim answer [
        | err e ↦ restage_failed machine_id row e t a'
        | ok s ↦ elim found [
          | err e ↦ restage_failed machine_id row e t a''
          | ok d ↦ refreshed_badge machine_id row (agent_state d.state) d t a''
        ]
      ]

  unfoldable pub restage_over :
      Text → ℕ → Machine → Text → ScriptRow → JobTables → Agent io.Doc fmt.Doc → Shown
  restage_over auth machine_id machine script_name row t a =
      let (up, a') = ensure_agent_running io m fmt w.link auth (platform_name machine.platform) a in
      elim up [
        | err e ↦ restage_failed machine_id row e t a'
        | ok u ↦ restage_awake auth machine_id script_name row t a'
      ]

  unfoldable pub restage : ℕ → Text → User → JobTables → Agent io.Doc fmt.Doc → Shown
  restage machine_id script_name user t a = elim (badge_admission machine_id script_name user t) [
    | err e ↦ (err e, t, a)
    | ok (machine, none) ↦ (ok no_badge, t, a)
    | ok (machine, some row) ↦ elim (opened aead w machine) [
      | err e ↦ (err e, t, a)
      | ok auth ↦ restage_over auth machine_id machine script_name row t a
    ]
  ]

  -- The scripts that have a row for the machine. `by_name` puts them in the order of their names.
  unfoldable pub staged_scripts :
      ℕ → Dict Text ScriptRow → List ScriptTargetState → List (Text × ScriptRow)
  staged_scripts machine_id [] rows = []
  staged_scripts machine_id ((name, row) ∷ scripts) rows =
      let rest = staged_scripts machine_id scripts rows in
      elim (row_of machine_id row.id rows) [ none ↦ rest | some r ↦ (name, row) ∷ rest ]

  abbrev pub cached_badges : ℕ → JobTables → List (Text × ScriptRow) → List Badge
  cached_badges machine_id t [] = []
  cached_badges machine_id t ((name, row) ∷ staged) =
      cached machine_id row true t ∷ cached_badges machine_id t staged

  -- The loop over the scripts, from request `n` on. A failure of one leaves its row as it was.
  unfoldable pub refresh_all :
      Text
      → ℕ
      → ℕ
      → List (Text × ScriptRow)
      → JobTables
      → Agent io.Doc fmt.Doc
      → List Badge × JobTables × Agent io.Doc fmt.Doc
  refresh_all auth n machine_id [] t a = ([], t, a)
  refresh_all auth n machine_id ((name, row) ∷ staged) t a =
      let (found, a') = get_script_state io m fmt w.link auth n name a in
      let (badge, t') = told machine_id row found t in
      let (badges, t'', a'') = refresh_all auth (suc n) machine_id staged t' a' in
      (badge ∷ badges, t'', a'')

  abbrev pub Swept : Type 0
  Swept = Result HttpException (List Badge) × JobTables × Agent io.Doc fmt.Doc

  unfoldable pub refresh_over :
      Text → ℕ → Machine → List (Text × ScriptRow) → JobTables → Agent io.Doc fmt.Doc → Swept
  refresh_over auth machine_id machine staged t a =
      let (up, a') = ensure_agent_running io m fmt w.link auth (platform_name machine.platform) a in
      let (badges, t', a'') = refresh_all auth 5 machine_id staged t a' in
      elim up [
        | err e ↦ (ok (cached_badges machine_id t staged), t, a')
        | ok u ↦ (ok badges, t', a'')
      ]

  unfoldable pub refresh_staged :
      ℕ → Machine → List (Text × ScriptRow) → JobTables → Agent io.Doc fmt.Doc → Swept
  refresh_staged machine_id machine [] t a = (ok [], t, a)
  refresh_staged machine_id machine (s ∷ staged) t a =
      elim (decrypted (decrypt aead machine.ssh_key_encrypted w.master_key)) [
        | err e ↦ (err e, t, a)
        | ok key ↦ elim (opened aead w machine) [
          | err e ↦ (ok (cached_badges machine_id t (s ∷ staged)), t, a)
          | ok auth ↦ refresh_over auth machine_id machine (s ∷ staged) t a
        ]
      ]

  abbrev pub refresh_admission : ℕ → User → JobTables → Result HttpException Machine
  refresh_admission machine_id user t = do
    machine ← get_machine_or_404 machine_id t.machines
    assert_access user machine_id t.user_machines
    ok machine

  unfoldable pub sync_states :
      (List (Text × ScriptRow) → List (Text × ScriptRow))
      → ℕ
      → User
      → JobTables
      → Agent io.Doc fmt.Doc
      → Swept
  sync_states by_name machine_id user t a = elim (refresh_admission machine_id user t) [
    | err e ↦ (err e, t, a)
    | ok machine ↦
        refresh_staged machine_id machine
          (by_name (staged_scripts machine_id t.scripts t.target_states)) t a
  ]
