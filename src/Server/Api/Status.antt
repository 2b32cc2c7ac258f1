-- ===== src/Server/Api/Status.antt =====
-- `ping_machine` and `agent_status` of control_station_lite/server/api/machines.py.
use csl.Prelude.{
  ℕ, Text, none, some, true, false, ok, err, Bool, Result, Option, ◌>>=◌, if◌then◌else◌,
}
use csl.Shared.Models.{AgentHealth}
use csl.Shared.ScriptMeta.{Numbers}
use csl.Agent.Approvals.Data.{Platform}
use csl.Agent.Runner as AgentRunner
use csl.Agent.Processes.Records.{StateFormat}
use csl.Agent.Api.Wire.{Agent, HttpError}
use csl.Agent.Api.App as App
use csl.Agent.Api.App.{Reply, healthz}
use csl.Server.Auth.Sessions.{User}
use csl.Server.Core.Crypto.{Aead, decrypt}
use csl.Server.Core.Errors.{HttpException}
use csl.Server.Core.AgentClient.{send}
use csl.Server.Api.Machines.{Machine, MachineTables, get_machine}
use csl.Server.Api.Jobs.Client.{Surroundings, decrypted, auth_header}

pub record AgentStatusOut : Type 0 where
  pub running : Bool
  pub health : Option AgentHealth

abbrev asleep : AgentStatusOut
asleep = record { running = false; health = none }

abbrev status_of : Option (Result HttpError Reply) → AgentStatusOut
status_of (some (ok (App.health h))) = record { running = true; health = some h }
status_of _ = asleep

-- Whether a connection opens to the machine, with its key and its pinned host key; the latency is left
-- out.
unfoldable pub ping_machine :
    Aead → Text → (Machine → Text → Bool) → ℕ → User → MachineTables → Result HttpException Bool
ping_machine aead master_key connects machine_id user t = do
  machine ← get_machine machine_id user t
  key ← decrypted (decrypt aead machine.ssh_key_encrypted master_key)
  ok (connects machine key)

module _ (io : Platform) {nums : Numbers} (m : AgentRunner.Machine nums) (fmt : StateFormat)
    (aead : Aead) (w : Surroundings (Agent io.Doc fmt.Doc)) where
  -- The answer through an open tunnel.
  unfoldable pub status_over :
      Machine → Agent io.Doc fmt.Doc → Result HttpException AgentStatusOut × Agent io.Doc fmt.Doc
  status_over machine a = elim (auth_header aead w.master_key machine) [
    | err e ↦ (err e, a)
    | ok auth ↦ let (r, a') = send io m fmt w.link auth 0 healthz a in (ok (status_of r), a')
  ]

  -- The machine of a user with access, whose key opens.
  unfoldable pub keyed_machine : ℕ → User → MachineTables → Result HttpException Machine
  keyed_machine machine_id user t = do
    machine ← get_machine machine_id user t
    key ← decrypted (decrypt aead machine.ssh_key_encrypted w.master_key)
    ok machine

  unfoldable pub agent_status :
      ℕ
      → User
      → MachineTables
      → Agent io.Doc fmt.Doc
      → Result HttpException AgentStatusOut × Agent io.Doc fmt.Doc
  agent_status machine_id user t a = elim (keyed_machine machine_id user t) [
    | err e ↦ (err e, a)
    | ok machine ↦ if w.tunnel_opens then status_over machine a else (ok asleep, a)
  ]
