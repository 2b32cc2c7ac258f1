-- ===== src/Server/Core/ScriptSync/Remote.antt =====
-- `sync_script` of control_station_lite/server/core/script_sync.py with the client that it is given: as
-- requests, which may fail.
use csl.Prelude.{ℕ, Text, suc, ok, err, List, ◌||◌, ◌==◌, if◌then◌else◌, Result}
use csl.Shared.Models.{ApprovalState_Eq, absent, ScriptDescriptor}
use csl.Shared.ScriptMeta.{Numbers}
use csl.Agent.Approvals.Data.{Platform}
use csl.Agent.Runner.{Machine}
use csl.Agent.Processes.Records.{StateFormat}
use csl.Agent.Api.Wire.{Agent}
use csl.Server.Core.ScriptSync.Sync.{
  Script, ScriptTargetState, TargetState, agent_state, resolve, is_stale, upsert_state,
}
use csl.Server.Core.AgentClient.{ClientError, Link, get_script_state, stage}

module _ (io : Platform) {nums : Numbers} (m : Machine nums) (fmt : StateFormat)
    (link : Link (Agent io.Doc fmt.Doc)) (authorization : Text) where
  abbrev pub Synced : Type 0
  Synced = Result ClientError TargetState × Agent io.Doc fmt.Doc × List ScriptTargetState

  -- What follows the look at the state on the agent; request `n` stages the script.
  unfoldable pub stage_if_due :
      ℕ → ℕ → Script → ℕ → ScriptDescriptor → Agent io.Doc fmt.Doc → List ScriptTargetState → Synced
  stage_if_due n machine_id script now desc a rows =
      let resolved = resolve desc script.md5 in
      let (answer, a') =
        stage io m fmt link authorization n script.name
          (record { content = script.content; md5 = script.md5; meta_yaml = script.meta_yaml }) a in
      if desc.state == absent || is_stale resolved
      then elim answer [
        | err e ↦ (err e, a', rows)
        | ok s ↦ (
          ok (agent_state s),
          a',
          upsert_state machine_id script.id (agent_state s) desc now rows,
        )
      ]
      else (ok resolved, a, upsert_state machine_id script.id resolved desc now rows)

  -- The two requests are number `n` and the next one.
  unfoldable pub sync_script_over :
      ℕ → ℕ → Script → ℕ → Agent io.Doc fmt.Doc → List ScriptTargetState → Synced
  sync_script_over n machine_id script now a rows =
      let (found, a') = get_script_state io m fmt link authorization n script.name a in
      elim found [
        | err e ↦ (err e, a', rows)
        | ok desc ↦ stage_if_due (suc n) machine_id script now desc a' rows
      ]
