-- ===== src/Server/Core/ScriptSync/Reached.antt =====
-- A synchronisation whose requests get through is that of the manager at the other end.
use csl.Prelude.{Text_Eq, ◌∙◌, ap, ℕ, Text, ◌∷◌, ◌++◌, some, true, ok, ◌≡◌, arith, text_eq_iff, all}
use csl.Shared.ScriptMeta.{Numbers}
use csl.Agent.Approvals.Data.{Platform}
use csl.Agent.Approvals.Manager.{get_state}
use csl.Agent.Params.{Params}
use csl.Agent.Runner.{Machine}
use csl.Agent.Processes.Records.{StateFormat}
use csl.Agent.Lifecycle.{record_activity}
use csl.Agent.Api.Wire.{Agent, is_path_name}
use csl.Agent.Api.App.{AgentRequest, activity, dispatch, endpoint, bearer, is_ascii}
use csl.Agent.Api.App as App
use csl.Agent.Approvals.Manager as Manager
use csl.Agent.Approvals.Data.{ApprovalError}
use csl.Prelude.{on_error, Result, List, suc}
use csl.Shared.Models.{StageScriptRequest, ScriptDescriptor}
use csl.Server.Core.AgentClient as AgentClient
use csl.Server.Core.AgentClient.{ClientError, http_failure}
use csl.Prelude.{lookup}
use csl.Agent.Approvals.Data.{state_of}
use csl.Server.Core.ScriptSync.Agrees.{is_current, sync_script-agrees}
use csl.Server.Core.ScriptSync.Sync.{
  agent_state, Script, ScriptTargetState, sync_script, sync_found,
}
use csl.Server.Core.ScriptSync.Remote.{sync_script_over, stage_if_due}
use csl.Agent.Api.Access.{dispatch-bearer}
use csl.Server.Core.AgentClient.{Link, send, get_script_state}

all-bearer : (token : Text) → is_ascii token ≡ true → is_ascii (bearer ++ token) ≡ true
unfolding all
all-bearer token h = h

module _ (io : Platform) {nums : Numbers} (m : Machine nums) (fmt : StateFormat)
    (link : Link (Agent io.Doc fmt.Doc)) (c : ℕ) (token : Text) where
  -- The authorization that the agent asks for.
  abbrev key : Text
  key = bearer ++ (c ∷ token)

  dispatch-key :
      (n : ℕ) (q : AgentRequest (Params nums.Number)) (a : Agent io.Doc fmt.Doc)
      → a.api_token ≡ some (c ∷ token)
      → is_ascii (c ∷ token) ≡ true
      → dispatch io m fmt (link.moment n) key q a ≡ activity io m fmt (link.moment n) q a
  dispatch-key n q a e k = ground (
    arith,
    dispatch-bearer io m fmt (link.moment n) key q a c token e k (all-bearer (c ∷ token) k),
    text_eq_iff key key,
  )

  get_script_state-reached :
      (n : ℕ) (name : Text) (a : Agent io.Doc fmt.Doc)
      → a.api_token ≡ some (c ∷ token)
      → is_ascii (c ∷ token) ≡ true
      → link.arrives n ≡ true
      → is_path_name name ≡ true
      → get_script_state io m fmt link key n name a ≡ (
        ok (get_state io name a.host).0,
        record a {
          tracker = record_activity (link.moment n).now a.tracker;
          host = (get_state io name a.host).1;
        },
      )
  unfolding get_script_state send activity endpoint App.get_script_state
  get_script_state-reached n name a e k r v =
      ground (arith, dispatch-key n (App.script_state name) a e k)

  -- What the client makes of the manager's answer to staging.
  abbrev pub as_client : {A : Type 0} → Result ApprovalError A → Result ClientError A
  as_client = on_error (λ e. http_failure)

  stage-reached :
      (n : ℕ) (name : Text) (body : StageScriptRequest) (a : Agent io.Doc fmt.Doc)
      → a.api_token ≡ some (c ∷ token)
      → is_ascii (c ∷ token) ≡ true
      → link.arrives n ≡ true
      → is_path_name name ≡ true
      → AgentClient.stage io m fmt link key n name body a ≡ (
          let (r, h) =
            Manager.stage io name body.content body.md5 body.meta_yaml (link.moment n).now a.host in
          (
            as_client r,
            record a { tracker = record_activity (link.moment n).now a.tracker; host = h },
          ))
  unfolding AgentClient.stage send activity endpoint App.stage_endpoint
  stage-reached n name body a e k r v =
      ground (arith, dispatch-key n (App.stage_script name body) a e k)

  stage_if_due-reached :
      (n machine_id : ℕ) (script : Script) (d : ScriptDescriptor) (a : Agent io.Doc fmt.Doc)
      (rows : List ScriptTargetState)
      → a.api_token ≡ some (c ∷ token)
      → is_ascii (c ∷ token) ≡ true
      → link.arrives n ≡ true
      → is_path_name script.name ≡ true
      → let (r, b, over) =
          stage_if_due io m fmt link key n machine_id script (link.moment n).now d a rows in
        let (s, h, direct) = sync_found io machine_id script (link.moment n).now d a.host rows in
        (r ≡ as_client s) × (b.host ≡ h) × (over ≡ direct)
  unfolding stage_if_due sync_found
  stage_if_due-reached n machine_id script d a rows e k r v =
      let body : StageScriptRequest = record {
        content = script.content;
        md5 = script.md5;
        meta_yaml = script.meta_yaml;
      } in
      ground (arith, stage-reached n script.name body a e k r v)

  -- When both requests reach an agent whose token the control station has, and the name is one that the
  -- agent takes, the synchronisation over the API does to the store of the agent and to the rows what the
  -- manager's methods do, and gives the same answer; an error of the manager comes back as one of `httpx`.
  pub sync_script_over-reached :
      (n machine_id : ℕ) (script : Script) (a : Agent io.Doc fmt.Doc)
      (rows : List ScriptTargetState)
      → a.api_token ≡ some (c ∷ token)
      → is_ascii (c ∷ token) ≡ true
      → link.arrives n ≡ true
      → link.arrives (suc n) ≡ true
      → is_path_name script.name ≡ true
      → let (r, b, over) =
          sync_script_over io m fmt link key n machine_id script (link.moment (suc n)).now a rows in
        let (s, h, direct) =
          sync_script io machine_id script (link.moment (suc n)).now a.host rows in
        (r ≡ as_client s) × (b.host ≡ h) × (over ≡ direct)
  unfolding sync_script_over sync_script
  sync_script_over-reached n machine_id script a rows e k r s v = ground (
    arith,
    get_script_state-reached n script.name a e k r v,
    stage_if_due-reached (suc n) machine_id script (get_state io script.name a.host).0
        (record a {
          tracker = record_activity (link.moment n).now a.tracker;
          host = (get_state io script.name a.host).1;
        })
        rows e k s v,
  )

  -- When both requests of sync_script reach an agent whose token the control station has, and the name is
  -- one that the agent takes, it succeeds. Its answer is the state that the agent has for the script
  -- afterwards, never `approved_stale`, and if that is `approved`, the content that is approved is the
  -- one of the control station.
  pub sync_script_over-agrees :
      (n machine_id : ℕ) (script : Script) (a : Agent io.Doc fmt.Doc)
      (rows : List ScriptTargetState)
      → a.api_token ≡ some (c ∷ token)
      → is_ascii (c ∷ token) ≡ true
      → link.arrives n ≡ true
      → link.arrives (suc n) ≡ true
      → is_path_name script.name ≡ true
      → let (r, b, over) =
          sync_script_over io m fmt link key n machine_id script (link.moment (suc n)).now a rows in
        let known = lookup script.name b.host.manager.store in
        (r ≡ ok (agent_state (state_of known))) × (is_current known script.md5 ≡ true)
  sync_script_over-agrees n machine_id script a rows e k r s v =
      let (answer, left, over) = sync_script_over-reached n machine_id script a rows e k r s v in
      let (agrees, current) =
        sync_script-agrees io machine_id script (link.moment (suc n)).now a.host rows in
      rw left (answer ∙ ap as_client agrees, current)
