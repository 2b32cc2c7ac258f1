-- ===== src/Server/Web/Run/Guarded.antt =====
-- What a run from the page that is answered with its job has done.
use csl.Prelude.{
  sym, ◌∙◌, [], refl, some, lookup, >>=-eq-ok, Dict, subst, Option, ◌≢◌, ℕ, Text, Text_Eq, List, ok,
  ◌≡◌, arith, Result-cases, inl, inr,
}
use csl.Shared.Models.{JobStatusResponse}
use csl.Shared.ScriptMeta.{Numbers}
use csl.Agent.Approvals.Data.{Platform}
use csl.Agent.Params.{Params}
use csl.Agent.Runner as AgentRunner
use csl.Agent.Runner.{prepare}
use csl.Agent.Processes.Records.{StateFormat}
use csl.Agent.Api.Wire.{Agent}
use csl.Agent.Api.Executed.{RunsGuarded}
use csl.Agent.Api.Expected.{submit_job-RunsGuarded}
use csl.Server.Auth.Sessions.{User}
use csl.Server.Core.Crypto.{Aead}
use csl.Server.Core.Registry.Table.{ScriptRow}
use csl.Server.Core.AgentClient as AgentClient
use csl.Server.Core.AgentClient.{ensure_agent_running, ClientError}
use csl.Server.Api.Jobs.{JobTables}
use csl.Server.Api.Jobs.Client.{opened, script_or_404, script_of, platform_name, Surroundings}
use csl.Server.Web.Login.{see_other}
use csl.Server.Web.Form.{form_params, FormValue, Builtins, Field}
use csl.Server.Web.Run.{
  meta_params, sync_script_over, run_admission, TargetState, run_awake, run_resolved, run_submit,
  run_over, run_failed, run_request, run_synced,
}
use csl.Server.Api.Machines.{assert_access, get_machine_or_404, Machine}
use csl.Server.Core.ScriptSync.Sync.{TargetState}
use csl.Server.Core.ScriptSync.Remote.{sync_script_over}
use csl.Agent.Lifecycle.{record_activity}
use csl.Server.Api.Jobs.Submitted.{client-submitted}

run_failed-page :
    (e : ClientError) {url message category : Text}
    → run_failed e ≢ ok (see_other 303 url message category)
unfolding run_failed
run_failed-page (AgentClient.approval_error state) h = ground arith
run_failed-page AgentClient.agent_validation_error h = ground arith
run_failed-page AgentClient.no_start_command h = ground arith
run_failed-page AgentClient.agent_not_reachable h = ground arith
run_failed-page AgentClient.http_failure h = ground arith
run_failed-page AgentClient.ssh_failure h = ground arith

module _ (io : Platform) {nums : Numbers} (m : AgentRunner.Machine nums) (fmt : StateFormat)
    (aead : Aead) (dumps : Params nums.Number → Text) (py : Builtins nums)
    (parse_params : Text → Option (List (Field nums.Number py.Any)))
    (w : Surroundings (Agent io.Doc fmt.Doc)) where
  run_synced-response :
      (auth : Text) (machine_id : ℕ) (script_name : Text) (params : Params nums.Number)
      (row : ScriptRow) (user : User) (t : JobTables) (a : Agent io.Doc fmt.Doc)
      {url message category : Text}
      → (run_synced io m fmt aead dumps py parse_params w auth machine_id script_name params row
          user t a).0
        ≡ ok (see_other 303 url message category)
      → (r : JobStatusResponse) × ((AgentClient.submit_job io m fmt w.link auth 7
            (run_request io m fmt aead dumps py parse_params w script_name params row)
            a).0
          ≡ ok r)
        × ((run_synced io m fmt aead dumps py parse_params w auth machine_id script_name params row
              user t a).2
            ≡ (AgentClient.submit_job io m fmt w.link auth 7
                (run_request io m fmt aead dumps py parse_params w script_name params row)
                a).1)
  unfolding run_synced
  run_synced-response auth machine_id script_name params row user t a {url} {message} {category} e =
      let (response, after) =
        AgentClient.submit_job io m fmt w.link auth 7
          (run_request io m fmt aead dumps py parse_params w script_name params row) a in
      elim (Result-cases response) [
        | inl (r, k) ↦ (r, k, ground arith)
        | inr (x, k) ↦
            absurd (
              run_failed-page x {url = url} {message = message} {category = category}
                (ground arith))
      ]

  run_resolved-synced :
      (auth : Text) (machine_id : ℕ) (script_name : Text) (params : Params nums.Number)
      (row : ScriptRow) (user : User) (s : TargetState) (t : JobTables) (a : Agent io.Doc fmt.Doc)
      {url message category : Text}
      → (run_resolved io m fmt aead dumps py parse_params w auth machine_id script_name params row
          user s t a).0
        ≡ ok (see_other 303 url message category)
      → ((run_synced io m fmt aead dumps py parse_params w auth machine_id script_name params row
            user t a).0
          ≡ ok (see_other 303 url message category))
        × ((run_resolved io m fmt aead dumps py parse_params w auth machine_id script_name params
              row user s t a).2
            ≡ (run_synced io m fmt aead dumps py parse_params w auth machine_id script_name params
                row user t a).2)
  unfolding run_resolved
  run_resolved-synced auth machine_id script_name params row user s t a e =
      (ground arith, ground arith)

  -- The agent when the job is sent to it: after the probes and the synchronisation.
  abbrev pub agent_at_run :
      ℕ
      → Machine
      → Text
      → ScriptRow
      → Text
      → JobTables
      → Agent io.Doc fmt.Doc
      → Agent io.Doc fmt.Doc
  agent_at_run machine_id machine script_name row auth t a =
      let (up, a') = ensure_agent_running io m fmt w.link auth (platform_name machine.platform) a in
      (sync_script_over io m fmt w.link auth 5 machine_id (script_of script_name row) w.now a'
        t.target_states).1

  run_over-guarded :
      (auth : Text) (machine_id : ℕ) (machine : Machine) (script_name : Text)
      (params : Params nums.Number) (row : ScriptRow) (user : User) (t : JobTables)
      (a : Agent io.Doc fmt.Doc) {url message category : Text}
      → (run_over io m fmt aead dumps py parse_params w auth machine_id machine script_name params
          row user t a).0
        ≡ ok (see_other 303 url message category)
      → (r : JobStatusResponse) × RunsGuarded io m fmt
          (w.link.moment 7)
          (run_request io m fmt aead dumps py parse_params w script_name params row)
          (agent_at_run machine_id machine script_name row auth t a).host
          r
          (run_over io m fmt aead dumps py parse_params w auth machine_id machine script_name params
            row user t a).2
  unfolding run_over run_awake
  run_over-guarded auth machine_id machine script_name params row user t a {url} {message}
        {category} e =
      let (up, a') = ensure_agent_running io m fmt w.link auth (platform_name machine.platform) a in
      let (resolved, b, rows) =
        sync_script_over io m fmt w.link auth 5 machine_id (script_of script_name row) w.now a'
          t.target_states in
      let job = run_request io m fmt aead dumps py parse_params w script_name params row in
      elim (Result-cases up) [
        | inr (x, k) ↦
            absurd (
              run_failed-page x {url = url} {message = message} {category = category}
                (ground arith))
        | inl (u, k) ↦ elim (Result-cases resolved) [
          | inr (x, l) ↦ absurd (
              run_failed-page x {url = url} {message = message} {category = category}
                (ground arith))
          | inl (s, l) ↦
              let (synced, left) =
                run_resolved-synced auth machine_id script_name params row user s
                  (record t { target_states = rows }) b {url = url} {message = message}
                  {category = category} (ground arith) in
              let (r, sent, same) =
                run_synced-response auth machine_id script_name params row user
                  (record t { target_states = rows }) b {url = url} {message = message}
                  {category = category} synced in
              let (done, kept) = client-submitted io m fmt w.link auth 7 job b sent in
              let over : (run_over io m fmt aead dumps py parse_params w auth machine_id machine
                    script_name params row user t a).2
                  ≡ (run_resolved io m fmt aead dumps py parse_params w auth machine_id script_name
                      params row user s (record t { target_states = rows }) b).2 =
                ground arith in
              (
                r,
                subst (RunsGuarded io m fmt (w.link.moment 7) job b.host r)
                    (sym (over ∙ left ∙ same ∙ kept))
                    (submit_job-RunsGuarded io m fmt (w.link.moment 7) job
                      (record b { tracker = record_activity (w.link.moment 7).now b.tracker })
                      {r = r} refl done),
              )
        ]
      ]

  -- What was found for a run, and what the agent has run for it, which leaves it as `after`.
  pub record IsRun (machine_id : ℕ) (script_name : Text) (form : Dict Text FormValue) (user : User)
      (t : JobTables) (a after : Agent io.Doc fmt.Doc) : Type 0 where
    pub machine : Machine
    pub row : ScriptRow
    pub params : Params nums.Number
    pub auth : Text
    pub machine_row : get_machine_or_404 machine_id t.machines ≡ ok machine
    pub access : assert_access user machine_id t.user_machines ≡ ok tt
    pub script_row : lookup script_name t.scripts ≡ some row
    pub made :
        form_params py form (meta_params io m fmt aead dumps py parse_params w row.meta_yaml) []
        ≡ ok params
    pub runs :
        (r : JobStatusResponse) × RunsGuarded io m fmt
          (w.link.moment 7)
          (run_request io m fmt aead dumps py parse_params w script_name params row)
          (agent_at_run machine_id machine script_name row auth t a).host
          r
          after

  -- A run from the page that is answered with the redirect to its job was made by a user with access to
  -- the machine, for a script of the registry; and the agent, as it was after the synchronisation, has
  -- executed the command for a file of a script approved there, with the parameters of the form, which
  -- pass its check: a persistent job is kept with the process of the command, any other has run to its end.
  pub run_submit-IsRun :
      (machine_id : ℕ) (script_name : Text) (form : Dict Text FormValue) (user : User)
      (t : JobTables) (a : Agent io.Doc fmt.Doc) {url message category : Text}
      → (run_submit io m fmt aead dumps py parse_params w machine_id script_name form user t a).0
        ≡ ok (see_other 303 url message category)
      → IsRun machine_id script_name form user t a
          (run_submit io m fmt aead dumps py parse_params w machine_id script_name form user t a).2
  unfolding run_submit run_admission
  run_submit-IsRun machine_id script_name form user t a {url} {message} {category} e =
      elim (Result-cases
        (run_admission io m fmt aead dumps py parse_params w machine_id script_name form user t)) [
          | inr (x, k) ↦ absurd (ground arith)
          | inl ((found_machine, found_row, found_params, found_auth), k) ↦
              let (x, p, k1) = >>=-eq-ok (get_machine_or_404 machine_id t.machines) _ k in
              let (u, q, k2) = >>=-eq-ok (assert_access user machine_id t.user_machines) _ k1 in
              let (y, r, k3) = >>=-eq-ok (script_or_404 (lookup script_name t.scripts)) _ k2 in
              let (z, s, k4) =
                >>=-eq-ok
                  (form_params py form
                    (meta_params io m fmt aead dumps py parse_params w y.meta_yaml) [])
                  _ k3 in
              let (v, o, k5) = >>=-eq-ok (opened aead w x) _ k4 in
              record {
                machine = x;
                row = y;
                params = z;
                auth = v;
                machine_row = p;
                access = q;
                script_row = ground arith;
                made = s;
                runs =
                    let (response, ran) =
                      run_over-guarded v machine_id x script_name z y user t a {url = url}
                        {message = message} {category = category} (ground arith) in
                    let same : (run_submit io m fmt aead dumps py parse_params w machine_id
                          script_name form user t a).2
                        ≡ (run_over io m fmt aead dumps py parse_params w v machine_id x script_name
                            z y user t a).2 =
                      ground arith in
                    (
                      response,
                      subst
                          (RunsGuarded io m fmt (w.link.moment 7)
                            (run_request io m fmt aead dumps py parse_params w script_name z y)
                            (agent_at_run machine_id x script_name y v t a).host response)
                          (sym same) ran,
                    );
              }
        ]
