-- ===== src/Server/Api/Jobs/Submitted.antt =====
-- What a submission that is answered with a job has done.
use csl.Prelude.{
  subst, sym, ◌∙◌, some, >>=-eq-ok, lookup, ◌≢◌, ℕ, Text, Text_Eq, ok, ◌≡◌, arith, refl,
  Result-cases, inl, inr,
}
use csl.Shared.Models.{JobRequest, JobStatusResponse}
use csl.Shared.ScriptMeta.{Numbers}
use csl.Agent.Approvals.Data.{Platform}
use csl.Agent.Params.{Params}
use csl.Agent.Runner as AgentRunner
use csl.Agent.Processes.Records.{StateFormat}
use csl.Agent.Lifecycle.{record_activity}
use csl.Agent.Api.Wire.{Agent}
use csl.Agent.Api.Jobs as AgentJobs
use csl.Agent.Api.App.{dispatch, activity, endpoint}
use csl.Agent.Api.Executed.{RunsContent}
use csl.Agent.Api.Expected.{submit_job-RunsContent}
use csl.Server.Auth.Sessions.{User}
use csl.Server.Core.Crypto.{Aead}
use csl.Server.Core.Registry.Table.{ScriptRow}
use csl.Server.Core.ScriptSync.Remote.{sync_script_over}
use csl.Server.Core.ScriptSync.Sync.{TargetState}
use csl.Server.Core.AgentClient as AgentClient
use csl.Server.Core.AgentClient.{Link, send, ensure_agent_running}
use csl.Server.Api.Machines.{Machine, get_machine_or_404, assert_access}
use csl.Server.Api.Jobs.{JobTables, JobRow}
use csl.Server.Api.Jobs.Client.{
  script_or_404, opened, SubmitJobIn, platform_name, script_of, Surroundings,
}
use csl.Server.Api.Jobs.Submit.{
  submit_job, submit_over, submit_awake, submit_resolved, submit_synced, submit_failed, admission,
  job_row, request_of,
}

module _ (io : Platform) {nums : Numbers} (m : AgentRunner.Machine nums) (fmt : StateFormat) where
  pub client-submitted :
      (link : Link (Agent io.Doc fmt.Doc)) (auth : Text) (n : ℕ)
      (body : JobRequest (Params nums.Number)) (a : Agent io.Doc fmt.Doc) {r : JobStatusResponse}
      → (AgentClient.submit_job io m fmt link auth n body a).0 ≡ ok r
      → ((AgentJobs.submit_job io m fmt
            (link.moment n)
            body
            (record a { tracker = record_activity (link.moment n).now a.tracker })).0
          ≡ ok r)
        × ((AgentClient.submit_job io m fmt link auth n body a).1
            ≡ (AgentJobs.submit_job io m fmt
                (link.moment n)
                body
                (record a { tracker = record_activity (link.moment n).now a.tracker })).1)
  unfolding AgentClient.submit_job send dispatch activity endpoint
  client-submitted link auth n body a e = (ground arith, ground arith)

module _ (io : Platform) {nums : Numbers} (m : AgentRunner.Machine nums) (fmt : StateFormat)
    (aead : Aead) (dumps : Params nums.Number → Text)
    (w : Surroundings (Agent io.Doc fmt.Doc)) where
  -- The agent when the job is sent to it: after the probes and the synchronisation.
  abbrev pub agent_at_submit :
      ℕ
      → Machine × ScriptRow × Text
      → SubmitJobIn (Params nums.Number)
      → JobTables
      → Agent io.Doc fmt.Doc
      → Agent io.Doc fmt.Doc
  agent_at_submit machine_id (machine, row, auth) body t a =
      let (up, a') = ensure_agent_running io m fmt w.link auth (platform_name machine.platform) a in
      (sync_script_over io m fmt w.link auth 5 machine_id (script_of body.script_name row) w.now a'
        t.target_states).1

  -- The rows and the authorization with which a user is admitted, and what the agent has run for
  -- the job of the row `j`, which leaves it as `after`.
  pub record IsSubmitted (machine_id : ℕ) (body : SubmitJobIn (Params nums.Number)) (user : User)
      (t : JobTables) (a : Agent io.Doc fmt.Doc) (j : JobRow) (after : Agent io.Doc fmt.Doc)
      : Type 0 where
    pub found : Machine × ScriptRow × Text
    pub response : JobStatusResponse
    pub machine_row : get_machine_or_404 machine_id t.machines ≡ ok found.0
    pub access : assert_access user machine_id t.user_machines ≡ ok tt
    pub script_row : lookup body.script_name t.scripts ≡ some found.1
    pub authorization : opened aead w found.0 ≡ ok found.2
    pub runs :
        RunsContent io m fmt
          (w.link.moment 7)
          (request_of io m fmt aead dumps w body found.1)
          (agent_at_submit machine_id found body t a).host
          found.1.md5
          response
          after
    pub row : j ≡ job_row io m fmt aead dumps w machine_id body found.1 user response

  admission-rows :
      (machine_id : ℕ) (body : SubmitJobIn (Params nums.Number)) (user : User) (t : JobTables)
      {found : Machine × ScriptRow × Text}
      → admission io m fmt aead dumps w machine_id body user t ≡ ok found
      → (get_machine_or_404 machine_id t.machines ≡ ok found.0)
        × (assert_access user machine_id t.user_machines ≡ ok tt)
        × (lookup body.script_name t.scripts ≡ some found.1)
        × (opened aead w found.0 ≡ ok found.2)
  unfolding admission
  admission-rows machine_id body user t {found} e =
      let (machine, p, e1) = >>=-eq-ok (get_machine_or_404 machine_id t.machines) _ e in
      let (u, q, e2) = >>=-eq-ok (assert_access user machine_id t.user_machines) _ e1 in
      let (row, r, e3) = >>=-eq-ok (script_or_404 (lookup body.script_name t.scripts)) _ e2 in
      let (auth, o, e4) = >>=-eq-ok (opened aead w machine) _ e3 in
      (ground arith, q, ground arith, ground arith)

  submit_failed-err :
      (auth : Text) (machine_id : ℕ) (body : SubmitJobIn (Params nums.Number)) (row : ScriptRow)
      (x : AgentClient.ClientError) (t : JobTables) (a : Agent io.Doc fmt.Doc) {j : JobRow}
      → (submit_failed io m fmt aead dumps w auth machine_id body row x t a).0 ≢ ok j
  unfolding submit_failed
  submit_failed-err auth machine_id body row (AgentClient.approval_error state) t a e = ground arith
  submit_failed-err auth machine_id body row AgentClient.agent_validation_error t a e = ground arith
  submit_failed-err auth machine_id body row AgentClient.no_start_command t a e = ground arith
  submit_failed-err auth machine_id body row AgentClient.agent_not_reachable t a e = ground arith
  submit_failed-err auth machine_id body row AgentClient.http_failure t a e = ground arith
  submit_failed-err auth machine_id body row AgentClient.ssh_failure t a e = ground arith

  submit_synced-response :
      (auth : Text) (machine_id : ℕ) (body : SubmitJobIn (Params nums.Number)) (row : ScriptRow)
      (user : User) (t : JobTables) (a : Agent io.Doc fmt.Doc) {j : JobRow}
      → (submit_synced io m fmt aead dumps w auth machine_id body row user t a).0 ≡ ok j
      → (r : JobStatusResponse) × ((AgentClient.submit_job io m fmt w.link auth 7
            (request_of io m fmt aead dumps w body row)
            a).0
          ≡ ok r)
        × ((submit_synced io m fmt aead dumps w auth machine_id body row user t a).2
            ≡ (AgentClient.submit_job io m fmt w.link auth 7
                (request_of io m fmt aead dumps w body row)
                a).1)
        × (j ≡ job_row io m fmt aead dumps w machine_id body row user r)
  unfolding submit_synced
  submit_synced-response auth machine_id body row user t a {j} e =
      let (response, after) =
        AgentClient.submit_job io m fmt w.link auth 7 (request_of io m fmt aead dumps w body row)
          a in
      elim (Result-cases response) [
        | inl (r, k) ↦ (r, k, ground arith, ground arith)
        | inr (x, k) ↦
            absurd (submit_failed-err auth machine_id body row x t after {j = j} (ground arith))
      ]

  submit_synced-IsSubmitted :
      (auth : Text) (machine_id : ℕ) (body : SubmitJobIn (Params nums.Number)) (row : ScriptRow)
      (user : User) (t : JobTables) (a : Agent io.Doc fmt.Doc) {j : JobRow}
      → (submit_synced io m fmt aead dumps w auth machine_id body row user t a).0 ≡ ok j
      → (r : JobStatusResponse) × RunsContent io m fmt
          (w.link.moment 7)
          (request_of io m fmt aead dumps w body row)
          a.host
          row.md5
          r
          (submit_synced io m fmt aead dumps w auth machine_id body row user t a).2
        × (j ≡ job_row io m fmt aead dumps w machine_id body row user r)
  submit_synced-IsSubmitted auth machine_id body row user t a e =
      let (r, k, left, q) = submit_synced-response auth machine_id body row user t a e in
      let job = request_of io m fmt aead dumps w body row in
      let (sent, same) = client-submitted io m fmt w.link auth 7 job a k in
      (
        r,
        subst (RunsContent io m fmt (w.link.moment 7) job a.host row.md5 r) (sym (left ∙ same)) (
            submit_job-RunsContent io m fmt (w.link.moment 7) job
              (record a { tracker = record_activity (w.link.moment 7).now a.tracker }) row.md5
              {r = r} refl sent),
        q,
      )

  submit_resolved-synced :
      (auth : Text) (machine_id : ℕ) (body : SubmitJobIn (Params nums.Number)) (row : ScriptRow)
      (user : User) (s : TargetState) (t : JobTables) (a : Agent io.Doc fmt.Doc) {j : JobRow}
      → (submit_resolved io m fmt aead dumps w auth machine_id body row user s t a).0 ≡ ok j
      → ((submit_synced io m fmt aead dumps w auth machine_id body row user t a).0 ≡ ok j)
        × ((submit_resolved io m fmt aead dumps w auth machine_id body row user s t a).2
            ≡ (submit_synced io m fmt aead dumps w auth machine_id body row user t a).2)
  unfolding submit_resolved
  submit_resolved-synced auth machine_id body row user s t a e = (ground arith, ground arith)

  submit_over-synced :
      (auth : Text) (machine_id : ℕ) (machine : Machine) (body : SubmitJobIn (Params nums.Number))
      (row : ScriptRow) (user : User) (t : JobTables) (a : Agent io.Doc fmt.Doc) {j : JobRow}
      → (submit_over io m fmt aead dumps w auth machine_id machine body row user t a).0 ≡ ok j
      → (u : JobTables) × ((submit_synced io m fmt aead dumps w auth machine_id body row user u
            (agent_at_submit machine_id (machine, row, auth) body t a)).0
          ≡ ok j)
        × ((submit_over io m fmt aead dumps w auth machine_id machine body row user t a).2
            ≡ (submit_synced io m fmt aead dumps w auth machine_id body row user u
                (agent_at_submit machine_id (machine, row, auth) body t a)).2)
  unfolding submit_over submit_awake
  submit_over-synced auth machine_id machine body row user t a {j} e =
      let (up, a') = ensure_agent_running io m fmt w.link auth (platform_name machine.platform) a in
      let (resolved, b, rows) =
        sync_script_over io m fmt w.link auth 5 machine_id (script_of body.script_name row) w.now a'
          t.target_states in
      elim (Result-cases up) [
        | inr (x, k) ↦ absurd (ground arith)
        | inl (u, k) ↦ elim (Result-cases resolved) [
          | inr (x, l) ↦ absurd (ground arith)
          | inl (s, l) ↦
              let (synced, same) =
                submit_resolved-synced auth machine_id body row user s
                  (record t { target_states = rows }) b {j = j} (ground arith) in
              (record t { target_states = rows }, synced, ground arith)
        ]
      ]

  submit_job-over :
      (machine_id : ℕ) (body : SubmitJobIn (Params nums.Number)) (user : User) (t : JobTables)
      (a : Agent io.Doc fmt.Doc) {found : Machine × ScriptRow × Text}
      → admission io m fmt aead dumps w machine_id body user t ≡ ok found
      → (submit_job io m fmt aead dumps w machine_id body user t a).2
        ≡ (submit_over io m fmt aead dumps w found.2 machine_id found.0 body found.1 user t a).2
  unfolding submit_job
  submit_job-over machine_id body user t a k = ground arith

  -- A submission that is answered with a job was made by a user with access to the machine, for a script
  -- of the registry; and the agent, as it was after the synchronisation, has executed the command for a
  -- file that has the MD5 of the registry, of a script approved there and with parameters that pass: a
  -- persistent job is kept there with the process of the command, any other has run to its end. The row is
  -- that of the job.
  pub submit_job-IsSubmitted :
      (machine_id : ℕ) (body : SubmitJobIn (Params nums.Number)) (user : User) (t : JobTables)
      (a : Agent io.Doc fmt.Doc) {j : JobRow}
      → (submit_job io m fmt aead dumps w machine_id body user t a).0 ≡ ok j
      → IsSubmitted machine_id body user t a j
          (submit_job io m fmt aead dumps w machine_id body user t a).2
  unfolding submit_job
  submit_job-IsSubmitted machine_id body user t a {j} e =
      elim (Result-cases (admission io m fmt aead dumps w machine_id body user t)) [
        | inr (x, k) ↦ absurd (ground arith)
        | inl ((machine, row, auth), k) ↦
            let (u, l, left) =
              submit_over-synced auth machine_id machine body row user t a {j = j} (ground arith) in
            let (r, p, q) =
              submit_synced-IsSubmitted auth machine_id body row user u
                (agent_at_submit machine_id (machine, row, auth) body t a) l in
            let (found_machine, allowed, found_script, opens) =
              admission-rows machine_id body user t k in
            record {
              found = (machine, row, auth);
              response = r;
              machine_row = found_machine;
              access = allowed;
              script_row = found_script;
              authorization = opens;
              runs =
                  subst
                    (RunsContent io m fmt (w.link.moment 7)
                      (request_of io m fmt aead dumps w body row)
                      (agent_at_submit machine_id (machine, row, auth) body t a).host row.md5 r)
                    (sym (submit_job-over machine_id body user t a k ∙ left)) p;
              row = q;
            }
      ]
